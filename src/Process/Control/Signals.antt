-- ===== src/Process/Control/Signals.antt =====
-- `handle_signal`, `get_current_hardware_stoppoint` and `mabye_resume_from_syscall` of
-- src/process.cpp.
use kdebugger.Common.{
  ℕ, zero, suc, ◌+◌, ◌/◌, ◌%◌, Bool, true, false, not, ◌&&◌, List, [], ◌∷◌, ◌++◌, Option, none,
  some, ◌==◌, if◌then◌else◌, get_elem?, set, ◌⊎◌, inl, inr, Outcome, ok, fail, out_of_range,
  undefined, ◌>>=◌, or_fail,
}
use kdebugger.Common.Word.{sub64}
use kdebugger.Stoppoints
use kdebugger.Process.Tracee.{Tracee}
use kdebugger.Process.State.{Thread, site_stoppoint, watchpoint_stoppoint}
use kdebugger.Process.Watch.{update_data}
use kdebugger.Process.Stop.{
  ProcessState, stopped, TrapType, software_break, hardware_break, syscall, clone, StopReason,
  sigtrap, augment_stop_reason,
}
use kdebugger.Process.Control.{with_tracee}
use kdebugger.Process.Threads.{
  Kernel, catch_some, CatchPolicy, Control, find_thread, thread_at, errno_or,
}

abbrev pub is_clone : Option TrapType → Bool
is_clone (some clone) = true
is_clone _ = false

abbrev pub sigstop : ℕ
sigstop = 19

abbrev pub is_stopped : Option ProcessState → Bool
is_stopped (some stopped) = true
is_stopped _ = false

-- `__builtin_ctzll` with `rounds` of the bits left, undefined on 0.
unfoldable pub count_trailing_zeros : ℕ → ℕ → Outcome ℕ
count_trailing_zeros zero status = fail undefined
count_trailing_zeros (suc rounds) status = elim (status % 2 == 1) [
  | true ↦ ok 0
  | false ↦ do n ← count_trailing_zeros rounds (status / 2); ok (n + 1)
]

unfoldable pub registers_at : ℕ → List Thread → Outcome (ℕ → ℕ)
registers_at tid [] = fail out_of_range
registers_at tid (th ∷ rest) =
    let later = registers_at tid rest in if th.tid == tid then ok th.debug else later

-- The syscall's number may be missing, which is undefined.
unfoldable pub is_listed : ℕ → List ℕ → Bool
is_listed id [] = false
is_listed id (n ∷ rest) = let later = is_listed id rest in if n == id then true else later

unfoldable pub should_resume_from_syscall : CatchPolicy → StopReason → Outcome Bool
unfolding is_listed
should_resume_from_syscall policy reason = elim policy.mode [
  | catch_some ↦ do info ← or_fail reason.syscall_info; ok (not (is_listed info.id policy.to_catch))
  | _ ↦ ok false
]

-- The callbacks: `notify_hit` of the breakpoint that a site belongs to, `notify_stop` of the target, and
-- the one for threads that begin or end.
pub record Listeners (t : Tracee) : Type 0 where
  pub notify_hit : ℕ → Control t → Outcome (Bool × Control t)
  pub notify_stop : StopReason → Control t → Outcome (Control t)
  pub report_lifecycle : StopReason → Control t → Outcome (Control t)

module _ (t : Tracee) (k : Kernel t) (l : Listeners t) where
  -- The site's id, or the watchpoint's with its place. Only debug registers 0 to 3 hold addresses.
  unfoldable pub get_current_hardware_stoppoint : ℕ → Control t → Outcome (ℕ ⊎ (ℕ × ℕ))
  unfolding count_trailing_zeros registers_at Stoppoints.contains_address Stoppoints.get_by_address
  get_current_hardware_stoppoint tid c = do
    debug ← registers_at tid c.process.threads
    index ← count_trailing_zeros 64 (debug 6)
    let address = debug index
    if Stoppoints.contains_address site_stoppoint c.process.sites address
        then (do
          i ← Stoppoints.get_by_address site_stoppoint c.process.sites address
          site ← or_fail (get_elem? c.process.sites i)
          ok (inl site.id))
        else (do
          i ← Stoppoints.get_by_address watchpoint_stoppoint c.process.watchpoints address
          point ← or_fail (get_elem? c.process.watchpoints i)
          ok (inr (point.id, i)))

  -- A thread that was not known; its registers are read.
  unfoldable pub emplace_thread : ℕ → Control t → Control t
  emplace_thread tid c = record c {
    threads =
        c.threads
        ++ (record { tid = tid; state = some stopped; reason = none; pending_sigstop = false }
            ∷ []);
    process = record c.process {
      threads =
          c.process.threads
          ++ (record { tid = tid; debug = k.debug_registers c.process.tracee tid } ∷ []);
    };
  }

  -- Whether an enabled site stands right before the program counter.
  unfoldable pub hit_site : ℕ → Control t → Outcome (Option ℕ)
  unfolding Stoppoints.contains_address Stoppoints.get_by_address
  hit_site instr_begin c =
      if Stoppoints.contains_address site_stoppoint c.process.sites instr_begin
      then (do
        i ← Stoppoints.get_by_address site_stoppoint c.process.sites instr_begin
        site ← or_fail (get_elem? c.process.sites i)
        ok (if site.is_enabled then some i else none))
      else ok none

  -- A software break: the program counter goes back to the site, and its breakpoint is told; true
  -- where the process is to go on.
  unfoldable pub software_hit : ℕ → Control t → Outcome (Bool × Control t)
  unfolding hit_site
  software_hit tid c = do
    let instr_begin = sub64 (k.read_pc c.process.tracee tid) 1
    hit ← hit_site instr_begin c
    elim hit [
      | none ↦ ok (false, c)
      | some i ↦ do
        m ← errno_or (k.write_pc c.process.tracee tid instr_begin) "Could not write to user area"
        site ← or_fail (get_elem? c.process.sites i)
        elim site.parent [
          | none ↦ ok (false, with_tracee t k c m)
          | some b ↦ l.notify_hit b (with_tracee t k c m)
        ]
    ]

  -- A hardware break: the value that a watchpoint holds is read anew.
  unfoldable pub hardware_hit : ℕ → Control t → Outcome (Control t)
  unfolding get_current_hardware_stoppoint update_data Stoppoints.get_by_id
  hardware_hit tid c = do
    id ← get_current_hardware_stoppoint tid c
    elim id [
      | inl site_id ↦ ok c
      | inr (point_id, j) ↦ do
        i ← Stoppoints.get_by_id watchpoint_stoppoint c.process.watchpoints point_id
        point ← or_fail (get_elem? c.process.watchpoints i)
        read ← update_data t c.process point
        ok (record c {
          process = record c.process { watchpoints = set c.process.watchpoints i read };
        })
    ]

  -- What a SIGTRAP leads to; true where `handle_signal` reports nothing.
  unfoldable pub handle_trap : StopReason → Bool → Control t → Outcome (Bool × Control t)
  unfolding software_hit hardware_hit should_resume_from_syscall
  handle_trap reason is_main_stop c = elim reason.trap_reason [
    | some software_break ↦ do
      (restart, c') ← software_hit reason.tid c
      ok (restart && is_main_stop, c')
    | some hardware_break ↦ do c' ← hardware_hit reason.tid c; ok (false, c')
    | some syscall ↦
        if is_main_stop
        then (do resumes ← should_resume_from_syscall c.policy reason; ok (resumes, c))
        else ok (false, c)
    | _ ↦ ok (false, c)
  ]

  -- From the reading of the registers on, for a thread that is known and not behind a SIGSTOP.
  unfoldable pub handle_stop :
      StopReason → Bool → Control t → Outcome (Option StopReason × Control t)
  unfolding augment_stop_reason handle_trap
  handle_stop reason is_main_stop c = do
    (told, expecting) ←
        augment_stop_reason (k.siginfo c.process.tracee reason.tid)
          (k.registers c.process.tracee reason.tid) c.expecting_syscall_exit reason
    let c₁ : Control t = record c { expecting_syscall_exit = expecting }
    (silent, c₂) ←
        (if told.info == sigtrap then handle_trap told is_main_stop c₁ else ok (false, c₁))
    if silent then ok (none, c₂) else (do c₃ ← l.notify_stop told c₂; ok (some told, c₃))

  -- A SIGSTOP that was awaited is not reported; that it was is not noted.
  unfoldable pub handle_known :
      StopReason → Bool → Control t → Outcome (Option StopReason × Control t)
  unfolding thread_at handle_stop
  handle_known reason is_main_stop c = do
    th ← thread_at reason.tid c.threads
    if th.pending_sigstop && (reason.info == sigstop)
        then ok (none, c)
        else handle_stop reason is_main_stop c

  unfoldable pub handle_signal :
      StopReason → Bool → Control t → Outcome (Option StopReason × Control t)
  unfolding find_thread emplace_thread handle_known
  handle_signal reason is_main_stop c =
      if is_clone reason.trap_reason && is_main_stop
      then ok (none, c)
      else if c.is_attached && is_stopped reason.reason
      then elim (find_thread reason.tid c.threads) [
        | some th ↦ handle_known reason is_main_stop c
        | none ↦ do
          c₁ ← l.report_lifecycle reason (emplace_thread reason.tid c)
          if is_main_stop then ok (none, c₁) else handle_known reason is_main_stop c₁
      ]
      else ok (some reason, c)
