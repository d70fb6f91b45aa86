-- ===== src/Process/Control/Handled.antt =====
-- What `handle_signal` leaves of the threads and reports while the running threads are stopped.
use kdebugger.Common.{
  ℕ, ◌≡◌, refl, sym, ap, ◌∙◌, subst, Bool, true, false, Bool-cases, ◌&&◌, List, [], ◌∷◌, ◌++◌,
  Option, none, some, Option-cases, ◌==◌, if◌then◌else◌, get_elem?, ◌⊎◌, inl, inr, Outcome, ok,
  or_fail, >>=-eq-ok, ok-injective,
}
use kdebugger.Common.Word.{sub64}
use kdebugger.Stoppoints
use kdebugger.Process.Tracee.{Tracee}
use kdebugger.Process.State.{watchpoint_stoppoint}
use kdebugger.Process.Stop.{
  stopped, TrapType, single_step, software_break, hardware_break, syscall, clone, unknown, SiCode,
  Register, StopReason, sigtrap, augment_stop_reason,
}
use kdebugger.Process.Watch.{update_data}
use kdebugger.Process.Control.{stop_running_threads}
use kdebugger.Process.Threads.{
  Kernel, ThreadState, Control, find_thread, thread_at, is_running, errno_or,
}
use kdebugger.Process.Control.Signals.{
  Listeners, is_stopped, sigstop, get_current_hardware_stoppoint, emplace_thread, hit_site,
  software_hit, hardware_hit, handle_trap, handle_stop, handle_known, handle_signal,
}
use kdebugger.Process.Control.Listed.{RunningWithin}
use kdebugger.Process.Control.Halted.{halted_by}

find_thread-push :
    (x : ℕ) (threads : List ThreadState) (new th : ThreadState)
    → find_thread x (threads ++ (new ∷ [])) ≡ some th
    → (find_thread x threads ≡ some th) ⊎ (new ≡ th)
unfolding find_thread
find_thread-push x [] new th e = elim (Bool-cases (new.tid == x)) [
  | inl here ↦ inr (some_of (rw here at e))
  | inr other ↦ absurd (none_is_some (rw other at e))
]
  where
    some_of : {a b : ThreadState} → some a ≡ some b → a ≡ b
    some_of e = cc

    none_is_some : {a : ThreadState} → none ≡ some a → ⊥
    none_is_some e = cc
find_thread-push x (first ∷ rest) new th e = elim (Bool-cases (first.tid == x)) [
  | inl here ↦ inl (rw here (rw here at e))
  | inr other ↦ rw other (find_thread-push x rest new th (rw other at e))
]

halted_runs : (th : ThreadState) → is_running th.state ≡ false → is_running th.state ≡ true → ⊥
halted_runs th h runs = cc

RunningWithin-push :
    (tids : List ℕ) (threads : List ThreadState) (new : ThreadState)
    → is_running new.state ≡ false
    → RunningWithin tids threads
    → RunningWithin tids (threads ++ (new ∷ []))
RunningWithin-push tids threads new idle within x th found runs =
    elim (find_thread-push x threads new th found) [
      | inl before ↦ within x th before runs
      | inr same ↦
          absurd (
            halted_runs th (subst (λ (s : ThreadState). is_running s.state ≡ false) same idle) runs)
    ]

augment_stop_reason-reason :
    (code : Option SiCode) (regs : Register → ℕ) (expecting after : Bool) (r told : StopReason)
    → augment_stop_reason code regs expecting r ≡ ok (told, after)
    → told.reason ≡ r.reason
unfolding augment_stop_reason
augment_stop_reason-reason none regs expecting after r told e = cc
augment_stop_reason-reason (some code) regs expecting after r told e =
    elim (Bool-cases (r.info == 0x85)) [
      | inl on ↦ sym (ap (λ (q : StopReason × Bool). q.0.reason) (ok-injective (rw on at e)))
      | inr off ↦ sym (ap (λ (q : StopReason × Bool). q.0.reason) (ok-injective (rw off at e)))
    ]

and-false : (b : Bool) → (b && false) ≡ false
and-false true = refl
and-false false = refl

sum-cases : (s : ℕ ⊎ (ℕ × ℕ)) → ((a : ℕ) × (s ≡ inl a)) ⊎ ((b : ℕ × ℕ) × (s ≡ inr b))
sum-cases (inl a) = inl (a, refl)
sum-cases (inr b) = inr (b, refl)

module _ (t : Tracee) (k : Kernel t) (l : Listeners t)
    -- The callbacks leave the process's table of threads as it is.
    (hit_keeps : (b : ℕ) (c c' : Control t) (restart : Bool)
      → l.notify_hit b c ≡ ok (restart, c')
      → c'.threads ≡ c.threads)
    (stop_keeps : (reason : StopReason) (c c' : Control t)
      → l.notify_stop reason c ≡ ok c'
      → c'.threads ≡ c.threads)
    (report_keeps : (reason : StopReason) (c c' : Control t)
      → l.report_lifecycle reason c ≡ ok c'
      → c'.threads ≡ c.threads) where
  abbrev Same : Control t → Control t → Type 0
  Same c c' = c'.threads ≡ c.threads

  -- The second of a result has the same threads.
  second-Same :
      {A : Type 0} (c c₁ c' : Control t) (a a' : A)
      → ◌≡◌ {A = Outcome (A × Control t)} (ok (a, c₁)) (ok (a', c'))
      → Same c c₁
      → Same c c'
  second-Same c c₁ c' a a' e same = subst (Same c) (ap (λ q. q.1) (ok-injective e)) same

  software_hit-threads :
      (tid : ℕ) (c c' : Control t) (restart : Bool)
      → software_hit t k l tid c ≡ ok (restart, c')
      → Same c c'
  unfolding software_hit
  software_hit-threads tid c c' restart e =
      let instr_begin = sub64 (k.read_pc c.process.tracee tid) 1 in
      let (hit, seen, e₁) = >>=-eq-ok (hit_site t k l instr_begin c) _ e in
      elim (Option-cases hit) [
        | inl nothing ↦ second-Same c c c' false restart (rw nothing at e₁) refl
        | inr (i, there) ↦
            let (m, moved, e₂) =
              >>=-eq-ok (errno_or (k.write_pc c.process.tracee tid instr_begin) _) _
                (rw there at e₁) in
            let (site, got, e₃) = >>=-eq-ok (or_fail (get_elem? c.process.sites i)) _ e₂ in
            elim (Option-cases site.parent) [
              | inl alone ↦ second-Same c _ c' false restart (rw alone at e₃) refl
              | inr (b, owned) ↦ hit_keeps b _ c' restart (rw owned at e₃)
            ]
      ]

  hardware_hit-threads : (tid : ℕ) (c c' : Control t) → hardware_hit t k l tid c ≡ ok c' → Same c c'
  unfolding hardware_hit
  hardware_hit-threads tid c c' e =
      let (id, seen, e₁) = >>=-eq-ok (get_current_hardware_stoppoint t k l tid c) _ e in
      elim (sum-cases id) [
        | inl (site_id, is_site) ↦ subst (Same c) (ok-injective (rw is_site at e₁)) refl
        | inr ((point_id, j), is_point) ↦
            let (i, found, e₂) =
              >>=-eq-ok (Stoppoints.get_by_id watchpoint_stoppoint c.process.watchpoints point_id) _
                (rw is_point at e₁) in
            let (point, got, e₃) = >>=-eq-ok (or_fail (get_elem? c.process.watchpoints i)) _ e₂ in
            let (read, done, e₄) = >>=-eq-ok (update_data t c.process point) _ e₃ in
            subst (Same c) (ok-injective e₄) refl
      ]

  handle_trap-threads :
      (trap : Option TrapType) (reason : StopReason) (c c' : Control t) (silent : Bool)
      → reason.trap_reason ≡ trap
      → handle_trap t k l reason false c ≡ ok (silent, c')
      → Same c c'
  unfolding handle_trap
  handle_trap-threads none reason c c' silent is e =
      second-Same c c c' false silent (rw is at e) refl
  handle_trap-threads (some software_break) reason c c' silent is e =
      let ((restart, c₁), hit, e₁) = >>=-eq-ok (software_hit t k l reason.tid c) _ (rw is at e) in
      second-Same c c₁ c' _ silent e₁ (software_hit-threads reason.tid c c₁ restart hit)
  handle_trap-threads (some hardware_break) reason c c' silent is e =
      let (c₁, hit, e₁) = >>=-eq-ok (hardware_hit t k l reason.tid c) _ (rw is at e) in
      second-Same c c₁ c' _ silent e₁ (hardware_hit-threads reason.tid c c₁ hit)
  handle_trap-threads (some syscall) reason c c' silent is e =
      second-Same c c c' false silent (rw is at e) refl
  handle_trap-threads (some single_step) reason c c' silent is e =
      second-Same c c c' false silent (rw is at e) refl
  handle_trap-threads (some clone) reason c c' silent is e =
      second-Same c c c' false silent (rw is at e) refl
  handle_trap-threads (some unknown) reason c c' silent is e =
      second-Same c c c' false silent (rw is at e) refl

  -- The threads are the same, and what is reported, if anything, is the state of the first reason.
  abbrev Reported : StopReason → Control t → Option StopReason × Control t → Type 0
  Reported reason c q =
      Same c q.1 × ((told : StopReason) → q.0 ≡ some told → told.reason ≡ reason.reason)

  silent-Reported :
      (reason : StopReason) (c c₁ : Control t) → Same c c₁ → Reported reason c (none, c₁)
  silent-Reported reason c c₁ same = (same, λ told e. cc)

  told-Reported :
      (reason r : StopReason) (c c₁ : Control t)
      → Same c c₁
      → r.reason ≡ reason.reason
      → Reported reason c (some r, c₁)
  told-Reported reason r c c₁ same e = (
    same,
    λ told is.
        sym (ap (λ (o : Option StopReason). elim o [ none ↦ none | some x ↦ x.reason ]) is) ∙ e,
  )

  handle_stop-Reported :
      (reason : StopReason) (c : Control t) (q : Option StopReason × Control t)
      → handle_stop t k l reason false c ≡ ok q
      → Reported reason c q
  unfolding handle_stop
  handle_stop-Reported reason c q e =
      let ((told, expecting), augmented, e₁) =
        >>=-eq-ok
          (augment_stop_reason (k.siginfo c.process.tracee reason.tid)
            (k.registers c.process.tracee reason.tid) c.expecting_syscall_exit reason)
          _ e in
      let c₁ : Control t = record c { expecting_syscall_exit = expecting } in
      let ((silent, c₂), trapped, e₂) =
        >>=-eq-ok (if told.info == sigtrap then handle_trap t k l told false c₁ else ok (false, c₁))
          _ e₁ in
      let same : Same c c₂ = elim (Bool-cases (told.info == sigtrap)) [
        | inl trap ↦
            handle_trap-threads told.trap_reason told c₁ c₂ silent refl (rw trap at trapped)
        | inr other ↦ second-Same c c₁ c₂ false silent (rw other at trapped) refl
      ] in
      elim (Bool-cases silent) [
        | inl quiet ↦
            subst (Reported reason c) (ok-injective (rw quiet at e₂))
              (silent-Reported reason c c₂ same)
        | inr loud ↦
            let (c₃, noted, e₃) = >>=-eq-ok (l.notify_stop told c₂) _ (rw loud at e₂) in
            subst (Reported reason c) (ok-injective e₃) (
              told-Reported reason told c c₃ (stop_keeps told c₂ c₃ noted ∙ same)
                (augment_stop_reason-reason _ _ _ expecting reason told augmented))
      ]

  handle_known-Reported :
      (reason : StopReason) (c : Control t) (q : Option StopReason × Control t)
      → handle_known t k l reason false c ≡ ok q
      → Reported reason c q
  unfolding handle_known
  handle_known-Reported reason c q e =
      let (th, known, e₁) = >>=-eq-ok (thread_at reason.tid c.threads) _ e in
      elim (Bool-cases (th.pending_sigstop && (reason.info == sigstop))) [
        | inl awaited ↦
            subst (Reported reason c) (ok-injective (rw awaited at e₁))
              (silent-Reported reason c c refl)
        | inr other ↦ handle_stop-Reported reason c q (rw other at e₁)
      ]

  -- As above, but for a stopped thread that was not known.
  abbrev Handled : StopReason → Control t → Option StopReason × Control t → Type 0
  Handled reason c q =
      ((tids : List ℕ) → RunningWithin tids c.threads → RunningWithin tids q.1.threads)
      × ((told : StopReason) → q.0 ≡ some told → told.reason ≡ reason.reason)

  same-Handled :
      (reason : StopReason) (c : Control t) (q : Option StopReason × Control t)
      → Reported reason c q
      → Handled reason c q
  same-Handled reason c q (same, tells) =
      ((λ tids within. subst (RunningWithin tids) (sym same) within), tells)

  handle_signal-Handled :
      (reason : StopReason) (c : Control t) (q : Option StopReason × Control t)
      → handle_signal t k l reason false c ≡ ok q
      → Handled reason c q
  unfolding handle_signal emplace_thread
  handle_signal-Handled reason c q e₀ =
      let e = rw and-false at e₀ in
      elim (Bool-cases (c.is_attached && is_stopped reason.reason)) [
        | inr other ↦
            subst (Handled reason c) (ok-injective (rw other at e))
              (same-Handled reason c (some reason, c) (told-Reported reason reason c c refl refl))
        | inl halted ↦ elim (Option-cases (find_thread reason.tid c.threads)) [
          | inr (th, known) ↦
              same-Handled reason c q (handle_known-Reported reason c q (rw (halted, known) at e))
          | inl unknown_yet ↦
              let (c₁, reported, e₁) =
                >>=-eq-ok (l.report_lifecycle reason (emplace_thread t k l reason.tid c)) _
                  (rw (halted, unknown_yet) at e) in
              let (same, tells) = handle_known-Reported reason c₁ q e₁ in
              let new : ThreadState = record {
                tid = reason.tid;
                state = some stopped;
                reason = none;
                pending_sigstop = false;
              } in
              let grown : q.1.threads ≡ c.threads ++ (new ∷ []) =
                same ∙ report_keeps reason (emplace_thread t k l reason.tid c) c₁ reported in
              (
                (λ tids within.
                    subst (RunningWithin tids) (sym grown)
                      (RunningWithin-push tids c.threads new refl within)),
                tells,
              )
        ]
      ]

  -- Once `stop_running_threads`, which hands each stop to `handle_signal`, has returned, no thread runs,
  -- where the callbacks of the breakpoints and of the target leave the process's threads as they are.
  pub stop_running_threads-halted :
      (c c' : Control t) (tid : ℕ) (th : ThreadState)
      → stop_running_threads t k (λ reason c. handle_signal t k l reason false c) c ≡ ok c'
      → find_thread tid c'.threads ≡ some th
      → is_running th.state ≡ false
  stop_running_threads-halted =
      halted_by t k (λ reason c. handle_signal t k l reason false c)
        (λ reason c c' told tids e within.
          (handle_signal-Handled reason c (told, c') e).0 tids within)
        (λ reason c c' told e halts.
          ap is_running ((handle_signal-Handled reason c (some told, c') e).1 told refl) ∙ halts)
