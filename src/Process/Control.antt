-- ===== src/Process/Control.antt =====
-- The control of threads in src/process.cpp: resuming, stepping over a breakpoint, stopping the
-- threads that run, and dropping those that have ended.
pub mod Signals
pub mod Listed
pub mod Halted
pub mod Handled
pub mod Cleanup
use kdebugger.Common.{
  ℕ, zero, suc, ◌+◌, Bool, true, false, not, ◌&&◌, ◌||◌, List, [], ◌∷◌, ◌++◌, Option, none, some,
  ◌==◌, if◌then◌else◌, map, String, Outcome, ok, fail, sent_errno, out_of_range, ◌>>=◌,
}
use kdebugger.Stoppoints
use kdebugger.Process.Tracee.{Tracee}
use kdebugger.Process.State.{Process, Thread, site_stoppoint}
use kdebugger.Process.Site.{enable, disable}
use kdebugger.Process.Stop.{
  ProcessState, stopped, running, exited, terminated, StopReason, stop_reason, Register, SiCode,
}
use kdebugger.Process.Threads.{
  Kernel, ThreadState, CatchMode, catch_none, catch_some, catch_all, CatchPolicy, Control,
  find_thread, thread_at, update_thread, is_running, has_ended, traces_syscalls, errno_or, or_same,
}

module _ (t : Tracee) (k : Kernel t) where
  abbrev pub with_tracee : Control t → t.State → Control t
  with_tracee c m = record c { process = record c.process { tracee = m } }

  -- `swallow_pending_sigstop`; the results of its two calls are not looked at.
  unfoldable pub swallow_pending_sigstop : ℕ → Control t → Outcome (Control t)
  unfolding thread_at update_thread
  swallow_pending_sigstop tid c = do
    th ← thread_at tid c.threads
    if th.pending_sigstop
        then (let resumed =
              or_same (k.continue_thread false c.process.tracee tid) c.process.tracee in
            let waited =
              or_same (elim (k.wait resumed tid) [ none ↦ none | some r ↦ some r.1 ]) resumed in
            ok (record (with_tracee c waited) {
              threads = update_thread tid (λ s. record s { pending_sigstop = false }) c.threads;
            }))
        else ok c

  unfoldable pub step_over_breakpoint : ℕ → Control t → Outcome (Control t)
  unfolding swallow_pending_sigstop Stoppoints.enabled_stoppoint_at_address
      Stoppoints.get_by_address disable enable
  step_over_breakpoint tid c = do
    let pc = k.read_pc c.process.tracee tid
    there ← Stoppoints.enabled_stoppoint_at_address site_stoppoint c.process.sites pc
    if there
        then (do
          i ← Stoppoints.get_by_address site_stoppoint c.process.sites pc
          p₁ ← disable t i c.process
          c₁ ← swallow_pending_sigstop tid (record c { process = p₁ })
          m₁ ← errno_or (k.single_step c₁.process.tracee tid) "Failed to single-step!"
          (status, m₂) ← errno_or (k.wait m₁ tid) "waitpid failed"
          p₂ ← enable t i (record c₁.process { tracee = m₂ })
          ok (record c₁ { process = p₂ }))
        else ok c

  unfoldable pub send_continue : ℕ → Control t → Outcome (Control t)
  unfolding thread_at update_thread
  send_continue tid c = do
    m ←
        errno_or (k.continue_thread (traces_syscalls c.policy.mode) c.process.tracee tid)
          "Could not resume Process"
    th ← thread_at tid c.threads
    ok (record (with_tracee c m) {
      threads = update_thread tid (λ s. record s { state = some running }) c.threads;
      state = some running;
    })

  unfoldable pub resume : ℕ → Control t → Outcome (Control t)
  unfolding step_over_breakpoint send_continue
  resume tid c = do c' ← step_over_breakpoint tid c; send_continue tid c'

  -- A loop over the threads by their ids.
  unfoldable pub for_threads :
      (ℕ → Control t → Outcome (Control t)) → List ℕ → Control t → Outcome (Control t)
  for_threads body [] c = ok c
  for_threads body (tid ∷ tids) c = do c' ← body tid c; for_threads body tids c'

  abbrev pub tids_of : List ThreadState → List ℕ
  tids_of [] = []
  tids_of (th ∷ rest) = th.tid ∷ tids_of rest

  unfoldable pub resume_all_threads : Control t → Outcome (Control t)
  unfolding for_threads step_over_breakpoint send_continue
  resume_all_threads c = do
    c' ← for_threads step_over_breakpoint (tids_of c.threads) c
    for_threads send_continue (tids_of c'.threads) c'

  -- Whether a SIGSTOP is on its way to the thread, behind its stop.
  unfoldable pub pending_behind : StopReason → Bool → Bool
  pending_behind reason pending = elim reason.reason [
    | some stopped ↦ if not (reason.info == 19) then true else if pending then false else pending
    | _ ↦ pending
  ]

  -- The status that `waitpid` gives behind the SIGSTOP, where one is sent; its result is not looked
  -- at, and without one the status stays 0.
  unfoldable pub stop_status : ℕ → Bool → t.State → ℕ × t.State
  stop_status tid pending m =
      let killed = if pending then m else k.send_sigstop m tid in
      or_same (k.wait killed tid) (0, killed)

  -- The round for a thread that runs, from its first reason on. `handle` is `handle_signal` with
  -- `is_main_stop` off.
  unfoldable pub halt_thread :
      (handle : StopReason → Control t → Outcome (Option StopReason × Control t))
      → ℕ
      → Bool
      → StopReason
      → Control t
      → Outcome (Control t)
  unfolding thread_at update_thread pending_behind
  halt_thread handle tid pending first c = do
    let after = pending_behind first pending
    (handled, c₁) ← handle first (record c {
      threads = update_thread tid (λ s. record s { pending_sigstop = after }) c.threads;
    })
    let reason = or_same handled first
    there ← thread_at tid c₁.threads
    ok (record c₁ {
      threads =
          update_thread tid (λ s. record s { reason = some reason; state = reason.reason })
            c₁.threads;
    })

  -- A round of `stop_running_threads`.
  unfoldable pub stop_thread :
      (handle : StopReason → Control t → Outcome (Option StopReason × Control t))
      → ℕ
      → Control t
      → Outcome (Control t)
  unfolding thread_at stop_status stop_reason halt_thread
  stop_thread handle tid c = do
    th ← thread_at tid c.threads
    let halted = stop_status tid th.pending_sigstop c.process.tracee
    if is_running th.state
        then halt_thread handle tid th.pending_sigstop (stop_reason tid halted.0)
            (with_tracee c halted.1)
        else ok c

  unfoldable pub stop_running_threads :
      (handle : StopReason → Control t → Outcome (Option StopReason × Control t))
      → Control t
      → Outcome (Control t)
  unfolding for_threads stop_thread
  stop_running_threads handle c = for_threads (stop_thread handle) (tids_of c.threads) c

  abbrev pub is_gone : ℕ → ThreadState → Bool
  is_gone main_stop_tid th = not (th.tid == main_stop_tid) && has_ended th.state

  -- The loop of `cleanup_exitied_threads` over what is to be reported.
  unfoldable pub report_of :
      ℕ → ℕ → Option (Option StopReason) → List ThreadState → Option (Option StopReason)
  report_of pid main_stop_tid so_far [] = so_far
  report_of pid main_stop_tid so_far (th ∷ rest) =
      report_of pid main_stop_tid
        (if is_gone main_stop_tid th && (th.tid == pid) then some th.reason else so_far) rest

  unfoldable pub gone_tids : ℕ → List ThreadState → List ℕ
  gone_tids main_stop_tid [] = []
  gone_tids main_stop_tid (th ∷ rest) =
      let others = gone_tids main_stop_tid rest in
      if is_gone main_stop_tid th then th.tid ∷ others else others

  -- `m_Threads.erase`.
  unfoldable pub erase_thread : ℕ → List ThreadState → List ThreadState
  erase_thread tid [] = []
  erase_thread tid (th ∷ rest) =
      let others = erase_thread tid rest in if th.tid == tid then others else th ∷ others

  unfoldable pub erase_registers : ℕ → List Thread → List Thread
  erase_registers tid [] = []
  erase_registers tid (th ∷ rest) =
      let others = erase_registers tid rest in if th.tid == tid then others else th ∷ others

  unfoldable pub erase_all : List ℕ → Control t → Control t
  unfolding erase_thread erase_registers
  erase_all [] c = c
  erase_all (tid ∷ tids) c = erase_all tids (record c {
    threads = erase_thread tid c.threads;
    process = record c.process { threads = erase_registers tid c.process.threads };
  })

  -- With the reason of the main thread, where it is one of those that have ended.
  unfoldable pub cleanup_exited_threads : ℕ → Control t → Option (Option StopReason) × Control t
  unfolding report_of gone_tids erase_all
  cleanup_exited_threads main_stop_tid c = (
    report_of c.pid main_stop_tid none c.threads,
    erase_all (gone_tids main_stop_tid c.threads) c,
  )
