-- ===== src/Process/Control/Halted.antt =====
-- That `stop_running_threads` leaves no thread running, for any handler of stops that starts none.
use kdebugger.Common.{
  ℕ, ◌≡◌, refl, ap, ◌∙◌, subst, Bool, false, Bool-cases, List, [], ◌∷◌, Option, none, some,
  if◌then◌else◌, inl, inr, Outcome, ok, >>=-eq-ok, ok-injective, fail-ne-ok, Option-cases,
}
use kdebugger.Process.Tracee.{Tracee}
use kdebugger.Process.Stop.{StopReason, stop_reason}
use kdebugger.Process.Control.{
  with_tracee, for_threads, tids_of, pending_behind, stop_status, halt_thread, stop_thread,
  stop_running_threads,
}
use kdebugger.Process.Threads.{
  Kernel, ThreadState, Control, find_thread, thread_at, update_thread, is_running, or_same,
}
use kdebugger.Process.Control.Signals.{is_listed}
use kdebugger.Process.Control.Listed.{
  RunningWithin, stop_reason-halts, pending_within, halted_one, idle_one, not_listed, all_within,
}

module _ (t : Tracee) (k : Kernel t)
    (handle : StopReason → Control t → Outcome (Option StopReason × Control t))
    -- The handler of a stop starts no thread.
    (starts_none : (reason : StopReason) (c c' : Control t) (told : Option StopReason)
        (tids : List ℕ)
      → handle reason c ≡ ok (told, c')
      → RunningWithin tids c.threads
      → RunningWithin tids c'.threads)
    -- What it reports of a thread that has stopped or ended is not that it runs.
    (reports_halt : (reason : StopReason) (c c' : Control t) (told : StopReason)
      → handle reason c ≡ ok (some told, c')
      → is_running reason.reason ≡ false
      → is_running told.reason ≡ false) where
  or_same-halts :
      (reason : StopReason) (c c' : Control t) (told : Option StopReason)
      → handle reason c ≡ ok (told, c')
      → is_running reason.reason ≡ false
      → is_running (or_same told reason).reason ≡ false
  or_same-halts reason c c' none e h = h
  or_same-halts reason c c' (some told) e h = reports_halt reason c c' told e h

  halt_thread-within :
      (tid : ℕ) (tids : List ℕ) (pending : Bool) (first : StopReason) (c c' : Control t)
      → is_running first.reason ≡ false
      → halt_thread t k handle tid pending first c ≡ ok c'
      → RunningWithin (tid ∷ tids) c.threads
      → RunningWithin tids c'.threads
  unfolding halt_thread
  halt_thread-within tid tids pending first c c' halts e within =
      let f : ThreadState → ThreadState =
        λ s. record s { pending_sigstop = pending_behind t k first pending } in
      let c₀ : Control t = record c { threads = update_thread tid f c.threads } in
      let ((told, c₁), got, e₁) = >>=-eq-ok (handle first c₀) _ e in
      let (there, found, e₂) = >>=-eq-ok (thread_at tid c₁.threads) _ e₁ in
      subst (λ (q : Control t). RunningWithin tids q.threads) (ok-injective e₂)
        (halted_one tid tids (or_same told first) c₁.threads
          (or_same-halts first c₀ c₁ told got halts)
          (starts_none first c₀ c₁ told (tid ∷ tids) got
            (pending_within tid tids f c.threads (λ s. refl) within)))

  stopped_or_idle :
      (tid : ℕ) (tids : List ℕ) (c c' : Control t) (th : ThreadState) (first : StopReason)
      (m : t.State)
      → find_thread tid c.threads ≡ some th
      → is_running first.reason ≡ false
      → (if is_running th.state
          then halt_thread t k handle tid th.pending_sigstop first (with_tracee t k c m)
          else ok c)
        ≡ ok c'
      → RunningWithin (tid ∷ tids) c.threads
      → RunningWithin tids c'.threads
  stopped_or_idle tid tids c c' th first m there halts e within =
      elim (Bool-cases (is_running th.state)) [
        | inr idle ↦
            subst (λ (q : Control t). RunningWithin tids q.threads) (ok-injective (rw idle at e))
              (idle_one tid tids th c.threads there idle within)
        | inl runs ↦
            halt_thread-within tid tids th.pending_sigstop first (with_tracee t k c m) c' halts
              (rw runs at e) within
      ]

  thread_at-find_thread :
      (tid : ℕ) (threads : List ThreadState) (th : ThreadState)
      → thread_at tid threads ≡ ok th
      → find_thread tid threads ≡ some th
  unfolding thread_at
  thread_at-find_thread tid threads th e = elim (Option-cases (find_thread tid threads)) [
    | inl missing ↦ absurd (fail-ne-ok (rw (thread_at, missing) at e))
    | inr (found, there) ↦ there ∙ ap some (ok-injective (rw (thread_at, there) at e))
  ]

  stop_thread-within :
      (tid : ℕ) (tids : List ℕ) (c c' : Control t)
      → stop_thread t k handle tid c ≡ ok c'
      → RunningWithin (tid ∷ tids) c.threads
      → RunningWithin tids c'.threads
  unfolding stop_thread
  stop_thread-within tid tids c c' e within =
      let (th, got, e₁) = >>=-eq-ok (thread_at tid c.threads) _ e in
      let halted = stop_status t k tid th.pending_sigstop c.process.tracee in
      stopped_or_idle tid tids c c' th (stop_reason tid halted.0) halted.1
        (thread_at-find_thread tid c.threads th got) (stop_reason-halts tid halted.0) e₁ within

  for_threads-within :
      (tids : List ℕ) (c c' : Control t)
      → for_threads t k (stop_thread t k handle) tids c ≡ ok c'
      → RunningWithin tids c.threads
      → RunningWithin [] c'.threads
  unfolding for_threads
  for_threads-within [] c c' e within =
      subst (λ (q : Control t). RunningWithin [] q.threads) (ok-injective e) within
  for_threads-within (tid ∷ tids) c c' e within =
      let (c₁, step, others) = >>=-eq-ok (stop_thread t k handle tid c) _ e in
      for_threads-within tids c₁ c' others (stop_thread-within tid tids c c₁ step within)

  -- Once `stop_running_threads` has returned, no thread runs, where the handler of a stop starts no
  -- thread, and does not report of a thread that has stopped or ended that it runs.
  pub halted_by :
      (c c' : Control t) (tid : ℕ) (th : ThreadState)
      → stop_running_threads t k handle c ≡ ok c'
      → find_thread tid c'.threads ≡ some th
      → is_running th.state ≡ false
  unfolding stop_running_threads is_listed
  halted_by c c' tid th e found = elim (Bool-cases (is_running th.state)) [
    | inr idle ↦ idle
    | inl runs ↦ absurd (
        not_listed tid (
          for_threads-within (tids_of t k c.threads) c c' e (all_within t k c.threads) tid th found
            runs))
  ]
