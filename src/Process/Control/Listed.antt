-- ===== src/Process/Control/Listed.antt =====
-- Lists of threads, and which of the threads on them still run.
use kdebugger.Common.{
  ℕ, ◌≡◌, ◌≢◌, refl, sym, ap, ◌∙◌, subst, true, false, Bool-cases, List, [], ◌∷◌, Option, none,
  some, ◌==◌, inl, inr, arith,
}
use kdebugger.Process.Tracee.{Tracee}
use kdebugger.Process.Stop.{ProcessState, StopReason, stop_reason}
use kdebugger.Process.Control.{tids_of}
use kdebugger.Process.Threads.{Kernel, ThreadState, find_thread, update_thread, is_running}
use kdebugger.Process.Control.Signals.{is_listed}

-- The threads that run are among those.
abbrev pub RunningWithin : List ℕ → List ThreadState → Type 0
RunningWithin tids threads =
    (tid : ℕ) (th : ThreadState)
    → find_thread tid threads ≡ some th
    → is_running th.state ≡ true
    → is_listed tid tids ≡ true

abbrev pub updated : (ThreadState → ThreadState) → Option ThreadState → Option ThreadState
updated f none = none
updated f (some th) = some (f th)

pub find_thread-update_thread :
    (tid : ℕ) (f : ThreadState → ThreadState) (threads : List ThreadState)
    → ((th : ThreadState) → (f th).tid ≡ th.tid)
    → find_thread tid (update_thread tid f threads) ≡ updated f (find_thread tid threads)
unfolding find_thread update_thread
find_thread-update_thread tid f [] keeps = refl
find_thread-update_thread tid f (th ∷ rest) keeps = elim (Bool-cases (th.tid == tid)) [
  | inl here ↦
      let same : ((f th).tid == tid) ≡ true = ground (arith, keeps th) in rw (here, same) refl
  | inr other ↦ rw (other, other) (find_thread-update_thread tid f rest keeps)
]

pub find_thread-update_thread_other :
    (tid x : ℕ) (f : ThreadState → ThreadState) (threads : List ThreadState)
    → ((th : ThreadState) → (f th).tid ≡ th.tid)
    → x ≢ tid
    → find_thread x (update_thread tid f threads) ≡ find_thread x threads
unfolding find_thread update_thread
find_thread-update_thread_other tid x f [] keeps ne = refl
find_thread-update_thread_other tid x f (th ∷ rest) keeps ne = elim (Bool-cases (th.tid == tid)) [
  | inl here ↦
      let same : ((f th).tid == x) ≡ false = ground (arith, keeps th) in
      let not_this : (th.tid == x) ≡ false = ground arith in
      rw (here, same, not_this) (find_thread-update_thread_other tid x f rest keeps ne)
  | inr other ↦ elim (Bool-cases (th.tid == x)) [
    | inl this ↦ rw (other, this) refl
    | inr not_this ↦ rw (other, not_this) (find_thread-update_thread_other tid x f rest keeps ne)
  ]
]

pub stop_reason-halts : (tid status : ℕ) → is_running (stop_reason tid status).reason ≡ false
unfolding stop_reason
stop_reason-halts tid status = ground arith

pub contradict :
    (a b : Option ProcessState) → a ≡ b → is_running a ≡ true → is_running b ≡ false → ⊥
contradict a b e x y = cc

pub drop_listed :
    (x tid : ℕ) (tids : List ℕ)
    → (tid == x) ≡ false
    → is_listed x (tid ∷ tids) ≡ true
    → is_listed x tids ≡ true
unfolding is_listed
drop_listed x tid tids other listed = rw other at listed

-- Threads other than one are as they were, whatever is done to it.
pub others_within :
    (tid : ℕ) (tids : List ℕ) (f : ThreadState → ThreadState) (threads : List ThreadState)
    → ((th : ThreadState) → (f th).tid ≡ th.tid)
    → RunningWithin (tid ∷ tids) threads
    → (x : ℕ) (th : ThreadState) → (tid == x) ≡ false
    → find_thread x (update_thread tid f threads) ≡ some th
    → is_running th.state ≡ true
    → is_listed x tids ≡ true
unfolding is_listed
others_within tid tids f threads keeps within x th other found runs =
    let ne : x ≢ tid = ground arith in
    let before : find_thread x threads ≡ some th =
      sym (find_thread-update_thread_other tid x f threads keeps ne) ∙ found in
    drop_listed x tid tids other (within x th before runs)

pub pending_within :
    (tid : ℕ) (tids : List ℕ) (f : ThreadState → ThreadState) (threads : List ThreadState)
    → ((th : ThreadState) → (f th).tid ≡ th.tid)
    → RunningWithin (tid ∷ tids) threads
    → RunningWithin (tid ∷ tids) (update_thread tid f threads)
unfolding is_listed
pending_within tid tids f threads keeps within x th found runs = elim (Bool-cases (tid == x)) [
  | inl this ↦ rw this refl
  | inr other ↦ rw other (others_within tid tids f threads keeps within x th other found runs)
]

pub updated-state :
    (r : StopReason) (o : Option ThreadState) (th : ThreadState)
    → updated (λ s. record s { reason = some r; state = r.reason }) o ≡ some th
    → th.state ≡ r.reason
updated-state r none th e = cc
updated-state r (some s) th e = sym (ap (λ o. elim o [ none ↦ r.reason | some q ↦ q.state ]) e)

-- A thread that is halted is taken off the list.
pub halted_one :
    (tid : ℕ) (tids : List ℕ) (r : StopReason) (threads : List ThreadState)
    → is_running r.reason ≡ false
    → RunningWithin (tid ∷ tids) threads
    → RunningWithin tids
        (update_thread tid (λ s. record s { reason = some r; state = r.reason }) threads)
halted_one tid tids r threads h within x th found runs = elim (Bool-cases (tid == x)) [
  | inl this ↦
      let same : x ≡ tid = ground arith in
      let here : find_thread tid
            (update_thread tid (λ s. record s { reason = some r; state = r.reason }) threads)
          ≡ some th =
        subst
          (λ y.
            find_thread y
              (update_thread tid (λ s. record s { reason = some r; state = r.reason }) threads)
            ≡ some th)
          same found in
      let state : th.state ≡ r.reason = updated-state r (find_thread tid threads) th (
        sym (
          find_thread-update_thread tid (λ s. record s { reason = some r; state = r.reason })
            threads (λ s. refl))
        ∙ here) in
      absurd (contradict th.state r.reason state runs h)
  | inr other ↦
      others_within tid tids (λ s. record s { reason = some r; state = r.reason }) threads
        (λ s. refl) within x th other found runs
]

-- A thread that does not run need not be on the list.
pub idle_one :
    (tid : ℕ) (tids : List ℕ) (th : ThreadState) (threads : List ThreadState)
    → find_thread tid threads ≡ some th
    → is_running th.state ≡ false
    → RunningWithin (tid ∷ tids) threads
    → RunningWithin tids threads
unfolding is_listed
idle_one tid tids th threads there idle within x s found runs = elim (Bool-cases (tid == x)) [
  | inl this ↦
      let same : x ≡ tid = ground arith in
      let here : find_thread tid threads ≡ some s =
        subst (λ y. find_thread y threads ≡ some s) same found in
      absurd (
        contradict s.state th.state
          (ap (λ o. elim o [ none ↦ th.state | some q ↦ q.state ]) (sym here ∙ there)) runs idle)
  | inr other ↦ drop_listed x tid tids other (within x s found runs)
]

pub not_listed : (tid : ℕ) → is_listed tid [] ≡ true → ⊥
unfolding is_listed
not_listed tid e = cc

pub all_within :
    (t : Tracee) (k : Kernel t) (threads : List ThreadState)
    → RunningWithin (tids_of t k threads) threads
unfolding is_listed find_thread
all_within t k [] x th found runs = cc
all_within t k (s ∷ rest) x th found runs = elim (Bool-cases (s.tid == x)) [
  | inl here ↦ rw here refl
  | inr other ↦ rw other (all_within t k rest x th (rw other at found) runs)
]
