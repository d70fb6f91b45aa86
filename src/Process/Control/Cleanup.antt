-- ===== src/Process/Control/Cleanup.antt =====
-- What `cleanup_exitied_threads` of src/process.cpp leaves and reports.
use kdebugger.Common.{ℕ, ◌≡◌, List, [], ◌∷◌, Option, none, some, if◌then◌else◌}
use kdebugger.Process.Tracee.{Tracee}
use kdebugger.Process.Stop.{StopReason}
use kdebugger.Process.Control.{is_gone}
use kdebugger.Process.Threads.{Kernel, ThreadState, Control, find_thread}

-- The keys of `m_Threads` are distinct.
abbrev pub IsKeyed : List ThreadState → Type 0
IsKeyed [] = Unit
IsKeyed (th ∷ rest) = (find_thread th.tid rest ≡ none) × IsKeyed rest

module _ (t : Tracee) (k : Kernel t) where
  abbrev pub remaining : ℕ → Option ThreadState → Option ThreadState
  remaining m none = none
  remaining m (some th) = if is_gone t k m th then none else some th

  abbrev pub last_reason : ℕ → Option ThreadState → Option (Option StopReason)
  last_reason m none = none
  last_reason m (some th) = if is_gone t k m th then some th.reason else none
