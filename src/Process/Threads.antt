-- ===== src/Process/Threads.antt =====
-- The threads of class `process` and what the control of them keeps (include/libkdebugger/process.hpp and
-- src/process.cpp), with the kernel's calls.
use kdebugger.Common.{
  ℕ, Bool, true, false, List, [], ◌∷◌, Option, none, some, ◌==◌, if◌then◌else◌, String, Outcome, ok,
  fail, sent_errno, out_of_range,
}
use kdebugger.Process.Tracee.{Tracee}
use kdebugger.Process.State.{Process}
use kdebugger.Process.Stop.{
  ProcessState, stopped, running, exited, terminated, StopReason, Register, SiCode,
}

-- What the kernel does for the control of threads: PTRACE_CONT or PTRACE_SYSCALL, PTRACE_SINGLESTEP,
-- `tgkill` with SIGSTOP, `waitpid` on a thread with its status, and the registers of a stopped thread.
-- A call that fails gives none.
pub record Kernel (t : Tracee) : Type 0 where
  pub continue_thread : Bool → t.State → ℕ → Option t.State
  pub single_step : t.State → ℕ → Option t.State
  pub send_sigstop : t.State → ℕ → t.State
  pub wait : t.State → ℕ → Option (ℕ × t.State)
  pub siginfo : t.State → ℕ → Option SiCode
  pub registers : t.State → ℕ → Register → ℕ
  pub read_pc : t.State → ℕ → ℕ
  pub write_pc : t.State → ℕ → ℕ → Option t.State
  pub debug_registers : t.State → ℕ → ℕ → ℕ

-- The part of `thread_state` that is not its registers; a state or a reason that the wait status does
-- not set is none.
pub record ThreadState : Type 0 where
  pub tid : ℕ
  pub state : Option ProcessState
  pub reason : Option StopReason
  pub pending_sigstop : Bool

pub data CatchMode : Type 0 where
  catch_none catch_some catch_all : CatchMode

-- `syscall_catch_policy`.
pub record CatchPolicy : Type 0 where
  pub mode : CatchMode
  pub to_catch : List ℕ

-- The members of `process` that the control uses. The map `m_Threads` is two lists: the registers of
-- the threads stand in `process`, and what is left of them in `threads`.
pub record Control (t : Tracee) : Type 0 where
  pub process : Process t
  pub threads : List ThreadState
  pub pid : ℕ
  pub state : Option ProcessState
  pub is_attached : Bool
  pub policy : CatchPolicy
  pub expecting_syscall_exit : Bool

unfoldable pub find_thread : ℕ → List ThreadState → Option ThreadState
find_thread tid [] = none
find_thread tid (th ∷ rest) =
    let later = find_thread tid rest in if th.tid == tid then some th else later

-- `m_Threads.at`.
unfoldable pub thread_at : ℕ → List ThreadState → Outcome ThreadState
unfolding find_thread
thread_at tid threads = elim (find_thread tid threads) [
  | none ↦ fail out_of_range
  | some th ↦ ok th
]

-- The threads with what `f` makes of the one with that id.
unfoldable pub update_thread : ℕ → (ThreadState → ThreadState) → List ThreadState → List ThreadState
update_thread tid f [] = []
update_thread tid f (th ∷ rest) = (if th.tid == tid then f th else th) ∷ update_thread tid f rest

abbrev pub is_running : Option ProcessState → Bool
is_running none = false
is_running (some stopped) = false
is_running (some running) = true
is_running (some exited) = false
is_running (some terminated) = false

abbrev pub has_ended : Option ProcessState → Bool
has_ended none = false
has_ended (some stopped) = false
has_ended (some running) = false
has_ended (some exited) = true
has_ended (some terminated) = true

abbrev pub traces_syscalls : CatchMode → Bool
traces_syscalls catch_none = false
traces_syscalls catch_some = true
traces_syscalls catch_all = true

abbrev pub errno_or {ℓ} : {A : Type ℓ} → Option A → String → Outcome A
errno_or none message = fail (sent_errno message)
errno_or (some a) message = ok a

-- A call whose failure the code does not look at.
abbrev pub or_same : {A : Type 0} → Option A → A → A
or_same none a = a
or_same (some b) a = b
