-- ===== src/Process/Stop.antt =====
-- `stop_reason` and `augment_stop_reason` of src/process.cpp: why the tracee stopped. The macros on
-- a wait status are the C library's.
pub mod Status
pub mod Syscalls
use kdebugger.Common.{
  ℕ, ◌+◌, ◌-◌, ◌*◌, ◌/◌, ◌%◌, bit_and, bit_or, Bool, true, false, not, ◌&&◌, List, [], ◌∷◌, Option,
  none, some, if◌then◌else◌, ◌==◌, leb, ◌^◌, map, String, Outcome, ok, fail, sent_errno,
}

pub data ProcessState : Type 0 where
  stopped running exited terminated : ProcessState

pub data TrapType : Type 0 where
  single_step software_break hardware_break syscall clone unknown : TrapType

-- `syscall_information`; the union is read by `entry`.
pub record SyscallInfo : Type 0 where
  pub entry : Bool
  pub id : ℕ
  pub args : List ℕ
  pub ret : ℕ

pub record StopReason : Type 0 where
  pub tid : ℕ
  pub reason : Option ProcessState
  pub info : ℕ
  pub trap_reason : Option TrapType
  pub syscall_info : Option SyscallInfo

abbrev pub sigtrap : ℕ
sigtrap = 5

abbrev pub ptrace_event_clone : ℕ
ptrace_event_clone = 3

abbrev pub wifexited : ℕ → Bool
wifexited status = bit_and status 0x7f == 0

abbrev pub wexitstatus : ℕ → ℕ
wexitstatus status = bit_and status 0xff00 / 256

abbrev pub wtermsig : ℕ → ℕ
wtermsig status = bit_and status 0x7f

-- `((signed char) ((status & 0x7f) + 1) >> 1) > 0`.
abbrev pub wifsignaled : ℕ → Bool
wifsignaled status = let c = bit_and status 0x7f + 1 in leb 2 c && leb c 127

abbrev pub wifstopped : ℕ → Bool
wifstopped status = bit_and status 0xff == 0x7f

-- The constructor from a wait status; a member that it leaves alone is none, or 0 for `info`.
unfoldable pub stop_reason : ℕ → ℕ → StopReason
stop_reason tid status =
    let trap =
      if status / 256 == bit_or sigtrap (ptrace_event_clone * 256) then some clone else none in
    if wifexited status
    then record {
      tid = tid;
      reason = some exited;
      info = wexitstatus status;
      trap_reason = trap;
      syscall_info = none;
    }
    else if wifsignaled status
    then record {
      tid = tid;
      reason = some terminated;
      info = wtermsig status;
      trap_reason = trap;
      syscall_info = none;
    }
    else if wifstopped status
    then record {
      tid = tid;
      reason = some stopped;
      info = wexitstatus status;
      trap_reason = trap;
      syscall_info = none;
    }
    else record { tid = tid; reason = none; info = 0; trap_reason = trap; syscall_info = none }

-- The registers of a system call.
pub data Register : Type 0 where
  orig_rax rax rdi rsi rdx r10 r8 r9 : Register

-- `si_code` of the signal's information.
pub data SiCode : Type 0 where
  trap_trace si_kernel trap_hwbkpt other_code : SiCode

abbrev pub trap_of : SiCode → TrapType
trap_of trap_trace = single_step
trap_of si_kernel = software_break
trap_of trap_hwbkpt = hardware_break
trap_of other_code = unknown

abbrev pub syscall_info_of : (Register → ℕ) → Bool → SyscallInfo
syscall_info_of regs true = record {
  entry = false;
  id = regs orig_rax % 2 ^ 16;
  args = [];
  ret = regs rax;
}
syscall_info_of regs false = record {
  entry = true;
  id = regs orig_rax % 2 ^ 16;
  args = map regs (rdi ∷ rsi ∷ rdx ∷ r10 ∷ r8 ∷ r9 ∷ []);
  ret = 0;
}

-- `augment_stop_reason` with `expecting_syscall_exit` before and after. The signal's information is
-- the kernel's answer to PTRACE_GETSIGINFO, none where the call fails, and `regs` are the thread's
-- registers.
unfoldable pub augment_stop_reason :
    Option SiCode → (Register → ℕ) → Bool → StopReason → Outcome (StopReason × Bool)
augment_stop_reason none regs expecting_syscall_exit r =
    fail (sent_errno "Failed to get signal info")
augment_stop_reason (some code) regs expecting_syscall_exit r =
    if r.info == bit_or sigtrap 0x80
    then ok (
      record r {
        info = sigtrap;
        trap_reason = some syscall;
        syscall_info = some (syscall_info_of regs expecting_syscall_exit);
      },
      not expecting_syscall_exit,
    )
    else ok (
      record r { trap_reason = some (if r.info == sigtrap then trap_of code else unknown) },
      false,
    )
