-- ===== src/Target/Run.antt =====
-- The state of class `target` and what it runs the process by: `run_until_address` and the notifications
-- of src/target.cpp, and `step_instruction` of src/process.cpp.
pub mod Removed
use kdebugger.Common.{
  ℕ, zero, suc, Bool, true, false, not, ◌&&◌, List, [], ◌∷◌, ◌++◌, Option, none, some, ◌==◌,
  if◌then◌else◌, length, Outcome, ok, fail, undefined, out_of_range, ◌>>=◌, or_fail,
}
use kdebugger.Stoppoints
use kdebugger.Process.Tracee.{Tracee}
use kdebugger.Process.State.{Process, site_stoppoint}
use kdebugger.Process.Site.{enable, disable, create_breakpoint_site, remove_site}
use kdebugger.Process.Stop.{
  ProcessState, stopped, TrapType, single_step, software_break, hardware_break, StopReason, sigtrap,
}
use kdebugger.Process.Control.{swallow_pending_sigstop, with_tracee, resume}
use kdebugger.Process.Threads.{Kernel, ThreadState, Control, find_thread, update_thread, errno_or}
use kdebugger.Process.Control.Signals.{is_stopped}
use kdebugger.Dwarf.LineTable.ByLine.{Paths}
use kdebugger.Dwarf.Frame.Unwind.{RegisterFile}
use kdebugger.Target.{LoadedElf, Numbers}
use kdebugger.Target.Stack.{Stack, new_stack, unwind_stack}
use kdebugger.Target.Breakpoint.{Breakpoint}

-- The members of `target`. `stacks` is its `m_Threads`, by thread id, and `next_breakpoint_id` the
-- counter of src/breakpoint.cpp.
pub record Target (t : Tracee) (R : Type 0) : Type 0 where
  pub control : Control t
  pub elves : List LoadedElf
  pub main_elf : ℕ
  pub stacks : List (Stack R)
  pub breakpoints : List Breakpoint
  pub rendezvous : ℕ
  pub next_breakpoint_id : ℕ

-- What runs below the target. `registers_of` gives the registers of a stopped thread, `wait_on_signal` is
-- the member of `process` with its calls back into the target, and `rounds` bounds the frames of a stack.
pub record Runner (t : Tracee) (R : Type 0) : Type 0 where
  pub kernel : Kernel t
  pub register_file : RegisterFile R
  pub registers_of : t.State → ℕ → R
  pub numbers : Numbers
  pub paths : Paths
  pub raw_id : ℕ → ℕ
  pub rounds : ℕ
  pub wait_on_signal : ℕ → Target t R → Outcome (StopReason × Target t R)

abbrev pub is_single_step : Option TrapType → Bool
is_single_step (some single_step) = true
is_single_step _ = false

abbrev pub is_break : Option TrapType → Bool
is_break (some software_break) = true
is_break (some hardware_break) = true
is_break _ = false

unfoldable pub is_step : StopReason → Bool
is_step r = is_stopped r.reason && (r.info == sigtrap) && is_single_step r.trap_reason

unfoldable pub is_breakpoint : StopReason → Bool
is_breakpoint r = is_stopped r.reason && (r.info == sigtrap) && is_break r.trap_reason

-- A stop behind a step that the debugger only feigns; it names no thread.
abbrev pub stepped : StopReason
stepped = record {
  tid = 0;
  reason = some stopped;
  info = sigtrap;
  trap_reason = some single_step;
  syscall_info = none;
}

unfoldable pub find_stack : {R : Type 0} → ℕ → List (Stack R) → Option (Stack R)
find_stack tid [] = none
find_stack tid (stack ∷ stacks) =
    let later = find_stack tid stacks in if stack.tid == tid then some stack else later

unfoldable pub store_stack : {R : Type 0} → Stack R → List (Stack R) → List (Stack R)
store_stack new [] = []
store_stack new (stack ∷ stacks) =
    (if stack.tid == new.tid then new else stack) ∷ store_stack new stacks

unfoldable pub erase_stack : {R : Type 0} → ℕ → List (Stack R) → List (Stack R)
erase_stack tid [] = []
erase_stack tid (stack ∷ stacks) =
    let others = erase_stack tid stacks in if stack.tid == tid then others else stack ∷ others

-- `m_Threads.at(tid).frames`, as `get_stack`.
unfoldable pub stack_at : {R : Type 0} → ℕ → List (Stack R) → Outcome (Stack R)
unfolding find_stack
stack_at tid stacks = elim (find_stack tid stacks) [ none ↦ fail out_of_range | some s ↦ ok s ]

-- `emplace`, which leaves an element that is there.
unfoldable pub emplace_stack : {R : Type 0} → ℕ → List (Stack R) → List (Stack R)
unfolding find_stack
emplace_stack tid stacks = elim (find_stack tid stacks) [
  | none ↦ stacks ++ (new_stack tid ∷ [])
  | some s ↦ stacks
]

module _ (t : Tracee) (R : Type 0) (run : Runner t R) where
  abbrev pub with_process : Target t R → Process t → Target t R
  with_process tgt p = record tgt { control = record tgt.control { process = p } }

  abbrev pub pc_of : ℕ → Target t R → ℕ
  pc_of tid tgt = run.kernel.read_pc tgt.control.process.tracee tid

  -- The last definition of `notify_stop`.
  unfoldable pub notify_stop : StopReason → Target t R → Outcome (Target t R)
  unfolding stack_at store_stack unwind_stack
  notify_stop reason tgt = do
    stack ← stack_at reason.tid tgt.stacks
    unwound ←
        unwind_stack run.register_file run.numbers run.rounds tgt.elves tgt.main_elf
          (pc_of tgt.control.process.current_thread tgt)
          (run.registers_of tgt.control.process.tracee stack.tid) stack
    ok (record tgt { stacks = store_stack unwound tgt.stacks })

  unfoldable pub notify_thread_lifecycle_event : StopReason → Target t R → Target t R
  unfolding emplace_stack erase_stack
  notify_thread_lifecycle_event reason tgt =
      if is_stopped reason.reason
      then record tgt { stacks = emplace_stack reason.tid tgt.stacks }
      else record tgt { stacks = erase_stack reason.tid tgt.stacks }

  -- `m_Threads.at(tid).state->reason = reason`. The pointer dangles where the process dropped the thread.
  unfoldable pub set_reason : ℕ → StopReason → Target t R → Outcome (Target t R)
  unfolding stack_at find_thread update_thread
  set_reason tid reason tgt = do
    stack ← stack_at tid tgt.stacks
    there ← or_fail (find_thread tid tgt.control.threads)
    ok (record tgt {
      control = record tgt.control {
        threads = update_thread tid (λ th. record th { reason = some reason }) tgt.control.threads;
      };
    })

  -- `step_instruction`: the site under the program counter is off meanwhile, and looked for by its
  -- address when it is to be on again.
  unfoldable pub step_off_site : ℕ → Target t R → Outcome (Bool × Target t R)
  unfolding Stoppoints.enabled_stoppoint_at_address Stoppoints.get_by_address disable
  step_off_site pc tgt = do
    there ← Stoppoints.enabled_stoppoint_at_address site_stoppoint tgt.control.process.sites pc
    if there
        then (do
          i ← Stoppoints.get_by_address site_stoppoint tgt.control.process.sites pc
          p ← disable t i tgt.control.process
          ok (true, with_process tgt p))
        else ok (false, tgt)

  unfoldable pub reenable_site : ℕ → Bool → Target t R → Outcome (Target t R)
  unfolding Stoppoints.find_by_address enable
  reenable_site pc to_reenable tgt =
      if to_reenable
      then (do
        i ← or_fail (Stoppoints.find_by_address site_stoppoint tgt.control.process.sites pc)
        p ← enable t i tgt.control.process
        ok (with_process tgt p))
      else ok tgt

  unfoldable pub step_instruction : ℕ → Target t R → Outcome (StopReason × Target t R)
  unfolding step_off_site swallow_pending_sigstop reenable_site
  step_instruction tid tgt = do
    let pc = pc_of tid tgt
    (to_reenable, tgt₁) ← step_off_site pc tgt
    c ← swallow_pending_sigstop t run.kernel tid tgt₁.control
    m ← errno_or (run.kernel.single_step c.process.tracee tid) "Could not single step"
    (reason, tgt₂) ← run.wait_on_signal tid (record tgt₁ { control = with_tracee t run.kernel c m })
    tgt₃ ← reenable_site pc to_reenable tgt₂
    ok (reason, tgt₃)

  -- A stop at the address counts as a step.
  abbrev pub reached : ℕ → ℕ → Target t R → StopReason → StopReason
  reached address tid tgt reason =
      if is_breakpoint reason && (pc_of tid tgt == address)
      then record reason { trap_reason = some single_step }
      else reason

  -- The internal site of `run_until_address`, unless one is there.
  unfoldable pub place_unless : Bool → ℕ → Target t R → Outcome (Bool × Target t R)
  unfolding create_breakpoint_site enable
  place_unless true address tgt = ok (false, tgt)
  place_unless false address tgt = do
    p ← create_breakpoint_site t tgt.control.process none 0 address false true (run.raw_id address)
    p' ← enable t (length tgt.control.process.sites) p
    ok (true, with_process tgt p')

  unfoldable pub place_internal : ℕ → Target t R → Outcome (Bool × Target t R)
  unfolding Stoppoints.contains_address place_unless
  place_internal address tgt =
      place_unless (Stoppoints.contains_address site_stoppoint tgt.control.process.sites address)
        address tgt

  unfoldable pub remove_internal : ℕ → Bool → Target t R → Outcome (Target t R)
  unfolding remove_site
  remove_internal address to_remove tgt =
      if to_remove
      then (do p ← remove_site t address tgt.control.process; ok (with_process tgt p))
      else ok tgt

  unfoldable pub run_until_address : ℕ → ℕ → Target t R → Outcome (StopReason × Target t R)
  unfolding place_internal resume remove_internal set_reason
  run_until_address address tid tgt = do
    (to_remove, tgt₁) ← place_internal address tgt
    c ← resume t run.kernel tid tgt₁.control
    (first, tgt₂) ← run.wait_on_signal tid (record tgt₁ { control = c })
    let reason = reached address tid tgt₂ first
    tgt₃ ← remove_internal address to_remove tgt₂
    tgt₄ ← set_reason tid reason tgt₃
    ok (reason, tgt₄)
