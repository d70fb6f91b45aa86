-- ===== src/Target/Step.antt =====
-- The stepping over source lines of class `target`: `step_in`, `step_over` and `step_out` of
-- src/target.cpp. `fuel` bounds the rounds of their loops, which follow the program.
pub mod Out
use kdebugger.Common.{
  ℕ, zero, suc, ◌+◌, ◌-◌, Bool, true, false, not, ◌&&◌, ◌||◌, List, [], ◌∷◌, Option, none, some,
  ◌==◌, ltb, if◌then◌else◌, length, get_elem?, Outcome, ok, fail, undefined, ◌>>=◌, or_fail,
}
use kdebugger.Elf.{FileAddr, to_virt_addr}
use kdebugger.Elf.Addresses.{equal}
use kdebugger.Dwarf.Cursor.{Cursor}
use kdebugger.Dwarf.Die.{Die, DieEntry}
use kdebugger.Dwarf.Die.Ranges.{low_pc, high_pc}
use kdebugger.Dwarf.Die.Index.{function_containing_address}
use kdebugger.Dwarf.LineTable.{Table, Iterator, next}
use kdebugger.Process.Tracee.{Tracee}
use kdebugger.Process.Stop.{StopReason}
use kdebugger.Dwarf.Frame.Unwind.{RegisterFile}
use kdebugger.Target.{
  LoadedElf, Numbers, loaded_of, pc_file_address, lines, line_entry_at_pc, inline_stack_at,
}
use kdebugger.Dwarf.Die.Index.{compile_unit_containing_address}
use kdebugger.Target.Stack.{
  Stack, StackFrame, frames, current_frame_index, simulate_inlined_step_in, dwarf_rip,
}
use kdebugger.Target.Run.{
  Target, Runner, is_step, is_breakpoint, stepped, stack_at, store_stack, pc_of, set_reason,
  step_instruction, run_until_address,
}

-- An iterator at a line with the number of its file; two of them are equal where their positions are.
abbrev pub LinePlace : Type 0
LinePlace = Option (ℕ × Iterator)

abbrev pub same_position : Option Cursor → Option Cursor → Bool
same_position none none = true
same_position none (some d) = false
same_position (some c) none = false
same_position (some c) (some d) = c.pos == d.pos

unfoldable pub same_line : LinePlace → LinePlace → Bool
same_line none none = true
same_line none (some b) = false
same_line (some a) none = false
same_line (some (file, a)) (some (other, b)) =
    (file == other) && same_position a.position b.position

abbrev pub is_end_of_sequence : LinePlace → Bool
is_end_of_sequence none = false
is_end_of_sequence (some (file, it)) = it.current.is_end_sequence

abbrev pub is_somewhere : LinePlace → Bool
is_somewhere none = false
is_somewhere (some a) = true

-- The condition of the loops.
unfoldable pub stays_on : LinePlace → LinePlace → Bool
unfolding same_line
stays_on orig_line now = (same_line now orig_line || is_end_of_sequence now) && is_somewhere now

-- What the disassembler, a library's, gives of two instructions: whether the first one is a call, and the
-- address of the second.
pub record Instructions : Type 0 where
  pub is_call : Bool
  pub second : Option ℕ

module _ (t : Tracee) (R : Type 0) (run : Runner t R) where
  unfoldable pub line_place : ℕ → Target t R → Outcome LinePlace
  unfolding line_entry_at_pc
  line_place tid tgt = do
    let pc = pc_of t R run tid tgt
    found ← line_entry_at_pc run.numbers tgt.elves pc
    elim found [
      | none ↦ ok none
      | some it ↦ do
        file ← or_fail (pc_file_address tgt.elves pc).elf_file
        ok (some (file.number, it))
    ]

  -- The loop of `step_in`. True where a step ended otherwise, which its result then is.
  unfoldable pub step_line :
      ℕ → ℕ → LinePlace → Target t R → Outcome (Bool × StopReason × Target t R)
  unfolding step_instruction set_reason line_place same_line
  step_line zero tid orig_line tgt = fail undefined
  step_line (suc fuel) tid orig_line tgt = do
    (reason, tgt₁) ← step_instruction t R run tid tgt
    elim (is_step reason) [
      | false ↦ do tgt₂ ← set_reason t R run tid reason tgt₁; ok (true, reason, tgt₂)
      | true ↦ do
        now ← line_place tid tgt₁
        elim (stays_on orig_line now) [
          | true ↦ step_line fuel tid orig_line tgt₁
          | false ↦ ok (false, reason, tgt₁)
        ]
    ]

  -- The address of the line entry behind that of the current thread's program counter.
  unfoldable pub next_line_address : Target t R → Outcome (Option ℕ)
  unfolding line_entry_at_pc loaded_of compile_unit_containing_address lines next to_virt_addr
  next_line_address tgt = do
    let virt_pc = pc_of t R run tgt.control.process.current_thread tgt
    let pc = pc_file_address tgt.elves virt_pc
    found ← line_entry_at_pc run.numbers tgt.elves virt_pc
    elim found [
      | none ↦ ok none
      | some line ↦ do
        e ← loaded_of tgt.elves pc
        cu ← compile_unit_containing_address run.numbers.outside e.dwarf pc
        unit ← or_fail cu
        (table, files, start) ← lines run.numbers e unit
        after ← next table line
        v ← to_virt_addr after.current.address
        ok (some v)
    ]

  -- The address behind the prologue, where the program counter is at the start of a function.
  unfoldable pub behind_prologue : ℕ → Target t R → Outcome (Option ℕ)
  unfolding loaded_of function_containing_address low_pc equal next_line_address
  behind_prologue tid tgt = do
    let pc = pc_file_address tgt.elves (pc_of t R run tid tgt)
    elim pc.elf_file [
      | none ↦ ok none
      | some file ↦ do
        e ← loaded_of tgt.elves pc
        (func, index) ← function_containing_address run.numbers.outside e.dwarf [] pc
        elim func [
          | none ↦ ok none
          | some die ↦ do
            entry ← or_fail die.entry
            low ← low_pc run.numbers.outside e.dwarf entry
            if equal low pc then next_line_address tgt else ok none
        ]
    ]

  unfoldable pub step_in : ℕ → ℕ → Target t R → Outcome (StopReason × Target t R)
  unfolding stack_at store_stack set_reason line_place step_line behind_prologue run_until_address
  step_in fuel tid tgt = do
    stack ← stack_at tid tgt.stacks
    if ltb 0 stack.inline_height
        then (do
          let within = record tgt {
            stacks = store_stack (simulate_inlined_step_in stack) tgt.stacks;
          }
          noted ← set_reason t R run tid stepped within
          ok (stepped, noted))
        else (do
          orig_line ← line_place tid tgt
          (interrupted, reason, tgt₁) ← step_line fuel tid orig_line tgt
          if interrupted then ok (reason, tgt₁) else (do
            target ← behind_prologue tid tgt₁
            elim target [
              | some address ↦ run_until_address t R run address tid tgt₁
              | none ↦ do tgt₂ ← set_reason t R run tid stepped tgt₁; ok (stepped, tgt₂)
            ]))

  -- The end of an inlined call: `at` counts from the outermost entry of the inline stack.
  unfoldable pub end_of_inlined : List DieEntry → ℕ → FileAddr → Target t R → Outcome ℕ
  unfolding loaded_of high_pc to_virt_addr
  end_of_inlined inline_stack at pc tgt = do
    die ← or_fail (get_elem? inline_stack at)
    e ← loaded_of tgt.elves pc
    high ← high_pc run.numbers.outside e.dwarf die
    to_virt_addr high

  -- A run to an address within a step over a line; true where it ended elsewhere, or otherwise.
  unfoldable pub run_within : ℕ → ℕ → Target t R → Outcome (Bool × StopReason × Target t R)
  unfolding run_until_address set_reason
  run_within address tid tgt = do
    (reason, tgt₁) ← run_until_address t R run address tid tgt
    if not (is_step reason) || not (pc_of t R run tid tgt₁ == address)
        then (do tgt₂ ← set_reason t R run tid reason tgt₁; ok (true, reason, tgt₂))
        else ok (false, reason, tgt₁)

  unfoldable pub step_within : ℕ → Target t R → Outcome (Bool × StopReason × Target t R)
  unfolding step_instruction set_reason
  step_within tid tgt = do
    (reason, tgt₁) ← step_instruction t R run tid tgt
    if is_step reason
        then ok (false, reason, tgt₁)
        else (do tgt₂ ← set_reason t R run tid reason tgt₁; ok (true, reason, tgt₂))

  -- The body of the loop of `step_over`: an inlined call is run to its end, a call to the instruction
  -- behind it, and any other instruction is stepped.
  unfoldable pub over_once :
      (ℕ → Target t R → Outcome Instructions)
      → ℕ
      → Target t R
      → Outcome (Bool × StopReason × Target t R)
  unfolding stack_at inline_stack_at end_of_inlined run_within step_within
  over_once disassemble tid tgt = do
    stack ← stack_at tid tgt.stacks
    let pc = pc_of t R run tid tgt
    let file_pc = pc_file_address tgt.elves pc
    inline_stack ← inline_stack_at run.numbers tgt.elves file_pc
    if ltb 1 (length inline_stack) && ltb 0 stack.inline_height
        then (do
          return_address ←
              end_of_inlined inline_stack (length inline_stack - stack.inline_height) file_pc tgt
          run_within return_address tid tgt)
        else (do
          instructions ← disassemble pc tgt
          if instructions.is_call
              then (do behind ← or_fail instructions.second; run_within behind tid tgt)
              else step_within tid tgt)

  unfoldable pub over_loop :
      (ℕ → Target t R → Outcome Instructions)
      → ℕ
      → ℕ
      → LinePlace
      → Target t R
      → Outcome (StopReason × Target t R)
  unfolding over_once line_place same_line
  over_loop disassemble zero tid orig_line tgt = fail undefined
  over_loop disassemble (suc fuel) tid orig_line tgt = do
    (interrupted, reason, tgt₁) ← over_once disassemble tid tgt
    elim interrupted [
      | true ↦ ok (reason, tgt₁)
      | false ↦ do
        now ← line_place tid tgt₁
        elim (stays_on orig_line now) [
          | true ↦ over_loop disassemble fuel tid orig_line tgt₁
          | false ↦ ok (reason, tgt₁)
        ]
    ]

  unfoldable pub step_over :
      (ℕ → Target t R → Outcome Instructions)
      → ℕ
      → ℕ
      → Target t R
      → Outcome (StopReason × Target t R)
  unfolding stack_at line_place over_loop
  step_over disassemble fuel tid tgt = do
    stack ← stack_at tid tgt.stacks
    orig_line ← line_place tid tgt
    over_loop disassemble fuel tid orig_line tgt

  -- The loop of `step_out`, while the stack has as many frames as before.
  unfoldable pub out_loop : ℕ → ℕ → ℕ → ℕ → Target t R → Outcome (StopReason × Target t R)
  unfolding run_until_address stack_at frames
  out_loop zero tid size return_address tgt = fail undefined
  out_loop (suc fuel) tid size return_address tgt = do
    (reason, tgt₁) ← run_until_address t R run return_address tid tgt
    elim (not (is_breakpoint reason)
        || not (pc_of t R run tgt₁.control.process.current_thread tgt₁ == return_address)) [
          | true ↦ ok (reason, tgt₁)
          | false ↦ do
            stack ← stack_at tid tgt₁.stacks
            now ← frames stack
            elim (ltb (length now) size) [
              | true ↦ ok (reason, tgt₁)
              | false ↦ out_loop fuel tid size return_address tgt₁
            ]
        ]

  unfoldable pub step_out : ℕ → ℕ → Target t R → Outcome (StopReason × Target t R)
  unfolding stack_at inline_stack_at end_of_inlined run_until_address frames out_loop
  step_out fuel tid tgt = do
    stack ← stack_at tid tgt.stacks
    let file_pc = pc_file_address tgt.elves (pc_of t R run tid tgt)
    inline_stack ← inline_stack_at run.numbers tgt.elves file_pc
    if ltb 1 (length inline_stack) && ltb stack.inline_height (length inline_stack - 1)
        then (do
          return_address ←
              end_of_inlined inline_stack (length inline_stack - stack.inline_height - 1) file_pc
                tgt
          run_until_address t R run return_address tid tgt)
        else (do
          visible ← frames stack
          caller ← or_fail (get_elem? visible (current_frame_index stack + 1))
          return_address ← run.register_file.read_register dwarf_rip caller.regs
          out_loop fuel tid (length visible) return_address tgt)
