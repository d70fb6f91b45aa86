-- ===== src/Target/Stack.antt =====
-- Class `stack` of src/stack.cpp: the frames of a stopped thread, those of inlined calls included.
pub mod Inline
use mathlib.Core.List.{reverse}
use kdebugger.Common.{
  ℕ, zero, suc, ◌+◌, ◌-◌, ◌%◌, ◌^◌, Bool, true, false, not, ◌&&◌, List, [], ◌∷◌, ◌++◌, Option, none,
  some, ◌==◌, if◌then◌else◌, length, drop, get_elem?, ltb, Outcome, ok, fail, undefined, ◌>>=◌,
  or_fail,
}
use kdebugger.Common.Word.{add64, sub64}
use kdebugger.Elf.{FileAddr, to_virt_addr}
use kdebugger.Elf.Addresses.{equal, same_file}
use kdebugger.Dwarf.Die.{DieEntry}
use kdebugger.Dwarf.Die.Ranges.{low_pc}
use kdebugger.Dwarf.Die.Location.{location}
use kdebugger.Dwarf.Frame.Unwind.{RegisterFile, unwind}
use kdebugger.Dwarf.LineTable.{File, Iterator}
use kdebugger.Target.{
  LoadedElf, Numbers, loaded_of, pc_file_address, lines, line_entry_at_address, inline_stack_at,
}

-- `source_location`; a line without an entry has no file.
abbrev pub SourceLocation : Type 0
SourceLocation = Option File × ℕ

pub record StackFrame (R : Type 0) : Type 0 where
  pub regs : R
  pub backtrace_report_address : ℕ
  pub func_die : DieEntry
  pub inlined : Bool
  pub location : SourceLocation

-- The members of `stack`, but its target.
pub record Stack (R : Type 0) : Type 0 where
  pub tid : ℕ
  pub inline_height : ℕ
  pub stack_frames : List (StackFrame R)
  pub current_frame : ℕ

abbrev pub new_stack : {R : Type 0} → ℕ → Stack R
new_stack tid = record { tid = tid; inline_height = 0; stack_frames = []; current_frame = 0 }

-- The loop of `reset_inline_height`, over the stack from its innermost entry on.
unfoldable pub height_loop : Numbers → LoadedElf → FileAddr → List DieEntry → Outcome ℕ
unfolding low_pc equal
height_loop n e pc [] = ok 0
height_loop n e pc (die ∷ outer) = do
  low ← low_pc n.outside e.dwarf die
  if equal low pc then (do more ← height_loop n e pc outer; ok (more + 1)) else ok 0

-- `reset_inline_height`: the inline stack is that of the thread's program counter, and `current_pc`
-- that of the current thread.
unfoldable pub inline_height_at : Numbers → List LoadedElf → FileAddr → FileAddr → Outcome ℕ
unfolding inline_stack_at loaded_of height_loop
inline_height_at n elves pc current_pc = do
  dies ← inline_stack_at n elves pc
  elim dies [
    | [] ↦ ok 0
    | first ∷ others ↦ do
      e ← loaded_of elves pc
      height_loop n e current_pc (reverse (first ∷ others))
  ]

-- `source_location` of the entry of a program counter; that of an iterator at no entry is its initial
-- value.
abbrev pub location_of : Option Iterator → SourceLocation
location_of none = (none, 1)
location_of (some it) =
    (elim it.current.file_entry [ none ↦ none | some i ↦ get_elem? it.files i ], it.current.line)

abbrev pub has_more : List DieEntry → Bool
has_more [] = false
has_more (die ∷ dies) = true

-- The number of rip in DWARF.
abbrev pub dwarf_rip : ℕ
dwarf_rip = 16

abbrev pub is_main : ℕ → FileAddr → Bool
is_main main a = elim a.elf_file [ none ↦ false | some file ↦ file.number == main ]

-- The address that a frame shows: its line's, where it has one.
abbrev pub shown_at : ℕ → Option Iterator → Outcome ℕ
shown_at pc none = ok pc
shown_at pc (some it) = to_virt_addr it.current.address

module _ {R : Type 0} (regs : RegisterFile R) (n : Numbers) where
  unfoldable pub create_base_frame :
      LoadedElf → R → DieEntry → FileAddr → Bool → Outcome (StackFrame R)
  unfolding line_entry_at_address
  create_base_frame e r die pc inlined = do
    backtrace_pc ← to_virt_addr pc
    line_entry ← line_entry_at_address n e pc
    shown ← shown_at backtrace_pc line_entry
    ok (record {
      regs = r;
      backtrace_report_address = shown;
      func_die = die;
      inlined = inlined;
      location = location_of line_entry;
    })

  -- The loop of `create_inline_stack_frames`, from the entry around `inner` on.
  unfoldable pub inline_frames :
      LoadedElf → R → DieEntry → List DieEntry → Outcome (List (StackFrame R))
  unfolding low_pc lines location
  inline_frames e r inner [] = ok []
  inline_frames e r inner (die ∷ outer) = do
    low ← low_pc n.outside e.dwarf inner
    inlined_pc ← to_virt_addr low
    (table, files, start) ← lines n e inner.cu
    (file, line) ← location n.outside e.dwarf files inner
    others ← inline_frames e r die outer
    ok (
        record {
          regs = r;
          backtrace_report_address = inlined_pc;
          func_die = die;
          inlined = has_more outer;
          location = (some file, line);
        }
        ∷ others)

  -- The frames of one round: the function at the program counter and those that it is inlined into.
  -- `back()` of the inline stack is the function.
  unfoldable pub round_frames :
      LoadedElf → R → List DieEntry → FileAddr → Outcome (List (StackFrame R))
  unfolding create_base_frame inline_frames
  round_frames e r inline_stack pc = elim (reverse inline_stack) [
    | [] ↦ fail undefined
    | die ∷ outer ↦ do
      base ← create_base_frame e r die pc (ltb 1 (length inline_stack))
      inline ← inline_frames e r die outer
      ok (base ∷ inline)
  ]

  -- `m_Frames.back().regs`, which the unwinder marks with the frame's address.
  unfoldable pub mark_last : R → List (StackFrame R) → List (StackFrame R)
  mark_last marked [] = []
  mark_last marked (frame ∷ []) = record frame { regs = marked } ∷ []
  mark_last marked (frame ∷ next ∷ frames) = frame ∷ mark_last marked (next ∷ frames)

  -- The loop of `unwind`, which ends where the frames do; `rounds` bounds them.
  unfoldable pub unwind_loop :
      ℕ
      → List LoadedElf
      → ℕ
      → R
      → ℕ
      → FileAddr
      → List (StackFrame R)
      → Outcome (List (StackFrame R))
  unfolding loaded_of inline_stack_at round_frames mark_last unwind pc_file_address
  unwind_loop zero elves main r virt_pc file_pc frames = fail undefined
  unwind_loop (suc rounds) elves main r virt_pc file_pc frames =
      elim (not (virt_pc == 0) && is_main main file_pc) [
        | false ↦ ok frames
        | true ↦ do
          e ← loaded_of elves file_pc
          inline_stack ← inline_stack_at n elves file_pc
          elim inline_stack [
            | [] ↦ ok frames
            | first ∷ others ↦ do
              new ← round_frames e r (first ∷ others) file_pc
              (unwound, marked, cies) ← unwind regs n.cfa e.frame_sections e.eh_hdr [] file_pc r
              rip ← regs.read_register dwarf_rip unwound
              let caller_pc = sub64 rip 1
              unwind_loop rounds elves main unwound caller_pc (pc_file_address elves caller_pc)
                  (frames ++ mark_last marked new)
          ]
      ]

  -- `unwind`. `current_pc` is the program counter of the current thread, `r` the registers of the
  -- stack's own, and `main` the number of `get_elf`.
  unfoldable pub unwind_stack : ℕ → List LoadedElf → ℕ → ℕ → R → Stack R → Outcome (Stack R)
  unfolding pc_file_address inline_height_at unwind_loop
  unwind_stack rounds elves main current_pc r stack = do
    virt_pc ← regs.read_register dwarf_rip r
    let file_pc = pc_file_address elves virt_pc
    height ← inline_height_at n elves file_pc (pc_file_address elves current_pc)
    frames ← elim file_pc.elf_file [
      | none ↦ ok []
      | some file ↦ unwind_loop rounds elves main r virt_pc file_pc []
    ]
    ok (record stack { inline_height = height; stack_frames = frames; current_frame = height })

module _ {R : Type 0} where
  -- `frames`, whose size wraps where the height is above the number of frames.
  unfoldable pub frames : Stack R → Outcome (List (StackFrame R))
  frames stack =
      if ltb (length stack.stack_frames) stack.inline_height
      then fail undefined
      else ok (drop stack.inline_height stack.stack_frames)

  abbrev pub has_frames : Stack R → Bool
  has_frames stack = elim stack.stack_frames [ [] ↦ false | frame ∷ others ↦ true ]

  abbrev pub current_frame_of : Stack R → Outcome (StackFrame R)
  current_frame_of stack = or_fail (get_elem? stack.stack_frames stack.current_frame)

  abbrev pub stack_regs : Stack R → Outcome R
  stack_regs stack = do frame ← current_frame_of stack; ok frame.regs

  abbrev pub current_frame_index : Stack R → ℕ
  current_frame_index stack = sub64 stack.current_frame stack.inline_height

  abbrev pub up : Stack R → Stack R
  up stack = record stack { current_frame = add64 stack.current_frame 1 }

  abbrev pub down : Stack R → Stack R
  down stack = record stack { current_frame = sub64 stack.current_frame 1 }

  -- The height has 32 bits.
  abbrev pub simulate_inlined_step_in : Stack R → Stack R
  simulate_inlined_step_in stack =
      let height = (stack.inline_height + 2 ^ 32 - 1) % 2 ^ 32 in
      record stack { inline_height = height; current_frame = height }
