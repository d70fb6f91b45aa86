-- ===== src/Target/Examples.antt =====
-- The frames of one function of a small file.
use kdebugger.Common.{ℕ, ◌≡◌, refl, false, [], ◌∷◌, All, none, some, length, ok}
use mathlib.Core.List.{reverse}
use kdebugger.Elf.{Elf, FileAddr, find_section, section_of_file, to_virt_addr}
use kdebugger.Elf.Addresses.{equal}
use kdebugger.Dwarf.Cursor.{cursor, fixed_int}
use kdebugger.Dwarf.Die.{DieEntry, Dwarf, contains, has_spec, attr_at, attr_loop}
use kdebugger.Dwarf.Die.Values.{as_address}
use kdebugger.Dwarf.Die.Ranges.{low_pc}
use kdebugger.Dwarf.Die.Index.{compile_unit_containing_address, unit_containing}
use kdebugger.Dwarf.Frame.{FrameSections}
use kdebugger.Dwarf.Frame.Unwind.{RegisterFile}
use kdebugger.Target.{LoadedElf, line_entry_at_address}
use kdebugger.Target.Sample.{numbers}
use kdebugger.Target.Stack.{StackFrame, create_base_frame, inline_frames, round_frames, height_loop}
use kdebugger.Target.Stack.Inline.{
  IsHeight, height_loop-IsHeight, functions_of, inlined_of, all_but_last, round_frames-functions,
}

abbrev small_elf : Elf
small_elf = record {
  number = 0;
  load_bias = 0x10000;
  sections = record { sh_addr = 0x1000; sh_size = 0x100 } ∷ [];
}

abbrev frame_sections : FrameSections
frame_sections = record {
  elf_file = small_elf;
  image = [];
  eh_frame = (0, 0);
  eh_frame_hdr = (0, 0);
  eh_frame_hdr_start = none;
  text_start = none;
  got_plt_start = none;
}

-- Its one function starts at 0x1020.
abbrev small_dwarf : Dwarf
small_dwarf = record {
  elf_file = small_elf;
  image = 0x20 ∷ 0x10 ∷ 0 ∷ 0 ∷ 0 ∷ 0 ∷ 0 ∷ 0 ∷ [];
  debug_info = (0, 8);
  debug_abbrev = (0, 0);
  debug_str = (0, 0);
  debug_ranges = (0, 0);
  debug_line = (0, 0);
  compile_units = [];
}

abbrev small : LoadedElf
small = record {
  elf = small_elf;
  path = [];
  image = [];
  section_map = [];
  symbols = record { by_name = []; by_address = [] };
  dwarf = small_dwarf;
  frame_sections = frame_sections;
  eh_hdr = record { start = 0; search_table = 0; count = 0; encoding = 0 };
}

abbrev function_die : DieEntry
function_die = record {
  position = 0;
  cu = record { start = 0; stop = 8; abbrev_offset = 0 };
  abbrev_entry = record {
    code = 1;
    tag = 0x2e;
    has_children = false;
    attr_specs = record { attr = 0x11; form = 1 } ∷ [];
  };
  attr_locs = 0 ∷ [];
}

abbrev at_function_start : FileAddr
at_function_start = record { elf_file = some small_elf; addr = 0x1020 }

one_hidden : height_loop numbers small at_function_start (function_die ∷ []) ≡ ok 1
unfolding height_loop low_pc equal contains has_spec attr_at attr_loop as_address cursor fixed_int
one_hidden = refl

one_is_hidden : IsHeight numbers small at_function_start (function_die ∷ []) 1
one_is_hidden =
    height_loop-IsHeight numbers small at_function_start (function_die ∷ []) 1 one_hidden

abbrev register_file : RegisterFile ℕ
register_file = record {
  read_register = λ n r. ok r;
  write_register = λ n v r. ok v;
  undefine = λ n r. ok r;
  write_rsp = λ v r. ok r;
  set_cfa = λ v r. r;
  read_word = λ a. ok 0;
}

abbrev function_frame : StackFrame ℕ
function_frame = record {
  regs = 5;
  backtrace_report_address = 0x11020;
  func_die = function_die;
  inlined = false;
  location = (none, 1);
}

one_round :
    round_frames register_file numbers small 5 (function_die ∷ []) at_function_start
    ≡ ok (function_frame ∷ [])
unfolding round_frames create_base_frame inline_frames to_virt_addr section_of_file find_section
    line_entry_at_address compile_unit_containing_address unit_containing
one_round = refl

round_frames-functions_example :
    (functions_of (function_frame ∷ []) ≡ reverse (function_die ∷ []))
    × (inlined_of (function_frame ∷ []) ≡ all_but_last (length (function_die ∷ [])))
    × All (λ (frame : StackFrame ℕ). frame.regs ≡ 5) (function_frame ∷ [])
round_frames-functions_example =
    round_frames-functions register_file numbers small 5 (function_die ∷ []) at_function_start
      (function_frame ∷ []) one_round
