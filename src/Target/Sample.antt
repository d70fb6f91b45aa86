-- ===== src/Target/Sample.antt =====
-- Numbers for the examples: of the standard, two forms and the attributes that are read.
use kdebugger.Common.{ok, none, ◌==◌, if◌then◌else◌}
use kdebugger.Dwarf.Form.{addr, unrecognized}
use kdebugger.Dwarf.Die.{Outside}
use kdebugger.Dwarf.Frame.{absptr, no_base}
use kdebugger.Dwarf.Frame.Rules.{other_primary, other_extended}
use kdebugger.Dwarf.LineTable.{copy, end_sequence}
use kdebugger.Target.{Numbers}

abbrev pub outside : Outside
outside = record {
  form_of = λ n. if n == 1 then addr else unrecognized;
  at_sibling = 1;
  at_low_pc = 0x11;
  at_high_pc = 0x12;
  at_ranges = 0x55;
  at_name = 3;
  at_specification = 0x47;
  at_abstract_origin = 0x31;
  at_stmt_list = 0x10;
  at_comp_dir = 0x1b;
  at_call_file = 0x58;
  at_decl_file = 0x3a;
  at_call_line = 0x59;
  at_decl_line = 0x3b;
  tag_subprogram = 0x2e;
  tag_inlined_subroutine = 0x1d;
  root = λ cu. ok (record { entry = none; next = 0 });
}

abbrev pub numbers : Numbers
numbers = record {
  outside = outside;
  line = record { standard = λ n. copy; extended = λ n. end_sequence; join = λ a b. b };
  cfa = record {
    pointers = record { format_of = λ n. absptr; base_of = λ n. no_base; default_encoding = 0 };
    primary_of = λ n. other_primary;
    extended_of = λ n. other_extended;
  };
}
