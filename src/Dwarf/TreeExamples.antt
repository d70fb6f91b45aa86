-- ===== src/Dwarf/TreeExamples.antt =====
-- A unit header, and a small tree of entries with its abbreviations.
use kdebugger.Common.{
  ℕ, ◌+◌, ◌≡◌, ◌<◌, refl, some, true, false, List, [], ◌∷◌, arith, ok, ◌==◌, if◌then◌else◌,
}
use kdebugger.Dwarf.Cursor.{cursor, advance, fixed_int, fixed_bytes, uleb128, leb_loop}
use kdebugger.Dwarf.Form.{data1, unrecognized}
use kdebugger.Dwarf.Form.Skip.{fixed}
use kdebugger.Dwarf.Abbrev.{
  AbbrevTable, find_abbrev, abbrev_at, emplace_abbrev, read_specs, read_abbrev, abbrev_loop,
  parse_abbrev_table,
}
use kdebugger.Dwarf.Abbrev.Encoding.{Number}
use kdebugger.Dwarf.Die.{CompileUnit, Outside, Dwarf, has_spec, contains}
use kdebugger.Dwarf.Die.Children.{next_child}
use kdebugger.Dwarf.Die.Children.Trees.{EncodedDie, ended, leaf, parent, die_at, IsDie}
use kdebugger.Dwarf.Die.Children.Steps.{next_child-next_forest}
use kdebugger.Dwarf.Die.Units.{
  EncodedUnit, put_units, units_at, constructed, parse_compile_units-put,
}
use kdebugger.Dwarf.Units.{compile_unit, parse_compile_units}
use kdebugger.Dwarf.LineTable.{unexpected_standard, unexpected_extended}
use kdebugger.Dwarf.LineTable.Header.{LineNumbers, parse_line_table}

abbrev two_units : List EncodedUnit
two_units =
    record { abbrev_offset = 0; entries = 1 ∷ 0 ∷ [] }
    ∷ record { abbrev_offset = 9; entries = 0 ∷ [] }
    ∷ []

abbrev number : (n : ℕ) → n < 128 → Number
number n h = record {
  groups = [];
  last = n;
  legal = record { groups = tt; top = h; short = omega arith; fits = omega arith };
}

-- Abbreviation 1 has children and an attribute, abbreviation 2 neither. The abbreviations stand at 0,
-- and the entries at 17: an entry with a child, and one behind it.
abbrev tree_image : List ℕ
tree_image =
    1 ∷ 0x11 ∷ 1 ∷ 3 ∷ 0x0b ∷ 0 ∷ 0 ∷ 2 ∷ 0x2e ∷ 0 ∷ 0 ∷ 0 ∷ 0 ∷ 0 ∷ 0 ∷ 0 ∷ 0 ∷ 1 ∷ 5 ∷ 2 ∷ 0 ∷ 2
    ∷ 0 ∷ []

abbrev tree_table : AbbrevTable
tree_table =
    record {
      code = 1;
      tag = 0x11;
      has_children = true;
      attr_specs = record { attr = 3; form = 0x0b } ∷ [];
    }
    ∷ record { code = 2; tag = 0x2e; has_children = false; attr_specs = [] }
    ∷ []

abbrev tree_unit : CompileUnit
tree_unit = record { start = 17; stop = 23; abbrev_offset = 0 }

abbrev tree_file : Dwarf
tree_file = record {
  elf_file = record { number = 7; load_bias = 0; sections = [] };
  image = tree_image;
  debug_info = (17, 23);
  debug_abbrev = (0, 17);
  debug_str = (0, 0);
  debug_ranges = (0, 0);
  debug_line = (0, 0);
  compile_units = tree_unit ∷ [];
}

-- Some of the numbers of the standard.
abbrev dwarf_numbers : Outside
dwarf_numbers = record {
  form_of = λ n. if n == 0x0b then data1 else unrecognized;
  at_sibling = 1;
  at_low_pc = 0x11;
  at_high_pc = 0x12;
  at_ranges = 0x55;
  at_name = 3;
  at_specification = 0x47;
  at_abstract_origin = 0x31;
  at_stmt_list = 0x10;
  at_comp_dir = 0x1b;
  at_call_file = 0x58;
  at_decl_file = 0x3a;
  at_call_line = 0x59;
  at_decl_line = 0x3b;
  tag_subprogram = 0x2e;
  tag_inlined_subroutine = 0x1d;
  root = λ cu. ok (record {
    entry = some (record {
      position = cu.start + 11;
      cu = cu;
      abbrev_entry = record { code = 2; tag = 0x11; has_children = false; attr_specs = [] };
      attr_locs = [];
    });
    next = cu.start + 12;
  });
}

kept : parse_abbrev_table tree_image (0, 17) 0 ≡ ok tree_table
unfolding parse_abbrev_table abbrev_loop read_abbrev read_specs emplace_abbrev find_abbrev uleb128
    leb_loop fixed_int fixed_bytes cursor advance
kept = refl

abbrev outer : EncodedDie
outer = record {
  code = number 1 (omega arith);
  abbrev_entry = record {
    code = 1;
    tag = 0x11;
    has_children = true;
    attr_specs = record { attr = 3; form = 0x0b } ∷ [];
  };
  values = (5 ∷ []) ∷ [];
}

abbrev inner : EncodedDie
inner = record {
  code = number 2 (omega arith);
  abbrev_entry = record { code = 2; tag = 0x2e; has_children = false; attr_specs = [] };
  values = [];
}

outer-IsDie : IsDie dwarf_numbers tree_file tree_unit tree_table outer true
unfolding abbrev_at find_abbrev has_spec
outer-IsDie = record {
  coded = λ e. omega arith;
  known = refl;
  fit = (fixed data1 (5 ∷ []) (omega arith) refl, tt);
  parental = refl;
  unlinked = refl;
}

inner-IsDie : IsDie dwarf_numbers tree_file tree_unit tree_table inner false
unfolding abbrev_at find_abbrev has_spec
inner-IsDie = record {
  coded = λ e. omega arith;
  known = refl;
  fit = tt;
  parental = refl;
  unlinked = refl;
}

-- From the first entry, past its child at 19, to the second at 21.
next_child-next_forest_example :
    next_child dwarf_numbers tree_file 4
      (die_at tree_unit 17 (parent outer (leaf inner ended) (leaf inner ended)))
    ≡ ok (die_at tree_unit 21 (leaf inner ended))
next_child-next_forest_example =
    next_child-next_forest dwarf_numbers tree_file tree_unit tree_table kept 4
      (parent outer (leaf inner ended) (leaf inner ended)) 17 [] (omega arith)
      (outer-IsDie, ((inner-IsDie, tt), (inner-IsDie, tt)))
      (record { bytes = refl; inside = omega arith })

abbrev line_numbers : LineNumbers
line_numbers = record {
  standard = λ n. unexpected_standard;
  extended = λ n. unexpected_extended;
  join = λ a b. b;
}

abbrev two_files : Dwarf
two_files = record tree_file { image = 7 ∷ put_units two_units (8 ∷ []) }

-- Units without line tables.
both_constructed :
    constructed line_numbers dwarf_numbers two_files (units_at 1 two_units)
    ≡ ok (units_at 1 two_units)
unfolding compile_unit parse_line_table has_spec contains
both_constructed = refl

parse_compile_units-put_example :
    parse_compile_units line_numbers dwarf_numbers two_files (1, 26)
    ≡ constructed line_numbers dwarf_numbers two_files (units_at 1 two_units)
parse_compile_units-put_example =
    parse_compile_units-put line_numbers dwarf_numbers two_files (8 ∷ []) 1 26 two_units refl refl
      ((omega arith, omega arith), ((omega arith, omega arith), tt))
