-- ===== src/Dwarf/LineExamples.antt =====
-- A short line-number program: an address, two special opcodes and the end of the sequence.
use kdebugger.Common.{
  ℕ, ◌↔◌, ◌++◌, ◌+◌, ◌-◌, ◌^◌, ◌≡◌, refl, true, false, List, [], ◌∷◌, Option, some, none, arith,
  if◌then◌else◌, ◌==◌, Outcome, ok, fail, All,
}
use kdebugger.Elf.{Elf, FileAddr}
use kdebugger.Dwarf.Cursor.{Cursor, fixed_int, uleb128}
use kdebugger.Dwarf.LineTable.{
  Table, Iterator, File, copy, unexpected_standard, end_sequence, set_address, unexpected_extended,
  new_entry, next, begin, next_loop, get_entry_by_address, execute_instruction,
}
use kdebugger.Dwarf.LineTable.Steps.{next_loop-enough}
use kdebugger.Dwarf.LineTable.Lookup.{
  IsIn, Rows, stop, row, first_cover, current_of, get_entry_by_address-first_cover,
}
use kdebugger.Dwarf.LineTable.ByLine.{path_ends_in}
use kdebugger.Dwarf.LineTable.ByLine.Suffix.{path_ends_in-append}

abbrev sample_elf : Elf
sample_elf = record { number = 7; load_bias = 0; sections = [] }

abbrev table : Table
table = record {
  elf_file = sample_elf;
  default_is_stmt = true;
  line_base = 2 ^ 64 - 5;
  line_range = 14;
  opcode_base = 13;
  data_end = 16;
  standard = λ n. if n == 1 then copy else unexpected_standard;
  extended =
      λ n. if n == 1 then end_sequence else if n == 2 then set_address else unexpected_extended;
  resolve = λ n name. some name;
}

abbrev program : Cursor
program = record {
  bytes = 0 ∷ 9 ∷ 2 ∷ 0x10 ∷ 0 ∷ 0 ∷ 0 ∷ 0 ∷ 0 ∷ 0 ∷ 0 ∷ 0x20 ∷ 0x30 ∷ 0 ∷ 1 ∷ 1 ∷ [];
  pos = 0;
  end = 16;
}

abbrev files : List File
files = record { path = 97 ∷ []; modification_time = 0; file_length = 0 } ∷ []

abbrev unstarted : Iterator
unstarted = record {
  current = new_entry false;
  registers = new_entry true;
  position = none;
  files = files;
}

abbrev shown : Outcome Iterator → Iterator
shown (ok it) = it
shown (fail e) = unstarted

abbrev first : Iterator
first = shown (begin table files program)

abbrev second : Iterator
second = shown (next table first)

abbrev third : Iterator
third = shown (next table second)

abbrev ended : Iterator
ended = shown (next table third)

begins : begin table files program ≡ ok first
unfolding begin execute_instruction fixed_int uleb128
begins = refl

rows : Rows table first (first.current ∷ second.current ∷ third.current ∷ [])
unfolding begin execute_instruction fixed_int uleb128
rows =
    row first second (record { bytes = 0x30 ∷ 0 ∷ 1 ∷ 1 ∷ []; pos = 12; end = 16 }) _ refl refl
      (row second third (record { bytes = 0 ∷ 1 ∷ 1 ∷ []; pos = 13; end = 16 }) _ refl refl
        (row third ended (record { bytes = []; pos = 16; end = 16 }) _ refl refl (stop ended refl)))

abbrev asked : FileAddr
asked = record { elf_file = some sample_elf; addr = 0x12 }

are-IsIn : All (IsIn asked) (first.current ∷ second.current ∷ third.current ∷ [])
unfolding begin execute_instruction fixed_int uleb128
are-IsIn = (refl, (refl, (refl, tt)))

get_entry_by_address-first_cover_example :
    (o : Option Iterator) × (get_entry_by_address table files program asked ≡ ok o)
    × (current_of o ≡ first_cover asked (first.current ∷ second.current ∷ third.current ∷ []))
get_entry_by_address-first_cover_example =
    get_entry_by_address-first_cover table files program asked first
      (first.current ∷ second.current ∷ third.current ∷ []) begins rows are-IsIn

next_loop-enough_example :
    next_loop (17 + 3) table unstarted program ≡ next_loop 17 table unstarted program
next_loop-enough_example = next_loop-enough 17 3 table unstarted program (omega arith)

-- "a/b/c" ends in "b/c".
abbrev long_path : List (List ℕ)
long_path = (97 ∷ []) ∷ (98 ∷ []) ∷ (99 ∷ []) ∷ []

abbrev short_path : List (List ℕ)
short_path = (98 ∷ []) ∷ (99 ∷ []) ∷ []

path_ends_in-append_example :
    (path_ends_in long_path short_path ≡ true)
    ↔ ((front : List (List ℕ)) × (long_path ≡ front ++ short_path))
path_ends_in-append_example = path_ends_in-append long_path short_path
