-- ===== src/Dwarf/LineTable/Header.antt =====
-- `parse_line_table` of src/dwarf.cpp. Paths of `std::filesystem` are the bytes of their names, and
-- the operator that joins them is a parameter.
use kdebugger.Common.{
  ℕ, zero, suc, ◌+◌, ◌-◌, Bool, true, false, not, List, [], ◌∷◌, Option, none, some, ◌==◌,
  if◌then◌else◌, get_elem?, length, Outcome, ok, fail, sent, undefined, ◌>>=◌, or_fail,
}
use kdebugger.Common.Word.{sign_extend}
use kdebugger.Elf.{Elf}
use kdebugger.Dwarf.Cursor.{Cursor, Reader, cursor, advance, u8, u16, u32, string}
use kdebugger.Dwarf.Die.{CompileUnit, Outside, Dwarf, contains, attr_at}
use kdebugger.Dwarf.Die.Values.{as_section_offset, as_string}
use kdebugger.Dwarf.LineTable.{StandardOpcode, ExtendedOpcode, File, Table, parse_line_table_file}

-- The numbers of the opcodes, and `operator /` of two paths.
pub record LineNumbers : Type 0 where
  pub standard : ℕ → StandardOpcode
  pub extended : ℕ → ExtendedOpcode
  pub join : List ℕ → List ℕ → List ℕ

abbrev pub expected_opcode_lengths : List ℕ
expected_opcode_lengths = 0 ∷ 1 ∷ 1 ∷ 1 ∷ 1 ∷ 0 ∷ 0 ∷ 0 ∷ 1 ∷ 0 ∷ 0 ∷ 1 ∷ []

-- The loop over the lengths, `todo` of them, of which `expected` are left.
unfoldable pub check_lengths : ℕ → List ℕ → Cursor → Outcome Cursor
check_lengths zero expected c = ok c
check_lengths (suc todo) [] c = fail undefined
check_lengths (suc todo) (n ∷ expected) c = do
  (v, c') ← u8 c
  if v == n then check_lengths todo expected c' else fail (sent "Unexpected opcode lengths")

abbrev pub is_rooted : List ℕ → Bool
is_rooted [] = false
is_rooted (ch ∷ text) = ch == 47

-- The loop over the include directories, up to an empty string.
unfoldable pub directory_loop : (List ℕ → List ℕ → List ℕ) → List ℕ → ℕ → Reader (List (List ℕ))
directory_loop join compilation_dir zero c = fail undefined
directory_loop join compilation_dir (suc fuel) c = do
  (dir, c') ← string c
  elim dir [
    | [] ↦ ok ([], c')
    | ch ∷ text ↦ do
      (others, behind) ← directory_loop join compilation_dir fuel c'
      let whole = ch ∷ text
      ok ((if is_rooted whole then whole else join compilation_dir whole) ∷ others, behind)
  ]

-- The path of a file in `parse_line_table_file`; none is an index out of range.
unfoldable pub resolve_path :
    (List ℕ → List ℕ → List ℕ) → List ℕ → List (List ℕ) → ℕ → List ℕ → Option (List ℕ)
resolve_path join compilation_dir directories dir_index file =
    if is_rooted file
    then some file
    else if dir_index == 0
    then some (join compilation_dir file)
    else elim (get_elem? directories (dir_index - 1)) [
      | none ↦ none
      | some dir ↦ some (join dir file)
    ]

-- The loop over the files, up to a zero.
unfoldable pub file_loop : Table → ℕ → Reader (List File)
unfolding parse_line_table_file
file_loop t zero c = fail undefined
file_loop t (suc fuel) c = elim c.bytes [
  | [] ↦ fail undefined
  | b ∷ rest ↦ elim (b == 0) [
    | true ↦ ok ([], c)
    | false ↦ do
      (file, c') ← parse_line_table_file t c
      (files, behind) ← file_loop t fuel c'
      ok (file ∷ files, behind)
  ]
]

abbrev pub refuse_unless : Bool → Outcome (Unit {0}) → Outcome (Unit {0})
refuse_unless test refusal = if test then ok tt else refusal

-- What the fixed part of the header holds.
pub record LineHeader : Type 0 where
  pub end : ℕ
  pub default_is_stmt : Bool
  pub line_base : ℕ
  pub line_range : ℕ
  pub opcode_base : ℕ

unfoldable pub read_header : Reader LineHeader
unfolding check_lengths
read_header c = do
  (size, c₁) ← u32 c
  (version, c₂) ← u16 c₁
  v4 ← refuse_unless (version == 4) (fail (sent "Only DWARF 4 is supported right now"))
  (header_length, c₃) ← u32 c₂
  (minimum, c₄) ← u8 c₃
  one ← refuse_unless (minimum == 1) (fail (sent "Invalid minimum instruction length"))
  (maximum, c₅) ← u8 c₄
  single ← refuse_unless (maximum == 1) (fail (sent "Invalid maximum operations per instruction"))
  (default_is_stmt, c₆) ← u8 c₅
  (line_base, c₇) ← u8 c₆
  (line_range, c₈) ← u8 c₇
  (opcode_base, c₉) ← u8 c₈
  behind ← check_lengths (opcode_base - 1) expected_opcode_lengths c₉
  ok (
    record {
      end = c₁.pos + size;
      default_is_stmt = not (default_is_stmt == 0);
      line_base = sign_extend 256 line_base;
      line_range = line_range;
      opcode_base = opcode_base;
    },
    behind,
  )

abbrev pub table_of : Elf → LineNumbers → LineHeader → List ℕ → List (List ℕ) → Table
table_of elf n h compilation_dir directories = record {
  elf_file = elf;
  default_is_stmt = h.default_is_stmt;
  line_base = h.line_base;
  line_range = h.line_range;
  opcode_base = h.opcode_base;
  data_end = h.end;
  standard = n.standard;
  extended = n.extended;
  resolve = resolve_path n.join compilation_dir directories;
}

-- The table with its first files, and the cursor at its program; none is the null pointer.
unfoldable pub parse_line_table :
    LineNumbers → Outside → Dwarf → CompileUnit → Outcome (Option (Table × List File × Cursor))
unfolding read_header directory_loop resolve_path file_loop as_section_offset as_string
parse_line_table n o d cu = do
  die ← o.root cu
  root ← or_fail die.entry
  if contains o.at_stmt_list root
      then (do
        list ← attr_at root o.at_stmt_list
        offset ← as_section_offset o d list
        (h, c₁) ← read_header (cursor d.image (d.debug_line.0 + offset) d.debug_line.1)
        dir ← attr_at root o.at_comp_dir
        compilation_dir ← as_string o d dir
        (directories, c₂) ← directory_loop n.join compilation_dir (length c₁.bytes + 1) c₁
        let t = table_of d.elf_file n h compilation_dir directories
        (files, c₃) ← file_loop t (length c₂.bytes + 1) c₂
        ok (some (t, files, record (advance 1 c₃) { end = h.end })))
      else ok none
