-- ===== src/Dwarf/LineTable.antt =====
-- The line-number program of src/dwarf.cpp: `line_table::iterator` and `get_entry_by_address`. The
-- numbers of the opcodes are in a header that is not in the repository, so their decoding is a
-- parameter, as are the paths of `std::filesystem`.
pub mod Steps
pub mod Lookup
pub mod Header
pub mod ByLine
use kdebugger.Common.{
  ℕ, zero, suc, ◌+◌, ◌-◌, ◌*◌, ◌/◌, ◌%◌, Bool, true, false, not, ◌&&◌, List, [], ◌∷◌, ◌++◌, Option,
  none, some, if◌then◌else◌, ◌==◌, leb, ltb, get_elem?, length, Outcome, ok, fail, or_fail, sent,
  undefined, ◌>>=◌,
}
use kdebugger.Common.Word.{add64}
use kdebugger.Elf.{Elf, FileAddr, null_addr}
use kdebugger.Elf.Addresses.{move_up, less_equal, greater}
use kdebugger.Dwarf.Cursor.{Cursor, Reader, u8, u16, u64, uleb128, sleb128, string}

pub data StandardOpcode : Type 0 where
  copy advance_pc set_file negate_stmt set_basic_block const_add_pc fixed_advance_pc :
      StandardOpcode
  set_prologue_end set_epilogue_begin set_isa unexpected_standard : StandardOpcode

pub data ExtendedOpcode : Type 0 where
  end_sequence set_address define_file set_discriminator unexpected_extended : ExtendedOpcode

pub record File : Type 0 where
  pub path : List ℕ
  pub modification_time : ℕ
  pub file_length : ℕ

-- `line_table::entry`; `file_entry` is the place in the table's files.
pub record Entry : Type 0 where
  pub address : FileAddr
  pub file_index : ℕ
  pub line : ℕ
  pub column : ℕ
  pub is_stmt : Bool
  pub basic_block_start : Bool
  pub is_end_sequence : Bool
  pub prologue_end : Bool
  pub epilogue_begin : Bool
  pub discriminator : ℕ
  pub file_entry : Option ℕ

-- A value-initialised entry.
abbrev pub new_entry : Bool → Entry
new_entry is_stmt = record {
  address = null_addr;
  file_index = 1;
  line = 1;
  column = 0;
  is_stmt = is_stmt;
  basic_block_start = false;
  is_end_sequence = false;
  prologue_end = false;
  epilogue_begin = false;
  discriminator = 0;
  file_entry = none;
}

-- The members of `line_table` that do not change, with the file that its unit is of. `data_end` is `m_Data.end()`, and `line_base` is a
-- 64-bit pattern, the sign extended. The parameters stand with them: the opcodes by number, and
-- `resolve`, the path of a file by its directory index and name, none for an index out of range.
pub record Table : Type 0 where
  pub elf_file : Elf
  pub default_is_stmt : Bool
  pub line_base : ℕ
  pub line_range : ℕ
  pub opcode_base : ℕ
  pub data_end : ℕ
  pub standard : ℕ → StandardOpcode
  pub extended : ℕ → ExtendedOpcode
  pub resolve : ℕ → List ℕ → Option (List ℕ)

-- `line_table::iterator`, with the table's files, which `DW_LNE_define_file` grows. The cursor of an
-- iterator at `end()` is none.
pub record Iterator : Type 0 where
  pub current : Entry
  pub registers : Entry
  pub position : Option Cursor
  pub files : List File

unfoldable pub parse_line_table_file : Table → Reader File
parse_line_table_file t c = do
  (file, c₁) ← string c
  (dir_index, c₂) ← uleb128 c₁
  (modification_time, c₃) ← uleb128 c₂
  (file_length, c₄) ← uleb128 c₃
  path ← or_fail (t.resolve dir_index file)
  ok (record { path = path; modification_time = modification_time; file_length = file_length }, c₄)

-- Emits the registers and resets what does not outlive an entry.
abbrev pub emit : Iterator → Cursor → Outcome (Bool × Iterator)
emit it c = ok (
  true,
  record it {
    current = it.registers;
    registers = record it.registers {
      basic_block_start = false;
      prologue_end = false;
      epilogue_begin = false;
      discriminator = 0;
    };
    position = some c;
  },
)

-- The registers change, and nothing is emitted.
abbrev pub become : Iterator → Entry → Cursor → Outcome (Bool × Iterator)
become it registers c = ok (false, record it { registers = registers; position = some c })

unfoldable pub execute_standard :
    Table → StandardOpcode → Iterator → Cursor → Outcome (Bool × Iterator)
unfolding move_up
execute_standard t copy it c = emit it c
execute_standard t advance_pc it c = do
  (delta, c₁) ← sleb128 c
  become it (record it.registers { address = move_up it.registers.address delta }) c₁
execute_standard t set_file it c = do
  (value, c₁) ← uleb128 c
  become it (record it.registers { column = value }) c₁
execute_standard t negate_stmt it c =
    become it (record it.registers { is_stmt = not it.registers.is_stmt }) c
execute_standard t set_basic_block it c =
    become it (record it.registers { basic_block_start = true }) c
execute_standard t const_add_pc it c =
    if t.line_range == 0
    then fail undefined
    else become it
        (record it.registers {
          address = move_up it.registers.address ((255 - t.opcode_base) / t.line_range);
        })
        c
execute_standard t fixed_advance_pc it c = do
  (delta, c₁) ← u16 c
  become it (record it.registers { address = move_up it.registers.address delta }) c₁
execute_standard t set_prologue_end it c = become it (record it.registers { prologue_end = true }) c
execute_standard t set_epilogue_begin it c =
    become it (record it.registers { epilogue_begin = true }) c
execute_standard t set_isa it c = become it it.registers c
execute_standard t unexpected_standard it c = fail (sent "Unexpected standard opcode")

unfoldable pub execute_extended :
    Table → ExtendedOpcode → Iterator → Cursor → Outcome (Bool × Iterator)
unfolding parse_line_table_file
execute_extended t end_sequence it c = ok (
  true,
  record it {
    current = record it.registers { is_end_sequence = true };
    registers = new_entry t.default_is_stmt;
    position = some c;
  },
)
execute_extended t set_address it c = do
  (address, c₁) ← u64 c
  become it
      (record it.registers { address = record { elf_file = some t.elf_file; addr = address } }) c₁
execute_extended t define_file it c = do
  (file, c₁) ← parse_line_table_file t c
  become (record it { files = it.files ++ (file ∷ []) }) it.registers c₁
execute_extended t set_discriminator it c = do
  (value, c₁) ← uleb128 c
  become it (record it.registers { discriminator = value }) c₁
execute_extended t unexpected_extended it c = fail (sent "Unexpected extended opcode")

-- The other opcodes advance the address and the line, and emit.
unfoldable pub execute_special : Table → ℕ → Iterator → Cursor → Outcome (Bool × Iterator)
unfolding move_up
execute_special t opcode it c =
    if t.line_range == 0
    then fail undefined
    else (let adjusted = opcode - t.opcode_base in
        let r = it.registers in
        emit
          (record it {
            registers = record r {
              address = move_up r.address (adjusted / t.line_range);
              line = add64 r.line (add64 t.line_base (adjusted % t.line_range));
            };
          })
          c)

unfoldable pub execute_instruction : Table → Iterator → Cursor → Outcome (Bool × Iterator)
unfolding execute_standard execute_extended execute_special
execute_instruction t it cur = do
  (opcode, c) ← u8 (record cur { end = t.data_end })
  if ltb 0 opcode && ltb opcode t.opcode_base
      then execute_standard t (t.standard opcode) it c
      else (if opcode == 0
          then (do
            (len, c₁) ← uleb128 c
            (extended_opcode, c₂) ← u8 c₁
            execute_extended t (t.extended extended_opcode) it c₂)
          else execute_special t opcode it c)

-- The loop of `operator ++`: each instruction has a byte at least, so one round more than bytes is
-- enough.
unfoldable pub next_loop : ℕ → Table → Iterator → Cursor → Outcome Iterator
next_loop zero t it c = fail undefined
next_loop (suc fuel) t it c = do
  (emitted, it') ← execute_instruction t it c
  c' ← or_fail it'.position
  let more = next_loop fuel t it' c'
  if emitted then ok it' else more

-- `m_Current.file_entry`.
abbrev pub with_file : Iterator → Outcome Iterator
with_file it = if it.current.file_index == 0 then fail undefined else (do
  file ← or_fail (get_elem? it.files (it.current.file_index - 1))
  ok (record it { current = record it.current { file_entry = some (it.current.file_index - 1) } }))

-- `operator ++`. Advancing an iterator at `end()` is undefined.
unfoldable pub next : Table → Iterator → Outcome Iterator
unfolding next_loop
next t it = do
  c ← or_fail it.position
  if c.pos == t.data_end
      then ok (record it { position = none })
      else (do it' ← next_loop (length c.bytes + 1) t it c; with_file it')

-- `begin`, over a table whose data start at cursor `start`.
unfoldable pub begin : Table → List File → Cursor → Outcome Iterator
unfolding next
begin t files start = next t (record {
  current = new_entry false;
  registers = new_entry t.default_is_stmt;
  position = some start;
  files = files;
})

-- The test of `get_entry_by_address`, whose comparisons assert that both addresses are in one file.
unfoldable pub covers : FileAddr → Entry → Entry → Outcome Bool
unfolding less_equal greater
covers address prev it = do
  low ← less_equal prev.address address
  if low
      then (do high ← greater it.address address; ok (high && not prev.is_end_sequence))
      else ok false

-- Whether an iterator is `end()`, by its position.
abbrev pub at_end {ℓ} : {A : Type ℓ} → Option Cursor → A → A → A
at_end none ended going = ended
at_end (some c) ended going = going

-- The loop of `get_entry_by_address`; none is `end()`. Each step takes a byte at least.
unfoldable pub lookup_loop : ℕ → Table → FileAddr → Iterator → Iterator → Outcome (Option Iterator)
unfolding next covers
lookup_loop zero t address prev it =
    at_end it.position (ok none) (do
      on ← covers address prev.current it.current
      if on then ok (some prev) else fail undefined)
lookup_loop (suc fuel) t address prev it =
    let more = (do it' ← next t it; lookup_loop fuel t address it it') in
    at_end it.position (ok none)
      (do on ← covers address prev.current it.current; if on then ok (some prev) else more)

-- `get_entry_by_address`.
unfoldable pub get_entry_by_address :
    Table → List File → Cursor → FileAddr → Outcome (Option Iterator)
unfolding begin lookup_loop
get_entry_by_address t files start address = do
  prev ← begin t files start
  at_end prev.position (ok none)
      (do it ← next t prev; lookup_loop (length start.bytes) t address prev it)
