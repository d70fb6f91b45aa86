-- ===== src/Target.antt =====
-- What class `target` (src/target.cpp) and class `stack` (src/stack.cpp) know of the files of the
-- process: an `elf` with its `dwarf`, and the lookups that start at a program counter.
pub mod Stack
pub mod Places
pub mod Breakpoint
pub mod Run
pub mod Step
pub mod Rendezvous
pub mod Libraries
pub mod Begin
mod Sample
mod Examples
mod RunExamples
use kdebugger.Common.{
  ℕ, List, [], ◌∷◌, Option, none, some, ◌==◌, if◌then◌else◌, Outcome, ok, fail, undefined, ◌>>=◌,
  or_fail,
}
use kdebugger.Elf.{Elf, FileAddr, to_file_addr_in}
use kdebugger.Elf.Symbols.{SectionMap, SymbolMaps}
use kdebugger.Dwarf.Cursor.{Cursor}
use kdebugger.Dwarf.Die.{Die, DieEntry, Outside, Dwarf, CompileUnit}
use kdebugger.Dwarf.Die.Index.{compile_unit_containing_address}
use kdebugger.Dwarf.Die.Location.{inline_stack_at_address}
use kdebugger.Dwarf.Frame.{FrameSections}
use kdebugger.Dwarf.Frame.Header.{EhHdr}
use kdebugger.Dwarf.Frame.Rules.{CfaNumbers}
use kdebugger.Dwarf.LineTable.{File, Table, Iterator, get_entry_by_address}
use kdebugger.Dwarf.LineTable.Header.{LineNumbers, parse_line_table}

-- A file of `elf_collection`, with what was parsed of it.
pub record LoadedElf : Type 0 where
  pub elf : Elf
  pub path : List ℕ
  pub image : List ℕ
  pub section_map : SectionMap
  pub symbols : SymbolMaps
  pub dwarf : Dwarf
  pub frame_sections : FrameSections
  pub eh_hdr : EhHdr

-- The numbers of the standard and of the system.
pub record Numbers : Type 0 where
  pub outside : Outside
  pub line : LineNumbers
  pub cfa : CfaNumbers

unfoldable pub find_elf : ℕ → List LoadedElf → Option LoadedElf
find_elf number [] = none
find_elf number (e ∷ elves) =
    let later = find_elf number elves in if e.elf.number == number then some e else later

abbrev pub elves_of : List LoadedElf → List Elf
elves_of [] = []
elves_of (e ∷ elves) = e.elf ∷ elves_of elves

-- `elf_file()->`, undefined on the null pointer.
unfoldable pub loaded_of : List LoadedElf → FileAddr → Outcome LoadedElf
unfolding find_elf
loaded_of elves a = do file ← or_fail a.elf_file; or_fail (find_elf file.number elves)

-- `get_pc_file_address`, of a program counter.
unfoldable pub pc_file_address : List LoadedElf → ℕ → FileAddr
unfolding to_file_addr_in
pc_file_address elves pc = to_file_addr_in (elves_of elves) pc

-- `compile_unit::lines`, with the cursor at its program; the pointer may be null.
unfoldable pub lines : Numbers → LoadedElf → CompileUnit → Outcome (Table × List File × Cursor)
unfolding parse_line_table
lines n e cu = do table ← parse_line_table n.line n.outside e.dwarf cu; or_fail table

-- `dwarf::line_entry_at_address`; none is the iterator at no entry.
unfoldable pub line_entry_at_address : Numbers → LoadedElf → FileAddr → Outcome (Option Iterator)
unfolding compile_unit_containing_address lines get_entry_by_address
line_entry_at_address n e a = do
  cu ← compile_unit_containing_address n.outside e.dwarf a
  elim cu [
    | none ↦ ok none
    | some unit ↦ do
      (table, files, start) ← lines n e unit
      get_entry_by_address table files start a
  ]

-- `target::line_entry_at_pc`, of a program counter.
unfoldable pub line_entry_at_pc : Numbers → List LoadedElf → ℕ → Outcome (Option Iterator)
unfolding pc_file_address loaded_of line_entry_at_address
line_entry_at_pc n elves pc =
    let a = pc_file_address elves pc in
    elim a.elf_file [
      | none ↦ ok none
      | some file ↦ do e ← loaded_of elves a; line_entry_at_address n e a
    ]

-- The entry that a `die` stands for; the null entry has none.
unfoldable pub entries_of : List Die → Outcome (List DieEntry)
entries_of [] = ok []
entries_of (die ∷ dies) = do e ← or_fail die.entry; others ← entries_of dies; ok (e ∷ others)

-- `stack::inline_stack_at_pc`, of a file address. The index of functions is built anew, from the same
-- file.
unfoldable pub inline_stack_at : Numbers → List LoadedElf → FileAddr → Outcome (List DieEntry)
unfolding loaded_of inline_stack_at_address entries_of
inline_stack_at n elves a = elim a.elf_file [
  | none ↦ ok []
  | some file ↦ do
    e ← loaded_of elves a
    (dies, index) ← inline_stack_at_address n.outside e.dwarf [] a
    entries_of dies
]
