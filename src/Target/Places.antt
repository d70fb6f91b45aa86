-- ===== src/Target/Places.antt =====
-- The addresses at which src/breakpoint.cpp puts the sites of a function's or a line's breakpoint, with the
-- lookups of src/target.cpp that give them.
use kdebugger.Common.{
  ℕ, Bool, false, ◌||◌, List, [], ◌∷◌, ◌++◌, some, ◌==◌, if◌then◌else◌, Outcome, ok, ◌>>=◌, or_fail,
}
use kdebugger.Elf.{FileAddr, to_virt_addr}
use kdebugger.Elf.Addresses.{equal}
use kdebugger.Elf.Symbols.{Symbol, get_symbols_by_name}
use kdebugger.Dwarf.Die.{CompileUnit, DieEntry, contains}
use kdebugger.Dwarf.Die.Ranges.{low_pc}
use kdebugger.Dwarf.Die.Index.{find_functions}
use kdebugger.Dwarf.LineTable.{Table, Iterator, get_entry_by_address, next}
use kdebugger.Dwarf.LineTable.ByLine.{Paths, get_entries_by_line}
use kdebugger.Target.{LoadedElf, Numbers, lines, entries_of, inline_stack_at}

-- What `find_functions` of the target gives: entries of debugging information, and symbols, each with
-- its file.
pub record FoundFunctions : Type 0 where
  pub dwarf_functions : List (LoadedElf × DieEntry)
  pub elf_functions : List (LoadedElf × Symbol)

abbrev pub beside : {A B : Type 0} → A → List B → List (A × B)
beside a [] = []
beside a (b ∷ bs) = (a, b) ∷ beside a bs

unfoldable pub find_target_functions : Numbers → List LoadedElf → List ℕ → Outcome FoundFunctions
unfolding find_functions entries_of get_symbols_by_name
find_target_functions n [] name = ok (record { dwarf_functions = []; elf_functions = [] })
find_target_functions n (e ∷ elves) name = do
  (dies, index) ← find_functions n.outside e.dwarf [] name
  entries ← entries_of dies
  others ← find_target_functions n elves name
  elim entries [
    | [] ↦ ok (record others {
      elf_functions = beside e (get_symbols_by_name name e.symbols.by_name) ++ others.elf_functions;
    })
    | first ∷ more ↦
        ok (record others { dwarf_functions = beside e (first ∷ more) ++ others.dwarf_functions })
  ]

-- Where a function found in the debugging information is stopped at: an inlined one at its start, and
-- another behind the line entry of its start.
unfoldable pub function_address : Numbers → LoadedElf → DieEntry → Outcome ℕ
unfolding low_pc lines get_entry_by_address next to_virt_addr
function_address n e die = do
  low ← low_pc n.outside e.dwarf die
  if die.abbrev_entry.tag == n.outside.tag_inlined_subroutine then to_virt_addr low else (do
    (table, files, start) ← lines n e die.cu
    found ← get_entry_by_address table files start low
    function_line ← or_fail found
    after ← next table function_line
    to_virt_addr after.current.address)

abbrev pub has_code : Numbers → DieEntry → Bool
has_code n die = contains n.outside.at_low_pc die || contains n.outside.at_ranges die

unfoldable pub symbol_address : LoadedElf → Symbol → Outcome ℕ
unfolding to_virt_addr
symbol_address e symbol = to_virt_addr (record { elf_file = some e.elf; addr = symbol.st_value })

abbrev pub in_table : LoadedElf → Table → List Iterator → List (LoadedElf × Table × Iterator)
in_table e table [] = []
in_table e table (it ∷ its) = (e, table, it) ∷ in_table e table its

-- Of the target's `get_entries_by_line`: the entries with their files and tables, in the units of a file.
unfoldable pub unit_entries :
    Numbers
    → Paths
    → LoadedElf
    → List ℕ
    → ℕ
    → List CompileUnit
    → Outcome (List (LoadedElf × Table × Iterator))
unfolding lines get_entries_by_line
unit_entries n paths e path line [] = ok []
unit_entries n paths e path line (cu ∷ cus) = do
  (table, files, start) ← lines n e cu
  here ← get_entries_by_line table files start paths path line
  others ← unit_entries n paths e path line cus
  ok (in_table e table here ++ others)

unfoldable pub get_line_entries_by_line :
    Numbers → Paths → List LoadedElf → List ℕ → ℕ → Outcome (List (LoadedElf × Table × Iterator))
unfolding unit_entries
get_line_entries_by_line n paths [] path line = ok []
get_line_entries_by_line n paths (e ∷ elves) path line = do
  here ← unit_entries n paths e path line e.dwarf.compile_units
  others ← get_line_entries_by_line n paths elves path line
  ok (here ++ others)

-- Whether an entry is the start of a function that is not inlined. The tests of the attributes are of the
-- outermost entry and the one in it, as the source has them.
unfoldable pub should_skip_prologue : Numbers → LoadedElf → List DieEntry → FileAddr → Outcome Bool
unfolding low_pc equal
should_skip_prologue n e (outer ∷ inner ∷ []) a =
    if contains n.outside.at_ranges inner || contains n.outside.at_low_pc outer
    then (do low ← low_pc n.outside e.dwarf inner; ok (equal low a))
    else ok false
should_skip_prologue n e _ a = ok false

-- Where a line breakpoint stops for one of the line's entries.
unfoldable pub line_address : Numbers → List LoadedElf → LoadedElf × Table × Iterator → Outcome ℕ
unfolding inline_stack_at should_skip_prologue next to_virt_addr
line_address n elves (e, table, entry) = do
  let a = entry.current.address
  file ← or_fail a.elf_file
  stack ← inline_stack_at n elves a
  skips ← should_skip_prologue n e stack a
  if skips
      then (do after ← next table entry; to_virt_addr after.current.address)
      else to_virt_addr a
