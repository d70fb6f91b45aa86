-- ===== src/Dwarf/Die/Location.antt =====
-- `file`, `line` and `location` of class `die`, and `dwarf::inline_stack_at_address`, of
-- src/dwarf.cpp.
use kdebugger.Common.{
  ℕ, zero, suc, ◌+◌, ◌-◌, Bool, true, false, List, [], ◌∷◌, Option, none, some, ◌==◌, get_elem?,
  length, if◌then◌else◌, Outcome, ok, fail, undefined, ◌>>=◌, or_fail,
}
use kdebugger.Elf.{FileAddr}
use kdebugger.Dwarf.Die.{DieEntry, Die, Outside, Dwarf, attr_at}
use kdebugger.Dwarf.Die.Values.{as_int}
use kdebugger.Dwarf.Die.Children.{ChildIterator, begin_children, next_child}
use kdebugger.Dwarf.Die.Ranges.{pc_contains}
use kdebugger.Dwarf.Die.Index.{FunctionIndex, function_containing_address}
use kdebugger.Dwarf.LineTable.{File}

abbrev pub is_inlined : Outside → DieEntry → Bool
is_inlined o e = e.abbrev_entry.tag == o.tag_inlined_subroutine

-- The files of the unit's line table.
unfoldable pub file : Outside → Dwarf → List File → DieEntry → Outcome File
unfolding as_int
file o d file_names e = do
  a ← attr_at e (if is_inlined o e then o.at_call_file else o.at_decl_file)
  idx ← as_int o d a
  if idx == 0 then fail undefined else or_fail (get_elem? file_names (idx - 1))

unfoldable pub line : Outside → Dwarf → DieEntry → Outcome ℕ
unfolding as_int
line o d e = do
  a ← attr_at e (if is_inlined o e then o.at_call_line else o.at_decl_line)
  as_int o d a

-- `source_location`.
unfoldable pub location : Outside → Dwarf → List File → DieEntry → Outcome (File × ℕ)
unfolding file line
location o d file_names e = do f ← file o d file_names e; l ← line o d e; ok (f, l)

-- `std::find_if` over the children, from an iterator on.
unfoldable pub find_inlined : Outside → Dwarf → FileAddr → ℕ → ChildIterator → Outcome (Option Die)
find_inlined o d a zero it = fail undefined
find_inlined o d a (suc fuel) none = ok none
find_inlined o d a (suc fuel) (some die) = elim die.entry [
  | none ↦ ok none
  | some e ↦ do
    here ← (if is_inlined o e then pc_contains o d e a else ok false)
    elim here [
      | true ↦ ok (some die)
      | false ↦ do sibling ← next_child o d fuel die; find_inlined o d a fuel (some sibling)
    ]
]

-- The loop: the entries below the last one of the stack.
unfoldable pub inline_loop : Outside → Dwarf → FileAddr → ℕ → Die → Outcome (List Die)
unfolding find_inlined
inline_loop o d a zero die = fail undefined
inline_loop o d a (suc fuel) die = do
  children ← begin_children o d die
  found ← find_inlined o d a (length d.image + 1) children
  elim found [
    | none ↦ ok []
    | some inner ↦ do below ← inline_loop o d a fuel inner; ok (inner ∷ below)
  ]

-- With the index that it leaves behind.
unfoldable pub inline_stack_at_address :
    Outside → Dwarf → FunctionIndex → FileAddr → Outcome (List Die × FunctionIndex)
unfolding inline_loop
inline_stack_at_address o d index a = do
  (func, built) ← function_containing_address o d index a
  elim func [
    | none ↦ ok ([], built)
    | some die ↦ do below ← inline_loop o d a (length d.image + 1) die; ok (die ∷ below, built)
  ]
