-- ===== src/Dwarf/Die/Index.antt =====
-- The lookups of class `dwarf` by address and by name, and its index of functions. The index is an
-- unordered map, whose entries the model lists in the order of their insertion.
use kdebugger.Common.{
  same_text, ℕ, zero, suc, ◌+◌, ◌&&◌, ◌||◌, List, [], ◌∷◌, ◌++◌, Option, none, some, ◌==◌,
  if◌then◌else◌, length, Outcome, ok, fail, undefined, ◌>>=◌, or_fail,
}
use kdebugger.Elf.{FileAddr}
use kdebugger.Dwarf.Cursor.{cursor}
use kdebugger.Dwarf.Die.{CompileUnit, DieEntry, Die, Outside, Dwarf, parse_die, contains}
use kdebugger.Dwarf.Die.Values.{name}
use kdebugger.Dwarf.Die.Children.{ChildIterator, begin_children, next_child}
use kdebugger.Dwarf.Die.Ranges.{pc_contains}

unfoldable pub unit_containing :
    Outside → Dwarf → FileAddr → List CompileUnit → Outcome (Option CompileUnit)
unit_containing o d a [] = ok none
unit_containing o d a (cu ∷ cus) = do
  die ← o.root cu
  e ← or_fail die.entry
  here ← pc_contains o d e a
  if here then ok (some cu) else unit_containing o d a cus

unfoldable pub compile_unit_containing_address :
    Outside → Dwarf → FileAddr → Outcome (Option CompileUnit)
unfolding unit_containing
compile_unit_containing_address o d a = unit_containing o d a d.compile_units

pub record IndexEntry : Type 0 where
  pub function : List ℕ
  pub cu : CompileUnit
  pub pos : ℕ

abbrev pub FunctionIndex : Type 0
FunctionIndex = List IndexEntry

-- What `index_die` does to the index for the entry itself; `*name` of no name is undefined.
unfoldable pub index_entry : Outside → Dwarf → DieEntry → FunctionIndex → Outcome FunctionIndex
index_entry o d e index =
    if (contains o.at_low_pc e || contains o.at_ranges e)
      && ((e.abbrev_entry.tag == o.tag_subprogram)
          || (e.abbrev_entry.tag == o.tag_inlined_subroutine))
    then (do
      found ← name (length d.image + 1) o d e
      text ← or_fail found
      ok (index ++ (record { function = text; cu = e.cu; pos = e.position } ∷ [])))
    else ok index

-- The loop of `index_die` over children, from an iterator on. `fuel` bounds the entries visited.
unfoldable pub index_children :
    Outside → Dwarf → ℕ → ChildIterator → FunctionIndex → Outcome FunctionIndex
unfolding index_entry
index_children o d zero it index = fail undefined
index_children o d (suc fuel) none index = ok index
index_children o d (suc fuel) (some die) index = elim die.entry [
  | none ↦ ok index
  | some e ↦ do
    entered ← index_entry o d e index
    children ← begin_children o d die
    below ← index_children o d fuel children entered
    sibling ← next_child o d fuel die
    index_children o d fuel (some sibling) below
]

unfoldable pub index_die : Outside → Dwarf → ℕ → Die → FunctionIndex → Outcome FunctionIndex
unfolding index_children
index_die o d fuel die index = do
  e ← or_fail die.entry
  entered ← index_entry o d e index
  children ← begin_children o d die
  index_children o d fuel children entered

unfoldable pub index_units :
    Outside → Dwarf → List CompileUnit → FunctionIndex → Outcome FunctionIndex
unfolding index_die
index_units o d [] index = ok index
index_units o d (cu ∷ cus) index = do
  die ← o.root cu
  entered ← index_die o d (length d.image + 1) die index
  index_units o d cus entered

-- `dwarf::index`.
unfoldable pub index_functions : Outside → Dwarf → FunctionIndex → Outcome FunctionIndex
unfolding index_units
index_functions o d [] = index_units o d d.compile_units []
index_functions o d (first ∷ others) = ok (first ∷ others)

abbrev pub die_of : Outside → Dwarf → IndexEntry → Outcome Die
die_of o d entry = parse_die o.form_of d entry.cu (cursor d.image entry.pos entry.cu.stop)

unfoldable pub function_loop : Outside → Dwarf → FileAddr → FunctionIndex → Outcome (Option Die)
function_loop o d a [] = ok none
function_loop o d a (entry ∷ index) = do
  die ← die_of o d entry
  e ← or_fail die.entry
  here ← pc_contains o d e a
  if here && (e.abbrev_entry.tag == o.tag_subprogram)
      then ok (some die)
      else function_loop o d a index

-- With the index that it leaves behind.
unfoldable pub function_containing_address :
    Outside → Dwarf → FunctionIndex → FileAddr → Outcome (Option Die × FunctionIndex)
unfolding index_functions function_loop
function_containing_address o d index a = do
  built ← index_functions o d index
  found ← function_loop o d a built
  ok (found, built)

unfoldable pub named_loop : Outside → Dwarf → List ℕ → FunctionIndex → Outcome (List Die)
named_loop o d text [] = ok []
named_loop o d text (entry ∷ index) =
    if same_text entry.function text
    then (do die ← die_of o d entry; others ← named_loop o d text index; ok (die ∷ others))
    else named_loop o d text index

unfoldable pub find_functions :
    Outside → Dwarf → FunctionIndex → List ℕ → Outcome (List Die × FunctionIndex)
unfolding index_functions named_loop
find_functions o d index text = do
  built ← index_functions o d index
  found ← named_loop o d text built
  ok (found, built)
