-- ===== src/Dwarf/Die/Children.antt =====
-- `die::children_range` of include/libkdebugger/dwarf.hpp and src/dwarf.cpp.
pub mod Trees
pub mod Steps
use kdebugger.Common.{
  ℕ, zero, suc, Bool, true, false, ◌&&◌, ◌==◌, List, Option, none, some, Outcome, ok, fail,
  undefined, ◌>>=◌, or_fail,
}
use kdebugger.Dwarf.Cursor.{cursor}
use kdebugger.Dwarf.Die.{CompileUnit, DieEntry, Die, Outside, Dwarf, parse_die, contains, attr_at}
use kdebugger.Dwarf.Die.Values.{as_reference}

-- The iterator holds an entry, the null entry, or nothing.
abbrev pub ChildIterator : Type 0
ChildIterator = Option Die

abbrev pub current : ChildIterator → Option DieEntry
current none = none
current (some die) = die.entry

abbrev pub after_die : Outside → Dwarf → CompileUnit → ℕ → Outcome Die
after_die o d cu next = parse_die o.form_of d cu (cursor d.image next cu.stop)

-- `children_range::begin`.
unfoldable pub begin_children : Outside → Dwarf → Die → Outcome ChildIterator
begin_children o d die = do
  e ← or_fail die.entry
  elim e.abbrev_entry.has_children [
    | true ↦ do child ← after_die o d e.cu die.next; ok (some child)
    | false ↦ ok none
  ]

-- Two pointers to abbreviations are equal when the tables' offsets and the codes are.
unfoldable pub same_child : ChildIterator → ChildIterator → Bool
same_child none none = true
same_child none (some b) = elim b.entry [ none ↦ true | some e ↦ false ]
same_child (some a) none = elim a.entry [ none ↦ true | some e ↦ false ]
same_child (some a) (some b) = elim a.entry [
  | none ↦ elim b.entry [ none ↦ true | some f ↦ false ]
  | some e ↦ elim b.entry [
    | none ↦ false
    | some f ↦
        (e.cu.abbrev_offset == f.cu.abbrev_offset)
        && (e.abbrev_entry.code == f.abbrev_entry.code)
        && (a.next == b.next)
  ]
]

-- The loop over the children of a child: where its null entry ends.
unfoldable pub until_null : (Die → Outcome Die) → ℕ → Die → Outcome ℕ
until_null step zero die = fail undefined
until_null step (suc fuel) die = elim die.entry [
  | none ↦ ok die.next
  | some e ↦ do sibling ← step die; until_null step fuel sibling
]

-- `operator ++`. `fuel` bounds the entries passed.
unfoldable pub next_child : Outside → Dwarf → ℕ → Die → Outcome Die
unfolding until_null
next_child o d zero die = fail undefined
next_child o d (suc fuel) die = elim die.entry [
  | none ↦ ok die
  | some e ↦ elim e.abbrev_entry.has_children [
    | false ↦ after_die o d e.cu die.next
    | true ↦ elim (contains o.at_sibling e) [
      | true ↦ do a ← attr_at e o.at_sibling; as_reference o d a
      | false ↦ do
        sub ← after_die o d e.cu die.next
        next ← until_null (next_child o d fuel) fuel sub
        after_die o d e.cu next
    ]
  ]
]
