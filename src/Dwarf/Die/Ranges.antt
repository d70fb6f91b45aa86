-- ===== src/Dwarf/Die/Ranges.antt =====
-- Range lists of src/dwarf.cpp, and what class `die` makes of them and of its pc attributes.
pub mod Cover
use kdebugger.Common.{
  ℕ, zero, suc, ◌+◌, ◌-◌, Bool, true, false, ◌&&◌, not, List, [], ◌∷◌, Option, none, some, ◌==◌,
  if◌then◌else◌, length, Outcome, ok, fail, sent, undefined, ◌>>=◌, or_fail,
}
use kdebugger.Common.Word.{u64_mod}
use kdebugger.Elf.{Elf, FileAddr, null_addr}
use kdebugger.Elf.Addresses.{same_file, plus, move_up, less, less_equal, greater}
use kdebugger.Dwarf.Cursor.{Cursor, cursor, u64}
use kdebugger.Dwarf.Form.{Form, addr}
use kdebugger.Dwarf.Die.{CompileUnit, DieEntry, Outside, Dwarf, contains, attr_at}
use kdebugger.Dwarf.Die.Values.{as_address, as_section_offset, as_int}

pub record RangeEntry : Type 0 where
  pub low : FileAddr
  pub high : FileAddr

-- `range_list::entry::contains`.
unfoldable pub entry_contains : RangeEntry → FileAddr → Outcome Bool
unfolding less less_equal
entry_contains e a = do above ← less_equal e.low a; if above then less a e.high else ok false

-- Where the data of a list starts and ends, and its base.
pub record RangeList : Type 0 where
  pub data_start : ℕ
  pub data_end : ℕ
  pub base_address : FileAddr

-- `behind` is the cursor at `m_Pos`; at the end of the list there is none.
pub record RangeIterator : Type 0 where
  pub base_address : FileAddr
  pub behind : Option Cursor
  pub current : RangeEntry

-- The loop of `operator ++`. A round takes 16 bytes, so the bytes that are left bound its rounds.
unfoldable pub range_loop : ℕ → Elf → FileAddr → Cursor → Outcome RangeIterator
unfolding move_up
range_loop zero elf base c = fail undefined
range_loop (suc fuel) elf base c = do
  (low, c₁) ← u64 c
  (high, c₂) ← u64 c₁
  let from : FileAddr = record { elf_file = some elf; addr = low }
  let to : FileAddr = record { elf_file = some elf; addr = high }
  let rebased = range_loop fuel elf to c₂
  if low == u64_mod - 1
      then rebased
      else if (low == 0) && (high == 0)
      then ok (record {
        base_address = base;
        behind = none;
        current = record { low = from; high = to };
      })
      else ok (record {
        base_address = base;
        behind = some c₂;
        current = record { low = move_up from base.addr; high = move_up to base.addr };
      })

unfoldable pub range_next : Elf → FileAddr → Cursor → Outcome RangeIterator
unfolding range_loop
range_next elf base c = range_loop (length c.bytes) elf base c

-- `range_list::begin`.
unfoldable pub begin_ranges : Dwarf → RangeList → Outcome RangeIterator
unfolding range_next
begin_ranges d ranges =
    range_next d.elf_file ranges.base_address (cursor d.image ranges.data_start ranges.data_end)

-- `std::any_of` in `range_list::contains`, from an iterator on.
unfoldable pub any_range : ℕ → Elf → FileAddr → RangeIterator → Outcome Bool
unfolding range_next entry_contains
any_range zero elf a it = fail undefined
any_range (suc fuel) elf a it = elim it.behind [
  | none ↦ ok false
  | some c ↦ do
    inside ← entry_contains it.current a
    elim inside [
      | true ↦ ok true
      | false ↦ do after ← range_next elf it.base_address c; any_range fuel elf a after
    ]
]

unfoldable pub ranges_contain : Dwarf → RangeList → FileAddr → Outcome Bool
unfolding begin_ranges any_range
ranges_contain d ranges a = do
  it ← begin_ranges d ranges
  any_range (length d.image + 1) d.elf_file a it

-- `attr::as_range_list`, for an attribute of the unit.
unfoldable pub as_range_list : Outside → Dwarf → DieEntry → Outcome RangeList
unfolding as_section_offset as_address
as_range_list o d e = do
  a ← attr_at e o.at_ranges
  offset ← as_section_offset o d a
  top ← o.root e.cu
  root ← or_fail top.entry
  base ←
      if contains o.at_low_pc root
      then (do low ← attr_at root o.at_low_pc; as_address o d low)
      else ok null_addr
  ok (record {
    data_start = d.debug_ranges.0 + offset;
    data_end = d.debug_ranges.1;
    base_address = base;
  })

-- `die::low_pc`. The source takes the first entry of the list from the attribute of an address, which
-- has no `low`; the model takes it from the ranges.
unfoldable pub low_pc : Outside → Dwarf → DieEntry → Outcome FileAddr
unfolding as_range_list begin_ranges
low_pc o d e =
    if contains o.at_ranges e
    then (do ranges ← as_range_list o d e; it ← begin_ranges d ranges; ok it.current.low)
    else if contains o.at_low_pc e
    then (do a ← attr_at e o.at_low_pc; as_address o d a)
    else fail (sent "DIE does not have low PC")

-- The loop of `high_pc` up to the last range; the end of the list has no next.
unfoldable pub last_range : ℕ → Elf → RangeIterator → Outcome RangeEntry
last_range zero elf it = fail undefined
last_range (suc fuel) elf it = do
  c ← or_fail it.behind
  after ← range_next elf it.base_address c
  elim after.behind [ none ↦ ok it.current | some more ↦ last_range fuel elf after ]

unfoldable pub high_pc : Outside → Dwarf → DieEntry → Outcome FileAddr
unfolding last_range low_pc as_int plus
high_pc o d e =
    if contains o.at_ranges e
    then (do
      ranges ← as_range_list o d e
      it ← begin_ranges d ranges
      end ← last_range (length d.image + 1) d.elf_file it
      ok end.high)
    else if contains o.at_high_pc e
    then (do
      a ← attr_at e o.at_high_pc
      elim (o.form_of a.form) [
        | addr ↦ as_address o d a
        | _ ↦ do low ← low_pc o d e; size ← as_int o d a; plus low size
      ])
    else fail (sent "DIE does not have High PC")

unfoldable pub pc_contains : Outside → Dwarf → DieEntry → FileAddr → Outcome Bool
unfolding ranges_contain high_pc
pc_contains o d e a =
    if not (same_file a.elf_file (some d.elf_file))
    then ok false
    else if contains o.at_ranges e
    then (do ranges ← as_range_list o d e; ranges_contain d ranges a)
    else if contains o.at_low_pc e
    then (do
      low ← low_pc o d e
      above ← less_equal low a
      if above then (do high ← high_pc o d e; greater high a) else ok false)
    else ok false
