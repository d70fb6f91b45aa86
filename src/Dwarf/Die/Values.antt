-- ===== src/Dwarf/Die/Values.antt =====
-- The readers of class `attr` in src/dwarf.cpp, and `die::name`.
use kdebugger.Common.{
  ℕ, zero, suc, ◌+◌, true, false, ◌&&◌, List, [], ◌∷◌, Option, none, some, leb, ltb, if◌then◌else◌,
  Outcome, ok, fail, sent, undefined, ◌>>=◌, or_fail,
}
use kdebugger.Elf.{FileAddr}
use kdebugger.Dwarf.Cursor.{Cursor, cursor, u8, u16, u32, u64, uleb128, string}
use kdebugger.Dwarf.Form.{
  data1, data2, data4, data8, udata, addr, sec_offset, block1, block2, block4, block, ref1, ref2,
  ref4, ref8, ref_addr, text, strp,
}
use kdebugger.Dwarf.Die.{
  CompileUnit, DieEntry, Die, Outside, Dwarf, Attr, parse_die, contains, attr_at,
}

-- The cursor at an attribute, up to the end of its unit.
abbrev pub attr_cursor : Dwarf → Attr → Cursor
attr_cursor d a = cursor d.image a.location a.cu.stop

abbrev pub value_of {ℓ} : {A : Type ℓ} → Outcome (A × Cursor) → Outcome A
value_of read = do (v, c) ← read; ok v

unfoldable pub as_address : Outside → Dwarf → Attr → Outcome FileAddr
as_address o d a = elim (o.form_of a.form) [
  | addr ↦ do (v, c) ← u64 (attr_cursor d a); ok (record { elf_file = some d.elf_file; addr = v })
  | _ ↦ fail (sent "Invalid address type")
]

unfoldable pub as_section_offset : Outside → Dwarf → Attr → Outcome ℕ
as_section_offset o d a = elim (o.form_of a.form) [
  | sec_offset ↦ value_of (u32 (attr_cursor d a))
  | _ ↦ fail (sent "Invalid offset type")
]

unfoldable pub as_int : Outside → Dwarf → Attr → Outcome ℕ
as_int o d a = elim (o.form_of a.form) [
  | data1 ↦ value_of (u8 (attr_cursor d a))
  | data2 ↦ value_of (u16 (attr_cursor d a))
  | data4 ↦ value_of (u32 (attr_cursor d a))
  | data8 ↦ value_of (u64 (attr_cursor d a))
  | udata ↦ value_of (uleb128 (attr_cursor d a))
  | _ ↦ fail (sent "Invalid integer type")
]

-- A block is where it starts, with its size.
unfoldable pub as_block : Outside → Dwarf → Attr → Outcome (ℕ × ℕ)
as_block o d a = do
  (size, c) ← elim (o.form_of a.form) [
    | block1 ↦ u8 (attr_cursor d a)
    | block2 ↦ u16 (attr_cursor d a)
    | block4 ↦ u32 (attr_cursor d a)
    | block ↦ uleb128 (attr_cursor d a)
    | _ ↦ fail (sent "Invalid block type")
  ]
  ok (c.pos, size)

-- `std::find_if` with `cu_finder`.
unfoldable pub find_cu : ℕ → List CompileUnit → Option CompileUnit
find_cu die_pos [] = none
find_cu die_pos (cu ∷ cus) =
    let later = find_cu die_pos cus in
    if leb cu.start die_pos && ltb die_pos cu.stop then some cu else later

-- An entry at an offset in the attribute's own unit.
unfoldable pub die_in_unit : Outside → Dwarf → CompileUnit → ℕ → Outcome Die
die_in_unit o d cu offset = parse_die o.form_of d cu (cursor d.image (cu.start + offset) cu.stop)

-- DW_FORM_ref8 is read as a LEB128 number, and DW_FORM_ref_addr counts from the section's start.
unfoldable pub as_reference : Outside → Dwarf → Attr → Outcome Die
unfolding find_cu die_in_unit
as_reference o d a = elim (o.form_of a.form) [
  | ref1 ↦ value_of (u8 (attr_cursor d a)) >>= die_in_unit o d a.cu
  | ref2 ↦ value_of (u16 (attr_cursor d a)) >>= die_in_unit o d a.cu
  | ref4 ↦ value_of (u32 (attr_cursor d a)) >>= die_in_unit o d a.cu
  | ref8 ↦ value_of (uleb128 (attr_cursor d a)) >>= die_in_unit o d a.cu
  | ref_addr ↦ do
    (offset, c) ← u32 (attr_cursor d a)
    let die_pos = d.debug_info.0 + offset
    cu ← or_fail (find_cu die_pos d.compile_units)
    parse_die o.form_of d cu (cursor d.image die_pos cu.stop)
  | _ ↦ fail (sent "Invalid reference type")
]

unfoldable pub as_string : Outside → Dwarf → Attr → Outcome (List ℕ)
as_string o d a = elim (o.form_of a.form) [
  | text ↦ value_of (string (attr_cursor d a))
  | strp ↦ do
    (offset, c) ← u32 (attr_cursor d a)
    value_of (string (cursor d.image (d.debug_str.0 + offset) d.debug_str.1))
  | _ ↦ fail (sent "Invalid string type")
]

-- `die::name`. Entries may refer to each other in a circle, on which the source has no end: `fuel`
-- counts the references followed.
unfoldable pub name : ℕ → Outside → Dwarf → DieEntry → Outcome (Option (List ℕ))
unfolding as_string as_reference
name zero o d e = fail undefined
name (suc fuel) o d e = elim (contains o.at_name e) [
  | true ↦ do a ← attr_at e o.at_name; s ← as_string o d a; ok (some s)
  | false ↦ elim (contains o.at_specification e) [
    | true ↦ do
      a ← attr_at e o.at_specification
      die ← as_reference o d a
      other ← or_fail die.entry
      name fuel o d other
    | false ↦ elim (contains o.at_abstract_origin e) [
      | true ↦ do
        a ← attr_at e o.at_abstract_origin
        die ← as_reference o d a
        other ← or_fail die.entry
        name fuel o d other
      | false ↦ ok none
    ]
  ]
]
