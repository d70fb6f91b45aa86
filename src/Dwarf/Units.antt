-- ===== src/Dwarf/Units.antt =====
-- The compile units of src/dwarf.cpp: `parse_compile_units`, with the constructor of `compile_unit`,
-- which parses the unit's line table.
use kdebugger.Common.{
  ℕ, zero, suc, ◌+◌, ◌-◌, ◌%◌, ◌^◌, true, false, not, List, [], ◌∷◌, ◌==◌, if◌then◌else◌, Outcome,
  ok, fail, sent, undefined, ◌>>=◌,
}
use kdebugger.Dwarf.Cursor.{Cursor, cursor, advance, finished, u8, u16, u32}
use kdebugger.Dwarf.Die.{CompileUnit, Outside, Dwarf}
use kdebugger.Dwarf.LineTable.Header.{LineNumbers, parse_line_table}

module _ (n : LineNumbers) (o : Outside) (d : Dwarf) where
  -- The constructor. The table is read anew by those who use it.
  unfoldable pub compile_unit : CompileUnit → Outcome CompileUnit
  unfolding parse_line_table
  compile_unit cu = do table ← parse_line_table n o d cu; ok cu

  -- `size` has 32 bits, so that the sum wraps.
  unfoldable pub parse_compile_unit : Cursor → Outcome CompileUnit
  unfolding compile_unit
  parse_compile_unit c = do
    (size, c₁) ← u32 c
    (version, c₂) ← u16 c₁
    (abbrev_offset, c₃) ← u32 c₂
    (address_size, c₄) ← u8 c₃
    if size == 0xffffffff
        then fail (sent "Only DWARF32 is supported at this moment.")
        else if not (version == 4)
        then fail (sent "Only DWARF version 4 is supported")
        else if not (address_size == 8)
        then fail (sent "Invalid address size for DWARF")
        else compile_unit (record {
          start = c.pos;
          stop = c.pos + (size + 4) % 2 ^ 32;
          abbrev_offset = abbrev_offset;
        })

  -- The loop. A unit of no bytes leaves the cursor where it is, and the loop has no end.
  unfoldable pub unit_loop : ℕ → Cursor → Outcome (List CompileUnit)
  unfolding parse_compile_unit
  unit_loop zero c = fail undefined
  unit_loop (suc fuel) c = elim (finished c) [
    | true ↦ ok []
    | false ↦ do
      unit ← parse_compile_unit c
      units ← unit_loop fuel (advance (unit.stop - unit.start) c)
      ok (unit ∷ units)
  ]

  unfoldable pub parse_compile_units : ℕ × ℕ → Outcome (List CompileUnit)
  unfolding unit_loop
  parse_compile_units (start, end) = unit_loop (end - start + 1) (cursor d.image start end)
