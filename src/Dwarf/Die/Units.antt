-- ===== src/Dwarf/Die/Units.antt =====
-- `parse_compile_unit` and `parse_compile_units` on the bytes of units.
use kdebugger.Common.{
  ℕ, zero, suc, ◌+◌, ◌-◌, ◌<◌, ◌^◌, ◌%◌, ◌≡◌, ◌==◌, ◌≢◌, refl, sym, ap, ◌∙◌, true, false, List, [],
  ◌∷◌, ◌++◌, length, drop, drop-append, All, Outcome, ok, fail, ◌>>=◌, arith,
}
use kdebugger.Dwarf.Cursor.{Cursor, cursor, advance, finished}
use kdebugger.Dwarf.Cursor.Fixed.{le_bytes, fixed_int-le_bytes}
use kdebugger.Dwarf.Die.{CompileUnit, Outside, Dwarf}
use kdebugger.Dwarf.LineTable.Header.{LineNumbers, parse_line_table}
use kdebugger.Dwarf.Units.{compile_unit, parse_compile_unit, unit_loop, parse_compile_units}

-- The header of a unit.
abbrev pub put_header : (size version abbrev_offset address_size : ℕ) (rest : List ℕ) → List ℕ
put_header size version abbrev_offset address_size rest =
    le_bytes 4 size
    ++ (le_bytes 2 version ++ (le_bytes 4 abbrev_offset ++ (le_bytes 1 address_size ++ rest)))

module _ (n : LineNumbers) (o : Outside) (d : Dwarf) where
  -- A header of DWARF 4 whose numbers fit their sizes.
  parse_compile_unit-header :
      (size abbrev_offset : ℕ) (rest : List ℕ) (pos end : ℕ)
      → size < 256 ^ 4
      → abbrev_offset < 256 ^ 4
      → size ≢ 0xffffffff
      → parse_compile_unit n o d
          (record { bytes = put_header size 4 abbrev_offset 8 rest; pos = pos; end = end })
        ≡ compile_unit n o d (record {
          start = pos;
          stop = pos + (size + 4) % 2 ^ 32;
          abbrev_offset = abbrev_offset;
        })
  unfolding parse_compile_unit
  parse_compile_unit-header size abbrev_offset rest pos end hs ha small =
      let tail = le_bytes 4 abbrev_offset ++ (le_bytes 1 8 ++ rest) in
      let known : (size == 0xffffffff) ≡ false = ground arith in
      rw
        (
          fixed_int-le_bytes 4 size (le_bytes 2 4 ++ tail) pos end hs,
          ◌>>=◌,
          fixed_int-le_bytes 2 4 tail (pos + 4) end (omega arith),
          ◌>>=◌,
          fixed_int-le_bytes 4 abbrev_offset (le_bytes 1 8 ++ rest) (pos + 4 + 2) end ha,
          ◌>>=◌,
          fixed_int-le_bytes 1 8 rest (pos + 4 + 2 + 4) end (omega arith),
          ◌>>=◌,
          known,
        )
        refl

-- A unit of DWARF 4 as it stands in the section: the offset of its abbreviations, and its entries.
pub record EncodedUnit : Type 0 where
  pub abbrev_offset : ℕ
  pub entries : List ℕ

-- Its size without the four bytes of the size itself.
abbrev pub unit_size : EncodedUnit → ℕ
unit_size u = 7 + length u.entries

abbrev pub IsUnit : EncodedUnit → Type 0
IsUnit u = (u.abbrev_offset < 256 ^ 4) × (unit_size u + 4 < 2 ^ 32)

abbrev pub unit_bytes : EncodedUnit → List ℕ
unit_bytes u = put_header (unit_size u) 4 u.abbrev_offset 8 u.entries

abbrev pub put_units : List EncodedUnit → List ℕ → List ℕ
put_units [] rest = rest
put_units (u ∷ units) rest = unit_bytes u ++ put_units units rest

-- The bytes of all of them.
abbrev pub units_size : List EncodedUnit → ℕ
units_size [] = 0
units_size (u ∷ units) = unit_size u + 4 + units_size units

-- The units, the first at `pos`.
abbrev pub units_at : ℕ → List EncodedUnit → List CompileUnit
units_at pos [] = []
units_at pos (u ∷ units) =
    record { start = pos; stop = pos + (unit_size u + 4); abbrev_offset = u.abbrev_offset }
    ∷ units_at (pos + (unit_size u + 4)) units

advance-unit :
    (u : EncodedUnit) (rest : List ℕ) (pos end : ℕ)
    → advance
        (pos + (unit_size u + 4) - pos)
        (record { bytes = unit_bytes u ++ rest; pos = pos; end = end })
      ≡ record { bytes = rest; pos = pos + (unit_size u + 4); end = end }
unfolding advance
advance-unit u rest pos end =
    ap (λ (k : ℕ). record { bytes = drop k (unit_bytes u ++ rest); pos = pos + k; end = end })
      {y = length (unit_bytes u)} (omega arith)
    ∙ ap (λ (r : List ℕ). record { bytes = r; pos = pos + length (unit_bytes u); end = end })
        (drop-append (unit_bytes u) rest)
    ∙ ap (λ (k : ℕ). record { bytes = rest; pos = k; end = end }) {y = pos + (unit_size u + 4)}
        (omega arith)

-- A result that does not depend on what was read.
discard :
    {A B C : Type 0} (m : Outcome A) (b : B) (f : B → Outcome C)
    → (m >>= (λ a. ok b) >>= f) ≡ (m >>= λ a. f b)
discard (ok a) b f = refl
discard (fail e) b f = refl

module _ (n : LineNumbers) (o : Outside) (d : Dwarf) where
  -- The units, where the constructor of each returns, one after the other.
  abbrev pub constructed : List CompileUnit → Outcome (List CompileUnit)
  constructed [] = ok []
  constructed (cu ∷ cus) = do
    first ← compile_unit n o d cu
    others ← constructed cus
    ok (first ∷ others)

  parse_compile_unit-unit :
      (u : EncodedUnit) (rest : List ℕ) (pos end : ℕ)
      → IsUnit u
      → parse_compile_unit n o d (record { bytes = unit_bytes u ++ rest; pos = pos; end = end })
        ≡ compile_unit n o d (record {
          start = pos;
          stop = pos + (unit_size u + 4);
          abbrev_offset = u.abbrev_offset;
        })
  parse_compile_unit-unit u rest pos end (ha, hs) =
      parse_compile_unit-header n o d (unit_size u) u.abbrev_offset (u.entries ++ rest) pos end
        (omega arith) ha (λ e. omega arith)
      ∙ ap
          (λ (k : ℕ).
            compile_unit n o d
              (record { start = pos; stop = pos + k; abbrev_offset = u.abbrev_offset }))
          {y = unit_size u + 4} (omega arith)

  unit_loop-ended :
      (fuel : ℕ) (c : Cursor) → finished c ≡ true → unit_loop n o d (suc fuel) c ≡ ok []
  unfolding unit_loop
  unit_loop-ended fuel c e = rw (unit_loop, e) refl

  -- What a round leaves to the next ones.
  abbrev after_unit : ℕ → Cursor → CompileUnit → Outcome (List CompileUnit)
  after_unit fuel c u =
      unit_loop n o d fuel (advance (u.stop - u.start) c) >>= λ units. ok (u ∷ units)

  unit_loop-round :
      (fuel : ℕ) (c : Cursor) (u : CompileUnit)
      → finished c ≡ false
      → parse_compile_unit n o d c ≡ compile_unit n o d u
      → unit_loop n o d (suc fuel) c ≡ (parse_line_table n o d u >>= λ table. after_unit fuel c u)
  unfolding unit_loop compile_unit
  unit_loop-round fuel c u going read =
      rw (unit_loop, going, read) (discard (parse_line_table n o d u) u (after_unit fuel c))

  unit_loop-put :
      (units : List EncodedUnit) (rest : List ℕ) (pos end fuel : ℕ)
      → All IsUnit units
      → pos + units_size units ≡ end
      → units_size units < fuel
      → unit_loop n o d fuel (record { bytes = put_units units rest; pos = pos; end = end })
        ≡ constructed (units_at pos units)
  unfolding unit_loop finished compile_unit
  unit_loop-put units rest pos end zero h stop enough = absurd (omega arith)
  unit_loop-put [] rest pos end (suc fuel) h stop enough =
      unit_loop-ended fuel (record { bytes = rest; pos = pos; end = end }) (ground arith)
  unit_loop-put (u ∷ units) rest pos end (suc fuel) (hu, h) stop enough =
      let behind = put_units units rest in
      let first : CompileUnit = record {
        start = pos;
        stop = pos + (unit_size u + 4);
        abbrev_offset = u.abbrev_offset;
      } in
      let at_unit : Cursor = record { bytes = unit_bytes u ++ behind; pos = pos; end = end } in
      let later : after_unit fuel at_unit first ≡ (
          constructed (units_at (pos + (unit_size u + 4)) units) >>= λ others.
          ok (first ∷ others)) =
        ap (λ (c : Cursor). unit_loop n o d fuel c >>= λ others. ok (first ∷ others))
          (advance-unit u behind pos end)
        ∙ ap (λ (m : Outcome (List CompileUnit)). m >>= λ others. ok (first ∷ others))
            (unit_loop-put units rest (pos + (unit_size u + 4)) end fuel h (omega arith)
              (omega arith)) in
      unit_loop-round fuel at_unit first (ground arith)
        (parse_compile_unit-unit u behind pos end hu)
      ∙ ap (λ (m : Outcome (List CompileUnit)). parse_line_table n o d first >>= λ table. m) later
      ∙ sym (
          discard (parse_line_table n o d first) first (λ (cu : CompileUnit).
            constructed (units_at (pos + (unit_size u + 4)) units) >>= λ others. ok (cu ∷ others)))

-- On a section that holds units of DWARF 4 one behind the other, the loop makes exactly these units, each
-- from its size on up to the next: it gives them all where the constructor of each returns, which parses
-- its line table, and fails as the first constructor does that fails.
pub parse_compile_units-put :
    (n : LineNumbers) (o : Outside) (d : Dwarf) (rest : List ℕ) (start end : ℕ)
    (units : List EncodedUnit)
    → drop start d.image ≡ put_units units rest
    → start + units_size units ≡ end
    → All IsUnit units
    → parse_compile_units n o d (start, end) ≡ constructed n o d (units_at start units)
unfolding parse_compile_units cursor
parse_compile_units-put n o d rest start end units bytes stop h =
    rw bytes (unit_loop-put n o d units rest start end (end - start + 1) h stop (omega arith))
