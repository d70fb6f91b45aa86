-- ===== src/Dwarf/Abbrev/Parse.antt =====
-- `parse_abbrev_table` on the bytes of a table.
use kdebugger.Common.{
  or_else, or_else-none, or_else-or_else, ℕ, zero, suc, ◌+◌, ◌<◌, ◌≡◌, ◌≢◌, refl, List, [], ◌∷◌,
  ◌++◌, map, All, length, drop, Option, some, ok, ◌==◌, ==_ne, ==_iff, arith, Bool-cases,
  Option-cases, inl, inr, subst, sym,
}
use kdebugger.Dwarf.Cursor.{cursor, advance}
use kdebugger.Dwarf.Cursor.Fixed.{one_byte}
use kdebugger.Dwarf.Abbrev.{
  Abbrev, AbbrevTable, find_abbrev, emplace_abbrev, read_specs, read_abbrev, abbrev_loop,
  parse_abbrev_table,
}
use kdebugger.Dwarf.Abbrev.Encoding.{
  Number, value, put, uleb128-put, uleb128_zero, length-put, EncodedSpec, spec_of, put_specs,
  EncodedAbbrev, put_entry, abbrev_of, put_entries, length-put_specs, length-put_entries,
}

read_specs-put :
    (fuel : ℕ) (specs : List EncodedSpec) (stop : Number) (rest : List ℕ) (pos end : ℕ)
    → length specs < fuel
    → (pos' : ℕ) × (read_specs fuel
          (record { bytes = put_specs specs stop rest; pos = pos; end = end })
        ≡ ok (map spec_of specs, record { bytes = rest; pos = pos'; end = end }))
unfolding read_specs
read_specs-put zero specs stop rest pos end h = absurd (omega arith)
read_specs-put (suc fuel) [] stop rest pos end h = (
  pos + 0 + 1 + length stop.groups + 1,
  rw (uleb128_zero (put stop rest) pos end, uleb128-put stop rest (pos + 0 + 1) end) refl,
)
read_specs-put (suc fuel) (s ∷ specs) stop rest pos end h =
    let (pos', more) =
      read_specs-put fuel specs stop rest
        (pos + length s.attr.groups + 1 + length s.form.groups + 1) end (omega arith) in
    (
      pos',
      rw
          (
            uleb128-put s.attr (put s.form (put_specs specs stop rest)) pos end,
            uleb128-put s.form (put_specs specs stop rest) (pos + length s.attr.groups + 1) end,
            ==_ne (value s.attr) 0 s.present,
            more,
          )
          refl,
    )

read_abbrev-put :
    (e : EncodedAbbrev) (rest : List ℕ) (pos end : ℕ)
    → (pos' : ℕ) × (read_abbrev (record { bytes = put_entry e rest; pos = pos; end = end })
        ≡ ok (abbrev_of e, record { bytes = rest; pos = pos'; end = end }))
unfolding read_abbrev
read_abbrev-put e rest pos end =
    let tail = put_specs e.specs e.stop rest in
    let p = pos + length e.code.groups + 1 in
    let q = p + length e.tag.groups + 1 in
    let (pos', specs) =
      read_specs-put (length tail) e.specs e.stop rest (q + 1) end
        (length-put_specs e.specs e.stop rest) in
    (
      pos',
      rw
          (
            uleb128-put e.code (put e.tag (e.flag ∷ tail)) pos end,
            uleb128-put e.tag (e.flag ∷ tail) p end,
            one_byte e.flag tail q end,
            specs,
          )
          refl,
    )

find_abbrev-append :
    (code : ℕ) (a : Abbrev) (table : AbbrevTable)
    → find_abbrev code (table ++ (a ∷ []))
      ≡ or_else (find_abbrev code table) (find_abbrev code (a ∷ []))
unfolding find_abbrev
find_abbrev-append code a [] = refl
find_abbrev-append code a (b ∷ table) = elim (Bool-cases (b.code == code)) [
  | inl here ↦ rw here refl
  | inr other ↦ rw other (find_abbrev-append code a table)
]

-- A code that is in the table is not found anew.
kept :
    (code : ℕ) (a there : Abbrev) (table : AbbrevTable)
    → find_abbrev a.code table ≡ some there
    → find_abbrev code table ≡ or_else (find_abbrev code table) (find_abbrev code (a ∷ []))
unfolding find_abbrev
kept code a there table found = elim (Bool-cases (a.code == code)) [
  | inl here ↦
      let same : find_abbrev code table ≡ some there =
        subst (λ k. find_abbrev k table ≡ some there) ((==_iff a.code code).0 here) found in
      rw same refl
  | inr other ↦ rw other (sym (or_else-none (find_abbrev code table)))
]

find_abbrev-emplace_abbrev :
    (code : ℕ) (a : Abbrev) (table : AbbrevTable)
    → find_abbrev code (emplace_abbrev a table)
      ≡ or_else (find_abbrev code table) (find_abbrev code (a ∷ []))
unfolding emplace_abbrev
find_abbrev-emplace_abbrev code a table = elim (Option-cases (find_abbrev a.code table)) [
  | inl missing ↦ rw (emplace_abbrev, missing) (find_abbrev-append code a table)
  | inr (there, found) ↦ rw (emplace_abbrev, found) (kept code a there table found)
]

first_then :
    (code : ℕ) (a : Abbrev) (table : AbbrevTable)
    → find_abbrev code (a ∷ table) ≡ or_else (find_abbrev code (a ∷ [])) (find_abbrev code table)
unfolding find_abbrev
first_then code a table = elim (Bool-cases (a.code == code)) [
  | inl here ↦ rw here refl
  | inr other ↦ rw other refl
]

extended :
    (code : ℕ) (a : Abbrev) (table later : AbbrevTable) {found : Option Abbrev}
    → found ≡ or_else (find_abbrev code (emplace_abbrev a table)) (find_abbrev code later)
    → found ≡ or_else (find_abbrev code table) (find_abbrev code (a ∷ later))
extended code a table later e =
    rw (e, find_abbrev-emplace_abbrev code a table, first_then code a later)
      (or_else-or_else (find_abbrev code table) (find_abbrev code (a ∷ []))
        (find_abbrev code later))

-- The entries of a section before an entry whose code is 0, whatever follows it, are found by their
-- codes, behind those of the table so far.
abbrev_loop-put :
    (fuel : ℕ) (table : AbbrevTable) (entries : List EncodedAbbrev) (final : EncodedAbbrev)
    (rest : List ℕ) (pos end : ℕ)
    → length entries < fuel
    → All (λ e. value e.code ≢ 0) entries
    → value final.code ≡ 0
    → (left : AbbrevTable) × (abbrev_loop fuel table
          (record { bytes = put_entries entries (put_entry final rest); pos = pos; end = end })
        ≡ ok left)
      × ((code : ℕ)
          → find_abbrev code left
            ≡ or_else (find_abbrev code table) (find_abbrev code (map abbrev_of entries)))
unfolding abbrev_loop
abbrev_loop-put zero table entries final rest pos end h codes stop = absurd (omega arith)
abbrev_loop-put (suc fuel) table [] final rest pos end h codes stop =
    let (pos', read) = read_abbrev-put final rest pos end in
    (table, rw (read, stop) refl, λ code. sym (or_else-none (find_abbrev code table)))
abbrev_loop-put (suc fuel) table (e ∷ entries) final rest pos end h (here, codes) stop =
    let (pos', read) = read_abbrev-put e (put_entries entries (put_entry final rest)) pos end in
    let (left, loop, found) =
      abbrev_loop-put fuel (emplace_abbrev (abbrev_of e) table) entries final rest pos' end
        (omega arith) codes stop in
    (
      left,
      rw (read, ==_ne (value e.code) 0 here) loop,
      λ code. extended code (abbrev_of e) table (map abbrev_of entries) (found code),
    )

-- Where a section holds, at the offset, entries with codes other than 0 and then an entry with code
-- 0, `parse_abbrev_table` returns a table, in which every code has its first entry, and a code of no
-- entry has none.
pub parse_abbrev_table-put :
    (image : List ℕ) (start end offset : ℕ) (entries : List EncodedAbbrev) (final : EncodedAbbrev)
    (rest : List ℕ)
    → drop offset (drop start image) ≡ put_entries entries (put_entry final rest)
    → All (λ e. value e.code ≢ 0) entries
    → value final.code ≡ 0
    → (table : AbbrevTable) × (parse_abbrev_table image (start, end) offset ≡ ok table)
      × ((code : ℕ) → find_abbrev code table ≡ find_abbrev code (map abbrev_of entries))
unfolding parse_abbrev_table cursor advance find_abbrev
parse_abbrev_table-put image start end offset entries final rest bytes codes stop =
    let section = put_entries entries (put_entry final rest) in
    let fuel : length entries < length section = omega (
      arith,
      length-put_entries entries (put_entry final rest),
      length-put final.code (put final.tag (final.flag ∷ put_specs final.specs final.stop rest)),
    ) in
    rw bytes
      (abbrev_loop-put (length section) [] entries final rest (start + offset) end fuel codes stop)
