-- ===== src/Dwarf/Abbrev/Encoding.antt =====
-- Abbreviation tables as bytes, and what `parse_abbrev_table` makes of them.
use kdebugger.Common.{
  ℕ, ◌+◌, ◌≤◌, ◌<◌, ◌≡◌, ◌≢◌, not, List, [], ◌∷◌, ◌++◌, map, length, length-append, ok, ◌==◌, arith,
}
use kdebugger.Dwarf.Cursor.{uleb128}
use kdebugger.Dwarf.Cursor.Leb.{IsLeb, leb_bytes, leb_value, length-leb_bytes, uleb128-leb_bytes}
use kdebugger.Dwarf.Abbrev.{AttrSpec, Abbrev}

-- A number as it stands in the section.
pub record Number : Type 0 where
  pub groups : List ℕ
  pub last : ℕ
  pub legal : IsLeb groups last

abbrev pub value : Number → ℕ
value n = leb_value n.groups n.last

-- The bytes of a number, with what follows it.
abbrev pub put : Number → List ℕ → List ℕ
put n rest = leb_bytes n.groups n.last ++ rest

-- A number before `rest` is read, and `rest` is left.
pub uleb128-put :
    (n : Number) (rest : List ℕ) (pos end : ℕ)
    → uleb128 (record { bytes = put n rest; pos = pos; end = end })
      ≡ ok (value n, record { bytes = rest; pos = pos + length n.groups + 1; end = end })
uleb128-put n rest pos end = uleb128-leb_bytes n.groups n.last rest pos end n.legal

pub length-put : (n : Number) (rest : List ℕ) → length rest < length (put n rest)
length-put n rest = rw length-append (ground (arith, length-leb_bytes n.groups n.last))

-- An attribute and its form as they stand in the section.
pub record EncodedSpec : Type 0 where
  pub attr : Number
  pub form : Number
  pub present : value attr ≢ 0

abbrev pub spec_of : EncodedSpec → AttrSpec
spec_of s = record { attr = value s.attr; form = value s.form }

-- The specifications up to the attribute 0, whose form is `stop`.
abbrev pub put_specs : List EncodedSpec → Number → List ℕ → List ℕ
put_specs [] stop rest = 0 ∷ put stop rest
put_specs (s ∷ specs) stop rest = put s.attr (put s.form (put_specs specs stop rest))

pub length-put_specs :
    (specs : List EncodedSpec) (stop : Number) (rest : List ℕ)
    → length specs < length (put_specs specs stop rest)
length-put_specs [] stop rest = omega arith
length-put_specs (s ∷ specs) stop rest = omega (
  arith,
  length-put_specs specs stop rest,
  length-put s.form (put_specs specs stop rest),
  length-put s.attr (put s.form (put_specs specs stop rest)),
)

pub length_specs :
    (specs : List EncodedSpec) (stop : Number) (rest : List ℕ)
    → length rest < length (put_specs specs stop rest)
length_specs [] stop rest = omega (arith, length-put stop rest)
length_specs (s ∷ specs) stop rest = omega (
  arith,
  length_specs specs stop rest,
  length-put s.form (put_specs specs stop rest),
  length-put s.attr (put s.form (put_specs specs stop rest)),
)

-- An abbreviation as it stands in the section.
pub record EncodedAbbrev : Type 0 where
  pub code : Number
  pub tag : Number
  pub flag : ℕ
  pub specs : List EncodedSpec
  pub stop : Number

abbrev pub put_entry : EncodedAbbrev → List ℕ → List ℕ
put_entry e rest = put e.code (put e.tag (e.flag ∷ put_specs e.specs e.stop rest))

abbrev pub abbrev_of : EncodedAbbrev → Abbrev
abbrev_of e = record {
  code = value e.code;
  tag = value e.tag;
  has_children = not (e.flag == 0);
  attr_specs = map spec_of e.specs;
}

-- The entries of a table before its last.
abbrev pub put_entries : List EncodedAbbrev → List ℕ → List ℕ
put_entries [] rest = rest
put_entries (e ∷ entries) rest = put_entry e (put_entries entries rest)

pub length-put_entries :
    (entries : List EncodedAbbrev) (rest : List ℕ)
    → length entries + length rest ≤ length (put_entries entries rest)
length-put_entries [] rest = omega arith
length-put_entries (e ∷ entries) rest =
    let behind = put_entries entries rest in
    omega (
      arith,
      length-put_entries entries rest,
      length-put_specs e.specs e.stop behind,
      length_specs e.specs e.stop behind,
      length-put e.tag (e.flag ∷ put_specs e.specs e.stop behind),
      length-put e.code (put e.tag (e.flag ∷ put_specs e.specs e.stop behind)),
    )

zero-IsLeb : IsLeb [] 0
zero-IsLeb = record { groups = tt; top = omega arith; short = omega arith; fits = omega arith }

pub uleb128_zero :
    (rest : List ℕ) (pos end : ℕ)
    → uleb128 (record { bytes = 0 ∷ rest; pos = pos; end = end })
      ≡ ok (0, record { bytes = rest; pos = pos + 0 + 1; end = end })
uleb128_zero rest pos end = uleb128-leb_bytes [] 0 rest pos end zero-IsLeb
