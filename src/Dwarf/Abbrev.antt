-- ===== src/Dwarf/Abbrev.antt =====
-- The abbreviation tables of src/dwarf.cpp: `parse_abbrev_table` and `get_abbrev_table`.
pub mod Encoding
pub mod Parse
pub mod Cache
use kdebugger.Common.{
  ℕ, zero, suc, ◌+◌, Bool, not, List, [], ◌∷◌, ◌++◌, Option, none, some, ◌==◌, if◌then◌else◌,
  length, Outcome, ok, fail, out_of_range, undefined, ◌>>=◌,
}
use kdebugger.Dwarf.Cursor.{Cursor, Reader, cursor, advance, u8, uleb128}

pub record AttrSpec : Type 0 where
  pub attr : ℕ
  pub form : ℕ

pub record Abbrev : Type 0 where
  pub code : ℕ
  pub tag : ℕ
  pub has_children : Bool
  pub attr_specs : List AttrSpec

-- The unordered map from codes to abbreviations, as its entries.
abbrev pub AbbrevTable : Type 0
AbbrevTable = List Abbrev

unfoldable pub find_abbrev : ℕ → AbbrevTable → Option Abbrev
find_abbrev code [] = none
find_abbrev code (a ∷ table) =
    let later = find_abbrev code table in if a.code == code then some a else later

-- `at` of the map.
unfoldable pub abbrev_at : ℕ → AbbrevTable → Outcome Abbrev
unfolding find_abbrev
abbrev_at code table = elim (find_abbrev code table) [ none ↦ fail out_of_range | some a ↦ ok a ]

-- `emplace` keeps an entry that is there.
unfoldable pub emplace_abbrev : Abbrev → AbbrevTable → AbbrevTable
unfolding find_abbrev
emplace_abbrev a table = elim (find_abbrev a.code table) [
  | none ↦ table ++ (a ∷ [])
  | some there ↦ table
]

-- The inner loop. A round takes two bytes at least, so the bytes that are left bound its rounds.
unfoldable pub read_specs : ℕ → Reader (List AttrSpec)
read_specs zero c = fail undefined
read_specs (suc fuel) c = do
  (attr, c₁) ← uleb128 c
  (form, c₂) ← uleb128 c₁
  let more = read_specs fuel c₂
  if attr == 0
      then ok ([], c₂)
      else (do (specs, c₃) ← more; ok (record { attr = attr; form = form } ∷ specs, c₃))

-- One round of the outer loop.
unfoldable pub read_abbrev : Reader Abbrev
unfolding read_specs
read_abbrev c = do
  (code, c₁) ← uleb128 c
  (tag, c₂) ← uleb128 c₁
  (flag, c₃) ← u8 c₂
  (specs, c₄) ← read_specs (length c₃.bytes) c₃
  ok (record { code = code; tag = tag; has_children = not (flag == 0); attr_specs = specs }, c₄)

unfoldable pub abbrev_loop : ℕ → AbbrevTable → Cursor → Outcome AbbrevTable
unfolding read_abbrev emplace_abbrev
abbrev_loop zero table c = fail undefined
abbrev_loop (suc fuel) table c = do
  (a, c') ← read_abbrev c
  let more = abbrev_loop fuel (emplace_abbrev a table) c'
  if a.code == 0 then ok table else more

-- A section is where it starts and ends in the file `image`.
unfoldable pub parse_abbrev_table : List ℕ → ℕ × ℕ → ℕ → Outcome AbbrevTable
unfolding abbrev_loop
parse_abbrev_table image (start, end) offset =
    let c = advance offset (cursor image start end) in abbrev_loop (length c.bytes) [] c

-- The tables parsed so far, by offset.
abbrev pub TableCache : Type 0
TableCache = List (ℕ × AbbrevTable)

unfoldable pub cached_table : ℕ → TableCache → Option AbbrevTable
cached_table offset [] = none
cached_table offset ((o, table) ∷ cache) =
    let later = cached_table offset cache in if o == offset then some table else later

-- `dwarf::get_abbrev_table`, with the tables that it leaves behind.
unfoldable pub get_abbrev_table :
    List ℕ → ℕ × ℕ → ℕ → TableCache → Outcome (AbbrevTable × TableCache)
unfolding parse_abbrev_table cached_table
get_abbrev_table image section offset cache = elim (cached_table offset cache) [
  | none ↦ do table ← parse_abbrev_table image section offset; ok (table, (offset, table) ∷ cache)
  | some table ↦ ok (table, cache)
]
