-- ===== src/Dwarf/Die.antt =====
-- Compile units and debugging information entries of src/dwarf.cpp: `parse_die`, and `contains` and `operator []` of class `die`. A pointer into the mapped file is its
-- offset.
pub mod Values
pub mod Units
pub mod Children
pub mod Ranges
pub mod Index
pub mod Location
use kdebugger.Common.{
  ℕ, zero, suc, ◌+◌, ◌-◌, ◌%◌, ◌^◌, Bool, true, false, not, List, [], ◌∷◌, Option, none, some, ◌==◌,
  if◌then◌else◌, length, Outcome, ok, fail, sent, undefined, ◌>>=◌,
}
use kdebugger.Elf.{Elf}
use kdebugger.Dwarf.Cursor.{Cursor, Reader, cursor, advance, finished, u8, u16, u32, uleb128}
use kdebugger.Dwarf.Form.{Form, skip_form}
use kdebugger.Dwarf.Abbrev.{AttrSpec, Abbrev, abbrev_at, parse_abbrev_table}

-- The data of a unit in the file, and the offset of its abbreviations.
pub record CompileUnit : Type 0 where
  pub start : ℕ
  pub stop : ℕ
  pub abbrev_offset : ℕ

-- An entry of the tree; the null entry has none.
pub record DieEntry : Type 0 where
  pub position : ℕ
  pub cu : CompileUnit
  pub abbrev_entry : Abbrev
  pub attr_locs : List ℕ

pub record Die : Type 0 where
  pub entry : Option DieEntry
  pub next : ℕ

-- What the code takes from elsewhere: the numbers of the standard, from a header that the repository
-- does not have, and `compile_unit::root`, which is declared and not defined.
pub record Outside : Type 0 where
  pub form_of : ℕ → Form
  pub at_sibling : ℕ
  pub at_low_pc : ℕ
  pub at_high_pc : ℕ
  pub at_ranges : ℕ
  pub at_name : ℕ
  pub at_specification : ℕ
  pub at_abstract_origin : ℕ
  pub at_stmt_list : ℕ
  pub at_comp_dir : ℕ
  pub at_call_file : ℕ
  pub at_decl_file : ℕ
  pub at_call_line : ℕ
  pub at_decl_line : ℕ
  pub tag_subprogram : ℕ
  pub tag_inlined_subroutine : ℕ
  pub root : CompileUnit → Outcome Die

-- The file with the start and end of its sections, and the units that were parsed.
pub record Dwarf : Type 0 where
  pub elf_file : Elf
  pub image : List ℕ
  pub debug_info : ℕ × ℕ
  pub debug_abbrev : ℕ × ℕ
  pub debug_str : ℕ × ℕ
  pub debug_ranges : ℕ × ℕ
  pub debug_line : ℕ × ℕ
  pub compile_units : List CompileUnit

-- The loop over the attributes: where each begins.
unfoldable pub attr_locs_of : (ℕ → Form) → List AttrSpec → Cursor → Outcome (List ℕ × Cursor)
attr_locs_of form_of [] c = ok ([], c)
attr_locs_of form_of (spec ∷ specs) c = do
  c' ← skip_form form_of spec.form c
  (locs, behind) ← attr_locs_of form_of specs c'
  ok (c.pos ∷ locs, behind)

-- The table of the unit is the one that `get_abbrev_table` returns.
unfoldable pub parse_die : (ℕ → Form) → Dwarf → CompileUnit → Cursor → Outcome Die
unfolding attr_locs_of
parse_die form_of d cu c = do
  (code, c₁) ← uleb128 c
  if code == 0 then ok (record { entry = none; next = c₁.pos }) else (do
    table ← parse_abbrev_table d.image d.debug_abbrev cu.abbrev_offset
    entry ← abbrev_at code table
    (locs, c₂) ← attr_locs_of form_of entry.attr_specs c₁
    ok (record {
      entry = some (record { position = c.pos; cu = cu; abbrev_entry = entry; attr_locs = locs });
      next = c₂.pos;
    }))

-- An attribute with its place.
pub record Attr : Type 0 where
  pub cu : CompileUnit
  pub name : ℕ
  pub form : ℕ
  pub location : ℕ

unfoldable pub has_spec : ℕ → List AttrSpec → Bool
has_spec attribute [] = false
has_spec attribute (spec ∷ specs) =
    let later = has_spec attribute specs in if spec.attr == attribute then true else later

-- `die::contains`.
unfoldable pub contains : ℕ → DieEntry → Bool
unfolding has_spec
contains attribute e = has_spec attribute e.abbrev_entry.attr_specs

unfoldable pub attr_loop : ℕ → CompileUnit → List AttrSpec → List ℕ → Outcome Attr
attr_loop attribute cu [] locs = fail undefined
attr_loop attribute cu (spec ∷ specs) [] = fail undefined
attr_loop attribute cu (spec ∷ specs) (loc ∷ locs) =
    let later = attr_loop attribute cu specs locs in
    if spec.attr == attribute
    then ok (record { cu = cu; name = spec.attr; form = spec.form; location = loc })
    else later

-- `die::operator []`. It returns nothing where the attribute is missing, which is undefined.
unfoldable pub attr_at : DieEntry → ℕ → Outcome Attr
unfolding attr_loop
attr_at e attribute = attr_loop attribute e.cu e.abbrev_entry.attr_specs e.attr_locs
