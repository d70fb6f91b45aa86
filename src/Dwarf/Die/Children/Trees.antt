-- ===== src/Dwarf/Die/Children/Trees.antt =====
-- `children_range::iterator::operator ++` over the bytes of a tree of entries.
use kdebugger.Common.{
  ℕ, ◌+◌, ◌≤◌, ◌<◌, ◌≡◌, ◌≢◌, refl, ap, ◌∙◌, Bool, true, false, ==_ne, List, [], ◌∷◌, ◌++◌, length,
  drop, drop_past, none, some, ok, ◌>>=◌, arith,
}
use kdebugger.Dwarf.Cursor.{cursor}
use kdebugger.Dwarf.Form.{Form}
use kdebugger.Dwarf.Form.Skip.{IsValue, skip_form-value}
use kdebugger.Dwarf.Abbrev.{AttrSpec, Abbrev, AbbrevTable, abbrev_at, parse_abbrev_table}
use kdebugger.Dwarf.Abbrev.Encoding.{Number, value, put, uleb128-put, uleb128_zero}
use kdebugger.Dwarf.Cursor.Leb.{leb_bytes, length-leb_bytes}
use kdebugger.Dwarf.Die.{
  CompileUnit, DieEntry, Die, Outside, Dwarf, attr_locs_of, parse_die, has_spec,
}
use kdebugger.Dwarf.Die.Children.{after_die}

-- An entry as it stands in the section: the code of its abbreviation, and the values of its attributes.
pub record EncodedDie : Type 0 where
  pub code : Number
  pub abbrev_entry : Abbrev
  pub values : List (List ℕ)

abbrev pub put_values : List (List ℕ) → List ℕ → List ℕ
put_values [] rest = rest
put_values (v ∷ vs) rest = v ++ put_values vs rest

abbrev pub put_die : EncodedDie → List ℕ → List ℕ
put_die e rest = put e.code (put_values e.values rest)

-- Siblings up to their null entry: each has no children, or its children stand behind it.
pub data Forest : Type 0 where
  ended : Forest
  leaf : EncodedDie → Forest → Forest
  parent : EncodedDie → Forest → Forest → Forest

abbrev pub put_forest : Forest → List ℕ → List ℕ
put_forest ended rest = 0 ∷ rest
put_forest (leaf e siblings) rest = put_die e (put_forest siblings rest)
put_forest (parent e children siblings) rest =
    put_die e (put_forest children (put_forest siblings rest))

-- Where the values, an entry, and siblings with their null entry end that begin at `p`.
abbrev pub values_end : ℕ → List (List ℕ) → ℕ
values_end p [] = p
values_end p (v ∷ vs) = values_end (p + length v) vs

abbrev pub code_end : ℕ → EncodedDie → ℕ
code_end p e = p + length e.code.groups + 1

abbrev pub die_end : ℕ → EncodedDie → ℕ
die_end p e = values_end (code_end p e) e.values

abbrev pub forest_end : ℕ → Forest → ℕ
forest_end p ended = p + 0 + 1
forest_end p (leaf e siblings) = forest_end (die_end p e) siblings
forest_end p (parent e children siblings) = forest_end (forest_end (die_end p e) children) siblings

-- The entries of a forest.
abbrev pub entries : Forest → ℕ
entries ended = 0
entries (leaf e siblings) = 1 + entries siblings
entries (parent e children siblings) = 1 + (entries children + entries siblings)

-- Where the attributes of an entry begin.
abbrev pub locs_at : ℕ → List (List ℕ) → List ℕ
locs_at p [] = []
locs_at p (v ∷ vs) = p ∷ locs_at (p + length v) vs

pub le-values_end : (p : ℕ) (vs : List (List ℕ)) → p ≤ values_end p vs
le-values_end p [] = omega arith
le-values_end p (v ∷ vs) = omega (arith, le-values_end (p + length v) vs)

pub le-forest_end : (p : ℕ) (f : Forest) → p < forest_end p f
le-forest_end p ended = omega arith
le-forest_end p (leaf e siblings) =
    omega (arith, le-values_end (code_end p e) e.values, le-forest_end (die_end p e) siblings)
le-forest_end p (parent e children siblings) = omega (
  arith,
  le-values_end (code_end p e) e.values,
  le-forest_end (die_end p e) children,
  le-forest_end (forest_end (die_end p e) children) siblings,
)

module _ (form_of : ℕ → Form) where
  -- Each specification has its value.
  abbrev pub IsValues : List AttrSpec → List (List ℕ) → Type 0
  IsValues [] [] = Unit
  IsValues [] (v ∷ vs) = ⊥
  IsValues (s ∷ specs) [] = ⊥
  IsValues (s ∷ specs) (v ∷ vs) = IsValue form_of (form_of s.form) v × IsValues specs vs

  attr_locs_of-put :
      (specs : List AttrSpec) (vs : List (List ℕ)) (rest : List ℕ) (p end : ℕ)
      → IsValues specs vs
      → values_end p vs ≤ end
      → attr_locs_of form_of specs (record { bytes = put_values vs rest; pos = p; end = end })
        ≡ ok (locs_at p vs, record { bytes = rest; pos = values_end p vs; end = end })
  unfolding attr_locs_of
  attr_locs_of-put [] [] rest p end h inside = refl
  attr_locs_of-put [] (v ∷ vs) rest p end h inside = absurd h
  attr_locs_of-put (s ∷ specs) [] rest p end h inside = absurd h
  attr_locs_of-put (s ∷ specs) (v ∷ vs) rest p end (hv, h) inside =
      rw
        (
          skip_form-value form_of s.form v (put_values vs rest) p end hv
              (omega (arith, le-values_end (p + length v) vs)),
          ◌>>=◌,
          attr_locs_of-put specs vs rest (p + length v) end h inside,
        )
        refl

-- The entry that `parse_die` makes of an encoded one.
abbrev pub entry_at : CompileUnit → ℕ → EncodedDie → DieEntry
entry_at cu p e = record {
  position = p;
  cu = cu;
  abbrev_entry = e.abbrev_entry;
  attr_locs = locs_at (code_end p e) e.values;
}

-- What `parse_die` makes of the start of a forest.
abbrev pub die_at : CompileUnit → ℕ → Forest → Die
die_at cu p ended = record { entry = none; next = p + 0 + 1 }
die_at cu p (leaf e siblings) = record { entry = some (entry_at cu p e); next = die_end p e }
die_at cu p (parent e children siblings) = record {
  entry = some (entry_at cu p e);
  next = die_end p e;
}

module _ (o : Outside) (d : Dwarf) (cu : CompileUnit) (table : AbbrevTable) where
  -- The entry has its abbreviation in the table, with values that fit it, and no DW_AT_sibling.
  pub record IsDie (e : EncodedDie) (has_children : Bool) : Type 0 where
    pub coded : value e.code ≢ 0
    pub known : abbrev_at (value e.code) table ≡ ok e.abbrev_entry
    pub fit : IsValues o.form_of e.abbrev_entry.attr_specs e.values
    pub parental : e.abbrev_entry.has_children ≡ has_children
    pub unlinked : has_spec o.at_sibling e.abbrev_entry.attr_specs ≡ false

  abbrev pub IsForest : Forest → Type 0
  IsForest ended = Unit
  IsForest (leaf e siblings) = IsDie e false × IsForest siblings
  IsForest (parent e children siblings) = IsDie e true × (IsForest children × IsForest siblings)

  -- The bytes of a forest stand at `p`, and end inside the unit.
  pub record StandsAt (p : ℕ) (f : Forest) (rest : List ℕ) : Type 0 where
    pub bytes : drop p d.image ≡ put_forest f rest
    pub inside : forest_end p f ≤ cu.stop

  parse_die-entry :
      (e : EncodedDie) (has_children : Bool) (p : ℕ) (rest : List ℕ)
      → parse_abbrev_table d.image d.debug_abbrev cu.abbrev_offset ≡ ok table
      → IsDie e has_children
      → die_end p e ≤ cu.stop
      → parse_die o.form_of d cu (record { bytes = put_die e rest; pos = p; end = cu.stop })
        ≡ ok (record { entry = some (entry_at cu p e); next = die_end p e })
  unfolding parse_die
  parse_die-entry e has_children p rest kept h inside =
      rw
        (
          uleb128-put e.code (put_values e.values rest) p cu.stop,
          ==_ne (value e.code) 0 h.coded,
          kept,
          ◌>>=◌,
          h.known,
          ◌>>=◌,
          attr_locs_of-put o.form_of e.abbrev_entry.attr_specs e.values rest (code_end p e) cu.stop
              h.fit inside,
        )
        refl

  parse_die-put :
      (f : Forest) (p : ℕ) (rest : List ℕ)
      → parse_abbrev_table d.image d.debug_abbrev cu.abbrev_offset ≡ ok table
      → IsForest f
      → forest_end p f ≤ cu.stop
      → parse_die o.form_of d cu (record { bytes = put_forest f rest; pos = p; end = cu.stop })
        ≡ ok (die_at cu p f)
  unfolding parse_die
  parse_die-put ended p rest kept h inside = rw (uleb128_zero rest p cu.stop) refl
  parse_die-put (leaf e siblings) p rest kept (he, h) inside =
      parse_die-entry e false p (put_forest siblings rest) kept he
        (omega (arith, le-forest_end (die_end p e) siblings))
  parse_die-put (parent e children siblings) p rest kept (he, h) inside =
      parse_die-entry e true p (put_forest children (put_forest siblings rest)) kept he (
        omega (
          arith,
          le-forest_end (die_end p e) children,
          le-forest_end (forest_end (die_end p e) children) siblings,
        ))

  -- The iterator at a place where a forest stands.
  pub after_die-put :
      (f : Forest) (p : ℕ) (rest : List ℕ)
      → parse_abbrev_table d.image d.debug_abbrev cu.abbrev_offset ≡ ok table
      → IsForest f
      → StandsAt p f rest
      → after_die o d cu p ≡ ok (die_at cu p f)
  unfolding cursor
  after_die-put f p rest kept h stands =
      rw stands.bytes (parse_die-put f p rest kept h stands.inside)

drop_past_values :
    (vs : List (List ℕ)) (image rest : List ℕ) (p : ℕ)
    → drop p image ≡ put_values vs rest
    → drop (values_end p vs) image ≡ rest
drop_past_values [] image rest p e = e
drop_past_values (v ∷ vs) image rest p e =
    drop_past_values vs image rest (p + length v) (drop_past p image v (put_values vs rest) e)

pub drop_past_die :
    (e : EncodedDie) (image rest : List ℕ) (p : ℕ)
    → drop p image ≡ put_die e rest
    → drop (die_end p e) image ≡ rest
drop_past_die e image rest p stands =
    let behind =
      drop_past p image (leb_bytes e.code.groups e.code.last) (put_values e.values rest) stands in
    drop_past_values e.values image rest (code_end p e) (
      ap (λ (k : ℕ). drop k image) {x = code_end p e}
        (omega (arith, length-leb_bytes e.code.groups e.code.last))
      ∙ behind)

pub drop_past_forest :
    (f : Forest) (image rest : List ℕ) (p : ℕ)
    → drop p image ≡ put_forest f rest
    → drop (forest_end p f) image ≡ rest
drop_past_forest ended image rest p e =
    ap (λ (k : ℕ). drop k image) {y = p + 1} (omega arith) ∙ drop_past p image (0 ∷ []) rest e
drop_past_forest (leaf e siblings) image rest p stands =
    drop_past_forest siblings image rest (die_end p e)
      (drop_past_die e image (put_forest siblings rest) p stands)
drop_past_forest (parent e children siblings) image rest p stands =
    drop_past_forest siblings image rest (forest_end (die_end p e) children) (
      drop_past_forest children image (put_forest siblings rest) (die_end p e)
        (drop_past_die e image (put_forest children (put_forest siblings rest)) p stands))
