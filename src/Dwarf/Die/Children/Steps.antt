-- ===== src/Dwarf/Die/Children/Steps.antt =====
-- `children_range::iterator::operator ++` over the bytes of a tree of entries.
use kdebugger.Common.{
  ℕ, zero, suc, ◌<◌, ◌≡◌, refl, ap, ◌∙◌, List, Bool, true, false, Outcome, ok, ◌>>=◌, arith,
}
use kdebugger.Dwarf.Abbrev.{AbbrevTable, parse_abbrev_table}
use kdebugger.Dwarf.Die.{CompileUnit, Die, Outside, Dwarf, contains, has_spec}
use kdebugger.Dwarf.Die.Children.{after_die, until_null, next_child}
use kdebugger.Dwarf.Die.Children.Trees.{
  EncodedDie, Forest, ended, leaf, parent, put_forest, die_end, forest_end, entries, die_at,
  IsForest, StandsAt, after_die-put, drop_past_die, drop_past_forest, le-forest_end,
}

-- The branch of `operator ++` for an entry with children and no DW_AT_sibling.
by_children :
    (b linked : Bool) (x y z : Outcome Die)
    → b ≡ true
    → linked ≡ false
    → elim b [ false ↦ x | true ↦ elim linked [ true ↦ y | false ↦ z ] ] ≡ z
by_children true false x y z e f = refl
by_children true true x y z e f = cc
by_children false linked x y z e f = cc

module _ (o : Outside) (d : Dwarf) (cu : CompileUnit) (table : AbbrevTable)
    (kept : parse_abbrev_table d.image d.debug_abbrev cu.abbrev_offset ≡ ok table) where
  -- Where the siblings of the first entry of a forest begin, and what they are.
  abbrev pub next_place : ℕ → Forest → ℕ
  next_place p ended = p
  next_place p (leaf e siblings) = die_end p e
  next_place p (parent e children siblings) = forest_end (die_end p e) children

  abbrev pub next_forest : Forest → Forest
  next_forest ended = ended
  next_forest (leaf e siblings) = siblings
  next_forest (parent e children siblings) = siblings

  next_forest-StandsAt :
      (f : Forest) (p : ℕ) (rest : List ℕ)
      → StandsAt o d cu table p f rest
      → StandsAt o d cu table (next_place p f) (next_forest f) rest
  next_forest-StandsAt ended p rest h = h
  next_forest-StandsAt (leaf e siblings) p rest h = record {
    bytes = drop_past_die e d.image (put_forest siblings rest) p h.bytes;
    inside = h.inside;
  }
  next_forest-StandsAt (parent e children siblings) p rest h = record {
    bytes =
        drop_past_forest children d.image (put_forest siblings rest) (die_end p e)
          (drop_past_die e d.image (put_forest children (put_forest siblings rest)) p h.bytes);
    inside = h.inside;
  }

  children-StandsAt :
      (e : EncodedDie) (children siblings : Forest) (p : ℕ) (rest : List ℕ)
      → StandsAt o d cu table p (parent e children siblings) rest
      → StandsAt o d cu table (die_end p e) children (put_forest siblings rest)
  children-StandsAt e children siblings p rest h = record {
    bytes = drop_past_die e d.image (put_forest children (put_forest siblings rest)) p h.bytes;
    inside = omega (arith, h.inside, le-forest_end (forest_end (die_end p e) children) siblings);
  }

  next_forest-IsForest :
      (f : Forest) → IsForest o d cu table f → IsForest o d cu table (next_forest f)
  next_forest-IsForest ended h = h
  next_forest-IsForest (leaf e siblings) (he, h) = h
  next_forest-IsForest (parent e children siblings) (he, (hc, h)) = h

  -- What one step does on every forest of at most that many entries.
  abbrev StepsOver : ℕ → Type 0
  StepsOver fuel =
      (f : Forest) (p : ℕ) (rest : List ℕ)
      → entries f < fuel
      → IsForest o d cu table f
      → StandsAt o d cu table p f rest
      → next_child o d fuel (die_at cu p f) ≡ ok (die_at cu (next_place p f) (next_forest f))

  until_null-put :
      (fuel : ℕ) (f : Forest) (rounds p : ℕ) (rest : List ℕ)
      → StepsOver fuel
      → entries f < fuel
      → entries f < rounds
      → IsForest o d cu table f
      → StandsAt o d cu table p f rest
      → until_null (next_child o d fuel) rounds (die_at cu p f) ≡ ok (forest_end p f)
  unfolding until_null
  until_null-put fuel f zero p rest step few enough h stands = absurd (omega arith)
  until_null-put fuel ended (suc rounds) p rest step few enough h stands = refl
  until_null-put fuel (leaf e siblings) (suc rounds) p rest step few enough h stands =
      rw (step (leaf e siblings) p rest few h stands) (
        until_null-put fuel siblings rounds (die_end p e) rest step (omega arith) (omega arith) h.1
          (next_forest-StandsAt (leaf e siblings) p rest stands))
  until_null-put fuel (parent e children siblings) (suc rounds) p rest step few enough h stands =
      rw (step (parent e children siblings) p rest few h stands) (
        until_null-put fuel siblings rounds (forest_end (die_end p e) children) rest step
          (omega arith) (omega arith) (next_forest-IsForest (parent e children siblings) h)
          (next_forest-StandsAt (parent e children siblings) p rest stands))

  steps_over : (fuel : ℕ) → StepsOver fuel
  unfolding next_child contains
  steps_over zero f p rest few h stands = absurd (omega arith)
  steps_over (suc fuel) ended p rest few h stands = refl
  steps_over (suc fuel) (leaf e siblings) p rest few (he, h) stands = rw he.parental (
      after_die-put o d cu table siblings (die_end p e) rest kept h
        (next_forest-StandsAt (leaf e siblings) p rest stands))
  steps_over (suc fuel) (parent e children siblings) p rest few (he, (hc, h)) stands =
      let behind = put_forest siblings rest in
      let below = children-StandsAt e children siblings p rest stands in
      by_children e.abbrev_entry.has_children (has_spec o.at_sibling e.abbrev_entry.attr_specs) _ _
        _ he.parental he.unlinked
      ∙ ap
          (λ (m : Outcome Die).
            m >>= λ sub. until_null (next_child o d fuel) fuel sub >>= after_die o d cu)
          (after_die-put o d cu table children (die_end p e) behind kept hc below)
      ∙ ap (λ (m : Outcome ℕ). m >>= after_die o d cu)
          (until_null-put fuel children fuel (die_end p e) behind (steps_over fuel) (omega arith)
            (omega arith) hc below)
      ∙ after_die-put o d cu table siblings (forest_end (die_end p e) children) rest kept h
          (next_forest-StandsAt (parent e children siblings) p rest stands)

  -- From an entry of a tree, `operator ++` moves to its next sibling, or to the null entry behind the
  -- last, past all that is below it, and more rounds than entries are enough. The tree stands in its
  -- unit, whose abbreviations parse; each entry has an abbreviation that is not 0, without
  -- DW_AT_sibling and with attributes only of the forms that `skip_form` steps over.
  pub next_child-next_forest :
      (fuel : ℕ) (f : Forest) (p : ℕ) (rest : List ℕ)
      → entries f < fuel
      → IsForest o d cu table f
      → StandsAt o d cu table p f rest
      → next_child o d fuel (die_at cu p f) ≡ ok (die_at cu (next_place p f) (next_forest f))
  next_child-next_forest = steps_over
