-- ===== src/Dwarf/Abbrev/Cache.antt =====
-- What `get_abbrev_table` keeps.
use kdebugger.Common.{
  ℕ, ◌==◌, ◌≡◌, refl, sym, ap, subst, List, [], ◌∷◌, some, All, Option-cases, Bool-cases, inl, inr,
  ==_iff, Outcome, ok, fail, ◌>>=◌, ok-injective,
}
use kdebugger.Dwarf.Abbrev.{
  AbbrevTable, TableCache, parse_abbrev_table, cached_table, get_abbrev_table,
}

module _ (image : List ℕ) (section : ℕ × ℕ) where
  -- Every table kept is the one that parsing gives at its offset.
  abbrev pub IsCache : TableCache → Type 0
  IsCache cache = All (λ (o, table). parse_abbrev_table image section o ≡ ok table) cache

  cached_table-parse :
      (offset : ℕ) (cache : TableCache) (table : AbbrevTable)
      → IsCache cache
      → cached_table offset cache ≡ some table
      → parse_abbrev_table image section offset ≡ ok table
  unfolding cached_table
  cached_table-parse offset [] table h e = cc
  cached_table-parse offset ((o, t) ∷ cache) table (first, later) e =
      elim (Bool-cases (o == offset)) [
        | inl here ↦
            let same : o ≡ offset = (==_iff o offset).0 here in let found : t ≡ table = cc in cc
        | inr other ↦ cached_table-parse offset cache table later (rw other at e)
      ]

  -- What `get_abbrev_table` does with a parse that it has to make.
  parsed-IsCache :
      (offset : ℕ) (cache : TableCache) (parsed : Outcome AbbrevTable)
      → parse_abbrev_table image section offset ≡ parsed
      → IsCache cache
      → (((do table ← parsed; ok (table, (offset, table) ∷ cache)) >>= λ (table, left). ok table)
          ≡ parsed)
        × ((table : AbbrevTable) (left : TableCache)
            → ◌≡◌ {A = Outcome (AbbrevTable × TableCache)}
                (do t ← parsed; ok (t, (offset, t) ∷ cache))
                (ok (table, left))
            → IsCache left)
  parsed-IsCache offset cache (fail reason) e h = (refl, λ table left end. cc)
  parsed-IsCache offset cache (ok t) e h =
      (refl, λ table left end. subst IsCache (ap (λ p. p.1) (ok-injective end)) (e, h))

  -- From a cache of parsed tables, `get_abbrev_table` returns what parsing returns, its errors
  -- included, and the cache that it leaves behind is again one of parsed tables.
  pub get_abbrev_table-parse :
      (offset : ℕ) (cache : TableCache)
      → IsCache cache
      → ((get_abbrev_table image section offset cache >>= λ (table, left). ok table)
          ≡ parse_abbrev_table image section offset)
        × ((table : AbbrevTable) (left : TableCache)
            → get_abbrev_table image section offset cache ≡ ok (table, left)
            → IsCache left)
  unfolding get_abbrev_table
  get_abbrev_table-parse offset cache h = elim (Option-cases (cached_table offset cache)) [
    | inl missing ↦
        rw (get_abbrev_table, missing)
          (parsed-IsCache offset cache (parse_abbrev_table image section offset) refl h)
    | inr (table, there) ↦
        rw (get_abbrev_table, there)
          (
            sym (cached_table-parse offset cache table h there),
            λ t left end. subst IsCache (ap (λ p. p.1) (ok-injective end)) h,
          )
  ]
