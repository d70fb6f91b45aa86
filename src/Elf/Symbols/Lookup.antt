-- ===== src/Elf/Symbols/Lookup.antt =====
-- The lookups of symbols by address, against the symbol table.
use kdebugger.Common.{
  ℕ, ◌≤◌, ◌<◌, ◌≡◌, refl, subst, true, false, Bool-cases, ◌&&◌, List, [], ◌∷◌, All, Option, none,
  some, ◌==◌, ltb, if◌then◌else◌, inl, inr, ok, arith,
}
use kdebugger.Elf.{Elf}
use kdebugger.Elf.Symbols.{
  Symbol, Extent, insert_extent, has_extent, extent_of, insert_symbols, find_extent, lower_bound,
  get_symbol_at_address, get_symbol_containing_address,
}

abbrev pub IsAscending : List Extent → Type 0
IsAscending [] = Unit
IsAscending (x ∷ xs) = All (λ y. x.start < y.start) xs × IsAscending xs

abbrev one : ℕ → Extent → Option Extent
one a e = if e.start == a then some e else none

find_extent-below : (a : ℕ) (xs : List Extent) → All (λ y. a < y.start) xs → find_extent a xs ≡ none
unfolding find_extent
find_extent-below a [] h = refl
find_extent-below a (x ∷ xs) (hx, h) =
    let other : (x.start == a) ≡ false = ground arith in rw other (find_extent-below a xs h)

All-below :
    (a b : ℕ) (xs : List Extent) → a < b → All (λ y. b < y.start) xs → All (λ y. a < y.start) xs
All-below a b [] lt h = tt
All-below a b (x ∷ xs) lt (hx, h) = (omega arith, All-below a b xs lt h)

insert_extent-All :
    (b : ℕ) (e : Extent) (xs : List Extent)
    → b < e.start
    → All (λ y. b < y.start) xs
    → All (λ y. b < y.start) (insert_extent e xs)
unfolding insert_extent
insert_extent-All b e [] lt h = (lt, tt)
insert_extent-All b e (x ∷ xs) lt (hx, h) = elim (Bool-cases (ltb e.start x.start)) [
  | inl before ↦ rw before (lt, (hx, h))
  | inr not_before ↦ elim (Bool-cases (ltb x.start e.start)) [
    | inl behind ↦ rw (not_before, behind) (hx, insert_extent-All b e xs lt h)
    | inr same ↦ rw (not_before, same) (hx, h)
  ]
]

insert_extent-IsAscending :
    (e : Extent) (xs : List Extent) → IsAscending xs → IsAscending (insert_extent e xs)
unfolding insert_extent
insert_extent-IsAscending e [] h = (tt, tt)
insert_extent-IsAscending e (x ∷ xs) (hx, h) = elim (Bool-cases (ltb e.start x.start)) [
  | inl before ↦
      let lt : e.start < x.start = ground arith in
      rw before ((lt, All-below e.start x.start xs lt hx), (hx, h))
  | inr not_before ↦ elim (Bool-cases (ltb x.start e.start)) [
    | inl behind ↦
        rw (not_before, behind)
          (insert_extent-All x.start e xs (ground arith) hx, insert_extent-IsAscending e xs h)
    | inr same ↦ rw (not_before, same) (hx, h)
  ]
]

-- The first symbol of the table with that value, a name, and storage that no thread owns.
abbrev pub first_symbol : ℕ → List Symbol → Option Symbol
first_symbol a [] = none
first_symbol a (s ∷ symbols) =
    if has_extent s && (s.st_value == a) then some s else first_symbol a symbols

insert_symbols-IsAscending :
    (symbols : List Symbol) (m : List Extent)
    → IsAscending m
    → IsAscending (insert_symbols symbols m)
unfolding insert_symbols
insert_symbols-IsAscending [] m h = h
insert_symbols-IsAscending (s ∷ symbols) m h = elim (Bool-cases (has_extent s)) [
  | inl entered ↦ rw entered (
      insert_symbols-IsAscending symbols (insert_extent (extent_of s) m)
        (insert_extent-IsAscending (extent_of s) m h))
  | inr left ↦ rw left (insert_symbols-IsAscending symbols m h)
]

some-injective : {x y : Extent} → some x ≡ some y → x ≡ y
some-injective e = cc

at_first :
    (a : ℕ) (y : Extent) (m : List Extent)
    → All (λ z. y.start < z.start) m
    → ltb y.start a ≡ false
    → (if y.start == a then some y else find_extent a m) ≡ one a y
at_first a y m h reached = elim (Bool-cases (y.start == a)) [
  | inl here ↦ rw here refl
  | inr other ↦ rw other (find_extent-below a m (All-below a y.start m (ground arith) h))
]

-- What `lower_bound` finds, against the search for the address itself.
lower_bound-find_extent :
    (a : ℕ) (m : List Extent) (x : Extent)
    → IsAscending m
    → lower_bound a m ≡ some x
    → (a ≤ x.start) × (find_extent a m ≡ one a x)
unfolding lower_bound find_extent
lower_bound-find_extent a [] x h e = cc
lower_bound-find_extent a (y ∷ m) x (hy, h) e = elim (Bool-cases (ltb y.start a)) [
  | inl below ↦
      let other : (y.start == a) ≡ false = ground arith in
      rw other (lower_bound-find_extent a m x h (rw below at e))
  | inr reached ↦
      subst
        (λ (q : Extent).
          (a ≤ q.start) × ((if y.start == a then some y else find_extent a m) ≡ one a q))
        (some-injective (rw reached at e)) (ground arith, at_first a y m hy reached)
]

contained :
    (elf other : Elf) (a : ℕ) (m : List Extent) (x : Extent)
    → other.number ≡ elf.number
    → IsAscending m
    → lower_bound a m ≡ some x
    → get_symbol_containing_address elf m (record { elf_file = some other; addr = a })
      ≡ ok (get_symbol_at_address elf m (record { elf_file = some other; addr = a }))
unfolding get_symbol_containing_address get_symbol_at_address lower_bound
contained elf other a [] x number h e = cc
contained elf other a (y ∷ m) x number h e =
    let same : (other.number == elf.number) ≡ true = ground arith in
    let (reached, found) = lower_bound-find_extent a (y ∷ m) x h e in
    let below : ltb x.start a ≡ false = ground arith in
    rw (same, e, found)
      (elim (Bool-cases (x.start == a)) [
        | inl here ↦ rw here refl
        | inr other ↦ elim (Bool-cases (x.start == y.start)) [
          | inl first ↦ rw (other, first) refl
          | inr later ↦ rw (other, later, below) refl
        ]
      ])

-- The lookup by a contained address finds a symbol at its first address alone: where an entry of the map
-- starts at the address or behind it, the result is that of `get_symbol_at_address`.
pub get_symbol_containing_address-start :
    (elf other : Elf) (a : ℕ) (symbols : List Symbol) (x : Extent)
    → other.number ≡ elf.number
    → lower_bound a (insert_symbols symbols []) ≡ some x
    → get_symbol_containing_address elf
        (insert_symbols symbols [])
        (record { elf_file = some other; addr = a })
      ≡ ok (
          get_symbol_at_address elf
            (insert_symbols symbols [])
            (record { elf_file = some other; addr = a }))
get_symbol_containing_address-start elf other a symbols x number e =
    contained elf other a (insert_symbols symbols []) x number
      (insert_symbols-IsAscending symbols [] tt) e
