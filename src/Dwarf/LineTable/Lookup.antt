-- ===== src/Dwarf/LineTable/Lookup.antt =====
-- `get_entry_by_address` against a search in the table's rows.
use kdebugger.Common.{
  ℕ, zero, suc, ◌<◌, ◌≡◌, refl, ap, ◌∙◌, Bool, true, false, List, [], ◌∷◌, Option, none, some,
  length, arith, Outcome, ok, ◌>>=◌, Bool-cases, inl, inr, if◌then◌else◌, All, leb, ltb, ◌&&◌, not,
}
use kdebugger.Elf.{FileAddr}
use kdebugger.Elf.Addresses.{same_file, less_equal, greater}
use kdebugger.Dwarf.Cursor.{Cursor}
use kdebugger.Dwarf.LineTable.{
  Table, Iterator, Entry, File, next, begin, covers, lookup_loop, get_entry_by_address, new_entry,
  at_end,
}
use kdebugger.Dwarf.LineTable.Steps.{next-takes}

-- The entries that an iteration from here shows, each time `operator ++` succeeds.
pub data Rows (t : Table) : Iterator → List Entry → Type 0 where
  stop : (it : Iterator) → it.position ≡ none → Rows t it []
  row :
      (it it' : Iterator) (c : Cursor) (es : List Entry)
      → it.position ≡ some c
      → next t it ≡ ok it'
      → Rows t it' es
      → Rows t it (it.current ∷ es)

-- A row is in the file of an address.
abbrev pub IsIn : FileAddr → Entry → Type 0
IsIn address e = same_file e.address.elf_file address.elf_file ≡ true

-- Two rows, one behind the other, are around an address, and the first one does not end a sequence.
abbrev pub around : FileAddr → Entry → Entry → Bool
around address prev it =
    leb prev.address.addr address.addr
    && (ltb address.addr it.address.addr && not prev.is_end_sequence)

covers-around :
    (address : FileAddr) (prev it : Entry)
    → IsIn address prev
    → IsIn address it
    → covers address prev it ≡ ok (around address prev it)
unfolding covers less_equal greater
covers-around address prev it first second =
    elim (Bool-cases (leb prev.address.addr address.addr)) [
      | inl low ↦ rw (first, ◌>>=◌, low, second, ◌>>=◌) refl
      | inr high ↦ rw (first, ◌>>=◌, high) refl
    ]

-- The first row that, with the one behind it, is around the address.
abbrev pub first_cover : FileAddr → List Entry → Option Entry
first_cover address [] = none
first_cover address (e ∷ []) = none
first_cover address (e ∷ (f ∷ es)) =
    let later = first_cover address (f ∷ es) in if around address e f then some e else later

abbrev pub current_of : Option Iterator → Option Entry
current_of none = none
current_of (some it) = some it.current

no_room : (it : Iterator) (c : Cursor) → it.position ≡ none → it.position ≡ some c → ⊥
no_room it c e e' = cc

at_end-none {ℓ} :
    {A : Type ℓ} (p : Option Cursor) (ended going : A) → p ≡ none → at_end p ended going ≡ ended
at_end-none p ended going e = rw e

at_end-some {ℓ} :
    {A : Type ℓ} (p : Option Cursor) (c : Cursor) (ended going : A)
    → p ≡ some c
    → at_end p ended going ≡ going
at_end-some p c ended going e = rw e

lookup_step :
    (fuel : ℕ) (t : Table) (address : FileAddr) (prev it it' : Iterator) (c : Cursor)
    → it.position ≡ some c
    → covers address prev.current it.current ≡ ok false
    → next t it ≡ ok it'
    → lookup_loop (suc fuel) t address prev it ≡ lookup_loop fuel t address it it'
unfolding lookup_loop
lookup_step fuel t address prev it it' c at off steps =
    let more : Outcome (Option Iterator) = (next t it >>= λ i. lookup_loop fuel t address it i) in
    at_end-some it.position c (ok none) _ at
    ∙ ap (λ (m : Outcome Bool). m >>= λ b. if b then ok (some prev) else more) off
    ∙ ap (λ (m : Outcome Iterator). m >>= λ i. lookup_loop fuel t address it i) steps

lookup_found :
    (fuel : ℕ) (t : Table) (address : FileAddr) (prev it : Iterator) (c : Cursor)
    → it.position ≡ some c
    → covers address prev.current it.current ≡ ok true
    → lookup_loop (suc fuel) t address prev it ≡ ok (some prev)
unfolding lookup_loop
lookup_found fuel t address prev it c at on =
    let more : Outcome (Option Iterator) = (next t it >>= λ i. lookup_loop fuel t address it i) in
    at_end-some it.position c (ok none) _ at
    ∙ ap (λ (m : Outcome Bool). m >>= λ b. if b then ok (some prev) else more) on

lookup_ended :
    (fuel : ℕ) (t : Table) (address : FileAddr) (prev it : Iterator)
    → it.position ≡ none
    → lookup_loop fuel t address prev it ≡ ok none
unfolding lookup_loop
lookup_ended zero t address prev it ended = at_end-none it.position (ok none) _ ended
lookup_ended (suc fuel) t address prev it ended = at_end-none it.position (ok none) _ ended

lookup_loop-first_cover :
    (fuel : ℕ) (t : Table) (address : FileAddr) (prev it : Iterator) (es : List Entry)
    → Rows t it es
    → IsIn address prev.current
    → All (IsIn address) es
    → ((c : Cursor) → it.position ≡ some c → length c.bytes < fuel)
    → (o : Option Iterator) × (lookup_loop fuel t address prev it ≡ ok o)
      × (current_of o ≡ first_cover address (prev.current ∷ es))
lookup_loop-first_cover zero t address prev it es (stop _ ended) h hs room =
    (none, lookup_ended zero t address prev it ended, refl)
lookup_loop-first_cover (suc fuel) t address prev it es (stop _ ended) h hs room =
    (none, lookup_ended (suc fuel) t address prev it ended, refl)
lookup_loop-first_cover zero t address prev it es (row _ it' c rest at steps rows) h hs room =
    absurd (omega (arith, room c at))
lookup_loop-first_cover (suc fuel) t address prev it es (row _ it' c rest at steps rows) h hs room =
    let tested : covers address prev.current it.current
        ≡ ok (around address prev.current it.current) =
      covers-around address prev.current it.current h hs.0 in
    elim (Bool-cases (around address prev.current it.current)) [
      | inl on ↦ (some prev, lookup_found fuel t address prev it c at (tested ∙ ap ok on), rw on)
      | inr off ↦
          let (o, found, is) =
            lookup_loop-first_cover fuel t address it it' rest rows hs.0 hs.1
              (λ c' at'. omega (arith, next-takes t it it' c c' at steps at', room c at)) in
          (
            o,
            lookup_step fuel t address prev it it' c at (tested ∙ ap ok off) steps ∙ found,
            rw off is,
          )
    ]

start_room :
    (t : Table) (files : List File) (start : Cursor) (first : Iterator) (c : Cursor)
    → begin t files start ≡ ok first
    → first.position ≡ some c
    → length c.bytes < length start.bytes
unfolding begin
start_room t files start first c begins at =
    next-takes t
      (record {
        current = new_entry false;
        registers = new_entry t.default_is_stmt;
        position = some start;
        files = files;
      })
      first start c refl begins at

-- What follows `begin` in `get_entry_by_address`.
abbrev found_from : Table → Cursor → FileAddr → Iterator → Outcome (Option Iterator)
found_from t start address prev =
    at_end prev.position (ok none)
      (next t prev >>= λ i. lookup_loop (length start.bytes) t address prev i)

-- Where an iteration over the whole line table succeeds with rows `es`, all in the file of the address
-- that is asked for, as they are where each sequence sets its address first, `get_entry_by_address` returns, without running out of rounds, the first row that is not the end of a sequence and whose
-- address is at most the one asked for while the next row's is above it, and `end()` where there is
-- no such row.
pub get_entry_by_address-first_cover :
    (t : Table) (files : List File) (start : Cursor) (address : FileAddr) (first : Iterator)
    (es : List Entry)
    → begin t files start ≡ ok first
    → Rows t first es
    → All (IsIn address) es
    → (o : Option Iterator) × (get_entry_by_address t files start address ≡ ok o)
      × (current_of o ≡ first_cover address es)
unfolding get_entry_by_address
get_entry_by_address-first_cover t files start address first es begins (stop _ ended) hs = (
  none,
  ap (λ (m : Outcome Iterator). m >>= found_from t start address) begins
      ∙ at_end-none first.position (ok none) _ ended,
  refl,
)
get_entry_by_address-first_cover t files start address first es begins
      (row _ it c rest at steps rows) hs =
    let (o, found, is) =
      lookup_loop-first_cover (length start.bytes) t address first it rest rows hs.0 hs.1 (λ c' at'.
        omega (
          arith,
          next-takes t first it c c' at steps at',
          start_room t files start first c begins at,
        )) in
    (
      o,
      ap (λ (m : Outcome Iterator). m >>= found_from t start address) begins
          ∙ at_end-some first.position c (ok none) _ at
          ∙ ap
              (λ (m : Outcome Iterator).
                m >>= λ i. lookup_loop (length start.bytes) t address first i)
              steps
          ∙ found,
      is,
    )
