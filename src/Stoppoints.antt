-- ===== src/Stoppoints.antt =====
-- The template `stoppoint_collection` of include/libkdebugger/stoppoint_collection.hpp, over any
-- type of stop points. An iterator and a reference into the vector are its index. `m_Id` in the test of
-- `find_by_id` stands for the argument, and `disable` in `remove_by_address` for its call.

use kdebugger.Common.{
  ℕ, zero, suc, Bool, true, false, List, [], ◌∷◌, ◌++◌, Option, none, some, if◌then◌else◌, ◌==◌,
  get_elem?, Outcome, ok, fail, or_fail, sent, ◌>>=◌,
}

-- What the template calls on its `Stoppoint`.
pub record Stoppoint {ℓ} (A : Type ℓ) : Type ℓ where
  pub id : A → ℕ
  pub at_address : A → ℕ → Bool
  pub in_range : A → ℕ → ℕ → Bool
  pub is_enabled : A → Bool

module _ {ℓ} {A : Type ℓ} where
  -- `std::find_if`; `none` is `end`.
  unfoldable pub find_if : (A → Bool) → List A → Option ℕ
  find_if p [] = none
  find_if p (x ∷ xs) =
      if p x then some 0 else elim (find_if p xs) [ none ↦ none | some i ↦ some (suc i) ]

  -- `m_Stoppoints.erase(it)`.
  unfoldable pub erase : List A → ℕ → List A
  erase [] i = []
  erase (x ∷ xs) zero = xs
  erase (x ∷ xs) (suc i) = x ∷ erase xs i

  -- Copies the elements that pass the test.
  unfoldable pub copy_if : (A → Bool) → List A → List A
  copy_if p [] = []
  copy_if p (x ∷ xs) = let rest = copy_if p xs in if p x then x ∷ rest else rest

abbrev pub has_value {ℓ} : {A : Type ℓ} → Option A → Bool
has_value none = false
has_value (some a) = true

module _ {ℓ} {A : Type ℓ} (s : Stoppoint A) where
  unfoldable pub push : List A → A → List A
  push points point = points ++ (point ∷ [])

  unfoldable pub find_by_id : List A → ℕ → Option ℕ
  find_by_id points id = find_if (λ point. s.id point == id) points

  unfoldable pub find_by_address : List A → ℕ → Option ℕ
  find_by_address points address = find_if (λ point. s.at_address point address) points

  unfoldable pub contains_id : List A → ℕ → Bool
  unfolding find_by_id
  contains_id points id = has_value (find_by_id points id)

  unfoldable pub contains_address : List A → ℕ → Bool
  unfolding find_by_address
  contains_address points address = has_value (find_by_address points address)

  unfoldable pub get_by_id : List A → ℕ → Outcome ℕ
  unfolding find_by_id
  get_by_id points id = elim (find_by_id points id) [
    | none ↦ fail (sent "Invalid stoppoint id")
    | some i ↦ ok i
  ]

  unfoldable pub get_by_address : List A → ℕ → Outcome ℕ
  unfolding find_by_address
  get_by_address points address = elim (find_by_address points address) [
    | none ↦ fail (sent "Stoppoint with a given address not found")
    | some i ↦ ok i
  ]

  unfoldable pub enabled_stoppoint_at_address : List A → ℕ → Outcome Bool
  unfolding contains_address get_by_address
  enabled_stoppoint_at_address points address =
      if contains_address points address
      then (do
        i ← get_by_address points address
        point ← or_fail (get_elem? points i)
        ok (s.is_enabled point))
      else ok false

  unfoldable pub get_in_region : List A → ℕ → ℕ → List A
  unfolding copy_if
  get_in_region points low high = copy_if (λ point. s.in_range point low high) points

-- `disable` works on the owner of the collection, which reads the point at the index. Removing a
-- point that is not there dereferences `end`.
module _ {ℓ κ} {A : Type ℓ} {P : Type κ} (s : Stoppoint A) where
  unfoldable pub remove_by_id :
      (P → List A) → (P → List A → P) → (ℕ → P → Outcome P) → ℕ → P → Outcome P
  unfolding find_by_id erase
  remove_by_id points store disable id p = do
    i ← or_fail (find_by_id s (points p) id)
    p' ← disable i p
    ok (store p' (erase (points p') i))

  unfoldable pub remove_by_address :
      (P → List A) → (P → List A → P) → (ℕ → P → Outcome P) → ℕ → P → Outcome P
  unfolding find_by_address erase
  remove_by_address points store disable address p = do
    i ← or_fail (find_by_address s (points p) address)
    p' ← disable i p
    ok (store p' (erase (points p') i))
