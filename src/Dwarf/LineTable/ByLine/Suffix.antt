-- ===== src/Dwarf/LineTable/ByLine/Suffix.antt =====
-- What `path_ends_in` of src/dwarf.cpp decides.
use kdebugger.Common.{
  ℕ, zero, suc, ◌+◌, ◌-◌, ◌≤◌, ◌≡◌, ◌↔◌, refl, sym, ap, subst, ◌∙◌, true, false, Bool-cases, List,
  [], ◌∷◌, ◌++◌, inl, inr, ltb, length, drop, length-append, length-drop, drop-append, same_text,
  same_text_refl, equal_of_same_text, arith,
}
use kdebugger.Dwarf.LineTable.ByLine.{same_components, path_ends_in}

same_components_refl : (p : List (List ℕ)) → same_components p p ≡ true
unfolding same_components
same_components_refl [] = refl
same_components_refl (a ∷ p) = rw (same_text_refl a) (same_components_refl p)

equal_of_same_components :
    (p q : List (List ℕ)) → length p ≡ length q → same_components p q ≡ true → p ≡ q
unfolding same_components
equal_of_same_components [] [] size h = refl
equal_of_same_components [] (b ∷ q) size h = cc
equal_of_same_components (a ∷ p) [] size h = cc
equal_of_same_components (a ∷ p) (b ∷ q) size h = elim (Bool-cases (same_text a b)) [
  | inl same ↦
      let first : a ≡ b = equal_of_same_text a b same in
      let behind : p ≡ q = equal_of_same_components p q (omega arith) (rw same at h) in cc
  | inr other ↦ let broken : false ≡ true = rw other at h in cc
]

split_at : (n : ℕ) (p : List (List ℕ)) → (front : List (List ℕ)) × (p ≡ front ++ drop n p)
split_at zero p = ([], refl)
split_at (suc n) [] = ([], refl)
split_at (suc n) (a ∷ p) = let (front, whole) = split_at n p in (a ∷ front, ap (λ q. a ∷ q) whole)

ends_in :
    (lhs rhs : List (List ℕ))
    → path_ends_in lhs rhs ≡ true
    → (front : List (List ℕ)) × (lhs ≡ front ++ rhs)
unfolding path_ends_in
ends_in lhs rhs h = elim (Bool-cases (ltb (length lhs) (length rhs))) [
  | inl short ↦ let broken : false ≡ true = rw short at h in cc
  | inr long ↦
      let n : ℕ = length lhs - length rhs in
      let (front, whole) = split_at n lhs in
      let fits : length rhs ≤ length lhs = ground arith in
      let size : length (drop n lhs) ≡ length rhs = length-drop n lhs ∙ omega (arith, fits) in
      let end : drop n lhs ≡ rhs = equal_of_same_components (drop n lhs) rhs size (rw long at h) in
      (front, subst (λ q. lhs ≡ front ++ q) end whole)
]

append-ends_in : (front rhs : List (List ℕ)) → path_ends_in (front ++ rhs) rhs ≡ true
unfolding path_ends_in
append-ends_in front rhs =
    let size : length (front ++ rhs) ≡ length front + length rhs = length-append front rhs in
    let long : ltb (length (front ++ rhs)) (length rhs) ≡ false = ground arith in
    let place : length (front ++ rhs) - length rhs ≡ length front = omega arith in
    rw (long, place, drop-append front rhs) (same_components_refl rhs)

-- `path_ends_in` holds of two paths exactly where the components of the first are some components and
-- then those of the second.
pub path_ends_in-append :
    (lhs rhs : List (List ℕ))
    → (path_ends_in lhs rhs ≡ true) ↔ ((front : List (List ℕ)) × (lhs ≡ front ++ rhs))
path_ends_in-append lhs rhs = (
  ends_in lhs rhs,
  λ (front, whole). subst (λ q. path_ends_in q rhs ≡ true) (sym whole) (append-ends_in front rhs),
)
