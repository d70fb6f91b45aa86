-- ===== src/Common/Text.antt =====
-- The equality of texts, which are lists of bytes.
use Prim.Native.Nat.{ℕ}
use mathlib.Core.Path.{◌≡◌, refl}
use mathlib.Core.Bool.{Bool, true, false, ◌&&◌}
use mathlib.Core.List.{List, [], ◌∷◌}
use mathlib.Core.Logic.{inl, inr}
use native.Mathlib.Omega.{arith}
use kdebugger.Common.Tests.{◌==◌, ==_refl, Bool-cases}

abbrev pub same_text : List ℕ → List ℕ → Bool
same_text [] [] = true
same_text [] (b ∷ t) = false
same_text (a ∷ s) [] = false
same_text (a ∷ s) (b ∷ t) = (a == b) && same_text s t

pub same_text_refl : (s : List ℕ) → same_text s s ≡ true
same_text_refl [] = refl
same_text_refl (a ∷ s) = rw (==_refl a) (same_text_refl s)

pub equal_of_same_text : (s t : List ℕ) → same_text s t ≡ true → s ≡ t
equal_of_same_text [] [] h = refl
equal_of_same_text [] (b ∷ t) h = cc
equal_of_same_text (a ∷ s) [] h = cc
equal_of_same_text (a ∷ s) (b ∷ t) h = elim (Bool-cases (a == b)) [
  | inl head ↦
      let first : a ≡ b = ground arith in
      let behind : s ≡ t = equal_of_same_text s t (rw head at h) in cc
  | inr other ↦ let broken : false ≡ true = rw other at h in cc
]
