-- ===== src/Common/Options.antt =====
-- The first of two options that is there.
use mathlib.Core.Path.{◌≡◌, refl}
use mathlib.Core.Option.{Option, none, some}

module _ {ℓ} {A : Type ℓ} where
  abbrev pub or_else : Option A → Option A → Option A
  or_else none other = other
  or_else (some a) other = some a

  pub or_else-none : (o : Option A) → or_else o none ≡ o
  or_else-none none = refl
  or_else-none (some a) = refl

  pub or_else-or_else : (o p q : Option A) → or_else (or_else o p) q ≡ or_else o (or_else p q)
  or_else-or_else none p q = refl
  or_else-or_else (some a) p q = refl
