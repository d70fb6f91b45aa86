-- ===== src/Common/Failures.antt =====
-- How a call of the debugger ends: with a value, with the exception that `error::send` or
-- `error::send_errno` throws (include/libkdebugger/error.hpp), with a standard exception, or in
-- behaviour that C++ leaves undefined. A number that a message ends in is left out.
use mathlib.Core.Path.{◌≡◌, refl}
use mathlib.Core.Option.{Option, none, some}
use Prim.Native.String.{String}

pub data Failure : Type 0 where
  sent : String → Failure
  sent_errno : String → Failure
  out_of_range : Failure
  bad_optional_access : Failure
  bad_variant_access : Failure
  undefined : Failure

pub data Outcome {ℓ} (A : Type ℓ) : Type ℓ where
  ok : A → Outcome A
  fail : Failure → Outcome A

infixl 5 ◌>>=◌
abbrev pub ◌>>=◌ {ℓ κ} :
    {A : Type ℓ} {B : Type κ} (before : Outcome A) (then : A → Outcome B) → Outcome B
ok a >>= then = then a
fail reason >>= then = fail reason

-- A chain that ends well began well.
pub >>=-eq-ok {ℓ κ} :
    {A : Type ℓ} {B : Type κ} (before : Outcome A) (then : A → Outcome B) {end : B}
    → (before >>= then) ≡ ok end
    → (value : A) × (before ≡ ok value) × (then value ≡ ok end)
>>=-eq-ok (fail reason) then e = cc
>>=-eq-ok (ok value) then e = (value, refl, e)

pub ok-injective {ℓ} : {A : Type ℓ} {a b : A} → ok a ≡ ok b → a ≡ b
ok-injective e = cc

pub fail-ne-ok {ℓ} : {A : Type ℓ} {x : Failure} {a : A} → fail x ≡ ok a → ⊥
fail-ne-ok e = cc

-- The value that an iterator or an optional must hold; reading an empty one is undefined.
abbrev pub or_fail {ℓ} : {A : Type ℓ} → Option A → Outcome A
or_fail none = fail undefined
or_fail (some a) = ok a

pub or_fail-ok {ℓ} : {A : Type ℓ} (o : Option A) {a : A} → or_fail o ≡ ok a → o ≡ some a
or_fail-ok none e = cc
or_fail-ok (some b) e = cc

-- Two continuations that agree on what the call returns give one result.
pub >>=-congr {ℓ κ} :
    {A : Type ℓ} {B : Type κ} (before : Outcome A) (then other : A → Outcome B)
    → ((value : A) → before ≡ ok value → then value ≡ other value)
    → (before >>= then) ≡ (before >>= other)
>>=-congr (ok value) then other same = same value refl
>>=-congr (fail reason) then other same = refl
