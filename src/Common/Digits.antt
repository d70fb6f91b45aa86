-- ===== src/Common/Digits.antt =====
-- The binary digits of a word, and statements about all small numbers that a computation decides.
use mathlib.Core.Path.{◌≡◌}
use mathlib.Core.Bool.{Bool, true, ◌&&◌}
use mathlib.Core.Logic.{◌⊎◌, inl, inr}
use native.Mathlib.Omega.{arith}
use Prim.Native.Nat.{ℕ, zero, suc, ◌/◌, ◌%◌, ◌<◌, bit_and, bit_or, min, max}
use kdebugger.Common.Bits.{bit_and_digit, bit_or_digit}

-- Bit `k` of `x`.
abbrev pub digit : ℕ → ℕ → ℕ
digit x zero = x % 2
digit x (suc k) = digit (x / 2) k

pub digit-lt : (x k : ℕ) → digit x k < 2
digit-lt x zero = omega arith
digit-lt x (suc k) = digit-lt (x / 2) k

pub digit-bit_and : (x y k : ℕ) → digit (bit_and x y) k ≡ min (digit x k) (digit y k)
digit-bit_and x y zero = omega (arith, bit_and_digit x y)
digit-bit_and x y (suc k) =
    let half : bit_and x y / 2 ≡ bit_and (x / 2) (y / 2) = omega (arith, bit_and_digit x y) in
    rw half (digit-bit_and (x / 2) (y / 2) k)

pub digit-bit_or : (x y k : ℕ) → digit (bit_or x y) k ≡ max (digit x k) (digit y k)
digit-bit_or x y zero = omega (arith, bit_or_digit x y)
digit-bit_or x y (suc k) =
    let half : bit_or x y / 2 ≡ bit_or (x / 2) (y / 2) = omega (arith, bit_or_digit x y) in
    rw half (digit-bit_or (x / 2) (y / 2) k)

-- The test at every number below `n`.
abbrev pub all_below : ℕ → (ℕ → Bool) → Bool
all_below zero test = true
all_below (suc n) test = test n && all_below n test

and_both : (a b : Bool) → (a && b) ≡ true → (a ≡ true) × (b ≡ true)
and_both a b e = ground arith

last_or_below : (i n : ℕ) → i < suc n → (i ≡ n) ⊎ (i < n)
last_or_below i n h = ground arith

pub all_below-at :
    (n : ℕ) (test : ℕ → Bool) (i : ℕ) → all_below n test ≡ true → i < n → test i ≡ true
all_below-at zero test i h lt = absurd (omega arith)
all_below-at (suc n) test i h lt =
    let (last, below) = and_both (test n) (all_below n test) h in
    elim (last_or_below i n lt) [
      | inl same ↦ rw same last
      | inr less ↦ all_below-at n test i below less
    ]
