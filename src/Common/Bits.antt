-- ===== src/Common/Bits.antt =====
-- `&`, `|` and masks at variables: each operation by its lowest digit, and as arithmetic where
-- the source masks or joins fields.
use Prim.Native.Nat.{
  ℕ, zero, suc, ◌+◌, ◌-◌, ◌*◌, ◌/◌, ◌%◌, ◌^◌, ◌≤◌, ◌<◌, min, max, bit_and, bit_or, digits,
  bit_and-bitwise, bit_or-bitwise,
}
use mathlib.Core.Path.{◌≡◌, refl, ap, ◌∙◌}
use native.Mathlib.Nat.{
  pow-suc, div-one, mul-one, div-div-eq-div-mul, div-add-mod', add-mul-mod_self_right, mod-eq_of_lt,
  mod-lt, one-le-pow,
}
use mathlib.Core.Bool.{Bool, true, ◌&&◌}
use native.Mathlib.Omega.{arith}
use kdebugger.Common.Tests.{◌==◌}

-- Two amounts of fuel that both cover the first operand give the same digits.
module _ (tail : ℕ → ℕ) (join : ℕ → ℕ → ℕ) where
  enough_fuel : (f g x y : ℕ) → x ≤ f → x ≤ g → digits tail join f x y ≡ digits tail join g x y
  enough_fuel zero zero x y hf hg = refl
  enough_fuel zero (suc g) zero y hf hg = refl
  enough_fuel zero (suc g) (suc x) y hf hg = absurd (omega arith)
  enough_fuel (suc f) zero zero y hf hg = refl
  enough_fuel (suc f) zero (suc x) y hf hg = absurd (omega arith)
  enough_fuel (suc f) (suc g) zero y hf hg = refl
  enough_fuel (suc f) (suc g) (suc x) y hf hg =
      ap (λ (t : ℕ). t * 2 + join (suc x % 2) (y % 2))
        (enough_fuel f g (suc x / 2) (y / 2) (omega arith) (omega arith))

zero-bit_and : (y : ℕ) → bit_and 0 y ≡ 0
zero-bit_and y = bit_and-bitwise 0 y

zero-bit_or : (y : ℕ) → bit_or 0 y ≡ y
zero-bit_or y = bit_or-bitwise 0 y

pub bit_and_digit : (x y : ℕ) → bit_and x y ≡ bit_and (x / 2) (y / 2) * 2 + min (x % 2) (y % 2)
bit_and_digit zero y = omega (arith, zero-bit_and y, zero-bit_and (y / 2))
bit_and_digit (suc x) y = omega (
  arith,
  bit_and-bitwise (suc x) y,
  bit_and-bitwise (suc x / 2) (y / 2),
  enough_fuel (λ b. zero) min x (suc x / 2) (suc x / 2) (y / 2) (omega arith) (omega arith),
)

pub bit_or_digit : (x y : ℕ) → bit_or x y ≡ bit_or (x / 2) (y / 2) * 2 + max (x % 2) (y % 2)
bit_or_digit zero y = omega (arith, zero-bit_or y, zero-bit_or (y / 2))
bit_or_digit (suc x) y = omega (
  arith,
  bit_or-bitwise (suc x) y,
  bit_or-bitwise (suc x / 2) (y / 2),
  enough_fuel (λ b. b) max x (suc x / 2) (suc x / 2) (y / 2) (omega arith) (omega arith),
)

bit_or-zero_below : (n x : ℕ) → x ≤ n → bit_or x 0 ≡ x
bit_or-zero_below n zero h = zero-bit_or 0
bit_or-zero_below zero (suc x) h = absurd (omega arith)
bit_or-zero_below (suc n) (suc x) h =
    omega (arith, bit_or_digit (suc x) 0, bit_or-zero_below n (suc x / 2) (omega arith))

pub bit_or-zero : (x : ℕ) → bit_or x 0 ≡ x
bit_or-zero x = bit_or-zero_below x x (omega arith)

bit_and-zero_below : (n x : ℕ) → x ≤ n → bit_and x 0 ≡ 0
bit_and-zero_below n zero h = zero-bit_and 0
bit_and-zero_below zero (suc x) h = absurd (omega arith)
bit_and-zero_below (suc n) (suc x) h =
    omega (arith, bit_and_digit (suc x) 0, bit_and-zero_below n (suc x / 2) (omega arith))

pub bit_and-zero : (x : ℕ) → bit_and x 0 ≡ 0
bit_and-zero x = bit_and-zero_below x x (omega arith)

double_pow : (m k : ℕ) → m * 2 ^ suc k ≡ m * 2 ^ k * 2
double_pow m k = omega (arith, ap (λ (t : ℕ). m * t) (pow-suc 2 k))

half_pow : (m k : ℕ) → m * 2 ^ suc k / 2 ≡ m * 2 ^ k
half_pow m k = omega (arith, double_pow m k)

-- A low field joined by `|` to a field above it is their sum.
pub bit_or_low : (k m r : ℕ) → r < 2 ^ k → bit_or r (m * 2 ^ k) ≡ r + m * 2 ^ k
bit_or_low zero m zero h = omega (arith, zero-bit_or (m * 2 ^ 0))
bit_or_low zero m (suc r) h = absurd (omega arith)
bit_or_low (suc k) m r h =
    let upper : bit_or (r / 2) (m * 2 ^ suc k / 2) ≡ r / 2 + m * 2 ^ k =
      rw half_pow (bit_or_low k m (r / 2) (omega (arith, pow-suc 2 k))) in
    omega (arith, bit_or_digit r (m * 2 ^ suc k), double_pow m k, upper)

pub bit_or_high : (k m r : ℕ) → r < 2 ^ k → bit_or (m * 2 ^ k) r ≡ m * 2 ^ k + r
bit_or_high zero m zero h = omega (arith, bit_or-zero (m * 2 ^ 0))
bit_or_high zero m (suc r) h = absurd (omega arith)
bit_or_high (suc k) m r h =
    let upper : bit_or (m * 2 ^ suc k / 2) (r / 2) ≡ m * 2 ^ k + r / 2 =
      rw half_pow (bit_or_high k m (r / 2) (omega (arith, pow-suc 2 k))) in
    omega (arith, bit_or_digit (m * 2 ^ suc k) r, double_pow m k, upper)

div-pow-suc : (k x : ℕ) → x / 2 / 2 ^ k ≡ x / 2 ^ suc k
div-pow-suc k x =
    div-div-eq-div-mul x 2 (2 ^ k) ∙ ap (λ (t : ℕ). x / t) (omega (arith, pow-suc 2 k))

-- A mask above bit `k` acts on the bits from `k` on.
pub bit_and_high : (k x m : ℕ) → bit_and x (m * 2 ^ k) ≡ bit_and (x / 2 ^ k) m * 2 ^ k
bit_and_high zero x m = simp (div-one, mul-one)
bit_and_high (suc k) x m =
    let upper : bit_and (x / 2) (m * 2 ^ suc k / 2) ≡ bit_and (x / 2 ^ suc k) m * 2 ^ k =
      rw (half_pow, ← div-pow-suc k x) (bit_and_high k (x / 2) m) in
    omega (
      arith,
      bit_and_digit x (m * 2 ^ suc k),
      double_pow m k,
      double_pow (bit_and (x / 2 ^ suc k) m) k,
      upper,
    )

ones_half : (k : ℕ) → (2 ^ suc k - 1) / 2 ≡ 2 ^ k - 1
ones_half k = omega (arith, pow-suc 2 k)

mod-pow-suc : (k x : ℕ) → x % 2 ^ suc k ≡ x / 2 % 2 ^ k * 2 + x % 2
mod-pow-suc k x =
    ap (λ (t : ℕ). t % 2 ^ suc k) split
    ∙ add-mul-mod_self_right (x / 2 % 2 ^ k * 2 + x % 2) (x / 2 / 2 ^ k) (2 ^ suc k)
    ∙ mod-eq_of_lt (omega (arith, pow-suc 2 k, mod-lt (x / 2) (one-le-pow k 2 (omega arith))))
  where
    split : x ≡ x / 2 % 2 ^ k * 2 + x % 2 + x / 2 / 2 ^ k * 2 ^ suc k
    split = omega (arith, double_pow (x / 2 / 2 ^ k) k, div-add-mod' (x / 2) (2 ^ k))

-- A mask of `k` ones is the remainder by `2 ^ k`.
pub bit_and_low : (k x : ℕ) → bit_and x (2 ^ k - 1) ≡ x % 2 ^ k
bit_and_low zero x = bit_and-zero x ∙ omega arith
bit_and_low (suc k) x =
    let upper : bit_and (x / 2) ((2 ^ suc k - 1) / 2) ≡ x / 2 % 2 ^ k =
      rw (ones_half k) (bit_and_low k (x / 2)) in
    omega (
      arith,
      bit_and_digit x (2 ^ suc k - 1),
      pow-suc 2 k,
      one-le-pow k 2 (omega arith),
      mod-pow-suc k x,
      upper,
    )

-- `x & ~0xff` and `x & 0xff` on 64 bits.
pub clear_low_byte : (x : ℕ) → x < 2 ^ 64 → bit_and x 0xffff_ffff_ffff_ff00 ≡ x - x % 256
clear_low_byte x h =
    bit_and_high 8 x (2 ^ 56 - 1) ∙ ap (λ (t : ℕ). t * 256) (bit_and_low 56 (x / 256)) ∙ omega arith

pub low_byte : (x : ℕ) → bit_and x 0xff ≡ x % 256
low_byte x = bit_and_low 8 x

-- `(x & ~0xff) | b`: the lowest byte is replaced.
pub replace_low_byte :
    (x b : ℕ) → x < 2 ^ 64 → b < 256 → bit_or (bit_and x 0xffff_ffff_ffff_ff00) b ≡ x - x % 256 + b
replace_low_byte x b hx hb =
    let above : bit_and x 0xffff_ffff_ffff_ff00 ≡ x / 256 * 2 ^ 8 =
      clear_low_byte x hx ∙ omega arith in
    rw above (omega (arith, bit_or_high 8 (x / 256) b hb))

-- Tables for the masks that the source applies to one byte.
agree_below : (f g : ℕ → ℕ) → ℕ → Bool
agree_below f g zero = true
agree_below f g (suc n) = f n == g n && agree_below f g n

agree_below→eq : (f g : ℕ → ℕ) (n x : ℕ) → agree_below f g n ≡ true → x < n → f x ≡ g x
unfolding agree_below
agree_below→eq f g zero x e h = absurd (omega arith)
agree_below→eq f g (suc n) x e h = ground (arith, agree_below→eq f g n x)

pub byte_top : (b : ℕ) → b < 256 → bit_and b 0x80 ≡ b / 128 * 128
unfolding agree_below
byte_top b h = agree_below→eq (λ x. bit_and x 0x80) (λ x. x / 128 * 128) 256 b refl h

pub byte_sign : (b : ℕ) → b < 256 → bit_and b 0x40 ≡ b / 64 % 2 * 64
unfolding agree_below
byte_sign b h = agree_below→eq (λ x. bit_and x 0x40) (λ x. x / 64 % 2 * 64) 256 b refl h

pub byte_low7 : (b : ℕ) → bit_and b 0x7f ≡ b % 128
byte_low7 b = bit_and_low 7 b
