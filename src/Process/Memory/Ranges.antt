-- ===== src/Process/Memory/Ranges.antt =====
-- The ranges that `read_memory` passes to process_vm_readv, and the buffer it fills.
use kdebugger.Common.{
  ℕ, zero, suc, ◌+◌, ◌-◌, ◌%◌, ◌≤◌, ◌<◌, ◌≡◌, refl, sym, ap, ◌∙◌, bit_and, min, Bool-cases, inl,
  inr, ◌==◌, if◌then◌else◌, List, [], ◌∷◌, ◌++◌, length, length-append, set, All, arith,
}
use kdebugger.Common.Bits.{bit_and_low}
use kdebugger.Process.Tracee.{bytes_at, bytes_of_ranges}
use kdebugger.Process.Memory.{remote_descs, pad_zeros}
use mathlib.Core.List.{append-nil}
use native.Mathlib.Nat.{add-zero, zero-add}

pub bytes_at-add :
    (f : ℕ → ℕ) (a n m : ℕ) → bytes_at f a n ++ bytes_at f (a + n) m ≡ bytes_at f a (n + m)
bytes_at-add f a zero m = rw (add-zero, zero-add)
bytes_at-add f a (suc n) m =
    let shift : a + suc n ≡ a + 1 + n = omega arith in
    let total : suc n + m ≡ suc (n + m) = omega arith in
    rw (shift, total) (ap (λ (l : List ℕ). f a ∷ l) (bytes_at-add f (a + 1) n m))

pub length-bytes_at : (f : ℕ → ℕ) (a n : ℕ) → length (bytes_at f a n) ≡ n
length-bytes_at f a zero = refl
length-bytes_at f a (suc n) = ap suc (length-bytes_at f (a + 1) n)

pub bytes_at-congr :
    (f g : ℕ → ℕ) (a n : ℕ)
    → ((x : ℕ) → a ≤ x → x < a + n → f x ≡ g x)
    → bytes_at f a n ≡ bytes_at g a n
bytes_at-congr f g a zero h = refl
bytes_at-congr f g a (suc n) h =
    let tail : bytes_at f (a + 1) n ≡ bytes_at g (a + 1) n =
      bytes_at-congr f g (a + 1) n (λ x lo hi. h x (omega arith) (omega arith)) in
    let head : f a ≡ g a = h a (omega arith) (omega arith) in cc

-- The bytes that the ranges name are those from `address` on, each once and in order.
pub bytes_of_ranges-remote_descs :
    (f : ℕ → ℕ) (fuel address amount : ℕ)
    → amount ≤ fuel
    → bytes_of_ranges f (remote_descs fuel address amount) ≡ bytes_at f address amount
unfolding remote_descs
bytes_of_ranges-remote_descs f zero address amount h =
    let none_left : amount ≡ 0 = omega arith in rw none_left
bytes_of_ranges-remote_descs f (suc fuel) address amount h =
    let chunk = min amount (0x1000 - bit_and address 0xfff) in
    elim (Bool-cases (amount == 0)) [
      | inl done ↦ let none_left : amount ≡ 0 = ground arith in rw none_left
      | inr more ↦
          let step : 0 < chunk = ground (arith, bit_and_low 12 address) in
          let whole : chunk + (amount - chunk) ≡ amount = omega arith in
          rw more (
            ap (λ (l : List ℕ). bytes_at f address chunk ++ l)
              (bytes_of_ranges-remote_descs f fuel (address + chunk) (amount - chunk) (omega arith))
            ∙ bytes_at-add f address chunk (amount - chunk)
            ∙ ap (bytes_at f address) whole)
    ]

-- A range that is not empty and does not cross a page.
abbrev pub InPage : ℕ × ℕ → Type 0
InPage (base, len) = (0 < len) × (base % 0x1000 + len ≤ 0x1000)

pub remote_descs-InPage : (fuel address amount : ℕ) → All InPage (remote_descs fuel address amount)
unfolding remote_descs
remote_descs-InPage zero address amount = tt
remote_descs-InPage (suc fuel) address amount =
    let chunk = min amount (0x1000 - bit_and address 0xfff) in
    elim (Bool-cases (amount == 0)) [
      | inl done ↦ rw done tt
      | inr more ↦
          let low : bit_and address 0xfff ≡ address % 0x1000 = bit_and_low 12 address in
          rw more (
            (ground arith, omega arith),
            remote_descs-InPage fuel (address + chunk) (amount - chunk),
          )
    ]

-- A transfer of the whole amount fills the buffer.
pub pad_zeros-full : (n : ℕ) (got : List ℕ) → length got ≡ n → pad_zeros n got ≡ got
unfolding pad_zeros
pad_zeros-full zero [] h = refl
pad_zeros-full zero (b ∷ got) h = absurd (omega arith)
pad_zeros-full (suc n) [] h = absurd (omega arith)
pad_zeros-full (suc n) (b ∷ got) h = ap (λ (l : List ℕ). b ∷ l) (pad_zeros-full n got (omega arith))

-- A prefix of full length is the whole.
pub prefix_full : (xs ys rest : List ℕ) → xs ≡ ys ++ rest → length ys ≡ length xs → ys ≡ xs
prefix_full xs ys [] e h = sym (e ∙ append-nil ys)
prefix_full xs ys (r ∷ rest) e h =
    absurd (omega (arith, length-append ys (r ∷ rest), ap (λ (l : List ℕ). length l) e))

-- Writing into the buffer.
pub set-bytes_at :
    (f : ℕ → ℕ) (a n x b : ℕ)
    → a ≤ x
    → set (bytes_at f a n) (x - a) b ≡ bytes_at (λ y. if x == y then b else f y) a n
set-bytes_at f a zero x b lo = refl
set-bytes_at f a (suc n) x b lo = elim (Bool-cases (x == a)) [
  | inl same ↦
      let first : x - a ≡ 0 = ground arith in
      rw (first, same)
        (ap (λ (l : List ℕ). b ∷ l)
          (bytes_at-congr f (λ y. if x == y then b else f y) (a + 1) n (λ y l h. ground arith)))
  | inr other ↦
      let later : x - a ≡ suc (x - (a + 1)) = ground arith in
      rw (later, other) (ap (λ (l : List ℕ). f a ∷ l) (set-bytes_at f (a + 1) n x b (ground arith)))
]
