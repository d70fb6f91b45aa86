-- ===== src/Process/Hardware/Fields.antt =====
-- The bits of debug register 7 that setting and clearing a hardware stop point change.
use kdebugger.Common.{
  ℕ, ◌+◌, ◌-◌, ◌*◌, ◌^◌, ◌<◌, ◌≡◌, refl, ap, ◌∙◌, bit_and, bit_or, Bool, true, ◌&&◌, ◌||◌,
  if◌then◌else◌, ◌==◌, leb, ltb, arith,
}
use kdebugger.Common.Digits.{digit, digit-lt, digit-bit_and, digit-bit_or, all_below, all_below-at}
use kdebugger.Process.Hardware.{keep_mask, control_word, clear_mask}
use Prim.Native.Nat.{max}

-- Whether bit `k` belongs to the fields of register `i`: two enable bits, and four bits of
-- condition and length.
abbrev pub in_fields : ℕ → ℕ → Bool
in_fields i k = (leb (2 * i) k && ltb k (2 * i + 2)) || (leb (16 + 4 * i) k && ltb k (20 + 4 * i))

-- Bit `k` of the fields of register `i`: enabled locally, with a condition and a length.
abbrev pub field_bit : ℕ → ℕ → ℕ → ℕ → ℕ
field_bit i mode size k =
    if k == 2 * i
    then 1
    else if k == 2 * i + 1
    then 0
    else if ltb k (18 + 4 * i)
    then digit mode (k - (16 + 4 * i))
    else digit size (k - (18 + 4 * i))

keep_test : ℕ → ℕ → Bool
keep_test i k = digit (keep_mask i) k == (if in_fields i k then 0 else 1)

keep_tests : all_below 4 (λ i. all_below 32 (λ k. keep_test i k)) ≡ true
unfolding keep_test keep_mask clear_mask
keep_tests = refl

-- What `|=` adds.
abbrev added : ℕ → ℕ → ℕ → ℕ
added i mode size =
    bit_or (bit_or (2 ^ (i * 2)) (mode * 2 ^ (i * 4 + 16))) (size * 2 ^ (i * 4 + 18))

added_test : ℕ → ℕ → ℕ → ℕ → Bool
added_test i mode size k =
    digit (added i mode size) k == (if in_fields i k then field_bit i mode size k else 0)

added_tests :
    all_below 4 (λ i.
      all_below 4 (λ mode. all_below 4 (λ size. all_below 32 (λ k. added_test i mode size k))))
    ≡ true
unfolding added_test
added_tests = refl

same : (a b : ℕ) → (a == b) ≡ true → a ≡ b
same a b e = ground arith

keep-digit : (i k : ℕ) → i < 4 → k < 32 → digit (keep_mask i) k ≡ (if in_fields i k then 0 else 1)
unfolding keep_test
keep-digit i k hi hk =
    let passed =
      all_below-at 32 (λ l. keep_test i l) k
        (all_below-at 4 (λ j. all_below 32 (λ l. keep_test j l)) i keep_tests hi) hk in
    same _ _ passed

added-digit :
    (i mode size k : ℕ)
    → i < 4
    → mode < 4
    → size < 4
    → k < 32
    → digit (added i mode size) k ≡ (if in_fields i k then field_bit i mode size k else 0)
unfolding added_test
added-digit i mode size k hi hm hs hk =
    let at_i =
      all_below-at 4
        (λ i.
          all_below 4 (λ mode. all_below 4 (λ size. all_below 32 (λ k. added_test i mode size k))))
        i added_tests hi in
    let at_mode =
      all_below-at 4 (λ mode. all_below 4 (λ size. all_below 32 (λ k. added_test i mode size k)))
        mode at_i hm in
    let at_size =
      all_below-at 4 (λ size. all_below 32 (λ k. added_test i mode size k)) size at_mode hs in
    same _ _ (all_below-at 32 (λ k. added_test i mode size k) k at_size hk)

-- Among the lower 32 bits, the word that `set_hardware_stoppoint` writes to debug register 7 has, in
-- the fields of the register it took, a local enable bit with the mode and the size it was given,
-- and every other bit of the word before.
pub control_word-digit :
    (control i mode size k : ℕ)
    → i < 4
    → mode < 4
    → size < 4
    → k < 32
    → digit (control_word control i mode size) k
      ≡ (if in_fields i k then field_bit i mode size k else digit control k)
unfolding control_word
control_word-digit control i mode size k hi hm hs hk =
    digit-bit_or (bit_and control (keep_mask i)) (added i mode size) k
    ∙ ap (λ (d : ℕ). max d (digit (added i mode size) k)) (digit-bit_and control (keep_mask i) k)
    ∙ rw (keep-digit i k hi hk, added-digit i mode size k hi hm hs hk)
        (ground (arith, digit-lt control k))

-- Among the lower 32 bits, the word that `clear_hardware_stoppoint` writes to debug register 7 has
-- zeros in the fields of the register, and every other bit of the word before.
keep_mask-digit :
    (control i k : ℕ)
    → i < 4
    → k < 32
    → digit (bit_and control (keep_mask i)) k ≡ (if in_fields i k then 0 else digit control k)
keep_mask-digit control i k hi hk =
    digit-bit_and control (keep_mask i) k
    ∙ rw (keep-digit i k hi hk) (ground (arith, digit-lt control k))
