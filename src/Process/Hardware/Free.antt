-- ===== src/Process/Hardware/Free.antt =====
-- The search for a free debug register.
use kdebugger.Common.{
  ℕ, zero, suc, ◌+◌, ◌*◌, ◌/◌, ◌%◌, ◌^◌, ◌≤◌, ◌<◌, ◌≡◌, refl, sym, ap, ◌∙◌, subst, bit_and, true,
  false, ◌==◌, arith, leb, ok, fail, sent, ok-injective, fail-ne-ok, Bool-cases, inl, inr,
}
use kdebugger.Common.Bits.{bit_and_high, bit_and_low}
use native.Mathlib.Nat.{one-le-pow}
use kdebugger.Process.Hardware.{free_region_loop, find_free_stoppoint_region}

-- Neither of register `i`'s enable bits is set.
abbrev pub IsFree : ℕ → ℕ → Type 0
IsFree control i = control / 2 ^ (i * 2) % 4 ≡ 0

region_bits :
    (control i : ℕ) → bit_and control (3 * 2 ^ (i * 2)) ≡ control / 2 ^ (i * 2) % 4 * 2 ^ (i * 2)
region_bits control i =
    bit_and_high (i * 2) control 3
    ∙ ap (λ (b : ℕ). b * 2 ^ (i * 2)) (bit_and_low 2 (control / 2 ^ (i * 2)))

zero_factor : (x p : ℕ) → 1 ≤ p → x * p ≡ 0 → x ≡ 0
zero_factor zero p h e = omega arith
zero_factor (suc x) p h e = absurd (grind arith)

region-IsFree : (control i : ℕ) → (bit_and control (3 * 2 ^ (i * 2)) == 0) ≡ true → IsFree control i
region-IsFree control i e =
    zero_factor (control / 2 ^ (i * 2) % 4) (2 ^ (i * 2)) (one-le-pow (i * 2) 2 (omega arith))
      (sym (region_bits control i) ∙ ground arith)

region_not-IsFree :
    (control i : ℕ) → (bit_and control (3 * 2 ^ (i * 2)) == 0) ≡ false → ¬ IsFree control i
region_not-IsFree control i e free =
    let zeros : bit_and control (3 * 2 ^ (i * 2)) ≡ 0 =
      region_bits control i ∙ ap (λ (d : ℕ). d * 2 ^ (i * 2)) free ∙ omega arith in
    ground arith

free_region_loop-first :
    (rounds start control i : ℕ)
    → free_region_loop rounds start control ≡ ok i
    → (start ≤ i)
      × (i < start + rounds)
      × IsFree control i
      × ((j : ℕ) → start ≤ j → j < i → ¬ IsFree control j)
unfolding free_region_loop
free_region_loop-first zero start control i e = absurd (fail-ne-ok e)
free_region_loop-first (suc rounds) start control i e =
    elim (Bool-cases (bit_and control (3 * 2 ^ (start * 2)) == 0)) [
      | inl free ↦
          let found : start ≡ i = ok-injective (rw free at e) in
          rw (← found) (
            omega arith,
            omega arith,
            region-IsFree control start free,
            λ j lo hi. absurd (omega arith),
          )
      | inr taken ↦
          let (lo, hi, free, none_before) =
            free_region_loop-first rounds (start + 1) control i (rw taken at e) in
          (
            omega arith,
            omega arith,
            free,
            λ j from below is_free. elim (Bool-cases (start == j)) [
              | inl same ↦
                  region_not-IsFree control start taken
                    (subst (IsFree control) {x = j} (ground arith) is_free)
              | inr other ↦ none_before j (ground arith) below is_free
            ],
          )
    ]

pub find_free_stoppoint_region-found :
    (control i : ℕ)
    → find_free_stoppoint_region control ≡ ok i
    → (i < 4) × IsFree control i × ((j : ℕ) → j < i → ¬ IsFree control j)
unfolding find_free_stoppoint_region
find_free_stoppoint_region-found control i e =
    let (lo, hi, free, none_before) = free_region_loop-first 4 0 control i e in
    (omega arith, free, λ j below. none_before j (omega arith) below)

-- A loop in which some register is free finds one.
free_region_loop-finds :
    (rounds start control j : ℕ)
    → start ≤ j
    → j < start + rounds
    → IsFree control j
    → (i : ℕ) × (free_region_loop rounds start control ≡ ok i)
unfolding free_region_loop
free_region_loop-finds zero start control j from below is_free = absurd (omega arith)
free_region_loop-finds (suc rounds) start control j from below is_free =
    elim (Bool-cases (bit_and control (3 * 2 ^ (start * 2)) == 0)) [
      | inl free ↦ (start, rw free refl)
      | inr taken ↦ elim (Bool-cases (start == j)) [
        | inl same ↦ absurd (
            region_not-IsFree control start taken
              (subst (IsFree control) {x = j} (ground arith) is_free))
        | inr other ↦
            let (i, found) =
              free_region_loop-finds rounds (start + 1) control j (ground arith) (omega arith)
                is_free in
            (i, rw taken found)
      ]
    ]

free_region_loop-refuses :
    (rounds start control : ℕ)
    → ((j : ℕ) → start ≤ j → j < start + rounds → ¬ IsFree control j)
    → free_region_loop rounds start control ≡ fail (sent "No remaining hardware debug registers")
unfolding free_region_loop
free_region_loop-refuses zero start control taken = refl
free_region_loop-refuses (suc rounds) start control taken =
    elim (Bool-cases (bit_and control (3 * 2 ^ (start * 2)) == 0)) [
      | inl free ↦
          absurd (taken start (omega arith) (omega arith) (region-IsFree control start free))
      | inr other ↦ rw other (
          free_region_loop-refuses rounds (start + 1) control
            (λ j from below. taken j (omega arith) (omega arith)))
    ]

-- Where one of the four debug registers has neither of its enable bits set, `find_free_stoppoint_region`
-- returns the first such register; where none has, it refuses.
pub find_free_stoppoint_region-first :
    (control : ℕ)
    → ((j : ℕ)
        → j < 4
        → IsFree control j
        → (i : ℕ) × (find_free_stoppoint_region control ≡ ok i)
          × (i ≤ j)
          × IsFree control i
          × ((k : ℕ) → k < i → ¬ IsFree control k))
      × (((j : ℕ) → j < 4 → ¬ IsFree control j)
          → find_free_stoppoint_region control
            ≡ fail (sent "No remaining hardware debug registers"))
unfolding find_free_stoppoint_region
find_free_stoppoint_region-first control = (
  (λ j below is_free.
      let (i, found) = free_region_loop-finds 4 0 control j (omega arith) (omega arith) is_free in
      let (few, free, none_before) = find_free_stoppoint_region-found control i found in
      (
        i,
        found,
        elim (Bool-cases (leb i j)) [
          | inl at_most ↦ ground arith
          | inr above ↦ absurd (none_before j (ground arith) is_free)
        ],
        free,
        none_before,
      )),
  (λ taken. free_region_loop-refuses 4 0 control (λ j from below. taken j (omega arith))),
)
