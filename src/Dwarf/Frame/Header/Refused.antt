-- ===== src/Dwarf/Frame/Header/Refused.antt =====
-- The binary search of `eh_hdr::operator []` for an address that no row reaches.
use kdebugger.Common.{
  ℕ, zero, suc, ◌+◌, ◌-◌, ◌/◌, ◌^◌, ◌≤◌, ◌<◌, ◌≡◌, ◌≢◌, inl, inr, refl, true, false, ◌==◌, leb, ltb,
  Bool-cases, ◌>>=◌, Outcome, ok, fail, sent, arith,
}
use kdebugger.Common.Word.{sub64}
use kdebugger.Dwarf.Frame.Header.{search_loop}
use kdebugger.Dwarf.Frame.Header.Search.{IsSorted, middle, mid, minus_one, round_down}

module _ (row : ℕ → Outcome ℕ) (at : ℕ → ℕ) (count : ℕ) where
  round_refused :
      (address fuel low high a : ℕ)
      → leb low high ≡ true
      → row (mid row at count address fuel low high a) ≡ ok a
      → ltb a address ≡ false
      → ltb address a ≡ true
      → (mid row at count address fuel low high a == 0) ≡ true
      → search_loop row address (suc fuel) low high ≡ fail (sent "Address not found in eh_hdr")
  unfolding search_loop
  round_refused address fuel low high a going got up down none_below =
      rw (search_loop, going, got, ◌>>=◌, up, down, none_below) refl

  above_first : {address : ℕ} (m : ℕ) → (m ≢ 0 → at 0 < at m) → address < at 0 → address < at m
  above_first zero up first = first
  above_first (suc m) up first = omega (arith, up (λ e. omega arith))

  refused_step :
      (address fuel high : ℕ)
      → IsSorted row at count
      → count ≤ 2 ^ 63
      → address < at 0
      → high < count
      → high < fuel
      → search_loop row address fuel 0 high ≡ fail (sent "Address not found in eh_hdr")
  refused_step address zero high s small first inside enough = absurd (omega arith)
  refused_step address (suc fuel) high s small first inside enough =
      let m = mid row at count address fuel 0 high 0 in
      let half : m ≡ (0 + high) / 2 = middle row at count 0 high (omega arith) (omega arith) in
      let got : row m ≡ ok (at m) = s.rows m (omega arith) in
      let lt : address < at m =
        above_first m (λ e. s.ascending 0 m (omega (arith, e)) (omega arith)) first in
      elim (Bool-cases (m == 0)) [
        | inl none_below ↦
            round_refused address fuel 0 high (at m) (ground arith) got (ground arith)
              (ground arith) none_below
        | inr more ↦
            let one : m ≢ 0 = ground arith in
            rw
              (
                round_down row at count address fuel 0 high (at m) (ground arith) got (ground arith)
                    (ground arith) more,
                minus_one row at count m one (omega arith),
              )
              (refused_step address fuel (m - 1) s small first (omega arith) (omega arith))
      ]

  -- On such a table, the search for an address below the first row is refused with the message that the
  -- address is not found.
  pub search_loop-refused :
      (address : ℕ)
      → IsSorted row at count
      → 1 ≤ count
      → count ≤ 2 ^ 63
      → address < at 0
      → search_loop row address (count + 1) 0 (sub64 count 1)
        ≡ fail (sent "Address not found in eh_hdr")
  search_loop-refused address s some_row small first =
      rw (minus_one row at count count (λ e. omega arith) small)
        (refused_step address (count + 1) (count - 1) s small first (omega arith) (omega arith))
