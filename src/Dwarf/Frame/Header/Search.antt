-- ===== src/Dwarf/Frame/Header/Search.antt =====
-- The binary search of `eh_hdr::operator []` over a sorted table.
use kdebugger.Common.{
  ℕ, zero, suc, ◌+◌, ◌-◌, ◌/◌, ◌%◌, ◌^◌, ◌≤◌, ◌<◌, ◌≡◌, ◌≢◌, inl, inr, refl, true, false, ◌==◌, leb,
  ltb, Bool-cases, leb→le, ltb→lt, ==_ne, Outcome, ok, ◌>>=◌, arith,
}
use kdebugger.Common.Word.{u64_mod, sub64}
use kdebugger.Dwarf.Frame.Header.{search_loop}

module _ (row : ℕ → Outcome ℕ) (at : ℕ → ℕ) (count : ℕ) where
  -- The rows of a table hold addresses in ascending order.
  pub record IsSorted : Type 0 where
    pub rows : (i : ℕ) → i < count → row i ≡ ok (at i)
    pub ascending : (i j : ℕ) → i < j → j < count → at i < at j

  -- The row whose code covers the address: the last that starts at it or below.
  pub record IsLast (address high : ℕ) : Type 0 where
    pub inside : high < count
    pub reached : at high ≤ address
    pub beyond : (j : ℕ) → high < j → j < count → address < at j

  pub middle :
      (low high : ℕ) → low ≤ high → high < 2 ^ 63 → (low + high) % u64_mod / 2 ≡ (low + high) / 2
  middle low high h small = omega arith

  -- What the rows outside the window that is left say.
  pub record IsWindow (address low high : ℕ) : Type 0 where
    pub inside : high < count
    pub ordered : low ≤ high + 1
    pub below : (j : ℕ) → j < low → at j < address
    pub above : (j : ℕ) → high < j → j < count → address < at j

  upper_half :
      (address low high m : ℕ)
      → IsSorted
      → IsWindow address low high
      → low ≤ m
      → m ≤ high
      → at m < address
      → IsWindow address (m + 1) high
  upper_half address low high m s w lm mh lt = record {
    inside = w.inside;
    ordered = omega arith;
    below = λ j h. ground (arith, s.ascending j m, w.inside);
    above = w.above;
  }

  lower_half :
      (address low high m : ℕ)
      → IsSorted
      → IsWindow address low high
      → low ≤ m
      → m ≤ high
      → 1 ≤ m
      → address < at m
      → IsWindow address low (m - 1)
  lower_half address low high m s w lm mh one gt = record {
    inside = omega (arith, w.inside);
    ordered = omega arith;
    below = w.below;
    above = λ j h inside. ground (arith, s.ascending m j);
  }

  -- One round, by how the address of its row compares.
  module _ (address fuel low high a : ℕ) where
    abbrev pub mid : ℕ
    mid = (low + high) % u64_mod / 2

    round_ended : leb low high ≡ false → search_loop row address (suc fuel) low high ≡ ok high
    unfolding search_loop
    round_ended ended = rw (search_loop, ended) refl

    round_up :
        leb low high ≡ true
        → row mid ≡ ok a
        → ltb a address ≡ true
        → search_loop row address (suc fuel) low high ≡ search_loop row address fuel (mid + 1) high
    unfolding search_loop
    round_up going got up = rw (search_loop, going, got, ◌>>=◌, up) refl

    round_here :
        leb low high ≡ true
        → row mid ≡ ok a
        → ltb a address ≡ false
        → ltb address a ≡ false
        → search_loop row address (suc fuel) low high ≡ ok mid
    unfolding search_loop
    round_here going got up down = rw (search_loop, going, got, ◌>>=◌, up, down) refl

    pub round_down :
        leb low high ≡ true
        → row mid ≡ ok a
        → ltb a address ≡ false
        → ltb address a ≡ true
        → (mid == 0) ≡ false
        → search_loop row address (suc fuel) low high
          ≡ search_loop row address fuel low (sub64 mid 1)
    unfolding search_loop
    round_down going got up down positive =
        rw (search_loop, going, got, ◌>>=◌, up, down, positive) refl

  pub minus_one : (m : ℕ) → m ≢ 0 → m ≤ 2 ^ 63 → sub64 m 1 ≡ m - 1
  minus_one m one small = ground arith

  not_first : (address m : ℕ) → at 0 ≤ address → address < at m → m ≢ 0
  not_first address zero first lt e = omega arith
  not_first address (suc m) first lt e = omega arith

  here_IsLast :
      (address m : ℕ)
      → IsSorted
      → m < count
      → ltb (at m) address ≡ false
      → ltb address (at m) ≡ false
      → IsLast address m
  here_IsLast address m s inside not_up here = record {
    inside = inside;
    reached = ground arith;
    beyond = λ j h bound. ground (arith, s.ascending m j h bound);
  }

  ended_IsLast :
      (address low high : ℕ)
      → IsSorted
      → at 0 ≤ address
      → IsWindow address low high
      → leb low high ≡ false
      → IsLast address high
  ended_IsLast address low high s first w ended = record {
    inside = w.inside;
    reached = ground (arith, w.below high);
    beyond = w.above;
  }

  search_step :
      (address fuel low high : ℕ)
      → IsSorted
      → count ≤ 2 ^ 63
      → at 0 ≤ address
      → high + 2 ≤ fuel + low
      → IsWindow address low high
      → (last : ℕ) × (search_loop row address fuel low high ≡ ok last) × IsLast address last
  unfolding search_loop
  search_step address zero low high s small first enough w = absurd (omega (arith, w.ordered))
  search_step address (suc fuel) low high s small first enough w =
      elim (Bool-cases (leb low high)) [
        | inr ended ↦ (
          high,
          round_ended address fuel low high 0 ended,
          ended_IsLast address low high s first w ended,
        )
        | inl going ↦
            let le : low ≤ high = leb→le low high going in
            let m = mid address fuel low high 0 in
            let half : m ≡ (low + high) / 2 = middle low high le (omega (arith, w.inside)) in
            let got : row m ≡ ok (at m) = s.rows m (omega (arith, w.inside)) in
            elim (Bool-cases (ltb (at m) address)) [
              | inl up ↦ rw (round_up address fuel low high (at m) going got up) (
                  search_step address fuel (m + 1) high s small first (omega arith) (
                    upper_half address low high m s w (omega arith) (omega arith)
                      (ltb→lt (at m) address up)))
              | inr not_up ↦ elim (Bool-cases (ltb address (at m))) [
                | inr here ↦ (
                  m,
                  round_here address fuel low high (at m) going got not_up here,
                  here_IsLast address m s (omega (arith, w.inside)) not_up here,
                )
                | inl down ↦
                    let lt : address < at m = ltb→lt address (at m) down in
                    let one : m ≢ 0 = not_first address m first lt in
                    let less : sub64 m 1 ≡ m - 1 = minus_one m one (omega (arith, w.inside)) in
                    rw
                      (
                        round_down address fuel low high (at m) going got not_up down
                            (==_ne m 0 one),
                        less,
                      )
                      (search_step address fuel low (m - 1) s small first (omega arith) (
                        lower_half address low high m s w (omega arith) (omega arith)
                          (omega (arith, one)) lt))
              ]
            ]
      ]

  -- On a table of at least one row and at most 2^63, sorted by address, the search for an address that
  -- is not below the first row ends at the last row that starts at the address or below it, within one
  -- round more than there are rows.
  pub search_loop-IsLast :
      (address : ℕ)
      → IsSorted
      → 1 ≤ count
      → count ≤ 2 ^ 63
      → at 0 ≤ address
      → (last : ℕ) × (search_loop row address (count + 1) 0 (sub64 count 1) ≡ ok last)
        × IsLast address last
  search_loop-IsLast address s some_row small first =
      rw (minus_one count (λ e. omega arith) small) (
        search_step address (count + 1) 0 (count - 1) s small first (omega arith) (record {
          inside = omega arith;
          ordered = omega arith;
          below = λ j h. absurd (omega arith);
          above = λ j h inside. absurd (omega arith);
        }))
