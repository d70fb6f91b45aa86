-- ===== src/Process/Watch/Laws.antt =====
-- Creating watchpoints, and switching them off.
use kdebugger.Common.{
  ℕ, zero, suc, ◌+◌, ◌%◌, ◌^◌, ◌≤◌, ◌≡◌, refl, sym, ap, subst, ◌∙◌, bit_and, true, false, List, [],
  ◌∷◌, ◌++◌, some, ◌==◌, ltb, get_elem?, set, arith, Bool-cases, inl, inr, Outcome, ok, or_fail,
  or_fail-ok, >>=-eq-ok, ok-injective, fail-ne-ok,
}
use kdebugger.Stoppoints.{contains_address}
use kdebugger.Common.Word.{sub64}
use kdebugger.Process.Tracee.{Tracee, word_at}
use kdebugger.Process.State.{Watchpoint, Process, watchpoint_stoppoint, StoppointMode}
use kdebugger.Process.Hardware.{set_watchpoint}
use kdebugger.Process.Hardware.Keeps.{set_watchpoint-Keeps}
use kdebugger.Process.Memory.{read_memory, word_of}
use kdebugger.Process.Memory.Write.{FullReads, read_memory-ok, word_of-bytes_at}
use kdebugger.Process.Watch.{
  fresh_watchpoint, update_data, new_watchpoint, create_watchpoint, enable_watchpoint,
  disable_watchpoint,
}

-- What a new watchpoint is.
pub record IsNew (t : Tracee) (p : Process t) (address : ℕ) (mode : StoppointMode) (size : ℕ)
    (point : Watchpoint) : Type 0 where
  pub at : point.address ≡ address
  pub off : point.is_enabled ≡ false
  pub short : size ≤ 8
  pub aligned : bit_and address (sub64 size 1) ≡ 0
  pub holds : point.value ≡ word_at (t.byte p.tracee) address size

zero_of_test : (n : ℕ) → (n == 0) ≡ true → n ≡ 0
zero_of_test n e = ground arith

point_of_ok :
    {a b : Watchpoint} {m n : ℕ}
    → ◌≡◌ {A = Outcome (Watchpoint × ℕ)} (ok (a, m)) (ok (b, n))
    → a ≡ b
point_of_ok e = cc

get_elem?-set :
    (points : List Watchpoint) (i : ℕ) (point next : Watchpoint)
    → get_elem? points i ≡ some point
    → get_elem? (set points i next) i ≡ some next
get_elem?-set [] i point next e = cc
get_elem?-set (x ∷ points) zero point next e = refl
get_elem?-set (x ∷ points) (suc i) point next e = get_elem?-set points i point next e

module _ (t : Tracee) (full : FullReads t) where
  update_data-ok :
      (p : Process t) (point point' : Watchpoint)
      → update_data t p point ≡ ok point'
      → (point' ≡ record point {
        value = word_at (t.byte p.tracee) point.address point.size;
        previous_value = point.value;
      })
        × (point.size ≤ 8)
  unfolding update_data
  update_data-ok p point point' e =
      let (read, got, e₁) = >>=-eq-ok (read_memory t p point.address point.size) _ e in
      elim (Bool-cases (ltb 8 point.size)) [
        | inl long ↦ absurd (fail-ne-ok (rw long at e₁))
        | inr short ↦ (
          sym (ok-injective (rw short at e₁))
              ∙ ap (λ (v : ℕ). record point { value = v; previous_value = point.value })
                  (ap word_of (read_memory-ok t full p point.address point.size read got)
                    ∙ word_of-bytes_at (t.byte p.tracee) point.address point.size),
          ground arith,
        )
      ]

  new_watchpoint-IsNew :
      (p : Process t) (address size id : ℕ) (mode : StoppointMode) (point : Watchpoint)
      → new_watchpoint t p address mode size ≡ ok (point, id)
      → IsNew t p address mode size point
  unfolding new_watchpoint
  new_watchpoint-IsNew p address size id mode point e =
      elim (Bool-cases (bit_and address (sub64 size 1) == 0)) [
        | inr wrong ↦ absurd (fail-ne-ok (rw wrong at e))
        | inl even ↦
            let fresh = fresh_watchpoint address ((p.next_watchpoint_id + 1) % 2 ^ 32) mode size in
            let (got, updated, e₁) = >>=-eq-ok (update_data t p fresh) _ (rw even at e) in
            let same : got ≡ point = point_of_ok e₁ in
            let (is, short) = update_data-ok p fresh got updated in
            subst (IsNew t p address mode size) (sym is ∙ same) (record {
              at = refl;
              off = refl;
              short = short;
              aligned = zero_of_test _ even;
              holds = refl;
            })
      ]

  -- Where reads are complete, a `create_watchpoint` that succeeds found no watchpoint at the address
  -- and appends one to the others, disabled, of at most eight bytes, with an address that has none
  -- of the bits of its size less one, and with the tracee's bytes there as its value.
  pub create_watchpoint-IsNew :
      (p p' : Process t) (address size : ℕ) (mode : StoppointMode)
      → create_watchpoint t p address mode size ≡ ok p'
      → (point : Watchpoint) × (contains_address watchpoint_stoppoint p.watchpoints address ≡ false)
        × (p'.watchpoints ≡ p.watchpoints ++ (point ∷ []))
        × IsNew t p address mode size point
  unfolding create_watchpoint
  create_watchpoint-IsNew p p' address size mode e =
      elim (Bool-cases (contains_address watchpoint_stoppoint p.watchpoints address)) [
        | inl taken ↦ absurd (fail-ne-ok (rw taken at e))
        | inr free ↦
            let ((point, id), made, e₁) =
              >>=-eq-ok (new_watchpoint t p address mode size) _ (rw free at e) in
            (
              point,
              free,
              ap (λ (r : Process t). r.watchpoints) (sym (ok-injective e₁)),
              new_watchpoint-IsNew p address size id mode point made,
            )
      ]

enabled_point :
    (t : Tracee) (i : ℕ) (p : Process t) (point : Watchpoint)
    → get_elem? p.watchpoints i ≡ some point
    → point.is_enabled ≡ true
    → disable_watchpoint t i p ≡ ok p
unfolding disable_watchpoint
enabled_point t i p point e on = rw (e, on)

-- While a watchpoint is enabled `disable` changes nothing: what `enable` set in the debug registers
-- and in the watchpoint stays.
pub disable_watchpoint-enable_watchpoint :
    (t : Tracee) (i : ℕ) (p p' : Process t)
    → enable_watchpoint t i p ≡ ok p'
    → disable_watchpoint t i p' ≡ ok p'
unfolding enable_watchpoint
disable_watchpoint-enable_watchpoint t i p p' e =
    let (point, got, e₁) = >>=-eq-ok (or_fail (get_elem? p.watchpoints i)) _ e in
    let found : get_elem? p.watchpoints i ≡ some point = or_fail-ok _ got in
    elim (Bool-cases point.is_enabled) [
      | inl on ↦
          subst (λ (r : Process t). disable_watchpoint t i r ≡ ok r) (ok-injective (rw on at e₁))
            (enabled_point t i p point found on)
      | inr off ↦
          let ((q, index), done, e₂) =
            >>=-eq-ok (set_watchpoint t p point.id point.address point.mode point.size) _
              (rw off at e₁) in
          let kept =
            set_watchpoint-Keeps t p q point.id point.address point.mode point.size index done in
          subst (λ (r : Process t). disable_watchpoint t i r ≡ ok r) (ok-injective e₂)
            (enabled_point t i _ _
              (get_elem?-set q.watchpoints i point _ (
                subst (λ (l : List Watchpoint). get_elem? l i ≡ some point) (sym kept.points)
                  found))
              refl)
    ]
