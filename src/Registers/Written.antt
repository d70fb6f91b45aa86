-- ===== src/Registers/Written.antt =====
-- What a write to a register leaves in all of them.
use kdebugger.Common.{
  ℕ, zero, suc, ◌+◌, ◌-◌, ◌≤◌, ◌≡◌, refl, sym, ap, ◌∙◌, subst, Bool, true, false, Bool-cases, List,
  [], ◌∷◌, ◌++◌, if◌then◌else◌, leb, length, drop, drop-append, drop-add, ◌⊎◌, inl, inr, ok, ◌>>=◌,
  >>=-eq-ok, ok-injective, fail-ne-ok, arith,
}
use kdebugger.Process.Memory.{take}
use kdebugger.Registers.{
  RegisterInfo, ValueType, unsigned, signed, float_type, double_type, long_double_type, byte64,
  byte128, to_byte128, Value, Registers, UserArea, is_undefined, type_of, read, zeros, widen,
  splice, push_out, write,
}

take-append : (xs ys : List ℕ) → take (length xs) (xs ++ ys) ≡ xs
take-append [] ys = refl
take-append (x ∷ xs) ys = ap (λ rest. x ∷ rest) (take-append xs ys)

length-take : (n : ℕ) (xs : List ℕ) → n ≤ length xs → length (take n xs) ≡ n
length-take zero xs h = refl
length-take (suc n) [] h = absurd (let short : ⊥ = omega arith in short)
length-take (suc n) (x ∷ xs) h = ap suc (length-take n xs (omega arith))

take-take : (n o : ℕ) (xs x : List ℕ) → n ≤ o → o ≤ length xs → take n (take o xs ++ x) ≡ take n xs
take-take zero o xs x h fits = refl
take-take (suc n) zero xs x h fits = absurd (let short : ⊥ = omega arith in short)
take-take (suc n) (suc o) [] x h fits = absurd (let short : ⊥ = omega arith in short)
take-take (suc n) (suc o) (y ∷ xs) x h fits =
    ap (λ rest. y ∷ rest) (take-take n o xs x (omega arith) (omega arith))

before_splice :
    (place size o : ℕ) (xs x : List ℕ)
    → place + size ≤ o
    → o ≤ length xs
    → take size (drop place (take o xs ++ x)) ≡ take size (drop place xs)
before_splice zero size o xs x h fits = take-take size o xs x (omega arith) fits
before_splice (suc place) size zero xs x h fits = absurd (let short : ⊥ = omega arith in short)
before_splice (suc place) size (suc o) [] x h fits = absurd (let short : ⊥ = omega arith in short)
before_splice (suc place) size (suc o) (y ∷ xs) x h fits =
    before_splice place size o xs x (omega arith) (omega arith)

drop_taken : (o : ℕ) (xs x : List ℕ) → o ≤ length xs → drop o (take o xs ++ x) ≡ x
drop_taken o xs x fits =
    ap (λ (k : ℕ). drop k (take o xs ++ x)) (sym (length-take o xs fits))
    ∙ drop-append (take o xs) x

splice-here :
    (o : ℕ) (new xs : List ℕ)
    → o + length new ≤ length xs
    → take (length new) (drop o (splice o new xs)) ≡ new
unfolding splice
splice-here o new xs fits =
    ap (take (length new)) (drop_taken o xs (new ++ drop (o + length new) xs) (omega arith))
    ∙ take-append new (drop (o + length new) xs)

splice-behind :
    (o : ℕ) (new xs : List ℕ)
    → o + length new ≤ length xs
    → drop (o + length new) (splice o new xs) ≡ drop (o + length new) xs
unfolding splice
splice-behind o new xs fits =
    drop-add o (length new) (splice o new xs)
    ∙ ap (drop (length new)) (drop_taken o xs (new ++ drop (o + length new) xs) (omega arith))
    ∙ drop-append new (drop (o + length new) xs)

-- Bytes that lie before or behind those that were written.
splice-apart :
    (o place size : ℕ) (new xs : List ℕ)
    → o + length new ≤ length xs
    → (place + size ≤ o) ⊎ (o + length new ≤ place)
    → take size (drop place (splice o new xs)) ≡ take size (drop place xs)
unfolding splice
splice-apart o place size new xs fits (inl below) =
    before_splice place size o xs (new ++ drop (o + length new) xs) below (omega arith)
splice-apart o place size new xs fits (inr above) =
    let more : ℕ = place - (o + length new) in
    let split : place ≡ o + length new + more = omega arith in
    let same : drop place (splice o new xs) ≡ drop place xs =
      ap (λ (k : ℕ). drop k (splice o new xs)) split
      ∙ drop-add (o + length new) more (splice o new xs)
      ∙ ap (drop more) (splice-behind o new xs fits)
      ∙ sym (drop-add (o + length new) more xs)
      ∙ sym (ap (λ (k : ℕ). drop k xs) split) in
    ap (take size) same

-- The types whose values `widen` leaves as they are, for a register of any format.
abbrev pub is_plain : ValueType → Bool
is_plain (unsigned size) = true
is_plain byte64 = true
is_plain byte128 = true
is_plain _ = false

module _ {S : Type 0} (u : UserArea S) where
  widen-plain :
      (info : RegisterInfo) (kind : ValueType) (bytes : List ℕ)
      → is_plain kind ≡ true
      → widen u info (record { kind = kind; bytes = bytes }) ≡ to_byte128 bytes
  unfolding widen
  widen-plain info (unsigned size) bytes h = refl
  widen-plain info (signed size) bytes h = absurd cc
  widen-plain info float_type bytes h = absurd cc
  widen-plain info double_type bytes h = absurd cc
  widen-plain info long_double_type bytes h = absurd cc
  widen-plain info byte64 bytes h = refl
  widen-plain info byte128 bytes h = refl

  plain_bytes :
      (info : RegisterInfo) (v : Value)
      → is_plain v.kind ≡ true
      → take (length v.bytes) (widen u info v) ≡ v.bytes
  plain_bytes info v plain =
      ap (take (length v.bytes)) (widen-plain info v.kind v.bytes plain)
      ∙ take-append v.bytes (zeros (16 - length v.bytes))

  written :
      (info : RegisterInfo) (v : Value) (commit : Bool) (r r' : Registers) (s s' : S)
      → is_plain v.kind ≡ true
      → write u info v commit r s ≡ ok (r', s')
      → record r { user = splice info.offset v.bytes r.user } ≡ r'
  unfolding write
  written info v commit r r' s s' plain e = elim (Bool-cases (leb (length v.bytes) info.size)) [
    | inr large ↦ absurd (fail-ne-ok (rw large at e))
    | inl small ↦
        let new : Registers = record r {
          user = splice info.offset (take (length v.bytes) (widen u info v)) r.user;
        } in
        let (s₁, once, e₁) = >>=-eq-ok (push_out u info new s) _ (rw small at e) in
        let (s₂, twice, e₂) = >>=-eq-ok (if commit then push_out u info new s₁ else ok s₁) _ e₁ in
        ap (λ (b : List ℕ). record r { user = splice info.offset b r.user })
          (sym (plain_bytes info v plain))
        ∙ ap (λ q. q.0) (ok-injective e₂)
  ]

-- An unsigned number or a vector that is written to a register of its type, which is not undefined, is
-- read back, and a register that shares no byte with it reads as before.
pub write-read :
    {S : Type 0} (u : UserArea S) (info other : RegisterInfo) (kind : ValueType) (size : ℕ)
    (v : Value) (commit : Bool) (r r' : Registers) (s s' : S)
    → is_plain v.kind ≡ true
    → type_of info ≡ ok (v.kind, length v.bytes)
    → info.offset + length v.bytes ≤ length r.user
    → is_undefined info r ≡ false
    → type_of other ≡ ok (kind, size)
    → (other.offset + size ≤ info.offset) ⊎ (info.offset + length v.bytes ≤ other.offset)
    → write u info v commit r s ≡ ok (r', s')
    → (read info r' ≡ ok v) × (read other r' ≡ read other r)
unfolding read is_undefined
write-read u info other kind size v commit r r' s s' plain typed fits defined other_typed apart e =
    let new : record r { user = splice info.offset v.bytes r.user } ≡ r' =
      written u info v commit r r' s s' plain e in
    subst (λ (q : Registers). (read info q ≡ ok v) × (read other q ≡ read other r)) new
      (
        rw (defined, typed, ◌>>=◌, splice-here info.offset v.bytes r.user fits) refl,
        rw
            (
              other_typed,
              ◌>>=◌,
              splice-apart info.offset other.offset size v.bytes r.user fits apart,
            )
            refl,
      )
