-- ===== src/Dwarf/Form/Skip.antt =====
-- `skip_form` against the encodings of the forms.
use kdebugger.Common.{
  ℕ, zero, suc, ◌+◌, ◌≤◌, ◌<◌, ◌≡◌, ◌≢◌, refl, sym, ap, ◌∙◌, List, [], ◌∷◌, ◌++◌, length,
  length-append, drop-append, All, arith, Outcome, ok, ◌>>=◌,
}
use kdebugger.Dwarf.Cursor.{Cursor, advance, fixed_int, uleb128}
use kdebugger.Dwarf.Cursor.Fixed.{little_endian, one_byte, fixed_bytes-append}
use kdebugger.Dwarf.Cursor.Leb.{
  IsLeb, leb_bytes, leb_value, length-leb_bytes, past_leb, uleb128-leb_bytes, sleb128-leb_bytes,
}
use kdebugger.Dwarf.Form.{
  Form, data1, ref1, flag, data2, ref2, data4, ref4, ref_addr, sec_offset, strp, sdata, udata,
  ref_udata, block1, block2, block4, block, exprloc, text, indirect, addr, data8, ref8,
  unrecognized, skip_text, skip_direct, skip_loop, skip_form,
}
use mathlib.Core.List.{append_assoc}

-- The size of a form that has one size.
abbrev pub fixed_size : Form → ℕ
fixed_size data1 = 1
fixed_size ref1 = 1
fixed_size flag = 1
fixed_size data2 = 2
fixed_size ref2 = 2
fixed_size data4 = 4
fixed_size ref4 = 4
fixed_size ref_addr = 4
fixed_size sec_offset = 4
fixed_size strp = 4
fixed_size _ = 0

-- The bytes that are a value of a form.
pub data IsValue (form_of : ℕ → Form) : Form → List ℕ → Type 0 where
  fixed :
      (form : Form) (bs : List ℕ)
      → 1 ≤ fixed_size form
      → length bs ≡ fixed_size form
      → IsValue form_of form bs
  number : (gs : List ℕ) (last : ℕ) → IsLeb gs last → IsValue form_of udata (leb_bytes gs last)
  reference :
      (gs : List ℕ) (last : ℕ) → IsLeb gs last → IsValue form_of ref_udata (leb_bytes gs last)
  signed : (gs : List ℕ) (last : ℕ) → IsLeb gs last → IsValue form_of sdata (leb_bytes gs last)
  short_block : (bs : List ℕ) → length bs < 256 → IsValue form_of block1 (length bs ∷ bs)
  two_byte_block :
      (size bs : List ℕ)
      → length size ≡ 2
      → little_endian size ≡ length bs
      → IsValue form_of block2 (size ++ bs)
  four_byte_block :
      (size bs : List ℕ)
      → length size ≡ 4
      → little_endian size ≡ length bs
      → IsValue form_of block4 (size ++ bs)
  sized_block :
      (gs : List ℕ) (last : ℕ) (bs : List ℕ)
      → IsLeb gs last
      → leb_value gs last ≡ length bs
      → IsValue form_of block (leb_bytes gs last ++ bs)
  expression :
      (gs : List ℕ) (last : ℕ) (bs : List ℕ)
      → IsLeb gs last
      → leb_value gs last ≡ length bs
      → IsValue form_of exprloc (leb_bytes gs last ++ bs)
  string : (bs : List ℕ) → All (λ b. b ≢ 0) bs → IsValue form_of text (bs ++ (0 ∷ []))
  other :
      (gs : List ℕ) (last : ℕ) (bs : List ℕ)
      → IsLeb gs last
      → IsValue form_of (form_of (leb_value gs last)) bs
      → IsValue form_of indirect (leb_bytes gs last ++ bs)

abbrev pub over : List ℕ → List ℕ → ℕ → ℕ → Cursor
over bs rest pos end = record { bytes = bs ++ rest; pos = pos; end = end }

skip_text-append :
    (bs rest : List ℕ) (pos end : ℕ)
    → All (λ b. b ≢ 0) bs
    → pos + length bs < end
    → skip_text ((bs ++ (0 ∷ [])) ++ rest) pos end ≡ ok (rest, pos + length bs + 1)
unfolding skip_text
skip_text-append [] rest pos end h fits = ground arith
skip_text-append (b ∷ bs) rest pos end (hb, h) fits =
    ground (arith, skip_text-append bs rest (pos + 1) end h (omega arith), hb)

fixed_skip :
    (form_of : ℕ → Form) (fuel : ℕ) (form : Form) (c : Cursor)
    → 1 ≤ fixed_size form
    → skip_loop form_of (suc fuel) form c ≡ ok (advance (fixed_size form) c)
unfolding skip_loop
fixed_skip form_of fuel data1 c h = refl
fixed_skip form_of fuel ref1 c h = refl
fixed_skip form_of fuel flag c h = refl
fixed_skip form_of fuel data2 c h = refl
fixed_skip form_of fuel ref2 c h = refl
fixed_skip form_of fuel data4 c h = refl
fixed_skip form_of fuel ref4 c h = refl
fixed_skip form_of fuel ref_addr c h = refl
fixed_skip form_of fuel sec_offset c h = refl
fixed_skip form_of fuel strp c h = refl
fixed_skip form_of fuel sdata c h = absurd (omega arith)
fixed_skip form_of fuel udata c h = absurd (omega arith)
fixed_skip form_of fuel ref_udata c h = absurd (omega arith)
fixed_skip form_of fuel block1 c h = absurd (omega arith)
fixed_skip form_of fuel block2 c h = absurd (omega arith)
fixed_skip form_of fuel block4 c h = absurd (omega arith)
fixed_skip form_of fuel block c h = absurd (omega arith)
fixed_skip form_of fuel exprloc c h = absurd (omega arith)
fixed_skip form_of fuel text c h = absurd (omega arith)
fixed_skip form_of fuel indirect c h = absurd (omega arith)
fixed_skip form_of fuel addr c h = absurd (omega arith)
fixed_skip form_of fuel data8 c h = absurd (omega arith)
fixed_skip form_of fuel ref8 c h = absurd (omega arith)
fixed_skip form_of fuel unrecognized c h = absurd (omega arith)

-- What `skip_form` does with a reader's result.
abbrev behind_of : Outcome (ℕ × Cursor) → Outcome Cursor
behind_of m = m >>= λ r. ok r.1

abbrev payload_of : Outcome (ℕ × Cursor) → Outcome Cursor
payload_of m = m >>= λ r. ok (advance r.0 r.1)

-- The cursor behind a value.
abbrev pub behind : List ℕ → List ℕ → ℕ → ℕ → Cursor
behind bs rest pos end = record { bytes = rest; pos = pos + length bs; end = end }

advance-over :
    (bs rest : List ℕ) (pos end : ℕ)
    → advance (length bs) (over bs rest pos end) ≡ behind bs rest pos end
unfolding advance
advance-over bs rest pos end =
    ap (λ (r : List ℕ). record { bytes = r; pos = pos + length bs; end = end })
      (drop-append bs rest)

-- A LEB128 number in front of other bytes.
leb_over :
    (gs : List ℕ) (last : ℕ) (bs rest : List ℕ) (pos end : ℕ)
    → IsLeb gs last
    → uleb128 (over (leb_bytes gs last ++ bs) rest pos end)
      ≡ ok (leb_value gs last, over bs rest (pos + length (leb_bytes gs last)) end)
leb_over gs last bs rest pos end h =
    let joined : (leb_bytes gs last ++ bs) ++ rest ≡ leb_bytes gs last ++ (bs ++ rest) =
      append_assoc (leb_bytes gs last) bs rest in
    let moved : pos + length gs + 1 ≡ pos + length (leb_bytes gs last) =
      omega (arith, length-leb_bytes gs last) in
    ap (λ (r : List ℕ). uleb128 (record { bytes = r; pos = pos; end = end })) joined
    ∙ uleb128-leb_bytes gs last (bs ++ rest) pos end h
    ∙ ap (λ (n : ℕ). ok (leb_value gs last, record { bytes = bs ++ rest; pos = n; end = end }))
        moved

leb_alone :
    (gs : List ℕ) (last : ℕ) (rest : List ℕ) (pos end : ℕ)
    → past_leb gs rest pos end ≡ behind (leb_bytes gs last) rest pos end
leb_alone gs last rest pos end =
    ap (λ (n : ℕ). record { bytes = rest; pos = n; end = end })
      {y = pos + length (leb_bytes gs last)} (omega (arith, length-leb_bytes gs last))

-- A number, and as many bytes as it says.
leb_payload :
    (gs : List ℕ) (last : ℕ) (bs rest : List ℕ) (pos end : ℕ)
    → IsLeb gs last
    → leb_value gs last ≡ length bs
    → payload_of (uleb128 (over (leb_bytes gs last ++ bs) rest pos end))
      ≡ ok (behind (leb_bytes gs last ++ bs) rest pos end)
leb_payload gs last bs rest pos end h size =
    ap payload_of (leb_over gs last bs rest pos end h)
    ∙ ap (λ (n : ℕ). ok (advance n (over bs rest (pos + length (leb_bytes gs last)) end))) size
    ∙ ap ok (advance-over bs rest (pos + length (leb_bytes gs last)) end)
    ∙ ap (λ (n : ℕ). ok (record { bytes = rest; pos = n; end = end }))
        {y = pos + length (leb_bytes gs last ++ bs)}
        (omega (arith, length-append (leb_bytes gs last) bs))

-- A length in a fixed number of bytes, and as many bytes as it says.
size_payload :
    (n : ℕ) (size bs rest : List ℕ) (pos end : ℕ)
    → length size ≡ n
    → little_endian size ≡ length bs
    → payload_of (fixed_int n (over (size ++ bs) rest pos end))
      ≡ ok (behind (size ++ bs) rest pos end)
unfolding fixed_int
size_payload n size bs rest pos end is_size says =
    ap (λ (r : List ℕ). payload_of (fixed_int n (record { bytes = r; pos = pos; end = end })))
      (append_assoc size bs rest)
    ∙ ap
        (λ (k : ℕ).
          payload_of (fixed_int k (record { bytes = size ++ (bs ++ rest); pos = pos; end = end })))
        (sym is_size)
    ∙ ap
        (λ (m : Outcome (ℕ × List ℕ)).
          payload_of
            (m >>= λ r. ok (r.0, record { bytes = r.1; pos = pos + length size; end = end })))
        (fixed_bytes-append size (bs ++ rest))
    ∙ ap (λ (k : ℕ). ok (advance k (over bs rest (pos + length size) end))) says
    ∙ ap ok (advance-over bs rest (pos + length size) end)
    ∙ ap (λ (k : ℕ). ok (record { bytes = rest; pos = k; end = end }))
        {y = pos + length (size ++ bs)} (omega (arith, length-append size bs))

skip_loop-value :
    (form_of : ℕ → Form) (fuel : ℕ) (form : Form) (bs rest : List ℕ) (pos end : ℕ)
    → IsValue form_of form bs
    → length bs < fuel
    → pos + length bs ≤ end
    → skip_loop form_of fuel form (over bs rest pos end) ≡ ok (behind bs rest pos end)
unfolding skip_loop skip_direct
skip_loop-value form_of zero form bs rest pos end v room inside = absurd (omega arith)
skip_loop-value form_of (suc fuel) form bs rest pos end (fixed _ _ positive size) room inside =
    fixed_skip form_of fuel form (over bs rest pos end) positive
    ∙ ap (λ (n : ℕ). ok (advance n (over bs rest pos end))) (sym size)
    ∙ ap ok (advance-over bs rest pos end)
skip_loop-value form_of (suc fuel) form bs rest pos end (number gs last h) room inside =
    ap behind_of (uleb128-leb_bytes gs last rest pos end h) ∙ ap ok (leb_alone gs last rest pos end)
skip_loop-value form_of (suc fuel) form bs rest pos end (reference gs last h) room inside =
    ap behind_of (uleb128-leb_bytes gs last rest pos end h) ∙ ap ok (leb_alone gs last rest pos end)
skip_loop-value form_of (suc fuel) form bs rest pos end (signed gs last h) room inside =
    ap behind_of (sleb128-leb_bytes gs last rest pos end h) ∙ ap ok (leb_alone gs last rest pos end)
skip_loop-value form_of (suc fuel) form _ rest pos end (short_block bs h) room inside =
    ap payload_of (one_byte (length bs) (bs ++ rest) pos end)
    ∙ ap ok (advance-over bs rest (pos + 1) end)
    ∙ ap (λ (n : ℕ). ok (record { bytes = rest; pos = n; end = end })) {y = pos + suc (length bs)}
        (omega arith)
skip_loop-value form_of (suc fuel) form _ rest pos end (two_byte_block size bs n says) room inside =
    size_payload 2 size bs rest pos end n says
skip_loop-value form_of (suc fuel) form _ rest pos end (four_byte_block size bs n says) room
      inside =
    size_payload 4 size bs rest pos end n says
skip_loop-value form_of (suc fuel) form _ rest pos end (sized_block gs last bs h size) room inside =
    leb_payload gs last bs rest pos end h size
skip_loop-value form_of (suc fuel) form _ rest pos end (expression gs last bs h size) room inside =
    leb_payload gs last bs rest pos end h size
skip_loop-value form_of (suc fuel) form _ rest pos end (string bs h) room inside =
    let len : length (bs ++ (0 ∷ [])) ≡ length bs + 1 = length-append bs (0 ∷ []) in
    ap (λ (m : Outcome (List ℕ × ℕ)). m >>= λ r. ok (record { bytes = r.0; pos = r.1; end = end }))
      (skip_text-append bs rest pos end h (omega arith))
    ∙ ap (λ (n : ℕ). ok (record { bytes = rest; pos = n; end = end }))
        {y = pos + length (bs ++ (0 ∷ []))} (omega arith)
skip_loop-value form_of (suc fuel) form _ rest pos end (other gs last bs h v) room inside =
    let len : length (leb_bytes gs last ++ bs) ≡ length (leb_bytes gs last) + length bs =
      length-append (leb_bytes gs last) bs in
    ap (λ (m : Outcome (ℕ × Cursor)). m >>= λ r. skip_loop form_of fuel (form_of r.0) r.1)
      (leb_over gs last bs rest pos end h)
    ∙ skip_loop-value form_of fuel (form_of (leb_value gs last)) bs rest
        (pos + length (leb_bytes gs last)) end v (omega (arith, length-leb_bytes gs last))
        (omega arith)
    ∙ ap (λ (n : ℕ). ok (record { bytes = rest; pos = n; end = end }))
        {y = pos + length (leb_bytes gs last ++ bs)} (omega arith)

-- On a value of any form that `skip_form` knows, where the value ends inside the data and its LEB128
-- numbers fit 64 bits in at most ten bytes, it moves the cursor just behind the value, whatever
-- follows: one of a fixed size, a number, a block behind its length, a string behind which its zero
-- stands, or a value of an indirect form behind the form's number.
pub skip_form-value :
    (form_of : ℕ → Form) (form : ℕ) (bs rest : List ℕ) (pos end : ℕ)
    → IsValue form_of (form_of form) bs
    → pos + length bs ≤ end
    → skip_form form_of form (over bs rest pos end) ≡ ok (behind bs rest pos end)
unfolding skip_form
skip_form-value form_of form bs rest pos end v inside =
    skip_loop-value form_of (length (bs ++ rest) + 1) (form_of form) bs rest pos end v
      (omega (arith, length-append bs rest)) inside
