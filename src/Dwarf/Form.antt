-- ===== src/Dwarf/Form.antt =====
-- `cursor::skip_form` of src/dwarf.cpp. The numbers of the forms are in a header that is not in the
-- repository, so their decoding is a parameter.
pub mod Skip
use kdebugger.Common.{
  ℕ, zero, suc, ◌+◌, Bool, List, [], ◌∷◌, leb, ◌==◌, if◌then◌else◌, length, Outcome, ok, fail, sent,
  undefined, ◌>>=◌,
}
use kdebugger.Dwarf.Cursor.{Cursor, advance, u8, u16, u32, uleb128, sleb128}

-- The forms that `skip_form` and the readers of class `attr` tell apart; `unrecognized` is every
-- other one.
pub data Form : Type 0 where
  data1 ref1 flag data2 ref2 data4 ref4 ref_addr sec_offset strp sdata udata ref_udata : Form
  block1 block2 block4 block exprloc text indirect addr data8 ref8 unrecognized : Form

-- The loop over a string, and the step behind it.
unfoldable pub skip_text : List ℕ → ℕ → ℕ → Outcome (List ℕ × ℕ)
skip_text [] pos end = if leb end pos then ok ([], pos + 1) else fail undefined
skip_text (b ∷ rest) pos end =
    let more = skip_text rest (pos + 1) end in
    if leb end pos then ok (rest, pos + 1) else if b == 0 then ok (rest, pos + 1) else more

-- The switch, for every form but `indirect`.
unfoldable pub skip_direct : Form → Cursor → Outcome Cursor
unfolding skip_text
skip_direct data1 c = ok (advance 1 c)
skip_direct ref1 c = ok (advance 1 c)
skip_direct flag c = ok (advance 1 c)
skip_direct data2 c = ok (advance 2 c)
skip_direct ref2 c = ok (advance 2 c)
skip_direct data4 c = ok (advance 4 c)
skip_direct ref4 c = ok (advance 4 c)
skip_direct ref_addr c = ok (advance 4 c)
skip_direct sec_offset c = ok (advance 4 c)
skip_direct strp c = ok (advance 4 c)
skip_direct sdata c = do (v, c') ← sleb128 c; ok c'
skip_direct udata c = do (v, c') ← uleb128 c; ok c'
skip_direct ref_udata c = do (v, c') ← uleb128 c; ok c'
skip_direct block1 c = do (v, c') ← u8 c; ok (advance v c')
skip_direct block2 c = do (v, c') ← u16 c; ok (advance v c')
skip_direct block4 c = do (v, c') ← u32 c; ok (advance v c')
skip_direct block c = do (v, c') ← uleb128 c; ok (advance v c')
skip_direct exprloc c = do (v, c') ← uleb128 c; ok (advance v c')
skip_direct text c = do
  (rest, pos) ← skip_text c.bytes c.pos c.end
  ok (record c { bytes = rest; pos = pos })
skip_direct indirect c = fail undefined
skip_direct addr c = fail (sent "Unrecognized DWARF form")
skip_direct data8 c = fail (sent "Unrecognized DWARF form")
skip_direct ref8 c = fail (sent "Unrecognized DWARF form")
skip_direct unrecognized c = fail (sent "Unrecognized DWARF form")

-- Each `indirect` takes a byte at least.
unfoldable pub skip_loop : (ℕ → Form) → ℕ → Form → Cursor → Outcome Cursor
unfolding skip_direct
skip_loop form_of zero indirect c = fail undefined
skip_loop form_of (suc fuel) indirect c = do
  (v, c') ← uleb128 c
  skip_loop form_of fuel (form_of v) c'
skip_loop form_of fuel form c = skip_direct form c

unfoldable pub skip_form : (ℕ → Form) → ℕ → Cursor → Outcome Cursor
unfolding skip_loop
skip_form form_of form c = skip_loop form_of (length c.bytes + 1) (form_of form) c
