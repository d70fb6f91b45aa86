-- ===== src/Dwarf/Cursor/Leb.antt =====
-- `uleb128` and `sleb128` of src/dwarf.cpp against the arithmetic meaning of an encoding.
use kdebugger.Common.{
  ℕ, ◌+◌, ◌-◌, ◌*◌, if◌then◌else◌, >>=-eq-ok, ◌%◌, ◌^◌, ◌≤◌, ◌<◌, ◌≡◌, ap, refl, ◌∙◌, bit_and,
  bit_or, List, [], ◌∷◌, ◌++◌, length, All, arith, ok, ltb,
}
use kdebugger.Common.Word.{IsU64}
use kdebugger.Common.Bits.{bit_or_low, byte_top, byte_sign, byte_low7}
use kdebugger.Dwarf.Cursor.{Cursor, LebState, leb_loop, uleb128, sleb128}
use native.Mathlib.Nat.{mod-eq_of_lt}
use native.Mathlib.Numerals.{towards_suc}

-- The bytes of an encoding: seven-bit groups, lowest first, each but the last with its top bit set.
abbrev pub leb_bytes : List ℕ → ℕ → List ℕ
leb_bytes [] last = last ∷ []
leb_bytes (g ∷ gs) last = (g + 128) ∷ leb_bytes gs last

-- The number that the groups stand for.
abbrev pub leb_value : List ℕ → ℕ → ℕ
leb_value [] last = last
leb_value (g ∷ gs) last = g + 128 * leb_value gs last

pub length-leb_bytes : (gs : List ℕ) (last : ℕ) → length (leb_bytes gs last) ≡ length gs + 1
length-leb_bytes [] last = refl
length-leb_bytes (g ∷ gs) last = omega (arith, length-leb_bytes gs last)

-- At most ten groups of seven bits, whose number fits 64 bits.
pub record IsLeb (gs : List ℕ) (last : ℕ) : Type 0 where
  pub groups : All (λ g. g < 128) gs
  pub top : last < 128
  pub short : length gs ≤ 9
  pub fits : IsU64 (leb_value gs last)

shift_seven : (s : ℕ) → 2 ^ (s + 7) ≡ 128 * 2 ^ s
shift_seven s = simp towards_suc (omega arith)

-- One round joins its group to the result.
join_group :
    (byte acc shift : ℕ)
    → acc < 2 ^ shift
    → byte % 128 * 2 ^ shift < 2 ^ 64
    → bit_or acc (bit_and byte 0x7f * 2 ^ shift % 2 ^ 64) ≡ acc + byte % 128 * 2 ^ shift
join_group byte acc shift h fits =
    rw (byte_low7 byte, mod-eq_of_lt fits) (bit_or_low shift (byte % 128) acc h)

last_round :
    (byte : ℕ) (rest : List ℕ) (pos acc shift : ℕ)
    → byte < 128
    → shift < 64
    → acc < 2 ^ shift
    → byte * 2 ^ shift < 2 ^ 64
    → leb_loop (byte ∷ rest) pos acc shift
      ≡ ok (record {
        res = acc + byte * 2 ^ shift;
        shift = shift + 7;
        byte = byte;
        bytes = rest;
        pos = pos + 1;
      })
unfolding leb_loop
last_round byte rest pos acc shift hb hs ha fits =
    let small : byte % 128 ≡ byte = mod-eq_of_lt hb in
    ground (arith, byte_top byte, join_group byte acc shift ha (rw small fits), small)

inner_round :
    (g : ℕ) (rest : List ℕ) (pos acc shift : ℕ)
    → g < 128
    → shift < 64
    → acc < 2 ^ shift
    → g * 2 ^ shift < 2 ^ 64
    → leb_loop ((g + 128) ∷ rest) pos acc shift
      ≡ leb_loop rest (pos + 1) (acc + g * 2 ^ shift) (shift + 7)
unfolding leb_loop
inner_round g rest pos acc shift hg hs ha fits =
    let low : (g + 128) % 128 ≡ g = omega arith in
    ground (arith, byte_top (g + 128), join_group (g + 128) acc shift ha (rw low fits), low)

-- The parts of an encoding's number at bit `shift`.
split_value : (g v shift : ℕ) → (g + 128 * v) * 2 ^ shift ≡ g * 2 ^ shift + v * 2 ^ (shift + 7)
split_value g v shift = rw (shift_seven shift) (omega arith)

-- The loop over an encoding adds its number at the current bit and takes exactly its bytes.
leb_loop-leb_bytes :
    (gs : List ℕ) (last : ℕ) (rest : List ℕ) (pos acc shift : ℕ)
    → All (λ g. g < 128) gs
    → last < 128
    → shift + 7 * length gs < 64
    → acc < 2 ^ shift
    → leb_value gs last * 2 ^ shift < 2 ^ 64
    → leb_loop (leb_bytes gs last ++ rest) pos acc shift
      ≡ ok (record {
        res = acc + leb_value gs last * 2 ^ shift;
        shift = shift + 7 * length gs + 7;
        byte = last;
        bytes = rest;
        pos = pos + length gs + 1;
      })
leb_loop-leb_bytes [] last rest pos acc shift hg hl hs ha fits =
    last_round last rest pos acc shift hl (omega arith) ha fits ∙ ap ok (ground arith)
leb_loop-leb_bytes (g ∷ gs) last rest pos acc shift (hg, hgs) hl hs ha fits =
    let v = leb_value gs last in
    let parts : (g + 128 * v) * 2 ^ shift ≡ g * 2 ^ shift + v * 2 ^ (shift + 7) =
      split_value g v shift in
    let below : acc + g * 2 ^ shift < 2 ^ (shift + 7) = rw (shift_seven shift) (grind arith) in
    inner_round g (leb_bytes gs last ++ rest) pos acc shift hg (omega arith) ha (omega arith)
    ∙ leb_loop-leb_bytes gs last rest (pos + 1) (acc + g * 2 ^ shift) (shift + 7) hgs hl
        (omega arith) below (omega arith)
    ∙ ap ok (ground arith)

-- A cursor whose memory begins with the bytes of an encoding.
abbrev pub at_leb : List ℕ → ℕ → List ℕ → ℕ → ℕ → Cursor
at_leb gs last rest pos end = record { bytes = leb_bytes gs last ++ rest; pos = pos; end = end }

-- The cursor behind that encoding.
abbrev pub past_leb : List ℕ → List ℕ → ℕ → ℕ → Cursor
past_leb gs rest pos end = record { bytes = rest; pos = pos + length gs + 1; end = end }

-- On every encoding of a 64-bit number in at most ten bytes, the padded ones included, `uleb128`
-- returns the number and moves the cursor just behind the encoding, whatever follows it.
pub uleb128-leb_bytes :
    (gs : List ℕ) (last : ℕ) (rest : List ℕ) (pos end : ℕ)
    → IsLeb gs last
    → uleb128 (at_leb gs last rest pos end) ≡ ok (leb_value gs last, past_leb gs rest pos end)
unfolding uleb128
uleb128-leb_bytes gs last rest pos end h = ground (
  arith,
  leb_loop-leb_bytes gs last rest pos 0 0 h.groups h.top (omega (arith, h.short)) (omega arith),
  h.fits,
)

-- What the code makes of the sign bit: the top of a single group is extended, and nothing else.
abbrev pub sleb_result : List ℕ → ℕ → ℕ
sleb_result [] last = if ltb last 64 then last else 2 ^ 64 - 128 + last
sleb_result (g ∷ gs) last = leb_value (g ∷ gs) last

one_group :
    (last : ℕ)
    → last < 128
    → 64 ≤ last
    → bit_or last ((2 ^ 64 - 1) * 2 ^ 7 % 2 ^ 64) ≡ 2 ^ 64 - 128 + last
one_group last h sign = omega (arith, bit_or_low 7 (2 ^ 57 - 1) last h)

-- On an encoding of at most ten bytes whose groups of seven bits make a number below 2^64, `sleb128`
-- moves behind it; a single byte is sign-extended, and two bytes or more are read as unsigned.
pub sleb128-leb_bytes :
    (gs : List ℕ) (last : ℕ) (rest : List ℕ) (pos end : ℕ)
    → IsLeb gs last
    → sleb128 (at_leb gs last rest pos end) ≡ ok (sleb_result gs last, past_leb gs rest pos end)
unfolding sleb128
sleb128-leb_bytes [] last rest pos end h = ground (
  arith,
  leb_loop-leb_bytes [] last rest pos 0 0 tt h.top (omega arith) (omega arith),
  h.fits,
  byte_sign last,
  one_group last h.top,
)
sleb128-leb_bytes (g ∷ gs) last rest pos end h = ground (
  arith,
  leb_loop-leb_bytes (g ∷ gs) last rest pos 0 0 h.groups h.top (omega (arith, h.short))
      (omega arith),
  h.fits,
)

-- The loop reads a byte at least and, since no shift of 64 or more is made, at most ten.
leb_loop_takes :
    (bytes : List ℕ) (pos res shift j : ℕ) (s : LebState)
    → shift ≡ 7 * j
    → j ≤ 10
    → leb_loop bytes pos res shift ≡ ok s
    → (length s.bytes < length bytes)
      × (length bytes + j ≤ length s.bytes + 10)
      × (s.pos + length s.bytes ≡ pos + length bytes)
unfolding leb_loop
leb_loop_takes [] pos res shift j s hs hj e = cc
leb_loop_takes (byte ∷ rest) pos res shift j s hs hj e = ground (
  arith,
  leb_loop_takes rest (pos + 1) (bit_or res (bit_and byte 0x7f * 2 ^ shift % 2 ^ 64)) (shift + 7)
      (j + 1) s,
)

-- On any memory, a `uleb128` that succeeds has read one to ten bytes, and has moved the position by
-- as many; `m_Data.end()` stays.
pub uleb128_takes :
    (c c' : Cursor) (v : ℕ)
    → uleb128 c ≡ ok (v, c')
    → (length c'.bytes < length c.bytes)
      × (length c.bytes ≤ length c'.bytes + 10)
      × (c'.pos + length c'.bytes ≡ c.pos + length c.bytes)
      × (c'.end ≡ c.end)
unfolding uleb128
uleb128_takes c c' v e =
    let (s, read, done) = >>=-eq-ok (leb_loop c.bytes c.pos 0 0) _ e in
    ground (arith, leb_loop_takes c.bytes c.pos 0 0 0 s (omega arith) (omega arith) read)
