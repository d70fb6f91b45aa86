-- ===== src/Dwarf/Cursor/Takes.antt =====
-- How many bytes the readers of `cursor` take.
use kdebugger.Common.{
  ℕ, zero, suc, ◌+◌, ◌-◌, ◌*◌, ◌^◌, ◌%◌, ◌≤◌, ◌<◌, ◌≡◌, List, [], ◌∷◌, bit_and, bit_or, length,
  length-drop, arith, ok, >>=-eq-ok, Bool-cases, inl, inr, ◌==◌,
}
use kdebugger.Dwarf.Cursor.{
  Cursor, LebState, fixed_bytes, fixed_int, leb_loop, sleb128, until_zero, string,
}

fixed_bytes-takes :
    (n : ℕ) (m rest : List ℕ) (v : ℕ) → fixed_bytes n m ≡ ok (v, rest) → length rest + n ≡ length m
unfolding fixed_bytes
fixed_bytes-takes zero m rest v e = ground arith
fixed_bytes-takes (suc n) [] rest v e = cc
fixed_bytes-takes (suc n) (b ∷ m) rest v e =
    let ((w, left), got, done) = >>=-eq-ok (fixed_bytes n m) _ e in
    ground (arith, fixed_bytes-takes n m left w got)

-- A fixed-size integer takes exactly its size.
pub fixed_int-takes :
    (n : ℕ) (c c' : Cursor) (v : ℕ)
    → fixed_int n c ≡ ok (v, c')
    → length c'.bytes + n ≡ length c.bytes
unfolding fixed_int
fixed_int-takes n c c' v e =
    let ((w, left), got, done) = >>=-eq-ok (fixed_bytes n c.bytes) _ e in
    ground (arith, fixed_bytes-takes n c.bytes left w got)

leb_loop-shrinks :
    (bytes : List ℕ) (pos res shift : ℕ) (s : LebState)
    → leb_loop bytes pos res shift ≡ ok s
    → length s.bytes < length bytes
unfolding leb_loop
leb_loop-shrinks [] pos res shift s e = cc
leb_loop-shrinks (byte ∷ rest) pos res shift s e = ground (
  arith,
  leb_loop-shrinks rest (pos + 1) (bit_or res (bit_and byte 0x7f * 2 ^ shift % 2 ^ 64)) (shift + 7)
      s,
)

pub sleb128-shrinks :
    (c c' : Cursor) (v : ℕ) → sleb128 c ≡ ok (v, c') → length c'.bytes < length c.bytes
unfolding sleb128
sleb128-shrinks c c' v e =
    let (s, read, done) = >>=-eq-ok (leb_loop c.bytes c.pos 0 0) _ e in
    ground (arith, leb_loop-shrinks c.bytes c.pos 0 0 s read)

until_zero-shrinks :
    (bytes text behind : List ℕ)
    → until_zero bytes ≡ ok (text, behind)
    → length behind + length text < length bytes
unfolding until_zero
until_zero-shrinks [] text behind e = cc
until_zero-shrinks (b ∷ rest) text behind e = elim (Bool-cases (b == 0)) [
  | inl stop ↦ ground arith
  | inr go ↦
      let ((more, left), got, done) = >>=-eq-ok (until_zero rest) _ (rw go at e) in
      ground (arith, until_zero-shrinks rest more left got)
]

pub string-shrinks :
    (c c' : Cursor) (v : List ℕ) → string c ≡ ok (v, c') → length c'.bytes ≤ length c.bytes
unfolding string
string-shrinks c c' v e =
    let ((text, behind), got, done) = >>=-eq-ok (until_zero c.bytes) _ e in
    ground
      (arith, until_zero-shrinks c.bytes text behind got, length-drop (c.end + 1 - c.pos) c.bytes)
