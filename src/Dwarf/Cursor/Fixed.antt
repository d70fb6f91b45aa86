-- ===== src/Dwarf/Cursor/Fixed.antt =====
-- The readers of integers of a fixed size of `cursor`, against their bytes.
use kdebugger.Common.{
  ℕ, zero, suc, ◌+◌, ◌*◌, ◌/◌, ◌%◌, ◌^◌, ◌<◌, ◌≡◌, refl, ap, ◌∙◌, List, [], ◌∷◌, ◌++◌, length,
  arith, Outcome, ok, ◌>>=◌,
}
use kdebugger.Dwarf.Cursor.{u8, fixed_int, fixed_bytes}
use native.Mathlib.Nat.{pow-suc}

-- The number that the bytes make, lowest first.
abbrev pub little_endian : List ℕ → ℕ
little_endian [] = 0
little_endian (b ∷ bs) = b + 256 * little_endian bs

pub one_byte :
    (b : ℕ) (rest : List ℕ) (pos end : ℕ)
    → u8 (record { bytes = b ∷ rest; pos = pos; end = end })
      ≡ ok (b, record { bytes = rest; pos = pos + 1; end = end })
unfolding fixed_int fixed_bytes
one_byte b rest pos end =
    ap (λ (v : ℕ). ok (v, record { bytes = rest; pos = pos + 1; end = end })) {x = b + 256 * 0}
      (omega arith)

pub fixed_bytes-append :
    (size rest : List ℕ) → fixed_bytes (length size) (size ++ rest) ≡ ok (little_endian size, rest)
unfolding fixed_bytes
fixed_bytes-append [] rest = refl
fixed_bytes-append (b ∷ size) rest =
    ap (λ (m : Outcome (ℕ × List ℕ)). m >>= λ r. ok (b + 256 * r.0, r.1))
      (fixed_bytes-append size rest)

-- The bytes of a number, lowest first.
abbrev pub le_bytes : ℕ → ℕ → List ℕ
le_bytes zero v = []
le_bytes (suc n) v = v % 256 ∷ le_bytes n (v / 256)

fixed_bytes-le_bytes :
    (n v : ℕ) (rest : List ℕ) → v < 256 ^ n → fixed_bytes n (le_bytes n v ++ rest) ≡ ok (v, rest)
unfolding fixed_bytes
fixed_bytes-le_bytes zero v rest h = ap (λ (k : ℕ). ok (k, rest)) {y = v} (omega arith)
fixed_bytes-le_bytes (suc n) v rest h =
    ap (λ (m : Outcome (ℕ × List ℕ)). m >>= λ r. ok (v % 256 + 256 * r.0, r.1))
      (fixed_bytes-le_bytes n (v / 256) rest (omega (arith, pow-suc 256 n)))
    ∙ ap (λ (k : ℕ). ok (k, rest)) {y = v} (omega arith)

-- A number of `n` bytes is read back, and what follows it is left.
pub fixed_int-le_bytes :
    (n v : ℕ) (rest : List ℕ) (pos end : ℕ)
    → v < 256 ^ n
    → fixed_int n (record { bytes = le_bytes n v ++ rest; pos = pos; end = end })
      ≡ ok (v, record { bytes = rest; pos = pos + n; end = end })
unfolding fixed_int
fixed_int-le_bytes n v rest pos end h =
    ap
      (λ (m : Outcome (ℕ × List ℕ)).
        m >>= λ r. ok (r.0, record { bytes = r.1; pos = pos + n; end = end }))
      (fixed_bytes-le_bytes n v rest h)
