-- ===== src/Dwarf/Cursor.antt =====
-- Class `cursor` of include/libkdebugger/dwarf.hpp, and its members of src/dwarf.cpp. A pointer
-- into the mapped file is its offset; `bytes` is the memory from `m_Pos` on, up to the end of the
-- mapping, so a read past it is undefined. `end` is `m_Data.end()`.
pub mod Fixed
pub mod Leb
pub mod Takes
use kdebugger.Common.{
  ℕ, zero, suc, ◌+◌, ◌*◌, ◌-◌, ◌%◌, ◌^◌, bit_and, bit_or, Bool, not, ◌&&◌, List, [], ◌∷◌, leb, ltb,
  ◌==◌, if◌then◌else◌, drop, length, Outcome, ok, fail, undefined, ◌>>=◌,
}
use kdebugger.Common.Word.{u64_mod, sign_extend}

pub record Cursor : Type 0 where
  pub bytes : List ℕ
  pub pos : ℕ
  pub end : ℕ

abbrev pub Reader : Type 0 → Type 0
Reader A = Cursor → Outcome (A × Cursor)

-- A cursor over the file `image` at `{pos, end}`.
unfoldable pub cursor : List ℕ → ℕ → ℕ → Cursor
cursor image pos end = record { bytes = drop pos image; pos = pos; end = end }

-- `operator +=`; `operator ++` is `advance 1`.
unfoldable pub advance : ℕ → Cursor → Cursor
advance size c = record c { bytes = drop size c.bytes; pos = c.pos + size }

unfoldable pub finished : Cursor → Bool
finished c = leb c.end c.pos

-- `from_bytes` at `n` bytes, lowest first.
unfoldable pub fixed_bytes : ℕ → List ℕ → Outcome (ℕ × List ℕ)
fixed_bytes zero m = ok (0, m)
fixed_bytes (suc n) [] = fail undefined
fixed_bytes (suc n) (b ∷ m) = do (v, rest) ← fixed_bytes n m; ok (b + 256 * v, rest)

unfoldable pub fixed_int : ℕ → Reader ℕ
unfolding fixed_bytes
fixed_int size c = do
  (v, rest) ← fixed_bytes size c.bytes
  ok (v, record c { bytes = rest; pos = c.pos + size })

abbrev pub u8 : Reader ℕ
u8 = fixed_int 1

abbrev pub u16 : Reader ℕ
u16 = fixed_int 2

abbrev pub u32 : Reader ℕ
u32 = fixed_int 4

abbrev pub u64 : Reader ℕ
u64 = fixed_int 8

-- A signed result stands as the 64-bit pattern that its callers convert it to.
unfoldable pub signed_int : ℕ → Reader ℕ
signed_int size c = do (v, c') ← fixed_int size c; ok (sign_extend (256 ^ size) v, c')

abbrev pub s8 : Reader ℕ
s8 = signed_int 1

abbrev pub s16 : Reader ℕ
s16 = signed_int 2

abbrev pub s32 : Reader ℕ
s32 = signed_int 4

abbrev pub s64 : Reader ℕ
s64 = signed_int 8

-- The variables of the loop of `uleb128` and `sleb128` when it ends.
pub record LebState : Type 0 where
  pub res : ℕ
  pub shift : ℕ
  pub byte : ℕ
  pub bytes : List ℕ
  pub pos : ℕ

-- `u8` in the source's `uleb128` stands for its call. Shifting a 64-bit value by 64 or more is
-- undefined.
unfoldable pub leb_loop : List ℕ → ℕ → ℕ → ℕ → Outcome LebState
leb_loop [] pos res shift = fail undefined
leb_loop (byte ∷ rest) pos res shift =
    let res' = bit_or res (bit_and byte 0x7f * 2 ^ shift % u64_mod) in
    let more = leb_loop rest (pos + 1) res' (shift + 7) in
    if leb 64 shift
    then fail undefined
    else if bit_and byte 0x80 == 0
    then ok (record { res = res'; shift = shift + 7; byte = byte; bytes = rest; pos = pos + 1 })
    else more

unfoldable pub uleb128 : Reader ℕ
unfolding leb_loop
uleb128 c = do s ← leb_loop c.bytes c.pos 0 0; ok (s.res, record c { bytes = s.bytes; pos = s.pos })

-- `sizeof(res)` is 8.
unfoldable pub sleb128 : Reader ℕ
unfolding leb_loop
sleb128 c = do
  s ← leb_loop c.bytes c.pos 0 0
  let res =
      if ltb s.shift 8 && not (bit_and s.byte 0x40 == 0)
      then bit_or s.res ((u64_mod - 1) * 2 ^ s.shift % u64_mod)
      else s.res
  ok (res, record c { bytes = s.bytes; pos = s.pos })

-- The bytes before the first zero, with the memory behind it.
unfoldable pub until_zero : List ℕ → Outcome (List ℕ × List ℕ)
until_zero [] = fail undefined
until_zero (b ∷ rest) =
    let more = until_zero rest in
    if b == 0 then ok ([], rest) else (do (text, behind) ← more; ok (b ∷ text, behind))

-- `string`. The text ends at the first zero in memory, and the position moves behind the first zero
-- before `m_Data.end()`, or behind that end.
unfoldable pub string : Reader (List ℕ)
unfolding until_zero
string c = do
  (text, behind) ← until_zero c.bytes
  if ltb c.end c.pos
      then fail undefined
      else if ltb (c.pos + length text) c.end
      then ok (text, record c { bytes = behind; pos = c.pos + length text + 1 })
      else ok (text, record c { bytes = drop (c.end + 1 - c.pos) c.bytes; pos = c.end + 1 })
