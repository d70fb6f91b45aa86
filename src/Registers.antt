-- ===== src/Registers.antt =====
-- Class `registers` (src/registers.cpp) and the table of registers (include/libkdebugger/register_info.hpp).
-- `m_Data` is the bytes of the system's struct `user`, so the offsets of the table and of the debug
-- registers are parameters. A value of a number type is its bytes, lowest first.
pub mod Written
pub mod File
pub mod Fetch
mod Examples
use kdebugger.Common.{
  ℕ, zero, suc, ◌+◌, ◌-◌, ◌*◌, ◌/◌, Bool, true, false, not, ◌&&◌, ◌||◌, List, [], ◌∷◌, ◌++◌, Option,
  none, some, ◌==◌, leb, if◌then◌else◌, length, drop, String, Outcome, ok, fail, sent, sent_errno,
  undefined, ◌>>=◌,
}
use kdebugger.Dwarf.Cursor.Fixed.{little_endian}
use kdebugger.Process.Memory.{take}

pub data RegisterFormat : Type 0 where
  uint double_float long_double vector : RegisterFormat

-- `is_fpr` is `type == register_type::fpr`.
pub record RegisterInfo : Type 0 where
  pub id : ℕ
  pub name : List ℕ
  pub dwarf_id : Option ℕ
  pub size : ℕ
  pub offset : ℕ
  pub is_fpr : Bool
  pub format : RegisterFormat

-- The alternatives of `registers::value`.
pub data ValueType : Type 0 where
  unsigned signed : (size : ℕ) → ValueType
  float_type double_type long_double_type byte64 byte128 : ValueType

pub record Value : Type 0 where
  pub kind : ValueType
  pub bytes : List ℕ

-- The members of `registers`, but its process. `user` is `m_Data`.
pub record Registers : Type 0 where
  pub user : List ℕ
  pub undefined_offsets : List ℕ
  pub cfa : ℕ

-- `register_info_by`.
unfoldable pub register_info_by : (RegisterInfo → Bool) → List RegisterInfo → Outcome RegisterInfo
register_info_by test [] = fail (sent "Cannot find register info")
register_info_by test (info ∷ infos) =
    let later = register_info_by test infos in if test info then ok info else later

abbrev pub has_dwarf_id : ℕ → RegisterInfo → Bool
has_dwarf_id n info = elim info.dwarf_id [ none ↦ false | some m ↦ m == n ]

unfoldable pub register_info_by_dwarf : ℕ → List RegisterInfo → Outcome RegisterInfo
unfolding register_info_by
register_info_by_dwarf n infos = register_info_by (has_dwarf_id n) infos

-- A register and the ones within it share this number.
abbrev pub canonical_offset : RegisterInfo → ℕ
canonical_offset info = info.offset / 2

unfoldable pub find_offset : ℕ → List ℕ → Bool
find_offset n [] = false
find_offset n (m ∷ offsets) = let later = find_offset n offsets in if m == n then true else later

unfoldable pub is_undefined : RegisterInfo → Registers → Bool
unfolding find_offset
is_undefined info r = find_offset (canonical_offset info) r.undefined_offsets

unfoldable pub undefine : RegisterInfo → Registers → Registers
undefine info r = record r {
  undefined_offsets = r.undefined_offsets ++ (canonical_offset info ∷ []);
}

abbrev pub bytes_in : Registers → ℕ → ℕ → List ℕ
bytes_in r offset size = take size (drop offset r.user)

-- What `read` takes out by the format and the size.
unfoldable pub type_of : RegisterInfo → Outcome (ValueType × ℕ)
type_of info = elim info.format [
  | uint ↦
      if (info.size == 1) || (info.size == 2) || (info.size == 4) || (info.size == 8)
      then ok (unsigned info.size, info.size)
      else fail (sent "Unexpected register size")
  | double_float ↦ ok (double_type, 8)
  | long_double ↦ ok (long_double_type, 16)
  | vector ↦ if info.size == 8 then ok (byte64, 8) else ok (byte128, 16)
]

unfoldable pub read : RegisterInfo → Registers → Outcome Value
unfolding is_undefined type_of
read info r = if is_undefined info r then fail (sent "Register is undefined") else (do
  (kind, size) ← type_of info
  ok (record { kind = kind; bytes = bytes_in r info.offset size }))

-- What the system does for a write: PTRACE_POKEUSER, PTRACE_SETFPREGS and PTRACE_SETREGS. `i387` and
-- `gprs` find their structs in `user`, and `floats` converts between the types of floating point.
pub record UserArea (S : Type 0) : Type 0 where
  pub poke_user : S → ℕ → ℕ → Option S
  pub set_fpregs : S → List ℕ → Option S
  pub set_regs : S → List ℕ → Option S
  pub i387 : List ℕ → List ℕ
  pub gprs : List ℕ → List ℕ
  pub to_double : ValueType → List ℕ → List ℕ
  pub to_long_double : ValueType → List ℕ → List ℕ
  pub debug_offset : ℕ

abbrev pub zeros : ℕ → List ℕ
zeros zero = []
zeros (suc n) = 0 ∷ zeros n

-- `to_byte128`.
abbrev pub to_byte128 : List ℕ → List ℕ
to_byte128 bytes = bytes ++ zeros (16 - length bytes)

-- Whether the highest bit of the highest byte is set.
abbrev pub is_negative : List ℕ → Bool
is_negative [] = false
is_negative (b ∷ []) = leb 128 b
is_negative (b ∷ next ∷ bytes) = is_negative (next ∷ bytes)

abbrev pub sign_bytes : ℕ → List ℕ
sign_bytes zero = []
sign_bytes (suc n) = 255 ∷ sign_bytes n

-- A conversion between signed types, by the sizes; a smaller type takes the lowest bytes.
abbrev pub cast_signed : ℕ → List ℕ → List ℕ
cast_signed size bytes = take size (
    if is_negative bytes
    then bytes ++ sign_bytes (size - length bytes)
    else bytes ++ zeros (size - length bytes))

abbrev pub widen_signed : RegisterInfo → List ℕ → List ℕ
widen_signed info bytes = elim info.format [
  | uint ↦
      if (info.size == 2) || (info.size == 4) || (info.size == 8)
      then cast_signed info.size bytes
      else bytes
  | _ ↦ bytes
]

abbrev pub widen_float : {S : Type 0} → UserArea S → RegisterInfo → ValueType → List ℕ → List ℕ
widen_float u info kind bytes = elim info.format [
  | double_float ↦ u.to_double kind bytes
  | long_double ↦ u.to_long_double kind bytes
  | _ ↦ bytes
]

unfoldable pub widen : {S : Type 0} → UserArea S → RegisterInfo → Value → List ℕ
widen u info v = to_byte128 (elim v.kind [
  | unsigned size ↦ v.bytes
  | signed size ↦ widen_signed info v.bytes
  | byte64 ↦ v.bytes
  | byte128 ↦ v.bytes
  | kind ↦ widen_float u info kind v.bytes
])

-- `std::copy` of bytes to an offset.
unfoldable pub splice : ℕ → List ℕ → List ℕ → List ℕ
splice offset new old = take offset old ++ (new ++ drop (offset + length new) old)

abbrev pub aligned_offset : ℕ → ℕ
aligned_offset offset = offset / 8 * 8

module _ {S : Type 0} (u : UserArea S) where
  unfoldable pub write_user_area : ℕ → ℕ → S → Outcome S
  write_user_area offset word s = elim (u.poke_user s offset word) [
    | none ↦ fail (sent_errno "Could not write to user area")
    | some s' ↦ ok s'
  ]

  unfoldable pub write_fprs : Registers → S → Outcome S
  write_fprs r s = elim (u.set_fpregs s (u.i387 r.user)) [
    | none ↦ fail (sent_errno "Could not write floating point registers")
    | some s' ↦ ok s'
  ]

  unfoldable pub write_gprs : Registers → S → Outcome S
  write_gprs r s = elim (u.set_regs s (u.gprs r.user)) [
    | none ↦ fail (sent_errno "Could not write geenral purpose registers")
    | some s' ↦ ok s'
  ]

  -- The word of the user area that a register lies in, or all registers of floating point.
  unfoldable pub push_out : RegisterInfo → Registers → S → Outcome S
  unfolding write_user_area write_fprs
  push_out info r s =
      if info.is_fpr
      then write_fprs r s
      else (let place = aligned_offset info.offset in
          write_user_area place (little_endian (bytes_in r place 8)) s)

  -- `write`. As many bytes as the value has are copied; a value that is too large ends the debugger.
  unfoldable pub write : RegisterInfo → Value → Bool → Registers → S → Outcome (Registers × S)
  unfolding widen splice push_out
  write info v commit r s =
      if leb (length v.bytes) info.size
      then (do
        let new = take (length v.bytes) (widen u info v)
        let r' = record r { user = splice info.offset new r.user }
        s₁ ← push_out info r' s
        s₂ ← (if commit then push_out info r' s₁ else ok s₁)
        ok (r', s₂))
      else fail undefined

  -- The loop of `flush` over the debug registers from number `i` on, but for the fourth and the fifth.
  unfoldable pub flush_debug : ℕ → ℕ → ℕ → Registers → S → Outcome S
  unfolding write_user_area
  flush_debug zero i place r s = ok s
  flush_debug (suc left) i place r s = do
    s' ←
        (if (i == 4) || (i == 5)
          then ok s
          else write_user_area (place + 8 * i)
              (little_endian (bytes_in r (u.debug_offset + 8 * i) 8)) s)
    flush_debug left (i + 1) place r s'

  -- `flush`; `dr0` is the entry of the first debug register.
  unfoldable pub flush : RegisterInfo → Registers → S → Outcome S
  unfolding write_fprs write_gprs flush_debug
  flush dr0 r s = do s₁ ← write_fprs r s; s₂ ← write_gprs r s₁; flush_debug 8 0 dr0.offset r s₂
