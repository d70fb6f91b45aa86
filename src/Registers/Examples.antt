-- ===== src/Registers/Examples.antt =====
-- A byte in the middle of a small user area, beside a register of eight bytes.
use kdebugger.Common.{ℕ, ◌≡◌, refl, false, [], ◌∷◌, none, some, inr, ok, arith}
use kdebugger.Registers.{
  uint, RegisterInfo, unsigned, Value, Registers, UserArea, find_offset, is_undefined, type_of,
  read, zeros, widen, splice, push_out, write_user_area, write,
}
use kdebugger.Registers.Written.{write-read}

abbrev low_byte : RegisterInfo
low_byte = record {
  id = 1;
  name = [];
  dwarf_id = none;
  size = 1;
  offset = 8;
  is_fpr = false;
  format = uint;
}

abbrev whole : RegisterInfo
whole = record {
  id = 2;
  name = [];
  dwarf_id = some 7;
  size = 8;
  offset = 16;
  is_fpr = false;
  format = uint;
}

abbrev before : Registers
before = record { user = zeros 24; undefined_offsets = 8 ∷ []; cfa = 0 }

abbrev forty : Value
forty = record { kind = unsigned 1; bytes = 40 ∷ [] }

abbrev area : UserArea ℕ
area = record {
  poke_user = λ s offset word. some word;
  set_fpregs = λ s bytes. some s;
  set_regs = λ s bytes. some s;
  i387 = λ bytes. bytes;
  gprs = λ bytes. bytes;
  to_double = λ kind bytes. bytes;
  to_long_double = λ kind bytes. bytes;
  debug_offset = 0;
}

abbrev behind : Registers
behind = record before { user = splice 8 (40 ∷ []) (zeros 24) }

writes : write area low_byte forty false before 0 ≡ ok (behind, 40)
unfolding write widen splice push_out write_user_area
writes = refl

of_one_byte : type_of low_byte ≡ ok (unsigned 1, 1)
unfolding type_of
of_one_byte = refl

of_eight_bytes : type_of whole ≡ ok (unsigned 8, 8)
unfolding type_of
of_eight_bytes = refl

is_defined : is_undefined low_byte before ≡ false
unfolding is_undefined find_offset
is_defined = refl

write-read_example : (read low_byte behind ≡ ok forty) × (read whole behind ≡ read whole before)
write-read_example =
    write-read area low_byte whole (unsigned 8) 8 forty false before behind 0 40 refl of_one_byte
      (omega arith) is_defined of_eight_bytes (inr (omega arith)) writes
