-- ===== src/Registers/File.antt =====
-- Class `registers` as what the unwinder of src/dwarf.cpp works on. A write that is not to be committed
-- goes to the process all the same, so its state stands beside the registers.
use kdebugger.Common.{
  ℕ, List, Outcome, ok, fail, bad_variant_access, ◌>>=◌, false, ◌==◌, if◌then◌else◌,
}
use kdebugger.Dwarf.Cursor.Fixed.{little_endian, le_bytes}
use kdebugger.Dwarf.Frame.Unwind.{RegisterFile}
use kdebugger.Registers.{
  RegisterInfo, unsigned, Value, Registers, UserArea, register_info_by_dwarf, read, write, undefine,
}

-- `std::get<std::uint64_t>`.
unfoldable pub as_word : Value → Outcome ℕ
as_word v = elim v.kind [
  | unsigned size ↦ if size == 8 then ok (little_endian v.bytes) else fail bad_variant_access
  | _ ↦ fail bad_variant_access
]

abbrev pub word : ℕ → Value
word n = record { kind = unsigned 8; bytes = le_bytes 8 n }

-- The number of rsp in the table.
abbrev pub dwarf_rsp : ℕ
dwarf_rsp = 7

module _ {S : Type 0} (u : UserArea S) (infos : List RegisterInfo) where
  unfoldable pub read_word_of : ℕ → Registers × S → Outcome ℕ
  unfolding register_info_by_dwarf read as_word
  read_word_of n (r, s) = do info ← register_info_by_dwarf n infos; v ← read info r; as_word v

  unfoldable pub write_word_of : ℕ → ℕ → Registers × S → Outcome (Registers × S)
  unfolding register_info_by_dwarf write
  write_word_of n value (r, s) = do
    info ← register_info_by_dwarf n infos
    write u info (word value) false r s

  unfoldable pub undefine_of : ℕ → Registers × S → Outcome (Registers × S)
  unfolding register_info_by_dwarf undefine
  undefine_of n (r, s) = do info ← register_info_by_dwarf n infos; ok (undefine info r, s)

  abbrev pub register_file : (ℕ → Outcome ℕ) → RegisterFile (Registers × S)
  register_file read_word = record {
    read_register = read_word_of;
    write_register = write_word_of;
    undefine = undefine_of;
    write_rsp = write_word_of dwarf_rsp;
    set_cfa = λ cfa (r, s). (record r { cfa = cfa }, s);
    read_word = read_word;
  }
