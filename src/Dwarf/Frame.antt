-- ===== src/Dwarf/Frame.antt =====
-- Call frame information of src/dwarf.cpp: the pointers of .eh_frame, and its entries. A pointer into
-- the mapped file is its offset, so that the conversions between pointers and file offsets are
-- identities.
pub mod Header
pub mod Rules
pub mod Unwind
use kdebugger.Common.{
  ℕ, zero, suc, ◌+◌, ◌%◌, ◌^◌, Bool, true, false, not, ◌&&◌, ◌||◌, List, [], ◌∷◌, Option, none,
  some, ◌==◌, if◌then◌else◌, bit_and, String, Outcome, ok, fail, sent, ◌>>=◌,
}
use kdebugger.Common.Word.{add64, sub64}
use kdebugger.Elf.{Elf, FileAddr}
use kdebugger.Dwarf.Cursor.{
  Cursor, Reader, cursor, advance, u8, u16, u32, u64, s16, s32, s64, uleb128, sleb128, string,
}

-- The formats of a pointer and its bases that the switches tell apart.
pub data PointerFormat : Type 0 where
  absptr uleb udata2 udata4 udata8 sleb sdata2 sdata4 sdata8 unknown_format : PointerFormat

pub data PointerBase : Type 0 where
  no_base pcrel textrel datarel funcrel unknown_base : PointerBase

-- The numbers of the standard, from a header that the repository does not have: of the masked
-- encodings, and DW_EH_PE_udata8 | DW_EH_PE_absptr.
pub record PointerNumbers : Type 0 where
  pub format_of : ℕ → PointerFormat
  pub base_of : ℕ → PointerBase
  pub default_encoding : ℕ

-- The file, where its sections start and end in it, and the addresses that they start at.
pub record FrameSections : Type 0 where
  pub elf_file : Elf
  pub image : List ℕ
  pub eh_frame : ℕ × ℕ
  pub eh_frame_hdr : ℕ × ℕ
  pub eh_frame_hdr_start : Option ℕ
  pub text_start : Option ℕ
  pub got_plt_start : Option ℕ

abbrev pub start_or_zero : Option ℕ → ℕ
start_or_zero none = 0
start_or_zero (some a) = a

unfoldable pub read_format : PointerFormat → Reader ℕ
read_format absptr c = u64 c
read_format uleb c = uleb128 c
read_format udata2 c = u16 c
read_format udata4 c = u32 c
read_format udata8 c = u64 c
read_format sleb c = sleb128 c
read_format sdata2 c = s16 c
read_format sdata4 c = s32 c
read_format sdata8 c = s64 c
read_format unknown_format c = fail (sent "Unkown eh_frame pointer encoding")

unfoldable pub parse_eh_frame_pointer_with_base : PointerNumbers → ℕ → ℕ → Reader ℕ
unfolding read_format
parse_eh_frame_pointer_with_base n encoding base c = do
  (v, c') ← read_format (n.format_of (bit_and encoding 0x0f)) c
  ok (add64 base v, c')

-- The bases that a pointer may count from.
pub record Bases : Type 0 where
  pub pc : ℕ
  pub text_section_start : ℕ
  pub data_section_start : ℕ
  pub func_start : ℕ

unfoldable pub base_at : PointerBase → Bases → Outcome ℕ
base_at no_base b = ok 0
base_at pcrel b = ok b.pc
base_at textrel b = ok b.text_section_start
base_at datarel b = ok b.data_section_start
base_at funcrel b = ok b.func_start
base_at unknown_base b = fail (sent "Unkown eh_frame pointer encoding")

unfoldable pub parse_eh_frame_pointer : PointerNumbers → ℕ → Bases → Reader ℕ
unfolding base_at parse_eh_frame_pointer_with_base
parse_eh_frame_pointer n encoding bases c = do
  base ← base_at (n.base_of (bit_and encoding 0x70)) bases
  parse_eh_frame_pointer_with_base n encoding base c

-- `common_information_entry`; the instructions are where they start and end.
pub record Cie : Type 0 where
  pub length : ℕ
  pub code_alignment_factor : ℕ
  pub data_alignment_factor : ℕ
  pub fde_has_augmentation : Bool
  pub fde_pointer_encoding : ℕ
  pub instructions : ℕ × ℕ

abbrev pub refuse_if : Bool → String → Outcome (Unit {0})
refuse_if test message = if test then fail (sent message) else ok tt

-- The address and segment sizes of version 4.
unfoldable pub check_sizes : ℕ → Cursor → Outcome Cursor
check_sizes version c =
    if version == 4
    then (do
      (address_size, c₁) ← u8 c
      (segment_size, c₂) ← u8 c₁
      fine ← refuse_if (not (address_size == 8)) "Invalid address size"
      good ← refuse_if (not (segment_size == 0)) "Invalid segment size"
      ok c₂)
    else ok c

-- The loop over the augmentation, with the pointer encoding so far: 'z', 'R', 'L' and 'P'.
unfoldable pub augmentation_loop : PointerNumbers → List ℕ → ℕ → Reader ℕ
unfolding parse_eh_frame_pointer_with_base
augmentation_loop n [] encoding c = ok (encoding, c)
augmentation_loop n (ch ∷ chars) encoding c =
    if ch == 122
    then (do (v, c') ← uleb128 c; augmentation_loop n chars encoding c')
    else if ch == 82
    then (do (v, c') ← u8 c; augmentation_loop n chars v c')
    else if ch == 76
    then (do (v, c') ← u8 c; augmentation_loop n chars encoding c')
    else if ch == 80
    then (do
      (e, c') ← u8 c
      (v, c'') ← parse_eh_frame_pointer_with_base n e 0 c'
      augmentation_loop n chars encoding c'')
    else fail (sent "Invalid CIE augmentation")

abbrev pub starts_badly : List ℕ → Bool
starts_badly [] = false
starts_badly (ch ∷ chars) = not (ch == 122)

abbrev pub non_empty : List ℕ → Bool
non_empty [] = false
non_empty (ch ∷ chars) = true

unfoldable pub parse_cie : PointerNumbers → Cursor → Outcome Cie
unfolding check_sizes augmentation_loop
parse_cie n c = do
  (size, c₁) ← u32 c
  let length = (size + 4) % 2 ^ 32
  (id, c₂) ← u32 c₁
  (version, c₃) ← u8 c₂
  fine ← refuse_if (not ((version == 1) || (version == 3) || (version == 4))) "Invalid CIE version"
  (augmentation, c₄) ← string c₃
  good ← refuse_if (starts_badly augmentation) "Invalid CIE augmentation"
  c₅ ← check_sizes version c₄
  (code_factor, c₆) ← uleb128 c₅
  (data_factor, c₇) ← sleb128 c₆
  (return_address_register, c₈) ← (if version == 1 then u8 c₇ else uleb128 c₇)
  (encoding, c₉) ← augmentation_loop n augmentation n.default_encoding c₈
  ok (record {
    length = length;
    code_alignment_factor = code_factor;
    data_alignment_factor = data_factor;
    fde_has_augmentation = non_empty augmentation;
    fde_pointer_encoding = encoding;
    instructions = (c₉.pos, c.pos + length);
  })

-- `m_CieMap`, whose keys have 32 bits.
abbrev pub CieMap : Type 0
CieMap = List (ℕ × Cie)

unfoldable pub find_cie : ℕ → CieMap → Option Cie
find_cie key [] = none
find_cie key ((k, cie) ∷ cies) =
    let later = find_cie key cies in if k == key then some cie else later

-- With the map that it leaves behind.
unfoldable pub get_cie : PointerNumbers → FrameSections → ℕ → CieMap → Outcome (Cie × CieMap)
unfolding find_cie parse_cie
get_cie n s offset cies = elim (find_cie (offset % 2 ^ 32) cies) [
  | some cie ↦ ok (cie, cies)
  | none ↦ do
    cie ← parse_cie n (cursor s.image offset s.eh_frame.1)
    ok (cie, (offset % 2 ^ 32, cie) ∷ cies)
]

-- `frame_description_entry`.
pub record Fde : Type 0 where
  pub length : ℕ
  pub cie : Cie
  pub initial_location : FileAddr
  pub address_range : ℕ
  pub instructions : ℕ × ℕ

unfoldable pub parse_fde : PointerNumbers → FrameSections → CieMap → Cursor → Outcome (Fde × CieMap)
unfolding get_cie parse_eh_frame_pointer
parse_fde n s cies c = do
  (size, c₁) ← u32 c
  let length = (size + 4) % 2 ^ 32
  (back, c₂) ← s32 c₁
  (cie, left) ← get_cie n s (sub64 c₁.pos back) cies
  let bases : Bases = record {
    pc = c₂.pos;
    text_section_start = start_or_zero s.text_start;
    data_section_start = 0;
    func_start = 0;
  }
  (location, c₃) ← parse_eh_frame_pointer n cie.fde_pointer_encoding bases c₂
  (range, c₄) ← parse_eh_frame_pointer_with_base n cie.fde_pointer_encoding 0 c₃
  c₅ ←
      (if cie.fde_has_augmentation
        then (do (size, c') ← uleb128 c₄; ok (advance size c'))
        else ok c₄)
  ok (
    record {
      length = length;
      cie = cie;
      initial_location = record { elf_file = some s.elf_file; addr = location };
      address_range = range;
      instructions = (c₅.pos, c.pos + length);
    },
    left,
  )
