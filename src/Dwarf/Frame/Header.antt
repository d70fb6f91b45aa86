-- ===== src/Dwarf/Frame/Header.antt =====
-- The search table of .eh_frame_hdr in src/dwarf.cpp: `parse_eh_hdr` and `eh_hdr::operator []`.
pub mod Search
pub mod Refused
use kdebugger.Common.{
  ℕ, zero, suc, ◌+◌, ◌*◌, ◌/◌, ◌%◌, Bool, true, false, List, Option, none, some, ◌==◌, ltb, leb,
  if◌then◌else◌, bit_and, Outcome, ok, fail, sent, undefined, ◌>>=◌, or_fail,
}
use kdebugger.Common.Word.{u64_mod, sub64}
use kdebugger.Dwarf.Cursor.{Cursor, cursor, u8}
use kdebugger.Dwarf.Frame.{
  PointerFormat, absptr, udata2, udata4, udata8, PointerNumbers, FrameSections, Bases,
  parse_eh_frame_pointer, parse_eh_frame_pointer_with_base,
}

pub record EhHdr : Type 0 where
  pub start : ℕ
  pub search_table : ℕ
  pub count : ℕ
  pub encoding : ℕ

-- The number of rows is read with its own encoding; the source names the variable that it declares.
unfoldable pub parse_eh_hdr : PointerNumbers → FrameSections → Outcome EhHdr
unfolding parse_eh_frame_pointer_with_base
parse_eh_hdr n s = do
  hdr_start ← or_fail s.eh_frame_hdr_start
  text_start ← or_fail s.text_start
  let c = cursor s.image s.eh_frame_hdr.0 s.eh_frame_hdr.1
  (version, c₁) ← u8 c
  (eh_frame_ptr_enc, c₂) ← u8 c₁
  (fde_count_enc, c₃) ← u8 c₂
  (table_enc, c₄) ← u8 c₃
  (eh_frame_ptr, c₅) ← parse_eh_frame_pointer_with_base n eh_frame_ptr_enc 0 c₄
  (fde_count, c₆) ← parse_eh_frame_pointer_with_base n fde_count_enc 0 c₅
  ok (record { start = c.pos; search_table = c₆.pos; count = fde_count; encoding = table_enc })

unfoldable pub eh_frame_pointer_encoding_size : PointerNumbers → ℕ → Outcome ℕ
eh_frame_pointer_encoding_size n encoding = elim (n.format_of (bit_and encoding 0x7)) [
  | absptr ↦ ok 8
  | udata2 ↦ ok 2
  | udata4 ↦ ok 4
  | udata8 ↦ ok 8
  | _ ↦ fail (sent "Invalid pointer encoding")
]

-- The pointer at `offset` in row `i`. `row_size` has no declaration: a row is two pointers.
unfoldable pub row_pointer : PointerNumbers → FrameSections → EhHdr → ℕ → ℕ → ℕ → Outcome ℕ
unfolding parse_eh_frame_pointer
row_pointer n s hdr size i offset = do
  text_start ← or_fail s.text_start
  let at = hdr.search_table + i * (2 * size) + offset
  let bases : Bases = record {
    pc = at;
    text_section_start = text_start;
    data_section_start = hdr.start;
    func_start = 0;
  }
  (v, c) ←
      parse_eh_frame_pointer n hdr.encoding bases
        (cursor s.image at (hdr.search_table + hdr.count * (2 * size)))
  ok v

-- The loop, over the addresses of the rows: the row that it ends at. `size_t` wraps.
unfoldable pub search_loop : (ℕ → Outcome ℕ) → ℕ → ℕ → ℕ → ℕ → Outcome ℕ
search_loop row address zero low high = fail undefined
search_loop row address (suc fuel) low high =
    let mid = (low + high) % u64_mod / 2 in
    elim (leb low high) [
      | false ↦ ok high
      | true ↦ do
        entry_address ← row mid
        elim (ltb entry_address address) [
          | true ↦ search_loop row address fuel (mid + 1) high
          | false ↦ elim (ltb address entry_address) [
            | false ↦ ok mid
            | true ↦ elim (mid == 0) [
              | true ↦ fail (sent "Address not found in eh_hdr")
              | false ↦ search_loop row address fuel low (sub64 mid 1)
            ]
          ]
        ]
    ]

-- `eh_hdr::operator []`: the offset of the entry in the file.
unfoldable pub fde_at : PointerNumbers → FrameSections → EhHdr → ℕ → Outcome ℕ
unfolding row_pointer search_loop eh_frame_pointer_encoding_size
fde_at n s hdr address = do
  size ← eh_frame_pointer_encoding_size n hdr.encoding
  high ←
      search_loop (λ i. row_pointer n s hdr size i 0) address (hdr.count + 1) 0 (sub64 hdr.count 1)
  row_pointer n s hdr size high size
