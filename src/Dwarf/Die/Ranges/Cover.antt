-- ===== src/Dwarf/Die/Ranges/Cover.antt =====
-- `range_list::contains` against the ranges that a list's bytes stand for.
use kdebugger.Common.{
  ℕ, zero, suc, ◌+◌, ◌-◌, ◌≤◌, ◌<◌, ◌^◌, ◌≡◌, ◌≢◌, ◌⊎◌, inl, inr, refl, ap, sym, length-drop, ◌∙◌,
  Bool, true, false, ◌&&◌, ◌||◌, ◌==◌, leb, ltb, Bool-cases, List, [], ◌∷◌, ◌++◌, length, drop, All,
  some, none, Outcome, ok, ◌>>=◌, arith,
}
use kdebugger.Common.Word.{u64_mod, add64}
use kdebugger.Elf.{Elf, FileAddr}
use kdebugger.Elf.Addresses.{move_up, less, less_equal}
use kdebugger.Dwarf.Cursor.{cursor}
use kdebugger.Dwarf.Cursor.Fixed.{le_bytes, fixed_int-le_bytes}
use kdebugger.Dwarf.Die.{Dwarf}
use kdebugger.Dwarf.Die.Ranges.{
  RangeList, RangeIterator, entry_contains, range_loop, range_next, begin_ranges, any_range,
  ranges_contain,
}

-- An entry of a list: a new base, or a range by its offsets from the base.
pub data RangeItem : Type 0 where
  based : ℕ → RangeItem
  span : ℕ → ℕ → RangeItem

-- The numbers have 64 bits, and a range is neither a new base nor the end of the list.
abbrev pub IsItem : RangeItem → Type 0
IsItem (based base) = base < 2 ^ 64
IsItem (span low high) = (low < 2 ^ 64 - 1) × (high < 2 ^ 64) × ((low ≢ 0) ⊎ (high ≢ 0))

abbrev pub put_pair : ℕ → ℕ → List ℕ → List ℕ
put_pair low high rest = le_bytes 8 low ++ (le_bytes 8 high ++ rest)

abbrev pub put_items : List RangeItem → List ℕ → List ℕ
put_items [] rest = put_pair 0 0 rest
put_items (based base ∷ items) rest = put_pair (2 ^ 64 - 1) base (put_items items rest)
put_items (span low high ∷ items) rest = put_pair low high (put_items items rest)

-- Whether a range of the list covers the address, from a base on.
abbrev pub covered : ℕ → List RangeItem → ℕ → Bool
covered base [] a = false
covered base (based other ∷ items) a = covered other items a
covered base (span low high ∷ items) a =
    (leb (add64 low base) a && ltb a (add64 high base)) || covered base items a

-- The iterator at the first range of the items, and the items behind it.
abbrev at_pair :
    (fuel : ℕ) (elf : Elf) (base : FileAddr) (low high : ℕ) (rest : List ℕ) (pos end : ℕ)
    → Outcome RangeIterator
at_pair fuel elf base low high rest pos end =
    range_loop (suc fuel) elf base (record { bytes = put_pair low high rest; pos = pos; end = end })

range_loop-based :
    (fuel : ℕ) (elf : Elf) (base : FileAddr) (high : ℕ) (rest : List ℕ) (pos end : ℕ)
    → high < 2 ^ 64
    → at_pair fuel elf base (2 ^ 64 - 1) high rest pos end
      ≡ range_loop fuel elf
          (record { elf_file = some elf; addr = high })
          (record { bytes = rest; pos = pos + 8 + 8; end = end })
unfolding range_loop
range_loop-based fuel elf base high rest pos end h =
    rw
      (
        fixed_int-le_bytes 8 (2 ^ 64 - 1) (le_bytes 8 high ++ rest) pos end (omega arith),
        fixed_int-le_bytes 8 high rest (pos + 8) end h,
      )
      refl

-- The iterator at the end of a list.
abbrev at_list_end : Elf → FileAddr → RangeIterator
at_list_end elf base = record {
  base_address = base;
  behind = none;
  current = record {
    low = record { elf_file = some elf; addr = 0 };
    high = record { elf_file = some elf; addr = 0 };
  };
}

range_loop-end :
    (fuel : ℕ) (elf : Elf) (base : FileAddr) (rest : List ℕ) (pos end : ℕ)
    → at_pair fuel elf base 0 0 rest pos end ≡ ok (at_list_end elf base)
unfolding range_loop
range_loop-end fuel elf base rest pos end =
    rw
      (
        fixed_int-le_bytes 8 0 (le_bytes 8 0 ++ rest) pos end (omega arith),
        fixed_int-le_bytes 8 0 rest (pos + 8) end (omega arith),
      )
      refl

-- The iterator that a range gives.
abbrev at_range :
    (elf : Elf) (base : FileAddr) (low high : ℕ) (rest : List ℕ) (pos end : ℕ) → RangeIterator
at_range elf base low high rest pos end = record {
  base_address = base;
  behind = some (record { bytes = rest; pos = pos + 8 + 8; end = end });
  current = record {
    low = record { elf_file = some elf; addr = add64 low base.addr };
    high = record { elf_file = some elf; addr = add64 high base.addr };
  };
}

range_loop-span :
    (fuel : ℕ) (elf : Elf) (base : FileAddr) (low high : ℕ) (rest : List ℕ) (pos end : ℕ)
    → IsItem (span low high)
    → at_pair fuel elf base low high rest pos end ≡ ok (at_range elf base low high rest pos end)
unfolding range_loop move_up
range_loop-span fuel elf base low high rest pos end (hl, hh, present) =
    let plain : (low == u64_mod - 1) ≡ false = ground arith in
    let going : ((low == 0) && (high == 0)) ≡ false = ground arith in
    rw
      (
        fixed_int-le_bytes 8 low (le_bytes 8 high ++ rest) pos end (omega arith),
        fixed_int-le_bytes 8 high rest (pos + 8) end hh,
        plain,
        going,
      )
      refl

entry_contains-same :
    (elf other : Elf) (low high address : ℕ)
    → other.number ≡ elf.number
    → entry_contains
        (record {
          low = record { elf_file = some elf; addr = low };
          high = record { elf_file = some elf; addr = high };
        })
        (record { elf_file = some other; addr = address })
      ≡ ok (leb low address && ltb address high)
unfolding entry_contains less less_equal
entry_contains-same elf other low high address number =
    let there : (elf.number == other.number) ≡ true = ground arith in
    let back : (other.number == elf.number) ≡ true = ground arith in
    elim (Bool-cases (leb low address)) [
      | inl above ↦ rw (there, back, above) refl
      | inr below ↦ rw (there, below) refl
    ]

length-put_pair :
    (low high : ℕ) (rest : List ℕ) → length (put_pair low high rest) ≡ length rest + 16
length-put_pair low high rest = omega arith

length-put_items :
    (items : List RangeItem) (rest : List ℕ) → length items + 16 ≤ length (put_items items rest)
length-put_items [] rest = omega arith
length-put_items (based base ∷ items) rest = omega (arith, length-put_items items rest)
length-put_items (span low high ∷ items) rest = omega (arith, length-put_items items rest)

module _ (elf other : Elf) (address : ℕ) (number : other.number ≡ elf.number) where
  abbrev target : FileAddr
  target = record { elf_file = some other; addr = address }

  any_range-end :
      (fuel : ℕ) (base : FileAddr)
      → any_range (suc fuel) elf target (at_list_end elf base) ≡ ok false
  unfolding any_range
  any_range-end fuel base = refl

  any_range-span :
      (fuel : ℕ) (base : FileAddr) (low high : ℕ) (rest : List ℕ) (pos end : ℕ) (later : Bool)
      → (range_next elf base (record { bytes = rest; pos = pos + 8 + 8; end = end })
          >>= any_range fuel elf target)
        ≡ ok later
      → any_range (suc fuel) elf target (at_range elf base low high rest pos end)
        ≡ ok ((leb (add64 low base.addr) address && ltb address (add64 high base.addr)) || later)
  unfolding any_range
  any_range-span fuel base low high rest pos end later e =
      let covers = leb (add64 low base.addr) address && ltb address (add64 high base.addr) in
      let same =
        entry_contains-same elf other (add64 low base.addr) (add64 high base.addr) address number in
      elim (Bool-cases covers) [
        | inl inside ↦ rw (same, ◌>>=◌, inside) refl
        | inr outside ↦ rw (same, ◌>>=◌, outside) e
      ]

  scan :
      (items : List RangeItem) (rest : List ℕ) (base : FileAddr) (pos end rounds fuel : ℕ)
      → All IsItem items
      → length items < rounds
      → length items < fuel
      → (range_loop rounds elf base (record { bytes = put_items items rest; pos = pos; end = end })
          >>= any_range fuel elf target)
        ≡ ok (covered base.addr items address)
  unfolding range_next
  scan items rest base pos end zero fuel h r f = absurd (omega arith)
  scan items rest base pos end (suc rounds) zero h r f = absurd (omega arith)
  scan [] rest base pos end (suc rounds) (suc fuel) h r f =
      rw (range_loop-end rounds elf base rest pos end) (any_range-end fuel base)
  scan (based b ∷ items) rest base pos end (suc rounds) (suc fuel) (hb, h) r f =
      rw (range_loop-based rounds elf base b (put_items items rest) pos end hb) (
        scan items rest (record { elf_file = some elf; addr = b }) (pos + 8 + 8) end rounds
          (suc fuel) h (omega arith) (omega arith))
  scan (span low high ∷ items) rest base pos end (suc rounds) (suc fuel) (hs, h) r f =
      rw (range_loop-span rounds elf base low high (put_items items rest) pos end hs) (
        any_range-span fuel base low high (put_items items rest) pos end
          (covered base.addr items address)
          (scan items rest base (pos + 8 + 8) end (length (put_items items rest)) fuel h
            (omega (arith, length-put_items items rest)) (omega arith)))

-- Where the data of a list stand for new bases and ranges up to the pair of zeros, `contains` says of
-- an address of the same file exactly whether one of the ranges, counted from the base before it,
-- covers the address; it ends, and reads nothing behind the list.
pub ranges_contain-covered :
    (d : Dwarf) (ranges : RangeList) (other : Elf) (address : ℕ) (items : List RangeItem)
    (rest : List ℕ)
    → other.number ≡ d.elf_file.number
    → drop ranges.data_start d.image ≡ put_items items rest
    → All IsItem items
    → ranges_contain d ranges (record { elf_file = some other; addr = address })
      ≡ ok (covered ranges.base_address.addr items address)
unfolding ranges_contain begin_ranges range_next cursor
ranges_contain-covered d ranges other address items rest number bytes legal =
    let size : length d.image - ranges.data_start ≡ length (put_items items rest) =
      sym (length-drop ranges.data_start d.image) ∙ ap length bytes in
    rw bytes (
      scan d.elf_file other address number items rest ranges.base_address ranges.data_start
        ranges.data_end (length (put_items items rest)) (length d.image + 1) legal
        (omega (arith, length-put_items items rest))
        (omega (arith, length-put_items items rest, size)))
