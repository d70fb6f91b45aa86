-- ===== src/Dwarf/Examples.antt =====
-- Encodings read by the cursor of src/dwarf.cpp.
use kdebugger.Common.{◌≡◌, ◌<◌, ◌≤◌, ◌+◌, [], ◌∷◌, arith, refl, ok, length}
use kdebugger.Dwarf.Cursor.{Cursor, uleb128, sleb128}
use kdebugger.Dwarf.Cursor.Leb.{
  IsLeb, at_leb, past_leb, uleb128-leb_bytes, sleb128-leb_bytes, uleb128_takes,
}

-- The groups of 624485, which is encoded as 0xe5 0x8e 0x26.
long-IsLeb : IsLeb (0x65 ∷ 0x0e ∷ []) 0x26
long-IsLeb = record {
  groups = (omega arith, (omega arith, tt));
  top = omega arith;
  short = omega arith;
  fits = omega arith;
}

-- The groups of -128, which is encoded as 0x80 0x7f.
negative-IsLeb : IsLeb (0 ∷ []) 0x7f
negative-IsLeb = record {
  groups = (omega arith, tt);
  top = omega arith;
  short = omega arith;
  fits = omega arith;
}

uleb128-leb_bytes_example :
    uleb128 (at_leb (0x65 ∷ 0x0e ∷ []) 0x26 (7 ∷ []) 40 100)
    ≡ ok (624485, past_leb (0x65 ∷ 0x0e ∷ []) (7 ∷ []) 40 100)
uleb128-leb_bytes_example = uleb128-leb_bytes (0x65 ∷ 0x0e ∷ []) 0x26 (7 ∷ []) 40 100 long-IsLeb

sleb128-leb_bytes_example :
    sleb128 (at_leb (0 ∷ []) 0x7f (7 ∷ []) 40 100) ≡ ok (16256, past_leb (0 ∷ []) (7 ∷ []) 40 100)
sleb128-leb_bytes_example = sleb128-leb_bytes (0 ∷ []) 0x7f (7 ∷ []) 40 100 negative-IsLeb

abbrev before : Cursor
before = record { bytes = 0xe5 ∷ 0x8e ∷ 0x26 ∷ 7 ∷ []; pos = 40; end = 100 }

abbrev behind : Cursor
behind = record { bytes = 7 ∷ []; pos = 43; end = 100 }

reads_long : uleb128 before ≡ ok (624485, behind)
unfolding uleb128
reads_long = refl

uleb128_takes_example :
    (length behind.bytes < length before.bytes)
    × (length before.bytes ≤ length behind.bytes + 10)
    × (behind.pos + length behind.bytes ≡ before.pos + length before.bytes)
    × (behind.end ≡ before.end)
uleb128_takes_example = uleb128_takes before behind 624485 reads_long
