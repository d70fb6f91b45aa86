-- ===== src/Dwarf/DieExamples.antt =====
-- A small abbreviation table, a search table and a range list.
use kdebugger.Common.{
  ℕ, ◌+◌, ◌*◌, ◌<◌, ◌≡◌, refl, true, List, [], ◌∷◌, map, some, inl, arith, Outcome, ok, fail, sent,
  ◌>>=◌,
}
use kdebugger.Common.Word.{sub64}
use kdebugger.Elf.{Elf, null_addr}
use kdebugger.Dwarf.Cursor.Leb.{IsLeb}
use kdebugger.Dwarf.Abbrev.{
  AbbrevTable, TableCache, find_abbrev, parse_abbrev_table, get_abbrev_table,
}
use kdebugger.Dwarf.Abbrev.Cache.{IsCache, get_abbrev_table-parse}
use kdebugger.Dwarf.Abbrev.Encoding.{Number, EncodedAbbrev, abbrev_of}
use kdebugger.Dwarf.Abbrev.Parse.{parse_abbrev_table-put}
use kdebugger.Dwarf.Die.{Dwarf}
use kdebugger.Dwarf.Die.Ranges.{RangeList, ranges_contain}
use kdebugger.Dwarf.Die.Ranges.Cover.{RangeItem, based, span, put_items, ranges_contain-covered}
use kdebugger.Dwarf.Frame.Header.{search_loop}
use kdebugger.Dwarf.Frame.Header.Search.{IsSorted, IsLast, search_loop-IsLast}
use kdebugger.Dwarf.Frame.Header.Refused.{search_loop-refused}

abbrev number : (n : ℕ) → IsLeb [] n → Number
number n h = record { groups = []; last = n; legal = h }

small-IsLeb : (n : ℕ) → n < 128 → IsLeb [] n
small-IsLeb n h = record { groups = tt; top = h; short = omega arith; fits = omega arith }

abbrev zero_number : Number
zero_number = number 0 (small-IsLeb 0 (omega arith))

abbrev unit_entry : EncodedAbbrev
unit_entry = record {
  code = number 1 (small-IsLeb 1 (omega arith));
  tag = number 0x11 (small-IsLeb 0x11 (omega arith));
  flag = 1;
  specs =
      record {
        attr = number 3 (small-IsLeb 3 (omega arith));
        form = number 8 (small-IsLeb 8 (omega arith));
        present = λ e. omega arith;
      }
      ∷ [];
  stop = zero_number;
}

abbrev last_entry : EncodedAbbrev
last_entry = record {
  code = zero_number;
  tag = zero_number;
  flag = 0;
  specs = [];
  stop = zero_number;
}

abbrev table_image : List ℕ
table_image = 9 ∷ 9 ∷ 1 ∷ 0x11 ∷ 1 ∷ 3 ∷ 8 ∷ 0 ∷ 0 ∷ 0 ∷ 0 ∷ 0 ∷ 0 ∷ 0 ∷ []

parse_abbrev_table-put_example :
    (table : AbbrevTable) × (parse_abbrev_table table_image (1, 14) 1 ≡ ok table)
    × ((code : ℕ) → find_abbrev code table ≡ find_abbrev code (map abbrev_of (unit_entry ∷ [])))
parse_abbrev_table-put_example =
    parse_abbrev_table-put table_image 1 14 1 (unit_entry ∷ []) last_entry [] refl
      ((λ e. omega arith), tt) refl

-- The table that it parses, as it is kept.
parsed : (table : AbbrevTable) × (parse_abbrev_table table_image (1, 14) 1 ≡ ok table)
parsed = (parse_abbrev_table-put_example.0, parse_abbrev_table-put_example.1)

get_abbrev_table-parse_example :
    ((get_abbrev_table table_image (1, 14) 1 ((1, parsed.0) ∷ []) >>= λ (table, left). ok table)
      ≡ parse_abbrev_table table_image (1, 14) 1)
    × ((table : AbbrevTable) (left : TableCache)
        → get_abbrev_table table_image (1, 14) 1 ((1, parsed.0) ∷ []) ≡ ok (table, left)
        → IsCache table_image (1, 14) left)
get_abbrev_table-parse_example =
    get_abbrev_table-parse table_image (1, 14) 1 ((1, parsed.0) ∷ []) (parsed.1, tt)

-- Three rows, at 100, 110 and 120.
abbrev address_of : ℕ → ℕ
address_of i = 100 + 10 * i

abbrev row_of : ℕ → Outcome ℕ
row_of i = ok (address_of i)

rows-IsSorted : IsSorted row_of address_of 3
rows-IsSorted = record { rows = λ i h. refl; ascending = λ i j h inside. omega arith }

search_loop-IsLast_example :
    (last : ℕ) × (search_loop row_of 115 4 0 (sub64 3 1) ≡ ok last)
    × IsLast row_of address_of 3 115 last
search_loop-IsLast_example =
    search_loop-IsLast row_of address_of 3 115 rows-IsSorted (omega arith) (omega arith)
      (omega arith)

search_loop-refused_example :
    search_loop row_of 99 4 0 (sub64 3 1) ≡ fail (sent "Address not found in eh_hdr")
search_loop-refused_example =
    search_loop-refused row_of address_of 3 99 rows-IsSorted (omega arith) (omega arith)
      (omega arith)

abbrev one_file : Elf
one_file = record { number = 7; load_bias = 0; sections = [] }

-- A base of 0x1000, and the ranges 0x10 to 0x20 and 0x30 to 0x40 behind it.
abbrev list_items : List RangeItem
list_items = based 0x1000 ∷ span 0x10 0x20 ∷ span 0x30 0x40 ∷ []

abbrev range_image : List ℕ
range_image = 0xff ∷ put_items list_items []

abbrev range_file : Dwarf
range_file = record {
  elf_file = one_file;
  image = range_image;
  debug_info = (0, 0);
  debug_abbrev = (0, 0);
  debug_str = (0, 0);
  debug_ranges = (1, 65);
  debug_line = (0, 0);
  compile_units = [];
}

abbrev range_list : RangeList
range_list = record { data_start = 1; data_end = 65; base_address = null_addr }

ranges_contain-covered_example :
    ranges_contain range_file range_list (record { elf_file = some one_file; addr = 0x1035 })
    ≡ ok true
ranges_contain-covered_example =
    ranges_contain-covered range_file range_list one_file 0x1035 list_items [] refl refl (
      omega arith,
      (
        (omega arith, omega arith, inl (λ e. omega arith)),
        ((omega arith, omega arith, inl (λ e. omega arith)), tt),
      ),
    )
