-- ===== src/Elf/Symbols.antt =====
-- The sections by name and the symbols of src/elf.cpp. The layout of the headers and of a symbol is
-- the system's, so the model starts from the tables that were copied; demangling is a parameter.
pub mod Lookup
use kdebugger.Common.{
  same_text, ℕ, zero, suc, ◌+◌, Bool, true, false, not, ◌&&◌, List, [], ◌∷◌, ◌++◌, Option, none,
  some, ◌==◌, ltb, leb, drop, get_elem?, if◌then◌else◌, Outcome, ok, fail, undefined, ◌>>=◌,
  or_fail,
}
use kdebugger.Common.Word.{add64}
use kdebugger.Elf.{Elf, FileAddr, to_file_addr}
use kdebugger.Elf.Addresses.{same_file}
use kdebugger.Dwarf.Cursor.{until_zero}

-- Of `Elf64_Shdr`, what the members of `elf` read.
pub record SectionHeader : Type 0 where
  pub sh_name : ℕ
  pub sh_addr : ℕ
  pub sh_offset : ℕ
  pub sh_size : ℕ

-- Of `Elf64_Sym`. `is_tls` is `ELF64_ST_TYPE(st_info) == STT_TLS`.
pub record Symbol : Type 0 where
  pub st_name : ℕ
  pub is_tls : Bool
  pub st_value : ℕ
  pub st_size : ℕ

-- The text at an offset of the file, up to its zero.
unfoldable pub text_at : List ℕ → ℕ → Outcome (List ℕ)
text_at image offset = do (text, behind) ← until_zero (drop offset image); ok text

-- `m_SectionMap`, the last section of a name before the others.
abbrev pub SectionMap : Type 0
SectionMap = List (List ℕ × SectionHeader)

-- `get_section_name`; `names` is the section of the index `e_shstrndx`.
unfoldable pub get_section_name : List ℕ → SectionHeader → ℕ → Outcome (List ℕ)
unfolding text_at
get_section_name image names index = text_at image (names.sh_offset + index)

unfoldable pub section_map_loop :
    List ℕ → SectionHeader → List SectionHeader → SectionMap → Outcome SectionMap
unfolding get_section_name
section_map_loop image names [] map = ok map
section_map_loop image names (section ∷ sections) map = do
  name ← get_section_name image names section.sh_name
  section_map_loop image names sections ((name, section) ∷ map)

unfoldable pub build_section_map : List ℕ → ℕ → List SectionHeader → Outcome SectionMap
unfolding section_map_loop
build_section_map image e_shstrndx [] = ok []
build_section_map image e_shstrndx (first ∷ sections) = do
  names ← or_fail (get_elem? (first ∷ sections) e_shstrndx)
  section_map_loop image names (first ∷ sections) []

unfoldable pub get_section : List ℕ → SectionMap → Option SectionHeader
get_section name [] = none
get_section name ((n, section) ∷ map) =
    let others = get_section name map in if same_text n name then some section else others

-- Where a section starts in the file, and its size. The source leaves out the parameter of the name.
unfoldable pub get_section_contents : List ℕ → SectionMap → ℕ × ℕ
unfolding get_section
get_section_contents name map = elim (get_section name map) [
  | none ↦ (0, 0)
  | some section ↦ (section.sh_offset, section.sh_size)
]

unfoldable pub get_section_start_address : Elf → List ℕ → SectionMap → Option FileAddr
unfolding get_section
get_section_start_address elf name map = elim (get_section name map) [
  | none ↦ none
  | some section ↦ some (record { elf_file = some elf; addr = section.sh_addr })
]

-- ".strtab" and ".dynstr".
abbrev pub strtab_name : List ℕ
strtab_name = 46 ∷ 115 ∷ 116 ∷ 114 ∷ 116 ∷ 97 ∷ 98 ∷ []

abbrev pub dynstr_name : List ℕ
dynstr_name = 46 ∷ 100 ∷ 121 ∷ 110 ∷ 115 ∷ 116 ∷ 114 ∷ []

unfoldable pub get_string : List ℕ → SectionMap → ℕ → Outcome (List ℕ)
unfolding get_section text_at
get_string image map index = elim (get_section strtab_name map) [
  | some strtab ↦ text_at image (strtab.sh_offset + index)
  | none ↦ elim (get_section dynstr_name map) [
    | some dynstr ↦ text_at image (dynstr.sh_offset + index)
    | none ↦ ok []
  ]
]

-- An entry of `m_SymbolAddrMap`, by the start of its range.
pub record Extent : Type 0 where
  pub start : ℕ
  pub stop : ℕ
  pub symbol : Symbol

-- `insert` into the ordered map, whose comparator looks at the starts alone: an equal start stays.
unfoldable pub insert_extent : Extent → List Extent → List Extent
insert_extent e [] = e ∷ []
insert_extent e (x ∷ xs) =
    let behind = insert_extent e xs in
    if ltb e.start x.start then e ∷ x ∷ xs else if ltb x.start e.start then x ∷ behind else x ∷ xs

abbrev pub has_extent : Symbol → Bool
has_extent s = not (s.st_value == 0) && not (s.st_name == 0) && not s.is_tls

abbrev pub extent_of : Symbol → Extent
extent_of s = record { start = s.st_value; stop = add64 s.st_value s.st_size; symbol = s }

-- The two maps; the entries by name stand in the order of their insertion.
pub record SymbolMaps : Type 0 where
  pub by_name : List (List ℕ × Symbol)
  pub by_address : List Extent

-- The addresses that the loop of `build_symbol_maps` enters.
unfoldable pub insert_symbols : List Symbol → List Extent → List Extent
unfolding insert_extent
insert_symbols [] map = map
insert_symbols (s ∷ symbols) map =
    insert_symbols symbols (if has_extent s then insert_extent (extent_of s) map else map)

-- The names: the demangled one, where there is one, and the other.
unfoldable pub names_of :
    (List ℕ → Option (List ℕ))
    → List ℕ
    → SectionMap
    → List Symbol
    → Outcome (List (List ℕ × Symbol))
unfolding get_string
names_of demangle image map [] = ok []
names_of demangle image map (s ∷ symbols) = do
  mangled ← get_string image map s.st_name
  others ← names_of demangle image map symbols
  ok (elim (demangle mangled) [
    | none ↦ (mangled, s) ∷ others
    | some name ↦ (name, s) ∷ (mangled, s) ∷ others
  ])

unfoldable pub build_symbol_maps :
    (List ℕ → Option (List ℕ)) → List ℕ → SectionMap → List Symbol → Outcome SymbolMaps
unfolding names_of insert_symbols
build_symbol_maps demangle image map symbols = do
  names ← names_of demangle image map symbols
  ok (record { by_name = names; by_address = insert_symbols symbols [] })

unfoldable pub get_symbols_by_name : List ℕ → List (List ℕ × Symbol) → List Symbol
get_symbols_by_name name [] = []
get_symbols_by_name name ((n, s) ∷ names) =
    let others = get_symbols_by_name name names in if same_text n name then s ∷ others else others

-- `find` and `lower_bound` of the ordered map.
unfoldable pub find_extent : ℕ → List Extent → Option Extent
find_extent a [] = none
find_extent a (x ∷ xs) = let later = find_extent a xs in if x.start == a then some x else later

unfoldable pub lower_bound : ℕ → List Extent → Option Extent
lower_bound a [] = none
lower_bound a (x ∷ xs) = let later = lower_bound a xs in if ltb x.start a then later else some x

abbrev pub symbol_of : Option Extent → Option Symbol
symbol_of none = none
symbol_of (some x) = some x.symbol

unfoldable pub get_symbol_at_address : Elf → List Extent → FileAddr → Option Symbol
unfolding find_extent
get_symbol_at_address elf map a =
    if same_file a.elf_file (some elf) then symbol_of (find_extent a.addr map) else none

abbrev pub is_first : Extent → List Extent → Bool
is_first x [] = false
is_first x (y ∷ ys) = x.start == y.start

-- Past the last entry, what `lower_bound` returns is read all the same.
unfoldable pub get_symbol_containing_address :
    Elf → List Extent → FileAddr → Outcome (Option Symbol)
unfolding lower_bound
get_symbol_containing_address elf [] a = ok none
get_symbol_containing_address elf (first ∷ map) a =
    if same_file a.elf_file (some elf)
    then elim (lower_bound a.addr (first ∷ map)) [
      | none ↦ fail undefined
      | some x ↦
          if x.start == a.addr
          then ok (some x.symbol)
          else if is_first x (first ∷ map)
          then ok none
          else if ltb x.start a.addr && ltb a.addr x.stop
          then ok (some x.symbol)
          else ok none
    ]
    else ok none

-- The overloads for addresses of the process.
unfoldable pub get_symbol_at_virt : Elf → List Extent → ℕ → Option Symbol
unfolding get_symbol_at_address to_file_addr
get_symbol_at_virt elf map v = get_symbol_at_address elf map (to_file_addr elf v)

unfoldable pub get_symbol_containing_virt : Elf → List Extent → ℕ → Outcome (Option Symbol)
unfolding get_symbol_containing_address to_file_addr
get_symbol_containing_virt elf map v = get_symbol_containing_address elf map (to_file_addr elf v)
