-- ===== src/Elf.antt =====
-- The sections of an ELF file and the conversion of addresses: src/types.cpp and the lookups of
-- src/elf.cpp. A pointer to an `elf` is its number in the collection.
pub mod Convert
pub mod Addresses
pub mod Symbols
mod Examples
mod SymbolExamples
use kdebugger.Common.{
  ℕ, zero, suc, Bool, true, false, ◌&&◌, not, List, [], ◌∷◌, Option, none, some, if◌then◌else◌, leb,
  ltb, ◌==◌, Outcome, ok, fail, undefined,
}
use kdebugger.Common.Word.{add64, sub64}
use kdebugger.Stoppoints.{has_value}

-- Of `Elf64_Shdr`, what the lookups read.
pub record Section : Type 0 where
  pub sh_addr : ℕ
  pub sh_size : ℕ

pub record Elf : Type 0 where
  pub number : ℕ
  pub load_bias : ℕ
  pub sections : List Section

-- `file_addr`; none is the null pointer.
pub record FileAddr : Type 0 where
  pub elf_file : Option Elf
  pub addr : ℕ

abbrev pub null_addr : FileAddr
null_addr = record { elf_file = none; addr = 0 }

-- The first section that passes the test.
unfoldable pub find_section : (Section → Bool) → List Section → Option Section
find_section test [] = none
find_section test (section ∷ rest) =
    let later = find_section test rest in if test section then some section else later

abbrev pub holds_file : ℕ → Section → Bool
holds_file a section = leb section.sh_addr a && ltb a (add64 section.sh_addr section.sh_size)

abbrev pub holds_virt : ℕ → ℕ → Section → Bool
holds_virt bias v section =
    leb (add64 bias section.sh_addr) v && ltb v (add64 (add64 bias section.sh_addr) section.sh_size)

-- `get_section_containing_address` of a `file_addr`.
unfoldable pub section_of_file : Elf → FileAddr → Option Section
unfolding find_section
section_of_file e a = elim a.elf_file [
  | none ↦ none
  | some other ↦
      if other.number == e.number then find_section (holds_file a.addr) e.sections else none
]

-- `get_section_containing_address` of a `virt_addr`.
unfoldable pub section_of_virt : Elf → ℕ → Option Section
unfolding find_section
section_of_virt e v = find_section (holds_virt e.load_bias v) e.sections

-- `file_addr::to_virt_addr`. The assertion fails on the null pointer.
unfoldable pub to_virt_addr : FileAddr → Outcome ℕ
unfolding section_of_file
to_virt_addr a = elim a.elf_file [
  | none ↦ fail undefined
  | some e ↦ if has_value (section_of_file e a) then ok (add64 a.addr e.load_bias) else ok 0
]

-- `virt_addr::to_file_addr` for one file.
unfoldable pub to_file_addr : Elf → ℕ → FileAddr
unfolding section_of_virt
to_file_addr e v =
    if has_value (section_of_virt e v)
    then record { elf_file = some e; addr = sub64 v e.load_bias }
    else null_addr

-- `elf_collection::get_elf_containing_address`.
unfoldable pub get_elf_containing_address : List Elf → ℕ → Option Elf
unfolding section_of_virt
get_elf_containing_address [] v = none
get_elf_containing_address (e ∷ elves) v =
    let later = get_elf_containing_address elves v in
    if has_value (section_of_virt e v) then some e else later

-- `virt_addr::to_file_addr` for a collection.
unfoldable pub to_file_addr_in : List Elf → ℕ → FileAddr
unfolding get_elf_containing_address to_file_addr
to_file_addr_in elves v = elim (get_elf_containing_address elves v) [
  | none ↦ null_addr
  | some e ↦ to_file_addr e v
]
