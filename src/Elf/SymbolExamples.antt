-- ===== src/Elf/SymbolExamples.antt =====
-- A symbol table of five entries: a function under two names, one without a value, one of a thread.
use kdebugger.Common.{◌≡◌, refl, true, false, List, [], ◌∷◌, some, ok}
use kdebugger.Elf.{Elf}
use kdebugger.Elf.Symbols.{
  Symbol, extent_of, insert_extent, insert_symbols, lower_bound, get_symbol_at_address,
  get_symbol_containing_address,
}
use kdebugger.Elf.Symbols.Lookup.{get_symbol_containing_address-start}

abbrev program : Elf
program = record { number = 2; load_bias = 0x555555554000; sections = [] }

abbrev main_symbol : Symbol
main_symbol = record { st_name = 9; is_tls = false; st_value = 0x1200; st_size = 0x40 }

abbrev table : List Symbol
table =
    record { st_name = 4; is_tls = false; st_value = 0x1300; st_size = 0x20 }
    ∷ main_symbol
    ∷ record { st_name = 15; is_tls = false; st_value = 0x1200; st_size = 0x10 }
    ∷ record { st_name = 20; is_tls = true; st_value = 0x1180; st_size = 8 }
    ∷ record { st_name = 25; is_tls = false; st_value = 0; st_size = 0 }
    ∷ []

bound : lower_bound 0x11f0 (insert_symbols table []) ≡ some (extent_of main_symbol)
unfolding lower_bound insert_symbols insert_extent
bound = refl

get_symbol_containing_address-start_example :
    get_symbol_containing_address program
      (insert_symbols table [])
      (record { elf_file = some program; addr = 0x11f0 })
    ≡ ok (
        get_symbol_at_address program
          (insert_symbols table [])
          (record { elf_file = some program; addr = 0x11f0 }))
get_symbol_containing_address-start_example =
    get_symbol_containing_address-start program program 0x11f0 table (extent_of main_symbol) refl
      bound
