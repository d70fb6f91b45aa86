-- ===== src/Elf/Examples.antt =====
-- A file of two sections, loaded at 0x555555554000.
use kdebugger.Common.{◌≡◌, refl, true, [], ◌∷◌, some, arith, ok}
use kdebugger.Stoppoints.{has_value}
use kdebugger.Elf.{Elf, find_section, section_of_virt, section_of_file, to_virt_addr, to_file_addr}
use kdebugger.Elf.Convert.{IsPlaced, to_virt_addr-to_file_addr, to_file_addr-to_virt_addr}

abbrev loaded : Elf
loaded = record {
  number = 3;
  load_bias = 0x555555554000;
  sections =
      record { sh_addr = 0x1000; sh_size = 0x200 }
      ∷ record { sh_addr = 0x2000; sh_size = 0x80 }
      ∷ [];
}

loaded-IsPlaced : IsPlaced loaded
loaded-IsPlaced = (omega arith, (omega arith, tt))

in_section : has_value (section_of_virt loaded 0x555555556010) ≡ true
unfolding section_of_virt find_section
in_section = refl

to_virt_addr-to_file_addr_example :
    to_virt_addr (to_file_addr loaded 0x555555556010) ≡ ok 0x555555556010
to_virt_addr-to_file_addr_example =
    to_virt_addr-to_file_addr loaded 0x555555556010 loaded-IsPlaced (omega arith) in_section

in_file :
    has_value (section_of_file loaded (record { elf_file = some loaded; addr = 0x2010 })) ≡ true
unfolding section_of_file find_section
in_file = refl

converts : to_virt_addr (record { elf_file = some loaded; addr = 0x2010 }) ≡ ok 0x555555556010
unfolding to_virt_addr section_of_file find_section
converts = refl

to_file_addr-to_virt_addr_example :
    to_file_addr loaded 0x555555556010 ≡ record { elf_file = some loaded; addr = 0x2010 }
to_file_addr-to_virt_addr_example =
    to_file_addr-to_virt_addr loaded 0x2010 0x555555556010 loaded-IsPlaced in_file converts
