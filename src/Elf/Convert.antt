-- ===== src/Elf/Convert.antt =====
-- File addresses and virtual addresses of a loaded file convert into each other.
use kdebugger.Common.{
  ℕ, ◌+◌, ◌-◌, ◌^◌, ◌≤◌, ◌<◌, ◌≡◌, refl, sym, ap, ◌∙◌, true, List, [], ◌∷◌, some, All, ==_refl,
  arith, ok, ok-injective,
}
use kdebugger.Common.Word.{add64, sub64}
use kdebugger.Stoppoints.{has_value}
use kdebugger.Elf.{
  Section, Elf, find_section, holds_file, holds_virt, section_of_file, section_of_virt,
  to_virt_addr, to_file_addr,
}

-- No section of the loaded file reaches the end of the address space.
abbrev pub IsPlaced : Elf → Type 0
IsPlaced e = All (λ s. e.load_bias + s.sh_addr + s.sh_size < 2 ^ 64) e.sections

same_test :
    (bias a : ℕ) (s : Section)
    → bias + s.sh_addr + s.sh_size < 2 ^ 64
    → holds_virt bias (bias + a) s ≡ holds_file a s
same_test bias a s h = ground arith

same_find :
    (bias a : ℕ) (sections : List Section)
    → All (λ s. bias + s.sh_addr + s.sh_size < 2 ^ 64) sections
    → find_section (holds_virt bias (bias + a)) sections ≡ find_section (holds_file a) sections
unfolding find_section
same_find bias a [] h = refl
same_find bias a (s ∷ sections) (here, h) =
    rw (same_test bias a s here, same_find bias a sections h)

not_below :
    (bias v : ℕ) (sections : List Section)
    → All (λ s. bias + s.sh_addr + s.sh_size < 2 ^ 64) sections
    → has_value (find_section (holds_virt bias v) sections) ≡ true
    → bias ≤ v
unfolding find_section
not_below bias v [] h e = cc
not_below bias v (s ∷ sections) (here, h) e = ground (arith, not_below bias v sections h)

room_for :
    (bias a : ℕ) (sections : List Section)
    → All (λ s. bias + s.sh_addr + s.sh_size < 2 ^ 64) sections
    → has_value (find_section (holds_file a) sections) ≡ true
    → bias + a < 2 ^ 64
unfolding find_section
room_for bias a [] h e = cc
room_for bias a (s ∷ sections) (here, h) e = ground (arith, room_for bias a sections h)

-- For a file whose sections end before the address space does, a virtual address inside a section
-- converts to a file address that converts back to it.
pub to_virt_addr-to_file_addr :
    (e : Elf) (v : ℕ)
    → IsPlaced e
    → v < 2 ^ 64
    → has_value (section_of_virt e v) ≡ true
    → to_virt_addr (to_file_addr e v) ≡ ok v
unfolding to_virt_addr to_file_addr section_of_virt section_of_file
to_virt_addr-to_file_addr e v placed small found =
    let above : e.load_bias ≤ v = not_below e.load_bias v e.sections placed found in
    let a = v - e.load_bias in
    let shift : e.load_bias + a ≡ v = omega arith in
    let is_a : sub64 v e.load_bias ≡ a = omega arith in
    let in_file : has_value (find_section (holds_file a) e.sections) ≡ true =
      ap has_value (sym (same_find e.load_bias a e.sections placed)) ∙ rw shift found in
    rw (found, is_a, ==_refl e.number, in_file) (ap ok (omega arith))

-- For such a file, a file address inside a section converts to a virtual address that converts
-- back to it.
pub to_file_addr-to_virt_addr :
    (e : Elf) (a v : ℕ)
    → IsPlaced e
    → has_value (section_of_file e (record { elf_file = some e; addr = a })) ≡ true
    → to_virt_addr (record { elf_file = some e; addr = a }) ≡ ok v
    → to_file_addr e v ≡ record { elf_file = some e; addr = a }
unfolding to_virt_addr to_file_addr section_of_virt section_of_file
to_file_addr-to_virt_addr e a v placed found is_v =
    let in_file : has_value (find_section (holds_file a) e.sections) ≡ true =
      rw (==_refl e.number) at found in
    let room : e.load_bias + a < 2 ^ 64 = room_for e.load_bias a e.sections placed in_file in
    let sum : add64 a e.load_bias ≡ v = ok-injective (rw (==_refl e.number, in_file) at is_v) in
    let is : e.load_bias + a ≡ v = omega (arith, sum) in
    let in_virt : has_value (find_section (holds_virt e.load_bias v) e.sections) ≡ true =
      ap (λ (w : ℕ). has_value (find_section (holds_virt e.load_bias w) e.sections)) (sym is)
      ∙ ap has_value (same_find e.load_bias a e.sections placed)
      ∙ in_file in
    rw in_virt (ap (λ (n : ℕ). record { elf_file = some e; addr = n }) {y = a} (omega arith))
