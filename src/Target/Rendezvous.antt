-- ===== src/Target/Rendezvous.antt =====
-- The list of shared libraries that the dynamic linker keeps in the process (src/target.cpp), with the
-- lookups of files by path in src/elf.cpp. The layouts of `r_debug`, `link_map`, `Elf64_Dyn` and
-- `Elf64_Ehdr` are the system's, and reading a file is its own matter, so both are parameters.
use kdebugger.Common.{
  ℕ, zero, suc, Bool, true, false, ◌&&◌, List, [], ◌∷◌, ◌++◌, Option, none, some, ◌==◌,
  if◌then◌else◌, length, same_text, Outcome, ok, fail, undefined, ◌>>=◌,
}
use kdebugger.Elf.Symbols.{Symbol}
use kdebugger.Dwarf.Cursor.{until_zero}
use kdebugger.Dwarf.LineTable.ByLine.{Paths, same_components}
use kdebugger.Process.Tracee.{Tracee}
use kdebugger.Process.State.{Process}
use kdebugger.Process.Memory.{read_memory}
use kdebugger.Target.{LoadedElf}
use kdebugger.Target.Breakpoint.{is_empty}

-- Of `link_map`, what the loop reads.
pub record LinkMap : Type 0 where
  pub l_addr : ℕ
  pub l_name : ℕ
  pub l_next : ℕ

-- The system's structures by their bytes, and what is done with files: `open_elf` is the constructor of
-- `elf` for a path and `notify_loaded`, for the file's number in the collection, and `write_vdso` the
-- file that bytes are dumped to.
pub record System : Type 0 where
  pub r_debug_size : ℕ
  pub r_map_of : List ℕ → ℕ
  pub r_brk_of : List ℕ → ℕ
  pub link_map_size : ℕ
  pub link_map_of : List ℕ → LinkMap
  pub dyn_size : ℕ
  pub d_tag_of : List ℕ → ℕ
  pub d_ptr_of : List ℕ → ℕ
  pub dt_debug : ℕ
  pub ehdr_size : ℕ
  pub section_headers_end : List ℕ → ℕ
  pub open_elf : ℕ → List ℕ → ℕ → Outcome LoadedElf
  pub write_vdso : List ℕ → List ℕ
  pub filename : List ℕ → List ℕ
  pub is_func : Symbol → Bool

-- `operator ==` of paths.
abbrev pub same_path : Paths → List ℕ → List ℕ → Bool
same_path paths a b =
    same_components (paths.components a) (paths.components b)
    && same_components (paths.components b) (paths.components a)

unfoldable pub get_elf_by_path : Paths → List ℕ → List LoadedElf → Option LoadedElf
unfolding same_components
get_elf_by_path paths path [] = none
get_elf_by_path paths path (e ∷ elves) =
    let later = get_elf_by_path paths path elves in
    if same_path paths e.path path then some e else later

unfoldable pub get_elf_by_filename : System → List ℕ → List LoadedElf → Option LoadedElf
get_elf_by_filename s text [] = none
get_elf_by_filename s text (e ∷ elves) =
    let later = get_elf_by_filename s text elves in
    if same_text (s.filename e.path) text then some e else later

-- "linux.vdso.so.1".
abbrev pub vdso_name : List ℕ
vdso_name = 108 ∷ 105 ∷ 110 ∷ 117 ∷ 120 ∷ 46 ∷ 118 ∷ 100 ∷ 115 ∷ 111 ∷ 46 ∷ 115 ∷ 111 ∷ 46 ∷ 49 ∷ []

module _ (t : Tracee) (s : System) (paths : Paths) where
  -- `dump_vdso`.
  unfoldable pub dump_vdso : Process t → ℕ → Outcome (List ℕ)
  unfolding read_memory
  dump_vdso p address = do
    header ← read_memory t p address s.ehdr_size
    bytes ← read_memory t p address (s.section_headers_end header)
    ok (s.write_vdso bytes)

  -- The file of an entry of the list, unless it is there or has no name.
  unfoldable pub add_library : Process t → ℕ → List ℕ → List LoadedElf → Outcome (List LoadedElf)
  unfolding get_elf_by_path get_elf_by_filename same_components dump_vdso
  add_library p l_addr text elves = if is_empty text then ok elves else (do
    let is_vdso = same_path paths text vdso_name
    let found =
        (if is_vdso then get_elf_by_filename s text elves else get_elf_by_path paths text elves)
    elim found [
      | some e ↦ ok elves
      | none ↦ do
        path ← (if is_vdso then dump_vdso p l_addr else ok text)
        new ← s.open_elf (length elves) path l_addr
        ok (elves ++ (record new { path = path } ∷ []))
    ])

  -- The loop over the list in the process, which ends at a null pointer; the list may be a ring.
  unfoldable pub library_loop : ℕ → Process t → ℕ → List LoadedElf → Outcome (List LoadedElf)
  unfolding read_memory until_zero add_library
  library_loop zero p entry_ptr elves = fail undefined
  library_loop (suc rounds) p entry_ptr elves = elim (entry_ptr == 0) [
    | true ↦ ok elves
    | false ↦ do
      bytes ← read_memory t p entry_ptr s.link_map_size
      let entry = s.link_map_of bytes
      name_bytes ← read_memory t p entry.l_name 4096
      (text, behind) ← until_zero name_bytes
      elves' ← add_library p entry.l_addr text elves
      library_loop rounds p entry.l_next elves'
  ]
