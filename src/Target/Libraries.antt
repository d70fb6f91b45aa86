-- ===== src/Target/Libraries.antt =====
-- The shared libraries of the process and the breakpoints of the target (src/target.cpp).
use kdebugger.Common.{
  ℕ, zero, suc, ◌+◌, ◌/◌, Bool, true, false, List, [], ◌∷◌, ◌++◌, Option, none, some, ◌==◌,
  if◌then◌else◌, length, drop, get_elem?, set, Outcome, ok, ◌>>=◌, or_fail,
}
use kdebugger.Elf.{FileAddr, to_virt_addr, to_file_addr_in}
use kdebugger.Elf.Symbols.{get_section, get_string, get_symbol_containing_address}
use kdebugger.Dwarf.Die.{Die}
use kdebugger.Dwarf.Die.Values.{name}
use kdebugger.Dwarf.Die.Index.{function_containing_address}
use kdebugger.Process.Tracee.{Tracee}
use kdebugger.Process.Memory.{read_memory, take}
use kdebugger.Target.{LoadedElf, elves_of, find_elf, loaded_of}
use kdebugger.Target.Breakpoint.{
  Kind, at_address, at_function, at_line, Handler, resolve_rendezvous, reload_libraries, Breakpoint,
  new_breakpoint, is_empty, resolve, enable_breakpoint,
}
use kdebugger.Target.Run.{Target, Runner, with_process}
use kdebugger.Target.Rendezvous.{System, library_loop}

module _ (t : Tracee) (R : Type 0) (run : Runner t R) (s : System) where
  -- The bytes of `r_debug`; none before its address is known.
  unfoldable pub read_dynamic_linker_rendezvous : Target t R → Outcome (Option (List ℕ))
  unfolding read_memory
  read_dynamic_linker_rendezvous tgt = if tgt.rendezvous == 0 then ok none else (do
    bytes ← read_memory t tgt.control.process tgt.rendezvous s.r_debug_size
    ok (some bytes))

  -- `m_Breakpoints.for_each` with `resolve`, from a place on.
  unfoldable pub resolve_all : ℕ → List Breakpoint → Target t R → Outcome (Target t R)
  unfolding resolve
  resolve_all place [] tgt = ok tgt
  resolve_all place (b ∷ breakpoints) tgt = do
    (b', p) ← resolve t run.raw_id place run.numbers run.paths tgt.elves b tgt.control.process
    resolve_all (suc place) breakpoints
        (record (with_process t R run tgt p) { breakpoints = set tgt.breakpoints place b' })

  unfoldable pub reload_dynamic_libraries : Target t R → Outcome (Target t R)
  unfolding read_dynamic_linker_rendezvous library_loop resolve_all
  reload_dynamic_libraries tgt = do
    debug ← read_dynamic_linker_rendezvous tgt
    elim debug [
      | none ↦ ok tgt
      | some bytes ↦ do
        elves ←
            library_loop t s run.paths run.rounds tgt.control.process (s.r_map_of bytes) tgt.elves
        resolve_all 0 tgt.breakpoints (record tgt { elves = elves })
    ]

  -- The counter of ids does not move for an internal breakpoint.
  abbrev pub id_behind : Bool → ℕ → ℕ
  id_behind is_internal id = if is_internal then id else id + 1

  -- `create_address_breakpoint` and its like: the constructor resolves the breakpoint before it is pushed.
  -- With its place.
  unfoldable pub create_breakpoint : Kind → Bool → Bool → Target t R → Outcome (ℕ × Target t R)
  unfolding new_breakpoint resolve
  create_breakpoint kind hardware internal tgt = do
    let place = length tgt.breakpoints
    (b, p) ←
        resolve t run.raw_id place run.numbers run.paths tgt.elves
          (new_breakpoint kind hardware internal (tgt.next_breakpoint_id + 1)) tgt.control.process
    ok (
      place,
      record (with_process t R run tgt p) {
        breakpoints = tgt.breakpoints ++ (b ∷ []);
        next_breakpoint_id = id_behind internal tgt.next_breakpoint_id;
      },
    )

  unfoldable pub create_address_breakpoint : ℕ → Bool → Bool → Target t R → Outcome (ℕ × Target t R)
  unfolding create_breakpoint
  create_address_breakpoint address = create_breakpoint (at_address address)

  unfoldable pub create_function_breakpoint :
      List ℕ → Bool → Bool → Target t R → Outcome (ℕ × Target t R)
  unfolding create_breakpoint
  create_function_breakpoint text = create_breakpoint (at_function text)

  unfoldable pub create_line_breakpoint :
      List ℕ → ℕ → Bool → Bool → Target t R → Outcome (ℕ × Target t R)
  unfolding create_breakpoint
  create_line_breakpoint file line = create_breakpoint (at_line file line)

  -- `install_hit_handler` and `enable` on the breakpoint at a place.
  unfoldable pub arm_with : Handler → ℕ → Target t R → Outcome (Target t R)
  unfolding enable_breakpoint
  arm_with handler place tgt = do
    b ← or_fail (get_elem? tgt.breakpoints place)
    (b', p) ← enable_breakpoint t (record b { on_hit = some handler }) tgt.control.process
    ok (record (with_process t R run tgt p) { breakpoints = set tgt.breakpoints place b' })

  -- What the entry DT_DEBUG leads to: the libraries are loaded, and a breakpoint waits for their change.
  unfoldable pub follow_debug : ℕ → Target t R → Outcome (Target t R)
  unfolding reload_dynamic_libraries read_dynamic_linker_rendezvous create_address_breakpoint
      arm_with
  follow_debug d_ptr tgt = do
    loaded ← reload_dynamic_libraries (record tgt { rendezvous = d_ptr })
    debug ← read_dynamic_linker_rendezvous loaded
    bytes ← or_fail debug
    (place, made) ← create_address_breakpoint (s.r_brk_of bytes) false true loaded
    arm_with reload_libraries place made

  -- The loop over the entries of ".dynamic"; `count` of them are left.
  unfoldable pub dynamic_loop : ℕ → List ℕ → Target t R → Outcome (Target t R)
  unfolding follow_debug
  dynamic_loop zero bytes tgt = ok tgt
  dynamic_loop (suc count) bytes tgt = do
    let entry = take s.dyn_size bytes
    tgt' ← (if s.d_tag_of entry == s.dt_debug then follow_debug (s.d_ptr_of entry) tgt else ok tgt)
    dynamic_loop count (drop s.dyn_size bytes) tgt'

  -- ".dynamic".
  abbrev pub dynamic_name : List ℕ
  dynamic_name = 46 ∷ 100 ∷ 121 ∷ 110 ∷ 97 ∷ 109 ∷ 105 ∷ 99 ∷ []

  unfoldable pub resolve_dynamic_linker_rendezvous : Target t R → Outcome (Target t R)
  unfolding find_elf get_section to_virt_addr read_memory dynamic_loop
  resolve_dynamic_linker_rendezvous tgt =
      if tgt.rendezvous == 0
      then (do
        e ← or_fail (find_elf tgt.main_elf tgt.elves)
        section ← or_fail (get_section dynamic_name e.section_map)
        start ← to_virt_addr (record { elf_file = some e.elf; addr = section.sh_addr })
        bytes ← read_memory t tgt.control.process start section.sh_size
        dynamic_loop (section.sh_size / s.dyn_size) bytes tgt)
      else ok tgt

  -- `notify_hit` of the breakpoint at a place; a handler has the process go on.
  unfoldable pub notify_hit : ℕ → Target t R → Outcome (Bool × Target t R)
  unfolding resolve_dynamic_linker_rendezvous reload_dynamic_libraries
  notify_hit place tgt = do
    b ← or_fail (get_elem? tgt.breakpoints place)
    elim b.on_hit [
      | none ↦ ok (false, tgt)
      | some resolve_rendezvous ↦ do tgt' ← resolve_dynamic_linker_rendezvous tgt; ok (true, tgt')
      | some reload_libraries ↦ do tgt' ← reload_dynamic_libraries tgt; ok (true, tgt')
    ]

  -- What `launch` does to the target that it makes: a hit of the entry point finds the libraries.
  unfoldable pub watch_entry_point : ℕ → Target t R → Outcome (Target t R)
  unfolding create_address_breakpoint arm_with
  watch_entry_point entry_point tgt = do
    (place, made) ← create_address_breakpoint entry_point false true tgt
    arm_with resolve_rendezvous place made

  -- The name of the symbol around an address, where it is a function's.
  unfoldable pub elf_function_name : LoadedElf → FileAddr → Outcome (List ℕ)
  unfolding get_symbol_containing_address get_string
  elf_function_name e a = do
    symbol ← get_symbol_containing_address e.elf e.symbols.by_address a
    elim symbol [
      | none ↦ ok []
      | some found ↦
          if s.is_func found then get_string e.image e.section_map found.st_name else ok []
    ]

  -- The name of the function's entry, where it has one.
  unfoldable pub dwarf_function_name : LoadedElf → Option Die → Outcome (Option (List ℕ))
  unfolding name
  dwarf_function_name e none = ok none
  dwarf_function_name e (some die) = do
    entry ← or_fail die.entry
    name (length e.dwarf.image + 1) run.numbers.outside e.dwarf entry

  -- The test of the name is the source's, which shows a name only where there is none. 96 is "`".
  unfoldable pub function_name_at_address : ℕ → Target t R → Outcome (List ℕ)
  unfolding to_file_addr_in loaded_of function_containing_address dwarf_function_name
      elf_function_name
  function_name_at_address address tgt = do
    let a = to_file_addr_in (elves_of tgt.elves) address
    e ← loaded_of tgt.elves a
    (func, index) ← function_containing_address run.numbers.outside e.dwarf [] a
    named ← dwarf_function_name e func
    func_name ← elim named [ some text ↦ ok text | none ↦ elf_function_name e a ]
    ok (if is_empty func_name then s.filename e.path ++ (96 ∷ func_name) else [])
