-- ===== src/Target/Breakpoint.antt =====
-- Class `breakpoint` and its kinds (src/breakpoint.cpp, include/libkdebugger/breakpoint.hpp). A pointer to
-- a breakpoint is its place in the target, and one to a site the site's address, which the process gives
-- to no other site. `raw_id` is what the constructor of a site leaves in the memory of its id.
pub mod Again
pub mod Toggle
use kdebugger.Common.{
  ℕ, zero, suc, ◌+◌, Bool, true, false, not, ◌&&◌, ◌||◌, List, [], ◌∷◌, ◌++◌, Option, none, some,
  ◌==◌, if◌then◌else◌, length, Outcome, ok, fail, undefined, ◌>>=◌, or_fail,
}
use kdebugger.Stoppoints
use kdebugger.Elf.{FileAddr, to_virt_addr}
use kdebugger.Elf.Addresses.{equal}
use kdebugger.Elf.Symbols.{Symbol, get_symbols_by_name}
use kdebugger.Dwarf.Die.{CompileUnit, Die, DieEntry, contains}
use kdebugger.Dwarf.Die.Ranges.{low_pc}
use kdebugger.Dwarf.Die.Index.{find_functions}
use kdebugger.Dwarf.LineTable.{Table, Iterator, get_entry_by_address, next}
use kdebugger.Dwarf.LineTable.ByLine.{Paths, get_entries_by_line}
use kdebugger.Process.Tracee.{Tracee}
use kdebugger.Process.State.{Site, Process, site_stoppoint}
use kdebugger.Process.Site.{enable, disable, create_breakpoint_site}
use kdebugger.Target.{LoadedElf, Numbers, lines, entries_of, inline_stack_at}
use kdebugger.Target.Places.{
  FoundFunctions, beside, find_target_functions, function_address, has_code, symbol_address,
  in_table, unit_entries, get_line_entries_by_line, should_skip_prologue, line_address,
}

-- The classes `address_breakpoint`, `function_breakpoint` and `line_breakpoint`.
pub data Kind : Type 0 where
  at_address : (address : ℕ) → Kind
  at_function : (name : List ℕ) → Kind
  at_line : (file : List ℕ) (line : ℕ) → Kind

-- The handlers that src/target.cpp installs.
pub data Handler : Type 0 where
  resolve_rendezvous reload_libraries : Handler

-- The id of an internal breakpoint is -1, here none.
pub record Breakpoint : Type 0 where
  pub id : Option ℕ
  pub is_enabled : Bool
  pub is_hardware : Bool
  pub is_internal : Bool
  pub next_site_id : ℕ
  pub site_addresses : List ℕ
  pub on_hit : Option Handler
  pub kind : Kind

-- The constructor, before `resolve`; `next_id` is what `get_next_id` would give.
unfoldable pub new_breakpoint : Kind → Bool → Bool → ℕ → Breakpoint
new_breakpoint kind is_hardware is_internal next_id = record {
  id = if is_internal then none else some next_id;
  is_enabled = false;
  is_hardware = is_hardware;
  is_internal = is_internal;
  next_site_id = 1;
  site_addresses = [];
  on_hit = none;
  kind = kind;
}

-- `at_address`.
unfoldable pub holds_site : ℕ → List ℕ → Bool
holds_site address [] = false
holds_site address (a ∷ addresses) =
    let later = holds_site address addresses in if a == address then true else later

abbrev pub is_empty : {A : Type 0} → List A → Bool
is_empty [] = true
is_empty (x ∷ xs) = false

module _ (t : Tracee) where
  -- `for_each` over the sites of a breakpoint. A pointer to a site that was removed dangles.
  unfoldable pub for_sites :
      (ℕ → Process t → Outcome (Process t)) → List ℕ → Process t → Outcome (Process t)
  unfolding Stoppoints.find_by_address
  for_sites change [] p = ok p
  for_sites change (address ∷ addresses) p = do
    i ← or_fail (Stoppoints.find_by_address site_stoppoint p.sites address)
    p' ← change i p
    for_sites change addresses p'

  unfoldable pub enable_breakpoint : Breakpoint → Process t → Outcome (Breakpoint × Process t)
  unfolding for_sites enable
  enable_breakpoint b p = do
    p' ← for_sites (enable t) b.site_addresses p
    ok (record b { is_enabled = true }, p')

  unfoldable pub disable_breakpoint : Breakpoint → Process t → Outcome (Breakpoint × Process t)
  unfolding for_sites disable
  disable_breakpoint b p = do
    p' ← for_sites (disable t) b.site_addresses p
    ok (record b { is_enabled = false }, p')

  module _ (raw_id : ℕ → ℕ) (self : ℕ) where
    -- A new site at an address, enabled where the breakpoint is.
    unfoldable pub place_site : ℕ → Breakpoint → Process t → Outcome (Breakpoint × Process t)
    unfolding create_breakpoint_site enable
    place_site address b p = do
      p₁ ←
          create_breakpoint_site t p (some self) b.next_site_id address b.is_hardware b.is_internal
            (raw_id address)
      p₂ ← (if b.is_enabled then enable t (length p.sites) p₁ else ok p₁)
      ok (record b { site_addresses = b.site_addresses ++ (address ∷ []) }, p₂)

    -- Unless the breakpoint has one there; the next site has the next id.
    unfoldable pub place_new_site : ℕ → Breakpoint → Process t → Outcome (Breakpoint × Process t)
    unfolding holds_site place_site
    place_new_site address b p = if holds_site address b.site_addresses then ok (b, p) else (do
      (b', p') ← place_site address b p
      ok (record b' { next_site_id = b.next_site_id + 1 }, p'))

    -- A loop that asks for one address after the other and places a site at each.
    unfoldable pub place_each :
        {A : Type 0}
        → (A → Outcome ℕ)
        → List A
        → Breakpoint
        → Process t
        → Outcome (Breakpoint × Process t)
    unfolding place_new_site
    place_each address_of [] b p = ok (b, p)
    place_each address_of (a ∷ rest) b p = do
      address ← address_of a
      (b', p') ← place_new_site address b p
      place_each address_of rest b' p'

    unfoldable pub resolve_address : ℕ → Breakpoint → Process t → Outcome (Breakpoint × Process t)
    unfolding place_site
    resolve_address address b p =
        if is_empty b.site_addresses then place_site address b p else ok (b, p)

    -- What `function_breakpoint::resolve` does for an entry of debugging information.
    unfoldable pub place_function :
        Numbers → LoadedElf × DieEntry → Breakpoint → Process t → Outcome (Breakpoint × Process t)
    unfolding function_address place_new_site
    place_function n (e, die) b p =
        if has_code n die
        then (do address ← function_address n e die; place_new_site address b p)
        else ok (b, p)

    -- Its loop, which goes over the symbols for each entry of debugging
    -- information anew.
    unfoldable pub resolve_functions :
        Numbers
        → List (LoadedElf × DieEntry)
        → List (LoadedElf × Symbol)
        → Breakpoint
        → Process t
        → Outcome (Breakpoint × Process t)
    unfolding place_function place_each symbol_address
    resolve_functions n [] symbols b p = ok (b, p)
    resolve_functions n ((e, die) ∷ functions) symbols b p = do
      (b₁, p₁) ← place_function n (e, die) b p
      (b₂, p₂) ← place_each (λ (f, symbol). symbol_address f symbol) symbols b₁ p₁
      resolve_functions n functions symbols b₂ p₂

    unfoldable pub resolve_kind :
        Numbers
        → Paths
        → List LoadedElf
        → Kind
        → Breakpoint
        → Process t
        → Outcome (Breakpoint × Process t)
    unfolding resolve_address find_target_functions resolve_functions get_line_entries_by_line
        place_each line_address
    resolve_kind n paths elves (at_address address) b p = resolve_address address b p
    resolve_kind n paths elves (at_function name) b p = do
      found ← find_target_functions n elves name
      resolve_functions n found.dwarf_functions found.elf_functions b p
    resolve_kind n paths elves (at_line file line) b p = do
      entries ← get_line_entries_by_line n paths elves file line
      place_each (line_address n elves) entries b p

    -- `resolve`, of the breakpoint's class.
    unfoldable pub resolve :
        Numbers → Paths → List LoadedElf → Breakpoint → Process t → Outcome (Breakpoint × Process t)
    unfolding resolve_kind
    resolve n paths elves b p = resolve_kind n paths elves b.kind b p
