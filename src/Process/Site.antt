-- ===== src/Process/Site.antt =====
-- Class `breakpoint_site` (src/breakpoint_site.cpp), the collection of sites in a process, and their
-- creation (src/process.cpp). A site is its place in `m_BreakPointSites`.
pub mod Patch
pub mod Armed
pub mod Toggle
pub mod Invariant
pub mod Apart
pub mod Removed
pub mod Observed
use kdebugger.Common.{
  ℕ, ◌+◌, ◌^◌, bit_and, bit_or, Bool, true, false, List, Option, none, some, if◌then◌else◌,
  get_elem?, set, Outcome, ok, fail, or_fail, sent, sent_errno, undefined, ◌>>=◌, String,
}
use kdebugger.Stoppoints
use kdebugger.Process.Tracee.{Tracee}
use kdebugger.Process.State.{Site, Process, site_stoppoint}
use kdebugger.Process.Hardware.{set_hardware_breakpoint, clear_hardware_stoppoint}

-- The private constructor: `id` is not used, and `m_Id` keeps whatever value `raw_id` it had.
unfoldable pub new_site : Option ℕ → ℕ → ℕ → Bool → Bool → ℕ → Site
new_site parent id address is_hardware is_internal raw_id = record {
  address = address;
  id = raw_id;
  hardware_register_index = none;
  is_enabled = false;
  is_hardware = is_hardware;
  is_internal = is_internal;
  saved_data = 0;
  parent = parent;
}

abbrev pub or_errno : Option ℕ → String → Outcome ℕ
or_errno none message = fail (sent_errno message)
or_errno (some w) message = ok w

module _ (t : Tracee) where
  store_site : Process t → ℕ → Site → Process t
  store_site p i site = record p { sites = set p.sites i site }

  unfoldable pub poke : Process t → ℕ → ℕ → String → Outcome (Process t)
  poke p address word message = elim (t.poke_data p.tracee address word) [
    | none ↦ fail (sent_errno message)
    | some m ↦ ok (record p { tracee = m })
  ]

  -- The software branch of `enable`: the lowest byte at the address is saved and becomes 0xcc.
  unfoldable pub enable_software : ℕ → Process t → Site → Outcome (Process t)
  unfolding store_site poke
  enable_software i p site = do
    word ← or_errno (t.peek_data p.tracee site.address) "Enabling breakpoint site failed!\n"
    let word_with_int3 = bit_or (bit_and word 0xffff_ffff_ffff_ff00) 0xcc
    p' ← poke p site.address word_with_int3 "Enabling breakpoint site failed\n"
    ok (store_site p' i (record site { saved_data = bit_and word 0xff; is_enabled = true }))

  unfoldable pub enable_hardware : ℕ → Process t → Site → Outcome (Process t)
  unfolding store_site
  enable_hardware i p site = do
    (p', index) ← set_hardware_breakpoint t p site.id site.address
    ok (store_site p' i (record site { hardware_register_index = some index; is_enabled = true }))

  unfoldable pub enable : ℕ → Process t → Outcome (Process t)
  enable i p = do
    site ← or_fail (get_elem? p.sites i)
    if site.is_enabled
        then ok p
        else (if site.is_hardware then enable_hardware i p site else enable_software i p site)

  unfoldable pub disable_software : ℕ → Process t → Site → Outcome (Process t)
  unfolding store_site poke
  disable_software i p site = do
    word ← or_errno (t.peek_data p.tracee site.address) "Disabling breakpoint site failed\n"
    let restored_word = bit_or (bit_and word 0xffff_ffff_ffff_ff00) site.saved_data
    p' ← poke p site.address restored_word "Disabling breakpoint site failed\n"
    ok (store_site p' i (record site { is_enabled = false }))

  -- Register index -1 would name the register before `dr0`.
  unfoldable pub disable_hardware : ℕ → Process t → Site → Outcome (Process t)
  unfolding store_site
  disable_hardware i p site = do
    index ← or_fail site.hardware_register_index
    p' ← clear_hardware_stoppoint t p index
    ok (store_site p' i (record site { hardware_register_index = none; is_enabled = false }))

  unfoldable pub disable : ℕ → Process t → Outcome (Process t)
  disable i p = do
    site ← or_fail (get_elem? p.sites i)
    if site.is_enabled
        then (if site.is_hardware then disable_hardware i p site else disable_software i p site)
        else ok p

  -- The overload that breakpoints call.
  unfoldable pub create_breakpoint_site :
      Process t → Option ℕ → ℕ → ℕ → Bool → Bool → ℕ → Outcome (Process t)
  unfolding new_site Stoppoints.push Stoppoints.contains_address
  create_breakpoint_site p parent id address hardware internal raw_id =
      if Stoppoints.contains_address site_stoppoint p.sites address
      then fail (sent "Breakpoint site already created at address")
      else ok (record p {
        sites =
            Stoppoints.push site_stoppoint p.sites
              (new_site parent id address hardware internal raw_id);
      })

  -- `m_BreakPointSites.remove_by_address`.
  unfoldable pub remove_site : ℕ → Process t → Outcome (Process t)
  unfolding Stoppoints.remove_by_address
  remove_site address p =
      Stoppoints.remove_by_address site_stoppoint (λ q. q.sites)
        (λ q sites. record q { sites = sites }) disable address p
