-- ===== src/Process/Memory/Restore.antt =====
-- `read_memory_without_traps` gives the program's own bytes.
use kdebugger.Common.{
  ℕ, ◌+◌, ◌-◌, ◌≤◌, ◌<◌, ◌≡◌, refl, sym, ap, ◌∙◌, true, false, ◌&&◌, List, [], ◌∷◌, some, leb, ltb,
  set, length, All, Bool-cases, inl, inr, arith, ok,
}
use kdebugger.Stoppoints.{get_in_region}
use kdebugger.Process.Tracee.{Tracee, bytes_at}
use kdebugger.Process.State.{Site, Process, site_stoppoint}
use kdebugger.Process.Site.Patch.{is_armed, trapped, patch, Distinct, Saves, trapped-Away}
use kdebugger.Process.Site.Armed.{IsTrapped}
use kdebugger.Process.Memory.{remote_descs, read_memory, restore_saved, read_memory_without_traps}
use kdebugger.Process.Memory.Ranges.{
  length-bytes_at, bytes_at-congr, bytes_of_ranges-remote_descs, pad_zeros-full, prefix_full,
  set-bytes_at,
}

abbrev in_region : ℕ → ℕ → List Site → List Site
in_region low high sites = get_in_region site_stoppoint sites low high

region-nil : (low high : ℕ) → in_region low high [] ≡ []
unfolding get_in_region
region-nil low high = refl

module _ (low high : ℕ) (site : Site) (sites : List Site) where
  region_inside :
      (leb low site.address && ltb site.address high) ≡ true
      → in_region low high (site ∷ sites) ≡ site ∷ in_region low high sites
  unfolding get_in_region
  region_inside inside = ground arith

  region_outside :
      (leb low site.address && ltb site.address high) ≡ false
      → in_region low high (site ∷ sites) ≡ in_region low high sites
  unfolding get_in_region
  region_outside outside = ground arith

module _ (site : Site) (rest : List Site) (address : ℕ) (memory : List ℕ) where
  restore_armed :
      is_armed site ≡ true
      → restore_saved (site ∷ rest) address memory
        ≡ restore_saved rest address (set memory (site.address - address) site.saved_data)
  unfolding restore_saved
  restore_armed on = ap (restore_saved rest address) (ground arith)

  restore_unarmed :
      is_armed site ≡ false
      → restore_saved (site ∷ rest) address memory ≡ restore_saved rest address memory
  unfolding restore_saved
  restore_unarmed off = ap (restore_saved rest address) (ground arith)

restore-nil : (address : ℕ) (memory : List ℕ) → restore_saved [] address memory ≡ memory
unfolding restore_saved
restore-nil address memory = refl

-- The loop over the sites of the region turns the trapped view of it into the original bytes.
restore_saved-trapped :
    (original : ℕ → ℕ) (sites : List Site) (a n : ℕ) (f : ℕ → ℕ)
    → ((x : ℕ) → a ≤ x → x < a + n → f x ≡ trapped sites original x)
    → All (Saves original) sites
    → Distinct sites
    → restore_saved (in_region a (a + n) sites) a (bytes_at f a n) ≡ bytes_at original a n
unfolding trapped
restore_saved-trapped original [] a n f h saves d =
    rw (region-nil a (a + n), restore-nil) (bytes_at-congr f original a n h)
restore_saved-trapped original (site ∷ sites) a n f h (save, saves) (away, d) =
    elim (Bool-cases (leb a site.address && ltb site.address (a + n))) [
      | inr outside ↦
          rw (region_outside a (a + n) site sites outside) (
            restore_saved-trapped original sites a n f (λ x lo hi. h x lo hi ∙ ground arith) saves
              d)
      | inl inside ↦ elim (Bool-cases (is_armed site)) [
        | inl on ↦ rw (region_inside a (a + n) site sites inside) (
            rw
              (
                restore_armed site _ a _ on,
                set-bytes_at f a n site.address site.saved_data (ground arith),
              )
              (restore_saved-trapped original sites a n (patch f site.address site.saved_data)
                (λ x lo hi.
                  ground (arith, h x lo hi, save on, trapped-Away sites original site.address away))
                saves d))
        | inr off ↦ rw (region_inside a (a + n) site sites inside) (
            rw (restore_unarmed site _ a _ off) (
              restore_saved-trapped original sites a n f (λ x lo hi. h x lo hi ∙ ground arith) saves
                d))
      ]
    ]

module _ (t : Tracee) (p : Process t) (address amount : ℕ) (got : List ℕ) where
  -- A `read_memory` whose transfer is complete returns the bytes at the addresses.
  pub read_memory-bytes_at :
      t.readv p.tracee (remote_descs amount address amount) ≡ some got
      → length got ≡ amount
      → read_memory t p address amount ≡ ok (bytes_at (t.byte p.tracee) address amount)
  unfolding read_memory
  read_memory-bytes_at e full =
      let (rest, front) = t.readv_prefix p.tracee _ got e in
      let named =
        bytes_of_ranges-remote_descs (t.byte p.tracee) amount address amount (omega arith) in
      let all : got ≡ bytes_at (t.byte p.tracee) address amount =
        prefix_full _ got rest (sym named ∙ front)
          (full ∙ sym (length-bytes_at (t.byte p.tracee) address amount)) in
      rw (e, read_memory) (ap ok (pad_zeros-full amount got full ∙ all))

  -- While the sites are as the debugger's operations leave them, a `read_memory_without_traps` whose
  -- transfer is complete returns the program's own bytes, wherever breakpoints are set.
  pub read_memory_without_traps-original :
      (original : ℕ → ℕ)
      → IsTrapped t original p
      → t.readv p.tracee (remote_descs amount address amount) ≡ some got
      → length got ≡ amount
      → read_memory_without_traps t p address amount ≡ ok (bytes_at original address amount)
  unfolding read_memory_without_traps
  read_memory_without_traps-original original v e full = rw (read_memory-bytes_at e full) (
      ap ok (
        restore_saved-trapped original p.sites address amount (t.byte p.tracee)
          (λ x lo hi. v.shown x) v.saves v.distinct))
