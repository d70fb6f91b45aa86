-- ===== src/Process/Site/Apart.antt =====
-- That no operation on sites puts two of them at one address.
use kdebugger.Common.{
  ℕ, ◌≡◌, refl, sym, ap, subst, Bool-cases, List, some, get_elem?, set, inl, inr, ok, or_fail,
  >>=-eq-ok, or_fail-ok, ok-injective, fail-ne-ok, Option, Bool,
}
use kdebugger.Stoppoints.{contains_address}
use kdebugger.Process.Tracee.{Tracee}
use kdebugger.Process.State.{Site, Process, site_stoppoint}
use kdebugger.Process.Hardware.{set_hardware_breakpoint, clear_hardware_stoppoint}
use kdebugger.Process.Hardware.Keeps.{set_hardware_breakpoint-Keeps, clear_hardware_stoppoint-Keeps}
use kdebugger.Process.Site.{
  or_errno, poke, enable_software, enable_hardware, enable, disable_software, disable_hardware,
  disable, create_breakpoint_site,
}
use kdebugger.Process.Site.Armed.{poke-ok}
use kdebugger.Process.Site.Invariant.{Distinct-push, not_contained}
use kdebugger.Process.Site.Patch.{Distinct, Distinct-set}

module _ (t : Tracee) where
  abbrev pub Apart : Process t → Type 0
  Apart p = Distinct p.sites

  -- A site is put in the place of one at its address.
  stored :
      (i : ℕ) (p : Process t) (sites : List Site) (site site' : Site)
      → sites ≡ p.sites
      → get_elem? p.sites i ≡ some site
      → site'.address ≡ site.address
      → Apart p
      → Distinct (set sites i site')
  stored i p sites site site' same found there d =
      subst (λ s. Distinct (set s i site')) (sym same)
        (Distinct-set (λ x. x) site' p.sites i site found there d)

  enable_software-Apart :
      (i : ℕ) (p p' : Process t) (site : Site)
      → get_elem? p.sites i ≡ some site
      → Apart p
      → enable_software t i p site ≡ ok p'
      → Apart p'
  unfolding enable_software
  enable_software-Apart i p p' site found d e =
      let (word, seen, e₁) = >>=-eq-ok (or_errno (t.peek_data p.tracee site.address) _) _ e in
      let (q, written, e₂) = >>=-eq-ok (poke t p site.address _ _) _ e₁ in
      let (m, wrote, is_q) = poke-ok t (λ x. x) p q site.address _ _ written in
      subst Apart (ok-injective e₂)
        (stored i p q.sites site _ (ap (λ (r : Process t). r.sites) is_q) found refl d)

  disable_software-Apart :
      (i : ℕ) (p p' : Process t) (site : Site)
      → get_elem? p.sites i ≡ some site
      → Apart p
      → disable_software t i p site ≡ ok p'
      → Apart p'
  unfolding disable_software
  disable_software-Apart i p p' site found d e =
      let (word, seen, e₁) = >>=-eq-ok (or_errno (t.peek_data p.tracee site.address) _) _ e in
      let (q, written, e₂) = >>=-eq-ok (poke t p site.address _ _) _ e₁ in
      let (m, wrote, is_q) = poke-ok t (λ x. x) p q site.address _ _ written in
      subst Apart (ok-injective e₂)
        (stored i p q.sites site _ (ap (λ (r : Process t). r.sites) is_q) found refl d)

  pub enable-Apart : (i : ℕ) (p p' : Process t) → Apart p → enable t i p ≡ ok p' → Apart p'
  unfolding enable enable_hardware
  enable-Apart i p p' d e =
      let (site, got, e₁) = >>=-eq-ok (or_fail (get_elem? p.sites i)) _ e in
      let found = or_fail-ok _ got in
      elim (Bool-cases site.is_enabled) [
        | inl on ↦ subst Apart (ok-injective (rw on at e₁)) d
        | inr off ↦ elim (Bool-cases site.is_hardware) [
          | inr soft ↦ enable_software-Apart i p p' site found d (rw (off, soft) at e₁)
          | inl hard ↦
              let ((q, index), was_set, e₂) =
                >>=-eq-ok (set_hardware_breakpoint t p site.id site.address) _
                  (rw (off, hard) at e₁) in
              subst Apart (ok-injective e₂) (
                stored i p q.sites site _
                  (set_hardware_breakpoint-Keeps t p q site.id site.address index was_set).sites
                  found refl d)
        ]
      ]

  pub disable-Apart : (i : ℕ) (p p' : Process t) → Apart p → disable t i p ≡ ok p' → Apart p'
  unfolding disable disable_hardware
  disable-Apart i p p' d e =
      let (site, got, e₁) = >>=-eq-ok (or_fail (get_elem? p.sites i)) _ e in
      let found = or_fail-ok _ got in
      elim (Bool-cases site.is_enabled) [
        | inr off ↦ subst Apart (ok-injective (rw off at e₁)) d
        | inl on ↦ elim (Bool-cases site.is_hardware) [
          | inr soft ↦ disable_software-Apart i p p' site found d (rw (on, soft) at e₁)
          | inl hard ↦
              let (index, register, e₂) =
                >>=-eq-ok (or_fail site.hardware_register_index) _ (rw (on, hard) at e₁) in
              let (q, cleared, e₃) = >>=-eq-ok (clear_hardware_stoppoint t p index) _ e₂ in
              subst Apart (ok-injective e₃) (
                stored i p q.sites site _ (clear_hardware_stoppoint-Keeps t p q index cleared).sites
                  found refl d)
        ]
      ]

  pub create_breakpoint_site-Apart :
      (p p' : Process t) (parent : Option ℕ) (id address : ℕ) (hardware internal : Bool)
      (raw_id : ℕ)
      → Apart p
      → create_breakpoint_site t p parent id address hardware internal raw_id ≡ ok p'
      → Apart p'
  unfolding create_breakpoint_site
  create_breakpoint_site-Apart p p' parent id address hardware internal raw_id d e =
      elim (Bool-cases (contains_address site_stoppoint p.sites address)) [
        | inl taken ↦ absurd (fail-ne-ok (rw taken at e))
        | inr free ↦
            subst Apart (ok-injective (rw free at e))
              (Distinct-push p.sites _ d (not_contained p.sites address free))
      ]
