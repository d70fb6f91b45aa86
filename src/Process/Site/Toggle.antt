-- ===== src/Process/Site/Toggle.antt =====
-- Enabling and disabling a site keep the program's own bytes recoverable.
use kdebugger.Common.{
  ℕ, ◌≡◌, refl, sym, subst, ◌∙◌, ap, bit_and, true, false, ◌<◌, some, get_elem?, set, arith,
  Bool-cases, inl, inr, ok, or_fail, >>=-eq-ok, ok-injective, or_fail-ok,
}
use kdebugger.Process.Tracee.{Tracee}
use kdebugger.Process.State.{Site, Process}
use kdebugger.Process.Hardware.{set_hardware_breakpoint, clear_hardware_stoppoint}
use kdebugger.Process.Hardware.Keeps.{set_hardware_breakpoint-Keeps, clear_hardware_stoppoint-Keeps}
use kdebugger.Process.Site.{
  or_errno, poke, enable_software, enable_hardware, enable, disable_software, disable_hardware,
  disable,
}
use kdebugger.Process.Site.Patch.{is_armed}
use kdebugger.Process.Site.Armed.{
  IsTrapped, or_errno-ok, poke-ok, arm-IsTrapped, disarm-IsTrapped, keep-IsTrapped,
}

module _ (t : Tracee) (original : ℕ → ℕ) where
  enable_software-IsTrapped :
      (i : ℕ) (p p' : Process t) (site : Site)
      → IsTrapped t original p
      → get_elem? p.sites i ≡ some site
      → site.is_enabled ≡ false
      → site.is_hardware ≡ false
      → enable_software t i p site ≡ ok p'
      → IsTrapped t original p'
  unfolding enable_software
  enable_software-IsTrapped i p p' site v found off soft e =
      let (word, seen, e₁) = >>=-eq-ok (or_errno (t.peek_data p.tracee site.address) _) _ e in
      let (q, written, e₂) = >>=-eq-ok (poke t p site.address _ _) _ e₁ in
      let (m, wrote, is_q) = poke-ok t original p q site.address _ _ written in
      let armed : Site = record site { saved_data = bit_and word 0xff; is_enabled = true } in
      let is_p' : record p { tracee = m; sites = set p.sites i armed } ≡ p' =
        ap (λ (r : Process t). record r { sites = set r.sites i armed }) (sym is_q)
        ∙ ok-injective e₂ in
      subst (IsTrapped t original) is_p' (
        arm-IsTrapped t original i p m site word v found (ground arith) soft (or_errno-ok _ _ seen)
          wrote)

  disable_software-IsTrapped :
      (i : ℕ) (p p' : Process t) (site : Site)
      → ((x : ℕ) → original x < 256)
      → IsTrapped t original p
      → get_elem? p.sites i ≡ some site
      → is_armed site ≡ true
      → disable_software t i p site ≡ ok p'
      → IsTrapped t original p'
  unfolding disable_software
  disable_software-IsTrapped i p p' site small v found on e =
      let (word, seen, e₁) = >>=-eq-ok (or_errno (t.peek_data p.tracee site.address) _) _ e in
      let (q, written, e₂) = >>=-eq-ok (poke t p site.address _ _) _ e₁ in
      let (m, wrote, is_q) = poke-ok t original p q site.address _ _ written in
      let plain : Site = record site { is_enabled = false } in
      let is_p' : record p { tracee = m; sites = set p.sites i plain } ≡ p' =
        ap (λ (r : Process t). record r { sites = set r.sites i plain }) (sym is_q)
        ∙ ok-injective e₂ in
      subst (IsTrapped t original) is_p'
        (disarm-IsTrapped t original i p m site word v found on (or_errno-ok _ _ seen) wrote small)

  enable_hardware-IsTrapped :
      (i : ℕ) (p p' : Process t) (site : Site)
      → IsTrapped t original p
      → get_elem? p.sites i ≡ some site
      → site.is_enabled ≡ false
      → site.is_hardware ≡ true
      → enable_hardware t i p site ≡ ok p'
      → IsTrapped t original p'
  unfolding enable_hardware
  enable_hardware-IsTrapped i p p' site v found off hard e =
      let ((q, index), set_up, e₁) =
        >>=-eq-ok (set_hardware_breakpoint t p site.id site.address) _ e in
      subst (IsTrapped t original) (ok-injective e₁) (
        keep-IsTrapped t original i p q site _ v
          (set_hardware_breakpoint-Keeps t p q site.id site.address index set_up) found
          (ground arith) (ground arith) refl)

  disable_hardware-IsTrapped :
      (i : ℕ) (p p' : Process t) (site : Site)
      → IsTrapped t original p
      → get_elem? p.sites i ≡ some site
      → site.is_hardware ≡ true
      → disable_hardware t i p site ≡ ok p'
      → IsTrapped t original p'
  unfolding disable_hardware
  disable_hardware-IsTrapped i p p' site v found hard e =
      let (index, register, e₁) = >>=-eq-ok (or_fail site.hardware_register_index) _ e in
      let (q, cleared, e₂) = >>=-eq-ok (clear_hardware_stoppoint t p index) _ e₁ in
      subst (IsTrapped t original) (ok-injective e₂) (
        keep-IsTrapped t original i p q site _ v
          (clear_hardware_stoppoint-Keeps t p q index cleared) found (ground arith) (ground arith)
          refl)

  -- Enabling a site, of either kind and in either state, keeps the invariant.
  pub enable-IsTrapped :
      (i : ℕ) (p p' : Process t)
      → IsTrapped t original p
      → enable t i p ≡ ok p'
      → IsTrapped t original p'
  unfolding enable
  enable-IsTrapped i p p' v e =
      let (site, got, e₁) = >>=-eq-ok (or_fail (get_elem? p.sites i)) _ e in
      let found : get_elem? p.sites i ≡ some site = or_fail-ok _ got in
      elim (Bool-cases site.is_enabled) [
        | inl on ↦ subst (IsTrapped t original) (ok-injective (rw on at e₁)) v
        | inr off ↦ elim (Bool-cases site.is_hardware) [
          | inl hard ↦ enable_hardware-IsTrapped i p p' site v found off hard (rw (off, hard) at e₁)
          | inr soft ↦ enable_software-IsTrapped i p p' site v found off soft (rw (off, soft) at e₁)
        ]
      ]

  -- So does disabling one.
  pub disable-IsTrapped :
      (i : ℕ) (p p' : Process t)
      → ((x : ℕ) → original x < 256)
      → IsTrapped t original p
      → disable t i p ≡ ok p'
      → IsTrapped t original p'
  unfolding disable
  disable-IsTrapped i p p' small v e =
      let (site, got, e₁) = >>=-eq-ok (or_fail (get_elem? p.sites i)) _ e in
      let found : get_elem? p.sites i ≡ some site = or_fail-ok _ got in
      elim (Bool-cases site.is_enabled) [
        | inr off ↦ subst (IsTrapped t original) (ok-injective (rw off at e₁)) v
        | inl on ↦ elim (Bool-cases site.is_hardware) [
          | inl hard ↦ disable_hardware-IsTrapped i p p' site v found hard (rw (on, hard) at e₁)
          | inr soft ↦
              disable_software-IsTrapped i p p' site small v found (ground arith)
                (rw (on, soft) at e₁)
        ]
      ]
