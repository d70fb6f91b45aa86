-- ===== src/Process/Site/Observed.antt =====
-- That removing a site keeps what the writes to memory and to debug registers keep, such as the program
-- counters.
use kdebugger.Common.{
  ℕ, ◌≡◌, refl, ap, ◌∙◌, subst, Bool-cases, some, get_elem?, inl, inr, ok, or_fail, >>=-eq-ok,
  ok-injective,
}
use kdebugger.Stoppoints.{find_by_address}
use kdebugger.Process.Tracee.{Tracee}
use kdebugger.Process.State.{Site, Process, site_stoppoint}
use kdebugger.Process.Hardware.{clear_hardware_stoppoint}
use kdebugger.Process.Hardware.Observed.{clear_hardware_stoppoint-look}
use kdebugger.Process.Site.{
  or_errno, poke, disable_software, disable_hardware, disable, remove_site,
}
use kdebugger.Process.Site.Armed.{poke-ok}

module _ (t : Tracee) (look : t.State → ℕ)
    (data_kept : (m m' : t.State) (a w : ℕ) → t.poke_data m a w ≡ some m' → look m' ≡ look m)
    (debug_kept : (m m' : t.State) (i v : ℕ)
      → t.poke_debug m i v ≡ some m'
      → look m' ≡ look m) where
  abbrev SameLook : Process t → Process t → Type 0
  SameLook p p' = look p'.tracee ≡ look p.tracee

  disable_software-look :
      (i : ℕ) (p p' : Process t) (site : Site) → disable_software t i p site ≡ ok p' → SameLook p p'
  unfolding disable_software
  disable_software-look i p p' site e =
      let (word, seen, e₁) = >>=-eq-ok (or_errno (t.peek_data p.tracee site.address) _) _ e in
      let (q, written, e₂) = >>=-eq-ok (poke t p site.address _ _) _ e₁ in
      let (m, wrote, is_q) = poke-ok t (λ x. x) p q site.address _ _ written in
      subst (SameLook p) (ok-injective e₂)
        (ap (λ (r : Process t). look r.tracee) is_q ∙ data_kept p.tracee m _ _ wrote)

  disable-look : (i : ℕ) (p p' : Process t) → disable t i p ≡ ok p' → SameLook p p'
  unfolding disable disable_hardware
  disable-look i p p' e =
      let (site, got, e₁) = >>=-eq-ok (or_fail (get_elem? p.sites i)) _ e in
      elim (Bool-cases site.is_enabled) [
        | inr off ↦ subst (SameLook p) (ok-injective (rw off at e₁)) refl
        | inl on ↦ elim (Bool-cases site.is_hardware) [
          | inr soft ↦ disable_software-look i p p' site (rw (on, soft) at e₁)
          | inl hard ↦
              let (index, register, e₂) =
                >>=-eq-ok (or_fail site.hardware_register_index) _ (rw (on, hard) at e₁) in
              let (q, cleared, e₃) = >>=-eq-ok (clear_hardware_stoppoint t p index) _ e₂ in
              subst (SameLook p) (ok-injective e₃)
                (clear_hardware_stoppoint-look t look debug_kept p q index cleared)
        ]
      ]

  pub remove_site-look :
      (address : ℕ) (p p' : Process t) → remove_site t address p ≡ ok p' → SameLook p p'
  unfolding remove_site
  remove_site-look address p p' e =
      let (i, found, e₁) =
        >>=-eq-ok (or_fail (find_by_address site_stoppoint p.sites address)) _ e in
      let (q, off, e₂) = >>=-eq-ok (disable t i p) _ e₁ in
      subst (SameLook p) (ok-injective e₂) (disable-look i p q off)
