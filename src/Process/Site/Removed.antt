-- ===== src/Process/Site/Removed.antt =====
-- That a site that is removed by its address is gone.
use kdebugger.Common.{
  ℕ, zero, suc, ◌≡◌, refl, sym, ap, ◌∙◌, subst, false, Bool-cases, List, [], ◌∷◌, Option, none,
  some, ◌==◌, get_elem?, set, inl, inr, ok, or_fail, >>=-eq-ok, or_fail-ok, ok-injective, arith,
}
use kdebugger.Stoppoints.{find_if, erase, has_value, find_by_address, contains_address}
use kdebugger.Process.Tracee.{Tracee}
use kdebugger.Process.State.{Site, Process, site_stoppoint}
use kdebugger.Process.Hardware.{clear_hardware_stoppoint}
use kdebugger.Process.Hardware.Keeps.{clear_hardware_stoppoint-Keeps}
use kdebugger.Process.Site.{
  or_errno, poke, disable_software, disable_hardware, disable, remove_site,
}
use kdebugger.Process.Site.Armed.{poke-ok}
use kdebugger.Process.Site.Patch.{Away, Distinct}

erase-set : (sites : List Site) (i : ℕ) (site : Site) → erase (set sites i site) i ≡ erase sites i
unfolding erase
erase-set [] i site = refl
erase-set (s ∷ sites) zero site = refl
erase-set (s ∷ sites) (suc i) site = ap (λ rest. s ∷ rest) (erase-set sites i site)

Away-contains :
    (sites : List Site) (address : ℕ)
    → Away address sites
    → contains_address site_stoppoint sites address ≡ false
unfolding contains_address find_by_address find_if
Away-contains [] address away = refl
Away-contains (s ∷ sites) address (ne, away) = ground (arith, Away-contains sites address away)

-- The site before another is not at the other's address.
erase-contains :
    (sites : List Site) (address i : ℕ)
    → Distinct sites
    → find_by_address site_stoppoint sites address ≡ some i
    → contains_address site_stoppoint (erase sites i) address ≡ false
unfolding find_by_address find_if erase contains_address
erase-contains [] address i d found = cc
erase-contains (s ∷ sites) address i (away, d) found = elim (Bool-cases (s.address == address)) [
  | inl this ↦
      let same : s.address ≡ address = ground arith in
      let first : 0 ≡ i = some-injective (rw this at found) in
      subst (λ k. has_value (find_if (λ r. r.address == address) (erase (s ∷ sites) k)) ≡ false)
        first (Away-contains sites address (subst (λ a. Away a sites) same away))
  | inr other ↦
      behind (find_if (λ r. r.address == address) sites) refl
        (λ j e. erase-contains sites address j d e) (rw other at found)
]
  where
    some-injective : {a b : ℕ} → some a ≡ some b → a ≡ b
    some-injective e = cc

    behind :
        (o : Option ℕ)
        → find_if (λ r. r.address == address) sites ≡ o
        → ((j : ℕ)
            → find_by_address site_stoppoint sites address ≡ some j
            → contains_address site_stoppoint (erase sites j) address ≡ false)
        → elim o [ none ↦ none | some j ↦ some (suc j) ] ≡ some i
        → has_value (find_if (λ r. r.address == address) (erase (s ∷ sites) i)) ≡ false
    behind none there earlier e = cc
    behind (some j) there earlier e =
        let next : suc j ≡ i = some-injective e in
        subst (λ k. has_value (find_if (λ r. r.address == address) (erase (s ∷ sites) k)) ≡ false)
          next (ground (arith, earlier j there))

module _ (t : Tracee) where
  disable_software-erase :
      (i : ℕ) (p p' : Process t) (site : Site)
      → disable_software t i p site ≡ ok p'
      → erase p'.sites i ≡ erase p.sites i
  unfolding disable_software
  disable_software-erase i p p' site e =
      let (word, seen, e₁) = >>=-eq-ok (or_errno (t.peek_data p.tracee site.address) _) _ e in
      let (q, written, e₂) = >>=-eq-ok (poke t p site.address _ _) _ e₁ in
      let (m, wrote, is_q) = poke-ok t (λ x. x) p q site.address _ _ written in
      subst (λ (r : Process t). erase r.sites i ≡ erase p.sites i) (ok-injective e₂)
        (erase-set q.sites i _ ∙ ap (λ (r : Process t). erase r.sites i) is_q)

  disable_hardware-erase :
      (i : ℕ) (p p' : Process t) (site : Site)
      → disable_hardware t i p site ≡ ok p'
      → erase p'.sites i ≡ erase p.sites i
  unfolding disable_hardware
  disable_hardware-erase i p p' site e =
      let (index, register, e₁) = >>=-eq-ok (or_fail site.hardware_register_index) _ e in
      let (q, cleared, e₂) = >>=-eq-ok (clear_hardware_stoppoint t p index) _ e₁ in
      subst (λ (r : Process t). erase r.sites i ≡ erase p.sites i) (ok-injective e₂)
        (erase-set q.sites i _
          ∙ ap (λ sites. erase sites i) (clear_hardware_stoppoint-Keeps t p q index cleared).sites)

  disable-erase :
      (i : ℕ) (p p' : Process t) → disable t i p ≡ ok p' → erase p'.sites i ≡ erase p.sites i
  unfolding disable
  disable-erase i p p' e =
      let (site, got, e₁) = >>=-eq-ok (or_fail (get_elem? p.sites i)) _ e in
      elim (Bool-cases site.is_enabled) [
        | inr off ↦ ap (λ (r : Process t). erase r.sites i) (sym (ok-injective (rw off at e₁)))
        | inl on ↦ elim (Bool-cases site.is_hardware) [
          | inl hard ↦ disable_hardware-erase i p p' site (rw (on, hard) at e₁)
          | inr soft ↦ disable_software-erase i p p' site (rw (on, soft) at e₁)
        ]
      ]

  -- Behind a removal by an address no site is there.
  pub remove_site-contains :
      (address : ℕ) (p p' : Process t)
      → Distinct p.sites
      → remove_site t address p ≡ ok p'
      → contains_address site_stoppoint p'.sites address ≡ false
  unfolding remove_site
  remove_site-contains address p p' d e =
      let (i, found, e₁) =
        >>=-eq-ok (or_fail (find_by_address site_stoppoint p.sites address)) _ e in
      let (q, off, e₂) = >>=-eq-ok (disable t i p) _ e₁ in
      let rest : erase q.sites i ≡ erase p.sites i = disable-erase i p q off in
      subst (λ (r : Process t). contains_address site_stoppoint r.sites address ≡ false)
        (ok-injective e₂)
        (subst (λ sites. contains_address site_stoppoint sites address ≡ false) (sym rest)
          (erase-contains p.sites address i d (or_fail-ok _ found)))
