-- ===== src/Process/Site/Invariant.antt =====
-- The sites of a process over every sequence of the debugger's operations on them.
use kdebugger.Common.{
  ℕ, zero, suc, ◌<◌, ◌≡◌, ◌≢◌, refl, sym, subst, ◌∙◌, Bool, false, List, [], ◌∷◌, ◌++◌, Option,
  some, get_elem?, set, All, arith, Bool-cases, inl, inr, ok, >>=-eq-ok, ok-injective, fail-ne-ok,
  or_fail, or_fail-ok, All-append,
}
use kdebugger.Stoppoints.{find_if, erase, find_by_address, contains_address}
use kdebugger.Process.Tracee.{Tracee}
use kdebugger.Process.State.{Site, Process, site_stoppoint}
use kdebugger.Process.Hardware.{clear_hardware_stoppoint}
use kdebugger.Process.Site.{
  enable, disable, create_breakpoint_site, remove_site, disable_software, disable_hardware,
  or_errno, poke,
}
use kdebugger.Process.Site.Patch.{is_armed, trapped, Away, Distinct, Saves}
use kdebugger.Process.Site.Armed.{IsTrapped}
use kdebugger.Process.Site.Toggle.{enable-IsTrapped, disable-IsTrapped}

-- Adding a site that is off, at an address where there is none.
trapped-push :
    (sites : List Site) (site : Site) (original : ℕ → ℕ) (x : ℕ)
    → is_armed site ≡ false
    → trapped (sites ++ (site ∷ [])) original x ≡ trapped sites original x
unfolding trapped
trapped-push [] site original x off = ground arith
trapped-push (s ∷ sites) site original x off =
    ground (arith, trapped-push sites site original x off)

pub not_contained :
    (sites : List Site) (address : ℕ)
    → contains_address site_stoppoint sites address ≡ false
    → Away address sites
unfolding contains_address find_by_address find_if
not_contained [] address e = tt
not_contained (s ∷ sites) address e = (ground arith, not_contained sites address (ground arith))

Away-push :
    (a : ℕ) (sites : List Site) (site : Site)
    → Away a sites
    → site.address ≢ a
    → Away a (sites ++ (site ∷ []))
Away-push a sites site away ne = All-append (λ s. s.address ≢ a) sites (site ∷ []) away (ne, tt)

pub Distinct-push :
    (sites : List Site) (site : Site)
    → Distinct sites
    → Away site.address sites
    → Distinct (sites ++ (site ∷ []))
Distinct-push [] site d away = (tt, tt)
Distinct-push (s ∷ sites) site (here, d) (ne, away) =
    (Away-push s.address sites site here (λ e. ne (sym e)), Distinct-push sites site d away)

-- What stands at place `i`, if anything, is off.
abbrev Unarmed : List Site → ℕ → Type 0
Unarmed sites i = (site : Site) → get_elem? sites i ≡ some site → is_armed site ≡ false

-- Taking a site that is off away.
trapped-erase :
    (sites : List Site) (i : ℕ) (original : ℕ → ℕ) (x : ℕ)
    → Unarmed sites i
    → trapped (erase sites i) original x ≡ trapped sites original x
unfolding trapped erase
trapped-erase [] i original x off = refl
trapped-erase (s ∷ sites) zero original x off = ground (arith, off s refl)
trapped-erase (s ∷ sites) (suc i) original x off =
    ground (arith, trapped-erase sites i original x off)

Unarmed-set :
    (sites : List Site) (i : ℕ) (plain : Site)
    → is_armed plain ≡ false
    → Unarmed (set sites i plain) i
Unarmed-set [] i plain off site e = cc
Unarmed-set (s ∷ sites) zero plain off site e = ground arith
Unarmed-set (s ∷ sites) (suc i) plain off site e = Unarmed-set sites i plain off site e

All-erase {ℓ κ} :
    {A : Type ℓ} (P : A → Type κ) (xs : List A) (i : ℕ) → All P xs → All P (erase xs i)
unfolding erase
All-erase P [] i h = h
All-erase P (x ∷ xs) zero h = h.1
All-erase P (x ∷ xs) (suc i) h = (h.0, All-erase P xs i h.1)

Distinct-erase : (sites : List Site) (i : ℕ) → Distinct sites → Distinct (erase sites i)
unfolding erase
Distinct-erase [] i d = tt
Distinct-erase (s ∷ sites) zero d = d.1
Distinct-erase (s ∷ sites) (suc i) (away, d) =
    (All-erase (λ r. r.address ≢ s.address) sites i away, Distinct-erase sites i d)

module _ (t : Tracee) (original : ℕ → ℕ) where
  -- Creating a site keeps the invariant.
  pub create-IsTrapped :
      (p p' : Process t) (parent : Option ℕ) (id address : ℕ) (hardware internal : Bool)
      (raw_id : ℕ)
      → IsTrapped t original p
      → create_breakpoint_site t p parent id address hardware internal raw_id ≡ ok p'
      → IsTrapped t original p'
  unfolding create_breakpoint_site
  create-IsTrapped p p' parent id address hardware internal raw_id v e =
      elim (Bool-cases (contains_address site_stoppoint p.sites address)) [
        | inl taken ↦ absurd (fail-ne-ok (rw taken at e))
        | inr free ↦ subst (IsTrapped t original) (ok-injective (rw free at e)) (record {
          shown = λ x. v.shown x ∙ sym (trapped-push p.sites _ original x refl);
          saves = All-append (Saves original) p.sites _ v.saves ((λ on. cc), tt);
          distinct = Distinct-push p.sites _ v.distinct (not_contained p.sites address free);
        })
      ]

  disable_software-Unarmed :
      (i : ℕ) (p p' : Process t) (site : Site)
      → disable_software t i p site ≡ ok p'
      → Unarmed p'.sites i
  unfolding disable_software
  disable_software-Unarmed i p p' site e =
      let (word, seen, e₁) = >>=-eq-ok (or_errno (t.peek_data p.tracee site.address) _) _ e in
      let (q, written, e₂) = >>=-eq-ok (poke t p site.address _ _) _ e₁ in
      subst (λ (r : Process t). Unarmed r.sites i) (ok-injective e₂)
        (Unarmed-set q.sites i (record site { is_enabled = false }) refl)

  disable_hardware-Unarmed :
      (i : ℕ) (p p' : Process t) (site : Site)
      → disable_hardware t i p site ≡ ok p'
      → Unarmed p'.sites i
  unfolding disable_hardware
  disable_hardware-Unarmed i p p' site e =
      let (index, register, e₁) = >>=-eq-ok (or_fail site.hardware_register_index) _ e in
      let (q, cleared, e₂) = >>=-eq-ok (clear_hardware_stoppoint t p index) _ e₁ in
      subst (λ (r : Process t). Unarmed r.sites i) (ok-injective e₂) (Unarmed-set q.sites i _ refl)

  disable-Unarmed : (i : ℕ) (p p' : Process t) → disable t i p ≡ ok p' → Unarmed p'.sites i
  unfolding disable
  disable-Unarmed i p p' e =
      let (site, got, e₁) = >>=-eq-ok (or_fail (get_elem? p.sites i)) _ e in
      let found : get_elem? p.sites i ≡ some site = or_fail-ok _ got in
      elim (Bool-cases site.is_enabled) [
        | inr off ↦
            subst (λ (r : Process t). Unarmed r.sites i) (ok-injective (rw off at e₁))
              (λ s e₂. ground arith)
        | inl on ↦ elim (Bool-cases site.is_hardware) [
          | inl hard ↦ disable_hardware-Unarmed i p p' site (rw (on, hard) at e₁)
          | inr soft ↦ disable_software-Unarmed i p p' site (rw (on, soft) at e₁)
        ]
      ]

  -- Removing a site by its address disables it first, and keeps the invariant.
  pub remove-IsTrapped :
      (address : ℕ) (p p' : Process t)
      → ((x : ℕ) → original x < 256)
      → IsTrapped t original p
      → remove_site t address p ≡ ok p'
      → IsTrapped t original p'
  unfolding remove_site
  remove-IsTrapped address p p' small v e =
      let (i, found, e₁) =
        >>=-eq-ok (or_fail (find_by_address site_stoppoint p.sites address)) _ e in
      let (q, off, e₂) = >>=-eq-ok (disable t i p) _ e₁ in
      let w : IsTrapped t original q = disable-IsTrapped t original i p q small v off in
      subst (IsTrapped t original) (ok-injective e₂) (record {
        shown =
            λ x. w.shown x ∙ sym (trapped-erase q.sites i original x (disable-Unarmed i p q off));
        saves = All-erase (Saves original) q.sites i w.saves;
        distinct = Distinct-erase q.sites i w.distinct;
      })

  -- One operation of the debugger on the sites, where it succeeds.
  pub data Step (p p' : Process t) : Type 0 where
    creates :
        (parent : Option ℕ) (id address : ℕ) (hardware internal : Bool) (raw_id : ℕ)
        → create_breakpoint_site t p parent id address hardware internal raw_id ≡ ok p'
        → Step p p'
    enables : (i : ℕ) → enable t i p ≡ ok p' → Step p p'
    disables : (i : ℕ) → disable t i p ≡ ok p' → Step p p'
    removes : (address : ℕ) → remove_site t address p ≡ ok p' → Step p p'

  pub data Reach (p : Process t) : Process t → Type 0 where
    here : Reach p p
    next : {q r : Process t} → Reach p q → Step q r → Reach p r

  Step-IsTrapped :
      {p p' : Process t}
      → ((x : ℕ) → original x < 256)
      → IsTrapped t original p
      → Step p p'
      → IsTrapped t original p'
  Step-IsTrapped {p} {p'} small v (creates parent id address hardware internal raw_id e) =
      create-IsTrapped p p' parent id address hardware internal raw_id v e
  Step-IsTrapped {p} {p'} small v (enables i e) = enable-IsTrapped t original i p p' v e
  Step-IsTrapped {p} {p'} small v (disables i e) = disable-IsTrapped t original i p p' small v e
  Step-IsTrapped {p} {p'} small v (removes address e) = remove-IsTrapped address p p' small v e

  pub Reach-IsTrapped :
      {p p' : Process t}
      → ((x : ℕ) → original x < 256)
      → IsTrapped t original p
      → Reach p p'
      → IsTrapped t original p'
  Reach-IsTrapped small v here = v
  Reach-IsTrapped small v (next r s) = Step-IsTrapped small (Reach-IsTrapped small v r) s

-- A process without sites shows the program's own bytes.
pub start-IsTrapped : (t : Tracee) (p : Process t) → p.sites ≡ [] → IsTrapped t (t.byte p.tracee) p
unfolding trapped
start-IsTrapped t p none_yet = record {
  shown = λ x. rw none_yet;
  saves = rw none_yet tt;
  distinct = rw none_yet tt;
}

-- From a process without sites, after any creations, enablings, disablings and removals of sites, of
-- both kinds and in any order, the tracee shows its first bytes with 0xcc at exactly the enabled
-- software sites, each such site holds the byte that it covers, and no two sites share an address.
pub sites-IsTrapped :
    (t : Tracee) (p p' : Process t)
    → p.sites ≡ []
    → Reach t (t.byte p.tracee) p p'
    → IsTrapped t (t.byte p.tracee) p'
sites-IsTrapped t p p' none_yet r =
    Reach-IsTrapped t (t.byte p.tracee) (t.byte_lt p.tracee) (start-IsTrapped t p none_yet) r
