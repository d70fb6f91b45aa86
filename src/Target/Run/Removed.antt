-- ===== src/Target/Run/Removed.antt =====
-- That `run_until_address` leaves no site of its own behind.
use kdebugger.Common.{
  ℕ, ◌≡◌, sym, ap, subst, Bool, true, false, Bool-cases, inl, inr, List, none, length, ok, or_fail,
  >>=-eq-ok, ok-injective,
}
use kdebugger.Stoppoints.{contains_address, enabled_stoppoint_at_address, get_by_address}
use kdebugger.Process.Tracee.{Tracee}
use kdebugger.Process.State.{Site, site_stoppoint}
use kdebugger.Process.Site.{remove_site, create_breakpoint_site, enable, disable}
use kdebugger.Process.Site.Apart.{Apart, enable-Apart, disable-Apart, create_breakpoint_site-Apart}
use kdebugger.Process.Site.Patch.{Distinct}
use kdebugger.Process.Site.Removed.{remove_site-contains}
use kdebugger.Process.Stop.{StopReason}
use kdebugger.Process.Control.{resume, swallow_pending_sigstop, step_over_breakpoint, send_continue}
use kdebugger.Process.Threads.{find_thread, Kernel, Control, thread_at, errno_or}
use kdebugger.Target.Run.{
  Target, Runner, stack_at, set_reason, place_unless, place_internal, remove_internal, reached,
  run_until_address,
}

module _ (t : Tracee) (k : Kernel t) where
  abbrev ApartIn : Control t → Type 0
  ApartIn c = Apart t c.process

  swallow_pending_sigstop-Apart :
      (tid : ℕ) (c c' : Control t)
      → ApartIn c
      → swallow_pending_sigstop t k tid c ≡ ok c'
      → ApartIn c'
  unfolding swallow_pending_sigstop
  swallow_pending_sigstop-Apart tid c c' d e =
      let (th, known, e₁) = >>=-eq-ok (thread_at tid c.threads) _ e in
      elim (Bool-cases th.pending_sigstop) [
        | inl pending ↦ subst ApartIn (ok-injective (rw pending at e₁)) d
        | inr settled ↦ subst ApartIn (ok-injective (rw settled at e₁)) d
      ]

  step_over_breakpoint-Apart :
      (tid : ℕ) (c c' : Control t) → ApartIn c → step_over_breakpoint t k tid c ≡ ok c' → ApartIn c'
  unfolding step_over_breakpoint
  step_over_breakpoint-Apart tid c c' d e =
      let pc = k.read_pc c.process.tracee tid in
      let (there, seen, e₁) =
        >>=-eq-ok (enabled_stoppoint_at_address site_stoppoint c.process.sites pc) _ e in
      elim (Bool-cases there) [
        | inr nothing ↦ subst ApartIn (ok-injective (rw nothing at e₁)) d
        | inl over ↦
            let (i, found, e₂) =
              >>=-eq-ok (get_by_address site_stoppoint c.process.sites pc) _ (rw over at e₁) in
            let (p₁, off, e₃) = >>=-eq-ok (disable t i c.process) _ e₂ in
            let (c₁, swallowed, e₄) =
              >>=-eq-ok (swallow_pending_sigstop t k tid (record c { process = p₁ })) _ e₃ in
            let (m₁, stepped, e₅) =
              >>=-eq-ok (errno_or (k.single_step c₁.process.tracee tid) _) _ e₄ in
            let ((status, m₂), waited, e₆) = >>=-eq-ok (errno_or (k.wait m₁ tid) _) _ e₅ in
            let (p₂, on, e₇) = >>=-eq-ok (enable t i (record c₁.process { tracee = m₂ })) _ e₆ in
            let d₁ : ApartIn c₁ =
              swallow_pending_sigstop-Apart tid (record c { process = p₁ }) c₁
                (disable-Apart t i c.process p₁ d off) swallowed in
            subst ApartIn (ok-injective e₇)
              (enable-Apart t i (record c₁.process { tracee = m₂ }) p₂ d₁ on)
      ]

  resume-Apart : (tid : ℕ) (c c' : Control t) → ApartIn c → resume t k tid c ≡ ok c' → ApartIn c'
  unfolding resume send_continue
  resume-Apart tid c c' d e =
      let (c₁, over, e₁) = >>=-eq-ok (step_over_breakpoint t k tid c) _ e in
      let (m, going, e₂) =
        >>=-eq-ok (errno_or (k.continue_thread _ c₁.process.tracee tid) _) _ e₁ in
      let (th, known, e₃) = >>=-eq-ok (thread_at tid c₁.threads) _ e₂ in
      subst ApartIn (ok-injective e₃) (step_over_breakpoint-Apart tid c c₁ d over)

module _ (t : Tracee) (R : Type 0) (run : Runner t R) where
  abbrev pub sites_of : Target t R → List Site
  sites_of tgt = tgt.control.process.sites

  set_reason-sites :
      (tid : ℕ) (reason : StopReason) (tgt tgt' : Target t R)
      → set_reason t R run tid reason tgt ≡ ok tgt'
      → sites_of tgt' ≡ sites_of tgt
  unfolding set_reason
  set_reason-sites tid reason tgt tgt' e =
      let (stack, there, e₁) = >>=-eq-ok (stack_at tid tgt.stacks) _ e in
      let (th, known, e₂) = >>=-eq-ok (or_fail (find_thread tid tgt.control.threads)) _ e₁ in
      sym (ap sites_of (ok-injective e₂))

  place_internal-placed :
      (address : ℕ) (tgt tgt' : Target t R) (placed : Bool)
      → contains_address site_stoppoint (sites_of tgt) address ≡ false
      → place_internal t R run address tgt ≡ ok (placed, tgt')
      → placed ≡ true
  unfolding place_internal place_unless
  place_internal-placed address tgt tgt' placed free e =
      let (p, made, e₁) =
        >>=-eq-ok
          (create_breakpoint_site t tgt.control.process none 0 address false true
            (run.raw_id address))
          _ (subst (λ b. place_unless t R run b address tgt ≡ ok (placed, tgt')) free e) in
      let (p', on, e₂) = >>=-eq-ok (enable t (length (sites_of tgt)) p) _ e₁ in
      sym (ap (λ q. q.0) (ok-injective e₂))

  place_internal-Apart :
      (address : ℕ) (tgt tgt' : Target t R) (placed : Bool)
      → Distinct (sites_of tgt)
      → contains_address site_stoppoint (sites_of tgt) address ≡ false
      → place_internal t R run address tgt ≡ ok (placed, tgt')
      → Distinct (sites_of tgt')
  unfolding place_internal place_unless
  place_internal-Apart address tgt tgt' placed d free e =
      let (p, made, e₁) =
        >>=-eq-ok
          (create_breakpoint_site t tgt.control.process none 0 address false true
            (run.raw_id address))
          _ (subst (λ b. place_unless t R run b address tgt ≡ ok (placed, tgt')) free e) in
      let (p', on, e₂) = >>=-eq-ok (enable t (length (sites_of tgt)) p) _ e₁ in
      subst (λ (q : Bool × Target t R). Distinct (sites_of q.1)) (ok-injective e₂)
        (enable-Apart t (length (sites_of tgt)) p p'
          (create_breakpoint_site-Apart t tgt.control.process p none 0 address false true
            (run.raw_id address) d made)
          on)

  remove_internal-contains :
      (address : ℕ) (tgt tgt' : Target t R)
      → Distinct (sites_of tgt)
      → remove_internal t R run address true tgt ≡ ok tgt'
      → contains_address site_stoppoint (sites_of tgt') address ≡ false
  unfolding remove_internal
  remove_internal-contains address tgt tgt' d e =
      let (p, gone, e₁) = >>=-eq-ok (remove_site t address tgt.control.process) _ e in
      subst (λ (q : Target t R). contains_address site_stoppoint (sites_of q) address ≡ false)
        (ok-injective e₁) (remove_site-contains t address tgt.control.process p d gone)

-- Where no two sites share an address, none is at the one to run to, and a wait puts no two sites at one
-- address where there were none, the run up to the address ends with no site at it, whatever the wait
-- reports.
pub run_until_address-removed :
    (t : Tracee) (R : Type 0) (run : Runner t R) (address tid : ℕ) (tgt tgt' : Target t R)
    (reason : StopReason)
    → ((x : ℕ) (before after : Target t R) (told : StopReason)
        → Distinct before.control.process.sites
        → run.wait_on_signal x before ≡ ok (told, after)
        → Distinct after.control.process.sites)
    → Distinct tgt.control.process.sites
    → contains_address site_stoppoint tgt.control.process.sites address ≡ false
    → run_until_address t R run address tid tgt ≡ ok (reason, tgt')
    → contains_address site_stoppoint tgt'.control.process.sites address ≡ false
unfolding run_until_address
run_until_address-removed t R run address tid tgt tgt' reason keeps apart free e =
    let ((placed, tgt₁), put, e₁) = >>=-eq-ok (place_internal t R run address tgt) _ e in
    let (c, resumed, e₂) = >>=-eq-ok (resume t run.kernel tid tgt₁.control) _ e₁ in
    let ((first, tgt₂), waited, e₃) =
      >>=-eq-ok (run.wait_on_signal tid (record tgt₁ { control = c })) _ e₂ in
    let (tgt₃, removed, e₄) = >>=-eq-ok (remove_internal t R run address placed tgt₂) _ e₃ in
    let (tgt₄, noted, e₅) =
      >>=-eq-ok (set_reason t R run tid (reached t R run address tid tgt₂ first) tgt₃) _ e₄ in
    let mine : placed ≡ true = place_internal-placed t R run address tgt tgt₁ placed free put in
    let apart₁ : Distinct tgt₁.control.process.sites =
      place_internal-Apart t R run address tgt tgt₁ placed apart free put in
    let apart₂ : Distinct tgt₂.control.process.sites =
      keeps tid (record tgt₁ { control = c }) tgt₂ first
        (resume-Apart t run.kernel tid tgt₁.control c apart₁ resumed) waited in
    let gone : contains_address site_stoppoint tgt₃.control.process.sites address ≡ false =
      remove_internal-contains t R run address tgt₂ tgt₃ apart₂
        (subst (λ b. remove_internal t R run address b tgt₂ ≡ ok tgt₃) mine removed) in
    let same : tgt₄.control.process.sites ≡ tgt₃.control.process.sites =
      set_reason-sites t R run tid (reached t R run address tid tgt₂ first) tgt₃ tgt₄ noted in
    let last : tgt₄ ≡ tgt' = ap (λ q. q.1) (ok-injective e₅) in
    subst
      (λ (q : Target t R). contains_address site_stoppoint q.control.process.sites address ≡ false)
      last (subst (λ sites. contains_address site_stoppoint sites address ≡ false) (sym same) gone)
