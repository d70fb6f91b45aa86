-- ===== src/Target/Step/Out.antt =====
-- That the loop of `step_out` runs once: `run_until_address` reports the stop that the loop waits for as a
-- step.
use kdebugger.Common.{
  ℕ, suc, ◌≡◌, refl, sym, ap, ◌∙◌, subst, Bool, true, false, not, ◌&&◌, ◌||◌, Bool-cases, ◌==◌,
  some, inl, inr, ok, ◌>>=◌, or_fail, >>=-eq-ok, ok-injective,
}
use kdebugger.Process.Tracee.{Tracee}
use kdebugger.Process.Site.{remove_site}
use kdebugger.Process.Site.Observed.{remove_site-look}
use kdebugger.Process.Stop.{single_step, StopReason, sigtrap}
use kdebugger.Process.Control.{resume}
use kdebugger.Process.Threads.{find_thread}
use kdebugger.Process.Control.Signals.{is_stopped}
use kdebugger.Target.Run.{
  Target, Runner, is_breakpoint, stack_at, pc_of, set_reason, reached, place_internal,
  remove_internal, run_until_address,
}
use kdebugger.Target.Step.{out_loop}

as_step-none :
    (r : StopReason) → is_breakpoint (record r { trap_reason = some single_step }) ≡ false
unfolding is_breakpoint
as_step-none r = elim (Bool-cases (is_stopped r.reason)) [
  | inl stopped ↦ elim (Bool-cases (r.info == sigtrap)) [
    | inl trap ↦ rw (stopped, trap) refl
    | inr other ↦ rw (stopped, other) refl
  ]
  | inr going ↦ rw going refl
]

and-false : (a b : Bool) → (a && b) ≡ false → (not a || not b) ≡ true
and-false false b e = refl
and-false true false e = refl
and-false true true e = cc

module _ (t : Tracee) (R : Type 0) (run : Runner t R)
    -- A write to memory or to a debug register moves no program counter.
    (data_kept : (m m' : t.State) (tid a w : ℕ)
      → t.poke_data m a w ≡ some m'
      → run.kernel.read_pc m' tid ≡ run.kernel.read_pc m tid)
    (debug_kept : (m m' : t.State) (tid i v : ℕ)
      → t.poke_debug m i v ≡ some m'
      → run.kernel.read_pc m' tid ≡ run.kernel.read_pc m tid) where
  set_reason-pc :
      (tid x : ℕ) (reason : StopReason) (tgt tgt' : Target t R)
      → set_reason t R run tid reason tgt ≡ ok tgt'
      → pc_of t R run x tgt' ≡ pc_of t R run x tgt
  unfolding set_reason
  set_reason-pc tid x reason tgt tgt' e =
      let (stack, there, e₁) = >>=-eq-ok (stack_at tid tgt.stacks) _ e in
      let (th, known, e₂) = >>=-eq-ok (or_fail (find_thread tid tgt.control.threads)) _ e₁ in
      sym (ap (pc_of t R run x) (ok-injective e₂))

  remove_internal-pc :
      (address x : ℕ) (placed : Bool) (tgt tgt' : Target t R)
      → remove_internal t R run address placed tgt ≡ ok tgt'
      → pc_of t R run x tgt' ≡ pc_of t R run x tgt
  unfolding remove_internal
  remove_internal-pc address x false tgt tgt' e = sym (ap (pc_of t R run x) (ok-injective e))
  remove_internal-pc address x true tgt tgt' e =
      let (p, gone, e₁) = >>=-eq-ok (remove_site t address tgt.control.process) _ e in
      sym (ap (pc_of t R run x) (ok-injective e₁))
      ∙ remove_site-look t (λ m. run.kernel.read_pc m x) (λ m m' a w. data_kept m m' x a w)
          (λ m m' i v. debug_kept m m' x i v) address tgt.control.process p gone

  reached-elsewhere :
      (address tid pc : ℕ) (tgt : Target t R) (first : StopReason)
      → pc ≡ pc_of t R run tid tgt
      → (is_breakpoint (reached t R run address tid tgt first) && (pc == address)) ≡ false
  reached-elsewhere address tid pc tgt first same = elim (Bool-cases (is_breakpoint first)) [
    | inr other ↦ rw (other, other) refl
    | inl broke ↦ elim (Bool-cases (pc_of t R run tid tgt == address)) [
      | inl there ↦ rw (broke, there, as_step-none first) refl
      | inr elsewhere ↦ rw (broke, elsewhere, same, elsewhere, broke) refl
    ]
  ]

  run_until_address-elsewhere :
      (address tid : ℕ) (tgt tgt' : Target t R) (reason : StopReason)
      → run_until_address t R run address tid tgt ≡ ok (reason, tgt')
      → (is_breakpoint reason && (pc_of t R run tid tgt' == address)) ≡ false
  unfolding run_until_address
  run_until_address-elsewhere address tid tgt tgt' reason e =
      let ((placed, tgt₁), put, e₁) = >>=-eq-ok (place_internal t R run address tgt) _ e in
      let (c, resumed, e₂) = >>=-eq-ok (resume t run.kernel tid tgt₁.control) _ e₁ in
      let ((first, tgt₂), waited, e₃) =
        >>=-eq-ok (run.wait_on_signal tid (record tgt₁ { control = c })) _ e₂ in
      let (tgt₃, removed, e₄) = >>=-eq-ok (remove_internal t R run address placed tgt₂) _ e₃ in
      let (tgt₄, noted, e₅) =
        >>=-eq-ok (set_reason t R run tid (reached t R run address tid tgt₂ first) tgt₃) _ e₄ in
      let same : pc_of t R run tid tgt₄ ≡ pc_of t R run tid tgt₂ =
        set_reason-pc tid tid (reached t R run address tid tgt₂ first) tgt₃ tgt₄ noted
        ∙ remove_internal-pc address tid placed tgt₂ tgt₃ removed in
      subst
        (λ (q : StopReason × Target t R).
          (is_breakpoint q.0 && (pc_of t R run tid q.1 == address)) ≡ false)
        (ok-injective e₅) (reached-elsewhere address tid (pc_of t R run tid tgt₄) tgt₂ first same)

-- Where writes to memory and to debug registers move no program counter, the loop of `step_out` ends with
-- what its first run up to the return address gives, if the thread is the current one then: however many
-- frames the stack still has, as in a call of the function by itself, there is no second run.
pub out_loop-once :
    (t : Tracee) (R : Type 0) (run : Runner t R)
    → ((m m' : t.State) (tid a w : ℕ)
        → t.poke_data m a w ≡ some m'
        → run.kernel.read_pc m' tid ≡ run.kernel.read_pc m tid)
    → ((m m' : t.State) (tid i v : ℕ)
        → t.poke_debug m i v ≡ some m'
        → run.kernel.read_pc m' tid ≡ run.kernel.read_pc m tid)
    → (fuel tid size return_address : ℕ) (tgt tgt' : Target t R) (reason : StopReason)
    → run_until_address t R run return_address tid tgt ≡ ok (reason, tgt')
    → tgt'.control.process.current_thread ≡ tid
    → out_loop t R run (suc fuel) tid size return_address tgt ≡ ok (reason, tgt')
unfolding out_loop
out_loop-once t R run data_kept debug_kept fuel tid size return_address tgt tgt' reason e current =
    let elsewhere : (not (is_breakpoint reason)
          || not (pc_of t R run tgt'.control.process.current_thread tgt' == return_address))
        ≡ true =
      rw current (
        and-false (is_breakpoint reason) (pc_of t R run tid tgt' == return_address) (
          run_until_address-elsewhere t R run data_kept debug_kept return_address tid tgt tgt'
            reason e)) in
    rw (e, ◌>>=◌, elsewhere) refl
