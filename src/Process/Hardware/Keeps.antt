-- ===== src/Process/Hardware/Keeps.antt =====
-- What the debug registers leave alone: the stop points, and every byte of the tracee's memory.
use kdebugger.Common.{
  ℕ, bit_and, subst, ◌≡◌, refl, ◌∙◌, List, [], ◌∷◌, ◌==◌, Bool-cases, inl, inr, Outcome, ok, ◌>>=◌,
  >>=-eq-ok, arith,
}
use kdebugger.Process.Tracee.{Tracee}
use kdebugger.Process.State.{Thread, Process, StoppointMode}
use kdebugger.Process.Hardware.{
  thread_of, keep_mask, write_user_area, write_debug, whole, low_half, write_other, control_word,
  other_threads, read_debug, find_free_stoppoint_region, set_hardware_breakpoint,
  clear_hardware_stoppoint, set_watchpoint, encode_hardware_stoppoint_mode,
  encode_hardware_stoppoint_size,
}

pair_of_ok {ℓ κ} :
    {A : Type ℓ} {B : Type κ} {a a' : A} {b b' : B}
    → ◌≡◌ {A = Outcome (A × B)} (ok (a, b)) (ok (a', b'))
    → a ≡ a'
pair_of_ok e = cc

module _ (t : Tracee) where
  pub record Keeps (p p' : Process t) : Type 0 where
    pub sites : p'.sites ≡ p.sites
    pub points : p'.watchpoints ≡ p.watchpoints
    pub memory : (x : ℕ) → t.byte p'.tracee x ≡ t.byte p.tracee x

  Keeps-refl : (p : Process t) → Keeps p p
  Keeps-refl p = record { sites = refl; points = refl; memory = λ x. refl }

  Keeps-trans : {p q r : Process t} → Keeps p q → Keeps q r → Keeps p r
  Keeps-trans k l = record {
    sites = l.sites ∙ k.sites;
    points = l.points ∙ k.points;
    memory = λ x. l.memory x ∙ k.memory x;
  }

  write_user_area-byte :
      (m m' : t.State) (k value x : ℕ)
      → write_user_area t m k value ≡ ok m'
      → t.byte m' x ≡ t.byte m x
  unfolding write_user_area
  write_user_area-byte m m' k value x e = ground (arith, t.poke_debug_memory m m' k value x)

  write_debug-Keeps :
      (p p' : Process t) (tid k : ℕ) (change : ℕ → ℕ)
      → write_debug t p tid k change ≡ ok p'
      → Keeps p p'
  unfolding write_debug
  write_debug-Keeps p p' tid k change e =
      let (thread, found, e₁) = >>=-eq-ok (thread_of p.threads tid) _ e in
      let (once, w₁, e₂) =
        >>=-eq-ok (write_user_area t p.tracee k (change (thread.debug k))) _ e₁ in
      let (twice, w₂, e₃) = >>=-eq-ok (write_user_area t once k (change (thread.debug k))) _ e₂ in
      record {
        sites = ground arith;
        points = ground arith;
        memory = λ x. ground (
          arith,
          write_user_area-byte p.tracee once k (change (thread.debug k)) x w₁,
          write_user_area-byte once twice k (change (thread.debug k)) x w₂,
        );
      }

  write_other-Keeps :
      (p p' : Process t) (tid k : ℕ) (change : ℕ → ℕ) (masked : ℕ)
      → write_other t p tid k change masked ≡ ok p'
      → Keeps p p'
  unfolding write_other
  write_other-Keeps p p' tid k change masked e = elim (Bool-cases (tid == p.current_thread)) [
    | inl same ↦ subst (Keeps p) (ground arith) (Keeps-refl p)
    | inr other ↦
        let e₀ : (write_debug t p tid k change >>= λ p₁. write_debug t p₁ tid 7 (whole masked))
            ≡ ok p' =
          rw other at e in
        let (p₁, w₁, w₂) = >>=-eq-ok (write_debug t p tid k change) _ e₀ in
        Keeps-trans (write_debug-Keeps p p₁ tid k change w₁)
          (write_debug-Keeps p₁ p' tid 7 (whole masked) w₂)
  ]

  other_threads-Keeps :
      (threads : List Thread) (k : ℕ) (change : ℕ → ℕ) (masked : ℕ) (p p' : Process t)
      → other_threads t threads k change masked p ≡ ok p'
      → Keeps p p'
  unfolding other_threads
  other_threads-Keeps [] k change masked p p' e = subst (Keeps p) (ground arith) (Keeps-refl p)
  other_threads-Keeps (thread ∷ rest) k change masked p p' e =
      let (p₁, w, e₁) = >>=-eq-ok (write_other t p thread.tid k change masked) _ e in
      Keeps-trans (write_other-Keeps p p₁ thread.tid k change masked w)
        (other_threads-Keeps rest k change masked p₁ p' e₁)

  -- Setting a hardware breakpoint keeps the sites and the memory.
  pub set_hardware_breakpoint-Keeps :
      (p p' : Process t) (id address index : ℕ)
      → set_hardware_breakpoint t p id address ≡ ok (p', index)
      → Keeps p p'
  unfolding set_hardware_breakpoint
  set_hardware_breakpoint-Keeps p p' id address index e =
      let (control, r, e₁) = >>=-eq-ok (read_debug t p p.current_thread 7) _ e in
      let (free, r₂, e₂) = >>=-eq-ok (find_free_stoppoint_region control) _ e₁ in
      let (p₁, w₁, e₃) = >>=-eq-ok (write_debug t p p.current_thread free (whole address)) _ e₂ in
      let (p₂, w₂, e₅) =
        >>=-eq-ok (write_debug t p₁ p.current_thread 7 (whole (control_word control free 0 0))) _
          e₃ in
      let (p₃, w₃, e₆) =
        >>=-eq-ok
          (other_threads t p₂.threads free (whole address) (control_word control free 0 0) p₂) _
          e₅ in
      subst (Keeps p) (pair_of_ok {b = free} {b' = index} e₆) (
        Keeps-trans (write_debug-Keeps p p₁ _ _ (whole address) w₁) (
          Keeps-trans (write_debug-Keeps p₁ p₂ _ 7 (whole (control_word control free 0 0)) w₂)
            (other_threads-Keeps _ _ (whole address) _ p₂ p₃ w₃)))

  pub set_watchpoint-Keeps :
      (p p' : Process t) (id address : ℕ) (mode : StoppointMode) (size index : ℕ)
      → set_watchpoint t p id address mode size ≡ ok (p', index)
      → Keeps p p'
  unfolding set_watchpoint
  set_watchpoint-Keeps p p' id address mode size index e =
      let (control, r, e₁) = >>=-eq-ok (read_debug t p p.current_thread 7) _ e in
      let (free, r₂, e₂) = >>=-eq-ok (find_free_stoppoint_region control) _ e₁ in
      let (p₁, w₁, e₃) = >>=-eq-ok (write_debug t p p.current_thread free (whole address)) _ e₂ in
      let (flag, r₃, e₄) = >>=-eq-ok (encode_hardware_stoppoint_size size) _ e₃ in
      let word = control_word control free (encode_hardware_stoppoint_mode mode) flag in
      let (p₂, w₂, e₅) = >>=-eq-ok (write_debug t p₁ p.current_thread 7 (whole word)) _ e₄ in
      let (p₃, w₃, e₆) = >>=-eq-ok (other_threads t p₂.threads free (whole address) word p₂) _ e₅ in
      subst (Keeps p) (pair_of_ok {b = free} {b' = index} e₆) (
        Keeps-trans (write_debug-Keeps p p₁ _ _ (whole address) w₁) (
          Keeps-trans (write_debug-Keeps p₁ p₂ _ 7 (whole word) w₂)
            (other_threads-Keeps _ _ (whole address) _ p₂ p₃ w₃)))

  -- Clearing one does too.
  pub clear_hardware_stoppoint-Keeps :
      (p p' : Process t) (index : ℕ) → clear_hardware_stoppoint t p index ≡ ok p' → Keeps p p'
  unfolding clear_hardware_stoppoint
  clear_hardware_stoppoint-Keeps p p' index e =
      let (p₁, w₁, e₁) = >>=-eq-ok (write_debug t p p.current_thread index (low_half 0)) _ e in
      let (control, r, e₂) = >>=-eq-ok (read_debug t p₁ p.current_thread 7) _ e₁ in
      let masked = bit_and control (keep_mask index) in
      let (p₂, w₂, w₃) = >>=-eq-ok (write_debug t p₁ p.current_thread 7 (whole masked)) _ e₂ in
      Keeps-trans (write_debug-Keeps p p₁ _ _ (low_half 0) w₁) (
        Keeps-trans (write_debug-Keeps p₁ p₂ _ 7 (whole masked) w₂)
          (other_threads-Keeps _ _ (low_half 0) _ p₂ p' w₃))
