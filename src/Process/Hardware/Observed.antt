-- ===== src/Process/Hardware/Observed.antt =====
-- That clearing a hardware stop point keeps what the writes to debug registers keep.
use kdebugger.Common.{
  ℕ, bit_and, ◌≡◌, refl, ◌∙◌, subst, Bool-cases, List, [], ◌∷◌, ◌==◌, some, inl, inr, ok, >>=-eq-ok,
  ok-injective, arith,
}
use kdebugger.Process.Tracee.{Tracee}
use kdebugger.Process.State.{Thread, Process}
use kdebugger.Process.Hardware.{
  thread_of, keep_mask, write_user_area, read_debug, write_debug, whole, low_half, write_other,
  other_threads, clear_hardware_stoppoint,
}

module _ (t : Tracee) (look : t.State → ℕ)
    (debug_kept : (m m' : t.State) (i v : ℕ)
      → t.poke_debug m i v ≡ some m'
      → look m' ≡ look m) where
  abbrev pub SameLook : Process t → Process t → Type 0
  SameLook p p' = look p'.tracee ≡ look p.tracee

  write_user_area-look :
      (m m' : t.State) (k value : ℕ) → write_user_area t m k value ≡ ok m' → look m' ≡ look m
  unfolding write_user_area
  write_user_area-look m m' k value e = ground (arith, debug_kept m m' k value)

  write_debug-look :
      (p p' : Process t) (tid k : ℕ) (change : ℕ → ℕ)
      → write_debug t p tid k change ≡ ok p'
      → SameLook p p'
  unfolding write_debug
  write_debug-look p p' tid k change e =
      let (thread, found, e₁) = >>=-eq-ok (thread_of p.threads tid) _ e in
      let (once, w₁, e₂) =
        >>=-eq-ok (write_user_area t p.tracee k (change (thread.debug k))) _ e₁ in
      let (twice, w₂, e₃) = >>=-eq-ok (write_user_area t once k (change (thread.debug k))) _ e₂ in
      subst (SameLook p) (ok-injective e₃) (
        write_user_area-look once twice k (change (thread.debug k)) w₂
        ∙ write_user_area-look p.tracee once k (change (thread.debug k)) w₁)

  write_other-look :
      (p p' : Process t) (tid k : ℕ) (change : ℕ → ℕ) (masked : ℕ)
      → write_other t p tid k change masked ≡ ok p'
      → SameLook p p'
  unfolding write_other
  write_other-look p p' tid k change masked e = elim (Bool-cases (tid == p.current_thread)) [
    | inl same ↦ subst (SameLook p) (ok-injective (rw same at e)) refl
    | inr other ↦
        let (p₁, w₁, w₂) = >>=-eq-ok (write_debug t p tid k change) _ (rw other at e) in
        write_debug-look p₁ p' tid 7 (whole masked) w₂ ∙ write_debug-look p p₁ tid k change w₁
  ]

  other_threads-look :
      (threads : List Thread) (k : ℕ) (change : ℕ → ℕ) (masked : ℕ) (p p' : Process t)
      → other_threads t threads k change masked p ≡ ok p'
      → SameLook p p'
  unfolding other_threads
  other_threads-look [] k change masked p p' e = subst (SameLook p) (ok-injective e) refl
  other_threads-look (thread ∷ rest) k change masked p p' e =
      let (p₁, w, e₁) = >>=-eq-ok (write_other t p thread.tid k change masked) _ e in
      other_threads-look rest k change masked p₁ p' e₁
      ∙ write_other-look p p₁ thread.tid k change masked w

  pub clear_hardware_stoppoint-look :
      (p p' : Process t) (index : ℕ) → clear_hardware_stoppoint t p index ≡ ok p' → SameLook p p'
  unfolding clear_hardware_stoppoint
  clear_hardware_stoppoint-look p p' index e =
      let (p₁, w₁, e₁) = >>=-eq-ok (write_debug t p p.current_thread index (low_half 0)) _ e in
      let (control, r, e₂) = >>=-eq-ok (read_debug t p₁ p.current_thread 7) _ e₁ in
      let masked = bit_and control (keep_mask index) in
      let (p₂, w₂, w₃) = >>=-eq-ok (write_debug t p₁ p.current_thread 7 (whole masked)) _ e₂ in
      other_threads-look p₂.threads index (low_half 0) masked p₂ p' w₃
      ∙ write_debug-look p₁ p₂ _ 7 (whole masked) w₂
      ∙ write_debug-look p p₁ _ index (low_half 0) w₁
