-- ===== src/Process/Hardware/Threads.antt =====
-- A hardware stop point is set and cleared on every thread of the process, in the debugger's copies
-- of the registers.
use kdebugger.Common.{
  ℕ, ◌<◌, true, false, ◌/◌, ◌*◌, ◌^◌, ◌≡◌, ◌⊎◌, refl, sym, ap, ◌∙◌, subst, bit_and, ◌&&◌, List, [],
  ◌∷◌, if◌then◌else◌, ◌==◌, arith, Outcome, ok, ◌>>=◌, >>=-eq-ok, ok-injective, fail-ne-ok,
  Bool-cases, inl, inr,
}
use kdebugger.Process.Hardware.Free.{IsFree, find_free_stoppoint_region-found}
use kdebugger.Process.Tracee.{Tracee}
use kdebugger.Process.State.{Thread, Process, StoppointMode}
use kdebugger.Process.Hardware.{
  find_free_stoppoint_region, thread_of, store_thread, update_debug, read_debug, write_debug,
  write_user_area, write_other, other_threads, keep_mask, control_word, set_hardware_stoppoint,
  clear_hardware_stoppoint, whole, low_half, encode_hardware_stoppoint_mode,
  encode_hardware_stoppoint_size,
}

thread_of-store_thread :
    (threads : List Thread) (thread : Thread) (tid k value tid' j : ℕ)
    → thread_of threads tid ≡ ok thread
    → (thread_of (store_thread threads tid k value) tid' >>= λ th. ok (th.debug j)) ≡ (
        if tid == tid' && k == j
        then ok value
        else (thread_of threads tid' >>= λ th. ok (th.debug j)))
unfolding thread_of store_thread update_debug
thread_of-store_thread [] thread tid k value tid' j e = absurd (fail-ne-ok e)
thread_of-store_thread (th ∷ threads) thread tid k value tid' j e =
    ground (arith, thread_of-store_thread threads thread tid k value tid' j)

self : (n : ℕ) → (n == n) ≡ true
self n = ground arith

cleared_twice : (x : ℕ) → low_half 0 (low_half 0 x) ≡ low_half 0 x
cleared_twice x = omega arith

module _ (t : Tracee) where
  known_thread :
      (p : Process t) (tid k v : ℕ)
      → read_debug t p tid k ≡ ok v
      → (th : Thread) × (thread_of p.threads tid ≡ ok th)
  unfolding read_debug
  known_thread p tid k v e =
      let (th, found, e₁) = >>=-eq-ok (thread_of p.threads tid) _ e in (th, found)

  known_register :
      (p : Process t) (tid k v j : ℕ)
      → read_debug t p tid k ≡ ok v
      → (old : ℕ) × (read_debug t p tid j ≡ ok old)
  unfolding read_debug
  known_register p tid k v j e =
      let (th, found) = known_thread p tid k v e in (th.debug j, rw (found, ◌>>=◌) refl)

  -- What a write to a debug register leaves in all of them.
  write_debug-read_debug :
      (p q : Process t) (tid k : ℕ) (change : ℕ → ℕ)
      → write_debug t p tid k change ≡ ok q
      → (old : ℕ) × (read_debug t p tid k ≡ ok old)
        × ((tid' j : ℕ)
            → read_debug t q tid' j
              ≡ (if tid == tid' && k == j then ok (change old) else read_debug t p tid' j))
  unfolding write_debug read_debug
  write_debug-read_debug p q tid k change e =
      let (thread, found, e₁) = >>=-eq-ok (thread_of p.threads tid) _ e in
      let value = change (thread.debug k) in
      let (once, first, e₂) = >>=-eq-ok (write_user_area t p.tracee k value) _ e₁ in
      let (twice, second, e₃) = >>=-eq-ok (write_user_area t once k value) _ e₂ in
      (
        thread.debug k,
        rw (found, ◌>>=◌) refl,
        λ tid' j.
            subst
              (λ (r : Process t).
                read_debug t r tid' j
                ≡ (if tid == tid' && k == j then ok value else read_debug t p tid' j))
              (ok-injective e₃) (thread_of-store_thread p.threads thread tid k value tid' j found),
      )

  write_debug-current :
      (p q : Process t) (tid k : ℕ) (change : ℕ → ℕ)
      → write_debug t p tid k change ≡ ok q
      → q.current_thread ≡ p.current_thread
  unfolding write_debug
  write_debug-current p q tid k change e =
      let (thread, found, e₁) = >>=-eq-ok (thread_of p.threads tid) _ e in
      let value = change (thread.debug k) in
      let (once, first, e₂) = >>=-eq-ok (write_user_area t p.tracee k value) _ e₁ in
      let (twice, second, e₃) = >>=-eq-ok (write_user_area t once k value) _ e₂ in
      ap (λ (r : Process t). r.current_thread) (sym (ok-injective e₃))

  -- Register `k` of a thread and its control register are written; to write `k` again changes nothing.
  module _ (k masked : ℕ) (change : ℕ → ℕ) (hk : k < 7)
      (again : (x : ℕ) → change (change x) ≡ change x) where
    -- The thread has the new values, where register `k` held `old`.
    abbrev Written : Process t → ℕ → ℕ → Type 0
    Written p tid old =
        (read_debug t p tid k ≡ ok (change old)) × (read_debug t p tid 7 ≡ ok masked)

    abbrev Seen : Process t → ℕ → ℕ → Type 0
    Seen p tid old = (read_debug t p tid k ≡ ok old) ⊎ (read_debug t p tid k ≡ ok (change old))

    change-Seen :
        (p : Process t) (tid old w : ℕ)
        → Seen p tid old
        → read_debug t p tid k ≡ ok w
        → change w ≡ change old
    change-Seen p tid old w (inl e) was = ap change (ok-injective (sym was ∙ e))
    change-Seen p tid old w (inr e) was = ap change (ok-injective (sym was ∙ e)) ∙ again old

    two_writes :
        (p p₁ q : Process t) (first tid old : ℕ)
        → write_debug t p first k change ≡ ok p₁
        → write_debug t p₁ first 7 (whole masked) ≡ ok q
        → ((first == tid) ≡ true → Seen p tid old → Written q tid old)
          × ((first == tid) ≡ false
              → (read_debug t q tid k ≡ read_debug t p tid k)
                × (read_debug t q tid 7 ≡ read_debug t p tid 7))
    two_writes p p₁ q first tid old wrote wrote₂ =
        let (w, was, one) = write_debug-read_debug p p₁ first k change wrote in
        let (c, was₂, two) = write_debug-read_debug p₁ q first 7 (whole masked) wrote₂ in
        let not_seven : (7 == k) ≡ false = ground arith in
        let not_seven' : (k == 7) ≡ false = ground arith in
        (
          (λ same seen.
              let here : read_debug t p tid k ≡ ok w =
                subst (λ x. read_debug t p x k ≡ ok w) {x = first} (ground arith) was in
              (
                two tid k
                    ∙ rw (same, not_seven)
                        (one tid k ∙ rw (same, self k) (ap ok (change-Seen p tid old w seen here))),
                two tid 7 ∙ rw same refl,
              )),
          (λ other. (
            two tid k ∙ rw other (one tid k ∙ rw other refl),
            two tid 7 ∙ rw other (one tid 7 ∙ rw other refl),
          )),
        )

    write_other-step :
        (p q : Process t) (first tid old : ℕ)
        → write_other t p first k change masked ≡ ok q
        → (q.current_thread ≡ p.current_thread)
          × (Written p tid old → Written q tid old)
          × ((tid == p.current_thread) ≡ false
              → Seen p tid old
              → (first == tid) ≡ true
              → Written q tid old)
          × (Seen p tid old → (first == tid) ≡ false → Seen q tid old)
    unfolding write_other
    write_other-step p q first tid old e = elim (Bool-cases (first == p.current_thread)) [
      | inl same ↦
          subst
            (λ (r : Process t).
              (r.current_thread ≡ p.current_thread)
              × (Written p tid old → Written r tid old)
              × ((tid == p.current_thread) ≡ false
                  → Seen p tid old
                  → (first == tid) ≡ true
                  → Written r tid old)
              × (Seen p tid old → (first == tid) ≡ false → Seen r tid old))
            (ok-injective (rw same at e))
            (refl, (λ w. w), (λ elsewhere seen this. absurd (ground arith)), (λ seen other. seen))
      | inr differs ↦
          let (p₁, wrote, e₁) = >>=-eq-ok (write_debug t p first k change) _ (rw differs at e) in
          let (mine, others) = two_writes p p₁ q first tid old wrote e₁ in
          (
            write_debug-current p₁ q first 7 (whole masked) e₁
                ∙ write_debug-current p p₁ first k change wrote,
            (λ w. elim (Bool-cases (first == tid)) [
              | inl this ↦ mine this (inr w.0)
              | inr other ↦ ((others other).0 ∙ w.0, (others other).1 ∙ w.1)
            ]),
            (λ elsewhere seen this. mine this seen),
            (λ seen other. elim seen [
              | inl e ↦ inl ((others other).0 ∙ e)
              | inr e ↦ inr ((others other).0 ∙ e)
            ]),
          )
    ]

    other_threads-Written :
        (rest : List Thread) (p q : Process t) (tid old : ℕ)
        → other_threads t rest k change masked p ≡ ok q
        → (((tid == p.current_thread) ≡ false)
            × Seen p tid old
            × ((th : Thread) × (thread_of rest tid ≡ ok th)))
          ⊎ Written p tid old
        → Written q tid old
    unfolding other_threads thread_of
    other_threads-Written [] p q tid old e (inl (elsewhere, seen, (th, found))) =
        absurd (fail-ne-ok found)
    other_threads-Written [] p q tid old e (inr done) =
        subst (λ (r : Process t). Written r tid old) (ok-injective e) done
    other_threads-Written (first ∷ rest) p q tid old e wanted =
        let (p₁, wrote, e₁) = >>=-eq-ok (write_other t p first.tid k change masked) _ e in
        let (same_current, keeps, writes, leaves) = write_other-step p p₁ first.tid tid old wrote in
        other_threads-Written rest p₁ q tid old e₁ (elim wanted [
          | inr already ↦ inr (keeps already)
          | inl (elsewhere, seen, (th, found)) ↦ elim (Bool-cases (first.tid == tid)) [
            | inl same ↦ inr (writes elsewhere seen same)
            | inr differs ↦
                inl (rw same_current elsewhere, leaves seen differs, (th, rw differs at found))
          ]
        ])

    -- Two writes to the current thread, and then the loop over the others.
    all_threads-Written :
        (p p₁ p₂ p₃ : Process t) (tid old : ℕ)
        → write_debug t p p.current_thread k change ≡ ok p₁
        → write_debug t p₁ p.current_thread 7 (whole masked) ≡ ok p₂
        → other_threads t p₂.threads k change masked p₂ ≡ ok p₃
        → read_debug t p tid k ≡ ok old
        → Written p₃ tid old
    all_threads-Written p p₁ p₂ p₃ tid old first second others is_old =
        let (mine, apart) = two_writes p p₁ p₂ p.current_thread tid old first second in
        let current : p₂.current_thread ≡ p.current_thread =
          write_debug-current p₁ p₂ p.current_thread 7 (whole masked) second
          ∙ write_debug-current p p₁ p.current_thread k change first in
        other_threads-Written p₂.threads p₂ p₃ tid old others
          (elim (Bool-cases (p.current_thread == tid)) [
            | inl this ↦ inr (mine this (inl is_old))
            | inr other ↦
                let here : read_debug t p₂ tid k ≡ ok old = (apart other).0 ∙ is_old in
                let elsewhere : (tid == p.current_thread) ≡ false = ground arith in
                inl (rw current elsewhere, inl here, known_thread p₂ tid k old here)
          ])

  returned :
      (p₃ p' : Process t) (control mode_flag size_flag j i address tid : ℕ)
      → ◌≡◌ {A = Outcome (Process t × ℕ)} (ok (p₃, j)) (ok (p', i))
      → j < 4
      → IsFree control j
      → (read_debug t p₃ tid j ≡ ok address)
        × (read_debug t p₃ tid 7 ≡ ok (control_word control j mode_flag size_flag))
      → (i < 4)
        × IsFree control i
        × (read_debug t p' tid i ≡ ok address)
        × (read_debug t p' tid 7 ≡ ok (control_word control i mode_flag size_flag))
  returned p₃ p' control mode_flag size_flag j i address tid e below free written =
      subst
        (λ (r : Process t × ℕ).
          (r.1 < 4)
          × IsFree control r.1
          × (read_debug t r.0 tid r.1 ≡ ok address)
          × (read_debug t r.0 tid 7 ≡ ok (control_word control r.1 mode_flag size_flag)))
        {x = (p₃, j)} {y = (p', i)} (ok-injective e) (below, free, written.0, written.1)

  -- After a `set_hardware_stoppoint` that returns register `i`, `i` is one of the four that were free
  -- in the current thread, and of every thread the debugger's copy of the registers holds the address
  -- in it and, in debug register 7, the current thread's control word with the fields of register
  -- `i` set for the mode and the size.
  pub set_hardware_stoppoint-threads :
      (p p' : Process t) (address size i tid v : ℕ) (mode : StoppointMode)
      → set_hardware_stoppoint t p address mode size ≡ ok (p', i)
      → read_debug t p tid 7 ≡ ok v
      → (control : ℕ) × (size_flag : ℕ) × (read_debug t p p.current_thread 7 ≡ ok control)
        × (encode_hardware_stoppoint_size size ≡ ok size_flag)
        × (i < 4)
        × IsFree control i
        × (read_debug t p' tid i ≡ ok address)
        × (read_debug t p' tid 7
            ≡ ok (control_word control i (encode_hardware_stoppoint_mode mode) size_flag))
  unfolding set_hardware_stoppoint
  set_hardware_stoppoint-threads p p' address size i tid v mode e is_thread =
      let (control, is_control, e₁) = >>=-eq-ok (read_debug t p p.current_thread 7) _ e in
      let (j, taken, e₂) = >>=-eq-ok (find_free_stoppoint_region control) _ e₁ in
      let (p₁, wrote, e₃) = >>=-eq-ok (write_debug t p p.current_thread j (whole address)) _ e₂ in
      let (size_flag, is_flag, e₄) = >>=-eq-ok (encode_hardware_stoppoint_size size) _ e₃ in
      let masked = control_word control j (encode_hardware_stoppoint_mode mode) size_flag in
      let (p₂, wrote₂, e₅) = >>=-eq-ok (write_debug t p₁ p.current_thread 7 (whole masked)) _ e₄ in
      let (p₃, others, e₆) =
        >>=-eq-ok (other_threads t p₂.threads j (whole address) masked p₂) _ e₅ in
      let (below, free, _) = find_free_stoppoint_region-found control j taken in
      let (old, is_old) = known_register p tid 7 v j is_thread in
      let written =
        all_threads-Written j masked (whole address) (omega (arith, below)) (λ x. refl) p p₁ p₂ p₃
          tid old wrote wrote₂ others is_old in
      let (is_below, is_free, has_address, has_word) =
        returned p₃ p' control (encode_hardware_stoppoint_mode mode) size_flag j i address tid e₆
          below free written in
      (control, size_flag, is_control, is_flag, is_below, is_free, has_address, has_word)

  -- After a `clear_hardware_stoppoint` of register `index`, below 4, of every thread the debugger's
  -- copy of the registers holds in it the upper half of what it held, over a lower half of 0, and, in
  -- debug register 7, the control word of the current thread without the register's fields.
  pub clear_hardware_stoppoint-threads :
      (p p' : Process t) (index tid old : ℕ)
      → index < 4
      → clear_hardware_stoppoint t p index ≡ ok p'
      → read_debug t p tid index ≡ ok old
      → (control : ℕ) × (read_debug t p p.current_thread 7 ≡ ok control)
        × (read_debug t p' tid index ≡ ok (old / 2 ^ 32 * 2 ^ 32))
        × (read_debug t p' tid 7 ≡ ok (bit_and control (keep_mask index)))
  unfolding clear_hardware_stoppoint
  clear_hardware_stoppoint-threads p p' index tid old below e is_old =
      let (p₁, wrote, e₁) = >>=-eq-ok (write_debug t p p.current_thread index (low_half 0)) _ e in
      let (control, is_control, e₂) = >>=-eq-ok (read_debug t p₁ p.current_thread 7) _ e₁ in
      let masked = bit_and control (keep_mask index) in
      let (p₂, wrote₂, others) =
        >>=-eq-ok (write_debug t p₁ p.current_thread 7 (whole masked)) _ e₂ in
      let (value, control_word) =
        all_threads-Written index masked (low_half 0) (omega (arith, below)) cleared_twice p p₁ p₂
          p' tid old wrote wrote₂ others is_old in
      let (w, was, after) = write_debug-read_debug p p₁ p.current_thread index (low_half 0) wrote in
      let not_seven : (index == 7) ≡ false = ground arith in
      (
        control,
        sym (after p.current_thread 7 ∙ rw (self p.current_thread, not_seven) refl) ∙ is_control,
        value ∙ ap ok (omega arith),
        control_word,
      )
