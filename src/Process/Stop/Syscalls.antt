-- ===== src/Process/Stop/Syscalls.antt =====
-- System calls are seen on entry and on exit in turn.
use kdebugger.Common.{
  ℕ, ◌≡◌, refl, ap, ◌∙◌, Bool, true, false, not, ◌==◌, Option, none, some, arith, ok, if◌then◌else◌,
  Bool-cases, inl, inr,
}
use kdebugger.Process.Stop.{
  StopReason, Register, SiCode, sigtrap, augment_stop_reason, syscall_info_of, trap_of, syscall,
  unknown,
}

-- Whether a stop's information is of a system call's entry; none for any other stop.
abbrev pub entry_of : StopReason → Option Bool
entry_of r = elim r.syscall_info [ none ↦ none | some i ↦ some i.entry ]

not-not : (b : Bool) → not (not b) ≡ b
not-not true = refl
not-not false = refl

clash : {b : Bool} → b ≡ false → b ≡ true → ⊥
clash e e' = cc

abbrev called : (Register → ℕ) → Bool → StopReason → StopReason
called regs expecting r = record r {
  info = sigtrap;
  trap_reason = some syscall;
  syscall_info = some (syscall_info_of regs expecting);
}

at_syscall :
    (code : SiCode) (regs : Register → ℕ) (expecting : Bool) (r : StopReason)
    → (r.info == 0x85) ≡ true
    → (result : StopReason) × (augment_stop_reason (some code) regs expecting r
        ≡ ok (result, not expecting))
      × (entry_of result ≡ some (not expecting))
unfolding augment_stop_reason
at_syscall code regs true r e = (called regs true r, rw e, refl)
at_syscall code regs false r e = (called regs false r, rw e, refl)

elsewhere :
    (code : SiCode) (regs : Register → ℕ) (expecting : Bool) (r : StopReason)
    → (r.info == 0x85) ≡ false
    → (result : StopReason) × (augment_stop_reason (some code) regs expecting r
        ≡ ok (result, false))
unfolding augment_stop_reason
elsewhere code regs expecting r e =
    (record r { trap_reason = some (if r.info == sigtrap then trap_of code else unknown) }, rw e)

-- Where the signal's information can be read, a stop at a system call is its entry exactly if no exit
-- was expected. Of two stops in a row, the second one at a system call, the second is an entry if
-- the first was not at a system call, and otherwise it is the opposite of the first.
pub augment_stop_reason-alternates :
    (code code' : SiCode) (regs regs' : Register → ℕ) (expecting : Bool) (r r' : StopReason)
    → r'.info ≡ 0x85
    → (first second : StopReason) × (expecting' after : Bool) × (augment_stop_reason
          (some code)
          regs
          expecting
          r
        ≡ ok (first, expecting'))
      × (augment_stop_reason (some code') regs' expecting' r' ≡ ok (second, after))
      × ((r.info == 0x85) ≡ true → entry_of first ≡ some (not expecting))
      × (entry_of second ≡ some (if r.info == 0x85 then expecting else true))
augment_stop_reason-alternates code code' regs regs' expecting r r' e =
    let called : (r'.info == 0x85) ≡ true = ground arith in
    elim (Bool-cases (r.info == 0x85)) [
      | inl on ↦
          let (first, done, shown) = at_syscall code regs expecting r on in
          let (second, done', shown') = at_syscall code' regs' (not expecting) r' called in
          (
            first,
            second,
            not expecting,
            not (not expecting),
            done,
            done',
            λ _. shown,
            shown' ∙ ap some (not-not expecting ∙ rw on),
          )
      | inr off ↦
          let (first, done) = elsewhere code regs expecting r off in
          let (second, done', shown') = at_syscall code' regs' false r' called in
          (
            first,
            second,
            false,
            true,
            done,
            done',
            λ on. absurd (clash off on),
            shown' ∙ ap some (rw off),
          )
    ]
