-- ===== src/Target/Stack/Inline.antt =====
-- The frames of inlined calls, and the number of them that the stack hides.
use mathlib.Core.List.{reverse, reverse_aux}
use kdebugger.Common.{
  ℕ, zero, suc, ◌+◌, ◌≡◌, refl, sym, ap, ◌∙◌, subst, Bool, true, false, Bool-cases, List, [], ◌∷◌,
  All, length, ltb, inl, inr, Outcome, ok, fail, undefined, ◌>>=◌, >>=-eq-ok, ok-injective, arith,
}
use kdebugger.Elf.{FileAddr, to_virt_addr}
use kdebugger.Elf.Addresses.{equal}
use kdebugger.Dwarf.Die.{DieEntry}
use kdebugger.Dwarf.Die.Ranges.{low_pc}
use kdebugger.Dwarf.Die.Location.{location}
use kdebugger.Dwarf.Frame.Unwind.{RegisterFile}
use kdebugger.Target.{LoadedElf, Numbers, lines, line_entry_at_address}
use kdebugger.Target.Stack.{
  StackFrame, height_loop, create_base_frame, has_more, shown_at, inline_frames, round_frames,
}

-- Whether an entry starts at a program counter.
abbrev pub starts_at : Numbers → LoadedElf → FileAddr → DieEntry → Outcome Bool
starts_at n e pc die = do low ← low_pc n.outside e.dwarf die; ok (equal low pc)

-- That of the entries exactly the first `height` start there, up to one that does not.
abbrev pub IsHeight : Numbers → LoadedElf → FileAddr → List DieEntry → ℕ → Type 0
IsHeight n e pc [] zero = Unit
IsHeight n e pc [] (suc height) = ⊥
IsHeight n e pc (die ∷ outer) zero = starts_at n e pc die ≡ ok false
IsHeight n e pc (die ∷ outer) (suc height) =
    (starts_at n e pc die ≡ ok true) × IsHeight n e pc outer height

one_more :
    (n : Numbers) (e : LoadedElf) (pc : FileAddr) (die : DieEntry) (outer : List DieEntry)
    (more : ℕ)
    → starts_at n e pc die ≡ ok true
    → IsHeight n e pc outer more
    → IsHeight n e pc (die ∷ outer) (more + 1)
one_more n e pc die outer more here above =
    subst (IsHeight n e pc (die ∷ outer)) {x = suc more} {y = more + 1} (omega arith) (here, above)

-- The loop of `reset_inline_height` counts the entries of the inline stack that start at the program
-- counter, from the innermost one to the first that does not.
pub height_loop-IsHeight :
    (n : Numbers) (e : LoadedElf) (pc : FileAddr) (dies : List DieEntry) (height : ℕ)
    → height_loop n e pc dies ≡ ok height
    → IsHeight n e pc dies height
unfolding height_loop
height_loop-IsHeight n e pc [] height h = subst (IsHeight n e pc []) (ok-injective h) tt
height_loop-IsHeight n e pc (die ∷ outer) height h =
    let (low, read, h₁) = >>=-eq-ok (low_pc n.outside e.dwarf die) _ h in
    elim (Bool-cases (equal low pc)) [
      | inl here ↦
          let (more, rest, h₂) = >>=-eq-ok (height_loop n e pc outer) _ (rw here at h₁) in
          subst (IsHeight n e pc (die ∷ outer)) (ok-injective h₂) (
            one_more n e pc die outer more (rw (read, here) refl)
              (height_loop-IsHeight n e pc outer more rest))
      | inr other ↦
          let none_more : 0 ≡ height = ok-injective (rw other at h₁) in
          subst (IsHeight n e pc (die ∷ outer)) none_more (rw (read, other) refl)
    ]

abbrev pub functions_of : {R : Type 0} → List (StackFrame R) → List DieEntry
functions_of [] = []
functions_of (frame ∷ frames) = frame.func_die ∷ functions_of frames

abbrev pub inlined_of : {R : Type 0} → List (StackFrame R) → List Bool
inlined_of [] = []
inlined_of (frame ∷ frames) = frame.inlined ∷ inlined_of frames

-- A mark for each of so many entries, on all of them but the last.
abbrev pub all_but_last : ℕ → List Bool
all_but_last zero = []
all_but_last (suc zero) = false ∷ []
all_but_last (suc (suc count)) = true ∷ all_but_last (suc count)

mark-more :
    (die : DieEntry) (outer : List DieEntry)
    → has_more outer ∷ all_but_last (length outer) ≡ all_but_last (length (die ∷ outer))
mark-more die [] = refl
mark-more die (next ∷ outer) = refl

has_more-length :
    (die : DieEntry) (outer : List DieEntry) → ltb 1 (length (die ∷ outer)) ≡ has_more outer
has_more-length die [] = refl
has_more-length die (next ∷ outer) = ground arith

length-reverse_aux : (xs ys : List DieEntry) → length (reverse_aux xs ys) ≡ length xs + length ys
length-reverse_aux [] ys = omega arith
length-reverse_aux (x ∷ xs) ys = omega (arith, length-reverse_aux xs (x ∷ ys))

module _ {R : Type 0} (regs : RegisterFile R) (n : Numbers) where
  inline_frames-functions :
      (e : LoadedElf) (r : R) (inner : DieEntry) (outer : List DieEntry) (new : List (StackFrame R))
      → inline_frames regs n e r inner outer ≡ ok new
      → (functions_of new ≡ outer)
        × (inlined_of new ≡ all_but_last (length outer))
        × All (λ frame. frame.regs ≡ r) new
  unfolding inline_frames
  inline_frames-functions e r inner [] new h =
      subst
        (λ (q : List (StackFrame R)).
          (functions_of q ≡ []) × (inlined_of q ≡ []) × All (λ frame. frame.regs ≡ r) q)
        (ok-injective h) (refl, refl, tt)
  inline_frames-functions e r inner (die ∷ outer) new h =
      let (low, read, h₁) = >>=-eq-ok (low_pc n.outside e.dwarf inner) _ h in
      let (pc, placed, h₂) = >>=-eq-ok (to_virt_addr low) _ h₁ in
      let (table, parsed, h₃) = >>=-eq-ok (lines n e inner.cu) _ h₂ in
      let (at, located, h₄) = >>=-eq-ok (location n.outside e.dwarf table.1 inner) _ h₃ in
      let (others, rest, h₅) = >>=-eq-ok (inline_frames regs n e r die outer) _ h₄ in
      let (functions, marks, same) = inline_frames-functions e r die outer others rest in
      subst
        (λ (q : List (StackFrame R)).
          (functions_of q ≡ die ∷ outer)
          × (inlined_of q ≡ all_but_last (length (die ∷ outer)))
          × All (λ frame. frame.regs ≡ r) q)
        (ok-injective h₅)
        (
          ap (λ fs. die ∷ fs) functions,
          ap (λ ms. has_more outer ∷ ms) marks ∙ mark-more die outer,
          (refl, same),
        )

  base_frame-function :
      (e : LoadedElf) (r : R) (die : DieEntry) (pc : FileAddr) (inlined : Bool)
      (frame : StackFrame R)
      → create_base_frame regs n e r die pc inlined ≡ ok frame
      → (frame.func_die ≡ die) × (frame.inlined ≡ inlined) × (frame.regs ≡ r)
  unfolding create_base_frame
  base_frame-function e r die pc inlined frame h =
      let (there, placed, h₁) = >>=-eq-ok (to_virt_addr pc) _ h in
      let (entry, read, h₂) = >>=-eq-ok (line_entry_at_address n e pc) _ h₁ in
      let (shown, chosen, h₃) = >>=-eq-ok (shown_at there entry) _ h₂ in
      subst (λ (q : StackFrame R). (q.func_die ≡ die) × (q.inlined ≡ inlined) × (q.regs ≡ r))
        (ok-injective h₃) (refl, refl, refl)

  frames_over :
      (e : LoadedElf) (r : R) (pc : FileAddr) (dies : List DieEntry) (new : List (StackFrame R))
      (size : ℕ)
      → size ≡ length dies
      → (elim dies [
        | [] ↦ fail undefined
        | die ∷ outer ↦ do
          base ← create_base_frame regs n e r die pc (ltb 1 size)
          inline ← inline_frames regs n e r die outer
          ok (base ∷ inline)
      ])
        ≡ ok new
      → (functions_of new ≡ dies)
        × (inlined_of new ≡ all_but_last (length dies))
        × All (λ frame. frame.regs ≡ r) new
  frames_over e r pc [] new size same h = cc
  frames_over e r pc (die ∷ outer) new size same h =
      let (base, made, h₁) = >>=-eq-ok (create_base_frame regs n e r die pc (ltb 1 size)) _ h in
      let (inline, rest, h₂) = >>=-eq-ok (inline_frames regs n e r die outer) _ h₁ in
      let (first, mark, kept) = base_frame-function e r die pc (ltb 1 size) base made in
      let (functions, marks, all_kept) = inline_frames-functions e r die outer inline rest in
      let more : base.inlined ≡ has_more outer =
        mark ∙ ap (ltb 1) same ∙ has_more-length die outer in
      subst
        (λ (q : List (StackFrame R)).
          (functions_of q ≡ die ∷ outer)
          × (inlined_of q ≡ all_but_last (length (die ∷ outer)))
          × All (λ frame. frame.regs ≡ r) q)
        (ok-injective h₂)
        (rw (first, functions) refl, rw (more, marks) (mark-more die outer), (kept, all_kept))

-- A round of `stack::unwind` adds one frame for each entry of the inline stack, from the innermost one
-- out, all with the registers of the round, and marks all of them as inlined but the outermost.
pub round_frames-functions :
    {R : Type 0} (regs : RegisterFile R) (n : Numbers) (e : LoadedElf) (r : R)
    (dies : List DieEntry) (pc : FileAddr) (new : List (StackFrame R))
    → round_frames regs n e r dies pc ≡ ok new
    → (functions_of new ≡ reverse dies)
      × (inlined_of new ≡ all_but_last (length dies))
      × All (λ frame. frame.regs ≡ r) new
unfolding round_frames
round_frames-functions regs n e r dies pc new h =
    let size : length dies ≡ length (reverse dies) = omega (arith, length-reverse_aux dies []) in
    let (functions, marks, kept) =
      frames_over regs n e r pc (reverse dies) new (length dies) size h in
    (functions, marks ∙ ap all_but_last (sym size), kept)
