-- ===== src/Process/Memory/Write.antt =====
-- `write_memory` writes its bytes and no other.
use kdebugger.Common.{
  ℕ, zero, suc, ◌+◌, ◌*◌, ◌≤◌, ◌<◌, ◌≡◌, ◌⊎◌, refl, sym, ap, ◌∙◌, List, [], ◌∷◌, ◌++◌, some,
  if◌then◌else◌, ◌==◌, leb, drop, length, All, Bool-cases, inl, inr, arith, ok, ◌>>=◌, >>=-eq-ok,
  ok-injective, sent_errno, Option-cases, fail-ne-ok,
}
use kdebugger.Process.Tracee.{Tracee, word_at, bytes_at, poke-byte}
use kdebugger.Process.State.{Process}
use kdebugger.Process.Memory.{
  remote_descs, read_memory, word_of, take, next_word, poke_word, write_loop, write_memory,
}
use kdebugger.Process.Memory.Ranges.{bytes_at-congr}
use mathlib.Core.List.{append-nil}
use native.Mathlib.Nat.{add-zero}
use kdebugger.Process.Memory.Restore.{read_memory-bytes_at}

-- Memory `f` with the bytes written from `a` on.
abbrev pub overlay : (ℕ → ℕ) → ℕ → List ℕ → ℕ → ℕ
overlay f a [] x = f x
overlay f a (b ∷ bs) x = let later = overlay f (a + 1) bs x in if a == x then b else later

-- Outside the bytes nothing changes.
pub overlay-outside :
    (f : ℕ → ℕ) (a : ℕ) (bs : List ℕ) (x : ℕ)
    → (x < a) ⊎ (a + length bs ≤ x)
    → overlay f a bs x ≡ f x
overlay-outside f a [] x h = refl
overlay-outside f a (b ∷ bs) x h = ground (arith, overlay-outside f (a + 1) bs x)

overlay-small :
    (f : ℕ → ℕ) (a : ℕ) (bs : List ℕ) (x : ℕ)
    → ((y : ℕ) → f y < 256)
    → All (λ b. b < 256) bs
    → overlay f a bs x < 256
overlay-small f a [] x small h = small x
overlay-small f a (b ∷ bs) x small (hb, h) = ground (arith, overlay-small f (a + 1) bs x small h)

pub word_of-bytes_at : (f : ℕ → ℕ) (a n : ℕ) → word_of (bytes_at f a n) ≡ word_at f a n
unfolding word_of
word_of-bytes_at f a zero = refl
word_of-bytes_at f a (suc n) = ap (λ (w : ℕ). f a + 256 * w) (word_of-bytes_at f (a + 1) n)

-- The bytes, and then what follows them in memory, are the overlaid memory.
merge-bytes_at :
    (f : ℕ → ℕ) (a n : ℕ) (bs : List ℕ)
    → length bs ≤ n
    → bs ++ drop (length bs) (bytes_at f a n) ≡ bytes_at (overlay f a bs) a n
merge-bytes_at f a n [] h = refl
merge-bytes_at f a zero (b ∷ bs) h = absurd (omega arith)
merge-bytes_at f a (suc n) (b ∷ bs) h =
    let here : overlay f a (b ∷ bs) a ≡ b = ground arith in
    let rest : bytes_at (overlay f (a + 1) bs) (a + 1) n
        ≡ bytes_at (overlay f a (b ∷ bs)) (a + 1) n =
      bytes_at-congr _ _ (a + 1) n (λ x lo hi. ground arith) in
    rw here (ap (λ (l : List ℕ). b ∷ l) (merge-bytes_at f (a + 1) n bs (omega arith) ∙ rest))

length-take-le : (n : ℕ) (bs : List ℕ) → length (take n bs) ≤ n
length-take-le zero bs = omega arith
length-take-le (suc n) [] = omega arith
length-take-le (suc n) (b ∷ bs) = omega (arith, length-take-le n bs)

take-All : (n : ℕ) (bs : List ℕ) → All (λ b. b < 256) bs → All (λ b. b < 256) (take n bs)
take-All zero bs h = tt
take-All (suc n) [] h = tt
take-All (suc n) (b ∷ bs) h = (h.0, take-All n bs h.1)

drop-All : (n : ℕ) (bs : List ℕ) → All (λ b. b < 256) bs → All (λ b. b < 256) (drop n bs)
drop-All zero bs h = h
drop-All (suc n) [] h = tt
drop-All (suc n) (b ∷ bs) h = drop-All n bs h.1

overlay-congr :
    (f g : ℕ → ℕ) (a : ℕ) (bs : List ℕ) (x : ℕ) → f x ≡ g x → overlay f a bs x ≡ overlay g a bs x
overlay-congr f g a [] x h = h
overlay-congr f g a (b ∷ bs) x h = ground (arith, overlay-congr f g (a + 1) bs x h)

-- Writing the first bytes and then the others is writing them all.
overlay-take-drop :
    (f : ℕ → ℕ) (a n : ℕ) (bs : List ℕ) (x : ℕ)
    → overlay (overlay f a (take n bs)) (a + n) (drop n bs) x ≡ overlay f a bs x
overlay-take-drop f a zero bs x = rw add-zero
overlay-take-drop f a (suc n) [] x = refl
overlay-take-drop f a (suc n) (b ∷ bs) x =
    let first = overlay f a (b ∷ take n bs) in
    let shift : a + suc n ≡ a + 1 + n = omega arith in
    elim (Bool-cases (a == x)) [
      | inl same ↦
          overlay-outside first (a + suc n) (drop n bs) x (inl (ground arith)) ∙ ground arith
      | inr other ↦
          rw (shift, other)
            (overlay-congr first (overlay f (a + 1) (take n bs)) (a + 1 + n) (drop n bs) x
                (ground arith)
              ∙ overlay-take-drop f (a + 1) n bs x)
    ]

-- Every transfer of the tracee is complete: it ends early only where a range is not mapped.
abbrev pub FullReads : Tracee → Type 0
FullReads t =
    (m : t.State) (address amount : ℕ) (got : List ℕ)
    → t.readv m (remote_descs amount address amount) ≡ some got
    → length got ≡ amount

length-take_all : (n : ℕ) (bs : List ℕ) → n ≤ length bs → length (take n bs) ≡ n
length-take_all zero bs h = refl
length-take_all (suc n) [] h = absurd (omega arith)
length-take_all (suc n) (b ∷ bs) h = ap suc (length-take_all n bs (omega arith))

take_all : (n : ℕ) (bs : List ℕ) → length bs ≤ n → take n bs ≡ bs
take_all zero [] h = refl
take_all zero (b ∷ bs) h = absurd (omega arith)
take_all (suc n) [] h = refl
take_all (suc n) (b ∷ bs) h = ap (λ (l : List ℕ). b ∷ l) (take_all n bs (omega arith))

-- The word made of at most eight bytes and of what follows them in memory.
merged_word :
    (f : ℕ → ℕ) (a : ℕ) (bs : List ℕ)
    → length bs ≤ 8
    → word_of (bs ++ drop (length bs) (bytes_at f a 8)) ≡ word_at (overlay f a bs) a 8
merged_word f a bs h =
    ap word_of (merge-bytes_at f a 8 bs h) ∙ word_of-bytes_at (overlay f a bs) a 8

full_word :
    (f : ℕ → ℕ) (a : ℕ) (bs : List ℕ) → length bs ≡ 8 → word_of bs ≡ word_at (overlay f a bs) a 8
full_word f a bs h =
    ap word_of (sym (append-nil bs) ∙ ap (λ (n : ℕ). bs ++ drop n (bytes_at f a 8)) (sym h))
    ∙ merged_word f a bs (omega arith)

module _ (t : Tracee) (full : FullReads t) where
  -- A `read_memory` that succeeds returns the bytes at the addresses.
  pub read_memory-ok :
      (p : Process t) (a n : ℕ) (read : List ℕ)
      → read_memory t p a n ≡ ok read
      → read ≡ bytes_at (t.byte p.tracee) a n
  unfolding read_memory
  read_memory-ok p a n read e = elim (Option-cases (t.readv p.tracee (remote_descs n a n))) [
    | inl failed ↦ absurd (
        fail-ne-ok {x = sent_errno "Could not read process memory!\n"}
          (rw (failed, read_memory) at e))
    | inr (got, reads) ↦
        ok-injective (sym e ∙ read_memory-bytes_at t p a n got reads (full p.tracee a n got reads))
  ]

  -- The word of a round is that of the memory with the round's bytes in place.
  next_word-word_at :
      (p : Process t) (a word : ℕ) (rest : List ℕ)
      → next_word t p a rest ≡ ok word
      → word ≡ word_at (overlay (t.byte p.tracee) a (take 8 rest)) a 8
  unfolding next_word
  next_word-word_at p a word rest e = elim (Bool-cases (leb 8 (length rest))) [
    | inl long ↦
        sym (ok-injective (rw long at e))
        ∙ full_word (t.byte p.tracee) a (take 8 rest) (length-take_all 8 rest (ground arith))
    | inr short ↦
        let e₁ : (read_memory t p a 8 >>= λ read. ok (word_of (rest ++ drop (length rest) read)))
            ≡ ok word =
          rw short at e in
        let (read, reads, e₂) = >>=-eq-ok (read_memory t p a 8) _ e₁ in
        let all : take 8 rest ≡ rest = take_all 8 rest (ground arith) in
        sym (ok-injective e₂)
        ∙ ap (λ (l : List ℕ). word_of (rest ++ drop (length rest) l))
            (read_memory-ok p a 8 read reads)
        ∙ merged_word (t.byte p.tracee) a rest (ground arith)
        ∙ ap (λ (l : List ℕ). word_at (overlay (t.byte p.tracee) a l) a 8) (sym all)
  ]

  poke_word-ok :
      (p : Process t) (a word : ℕ) (m : t.State)
      → poke_word t p a word ≡ ok m
      → t.poke_data p.tracee a word ≡ some m
  unfolding poke_word
  poke_word-ok p a word m e = ground arith

  write_loop-overlay :
      (fuel : ℕ) (p p' : Process t) (a : ℕ) (rest : List ℕ)
      → All (λ b. b < 256) rest
      → write_loop t fuel p a rest ≡ ok p'
      → (x : ℕ) → t.byte p'.tracee x ≡ overlay (t.byte p.tracee) a rest x
  unfolding write_loop
  write_loop-overlay fuel p p' a [] small e x =
      ap (λ (q : Process t). t.byte q.tracee x) (sym (ok-injective e))
  write_loop-overlay zero p p' a (b ∷ rest) small e x = absurd (fail-ne-ok e)
  write_loop-overlay (suc fuel) p p' a (b ∷ rest) small e x =
      let (word, is_word, e₁) = >>=-eq-ok (next_word t p a (b ∷ rest)) _ e in
      let (m, poked, e₂) = >>=-eq-ok (poke_word t p a word) _ e₁ in
      let bs = b ∷ rest in
      let g = overlay (t.byte p.tracee) a (take 8 bs) in
      let wrote : t.poke_data p.tracee a (word_at g a 8) ≡ some m =
        rw (next_word-word_at p a word bs is_word) at (poke_word-ok p a word m poked) in
      write_loop-overlay fuel (record p { tracee = m }) p' (a + 8) (drop 8 bs) (drop-All 8 bs small)
        e₂ x
      ∙ overlay-congr (t.byte m) g (a + 8) (drop 8 bs) x (
          poke-byte t p.tracee m g a
            (λ y.
              overlay-small (t.byte p.tracee) a (take 8 bs) y (t.byte_lt p.tracee)
                (take-All 8 bs small))
            (λ y away.
              overlay-outside (t.byte p.tracee) a (take 8 bs) y
                (omega (arith, length-take-le 8 bs)))
            wrote x)
      ∙ overlay-take-drop (t.byte p.tracee) a 8 bs x

  -- Where reads are complete, a `write_memory` that succeeds leaves its bytes at the addresses from
  -- `a` on, and every other byte of the tracee as it was, also in the word that it ends in.
  pub write_memory-overlay :
      (p p' : Process t) (a : ℕ) (bs : List ℕ)
      → All (λ b. b < 256) bs
      → write_memory t p a bs ≡ ok p'
      → (x : ℕ) → t.byte p'.tracee x ≡ overlay (t.byte p.tracee) a bs x
  unfolding write_memory
  write_memory-overlay p p' a bs small e = write_loop-overlay (length bs) p p' a bs small e
