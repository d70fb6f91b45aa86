-- ===== src/Process/Tracee.antt =====
-- The kernel's side of ptrace and process_vm_readv, which the repository only calls: a parameter,
-- with what their manual pages say of a call that succeeds.
use kdebugger.Common.{
  ℕ, zero, suc, ◌+◌, ◌-◌, ◌*◌, ◌/◌, ◌%◌, ◌^◌, ◌<◌, ◌≤◌, ◌≡◌, refl, sym, ap, ◌∙◌, ◌⊎◌, inl, inr,
  Bool-cases, List, [], ◌∷◌, ◌++◌, Option, some, ◌&&◌, ltb, leb, if◌then◌else◌, arith,
}
use native.Mathlib.Nat.{pow-succ', div-div-eq-div-mul, add-zero}

-- The bytes at `n` addresses from `a` on, lowest first, as one word.
abbrev pub word_at : (ℕ → ℕ) → ℕ → ℕ → ℕ
word_at f a zero = 0
word_at f a (suc n) = f a + 256 * word_at f (a + 1) n

-- Byte `i` of a word.
abbrev pub byte_of : ℕ → ℕ → ℕ
byte_of w i = w / 256 ^ i % 256

abbrev pub bytes_at : (ℕ → ℕ) → ℕ → ℕ → List ℕ
bytes_at f a zero = []
bytes_at f a (suc n) = f a ∷ bytes_at f (a + 1) n

-- The bytes that a list of remote ranges names, in order.
abbrev pub bytes_of_ranges : (ℕ → ℕ) → List (ℕ × ℕ) → List ℕ
bytes_of_ranges f [] = []
bytes_of_ranges f ((base, len) ∷ rest) = bytes_at f base len ++ bytes_of_ranges f rest

pub record Tracee : Type 1 where
  pub State : Type 0
  pub byte : State → ℕ → ℕ
  -- PTRACE_PEEKDATA; `none` is a failure with `errno` set.
  pub peek_data : State → ℕ → Option ℕ
  -- PTRACE_POKEDATA of a 64-bit word.
  pub poke_data : State → ℕ → ℕ → Option State
  -- PTRACE_POKEUSER at debug register `k` of the user area.
  pub poke_debug : State → ℕ → ℕ → Option State
  -- process_vm_readv into one local buffer of the ranges' total size: the bytes transferred.
  pub readv : State → List (ℕ × ℕ) → Option (List ℕ)
  pub byte_lt : (m : State) (x : ℕ) → byte m x < 256
  pub peek_word : (m : State) (a w : ℕ) → peek_data m a ≡ some w → w ≡ word_at (byte m) a 8
  pub poke_word :
      (m m' : State) (a w x : ℕ)
      → poke_data m a w ≡ some m'
      → byte m' x ≡ (if leb a x && ltb x (a + 8) then byte_of w (x - a) else byte m x)
  pub poke_debug_memory :
      (m m' : State) (k v x : ℕ) → poke_debug m k v ≡ some m' → byte m' x ≡ byte m x
  -- A transfer may stop early, between two bytes.
  pub readv_prefix :
      (m : State) (ranges : List (ℕ × ℕ)) (got : List ℕ)
      → readv m ranges ≡ some got
      → (rest : List ℕ) × (bytes_of_ranges (byte m) ranges ≡ got ++ rest)

-- A word's bytes are those that it was made of.
pub byte_of-word_at :
    (f : ℕ → ℕ) (a n i : ℕ) → ((x : ℕ) → f x < 256) → i < n → byte_of (word_at f a n) i ≡ f (a + i)
byte_of-word_at f a zero i h lt = absurd (omega arith)
byte_of-word_at f a (suc n) zero h lt = rw add-zero (omega (arith, h a))
byte_of-word_at f a (suc n) (suc i) h lt =
    ap (λ (t : ℕ). t % 256)
      (ap (λ (t : ℕ). (f a + 256 * word_at f (a + 1) n) / t) (pow-succ' 256 i)
        ∙ sym (div-div-eq-div-mul (f a + 256 * word_at f (a + 1) n) 256 (256 ^ i))
        ∙ ap (λ (t : ℕ). t / 256 ^ i) (omega (arith, h a)))
    ∙ byte_of-word_at f (a + 1) n i h (omega arith)
    ∙ ap f (omega arith)

-- Two memories with the same bytes at the addresses have the same word there.
pub word_at-congr :
    (f g : ℕ → ℕ) (a n : ℕ)
    → ((x : ℕ) → a ≤ x → x < a + n → f x ≡ g x)
    → word_at f a n ≡ word_at g a n
word_at-congr f g a zero h = refl
word_at-congr f g a (suc n) h =
    let tail : word_at f (a + 1) n ≡ word_at g (a + 1) n =
      word_at-congr f g (a + 1) n (λ x lo hi. h x (omega arith) (omega arith)) in
    omega (arith, tail, h a (omega arith) (omega arith))

pub word_at-lt : (f : ℕ → ℕ) (a : ℕ) → ((x : ℕ) → f x < 256) → word_at f a 8 < 2 ^ 64
word_at-lt f a h = omega (
  arith,
  h a,
  h (a + 1),
  h (a + 1 + 1),
  h (a + 1 + 1 + 1),
  h (a + 1 + 1 + 1 + 1),
  h (a + 1 + 1 + 1 + 1 + 1),
  h (a + 1 + 1 + 1 + 1 + 1 + 1),
  h (a + 1 + 1 + 1 + 1 + 1 + 1 + 1),
)

-- A poke of the word that memory `g` has at `a` leaves memory `g`, if `g` differs from the old one
-- in that word alone.
pub poke-byte :
    (t : Tracee) (m m' : t.State) (g : ℕ → ℕ) (a : ℕ)
    → ((x : ℕ) → g x < 256)
    → ((x : ℕ) → (x < a) ⊎ (a + 8 ≤ x) → g x ≡ t.byte m x)
    → t.poke_data m a (word_at g a 8) ≡ some m'
    → (x : ℕ) → t.byte m' x ≡ g x
poke-byte t m m' g a small outside e x = elim (Bool-cases (leb a x && ltb x (a + 8))) [
  | inl within ↦
      let lo : a ≤ x = ground arith in
      let hi : x < a + 8 = ground arith in
      t.poke_word m m' a (word_at g a 8) x e
      ∙ rw within
          (byte_of-word_at g a 8 (x - a) small (omega arith) ∙ ap g {x = a + (x - a)} (omega arith))
  | inr without ↦
      t.poke_word m m' a (word_at g a 8) x e ∙ rw without (sym (outside x (ground arith)))
]
