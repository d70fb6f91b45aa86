-- ===== src/Process/Flat.antt =====
-- A tracee with flat memory in which every call succeeds, for the examples.
use kdebugger.Common.{
  ℕ, ◌+◌, ◌-◌, ◌%◌, ◌≡◌, sym, ◌&&◌, List, [], ◌∷◌, ◌++◌, some, if◌then◌else◌, leb, ltb, length,
  arith, Outcome, ok, fail, Bool-cases, inl, inr, ap, ◌∙◌,
}
use kdebugger.Process.Tracee.{Tracee, word_at, byte_of, bytes_of_ranges}
use kdebugger.Process.State.{Process}
use kdebugger.Process.Memory.{remote_descs}
use kdebugger.Process.Memory.Ranges.{bytes_of_ranges-remote_descs, length-bytes_at}
use kdebugger.Process.Memory.Write.{FullReads}
use mathlib.Core.List.{append-nil}

abbrev pub flat_byte : (ℕ → ℕ) → ℕ → ℕ
flat_byte m x = m x % 256

abbrev pub flat_poke : (ℕ → ℕ) → ℕ → ℕ → ℕ → ℕ
flat_poke m a w x = if leb a x && ltb x (a + 8) then byte_of w (x - a) else m x

pub flat_poke_word :
    (m : ℕ → ℕ) (a w x : ℕ)
    → flat_byte (flat_poke m a w) x
      ≡ (if leb a x && ltb x (a + 8) then byte_of w (x - a) else flat_byte m x)
flat_poke_word m a w x = elim (Bool-cases (leb a x && ltb x (a + 8))) [
  | inl within ↦ rw within (omega arith)
  | inr without ↦ rw without
]

pub same_byte : (m m' : ℕ → ℕ) (x : ℕ) → some m ≡ some m' → flat_byte m x ≡ flat_byte m' x
same_byte m m' x e = cc

pub same_word :
    (m : ℕ → ℕ) (a w : ℕ)
    → some (word_at (flat_byte m) a 8) ≡ some w
    → w ≡ word_at (flat_byte m) a 8
same_word m a w e = cc

pub whole_read :
    (m : ℕ → ℕ) (ranges : List (ℕ × ℕ)) (got : List ℕ)
    → some (bytes_of_ranges (flat_byte m) ranges) ≡ some got
    → bytes_of_ranges (flat_byte m) ranges ≡ got ++ []
whole_read m ranges got e = rw (append-nil got) cc

abbrev pub flat : Tracee
flat = record {
  State = ℕ → ℕ;
  byte = flat_byte;
  peek_data = λ m a. some (word_at (flat_byte m) a 8);
  poke_data = λ m a w. some (flat_poke m a w);
  poke_debug = λ m k v. some m;
  readv = λ m ranges. some (bytes_of_ranges (flat_byte m) ranges);
  byte_lt = λ m x. omega arith;
  peek_word = λ m a w e. same_word m a w e;
  poke_word = λ m m' a w x e. sym (same_byte (flat_poke m a w) m' x e) ∙ flat_poke_word m a w x;
  poke_debug_memory = λ m m' k v x e. sym (same_byte m m' x e);
  readv_prefix = λ m ranges got e. ([], whole_read m ranges got e);
}

pub flat-FullReads : FullReads flat
flat-FullReads m address amount got e =
    let whole : got ≡ bytes_of_ranges (flat_byte m) (remote_descs amount address amount) = cc in
    let named = bytes_of_ranges-remote_descs (flat_byte m) amount address amount (omega arith) in
    ap length (whole ∙ named) ∙ length-bytes_at (flat_byte m) address amount

-- A program of which byte `x` is `x % 256`, stopped in its only thread.
abbrev pub start : Process flat
start = record {
  tracee = λ x. x;
  threads = record { tid = 7; debug = λ k. 0 } ∷ [];
  current_thread = 7;
  sites = [];
  watchpoints = [];
  next_watchpoint_id = 0;
}

abbrev pub after : Outcome (Process flat) → Process flat
after (ok p) = p
after (fail e) = start
