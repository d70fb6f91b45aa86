-- ===== src/Dwarf/Expression/Stack.antt =====
-- The loop of `dwarf_expression::eval` as a stack machine, on programs of literals, unsigned constants
-- and the operations dup, drop, pick, over and rot.
use kdebugger.Common.{
  ℕ, zero, suc, ◌+◌, ◌-◌, ◌≤◌, ◌<◌, ◌^◌, ◌≡◌, refl, ap, ◌∙◌, Bool, true, false, ◌&&◌, leb, List, [],
  ◌∷◌, ◌++◌, Option, none, some, get_elem?, length, Outcome, ok, ◌>>=◌, or_fail, arith,
  Option-cases, inl, inr, All,
}
use kdebugger.Elf.{Elf}
use kdebugger.Dwarf.Cursor.{finished}
use kdebugger.Dwarf.Cursor.Fixed.{le_bytes, one_byte, fixed_int-le_bytes}
use kdebugger.Dwarf.Abbrev.Encoding.{Number, value, put, uleb128-put}
use kdebugger.Dwarf.Die.{Die}
use kdebugger.Dwarf.Expression.{
  Machine, Operation, const1u, const2u, const4u, const8u, constu, dup, drop, pick, over, rot,
  other_operation, EvalState, eval_range, eval_stack, eval_operation, eval_loop,
}

pub data Instruction : Type 0 where
  literal : ℕ → Instruction
  one_byte_const : ℕ → Instruction
  two_byte_const : ℕ → Instruction
  four_byte_const : ℕ → Instruction
  eight_byte_const : ℕ → Instruction
  number_const : Number → Instruction
  duplicate : Instruction
  discard : Instruction
  copy_from : ℕ → Instruction
  copy_second : Instruction
  rotate : Instruction

-- Literals count to 31, and constants fit their size.
abbrev pub IsInstruction : Instruction → Type 0
IsInstruction (literal n) = n < 32
IsInstruction (one_byte_const v) = v < 256 ^ 1
IsInstruction (two_byte_const v) = v < 256 ^ 2
IsInstruction (four_byte_const v) = v < 256 ^ 4
IsInstruction (eight_byte_const v) = v < 256 ^ 8
IsInstruction (copy_from i) = i < 256
IsInstruction _ = Unit

-- What an instruction does to a stack, the top first; none where the stack is too short.
abbrev pub run_one : Instruction → List ℕ → Option (List ℕ)
run_one (literal n) s = some (n ∷ s)
run_one (one_byte_const v) s = some (v ∷ s)
run_one (two_byte_const v) s = some (v ∷ s)
run_one (four_byte_const v) s = some (v ∷ s)
run_one (eight_byte_const v) s = some (v ∷ s)
run_one (number_const n) s = some (value n ∷ s)
run_one duplicate (a ∷ s) = some (a ∷ a ∷ s)
run_one discard (a ∷ s) = some s
run_one (copy_from i) s = elim (get_elem? s i) [ none ↦ none | some a ↦ some (a ∷ s) ]
run_one copy_second (a ∷ b ∷ s) = some (b ∷ a ∷ b ∷ s)
run_one rotate (a ∷ b ∷ c ∷ s) = some (b ∷ c ∷ a ∷ s)
run_one _ s = none

abbrev pub run_all : List Instruction → List ℕ → Option (List ℕ)
run_all [] s = some s
run_all (i ∷ program) s = elim (run_one i s) [ none ↦ none | some s' ↦ run_all program s' ]

none_is_some : {s : List ℕ} → none ≡ some s → ⊥
none_is_some e = cc

module _ (m : Machine) (code : Operation → ℕ) where
  -- `code` numbers the operations as `operation_of` reads them, apart from the ranges, and the
  -- literals are 32 numbers that it does not use.
  pub record IsNumbering : Type 0 where
    pub decoded : (op : Operation) → m.operation_of (code op) ≡ op
    pub no_literal : (op : Operation) → (leb m.lit0 (code op) && leb (code op) m.lit31) ≡ false
    pub no_base : (op : Operation) → (leb m.breg0 (code op) && leb (code op) m.breg31) ≡ false
    pub no_register : (op : Operation) → (leb m.reg0 (code op) && leb (code op) m.reg31) ≡ false
    pub literals : m.lit31 ≡ m.lit0 + 31
    pub undecoded : (n : ℕ) → n < 32 → m.operation_of (m.lit0 + n) ≡ other_operation

  abbrev pub put_one : Instruction → List ℕ → List ℕ
  put_one (literal n) rest = (m.lit0 + n) ∷ rest
  put_one (one_byte_const v) rest = code const1u ∷ (le_bytes 1 v ++ rest)
  put_one (two_byte_const v) rest = code const2u ∷ (le_bytes 2 v ++ rest)
  put_one (four_byte_const v) rest = code const4u ∷ (le_bytes 4 v ++ rest)
  put_one (eight_byte_const v) rest = code const8u ∷ (le_bytes 8 v ++ rest)
  put_one (number_const n) rest = code constu ∷ put n rest
  put_one duplicate rest = code dup ∷ rest
  put_one discard rest = code drop ∷ rest
  put_one (copy_from i) rest = code pick ∷ (i ∷ rest)
  put_one copy_second rest = code over ∷ rest
  put_one rotate rest = code rot ∷ rest

  abbrev pub end_one : ℕ → Instruction → ℕ
  end_one pos (literal n) = pos + 1
  end_one pos (one_byte_const v) = pos + 1 + 1
  end_one pos (two_byte_const v) = pos + 1 + 2
  end_one pos (four_byte_const v) = pos + 1 + 4
  end_one pos (eight_byte_const v) = pos + 1 + 8
  end_one pos (number_const n) = pos + 1 + length n.groups + 1
  end_one pos duplicate = pos + 1
  end_one pos discard = pos + 1
  end_one pos (copy_from i) = pos + 1 + 1
  end_one pos copy_second = pos + 1
  end_one pos rotate = pos + 1

  abbrev pub put_all : List Instruction → List ℕ → List ℕ
  put_all [] rest = rest
  put_all (i ∷ program) rest = put_one i (put_all program rest)

  abbrev pub end_all : ℕ → List Instruction → ℕ
  end_all pos [] = pos
  end_all pos (i ∷ program) = end_all (end_one pos i) program

  -- The state of the loop at a place, with a stack and no location.
  abbrev pub at_place : List ℕ → ℕ → ℕ → List ℕ → EvalState
  at_place bytes pos end s = record {
    cur = record { bytes = bytes; pos = pos; end = end };
    stack = s;
    most_recent_location = none;
    result_is_address = true;
  }

  module _ (elf : Elf) (func : Option Die) (in_frame_info : Bool) (h : IsNumbering) where
    round :
        (fuel opcode : ℕ) (rest s : List ℕ) (pos end : ℕ) (ranged after : EvalState)
        → pos < end
        → eval_range m in_frame_info opcode (at_place rest (pos + 1) end s) ≡ ok ranged
        → eval_operation m elf func (m.operation_of opcode) ranged ≡ ok after
        → eval_loop m elf func in_frame_info (suc fuel) (at_place (opcode ∷ rest) pos end s)
          ≡ eval_loop m elf func in_frame_info fuel after
    unfolding eval_loop finished
    round fuel opcode rest s pos end ranged after inside range operation =
        let going : leb end pos ≡ false = ground arith in
        rw (eval_loop, going, one_byte opcode rest pos end, ◌>>=◌, range, ◌>>=◌, operation) refl

    operation_round :
        (fuel : ℕ) (op : Operation) (rest s : List ℕ) (pos end : ℕ) (after : EvalState)
        → pos < end
        → eval_operation m elf func op (at_place rest (pos + 1) end s) ≡ ok after
        → eval_loop m elf func in_frame_info (suc fuel) (at_place (code op ∷ rest) pos end s)
          ≡ eval_loop m elf func in_frame_info fuel after
    unfolding eval_range
    operation_round fuel op rest s pos end after inside operation =
        round fuel (code op) rest s pos end (at_place rest (pos + 1) end s) after inside
          (rw (h.no_literal op, h.no_base op, h.no_register op) refl) (rw (h.decoded op) operation)

    literal_round :
        (fuel n : ℕ) (rest s : List ℕ) (pos end : ℕ)
        → n < 32
        → pos < end
        → eval_loop m elf func in_frame_info (suc fuel) (at_place ((m.lit0 + n) ∷ rest) pos end s)
          ≡ eval_loop m elf func in_frame_info fuel (at_place rest (pos + 1) end (n ∷ s))
    unfolding eval_range eval_operation eval_stack
    literal_round fuel n rest s pos end small inside =
        let ranged : (leb m.lit0 (m.lit0 + n) && leb (m.lit0 + n) m.lit31) ≡ true =
          ground (arith, h.literals) in
        let back : m.lit0 + n - m.lit0 ≡ n = omega arith in
        round fuel (m.lit0 + n) rest s pos end (at_place rest (pos + 1) end (n ∷ s))
          (at_place rest (pos + 1) end (n ∷ s)) inside (rw (ranged, back) refl)
          (rw (h.undecoded n small) refl)

    abbrev eval_of : ℕ → EvalState → Outcome EvalState
    eval_of fuel st = eval_loop m elf func in_frame_info fuel st

    stacked :
        (rest : List ℕ) (pos end : ℕ) (x s' : List ℕ)
        → some x ≡ some s'
        → at_place rest pos end x ≡ at_place rest pos end s'
    stacked rest pos end x s' e = cc

    picked :
        (k : ℕ) (rest s s' : List ℕ) (pos end : ℕ)
        → run_one (copy_from k) s ≡ some s'
        → (or_fail (get_elem? s k) >>= λ v. ok (at_place rest pos end (v ∷ s)))
          ≡ ok (at_place rest pos end s')
    picked k rest s s' pos end run = elim (Option-cases (get_elem? s k)) [
      | inl missing ↦ absurd (none_is_some (rw (run_one, missing) at run))
      | inr (a, there) ↦
          rw there (ap ok (stacked rest pos end (a ∷ s) s' (rw (run_one, there) at run)))
    ]

    -- A round of the loop does what the instruction does.
    step :
        (fuel : ℕ) (i : Instruction) (rest s s' : List ℕ) (pos end : ℕ)
        → IsInstruction i
        → run_one i s ≡ some s'
        → pos < end
        → eval_loop m elf func in_frame_info (suc fuel) (at_place (put_one i rest) pos end s)
          ≡ eval_loop m elf func in_frame_info fuel (at_place rest (end_one pos i) end s')
    unfolding eval_operation eval_stack
    step fuel (literal n) rest s s' pos end legal run inside =
        literal_round fuel n rest s pos end legal inside
        ∙ ap (eval_of fuel) (stacked rest (pos + 1) end (n ∷ s) s' run)
    step fuel (one_byte_const v) rest s s' pos end legal run inside =
        operation_round fuel const1u (le_bytes 1 v ++ rest) s pos end
          (at_place rest (pos + 1 + 1) end s') inside
          (rw (fixed_int-le_bytes 1 v rest (pos + 1) end legal)
            (ap ok (stacked rest (pos + 1 + 1) end (v ∷ s) s' run)))
    step fuel (two_byte_const v) rest s s' pos end legal run inside =
        operation_round fuel const2u (le_bytes 2 v ++ rest) s pos end
          (at_place rest (pos + 1 + 2) end s') inside
          (rw (fixed_int-le_bytes 2 v rest (pos + 1) end legal)
            (ap ok (stacked rest (pos + 1 + 2) end (v ∷ s) s' run)))
    step fuel (four_byte_const v) rest s s' pos end legal run inside =
        operation_round fuel const4u (le_bytes 4 v ++ rest) s pos end
          (at_place rest (pos + 1 + 4) end s') inside
          (rw (fixed_int-le_bytes 4 v rest (pos + 1) end legal)
            (ap ok (stacked rest (pos + 1 + 4) end (v ∷ s) s' run)))
    step fuel (eight_byte_const v) rest s s' pos end legal run inside =
        operation_round fuel const8u (le_bytes 8 v ++ rest) s pos end
          (at_place rest (pos + 1 + 8) end s') inside
          (rw (fixed_int-le_bytes 8 v rest (pos + 1) end legal)
            (ap ok (stacked rest (pos + 1 + 8) end (v ∷ s) s' run)))
    step fuel (number_const n) rest s s' pos end legal run inside =
        operation_round fuel constu (put n rest) s pos end
          (at_place rest (pos + 1 + length n.groups + 1) end s') inside
          (rw (uleb128-put n rest (pos + 1) end)
            (ap ok (stacked rest (pos + 1 + length n.groups + 1) end (value n ∷ s) s' run)))
    step fuel (copy_from k) rest s s' pos end legal run inside =
        operation_round fuel pick (k ∷ rest) s pos end (at_place rest (pos + 1 + 1) end s') inside
          (rw (one_byte k rest (pos + 1) end) (picked k rest s s' (pos + 1 + 1) end run))
    step fuel duplicate rest (a ∷ s) s' pos end legal run inside =
        operation_round fuel dup rest (a ∷ s) pos end (at_place rest (pos + 1) end s') inside
          (ap ok (stacked rest (pos + 1) end (a ∷ a ∷ s) s' run))
    step fuel discard rest (a ∷ s) s' pos end legal run inside =
        operation_round fuel drop rest (a ∷ s) pos end (at_place rest (pos + 1) end s') inside
          (ap ok (stacked rest (pos + 1) end s s' run))
    step fuel copy_second rest (a ∷ b ∷ s) s' pos end legal run inside =
        operation_round fuel over rest (a ∷ b ∷ s) pos end (at_place rest (pos + 1) end s') inside
          (ap ok (stacked rest (pos + 1) end (b ∷ a ∷ b ∷ s) s' run))
    step fuel rotate rest (a ∷ b ∷ c ∷ s) s' pos end legal run inside =
        operation_round fuel rot rest (a ∷ b ∷ c ∷ s) pos end (at_place rest (pos + 1) end s')
          inside (ap ok (stacked rest (pos + 1) end (b ∷ c ∷ a ∷ s) s' run))
    step fuel duplicate rest [] s' pos end legal run inside = cc
    step fuel discard rest [] s' pos end legal run inside = cc
    step fuel copy_second rest [] s' pos end legal run inside = cc
    step fuel copy_second rest (a ∷ []) s' pos end legal run inside = cc
    step fuel rotate rest [] s' pos end legal run inside = cc
    step fuel rotate rest (a ∷ []) s' pos end legal run inside = cc
    step fuel rotate rest (a ∷ b ∷ []) s' pos end legal run inside = cc

    lt-end_one : (pos : ℕ) (i : Instruction) → pos < end_one pos i
    lt-end_one pos (literal n) = omega arith
    lt-end_one pos (one_byte_const v) = omega arith
    lt-end_one pos (two_byte_const v) = omega arith
    lt-end_one pos (four_byte_const v) = omega arith
    lt-end_one pos (eight_byte_const v) = omega arith
    lt-end_one pos (number_const n) = omega arith
    lt-end_one pos duplicate = omega arith
    lt-end_one pos discard = omega arith
    lt-end_one pos (copy_from k) = omega arith
    lt-end_one pos copy_second = omega arith
    lt-end_one pos rotate = omega arith

    le-end_all : (pos : ℕ) (program : List Instruction) → pos ≤ end_all pos program
    le-end_all pos [] = omega arith
    le-end_all pos (i ∷ program) =
        omega (arith, lt-end_one pos i, le-end_all (end_one pos i) program)

    -- Under a numbering of the operations that tells them from the literals and the ranges: on the bytes
    -- of a program of literals below 32, unsigned constants that fit their encodings, and the operations
    -- dup, drop, pick, over and rot, up to the end of the expression, the loop ends with the stack that
    -- the program leaves, where no instruction finds too few values; a round for each instruction and
    -- one more are enough.
    pub eval_loop-run_all :
        (program : List Instruction) (fuel : ℕ) (rest s s' : List ℕ) (pos end : ℕ)
        → All IsInstruction program
        → run_all program s ≡ some s'
        → end_all pos program ≡ end
        → length program < fuel
        → eval_loop m elf func in_frame_info fuel (at_place (put_all program rest) pos end s)
          ≡ ok (at_place rest end end s')
    unfolding eval_loop finished
    eval_loop-run_all program zero rest s s' pos end legal run stop enough = absurd (omega arith)
    eval_loop-run_all [] (suc fuel) rest s s' pos end legal run stop enough =
        let done : leb end pos ≡ true = ground arith in
        rw (eval_loop, done)
          (ap (λ (k : ℕ). ok (at_place rest k end s)) stop ∙ ap ok (stacked rest end end s s' run))
    eval_loop-run_all (i ∷ program) (suc fuel) rest s s' pos end (first, legal) run stop enough =
        elim (Option-cases (run_one i s)) [
          | inl missing ↦ absurd (none_is_some (rw (run_all, missing) at run))
          | inr (r, does) ↦
              step fuel i (put_all program rest) s r pos end first does
                (omega (arith, lt-end_one pos i, le-end_all (end_one pos i) program))
              ∙ eval_loop-run_all program fuel rest r s' (end_one pos i) end legal
                  (rw (run_all, does) at run) stop (omega arith)
        ]
