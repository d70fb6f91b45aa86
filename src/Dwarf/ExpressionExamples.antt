-- ===== src/Dwarf/ExpressionExamples.antt =====
-- A small expression over the numbers of the standard.
use kdebugger.Common.{
  ℕ, ◌+◌, ◌<◌, ◌≤◌, ◌≡◌, refl, false, List, [], ◌∷◌, none, some, ltb, leb, ◌&&◌, ◌==◌,
  if◌then◌else◌, get_elem?, arith, ok, fail, undefined,
}
use kdebugger.Elf.{Elf}
use kdebugger.Dwarf.Expression.{
  Machine, Operation, addr, const1u, const1s, const2u, const2s, const4u, const4s, const8u, const8s,
  constu, consts, bregx, fbreg, dup, drop, pick, over, swap, rot, other_operation, eval_loop,
}
use kdebugger.Dwarf.Expression.Stack.{
  Instruction, literal, one_byte_const, copy_second, rotate, IsNumbering, put_all, at_place,
  eval_loop-run_all,
}

abbrev code : Operation → ℕ
code addr = 0x03
code const1u = 0x08
code const1s = 0x09
code const2u = 0x0a
code const2s = 0x0b
code const4u = 0x0c
code const4s = 0x0d
code const8u = 0x0e
code const8s = 0x0f
code constu = 0x10
code consts = 0x11
code dup = 0x12
code drop = 0x13
code over = 0x14
code pick = 0x15
code swap = 0x16
code rot = 0x17
code fbreg = 0x91
code bregx = 0x92
code other_operation = 0xff

-- From 0x08 on.
abbrev low_operations : List Operation
low_operations =
    const1u ∷ const1s ∷ const2u ∷ const2s ∷ const4u ∷ const4s ∷ const8u ∷ const8s ∷ constu ∷ consts
    ∷ dup ∷ drop ∷ over ∷ pick ∷ swap ∷ rot ∷ []

abbrev low_operation : ℕ → Operation
low_operation n =
    if n == 3
    then addr
    else elim (get_elem?
        (other_operation ∷ other_operation ∷ other_operation ∷ other_operation ∷ other_operation
          ∷ other_operation ∷ other_operation ∷ other_operation ∷ low_operations)
        n) [ none ↦ other_operation | some op ↦ op ]

abbrev standard_machine : Machine
standard_machine = record {
  lit0 = 0x30;
  lit31 = 0x4f;
  breg0 = 0x70;
  breg31 = 0x8f;
  reg0 = 0x50;
  reg31 = 0x6f;
  operation_of = λ n.
      if ltb n 0x20
      then low_operation n
      else if n == 0x91
      then fbreg
      else if n == 0x92
      then bregx
      else other_operation;
  read_register = λ n. ok n;
  rip = 0;
  cfa = 0;
  frame_base = λ die. fail undefined;
}

decoded : (op : Operation) → standard_machine.operation_of (code op) ≡ op
decoded addr = refl
decoded const1u = refl
decoded const1s = refl
decoded const2u = refl
decoded const2s = refl
decoded const4u = refl
decoded const4s = refl
decoded const8u = refl
decoded const8s = refl
decoded constu = refl
decoded consts = refl
decoded bregx = refl
decoded fbreg = refl
decoded dup = refl
decoded drop = refl
decoded pick = refl
decoded over = refl
decoded swap = refl
decoded rot = refl
decoded other_operation = refl

-- No code is in a range that starts at 0x30 or above and ends below 0x90.
apart :
    (low high : ℕ) (op : Operation)
    → 0x30 ≤ low
    → high < 0x90
    → (leb low (code op) && leb (code op) high) ≡ false
apart low high addr a b = ground arith
apart low high const1u a b = ground arith
apart low high const1s a b = ground arith
apart low high const2u a b = ground arith
apart low high const2s a b = ground arith
apart low high const4u a b = ground arith
apart low high const4s a b = ground arith
apart low high const8u a b = ground arith
apart low high const8s a b = ground arith
apart low high constu a b = ground arith
apart low high consts a b = ground arith
apart low high bregx a b = ground arith
apart low high fbreg a b = ground arith
apart low high dup a b = ground arith
apart low high drop a b = ground arith
apart low high pick a b = ground arith
apart low high over a b = ground arith
apart low high swap a b = ground arith
apart low high rot a b = ground arith
apart low high other_operation a b = ground arith

undecoded : (n : ℕ) → n < 32 → standard_machine.operation_of (0x30 + n) ≡ other_operation
undecoded n h =
    let above : ltb (0x30 + n) 0x20 ≡ false = ground arith in
    let not_fbreg : (0x30 + n == 0x91) ≡ false = ground arith in
    let not_bregx : (0x30 + n == 0x92) ≡ false = ground arith in
    rw (above, not_fbreg, not_bregx) refl

code-IsNumbering : IsNumbering standard_machine code
code-IsNumbering = record {
  decoded = decoded;
  no_literal = λ op. apart 0x30 0x4f op (omega arith) (omega arith);
  no_base = λ op. apart 0x70 0x8f op (omega arith) (omega arith);
  no_register = λ op. apart 0x50 0x6f op (omega arith) (omega arith);
  literals = refl;
  undecoded = undecoded;
}

abbrev small_program : List Instruction
small_program = literal 5 ∷ one_byte_const 7 ∷ copy_second ∷ rotate ∷ []

abbrev any_file : Elf
any_file = record { number = 1; load_bias = 0; sections = [] }

eval_loop-run_all_example :
    eval_loop standard_machine any_file none false 5 (
      at_place standard_machine code
        (put_all standard_machine code small_program (1 ∷ []))
        10
        15
        [])
    ≡ ok (at_place standard_machine code (1 ∷ []) 15 15 (7 ∷ 5 ∷ 5 ∷ []))
eval_loop-run_all_example =
    eval_loop-run_all standard_machine code any_file none false code-IsNumbering small_program 5
      (1 ∷ []) [] (7 ∷ 5 ∷ 5 ∷ []) 10 15 (omega arith, (omega arith, (tt, (tt, tt)))) refl refl
      (omega arith)
