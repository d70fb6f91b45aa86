-- ===== src/Dwarf/Expression.antt =====
-- `dwarf_expression::eval` and `read_frame_base_result` of src/dwarf.cpp.
pub mod Stack
use kdebugger.Common.{
  ℕ, zero, suc, ◌+◌, ◌-◌, Bool, true, false, ◌&&◌, List, [], ◌∷◌, Option, none, some, leb,
  get_elem?, length, if◌then◌else◌, Outcome, ok, fail, sent, bad_optional_access, undefined, ◌>>=◌,
  or_fail,
}
use kdebugger.Common.Word.{add64}
use kdebugger.Elf.{Elf, to_virt_addr, to_file_addr}
use kdebugger.Dwarf.Cursor.{
  Cursor, cursor, finished, u8, u16, u32, u64, s8, s16, s32, s64, uleb128, sleb128,
}
use kdebugger.Dwarf.Die.{Die, Outside, Dwarf}
use kdebugger.Dwarf.Die.Index.{FunctionIndex, function_containing_address}

-- The alternatives of `simple_location`, and `result`. The data of a result is where it starts and
-- ends.
pub data SimpleLocation : Type 0 where
  address_result : ℕ → SimpleLocation
  register_result : ℕ → SimpleLocation
  data_result : ℕ × ℕ → SimpleLocation
  literal_result : ℕ → SimpleLocation
  empty_result : SimpleLocation

pub record Piece : Type 0 where
  pub location : SimpleLocation
  pub bit_size : ℕ
  pub offset : ℕ

pub data LocationResult : Type 0 where
  simple_location : SimpleLocation → LocationResult
  pieces_result : List Piece → LocationResult

unfoldable pub read_frame_base_result : LocationResult → Outcome ℕ
read_frame_base_result (simple_location (address_result a)) = ok a
read_frame_base_result _ = fail (sent "Unsupported frame base location")

-- The opcodes that the switch tells apart.
pub data Operation : Type 0 where
  addr const1u const1s const2u const2s const4u const4s const8u const8s constu consts : Operation
  bregx fbreg dup drop pick over swap rot other_operation : Operation

-- What the code takes from elsewhere: the numbers of the standard, from a header that the repository
-- does not have; the registers' values by DWARF number, and the CFA; and the frame base of a function,
-- from `as_evaluated_location`, which no class declares.
pub record Machine : Type 0 where
  pub lit0 : ℕ
  pub lit31 : ℕ
  pub breg0 : ℕ
  pub breg31 : ℕ
  pub reg0 : ℕ
  pub reg31 : ℕ
  pub operation_of : ℕ → Operation
  pub read_register : ℕ → Outcome ℕ
  pub rip : ℕ
  pub cfa : ℕ
  pub frame_base : Die → Outcome LocationResult

-- The variables of `eval`; the top of the stack stands first.
pub record EvalState : Type 0 where
  pub cur : Cursor
  pub stack : List ℕ
  pub most_recent_location : Option SimpleLocation
  pub result_is_address : Bool

abbrev pub push_value : ℕ → EvalState → EvalState
push_value v st = record st { stack = v ∷ st.stack }

abbrev pub push_read : Outcome (ℕ × Cursor) → EvalState → Outcome EvalState
push_read read st = do (v, c) ← read; ok (record st { cur = c; stack = v ∷ st.stack })

-- `get_current_location`, with the state that it leaves behind.
unfoldable pub get_current_location : EvalState → SimpleLocation × EvalState
get_current_location st = elim st.stack [
  | [] ↦ (
    elim st.most_recent_location [ none ↦ empty_result | some loc ↦ loc ],
    record st { most_recent_location = none },
  )
  | v ∷ rest ↦
      if st.result_is_address
      then (address_result v, record st { stack = rest })
      else (literal_result v, record st { stack = rest; result_is_address = true })
]

-- The tests on ranges of opcodes, before the switch.
unfoldable pub eval_range : Machine → Bool → ℕ → EvalState → Outcome EvalState
eval_range m in_frame_info opcode st =
    if leb m.lit0 opcode && leb opcode m.lit31
    then ok (push_value (opcode - m.lit0) st)
    else if leb m.breg0 opcode && leb opcode m.breg31
    then (do
      base ← m.read_register (opcode - m.breg0)
      (offset, c) ← sleb128 st.cur
      ok (push_value (add64 base offset) (record st { cur = c })))
    else if leb m.reg0 opcode && leb opcode m.reg31
    then (if in_frame_info
        then (do v ← m.read_register (opcode - m.reg0); ok (push_value v st))
        else ok (record st { most_recent_location = some (register_result (opcode - m.reg0)) }))
    else ok st

-- The operations on the stack alone; reading behind its end is undefined. DW_OP_swap calls
-- `push_back` with two values, which has no meaning.
unfoldable pub eval_stack : Operation → EvalState → Outcome EvalState
eval_stack dup st = elim st.stack [
  | [] ↦ fail undefined
  | a ∷ rest ↦ ok (record st { stack = a ∷ a ∷ rest })
]
eval_stack drop st = elim st.stack [
  | [] ↦ fail undefined
  | a ∷ rest ↦ ok (record st { stack = rest })
]
eval_stack pick st = do
  (i, c) ← u8 st.cur
  v ← or_fail (get_elem? st.stack i)
  ok (record st { cur = c; stack = v ∷ st.stack })
eval_stack over st = do v ← or_fail (get_elem? st.stack 1); ok (push_value v st)
eval_stack rot st = elim st.stack [
  | a ∷ b ∷ c ∷ rest ↦ ok (record st { stack = b ∷ c ∷ a ∷ rest })
  | _ ↦ fail undefined
]
eval_stack swap st = fail undefined
eval_stack _ st = ok st

-- The switch. The offset of DW_OP_fbreg is read as unsigned.
unfoldable pub eval_operation :
    Machine → Elf → Option Die → Operation → EvalState → Outcome EvalState
unfolding eval_stack read_frame_base_result to_virt_addr
eval_operation m elf func addr st = do
  (v, c) ← u64 st.cur
  a ← to_virt_addr (record { elf_file = some elf; addr = v })
  ok (push_value a (record st { cur = c }))
eval_operation m elf func const1u st = push_read (u8 st.cur) st
eval_operation m elf func const1s st = push_read (s8 st.cur) st
eval_operation m elf func const2u st = push_read (u16 st.cur) st
eval_operation m elf func const2s st = push_read (s16 st.cur) st
eval_operation m elf func const4u st = push_read (u32 st.cur) st
eval_operation m elf func const4s st = push_read (s32 st.cur) st
eval_operation m elf func const8u st = push_read (u64 st.cur) st
eval_operation m elf func const8s st = push_read (s64 st.cur) st
eval_operation m elf func constu st = push_read (uleb128 st.cur) st
eval_operation m elf func consts st = push_read (sleb128 st.cur) st
eval_operation m elf func bregx st = do
  (reg, c₁) ← uleb128 st.cur
  base ← m.read_register reg
  (offset, c₂) ← sleb128 c₁
  ok (push_value (add64 base offset) (record st { cur = c₂ }))
eval_operation m elf func fbreg st = do
  (offset, c) ← uleb128 st.cur
  die ← elim func [ none ↦ fail bad_optional_access | some die ↦ ok die ]
  loc ← m.frame_base die
  base ← read_frame_base_result loc
  ok (push_value (add64 base offset) (record st { cur = c }))
eval_operation m elf func operation st = eval_stack operation st

-- The loop. A round takes a byte at least.
unfoldable pub eval_loop : Machine → Elf → Option Die → Bool → ℕ → EvalState → Outcome EvalState
unfolding eval_range eval_operation
eval_loop m elf func in_frame_info zero st = fail undefined
eval_loop m elf func in_frame_info (suc fuel) st = elim (finished st.cur) [
  | true ↦ ok st
  | false ↦ do
    (opcode, c) ← u8 st.cur
    ranged ← eval_range m in_frame_info opcode (record st { cur = c })
    after ← eval_operation m elf func (m.operation_of opcode) ranged
    eval_loop m elf func in_frame_info fuel after
]

-- `eval` up to the end of its loop, behind which the source returns nothing.
unfoldable pub eval :
    Machine
    → Outside
    → Dwarf
    → FunctionIndex
    → Bool
    → ℕ × ℕ
    → Bool
    → Outcome (EvalState × FunctionIndex)
unfolding eval_loop to_file_addr
eval m o d index in_frame_info (start, end) push_cfa = do
  (func, built) ← function_containing_address o d index (to_file_addr d.elf_file m.rip)
  let c = cursor d.image start end
  let st : EvalState = record {
    cur = c;
    stack = if push_cfa then m.cfa ∷ [] else [];
    most_recent_location = none;
    result_is_address = true;
  }
  final ← eval_loop m d.elf_file func in_frame_info (length c.bytes + 1) st
  ok (final, built)
