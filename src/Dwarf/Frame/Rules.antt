-- ===== src/Dwarf/Frame/Rules.antt =====
-- The instructions of call frame information: `execute_cfi_instruction` of src/dwarf.cpp.

use kdebugger.Common.{
  ℕ, ◌%◌, ◌^◌, Bool, true, false, List, [], ◌∷◌, ◌++◌, Option, none, some, ◌==◌, if◌then◌else◌,
  bit_and, Outcome, ok, fail, sent, out_of_range, undefined, ◌>>=◌, or_fail,
}
use kdebugger.Common.Word.{mul64}
use kdebugger.Elf.{FileAddr}
use kdebugger.Elf.Addresses.{move_up}
use kdebugger.Dwarf.Cursor.{Cursor, u8, u16, u32, uleb128, sleb128}
use kdebugger.Dwarf.Frame.{
  PointerNumbers, FrameSections, Bases, Cie, Fde, start_or_zero, parse_eh_frame_pointer,
}

-- An offset stands as its 64-bit pattern.
pub data Rule : Type 0 where
  undefined_rule : Rule
  same_rule : Rule
  offset_rule : ℕ → Rule
  val_offset_rule : ℕ → Rule
  register_rule : ℕ → Rule

pub record CfaRule : Type 0 where
  pub reg : ℕ
  pub offset : ℕ

-- The unordered map from registers to rules, as its entries.
abbrev pub Ruleset : Type 0
Ruleset = List (ℕ × Rule)

-- The last element of `rule_stack` stands first.
pub record UnwindContext : Type 0 where
  pub cur : Cursor
  pub location : FileAddr
  pub cfa_rule : CfaRule
  pub cie_register_rules : Ruleset
  pub register_rules : Ruleset
  pub rule_stack : List (Ruleset × CfaRule)

unfoldable pub find_rule : ℕ → Ruleset → Option Rule
find_rule reg [] = none
find_rule reg ((r, rule) ∷ rules) =
    let later = find_rule reg rules in if r == reg then some rule else later

-- `emplace` keeps a rule that is there.
unfoldable pub emplace_rule : ℕ → Rule → Ruleset → Ruleset
unfolding find_rule
emplace_rule reg rule rules = elim (find_rule reg rules) [
  | none ↦ rules ++ ((reg, rule) ∷ [])
  | some there ↦ rules
]

-- The opcodes that the two switches tell apart.
pub data PrimaryCode : Type 0 where
  advance_loc offset restore other_primary : PrimaryCode

pub data ExtendedCode : Type 0 where
  set_loc advance_loc1 advance_loc2 advance_loc4 def_cfa def_cfa_sf def_cfa_offset : ExtendedCode
  def_cfa_offset_sf def_cfa_expression undefined_code same_value offset_extended : ExtendedCode
  offset_extended_sf val_offset val_offset_sf register expression val_expression : ExtendedCode
  restore_extended remember_state restore_state other_extended : ExtendedCode

-- The numbers of the standard, from a header that the repository does not have.
pub record CfaNumbers : Type 0 where
  pub pointers : PointerNumbers
  pub primary_of : ℕ → PrimaryCode
  pub extended_of : ℕ → ExtendedCode

-- `ctx.register_rules.emplace`; a key has 32 bits.
unfoldable pub add_rule : ℕ → Rule → UnwindContext → UnwindContext
unfolding emplace_rule
add_rule reg rule ctx = record ctx {
  register_rules = emplace_rule (reg % 2 ^ 32) rule ctx.register_rules;
}

-- The rule that the entry's common part gave the register.
unfoldable pub restore_rule : ℕ → UnwindContext → Outcome UnwindContext
unfolding find_rule add_rule
restore_rule reg ctx = elim (find_rule (reg % 2 ^ 32) ctx.cie_register_rules) [
  | none ↦ fail out_of_range
  | some rule ↦ ok (add_rule reg rule ctx)
]

abbrev pub at_cursor : UnwindContext → Cursor → UnwindContext
at_cursor ctx c = record ctx { cur = c }

abbrev pub set_cfa_rule : UnwindContext → CfaRule → UnwindContext
set_cfa_rule ctx rule = record ctx { cfa_rule = rule }

abbrev pub advance_by : UnwindContext → ℕ → UnwindContext
advance_by ctx amount = record ctx { location = move_up ctx.location amount }

-- The first switch, with the low bits of the opcode, from the cursor behind it.
unfoldable pub execute_primary : PrimaryCode → ℕ → Cie → UnwindContext → Outcome UnwindContext
unfolding move_up add_rule restore_rule
execute_primary advance_loc low cie ctx = ok (advance_by ctx (mul64 low cie.code_alignment_factor))
execute_primary offset low cie ctx = do
  (v, c) ← uleb128 ctx.cur
  ok (add_rule low (offset_rule (mul64 v cie.data_alignment_factor)) (at_cursor ctx c))
execute_primary restore low cie ctx = restore_rule low ctx
execute_primary other_primary low cie ctx = ok ctx

-- A register and an offset in units of the data alignment.
abbrev pub factored_rule : (ℕ → Rule) → Bool → Cie → UnwindContext → Outcome UnwindContext
factored_rule rule signed cie ctx = do
  (reg, c₁) ← uleb128 ctx.cur
  (v, c₂) ← (if signed then sleb128 c₁ else uleb128 c₁)
  ok (add_rule reg (rule (mul64 v cie.data_alignment_factor)) (at_cursor ctx c₂))

-- `ctx.rule_stack.back()` of an empty stack is undefined.
unfoldable pub pop_state : UnwindContext → Outcome UnwindContext
pop_state ctx = elim ctx.rule_stack [
  | [] ↦ fail undefined
  | (rules, cfa) ∷ others ↦
      ok (record ctx { register_rules = rules; cfa_rule = cfa; rule_stack = others })
]

-- `execute_cfi_instruction`'s base addresses for DW_CFA_set_loc.
abbrev pub loc_bases : FrameSections → Fde → ℕ → ℕ → Bases
loc_bases s fde pos text_start = record {
  pc = pos;
  text_section_start = text_start;
  data_section_start = start_or_zero s.got_plt_start;
  func_start = fde.initial_location.addr;
}

-- The second switch. `ctx.cfa_rules` and `cttx` stand for the rule and the context.
unfoldable pub execute_extended_code :
    CfaNumbers → FrameSections → ℕ → Fde → ExtendedCode → UnwindContext → Outcome UnwindContext
unfolding move_up add_rule restore_rule pop_state parse_eh_frame_pointer
execute_extended_code n s text fde set_loc ctx = do
  (loc, c) ←
      parse_eh_frame_pointer n.pointers fde.cie.fde_pointer_encoding
        (loc_bases s fde ctx.cur.pos text) ctx.cur
  ok (record ctx { cur = c; location = record { elf_file = some s.elf_file; addr = loc } })
execute_extended_code n s text fde advance_loc1 ctx = do
  (v, c) ← u8 ctx.cur
  ok (advance_by (at_cursor ctx c) (mul64 v fde.cie.code_alignment_factor))
execute_extended_code n s text fde advance_loc2 ctx = do
  (v, c) ← u16 ctx.cur
  ok (advance_by (at_cursor ctx c) (mul64 v fde.cie.code_alignment_factor))
execute_extended_code n s text fde advance_loc4 ctx = do
  (v, c) ← u32 ctx.cur
  ok (advance_by (at_cursor ctx c) (mul64 v fde.cie.code_alignment_factor))
execute_extended_code n s text fde def_cfa ctx = do
  (reg, c₁) ← uleb128 ctx.cur
  (v, c₂) ← uleb128 c₁
  ok (set_cfa_rule (at_cursor ctx c₂) (record { reg = reg % 2 ^ 32; offset = v }))
execute_extended_code n s text fde def_cfa_sf ctx = do
  (reg, c₁) ← uleb128 ctx.cur
  (v, c₂) ← sleb128 c₁
  ok (
      set_cfa_rule (at_cursor ctx c₂)
        (record { reg = reg % 2 ^ 32; offset = mul64 v fde.cie.data_alignment_factor }))
execute_extended_code n s text fde def_cfa_offset ctx = do
  (v, c) ← uleb128 ctx.cur
  ok (set_cfa_rule (at_cursor ctx c) (record { reg = ctx.cfa_rule.reg; offset = v }))
execute_extended_code n s text fde def_cfa_offset_sf ctx = do
  (v, c) ← sleb128 ctx.cur
  ok (
      set_cfa_rule (at_cursor ctx c)
        (record { reg = ctx.cfa_rule.reg; offset = mul64 v fde.cie.data_alignment_factor }))
execute_extended_code n s text fde def_cfa_expression ctx =
    fail (sent "DWARF expressions not yet implemented")
execute_extended_code n s text fde undefined_code ctx = do
  (reg, c) ← uleb128 ctx.cur
  ok (add_rule reg undefined_rule (at_cursor ctx c))
execute_extended_code n s text fde same_value ctx = do
  (reg, c) ← uleb128 ctx.cur
  ok (add_rule reg same_rule (at_cursor ctx c))
execute_extended_code n s text fde offset_extended ctx = factored_rule offset_rule false fde.cie ctx
execute_extended_code n s text fde offset_extended_sf ctx =
    factored_rule offset_rule true fde.cie ctx
execute_extended_code n s text fde val_offset ctx = factored_rule val_offset_rule false fde.cie ctx
execute_extended_code n s text fde val_offset_sf ctx =
    factored_rule val_offset_rule true fde.cie ctx
execute_extended_code n s text fde register ctx = do
  (reg, c₁) ← uleb128 ctx.cur
  (other, c₂) ← uleb128 c₁
  ok (add_rule reg (register_rule (other % 2 ^ 32)) (at_cursor ctx c₂))
execute_extended_code n s text fde expression ctx =
    fail (sent "DWARF expressions not yet implemented")
execute_extended_code n s text fde val_expression ctx =
    fail (sent "DWARF expressions not yet implemented")
execute_extended_code n s text fde restore_extended ctx = do
  (reg, c) ← uleb128 ctx.cur
  restore_rule reg (at_cursor ctx c)
execute_extended_code n s text fde remember_state ctx =
    ok (record ctx { rule_stack = (ctx.register_rules, ctx.cfa_rule) ∷ ctx.rule_stack })
execute_extended_code n s text fde restore_state ctx = pop_state ctx
execute_extended_code n s text fde other_extended ctx = ok ctx

unfoldable pub execute_cfi_instruction :
    CfaNumbers → FrameSections → Fde → UnwindContext → Outcome UnwindContext
unfolding execute_primary execute_extended_code
execute_cfi_instruction n s fde ctx = do
  text_start ← or_fail s.text_start
  (opcode, c) ← u8 ctx.cur
  let primary = bit_and opcode 0xc0
  let low = bit_and opcode 0x3f
  if primary == 0
      then (if low == 0
          then ok (at_cursor ctx c)
          else execute_extended_code n s text_start fde (n.extended_of low) (at_cursor ctx c))
      else execute_primary (n.primary_of primary) low fde.cie (at_cursor ctx c)
