-- ===== src/Dwarf/Frame/Unwind.antt =====
-- `call_frame_information::unwind` and `execute_unwind_rules` of src/dwarf.cpp.
use kdebugger.Common.{
  ℕ, zero, suc, ◌+◌, true, false, [], ◌∷◌, length, if◌then◌else◌, Outcome, ok, fail, sent,
  undefined, ◌>>=◌,
}
use kdebugger.Common.Word.{add64}
use kdebugger.Elf.{FileAddr, null_addr}
use kdebugger.Elf.Addresses.{plus, less, less_equal, greater_equal}
use kdebugger.Dwarf.Cursor.{cursor, finished}
use kdebugger.Dwarf.Frame.{FrameSections, CieMap, Fde, parse_fde}
use kdebugger.Dwarf.Frame.Header.{EhHdr, fde_at}
use kdebugger.Dwarf.Frame.Rules.{
  Rule, undefined_rule, same_rule, offset_rule, val_offset_rule, register_rule, Ruleset,
  UnwindContext, CfaNumbers, execute_cfi_instruction,
}

-- What class `registers` and class `process` give to the unwinder. A register is named by its DWARF
-- number, and a value has 64 bits.
pub record RegisterFile (R : Type 0) : Type 0 where
  pub read_register : ℕ → R → Outcome ℕ
  pub write_register : ℕ → ℕ → R → Outcome R
  pub undefine : ℕ → R → Outcome R
  pub write_rsp : ℕ → R → Outcome R
  pub set_cfa : ℕ → R → R
  pub read_word : ℕ → Outcome ℕ

-- The fresh context, over the common part's instructions.
abbrev pub fresh_context : FrameSections → Fde → UnwindContext
fresh_context s fde = record {
  cur = cursor s.image fde.cie.instructions.0 fde.cie.instructions.1;
  location = null_addr;
  cfa_rule = record { reg = 0; offset = 0 };
  cie_register_rules = [];
  register_rules = [];
  rule_stack = [];
}

-- The first loop. An instruction takes a byte at least.
unfoldable pub run_cie :
    CfaNumbers → FrameSections → Fde → ℕ → UnwindContext → Outcome UnwindContext
unfolding execute_cfi_instruction
run_cie n s fde zero ctx = fail undefined
run_cie n s fde (suc fuel) ctx = elim (finished ctx.cur) [
  | true ↦ ok ctx
  | false ↦ do after ← execute_cfi_instruction n s fde ctx; run_cie n s fde fuel after
]

-- The second loop, up to the address.
unfoldable pub run_fde :
    CfaNumbers → FrameSections → Fde → FileAddr → ℕ → UnwindContext → Outcome UnwindContext
unfolding execute_cfi_instruction
run_fde n s fde pc zero ctx = fail undefined
run_fde n s fde pc (suc fuel) ctx = elim (finished ctx.cur) [
  | true ↦ ok ctx
  | false ↦ do
    reached ← less_equal ctx.location pc
    elim reached [
      | false ↦ ok ctx
      | true ↦ do after ← execute_cfi_instruction n s fde ctx; run_fde n s fde pc fuel after
    ]
]

module _ {R : Type 0} (regs : RegisterFile R) where
  -- One round of the loop over the rules.
  unfoldable pub execute_rule : ℕ → R → ℕ → Rule → R → Outcome R
  execute_rule cfa old reg undefined_rule unwound = regs.undefine reg unwound
  execute_rule cfa old reg same_rule unwound = ok unwound
  execute_rule cfa old reg (register_rule other) unwound = do
    v ← regs.read_register other old
    regs.write_register reg v unwound
  execute_rule cfa old reg (offset_rule offset) unwound = do
    v ← regs.read_word (add64 cfa offset)
    regs.write_register reg v unwound
  execute_rule cfa old reg (val_offset_rule offset) unwound =
      regs.write_register reg (add64 cfa offset) unwound

  unfoldable pub execute_rules : ℕ → R → Ruleset → R → Outcome R
  unfolding execute_rule
  execute_rules cfa old [] unwound = ok unwound
  execute_rules cfa old ((reg, rule) ∷ rules) unwound = do
    after ← execute_rule cfa old reg rule unwound
    execute_rules cfa old rules after

  -- The unwound registers, with the old ones, whose CFA is set.
  unfoldable pub execute_unwind_rules : UnwindContext → R → Outcome (R × R)
  unfolding execute_rules
  execute_unwind_rules ctx old = do
    base ← regs.read_register ctx.cfa_rule.reg old
    let cfa = add64 base ctx.cfa_rule.offset
    let marked = regs.set_cfa cfa old
    unwound ← regs.write_rsp cfa old
    done ← execute_rules cfa marked ctx.register_rules unwound
    ok (done, marked)

  unfoldable pub unwind :
      CfaNumbers → FrameSections → EhHdr → CieMap → FileAddr → R → Outcome (R × R × CieMap)
  unfolding run_cie run_fde execute_unwind_rules
  unwind n s hdr cies pc old = do
    fde_start ← fde_at n.pointers s hdr pc.addr
    (fde, left) ← parse_fde n.pointers s cies (cursor s.image fde_start s.eh_frame.1)
    before ← less pc fde.initial_location
    end ← plus fde.initial_location fde.address_range
    beyond ← (if before then ok true else greater_equal pc end)
    if beyond then fail (sent "No unwind information at PC") else (do
      common ← run_cie n s fde (length s.image + 1) (fresh_context s fde)
      ctx ← run_fde n s fde pc (length s.image + 1) (record common {
        cie_register_rules = common.register_rules;
        cur = cursor s.image fde.instructions.0 fde.instructions.1;
        location = fde.initial_location;
      })
      (unwound, marked) ← execute_unwind_rules ctx old
      ok (unwound, marked, left))
