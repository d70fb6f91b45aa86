-- ===== src/Registers/Fetch.antt =====
-- `read_all_registers` of src/process.cpp.
use kdebugger.Common.{ℕ, zero, suc, ◌+◌, ◌*◌, ◌==◌, List, Option, Outcome, ok, ◌>>=◌}
use kdebugger.Dwarf.Cursor.Fixed.{le_bytes}
use kdebugger.Process.Threads.{errno_or}
use kdebugger.Registers.{RegisterInfo, Registers, register_info_by, splice}

-- PTRACE_GETREGS, PTRACE_GETFPREGS and PTRACE_PEEKUSER on a thread, where `i387` and `u_debugreg` stand in
-- the user area, and the id of the first debug register.
pub record UserReader : Type 0 where
  pub get_regs : Option (List ℕ)
  pub get_fpregs : Option (List ℕ)
  pub peek_user : ℕ → Option ℕ
  pub i387_offset : ℕ
  pub debug_offset : ℕ
  pub dr0 : ℕ

module _ (u : UserReader) (infos : List RegisterInfo) where
  -- The loop over the debug registers from number `i` on.
  unfoldable pub read_debug_loop : ℕ → ℕ → Registers → Outcome Registers
  unfolding register_info_by splice
  read_debug_loop zero i r = ok r
  read_debug_loop (suc left) i r = do
    info ← register_info_by (λ info. info.id == u.dr0 + i) infos
    data_word ← errno_or (u.peek_user info.offset) "Could not read debug register"
    read_debug_loop left (i + 1)
        (record r { user = splice (u.debug_offset + 8 * i) (le_bytes 8 data_word) r.user })

  -- The general registers go to `i387` as well, as the source has it.
  unfoldable pub read_all_registers : Registers → Outcome Registers
  unfolding splice read_debug_loop
  read_all_registers r = do
    regs ← errno_or u.get_regs "Could not read GPR registers"
    let general = record r { user = splice u.i387_offset regs r.user }
    fpregs ← errno_or u.get_fpregs "Could not read FPR registers"
    read_debug_loop 8 0 (record general { user = splice u.i387_offset fpregs general.user })
