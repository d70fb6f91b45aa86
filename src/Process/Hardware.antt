-- ===== src/Process/Hardware.antt =====
-- The hardware stop points of src/process.cpp: the fields of debug register 7 and their updates
-- on every thread.
pub mod Keeps
pub mod Observed
pub mod Free
pub mod Threads
pub mod Fields
use kdebugger.Common.{
  ℕ, zero, suc, ◌+◌, ◌-◌, ◌*◌, ◌/◌, ◌%◌, ◌^◌, bit_and, bit_or, Bool, List, [], ◌∷◌, Option, none,
  some, if◌then◌else◌, ◌==◌, Outcome, ok, fail, sent, sent_errno, out_of_range, undefined, ◌>>=◌,
}
use kdebugger.Common.Word.{sign_extend}
use kdebugger.Process.Tracee.{Tracee}
use kdebugger.Process.State.{Thread, Process, StoppointMode, write, read_write, execute}

unfoldable pub encode_hardware_stoppoint_mode : StoppointMode → ℕ
encode_hardware_stoppoint_mode write = 0b01
encode_hardware_stoppoint_mode read_write = 0b11
encode_hardware_stoppoint_mode execute = 0b00

unfoldable pub encode_hardware_stoppoint_size : ℕ → Outcome ℕ
encode_hardware_stoppoint_size size =
    if size == 1
    then ok 0b00
    else if size == 2
    then ok 0b01
    else if size == 4
    then ok 0b11
    else if size == 8
    then ok 0b10
    else fail (sent "Invalid stoppoint size")

-- The loop from register `i` on, with `rounds` of the four left.
free_region_loop : ℕ → ℕ → ℕ → Outcome ℕ
free_region_loop zero i control_register = fail (sent "No remaining hardware debug registers")
free_region_loop (suc rounds) i control_register =
    let more = free_region_loop rounds (i + 1) control_register in
    if bit_and control_register (0b11 * 2 ^ (i * 2)) == 0 then ok i else more

unfoldable pub find_free_stoppoint_region : ℕ → Outcome ℕ
unfolding free_region_loop
find_free_stoppoint_region control_register = free_region_loop 4 0 control_register

-- The `int` mask of register `i`'s fields, and its complement converted to 64 bits.
unfoldable pub clear_mask : ℕ → ℕ
clear_mask i = bit_or (0b11 * 2 ^ (i * 2)) (0b1111 * 2 ^ (i * 4 + 16))

unfoldable pub keep_mask : ℕ → ℕ
unfolding clear_mask
keep_mask i = sign_extend (2 ^ 32) (2 ^ 32 - 1 - clear_mask i)

-- The new control word of `set_hardware_stoppoint`.
unfoldable pub control_word : ℕ → ℕ → ℕ → ℕ → ℕ
unfolding keep_mask
control_word control free_space mode_flag size_flag =
    let enable_bit = 2 ^ (free_space * 2) in
    let mode_bits = mode_flag * 2 ^ (free_space * 4 + 16) in
    let size_bits = size_flag * 2 ^ (free_space * 4 + 18) in
    bit_or (bit_and control (keep_mask free_space)) (bit_or (bit_or enable_bit mode_bits) size_bits)

-- `m_Threads.at(tid)`.
thread_of : List Thread → ℕ → Outcome Thread
thread_of [] tid = fail out_of_range
thread_of (thread ∷ rest) tid =
    let more = thread_of rest tid in if thread.tid == tid then ok thread else more

update_debug : (ℕ → ℕ) → ℕ → ℕ → ℕ → ℕ
update_debug debug k value j = if k == j then value else debug j

store_thread : List Thread → ℕ → ℕ → ℕ → List Thread
store_thread [] tid k value = []
store_thread (thread ∷ rest) tid k value =
    let more = store_thread rest tid k value in
    if thread.tid == tid
    then record thread { debug = update_debug thread.debug k value } ∷ rest
    else thread ∷ more

-- What a write leaves of a register that held `old`: all of a 64-bit value, and of an `int` that is not
-- negative its four bytes, with the upper four that were there.
abbrev pub whole : ℕ → ℕ → ℕ
whole value old = value

abbrev pub low_half : ℕ → ℕ → ℕ
low_half value old = old / 2 ^ 32 * 2 ^ 32 + value

module _ (t : Tracee) where
  -- `read_by_id_as<std::uint64_t>` of debug register `k` of a thread.
  unfoldable pub read_debug : Process t → ℕ → ℕ → Outcome ℕ
  unfolding thread_of
  read_debug p tid k = do thread ← thread_of p.threads tid; ok (thread.debug k)

  -- `write_user_area` on debug register `k`: of `m_Pid`, whichever thread is asked for.
  write_user_area : t.State → ℕ → ℕ → Outcome t.State
  write_user_area m k value = elim (t.poke_debug m k value) [
    | none ↦ fail (sent_errno "Could not write to user area")
    | some m' ↦ ok m'
  ]

  -- `write_by_id` on debug register `k` of a thread: the copy in `m_Data`, of which the value's bytes
  -- change, then the user area, which `registers::write` writes twice when it commits.
  unfoldable pub write_debug : Process t → ℕ → ℕ → (ℕ → ℕ) → Outcome (Process t)
  unfolding thread_of update_debug store_thread write_user_area
  write_debug p tid k change = do
    thread ← thread_of p.threads tid
    let value = change (thread.debug k)
    once ← write_user_area p.tracee k value
    twice ← write_user_area once k value
    ok (record p { tracee = twice; threads = store_thread p.threads tid k value })

  -- One round of the loop over the threads: register `k` and the control word of another thread.
  write_other : Process t → ℕ → ℕ → (ℕ → ℕ) → ℕ → Outcome (Process t)
  unfolding write_debug
  write_other p tid k change masked =
      if tid == p.current_thread
      then ok p
      else (do p₁ ← write_debug p tid k change; write_debug p₁ tid 7 (whole masked))

  other_threads : List Thread → ℕ → (ℕ → ℕ) → ℕ → Process t → Outcome (Process t)
  unfolding write_other
  other_threads [] k change masked p = ok p
  other_threads (thread ∷ rest) k change masked p = do
    p' ← write_other p thread.tid k change masked
    other_threads rest k change masked p'

  unfoldable pub set_hardware_stoppoint :
      Process t → ℕ → StoppointMode → ℕ → Outcome (Process t × ℕ)
  unfolding read_debug other_threads find_free_stoppoint_region control_word
      encode_hardware_stoppoint_mode encode_hardware_stoppoint_size
  set_hardware_stoppoint p address mode size = do
    control ← read_debug p p.current_thread 7
    free_space ← find_free_stoppoint_region control
    p₁ ← write_debug p p.current_thread free_space (whole address)
    size_flag ← encode_hardware_stoppoint_size size
    let masked = control_word control free_space (encode_hardware_stoppoint_mode mode) size_flag
    p₂ ← write_debug p₁ p.current_thread 7 (whole masked)
    p₃ ← other_threads p₂.threads free_space (whole address) masked p₂
    ok (p₃, free_space)

  unfoldable pub set_hardware_breakpoint : Process t → ℕ → ℕ → Outcome (Process t × ℕ)
  unfolding set_hardware_stoppoint
  set_hardware_breakpoint p id address = set_hardware_stoppoint p address execute 1

  unfoldable pub set_watchpoint : Process t → ℕ → ℕ → StoppointMode → ℕ → Outcome (Process t × ℕ)
  unfolding set_hardware_stoppoint
  set_watchpoint p id address mode size = set_hardware_stoppoint p address mode size

  -- The source writes the literal 0, an `int`, to the register itself.
  unfoldable pub clear_hardware_stoppoint : Process t → ℕ → Outcome (Process t)
  unfolding read_debug other_threads keep_mask
  clear_hardware_stoppoint p index = do
    p₁ ← write_debug p p.current_thread index (low_half 0)
    control ← read_debug p₁ p.current_thread 7
    let masked = bit_and control (keep_mask index)
    p₂ ← write_debug p₁ p.current_thread 7 (whole masked)
    other_threads p₂.threads index (low_half 0) masked p₂
