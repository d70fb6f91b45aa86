-- ===== src/Process/Watch.antt =====
-- Class `watchpoint` (src/watchpoint.cpp) and `create_watchpoint` of src/process.cpp. A watchpoint is
-- its place in `m_Watchpoints`.
pub mod Laws
use kdebugger.Common.{
  ℕ, zero, suc, ◌+◌, ◌-◌, ◌%◌, ◌^◌, bit_and, Bool, true, false, not, List, Option, none, some,
  if◌then◌else◌, ◌==◌, ltb, get_elem?, set, Outcome, ok, fail, or_fail, sent, undefined, ◌>>=◌,
}
use kdebugger.Common.Word.{sub64}
use kdebugger.Stoppoints
use kdebugger.Process.Tracee.{Tracee}
use kdebugger.Process.State.{Watchpoint, Process, watchpoint_stoppoint, StoppointMode}
use kdebugger.Process.Hardware.{set_watchpoint, clear_hardware_stoppoint}
use kdebugger.Process.Memory.{read_memory, word_of}

-- The members' first values.
abbrev pub fresh_watchpoint : ℕ → ℕ → StoppointMode → ℕ → Watchpoint
fresh_watchpoint address id mode size = record {
  address = address;
  id = id;
  mode = mode;
  size = size;
  is_enabled = false;
  hardware_register_index = none;
  value = 0;
  previous_value = 0;
}

module _ (t : Tracee) where
  store_watchpoint : Process t → ℕ → Watchpoint → Process t
  store_watchpoint p i point = record p { watchpoints = set p.watchpoints i point }

  -- `update_data` of a watchpoint. Copying more than eight bytes into `new_data` is undefined.
  unfoldable pub update_data : Process t → Watchpoint → Outcome Watchpoint
  update_data p point = do
    read ← read_memory t p point.address point.size
    if ltb 8 point.size
        then fail undefined
        else ok (record point { value = word_of read; previous_value = point.value })

  -- The constructor, with the counter of `get_next_id` behind it; an id has 32 bits, as one of a
  -- breakpoint site.
  unfoldable pub new_watchpoint : Process t → ℕ → StoppointMode → ℕ → Outcome (Watchpoint × ℕ)
  unfolding update_data
  new_watchpoint p address mode size =
      if not (bit_and address (sub64 size 1) == 0)
      then fail (sent "Watchpoint must be aligned to size")
      else (do
        let id = (p.next_watchpoint_id + 1) % 2 ^ 32
        point ← update_data p (fresh_watchpoint address id mode size)
        ok (point, id))

  -- The address in the message is left out.
  unfoldable pub create_watchpoint : Process t → ℕ → StoppointMode → ℕ → Outcome (Process t)
  unfolding new_watchpoint Stoppoints.contains_address Stoppoints.push
  create_watchpoint p address mode size =
      if Stoppoints.contains_address watchpoint_stoppoint p.watchpoints address
      then fail (sent "Watchpoint already created at address ")
      else (do
        (point, id) ← new_watchpoint p address mode size
        ok (record p {
          watchpoints = Stoppoints.push watchpoint_stoppoint p.watchpoints point;
          next_watchpoint_id = id;
        }))

  unfoldable pub enable_watchpoint : ℕ → Process t → Outcome (Process t)
  unfolding store_watchpoint
  enable_watchpoint i p = do
    point ← or_fail (get_elem? p.watchpoints i)
    if point.is_enabled then ok p else (do
      (p', index) ← set_watchpoint t p point.id point.address point.mode point.size
      ok (
          store_watchpoint p' i
            (record point { hardware_register_index = some index; is_enabled = true })))

  -- `disable`, which returns where the watchpoint is enabled. Register index -1 would name the
  -- register before `dr0`.
  unfoldable pub disable_watchpoint : ℕ → Process t → Outcome (Process t)
  unfolding store_watchpoint
  disable_watchpoint i p = do
    point ← or_fail (get_elem? p.watchpoints i)
    if point.is_enabled then ok p else (do
      index ← or_fail point.hardware_register_index
      p' ← clear_hardware_stoppoint t p index
      ok (store_watchpoint p' i (record point { is_enabled = false })))
