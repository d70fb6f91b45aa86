-- ===== src/Process/WatchExamples.antt =====
-- Hardware stop points and watchpoints on the flat tracee.
use kdebugger.Common.{
  ℕ, ◌<◌, ◌/◌, ◌*◌, ◌^◌, ◌≡◌, refl, false, [], ◌∷◌, ◌++◌, if◌then◌else◌, arith, bit_and, Outcome,
  ok, fail, sent, ◌≤◌,
}
use kdebugger.Common.Digits.{digit}
use kdebugger.Stoppoints.{find_if, contains_address}
use kdebugger.Process.State.{Process, Watchpoint, write, watchpoint_stoppoint}
use kdebugger.Process.Flat.{flat, flat-FullReads, start, after}
use kdebugger.Process.Hardware.{
  control_word, keep_mask, find_free_stoppoint_region, read_debug, set_hardware_stoppoint,
  clear_hardware_stoppoint, set_watchpoint, encode_hardware_stoppoint_size,
  encode_hardware_stoppoint_mode,
}
use kdebugger.Process.Hardware.Fields.{in_fields, field_bit, control_word-digit}
use kdebugger.Process.Hardware.Free.{IsFree, find_free_stoppoint_region-first}
use kdebugger.Process.Hardware.Threads.{
  set_hardware_stoppoint-threads, clear_hardware_stoppoint-threads,
}
use kdebugger.Process.Memory.{read_memory}
use kdebugger.Process.Watch.{create_watchpoint, enable_watchpoint, disable_watchpoint}
use kdebugger.Process.Watch.Laws.{
  IsNew, create_watchpoint-IsNew, disable_watchpoint-enable_watchpoint,
}

-- Register 1 enabled for four-byte writes leaves the enable bit of register 0.
control_word-digit_example :
    digit (control_word 0b1 1 0b01 0b11) 0
    ≡ (if in_fields 1 0 then field_bit 1 0b01 0b11 0 else digit 0b1 0)
control_word-digit_example =
    control_word-digit 0b1 1 0b01 0b11 0 (omega arith) (omega arith) (omega arith) (omega arith)

find_free_stoppoint_region-first_example :
    ((j : ℕ)
      → j < 4
      → IsFree 0b1 j
      → (i : ℕ) × (find_free_stoppoint_region 0b1 ≡ ok i)
        × (i ≤ j)
        × IsFree 0b1 i
        × ((k : ℕ) → k < i → ¬ IsFree 0b1 k))
    × (((j : ℕ) → j < 4 → ¬ IsFree 0b1 j)
        → find_free_stoppoint_region 0b1 ≡ fail (sent "No remaining hardware debug registers"))
find_free_stoppoint_region-first_example = find_free_stoppoint_region-first 0b1

abbrev two_threads : Process flat
two_threads = record start {
  threads = record { tid = 7; debug = λ k. 0 } ∷ record { tid = 8; debug = λ k. 5 } ∷ [];
}

abbrev first : {A : Type 0} → Outcome (Process flat × A) → Process flat
first (ok (p, a)) = p
first (fail e) = start

abbrev stopped : Process flat
stopped = first (set_hardware_stoppoint flat two_threads 0x7fff_0000_1000 write 4)

set_once : set_hardware_stoppoint flat two_threads 0x7fff_0000_1000 write 4 ≡ ok (stopped, 0)
unfolding set_hardware_stoppoint
set_once = refl

other_thread : read_debug flat two_threads 8 7 ≡ ok 5
unfolding read_debug
other_thread = refl

set_hardware_stoppoint-threads_example :
    (control : ℕ) × (size_flag : ℕ) × (read_debug flat two_threads 7 7 ≡ ok control)
    × (encode_hardware_stoppoint_size 4 ≡ ok size_flag)
    × (0 < 4)
    × IsFree control 0
    × (read_debug flat stopped 8 0 ≡ ok 0x7fff_0000_1000)
    × (read_debug flat stopped 8 7
        ≡ ok (control_word control 0 (encode_hardware_stoppoint_mode write) size_flag))
set_hardware_stoppoint-threads_example =
    set_hardware_stoppoint-threads flat two_threads stopped 0x7fff_0000_1000 4 0 8 5 write set_once
      other_thread

abbrev cleared : Process flat
cleared = after (clear_hardware_stoppoint flat stopped 0)

clear_once : clear_hardware_stoppoint flat stopped 0 ≡ ok cleared
unfolding set_hardware_stoppoint clear_hardware_stoppoint
clear_once = refl

still_other : read_debug flat stopped 8 0 ≡ ok 0x7fff_0000_1000
unfolding read_debug set_hardware_stoppoint
still_other = refl

clear_hardware_stoppoint-threads_example :
    (control : ℕ) × (read_debug flat stopped stopped.current_thread 7 ≡ ok control)
    × (read_debug flat cleared 8 0 ≡ ok (0x7fff_0000_1000 / 2 ^ 32 * 2 ^ 32))
    × (read_debug flat cleared 8 7 ≡ ok (bit_and control (keep_mask 0)))
clear_hardware_stoppoint-threads_example =
    clear_hardware_stoppoint-threads flat stopped cleared 0 8 0x7fff_0000_1000 (omega arith)
      clear_once still_other

abbrev watched : Process flat
watched = after (create_watchpoint flat start 0x1004 write 4)

watches : create_watchpoint flat start 0x1004 write 4 ≡ ok watched
unfolding create_watchpoint find_if read_memory
watches = refl

create_watchpoint-IsNew_example :
    (point : Watchpoint) × (contains_address watchpoint_stoppoint start.watchpoints 0x1004 ≡ false)
    × (watched.watchpoints ≡ start.watchpoints ++ (point ∷ []))
    × IsNew flat start 0x1004 write 4 point
create_watchpoint-IsNew_example =
    create_watchpoint-IsNew flat flat-FullReads start watched 0x1004 4 write watches

abbrev watching : Process flat
watching = after (enable_watchpoint flat 0 watched)

enabled_once : enable_watchpoint flat 0 watched ≡ ok watching
unfolding create_watchpoint enable_watchpoint find_if read_memory set_watchpoint
enabled_once = refl

disable_watchpoint-enable_watchpoint_example : disable_watchpoint flat 0 watching ≡ ok watching
disable_watchpoint-enable_watchpoint_example =
    disable_watchpoint-enable_watchpoint flat 0 watched watching enabled_once
