-- ===== src/Process/StopExamples.antt =====
-- A clone event, and a system call's entry and exit.
use kdebugger.Common.{◌≡◌, refl, Bool, true, false, not, ◌==◌, none, some, arith, ok, if◌then◌else◌}
use kdebugger.Process.Stop.{StopReason, stop_reason, stopped, other_code, augment_stop_reason}
use kdebugger.Process.Stop.Status.{stops, status_of, reason_of, stop_reason-status_of}
use kdebugger.Process.Stop.Syscalls.{entry_of, augment_stop_reason-alternates}

stop_reason-status_of_example : stop_reason 12 (status_of (stops 5 3)) ≡ reason_of 12 (stops 5 3)
stop_reason-status_of_example = stop_reason-status_of 12 (stops 5 3) (omega arith, omega arith)

abbrev at_call : StopReason
at_call = record {
  tid = 12;
  reason = some stopped;
  info = 0x85;
  trap_reason = none;
  syscall_info = none;
}

augment_stop_reason-alternates_example :
    (first second : StopReason) × (expecting' after : Bool) × (augment_stop_reason
        (some other_code)
        (λ r. 1)
        false
        at_call
      ≡ ok (first, expecting'))
    × (augment_stop_reason (some other_code) (λ r. 1) expecting' at_call ≡ ok (second, after))
    × ((at_call.info == 0x85) ≡ true → entry_of first ≡ some (not false))
    × (entry_of second ≡ some (if at_call.info == 0x85 then false else true))
augment_stop_reason-alternates_example =
    augment_stop_reason-alternates other_code other_code (λ r. 1) (λ r. 1) false at_call at_call
      refl
