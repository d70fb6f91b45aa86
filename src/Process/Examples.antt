-- ===== src/Process/Examples.antt =====
-- Runs of the debugger on the flat tracee.
use kdebugger.Common.{◌<◌, ◌≡◌, refl, true, false, [], ◌∷◌, none, length, All, arith, ok}
use kdebugger.Stoppoints.{find_if, erase}
use kdebugger.Process.Tracee.{bytes_at, bytes_of_ranges}
use kdebugger.Process.State.{Process}
use kdebugger.Process.Site.{
  create_breakpoint_site, enable, disable, remove_site, enable_software, enable_hardware,
  disable_hardware,
}
use kdebugger.Process.Hardware.{set_hardware_breakpoint, clear_hardware_stoppoint}
use kdebugger.Process.Site.Armed.{IsTrapped}
use kdebugger.Process.Site.Invariant.{Reach, here, next, creates, enables, removes, sites-IsTrapped}
use kdebugger.Process.Memory.{remote_descs, read_memory_without_traps, write_memory}
use kdebugger.Process.Memory.Restore.{read_memory_without_traps-original}
use kdebugger.Process.Memory.Write.{overlay, write_memory-overlay}
use kdebugger.Process.Flat.{flat_byte, flat, flat-FullReads, start, after}

abbrev created : Process flat
created = after (create_breakpoint_site flat start none 1 0x1003 false false 9)

abbrev second : Process flat
second = after (create_breakpoint_site flat created none 2 0x1005 true false 9)

abbrev armed : Process flat
armed = after (enable flat 0 second)

abbrev both : Process flat
both = after (enable flat 1 armed)

abbrev alone : Process flat
alone = after (remove_site flat 0x1005 both)

abbrev Ran : Process flat → Type 0
Ran = Reach flat (flat_byte start.tracee) start

created-Ran : Ran created
unfolding create_breakpoint_site find_if
created-Ran = next here (creates none 1 0x1003 false false 9 refl)

second-Ran : Ran second
unfolding create_breakpoint_site find_if
second-Ran = next created-Ran (creates none 2 0x1005 true false 9 refl)

armed-Ran : Ran armed
unfolding create_breakpoint_site find_if enable enable_software enable_hardware
    set_hardware_breakpoint
armed-Ran = next second-Ran (enables 0 refl)

both-Ran : Ran both
unfolding create_breakpoint_site find_if enable enable_software enable_hardware
    set_hardware_breakpoint
both-Ran = next armed-Ran (enables 1 refl)

alone-Ran : Ran alone
unfolding create_breakpoint_site find_if enable enable_software enable_hardware
    set_hardware_breakpoint remove_site disable disable_hardware clear_hardware_stoppoint erase
alone-Ran = next both-Ran (removes 0x1005 refl)

sites-IsTrapped_example : IsTrapped flat (flat_byte start.tracee) alone
sites-IsTrapped_example = sites-IsTrapped flat start alone refl alone-Ran

whole_transfer : length (bytes_of_ranges (flat_byte alone.tracee) (remote_descs 4 0x1001 4)) ≡ 4
unfolding remote_descs
whole_transfer = refl

read_memory_without_traps-original_example :
    read_memory_without_traps flat alone 0x1001 4 ≡ ok (bytes_at (flat_byte start.tracee) 0x1001 4)
read_memory_without_traps-original_example =
    read_memory_without_traps-original flat alone 0x1001 4
      (bytes_of_ranges (flat_byte alone.tracee) (remote_descs 4 0x1001 4)) (flat_byte start.tracee)
      sites-IsTrapped_example refl whole_transfer

abbrev written : Process flat
written = after (write_memory flat start 0x1003 (1 ∷ 2 ∷ 3 ∷ 4 ∷ 5 ∷ 6 ∷ 7 ∷ 8 ∷ 9 ∷ []))

written_ok : write_memory flat start 0x1003 (1 ∷ 2 ∷ 3 ∷ 4 ∷ 5 ∷ 6 ∷ 7 ∷ 8 ∷ 9 ∷ []) ≡ ok written
unfolding write_memory
written_ok = refl

small_bytes : All (λ b. b < 256) (1 ∷ 2 ∷ 3 ∷ 4 ∷ 5 ∷ 6 ∷ 7 ∷ 8 ∷ 9 ∷ [])
small_bytes = (
  omega arith,
  (
    omega arith,
    (
      omega arith,
      (omega arith, (omega arith, (omega arith, (omega arith, (omega arith, (omega arith, tt)))))),
    ),
  ),
)

write_memory-overlay_example :
    flat_byte written.tracee 0x100b
    ≡ overlay (flat_byte start.tracee) 0x1003 (1 ∷ 2 ∷ 3 ∷ 4 ∷ 5 ∷ 6 ∷ 7 ∷ 8 ∷ 9 ∷ []) 0x100b
write_memory-overlay_example =
    write_memory-overlay flat flat-FullReads start written 0x1003
      (1 ∷ 2 ∷ 3 ∷ 4 ∷ 5 ∷ 6 ∷ 7 ∷ 8 ∷ 9 ∷ []) small_bytes written_ok 0x100b
