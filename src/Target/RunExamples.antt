-- ===== src/Target/RunExamples.antt =====
-- A target without debugging information over the flat tracee.
use kdebugger.Common.{
  ℕ, ◌≡◌, refl, subst, true, false, List, [], ◌∷◌, none, some, Outcome, ok, fail, ok-injective,
}
use kdebugger.Stoppoints.{
  contains_address, find_by_address, find_if, get_by_address, enabled_stoppoint_at_address,
}
use kdebugger.Dwarf.Frame.Unwind.{RegisterFile}
use kdebugger.Dwarf.LineTable.ByLine.{Paths}
use kdebugger.Process.Flat.{flat, start}
use kdebugger.Process.State.{Process, Site, site_stoppoint}
use kdebugger.Process.Site.{
  create_breakpoint_site, enable, enable_software, disable, disable_software, remove_site,
}
use kdebugger.Process.Site.Patch.{Distinct}
use kdebugger.Process.Stop.{stopped, software_break, other_code, StopReason}
use kdebugger.Process.Control.{swallow_pending_sigstop, resume, step_over_breakpoint, send_continue}
use kdebugger.Process.Threads.{Kernel, catch_none, find_thread, thread_at, update_thread}
use kdebugger.Target.Sample.{numbers}
use kdebugger.Target.Breakpoint.{
  at_address, Breakpoint, enable_breakpoint, disable_breakpoint, place_site, resolve_address,
  resolve_kind, resolve,
}
use kdebugger.Target.Breakpoint.Again.{resolve-resolve}
use kdebugger.Target.Run.{
  Target, Runner, find_stack, stack_at, set_reason, place_unless, place_internal, remove_internal,
  run_until_address, is_breakpoint,
}
use kdebugger.Target.Run.Removed.{run_until_address-removed}
use kdebugger.Target.Stack.{new_stack}
use kdebugger.Target.Step.{out_loop}
use kdebugger.Target.Step.Out.{out_loop-once}

abbrev paths : Paths
paths = record { components = λ p. p ∷ []; is_absolute = λ p. true }

abbrev garbage : ℕ → ℕ
garbage address = 0xdead

abbrev unresolved : Breakpoint
unresolved = record {
  id = some 1;
  is_enabled = false;
  is_hardware = false;
  is_internal = false;
  next_site_id = 1;
  site_addresses = [];
  on_hit = none;
  kind = at_address 0x1003;
}

abbrev after_resolve : Outcome (Breakpoint × Process flat) → Breakpoint × Process flat
after_resolve (ok r) = r
after_resolve (fail e) = (unresolved, start)

abbrev resolved : Breakpoint × Process flat
resolved = after_resolve (resolve flat garbage 0 numbers paths [] unresolved start)

resolves_once :
    resolve flat garbage 0 numbers paths [] unresolved start ≡ ok (resolved.0, resolved.1)
unfolding resolve resolve_kind resolve_address place_site create_breakpoint_site find_if
resolves_once = refl

resolve-resolve_example :
    resolve flat garbage 0 numbers paths [] resolved.0 resolved.1 ≡ ok (resolved.0, resolved.1)
resolve-resolve_example =
    resolve-resolve flat garbage 0 numbers paths [] unresolved resolved.0 start resolved.1
      resolves_once

abbrev enabled : Breakpoint × Process flat
enabled = after_resolve (enable_breakpoint flat resolved.0 resolved.1)

abbrev disabled : Breakpoint × Process flat
disabled = after_resolve (disable_breakpoint flat enabled.0 enabled.1)

abbrev calm : Kernel flat
calm = record {
  continue_thread = λ syscalls m tid. some m;
  single_step = λ m tid. some m;
  send_sigstop = λ m tid. m;
  wait = λ m tid. some (0x057f, m);
  siginfo = λ m tid. some other_code;
  registers = λ m tid r. 0;
  read_pc = λ m tid. 0x1010;
  write_pc = λ m tid pc. some m;
  debug_registers = λ m tid i. 0;
}

abbrev register_file : RegisterFile ℕ
register_file = record {
  read_register = λ n r. ok r;
  write_register = λ n v r. ok v;
  undefine = λ n r. ok r;
  write_rsp = λ v r. ok r;
  set_cfa = λ v r. r;
  read_word = λ a. ok 0;
}

abbrev target_with : List Site → Target flat ℕ
target_with sites = record {
  control = record {
    process = record start { sites = sites };
    threads = record { tid = 7; state = some stopped; reason = none; pending_sigstop = false } ∷ [];
    pid = 7;
    state = some stopped;
    is_attached = true;
    policy = record { mode = catch_none; to_catch = [] };
    expecting_syscall_exit = false;
  };
  elves = [];
  main_elf = 0;
  stacks = new_stack 7 ∷ [];
  breakpoints = [];
  rendezvous = 0;
  next_breakpoint_id = 0;
}

abbrev broke : StopReason
broke = record {
  tid = 7;
  reason = some stopped;
  info = 5;
  trap_reason = some software_break;
  syscall_info = none;
}

-- Every wait ends with a break, and leaves the target as it is.
abbrev runner : Runner flat ℕ
runner = record {
  kernel = calm;
  register_file = register_file;
  registers_of = λ m tid. 0x1010;
  numbers = numbers;
  paths = paths;
  raw_id = garbage;
  rounds = 8;
  wait_on_signal = λ tid tgt. ok (broke, tgt);
}

waits-Distinct :
    (x : ℕ) (before after : Target flat ℕ) (told : StopReason)
    → Distinct before.control.process.sites
    → runner.wait_on_signal x before ≡ ok (told, after)
    → Distinct after.control.process.sites
waits-Distinct x before after told d e =
    subst (λ (q : StopReason × Target flat ℕ). Distinct q.1.control.process.sites) (ok-injective e)
      d

abbrev after_run : Outcome (StopReason × Target flat ℕ) → StopReason × Target flat ℕ
after_run (ok r) = r
after_run (fail e) = (broke, target_with [])

abbrev ran : StopReason × Target flat ℕ
ran = after_run (run_until_address flat ℕ runner 0x1010 7 (target_with []))

runs_until : run_until_address flat ℕ runner 0x1010 7 (target_with []) ≡ ok (ran.0, ran.1)
unfolding run_until_address place_internal place_unless create_breakpoint_site find_if enable
    enable_software resume step_over_breakpoint send_continue swallow_pending_sigstop thread_at
    find_thread update_thread remove_internal remove_site disable disable_software set_reason
    stack_at find_stack is_breakpoint contains_address find_by_address enabled_stoppoint_at_address
    get_by_address
runs_until = refl

nothing_there :
    contains_address site_stoppoint (target_with []).control.process.sites 0x1010 ≡ false
unfolding contains_address find_by_address find_if
nothing_there = refl

run_until_address-removed_example :
    contains_address site_stoppoint ran.1.control.process.sites 0x1010 ≡ false
run_until_address-removed_example =
    run_until_address-removed flat ℕ runner 0x1010 7 (target_with []) ran.1 ran.0 waits-Distinct tt
      nothing_there runs_until

still_current : ran.1.control.process.current_thread ≡ 7
unfolding run_until_address place_internal place_unless create_breakpoint_site find_if enable
    enable_software resume step_over_breakpoint send_continue swallow_pending_sigstop thread_at
    find_thread update_thread remove_internal remove_site disable disable_software set_reason
    stack_at find_stack is_breakpoint contains_address find_by_address enabled_stoppoint_at_address
    get_by_address
still_current = refl

out_loop-once_example : out_loop flat ℕ runner 3 7 1 0x1010 (target_with []) ≡ ok (ran.0, ran.1)
out_loop-once_example =
    out_loop-once flat ℕ runner (λ m m' tid a w e. refl) (λ m m' tid i v e. refl) 2 7 1 0x1010
      (target_with []) ran.1 ran.0 runs_until still_current
