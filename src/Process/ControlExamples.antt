-- ===== src/Process/ControlExamples.antt =====
-- Two threads, one of which runs and is stopped.
use kdebugger.Common.{
  ℕ, ◌≡◌, refl, true, false, [], ◌∷◌, Option, none, some, Outcome, ok, fail, ok-injective, ap, sym,
  Bool,
}
use kdebugger.Process.Flat.{flat, start}
use kdebugger.Process.Stop.{stopped, running, exited, StopReason, stop_reason, unknown, other_code}
use kdebugger.Process.Control.{
  for_threads, pending_behind, stop_status, halt_thread, stop_thread, stop_running_threads,
}
use kdebugger.Process.Threads.{
  Kernel, ThreadState, catch_none, Control, find_thread, thread_at, update_thread, is_running,
}
use kdebugger.Process.Control.Handled.{stop_running_threads-halted}
use kdebugger.Process.Control.Signals.{Listeners, handle_signal}

-- A kernel in which every call succeeds, and a stopped thread was stopped by SIGSTOP.
abbrev calm : Kernel flat
calm = record {
  continue_thread = λ syscalls m tid. some m;
  single_step = λ m tid. some m;
  send_sigstop = λ m tid. m;
  wait = λ m tid. some (0x137f, m);
  siginfo = λ m tid. some other_code;
  registers = λ m tid r. 0;
  read_pc = λ m tid. 0x1000;
  write_pc = λ m tid pc. some m;
  debug_registers = λ m tid i. 0;
}

-- Callbacks that do nothing.
abbrev quiet : Listeners flat
quiet = record {
  notify_hit = λ b c. ok (false, c);
  notify_stop = λ reason c. ok c;
  report_lifecycle = λ reason c. ok c;
}

abbrev handled : StopReason → Control flat → Outcome (Option StopReason × Control flat)
handled reason c = handle_signal flat calm quiet reason false c

abbrev half_running : Control flat
half_running = record {
  process = start;
  threads =
      record { tid = 7; state = some stopped; reason = none; pending_sigstop = false }
      ∷ record { tid = 8; state = some running; reason = none; pending_sigstop = false }
      ∷ [];
  pid = 7;
  state = some running;
  is_attached = true;
  policy = record { mode = catch_none; to_catch = [] };
  expecting_syscall_exit = false;
}

abbrev after : Outcome (Control flat) → Control flat
after (ok c) = c
after (fail e) = half_running

abbrev halted : Control flat
halted = after (stop_running_threads flat calm handled half_running)

stopped_all : stop_running_threads flat calm handled half_running ≡ ok halted
unfolding stop_running_threads for_threads stop_thread thread_at find_thread update_thread
    stop_status halt_thread pending_behind stop_reason handle_signal
stopped_all = refl

abbrev second_thread : ThreadState
second_thread = record {
  tid = 8;
  state = some stopped;
  reason = some (record (stop_reason 8 0x137f) { trap_reason = some unknown });
  pending_sigstop = false;
}

second_found : find_thread 8 halted.threads ≡ some second_thread
unfolding stop_running_threads for_threads stop_thread thread_at find_thread update_thread
    stop_status halt_thread pending_behind stop_reason handle_signal
second_found = refl

hit_keeps :
    (b : ℕ) (c c' : Control flat) (restart : Bool)
    → quiet.notify_hit b c ≡ ok (restart, c')
    → c'.threads ≡ c.threads
hit_keeps b c c' restart e = sym (ap (λ (q : Bool × Control flat). q.1.threads) (ok-injective e))

stop_keeps :
    (reason : StopReason) (c c' : Control flat)
    → quiet.notify_stop reason c ≡ ok c'
    → c'.threads ≡ c.threads
stop_keeps reason c c' e = sym (ap (λ (q : Control flat). q.threads) (ok-injective e))

stop_running_threads-halted_example : is_running second_thread.state ≡ false
stop_running_threads-halted_example =
    stop_running_threads-halted flat calm quiet hit_keeps stop_keeps stop_keeps half_running halted
      8 second_thread stopped_all second_found

-- The process's first thread has exited while another one stops.
abbrev main_ended : Control flat
main_ended = record half_running {
  threads =
      record { tid = 7; state = some exited; reason = none; pending_sigstop = false }
      ∷ record { tid = 8; state = some stopped; reason = none; pending_sigstop = false }
      ∷ [];
}
