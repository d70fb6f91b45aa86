-- ===== src/Process/State.antt =====
-- The state of a `process`: `breakpoint_site`, `watchpoint` and the threads.
use kdebugger.Common.{ℕ, Bool, ◌&&◌, List, Option, leb, ltb, ◌==◌}
use kdebugger.Stoppoints.{Stoppoint}
use kdebugger.Process.Tracee.{Tracee}

-- include/libkdebugger/breakpoint_site.hpp. `m_Process` is the process that holds the site, and the
-- register index -1 is `none`. `parent` is the breakpoint's place in the target.
pub record Site : Type 0 where
  pub address : ℕ
  pub id : ℕ
  pub hardware_register_index : Option ℕ
  pub is_enabled : Bool
  pub is_hardware : Bool
  pub is_internal : Bool
  pub saved_data : ℕ
  pub parent : Option ℕ

abbrev pub site_stoppoint : Stoppoint Site
site_stoppoint = record {
  id = λ s. s.id;
  at_address = λ s address. s.address == address;
  in_range = λ s low high. leb low s.address && ltb s.address high;
  is_enabled = λ s. s.is_enabled;
}

pub data StoppointMode : Type 0 where
  write read_write execute : StoppointMode

-- include/libkdebugger/watchpoint.hpp.
pub record Watchpoint : Type 0 where
  pub address : ℕ
  pub id : ℕ
  pub mode : StoppointMode
  pub size : ℕ
  pub is_enabled : Bool
  pub hardware_register_index : Option ℕ
  pub value : ℕ
  pub previous_value : ℕ

abbrev pub watchpoint_stoppoint : Stoppoint Watchpoint
watchpoint_stoppoint = record {
  id = λ w. w.id;
  at_address = λ w address. w.address == address;
  in_range = λ w low high. leb low w.address && ltb w.address high;
  is_enabled = λ w. w.is_enabled;
}

-- The part of `thread_state` that the stop points use: the debug registers of its `registers`.
pub record Thread : Type 0 where
  pub tid : ℕ
  pub debug : ℕ → ℕ

pub record Process (t : Tracee) : Type 0 where
  pub tracee : t.State
  pub threads : List Thread
  pub current_thread : ℕ
  pub sites : List Site
  pub watchpoints : List Watchpoint
  -- `id` of `get_next_id` in src/watchpoint.cpp.
  pub next_watchpoint_id : ℕ
