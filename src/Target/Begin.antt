-- ===== src/Target/Begin.antt =====
-- How a target begins: `create_loaded_elf`, `launch` and `attach` of src/target.cpp. `process::launch`,
-- which forks, is a parameter.
use kdebugger.Common.{ℕ, List, [], ◌∷◌, none, some, Outcome, ok, ◌>>=◌}
use kdebugger.Common.Word.{sub64}
use kdebugger.Process.Tracee.{Tracee}
use kdebugger.Process.Stop.{StopReason}
use kdebugger.Process.Threads.{ThreadState, Control}
use kdebugger.Process.Life.{Host, find_value, get_auxv}
use kdebugger.Process.Life
use kdebugger.Target.{LoadedElf}
use kdebugger.Target.Stack.{Stack, new_stack}
use kdebugger.Target.Run.{Target, Runner}
use kdebugger.Target.Rendezvous.{System}
use kdebugger.Target.Libraries.{watch_entry_point, resolve_dynamic_linker_rendezvous}

-- The map's `operator []` for AT_ENTRY, which gives 0 where the key is missing.
unfoldable pub entry_point_of : List (ℕ × ℕ) → ℕ
unfolding find_value
entry_point_of auxv = elim (find_value 9 auxv) [ none ↦ 0 | some address ↦ address ]

unfoldable pub stacks_of : {R : Type 0} → List ThreadState → List (Stack R)
stacks_of [] = []
stacks_of (th ∷ threads) = new_stack th.tid ∷ stacks_of threads

-- "/proc".
abbrev pub proc_path : List ℕ
proc_path = 47 ∷ 112 ∷ 114 ∷ 111 ∷ 99 ∷ []

module _ (t : Tracee) (R : Type 0) (run : Runner t R) (h : Host t) (s : System) where
  -- The file's load bias is where the program's entry point lies less the one in its header, which
  -- `entry_in_header` reads.
  unfoldable pub create_loaded_elf :
      (entry_in_header : List ℕ → Outcome ℕ) → Control t → List ℕ → Outcome LoadedElf
  unfolding get_auxv entry_point_of
  create_loaded_elf entry_in_header c path = do
    auxv ← get_auxv t h c
    entry ← entry_in_header path
    e ← s.open_elf 0 path (sub64 (entry_point_of auxv) entry)
    ok (record e { path = path })

  -- The constructor. `next_id` is the counter of breakpoints, which all targets share.
  unfoldable pub new_target : Control t → LoadedElf → ℕ → Target t R
  unfolding stacks_of
  new_target c e next_id = record {
    control = c;
    elves = e ∷ [];
    main_elf = 0;
    stacks = stacks_of c.threads;
    breakpoints = [];
    rendezvous = 0;
    next_breakpoint_id = next_id;
  }

  -- `launch`, from the process on that `process::launch` gives.
  unfoldable pub launch :
      (entry_in_header : List ℕ → Outcome ℕ) → Control t → List ℕ → ℕ → Outcome (Target t R)
  unfolding create_loaded_elf new_target get_auxv entry_point_of watch_entry_point
  launch entry_in_header c path next_id = do
    e ← create_loaded_elf entry_in_header c path
    auxv ← get_auxv t h c
    watch_entry_point t R run s (entry_point_of auxv) (new_target c e next_id)

  -- `wait` is `wait_on_signal` of a process that has no target yet.
  unfoldable pub attach :
      (entry_in_header : List ℕ → Outcome ℕ)
      → (wait : Control t → Outcome (StopReason × Control t)) → (pid next_watchpoint_id next_id : ℕ)
      → t.State
      → Outcome (Target t R)
  unfolding Life.attach create_loaded_elf new_target resolve_dynamic_linker_rendezvous
  attach entry_in_header wait pid next_watchpoint_id next_id m = do
    c ← Life.attach t h wait pid next_watchpoint_id m
    e ← create_loaded_elf entry_in_header c proc_path
    resolve_dynamic_linker_rendezvous t R run s (new_target c e next_id)
