-- ===== src/Process/Life.antt =====
-- How class `process` begins and ends (src/process.cpp): its threads, `attach`, the destructor, and the
-- auxiliary vector of the program.
use kdebugger.Common.{
  ℕ, ◌%◌, ◌^◌, Bool, true, false, List, [], ◌∷◌, ◌++◌, Option, none, some, ◌==◌, if◌then◌else◌,
  Outcome, ok, fail, sent, undefined, ◌>>=◌,
}
use kdebugger.Process.Tracee.{Tracee}
use kdebugger.Process.Stop.{stopped, StopReason}
use kdebugger.Process.Threads.{catch_none, Control, find_thread, is_running, errno_or}

-- What the system does for it: PTRACE_ATTACH, PTRACE_SETOPTIONS, PTRACE_DETACH, `kill`, `waitpid` whose
-- result is not looked at, and the files `task` and `auxv` of a process, the second as 64-bit words.
-- `raw_debug` is what a constructor leaves in the debug registers of a thread.
pub record Host (t : Tracee) : Type 0 where
  pub attach : t.State → ℕ → Option t.State
  pub set_options : t.State → ℕ → Option t.State
  pub detach : t.State → ℕ → t.State
  pub kill : t.State → ℕ → ℕ → t.State
  pub wait : t.State → ℕ → t.State
  pub tasks : t.State → ℕ → List ℕ
  pub auxv_words : t.State → ℕ → List ℕ
  pub raw_debug : ℕ → ℕ → ℕ

-- A word of the map that an id has; the last one that is there for it.
unfoldable pub find_value : ℕ → List (ℕ × ℕ) → Option ℕ
find_value id [] = none
find_value id ((key, value) ∷ rest) =
    let later = find_value id rest in if key == id then some value else later

-- `ret[id] = value`.
unfoldable pub set_value : ℕ → ℕ → List (ℕ × ℕ) → List (ℕ × ℕ)
set_value id value [] = (id, value) ∷ []
set_value id value ((key, old) ∷ rest) =
    let others = set_value id value rest in
    if key == id then (key, value) ∷ rest else (key, old) ∷ others

-- The loop of `get_auxv`, whose keys are of type `int`. It does not end where the file does so before
-- an id 0.
unfoldable pub auxv_loop : List ℕ → List (ℕ × ℕ) → Outcome (List (ℕ × ℕ))
unfolding set_value
auxv_loop [] ret = fail undefined
auxv_loop (id ∷ []) ret = if id == 0 then ok ret else fail undefined
auxv_loop (id ∷ value ∷ words) ret =
    let more = auxv_loop words (set_value (id % 2 ^ 32) value ret) in
    if id == 0 then ok ret else more

module _ (t : Tracee) (h : Host t) where
  unfoldable pub get_auxv : Control t → Outcome (List (ℕ × ℕ))
  unfolding auxv_loop
  get_auxv c = auxv_loop (h.auxv_words c.process.tracee c.pid) []

  -- `m_Threads.emplace`, which leaves a thread that is there.
  unfoldable pub emplace_task : ℕ → Control t → Control t
  unfolding find_thread
  emplace_task tid c = elim (find_thread tid c.threads) [
    | some th ↦ c
    | none ↦ record c {
      threads =
          c.threads
          ++ (record { tid = tid; state = some stopped; reason = none; pending_sigstop = false }
              ∷ []);
      process = record c.process {
        threads = c.process.threads ++ (record { tid = tid; debug = h.raw_debug tid } ∷ []);
      };
    }
  ]

  unfoldable pub emplace_tasks : List ℕ → Control t → Control t
  unfolding emplace_task
  emplace_tasks [] c = c
  emplace_tasks (tid ∷ tids) c = emplace_tasks tids (emplace_task tid c)

  unfoldable pub populate_existing_threads : Control t → Control t
  unfolding emplace_tasks
  populate_existing_threads c = emplace_tasks (h.tasks c.process.tracee c.pid) c

  -- The constructor. `next_id` is the counter of watchpoints, which all processes share.
  unfoldable pub new_process : ℕ → Bool → ℕ → t.State → Control t
  unfolding populate_existing_threads
  new_process pid is_attached next_id m = populate_existing_threads (record {
    process = record {
      tracee = m;
      threads = [];
      current_thread = pid;
      sites = [];
      watchpoints = [];
      next_watchpoint_id = next_id;
    };
    threads = [];
    pid = pid;
    state = some stopped;
    is_attached = is_attached;
    policy = record { mode = catch_none; to_catch = [] };
    expecting_syscall_exit = false;
  })

  unfoldable pub set_ptrace_options : Control t → Outcome (Control t)
  set_ptrace_options c = do
    m ←
        errno_or (h.set_options c.process.tracee c.pid)
          "Failed to set TRACESYSGOOD and TRACECLONE option"
    ok (record c { process = record c.process { tracee = m } })

  -- `wait_on_signal` is the member of `process`.
  unfoldable pub attach :
      (wait_on_signal : Control t → Outcome (StopReason × Control t))
      → ℕ
      → ℕ
      → t.State
      → Outcome (Control t)
  unfolding new_process set_ptrace_options
  attach wait_on_signal pid next_id m = if pid == 0 then fail (sent "Invalid PID") else (do
    m₁ ← errno_or (h.attach m pid) "Could not attach"
    (reason, c) ← wait_on_signal (new_process pid true next_id m₁)
    set_ptrace_options c)

  -- Of the destructor, for a process that is attached: SIGSTOP where it runs, and SIGCONT in the end.
  unfoldable pub let_go : Control t → t.State
  let_go c =
      let m = c.process.tracee in
      let halted = if is_running c.state then h.wait (h.kill m c.pid 19) c.pid else m in
      h.kill (h.detach halted c.pid) c.pid 18

  -- The destructor, with `m_Terminate` and SIGKILL.
  unfoldable pub destroy : Bool → Control t → t.State
  unfolding let_go
  destroy terminate c =
      if c.pid == 0
      then c.process.tracee
      else (let m = if c.is_attached then let_go c else c.process.tracee in
          if terminate then h.wait (h.kill m c.pid 9) c.pid else m)
