-- ===== src/Tasks/Tests.antt =====
-- The theorems about ipapp/task/db.py at concrete tables.
use ipapp.Common.{
  ℕ, ◌≤◌, ◌≡◌, refl, Bool, true, false, none, some, List, [], ◌∷◌, arith, inl, leb, ltb, ◌&&◌,
}
use ipapp.Common.Lists.{All, length}
use ipapp.Tasks.{
  Status, Row, Tables, task_add, task_search, has_id, task_next_delay, task_log_add, task_move_arch,
  task_retry,
}
use ipapp.Tasks.Manager.{
  Request, function, named, Outcome, retry_raised, cancel, exec, search_and_exec, TaskManagerConfig,
  exec_log, idle_delay,
}
use ipapp.Tasks.Claim.{IsClaimed, marked, task_search-claims, task_search-exclusive}
use ipapp.Tasks.Ledger.{IsAccounted}
use ipapp.Tasks.System.{System, scheduled, scanned, logged, Reachable, here, next, begun}
use ipapp.Tasks.Conserved.{Reachable-IsAccounted}
use ipapp.Tasks.Cancel.{cancel_lem, canceled}
use ipapp.Tasks.Attempts.{attempts_bound}
use ipapp.Tasks.At.{logs_of}
use ipapp.Tasks.Claim.{row_at}
use ipapp.Tasks.Delay.{IsInTime, search_and_exec-delay}
use ipapp.Tasks.Cron.{PeriodicTask, tick_task, missed}
use ipapp.Tasks.Cron.Exact.{IsCrontab, IsIncreasing, mem, tick_task-strict}

abbrev free : ℕ → Bool
free i = false

abbrev order : Request
order = record {
  func = function "send" (some 2) none;
  params = "{}";
  reference = none;
  eta = some 10;
  max_retries = none;
  retry_delay = some 5;
  propagate_trace = false;
  trace = ("t", "s");
}

abbrev row : Status → Row
row status = record {
  id = 1;
  reference = none;
  eta = 10;
  name = "send";
  params = "{}";
  max_retries = 2;
  retry_delay = 5;
  status = status;
  last_stamp = 4;
  retries = none;
  trace_id = none;
  trace_span_id = none;
}

abbrev tables : Tables
tables = record {
  seq = 2;
  pending = row Status.pending ∷ [];
  arch = [];
  log = [];
  cron_tick = none;
}

abbrev ready : System
ready = record { db = tables; running = [] }

-- the row as a scan at the time 20 hands it out
abbrev taken : Row
taken = record (row Status.progress) { last_stamp = 20 }

abbrev busy : System
busy = record { db = record tables { pending = taken ∷ [] }; running = begun taken ∷ [] }

ready-Reachable : Reachable ready
unfolding task_add
ready-Reachable = next here (scheduled 4 order refl)

busy-Reachable : Reachable busy
unfolding task_search
busy-Reachable = next ready-Reachable (scanned 20 free 1 refl)

abbrev lost : Outcome
lost = retry_raised "busy" "trace"

abbrev logged_once : System
logged_once = record {
  db = record tables {
    pending = taken ∷ [];
    log =
        record {
          task_id = 1;
          eta = 10;
          started = 20;
          finished = 21;
          result = none;
          error = some "busy";
          traceback = some "trace";
        }
        ∷ [];
  };
  running = record { task = taken; outcome = some lost } ∷ [];
}

logged_once-Reachable : Reachable logged_once
unfolding exec_log task_log_add
logged_once-Reachable = next busy-Reachable (logged 1 20 21 lost (begun taken) refl refl refl)

-- A task with two retries runs three times if each run asks for another, and then fails.
runs_three_times :
    let again : Tables → Tables = λ db.
      (exec 30
        (λ r. lost)
        (record (row Status.progress) {
          retries = elim (row_at 1 db.pending) [ none ↦ none | some r ↦ r.retries ];
        })
        db).1 in
    let end = again (again (again tables)) in (end.pending ≡ []) × (logs_of 1 end.log ≡ 3)
unfolding exec task_log_add task_move_arch task_retry
runs_three_times = (refl, refl)

task_search-claims_example :
    let (tasks, db') = task_search 20 free 1 tables in
    (length tasks ≤ 1)
    × All (IsClaimed 20 free tables.pending) tasks
    × (db' ≡ record tables { pending = marked 20 tasks tables.pending })
task_search-claims_example = task_search-claims 20 free 1 tables (refl, tt)

nothing_left : length (task_search 20 free 2 tables).0 ≡ 1
unfolding task_search
nothing_left = refl

task_search-exclusive_example :
    has_id 1 (task_search 99 free 5 (task_search 20 free 1 tables).1).0 ≡ false
unfolding task_search
task_search-exclusive_example = task_search-exclusive 20 99 free free 1 5 1 tables (refl, tt) refl

Reachable-IsAccounted_example : IsAccounted logged_once.db
Reachable-IsAccounted_example = Reachable-IsAccounted logged_once logged_once-Reachable

cancel_lem_example : cancel 7 1 tables ≡ canceled 7 1 tables (some (row Status.pending))
cancel_lem_example = cancel_lem 7 1 tables (Reachable-IsAccounted ready ready-Reachable)

attempts_bound_example : 1 ≤ 3
attempts_bound_example = attempts_bound logged_once 1 taken logged_once-Reachable (inl refl)

abbrev config : TaskManagerConfig
config = record { batch_size = 1; max_scan_interval = 60 }

search_and_exec-delay_example :
    (2 ≤ 60) × All (IsInTime 8 free 2) (search_and_exec config 8 free (λ r. lost) tables).1.pending
unfolding search_and_exec task_search task_next_delay idle_delay
search_and_exec-delay_example = search_and_exec-delay config 8 free (λ r. lost) tables [] 2 refl

-- a crontab that names every stamp
always-IsCrontab : IsCrontab (λ t. true) (λ t. 1)
always-IsCrontab = record {
  next_pos = λ t. omega arith;
  next_fires = λ t. refl;
  next_least = λ t u h h'. absurd (omega arith);
}

abbrev report : Bool → PeriodicTask
report strict = record { fn = named "report"; next = λ t. 1; strict = strict; date_attr = none }

strict_run : tick_task true 5 2 (report true) ≡ some (3 ∷ 4 ∷ 5 ∷ [], 6)
unfolding tick_task missed
strict_run = refl

tick_task-strict_example :
    (ts : List ℕ) × (tick_task true 5 2 (report true) ≡ some (ts, 6))
    × ((u : ℕ) → mem u ts ≡ (ltb 2 u && leb u 5 && true))
    × IsIncreasing 2 ts
tick_task-strict_example =
    tick_task-strict (λ t. true) (λ t. 1) always-IsCrontab true 5 2 (report true) refl refl
      (omega arith)
