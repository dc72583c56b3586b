-- ===== src/Tasks/Manager.antt =====
-- ipapp/task/db.py, class `TaskManager`: `schedule`, `cancel`, `_search_and_exec`, `_exec`, and one
-- round of `_scan`.
use ipapp.Common.{
  ℕ, ◌+◌, String, Bool, true, false, Option, none, some, List, [], ◌∷◌, leb, if◌then◌else◌,
}
use ipapp.Common.Int.{ℤ, pos, negsuc}
use ipapp.Common.Exec.{Result, ok, err}
use ipapp.Tasks.{
  Status, Row, LogRow, Tables, DbError, NewTask, task_add, task_search, task_search4cancel,
  task_next_delay, task_retry, task_move_arch, task_log_add,
}

-- A handler given to `schedule`: a function with the attributes that `TaskRegistry.task` sets, or a
-- name.
pub data TaskHandler : Type 0 where
  named : String → TaskHandler
  function : (rpc_name : String) (max_retries retry_delay : Option ℕ) → TaskHandler

abbrev handler_name : TaskHandler → String
handler_name (named n) = n
handler_name (function n _ _) = n

-- 60 seconds
abbrev default_retry_delay : ℕ
default_retry_delay = 60000000

-- `getattr(func, '__task_max_retries__', 0)`
abbrev handler_max_retries : TaskHandler → ℕ
handler_max_retries (function _ (some n) _) = n
handler_max_retries _ = 0

-- `getattr(func, '__task_retry_delay__', 60.0)`
abbrev handler_retry_delay : TaskHandler → ℕ
handler_retry_delay (function _ _ (some d)) = d
handler_retry_delay _ = default_retry_delay

-- The arguments of `schedule`; `trace` is the trace and the id of its span, which are passed on
-- if `propagate_trace` is set.
pub record Request : Type 0 where
  pub func : TaskHandler
  pub params : String
  pub reference : Option String
  pub eta : Option ℕ
  pub max_retries : Option ℕ
  pub retry_delay : Option ℕ
  pub propagate_trace : Bool
  pub trace : String × String

abbrev or_else : Option ℕ → ℕ → ℕ
or_else none d = d
or_else (some n) d = n

abbrev pub new_task : Request → NewTask
new_task q = record {
  eta = q.eta;
  name = handler_name q.func;
  params = q.params;
  reference = q.reference;
  max_retries = or_else q.max_retries (handler_max_retries q.func);
  retry_delay = or_else q.retry_delay (handler_retry_delay q.func);
  trace_id = if q.propagate_trace then some q.trace.0 else none;
  trace_span_id = if q.propagate_trace then some q.trace.1 else none;
}

-- The state of a manager: the tables, the stamp of the next scan, and whether the scan sleeps
-- (`_scan_sleep_fut` is set and not cancelled).
pub record TaskManager : Type 0 where
  pub db : Tables
  pub stamp_early : ℕ
  pub scan_sleeps : Bool

-- `TaskManager.schedule`; `now` is the time of the database and of the process.
unfoldable pub schedule : ℕ → Request → TaskManager → Result DbError ℕ × TaskManager
schedule now q tm =
    let (r, db) = task_add now (new_task q) tm.db in
    elim r [
      | ok (id, delay) ↦
          (ok id, record tm { db = db; stamp_early = now + delay; scan_sleeps = false })
      | err e ↦ (err e, record tm { db = db })
    ]

abbrev pub has_trace : Row → Bool
has_trace r = elim r.trace_id [ none ↦ false | some _ ↦ true ]

-- `TaskManager.cancel`: one transaction, so an error leaves the tables as they were.
unfoldable pub cancel : ℕ → ℕ → Tables → Result DbError Bool × Tables
cancel now id db =
    let (task, marked) = task_search4cancel now id db in
    elim task [
      | none ↦ (ok false, marked)
      | some t ↦
          let (r, moved) = task_move_arch now id Status.canceled none (has_trace t) marked in
          elim r [ ok _ ↦ (ok true, moved) | err e ↦ (err e, db) ]
    ]

-- How a handler ends: with a result (as JSON, if it is not `None`), by raising `Retry`, or by any other
-- exception; both with their message and traceback.
pub data Outcome : Type 0 where
  returned : Option String → Outcome
  retry_raised : (message trace : String) → Outcome
  raised : (message trace : String) → Outcome

-- What `_exec` writes to the log.
abbrev pub log_row : Row → ℕ → ℕ → Outcome → LogRow
log_row task begin finish (returned res) = record {
  task_id = task.id;
  eta = task.eta;
  started = begin;
  finished = finish;
  result = res;
  error = none;
  traceback = none;
}
log_row task begin finish (retry_raised message trace) = record {
  task_id = task.id;
  eta = task.eta;
  started = begin;
  finished = finish;
  result = none;
  error = some message;
  traceback = some trace;
}
log_row task begin finish (raised message trace) = record {
  task_id = task.id;
  eta = task.eta;
  started = begin;
  finished = finish;
  result = none;
  error = some message;
  traceback = some trace;
}

-- `retries` of `_exec`: 0 at the first run, then one more each time.
abbrev pub next_retries : Option ℕ → ℕ
next_retries none = 0
next_retries (some n) = n + 1

-- `_exec`, up to the row of the log
unfoldable pub exec_log : Row → ℕ → ℕ → Outcome → Tables → Tables
exec_log task begin finish outcome db = task_log_add (log_row task begin finish outcome) db

abbrev archive : ℕ → Row → Status → Tables → Result DbError (Unit {0}) × Tables
archive now task status db =
    task_move_arch now task.id status (some (next_retries task.retries)) (has_trace task) db

-- `_exec`, from the row of the log on
unfoldable pub exec_finish : ℕ → Row → Outcome → Tables → Result DbError (Unit {0}) × Tables
exec_finish now task (returned res) db = archive now task Status.successful db
exec_finish now task (raised message trace) db = archive now task Status.error db
exec_finish now task (retry_raised message trace) db =
    let retries = next_retries task.retries in
    if leb task.max_retries retries
    then archive now task Status.error db
    else (ok tt, task_retry now task.id retries (some task.retry_delay) db)

-- `TaskManager._exec`, with no other statement between its two
unfoldable pub exec : ℕ → (Row → Outcome) → Row → Tables → Result DbError (Unit {0}) × Tables
unfolding exec_log exec_finish
exec now run task db = exec_finish now task (run task) (exec_log task now now (run task) db)

-- `asyncio.gather(*coros)`: every task runs, and the first exception is raised. Here they run one after
-- the other; the module `Ledger` lets their statements mix.
unfoldable pub exec_all :
    ℕ → (Row → Outcome) → List Row → Tables → Result DbError (Unit {0}) × Tables
exec_all now run [] db = (ok tt, db)
exec_all now run (task ∷ tasks) db =
    let (r, db') = exec now run task db in
    let (r', db'') = exec_all now run tasks db' in (elim r [ ok _ ↦ r' | err e ↦ err e ], db'')

-- The fields of `TaskManagerConfig` that the scan reads; the interval is in microseconds.
pub record TaskManagerConfig : Type 0 where
  pub batch_size : ℕ
  pub max_scan_interval : ℕ

-- the delay that `_search_and_exec` returns when there is no task
unfoldable pub idle_delay : ℕ → Option ℤ → ℕ
idle_delay max_scan_interval none = max_scan_interval
idle_delay max_scan_interval (some (negsuc n)) = 0
idle_delay max_scan_interval (some (pos n)) =
    if leb max_scan_interval n then max_scan_interval else n

-- `TaskManager._search_and_exec`
unfoldable pub search_and_exec :
    TaskManagerConfig
    → ℕ
    → (ℕ → Bool)
    → (Row → Outcome)
    → Tables
    → Result DbError (List Row × ℕ) × Tables
search_and_exec cfg now locked run db =
    let (tasks, db') = task_search now locked cfg.batch_size db in
    elim tasks [
      | [] ↦ (ok ([], idle_delay cfg.max_scan_interval (task_next_delay now locked db')), db')
      | t ∷ ts ↦
          let (r, db'') = exec_all now run (t ∷ ts) db' in
          elim r [ ok _ ↦ (ok (t ∷ ts, 0), db'') | err e ↦ (err e, db'') ]
    ]

-- 1 second
abbrev error_delay : ℕ
error_delay = 1000000

-- One round of `TaskManager._scan`: an exception is logged, and the next round is a second away.
unfoldable pub scan_round :
    TaskManagerConfig → ℕ → (ℕ → Bool) → (Row → Outcome) → TaskManager → TaskManager
scan_round cfg now locked run tm =
    let (r, db) = search_and_exec cfg now locked run tm.db in
    let delay : ℕ = elim r [ ok (_, d) ↦ d | err _ ↦ error_delay ] in
    record { db = db; stamp_early = now + delay; scan_sleeps = leb 1 delay }
