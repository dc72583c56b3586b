-- ===== src/Tasks/Cron.antt =====
-- `TaskManager._tick` of ipapp/task/db.py: the periodic tasks. A stamp is an instant in microseconds, so
-- the change to the zone of the crontab and back is the identity here.
pub mod Exact
pub mod Sleep
use Prim.Native.Nat.{◌/◌}
use ipapp.Common.{
  ℕ, zero, suc, ◌+◌, ◌-◌, ◌*◌, String, Bool, true, false, not, ◌&&◌, Option, none, some, List, [],
  ◌∷◌, ◌++◌, map, ltb, leb, if◌then◌else◌,
}
use ipapp.Tasks.{Tables}
use ipapp.Tasks.Manager.{TaskHandler, Request, TaskManager, schedule}

-- A periodic task; `next t` is `crontab.next(t)`, the time from `t` to the next run.
pub record PeriodicTask : Type 0 where
  pub fn : TaskHandler
  pub next : ℕ → ℕ
  pub strict : Bool
  pub date_attr : Option String

-- `while next_dt <= now` for a strict task: the stamps to run at, and the last `next_dt`. `none` means
-- that the fuel ran out.
unfoldable pub missed : ℕ → (ℕ → ℕ) → ℕ → ℕ → Option (List ℕ × ℕ)
missed zero next now next_dt = none
missed (suc fuel) next now next_dt =
    let rest = missed fuel next now (next_dt + next next_dt) in
    if leb next_dt now
    then (elim rest [ none ↦ none | some (ts, last) ↦ some (next_dt ∷ ts, last) ])
    else some ([], next_dt)

-- The same loop for a task that is not strict: it breaks after one round.
abbrev pub missed_once : (ℕ → ℕ) → ℕ → ℕ → List ℕ × ℕ
missed_once next now next_dt =
    if leb next_dt now then (next_dt ∷ [], now + next now) else ([], next_dt)

abbrev pub first_dt : Bool → ℕ → ℕ → PeriodicTask → ℕ
first_dt boot now last task =
    if boot && not task.strict then now + task.next now else last + task.next last

-- One round of `for task in self._periodic_tasks`
unfoldable pub tick_task : Bool → ℕ → ℕ → PeriodicTask → Option (List ℕ × ℕ)
tick_task boot now last task =
    let next_dt = first_dt boot now last task in
    if task.strict
    then missed (suc now) task.next now next_dt
    else some (missed_once task.next now next_dt)

-- `next_sleep`, after a task whose next run is at `next_dt`
unfoldable pub sooner : ℕ → ℕ → Option ℕ → Option ℕ
sooner now next_dt none = if ltb 0 (next_dt - now) then some (next_dt - now) else none
sooner now next_dt (some s) =
    if ltb (next_dt - now) s && ltb 0 (next_dt - now) then some (next_dt - now) else some s

-- The loop over the tasks: what to execute, and how long to sleep.
unfoldable pub tick_tasks :
    Bool → ℕ → ℕ → List PeriodicTask → Option ℕ → Option (List (PeriodicTask × ℕ) × Option ℕ)
tick_tasks boot now last [] next_sleep = some ([], next_sleep)
tick_tasks boot now last (task ∷ tasks) next_sleep = elim (tick_task boot now last task) [
  | none ↦ none
  | some (ts, next_dt) ↦ elim (tick_tasks boot now last tasks (sooner now next_dt next_sleep)) [
    | none ↦ none
    | some (to_exec, sleep) ↦ some (map (λ t. (task, t)) ts ++ to_exec, sleep)
  ]
]

-- `NOW()::timestamptz(0)`: the stamp, rounded to a second
abbrev round_second : ℕ → ℕ
round_second now = (now + 500000) / 1000000 * 1000000

-- `get_last_tick_stamp` and `create_last_tick_stamp`
abbrev pub last_stamp : ℕ → Tables → ℕ
last_stamp now db = elim db.cron_tick [ none ↦ round_second now | some t ↦ t ]

-- `update_last_tick_stamp`
abbrev update_last_tick_stamp : ℕ → Tables → Tables
update_last_tick_stamp stamp db = record db { cron_tick = some stamp }

-- 1 second
abbrev default_sleep : ℕ
default_sleep = 1000000

-- `schedule(fn, params)`, where `encode` writes the parameters as JSON
abbrev request : (Option String → ℕ → String) → PeriodicTask × ℕ → Request
request encode (task, t) = record {
  func = task.fn;
  params = encode task.date_attr t;
  reference = none;
  eta = none;
  max_retries = none;
  retry_delay = none;
  propagate_trace = false;
  trace = ("", "");
}

abbrev schedule_all : ℕ → List Request → TaskManager → TaskManager
schedule_all now [] tm = tm
schedule_all now (q ∷ qs) tm = schedule_all now qs (schedule now q tm).1

-- One round of `_tick`: the manager after it, and the time to sleep; `none` is a loop that does not end.
unfoldable pub tick :
    Bool
    → ℕ
    → (Option String → ℕ → String)
    → List PeriodicTask
    → TaskManager
    → Option (TaskManager × ℕ)
tick boot now encode tasks tm = elim (tick_tasks boot now (last_stamp now tm.db) tasks none) [
  | none ↦ none
  | some (to_exec, next_sleep) ↦ some (
    schedule_all now (map (request encode) to_exec)
        (record tm { db = update_last_tick_stamp now tm.db }),
    elim next_sleep [ none ↦ default_sleep | some s ↦ s ],
  )
]
