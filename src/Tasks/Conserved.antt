-- ===== src/Tasks/Conserved.antt =====
-- No task is lost or doubled: the steps of the task managers of ipapp/task/db.py keep every task that was
-- ever added in exactly one of the two tables.
use ipapp.Common.{ℕ, ◌≡◌, refl, none, some, arith, leb, inl, inr, Option-cases, Bool-cases}
use ipapp.Common.Exec.{ok}
use ipapp.Tasks.{Status, Row, Tables, task_log_add, task_search4cancel}
use ipapp.Tasks.Manager.{
  has_trace, Outcome, returned, retry_raised, raised, cancel, exec_log, exec_finish, new_task,
  next_retries,
}
use ipapp.Tasks.Ledger.{
  IsAccounted, task_add-IsAccounted, task_search-IsAccounted, task_search4cancel-IsAccounted,
  task_retry-IsAccounted, task_move_arch-IsAccounted,
}
use ipapp.Tasks.System.{
  System, Step, scheduled, canceled, scanned, logged, finished, crashed, Reachable, here, next,
}

pub cancel-IsAccounted :
    (now id : ℕ) (db : Tables) → IsAccounted db → IsAccounted (cancel now id db).1
unfolding cancel
cancel-IsAccounted now id db a = elim (Option-cases (task_search4cancel now id db).0) [
  | inl nothing ↦ rw (nothing, cancel) (task_search4cancel-IsAccounted now id db a)
  | inr (t, found) ↦
      let move =
        task_move_arch-IsAccounted now id Status.canceled none (has_trace t)
          (task_search4cancel now id db).1 (task_search4cancel-IsAccounted now id db a) in
      rw (found, cancel) (rw move.0 move.1)
]

exec_log-IsAccounted :
    (task : Row) (begin finish : ℕ) (o : Outcome) (db : Tables)
    → IsAccounted db
    → IsAccounted (exec_log task begin finish o db)
unfolding exec_log task_log_add
exec_log-IsAccounted task begin finish o db a = record { started = a.started; once = a.once }

-- `_exec` ends without an error of the database.
pub exec_finish-IsAccounted :
    (now : ℕ) (task : Row) (o : Outcome) (db : Tables)
    → IsAccounted db
    → ((exec_finish now task o db).0 ≡ ok tt) × IsAccounted (exec_finish now task o db).1
unfolding exec_finish
exec_finish-IsAccounted now task (returned res) db a =
    task_move_arch-IsAccounted now task.id Status.successful (some (next_retries task.retries)) _ db
      a
exec_finish-IsAccounted now task (raised message trace) db a =
    task_move_arch-IsAccounted now task.id Status.error (some (next_retries task.retries)) _ db a
exec_finish-IsAccounted now task (retry_raised message trace) db a =
    elim (Bool-cases (leb task.max_retries (next_retries task.retries))) [
      | inl last ↦ rw last (
          task_move_arch-IsAccounted now task.id Status.error (some (next_retries task.retries)) _
            db a)
      | inr again ↦ rw again (
        refl,
        task_retry-IsAccounted now task.id (next_retries task.retries) (some task.retry_delay) db a,
      )
    ]

-- A step keeps the account, whichever statement it is.
pub Step-IsAccounted : (s u : System) → Step s u → IsAccounted s.db → IsAccounted u.db
Step-IsAccounted s u (scheduled now q e) a = rw e (task_add-IsAccounted now (new_task q) s.db a)
Step-IsAccounted s u (canceled now id e) a = rw e (cancel-IsAccounted now id s.db a)
Step-IsAccounted s u (scanned now locked n e) a = rw e (task_search-IsAccounted now locked n s.db a)
Step-IsAccounted s u (logged id begin finish o x at fresh e) a =
    rw e (exec_log-IsAccounted x.task begin finish o s.db a)
Step-IsAccounted s u (finished now id o x at done e) a =
    rw e (exec_finish-IsAccounted now x.task o s.db a).1
Step-IsAccounted s u (crashed e) a = rw e a

-- Starting from empty tables, whatever is scheduled, cancelled and executed, in whatever order the statements come, and even if
-- processes die: every id that the sequence has given out stands in exactly one row of `task_pending` and
-- `task_arch` together, and no other id does.
pub Reachable-IsAccounted : (s : System) → Reachable s → IsAccounted s.db
Reachable-IsAccounted s here = record { started = omega arith; once = λ i. ground arith }
Reachable-IsAccounted s (next {s = before} r st) =
    Step-IsAccounted before s st (Reachable-IsAccounted before r)
