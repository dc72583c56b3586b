-- ===== src/Tasks.antt =====
-- ipapp/task/db.py: the task manager's rows and tables, and the statements that its class `Db` sends
-- to the database. A stamp or an interval is a number of microseconds, as the database keeps it.
pub mod Manager
pub mod Claim
pub mod System
pub mod At
pub mod Conserved
pub mod Cancel
pub mod Ledger
pub mod Attempts
pub mod Delay
pub mod Cron
mod Tests
use ipapp.Common.{
  ℕ, zero, suc, ◌+◌, ◌-◌, String, Bool, true, false, ◌&&◌, ◌||◌, not, Option, none, some, List, [],
  ◌∷◌, ◌++◌, eqb, ltb, leb, if◌then◌else◌,
}
use ipapp.Common.Int.{ℤ, sub_ℕ}
use ipapp.Common.Exec.{Result, ok, err}

-- the type `task_status` of `CREATE_TABLE_QUERY`
pub data Status : Type 0 where
  pending progress successful error retry canceled : Status

-- A row of `task_pending` or `task_arch`. `params` is the text of the jsonb column.
pub record Row : Type 0 where
  pub id : ℕ
  pub reference : Option String
  pub eta : ℕ
  pub name : String
  pub params : String
  pub max_retries : ℕ
  pub retry_delay : ℕ
  pub status : Status
  pub last_stamp : ℕ
  pub retries : Option ℕ
  pub trace_id : Option String
  pub trace_span_id : Option String

-- A row of `task_log`.
pub record LogRow : Type 0 where
  pub task_id : ℕ
  pub eta : ℕ
  pub started : ℕ
  pub finished : ℕ
  pub result : Option String
  pub error : Option String
  pub traceback : Option String

-- The tables, in the order in which the database scans them; `seq` is the next value of
-- `task_id_seq`, and `cron_tick` the stamp in `task_cron_tick`.
pub record Tables : Type 0 where
  pub seq : ℕ
  pub pending : List Row
  pub arch : List Row
  pub log : List LogRow
  pub cron_tick : Option ℕ

abbrev pub empty : Tables
empty = record { seq = 1; pending = []; arch = []; log = []; cron_tick = none }

pub data DbError : Type 0 where
  unique_violation : DbError

-- `status=ANY(ARRAY['pending','retry'])`
abbrev pub is_waiting : Status → Bool
is_waiting pending = true
is_waiting retry = true
is_waiting _ = false

abbrev pub has_id : ℕ → List Row → Bool
has_id i [] = false
has_id i (r ∷ rs) = eqb r.id i || has_id i rs

abbrev pub coalesce : {A : Type 0} → Option A → A → A
coalesce none d = d
coalesce (some a) d = a

-- What `Db.task_add` is called with.
pub record NewTask : Type 0 where
  pub eta : Option ℕ
  pub name : String
  pub params : String
  pub reference : Option String
  pub max_retries : ℕ
  pub retry_delay : ℕ
  pub trace_id : Option String
  pub trace_span_id : Option String

abbrev pub new_row : ℕ → ℕ → NewTask → Row
new_row now id t = record {
  id = id;
  reference = t.reference;
  eta = coalesce t.eta now;
  name = t.name;
  params = t.params;
  max_retries = t.max_retries;
  retry_delay = t.retry_delay;
  status = Status.pending;
  last_stamp = now;
  retries = none;
  trace_id = t.trace_id;
  trace_span_id = elim t.trace_id [ none ↦ none | some _ ↦ t.trace_span_id ];
}

-- `Db.task_add` at the time `now`: the new id, and the delay until the task is due.
unfoldable pub task_add : ℕ → NewTask → Tables → Result DbError (ℕ × ℕ) × Tables
task_add now t db =
    let row = new_row now db.seq t in
    if has_id row.id db.pending then (err unique_violation, record db { seq = db.seq + 1 }) else (
      ok (row.id, row.eta - now),
      record db { seq = db.seq + 1; pending = db.pending ++ row ∷ [] },
    )

-- `WHERE eta<NOW() AND status=ANY(...)`, for a row that no other session has locked
abbrev pub is_due : ℕ → (ℕ → Bool) → Row → Bool
is_due now locked r = ltb r.eta now && is_waiting r.status && not (locked r.id)

abbrev pub mark_progress : ℕ → Row → Row
mark_progress now r = record r { status = Status.progress; last_stamp = now }

-- The statement of `Db.task_search` over the rows of `task_pending`: those that it returns, and
-- the table that it leaves. `LIMIT` counts the due rows in the order of the scan.
unfoldable pub claim : ℕ → (ℕ → Bool) → ℕ → List Row → List Row × List Row
claim now locked n [] = ([], [])
claim now locked n (r ∷ rs) =
    let take_it = is_due now locked r && ltb 0 n in
    let (found, rest) = claim now locked (if take_it then n - 1 else n) rs in
    if take_it then (mark_progress now r ∷ found, mark_progress now r ∷ rest) else (found, r ∷ rest)

-- `Db.task_search`
unfoldable pub task_search : ℕ → (ℕ → Bool) → ℕ → Tables → List Row × Tables
unfolding claim
task_search now locked batch_size db =
    let (found, rest) = claim now locked batch_size db.pending in
    (found, record db { pending = rest })

-- The statement of `Db.task_search4cancel`: `UPDATE ... WHERE id=$1 AND status IN (...) RETURNING *`.
unfoldable pub claim_one : ℕ → ℕ → List Row → Option Row × List Row
claim_one now id [] = (none, [])
claim_one now id (r ∷ rs) =
    let (found, rest) = claim_one now id rs in
    if eqb r.id id && is_waiting r.status
    then (some (mark_progress now r), mark_progress now r ∷ rest)
    else (found, r ∷ rest)

-- `Db.task_search4cancel`
unfoldable pub task_search4cancel : ℕ → ℕ → Tables → Option Row × Tables
unfolding claim_one
task_search4cancel now id db =
    let (found, rest) = claim_one now id db.pending in (found, record db { pending = rest })

-- the least `eta` of the rows that wait, `ORDER BY eta LIMIT 1 FOR SHARE SKIP LOCKED`
unfoldable pub least_eta : (ℕ → Bool) → List Row → Option ℕ
least_eta locked [] = none
least_eta locked (r ∷ rs) =
    let least = least_eta locked rs in
    if is_waiting r.status && not (locked r.id)
    then some (elim least [ none ↦ r.eta | some e ↦ if ltb e r.eta then e else r.eta ])
    else least

-- `Db.task_next_delay`: how far ahead the first task is, negative if it is late
unfoldable pub task_next_delay : ℕ → (ℕ → Bool) → Tables → Option ℤ
unfolding least_eta
task_next_delay now locked db = elim (least_eta locked db.pending) [
  | none ↦ none
  | some e ↦ some (sub_ℕ e now)
]

abbrev pub put_off : ℕ → ℕ → Option ℕ → Row → Row
put_off now retries eta_delay r = record r {
  status = Status.retry;
  retries = some retries;
  eta = elim eta_delay [ none ↦ r.eta | some d ↦ now + d ];
  last_stamp = now;
}

-- the statement of `Db.task_retry`
unfoldable pub retry_row : ℕ → ℕ → ℕ → Option ℕ → List Row → List Row
retry_row now id retries eta_delay [] = []
retry_row now id retries eta_delay (r ∷ rs) =
    (if eqb r.id id then put_off now retries eta_delay r else r)
    ∷ retry_row now id retries eta_delay rs

-- `Db.task_retry`
unfoldable pub task_retry : ℕ → ℕ → ℕ → Option ℕ → Tables → Tables
unfolding retry_row
task_retry now id retries eta_delay db = record db {
  pending = retry_row now id retries eta_delay db.pending;
}

-- `DELETE FROM task_pending WHERE id=$1 RETURNING ...`: the rows deleted, and those left
unfoldable pub delete_rows : ℕ → List Row → List Row × List Row
delete_rows id [] = ([], [])
delete_rows id (r ∷ rs) =
    let (gone, rest) = delete_rows id rs in
    if eqb r.id id then (r ∷ gone, rest) else (gone, r ∷ rest)

-- `SELECT ..., $2, COALESCE($3, retries), NOW(), ... FROM del`, with or without the trace columns
abbrev pub arch_row : ℕ → Status → Option ℕ → Bool → Row → Row
arch_row now status retries with_trace_id r = record r {
  status = status;
  retries = elim retries [ none ↦ r.retries | some n ↦ some n ];
  last_stamp = now;
  trace_id = if with_trace_id then r.trace_id else none;
  trace_span_id = if with_trace_id then r.trace_span_id else none;
}

abbrev insert_arch : ℕ → Status → Option ℕ → Bool → List Row → List Row → Result DbError (List Row)
insert_arch now status retries with_trace_id [] arch = ok arch
insert_arch now status retries with_trace_id (r ∷ gone) arch =
    let rest =
      insert_arch now status retries with_trace_id gone
        (arch ++ arch_row now status retries with_trace_id r ∷ []) in
    if has_id r.id arch then err unique_violation else rest

-- `Db.task_move_arch`; a statement that fails changes nothing.
unfoldable pub task_move_arch :
    ℕ → ℕ → Status → Option ℕ → Bool → Tables → Result DbError (Unit {0}) × Tables
unfolding delete_rows
task_move_arch now id status retries with_trace_id db =
    let (gone, rest) = delete_rows id db.pending in
    elim (insert_arch now status retries with_trace_id gone db.arch) [
      | ok arch ↦ (ok tt, record db { pending = rest; arch = arch })
      | err e ↦ (err e, db)
    ]

-- `Db.task_log_add`
unfoldable pub task_log_add : LogRow → Tables → Tables
task_log_add row db = record db { log = db.log ++ row ∷ [] }
