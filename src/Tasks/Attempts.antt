-- ===== src/Tasks/Attempts.antt =====
-- How often a task of ipapp/task/db.py runs: the rows of the log, counted against `retries` and
-- `max_retries`, under every order of the managers' statements.
use ipapp.Common.{
  ℕ, ◌+◌, ◌≤◌, ◌≡◌, refl, Bool, true, false, Option, none, some, [], ◌∷◌, ◌++◌, arith, leb, inl,
  inr, Option-cases, Bool-cases, map, ◌⊎◌,
}
use ipapp.Tasks.{
  Status, Row, Tables, is_waiting, new_row, arch_row, claim, task_log_add, task_retry, task_search,
  task_add, task_move_arch,
}
use ipapp.Tasks.Manager.{
  Request, Outcome, returned, retry_raised, raised, cancel, exec_log, exec_finish, new_task,
  next_retries, log_row, has_trace,
}
use ipapp.Tasks.Ledger.{IsAccounted, IsAccounted-DistinctIds, task_add_lem, task_move_arch_lem}
use ipapp.Tasks.At.{
  logs_of, logs_of-snoc, row_at-snoc, row_at-none, row_at-id, claim_at, retry_at, delete_at,
  delete_found, run_at-append, run_at-set_outcome, run_at-forget, run_at-id,
}
use ipapp.Tasks.Claim.{row_at}
use ipapp.Tasks.System.{
  System, Running, run_at, begun, set_outcome, forget, Step, scheduled, canceled, scanned, logged,
  finished, crashed, Reachable, here, next,
}
use ipapp.Tasks.Conserved.{Reachable-IsAccounted}
use ipapp.Tasks.Cancel.{cancel_lem, cancelable}

-- How the row of a task in each table, its `_exec` and the number of its rows in the log belong together:
-- a task that was never added has none; an archived one has run at most `max_retries + 1` times; a
-- waiting one has run as often as `retries` says, so another run is left to it; one in progress has
-- run once more after its row is in the log, and if its process died it may be in progress for ever.
abbrev pub Agrees : Option Row → Option Row → Option Running → ℕ → Type 0
Agrees none none none l = l ≡ 0
Agrees none (some r) none l = l ≤ r.max_retries + 1
Agrees (some r) none none l =
    (is_waiting r.status ≡ true → (l ≡ next_retries r.retries) × (l ≤ r.max_retries))
    × (l ≤ r.max_retries + 1)
Agrees (some r) none (some x) l =
    (r.status ≡ Status.progress)
    × (x.task.max_retries ≡ r.max_retries)
    × (next_retries x.task.retries ≤ r.max_retries)
    × (l ≡ (elim x.outcome [
      | none ↦ next_retries x.task.retries
      | some _ ↦ next_retries x.task.retries + 1
    ]))
Agrees _ _ _ l = ⊥

record IsCounted (s : System) : Type 0 where
  at :
      (i : ℕ)
      → Agrees
          (row_at i s.db.pending)
          (row_at i s.db.arch)
          (run_at i s.running)
          (logs_of i s.db.log)

scheduled-IsCounted :
    (now : ℕ) (s : System) (db : Tables) (r : Row)
    → r.id ≡ s.db.seq
    → r.status ≡ Status.pending
    → r.retries ≡ none
    → row_at r.id s.db.pending ≡ none
    → row_at r.id s.db.arch ≡ none
    → IsCounted s
    → IsCounted
        (record s { db = record s.db { seq = s.db.seq + 1; pending = s.db.pending ++ r ∷ [] } })
scheduled-IsCounted now s db r fresh new unrun p a h = record {
  at = λ i. ground (arith, h.at i, row_at-snoc i s.db.pending r);
}

canceled-IsCounted :
    (now id : ℕ) (s : System)
    → IsAccounted s.db
    → IsCounted s
    → IsCounted (record s { db = (cancel now id s.db).1 })
canceled-IsCounted now id s a h = elim (Option-cases (cancelable id s.db)) [
  | inl nobody ↦ rw (cancel_lem now id s.db a) (rw nobody (record { at = h.at }))
  | inr (r, waits) ↦ rw (cancel_lem now id s.db a) (
      rw waits (record {
        at = λ i. ground (
          arith,
          h.at i,
          row_at-id id s.db.pending r,
          delete_at i id s.db.pending,
          row_at-snoc i s.db.arch (arch_row now Status.canceled none (has_trace r) r),
        );
      }))
]

scanned-IsCounted :
    (now : ℕ) (locked : ℕ → Bool) (n : ℕ) (s : System)
    → IsAccounted s.db
    → IsCounted s
    → IsCounted (record {
      db = (task_search now locked n s.db).1;
      running = s.running ++ map begun (task_search now locked n s.db).0;
    })
unfolding task_search
scanned-IsCounted now locked n s a h = record {
  at = λ i. elim (claim_at i now locked n s.db.pending (IsAccounted-DistinctIds s.db a)) [
    | inl (unfound, same) ↦
        ground (arith, h.at i, run_at-append i s.running (claim now locked n s.db.pending).0)
    | inr (r, was, waits, found, same) ↦
        ground (arith, h.at i, run_at-append i s.running (claim now locked n s.db.pending).0)
  ];
}

logged-IsCounted :
    (id begin finish : ℕ) (o : Outcome) (x : Running) (s : System)
    → run_at id s.running ≡ some x
    → x.outcome ≡ none
    → IsCounted s
    → IsCounted
        (record { db = exec_log x.task begin finish o s.db; running = set_outcome id o s.running })
unfolding exec_log task_log_add
logged-IsCounted id begin finish o x s found fresh h = record {
  at = λ i. ground (
    arith,
    h.at i,
    run_at-id id s.running x,
    log_id x.task begin finish o,
    logs_of-snoc i s.db.log (log_row x.task begin finish o),
    run_at-set_outcome i id o s.running,
  );
}
  where
    log_id : (t : Row) (begin finish : ℕ) (o : Outcome) → (log_row t begin finish o).task_id ≡ t.id
    log_id t begin finish (returned res) = refl
    log_id t begin finish (retry_raised m trace) = refl
    log_id t begin finish (raised m trace) = refl

-- `_exec` moves its row to the archive.
archived-IsCounted :
    (now id : ℕ) (status : Status) (retries : Option ℕ) (traced : Bool) (o : Outcome) (x : Running)
    (s : System)
    → run_at id s.running ≡ some x
    → x.outcome ≡ some o
    → IsAccounted s.db
    → IsCounted s
    → IsCounted (record {
      db = (task_move_arch now x.task.id status retries traced s.db).1;
      running = forget id s.running;
    })
archived-IsCounted now id status retries traced o x s found done a h =
    elim (task_move_arch_lem now x.task.id status retries traced s.db a) [
      | inl (eq, absent) ↦
          absurd
            (ground (arith, h.at id, run_at-id id s.running x found, row_at-none id s.db.pending))
      | inr (r, gone, same, once, eq) ↦ rw eq (record {
        at = λ i. ground (
          arith,
          h.at i,
          run_at-id id s.running x,
          delete_found x.task.id s.db.pending r gone,
          delete_at i x.task.id s.db.pending,
          run_at-forget i id s.running,
          row_at-snoc i s.db.arch (arch_row now status retries traced r),
        );
      })
    ]

retried-IsCounted :
    (now id d : ℕ) (o : Outcome) (x : Running) (s : System)
    → run_at id s.running ≡ some x
    → x.outcome ≡ some o
    → leb x.task.max_retries (next_retries x.task.retries) ≡ false
    → IsCounted s
    → IsCounted (record {
      db = task_retry now x.task.id (next_retries x.task.retries) (some d) s.db;
      running = forget id s.running;
    })
unfolding task_retry
retried-IsCounted now id d o x s found done again h = record {
  at = λ i. ground (
    arith,
    h.at i,
    run_at-id id s.running x,
    retry_at i now x.task.id (next_retries x.task.retries) (some d) s.db.pending,
    run_at-forget i id s.running,
  );
}

crashed-IsCounted : (s : System) → IsCounted s → IsCounted (record s { running = [] })
crashed-IsCounted s h = record { at = λ i. ground (arith, h.at i) }

finished-IsCounted :
    (now id : ℕ) (o : Outcome) (x : Running) (s : System)
    → run_at id s.running ≡ some x
    → x.outcome ≡ some o
    → IsAccounted s.db
    → IsCounted s
    → IsCounted (record { db = (exec_finish now x.task o s.db).1; running = forget id s.running })
unfolding exec_finish
finished-IsCounted now id (returned res) x s found done a h =
    archived-IsCounted now id Status.successful _ _ (returned res) x s found done a h
finished-IsCounted now id (raised message trace) x s found done a h =
    archived-IsCounted now id Status.error _ _ (raised message trace) x s found done a h
finished-IsCounted now id (retry_raised message trace) x s found done a h =
    elim (Bool-cases (leb x.task.max_retries (next_retries x.task.retries))) [
      | inl last ↦ rw last (
          archived-IsCounted now id Status.error _ _ (retry_raised message trace) x s found done a
            h)
      | inr again ↦ rw again (
          retried-IsCounted now id x.task.retry_delay (retry_raised message trace) x s found done
            again h)
    ]

add-IsCounted :
    (now : ℕ) (q : Request) (s : System)
    → IsAccounted s.db
    → IsCounted s
    → IsCounted (record s { db = (task_add now (new_task q) s.db).1 })
add-IsCounted now q s a h = rw (task_add_lem now (new_task q) s.db a) (
    scheduled-IsCounted now s s.db (new_row now s.db.seq (new_task q)) refl refl refl
      (row_at-none s.db.seq s.db.pending (ground (arith, a.once s.db.seq)))
      (row_at-none s.db.seq s.db.arch (ground (arith, a.once s.db.seq))) h)

Step-IsCounted : (s u : System) → Step s u → IsAccounted s.db → IsCounted s → IsCounted u
Step-IsCounted s u (scheduled now q e) a h = rw e (add-IsCounted now q s a h)
Step-IsCounted s u (canceled now id e) a h = rw e (canceled-IsCounted now id s a h)
Step-IsCounted s u (scanned now locked n e) a h = rw e (scanned-IsCounted now locked n s a h)
Step-IsCounted s u (logged id begin finish o x found fresh e) a h =
    rw e (logged-IsCounted id begin finish o x s found fresh h)
Step-IsCounted s u (finished now id o x found done e) a h =
    rw e (finished-IsCounted now id o x s found done a h)
Step-IsCounted s u (crashed e) a h = rw e (crashed-IsCounted s h)

Reachable-IsCounted : (s : System) → Reachable s → IsCounted s
Reachable-IsCounted s here = record { at = λ i. refl }
Reachable-IsCounted s (next {s = before} r st) =
    Step-IsCounted before s st (Reachable-IsAccounted before r) (Reachable-IsCounted before r)

-- In every state that can come about from empty tables, a task has run at most `max_retries + 1` times,
-- by the rows of the log, whether it is still in `task_pending` or archived.
pub attempts_bound :
    (s : System) (i : ℕ) (r : Row)
    → Reachable s
    → (row_at i s.db.pending ≡ some r) ⊎ (row_at i s.db.arch ≡ some r)
    → logs_of i s.db.log ≤ r.max_retries + 1
attempts_bound s i r reach (inl p) = ground (arith, (Reachable-IsCounted s reach).at i)
attempts_bound s i r reach (inr p) = ground (arith, (Reachable-IsCounted s reach).at i)

-- In every state that can come about from empty tables, a task that waits for its first run or a retry has run exactly as often as its
-- `retries` says (never, if that is NULL; once more than its number otherwise), and may run again.
pub waiting_attempts :
    (s : System) (i : ℕ) (r : Row)
    → Reachable s
    → row_at i s.db.pending ≡ some r
    → is_waiting r.status ≡ true
    → (logs_of i s.db.log ≡ next_retries r.retries) × (logs_of i s.db.log ≤ r.max_retries)
waiting_attempts s i r reach p waits = ground (arith, (Reachable-IsCounted s reach).at i)
