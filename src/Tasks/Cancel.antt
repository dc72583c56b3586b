-- ===== src/Tasks/Cancel.antt =====
-- `TaskManager.cancel` of ipapp/task/db.py: which tasks it can cancel, and what becomes of them.
use ipapp.Common.{
  ℕ, ◌≡◌, refl, Bool, true, false, Option, none, some, List, [], ◌∷◌, ◌++◌, arith, if◌then◌else◌,
  inl, inr, Option-cases, ap, ◌∙◌,
}
use ipapp.Common.Exec.{Result, ok}
use ipapp.Tasks.{
  Status, Row, Tables, DbError, is_waiting, mark_progress, arch_row, claim_one, delete_rows,
  task_move_arch, task_search4cancel,
}
use ipapp.Tasks.Manager.{cancel, has_trace}
use ipapp.Tasks.Ledger.{
  IsAccounted, IsAccounted-DistinctIds, task_move_arch_lem, task_search4cancel-IsAccounted,
}
use ipapp.Tasks.At.{claim_one_at, claim_one_found, delete_found, row_at-none}
use ipapp.Tasks.Claim.{row_at}

claim_one_unchanged :
    (now id : ℕ) (rs : List Row) → (claim_one now id rs).0 ≡ none → (claim_one now id rs).1 ≡ rs
unfolding claim_one
claim_one_unchanged now id [] h = refl
claim_one_unchanged now id (r ∷ rs) h = ground (arith, claim_one_unchanged now id rs)

delete-claim_one :
    (now id : ℕ) (rs : List Row)
    → (delete_rows id (claim_one now id rs).1).1 ≡ (delete_rows id rs).1
unfolding claim_one delete_rows
delete-claim_one now id [] = refl
delete-claim_one now id (r ∷ rs) = ground (arith, delete-claim_one now id rs)

-- The task that `cancel` can cancel: the one of this id, while it waits for its first run or a retry.
abbrev pub cancelable : ℕ → Tables → Option Row
cancelable id db = elim (row_at id db.pending) [
  | none ↦ none
  | some r ↦ if is_waiting r.status then some r else none
]

-- What `cancel` does: no such task, and nothing has changed; or the row has moved to `task_arch`, with
-- the status `canceled` and the retries that it had.
abbrev pub canceled : ℕ → ℕ → Tables → Option Row → Result DbError Bool × Tables
canceled now id db none = (ok false, db)
canceled now id db (some r) = (
  ok true,
  record db {
    pending = (delete_rows id db.pending).1;
    arch = db.arch ++ arch_row now Status.canceled none (has_trace r) r ∷ [];
  },
)

search_none :
    (now id : ℕ) (db : Tables)
    → (claim_one now id db.pending).0 ≡ none
    → task_search4cancel now id db ≡ (none, db)
unfolding task_search4cancel
search_none now id db h = rw (h, claim_one_unchanged now id db.pending h)

search_some :
    (now id : ℕ) (db : Tables) (r : Row)
    → (claim_one now id db.pending).0 ≡ some (mark_progress now r)
    → (task_search4cancel now id db).0 ≡ some (mark_progress now r)
unfolding task_search4cancel
search_some now id db r h = h

claim_one-cancelable :
    (now id : ℕ) (db : Tables)
    → IsAccounted db
    → (claim_one now id db.pending).0
      ≡ (elim (cancelable id db) [ none ↦ none | some r ↦ some (mark_progress now r) ])
claim_one-cancelable now id db a =
    ground (arith, claim_one_found now id db.pending (IsAccounted-DistinctIds db a))

row_at-claimed :
    (now id : ℕ) (db : Tables) (r : Row)
    → cancelable id db ≡ some r
    → row_at id (claim_one now id db.pending).1 ≡ some (mark_progress now r)
row_at-claimed now id db r waits = ground (arith, claim_one_at id now id db.pending)

-- The row that the archive statement of `cancel` finds is the one that its search has marked.
move_claimed :
    (now id : ℕ) (db : Tables) (r : Row)
    → IsAccounted db
    → cancelable id db ≡ some r
    → task_move_arch now id Status.canceled none (has_trace r) (task_search4cancel now id db).1
      ≡ (ok tt, (canceled now id db (some r)).1)
unfolding task_search4cancel
move_claimed now id db r a waits =
    elim (task_move_arch_lem now id Status.canceled none (has_trace r)
      (task_search4cancel now id db).1 (task_search4cancel-IsAccounted now id db a)) [
        | inl (eq, absent) ↦ absurd (
            cc (
              row_at-none id (claim_one now id db.pending).1 absent,
              row_at-claimed now id db r waits,
            ))
        | inr (r', gone, same, once, eq) ↦
            let here : r' ≡ mark_progress now r = cc (
              delete_found id (claim_one now id db.pending).1 r' gone,
              row_at-claimed now id db r waits,
            ) in
            eq ∙ rw (here, delete-claim_one)
      ]

-- On tables with every task in one place, `cancel` answers whether a task of this id waits. If one does,
-- it moves to `task_arch` as canceled; otherwise, also if it is in progress, nothing changes.
pub cancel_lem :
    (now id : ℕ) (db : Tables)
    → IsAccounted db
    → cancel now id db ≡ canceled now id db (cancelable id db)
unfolding cancel
cancel_lem now id db a = elim (Option-cases (cancelable id db)) [
  | inl nobody ↦
      let unclaimed : (claim_one now id db.pending).0 ≡ none =
        rw nobody at (claim_one-cancelable now id db a) in
      rw nobody (
        rw (ap (λ (p : Option Row × Tables). p.0) (search_none now id db unclaimed), cancel)
          (rw (ap (λ (p : Option Row × Tables). p.1) (search_none now id db unclaimed))))
  | inr (r, waits) ↦ rw waits (
      rw (search_some now id db r (rw waits at (claim_one-cancelable now id db a)), cancel)
        (rw (move_claimed now id db r a waits) (rw (move_claimed now id db r a waits))))
]
