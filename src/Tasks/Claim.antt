-- ===== src/Tasks/Claim.antt =====
-- `Db.task_search` of ipapp/task/db.py: what a scan takes, what it leaves, and that no row is taken twice.
use ipapp.Common.{
  ℕ, ◌-◌, ◌≤◌, ◌<◌, ◌≡◌, refl, Bool, true, false, ◌&&◌, List, [], ◌∷◌, map, arith, inl, inr,
  Bool-cases, ltb, if◌then◌else◌, eqb, Option, none, some, ◌⊎◌,
}
use ipapp.Common.Lists.{All, length}
use ipapp.Tasks.{Status, Row, Tables, is_due, is_waiting, mark_progress, has_id, claim, task_search}

abbrev pub row_at : ℕ → List Row → Option Row
row_at i [] = none
row_at i (r ∷ rs) = if eqb r.id i then some r else row_at i rs

-- A row as a scan at `now` hands it out: it was in the table, waiting, due and not locked, and it is the row that was
-- there but for the status and the stamp.
pub record IsClaimed (now : ℕ) (locked : ℕ → Bool) (table : List Row) (r : Row) : Type 0 where
  pub was : Row
  pub in_table : row_at was.id table ≡ some was
  pub waiting : (was.status ≡ Status.pending) ⊎ (was.status ≡ Status.retry)
  pub due : was.eta < now
  pub not_locked : locked was.id ≡ false
  pub in_progress : r ≡ record was { status = Status.progress; last_stamp = now }

-- The rows of a table have different ids: `task_pending_pkey`.
abbrev pub DistinctIds : List Row → Type 0
DistinctIds [] = Unit
DistinctIds (r ∷ rs) = (has_id r.id rs ≡ false) × DistinctIds rs

abbrev pub ids : List Row → List ℕ
ids rs = map (λ r. r.id) rs

-- A table has this row under its id.
abbrev IsIn : List Row → Row → Type 0
IsIn table r = row_at r.id table ≡ some r

IsIn-cons :
    (r : Row) (table rs : List Row)
    → has_id r.id rs ≡ false
    → All (IsIn table) rs
    → All (IsIn (r ∷ table)) rs
IsIn-cons r table [] new h = tt
IsIn-cons r table (x ∷ rs) new h = (ground (arith, h.0), IsIn-cons r table rs (ground arith) h.1)

DistinctIds-IsIn : (rs : List Row) → DistinctIds rs → All (IsIn rs) rs
DistinctIds-IsIn [] d = tt
DistinctIds-IsIn (r ∷ rs) d = (ground arith, IsIn-cons r rs rs d.0 (DistinctIds-IsIn rs d.1))

waits : (s : Status) → is_waiting s ≡ true → (s ≡ Status.pending) ⊎ (s ≡ Status.retry)
waits s h = ground (arith, h)

module _ (now : ℕ) (locked : ℕ → Bool) where
  abbrev found : ℕ → List Row → List Row
  found n rs = (claim now locked n rs).0

  abbrev left : ℕ → List Row → List Row
  left n rs = (claim now locked n rs).1

  length-claim : (n : ℕ) (rs : List Row) → length (found n rs) ≤ n
  unfolding claim
  length-claim n [] = omega arith
  length-claim n (r ∷ rs) = ground (arith, length-claim (n - 1) rs, length-claim n rs)

  claim-IsClaimed :
      (table : List Row) (n : ℕ) (rs : List Row)
      → All (IsIn table) rs
      → All (IsClaimed now locked table) (found n rs)
  unfolding claim
  claim-IsClaimed table n [] h = tt
  claim-IsClaimed table n (r ∷ rs) h = elim (Bool-cases (is_due now locked r && ltb 0 n)) [
    | inl take_it ↦
        rw (take_it, All)
          (
            record {
              was = r;
              in_table = h.0;
              waiting = waits r.status (ground arith);
              due = ground arith;
              not_locked = ground arith;
              in_progress = refl;
            },
            claim-IsClaimed table (n - 1) rs h.1,
          )
    | inr leave_it ↦ rw (leave_it, All) (claim-IsClaimed table n rs h.1)
  ]

  ids-claim : (n : ℕ) (rs : List Row) → ids (left n rs) ≡ ids rs
  unfolding claim
  ids-claim n [] = refl
  ids-claim n (r ∷ rs) = ground (arith, ids-claim (n - 1) rs, ids-claim n rs)

  has_id-claim : (i n : ℕ) (rs : List Row) → has_id i (left n rs) ≡ has_id i rs
  unfolding claim
  has_id-claim i n [] = refl
  has_id-claim i n (r ∷ rs) = ground (arith, has_id-claim i (n - 1) rs, has_id-claim i n rs)

  pub has_id-found : (i n : ℕ) (rs : List Row) → has_id i (found n rs) ≡ true → has_id i rs ≡ true
  unfolding claim
  has_id-found i n [] h = cc
  has_id-found i n (r ∷ rs) h = ground (arith, has_id-found i (n - 1) rs, has_id-found i n rs)

  -- A scan that returns fewer rows than it may has left no due row.
  claim_complete :
      (n : ℕ) (rs : List Row)
      → length (found n rs) < n
      → All (λ r. is_due now locked r ≡ false) (left n rs)
  unfolding claim
  claim_complete n [] h = tt
  claim_complete n (r ∷ rs) h = ground (arith, claim_complete (n - 1) rs, claim_complete n rs)

  not_due_progress : (r : Row) → r.status ≡ Status.progress → is_due now locked r ≡ false
  not_due_progress r h = ground arith

-- Two scans in a row: what the first took, the second does not.
claim-exclusive :
    (now now' : ℕ) (locked locked' : ℕ → Bool) (n n' i : ℕ) (rs : List Row)
    → DistinctIds rs
    → has_id i (claim now locked n rs).0 ≡ true
    → has_id i (claim now' locked' n' (claim now locked n rs).1).0 ≡ false
unfolding claim
claim-exclusive now now' locked locked' n n' i [] d h = refl
claim-exclusive now now' locked locked' n n' i (r ∷ rs) d h = ground (
  arith,
  claim-exclusive now now' locked locked' (n - 1) n' i rs d.1,
  claim-exclusive now now' locked locked' n n' i rs d.1,
  claim-exclusive now now' locked locked' (n - 1) (n' - 1) i rs d.1,
  claim-exclusive now now' locked locked' n (n' - 1) i rs d.1,
  has_id-found now' locked' i n' (claim now locked (n - 1) rs).1,
  has_id-claim now locked i (n - 1) rs,
  has_id-found now locked i n rs,
)

-- The table with exactly the rows of `taken` marked.
abbrev pub marked : ℕ → List Row → List Row → List Row
marked now taken [] = []
marked now taken (r ∷ rs) =
    (if has_id r.id taken then mark_progress now r else r) ∷ marked now taken rs

-- A row whose id the table does not hold marks nothing in it.
marked_other :
    (now : ℕ) (taken rs : List Row) (t : Row)
    → has_id t.id rs ≡ false
    → marked now (t ∷ taken) rs ≡ marked now taken rs
marked_other now taken [] t h = refl
marked_other now taken (r ∷ rs) t h = ground (arith, marked_other now taken rs t)

claim-marked :
    (now : ℕ) (locked : ℕ → Bool) (n : ℕ) (rs : List Row)
    → DistinctIds rs
    → (claim now locked n rs).1 ≡ marked now (claim now locked n rs).0 rs
unfolding claim
claim-marked now locked n [] d = refl
claim-marked now locked n (r ∷ rs) d = ground (
  arith,
  claim-marked now locked (n - 1) rs d.1,
  claim-marked now locked n rs d.1,
  marked_other now (claim now locked (n - 1) rs).0 rs (mark_progress now r),
  has_id-found now locked r.id n rs,
)

-- A scan hands out at most `batch_size` rows; each is a row that the table had, waiting, due and not locked, but now in
-- progress and stamped; in the table it marks those rows and changes no other.
pub task_search-claims :
    (now : ℕ) (locked : ℕ → Bool) (batch_size : ℕ) (db : Tables)
    → DistinctIds db.pending
    → let (tasks, db') = task_search now locked batch_size db in
      (length tasks ≤ batch_size)
      × All (IsClaimed now locked db.pending) tasks
      × (db' ≡ record db { pending = marked now tasks db.pending })
unfolding task_search
task_search-claims now locked batch_size db d = (
  length-claim now locked batch_size db.pending,
  claim-IsClaimed now locked db.pending batch_size db.pending (DistinctIds-IsIn db.pending d),
  rw (← claim-marked now locked batch_size db.pending d),
)

-- A scan that hands out fewer rows than it may leaves no row that is due, waiting and not locked.
pub task_search_complete :
    (now : ℕ) (locked : ℕ → Bool) (batch_size : ℕ) (db : Tables)
    → length (task_search now locked batch_size db).0 < batch_size
    → All (λ r. is_due now locked r ≡ false) (task_search now locked batch_size db).1.pending
unfolding task_search
task_search_complete now locked batch_size db h = claim_complete now locked batch_size db.pending h

-- A task that one scan hands out, the next scan does not, whenever that runs, whatever it may take and
-- whatever is locked then.
pub task_search-exclusive :
    (now now' : ℕ) (locked locked' : ℕ → Bool) (batch_size batch_size' i : ℕ) (db : Tables)
    → DistinctIds db.pending
    → has_id i (task_search now locked batch_size db).0 ≡ true
    → has_id i (task_search now' locked' batch_size' (task_search now locked batch_size db).1).0
      ≡ false
unfolding task_search
task_search-exclusive now now' locked locked' n n' i db d h =
    claim-exclusive now now' locked locked' n n' i db.pending d h
