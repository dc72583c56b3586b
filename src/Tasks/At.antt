-- ===== src/Tasks/At.antt =====
-- The row of a given id, before and after each statement of ipapp/task/db.py.
use ipapp.Common.{
  ℕ, suc, ◌-◌, ◌≡◌, refl, Bool, true, false, ◌&&◌, Option, none, some, List, [], ◌∷◌, ◌++◌, map,
  arith, ◌⊎◌, inl, inr, Bool-cases, eqb, ltb, if◌then◌else◌,
}
use ipapp.Tasks.{
  Row, LogRow, is_waiting, is_due, has_id, mark_progress, put_off, claim, claim_one, retry_row,
  delete_rows,
}
use ipapp.Tasks.Claim.{row_at, DistinctIds, has_id-found}
use ipapp.Tasks.Ledger.{count_id}
use ipapp.Tasks.System.{Running, run_at, begun, set_outcome, forget}
use ipapp.Tasks.Manager.{Outcome}

abbrev pub logs_of : ℕ → List LogRow → ℕ
logs_of i [] = 0
logs_of i (l ∷ ls) = let rest = logs_of i ls in if eqb l.task_id i then suc rest else rest

pub logs_of-snoc :
    (i : ℕ) (ls : List LogRow) (l : LogRow)
    → logs_of i (ls ++ l ∷ []) ≡ (if eqb l.task_id i then suc (logs_of i ls) else logs_of i ls)
logs_of-snoc i [] l = ground arith
logs_of-snoc i (x ∷ ls) l = ground (arith, logs_of-snoc i ls l)

pub row_at-snoc :
    (i : ℕ) (rs : List Row) (r : Row)
    → row_at i (rs ++ r ∷ [])
      ≡ (elim (row_at i rs) [ some x ↦ some x | none ↦ if eqb r.id i then some r else none ])
row_at-snoc i [] r = ground arith
row_at-snoc i (x ∷ rs) r = ground (arith, row_at-snoc i rs r)

pub row_at-none : (i : ℕ) (rs : List Row) → count_id i rs ≡ 0 → row_at i rs ≡ none
row_at-none i [] h = refl
row_at-none i (r ∷ rs) h = ground (arith, row_at-none i rs)

pub row_at-id : (i : ℕ) (rs : List Row) (r : Row) → row_at i rs ≡ some r → r.id ≡ i
row_at-id i [] r h = cc
row_at-id i (x ∷ rs) r h = ground (arith, row_at-id i rs r)

pub row_at-has_id : (i : ℕ) (rs : List Row) → has_id i rs ≡ false → row_at i rs ≡ none
row_at-has_id i [] h = refl
row_at-has_id i (r ∷ rs) h = ground (arith, row_at-has_id i rs)

-- What a scan does to the row of one id: nothing, or it hands it out, marked.
pub claim_at :
    (i now : ℕ) (locked : ℕ → Bool) (n : ℕ) (rs : List Row)
    → DistinctIds rs
    → let (found, rest) = claim now locked n rs in
      ((row_at i found ≡ none) × (row_at i rest ≡ row_at i rs))
      ⊎ ((r : Row) × (row_at i rs ≡ some r)
          × (is_waiting r.status ≡ true)
          × (row_at i found ≡ some (mark_progress now r))
          × (row_at i rest ≡ some (mark_progress now r)))
unfolding claim
claim_at i now locked n [] d = inl (refl, refl)
claim_at i now locked n (r ∷ rs) d = elim (Bool-cases (is_due now locked r && ltb 0 n)) [
  | inl take_it ↦ elim (Bool-cases (eqb r.id i)) [
    | inl here ↦ inr (r, ground arith, ground arith, ground arith, ground arith)
    | inr there ↦ elim (claim_at i now locked (n - 1) rs d.1) [
      | inl (a, b) ↦ inl (ground arith, ground arith)
      | inr (x, a, b, c, e) ↦ inr (x, ground arith, b, ground arith, ground arith)
    ]
  ]
  | inr leave_it ↦ elim (Bool-cases (eqb r.id i)) [
    | inl here ↦ inl (
      ground (arith, has_id-found now locked i n rs, row_at-has_id i (claim now locked n rs).0),
      ground arith,
    )
    | inr there ↦ elim (claim_at i now locked n rs d.1) [
      | inl (a, b) ↦ inl (ground arith, ground arith)
      | inr (x, a, b, c, e) ↦ inr (x, ground arith, b, ground arith, ground arith)
    ]
  ]
]

pub claim_one_at :
    (i now id : ℕ) (rs : List Row)
    → row_at i (claim_one now id rs).1 ≡ (elim (row_at i rs) [
      | none ↦ none
      | some r ↦ if eqb id i && is_waiting r.status then some (mark_progress now r) else some r
    ])
unfolding claim_one
claim_one_at i now id [] = refl
claim_one_at i now id (r ∷ rs) = ground (arith, claim_one_at i now id rs)

pub claim_one_found :
    (now id : ℕ) (rs : List Row)
    → DistinctIds rs
    → (claim_one now id rs).0 ≡ (elim (row_at id rs) [
      | none ↦ none
      | some r ↦ if is_waiting r.status then some (mark_progress now r) else none
    ])
unfolding claim_one
claim_one_found now id [] d = refl
claim_one_found now id (r ∷ rs) d =
    ground (arith, claim_one_found now id rs d.1, row_at-has_id id rs)

pub retry_at :
    (i now id retries : ℕ) (d : Option ℕ) (rs : List Row)
    → row_at i (retry_row now id retries d rs) ≡ (elim (row_at i rs) [
      | none ↦ none
      | some r ↦ some (if eqb id i then put_off now retries d r else r)
    ])
unfolding retry_row
retry_at i now id retries d [] = refl
retry_at i now id retries d (r ∷ rs) = ground (arith, retry_at i now id retries d rs)

pub delete_at :
    (i id : ℕ) (rs : List Row)
    → row_at i (delete_rows id rs).1 ≡ (if eqb id i then none else row_at i rs)
unfolding delete_rows
delete_at i id [] = ground arith
delete_at i id (r ∷ rs) = ground (arith, delete_at i id rs)

pub delete_found :
    (id : ℕ) (rs : List Row) (r : Row) → (delete_rows id rs).0 ≡ r ∷ [] → row_at id rs ≡ some r
unfolding delete_rows
delete_found id [] r h = cc
delete_found id (x ∷ rs) r h = ground (arith, delete_found id rs r)

pub run_at-append :
    (i : ℕ) (xs : List Running) (rs : List Row)
    → run_at i (xs ++ map begun rs) ≡ (elim (run_at i xs) [
      | some x ↦ some x
      | none ↦ elim (row_at i rs) [ none ↦ none | some r ↦ some (begun r) ]
    ])
run_at-append i [] [] = refl
run_at-append i [] (r ∷ rs) = ground (arith, run_at-append i [] rs)
run_at-append i (x ∷ xs) rs = ground (arith, run_at-append i xs rs)

pub run_at-set_outcome :
    (i id : ℕ) (o : Outcome) (xs : List Running)
    → run_at i (set_outcome id o xs) ≡ (elim (run_at i xs) [
      | none ↦ none
      | some x ↦ some (if eqb id i then record x { outcome = some o } else x)
    ])
run_at-set_outcome i id o [] = refl
run_at-set_outcome i id o (x ∷ xs) = ground (arith, run_at-set_outcome i id o xs)

pub run_at-forget :
    (i id : ℕ) (xs : List Running)
    → run_at i (forget id xs) ≡ (if eqb id i then none else run_at i xs)
run_at-forget i id [] = ground arith
run_at-forget i id (x ∷ xs) = ground (arith, run_at-forget i id xs)

pub run_at-id : (i : ℕ) (xs : List Running) (x : Running) → run_at i xs ≡ some x → x.task.id ≡ i
run_at-id i [] x h = cc
run_at-id i (y ∷ xs) x h = ground (arith, run_at-id i xs x)
