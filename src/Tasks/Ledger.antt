-- ===== src/Tasks/Ledger.antt =====
-- ipapp/task/db.py: every task that was ever added is in exactly one of `task_pending` and `task_arch`,
-- whatever statements the managers send.
use ipapp.Common.{
  ℕ, suc, ◌+◌, ◌-◌, ◌≤◌, ◌≡◌, refl, Bool, false, ◌&&◌, Option, List, [], ◌∷◌, ◌++◌, arith, ◌⊎◌, inl,
  inr, Bool-cases, eqb, ltb, leb, if◌then◌else◌, ap,
}
use ipapp.Common.Exec.{ok}
use ipapp.Tasks.{
  Status, Row, Tables, NewTask, has_id, new_row, arch_row, task_add, claim, claim_one, task_search,
  task_search4cancel, retry_row, task_retry, delete_rows, insert_arch, task_move_arch,
}
use ipapp.Tasks.Claim.{DistinctIds}

-- How many rows have this id.
abbrev pub count_id : ℕ → List Row → ℕ
count_id i [] = 0
count_id i (r ∷ rs) = let rest = count_id i rs in if eqb r.id i then suc rest else rest

count_id-append : (i : ℕ) (rs qs : List Row) → count_id i (rs ++ qs) ≡ count_id i rs + count_id i qs
count_id-append i [] qs = omega arith
count_id-append i (r ∷ rs) qs = ground (arith, count_id-append i rs qs)

has_id-count : (i : ℕ) (rs : List Row) → has_id i rs ≡ ltb 0 (count_id i rs)
has_id-count i [] = refl
has_id-count i (r ∷ rs) = ground (arith, has_id-count i rs)

-- An id below the sequence has been given out to one row, and that row is in one of the two tables.
pub record IsAccounted (db : Tables) : Type 0 where
  pub started : 1 ≤ db.seq
  pub once :
      (i : ℕ)
      → count_id i db.pending + count_id i db.arch ≡ (if leb 1 i && ltb i db.seq then 1 else 0)

pub DistinctIds-of_count : (rs : List Row) → ((i : ℕ) → count_id i rs ≤ 1) → DistinctIds rs
DistinctIds-of_count [] h = tt
DistinctIds-of_count (r ∷ rs) h = (
  ground (arith, h r.id, has_id-count r.id rs),
  DistinctIds-of_count rs (λ i. ground (arith, h i)),
)

pub IsAccounted-DistinctIds : (db : Tables) → IsAccounted db → DistinctIds db.pending
IsAccounted-DistinctIds db a = DistinctIds-of_count db.pending (λ i. ground (arith, a.once i))

count_id-claim :
    (i now : ℕ) (locked : ℕ → Bool) (n : ℕ) (rs : List Row)
    → count_id i (claim now locked n rs).1 ≡ count_id i rs
unfolding claim
count_id-claim i now locked n [] = refl
count_id-claim i now locked n (r ∷ rs) =
    ground (arith, count_id-claim i now locked (n - 1) rs, count_id-claim i now locked n rs)

count_id-claim_one :
    (i now id : ℕ) (rs : List Row) → count_id i (claim_one now id rs).1 ≡ count_id i rs
unfolding claim_one
count_id-claim_one i now id [] = refl
count_id-claim_one i now id (r ∷ rs) = ground (arith, count_id-claim_one i now id rs)

count_id-retry_row :
    (i now id retries : ℕ) (d : Option ℕ) (rs : List Row)
    → count_id i (retry_row now id retries d rs) ≡ count_id i rs
unfolding retry_row
count_id-retry_row i now id retries d [] = refl
count_id-retry_row i now id retries d (r ∷ rs) =
    ground (arith, count_id-retry_row i now id retries d rs)

count_id-delete :
    (i id : ℕ) (rs : List Row)
    → let (gone, rest) = delete_rows id rs in
      (count_id i gone ≡ (if eqb id i then count_id i rs else 0))
      × (count_id i rest ≡ (if eqb id i then 0 else count_id i rs))
unfolding delete_rows
count_id-delete i id [] = (ground arith, ground arith)
count_id-delete i id (r ∷ rs) =
    (ground (arith, count_id-delete i id rs), ground (arith, count_id-delete i id rs))

-- The rows that are archived at once have one id, so there is room for one of them if there is none yet.
insert_arch_lem :
    (now : ℕ) (status : Status) (retries : Option ℕ) (traced : Bool) (r : Row) (arch : List Row)
    → count_id r.id arch ≡ 0
    → insert_arch now status retries traced (r ∷ []) arch
      ≡ ok (arch ++ arch_row now status retries traced r ∷ [])
insert_arch_lem now status retries traced r arch h = ground (arith, has_id-count r.id arch)

delete_none : (id : ℕ) (rs : List Row) → count_id id rs ≡ 0 → (delete_rows id rs).0 ≡ []
unfolding delete_rows
delete_none id [] h = refl
delete_none id (r ∷ rs) h = ground (arith, delete_none id rs)

-- With distinct ids a delete takes no row, or one.
pub delete_cases :
    (id : ℕ) (rs : List Row)
    → count_id id rs ≤ 1
    → (((delete_rows id rs).0 ≡ []) × (count_id id rs ≡ 0))
      ⊎ ((r : Row) × ((delete_rows id rs).0 ≡ r ∷ []) × (r.id ≡ id) × (count_id id rs ≡ 1))
unfolding delete_rows
delete_cases id [] h = inl (refl, refl)
delete_cases id (r ∷ rs) h = elim (Bool-cases (eqb r.id id)) [
  | inl here ↦ inr (
    r,
    rw here (ap (λ (l : List Row). r ∷ l) (delete_none id rs (ground arith))),
    ground arith,
    ground arith,
  )
  | inr there ↦ rw there (delete_cases id rs (ground arith))
]

-- The one row that `task_move_arch` moves, or none.
pub task_move_arch_lem :
    (now id : ℕ) (status : Status) (retries : Option ℕ) (traced : Bool) (db : Tables)
    → IsAccounted db
    → let rest = (delete_rows id db.pending).1 in
      ((task_move_arch now id status retries traced db ≡ (ok tt, record db { pending = rest }))
        × (count_id id db.pending ≡ 0))
      ⊎ ((r : Row) × ((delete_rows id db.pending).0 ≡ r ∷ [])
          × (r.id ≡ id)
          × (count_id id db.pending ≡ 1)
          × (task_move_arch now id status retries traced db ≡ (
            ok tt,
            record db {
              pending = rest;
              arch = db.arch ++ arch_row now status retries traced r ∷ [];
            },
          )))
unfolding task_move_arch
task_move_arch_lem now id status retries traced db a =
    elim (delete_cases id db.pending (ground (arith, a.once id))) [
      | inl (gone, absent) ↦ inl (rw (gone, task_move_arch), absent)
      | inr (r, gone, same, once) ↦ inr (
        r,
        gone,
        same,
        once,
        rw (gone, task_move_arch)
            (rw (
              insert_arch_lem now status retries traced r db.arch
                (rw same (ground (arith, a.once id))))),
      )
    ]

pub task_add_lem :
    (now : ℕ) (t : NewTask) (db : Tables)
    → IsAccounted db
    → task_add now t db ≡ (
      ok (db.seq, (new_row now db.seq t).eta - now),
      record db { seq = db.seq + 1; pending = db.pending ++ new_row now db.seq t ∷ [] },
    )
unfolding task_add
task_add_lem now t db a =
    let fresh : has_id db.seq db.pending ≡ false =
      ground (arith, has_id-count db.seq db.pending, a.once db.seq) in
    rw fresh

pub task_add-IsAccounted :
    (now : ℕ) (t : NewTask) (db : Tables) → IsAccounted db → IsAccounted (task_add now t db).1
task_add-IsAccounted now t db a = rw (task_add_lem now t db a) (record {
  started = omega (arith, a.started);
  once = λ i.
      ground (arith, a.started, a.once i, count_id-append i db.pending (new_row now db.seq t ∷ []));
})

pub task_search-IsAccounted :
    (now : ℕ) (locked : ℕ → Bool) (n : ℕ) (db : Tables)
    → IsAccounted db
    → IsAccounted (task_search now locked n db).1
unfolding task_search
task_search-IsAccounted now locked n db a = record {
  started = a.started;
  once = λ i. rw count_id-claim (a.once i);
}

pub task_search4cancel-IsAccounted :
    (now id : ℕ) (db : Tables) → IsAccounted db → IsAccounted (task_search4cancel now id db).1
unfolding task_search4cancel
task_search4cancel-IsAccounted now id db a = record {
  started = a.started;
  once = λ i. rw count_id-claim_one (a.once i);
}

pub task_retry-IsAccounted :
    (now id retries : ℕ) (d : Option ℕ) (db : Tables)
    → IsAccounted db
    → IsAccounted (task_retry now id retries d db)
unfolding task_retry
task_retry-IsAccounted now id retries d db a = record {
  started = a.started;
  once = λ i. rw count_id-retry_row (a.once i);
}

pub task_move_arch-IsAccounted :
    (now id : ℕ) (status : Status) (retries : Option ℕ) (traced : Bool) (db : Tables)
    → IsAccounted db
    → ((task_move_arch now id status retries traced db).0 ≡ ok tt)
      × IsAccounted (task_move_arch now id status retries traced db).1
task_move_arch-IsAccounted now id status retries traced db a =
    elim (task_move_arch_lem now id status retries traced db a) [
      | inl (nothing, absent) ↦ rw nothing (
        refl,
        record {
          started = a.started;
          once = λ i. ground (arith, a.once i, count_id-delete i id db.pending);
        },
      )
      | inr (r, gone, same, once, moved) ↦ rw moved (
        refl,
        record {
          started = a.started;
          once = λ i. ground (
            arith,
            a.once i,
            count_id-delete i id db.pending,
            count_id-append i db.arch (arch_row now status retries traced r ∷ []),
          );
        },
      )
    ]
