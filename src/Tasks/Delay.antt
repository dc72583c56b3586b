-- ===== src/Tasks/Delay.antt =====
-- How long `_scan` of ipapp/task/db.py may sleep: never past the moment when a waiting task is due.
use ipapp.Common.{
  ℕ, ◌+◌, ◌≤◌, ◌≡◌, ◌⊎◌, Bool, true, false, none, some, List, [], ◌∷◌, arith, ltb, if◌then◌else◌,
  sym, subst, refl,
}
use ipapp.Common.Int.{sub_ℕ}
use ipapp.Common.Lists.{All}
use ipapp.Common.Exec.{Result, ok, err}
use ipapp.Tasks.{DbError, Row, Tables, is_waiting, least_eta, task_next_delay, task_search}
use ipapp.Tasks.Manager.{TaskManagerConfig, idle_delay, search_and_exec, exec_all, Outcome}

-- the later of two stamps
abbrev pub later : ℕ → ℕ → ℕ
later a b = if ltb a b then b else a

-- The row does not wait, or it is locked, or a scan behind this delay comes in time for it.
abbrev pub IsInTime : ℕ → (ℕ → Bool) → ℕ → Row → Type 0
IsInTime now locked delay r =
    (is_waiting r.status ≡ false) ⊎ (locked r.id ≡ true) ⊎ (now + delay ≤ later now r.eta)

IsInTime-earlier :
    (now : ℕ) (locked : ℕ → Bool) (d e : ℕ) (rs : List Row)
    → d ≤ e
    → All (IsInTime now locked e) rs
    → All (IsInTime now locked d) rs
IsInTime-earlier now locked d e [] h a = tt
IsInTime-earlier now locked d e (r ∷ rs) h a =
    (ground (arith, a.0), IsInTime-earlier now locked d e rs h a.1)

at_once : (now : ℕ) (locked : ℕ → Bool) (rs : List Row) → All (IsInTime now locked 0) rs
at_once now locked [] = tt
at_once now locked (r ∷ rs) = (ground arith, at_once now locked rs)

-- the delay up to the first of these rows
abbrev delay_of : ℕ → ℕ → (ℕ → Bool) → List Row → ℕ
delay_of m now locked rs =
    idle_delay m (elim (least_eta locked rs) [ none ↦ none | some e ↦ some (sub_ℕ e now) ])

delay_of-earlier :
    (m now : ℕ) (locked : ℕ → Bool) (r : Row) (rs : List Row)
    → delay_of m now locked (r ∷ rs) ≤ delay_of m now locked rs
unfolding idle_delay least_eta
delay_of-earlier m now locked r rs = ground arith

delay_of-le : (m now : ℕ) (locked : ℕ → Bool) (rs : List Row) → delay_of m now locked rs ≤ m
unfolding idle_delay
delay_of-le m now locked rs = ground arith

delay_of-head :
    (m now : ℕ) (locked : ℕ → Bool) (r : Row) (rs : List Row)
    → IsInTime now locked (delay_of m now locked (r ∷ rs)) r
unfolding idle_delay least_eta
delay_of-head m now locked r rs = ground arith

delay_of-IsInTime :
    (m now : ℕ) (locked : ℕ → Bool) (rs : List Row)
    → All (IsInTime now locked (delay_of m now locked rs)) rs
delay_of-IsInTime m now locked [] = tt
delay_of-IsInTime m now locked (r ∷ rs) = (
  delay_of-head m now locked r rs,
  IsInTime-earlier now locked (delay_of m now locked (r ∷ rs)) (delay_of m now locked rs) rs
      (delay_of-earlier m now locked r rs) (delay_of-IsInTime m now locked rs),
)

module _ (cfg : TaskManagerConfig) (now : ℕ) (locked : ℕ → Bool) (run : Row → Outcome) where
  -- the round behind a search that has found these tasks
  abbrev searched : List Row → Tables → Result DbError (List Row × ℕ) × Tables
  searched [] db = (ok ([], idle_delay cfg.max_scan_interval (task_next_delay now locked db)), db)
  searched (t ∷ ts) db =
      let (r, db') = exec_all now run (t ∷ ts) db in
      elim r [ ok _ ↦ (ok (t ∷ ts, 0), db') | err e ↦ (err e, db') ]

  -- what a round that ends without an error says of the next one
  abbrev IsScheduled : Result DbError (List Row × ℕ) × Tables → Type 0
  IsScheduled (ok (tasks, delay), db) =
      (delay ≤ cfg.max_scan_interval) × All (IsInTime now locked delay) db.pending
  IsScheduled (err e, db) = Unit

  searched-IsScheduled : (found : List Row) (db : Tables) → IsScheduled (searched found db)
  unfolding task_next_delay
  searched-IsScheduled [] db = (
    delay_of-le cfg.max_scan_interval now locked db.pending,
    delay_of-IsInTime cfg.max_scan_interval now locked db.pending,
  )
  searched-IsScheduled (t ∷ ts) db = executed (exec_all now run (t ∷ ts) db)
    where
      executed :
          (x : Result DbError (Unit {0}) × Tables)
          → IsScheduled (elim x.0 [ ok _ ↦ (ok (t ∷ ts, 0), x.1) | err e ↦ (err e, x.1) ])
      executed (ok u, db') = (omega arith, at_once now locked db'.pending)
      executed (err e, db') = tt

  search_and_exec-searched :
      (db : Tables)
      → let (found, db') = task_search now locked cfg.batch_size db in
        search_and_exec cfg now locked run db ≡ searched found db'
  unfolding search_and_exec
  search_and_exec-searched db = by_found (task_search now locked cfg.batch_size db)
    where
      by_found :
          (x : List Row × Tables)
          → (elim x.0 [
            | [] ↦ (ok ([], idle_delay cfg.max_scan_interval (task_next_delay now locked x.1)), x.1)
            | t ∷ ts ↦
                let (r, db') = exec_all now run (t ∷ ts) x.1 in
                elim r [ ok _ ↦ (ok (t ∷ ts, 0), db') | err e ↦ (err e, db') ]
          ])
            ≡ searched x.0 x.1
      by_found ([], db') = refl
      by_found (t ∷ ts, db') = refl

-- A round of the scan that ends without an error returns a delay of at most `max_scan_interval`, whatever rows there are,
-- and the next one comes no later than the `eta` of any task that then waits and is not locked, or at once if that has
-- passed.
pub search_and_exec-delay :
    (cfg : TaskManagerConfig) (now : ℕ) (locked : ℕ → Bool) (run : Row → Outcome) (db : Tables)
    (tasks : List Row) (delay : ℕ)
    → (search_and_exec cfg now locked run db).0 ≡ ok (tasks, delay)
    → (delay ≤ cfg.max_scan_interval)
      × All (IsInTime now locked delay) (search_and_exec cfg now locked run db).1.pending
search_and_exec-delay cfg now locked run db tasks delay e =
    let (found, db') = task_search now locked cfg.batch_size db in
    let scheduled =
      subst (IsScheduled cfg now locked run) (sym (search_and_exec-searched cfg now locked run db))
        (searched-IsScheduled cfg now locked run found db') in
    subst (λ r. IsScheduled cfg now locked run (r, (search_and_exec cfg now locked run db).1)) e
      scheduled
