-- ===== src/Pg/Transactions/Exclusive.antt =====
-- Transactions on one connection of ipapp/db/pg.py exclude each other.
use ipapp.Common.{
  ℕ, ◌+◌, ◌≤◌, ◌≡◌, refl, Bool, true, false, Option, none, some, List, [], ◌∷◌, arith, ltb,
  if◌then◌else◌, ◌⊎◌, inl, inr,
}
use ipapp.Common.Lists.{All, length, length-append}
use ipapp.Locks.{forget, has_call}
use ipapp.Pg.{PgError, user_warning}
use ipapp.Pg.Transactions.{
  Process, idle, Event, enters, begins, exits, gives_up, step, run, enter, raises, has_lock,
  awaits_lock,
}

-- At most one task has the lock; while one has it the lock is locked, and none waits for a lock that is not; who has yet to
-- begin finds no transaction.
pub record IsValid (p : Process) : Type 0 where
  pub exclusive : length p.beginning + length p.inside ≤ 1
  pub locked : ltb 0 (length p.beginning + length p.inside) ≡ true → p.conn.xact_lock.locked ≡ true
  pub nobody_waits : p.conn.xact_lock.locked ≡ false → p.conn.xact_lock.waiting ≡ []
  pub fresh : ltb 0 (length p.beginning) ≡ true → p.conn.in_transaction ≡ false

List-cases : (cs : List ℕ) → (cs ≡ []) ⊎ ((c : ℕ) × (rest : List ℕ) × (cs ≡ c ∷ rest))
List-cases [] = inl refl
List-cases (c ∷ cs) = inr (c, cs, refl)

pub length-forget :
    (call : ℕ) (cs : List ℕ) → has_call call cs ≡ true → length cs ≡ 1 + length (forget call cs)
length-forget call [] h = absurd (cc)
length-forget call (c ∷ cs) h = ground (arith, length-forget call cs)

enters-IsValid : (call : ℕ) (p : Process) → IsValid p → IsValid (step (enters call) p)
unfolding step
enters-IsValid call p v = ground (arith, length-append p.beginning (call ∷ []))

begins-IsValid :
    (call : ℕ) (outcome : Option PgError) (p : Process)
    → IsValid p
    → IsValid (step (begins call outcome) p)
unfolding step
begins-IsValid call none p v =
    ground (arith, length-append p.inside (call ∷ []), length-forget call p.beginning)
begins-IsValid call (some e) p v = ground (arith, length-forget call p.beginning)

exits-IsValid :
    (call : ℕ) (outcome : Option (PgError × Bool)) (p : Process)
    → IsValid p
    → IsValid (step (exits call outcome) p)
unfolding step
exits-IsValid call none p v = elim (List-cases p.conn.xact_lock.waiting) [
  | inl e ↦ ground (arith, length-forget call p.inside, e)
  | inr (c, cs, e) ↦
      ground (arith, length-forget call p.inside, length-append p.beginning (c ∷ []), e)
]
exits-IsValid call (some (e, still)) p v = ground (arith, length-forget call p.inside)

gives_up-IsValid : (call : ℕ) (p : Process) → IsValid p → IsValid (step (gives_up call) p)
unfolding step
gives_up-IsValid call p v = ground arith

step-IsValid : (e : Event) (p : Process) → IsValid p → IsValid (step e p)
step-IsValid (enters call) p v = enters-IsValid call p v
step-IsValid (begins call outcome) p v = begins-IsValid call outcome p v
step-IsValid (exits call outcome) p v = exits-IsValid call outcome p v
step-IsValid (gives_up call) p v = gives_up-IsValid call p v

pub run-IsValid : (es : List Event) (p : Process) → IsValid p → IsValid (run es p)
unfolding run
run-IsValid [] p v = v
run-IsValid (e ∷ es) p v = run-IsValid es (step e p) (step-IsValid e p v)

pub idle-IsValid : IsValid idle
idle-IsValid = ground arith

-- Nothing that the library does for this event raises.
abbrev pub works : Event → Bool
works (begins call (some e)) = false
works (exits call (some e)) = false
works e = true

-- The lock is locked, and the library says that there is a transaction, exactly while there is one.
abbrev pub Follows : Process → Type 0
Follows p =
    (p.conn.xact_lock.locked ≡ ltb 0 (length p.beginning + length p.inside))
    × (p.conn.in_transaction ≡ ltb 0 (length p.inside))

exits-Follows :
    (call : ℕ) (p : Process) → IsValid p → Follows p → Follows (step (exits call none) p)
unfolding step
exits-Follows call p v h = elim (List-cases p.conn.xact_lock.waiting) [
  | inl e ↦ ground (arith, length-forget call p.inside, e)
  | inr (c, cs, e) ↦
      ground (arith, length-forget call p.inside, length-append p.beginning (c ∷ []), e)
]

step-Follows :
    (e : Event) (p : Process) → IsValid p → works e ≡ true → Follows p → Follows (step e p)
unfolding step
step-Follows (enters call) p v w h = ground (arith, length-append p.beginning (call ∷ []))
step-Follows (begins call none) p v w h =
    ground (arith, length-append p.inside (call ∷ []), length-forget call p.beginning)
step-Follows (begins call (some e)) p v w h = absurd (cc)
step-Follows (exits call none) p v w h = exits-Follows call p v h
step-Follows (exits call (some e)) p v w h = absurd (cc)
step-Follows (gives_up call) p v w h = h

run-Follows :
    (es : List Event) (p : Process)
    → IsValid p
    → Follows p
    → All (λ e. works e ≡ true) es
    → Follows (run es p)
unfolding run
run-Follows [] p v h w = h
run-Follows (e ∷ es) p v h w =
    run-Follows es (step e p) (step-IsValid e p v) (step-Follows e p v w.0 h) w.1

-- However the tasks of a connection enter, begin, leave and give up, and whatever raises: at most one of them has the
-- lock or is inside its transaction, and one that is to begin finds no transaction, so none is nested.
pub xacts-exclusive :
    (es : List Event)
    → (length (run es idle).beginning + length (run es idle).inside ≤ 1)
      × (ltb 0 (length (run es idle).beginning) ≡ true → (run es idle).conn.in_transaction ≡ false)
xacts-exclusive es = let v = run-IsValid es idle idle-IsValid in (v.exclusive, v.fresh)

-- If nothing that the library does raises, a task that enters when no other has the lock or is inside has the lock at
-- once, one that enters while another is inside raises, and one that enters before that other has begun waits.
pub enter_lem :
    (es : List Event) (call : ℕ)
    → All (λ e. works e ≡ true) es
    → let p = run es idle in
      (enter call p.conn).0 ≡ (
        if ltb 0 (length p.inside)
        then raises user_warning
        else if ltb 0 (length p.beginning)
        then awaits_lock
        else has_lock)
unfolding enter
enter_lem es call w =
    let p = run es idle in
    let v = run-IsValid es idle idle-IsValid in
    let f = run-Follows es idle idle-IsValid (refl, refl) w in
    ground (arith, v.nobody_waits, v.exclusive, f.0, f.1)
