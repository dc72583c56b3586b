-- ===== src/Pg/Transactions/Starved.antt =====
-- ipapp/db/pg.py: after a BEGIN, COMMIT or ROLLBACK that raises, the lock of the connection's transactions is never released.
use ipapp.Common.{ℕ, ◌≡◌, refl, Bool, true, false, none, some, List, [], ◌∷◌, arith}
use ipapp.Common.Lists.{length}
use ipapp.Locks.{has_call, forget}
use ipapp.Pg.Transactions.{Process, idle, Event, enters, begins, exits, gives_up, step, run}
use ipapp.Pg.Transactions.Exclusive.{IsValid, run-IsValid, idle-IsValid, length-forget}

nil_of_length : (cs : List ℕ) → length cs ≡ 0 → cs ≡ []
nil_of_length [] h = refl
nil_of_length (c ∷ cs) h = absurd (omega (arith, h))

-- The lock is locked, and no task has it or is inside.
abbrev IsStarved : Process → Type 0
IsStarved p = (p.conn.xact_lock.locked ≡ true) × (p.beginning ≡ []) × (p.inside ≡ [])

step-IsStarved : (e : Event) (p : Process) → IsStarved p → IsStarved (step e p)
unfolding step
step-IsStarved (enters call) p h = ground arith
step-IsStarved (begins call outcome) p h = ground arith
step-IsStarved (exits call outcome) p h = ground arith
step-IsStarved (gives_up call) p h = ground arith

run-IsStarved : (es : List Event) (p : Process) → IsStarved p → IsStarved (run es p)
unfolding run
run-IsStarved [] p h = h
run-IsStarved (e ∷ es) p h = run-IsStarved es (step e p) (step-IsStarved e p h)

abbrev pub raises : Event → Process → Bool
raises (begins call (some e)) p = has_call call p.beginning
raises (exits call (some e)) p = has_call call p.inside
raises e p = false

raises-IsStarved : (e : Event) (p : Process) → IsValid p → raises e p ≡ true → IsStarved (step e p)
unfolding step
raises-IsStarved (enters call) p v h = absurd (cc)
raises-IsStarved (begins call none) p v h = absurd (cc)
raises-IsStarved (begins call (some e)) p v h = ground (
  arith,
  length-forget call p.beginning,
  nil_of_length (forget call p.beginning),
  nil_of_length p.inside,
)
raises-IsStarved (exits call none) p v h = absurd (cc)
raises-IsStarved (exits call (some (e, still))) p v h = ground (
  arith,
  length-forget call p.inside,
  nil_of_length (forget call p.inside),
  nil_of_length p.beginning,
)
raises-IsStarved (gives_up call) p v h = absurd (cc)

-- After a BEGIN, COMMIT or ROLLBACK has raised, no task ever gets into a transaction on this connection again, whatever
-- its tasks and the library do.
pub raises-starves :
    (es more : List Event) (e : Event)
    → raises e (run es idle) ≡ true
    → let p = run more (step e (run es idle)) in (p.beginning ≡ []) × (p.inside ≡ [])
raises-starves es more e h =
    let starved = raises-IsStarved e (run es idle) (run-IsValid es idle idle-IsValid) h in
    let (locked, beginning, inside) = run-IsStarved more (step e (run es idle)) starved in
    (beginning, inside)
