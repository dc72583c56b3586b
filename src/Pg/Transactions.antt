-- ===== src/Pg/Transactions.antt =====
-- ipapp/db/pg.py, `TransactionContextManager`: transactions on one connection. `__aenter__` is split where it has the
-- lock of transactions; a manager is the number of its call.
pub mod Exclusive
pub mod Starved
use ipapp.Common.{ℕ, Bool, true, false, Option, none, some, List, [], ◌∷◌, ◌++◌, if◌then◌else◌}
use ipapp.Common.Exec.{Result, ok, err}
use ipapp.Locks.{AsyncLock, new_lock, lock_acquire, lock_release, LockError, forget, has_call}
use ipapp.Pg.{PgError, user_warning}

-- The fields of `Connection` that a transaction uses; `in_transaction` is what the library says.
pub record Connection : Type 0 where
  pub in_transaction : Bool
  pub xact_lock : AsyncLock

abbrev pub new_connection : Connection
new_connection = record { in_transaction = false; xact_lock = new_lock }

-- What becomes of a manager that enters: it raises, it has the lock, or it waits for the lock.
pub data Entry : Type 0 where
  raises : PgError → Entry
  has_lock awaits_lock : Entry

abbrev asked : Connection → Bool × AsyncLock → Entry × Connection
asked c (true, lock) = (has_lock, record c { xact_lock = lock })
asked c (false, lock) = (awaits_lock, record c { xact_lock = lock })

-- `__aenter__`, until it has or awaits the lock
unfoldable pub enter : ℕ → Connection → Entry × Connection
enter call c =
    if c.in_transaction then (raises user_warning, c) else asked c (lock_acquire call c.xact_lock)

-- The rest of `__aenter__`: what BEGIN raises, if it does
unfoldable pub begin : Option PgError → Connection → Result PgError (Unit {0}) × Connection
begin none c = (ok tt, record c { in_transaction = true })
begin (some e) c = (err e, c)

-- How `__aexit__` ends: COMMIT or ROLLBACK works, and the lock is released to the manager whose turn comes; or one of the
-- two raises.
pub data Exit : Type 0 where
  ended : Option ℕ → Exit
  fails : PgError → Exit
  not_locked : LockError → Exit

abbrev released : Connection → Result LockError (Option ℕ × AsyncLock) → Exit × Connection
released c (ok (woken, lock)) = (ended woken, record c { xact_lock = lock })
released c (err e) = (not_locked e, c)

-- `__aexit__`; with an exception comes whether the library still says that there is a transaction.
unfoldable pub exit : Option (PgError × Bool) → Connection → Exit × Connection
exit none c = released (record c { in_transaction = false }) (lock_release c.xact_lock)
exit (some (e, still)) c = (fails e, record c { in_transaction = still })

-- The tasks that use one connection: those that have the lock and have not begun yet, and those inside their transaction.
pub record Process : Type 0 where
  pub conn : Connection
  pub beginning : List ℕ
  pub inside : List ℕ

abbrev pub idle : Process
idle = record { conn = new_connection; beginning = []; inside = [] }

pub data Event : Type 0 where
  enters : (call : ℕ) → Event
  begins : (call : ℕ) (outcome : Option PgError) → Event
  exits : (call : ℕ) (outcome : Option (PgError × Bool)) → Event
  gives_up : (call : ℕ) → Event

abbrev entered : ℕ → Process → Entry × Connection → Process
entered call p (has_lock, c) = record p { conn = c; beginning = p.beginning ++ call ∷ [] }
entered call p (awaits_lock, c) = record p { conn = c }
entered call p (raises e, c) = record p { conn = c }

abbrev begun : ℕ → Process → Result PgError (Unit {0}) × Connection → Process
begun call p (ok _, c) = record p {
  conn = c;
  beginning = forget call p.beginning;
  inside = p.inside ++ call ∷ [];
}
begun call p (err e, c) = record p { conn = c; beginning = forget call p.beginning }

abbrev woken_up : Option ℕ → List ℕ → List ℕ
woken_up none calls = calls
woken_up (some call) calls = calls ++ call ∷ []

abbrev exited : ℕ → Process → Exit × Connection → Process
exited call p (ended woken, c) = record {
  conn = c;
  beginning = woken_up woken p.beginning;
  inside = forget call p.inside;
}
exited call p (fails e, c) = record p { conn = c; inside = forget call p.inside }
exited call p (not_locked e, c) = record p { conn = c; inside = forget call p.inside }

-- A task that waits is cancelled.
abbrev cancelled : ℕ → Connection → Connection
cancelled call c = record c {
  xact_lock = record c.xact_lock { waiting = forget call c.xact_lock.waiting };
}

-- One event; one that cannot happen, such as the exit of a task that is not inside, changes nothing.
unfoldable pub step : Event → Process → Process
unfolding enter begin exit
step (enters call) p = entered call p (enter call p.conn)
step (begins call outcome) p =
    if has_call call p.beginning then begun call p (begin outcome p.conn) else p
step (exits call outcome) p =
    if has_call call p.inside then exited call p (exit outcome p.conn) else p
step (gives_up call) p = record p { conn = cancelled call p.conn }

unfoldable pub run : List Event → Process → Process
run [] p = p
run (e ∷ es) p = run es (step e p)
