-- ===== src/Locks/Postgres.antt =====
-- ipapp/utils/lock/pg.py (`PostgresLock`): the local lock of Locks, and behind it an advisory lock of the database on the
-- one connection of the process. What a round of the loop meets at the database is an argument.
mod Tests
use ipapp.Common.{
  ℕ, ◌≡◌, refl, sym, subst, ap, ◌∙◌, String, Bool, true, false, not, ◌||◌, ◌==◌, Option, none, some,
  List, [], ◌∷◌, ◌++◌, eq_iff, arith, if◌then◌else◌,
}
use ipapp.Common.Lists.{contains, remove}
use ipapp.Common.Dict.{Dict, lookup, insert, erase, lookup-insert, lookup-erase}
use ipapp.Common.Exec.{Result, ok, err}
use ipapp.Locks.{LocalLock, LockError, acquire, release, leave, new_lock}

-- The local lock, and the advisory locks that the connection has
pub record PgLock : Type 0 where
  pub local : LocalLock
  pub held : List String

-- How a round of the loop ends: the database gives the lock, or it refuses it and a notification comes, or something raises,
-- as the database, a new connection, and a timeout do.
pub data Reply : Type 0 where
  locks refused fails : Reply

-- A round; whether it finds the connection closed, and so makes a new one
pub record Round : Type 0 where
  pub closed : Bool
  pub reply : Reply

-- `if self.pg.is_closed(): await self._connect()`: the advisory locks of a connection end with it.
abbrev pub reconnected : Bool → List String → List String
reconnected closed held = if closed then [] else held

-- How the loop ends, if it does
pub data End : Type 0 where
  has_lock swallowed still_waits : End

-- `while True`; how it ends, and the advisory locks of the connection
unfoldable pub acquire_rounds : String → List Round → List String → End × List String
acquire_rounds key [] held = (still_waits, held)
acquire_rounds key (round ∷ rounds) held =
    let kept = reconnected round.closed held in
    elim round.reply [
      | locks ↦ (has_lock, key ∷ kept)
      | refused ↦ acquire_rounds key rounds kept
      | fails ↦ (swallowed, kept)
    ]

abbrev released : PgLock → Result LockError (Option ℕ × LocalLock) → Result LockError Bool × PgLock
released s (ok (woken, local)) = (ok true, record s { local = local })
released s (err e) = (err e, s)

abbrev pub acquire_ended : String → End → PgLock → Result LockError Bool × PgLock
acquire_ended key has_lock s = (ok true, s)
acquire_ended key swallowed s = released s (release key s.local)
acquire_ended key still_waits s = (ok false, s)

-- `PostgresLock.acquire`, once it has the local lock; whether it has returned. `except Exception` releases the local lock
-- and does not raise again.
unfoldable pub acquire_granted : String → List Round → PgLock → Result LockError Bool × PgLock
unfolding acquire_rounds
acquire_granted key rounds s =
    let (end, held) = acquire_rounds key rounds s.held in
    acquire_ended key end (record s { held = held })

abbrev returned : Bool → Result LockError Bool × PgLock → Result LockError Bool × PgLock
returned raised (ok b, s) = (ok (not raised), s)
returned raised (err e, s) = (err e, s)

-- `PostgresLock.release`: whether it finds the connection closed, whether the database has unlocked, and whether something
-- has raised, before or behind that; the local lock is released in any case. The result is whether it has returned.
unfoldable pub release_pg :
    String → (closed unlocked raised : Bool) → PgLock → Result LockError Bool × PgLock
release_pg key closed unlocked raised s =
    let kept = reconnected closed s.held in
    let s' = record s { held = if unlocked then remove key kept else kept } in
    returned raised (released s' (release key s'.local))

remove-snoc :
    (key : String) (xs : List String) → contains key xs ≡ false → remove key (xs ++ key ∷ []) ≡ xs
remove-snoc key [] h = ground (arith, eq_iff key key)
remove-snoc key (x ∷ xs) h = ground (arith, remove-snoc key xs)

-- The local lock of a process where no call uses the key
abbrev pub IsFree : String → LocalLock → Type 0
IsFree key l = (lookup key l.locks ≡ none) × (contains key l.locking ≡ false)

-- The local lock of that process with the key taken
abbrev taken : String → LocalLock → LocalLock
taken key l = record {
  locks = insert key (record { locked = true; waiting = [] }) l.locks;
  locking = l.locking ++ key ∷ [];
}

acquire-free :
    (call : ℕ) (key : String) (l : LocalLock)
    → lookup key l.locks ≡ none
    → acquire call key l ≡ (true, taken key l)
unfolding acquire
acquire-free call key l h = rw h refl

lookup-taken :
    (key : String) (l : LocalLock)
    → lookup key (taken key l).locks ≡ some (record { locked = true; waiting = [] })
lookup-taken key l =
    lookup-insert key key (record { locked = true; waiting = [] }) l.locks
    ∙ rw ((eq_iff key key).1 refl) refl

acquire-taken :
    (call : ℕ) (key : String) (l : LocalLock) → (acquire call key (taken key l)).0 ≡ false
unfolding acquire
acquire-taken call key l = rw (lookup-taken key l) refl

release-taken :
    (key : String) (l : LocalLock)
    → IsFree key l
    → (l' : LocalLock) × (release key (taken key l) ≡ ok (none, l')) × (lookup key l'.locks ≡ none)
unfolding release leave
release-taken key l h =
    let left =
      leave key (record (taken key l) { locks = insert key new_lock (taken key l).locks }) in
    (
      left,
      rw (release, lookup-taken key l) refl,
      rw (remove-snoc key l.locking h.1, h.1)
          (lookup-erase key key (insert key new_lock (taken key l).locks)
            ∙ rw ((eq_iff key key).1 refl) refl),
    )

-- What decides a call: no round yet, or one that gets the lock, or one that raises, with whether it finds the connection
-- closed and with the rounds that do not happen
pub data Decision : Type 0 where
  undecided : Decision
  gets raises_at : Bool → List Round → Decision

-- Rounds that are refused, and then what decides
abbrev pub rounds_of : List Bool → Decision → List Round
rounds_of [] undecided = []
rounds_of [] (gets closed others) = record { closed = closed; reply = locks } ∷ others
rounds_of [] (raises_at closed others) = record { closed = closed; reply = fails } ∷ others
rounds_of (closed ∷ closings) d = record { closed = closed; reply = refused } ∷ rounds_of closings d

-- Some round has found the connection closed.
abbrev pub any_closed : List Bool → Decision → Bool
any_closed [] undecided = false
any_closed [] (gets closed others) = closed
any_closed [] (raises_at closed others) = closed
any_closed (closed ∷ closings) d = closed || any_closed closings d

-- What a call that is so decided returns, and leaves
abbrev Decides : ℕ → String → Decision → List String → Result LockError Bool × PgLock → Type 0
Decides call key d kept (r, s') =
    (r ≡ ok (elim d [ undecided ↦ false | gets _ _ ↦ true | raises_at _ _ ↦ true ]))
    × (s'.held ≡ (elim d [ undecided ↦ kept | gets _ _ ↦ key ∷ kept | raises_at _ _ ↦ kept ]))
    × ((acquire call key s'.local).0
        ≡ (elim d [ undecided ↦ false | gets _ _ ↦ false | raises_at _ _ ↦ true ]))

acquire_granted-Decides :
    (call : ℕ) (key : String) (closings : List Bool) (d : Decision) (s : PgLock)
    → IsFree key s.local
    → Decides call key d
        (reconnected (any_closed closings d) s.held)
        (acquire_granted key (rounds_of closings d) (record s { local = taken key s.local }))
unfolding acquire_granted acquire_rounds
acquire_granted-Decides call key [] undecided s h = (refl, refl, acquire-taken call key s.local)
acquire_granted-Decides call key [] (gets closed others) s h =
    (refl, refl, acquire-taken call key s.local)
acquire_granted-Decides call key [] (raises_at closed others) s h =
    let (l', done, free) = release-taken key s.local h in
    let kept = reconnected closed s.held in
    subst
      (λ r.
        Decides call key (raises_at closed others) kept
          (released (record { local = taken key s.local; held = kept }) r))
      (sym done) (refl, refl, ap (λ r. r.0) (acquire-free call key l' free))
acquire_granted-Decides call key (true ∷ closings) d s h =
    subst
      (λ kept. Decides call key d kept (
        acquire_granted key (rounds_of closings d)
          (record { local = taken key s.local; held = [] })))
      (lost (any_closed closings d))
      (acquire_granted-Decides call key closings d (record s { held = [] }) h)
  where
    lost : (b : Bool) → reconnected b [] ≡ []
    lost true = refl
    lost false = refl
acquire_granted-Decides call key (false ∷ closings) d s h =
    acquire_granted-Decides call key closings d s h

-- Where no other call of the process uses the key, `acquire` goes on as long as its rounds are refused. If a round then
-- gets the lock, the call returns, the connection has the lock, and another call of the process waits. If a round raises,
-- the call returns all the same: the connection does not get the lock, and another call of the process does not wait. As
-- long as neither happens it does not return, and another call waits. The other advisory locks of the connection are as
-- they were, but if some round has found the connection closed they are lost.
pub acquire-swallows :
    (call call' : ℕ) (key : String) (closings : List Bool) (d : Decision) (s : PgLock)
    → IsFree key s.local
    → let kept = if any_closed closings d then [] else s.held in
      let (granted, local) = acquire call key s.local in
      let (r, s') = acquire_granted key (rounds_of closings d) (record s { local = local }) in
      (granted ≡ true)
      × (r ≡ ok (elim d [ undecided ↦ false | gets _ _ ↦ true | raises_at _ _ ↦ true ]))
      × (s'.held ≡ (elim d [ undecided ↦ kept | gets _ _ ↦ key ∷ kept | raises_at _ _ ↦ kept ]))
      × ((acquire call' key s'.local).0
          ≡ (elim d [ undecided ↦ false | gets _ _ ↦ false | raises_at _ _ ↦ true ]))
acquire-swallows call call' key closings d s h =
    let got = acquire-free call key s.local h.0 in
    let (r, held, other) =
      subst
        (λ x.
          Decides call' key d (reconnected (any_closed closings d) s.held)
            (acquire_granted key (rounds_of closings d) (record s { local = x.1 })))
        (sym got) (acquire_granted-Decides call' key closings d s h) in
    (ap (λ x. x.0) got, r, held, other)
