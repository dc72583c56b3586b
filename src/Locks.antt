-- ===== src/Locks.antt =====
-- ipapp/utils/lock/local.py (`LocalLock`): locks by key within one process. A call of `acquire` is split at
-- its `await`: `acquire` is what it does until then, and the wait ends with the turn that `release` gives it
-- or with `time_out`. The lock of asyncio is a flag and a queue of calls; its `release` hands the
-- lock to the first call that waits.
pub mod Sound
pub mod Exclusion
pub mod Refinement
pub mod Redis
pub mod Postgres
mod Tests
use ipapp.Common.{
  ℕ, String, Bool, true, false, not, ◌&&◌, ◌||◌, Option, none, some, List, [], ◌∷◌, ◌++◌, eqb,
  if◌then◌else◌, ◌≡◌,
}
use ipapp.Common.Lists.{contains, remove}
use ipapp.Common.Dict.{Dict, lookup, insert, erase}
use ipapp.Common.Exec.{Result, ok, err}

-- `asyncio.Lock`
pub record AsyncLock : Type 0 where
  pub locked : Bool
  pub waiting : List ℕ

pub data LockError : Type 0 where
  key_error runtime_error : LockError

-- The fields of `LocalLock`.
pub record LocalLock : Type 0 where
  pub locks : Dict AsyncLock
  pub locking : List String

abbrev pub null : List ℕ → Bool
null [] = true
null (c ∷ cs) = false

-- a lock as it is made
abbrev pub new_lock : AsyncLock
new_lock = record { locked = false; waiting = [] }

-- `Lock.acquire` until it returns or waits; whether it has returned
abbrev pub lock_acquire : ℕ → AsyncLock → Bool × AsyncLock
lock_acquire call lock =
    if not lock.locked && null lock.waiting
    then (true, record lock { locked = true })
    else (false, record lock { waiting = lock.waiting ++ call ∷ [] })

-- `Lock.release`: the call whose turn comes
abbrev pub lock_release : AsyncLock → Result LockError (Option ℕ × AsyncLock)
lock_release lock = elim lock.waiting [
  | [] ↦ if lock.locked then ok (none, new_lock) else err runtime_error
  | c ∷ cs ↦
      if lock.locked then ok (some c, record { locked = true; waiting = cs }) else err runtime_error
]

abbrev pub lock_of : Option AsyncLock → AsyncLock
lock_of none = new_lock
lock_of (some lock) = lock

-- `LocalLock.acquire`, until it returns or waits
unfoldable pub acquire : ℕ → String → LocalLock → Bool × LocalLock
acquire call key s =
    let (granted, lock) = lock_acquire call (lock_of (lookup key s.locks)) in
    (granted, record { locks = insert key lock s.locks; locking = s.locking ++ key ∷ [] })

abbrev pub forget : ℕ → List ℕ → List ℕ
forget call [] = []
forget call (c ∷ cs) = if eqb c call then cs else c ∷ forget call cs

-- `self._locking.remove(key)`, and `self._locks.pop(key)` if no call is left
unfoldable pub leave : String → LocalLock → LocalLock
leave key s =
    let locking = remove key s.locking in
    record {
      locks = if contains key locking then s.locks else erase key s.locks;
      locking = locking;
    }

-- `LocalLock.acquire`, when its wait has timed out
unfoldable pub time_out : ℕ → String → LocalLock → LocalLock
unfolding leave
time_out call key s =
    let lock = lock_of (lookup key s.locks) in
    leave key
      (record s { locks = insert key (record lock { waiting = forget call lock.waiting }) s.locks })

-- `LocalLock.release`; the call whose turn comes
unfoldable pub release : String → LocalLock → Result LockError (Option ℕ × LocalLock)
unfolding leave
release key s = elim (lookup key s.locks) [
  | none ↦ err key_error
  | some lock ↦ elim (lock_release lock) [
    | err e ↦ err e
    | ok (woken, lock') ↦ ok (woken, leave key (record s { locks = insert key lock' s.locks }))
  ]
]

-- A process: the lock, and the key of each call that is inside, behind its `acquire` and before its `release`.
pub record Process : Type 0 where
  pub lock : LocalLock
  pub inside : List String

abbrev pub idle : Process
idle = record { lock = record { locks = []; locking = [] }; inside = [] }

abbrev pub has_call : ℕ → List ℕ → Bool
has_call call [] = false
has_call call (c ∷ cs) = eqb c call || has_call call cs

-- The call waits for the key.
abbrev pub waits : ℕ → String → LocalLock → Bool
waits call key s = has_call call (lock_of (lookup key s.locks)).waiting

abbrev pub enter : Bool → String → List String → List String
enter true key inside = inside ++ key ∷ []
enter false key inside = inside

-- Whose turn it is enters.
abbrev pub hand_over : Option ℕ → String → List String → List String
hand_over none key inside = inside
hand_over (some call) key inside = inside ++ key ∷ []

-- What the calls of a process may do: come, give up while they wait, and leave from the inside.
pub data Step (p q : Process) : Type 0 where
  comes :
      (call : ℕ) (key : String)
      → q ≡ record {
        lock = (acquire call key p.lock).1;
        inside = enter (acquire call key p.lock).0 key p.inside;
      }
      → Step p q
  gives_up :
      (call : ℕ) (key : String)
      → waits call key p.lock ≡ true
      → q ≡ record p { lock = time_out call key p.lock }
      → Step p q
  leaves :
      (key : String) (woken : Option ℕ) (lock : LocalLock)
      → contains key p.inside ≡ true
      → release key p.lock ≡ ok (woken, lock)
      → q ≡ record { lock = lock; inside = hand_over woken key (remove key p.inside) }
      → Step p q

-- What can come about in a process that starts with no lock.
pub data Reachable : Process → Type 0 where
  here : Reachable idle
  next : {p q : Process} → Reachable p → Step p q → Reachable q
