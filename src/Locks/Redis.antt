-- ===== src/Locks/Redis.antt =====
-- ipapp/utils/lock/redis.py (`RedisLock`): locks by key between processes that share a Redis server. A call of `acquire` is
-- split at its `await`s: `attempt` is one round of its loop until it returns or waits, and the wait ends with `wake` or
-- `give_up`. The server is the list of keys that it has; a key that expires is an event.
pub mod Exclusive
pub mod Woken
mod Tests
use ipapp.Common.{
  ℕ, String, Bool, true, false, ◌||◌, Option, none, some, List, [], ◌∷◌, ◌++◌, eqb, if◌then◌else◌,
}
use ipapp.Common.Lists.{contains, remove}
use ipapp.Common.Dict.{Dict, lookup, insert, erase}

-- A future of a call that waits: without a result, with the result `None`, or with `NO_WAIT`
pub data Fut : Type 0 where
  pending notified no_wait : Fut

abbrev pub Waiters : Type 0
Waiters = List (ℕ × Fut)

-- The fields of `RedisLock`, and whether the task of `_reader` still reads
pub record RedisLock : Type 0 where
  pub waiters : Dict Waiters
  pub reading : Bool

abbrev pub waiters_of : Option Waiters → Waiters
waiters_of none = []
waiters_of (some ws) = ws

-- A new future is appended to `self.waiters[key]`.
abbrev pub register : ℕ → String → RedisLock → RedisLock
register call key s = record s {
  waiters = insert key (waiters_of (lookup key s.waiters) ++ (call, pending) ∷ []) s.waiters;
}

abbrev pub drop : ℕ → Waiters → Waiters
drop call [] = []
drop call ((c, f) ∷ ws) = if eqb c call then ws else (c, f) ∷ drop call ws

abbrev put_or_pop : String → Waiters → Dict Waiters → Dict Waiters
put_or_pop key [] waiters = erase key waiters
put_or_pop key ws waiters = insert key ws waiters

-- The `finally` of a round
unfoldable pub deregister : ℕ → String → RedisLock → RedisLock
deregister call key s = record s {
  waiters = put_or_pop key (drop call (waiters_of (lookup key s.waiters))) s.waiters;
}

-- How a round begins: it has the key, waits for a message, or sleeps, as after `NO_WAIT`.
pub data Round : Type 0 where
  acquires waits sleeps : Round

-- A round of `acquire`, with `SET key 1 NX`
unfoldable pub attempt :
    ℕ → String → Bool → List String → RedisLock → Round × List String × RedisLock
unfolding deregister
attempt call key no_waiting server s =
    let s' = register call key s in
    if contains key server
    then (if no_waiting then sleeps else waits, server, s')
    else (acquires, key ∷ server, deregister call key s')

abbrev pub fut_of : ℕ → Waiters → Fut
fut_of call [] = pending
fut_of call ((c, f) ∷ ws) = if eqb c call then f else fut_of call ws

abbrev is_no_wait : Fut → Bool
is_no_wait no_wait = true
is_no_wait f = false

-- How a round ends: in another one, with or without waiting, or in a timeout
pub data Turn : Type 0 where
  retries : (no_waiting : Bool) → Turn
  times_out : Turn

-- The end of a round whose future has a result, or that has slept; whether the time is over
unfoldable pub wake : ℕ → String → (no_waiting late : Bool) → RedisLock → Turn × RedisLock
unfolding deregister
wake call key no_waiting late s = (
  if late
      then times_out
      else retries (no_waiting || is_no_wait (fut_of call (waiters_of (lookup key s.waiters)))),
  deregister call key s,
)

-- `for fut in self.waiters[key]: fut.set_result(None)`; a future with a result raises.
abbrev pub notify : Waiters → Waiters × Bool
notify [] = ([], false)
notify ((c, pending) ∷ ws) = let (ws', raised) = notify ws in ((c, notified) ∷ ws', raised)
notify ((c, notified) ∷ ws) = ((c, notified) ∷ ws, true)
notify ((c, no_wait) ∷ ws) = ((c, no_wait) ∷ ws, true)

abbrev pub release_waiter : Fut → Fut
release_waiter pending = no_wait
release_waiter f = f

-- `if not fut.done(): fut.set_result(NO_WAIT)`, for each future
abbrev pub release_waiters : Waiters → Waiters
release_waiters [] = []
release_waiters ((c, f) ∷ ws) = (c, release_waiter f) ∷ release_waiters ws

abbrev pub release_all : Dict Waiters → Dict Waiters
release_all [] = []
release_all ((key, ws) ∷ waiters) = (key, release_waiters ws) ∷ release_all waiters

-- The handler of an exception in `_reader`, with which the task ends
unfoldable pub fail_reader : RedisLock → RedisLock
fail_reader s = record { waiters = release_all s.waiters; reading = false }

abbrev pub notified_all : String → Waiters × Bool → RedisLock → RedisLock
notified_all key (ws, raised) s =
    let s' = record s { waiters = insert key ws s.waiters } in if raised then fail_reader s' else s'

abbrev pub notify_key : String → Option Waiters → RedisLock → RedisLock
notify_key key none s = s
notify_key key (some ws) s = notified_all key (notify ws) s

-- A message with the key, read by `_reader`
unfoldable pub message : String → RedisLock → RedisLock
unfolding fail_reader
message key s = if s.reading then notify_key key (lookup key s.waiters) s else s

-- `release`: the key is deleted, whoever has set it.
unfoldable pub release : String → List String → List String
release key server = remove key server

-- The server, the lock of each process, and the key of each call that is behind its `acquire` and before its `release`
pub record System : Type 0 where
  pub server : List String
  pub lock : ℕ → RedisLock
  pub inside : List String

abbrev pub idle : System
idle = record { server = []; lock = λ i. record { waiters = []; reading = true }; inside = [] }

abbrev pub update : ℕ → RedisLock → (ℕ → RedisLock) → ℕ → RedisLock
update i s lock j = if eqb i j then s else lock j

pub data Event : Type 0 where
  attempts : (i call : ℕ) (key : String) (no_waiting : Bool) → Event
  wakes : (i call : ℕ) (key : String) (no_waiting late : Bool) → Event
  gives_up : (i call : ℕ) (key : String) → Event
  reads : (i : ℕ) (key : String) → Event
  loses_reader : (i : ℕ) → Event
  releases expires : (key : String) → Event

abbrev entered : ℕ → String → Round × List String × RedisLock → System → System
entered i key (acquires, server, s) p = record {
  server = server;
  lock = update i s p.lock;
  inside = key ∷ p.inside;
}
entered i key (waits, server, s) p = record p { server = server; lock = update i s p.lock }
entered i key (sleeps, server, s) p = record p { server = server; lock = update i s p.lock }

-- One event; a key that no call is inside with is not released.
unfoldable pub step : Event → System → System
unfolding attempt wake message release deregister fail_reader
step (attempts i call key no_waiting) p =
    entered i key (attempt call key no_waiting p.server (p.lock i)) p
step (wakes i call key no_waiting late) p = record p {
  lock = update i (wake call key no_waiting late (p.lock i)).1 p.lock;
}
step (gives_up i call key) p = record p { lock = update i (deregister call key (p.lock i)) p.lock }
step (reads i key) p = record p { lock = update i (message key (p.lock i)) p.lock }
step (loses_reader i) p = record p { lock = update i (fail_reader (p.lock i)) p.lock }
step (releases key) p =
    if contains key p.inside
    then record p { server = release key p.server; inside = remove key p.inside }
    else p
step (expires key) p = record p { server = remove key p.server }

unfoldable pub run : List Event → System → System
unfolding step
run [] p = p
run (e ∷ es) p = run es (step e p)
