-- ===== src/Locks/Redis/Exclusive.antt =====
-- Which calls are inside a lock of ipapp/utils/lock/redis.py at once: one, as long as no key expires.
use ipapp.Common.{ℕ, ◌+◌, ◌≤◌, ◌≡◌, refl, String, Bool, true, false, List, [], ◌∷◌, eq_iff, arith}
use ipapp.Common.Lists.{All, remove, count, count-remove, contains-count}
use ipapp.Locks.Redis.{
  System, idle, Event, attempts, wakes, gives_up, reads, loses_reader, releases, expires, step, run,
}

-- The server has no key twice.
abbrev IsSingle : System → Type 0
IsSingle p = (key : String) → count key p.server ≤ 1

-- Each call that is inside has its key, and no other call has it.
abbrev IsHeld : System → Type 0
IsHeld p = (key : String) → count key p.inside ≡ count key p.server

step-IsSingle : (e : Event) (p : System) → IsSingle p → IsSingle (step e p)
unfolding step
step-IsSingle (attempts i call key no_waiting) p h k =
    ground (arith, h k, contains-count key p.server, eq_iff key k)
step-IsSingle (wakes i call key no_waiting late) p h k = h k
step-IsSingle (gives_up i call key) p h k = h k
step-IsSingle (reads i key) p h k = h k
step-IsSingle (loses_reader i) p h k = h k
step-IsSingle (releases key) p h k = ground (arith, h k, count-remove k key p.server)
step-IsSingle (expires key) p h k = ground (arith, h k, count-remove k key p.server)

abbrev pub no_expiry : Event → Bool
no_expiry (expires key) = false
no_expiry e = true

step-IsHeld : (e : Event) (p : System) → no_expiry e ≡ true → IsHeld p → IsHeld (step e p)
unfolding step
step-IsHeld (attempts i call key no_waiting) p n h k = ground (arith, h k)
step-IsHeld (wakes i call key no_waiting late) p n h k = h k
step-IsHeld (gives_up i call key) p n h k = h k
step-IsHeld (reads i key) p n h k = h k
step-IsHeld (loses_reader i) p n h k = h k
step-IsHeld (releases key) p n h k =
    ground (arith, h k, count-remove k key p.server, count-remove k key p.inside)
step-IsHeld (expires key) p n h k = absurd (cc)

run-IsSingle : (es : List Event) (p : System) → IsSingle p → IsSingle (run es p)
unfolding run
run-IsSingle [] p h = h
run-IsSingle (e ∷ es) p h = run-IsSingle es (step e p) (step-IsSingle e p h)

run-IsHeld :
    (es : List Event) (p : System) → All (λ e. no_expiry e ≡ true) es → IsHeld p → IsHeld (run es p)
unfolding run
run-IsHeld [] p n h = h
run-IsHeld (e ∷ es) p n h = run-IsHeld es (step e p) n.1 (step-IsHeld e p n.0 h)

idle-IsSingle : IsSingle idle
idle-IsSingle k = ground arith

-- However the calls of all processes attempt, wait, give up and release, and whatever the readers meet: as long as no key
-- expires at the server, at most one call is inside with a key.
pub attempt-exclusive :
    (es : List Event) (key : String)
    → All (λ e. no_expiry e ≡ true) es
    → count key (run es idle).inside ≤ 1
attempt-exclusive es key n =
    ground (arith, run-IsHeld es idle n (λ k. refl) key, run-IsSingle es idle idle-IsSingle key)

-- If two calls are inside with a key, since it has expired for the first, then the release of either deletes the key of
-- the other: that call is still inside, and the next attempt of any process acquires the key beside it.
pub release-steals :
    (es : List Event) (i call : ℕ) (key : String) (no_waiting : Bool)
    → 2 ≤ count key (run es idle).inside
    → let p = step (releases key) (run es idle) in
      (1 ≤ count key p.inside)
      × (count key (step (attempts i call key no_waiting) p).inside ≡ 1 + count key p.inside)
unfolding step
release-steals es i call key no_waiting two =
    let q = run es idle in
    let single = run-IsSingle es idle idle-IsSingle key in
    ground (
      arith,
      eq_iff key key,
      contains-count key q.inside,
      count-remove key key q.server,
      count-remove key key q.inside,
      contains-count key (remove key q.server),
    )
