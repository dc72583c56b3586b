-- ===== src/Locks/Exclusion.antt =====
-- The locks of ipapp/utils/lock/local.py exclude each other, and none is left behind.
use ipapp.Common.{
  ℕ, suc, ◌≤◌, ◌≡◌, ◌↔◌, refl, String, true, false, not, Option, none, some, List, [], ◌∷◌, ◌++◌,
  eq_iff, arith, ltb, inl, inr, Option-cases,
}
use ipapp.Common.Lists.{contains, remove, count, count-snoc, count-remove, contains-count, length}
use ipapp.Common.Dict.{lookup, insert}
use ipapp.Common.Exec.{ok}
use ipapp.Locks.{
  AsyncLock, LocalLock, Process, comes, gives_up, leaves, Reachable, here, next, acquire, release,
  leave, lock_acquire, lock_of, new_lock, hand_over,
}
use ipapp.Locks.Sound.{first, Agrees, IsSound, acquire-IsSound, leave-IsSound, time_out-IsSound}

pub release-free :
    (key : String) (s : LocalLock) (l : AsyncLock)
    → lookup key s.locks ≡ some l
    → l.locked ≡ true
    → l.waiting ≡ []
    → release key s ≡ ok (none, leave key (record s { locks = insert key new_lock s.locks }))
unfolding release
release-free key s l e locked w = rw (release, e, w, locked) refl

pub release-wakes :
    (key : String) (s : LocalLock) (l : AsyncLock) (c : ℕ) (cs : List ℕ)
    → lookup key s.locks ≡ some l
    → l.locked ≡ true
    → l.waiting ≡ c ∷ cs
    → release key s
      ≡ ok (
        some c,
        leave key
            (record s { locks = insert key (record { locked = true; waiting = cs }) s.locks }),
      )
unfolding release
release-wakes key s l c cs e locked w = rw (release, e, w, locked) refl

-- The two ways in which a lock is released: to nobody, or to the first call that waits.
release-IsSound :
    (key : String) (p : Process) (l : AsyncLock) (waiting : List ℕ)
    → IsSound p
    → lookup key p.lock.locks ≡ some l
    → l.waiting ≡ waiting
    → (lock : LocalLock) × (release key p.lock ≡ ok (first waiting, lock))
      × IsSound
          (record { lock = lock; inside = hand_over (first waiting) key (remove key p.inside) })
release-IsSound key p l [] sound e w =
    let agrees : Agrees (some l) (count key p.lock.locking) (count key p.inside) =
      rw e at (sound key) in
    let is_key = (eq_iff key key).1 refl in
    let left : count key (remove key p.inside) ≡ 0 =
      ground (arith, count-remove key key p.inside, is_key, agrees.1) in
    (
      _,
      release-free key p.lock l e agrees.0 w,
      leave-IsSound key p new_lock (remove key p.inside) sound 0 (ground (arith, agrees.2, w))
          (λ b. absurd (ground (arith, b))) (λ r. left)
          (λ k apart. ground (arith, count-remove k key p.inside, apart)),
    )
release-IsSound key p l (c ∷ cs) sound e w =
    let agrees : Agrees (some l) (count key p.lock.locking) (count key p.inside) =
      rw e at (sound key) in
    let is_key = (eq_iff key key).1 refl in
    let inside = remove key p.inside ++ key ∷ [] in
    let left : count key inside ≡ 1 = ground (
      arith,
      count-snoc key key (remove key p.inside),
      count-remove key key p.inside,
      is_key,
      agrees.1,
    ) in
    (
      _,
      release-wakes key p.lock l c cs e agrees.0 w,
      leave-IsSound key p (record { locked = true; waiting = cs }) inside sound (suc (length cs))
          (ground (arith, agrees.2, w)) (λ b. (refl, left, omega arith))
          (λ r. absurd (omega (arith, r)))
          (λ k apart.
            ground
              (arith, count-snoc k key (remove key p.inside), count-remove k key p.inside, apart)),
    )

-- The key of a call inside has a lock.
inside-lookup :
    (key : String) (p : Process)
    → IsSound p
    → contains key p.inside ≡ true
    → (l : AsyncLock) × (lookup key p.lock.locks ≡ some l)
inside-lookup key p sound h = elim (Option-cases (lookup key p.lock.locks)) [
  | inl e ↦
      let agrees : Agrees none (count key p.lock.locking) (count key p.inside) =
        rw e at (sound key) in
      absurd (ground (arith, contains-count key p.inside, agrees.1, h))
  | inr found ↦ found
]

pub leaves-IsSound :
    (key : String) (p : Process) (woken : Option ℕ) (lock : LocalLock)
    → IsSound p
    → contains key p.inside ≡ true
    → release key p.lock ≡ ok (woken, lock)
    → IsSound (record { lock = lock; inside = hand_over woken key (remove key p.inside) })
leaves-IsSound key p woken lock sound h done =
    let (l, e) = inside-lookup key p sound h in
    let (lock', done', sound') = release-IsSound key p l l.waiting sound e refl in
    let same_call : woken ≡ first l.waiting = cc in
    let same_lock : lock ≡ lock' = cc in rw (same_call, same_lock) sound'

pub Reachable-IsSound : (p : Process) → Reachable p → IsSound p
Reachable-IsSound p here = λ k. (refl, refl)
Reachable-IsSound q (next r (comes call key e)) =
    rw e (acquire-IsSound call key _ (Reachable-IsSound _ r))
Reachable-IsSound q (next r (gives_up call key w e)) =
    rw e (time_out-IsSound call key _ (Reachable-IsSound _ r) w)
Reachable-IsSound q (next r (leaves key woken lock h done e)) =
    rw e (leaves-IsSound key _ woken lock (Reachable-IsSound _ r) h done)

acquire-Agrees :
    (call : ℕ) (found : Option AsyncLock) (n m : ℕ)
    → Agrees found n m
    → (m ≤ 1) × ((lock_acquire call (lock_of found)).0 ≡ not (ltb 0 n))
acquire-Agrees call none n m h = (ground (arith, h.1), ground (arith, h.0))
acquire-Agrees call (some lock) n m h = (ground (arith, h), ground (arith, h))

lookup-Agrees :
    (found : Option AsyncLock) (n m : ℕ) → Agrees found n m → (found ≡ none) ↔ (ltb 0 n ≡ false)
lookup-Agrees none n m h = (λ e. ground (arith, h.0), λ e. refl)
lookup-Agrees (some lock) n m h = (λ e. absurd (cc), λ e. absurd (ground (arith, h.2, e)))

-- However the calls come, give up and leave: of the calls with one key at most one is inside; and a call
-- enters at once exactly if no other is under way with its key.
pub acquire-exclusive :
    (p : Process) (call : ℕ) (key : String)
    → Reachable p
    → (count key p.inside ≤ 1) × ((acquire call key p.lock).0 ≡ not (contains key p.lock.locking))
unfolding acquire
acquire-exclusive p call key r =
    rw (contains-count key p.lock.locking)
      (acquire-Agrees call (lookup key p.lock.locks) _ _ (Reachable-IsSound p r key))

-- A call that is inside can always leave: `release` does not raise, and gives the turn to the call with
-- its key that has waited longest, if there is one.
pub release_lem :
    (p : Process) (key : String)
    → Reachable p
    → contains key p.inside ≡ true
    → (lock : LocalLock) × (release key p.lock
        ≡ ok (first (lock_of (lookup key p.lock.locks)).waiting, lock))
release_lem p key r h =
    let sound = Reachable-IsSound p r in
    let (l, e) = inside-lookup key p sound h in
    let (lock, done, sound') = release-IsSound key p l l.waiting sound e refl in rw e (lock, done)

-- No lock is left behind: there is one for a key exactly while a call with this key is under way.
pub lookup-under_way :
    (p : Process) (key : String)
    → Reachable p
    → (lookup key p.lock.locks ≡ none) ↔ (contains key p.lock.locking ≡ false)
lookup-under_way p key r =
    rw (contains-count key p.lock.locking)
      (lookup-Agrees (lookup key p.lock.locks) _ _ (Reachable-IsSound p r key))
