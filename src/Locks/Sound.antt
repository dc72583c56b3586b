-- ===== src/Locks/Sound.antt =====
-- What each operation of ipapp/utils/lock/local.py keeps: for each key, the lock, the list of the calls
-- under way, and the calls inside agree.
use ipapp.Common.{
  ℕ, ◌+◌, ◌≡◌, refl, subst, String, Bool, true, false, Option, none, some, List, [], ◌∷◌, ◌==◌,
  eq_iff, arith, ltb, if◌then◌else◌, inl, inr, Bool-cases, Option-cases,
}
use ipapp.Common.Lists.{
  contains, remove, count, count-snoc, count-remove, contains-count, length, length-append,
}
use ipapp.Common.Dict.{Dict, lookup, insert, erase, lookup-insert, lookup-erase}
use ipapp.Locks.{
  AsyncLock, Process, acquire, time_out, leave, lock_acquire, lock_of, forget, has_call, waits,
  enter,
}

abbrev pub first : List ℕ → Option ℕ
first [] = none
first (c ∷ cs) = some c

-- What a lock, if there is one, says of the numbers of calls that hold or await it, and that hold it.
abbrev pub Agrees : Option AsyncLock → ℕ → ℕ → Type 0
Agrees none locking inside = (locking ≡ 0) × (inside ≡ 0)
Agrees (some lock) locking inside =
    (lock.locked ≡ true) × (inside ≡ 1) × (locking ≡ 1 + length lock.waiting)

-- For each key the lock, the list of the calls under way, and the calls inside agree.
abbrev pub IsSoundAt : Process → String → Type 0
IsSoundAt p k = Agrees (lookup k p.lock.locks) (count k p.lock.locking) (count k p.inside)

abbrev pub IsSound : Process → Type 0
IsSound p = (k : String) → IsSoundAt p k

pub length-forget :
    (call : ℕ) (cs : List ℕ) → has_call call cs ≡ true → length cs ≡ 1 + length (forget call cs)
length-forget call [] h = absurd (cc)
length-forget call (c ∷ cs) h = ground (arith, length-forget call cs)

-- The part of `acquire` that asks the lock.
enter-Agrees :
    (call : ℕ) (found : Option AsyncLock) (n m : ℕ)
    → Agrees found n m
    → Agrees
        (some (lock_acquire call (lock_of found)).1)
        (n + 1)
        (m + (if (lock_acquire call (lock_of found)).0 then 1 else 0))
enter-Agrees call none n m h = (refl, ground (arith, h.1), ground (arith, h.0))
enter-Agrees call (some lock) n m h = (
  ground (arith, h),
  ground (arith, h),
  ground (arith, h, length-append lock.waiting (call ∷ [])),
)

count-enter :
    (k key : String) (b : Bool) (inside : List String)
    → count k (enter b key inside) ≡ count k inside + (if key == k then (if b then 1 else 0) else 0)
count-enter k key true inside = ground (arith, count-snoc k key inside)
count-enter k key false inside = ground arith

-- A state is sound if it is at the key that has changed, and at the others nothing has.
pub by_key :
    (key : String) (p q : Process)
    → IsSound p
    → IsSoundAt q key
    → ((k : String)
        → (key == k) ≡ false
        → (lookup k q.lock.locks ≡ lookup k p.lock.locks)
          × (count k q.lock.locking ≡ count k p.lock.locking)
          × (count k q.inside ≡ count k p.inside))
    → IsSound q
by_key key p q sound same apart k = elim (Bool-cases (key == k)) [
  | inl e ↦ subst (IsSoundAt q) ((eq_iff key k).0 e) same
  | inr e ↦ let (a, b, c) = apart k e in rw (a, b, c) (sound k)
]

pub acquire-IsSound :
    (call : ℕ) (key : String) (p : Process)
    → IsSound p
    → IsSound (record {
      lock = (acquire call key p.lock).1;
      inside = enter (acquire call key p.lock).0 key p.inside;
    })
unfolding acquire
acquire-IsSound call key p sound =
    let r = lock_acquire call (lock_of (lookup key p.lock.locks)) in
    by_key key p _ sound
      (rw
        (
          lookup-insert key key r.1 p.lock.locks,
          (eq_iff key key).1 refl,
          count-snoc key key p.lock.locking,
          count-enter key key r.0 p.inside,
          (eq_iff key key).1 refl,
        )
        (enter-Agrees call (lookup key p.lock.locks) _ _ (sound key)))
      (λ k e. (
        rw (lookup-insert key k r.1 p.lock.locks, e) refl,
        ground (arith, count-snoc k key p.lock.locking, e),
        ground (arith, count-enter k key r.0 p.inside, e),
      ))

pub lookup-leave :
    (busy : Bool) (key k : String) (lock : AsyncLock) (locks : Dict AsyncLock)
    → lookup k (if busy then insert key lock locks else erase key (insert key lock locks))
      ≡ (if key == k then (if busy then some lock else none) else lookup k locks)
lookup-leave true key k lock locks = rw (lookup-insert key k lock locks) refl
lookup-leave false key k lock locks =
    ground (arith, lookup-erase key k (insert key lock locks), lookup-insert key k lock locks)

-- `leave`, when the lock of the key has been set to one that still agrees but for the call that leaves
pub leave-IsSound :
    (key : String) (p : Process) (lock : AsyncLock) (inside : List String)
    → IsSound p
    → (rest : ℕ) → count key p.lock.locking ≡ rest + 1
    → (ltb 0 rest ≡ true → Agrees (some lock) rest (count key inside))
    → (rest ≡ 0 → count key inside ≡ 0)
    → ((k : String) → (key == k) ≡ false → count k inside ≡ count k p.inside)
    → IsSound (record {
      lock = leave key (record p.lock { locks = insert key lock p.lock.locks });
      inside = inside;
    })
unfolding leave
leave-IsSound key p lock inside sound rest n busy free others =
    let left = remove key p.lock.locking in
    let is_key = (eq_iff key key).1 refl in
    let m : count key left ≡ rest =
      ground (arith, count-remove key key p.lock.locking, n, is_key) in
    by_key key p _ sound
      (rw
        (
          lookup-leave (contains key left) key key lock p.lock.locks,
          is_key,
          contains-count key left,
          m,
        )
        (elim (Bool-cases (ltb 0 rest)) [
          | inl e ↦ rw e (busy e)
          | inr e ↦ rw e (ground arith, free (ground arith))
        ]))
      (λ k e. (
        rw (lookup-leave (contains key left) key k lock p.lock.locks, e) refl,
        ground (arith, count-remove k key p.lock.locking, e),
        others k e,
      ))

pub time_out-IsSound :
    (call : ℕ) (key : String) (p : Process)
    → IsSound p
    → waits call key p.lock ≡ true
    → IsSound (record p { lock = time_out call key p.lock })
unfolding time_out
time_out-IsSound call key p sound w =
    let found = lookup key p.lock.locks in
    elim (Option-cases found) [
      | inl e ↦ absurd (ground (arith, rw e at w))
      | inr (l, e) ↦
          let agrees : Agrees (some l) (count key p.lock.locking) (count key p.inside) =
            rw e at (sound key) in
          let shorter = length-forget call l.waiting (rw e at w) in
          rw e (
            leave-IsSound key p (record l { waiting = forget call l.waiting }) p.inside sound
              (length l.waiting) (ground (arith, agrees)) (λ b. (agrees.0, agrees.1, shorter))
              (λ none_left. absurd (ground (arith, shorter, none_left))) (λ k apart. refl))
    ]
