-- ===== src/Locks/Refinement.antt =====
-- What the locks of ipapp/utils/lock/local.py promise: for each key a queue of calls, in which the first that came is
-- inside and the others wait their turn. The dict of locks and the list of calls under way are forgotten.
use ipapp.Common.{
  ℕ, ◌≡◌, refl, sym, ap, ◌∙◌, subst, fun_ext, String, Bool, true, false, Option, none, some, List,
  [], ◌∷◌, ◌++◌, ◌==◌, eq_iff, arith, if◌then◌else◌, inl, inr, Option-cases,
}
use mathlib.Core.Option
use ipapp.Common.Lists.{contains, remove, count, count-remove, contains-count}
use ipapp.Common.Dict.{lookup, insert, lookup-insert}
use ipapp.Common.Exec.{Result, ok, err}
use ipapp.Locks.{
  AsyncLock, LocalLock, Process, LockError, key_error, idle, acquire, time_out, release, leave,
  lock_acquire, lock_of, forget, has_call, hand_over, new_lock,
}
use ipapp.Locks.Sound.{
  Agrees, IsSound, acquire-IsSound, time_out-IsSound, lookup-leave, length-forget,
}
use ipapp.Locks.Exclusion.{release-free, release-wakes, leaves-IsSound}

-- A key is free, or held, with the calls that wait for it.
abbrev pub Queues : Type 0
Queues = String → Option (List ℕ)

abbrev pub view : LocalLock → Queues
view s key = Option.map (λ (l : AsyncLock). l.waiting) (lookup key s.locks)

abbrev pub update : String → Option (List ℕ) → Queues → Queues
update key q qs k = if key == k then q else qs k

-- What a call does.
pub data Event : Type 0 where
  comes gives_up : (call : ℕ) (key : String) → Event
  leaves : (key : String) → Event

-- What the caller sees: whether a call has entered, and whose turn comes.
pub data Answer : Type 0 where
  entered : Bool → Answer
  gone : Answer
  left : Option ℕ → Answer
  refused : LockError → Answer

abbrev released : LocalLock → Result LockError (Option ℕ × LocalLock) → Answer × LocalLock
released s (ok (woken, s')) = (left woken, s')
released s (err e) = (refused e, s)

-- An event on the locks
unfoldable pub exec : Event → LocalLock → Answer × LocalLock
exec (comes call key) s = let (granted, s') = acquire call key s in (entered granted, s')
exec (gives_up call key) s = (gone, time_out call key s)
exec (leaves key) s = released s (release key s)

abbrev come : ℕ → String → Option (List ℕ) → Queues → Answer × Queues
come call key none qs = (entered true, update key (some []) qs)
come call key (some calls) qs = (entered false, update key (some (calls ++ call ∷ [])) qs)

abbrev leave_queue : String → Option (List ℕ) → Queues → Answer × Queues
leave_queue key none qs = (refused key_error, qs)
leave_queue key (some []) qs = (left none, update key none qs)
leave_queue key (some (c ∷ calls)) qs = (left (some c), update key (some calls) qs)

-- The same event on the queues: who comes first enters, and who leaves gives the turn to the next.
abbrev pub spec : Event → Queues → Answer × Queues
spec (comes call key) qs = come call key (qs key) qs
spec (gives_up call key) qs = (gone, update key (Option.map (forget call) (qs key)) qs)
spec (leaves key) qs = leave_queue key (qs key) qs

-- Only a call that waits gives up.
abbrev pub permits : Event → Queues → Bool
permits (gives_up call key) qs = elim (qs key) [ none ↦ false | some calls ↦ has_call call calls ]
permits _ qs = true

unfoldable pub run : List Event → LocalLock → List Answer × LocalLock
unfolding exec
run [] s = ([], s)
run (e ∷ es) s = let (a, s') = exec e s in let (answers, s'') = run es s' in (a ∷ answers, s'')

abbrev pub replay : List Event → Queues → List Answer × Queues
replay [] qs = ([], qs)
replay (e ∷ es) qs =
    let (a, qs') = spec e qs in let (answers, qs'') = replay es qs' in (a ∷ answers, qs'')

abbrev pub Permitted : List Event → Queues → Type 0
Permitted [] qs = Unit {0}
Permitted (e ∷ es) qs = (permits e qs ≡ true) × Permitted es (spec e qs).1

view-insert :
    (key : String) (lock : AsyncLock) (s : LocalLock) (locking : List String)
    → view (record { locks = insert key lock s.locks; locking = locking })
      ≡ update key (some lock.waiting) (view s)
view-insert key lock s locking = fun_ext λ k. ground (arith, lookup-insert key k lock s.locks)

view-leave :
    (key : String) (lock : AsyncLock) (s : LocalLock) (busy : Bool)
    → contains key (remove key s.locking) ≡ busy
    → view (leave key (record s { locks = insert key lock s.locks }))
      ≡ update key (if busy then some lock.waiting else none) (view s)
unfolding leave
view-leave key lock s busy h = fun_ext λ k. rw h (
    ap (Option.map (λ (l : AsyncLock). l.waiting))
      {y = if key == k then (if busy then some lock else none) else lookup k s.locks}
      (lookup-leave busy key k lock s.locks)
    ∙ ground arith)

-- One event: the answers are the same, the view follows, and the locks stay sound.
abbrev Refines : Event → LocalLock → Type 0
Refines e s =
    (inside : List String) × IsSound (record { lock = (exec e s).1; inside = inside })
    × ((exec e s).0 ≡ (spec e (view s)).0)
    × (view (exec e s).1 ≡ (spec e (view s)).1)

-- What `acquire` asks the lock is what it asks the queue.
lock_acquire-come :
    (call : ℕ) (key : String) (found : Option AsyncLock) (qs : Queues) (n m : ℕ)
    → Agrees found n m
    → (entered (lock_acquire call (lock_of found)).0
        ≡ (come call key (Option.map (λ (l : AsyncLock). l.waiting) found) qs).0)
      × (update key (some (lock_acquire call (lock_of found)).1.waiting) qs
          ≡ (come call key (Option.map (λ (l : AsyncLock). l.waiting) found) qs).1)
lock_acquire-come call key none qs n m h = (refl, refl)
lock_acquire-come call key (some lock) qs n m h = rw (h.0) (refl, refl)

acquire-Refines :
    (call : ℕ) (key : String) (p : Process) → IsSound p → Refines (comes call key) p.lock
unfolding exec acquire
acquire-Refines call key p sound =
    let found = lookup key p.lock.locks in
    let lock = (lock_acquire call (lock_of found)).1 in
    let (same, next) = lock_acquire-come call key found (view p.lock) _ _ (sound key) in
    (
      _,
      acquire-IsSound call key p sound,
      same,
      view-insert key lock p.lock (p.lock.locking ++ key ∷ []) ∙ next,
    )

time_out-Refines :
    (call : ℕ) (key : String) (p : Process)
    → IsSound p
    → permits (gives_up call key) (view p.lock) ≡ true
    → Refines (gives_up call key) p.lock
unfolding exec time_out
time_out-Refines call key p sound h = elim (Option-cases (lookup key p.lock.locks)) [
  | inl e ↦ absurd (ground (arith, h, e))
  | inr (l, e) ↦
      let agrees : Agrees (some l) (count key p.lock.locking) (count key p.inside) =
        rw e at (sound key) in
      let waits : has_call call l.waiting ≡ true = rw (e, permits) at h in
      let busy : contains key (remove key p.lock.locking) ≡ true = ground (
        arith,
        contains-count key (remove key p.lock.locking),
        count-remove key key p.lock.locking,
        (eq_iff key key).1 refl,
        length-forget call l.waiting,
        agrees.2,
        waits,
      ) in
      (
        p.inside,
        time_out-IsSound call key p sound (rw e waits),
        refl,
        rw e (view-leave key (record l { waiting = forget call l.waiting }) p.lock true busy),
      )
]

-- `release` of a key that is held: to nobody, or to the first that waits
held-Refines :
    (key : String) (p : Process) (l : AsyncLock) (waiting : List ℕ)
    → IsSound p
    → lookup key p.lock.locks ≡ some l
    → contains key p.inside ≡ true
    → Agrees (some l) (count key p.lock.locking) (count key p.inside)
    → l.waiting ≡ waiting
    → Refines (leaves key) p.lock
unfolding exec
held-Refines key p l [] sound e inside agrees w =
    let done = release-free key p.lock l e agrees.0 w in
    let is_key = (eq_iff key key).1 refl in
    let idle : contains key (remove key p.lock.locking) ≡ false = ground (
      arith,
      contains-count key (remove key p.lock.locking),
      count-remove key key p.lock.locking,
      is_key,
      agrees.2,
      w,
    ) in
    (
      hand_over none key (remove key p.inside),
      rw done (leaves-IsSound key p none _ sound inside done),
      rw (done, e, w) refl,
      rw (done, e, w) (view-leave key new_lock p.lock false idle),
    )
held-Refines key p l (c ∷ cs) sound e inside agrees w =
    let done = release-wakes key p.lock l c cs e agrees.0 w in
    let is_key = (eq_iff key key).1 refl in
    let busy : contains key (remove key p.lock.locking) ≡ true = ground (
      arith,
      contains-count key (remove key p.lock.locking),
      count-remove key key p.lock.locking,
      is_key,
      agrees.2,
      w,
    ) in
    (
      hand_over (some c) key (remove key p.inside),
      rw done (leaves-IsSound key p (some c) _ sound inside done),
      rw (done, e, w) refl,
      rw (done, e, w) (view-leave key (record { locked = true; waiting = cs }) p.lock true busy),
    )

release-Refines : (key : String) (p : Process) → IsSound p → Refines (leaves key) p.lock
unfolding exec release
release-Refines key p sound = elim (Option-cases (lookup key p.lock.locks)) [
  | inl e ↦ (p.inside, rw (release, e) sound, rw (release, e) refl, rw (release, e) refl)
  | inr (l, e) ↦
      let agrees : Agrees (some l) (count key p.lock.locking) (count key p.inside) =
        rw e at (sound key) in
      held-Refines key p l l.waiting sound e (ground (arith, contains-count key p.inside, agrees.1))
        agrees refl
]

exec-Refines :
    (e : Event) (p : Process) → IsSound p → permits e (view p.lock) ≡ true → Refines e p.lock
exec-Refines (comes call key) p sound h = acquire-Refines call key p sound
exec-Refines (gives_up call key) p sound h = time_out-Refines call key p sound h
exec-Refines (leaves key) p sound h = release-Refines key p sound

run-replay :
    (es : List Event) (p : Process)
    → IsSound p
    → Permitted es (view p.lock)
    → ((run es p.lock).0 ≡ (replay es (view p.lock)).0)
      × (view (run es p.lock).1 ≡ (replay es (view p.lock)).1)
unfolding run
run-replay [] p sound h = (refl, refl)
run-replay (e ∷ es) p sound h =
    let (inside, sound', same, next) = exec-Refines e p sound h.0 in
    let s = (exec e p.lock).1 in
    let (answers, end) =
      run-replay es (record { lock = s; inside = inside }) sound'
        (subst (Permitted es) (sym next) h.1) in
    let moved = ap (replay es) next in
    (
      ap (λ a. a ∷ (run es s).0) same
          ∙ ap (λ rest. (spec e (view p.lock)).0 ∷ rest)
              (answers ∙ ap (λ (r : List Answer × Queues). r.0) moved),
      end ∙ ap (λ (r : List Answer × Queues). r.1) moved,
    )

-- Every caller sees of the locks what it would see of queues, whatever calls come, give up while they wait, and leave:
-- whether it enters, whose turn comes, and the error of a `release` of a key that nobody holds; and the locks that
-- are left are the queues that are left.
pub run_refines :
    (es : List Event)
    → Permitted es (λ key. none)
    → ((run es idle.lock).0 ≡ (replay es (λ key. none)).0)
      × (view (run es idle.lock).1 ≡ (replay es (λ key. none)).1)
run_refines es h = run-replay es idle (λ k. (refl, refl)) h
