-- ===== src/Locks/Redis/Woken.antt =====
-- What a message to `RedisLock._reader` of ipapp/utils/lock/redis.py does to the calls that wait.
use ipapp.Common.{
  ◌≡◌, refl, sym, ap, subst, String, Bool, true, false, not, ◌&&◌, Option, none, some, [], ◌∷◌,
  ◌==◌, eq_iff, arith, if◌then◌else◌, Bool-cases, inl, inr,
}
use ipapp.Common.Dict.{Dict, lookup, insert, lookup-insert}
use ipapp.Locks.Redis.{
  Fut, pending, notified, no_wait, Waiters, waiters_of, RedisLock, notify, release_waiters,
  release_all, fail_reader, message, notify_key, notified_all,
}

abbrev pub is_pending : Fut → Bool
is_pending pending = true
is_pending f = false

-- Some call of these waits without a result.
abbrev pub any_pending : Waiters → Bool
any_pending [] = false
any_pending ((c, f) ∷ ws) = if is_pending f then true else any_pending ws

-- Every call of these waits without a result.
abbrev pub all_pending : Waiters → Bool
all_pending [] = true
all_pending ((c, f) ∷ ws) = if is_pending f then all_pending ws else false

release_waiters-any : (ws : Waiters) → any_pending (release_waiters ws) ≡ false
release_waiters-any [] = refl
release_waiters-any ((c, pending) ∷ ws) = release_waiters-any ws
release_waiters-any ((c, notified) ∷ ws) = release_waiters-any ws
release_waiters-any ((c, no_wait) ∷ ws) = release_waiters-any ws

release_all-any :
    (key : String) (waiters : Dict Waiters)
    → any_pending (waiters_of (lookup key (release_all waiters))) ≡ false
release_all-any key [] = refl
release_all-any key ((k, ws) ∷ waiters) =
    ground (arith, release_waiters-any ws, release_all-any key waiters)

notify-raised : (ws : Waiters) → (notify ws).1 ≡ not (all_pending ws)
notify-raised [] = refl
notify-raised ((c, pending) ∷ ws) = notify-raised ws
notify-raised ((c, notified) ∷ ws) = refl
notify-raised ((c, no_wait) ∷ ws) = refl

notify-any : (ws : Waiters) → all_pending ws ≡ true → any_pending (notify ws).0 ≡ false
notify-any [] h = refl
notify-any ((c, pending) ∷ ws) h = notify-any ws h
notify-any ((c, notified) ∷ ws) h = absurd (cc)
notify-any ((c, no_wait) ∷ ws) h = absurd (cc)

-- What a message for the key leaves of these waiters
abbrev Wakes : String → Waiters → RedisLock → RedisLock → Type 0
Wakes key ws s s' =
    (s'.reading ≡ all_pending ws)
    × ((other : String)
        → any_pending (waiters_of (lookup other s'.waiters)) ≡ (
            all_pending ws
            && not (key == other)
            && any_pending (waiters_of (lookup other s.waiters))))

insert-any :
    (key other : String) (ws : Waiters) (waiters : Dict Waiters)
    → any_pending ws ≡ false
    → any_pending (waiters_of (lookup other (insert key ws waiters)))
      ≡ (not (key == other) && any_pending (waiters_of (lookup other waiters)))
insert-any key other ws waiters h =
    rw (lookup-insert key other ws waiters)
      (elim (Bool-cases (key == other)) [ inl e ↦ rw (e, h) refl | inr e ↦ rw e refl ])

notified_all-Wakes :
    (key : String) (ws : Waiters) (s : RedisLock)
    → s.reading ≡ true
    → Wakes key ws s (notified_all key (notify ws) s)
unfolding fail_reader
notified_all-Wakes key ws s h = elim (Bool-cases (all_pending ws)) [
  | inl e ↦
      rw (notify-raised ws, e)
        (h, λ other. insert-any key other (notify ws).0 s.waiters (notify-any ws e))
  | inr e ↦
      rw (notify-raised ws, e)
        (refl, λ other. release_all-any other (insert key (notify ws).0 s.waiters))
]

notify_key-Wakes :
    (key : String) (o : Option Waiters) (s : RedisLock)
    → s.reading ≡ true
    → lookup key s.waiters ≡ o
    → Wakes key (waiters_of o) s (notify_key key o s)
notify_key-Wakes key none s h found = (
  h,
  λ other. elim (Bool-cases (key == other)) [
    | inl e ↦ rw (sym ((eq_iff key other).0 e), found, (eq_iff key key).1 refl) refl
    | inr e ↦ rw e refl
  ],
)
notify_key-Wakes key (some ws) s h found = notified_all-Wakes key ws s h

-- After a message for a key that is read, no call waits for that key any more, even if a future that has a result
-- already has made the reader fail. The reader goes on exactly if every call that waited for the key was without a
-- result: then the calls for other keys wait as before, and else no call waits for any key.
pub message_lem :
    (key : String) (s : RedisLock)
    → s.reading ≡ true
    → let before = all_pending (waiters_of (lookup key s.waiters)) in
      let s' = message key s in
      (s'.reading ≡ before)
      × ((other : String)
          → any_pending (waiters_of (lookup other s'.waiters))
            ≡ (before && not (key == other) && any_pending (waiters_of (lookup other s.waiters))))
unfolding message
message_lem key s h =
    let read = notify_key key (lookup key s.waiters) s in
    subst (λ s'. Wakes key (waiters_of (lookup key s.waiters)) s s')
      (sym (ap (λ b. if b then read else s) h))
      (notify_key-Wakes key (lookup key s.waiters) s h refl)
