-- ===== src/Locks/Redis/Tests.antt =====
-- The theorems about ipapp/utils/lock/redis.py at two processes and one key.
use ipapp.Common.{◌+◌, ◌≡◌, ◌≤◌, refl, true, false, ◌&&◌, not, ◌==◌, String, List, [], ◌∷◌, arith}
use ipapp.Common.Lists.{count}
use ipapp.Common.Dict.{lookup}
use ipapp.Locks.Redis.{
  Event, attempts, wakes, reads, releases, expires, idle, run, step, RedisLock, pending, notified,
  waiters_of, message,
}
use ipapp.Locks.Redis.Exclusive.{attempt-exclusive, release-steals}
use ipapp.Locks.Redis.Woken.{all_pending, any_pending, message_lem}

-- Process 2 waits until process 1 has released the key.
abbrev in_turn : List Event
in_turn =
    attempts 1 5 "pay" false
    ∷ attempts 2 6 "pay" false
    ∷ releases "pay"
    ∷ reads 2 "pay"
    ∷ wakes 2 6 "pay" false false
    ∷ attempts 2 6 "pay" false
    ∷ []

run-in_turn : ((run in_turn idle).inside ≡ "pay" ∷ []) × ((run in_turn idle).server ≡ "pay" ∷ [])
unfolding run
run-in_turn = (refl, refl)

attempt-exclusive_example : count "pay" (run in_turn idle).inside ≤ 1
attempt-exclusive_example =
    attempt-exclusive in_turn "pay" (refl, (refl, (refl, (refl, (refl, (refl, tt))))))

-- The key of process 1 expires while its call is inside.
abbrev with_expiry : List Event
with_expiry = attempts 1 5 "pay" false ∷ expires "pay" ∷ attempts 2 6 "pay" false ∷ []

release-steals_example :
    let p = step (releases "pay") (run with_expiry idle) in
    (1 ≤ count "pay" p.inside)
    × (count "pay" (step (attempts 3 7 "pay" false) p).inside ≡ 1 + count "pay" p.inside)
unfolding run
release-steals_example = release-steals with_expiry 3 7 "pay" false (ground arith)

-- A second message comes before the first call has gone on.
abbrev twice_notified : RedisLock
twice_notified = record {
  waiters = ("pay", (5, notified) ∷ (6, pending) ∷ []) ∷ ("send", (7, pending) ∷ []) ∷ [];
  reading = true;
}

message_lem_example :
    ((message "pay" twice_notified).reading ≡ false)
    × ((other : String)
        → any_pending (waiters_of (lookup other (message "pay" twice_notified).waiters)) ≡ (
            all_pending (waiters_of (lookup "pay" twice_notified.waiters))
            && not ("pay" == other)
            && any_pending (waiters_of (lookup other twice_notified.waiters))))
message_lem_example = message_lem "pay" twice_notified refl
