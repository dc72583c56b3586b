-- ===== src/Locks/Tests.antt =====
-- The theorems about ipapp/utils/lock/local.py at a process with two calls of one key.
use ipapp.Common.{List, ◌≤◌, ◌≡◌, refl, true, false, not, none, some, [], ◌∷◌}
use ipapp.Common.Lists.{contains, count}
use ipapp.Common.Exec.{ok}
use ipapp.Locks.{Process, Reachable, here, next, comes, idle, acquire, release, time_out}
use ipapp.Locks.Exclusion.{acquire-exclusive}
use ipapp.Locks.{key_error}
use ipapp.Locks.Refinement
use ipapp.Locks.Refinement.{
  comes as arrives, gives_up, leaves, Event, entered as let_in, gone, left, refused, run, view,
  run_refines,
}

-- Call 1 is inside, call 2 waits.
abbrev busy : Process
busy = record {
  lock = record {
    locks = ("pay", record { locked = true; waiting = 2 ∷ [] }) ∷ [];
    locking = "pay" ∷ "pay" ∷ [];
  };
  inside = "pay" ∷ [];
}

abbrev entered : Process
entered = record {
  lock = record {
    locks = ("pay", record { locked = true; waiting = [] }) ∷ [];
    locking = "pay" ∷ [];
  };
  inside = "pay" ∷ [];
}

busy-Reachable : Reachable busy
unfolding acquire
busy-Reachable = next {q = busy} (next {q = entered} here (comes 1 "pay" refl)) (comes 2 "pay" refl)

release_busy : release "pay" busy.lock ≡ ok (some 2, entered.lock)
unfolding release
release_busy = refl

release_entered : release "pay" entered.lock ≡ ok (none, idle.lock)
unfolding release
release_entered = refl

time_out_busy : time_out 2 "pay" busy.lock ≡ entered.lock
unfolding time_out
time_out_busy = refl

acquire-exclusive_example :
    (count "pay" busy.inside ≤ 1)
    × ((acquire 3 "pay" busy.lock).0 ≡ not (contains "pay" busy.lock.locking))
acquire-exclusive_example = acquire-exclusive busy 3 "pay" busy-Reachable

abbrev events : List Event
events =
    arrives 1 "pay"
    ∷ arrives 2 "pay"
    ∷ arrives 3 "pay"
    ∷ gives_up 2 "pay"
    ∷ leaves "pay"
    ∷ leaves "pay"
    ∷ leaves "pay"
    ∷ []

run_refines_example :
    ((run events idle.lock).0
      ≡ let_in true
        ∷ let_in false
        ∷ let_in false
        ∷ gone
        ∷ left (some 3)
        ∷ left none
        ∷ refused key_error
        ∷ [])
    × (view (run events idle.lock).1 ≡ (Refinement.replay events (λ key. none)).1)
run_refines_example = run_refines events (refl, (refl, (refl, (refl, (refl, (refl, (refl, tt)))))))
