-- ===== src/Locks/Postgres/Tests.antt =====
-- The theorem about ipapp/utils/lock/pg.py at a connection that is lost in the second round.
use ipapp.Common.{◌≡◌, refl, true, false, [], ◌∷◌}
use ipapp.Common.Exec.{ok}
use ipapp.Locks.{acquire}
use ipapp.Locks.Postgres.{PgLock, raises_at, rounds_of, acquire_granted, acquire-swallows}

abbrev idle : PgLock
idle = record { local = record { locks = []; locking = [] }; held = "mail" ∷ [] }

acquire-swallows_example :
    let rounds = rounds_of (false ∷ []) (raises_at true []) in
    let (granted, local) = acquire 1 "pay" idle.local in
    let (r, s') = acquire_granted "pay" rounds (record idle { local = local }) in
    (granted ≡ true) × (r ≡ ok true) × (s'.held ≡ []) × ((acquire 2 "pay" s'.local).0 ≡ true)
acquire-swallows_example =
    acquire-swallows 1 2 "pay" (false ∷ []) (raises_at true []) idle (refl, refl)
