-- ===== src/App/Tests.antt =====
-- The theorems about ipapp/app.py at concrete applications.
use ipapp.Common.{◌≡◌, refl, Bool, true, none, some, [], ◌∷◌, arith}
use ipapp.Common.Lists.{AllIn}
use ipapp.Common.Exec.{ok, err}
use ipapp.App.{App, Component, raised, prepare_error, add, get, stop, user_warning, init, health}
use ipapp.App.Registry.{IsValid, add-IsValid}
use ipapp.App.Order.{Respects, nobody, stop-Respects}
use ipapp.App.Entries.{IsDistinct}
use ipapp.App.Shutdown.{stop-completes}

abbrev quiet : Component
quiet = record { prepare = none; start = none; stop = none; health = none }

-- The `prepare` of this one raises.
abbrev unready : Component
unready = record {
  prepare = some prepare_error;
  start = none;
  stop = none;
  health = some (raised 7);
}

-- The database stops after the web server, which is the first component.
abbrev shop : Component → Bool → App
shop db on = record {
  components = ("web", quiet) ∷ ("db", db) ∷ [];
  stop_deps = ("web", []) ∷ ("db", "web" ∷ []) ∷ [];
  stopped = [];
  logger = quiet;
  logger_started = on;
  shutdown_fut = none;
  calls = [];
}

shop-IsValid : (db : Component) (on : Bool) → IsValid (shop db on)
shop-IsValid db on = record { ordered = (refl, tt, (refl, (refl, tt), tt)); same_keys = refl }

built :
    (add "db" quiet
      (some ("web" ∷ []))
      (add "web" quiet none (record (init quiet) { logger_started = true })).1).1
    ≡ shop quiet true
unfolding add
built = refl

unknown_dependency : (add "db" quiet (some ("cache" ∷ [])) (shop quiet true)).0 ≡ err user_warning
unfolding add
unknown_dependency = refl

stops_in_order : (stop 2 (shop quiet true)).1.stopped ≡ "web" ∷ "db" ∷ []
unfolding stop
stops_in_order = refl

got : get "db" (shop unready true) ≡ some unready
unfolding get
got = refl

health_report : health (shop unready true) ≡ ("web", none) ∷ ("db", some (raised 7)) ∷ []
unfolding health
health_report = refl

add-IsValid_example : IsValid (add "cache" quiet (some ("db" ∷ [])) (shop quiet true)).1
add-IsValid_example =
    add-IsValid "cache" quiet (some ("db" ∷ [])) (shop quiet true) (shop-IsValid quiet true)

stop-Respects_example : Respects (shop quiet true).stop_deps (stop 2 (shop quiet true)).1.stopped
stop-Respects_example = stop-Respects 2 (shop quiet true) nobody

stop-completes_example :
    let (r, app') = stop 2 (shop quiet true) in
    (r ≡ ok tt)
    × AllIn ("web" ∷ "db" ∷ []) app'.stopped
    × IsDistinct app'.stopped
    × (app'.shutdown_fut ≡ none)
stop-completes_example =
    stop-completes 2 (shop quiet true) (shop-IsValid quiet true) (λ name comp e. ground arith) refl
      refl tt (omega arith)
