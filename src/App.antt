-- ===== src/App.antt =====
-- ipapp/app.py (`BaseApplication`) and ipapp/component.py (`Component`): the registry of components,
-- their start, their ordered stop, and the run loop around both.
pub mod Registry
pub mod Order
pub mod Entries
pub mod Shutdown
pub mod Run
mod Tests
use ipapp.Common.{
  ℕ, zero, suc, ◌+◌, String, Bool, true, false, Option, none, some, List, [], ◌∷◌, ◌++◌,
  if◌then◌else◌,
}
use ipapp.Common.Lists.{contains}
use ipapp.Common.Dict.{Dict, lookup, keys, insert}
use ipapp.Common.Exec.{
  Result, ok, err, Exec, pure, raise, gets, or_raise, modify, outcome, ◌>>=◌, ◌>>◌, for_each,
}

-- The exceptions that the methods raise or tell apart. `raised` is any other exception of a
-- component, and `recursion` is the interpreter's RecursionError.
pub data Error : Type 0 where
  user_warning key_error recursion prepare_error graceful_exit keyboard_interrupt : Error
  raised : ℕ → Error

-- A component, as the application sees it: what each of its methods raises, if anything.
pub record Component : Type 0 where
  pub prepare : Option Error
  pub start : Option Error
  pub stop : Option Error
  pub health : Option Error

-- The calls that the application makes, in order.
pub data Call : Type 0 where
  prepared started stopped : String → Call
  logger_started logger_stopped : Call

-- The result of `_shutdown_fut`: `None`, or the marker `RESTART`.
pub data Request : Type 0 where
  shutdown restart : Request

pub record App : Type 0 where
  pub components : Dict Component
  pub stop_deps : Dict (List String)
  pub stopped : List String
  pub logger : Component
  pub logger_started : Bool
  pub shutdown_fut : Option Request
  pub calls : List Call

abbrev pub Method : Type 0 → Type 0
Method A = Exec Error App A

-- `BaseApplication.__init__`
abbrev pub init : Component → App
init logger = record {
  components = [];
  stop_deps = [];
  stopped = [];
  logger = logger;
  logger_started = false;
  shutdown_fut = none;
  calls = [];
}

abbrev or_empty : Option (List String) → List String
or_empty none = []
or_empty (some names) = names

-- `if cmp not in self._components: raise UserWarning(...)`
abbrev known : String → Method (Unit {0})
known name app =
    if contains name (keys app.components) then (ok tt, app) else (err user_warning, app)

abbrev register : String → Component → List String → App → App
register name comp deps app = record app {
  components = insert name comp app.components;
  stop_deps = insert name deps app.stop_deps;
}

-- `BaseApplication.add`, for a value that is a `Component`
pub add : String → Component → Option (List String) → Method (Unit {0})
unfolding for_each
add name comp stop_after app =
    if contains name (keys app.components)
    then (err user_warning, app)
    else (for_each known (or_empty stop_after) >> modify (register name comp (or_empty stop_after)))
        app

-- `BaseApplication.get`
pub get : String → App → Option Component
get name app = if contains name (keys app.components) then lookup name app.components else none

abbrev pub record_call : Call → Method (Unit {0})
record_call c = modify (λ app. record app { calls = app.calls ++ c ∷ [] })

abbrev pub deps_of : String → App → List String
deps_of name app = or_empty (lookup name app.stop_deps)

-- `await self._components[name].stop()`, then `self._stopped.append(name)`
pub stop_one : String → Method (Unit {0})
stop_one name = do
  comp ← λ app. or_raise (lookup name app.components) key_error app
  record_call (stopped name)
  outcome comp.stop
  modify (λ app. record app { stopped = app.stopped ++ name ∷ [] })

-- `BaseApplication._stop_comp`; the number is how deep the interpreter lets the calls nest.
pub stop_comp : ℕ → String → Method (Unit {0})
unfolding stop_one for_each
stop_comp zero name app = (err recursion, app)
stop_comp (suc limit) name app =
    if contains name app.stopped
    then (ok tt, app)
    else (for_each (stop_comp limit) (deps_of name app) >> stop_one name) app

-- `Logger.stop`, as far as the application sees it
stop_logger : Method (Unit {0})
stop_logger app =
    if app.logger_started
    then (record_call logger_stopped >> outcome app.logger.stop) app
    else (err user_warning, app)

-- `BaseApplication.stop`
pub stop : ℕ → Method (Unit {0})
unfolding stop_comp stop_logger
stop limit app = (for_each (stop_comp limit) (keys app.components) >> stop_logger) app

-- `asyncio.gather(*[f(x) for x in xs])`: every call is made, and the first exception is raised.
abbrev first_error : Result Error (Unit {0}) → Result Error (Unit {0}) → Result Error (Unit {0})
first_error (ok _) later = later
first_error (err e) later = err e

gather : (String × Component → Method (Unit {0})) → Dict Component → Method (Unit {0})
gather f [] app = (ok tt, app)
gather f (x ∷ xs) app =
    let (r, app') = f x app in let (later, app'') = gather f xs app' in (first_error r later, app'')

prepare_comp : String × Component → Method (Unit {0})
prepare_comp (name, comp) = record_call (prepared name) >> outcome comp.prepare

start_comp : String × Component → Method (Unit {0})
start_comp (name, comp) = record_call (started name) >> outcome comp.start

start_logger : Method (Unit {0})
start_logger = do
  modify (λ app. record app { logger_started = true })
  record_call logger_started
  λ app. outcome app.logger.start app

-- `BaseApplication.start`
pub start : Method (Unit {0})
unfolding gather prepare_comp start_comp start_logger
start = do
  start_logger
  λ app. gather prepare_comp app.components app
  λ app. gather start_comp app.components app

-- How `run` ends: an exit code, an exception, or a process that replaces this one.
pub data Exit : Type 0 where
  code : ℕ → Exit
  propagated : Error → Exit
  reloaded : Exit

-- the handlers around `start`
abbrev pub exit_of : Result Error (Unit {0}) → Exit
exit_of (ok _) = code 0
exit_of (err prepare_error) = code 1
exit_of (err graceful_exit) = code 1
exit_of (err keyboard_interrupt) = code 1
exit_of (err e) = propagated e

-- `BaseApplication.shutdown` and `BaseApplication.restart`, by the first request that arrives
abbrev request_once : Request → App → App
request_once r app = record app {
  shutdown_fut = elim app.shutdown_fut [ none ↦ some r | some old ↦ some old ];
}

-- Once started, the loop waits for the first request.
abbrev wait : Result Error (Unit {0}) → Request → App → App
wait (ok _) request app = request_once request app
wait (err e) request app = app

-- the inner `finally`: an exception of `stop` replaces the exit
abbrev after_stop : Result Error (Unit {0}) → Exit → Exit
after_stop (ok _) exit = exit
after_stop (err e) exit = propagated e

-- the outer `finally`
abbrev after_close : Option Request → Exit → Exit
after_close (some restart) exit = reloaded
after_close _ exit = exit

-- `BaseApplication.run`
pub run : ℕ → Request → App → Exit × App
run limit request app =
    let (r, started_app) = start app in
    let waited = wait r request started_app in
    let (r', stopped_app) = stop limit waited in
    (after_close stopped_app.shutdown_fut (after_stop r' (exit_of r)), stopped_app)

-- `BaseApplication.health`
unfoldable pub health_of : Dict Component → Dict (Option Error) → Dict (Option Error)
health_of [] result = result
health_of ((name, comp) ∷ rest) result = health_of rest (insert name comp.health result)

unfoldable pub health : App → Dict (Option Error)
unfolding health_of
health app = health_of app.components []
