-- ===== src/App/Run.antt =====
-- `start` and `run` of ipapp/app.py: the sequence of calls, and what is left when `run` ends.
use mathlib.Core.List.{append-nil, append_assoc}
use ipapp.Common.{
  String, ◌≡◌, refl, true, none, some, Option, List, [], ◌∷◌, ◌++◌, map, arith, inl, inr, ◌⊎◌,
  Option-cases,
}
use ipapp.Common.Dict.{Dict}
use ipapp.Common.Exec.{Result, ok, err}
use ipapp.App.{
  App, Method, Component, Error, Call, prepared, started, logger_started, gather, first_error,
  prepare_comp, start_comp, start_logger, start,
}

abbrev raising : Option Error → Result Error (Unit {0})
raising none = ok tt
raising (some e) = err e

-- What `gather` raises: the exception of the first component whose method raises.
abbrev first_raise : (Component → Option Error) → Dict Component → Result Error (Unit {0})
first_raise f [] = ok tt
first_raise f ((name, comp) ∷ rest) = first_error (raising (f comp)) (first_raise f rest)

-- The state after further calls: nothing but the sequence of calls has changed.
abbrev after_calls : List Call → App → App
after_calls cs app = record app { calls = app.calls ++ cs }

-- The calls that `start` makes after the logger's: every `prepare`, and only if none raises every `start`.
abbrev start_calls : Component → Dict Component → List Call
start_calls logger comps = elim logger.start [
  | some e ↦ []
  | none ↦ map (λ x. prepared x.0) comps ++ (elim (first_raise (λ c. c.prepare) comps) [
    | ok _ ↦ map (λ x. started x.0) comps
    | err e ↦ []
  ])
]

abbrev start_result : Component → Dict Component → Result Error (Unit {0})
start_result logger comps =
    first_error (raising logger.start)
      (first_error (first_raise (λ c. c.prepare) comps) (first_raise (λ c. c.start) comps))

module _ (f : String × Component → Method (Unit {0})) (call : String → Call)
    (raises : Component → Option Error)
    (f_lem : (x : String × Component) (app : App)
      → f x app ≡ (raising (raises x.1), after_calls (call x.0 ∷ []) app)) where
  gather_lem :
      (xs : Dict Component) (app : App)
      → gather f xs app ≡ (first_raise raises xs, after_calls (map (λ x. call x.0) xs) app)
  unfolding gather
  gather_lem [] app = rw append-nil
  gather_lem (x ∷ xs) app =
      rw (f_lem x app, gather_lem xs (after_calls (call x.0 ∷ []) app), append_assoc)

prepare_comp_lem :
    (x : String × Component) (app : App)
    → prepare_comp x app ≡ (raising x.1.prepare, after_calls (prepared x.0 ∷ []) app)
unfolding prepare_comp
prepare_comp_lem x app = ground arith

start_comp_lem :
    (x : String × Component) (app : App)
    → start_comp x app ≡ (raising x.1.start, after_calls (started x.0 ∷ []) app)
unfolding start_comp
start_comp_lem x app = ground arith

Result-cases : (r : Result Error (Unit {0})) → (r ≡ ok tt) ⊎ ((e : Error) × (r ≡ err e))
Result-cases (ok t) = inl refl
Result-cases (err e) = inr (e, refl)

-- `start` makes these calls and no other: the logger's start, then every `prepare`, then every
-- `start` if no `prepare` raised; it raises the first exception, and the registry stays as it was.
pub start_lem :
    (app : App)
    → start app ≡ (
      start_result app.logger app.components,
      record app {
        logger_started = true;
        calls = app.calls ++ logger_started ∷ start_calls app.logger app.components;
      },
    )
unfolding start start_logger
start_lem app = elim (Option-cases app.logger.start) [
  | inl quiet ↦
      rw (quiet, gather_lem prepare_comp prepared (λ c. c.prepare) prepare_comp_lem app.components)
        (elim (Result-cases (first_raise (λ c. c.prepare) app.components)) [
          | inl prepared_all ↦
              rw
                (
                  prepared_all,
                  gather_lem start_comp started (λ c. c.start) start_comp_lem app.components,
                )
                (simp append_assoc)
          | inr (e, raises) ↦ rw raises (simp (append_assoc, append-nil))
        ])
  | inr (e, raises) ↦ rw raises
]
