-- ===== src/App/Order.antt =====
-- The order in which `stop` of ipapp/app.py stops the components.
use ipapp.Common.{
  ℕ, zero, suc, String, ◌≡◌, refl, List, [], ◌∷◌, ◌++◌, arith, inl, inr, true, Bool-cases,
  Option-cases, subst,
}
use ipapp.Common.Lists.{contains, AllIn, contains-append_left, contains-snoc_self}
use ipapp.Common.Dict.{Dict, lookup, keys}
use ipapp.Common.Exec.{Result, ok, err, Exec, for_each, continue, bind-keeps}
use ipapp.App.{App, Error, or_empty, deps_of, stop_one, stop_comp, stop_logger, stop}

-- Every name of the list stands behind all that its entry of `deps` names.
pub data Respects (deps : Dict (List String)) : List String → Type 0 where
  nobody : Respects deps []
  next :
      {before after : List String} (name : String)
      → Respects deps before
      → AllIn (or_empty (lookup name deps)) before
      → after ≡ before ++ name ∷ []
      → Respects deps after

-- The dependencies are these, and the components stopped so far respect them.
pub record InOrder (deps : Dict (List String)) (app : App) : Type 0 where
  pub same_deps : app.stop_deps ≡ deps
  pub respects : Respects deps app.stopped

-- What a call that began at `app` has done: the order holds, nobody is forgotten, and if it
-- returned then `names` are stopped.
record Stopped (deps : Dict (List String)) (names : List String) (app : App)
    (r : Result Error (Unit {0})) (app' : App) : Type 0 where
  in_order : InOrder deps app'
  mono : (n : String) → contains n app.stopped ≡ true → contains n app'.stopped ≡ true
  all : r ≡ ok tt → AllIn names app'.stopped

module _ (deps : Dict (List String)) where
  stop_one-Stopped :
      (name : String) (app : App)
      → AllIn (or_empty (lookup name deps)) app.stopped
      → InOrder deps app
      → let (r, app') = stop_one name app in Stopped deps (name ∷ []) app r app'
  unfolding stop_one
  stop_one-Stopped name app behind k = elim (Option-cases (lookup name app.components)) [
    | inl missing ↦ rw missing (record { in_order = k; mono = λ n h. h; all = λ e. cc })
    | inr (comp, found) ↦ rw found (elim (Option-cases comp.stop) [
      | inl returns ↦ rw returns (record {
        in_order = record { same_deps = k.same_deps; respects = next name k.respects behind refl };
        mono = λ n h. contains-append_left n app.stopped (name ∷ []) h;
        all = λ e. (contains-snoc_self name app.stopped, tt);
      })
      | inr (e, raises) ↦ rw raises (record {
        in_order = record { same_deps = k.same_deps; respects = k.respects };
        mono = λ n h. h;
        all = λ e. cc;
      })
    ])
  ]

  -- what follows a call, once it has returned
  continue-Stopped :
      (f : Exec Error App (Unit {0})) (xs ys : List String) (app app' : App)
      (r : Result Error (Unit {0}))
      → Stopped deps xs app r app'
      → ((app' : App)
          → InOrder deps app'
          → AllIn xs app'.stopped
          → let (r, app'') = f app' in Stopped deps ys app' r app'')
      → let (r', app'') = continue r (λ _. f) app' in Stopped deps ys app r' app''
  continue-Stopped f xs ys app app' (err e) first rest = record {
    in_order = first.in_order;
    mono = first.mono;
    all = λ p. cc;
  }
  continue-Stopped f xs ys app app' (ok t) first rest =
      let then = rest app' first.in_order (first.all refl) in
      record {
        in_order = then.in_order;
        mono = λ n h. then.mono n (first.mono n h);
        all = then.all;
      }

  for_each-Stopped :
      (f : String → Exec Error App (Unit {0}))
      → ((name : String) (app : App)
          → InOrder deps app
          → let (r, app') = f name app in Stopped deps (name ∷ []) app r app')
      → (names : List String) (app : App) → InOrder deps app
      → let (r, app') = for_each f names app in Stopped deps names app r app'
  unfolding for_each
  for_each-Stopped f step [] app k = record {
    in_order = record { same_deps = k.same_deps; respects = k.respects };
    mono = λ n h. h;
    all = λ p. tt;
  }
  for_each-Stopped f step (name ∷ names) app k =
      let (r, app') = f name app in
      continue-Stopped (for_each f names) (name ∷ []) (name ∷ names) app app' r (step name app k)
        λ later k' here. tail later here (for_each-Stopped f step names later k')
    where
      tail :
          (app' : App)
          → AllIn (name ∷ []) app'.stopped
          → (let (r, app'') = for_each f names app' in Stopped deps names app' r app'')
          → (let (r, app'') = for_each f names app' in Stopped deps (name ∷ names) app' r app'')
      tail app' here t = record {
        in_order = t.in_order;
        mono = t.mono;
        all = λ p. (t.mono name here.0, t.all p);
      }

  stop_comp-Stopped :
      (limit : ℕ) (name : String) (app : App)
      → InOrder deps app
      → let (r, app') = stop_comp limit name app in Stopped deps (name ∷ []) app r app'
  unfolding stop_comp
  stop_comp-Stopped zero name app k = record { in_order = k; mono = λ n h. h; all = λ p. cc }
  stop_comp-Stopped (suc limit) name app k = elim (Bool-cases (contains name app.stopped)) [
    | inl already ↦ rw already (record { in_order = k; mono = λ n h. h; all = λ p. (already, tt) })
    | inr running ↦ rw running (
        continue-Stopped (stop_one name) (deps_of name app) (name ∷ []) app
          (for_each (stop_comp limit) (deps_of name app) app).1
          (for_each (stop_comp limit) (deps_of name app) app).0
          (for_each-Stopped (stop_comp limit) (stop_comp-Stopped limit) (deps_of name app) app k)
          λ app' k' behind.
            stop_one-Stopped name app'
              (subst (λ d. AllIn (or_empty (lookup name d)) app'.stopped) k.same_deps behind) k')
  ]

stopped-stop_logger : (app : App) → (stop_logger app).1.stopped ≡ app.stopped
unfolding stop_logger
stopped-stop_logger app = ground arith

-- Whatever the components raise and however deep the calls may nest, the components that `stop`
-- has stopped stand in an order in which each one comes behind all of its `stop_after`.
pub stop-Respects :
    (limit : ℕ) (app : App)
    → Respects app.stop_deps app.stopped
    → Respects app.stop_deps (stop limit app).1.stopped
unfolding stop
stop-Respects limit app h =
    bind-keeps (λ a. Respects app.stop_deps a.stopped)
      (for_each (stop_comp limit) (keys app.components)) (λ _. stop_logger)
      (λ _ a k. rw (stopped-stop_logger a) k) app
      (for_each-Stopped app.stop_deps (stop_comp limit) (stop_comp-Stopped app.stop_deps limit)
        (keys app.components) app (record { same_deps = refl; respects = h })).in_order.respects
