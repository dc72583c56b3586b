-- ===== src/App/Shutdown.antt =====
-- `stop` of ipapp/app.py on a registry that `add` has built: it ends, and stops every component
-- once.
use ipapp.Common.{
  ℕ, zero, suc, ◌≤◌, String, ◌≡◌, refl, true, false, List, [], ◌∷◌, arith, inl, inr, Bool-cases,
  some, none, eq_iff, ◌∙◌, ap, subst, sym,
}
use ipapp.Common.Lists.{
  contains, contains-append, contains-snoc_self, contains-append_left, AllIn, take, length,
}
use ipapp.Common.Dict.{Dict, keys, lookup, contains-keys}
use ipapp.Common.Exec.{Result, Exec, ok, for_each}
use ipapp.App.{App, Component, Error, or_empty, deps_of, stop_one, stop_comp, stop_logger, stop}
use ipapp.App.Registry.{IsOrdered, IsValid}
use ipapp.App.Entries.{
  IsDistinct, IsDistinct-snoc, keys-take-suc, keys-take_sub, keys-take_all, Last, Last-or_before,
}

module _ (deps : Dict (List String)) (comps : Dict Component) where
  -- The state that `stop` works on: this registry, and nobody stopped twice so far.
  record Ready (app : App) : Type 0 where
    same_deps : app.stop_deps ≡ deps
    same_comps : app.components ≡ comps
    distinct : IsDistinct app.stopped

  -- The call returned, only the names given were added, and they were.
  record Ends (may : List String) (names : List String) (app : App) (r : Result Error (Unit {0}))
      (app' : App) : Type 0 where
    returns : r ≡ ok tt
    ready : Ready app'
    mono : (n : String) → contains n app.stopped ≡ true → contains n app'.stopped ≡ true
    only :
        (n : String)
        → contains n app.stopped ≡ false
        → contains n may ≡ false
        → contains n app'.stopped ≡ false
    all : AllIn names app'.stopped
    same_rest :
        (app'.logger_started ≡ app.logger_started)
        × (app'.logger ≡ app.logger)
        × (app'.shutdown_fut ≡ app.shutdown_fut)

  for_each-Ends :
      (may : List String) (f : String → Exec Error App (Unit {0}))
      → ((name : String) (app : App)
          → contains name may ≡ true
          → Ready app
          → let (r, app') = f name app in Ends may (name ∷ []) app r app')
      → (names : List String) (app : App) → AllIn names may
      → Ready app
      → let (r, app') = for_each f names app in Ends may names app r app'
  unfolding for_each
  for_each-Ends may f step [] app sub k = record {
    returns = refl;
    ready = record { same_deps = k.same_deps; same_comps = k.same_comps; distinct = k.distinct };
    mono = λ n h. h;
    only = λ n h h'. h;
    all = tt;
    same_rest = (refl, refl, refl);
  }
  for_each-Ends may f step (name ∷ names) app sub k =
      let first = step name app sub.0 k in
      let (r, app') = f name app in
      let rest = for_each-Ends may f step names app' sub.1 first.ready in
      rw first.returns (record {
        returns = rest.returns;
        ready = rest.ready;
        mono = λ n h. rest.mono n (first.mono n h);
        only = λ n h h'. rest.only n (first.only n h h') h';
        all = (rest.mono name first.all.0, rest.all);
        same_rest = (
          rest.same_rest.0 ∙ first.same_rest.0,
          rest.same_rest.1 ∙ first.same_rest.1,
          rest.same_rest.2 ∙ first.same_rest.2,
        );
      })

  widen :
      {may may' : List String} {names : List String} {app : App} {r : Result Error (Unit {0})}
      {app' : App}
      → ((n : String) → contains n may ≡ true → contains n may' ≡ true)
      → Ends may names app r app'
      → Ends may' names app r app'
  widen {may} {may'} sub e = record {
    returns = e.returns;
    ready = e.ready;
    mono = e.mono;
    all = e.all;
    same_rest = e.same_rest;
    only = λ n h h'. e.only n h (ground (arith, sub n));
  }

  then_Ends :
      {may xs ys : List String} {app app' app'' : App} {r r' : Result Error (Unit {0})}
      → Ends may xs app r app'
      → Ends may ys app' r' app''
      → Ends may ys app r' app''
  then_Ends a b = record {
    returns = b.returns;
    ready = b.ready;
    mono = λ n h. b.mono n (a.mono n h);
    only = λ n h h'. b.only n (a.only n h h') h';
    all = b.all;
    same_rest = (
      b.same_rest.0 ∙ a.same_rest.0,
      b.same_rest.1 ∙ a.same_rest.1,
      b.same_rest.2 ∙ a.same_rest.2,
    );
  }

  module _ (ordered : IsOrdered [] deps) (same_keys : keys comps ≡ keys deps)
      (quiet : (name : String) (comp : Component)
        → lookup name comps ≡ some comp
        → comp.stop ≡ none) where
    stop_one-Ends :
        (may : List String) (name : String) (app : App)
        → contains name may ≡ true
        → contains name (keys deps) ≡ true
        → contains name app.stopped ≡ false
        → Ready app
        → let (r, app') = stop_one name app in Ends may (name ∷ []) app r app'
    unfolding stop_one
    stop_one-Ends may name app sub registered fresh k =
        let (comp, found) =
          contains-keys name comps
            (subst (λ ks. contains name ks ≡ true) (sym same_keys) registered) in
        rw (subst (λ d. lookup name d ≡ some comp) (sym k.same_comps) found) (
          rw (quiet name comp found) (record {
            returns = refl;
            ready = record {
              same_deps = k.same_deps;
              same_comps = k.same_comps;
              distinct = IsDistinct-snoc app.stopped name k.distinct fresh;
            };
            mono = λ n h. contains-append_left n app.stopped (name ∷ []) h;
            only =
                λ n h h'. ground (arith, contains-append n app.stopped (name ∷ []), eq_iff name n);
            all = (contains-snoc_self name app.stopped, tt);
            same_rest = (refl, refl, refl);
          }))

    stop_comp-Ends :
        (k limit : ℕ) (name : String) (app : App)
        → k ≤ limit
        → contains name (keys (take k deps)) ≡ true
        → Ready app
        → let (r, app') = stop_comp limit name app in
          Ends (keys (take k deps)) (name ∷ []) app r app'
    unfolding stop_comp Last
    stop_comp-Ends zero limit name app h member ready = absurd (cc)
    stop_comp-Ends (suc k) zero name app h member ready = elim h [ ]
    stop_comp-Ends (suc k) (suc limit) name app h member ready =
        elim (Last-or_before [] k deps name ordered member) [
          | inl before ↦
              widen (keys-take-suc k deps)
                (stop_comp-Ends k (suc limit) name app (omega arith) before ready)
          | inr last ↦ elim (Bool-cases (contains name app.stopped)) [
            | inl already ↦ rw already (record {
              returns = refl;
              ready = ready;
              mono = λ n h. h;
              only = λ n h h'. h;
              all = (already, tt);
              same_rest = (refl, refl, refl);
            })
            | inr running ↦ rw running (
                let loop =
                  for_each-Ends (keys (take k deps)) (stop_comp limit)
                    (λ n a m r. stop_comp-Ends k limit n a (omega arith) m r) (deps_of name app) app
                    (subst (λ d. AllIn (or_empty (lookup name d)) (keys (take k deps)))
                      (sym ready.same_deps) last.1)
                    ready in
                let app' = (for_each (stop_comp limit) (deps_of name app) app).1 in
                rw loop.returns (
                  then_Ends (widen (keys-take-suc k deps) loop) (
                    stop_one-Ends (keys (take (suc k) deps)) name app' member
                      (keys-take_sub (suc k) deps name member) (loop.only name running last.0)
                      loop.ready)))
          ]
        ]

AllIn-keys :
    (ns xs : List String)
    → ((n : String) → contains n ns ≡ true → contains n xs ≡ true)
    → AllIn ns xs
AllIn-keys [] xs h = tt
AllIn-keys (n ∷ ns) xs h =
    (h n (ground (arith, eq_iff n n)), AllIn-keys ns xs (λ m e. h m (ground arith)))

stop_logger_lem :
    (app : App)
    → app.logger_started ≡ true
    → app.logger.stop ≡ none
    → ((stop_logger app).0 ≡ ok tt)
      × ((stop_logger app).1.stopped ≡ app.stopped)
      × ((stop_logger app).1.shutdown_fut ≡ app.shutdown_fut)
unfolding stop_logger
stop_logger_lem app started quiet = ground arith

-- On a well-formed registry, where no component raises in its `stop` and the interpreter lets
-- calls nest as deep as there are components, `stop` returns, every component is stopped, and
-- none twice; a request to shut down or restart stays as it was. The logger has been started, and its own `stop` does not raise.
pub stop-completes :
    (limit : ℕ) (app : App)
    → IsValid app
    → ((name : String) (comp : Component)
        → lookup name app.components ≡ some comp
        → comp.stop ≡ none)
    → app.logger_started ≡ true
    → app.logger.stop ≡ none
    → IsDistinct app.stopped
    → length app.stop_deps ≤ limit
    → let (r, app') = stop limit app in
      (r ≡ ok tt)
      × AllIn (keys app.components) app'.stopped
      × IsDistinct app'.stopped
      × (app'.shutdown_fut ≡ app.shutdown_fut)
unfolding stop
stop-completes limit app v quiet started logger distinct enough =
    let k = length app.stop_deps in
    let everybody : keys (take k app.stop_deps) ≡ keys app.components =
      keys-take_all k app.stop_deps (omega arith) ∙ sym v.same_keys in
    let loop =
      for_each-Ends app.stop_deps app.components (keys (take k app.stop_deps)) (stop_comp limit)
        (λ n a m r.
          stop_comp-Ends app.stop_deps app.components v.ordered v.same_keys quiet k limit n a enough
            m r)
        (keys app.components) app
        (AllIn-keys (keys app.components) (keys (take k app.stop_deps)) (λ n h. rw everybody h))
        (record { same_deps = refl; same_comps = refl; distinct = distinct }) in
    let app' = (for_each (stop_comp limit) (keys app.components) app).1 in
    let end =
      stop_logger_lem app' (loop.same_rest.0 ∙ started)
        (ap (λ (l : Component). l.stop) loop.same_rest.1 ∙ logger) in
    rw loop.returns
      (end.0, rw end.1 loop.all, rw end.1 loop.ready.distinct, end.2 ∙ loop.same_rest.2)
