-- ===== src/Rpc/Dispatch.antt =====
-- The registry of `Executor` in ipapp/rpc/main.py: each handler answers to its own name, no two to one,
-- and other names are refused.
use ipapp.Common.{
  ◌≡◌, ◌⊎◌, refl, String, true, false, none, some, List, [], ◌∷◌, eq_iff, arith, inl, inr,
  Bool-cases, map,
}
use ipapp.Common.Lists.{contains, All, Distinct}
use ipapp.Common.Dict.{Dict, keys, insert, lookup, lookup-insert, contains-keys-insert}
use ipapp.Common.Exec.{Result, ok, err}
use ipapp.Rpc.{
  Method, Handler, split_params, without_self, method_of, analyse_arguments, init_from, init, exec,
  call, method_not_found,
}

Result-cases : {E A : Type 0} (r : Result E A) → ((a : A) × (r ≡ ok a)) ⊎ ((e : E) × (r ≡ err e))
Result-cases (ok a) = inl (a, refl)
Result-cases (err e) = inr (e, refl)

module _ {V : Type 0} where
  abbrev pub rpc_names : List (Handler V) → List String
  rpc_names hs = map (λ h. h.rpc_name) hs

  -- The methods know the handler by its name.
  abbrev pub IsBound : Dict (Method V) → Handler V → Type 0
  IsBound methods h = (m : Method V) × (method_of h ≡ ok m) × (lookup h.rpc_name methods ≡ some m)

  lookup-not_contains :
      (k : String) (d : Dict (Method V)) → contains k (keys d) ≡ false → lookup k d ≡ none
  lookup-not_contains k [] h = refl
  lookup-not_contains k ((j, m) ∷ d) h = ground (arith, lookup-not_contains k d)

  -- A step of the loop that ends well.
  init_from-step :
      (h : Handler V) (hs : List (Handler V)) (ms methods : Dict (Method V))
      → init_from (h ∷ hs) ms ≡ ok methods
      → (contains h.rpc_name (keys ms) ≡ false)
        × (m : Method V) × (method_of h ≡ ok m)
        × (init_from hs (insert h.rpc_name m ms) ≡ ok methods)
  unfolding init_from
  init_from-step h hs ms methods e = elim (Bool-cases (contains h.rpc_name (keys ms))) [
    | inl old ↦ absurd (ground arith)
    | inr new ↦ elim (Result-cases (method_of h)) [
      | inl (m, f) ↦ (new, m, f, ground (arith, f, new, e))
      | inr (x, f) ↦ absurd (ground (arith, f, new, e))
    ]
  ]

  -- What is known stays as it is, and what is neither known nor in the list stays unknown.
  init_from-lookup :
      (hs : List (Handler V)) (ms methods : Dict (Method V)) (k : String)
      → init_from hs ms ≡ ok methods
      → contains k (keys ms) ≡ true ⊎ contains k (rpc_names hs) ≡ false
      → lookup k methods ≡ lookup k ms
  unfolding init_from
  init_from-lookup [] ms methods k e known = ground arith
  init_from-lookup (h ∷ hs) ms methods k e known =
      let (new, m, f, rest) = init_from-step h hs ms methods e in
      ground (
        arith,
        init_from-lookup hs (insert h.rpc_name m ms) methods k rest,
        lookup-insert h.rpc_name k m ms,
        contains-keys-insert k h.rpc_name m ms,
        eq_iff h.rpc_name k,
        known,
        new,
      )

  init_from-AllBound :
      (hs : List (Handler V)) (ms methods : Dict (Method V))
      → init_from hs ms ≡ ok methods
      → All (IsBound methods) hs
  init_from-AllBound [] ms methods e = tt
  init_from-AllBound (h ∷ hs) ms methods e =
      let (new, m, f, rest) = init_from-step h hs ms methods e in
      let name = h.rpc_name in
      (
        (
          m,
          f,
          ground (
            arith,
            init_from-lookup hs (insert name m ms) methods name rest,
            lookup-insert name name m ms,
            contains-keys-insert name name m ms,
            eq_iff name name,
          ),
        ),
        init_from-AllBound hs (insert name m ms) methods rest,
      )

  init_from-Distinct :
      (hs : List (Handler V)) (ms methods : Dict (Method V))
      → init_from hs ms ≡ ok methods
      → Distinct (rpc_names hs)
        × ((k : String) → contains k (keys ms) ≡ true → contains k (rpc_names hs) ≡ false)
  init_from-Distinct [] ms methods e = (tt, λ k h. refl)
  init_from-Distinct (h ∷ hs) ms methods e =
      let (new, m, f, rest) = init_from-step h hs ms methods e in
      let name = h.rpc_name in
      let (distinct, apart) = init_from-Distinct hs (insert name m ms) methods rest in
      (
        (
          apart name (ground (arith, contains-keys-insert name name m ms, eq_iff name name)),
          distinct,
        ),
        λ k q. ground (arith, apart k, contains-keys-insert k name m ms, eq_iff name k, new, q),
      )

  method_of-returns :
      (h : Handler V) → h.spec.kwonlyargs ≡ [] → (m : Method V) × (method_of h ≡ ok m)
  unfolding method_of analyse_arguments
  method_of-returns h plain =
      let s = h.spec in
      let m : Method V = record {
        params = split_params (without_self s.is_method s.args) s.defaults s.has_varkw;
        validators = h.validators;
        model = h.model;
        func = h.func;
      } in
      (m, rw plain refl)

  init_from-returns :
      (hs : List (Handler V)) (ms : Dict (Method V))
      → Distinct (rpc_names hs)
      → ((k : String) → contains k (rpc_names hs) ≡ true → contains k (keys ms) ≡ false)
      → All (λ h. h.spec.kwonlyargs ≡ []) hs
      → (methods : Dict (Method V)) × (init_from hs ms ≡ ok methods)
  unfolding init_from
  init_from-returns [] ms d apart plain = (ms, refl)
  init_from-returns (h ∷ hs) ms d apart plain =
      let name = h.rpc_name in
      let new = apart name (ground (arith, eq_iff name name)) in
      let (m, f) = method_of-returns h plain.0 in
      rw (new, f)
        (init_from-returns hs (insert name m ms) d.1
          (λ k q. ground (arith, apart k, contains-keys-insert k name m ms, eq_iff name k, d.0, q))
          plain.1)

  exec-args :
      (methods : Dict (Method V)) (name : String) (m : Method V) (args : List V)
      → lookup name methods ≡ some m
      → exec methods name args [] ≡ call m args []
  unfolding exec
  exec-args methods name m [] found = rw found refl
  exec-args methods name m (a ∷ args) found = rw found refl

  exec-kwargs :
      (methods : Dict (Method V)) (name : String) (m : Method V) (kwargs : Dict V)
      → lookup name methods ≡ some m
      → exec methods name [] kwargs ≡ call m [] kwargs
  unfolding exec
  exec-kwargs methods name m [] found = rw found refl
  exec-kwargs methods name m (k ∷ kwargs) found = rw found refl

  exec-missing :
      (methods : Dict (Method V)) (name : String) (args : List V)
      → lookup name methods ≡ none
      → exec methods name args [] ≡ err method_not_found
  unfolding exec
  exec-missing methods name [] found = rw found refl
  exec-missing methods name (a ∷ args) found = rw found refl

  -- A call of this handler's name runs this handler.
  abbrev pub Answers : Dict (Method V) → Handler V → Type 0
  Answers methods h =
      (m : Method V) × (method_of h ≡ ok m)
      × ((args : List V) → exec methods h.rpc_name args [] ≡ call m args [])
      × ((kwargs : Dict V) → exec methods h.rpc_name [] kwargs ≡ call m [] kwargs)

  All-Answers :
      (methods : Dict (Method V)) (hs : List (Handler V))
      → All (IsBound methods) hs
      → All (Answers methods) hs
  All-Answers methods [] bound = tt
  All-Answers methods (h ∷ hs) bound =
      let (m, f, found) = bound.0 in
      (
        (
          m,
          f,
          λ args. exec-args methods h.rpc_name m args found,
          λ kwargs. exec-kwargs methods h.rpc_name m kwargs found,
        ),
        All-Answers methods hs bound.1,
      )

  -- A registry of handlers without keyword-only parameters, no two of the same name, is accepted; then
  -- a call of a handler's name runs that handler, by position as by keyword.
  pub init_lem :
      (hs : List (Handler V))
      → Distinct (rpc_names hs)
      → All (λ h. h.spec.kwonlyargs ≡ []) hs
      → (methods : Dict (Method V)) × (init hs ≡ ok methods) × All (Answers methods) hs
  unfolding init
  init_lem hs d plain =
      let (methods, e) = init_from-returns hs [] d (λ k q. refl) plain in
      (methods, e, All-Answers methods hs (init_from-AllBound hs [] methods e))

  -- A registry that is accepted has no two handlers of one name, and a call of a name that no handler has
  -- is refused as not found.
  pub exec-unknown :
      (hs : List (Handler V)) (methods : Dict (Method V)) (name : String) (args : List V)
      → init hs ≡ ok methods
      → contains name (rpc_names hs) ≡ false
      → Distinct (rpc_names hs) × (exec methods name args [] ≡ err method_not_found)
  unfolding init
  exec-unknown hs methods name args e absent = (
    (init_from-Distinct hs [] methods e).0,
    exec-missing methods name args (init_from-lookup hs [] methods name e (inr absent)),
  )
