-- ===== src/Rpc.antt =====
-- ipapp/rpc/main.py: the analysis of a handler's parameters, the binding and validation of the
-- arguments of a call (`_Method`), and the registry of methods (`Executor`). Handlers, JSON schemas
-- and the models that pydantic makes are parameters: functions on the arguments.
pub mod Validation
pub mod Binding
pub mod Dispatch
mod Tests
use ipapp.Common.{
  ℕ, zero, suc, ◌-◌, String, Bool, true, false, ◌||◌, Option, none, some, List, [], ◌∷◌, ◌++◌, ltb,
  ◌==◌, if◌then◌else◌,
}
use ipapp.Common.Lists.{length, contains, remove, take}
use ipapp.Common.Dict.{Dict, lookup, keys, insert}
use ipapp.Common.Exec.{Result, ok, err}

-- What an `InvalidArguments` says.
pub data Reason : Type 0 where
  wrong_count : (takes given : ℕ) → Reason
  unexpected : String → Reason
  missing : List String → Reason
  violation : (arg message : String) → Reason
  model_errors : String → Reason
  unexplained : Reason

-- The exceptions that the code raises, and those of a handler.
pub data Exc : Type 0 where
  invalid_arguments : Reason → Exc
  method_not_found not_implemented user_warning key_error : Exc
  raised_by_handler : String → Exc

module _ {A B : Type 0} where
  infixl 10 ◌>>=◌ ◌>>◌
  abbrev pub ◌>>=◌ : Result Exc A → (A → Result Exc B) → Result Exc B
  ok a >>= f = f a
  err e >>= f = err e

  abbrev pub ◌>>◌ : Result Exc A → Result Exc B → Result Exc B
  m >> k = m >>= λ _. k

-- What `inspect.getfullargspec` says of a function, and whether it is a bound method.
pub record ArgSpec (V : Type 0) : Type 0 where
  pub args : List String
  pub defaults : List V
  pub has_varkw : Bool
  pub kwonlyargs : List String
  pub is_method : Bool

-- The fields that `_Method._analyse_arguments` sets.
pub record Params (V : Type 0) : Type 0 where
  pub required_params : List String
  pub optional_params : Dict V
  pub params_order : List String
  pub is_kwargs : Bool

-- What `json_validate` says of one argument.
pub data Verdict : Type 0 where
  valid : Verdict
  invalid bad_schema : String → Verdict

abbrev pub drop : ℕ → List String → List String
drop zero xs = xs
drop (suc n) [] = []
drop (suc n) (x ∷ xs) = drop n xs

-- `args.pop(0)` of a bound method
abbrev pub without_self : Bool → List String → List String
without_self true (self ∷ args) = args
without_self _ args = args

-- `if ispec.kwonlyargs`
abbrev pub no_kwonly : List String → Result Exc (Unit {0})
no_kwonly [] = ok tt
no_kwonly (k ∷ ks) = err not_implemented

-- `if len(req) > 0`
abbrev pub no_required : List String → Result Exc (Unit {0})
no_required [] = ok tt
no_required (r ∷ req) = err (invalid_arguments (missing (r ∷ req)))

-- the handlers around `json_validate`
abbrev verdict_of : String → Verdict → Result Exc (Unit {0})
verdict_of name valid = ok tt
verdict_of name (invalid message) = err (invalid_arguments (violation name message))
verdict_of name (bad_schema message) = err user_warning

module _ {V : Type 0} where
  -- The loop over the parameters that have a default.
  abbrev pub with_defaults : List String → List V → Dict V → Dict V
  with_defaults (a ∷ args) (v ∷ defaults) d = with_defaults args defaults (insert a v d)
  with_defaults _ _ d = d

  -- The parameters with a default are the last ones.
  abbrev pub split_params : List String → List V → Bool → Params V
  split_params args defaults has_varkw =
      let n = length args - length defaults in
      record {
        required_params = take n args;
        optional_params = with_defaults (drop n args) defaults [];
        params_order = take n args ++ drop n args;
        is_kwargs = has_varkw;
      }

  -- `_Method._analyse_arguments`, without the model that pydantic makes from the annotations
  unfoldable pub analyse_arguments : ArgSpec V → Result Exc (Params V)
  analyse_arguments s =
      no_kwonly s.kwonlyargs
      >> ok (split_params (without_self s.is_method s.args) s.defaults s.has_varkw)

  -- The loop of `_validate_required_arguments`; `req` is what is still required.
  unfoldable pub validate_from : Params V → List String → List String → Result Exc (Unit {0})
  validate_from p req [] = no_required req
  validate_from p req (arg ∷ args) =
      let found = validate_from p (remove arg req) args in
      let rest = validate_from p req args in
      if contains arg req
      then found
      else if contains arg (keys p.optional_params) || p.is_kwargs
      then rest
      else err (invalid_arguments (unexpected arg))

  -- `_Method._validate_required_arguments`
  unfoldable pub validate_required_arguments : Params V → Dict V → Result Exc (Unit {0})
  unfolding validate_from
  validate_required_arguments p kwargs = validate_from p p.required_params (keys kwargs)

  -- `kwargs[self.params_order[i]] = args[i]`, for each position
  unfoldable pub positional : List String → List V → Dict V → Dict V
  positional (name ∷ order) (v ∷ args) kwargs = positional order args (insert name v kwargs)
  positional _ _ kwargs = kwargs

  -- The first step of `_validate_arguments`: positional arguments take the place of the keywords.
  unfoldable pub bind_arguments : Params V → List V → Dict V → Result Exc (Dict V)
  unfolding positional
  bind_arguments p [] kwargs = ok kwargs
  bind_arguments p (a ∷ args) kwargs =
      let n = length (a ∷ args) in
      if ltb (length p.params_order) n || ltb n (length p.required_params)
      then err (invalid_arguments (wrong_count (length p.params_order) n))
      else ok (positional p.params_order (a ∷ args) [])

  abbrev found_or : Option V → Option V → Result Exc V
  found_or (some v) _ = ok v
  found_or none (some v) = ok v
  found_or none none = err key_error

  -- The loop over `self._validators`; a validator is `json_validate` with its schema.
  unfoldable pub validate_schemas : Params V → Dict (V → Verdict) → Dict V → Result Exc (Unit {0})
  validate_schemas p [] args = ok tt
  validate_schemas p ((name, validator) ∷ validators) args =
      found_or (lookup name args) (lookup name p.optional_params) >>= λ v.
      verdict_of name (validator v) >> validate_schemas p validators args

  -- `_args[key] = getattr(model, key)`
  abbrev update : Dict V → Dict V → Dict V
  update [] args = args
  update ((k, v) ∷ fields) args = update fields (insert k v args)

  -- `self._model(**_args)`: the model's fields, or the errors of its validation
  unfoldable pub validate_model :
      Option (Dict V → Result String (Dict V)) → Dict V → Result Exc (Dict V)
  validate_model none args = ok args
  validate_model (some model) args = elim (model args) [
    | ok fields ↦ ok (update fields args)
    | err message ↦ err (invalid_arguments (model_errors message))
  ]

-- What `_Method` keeps of a handler.
pub record Method (V : Type 0) : Type 0 where
  pub params : Params V
  pub validators : Dict (V → Verdict)
  pub model : Option (Dict V → Result String (Dict V))
  pub func : Dict V → Result Exc V

-- A handler of the registry, with its `__rpc_name__`.
pub record Handler (V : Type 0) : Type 0 where
  pub rpc_name : String
  pub spec : ArgSpec V
  pub validators : Dict (V → Verdict)
  pub model : Option (Dict V → Result String (Dict V))
  pub func : Dict V → Result Exc V

module _ {V : Type 0} where
  -- `_Method._validate_arguments`
  unfoldable pub validate_arguments : Method V → List V → Dict V → Result Exc (Dict V)
  unfolding bind_arguments validate_required_arguments validate_schemas validate_model
  validate_arguments m args kwargs = bind_arguments m.params args kwargs >>= λ bound.
      validate_required_arguments m.params bound
      >> (validate_schemas m.params m.validators bound >> validate_model m.model bound)

  -- `_Method.__call__`
  unfoldable pub call : Method V → List V → Dict V → Result Exc V
  unfolding validate_arguments
  call m args kwargs = validate_arguments m args kwargs >>= m.func

  -- `_Method.__init__`
  unfoldable pub method_of : Handler V → Result Exc (Method V)
  unfolding analyse_arguments
  method_of h = analyse_arguments h.spec >>= λ params.
      ok (record { params = params; validators = h.validators; model = h.model; func = h.func })

  -- the loop of `Executor.__init__`
  unfoldable pub init_from : List (Handler V) → Dict (Method V) → Result Exc (Dict (Method V))
  unfolding method_of
  init_from [] methods = ok methods
  init_from (h ∷ hs) methods =
      let rest = method_of h >>= λ m. init_from hs (insert h.rpc_name m methods) in
      if contains h.rpc_name (keys methods) then err user_warning else rest

  -- `Executor.__init__`
  unfoldable pub init : List (Handler V) → Result Exc (Dict (Method V))
  unfolding init_from
  init registry = init_from registry []

  abbrev dispatch : Option (Method V) → List V → Dict V → Result Exc V
  dispatch none args kwargs = err method_not_found
  dispatch (some m) args kwargs = call m args kwargs

  -- `Executor.exec`
  unfoldable pub exec : Dict (Method V) → String → List V → Dict V → Result Exc V
  unfolding call
  exec methods name (a ∷ args) (k ∷ kwargs) = err not_implemented
  exec methods name args kwargs = dispatch (lookup name methods) args kwargs
