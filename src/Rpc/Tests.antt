-- ===== src/Rpc/Tests.antt =====
-- The theorems about ipapp/rpc/main.py at a concrete registry.
use ipapp.Common.{ℕ, ◌≡◌, ◌↔◌, refl, true, false, none, some, [], ◌∷◌, arith}
use ipapp.Common.Dict.{Dict, lookup}
use ipapp.Common.Exec.{Result, ok, err}
use ipapp.Rpc.{
  ArgSpec, Params, Method, Handler, Exc, raised_by_handler, invalid_arguments, missing, unexpected,
  split_params, analyse_arguments, validate_arguments, validate_required_arguments, init, call,
}
use ipapp.Rpc.Validation.{IsAccepted, validate_required_arguments_lem}
use ipapp.Rpc.Binding.{validate_arguments-positional}

-- `def pay(self, account, amount, note=7)`
abbrev pay_spec : ArgSpec ℕ
pay_spec = record {
  args = "self" ∷ "account" ∷ "amount" ∷ "note" ∷ [];
  defaults = 7 ∷ [];
  has_varkw = false;
  kwonlyargs = [];
  is_method = true;
}

abbrev pay_params : Params ℕ
pay_params = split_params ("account" ∷ "amount" ∷ "note" ∷ []) (7 ∷ []) false

abbrev amount_of : Dict ℕ → Result Exc ℕ
amount_of args = elim (lookup "amount" args) [
  | none ↦ err (raised_by_handler "no amount")
  | some n ↦ ok n
]

abbrev pay : Handler ℕ
pay = record { rpc_name = "pay"; spec = pay_spec; validators = []; model = none; func = amount_of }

abbrev pay_method : Method ℕ
pay_method = record { params = pay_params; validators = []; model = none; func = amount_of }

analyse_pay : analyse_arguments pay_spec ≡ ok pay_params
unfolding analyse_arguments
analyse_pay = refl

call_pay : call pay_method (3 ∷ 5 ∷ []) [] ≡ ok 5
unfolding call
call_pay = refl

call_pay_missing :
    call pay_method [] (("amount", 5) ∷ []) ≡ err (invalid_arguments (missing ("account" ∷ [])))
unfolding call
call_pay_missing = refl

call_pay_unexpected :
    call pay_method [] (("sum", 5) ∷ []) ≡ err (invalid_arguments (unexpected "sum"))
unfolding call
call_pay_unexpected = refl

abbrev pay_kwargs : Dict ℕ
pay_kwargs = ("amount", 5) ∷ ("account", 3) ∷ []

validate_required_arguments_lem_example :
    (validate_required_arguments pay_params pay_kwargs ≡ ok tt)
    ↔ IsAccepted pay_params ("account" ∷ "amount" ∷ []) ("amount" ∷ "account" ∷ [])
validate_required_arguments_lem_example =
    validate_required_arguments_lem pay_params pay_kwargs (refl, (refl, tt)) (refl, (refl, tt))

validate_arguments-positional_example :
    (validate_arguments pay_method (3 ∷ 5 ∷ []) []
      ≡ validate_arguments pay_method [] (("account", 3) ∷ ("amount", 5) ∷ []))
    × (validate_required_arguments pay_params (("account", 3) ∷ ("amount", 5) ∷ []) ≡ ok tt)
validate_arguments-positional_example =
    validate_arguments-positional pay_spec pay_method 3 (5 ∷ []) [] analyse_pay
      (refl, (refl, (refl, tt))) (omega arith) (omega arith) (omega arith)

init-pay : init (pay ∷ []) ≡ ok (("pay", pay_method) ∷ [])
unfolding init
init-pay = refl
