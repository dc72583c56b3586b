-- ===== src/Rpc/Binding.antt =====
-- Positional calls of ipapp/rpc/main.py: they are the keyword calls that name the parameters in order.
use mathlib.Core.List.{append-nil, append_assoc}
use ipapp.Common.{
  ℕ, zero, suc, ◌-◌, ◌≤◌, ◌<◌, ◌⊎◌, ◌≡◌, refl, String, Bool, true, false, ◌||◌, List, [], ◌∷◌, ◌++◌,
  eq_iff, arith, if◌then◌else◌, ltb,
}
use ipapp.Common.Lists.{contains, Distinct, length, take, contains-append}
use ipapp.Common.Dict.{Dict, keys, insert, contains-keys-insert, insert_new}
use ipapp.Common.Exec.{ok, err}
use ipapp.Rpc.{
  Params, ArgSpec, Method, no_kwonly, ◌>>◌, invalid_arguments, wrong_count, drop, without_self,
  with_defaults, split_params, positional, analyse_arguments, bind_arguments,
  validate_required_arguments, validate_arguments,
}
use ipapp.Rpc.Validation.{IsAccepted, IsAccepted-validate_from}

take-drop : (n : ℕ) (xs : List String) → take n xs ++ drop n xs ≡ xs
take-drop zero xs = refl
take-drop (suc n) [] = refl
take-drop (suc n) (x ∷ xs) = ground (arith, take-drop n xs)

length-drop : (n : ℕ) (xs : List String) → length (drop n xs) ≡ length xs - n
length-drop zero xs = omega arith
length-drop (suc n) [] = omega arith
length-drop (suc n) (x ∷ xs) = ground (arith, length-drop n xs)

length-take : (n : ℕ) (xs : List String) → n ≤ length xs → length (take n xs) ≡ n
length-take zero xs le = refl
length-take (suc n) [] le = absurd (omega arith)
length-take (suc n) (x ∷ xs) le = ground (arith, length-take n xs)

contains-split :
    (x : String) (n : ℕ) (xs : List String)
    → contains x xs ≡ (contains x (take n xs) || contains x (drop n xs))
contains-split x n xs = rw (← contains-append x (take n xs) (drop n xs), take-drop n xs)

contains-take :
    (x : String) (n : ℕ) (xs : List String) → contains x (take n xs) ≡ true → contains x xs ≡ true
contains-take x zero xs h = absurd (cc)
contains-take x (suc n) [] h = h
contains-take x (suc n) (y ∷ xs) h = ground (arith, contains-take x n xs)

contains-take_more :
    (x : String) (n k : ℕ) (xs : List String)
    → n ≤ k
    → contains x (take n xs) ≡ true
    → contains x (take k xs) ≡ true
contains-take_more x zero k xs le h = absurd (cc)
contains-take_more x (suc n) zero xs le h = absurd (omega arith)
contains-take_more x (suc n) (suc k) [] le h = h
contains-take_more x (suc n) (suc k) (y ∷ xs) le h = ground (arith, contains-take_more x n k xs)

take-Distinct : (n : ℕ) (xs : List String) → Distinct xs → Distinct (take n xs)
take-Distinct zero xs d = tt
take-Distinct (suc n) [] d = tt
take-Distinct (suc n) (x ∷ xs) d =
    (ground (arith, contains-take x n xs, d.0), take-Distinct n xs d.1)

module _ {V : Type 0} where
  -- The keyword arguments that name the parameters in order.
  abbrev pub zip : List String → List V → Dict V
  zip (name ∷ order) (v ∷ args) = (name, v) ∷ zip order args
  zip _ _ = []

  keys-zip :
      (order : List String) (args : List V) → keys (zip order args) ≡ take (length args) order
  keys-zip [] [] = refl
  keys-zip [] (v ∷ args) = refl
  keys-zip (name ∷ order) [] = refl
  keys-zip (name ∷ order) (v ∷ args) = ground (arith, keys-zip order args)

  positional-zip :
      (order : List String) (args : List V) (kwargs : Dict V)
      → Distinct order
      → ((x : String) → contains x order ≡ true → contains x (keys kwargs) ≡ false)
      → positional order args kwargs ≡ kwargs ++ zip order args
  unfolding positional
  positional-zip [] [] kwargs d apart = ground (arith, append-nil kwargs)
  positional-zip [] (v ∷ args) kwargs d apart = ground (arith, append-nil kwargs)
  positional-zip (name ∷ order) [] kwargs d apart = ground (arith, append-nil kwargs)
  positional-zip (name ∷ order) (v ∷ args) kwargs d apart =
      let new : contains name (keys kwargs) ≡ false =
        apart name (ground (arith, eq_iff name name)) in
      let ih = positional-zip order args (insert name v kwargs) d.1 (λ x h.
        ground (arith, apart x, contains-keys-insert x name v kwargs, eq_iff name x, d.0)) in
      rw (ih, insert_new name v kwargs new, append_assoc kwargs ((name, v) ∷ []) (zip order args))

  contains-with_defaults :
      (x : String) (args : List String) (defaults : List V) (d : Dict V)
      → length args ≡ length defaults
      → contains x (keys (with_defaults args defaults d)) ≡ (contains x args || contains x (keys d))
  contains-with_defaults x [] [] d e = refl
  contains-with_defaults x [] (v ∷ vs) d e = absurd (omega arith)
  contains-with_defaults x (a ∷ args) [] d e = absurd (omega arith)
  contains-with_defaults x (a ∷ args) (v ∷ vs) d e =
      ground (arith, contains-with_defaults x args vs (insert a v d), contains-keys-insert x a v d)

  split-IsAccepted :
      (names : List String) (defaults : List V) (has_varkw : Bool) (n : ℕ)
      → let p = split_params names defaults has_varkw in
        length defaults ≤ length names
        → length p.required_params ≤ n
        → IsAccepted p p.required_params (take n names)
  unfolding IsAccepted
  split-IsAccepted names defaults has_varkw n le enough =
      let k = length names - length defaults in
      (
        λ r h. contains-take_more r k n names (ground (arith, length-take k names)) h,
        λ a h. ground (
          arith,
          contains-take a n names h,
          contains-split a k names,
          length-drop k names,
          contains-with_defaults a (drop k names) defaults [],
        ),
      )

  kwonly-split : (ks : List String) (p q : Params V) → (no_kwonly ks >> ok p) ≡ ok q → q ≡ p
  kwonly-split [] p q h = cc
  kwonly-split (k ∷ ks) p q h = absurd (cc)

  params_order-names :
      (names : List String) (defaults : List V) (has_varkw : Bool)
      → (split_params names defaults has_varkw).params_order ≡ names
  params_order-names names defaults has_varkw = take-drop (length names - length defaults) names

  split-positional :
      (names : List String) (defaults : List V) (has_varkw : Bool) (args : List V)
      → let p = split_params names defaults has_varkw in
        Distinct names
        → length defaults ≤ length names
        → length p.required_params ≤ length args
        → length args ≤ length names
        → validate_required_arguments p (zip p.params_order args) ≡ ok tt
  unfolding validate_required_arguments
  split-positional names defaults has_varkw args d le enough fits =
      let p = split_params names defaults has_varkw in
      rw (params_order-names names defaults has_varkw, keys-zip names args)
        (IsAccepted-validate_from p p.required_params (take (length args) names)
          (take-Distinct (length names - length defaults) names d)
          (take-Distinct (length args) names d)
          (split-IsAccepted names defaults has_varkw (length args) le enough))

  bind-positional :
      (p : Params V) (a : V) (args : List V) (kwargs : Dict V)
      → let n = length (a ∷ args) in
        Distinct p.params_order
        → (bind_arguments p (a ∷ args) kwargs ≡ (
            if ltb (length p.params_order) n || ltb n (length p.required_params)
            then err (invalid_arguments (wrong_count (length p.params_order) n))
            else ok (zip p.params_order (a ∷ args))))
  unfolding bind_arguments
  bind-positional p a args kwargs d =
      rw (positional-zip p.params_order (a ∷ args) [] d (λ x h. refl)) refl

  analysed-order :
      (s : ArgSpec V) (p : Params V)
      → let names = without_self s.is_method s.args in
        analyse_arguments s ≡ ok p
        → (p ≡ split_params names s.defaults s.has_varkw) × (p.params_order ≡ names)
  unfolding analyse_arguments
  analysed-order s p analysed =
      let names = without_self s.is_method s.args in
      let e = kwonly-split s.kwonlyargs (split_params names s.defaults s.has_varkw) p analysed in
      (e, rw e (params_order-names names s.defaults s.has_varkw))

  -- A call by position with as many values as the required parameters or more, and no more than there
  -- are parameters, does what the call does that gives the parameters, in their order, these values
  -- by keyword, and no argument is then missing or unexpected. The handler's parameters do not repeat,
  -- and it has no more defaults than parameters.
  pub validate_arguments-positional :
      (s : ArgSpec V) (m : Method V) (a : V) (args : List V) (kwargs : Dict V)
      → let names = without_self s.is_method s.args in
        let n = length (a ∷ args) in
        let by_name = zip m.params.params_order (a ∷ args) in
        analyse_arguments s ≡ ok m.params
        → Distinct names
        → length s.defaults ≤ length names
        → length m.params.required_params ≤ n
        → n ≤ length names
        → (validate_arguments m (a ∷ args) kwargs ≡ validate_arguments m [] by_name)
          × (validate_required_arguments m.params by_name ≡ ok tt)
  unfolding validate_arguments bind_arguments
  validate_arguments-positional s m a args kwargs analysed d le enough fits =
      let names = without_self s.is_method s.args in
      let (e, order) = analysed-order s m.params analysed in
      let bound = bind-positional m.params a args kwargs (rw order d) in
      (
        rw (bound, order) (ground arith),
        rw e (split-positional names s.defaults s.has_varkw (a ∷ args) d le (rw e at enough) fits),
      )

  -- A call by position with fewer values than there are required parameters, or more than there are
  -- parameters, is refused. The handler's parameters do not repeat.
  pub validate_arguments-wrong_count :
      (s : ArgSpec V) (m : Method V) (a : V) (args : List V) (kwargs : Dict V)
      → let names = without_self s.is_method s.args in
        let n = length (a ∷ args) in
        analyse_arguments s ≡ ok m.params
        → Distinct names
        → (n < length m.params.required_params) ⊎ (length names < n)
        → validate_arguments m (a ∷ args) kwargs
          ≡ err (invalid_arguments (wrong_count (length names) n))
  unfolding validate_arguments bind_arguments
  validate_arguments-wrong_count s m a args kwargs analysed d wrong =
      let (e, order) = analysed-order s m.params analysed in
      rw (bind-positional m.params a args kwargs (rw order d), order) (ground arith)
