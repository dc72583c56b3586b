-- ===== src/Rpc/Validation.antt =====
-- `_validate_required_arguments` of ipapp/rpc/main.py: exactly which argument names it accepts.
use ipapp.Common.{
  ◌≡◌, refl, ◌↔◌, String, true, not, ◌&&◌, ◌||◌, List, [], ◌∷◌, ◌==◌, eq_iff, arith, inl, inr,
  Bool-cases,
}
use ipapp.Common.Lists.{contains, remove, Distinct}
use ipapp.Common.Dict.{Dict, keys}
use ipapp.Common.Exec.{ok}
use ipapp.Rpc.{Params, validate_from, validate_required_arguments}

contains-remove :
    (x y : String) (xs : List String)
    → Distinct xs
    → contains x (remove y xs) ≡ (contains x xs && not (y == x))
contains-remove x y [] d = refl
contains-remove x y (z ∷ xs) d =
    ground (arith, eq_iff z y, eq_iff z x, eq_iff y x, contains-remove x y xs d.1, d.0)

remove-Distinct : (y : String) (xs : List String) → Distinct xs → Distinct (remove y xs)
remove-Distinct y [] d = tt
remove-Distinct y (z ∷ xs) d = elim (Bool-cases (z == y)) [
  | inl e ↦ rw e d.1
  | inr e ↦ rw e (ground (arith, contains-remove z y xs d.1, d.0), remove-Distinct y xs d.1)
]

module _ {V : Type 0} (p : Params V) where
  -- The names `args` give a value to each one of `req`, and each is in it, optional, or taken by `**kwargs`.
  unfoldable pub IsAccepted : List String → List String → Type 0
  IsAccepted req args =
      ((r : String) → contains r req ≡ true → contains r args ≡ true)
      × ((a : String)
          → contains a args ≡ true
          → (contains a req || (contains a (keys p.optional_params) || p.is_kwargs)) ≡ true)

  validate_from-IsAccepted :
      (req args : List String)
      → Distinct req
      → Distinct args
      → validate_from p req args ≡ ok tt
      → IsAccepted req args
  unfolding IsAccepted validate_from
  validate_from-IsAccepted [] [] dr da h = (λ r e. absurd (cc), λ a e. absurd (cc))
  validate_from-IsAccepted (r ∷ req) [] dr da h = absurd (cc)
  validate_from-IsAccepted req (a ∷ args) dr da h = elim (Bool-cases (contains a req)) [
    | inl e ↦
        let ih =
          validate_from-IsAccepted (remove a req) args (remove-Distinct a req dr) da.1
            (ground arith) in
        (
          λ r q. ground (arith, ih.0 r, contains-remove r a req dr, eq_iff a r),
          λ b q. ground (arith, ih.1 b, contains-remove b a req dr, eq_iff a b),
        )
    | inr e ↦
        let ih = validate_from-IsAccepted req args dr da.1 (ground arith) in
        (λ r q. ground (arith, ih.0 r, eq_iff a r), λ b q. ground (arith, ih.1 b, eq_iff a b))
  ]

  pub IsAccepted-validate_from :
      (req args : List String)
      → Distinct req
      → Distinct args
      → IsAccepted req args
      → validate_from p req args ≡ ok tt
  unfolding IsAccepted validate_from
  IsAccepted-validate_from [] [] dr da h = refl
  IsAccepted-validate_from (r ∷ req) [] dr da h = ground (arith, h.0 r, eq_iff r r)
  IsAccepted-validate_from req (a ∷ args) dr da h = elim (Bool-cases (contains a req)) [
    | inl e ↦
        let ih = IsAccepted-validate_from (remove a req) args (remove-Distinct a req dr) da.1 (
          λ r q. ground (arith, h.0 r, contains-remove r a req dr, eq_iff a r),
          λ b q. ground (arith, h.1 b, contains-remove b a req dr, eq_iff a b, da.0),
        ) in
        ground arith
    | inr e ↦
        let ih = IsAccepted-validate_from req args dr da.1 (
          λ r q. ground (arith, h.0 r, eq_iff a r),
          λ b q. ground (arith, h.1 b, eq_iff a b, da.0),
        ) in
        ground (arith, h.1 a, eq_iff a a)
  ]

-- For names that do not repeat, `_validate_required_arguments` accepts exactly the keyword arguments that
-- give each required parameter a value, and are each a parameter or taken by `**kwargs`.
pub validate_required_arguments_lem :
    {V : Type 0} (p : Params V) (kwargs : Dict V)
    → Distinct p.required_params
    → Distinct (keys kwargs)
    → (validate_required_arguments p kwargs ≡ ok tt) ↔ IsAccepted p p.required_params (keys kwargs)
unfolding validate_required_arguments
validate_required_arguments_lem p kwargs dr dk = (
  validate_from-IsAccepted p p.required_params (keys kwargs) dr dk,
  IsAccepted-validate_from p p.required_params (keys kwargs) dr dk,
)
