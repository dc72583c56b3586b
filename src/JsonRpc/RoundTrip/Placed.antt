-- ===== src/JsonRpc/RoundTrip/Placed.antt =====
-- How one reply is placed among the calls of a batch, by the ids of both, in `exec_batch` of the client in
-- ipapp/rpc/jsonrpc/main.py.
use ipapp.Common.{
  ℕ, ◌≡◌, refl, ap, Bool, true, false, Option, none, some, List, ◌∷◌, if◌then◌else◌, eqb, arith,
  Bool-cases, Option-cases, inl, inr,
}
use ipapp.JsonRpc.Client.{Body, Sent, Outcome, Model, outcome_of, index_of}
use ipapp.JsonRpc.Client.Answered.{value_of, is_made, answered_by, can_place}

-- A reply to another request changes nothing, and a reply to the call's own request is its outcome.
pub answered-apart :
    (id own : Option ℕ) (body : Body) (model : Option Model) (old : Outcome)
    → ((k : ℕ) → id ≡ some k → own ≡ some k → ⊥)
    → answered_by
        (record { unique_id = id; body = body })
        old
        (record { unique_id = own; model = model })
      ≡ old
answered-apart none own body model old h = refl
answered-apart (some k) none body model old h = refl
answered-apart (some k) (some j) body model old h = elim (Bool-cases (eqb j k)) [
  | inl e ↦ absurd (h k refl (ground (arith, e)))
  | inr e ↦ rw e refl
]

pub answered-own :
    (id : Option ℕ) (k : ℕ) (body : Body) (model : Option Model) (old : Outcome)
    → id ≡ some k
    → answered_by
        (record { unique_id = id; body = body })
        old
        (record { unique_id = id; model = model })
      ≡ value_of (outcome_of model body)
answered-own none k body model old h = absurd (cc)
answered-own (some j) k body model old h = let e : eqb j j ≡ true = ground arith in rw e refl

pub picked :
    {A : Type 0} (one_way : Bool) (x : A) {rest rest' : List A}
    → rest ≡ rest'
    → elim (if one_way then none else some x) as (λ o. List A) [ none ↦ rest | some r ↦ r ∷ rest ]
      ≡ (if one_way then rest' else x ∷ rest')
picked true x h = h
picked false x h = ap (λ xs. x ∷ xs) h

-- A reply to the first call can be placed if it can be converted, and one that can be placed among later calls still can.
pub can_place-own :
    (id : Option ℕ) (k : ℕ) (body : Body) (model : Option Model) (order : List Sent)
    → id ≡ some k
    → is_made (outcome_of model body) ≡ true
    → can_place
        (record { unique_id = id; model = model } ∷ order)
        (record { unique_id = id; body = body })
      ≡ true
can_place-own none k body model order h made = refl
can_place-own (some j) k body model order h made =
    let e : eqb j j ≡ true = ground arith in rw e made

pub can_place-later :
    (id own : Option ℕ) (body : Body) (model : Option Model) (order : List Sent)
    → ((k : ℕ) → id ≡ some k → own ≡ some k → ⊥)
    → can_place order (record { unique_id = id; body = body }) ≡ true
    → can_place
        (record { unique_id = own; model = model } ∷ order)
        (record { unique_id = id; body = body })
      ≡ true
can_place-later none own body model order apart h = refl
can_place-later (some k) none body model order apart h = elim (Option-cases (index_of k order)) [
  | inl e ↦ absurd (ground (arith, h, e))
  | inr (i, e) ↦ ground (arith, h, e)
]
can_place-later (some k) (some j) body model order apart h = elim (Bool-cases (eqb j k)) [
  | inl same ↦ absurd (apart k refl (ground (arith, same)))
  | inr other ↦ elim (Option-cases (index_of k order)) [
    | inl e ↦ absurd (ground (arith, h, e))
    | inr (i, e) ↦ ground (arith, h, e, other)
  ]
]

-- What holds with and without a further reply holds of the list that has it unless the call is one-way.
pub if-rest :
    {A : Type 0} (P : List A → Type 0) (one_way : Bool) (r : A) (rs : List A)
    → (one_way ≡ true → P rs)
    → (one_way ≡ false → P (r ∷ rs))
    → P (if one_way then rs else r ∷ rs)
if-rest P true r rs h k = h refl
if-rest P false r rs h k = k refl
