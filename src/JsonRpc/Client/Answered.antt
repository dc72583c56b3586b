-- ===== src/JsonRpc/Client/Answered.antt =====
-- What a reply does to the outcomes of a batch, in `exec_batch` of the client in ipapp/rpc/jsonrpc/main.py.
use ipapp.Common.{
  ℕ, zero, suc, ◌≡◌, refl, Bool, true, false, Option, none, some, List, [], ◌∷◌, map, eqb, arith,
  if◌then◌else◌, inl, inr, Option-cases, ◌⊎◌,
}
use ipapp.Common.Exec.{Result, ok, err}
use ipapp.JsonRpc.Client.{
  ClientError, Body, Reply, Sent, Outcome, nothing, index_of, model_at, set, outcome_of, store,
  place,
}

abbrev pub value_of : Result ClientError Outcome → Outcome
value_of (ok o) = o
value_of (err e) = nothing

abbrev pub is_made : Result ClientError Outcome → Bool
is_made (ok o) = true
is_made (err e) = false

-- What becomes of the outcome of a call when a reply with the id `k` comes.
abbrev pub answered : ℕ → Body → Outcome → Sent → Outcome
answered k body old s = elim s.unique_id [
  | none ↦ old
  | some j ↦ if eqb j k then value_of (outcome_of s.model body) else old
]

abbrev pub answered_by : Reply → Outcome → Sent → Outcome
answered_by reply old s = elim reply.unique_id [ none ↦ old | some k ↦ answered k reply.body old s ]

abbrev Lacks : Option ℕ → List Sent → Type 0
Lacks none order = Unit
Lacks (some k) order = index_of k order ≡ none

-- No two calls have the same id.
abbrev pub DistinctIds : List Sent → Type 0
DistinctIds [] = Unit
DistinctIds (s ∷ order) = Lacks s.unique_id order × DistinctIds order

-- The ids of the other calls differ, so nothing changes.
map-answered_other :
    (k : ℕ) (body : Body) (f : Sent → Outcome) (order : List Sent)
    → index_of k order ≡ none
    → map (λ s. answered k body (f s) s) order ≡ map f order
map-answered_other k body f [] h = refl
map-answered_other k body f (s ∷ order) h = ground (arith, map-answered_other k body f order)

set-map :
    (k : ℕ) (body : Body) (f : Sent → Outcome) (order : List Sent) (i : ℕ)
    → DistinctIds order
    → index_of k order ≡ some i
    → set (map f order) i (value_of (outcome_of (model_at i order) body))
      ≡ map (λ s. answered k body (f s) s) order
set-map k body f [] i d h = absurd (cc)
set-map k body f (s ∷ order) zero d h = elim (Option-cases s.unique_id) [
  | inl e ↦ absurd (ground (arith, h, e))
  | inr (j, e) ↦
      let lacks : index_of j order ≡ none = rw e at (d.0) in
      ground (arith, map-answered_other k body f order, lacks)
]
set-map k body f (s ∷ order) (suc i) d h = ground (arith, set-map k body f order i)

-- A reply that can be placed: it parses, its id is that of some call or none, and its result can be converted.
abbrev can_place_at : Option ℕ → List Sent → Body → Bool
can_place_at none order body = false
can_place_at (some i) order body = is_made (outcome_of (model_at i order) body)

abbrev pub can_place : List Sent → Reply → Bool
can_place order reply = elim reply.unique_id [
  | none ↦ true
  | some k ↦ can_place_at (index_of k order) order reply.body
]

store-made :
    (r : Result ClientError Outcome) (results : List Outcome) (i : ℕ)
    → is_made r ≡ true
    → store results i r ≡ ok (set results i (value_of r))
store-made (ok o) results i h = refl
store-made (err e) results i h = absurd (cc)

pub place-map :
    (order : List Sent) (reply : Reply) (f : Sent → Outcome)
    → DistinctIds order
    → can_place order reply ≡ true
    → place order reply (map f order) ≡ ok (map (λ s. answered_by reply (f s) s) order)
place-map order reply f d h = elim (Option-cases reply.unique_id) [
  | inl e ↦ rw e refl
  | inr (k, e) ↦ elim (Option-cases (index_of k order)) [
    | inl g ↦ absurd (ground (arith, h, e, g))
    | inr (i, g) ↦
        let made : is_made (outcome_of (model_at i order) reply.body) ≡ true = rw (e, g) at h in
        rw
          (
            e,
            g,
            store-made (outcome_of (model_at i order) reply.body) (map f order) i made,
            set-map k reply.body f order i d g,
          )
          refl
  ]
]

pub index_of-other :
    (k : ℕ) (s : Sent) (order : List Sent)
    → index_of k order ≡ none
    → (s.unique_id ≡ none) ⊎ ((j : ℕ) × (s.unique_id ≡ some j) × (eqb j k ≡ false))
    → index_of k (s ∷ order) ≡ none
index_of-other k s order h (inl e) = ground arith
index_of-other k s order h (inr (j, e, other)) = ground arith
