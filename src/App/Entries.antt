-- ===== src/App/Entries.antt =====
-- The first entries of a registry of ipapp/app.py: their names, and the last of them.
use mathlib.Core.List.{append-nil, append_assoc}
use ipapp.Common.{
  ℕ, zero, suc, ◌≤◌, String, ◌≡◌, refl, true, false, List, [], ◌∷◌, ◌++◌, arith, ◌⊎◌, inl, inr,
  Bool-cases, ◌==◌, eq_iff, subst,
}
use ipapp.Common.Lists.{contains, contains-append, AllIn, take, length}
use ipapp.Common.Dict.{Dict, keys, lookup}
use ipapp.App.{or_empty}
use ipapp.App.Registry.{IsOrdered}

-- No name stands twice.
abbrev pub IsDistinct : List String → Type 0
IsDistinct [] = Unit
IsDistinct (n ∷ ns) = (contains n ns ≡ false) × IsDistinct ns

pub IsDistinct-snoc :
    (ns : List String) (n : String)
    → IsDistinct ns
    → contains n ns ≡ false
    → IsDistinct (ns ++ n ∷ [])
IsDistinct-snoc [] n d h = (refl, tt)
IsDistinct-snoc (m ∷ ns) n d h =
    ground (arith, eq_iff m n, eq_iff n m, contains-append m ns (n ∷ []), IsDistinct-snoc ns n d.1)

module _ {V : Type 0} where
  pub keys-take-suc :
      (k : ℕ) (d : Dict V) (n : String)
      → contains n (keys (take k d)) ≡ true
      → contains n (keys (take (suc k) d)) ≡ true
  keys-take-suc zero d n h = absurd (cc)
  keys-take-suc (suc k) [] n h = absurd (cc)
  keys-take-suc (suc k) ((m, v) ∷ d) n h = ground (arith, keys-take-suc k d n)

  pub keys-take_sub :
      (k : ℕ) (d : Dict V) (n : String)
      → contains n (keys (take k d)) ≡ true
      → contains n (keys d) ≡ true
  keys-take_sub zero d n h = absurd (cc)
  keys-take_sub (suc k) [] n h = absurd (cc)
  keys-take_sub (suc k) ((m, v) ∷ d) n h = ground (arith, keys-take_sub k d n)

  pub keys-take_all : (k : ℕ) (d : Dict V) → length d ≤ k → keys (take k d) ≡ keys d
  keys-take_all zero [] h = refl
  keys-take_all zero (x ∷ d) h = absurd (omega arith)
  keys-take_all (suc k) [] h = refl
  keys-take_all (suc k) ((m, v) ∷ d) h = ground (arith, keys-take_all k d)

-- A name among the first `k + 1` entries is among the first `k`, or it is the last of them: then
-- it is no name before, and those that it lists are.
unfoldable pub Last : List String → ℕ → Dict (List String) → String → Type 0
Last seen k d n =
    (contains n (seen ++ keys (take k d)) ≡ false)
    × AllIn (or_empty (lookup n d)) (seen ++ keys (take k d))

pub Last-or_before :
    (seen : List String) (k : ℕ) (d : Dict (List String)) (n : String)
    → IsOrdered seen d
    → contains n (keys (take (suc k) d)) ≡ true
    → (contains n (keys (take k d)) ≡ true) ⊎ Last seen k d n
unfolding Last
Last-or_before seen k [] n o h = absurd (cc)
Last-or_before seen zero ((m, ds) ∷ d) n o h =
    let same : (m == n) ≡ true = ground arith in
    inr
      (rw (same, append-nil) (subst (λ x. contains x seen ≡ false) ((eq_iff m n).0 same) o.0, o.1))
Last-or_before seen (suc k) ((m, ds) ∷ d) n o h = elim (Bool-cases (m == n)) [
  | inl same ↦ inl (rw same)
  | inr other ↦ elim (Last-or_before (seen ++ m ∷ []) k d n o.2 (rw other at h)) [
    | inl before ↦ inl (rw (other, before))
    | inr last ↦ inr (rw other (rw append_assoc at last))
  ]
]
