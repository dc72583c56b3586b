-- ===== src/Common/Lists.antt =====
-- Lists measured by native numbers, membership as a Boolean test, and predicates by recursion.
use Prim.Native.Nat.{ℕ, zero, suc, ◌+◌, ◌-◌}
use Prim.Native.String.{String}
use mathlib.Core.Path.{◌≡◌, refl}
use mathlib.Core.Bool.{Bool, true, false, ◌||◌}
use mathlib.Core.List.{List, [], ◌∷◌, ◌++◌}
use native.Mathlib.Omega.{arith}
use text.Mathlib.Text.{◌==◌}
use text.Mathlib.TextEquality.{eq_iff}
use ipapp.Common.Tests.{ltb, if◌then◌else◌}

module _ {ℓ} {A : Type ℓ} where
  abbrev pub length : List A → ℕ
  length [] = 0
  length (x ∷ xs) = suc (length xs)

  abbrev pub take : ℕ → List A → List A
  take zero xs = []
  take (suc n) [] = []
  take (suc n) (x ∷ xs) = x ∷ take n xs

  pub length-append : (xs ys : List A) → length (xs ++ ys) ≡ length xs + length ys
  length-append [] ys = omega arith
  length-append (x ∷ xs) ys = omega (arith, length-append xs ys)

-- A predicate of every item; it computes to a tuple.
abbrev pub All {ℓ κ} : {A : Type ℓ} → (A → Type κ) → List A → Type κ
All P [] = Unit
All P (x ∷ xs) = P x × All P xs

-- `name in list`
abbrev pub contains : String → List String → Bool
contains n [] = false
contains n (x ∷ xs) = x == n || contains n xs

-- `list.remove(x)`
abbrev pub remove : String → List String → List String
remove x [] = []
remove x (y ∷ ys) = if y == x then ys else y ∷ remove x ys

-- How often a text stands in a list.
abbrev pub count : String → List String → ℕ
count x [] = 0
count x (y ∷ ys) = (if y == x then 1 else 0) + count x ys

pub count-snoc :
    (x y : String) (xs : List String)
    → count x (xs ++ y ∷ []) ≡ count x xs + (if y == x then 1 else 0)
count-snoc x y [] = ground arith
count-snoc x y (z ∷ xs) = ground (arith, count-snoc x y xs)

pub count-remove :
    (x y : String) (xs : List String)
    → count x (remove y xs) ≡ count x xs - (if y == x then 1 else 0)
count-remove x y [] = ground arith
count-remove x y (z ∷ xs) = ground (arith, eq_iff z y, eq_iff z x, eq_iff y x, count-remove x y xs)

pub contains-count : (x : String) (xs : List String) → contains x xs ≡ ltb 0 (count x xs)
contains-count x [] = ground arith
contains-count x (y ∷ xs) = ground (arith, contains-count x xs)

-- No name stands twice.
abbrev pub Distinct : List String → Type 0
Distinct [] = Unit
Distinct (x ∷ xs) = (contains x xs ≡ false) × Distinct xs

pub contains-append :
    (n : String) (xs ys : List String) → contains n (xs ++ ys) ≡ (contains n xs || contains n ys)
contains-append n [] ys = refl
contains-append n (x ∷ xs) ys = ground (arith, contains-append n xs ys)

pub contains-snoc_self : (n : String) (xs : List String) → contains n (xs ++ n ∷ []) ≡ true
contains-snoc_self n [] = ground (arith, eq_iff n n)
contains-snoc_self n (x ∷ xs) = ground (arith, contains-snoc_self n xs)

pub contains-append_left :
    (n : String) (xs ys : List String) → contains n xs ≡ true → contains n (xs ++ ys) ≡ true
contains-append_left n xs ys h = ground (arith, contains-append n xs ys)

-- Each of `ns` is in `xs`.
abbrev pub AllIn : List String → List String → Type 0
AllIn ns xs = All (λ n. contains n xs ≡ true) ns

pub AllIn-mono :
    (ns xs ys : List String)
    → ((n : String) → contains n xs ≡ true → contains n ys ≡ true)
    → AllIn ns xs
    → AllIn ns ys
AllIn-mono [] xs ys sub h = tt
AllIn-mono (n ∷ ns) xs ys sub h = (sub n h.0, AllIn-mono ns xs ys sub h.1)
