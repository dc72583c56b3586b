-- ===== src/App/Registry.antt =====
-- The registry that `add` of ipapp/app.py builds: each component names only earlier ones in its
-- `stop_after`, which is what lets `stop` end.
use ipapp.Common.{
  String, ◌≡◌, refl, Bool, true, false, List, [], ◌∷◌, ◌++◌, arith, inl, inr, Bool-cases, Option,
  if◌then◌else◌, ◌&&◌, subst,
}
use mathlib.Core.List.{append-nil, append_assoc}
use ipapp.Common.Lists.{contains, AllIn}
use ipapp.Common.Dict.{Dict, keys, insert_new, keys-append}
use ipapp.Common.Exec.{ok, err, for_each}
use ipapp.App.{App, Component, user_warning, or_empty, known, register, add}

-- The entries come each behind the entries of all the names that they list, and no name twice.
abbrev pub IsOrdered : List String → Dict (List String) → Type 0
IsOrdered seen [] = Unit
IsOrdered seen ((n, ds) ∷ rest) =
    (contains n seen ≡ false) × AllIn ds seen × IsOrdered (seen ++ n ∷ []) rest

pub record IsValid (app : App) : Type 0 where
  pub ordered : IsOrdered [] app.stop_deps
  pub same_keys : keys app.components ≡ keys app.stop_deps

IsOrdered-snoc :
    (seen : List String) (deps : Dict (List String)) (n : String) (ds : List String)
    → IsOrdered seen deps
    → contains n (seen ++ keys deps) ≡ false
    → AllIn ds (seen ++ keys deps)
    → IsOrdered seen (deps ++ (n, ds) ∷ [])
IsOrdered-snoc seen [] n ds o fresh behind = (rw append-nil at fresh, rw append-nil at behind, tt)
IsOrdered-snoc seen ((m, es) ∷ deps) n ds o fresh behind = (
  o.0,
  o.1,
  IsOrdered-snoc (seen ++ m ∷ []) deps n ds o.2 (rw append_assoc fresh) (rw append_assoc behind),
)

abbrev all_in : List String → List String → Bool
all_in [] xs = true
all_in (n ∷ ns) xs = contains n xs && all_in ns xs

all_in→AllIn : (ns xs : List String) → all_in ns xs ≡ true → AllIn ns xs
all_in→AllIn [] xs h = tt
all_in→AllIn (n ∷ ns) xs h = ground (arith, all_in→AllIn ns xs)

for_each-known :
    (ns : List String) (app : App)
    → for_each known ns app
      ≡ (if all_in ns (keys app.components) then ok tt else err user_warning, app)
unfolding for_each
for_each-known [] app = refl
for_each-known (n ∷ ns) app = ground (arith, for_each-known ns app)

-- All branches of `add`: it refuses a name that is taken and a dependency that is unknown, and
-- changes nothing; otherwise it files the component under its name.
add_lem :
    (name : String) (comp : Component) (stop_after : Option (List String)) (app : App)
    → let ds = or_empty stop_after in
      add name comp stop_after app ≡ (
        if contains name (keys app.components)
        then (err user_warning, app)
        else if all_in ds (keys app.components)
        then (ok tt, register name comp ds app)
        else (err user_warning, app))
unfolding add
add_lem name comp stop_after app = ground (arith, for_each-known (or_empty stop_after) app)

register-IsValid :
    (name : String) (comp : Component) (ds : List String) (app : App)
    → IsValid app
    → contains name (keys app.components) ≡ false
    → AllIn ds (keys app.components)
    → IsValid (register name comp ds app)
register-IsValid name comp ds app v fresh behind = record {
  ordered =
      rw (insert_new name ds app.stop_deps (subst (λ k. contains name k ≡ false) v.same_keys fresh))
        (IsOrdered-snoc [] app.stop_deps name ds v.ordered
          (subst (λ k. contains name k ≡ false) v.same_keys fresh)
          (subst (AllIn ds) v.same_keys behind));
  same_keys = rw (
    insert_new name comp app.components fresh,
    insert_new name ds app.stop_deps (subst (λ k. contains name k ≡ false) v.same_keys fresh),
    keys-append app.components ((name, comp) ∷ []),
    keys-append app.stop_deps ((name, ds) ∷ []),
    v.same_keys,
  );
}

-- `add` keeps the registry well formed, whether it accepts the component or raises.
pub add-IsValid :
    (name : String) (comp : Component) (stop_after : Option (List String)) (app : App)
    → IsValid app
    → IsValid (add name comp stop_after app).1
add-IsValid name comp stop_after app v =
    rw add_lem (elim (Bool-cases (contains name (keys app.components))) [
      | inl taken ↦ rw taken v
      | inr fresh ↦
          rw fresh (elim (Bool-cases (all_in (or_empty stop_after) (keys app.components))) [
            | inl behind ↦ rw behind (
                register-IsValid name comp (or_empty stop_after) app v fresh
                  (all_in→AllIn (or_empty stop_after) (keys app.components) behind))
            | inr unknown ↦ rw unknown v
          ])
    ])
