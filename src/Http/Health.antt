-- ===== src/Http/Health.antt =====
-- ipapp/http/server.py, `ServerHandler._healthcheck` and its two handlers, over `BaseApplication.health` of ipapp/app.py.
-- The texts of exceptions and of stamps are arguments.
use mathlib.Core.List.{append-nil, append_assoc}
use ipapp.Common.{
  ℕ, ◌≡◌, refl, ap, ◌∙◌, String, Bool, true, false, ◌||◌, not, Option, none, some, List, [], ◌∷◌,
  ◌++◌, sym, eq_iff, arith, if◌then◌else◌,
}
use ipapp.Common.Lists.{contains, Distinct, All}
use ipapp.Common.Dict.{Dict, keys, insert, contains-keys-insert}
use ipapp.App.{App, Component, Error, health, health_of}

-- What a health check says, with the version of the application and the other texts, if it has any
pub record Health : Type 0 where
  pub is_sick : Bool
  pub checks : Dict String
  pub others : Dict String

-- The loop that ends at the first exception
unfoldable pub any_sick : Dict (Option Error) → Bool
any_sick [] = false
any_sick ((key, none) ∷ checks) = any_sick checks
any_sick ((key, some e) ∷ checks) = true

unfoldable pub check_texts : (Error → String) → Dict (Option Error) → Dict String
check_texts text_of [] = []
check_texts text_of ((key, none) ∷ checks) = (key, "ok") ∷ check_texts text_of checks
check_texts text_of ((key, some e) ∷ checks) = (key, text_of e) ∷ check_texts text_of checks

-- `_healthcheck`
unfoldable pub healthcheck : (Error → String) → Dict String → App → Health
unfolding any_sick check_texts
healthcheck text_of others app = record {
  is_sick = any_sick (health app);
  checks = check_texts text_of (health app);
  others = others;
}

-- A response of the health check: the status, whether it is raised, its body, and whether the span is skipped
pub record Checked : Type 0 where
  pub status : ℕ
  pub is_raised : Bool
  pub document : Option Health
  pub skips_span : Bool

abbrev checked : Bool → Option Health → Checked
checked sick document = record {
  status = if sick then 500 else 200;
  is_raised = sick;
  document = document;
  skips_span = not sick;
}

-- `_health_handler_get` and `_health_handler_head`
unfoldable pub health_handler_get : (Error → String) → Dict String → App → Checked
unfolding healthcheck
health_handler_get text_of others app =
    let result = healthcheck text_of others app in checked result.is_sick (some result)

unfoldable pub health_handler_head : (Error → String) → Dict String → App → Checked
unfolding healthcheck
health_handler_head text_of others app = checked (healthcheck text_of others app).is_sick none

-- Some component's own check raises.
abbrev pub any_raises : Dict Component → Bool
any_raises [] = false
any_raises ((name, comp) ∷ comps) = elim comp.health [ none ↦ any_raises comps | some e ↦ true ]

abbrev is_some : Option Error → Bool
is_some none = false
is_some (some e) = true

any_sick-cons :
    (key : String) (e : Option Error) (checks : Dict (Option Error))
    → any_sick ((key, e) ∷ checks) ≡ (is_some e || any_sick checks)
unfolding any_sick
any_sick-cons key none checks = refl
any_sick-cons key (some e) checks = refl

any_sick-insert :
    (key : String) (e : Option Error) (checks : Dict (Option Error))
    → contains key (keys checks) ≡ false
    → any_sick (insert key e checks) ≡ (any_sick checks || is_some e)
unfolding any_sick
any_sick-insert key none [] h = refl
any_sick-insert key (some x) [] h = refl
any_sick-insert key e ((j, none) ∷ checks) h = ground (arith, any_sick-insert key e checks)
any_sick-insert key e ((j, some y) ∷ checks) h = ground arith

-- These names are not in the result yet.
abbrev AreNew : List String → Dict (Option Error) → Type 0
AreNew names checks = All (λ name. contains name (keys checks) ≡ false) names

AreNew-insert :
    (key : String) (e : Option Error) (checks : Dict (Option Error)) (names : List String)
    → contains key names ≡ false
    → AreNew names checks
    → AreNew names (insert key e checks)
AreNew-insert key e checks [] h n = tt
AreNew-insert key e checks (name ∷ names) h n = (
  ground (arith, contains-keys-insert name key e checks, eq_iff name key, eq_iff key name, n.0),
  AreNew-insert key e checks names (ground (arith, h)) n.1,
)

any_sick-health_of :
    (comps : Dict Component) (checks : Dict (Option Error))
    → Distinct (keys comps)
    → AreNew (keys comps) checks
    → any_sick (health_of comps checks) ≡ (any_sick checks || any_raises comps)
unfolding health_of
any_sick-health_of [] checks d n = ground arith
any_sick-health_of ((name, comp) ∷ comps) checks d n =
    any_sick-health_of comps (insert name comp.health checks) d.1
      (AreNew-insert name comp.health checks (keys comps) d.0 n.1)
    ∙ rw (any_sick-insert name comp.health checks n.0) (sick comp.health)
  where
    sick :
        (e : Option Error)
        → ((any_sick checks || is_some e) || any_raises comps)
          ≡ (any_sick checks || elim e [ none ↦ any_raises comps | some x ↦ true ])
    sick none = ground arith
    sick (some x) = ground arith

keys-nil : (names : List String) → AreNew names []
keys-nil [] = tt
keys-nil (name ∷ names) = (refl, keys-nil names)

any_sick-health :
    (app : App) → Distinct (keys app.components) → any_sick (health app) ≡ any_raises app.components
unfolding health any_sick
any_sick-health app d = any_sick-health_of app.components [] d (keys-nil (keys app.components))

-- What the document of a health check has to say of each component, in their order: `ok`, or the text of what its
-- check raises
abbrev pub texts_for : (Error → String) → Dict Component → Dict String
texts_for text_of [] = []
texts_for text_of ((name, comp) ∷ comps) =
    (name, elim comp.health [ none ↦ "ok" | some e ↦ text_of e ]) ∷ texts_for text_of comps

insert-new :
    (key : String) (e : Option Error) (checks : Dict (Option Error))
    → contains key (keys checks) ≡ false
    → insert key e checks ≡ checks ++ (key, e) ∷ []
insert-new key e [] h = refl
insert-new key e ((j, x) ∷ checks) h = ground (arith, insert-new key e checks)

check_texts-snoc :
    (text_of : Error → String) (key : String) (e : Option Error) (checks : Dict (Option Error))
    → check_texts text_of (checks ++ (key, e) ∷ [])
      ≡ check_texts text_of checks ++ (key, elim e [ none ↦ "ok" | some x ↦ text_of x ]) ∷ []
unfolding check_texts
check_texts-snoc text_of key none [] = refl
check_texts-snoc text_of key (some e) [] = refl
check_texts-snoc text_of key e ((j, none) ∷ checks) =
    ap (λ d. (j, "ok") ∷ d) (check_texts-snoc text_of key e checks)
check_texts-snoc text_of key e ((j, some x) ∷ checks) =
    ap (λ d. (j, text_of x) ∷ d) (check_texts-snoc text_of key e checks)

check_texts-health_of :
    (text_of : Error → String) (comps : Dict Component) (checks : Dict (Option Error))
    → Distinct (keys comps)
    → AreNew (keys comps) checks
    → check_texts text_of (health_of comps checks)
      ≡ check_texts text_of checks ++ texts_for text_of comps
unfolding health_of
check_texts-health_of text_of [] checks d n = sym (append-nil (check_texts text_of checks))
check_texts-health_of text_of ((name, comp) ∷ comps) checks d n =
    check_texts-health_of text_of comps (insert name comp.health checks) d.1
      (AreNew-insert name comp.health checks (keys comps) d.0 n.1)
    ∙ ap (λ c. check_texts text_of c ++ texts_for text_of comps)
        (insert-new name comp.health checks n.0)
    ∙ ap (λ c. c ++ texts_for text_of comps) (check_texts-snoc text_of name comp.health checks)
    ∙ append_assoc (check_texts text_of checks) _ (texts_for text_of comps)

check_texts-health :
    (text_of : Error → String) (app : App)
    → Distinct (keys app.components)
    → check_texts text_of (health app) ≡ texts_for text_of app.components
unfolding health check_texts
check_texts-health text_of app d =
    check_texts-health_of text_of app.components [] d (keys-nil (keys app.components))

-- If no two components have the same name, the health check answers 200 and skips its span exactly if no component's
-- check raises, and it raises 500 otherwise, for GET as for HEAD. The document of GET has for each component, in their
-- order, `ok` or the text of what its check raises, and whether any does; HEAD has none.
pub health_handler_lem :
    (text_of : Error → String) (others : Dict String) (app : App)
    → Distinct (keys app.components)
    → let raises = any_raises app.components in
      let get = health_handler_get text_of others app in
      let head = health_handler_head text_of others app in
      let document : Health = record {
        is_sick = raises;
        checks = texts_for text_of app.components;
        others = others;
      } in
      (get.status ≡ (if raises then 500 else 200))
      × (get.is_raised ≡ raises)
      × (get.skips_span ≡ not raises)
      × (get.document ≡ some document)
      × (head ≡ record get { document = none })
unfolding health_handler_get health_handler_head healthcheck
health_handler_lem text_of others app d =
    let sick = any_sick-health app d in
    let texts = check_texts-health text_of app d in
    (ap (λ b. if b then 500 else 200) sick, sick, ap not sick, rw (sick, texts) refl, refl)
