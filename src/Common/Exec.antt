-- ===== src/Common/Exec.antt =====
-- Methods that change an object and may raise. What was written before an exception stays
-- written, so the state comes back beside the error too.
use mathlib.Core.Option.{Option, none, some}
use mathlib.Core.List.{List, [], ◌∷◌}

pub data Result (E A : Type 0) : Type 0 where
  ok : A → Result E A
  err : E → Result E A

abbrev pub Exec : Type 0 → Type 0 → Type 0 → Type 0
Exec E S A = S → Result E A × S

module _ {E S A : Type 0} where
  abbrev pub pure : A → Exec E S A
  pure a s = (ok a, s)

  abbrev pub raise : E → Exec E S A
  raise e s = (err e, s)

  abbrev pub gets : (S → A) → Exec E S A
  gets f s = (ok (f s), s)

  -- a value that may be missing
  abbrev pub or_raise : Option A → E → Exec E S A
  or_raise none e s = (err e, s)
  or_raise (some a) e s = (ok a, s)

module _ {E S : Type 0} where
  abbrev pub modify : (S → S) → Exec E S (Unit {0})
  modify f s = (ok tt, f s)

  -- a call that returns, or raises the given exception
  abbrev pub outcome : Option E → Exec E S (Unit {0})
  outcome none s = (ok tt, s)
  outcome (some e) s = (err e, s)

module _ {E S A B : Type 0} where
  -- what follows a call that has ended
  abbrev pub continue : Result E A → (A → Exec E S B) → Exec E S B
  continue (ok a) f s = f a s
  continue (err e) f s = (err e, s)

  infixl 10 ◌>>=◌ ◌>>◌
  abbrev pub ◌>>=◌ : Exec E S A → (A → Exec E S B) → Exec E S B
  ◌>>=◌ m f s = let (r, s') = m s in continue r f s'

  abbrev pub ◌>>◌ : Exec E S A → Exec E S B → Exec E S B
  m >> k = m >>= λ _. k

  continue-keeps :
      (P : S → Type 0) (f : A → Exec E S B) (r : Result E A) (s : S)
      → ((a : A) → P (f a s).1)
      → P s
      → P (continue r f s).1
  continue-keeps P f (ok a) s step h = step a
  continue-keeps P f (err e) s step h = h

  -- A property of the state that both parts keep, whether they return or raise.
  pub bind-keeps :
      (P : S → Type 0) (m : Exec E S A) (f : A → Exec E S B)
      → ((a : A) (s : S) → P s → P (f a s).1)
      → (s : S) → P (m s).1
      → P ((m >>= f) s).1
  bind-keeps P m f step s h = let (r, s') = m s in continue-keeps P f r s' (λ a. step a s' h) h

module _ {E S A : Type 0} where
  -- `for x in xs: f(x)`
  unfoldable pub for_each : (A → Exec E S (Unit {0})) → List A → Exec E S (Unit {0})
  for_each f [] s = (ok tt, s)
  for_each f (x ∷ xs) s = (f x >> for_each f xs) s

  pub for_each-keeps :
      (P : S → Type 0) (f : A → Exec E S (Unit {0}))
      → ((x : A) (s : S) → P s → P (f x s).1)
      → (xs : List A) (s : S) → P s
      → P (for_each f xs s).1
  unfolding for_each
  for_each-keeps P f step [] s h = h
  for_each-keeps P f step (x ∷ xs) s h =
      bind-keeps P (f x) (λ _. for_each f xs) (λ _ s'. for_each-keeps P f step xs s') s (step x s h)
