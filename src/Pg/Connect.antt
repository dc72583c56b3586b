-- ===== src/Pg/Connect.antt =====
-- ipapp/db/pg.py, `Postgres.prepare`: the attempts to connect. What each attempt raises is an argument.
use ipapp.Common.{
  ℕ, zero, suc, ◌+◌, ◌<◌, ◌≡◌, refl, ap, ◌∙◌, Option, none, some, List, [], ◌∷◌, ◌⊎◌, inl, inr,
  arith,
}
use ipapp.Common.Exec.{Result, ok, err}
use ipapp.Common.Lists.{length}
use ipapp.Pg.{PgError, prepare_error}

-- What an attempt leaves: the result of the loop that follows it, with what it has logged in front
abbrev logs :
    PgError → Result PgError (Unit {0}) × List PgError → Result PgError (Unit {0}) × List PgError
logs e (r, logged) = (r, e ∷ logged)

-- An attempt, and the loop behind it if it raises
abbrev attempt :
    Option PgError
    → Result PgError (Unit {0}) × List PgError
    → Result PgError (Unit {0}) × List PgError
attempt none rest = (ok tt, [])
attempt (some e) rest = logs e rest

-- The loop, with the number of attempts that are left and of those that have failed
unfoldable pub attempts :
    (left i : ℕ) (outcome : ℕ → Option PgError) → Result PgError (Unit {0}) × List PgError
attempts zero i outcome = (err prepare_error, [])
attempts (suc left) i outcome = attempt (outcome i) (attempts left (suc i) outcome)

-- `prepare`, with `connect_max_attempts`: the result, and the errors that it logs
unfoldable pub prepare : ℕ → (ℕ → Option PgError) → Result PgError (Unit {0}) × List PgError
unfolding attempts
prepare connect_max_attempts outcome = attempts connect_max_attempts 0 outcome

-- Each of the attempts from i on, as many as there are errors, raises the error.
abbrev pub Raises : (i : ℕ) → (ℕ → Option PgError) → List PgError → Type 0
Raises i outcome [] = Unit
Raises i outcome (e ∷ logged) = (outcome i ≡ some e) × Raises (suc i) outcome logged

-- The end of the loop: an attempt succeeds behind those that have failed, or all that are left fail.
abbrev Ends :
    (left i : ℕ) → (ℕ → Option PgError) → Result PgError (Unit {0}) × List PgError → Type 0
Ends left i outcome (r, logged) =
    Raises i outcome logged
    × (((r ≡ ok tt) × (length logged < left) × (outcome (i + length logged) ≡ none))
        ⊎ ((r ≡ err prepare_error) × (length logged ≡ left)))

logs-Ends :
    (left i : ℕ) (outcome : ℕ → Option PgError) (e : PgError)
    (r : Result PgError (Unit {0}) × List PgError)
    → outcome i ≡ some e
    → Ends left (suc i) outcome r
    → Ends (suc left) i outcome (logs e r)
logs-Ends left i outcome e (r, logged) h (raised, inl (done, fewer, last)) =
    ((h, raised), inl (done, omega (arith, fewer), ap outcome (omega arith) ∙ last))
logs-Ends left i outcome e (r, logged) h (raised, inr (failed, all)) =
    ((h, raised), inr (failed, omega (arith, all)))

attempt-Ends :
    (left i : ℕ) (outcome : ℕ → Option PgError) (o : Option PgError)
    (r : Result PgError (Unit {0}) × List PgError)
    → outcome i ≡ o
    → Ends left (suc i) outcome r
    → Ends (suc left) i outcome (attempt o r)
attempt-Ends left i outcome none r h ends =
    (tt, inl (refl, omega arith, ap outcome (omega arith) ∙ h))
attempt-Ends left i outcome (some e) r h ends = logs-Ends left i outcome e r h ends

attempts-Ends :
    (left i : ℕ) (outcome : ℕ → Option PgError) → Ends left i outcome (attempts left i outcome)
unfolding attempts
attempts-Ends zero i outcome = (tt, inr (refl, refl))
attempts-Ends (suc left) i outcome =
    attempt-Ends left i outcome (outcome i) (attempts left (suc i) outcome) refl
      (attempts-Ends left (suc i) outcome)

-- `prepare` returns exactly if one of the first `connect_max_attempts` attempts succeeds, the last one included; it makes no
-- attempt behind that one, and it has logged the error of each attempt before it. Otherwise it raises `PrepareError`
-- with the errors of all attempts logged.
pub prepare-attempts :
    (connect_max_attempts : ℕ) (outcome : ℕ → Option PgError)
    → let (r, logged) = prepare connect_max_attempts outcome in
      Raises 0 outcome logged
      × (((r ≡ ok tt) × (length logged < connect_max_attempts) × (outcome (length logged) ≡ none))
          ⊎ ((r ≡ err prepare_error) × (length logged ≡ connect_max_attempts)))
unfolding prepare
prepare-attempts connect_max_attempts outcome =
    let (raised, ends) = attempts-Ends connect_max_attempts 0 outcome in
    (
      raised,
      elim ends [
        | inl (done, fewer, last) ↦ inl (done, fewer, ap outcome (omega arith) ∙ last)
        | inr failed ↦ inr failed
      ],
    )
