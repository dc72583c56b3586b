-- ===== src/Pg/Tests.antt =====
-- The theorems about ipapp/db/pg.py at one connection and two tasks, and at two queries.
use ipapp.Common.{
  if◌then◌else◌, eqb, ℕ, Option, ◌<◌, ◌⊎◌, String, List, ◌+◌, ◌≡◌, ◌≤◌, refl, true, false, none,
  some, [], ◌∷◌, ltb,
}
use ipapp.Common.Lists.{length}
use ipapp.Common.Exec.{ok, err}
use ipapp.Spans.{new_span}
use ipapp.Pg.Connect.{prepare, prepare-attempts, Raises}
use ipapp.Pg.{PgError, prepare_error, postgres_error}
use ipapp.Pg.Transactions.{Event, enters, begins, exits, idle, run, step}
use ipapp.Pg.Transactions.Exclusive.{xacts-exclusive}
use ipapp.Pg.Transactions.Starved.{raises-starves}
use ipapp.Pg.Queries.{Config, Texts, execute, query_all}
use ipapp.Pg.{json_error}
use ipapp.Pg.Queries.Quiet.{Call, executes, perform, quiet_lem}

-- Task 1 is inside its transaction, and task 2 raises.
abbrev one_inside : List Event
one_inside = enters 1 ∷ begins 1 none ∷ enters 2 ∷ []

-- Task 2 waits until task 1 has ended.
abbrev one_after_another : List Event
one_after_another = enters 1 ∷ enters 2 ∷ begins 1 none ∷ exits 1 none ∷ begins 2 none ∷ []

run-one_inside : (run one_inside idle).inside ≡ 1 ∷ []
unfolding run step
run-one_inside = refl

run-one_after_another : (run one_after_another idle).inside ≡ 2 ∷ []
unfolding run step
run-one_after_another = refl

xacts-exclusive_example :
    (length (run one_after_another idle).beginning + length (run one_after_another idle).inside ≤ 1)
    × (ltb 0 (length (run one_after_another idle).beginning) ≡ true
        → (run one_after_another idle).conn.in_transaction ≡ false)
xacts-exclusive_example = xacts-exclusive one_after_another

abbrev fails_to_begin : Event
fails_to_begin = begins 1 (some (postgres_error "connection is closed"))

abbrev second_task : List Event
second_task = enters 2 ∷ begins 2 none ∷ []

raises-starves_example :
    let p = run second_task (step fails_to_begin (run (enters 1 ∷ []) idle)) in
    (p.beginning ≡ []) × (p.inside ≡ [])
unfolding run step
raises-starves_example = raises-starves (enters 1 ∷ []) second_task fails_to_begin refl

abbrev texts : Texts String String
texts = record {
  json_args = λ args. ok args;
  json_row = λ row. ok "{}";
  json_rows = λ rows. err (json_error "Object of type Card is not JSON serializable");
  json_key = λ key value. ok value;
  dedent_strip = λ query. query;
  rows_text = λ n. "rows";
  error_of = λ e. record { class_name = "PgError"; message = "error"; trace = none };
}

abbrev silent : Config
silent = record { log_query = false; log_result = false }

abbrev loud : Config
loud = record { log_query = true; log_result = true }

abbrev one_update : Call String String
one_update = executes "UPDATE card SET pin = $1" "1234" (some "set_pin") (ok "UPDATE 1")

abbrev other_update : Call String String
other_update = executes "UPDATE card SET blocked = $1" "9999" (some "set_pin") (ok "UPDATE 0")

quiet_lem_example :
    let s = new_span "t" "s" none in
    (perform texts 5 "77" silent one_update s).1 ≡ (perform texts 5 "77" silent other_update s).1
unfolding execute
quiet_lem_example =
    quiet_lem texts 5 "77" silent one_update other_update (new_span "t" "s" none) refl refl refl
      refl

-- With the results logged, rows that the encoder refuses make the query raise.
loud_query :
    (query_all texts loud 5 "77" "SELECT * FROM card" "" none none
      (ok [])
      (new_span "t" "s" none)).0
    ≡ err (json_error "Object of type Card is not JSON serializable")
unfolding query_all
loud_query = refl

-- The third of three attempts succeeds.
abbrev third_time : ℕ → Option PgError
third_time n = if eqb n 2 then none else some (postgres_error "refused")

prepare-third_time :
    prepare 3 third_time ≡ (ok tt, postgres_error "refused" ∷ postgres_error "refused" ∷ [])
unfolding prepare
prepare-third_time = refl

prepare-attempts_example :
    let (r, logged) = prepare 3 third_time in
    Raises 0 third_time logged
    × (((r ≡ ok tt) × (length logged < 3) × (third_time (length logged) ≡ none))
        ⊎ ((r ≡ err prepare_error) × (length logged ≡ 3)))
prepare-attempts_example = prepare-attempts 3 third_time
