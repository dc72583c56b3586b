-- ===== src/Pg/Queries/Quiet.antt =====
-- What the spans of ipapp/db/pg.py tell of a query, when nothing of it is to be logged.
use ipapp.Common.{
  ℕ, ◌≡◌, refl, ap, sym, ◌∙◌, String, false, Option, none, some, List, if◌then◌else◌,
}
use ipapp.Common.Exec.{Result, ok, err}
use ipapp.Spans.{Span, set_name4adapter}
use ipapp.Pg.{PgError}
use ipapp.Pg.Queries.{
  Config, Texts, PreparedStatement, Model, tagged, Noted, then_do, finish_query, with_pid,
  with_stmt, with_query, with_params, asked, asked_prepared, asked_prepare, executed, behind,
  fetched_one, fetched_all, prepared_as, read, execute, executemany, query_one, query_all, prepare,
  query_one_prepared, query_all_prepared, cursor, cursor_prepared,
}

-- A query with what the library answers to it
pub data Call (Args Row : Type 0) : Type 0 where
  executes executes_many :
      (query : String) (args : Args) (query_name : Option String) (answer : Result PgError String)
      → Call Args Row
  queries_one :
      (query : String) (args : Args) (query_name : Option String) (model_cls : Option (Model Row))
      (answer : Result PgError (Option Row))
      → Call Args Row
  queries_all :
      (query : String) (args : Args) (query_name : Option String) (model_cls : Option (Model Row))
      (answer : Result PgError (List Row))
      → Call Args Row
  prepares :
      (query : String) (query_name : Option String) (answer : Result PgError String) → Call Args Row
  queries_one_prepared :
      (stmt : PreparedStatement) (args : Args) (answer : Result PgError (Option Row))
      → Call Args Row
  queries_all_prepared :
      (stmt : PreparedStatement) (args : Args) (answer : Result PgError (List Row)) → Call Args Row
  reads :
      (query : String) (args : Args) (query_name : Option String) (model_cls : Option (Model Row))
      (rows : List Row) (stop : Option PgError)
      → Call Args Row
  reads_prepared :
      (stmt : PreparedStatement) (args : Args) (rows : List Row) (stop : Option PgError)
      → Call Args Row

-- What the caller gets
pub data Outcome (Row : Type 0) : Type 0 where
  status : Result PgError String → Outcome Row
  one : Result PgError (Option Row) → Outcome Row
  all : Result PgError (List Row) → Outcome Row
  statement : Result PgError PreparedStatement → Outcome Row
  rows : List Row × Option PgError → Outcome Row

abbrev raised_by : {A : Type 0} → Result PgError A → Option PgError
raised_by (ok a) = none
raised_by (err e) = some e

-- What the call raises, if it does
abbrev pub raised_in : {Row : Type 0} → Outcome Row → Option PgError
raised_in (status x) = raised_by x
raised_in (one x) = raised_by x
raised_in (all x) = raised_by x
raised_in (statement x) = raised_by x
raised_in (rows x) = x.1

-- The part of a call that its span may always tell: the operation, and the names of the query and of the statement
pub data Public : Type 0 where
  by_query : (operation : String) (query_name : Option String) → Public
  by_statement : (operation : String) (stmt : PreparedStatement) → Public
  by_prepared : (query_name : Option String) (stmt_name : Option String) → Public

abbrev name_of : Result PgError String → Option String
name_of (ok name) = some name
name_of (err e) = none

module _ {Args Row : Type 0} where
  abbrev pub public : Call Args Row → Public
  public (executes query args query_name answer) = by_query "db_execute" query_name
  public (executes_many query args query_name answer) = by_query "db_executemany" query_name
  public (queries_one query args query_name model_cls answer) = by_query "db_query_one" query_name
  public (queries_all query args query_name model_cls answer) = by_query "db_query_all" query_name
  public (reads query args query_name model_cls rs stop) = by_query "db_cursor" query_name
  public (prepares query query_name answer) = by_prepared query_name (name_of answer)
  public (queries_one_prepared stmt args answer) = by_statement "db_query_one_prepared" stmt
  public (queries_all_prepared stmt args answer) = by_statement "db_query_all_prepared" stmt
  public (reads_prepared stmt args rs stop) = by_statement "db_cursor_prepared" stmt

  module _ (texts : Texts Args Row) (now : ℕ) (pid : String) where
    abbrev as_outcome : {A : Type 0} → (A → Outcome Row) → A × Span → Outcome Row × Span
    as_outcome f (a, s) = (f a, s)

    abbrev pub perform : Config → Call Args Row → Span → Outcome Row × Span
    perform cfg (executes query args query_name answer) s =
        as_outcome status (execute texts cfg now pid query args query_name answer s)
    perform cfg (executes_many query args query_name answer) s =
        as_outcome status (executemany texts cfg now pid query args query_name answer s)
    perform cfg (queries_one query args query_name model_cls answer) s =
        as_outcome one (query_one texts cfg now pid query args query_name model_cls answer s)
    perform cfg (queries_all query args query_name model_cls answer) s =
        as_outcome all (query_all texts cfg now pid query args query_name model_cls answer s)
    perform cfg (prepares query query_name answer) s =
        as_outcome statement (prepare texts cfg now pid query query_name answer s)
    perform cfg (queries_one_prepared stmt args answer) s =
        as_outcome one (query_one_prepared texts cfg now pid stmt args answer s)
    perform cfg (queries_all_prepared stmt args answer) s =
        as_outcome all (query_all_prepared texts cfg now pid stmt args answer s)
    perform cfg (reads query args query_name model_cls rs stop) s =
        as_outcome rows (cursor texts cfg now pid query args query_name model_cls rs stop s)
    perform cfg (reads_prepared stmt args rs stop) s =
        as_outcome rows (cursor_prepared texts cfg now pid stmt args rs stop s)

    abbrev maybe_stmt : Config → Option String → Noted → Noted
    maybe_stmt cfg none n = n
    maybe_stmt cfg (some stmt_name) n = then_do n (with_stmt texts cfg now pid stmt_name)

    -- What the span tells from these names alone
    abbrev quiet : Config → Public → Span → Noted
    quiet cfg (by_query operation query_name) s =
        with_pid texts cfg now pid
          (tagged query_name (set_name4adapter "PrometheusAdapter" operation s))
    quiet cfg (by_statement operation stmt) s =
        then_do (with_pid texts cfg now pid (set_name4adapter "PrometheusAdapter" operation s))
          (λ s'.
            then_do (with_stmt texts cfg now pid stmt.stmt_name s')
              (λ s''. (ok tt, tagged stmt.query_name s'')))
    quiet cfg (by_prepared query_name stmt_name) s = maybe_stmt cfg stmt_name (
        with_pid texts cfg now pid
          (tagged query_name (set_name4adapter "PrometheusAdapter" "db_prepare" s)))

    module _ (cfg : Config) (q : cfg.log_query ≡ false) (r : cfg.log_result ≡ false) where
      then_do-ok : (n : Noted) → then_do n (λ s. (ok tt, s)) ≡ n
      then_do-ok (ok u, s) = refl
      then_do-ok (err e, s) = refl

      asked-quiet :
          (operation : String) (query_name : Option String) (query : String) (args : Args)
          (s : Span)
          → asked texts cfg now pid operation query_name query args s
            ≡ quiet cfg (by_query operation query_name) s
      asked-quiet operation query_name query args s =
          let n = quiet cfg (by_query operation query_name) s in
          ap
            (λ b. then_do n (λ s'.
              if b
              then then_do (with_query texts cfg now pid query s')
                  (with_params texts cfg now pid args)
              else (ok tt, s')))
            q
          ∙ then_do-ok n

      asked_prepared-quiet :
          (operation : String) (stmt : PreparedStatement) (args : Args) (s : Span)
          → asked_prepared texts cfg now pid operation stmt args s
            ≡ quiet cfg (by_statement operation stmt) s
      asked_prepared-quiet operation stmt args s =
          ap
            (λ b.
              then_do
                (with_pid texts cfg now pid (set_name4adapter "PrometheusAdapter" operation s))
                (λ s'. then_do (with_stmt texts cfg now pid stmt.stmt_name s') (λ s''.
                  if b
                  then with_params texts cfg now pid args (tagged stmt.query_name s'')
                  else (ok tt, tagged stmt.query_name s''))))
            q

      asked_prepare-quiet :
          (query_name : Option String) (query : String) (s : Span)
          → asked_prepare texts cfg now pid query_name query s
            ≡ quiet cfg (by_prepared query_name none) s
      asked_prepare-quiet query_name query s =
          let n = quiet cfg (by_prepared query_name none) s in
          ap
            (λ b.
              then_do n (λ s'. if b then with_query texts cfg now pid query s' else (ok tt, s')))
            q
          ∙ then_do-ok n

      executed-span :
          (n : Noted) (answer : Result PgError String)
          → (executed texts cfg now pid n answer).1 ≡ n.1
      executed-span (err e, s) answer = refl
      executed-span (ok u, s) (err e) = refl
      executed-span (ok u, s) (ok res) = rw r refl

      fetched_one-span :
          (model_cls : Option (Model Row)) (n : Noted) (answer : Result PgError (Option Row))
          → (fetched_one texts cfg now pid model_cls n answer).1 ≡ n.1
      fetched_one-span model_cls (err e, s) answer = refl
      fetched_one-span model_cls (ok u, s) (err e) = refl
      fetched_one-span model_cls (ok u, s) (ok res) = rw r refl

      fetched_all-span :
          (model_cls : Option (Model Row)) (n : Noted) (answer : Result PgError (List Row))
          → (fetched_all texts cfg now pid model_cls n answer).1 ≡ n.1
      fetched_all-span model_cls (err e, s) answer = refl
      fetched_all-span model_cls (ok u, s) (err e) = refl
      fetched_all-span model_cls (ok u, s) (ok res) = rw r refl

      read-span :
          (n : Noted) (rs : List Row × Option PgError) → (read texts cfg now pid n rs).1 ≡ n.1
      read-span (err e, s) rs = refl
      read-span (ok u, s) rs = rw r refl

      prepared_as-span :
          (query_name : Option String) (n : Noted) (answer : Result PgError String)
          → (prepared_as texts cfg now pid query_name n answer).1
            ≡ (maybe_stmt cfg (name_of answer) n).1
      prepared_as-span query_name (err e, s) (ok name) = refl
      prepared_as-span query_name (err e, s) (err x) = refl
      prepared_as-span query_name (ok u, s) (err e) = refl
      prepared_as-span query_name (ok u, s) (ok name) =
          behind-span (with_stmt texts cfg now pid name s)
            (record { stmt_name = name; query_name = query_name })
        where
          behind-span :
              (m : Noted) (stmt : PreparedStatement)
              → (behind texts cfg now pid m (ok stmt)).1 ≡ m.1
          behind-span (ok v, x) stmt = refl
          behind-span (err e, x) stmt = refl

      abbrev end : Option PgError → Span → Span
      end raised s = finish_query texts cfg now pid raised s

      perform-quiet :
          (c : Call Args Row) (s : Span)
          → (perform cfg c s).1 ≡ end (raised_in (perform cfg c s).0) (quiet cfg (public c) s).1
      unfolding execute executemany query_one query_all prepare query_one_prepared
          query_all_prepared cursor cursor_prepared
      perform-quiet (executes query args query_name answer) s =
          let n = asked texts cfg now pid "db_execute" query_name query args s in
          ap (end (raised_in (perform cfg (executes query args query_name answer) s).0)) (
            executed-span n answer
            ∙ ap (λ m. m.1) (asked-quiet "db_execute" query_name query args s))
      perform-quiet (executes_many query args query_name answer) s =
          let n = asked texts cfg now pid "db_executemany" query_name query args s in
          ap (end (raised_in (perform cfg (executes_many query args query_name answer) s).0)) (
            executed-span n answer
            ∙ ap (λ m. m.1) (asked-quiet "db_executemany" query_name query args s))
      perform-quiet (queries_one query args query_name model_cls answer) s =
          let n = asked texts cfg now pid "db_query_one" query_name query args s in
          ap
            (end (raised_in (perform cfg (queries_one query args query_name model_cls answer) s).0))
            (fetched_one-span model_cls n answer
              ∙ ap (λ m. m.1) (asked-quiet "db_query_one" query_name query args s))
      perform-quiet (queries_all query args query_name model_cls answer) s =
          let n = asked texts cfg now pid "db_query_all" query_name query args s in
          ap
            (end (raised_in (perform cfg (queries_all query args query_name model_cls answer) s).0))
            (fetched_all-span model_cls n answer
              ∙ ap (λ m. m.1) (asked-quiet "db_query_all" query_name query args s))
      perform-quiet (queries_one_prepared stmt args answer) s =
          let n = asked_prepared texts cfg now pid "db_query_one_prepared" stmt args s in
          ap (end (raised_in (perform cfg (queries_one_prepared stmt args answer) s).0)) (
            fetched_one-span none n answer
            ∙ ap (λ m. m.1) (asked_prepared-quiet "db_query_one_prepared" stmt args s))
      perform-quiet (queries_all_prepared stmt args answer) s =
          let n = asked_prepared texts cfg now pid "db_query_all_prepared" stmt args s in
          ap (end (raised_in (perform cfg (queries_all_prepared stmt args answer) s).0)) (
            fetched_all-span none n answer
            ∙ ap (λ m. m.1) (asked_prepared-quiet "db_query_all_prepared" stmt args s))
      perform-quiet (reads query args query_name model_cls rs stop) s =
          let n = asked texts cfg now pid "db_cursor" query_name query args s in
          ap (end (raised_in (perform cfg (reads query args query_name model_cls rs stop) s).0))
            (read-span n _ ∙ ap (λ m. m.1) (asked-quiet "db_cursor" query_name query args s))
      perform-quiet (reads_prepared stmt args rs stop) s =
          let n = asked_prepared texts cfg now pid "db_cursor_prepared" stmt args s in
          ap (end (raised_in (perform cfg (reads_prepared stmt args rs stop) s).0))
            (read-span n _ ∙ ap (λ m. m.1) (asked_prepared-quiet "db_cursor_prepared" stmt args s))
      perform-quiet (prepares query query_name answer) s =
          let n = asked_prepare texts cfg now pid query_name query s in
          ap (end (raised_in (perform cfg (prepares query query_name answer) s).0)) (
            prepared_as-span query_name n answer
            ∙ ap (λ m. (maybe_stmt cfg (name_of answer) m).1)
                (asked_prepare-quiet query_name query s))

-- With `log_query` and `log_result` off, two calls of the same method with the same query name, and with the same
-- statement if it is a prepared one, that end with the same exception or with none, leave the same span when it has
-- finished: nothing in it depends on the query, its parameters or the rows, but by the exception that is raised.
pub quiet_lem :
    {Args Row : Type 0} (texts : Texts Args Row) (now : ℕ) (pid : String) (cfg : Config)
    (c d : Call Args Row) (s : Span)
    → cfg.log_query ≡ false
    → cfg.log_result ≡ false
    → public c ≡ public d
    → raised_in (perform texts now pid cfg c s).0 ≡ raised_in (perform texts now pid cfg d s).0
    → (perform texts now pid cfg c s).1 ≡ (perform texts now pid cfg d s).1
quiet_lem texts now pid cfg c d s q r h raised =
    perform-quiet texts now pid cfg q r c s
    ∙ ap
        (λ p.
          finish_query texts cfg now pid (raised_in (perform texts now pid cfg c s).0)
            (quiet texts now pid cfg p s).1)
        h
    ∙ ap (λ e. finish_query texts cfg now pid e (quiet texts now pid cfg (public d) s).1) raised
    ∙ sym (perform-quiet texts now pid cfg q r d s)
