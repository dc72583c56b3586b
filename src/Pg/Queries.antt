-- ===== src/Pg/Queries.antt =====
-- ipapp/db/pg.py, `Connection` and `PreparedStatement`: a query and what its span records of it. What the library
-- answers, the clock, and the JSON of values are arguments; the stamps of one query are the same.
pub mod Quiet
use ipapp.Common.{
  ℕ, suc, String, Bool, true, false, Option, none, some, List, [], ◌∷◌, if◌then◌else◌,
}
use ipapp.Common.Exec.{Result, ok, err}
use ipapp.Spans.{Span, set_name4adapter, tag, Error, finish, annotate, annotate4adapter}
use ipapp.Common.Text.{◌⁀◌}
use ipapp.Common.Dict.{lookup}
use ipapp.Pg.{PgError}

-- `log_query` and `log_result` of `PostgresConfig`
pub record Config : Type 0 where
  pub log_query : Bool
  pub log_result : Bool

-- The JSON of parameters, of a row and of rows, and of a dict with one key, which the encoder may refuse; the other texts,
-- and what a span keeps of an exception
pub record Texts (Args Row : Type 0) : Type 0 where
  pub json_args : Args → Result PgError String
  pub json_row : Option Row → Result PgError String
  pub json_rows : List Row → Result PgError String
  pub json_key : String → String → Result PgError String
  pub dedent_strip : String → String
  pub rows_text : ℕ → String
  pub error_of : PgError → Error

-- The class `PreparedStatement`
pub record PreparedStatement : Type 0 where
  pub stmt_name : String
  pub query_name : Option String

-- A model makes an object of a row, or raises.
abbrev pub Model : Type 0 → Type 0
Model Row = Row → Result PgError Row

abbrev pub tagged : Option String → Span → Span
tagged none s = s
tagged (some query_name) s = tag "db.query" query_name s

-- The name with that of the query, if there is one
abbrev pub named : Option String → Span → Span
named none s = s
named (some query_name) s = record s { name = s.name ⁀ " (" ⁀ query_name ⁀ ")" }

-- A part of a query that writes to the span and may raise
abbrev pub Noted : Type 0
Noted = Result PgError (Unit {0}) × Span

abbrev pub then_do : Noted → (Span → Noted) → Noted
then_do (ok u, s) rest = rest s
then_do (err e, s) rest = (err e, s)

module _ {Args Row : Type 0} (texts : Texts Args Row) (cfg : Config) (now : ℕ) (pid : String) where
  abbrev pub error_of : Option PgError → Option Error
  error_of none = none
  error_of (some e) = some (texts.error_of e)

  -- `PgSpan.finish`
  unfoldable pub finish_query : Option PgError → Span → Span
  finish_query raised s = finish now none (error_of raised) (named (lookup "db.query" s.tags) s)

  abbrev pub raised_by : {A : Type 0} → Result PgError A → Option PgError
  raised_by (ok a) = none
  raised_by (err e) = some e

  -- The end of `with wrap2span(...)`
  abbrev pub closed : {A : Type 0} → Result PgError A × Span → Result PgError A × Span
  closed (r, s) = (r, finish_query (raised_by r) s)

  abbrev shown_as : String → Span → Result PgError String → Noted
  shown_as kind s (ok json) = (ok tt, annotate4adapter now "ZipkinAdapter" kind json none s)
  shown_as kind s (err e) = (err e, s)

  -- The two annotations that the code writes side by side: the value, and for one adapter its JSON
  abbrev noted : String → String → String → String → Span → Noted
  noted kind value key shown s =
      shown_as kind (annotate now kind value none s) (texts.json_key key shown)

  abbrev pub with_pid : Span → Noted
  with_pid s = noted "pg_pid" pid "pid" pid s

  abbrev pub with_stmt : String → Span → Noted
  with_stmt stmt_name s = noted "pg_stmt_name" stmt_name "statement_name" stmt_name s

  abbrev pub with_query : String → Span → Noted
  with_query query s = noted "query" query "query" (texts.dedent_strip query) s

  abbrev noted_json : String → Result PgError String → Span → Noted
  noted_json kind (ok json) s = noted kind json kind json s
  noted_json kind (err e) s = (err e, s)

  abbrev pub with_params : Args → Span → Noted
  with_params args s = noted_json "query_params" (texts.json_args args) s

  abbrev with_result : Result PgError String → Span → Noted
  with_result res s = noted_json "result" res s

  -- The part of a query before the library is called
  abbrev pub asked : String → Option String → String → Args → Span → Noted
  asked p8s_name query_name query args s =
      then_do (with_pid (tagged query_name (set_name4adapter "PrometheusAdapter" p8s_name s)))
        (λ s'.
          if cfg.log_query then then_do (with_query query s') (with_params args) else (ok tt, s'))

  -- The same of a prepared statement
  abbrev pub asked_prepared : String → PreparedStatement → Args → Span → Noted
  asked_prepared p8s_name stmt args s =
      then_do (with_pid (set_name4adapter "PrometheusAdapter" p8s_name s)) (λ s'.
        then_do (with_stmt stmt.stmt_name s') (λ s''.
          let t = tagged stmt.query_name s'' in
          if cfg.log_query then with_params args t else (ok tt, t)))

  abbrev pub answered : Result PgError String → Span → Noted
  answered res s = if cfg.log_result then with_result res s else (ok tt, s)

  abbrev pub behind : {A : Type 0} → Noted → Result PgError A → Result PgError A × Span
  behind (ok u, s) r = (r, s)
  behind (err e, s) r = (err e, s)

  -- The call of the library, unless what is before it raises, and what follows its answer
  abbrev pub executed : Noted → Result PgError String → Result PgError String × Span
  executed (err e, s) answer = (err e, s)
  executed (ok u, s) (err e) = (err e, s)
  executed (ok u, s) (ok res) = behind (answered (ok res) s) (ok res)

  -- `execute` and `executemany`, with what the library answers
  unfoldable pub execute :
      (query : String) (args : Args) (query_name : Option String) (answer : Result PgError String)
      → Span
      → Result PgError String × Span
  unfolding finish_query
  execute query args query_name answer s =
      closed (executed (asked "db_execute" query_name query args s) answer)

  unfoldable pub executemany :
      (query : String) (args : Args) (query_name : Option String) (answer : Result PgError String)
      → Span
      → Result PgError String × Span
  unfolding finish_query
  executemany query args query_name answer s =
      closed (executed (asked "db_executemany" query_name query args s) answer)

  abbrev model_of : Option (Model Row) → Row → Result PgError Row
  model_of none row = ok row
  model_of (some model_cls) row = model_cls row

  abbrev model_of_one : Option (Model Row) → Option Row → Result PgError (Option Row)
  model_of_one model_cls none = ok none
  model_of_one model_cls (some row) = elim (model_of model_cls row) [
    | ok r ↦ ok (some r)
    | err e ↦ err e
  ]

  abbrev add_row : Result PgError Row → Result PgError (List Row) → Result PgError (List Row)
  add_row (ok r) (ok rs) = ok (r ∷ rs)
  add_row (ok r) (err e) = err e
  add_row (err e) rest = err e

  abbrev model_of_all : Option (Model Row) → List Row → Result PgError (List Row)
  model_of_all model_cls [] = ok []
  model_of_all model_cls (row ∷ rows) =
      add_row (model_of model_cls row) (model_of_all model_cls rows)

  abbrev pub fetched_one :
      Option (Model Row) → Noted → Result PgError (Option Row) → Result PgError (Option Row) × Span
  fetched_one model_cls (err e, s) answer = (err e, s)
  fetched_one model_cls (ok u, s) (err e) = (err e, s)
  fetched_one model_cls (ok u, s) (ok res) =
      behind (answered (texts.json_row res) s) (model_of_one model_cls res)

  -- `query_one`
  unfoldable pub query_one :
      (query : String) (args : Args) (query_name : Option String) (model_cls : Option (Model Row))
      (answer : Result PgError (Option Row))
      → Span
      → Result PgError (Option Row) × Span
  unfolding finish_query
  query_one query args query_name model_cls answer s =
      closed (fetched_one model_cls (asked "db_query_one" query_name query args s) answer)

  abbrev pub fetched_all :
      Option (Model Row) → Noted → Result PgError (List Row) → Result PgError (List Row) × Span
  fetched_all model_cls (err e, s) answer = (err e, s)
  fetched_all model_cls (ok u, s) (err e) = (err e, s)
  fetched_all model_cls (ok u, s) (ok res) =
      behind (answered (texts.json_rows res) s) (model_of_all model_cls res)

  -- `query_all`
  unfoldable pub query_all :
      (query : String) (args : Args) (query_name : Option String) (model_cls : Option (Model Row))
      (answer : Result PgError (List Row))
      → Span
      → Result PgError (List Row) × Span
  unfolding finish_query
  query_all query args query_name model_cls answer s =
      closed (fetched_all model_cls (asked "db_query_all" query_name query args s) answer)

  abbrev pub prepared_as :
      Option String → Noted → Result PgError String → Result PgError PreparedStatement × Span
  prepared_as query_name (err e, s) answer = (err e, s)
  prepared_as query_name (ok u, s) (err e) = (err e, s)
  prepared_as query_name (ok u, s) (ok stmt_name) =
      behind (with_stmt stmt_name s)
        (ok (record { stmt_name = stmt_name; query_name = query_name }))

  -- The part of `prepare` before the library is called
  abbrev pub asked_prepare : Option String → String → Span → Noted
  asked_prepare query_name query s =
      then_do (with_pid (tagged query_name (set_name4adapter "PrometheusAdapter" "db_prepare" s)))
        (λ s'. if cfg.log_query then with_query query s' else (ok tt, s'))

  -- `prepare`; the library answers with the name of the statement.
  unfoldable pub prepare :
      (query : String) (query_name : Option String) (answer : Result PgError String)
      → Span
      → Result PgError PreparedStatement × Span
  unfolding finish_query
  prepare query query_name answer s =
      closed (prepared_as query_name (asked_prepare query_name query s) answer)

  -- `PreparedStatement.query_one` and `query_all`
  unfoldable pub query_one_prepared :
      (stmt : PreparedStatement) (args : Args) (answer : Result PgError (Option Row))
      → Span
      → Result PgError (Option Row) × Span
  unfolding finish_query
  query_one_prepared stmt args answer s =
      closed (fetched_one none (asked_prepared "db_query_one_prepared" stmt args s) answer)

  unfoldable pub query_all_prepared :
      (stmt : PreparedStatement) (args : Args) (answer : Result PgError (List Row))
      → Span
      → Result PgError (List Row) × Span
  unfolding finish_query
  query_all_prepared stmt args answer s =
      closed (fetched_all none (asked_prepared "db_query_all_prepared" stmt args s) answer)

  -- What a cursor yields of the rows that are read from it, and what ends it: the end of the rows, the library, or the model
  abbrev yielded : Option (Model Row) → List Row → Option PgError → List Row × Option PgError
  yielded model_cls [] stop = ([], stop)
  yielded model_cls (row ∷ rows) stop =
      let (rs, e) = yielded model_cls rows stop in
      elim (model_of model_cls row) [ ok r ↦ (r ∷ rs, e) | err raised ↦ ([], some raised) ]

  abbrev count_of : List Row → ℕ
  count_of [] = 0
  count_of (row ∷ rows) = suc (count_of rows)

  abbrev read_behind : Noted → List Row × Option PgError → (List Row × Option PgError) × Span
  read_behind (ok u, s) r = (r, s)
  read_behind (err e, s) (rs, stop) = ((rs, some e), s)

  -- The rows, unless what is before them raises, and what follows them
  abbrev pub read : Noted → List Row × Option PgError → (List Row × Option PgError) × Span
  read (err e, s) r = (([], some e), s)
  read (ok u, s) r = read_behind (answered (ok (texts.rows_text (count_of r.0))) s) r

  abbrev pub closed_read : (List Row × Option PgError) × Span → (List Row × Option PgError) × Span
  closed_read ((rs, stop), s) = ((rs, stop), finish_query stop s)

  -- `_cursor_gen`, run on the rows that the caller reads
  unfoldable pub cursor :
      (query : String) (args : Args) (query_name : Option String) (model_cls : Option (Model Row))
      (rows : List Row) (stop : Option PgError)
      → Span
      → (List Row × Option PgError) × Span
  unfolding finish_query
  cursor query args query_name model_cls rows stop s =
      closed_read (read (asked "db_cursor" query_name query args s) (yielded model_cls rows stop))

  -- `PreparedStatement._cursor_gen`
  unfoldable pub cursor_prepared :
      (stmt : PreparedStatement) (args : Args) (rows : List Row) (stop : Option PgError)
      → Span
      → (List Row × Option PgError) × Span
  unfolding finish_query
  cursor_prepared stmt args rows stop s =
      closed_read (read (asked_prepared "db_cursor_prepared" stmt args s) (yielded none rows stop))
