-- ===== src/Requests/Rows.antt =====
-- ipapp/logger/adapters/requests.py: what the executed statements write, and that every request is written.
use ipapp.Common.{
  ℕ, zero, suc, ◌+◌, ◌≡◌, refl, ap, ◌∙◌, Option, none, some, List, [], ◌∷◌, ◌++◌, map, arith,
}
use mathlib.Core.Option
use mathlib.Core.List.{append-nil}
use ipapp.Common.Lists.{length}
use ipapp.Requests.{Request}
use ipapp.Requests.Queue.{
  Column, service, type, trace_id, stamp_begin, stamp_end, is_out, url, method, req_hdrs, req_body,
  resp_hdrs, resp_body, status_code, error, tags, query_cols, Value, getattr, Placeholder, plain,
  to_timestamp, placeholder, build_row, Statement, build_rows, build_query,
}

-- What the database puts into a column: a parameter, or the stamp that a parameter tells.
pub data Cell : Type 0 where
  of_value of_timestamp : Value → Cell

-- The parameter with this number, from 1
abbrev value_at : ℕ → List Value → Option Value
value_at n [] = none
value_at zero (v ∷ vs) = none
value_at (suc zero) (v ∷ vs) = some v
value_at (suc (suc n)) (v ∷ vs) = value_at (suc n) vs

abbrev resolve : List Value → Placeholder → Option Cell
resolve params (plain n) = Option.map of_value (value_at n params)
resolve params (to_timestamp n) = Option.map of_timestamp (value_at n params)

-- The rows that a statement writes
abbrev pub written : Statement → List (List (Option Cell))
written (rows, params) = map (map (resolve params)) rows

abbrev pub all_written : List Statement → List (List (Option Cell))
all_written [] = []
all_written (s ∷ ss) = written s ++ all_written ss

abbrev cell : Request → Column → Cell
cell r stamp_begin = of_timestamp (getattr r stamp_begin)
cell r stamp_end = of_timestamp (getattr r stamp_end)
cell r col = of_value (getattr r col)

-- The row of a request
abbrev pub row : Request → List (Option Cell)
row r = map (λ col. some (cell r col)) query_cols

-- The parameters from this number on are these.
abbrev From : ℕ → List Value → List Value → Type 0
From n params rest = (k : ℕ) → value_at (n + k) params ≡ value_at (suc k) rest

From-value :
    (n : ℕ) (params : List Value) (v : Value) (rest : List Value)
    → From n params (v ∷ rest)
    → value_at n params ≡ some v
From-value n params v rest h =
    let e : n + 0 ≡ n = omega arith in let at_first = h 0 in rw e at at_first

From-suc :
    (n : ℕ) (params : List Value) (v : Value) (rest : List Value)
    → From n params (v ∷ rest)
    → From (suc n) params rest
From-suc n params v rest h k =
    let e : n + suc k ≡ suc n + k = omega arith in let at_next = h (suc k) in rw e at at_next

resolve-placeholder :
    (r : Request) (col : Column) (n : ℕ) (params : List Value)
    → value_at n params ≡ some (getattr r col)
    → resolve params (placeholder col n) ≡ some (cell r col)
resolve-placeholder r stamp_begin n params h = rw h
resolve-placeholder r stamp_end n params h = rw h
resolve-placeholder r service n params h = rw h
resolve-placeholder r type n params h = rw h
resolve-placeholder r trace_id n params h = rw h
resolve-placeholder r is_out n params h = rw h
resolve-placeholder r url n params h = rw h
resolve-placeholder r method n params h = rw h
resolve-placeholder r req_hdrs n params h = rw h
resolve-placeholder r req_body n params h = rw h
resolve-placeholder r resp_hdrs n params h = rw h
resolve-placeholder r resp_body n params h = rw h
resolve-placeholder r status_code n params h = rw h
resolve-placeholder r error n params h = rw h
resolve-placeholder r tags n params h = rw h

build_row-cells :
    (n : ℕ) (cols : List Column) (r : Request) (params suf : List Value)
    → From n params ((build_row n cols r).1 ++ suf)
    → (map (resolve params) (build_row n cols r).0 ≡ map (λ col. some (cell r col)) cols)
      × From (build_row n cols r).2 params suf
build_row-cells n [] r params suf h = (refl, h)
build_row-cells n (col ∷ cols) r params suf h =
    let vals = (build_row (suc n) cols r).1 in
    let (cells, next) =
      build_row-cells (suc n) cols r params suf
        (From-suc n params (getattr r col) (vals ++ suf) h) in
    (
      rw (
        resolve-placeholder r col n params (From-value n params (getattr r col) (vals ++ suf) h),
        cells,
      ),
      next,
    )

build_rows-cells :
    (n : ℕ) (queue : List Request) (params suf : List Value)
    → From n params ((build_rows n (length queue) queue).0.1 ++ suf)
    → (map (map (resolve params)) (build_rows n (length queue) queue).0.0 ≡ map row queue)
      × ((build_rows n (length queue) queue).1 ≡ [])
build_rows-cells n [] params suf h = (refl, refl)
build_rows-cells n (r ∷ queue) params suf h =
    let n' = (build_row n query_cols r).2 in
    let params' = (build_rows n' (length queue) queue).0.1 in
    let (cells, next) = build_row-cells n query_cols r params (params' ++ suf) h in
    let (rows, rest) = build_rows-cells n' queue params suf next in
    (
      ap (λ c. c ∷ map (map (resolve params)) (build_rows n' (length queue) queue).0.0) cells
          ∙ ap (λ rs. row r ∷ rs) rows,
      rest,
    )

-- The statement for a whole queue writes its requests, and leaves nothing.
pub build_query-written :
    (queue : List Request)
    → (written (build_query (length queue) queue).0 ≡ map row queue)
      × ((build_query (length queue) queue).1 ≡ [])
unfolding build_query
build_query-written queue =
    let params = (build_rows 1 (length queue) queue).0.1 in
    build_rows-cells 1 queue params []
      (λ k. let e : 1 + k ≡ suc k = omega arith in rw (e, append-nil params) refl)
