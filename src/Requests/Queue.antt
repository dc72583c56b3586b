-- ===== src/Requests/Queue.antt =====
-- ipapp/logger/adapters/requests.py: the bounded queue of rows, and the statements that write them. Whether the
-- database can be reached, and whether a statement succeeds, is an argument.
use ipapp.Common.{
  ℕ, zero, suc, String, Bool, true, false, Option, none, some, List, [], ◌∷◌, ◌++◌, leb, ltb,
  if◌then◌else◌,
}
use ipapp.Common.Int.{ℤ}
use ipapp.Common.Lists.{length}
use ipapp.Common.Exec.{Result, ok, err}
use ipapp.Requests.{Request, Config, Made, skipped, invalid, made}

-- `_QUERY_COLS`
pub data Column : Type 0 where
  service type trace_id stamp_begin stamp_end is_out url method req_hdrs req_body resp_hdrs
        resp_body status_code error tags :
      Column

abbrev pub query_cols : List Column
query_cols =
    service ∷ type ∷ trace_id ∷ stamp_begin ∷ stamp_end ∷ is_out ∷ url ∷ method ∷ req_hdrs
    ∷ req_body ∷ resp_hdrs ∷ resp_body ∷ status_code ∷ error ∷ tags ∷ []

pub data Value : Type 0 where
  text : Option String → Value
  stamp : ℕ → Value
  flag : Bool → Value
  number : Option ℤ → Value

-- `getattr(req, col)`
abbrev pub getattr : Request → Column → Value
getattr r service = text r.service
getattr r type = text r.type
getattr r trace_id = text (some r.trace_id)
getattr r stamp_begin = stamp r.stamp_begin
getattr r stamp_end = stamp r.stamp_end
getattr r is_out = flag r.is_out
getattr r url = text r.url
getattr r method = text r.method
getattr r req_hdrs = text r.req_hdrs
getattr r req_body = text r.req_body
getattr r resp_hdrs = text r.resp_hdrs
getattr r resp_body = text r.resp_body
getattr r status_code = number r.status_code
getattr r error = text r.error
getattr r tags = text r.tags

-- `$n`, or `to_timestamp($n)`
pub data Placeholder : Type 0 where
  plain to_timestamp : ℕ → Placeholder

abbrev pub placeholder : Column → ℕ → Placeholder
placeholder stamp_begin n = to_timestamp n
placeholder stamp_end n = to_timestamp n
placeholder _ n = plain n

-- The inner loop of `_build_query`: the placeholders of a row, its values, and the next number
abbrev pub build_row : ℕ → List Column → Request → List Placeholder × List Value × ℕ
build_row n [] r = ([], [], n)
build_row n (col ∷ cols) r =
    let (phs, vals, n') = build_row (suc n) cols r in
    (placeholder col n ∷ phs, getattr r col ∷ vals, n')

-- A statement: the placeholders of its rows, and its parameters
abbrev pub Statement : Type 0
Statement = List (List Placeholder) × List Value

-- The outer loop of `_build_query`, with the queue that it leaves; the count is at most the length of the queue.
abbrev pub build_rows : ℕ → ℕ → List Request → Statement × List Request
build_rows n zero queue = (([], []), queue)
build_rows n (suc count) [] = (([], []), [])
build_rows n (suc count) (r ∷ queue) =
    let (phs, vals, n') = build_row n query_cols r in
    let ((rows, params), rest) = build_rows n' count queue in ((phs ∷ rows, vals ++ params), rest)

-- `_build_query`
unfoldable pub build_query : ℕ → List Request → Statement × List Request
build_query count queue = build_rows 1 count queue

-- The exceptions that are told apart.
pub data Error : Type 0 where
  user_warning validation_error prepare_error database_error : Error

-- The fields of `RequestsAdapter`, with the statements that the database has executed. `sleeping` says whether
-- `_sleep_fut` is set and not done.
pub record Adapter : Type 0 where
  pub queue : Option (List Request)
  pub stopping : Bool
  pub sleeping : Bool
  pub executed : List Statement

abbrev pub new_adapter : Adapter
new_adapter = record { queue = none; stopping = false; sleeping = false; executed = [] }

-- What the database does when rows are sent: `get_conn` fails, the statement fails, or both succeed.
pub data Database : Type 0 where
  unreachable refuses works : Database

-- `start`; it fails if the database cannot be reached, and the queue is there then.
unfoldable pub start : Database → Adapter → Result Error (Unit {0}) × Adapter
start unreachable a = (err prepare_error, record a { queue = some [] })
start _ a = (ok tt, record a { queue = some [] })

-- `append` of a deque with a `maxlen`, which drops from the left
abbrev pub append_bounded : ℕ → List Request → Request → List Request
append_bounded zero queue r = []
append_bounded (suc max) [] r = r ∷ []
append_bounded (suc max) (q ∷ queue) r =
    if leb (suc max) (length (q ∷ queue)) then queue ++ r ∷ [] else q ∷ queue ++ r ∷ []

-- The end of `handle`: the request is queued, and a full queue ends the sleep.
abbrev queued : Config → List Request → Adapter → Adapter
queued cfg queue a = record a {
  queue = some queue;
  sleeping = if leb cfg.send_max_count (length queue) then false else a.sleeping;
}

abbrev handle_made : Config → Made → List Request → Adapter → Result Error (Unit {0}) × Adapter
handle_made cfg skipped queue a = (ok tt, a)
handle_made cfg invalid queue a = (err validation_error, a)
handle_made cfg (made r) queue a = (ok tt, queued cfg (append_bounded cfg.max_queue_size queue r) a)

-- `handle`, of a span that makes this
unfoldable pub handle : Config → Made → Adapter → Result Error (Unit {0}) × Adapter
handle cfg m a = elim a.queue [
  | none ↦ (err user_warning, a)
  | some queue ↦ handle_made cfg m queue a
]

abbrev pub min : ℕ → ℕ → ℕ
min a b = if leb a b then a else b

-- The part of `_send` behind its tests; rows leave the queue before the statement is executed.
abbrev send_rows : Config → Database → List Request → Adapter → Result Error (Unit {0}) × Adapter
send_rows cfg unreachable queue a = (err prepare_error, a)
send_rows cfg refuses queue a =
    let (statement, rest) = build_query (min cfg.max_queue_size (length queue)) queue in
    (err database_error, record a { queue = some rest })
send_rows cfg works queue a =
    let (statement, rest) = build_query (min cfg.max_queue_size (length queue)) queue in
    (ok tt, record a { queue = some rest; executed = a.executed ++ statement ∷ [] })

abbrev send_queue :
    Config → Database → Option (List Request) → Adapter → Result Error (Unit {0}) × Adapter
send_queue cfg db none a = (ok tt, a)
send_queue cfg db (some []) a = (ok tt, a)
send_queue cfg db (some (r ∷ queue)) a = send_rows cfg db (r ∷ queue) a

-- `_send`
unfoldable pub send : Config → Database → Adapter → Result Error (Unit {0}) × Adapter
unfolding build_query
send cfg db a = send_queue cfg db a.queue a

abbrev queued_count : Option (List Request) → ℕ
queued_count none = 0
queued_count (some queue) = length queue

-- What follows a `_send` in `stop`
abbrev pub after_send :
    (Adapter → Option (Result Error (Unit {0})) × Adapter)
    → Result Error (Unit {0}) × Adapter
    → Option (Result Error (Unit {0})) × Adapter
after_send more (ok _, a) = more a
after_send more (err e, a) = (some (err e), a)

-- The loop of `stop`, on fuel, which each `_send` takes one of; the function has what the database does then.
unfoldable pub send_all :
    ℕ → Config → (ℕ → Database) → Adapter → Option (Result Error (Unit {0})) × Adapter
unfolding send
send_all zero cfg db a = (if ltb 0 (queued_count a.queue) then none else some (ok tt), a)
send_all (suc fuel) cfg db a =
    let ended = after_send (send_all fuel cfg (λ n. db (suc n))) (send cfg (db 0) a) in
    if ltb 0 (queued_count a.queue) then ended else (some (ok tt), a)

-- `stop`, until it cancels the task of `_send_loop`
unfoldable pub stop :
    ℕ → Config → (ℕ → Database) → Adapter → Option (Result Error (Unit {0})) × Adapter
unfolding send_all
stop fuel cfg db a = send_all fuel cfg db (record a { stopping = true })

-- A round of `_send_loop`, until it sleeps; an exception is logged.
unfoldable pub send_round : Config → Database → Adapter → Adapter
unfolding send
send_round cfg db a = if a.stopping then a else record (send cfg db a).1 { sleeping = true }
