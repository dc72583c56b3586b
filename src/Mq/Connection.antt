-- ===== src/Mq/Connection.antt =====
-- ipapp/mq/pika.py, class `_Connection`. `connect` and `close` are split at their `await`: what they do before it,
-- and how they end.
use ipapp.Common.{Bool, true, false, List, [], ◌∷◌, ◌++◌, if◌then◌else◌}
use ipapp.Common.Exec.{Result, ok, err}
use ipapp.Mq.{MqError, connection_closed, timeout}

pub data State : Type 0 where
  state_none state_connecting state_connected state_closing state_closed : State

-- The future that `connect` or `close` waits for, if one of them does.
pub data Fut : Type 0 where
  absent pending resolved : Fut
  failed : MqError → Fut

-- The fields of `_Connection`; `has_on_close` says whether `_on_close` is set, and `scheduled` has the errors
-- with which it was scheduled.
pub record Connection : Type 0 where
  pub has_conn : Bool
  pub fut : Fut
  pub has_on_close : Bool
  pub state : State
  pub scheduled : List MqError

-- `_Connection.__init__`
abbrev pub new_connection : Connection
new_connection = record {
  has_conn = false;
  fut = absent;
  has_on_close = false;
  state = state_none;
  scheduled = [];
}

-- `connect`, until it waits
unfoldable pub connect_begins : Connection → Connection
connect_begins c = record c {
  has_conn = true;
  fut = pending;
  has_on_close = true;
  state = state_connecting;
}

-- How `connect` ends: a future that is still pending has timed out.
abbrev pub connect_result : Fut → Result MqError (Unit {0})
connect_result resolved = ok tt
connect_result (failed e) = err e
connect_result pending = err timeout
connect_result absent = err timeout

abbrev state_after : Result MqError (Unit {0}) → State
state_after (ok _) = state_connected
state_after (err _) = state_closed

unfoldable pub connect_ends : Connection → Result MqError (Unit {0}) × Connection
connect_ends c =
    let r = connect_result c.fut in (r, record c { fut = absent; state = state_after r })

-- `close`, until it waits or returns; whether it waits
unfoldable pub close_begins : Connection → Bool × Connection
close_begins c =
    if c.has_conn
    then (true, record c { fut = pending; has_on_close = false; state = state_closing })
    else (false, record c { state = state_closed })

-- How `close` ends: it expects the exception that says that the connection is closed.
abbrev close_result : Fut → State → Result MqError (Unit {0}) × State
close_result (failed connection_closed) s = (ok tt, state_closed)
close_result (failed e) s = (err e, s)
close_result resolved s = (ok tt, s)
close_result _ s = (err timeout, s)

unfoldable pub close_ends : Connection → Result MqError (Unit {0}) × Connection
close_ends c = let (r, s) = close_result c.fut c.state in (r, record c { fut = absent; state = s })

-- A future takes the first result or exception; a second one only raises in the event loop.
abbrev settle : Fut → Fut → Fut
settle pending new = new
settle old new = old

-- `_on_connection_open`
unfoldable pub on_connection_open : Connection → Connection
on_connection_open c = record c { fut = settle c.fut resolved }

abbrev is_absent : Fut → Bool
is_absent absent = true
is_absent _ = false

-- `_on_connection_open_error` and `_on_connection_closed`
unfoldable pub on_connection_error : MqError → Connection → Connection
on_connection_error e c =
    if is_absent c.fut
    then (if c.has_on_close then record c { scheduled = c.scheduled ++ e ∷ [] } else c)
    else record c { fut = settle c.fut (failed e) }

-- What the pika library calls.
pub data Event : Type 0 where
  opens : Event
  fails : MqError → Event

abbrev pub step : Event → Connection → Connection
step opens c = on_connection_open c
step (fails e) c = on_connection_error e c

unfoldable pub run : List Event → Connection → Connection
run [] c = c
run (e ∷ es) c = run es (step e c)
