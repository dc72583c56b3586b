-- ===== src/Spans/Logger.antt =====
-- ipapp/logger/logger.py, class `Logger`: the adapters and callbacks, the count of spans that are under way,
-- and the wait of `stop` for them.
pub mod Drain
use ipapp.Common.{
  ℕ, zero, suc, String, Bool, true, false, not, ◌&&◌, Option, none, some, List, [], ◌∷◌, ◌++◌,
  if◌then◌else◌,
}
use ipapp.Common.Int.{ℤ, pos, negsuc}
use ipapp.Common.Dict.{Dict, insert}
use ipapp.Common.Exec.{Result, ok, err}

pub data LoggerError : Type 0 where
  user_warning invalid_state : LoggerError

-- What an adapter or a callback does with a span: it returns, or raises.
abbrev pub Handler : Type 0
Handler = Option String

-- The fields of `Logger`.
pub record Logger : Type 0 where
  pub adapters : Dict Handler
  pub started : Bool
  pub before_handle_callbacks : List Handler
  pub started_spans : ℤ
  pub waiting_all_spans_finished : Bool
  pub all_spans_finished : Bool

-- `Logger.__init__`; the last flag says whether the future has a result
abbrev pub new_logger : Logger
new_logger = record {
  adapters = [];
  started = false;
  before_handle_callbacks = [];
  started_spans = pos 0;
  waiting_all_spans_finished = false;
  all_spans_finished = false;
}

abbrev pub succ : ℤ → ℤ
succ (pos n) = pos (suc n)
succ (negsuc zero) = pos 0
succ (negsuc (suc n)) = negsuc n

abbrev pub pred : ℤ → ℤ
pred (pos zero) = negsuc 0
pred (pos (suc n)) = pos n
pred (negsuc n) = negsuc (suc n)

abbrev pub is_zero : ℤ → Bool
is_zero (pos zero) = true
is_zero _ = false

abbrev pub is_positive : ℤ → Bool
is_positive (pos (suc n)) = true
is_positive _ = false

-- `add`
unfoldable pub add : String → Handler → Logger → Result LoggerError (Unit {0}) × Logger
add name adapter l =
    if l.started
    then (err user_warning, l)
    else (ok tt, record l { adapters = insert name adapter l.adapters })

-- `add_before_handle_cb`
unfoldable pub add_before_handle_cb : Handler → Logger → Logger
add_before_handle_cb fn l = record l {
  before_handle_callbacks = l.before_handle_callbacks ++ fn ∷ [];
}

-- `start`
unfoldable pub start : Logger → Logger
start l = record l { started = true }

-- `_span_started`
unfoldable pub span_started : Logger → Logger
span_started l = record l { started_spans = succ l.started_spans }

-- `_span_finished`; to set the result of a future twice raises.
unfoldable pub span_finished : Logger → Result LoggerError (Unit {0}) × Logger
span_finished l =
    let left = pred l.started_spans in
    if l.waiting_all_spans_finished && is_zero left
    then (if l.all_spans_finished then (err invalid_state, record l { started_spans = left }) else (
      ok tt,
      record l {
        started_spans = left;
        waiting_all_spans_finished = false;
        all_spans_finished = true;
      },
    ))
    else (ok tt, record l { started_spans = left })

-- `stop`, until it waits; whether it waits
unfoldable pub stop_begins : Logger → Result LoggerError Bool × Logger
stop_begins l =
    if not l.started
    then (err user_warning, l)
    else (if is_positive l.started_spans
        then (ok (not l.all_spans_finished), record l { waiting_all_spans_finished = true })
        else (ok false, l))

-- What `handle_span` calls: the callbacks by their place, the adapters by their name.
pub data Handled : Type 0 where
  before : Handled
  adapter : String → Handled

-- The loop over the adapters, whose exceptions are only logged.
unfoldable pub handle_adapters : Dict Handler → List Handled
handle_adapters [] = []
handle_adapters ((name, handler) ∷ rest) = adapter name ∷ handle_adapters rest

-- `handle_span`: the calls it makes, and the exception of a callback, which ends it
unfoldable pub handle_span : List Handler → Dict Handler → List Handled × Option String
unfolding handle_adapters
handle_span [] adapters = (handle_adapters adapters, none)
handle_span (none ∷ cbs) adapters = let (calls, e) = handle_span cbs adapters in (before ∷ calls, e)
handle_span (some e ∷ cbs) adapters = (before ∷ [], some e)
