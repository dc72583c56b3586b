-- ===== src/Mq/Calls.antt =====
-- ipapp/rpc/mq/pika.py: the calls of `RpcClientChannel`, which wait for the reply with their correlation id, and
-- the response that `RpcServerChannel` sends. Results are texts of JSON.
pub mod Replies
pub mod Detail
use ipapp.Common.{
  ℕ, zero, suc, String, Bool, true, false, Option, none, some, List, [], ◌∷◌, ◌==◌, eqb,
  if◌then◌else◌,
}
use mathlib.Core.Option
use ipapp.Common.Dict.{Dict, lookup, insert, erase}

-- The exception `RpcError`, with its code, message and detail.
pub record RpcError : Type 0 where
  pub code : ℕ
  pub message : String
  pub detail : Option String

-- An error on the server, with the text of its parent
pub record ServerError : Type 0 where
  pub code : ℕ
  pub message : String
  pub parent : String

-- The keys of a response that are written or read; a result is absent or there, and is then null or a text of JSON.
pub record Response : Type 0 where
  pub code : ℕ
  pub message : String
  pub details : Option String
  pub detail : Option String
  pub result : Option (Option String)

-- What the method executor of the server returns.
pub record MethodResult : Type 0 where
  pub error : Option ServerError
  pub result : Option String

-- The response of the server, without its trace
unfoldable pub response_of : MethodResult → Response
response_of r = elim r.error [
  | some e ↦ record {
    code = e.code;
    message = e.message;
    details = some e.parent;
    detail = none;
    result = Option.map some r.result;
  }
  | none ↦ record {
    code = 0;
    message = "OK";
    details = none;
    detail = none;
    result = some r.result;
  }
]

-- The future of a call.
pub data Fut : Type 0 where
  pending : Fut
  resolved : Option String → Fut
  failed : RpcError → Fut

-- A future that is set stays as it is; to set it again raises in the event loop.
abbrev pub settle : Fut → Fut → Fut
settle pending new = new
settle old new = old

-- `fut.set_result` or `fut.set_exception`, by the code; without a result the handler raises, and the future stays.
abbrev pub fut_of : Response → Fut
fut_of js =
    if eqb js.code 0
    then elim js.result [ some r ↦ resolved r | none ↦ pending ]
    else failed (record { code = js.code; message = js.message; detail = js.detail })

-- `_futs` of `RpcClientChannel`, by correlation id
abbrev pub Calls : Type 0
Calls = Dict Fut

-- `call`, until it has published and waits
unfoldable pub call_begins : String → Calls → Calls
call_begins id futs = insert id pending futs

-- `_message`, behind its acknowledgement
unfoldable pub message : String → Response → Calls → Calls
message id js futs = elim (lookup id futs) [
  | none ↦ futs
  | some fut ↦ insert id (settle fut (fut_of js)) futs
]

-- How a call ends.
pub data Ending : Type 0 where
  returns : Option String → Ending
  raises : RpcError → Ending
  times_out : Ending

abbrev pub ending_of : Option Fut → Ending
ending_of (some (resolved r)) = returns r
ending_of (some (failed e)) = raises e
ending_of _ = times_out

-- The rest of `call`: what `wait_for` returns or raises, and `del self._futs[correlation_id]`
unfoldable pub call_ends : String → Calls → Ending × Calls
call_ends id futs = (ending_of (lookup id futs), erase id futs)
