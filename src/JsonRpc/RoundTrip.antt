-- ===== src/JsonRpc/RoundTrip.antt =====
-- A call of `JsonRpcClient` that `JsonRpcExecutor` answers, both in ipapp/rpc/jsonrpc/main.py: the client, the
-- protocol library on both sides, and the server together.
pub mod Placed
pub mod Plain
pub mod Batch
mod Tests
use ipapp.Common.{
  ℕ, ◌≡◌, sym, subst, String, Bool, false, Option, none, some, List, Bool-cases, inl, inr,
}
use ipapp.Common.Int.{ℤ}
use ipapp.Common.Dict.{Dict}
use ipapp.Common.Exec.{Result, ok, err}
use ipapp.Rpc.{Exc}
use ipapp.JsonRpc.{Value, Raised, raised, Request, Protocol, cast2dump}
use ipapp.JsonRpc.{json_rpc_error}
use ipapp.JsonRpc.Dump.{IsPlain, IsPlainInfo}
use ipapp.JsonRpc.Client.{
  ClientError, Reply, success, failure, Call, Outcome, ClientProtocol, Callback, mapped_error,
  convert_result, encode,
}

-- What the protocol library documents of both sides, for what is fit for JSON: the server receives the request that the
-- client has made, and the client reads the response that the server has built to a request that is not one-way. An error
-- has its code and message, such a request an id, and a response to a result no attribute `data`.
pub record Understands {Msg Resp : Type 0} (p : Protocol Resp) (proto : ClientProtocol Msg Resp)
    : Type 0 where
  pub receive : Msg → Request
  pub args_of : Option Value → List Value
  pub kwargs_of : Option Value → Dict Value
  pub code_of : Raised → ℤ
  pub message_of : Raised → String
  pub info_of : Raised → Option Value
  pub received :
      (n : ℕ) (method : String) (params : Option Value) (one_way : Bool)
      → IsPlainInfo params
      → receive (proto.create_request n method params one_way).0 ≡ record {
        method = method;
        args = args_of params;
        kwargs = kwargs_of params;
        one_way = one_way;
        unique_id = (proto.create_request n method params one_way).1;
      }
  pub own_id :
      (n : ℕ) (method : String) (params : Option Value)
      → (k : ℕ) × ((proto.create_request n method params false).1 ≡ some k)
  pub read_result :
      (req : Request) (v : Value)
      → req.one_way ≡ false
      → IsPlain v
      → proto.parse_reply (p.respond req v)
        ≡ ok (record { unique_id = req.unique_id; body = success v })
  pub read_error :
      (req : Request) (e : Raised)
      → req.one_way ≡ false
      → IsPlainInfo (info_of e)
      → proto.parse_reply (p.error_respond req e)
        ≡ ok (record {
          unique_id = req.unique_id;
          body = failure (code_of e) (message_of e) (info_of e);
        })
  pub no_data : (req : Request) (v : Value) → p.data_of (p.respond req v) ≡ none
  pub own_data : (req : Request) (e : Raised) → p.data_of (p.error_respond req e) ≡ info_of e
  pub same_data : (r : Resp) (v : Value) → p.data_of r ≡ some v → p.with_data v r ≡ r
  pub own_code :
      (code : ℤ) (message : String) (info : Option Exc)
      → (code_of (json_rpc_error code message info) ≡ code)
        × (message_of (json_rpc_error code message info) ≡ message)

module _ {Msg Resp : Type 0} {p : Protocol Resp} {proto : ClientProtocol Msg Resp}
    (lib : Understands p proto) where
  -- The request of a call, with its parameters
  abbrev pub request_of : ℕ → Call → Option Value → Request
  request_of n call params = record {
    method = call.method;
    args = lib.args_of params;
    kwargs = lib.kwargs_of params;
    one_way = call.one_way;
    unique_id = (proto.create_request n call.method params call.one_way).1;
  }

  -- What the caller gets of an error on the server
  abbrev pub error_result : Option Callback → Raised → Result ClientError Outcome
  error_result callback (json_rpc_error code message info) =
      err
        (mapped_error callback (some code) message (lib.info_of (json_rpc_error code message info)))
  error_result callback (raised e) = err (
      mapped_error callback (some (lib.code_of (raised e))) (lib.message_of (raised e))
        (lib.info_of (raised e)))

  abbrev pub dumped_result : Option Callback → Call → Result Exc Value → Result ClientError Outcome
  dumped_result callback call (ok w) = convert_result call.model w
  dumped_result callback call (err e) = error_result callback (raised e)

  -- What the caller gets of what the execution of the request on the server returns or raises
  abbrev pub remote_result :
      Option Callback → Call → Result Raised Value → Result ClientError Outcome
  remote_result callback call (ok v) = dumped_result callback call (cast2dump v)
  remote_result callback call (err e) = error_result callback e

  abbrev pub IsFitCast : Result Exc Value → Type 0
  IsFitCast (ok w) = IsPlain w
  IsFitCast (err e) = IsPlainInfo (lib.info_of (raised e))

  -- What is answered, the result as it is dumped or the data of the error, is fit for JSON.
  abbrev pub IsFit : Result Raised Value → Type 0
  IsFit (ok v) = IsFitCast (cast2dump v)
  IsFit (err e) = IsPlainInfo (lib.info_of e)
