-- ===== src/JsonRpc.antt =====
-- ipapp/rpc/jsonrpc/main.py, class `JsonRpcExecutor`: one request, a batch of requests, the mapping of
-- exceptions to error codes, and `cast2dump`, which makes a result fit for JSON. The protocol library builds
-- the responses; it is a parameter.
pub mod Replies
pub mod Dump
pub mod Client
pub mod RoundTrip
mod Tests
use ipapp.Common.{
  ℕ, String, Bool, true, false, ◌&&◌, Option, none, some, List, [], ◌∷◌, ◌==◌, if◌then◌else◌,
}
use ipapp.Common.Int.{ℤ, negsuc}
use ipapp.Common.Dict.{Dict}
use ipapp.Common.Exec.{Result, ok, err}
use ipapp.Rpc.{Exc, Method, invalid_arguments, method_not_found, missing, unexplained, exec}

mutual
  -- What a handler may return. A default stands for pydantic's `FieldInfo`; `required` is one whose
  -- default is `...`.
  pub data Value : Type 0 where
    null : Value
    bool : Bool → Value
    number : ℕ → Value
    text bytes : String → Value
    default_of : Value → Value
    required : Value
    model mapping : Fields → Value
    sequence : Values → Value

  pub data Fields : Type 0 where
    no_field : Fields
    field : String → Value → Fields → Fields

  pub data Values : Type 0 where
    no_value : Values
    value : Value → Values → Values

abbrev add_value : Result Exc Value → Result Exc Values → Result Exc Values
add_value (err e) _ = err e
add_value (ok v) (err e) = err e
add_value (ok v) (ok vs) = ok (value v vs)

-- A required default below is reported with the key above it.
abbrev add_field : String → Result Exc Value → Result Exc Fields → Result Exc Fields
add_field key (err (invalid_arguments r)) _ = err (invalid_arguments (missing (key ∷ [])))
add_field key (err e) _ = err e
add_field key (ok v) (err e) = err e
add_field key (ok v) (ok fs) = ok (field key v fs)

abbrev as_sequence : Result Exc Values → Result Exc Value
as_sequence (ok vs) = ok (sequence vs)
as_sequence (err e) = err e

abbrev as_mapping : Result Exc Fields → Result Exc Value
as_mapping (ok fs) = ok (mapping fs)
as_mapping (err e) = err e

unfoldable mutual
  -- `JsonRpcExecutor.cast2dump`
  pub cast2dump : Value → Result Exc Value
  cast2dump null = ok null
  cast2dump (bool b) = ok (bool b)
  cast2dump (number n) = ok (number n)
  cast2dump (text t) = ok (text t)
  cast2dump (bytes t) = ok (text t)
  cast2dump (default_of v) = ok v
  cast2dump required = err (invalid_arguments unexplained)
  cast2dump (model fs) = as_mapping (cast_fields fs)
  cast2dump (mapping fs) = as_mapping (cast_fields fs)
  cast2dump (sequence vs) = as_sequence (cast_values vs)

  pub cast_fields : Fields → Result Exc Fields
  cast_fields no_field = ok no_field
  cast_fields (field key v fs) = add_field key (cast2dump v) (cast_fields fs)

  pub cast_values : Values → Result Exc Values
  cast_values no_value = ok no_value
  cast_values (value v vs) = add_value (cast2dump v) (cast_values vs)

-- What a request's execution raises: an error with a code, or an exception as it is.
pub data Raised : Type 0 where
  json_rpc_error : (code : ℤ) (message : String) (info : Option Exc) → Raised
  raised : Exc → Raised

-- `_map_exc`
unfoldable pub map_exc : Exc → Raised
map_exc method_not_found = json_rpc_error (negsuc 32600) "Method not found" none
map_exc (invalid_arguments r) =
    json_rpc_error (negsuc 32601) "Invalid params" (some (invalid_arguments r))
map_exc e = raised e

-- A parsed request; one-way requests have no id.
pub record Request : Type 0 where
  pub method : String
  pub args : List Value
  pub kwargs : Dict Value
  pub one_way : Bool
  pub unique_id : Option ℕ

-- An item of a batch, which may be no valid request.
pub data Item : Type 0 where
  invalid_request : String → Item
  request : Request → Item

-- What the protocol library does: the responses, the attribute `data` of a response, and whether a batch has any.
pub record Protocol (Resp : Type 0) : Type 0 where
  pub respond : Request → Value → Resp
  pub error_respond : Request → Raised → Resp
  pub invalid_respond : String → Resp
  pub data_of : Resp → Option Value
  pub with_data : Value → Resp → Resp
  pub expects_response : List Item → Bool

-- The fields of `JsonRpcExecutor`.
pub record Server : Type 0 where
  pub methods : Dict (Method Value)
  pub discover_enabled : Bool
  pub discover_result : Value
  pub has_scheduler : Bool

abbrev discover : List Value → Dict Value → Value → Result Exc Value
discover [] [] result = ok result
discover _ _ result = err (invalid_arguments unexplained)

-- `_exec_in_executor`
unfoldable pub exec_in_executor : Server → Request → Result Exc Value
exec_in_executor srv req =
    if srv.discover_enabled && (req.method == "rpc.discover")
    then discover req.args req.kwargs srv.discover_result
    else exec srv.methods req.method req.args req.kwargs

abbrev mapped : Result Exc Value → Result Raised Value
mapped (ok v) = ok v
mapped (err e) = err (map_exc e)

-- `_exec_method`: with a scheduler, a one-way request is spawned and has no result.
unfoldable pub exec_method : Server → Request → Result Raised Value
unfolding exec_in_executor map_exc
exec_method srv req =
    if req.one_way && srv.has_scheduler then ok null else mapped (exec_in_executor srv req)

module _ {Resp : Type 0} where
  abbrev pub respond_cast : Protocol Resp → Request → Result Exc Value → Resp
  respond_cast p req (ok v) = p.respond req v
  respond_cast p req (err e) = p.error_respond req (raised e)

  abbrev pub respond_to : Protocol Resp → Request → Result Raised Value → Resp
  respond_to p req (ok v) = respond_cast p req (cast2dump v)
  respond_to p req (err e) = p.error_respond req e

  -- `_exec_single`
  unfoldable pub exec_single : Protocol Resp → Server → Request → Option Resp
  unfolding exec_method
  exec_single p srv req =
      if req.one_way then none else some (respond_to p req (exec_method srv req))

  abbrev append_reply : Resp → Result Exc (List Resp) → Result Exc (List Resp)
  append_reply r (ok rs) = ok (r ∷ rs)
  append_reply r (err e) = err e

  -- The response to one result; outside of `_exec_single` an exception of `cast2dump` is not caught.
  abbrev pub dumped_reply :
      Protocol Resp → Request → Result Exc Value → Result Exc (List Resp) → Result Exc (List Resp)
  dumped_reply p req (ok w) rest = append_reply (p.respond req w) rest
  dumped_reply p req (err e) rest = err e

  abbrev pub with_cast : Protocol Resp → Resp → Result Exc Value → Result Exc Resp
  with_cast p r (ok v) = ok (p.with_data v r)
  with_cast p r (err e) = err e

  -- `if hasattr(err_resp, 'data'): err_resp.data = self.cast2dump(err_resp.data)`
  unfoldable pub cast_data : Protocol Resp → Resp → Result Exc Resp
  cast_data p r = elim (p.data_of r) [ none ↦ ok r | some v ↦ with_cast p r (cast2dump v) ]

  abbrev pub append_cast : Result Exc Resp → Result Exc (List Resp) → Result Exc (List Resp)
  append_cast (ok r) rest = append_reply r rest
  append_cast (err e) rest = err e

  abbrev pub batch_reply :
      Protocol Resp
      → Request
      → Result Raised Value
      → Result Exc (List Resp)
      → Result Exc (List Resp)
  batch_reply p req (err e) rest = append_cast (cast_data p (p.error_respond req e)) rest
  batch_reply p req (ok v) rest = dumped_reply p req (cast2dump v) rest

  -- The loop of `_exec_batch` over the results.
  unfoldable pub batch_replies : Protocol Resp → Server → List Item → Result Exc (List Resp)
  unfolding exec_method cast_data
  batch_replies p srv [] = ok []
  batch_replies p srv (invalid_request m ∷ items) =
      append_cast (cast_data p (p.invalid_respond m)) (batch_replies p srv items)
  batch_replies p srv (request req ∷ items) =
      let rest = batch_replies p srv items in
      if req.one_way then rest else batch_reply p req (exec_method srv req) rest

  abbrev some_replies : Result Exc (List Resp) → Result Exc (Option (List Resp))
  some_replies (ok rs) = ok (some rs)
  some_replies (err e) = err e

  -- `_exec_batch`
  unfoldable pub exec_batch : Protocol Resp → Server → List Item → Result Exc (Option (List Resp))
  unfolding batch_replies
  exec_batch p srv items =
      if p.expects_response items then some_replies (batch_replies p srv items) else ok none
