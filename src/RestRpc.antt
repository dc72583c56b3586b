-- ===== src/RestRpc.antt =====
-- ipapp/rpc/restrpc/main.py and error.py, the server's side: `RestRpcProtocol`, the responses, and `RestRpcExecutor`.
-- What `json` does, the handlers, and the exceptions' own attributes and texts are parameters; a code is a natural number.
pub mod Answers
pub mod Outcomes
pub mod Client
pub mod RoundTrip
mod Tests
use ipapp.Common.{
  ℕ, String, Bool, true, false, not, ◌&&◌, Option, none, some, List, [], ◌∷◌, ◌==◌, ltb, leb,
  if◌then◌else◌,
}
use ipapp.Common.Dict.{Dict}
use ipapp.Common.Exec.{Result, ok, err}
use ipapp.Rpc.{Exc, Method, invalid_arguments, method_not_found, raised_by_handler, exec}
use ipapp.JsonRpc.{
  Value, null, bool, number, text, bytes, default_of, required, model, mapping, sequence, Fields,
  no_field, field, no_value, cast2dump,
}

-- An exception, as `_get_code_message_and_data` tells it: one with a code, the library's and the base classes of the same
-- name without one, one with two arguments, and any other with its text. `code_only` has a code and no message.
pub data Exception : Type 0 where
  coded : (code : ℕ) (message : String) (info : Option Value) → Exception
  code_only : ℕ → Exception
  bad_request no_method bad_params : Exception
  two_args : (message : String) (info : Value) → Exception
  other : String → Exception

-- What else is known of exceptions: those of the handlers, and the texts of the others
pub record Exceptions : Type 0 where
  pub of_handler : String → Exception
  pub text_of : Exc → String

-- `RestRpcSuccessResponse` and `RestRpcErrorResponse`
pub data Response : Type 0 where
  success : Value → Response
  failure : (code : ℕ) (message : String) (info : Option Value) → Response

-- Whether bytes are UTF-8, and `json.dumps` and `json.loads` over bytes that are
pub record Json (Text : Type 0) : Type 0 where
  pub is_utf8 : Text → Bool
  pub dumps : Value → Result String Text
  pub loads : Text → Result String Value

-- What `exec` raises, or answers as an error: a `RestRpcError`, an exception of `cast2dump`, one of `json.dumps`, the
-- `AttributeError` of an exception without a message, or the `UnicodeDecodeError` of the content
pub data Failure : Type 0 where
  rest_error : (code : ℕ) (message : String) (info : Option Value) → Failure
  uncast : Exc → Failure
  type_error : String → Failure
  attribute_error decode_error : Failure

-- `RestRpcParseError` with the given data
abbrev pub parse_error : String → Failure
parse_error info = rest_error 500 "Parse reply error" (some (text info))

-- The class `RestRpcRequest`
pub record Request : Type 0 where
  pub method : String
  pub kwargs : Fields
  pub one_way : Bool

-- `_get_code_message_and_data`
unfoldable pub get_code_message_and_data : Exception → Result Failure (ℕ × String × Option Value)
get_code_message_and_data (coded code message info) = ok (code, message, info)
get_code_message_and_data (code_only code) = err attribute_error
get_code_message_and_data bad_request = ok (400, "Bad Request", none)
get_code_message_and_data no_method = ok (404, "Method not found", none)
get_code_message_and_data bad_params = ok (400, "Invalid params", none)
get_code_message_and_data (two_args message info) = ok (500, message, some info)
get_code_message_and_data (other message) = ok (500, message, none)

-- Python's truth of a value
abbrev pub truthy : Value → Bool
truthy null = false
truthy (bool b) = b
truthy (number n) = ltb 0 n
truthy (text t) = not (t == "")
truthy (bytes t) = not (t == "")
truthy (mapping no_field) = false
truthy (sequence no_value) = false
truthy v = true

-- `if data: response.data = data`
abbrev pub kept : Option Value → Option Value
kept none = none
kept (some v) = if truthy v then some v else none

abbrev as_failure : Result Failure (ℕ × String × Option Value) → Result Failure Response
as_failure (ok (code, message, info)) = ok (failure code message (kept info))
as_failure (err e) = err e

-- `RestRpcRequest.error_respond`
unfoldable pub error_respond : Exception → Result Failure Response
unfolding get_code_message_and_data
error_respond e = as_failure (get_code_message_and_data e)

-- The items of a dict, as keyword arguments
abbrev pub as_kwargs : Fields → Dict Value
as_kwargs no_field = []
as_kwargs (field key v fs) = (key, v) ∷ as_kwargs fs

abbrev pub info_field : Option Value → Fields
info_field none = no_field
info_field (some v) = field "data" v no_field

-- `RestRpcErrorResponse._to_dict`
abbrev pub error_dict : ℕ → String → Option Value → Value
error_dict code message info = mapping (
    field "error"
      (mapping (field "message" (text message) (field "code" (number code) (info_field info))))
      no_field)

-- The fields of `RestRpcExecutor`
pub record Server : Type 0 where
  pub methods : Dict (Method Value)
  pub has_scheduler : Bool

-- `status_code = code if code in range(400, 600) else status_code`
abbrev pub status_of : ℕ → ℕ
status_of code = if leb 400 code && ltb code 600 then code else 200

module _ (exceptions : Exceptions) where
  abbrev pub exception_of : Exc → Exception
  exception_of (raised_by_handler name) = exceptions.of_handler name
  exception_of (invalid_arguments r) = bad_params
  exception_of method_not_found = no_method
  exception_of e = other (exceptions.text_of e)

  -- `_map_exc`
  unfoldable pub map_exc : Exc → Exception
  map_exc method_not_found = coded 404 "Method not found" none
  map_exc (invalid_arguments r) =
      coded 400 "Invalid params"
        (some (mapping (field "info" (text (exceptions.text_of (invalid_arguments r))) no_field)))
  map_exc e = exception_of e

  abbrev pub mapped : Result Exc Value → Result Exception Value
  mapped (ok v) = ok v
  mapped (err e) = err (map_exc e)

  -- `_exec_method`: with a scheduler, a one-way request is spawned and has no result.
  unfoldable pub exec_method : Server → Request → Result Exception Value
  unfolding map_exc
  exec_method srv req =
      if req.one_way && srv.has_scheduler
      then ok null
      else mapped (exec srv.methods req.method [] (as_kwargs req.kwargs))

  abbrev pub respond_cast : Result Exc Value → Result Failure Response
  respond_cast (ok w) = ok (success w)
  respond_cast (err e) = error_respond (exception_of e)

  abbrev pub respond_to : Result Exception Value → Result Failure Response
  respond_to (ok v) = respond_cast (cast2dump v)
  respond_to (err e) = error_respond e

  abbrev pub responded : Result Failure Response → Result Failure (Option Response)
  responded (ok resp) = ok (some resp)
  responded (err e) = err e

  -- `_exec_single`; an exception of `error_respond` leaves it.
  unfoldable pub exec_single : Server → Request → Result Failure (Option Response)
  unfolding exec_method error_respond
  exec_single srv req =
      if req.one_way then ok none else responded (respond_to (exec_method srv req))

-- `_parse_subrequest`
unfoldable pub parse_subrequest : Value → String → Result Failure Request
parse_subrequest (mapping (field key v fs)) method =
    ok (record { method = method; kwargs = field key v fs; one_way = false })
parse_subrequest (mapping no_field) method =
    err (rest_error 400 "Invalid params" (some (text "Missing required params in request")))
parse_subrequest v method = err (rest_error 400 "Bad Request" none)

abbrev pub loaded : Result String Value → String → Result Failure Request
loaded (ok v) method = parse_subrequest v method
loaded (err message) method = err (rest_error 400 "Bad Request" none)

abbrev pub with_status : {Text : Type 0} → ℕ → Result Failure Text → Result Failure (Text × ℕ)
with_status status (ok t) = ok (t, status)
with_status status (err e) = err e

abbrev pub as_some : Result Exc Value → Result Exc (Option Value)
as_some (ok v) = ok (some v)
as_some (err e) = err e

abbrev cast_info : Option Value → Result Exc (Option Value)
cast_info none = ok none
cast_info (some v) = as_some (cast2dump v)

module _ {Text : Type 0} (json : Json Text) where
  abbrev written : Result String Text → Result Failure Text
  written (ok t) = ok t
  written (err message) = err (type_error message)

  abbrev pub written_cast : Result Exc Value → Result Failure Text
  written_cast (ok v) = written (json.dumps v)
  written_cast (err e) = err (uncast e)

  -- `serialize` of a response: a result must be a dict that is not empty.
  unfoldable pub serialize : Response → Result Failure Text
  serialize (success (mapping (field key v fs))) = written (json.dumps (mapping (field key v fs)))
  serialize (success v) = err (parse_error "Wrong reply")
  serialize (failure code message info) = written_cast (cast2dump (error_dict code message info))

  -- `RestRpcProtocol.parse_request`; the decoding is outside its `try`.
  unfoldable pub parse_request : Text → String → Result Failure Request
  unfolding parse_subrequest
  parse_request body method =
      if json.is_utf8 body then loaded (json.loads body) method else err decode_error

  abbrev pub answered_cast : ℕ → String → Result Exc (Option Value) → Result Failure (Text × ℕ)
  answered_cast code message (ok info) =
      with_status (status_of code) (serialize (failure code message info))
  answered_cast code message (err e) = err (uncast e)

  -- The handlers of `RestRpcError` in `exec`; another exception leaves it.
  abbrev pub answered_error : Failure → Result Failure (Text × ℕ)
  answered_error (rest_error code message info) = answered_cast code message (cast_info info)
  answered_error e = err e

  abbrev answered_text : Result Failure Text → Result Failure (Text × ℕ)
  answered_text (ok t) = ok (t, 200)
  answered_text (err e) = answered_error e

  abbrev pub answered : Option Response → Result Failure (Text × ℕ)
  answered none = err (parse_error "Wrong response, kwargs required")
  answered (some (failure code message info)) =
      with_status (status_of code) (serialize (failure code message info))
  answered (some (success v)) = answered_text (serialize (success v))

  abbrev pub answered_single : Result Failure (Option Response) → Result Failure (Text × ℕ)
  answered_single (ok resp) = answered resp
  answered_single (err e) = err e

  module _ (exceptions : Exceptions) (srv : Server) where
    abbrev pub exec_parsed : Result Failure Request → Result Failure (Text × ℕ)
    exec_parsed (ok req) = answered_single (exec_single exceptions srv req)
    exec_parsed (err e) = answered_error e

    -- `RestRpcExecutor.exec`: the text of the response and the status
    unfoldable pub exec_rest : Text → String → Result Failure (Text × ℕ)
    unfolding parse_request exec_single serialize
    exec_rest content method = exec_parsed (parse_request content method)
