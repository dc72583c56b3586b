-- ===== src/RestRpc/Client.antt =====
-- ipapp/rpc/restrpc/main.py, the client's side: `RestRpcCall`, `RestRpcClient`, and how `RestRpcProtocol` reads a reply.
-- What Python's `str`, `int` and `format_map` make of texts and values, and the transport, are parameters. A callback that
-- maps exceptions raises one of them, or returns.
use ipapp.Common.{ℕ, String, Bool, true, false, Option, none, some, ◌==◌, if◌then◌else◌}
use ipapp.Common.Exec.{Result, ok, err}
use ipapp.Rpc.{Exc}
use ipapp.JsonRpc.{Value, null, bool, number, text, mapping, Fields, no_field, field, cast2dump}
use ipapp.RestRpc.{Json}

-- The exceptions of a client
pub data ClientError : Type 0 where
  rest_error : (code : ℕ) (message : String) (info : Option Value) → ClientError
  callback_error uncast : Exc → ClientError
  invalid_reply value_error type_error key_error model_error : String → ClientError
  runtime_error : ClientError

-- `RestRpcParseError` with the given data
abbrev pub parse_error : String → ClientError
parse_error info = rest_error 500 "Parse reply error" (some (text info))

-- `str(v)` of what is no text, `int(t)` of a text, and `t.format_map` of a dict where every key is the empty text
pub record Python : Type 0 where
  pub str_of : Value → String
  pub int_of : String → Option ℕ
  pub format_map : String → Result String String

-- A model makes an object of a result, or refuses it.
abbrev pub Model : Type 0
Model = Value → Result String Value

-- The mapping of exceptions; `none` is a call that returns.
abbrev pub Callback : Type 0
Callback = ℕ → String → Option Value → Option ClientError

-- What a call returns: `None`, or a result
pub data Outcome : Type 0 where
  nothing : Outcome
  result : Value → Outcome

-- What `parse_reply` makes: a success, or the parts of an error
pub data Reply : Type 0 where
  replied : Value → Reply
  refused : (code message : Value) (info : Option Value) → Reply

-- The class `RestRpcCall`
pub record Call : Type 0 where
  pub method : String
  pub params : Option Value
  pub one_way : Bool
  pub model : Option Model

-- `d.get(k)`
abbrev pub get : String → Fields → Option Value
get k no_field = none
get k (field j v fs) = if j == k then some v else get k fs

abbrev pub refused_with : Option Value → Option Value → Option Value → Result ClientError Reply
refused_with none code info = err (key_error "message")
refused_with (some message) none info = err (key_error "code")
refused_with (some message) (some code) info = ok (refused code message info)

-- The parts of an error, which must be a dict with them.
abbrev pub read_error : Value → Result ClientError Reply
read_error (mapping gs) = refused_with (get "message" gs) (get "code" gs) (get "data" gs)
read_error v = err (type_error "indices must be integers")

abbrev pub read_dict : Fields → Option Value → Result ClientError Reply
read_dict fs (some e) = read_error e
read_dict fs none = ok (replied (mapping fs))

abbrev pub read_reply : Value → Result ClientError Reply
read_reply (mapping fs) = read_dict fs (get "error" fs)
read_reply v = ok (replied v)

abbrev made : Result String Value → Result ClientError Outcome
made (ok v) = ok (result v)
made (err message) = err (model_error message)

-- `_convert_result`
unfoldable pub convert_result : Option Model → Value → Result ClientError Outcome
convert_result model null = ok nothing
convert_result none v = ok (result v)
convert_result (some model) v = made (model v)

abbrev pub parsed : Result String Value → Result ClientError Reply
parsed (ok v) = read_reply v
parsed (err message) = err (invalid_reply message)

module _ {Text : Type 0} (json : Json Text) where
  -- `parse_reply`
  unfoldable pub parse_reply : Text → Result ClientError Reply
  parse_reply answer =
      if json.is_utf8 answer then parsed (json.loads answer) else err (value_error "no UTF-8")

  abbrev pub written : Result String Text → Result ClientError Text
  written (ok t) = ok t
  written (err message) = err (type_error message)

  -- `RestRpcRequest.serialize`: there must be parameters.
  abbrev pub serialized : Result Exc Value → Result ClientError Text
  serialized (ok (mapping (field key v fs))) = written (json.dumps (mapping (field key v fs)))
  serialized (ok v) = err (parse_error "Wrong response, params required")
  serialized (err e) = err (uncast e)

  -- `self.params if isinstance(self.params, Mapping) else None`
  abbrev pub as_mapping : Option Value → Value
  as_mapping (some (mapping fs)) = mapping fs
  as_mapping params = null

  -- `RestRpcCall._encode`
  unfoldable pub encode : Call → Result ClientError Text
  encode call = serialized (cast2dump (as_mapping call.params))

module _ (python : Python) where
  abbrev int_or : Option ℕ → Result ClientError ℕ
  int_or none = err (value_error "invalid literal for int()")
  int_or (some n) = ok n

  -- `int(v)`
  abbrev to_int : Value → Result ClientError ℕ
  to_int (number n) = ok n
  to_int (bool true) = ok 1
  to_int (bool false) = ok 0
  to_int (text t) = int_or (python.int_of t)
  to_int v = err (type_error "int() argument")

  -- `str(v)`
  abbrev to_str : Value → String
  to_str (text t) = t
  to_str v = python.str_of v

  abbrev formatted : ℕ → Option Value → Result String String → ClientError
  formatted code info (ok message) = rest_error code message info
  formatted code info (err e) = value_error e

  abbrev called_back : Option ClientError → ClientError
  called_back none = runtime_error
  called_back (some e) = e

  -- What a call with an error reply raises: `_raise_restrpc_error`, and what follows a callback that returns.
  unfoldable pub raise_restrpc_error : Option Callback → ℕ → String → Option Value → ClientError
  raise_restrpc_error none code message info = formatted code info (python.format_map message)
  raise_restrpc_error (some callback) code message info = called_back (callback code message info)

  abbrev refuse : Option Callback → Result ClientError ℕ → Value → Option Value → ClientError
  refuse callback (ok code) message info = raise_restrpc_error callback code (to_str message) info
  refuse callback (err e) message info = e

  abbrev pub received :
      Option Callback → Option Model → Result ClientError Reply → Result ClientError Outcome
  received callback model (ok (replied v)) = convert_result model v
  received callback model (ok (refused code message info)) =
      err (refuse callback (to_int code) message info)
  received callback model (err (invalid_reply message)) = err (parse_error message)
  received callback model (err e) = err e

  module _ {Text : Type 0} (json : Json Text) where
    -- `_send_single_request`, and the conversion of its result
    unfoldable pub send_single_request :
        Option Callback → (Text → String → Text) → Call → Text → Result ClientError Outcome
    unfolding parse_reply
    send_single_request callback transport call request_text =
        if call.one_way
        then ok nothing
        else received callback call.model (parse_reply json (transport request_text call.method))

    abbrev pub call_encoded :
        Option Callback
        → (Text → String → Text)
        → Call
        → Result ClientError Text
        → Result ClientError Outcome
    call_encoded callback transport call (ok t) = send_single_request callback transport call t
    call_encoded callback transport call (err e) = err e

    -- `RestRpcCall._call`
    unfoldable pub exec_call :
        Option Callback → (Text → String → Text) → Call → Result ClientError Outcome
    unfolding encode send_single_request convert_result raise_restrpc_error
    exec_call callback transport call = call_encoded callback transport call (encode json call)
