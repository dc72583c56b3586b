-- ===== src/RestRpc/RoundTrip.antt =====
-- A call of `RestRpcClient` that `RestRpcExecutor` answers, both in ipapp/rpc/restrpc/main.py.
use ipapp.Common.{
  Bool-cases, inl, inr, ℕ, ◌≡◌, refl, ap, ◌∙◌, String, false, Option, none, some, if◌then◌else◌,
}
use ipapp.Common.Exec.{Result, ok, err}
use ipapp.JsonRpc.{
  Value, null, bool, number, text, bytes, default_of, required, model, mapping, sequence, Fields,
  field, cast2dump,
}
use ipapp.JsonRpc.Dump.{IsPlain}
use ipapp.RestRpc.{
  Failure, Exceptions, Response, success, failure, Json, Request, Server, exec_method, respond_to,
  exec_rest,
}
use ipapp.RestRpc.Answers.{
  IsJson, Reads, sent_of, document, IsPlainResponse, response_to, exec_rest-response,
}
use ipapp.RestRpc.Client.{
  ClientError, Python, Model, Callback, Outcome, nothing, Call, get, read_reply, read_dict,
  received, as_mapping, serialized, convert_result, raise_restrpc_error, refused_with, read_error,
  written, call_encoded, parsed, parse_reply, send_single_request, encode, exec_call,
}

module _ {Text : Type 0} (json : Json Text) (lib : IsJson json) (python : Python)
    (exceptions : Exceptions) (srv : Server) where
  -- A transport brings the text that the server answers.
  abbrev pub Brings : (Text → String → Text) → Type 0
  Brings transport =
      (content t : Text) (method : String) (status : ℕ)
      → exec_rest json exceptions srv content method ≡ ok (t, status)
      → transport content method ≡ t

  -- The response that the server sends to a call with these parameters
  abbrev pub response_of : Call → String → Value → Fields → Result Failure Response
  response_of call key v fs =
      let req : Request = record {
        method = call.method;
        kwargs = field key v fs;
        one_way = false;
      } in
      sent_of (respond_to exceptions (exec_method exceptions srv req))

  -- What the caller gets of a response whose result has no key `error`
  abbrev pub result_of : Option Callback → Option Model → Response → Result ClientError Outcome
  result_of callback model_cls (success v) = convert_result model_cls v
  result_of callback model_cls (failure code message info) =
      err (raise_restrpc_error python callback code message info)

  -- A result that is a dict has no key `error`.
  abbrev pub HasNoErrorKey : Response → Type 0
  HasNoErrorKey (success (mapping fs)) = get "error" fs ≡ none
  HasNoErrorKey resp = Unit

  received-document :
      (callback : Option Callback) (model_cls : Option Model) (resp : Response)
      → HasNoErrorKey resp
      → received python callback model_cls (read_reply (document resp))
        ≡ result_of callback model_cls resp
  received-document callback model_cls (success (mapping fs)) h = rw h refl
  received-document callback model_cls (success null) h = refl
  received-document callback model_cls (success (bool b)) h = refl
  received-document callback model_cls (success (number n)) h = refl
  received-document callback model_cls (success (text t)) h = refl
  received-document callback model_cls (success (bytes t)) h = refl
  received-document callback model_cls (success (default_of v)) h = refl
  received-document callback model_cls (success required) h = refl
  received-document callback model_cls (success (model fs)) h = refl
  received-document callback model_cls (success (sequence vs)) h = refl
  received-document callback model_cls (failure code message none) h = refl
  received-document callback model_cls (failure code message (some v)) h = refl

  -- The document that a two-way call receives
  send-document :
      (callback : Option Callback) (transport : Text → String → Text) (call : Call) (content : Text)
      (key : String) (v : Value) (fs : Fields) (resp : Response)
      → Brings transport
      → Reads json content (mapping (field key v fs))
      → response_of call key v fs ≡ ok resp
      → IsPlainResponse resp
      → call.one_way ≡ false
      → send_single_request python json callback transport call content
        ≡ received python callback call.model (read_reply (document resp))
  unfolding send_single_request parse_reply
  send-document callback transport call content key v fs resp brings (utf8, read) answered plain
        two_way =
      let (t, answer, (utf8', loads)) =
        exec_rest-response json lib exceptions srv content call.method resp utf8
          (ap (λ r. response_to exceptions srv r call.method) read ∙ answered) plain in
      let brought = brings content t call.method _ answer in
      let answers : json.loads (transport content call.method) ≡ ok (document resp) =
        ap json.loads brought ∙ loads in
      rw (two_way, ap json.is_utf8 brought, utf8')
        (ap (λ r. received python callback call.model (parsed r)) answers)

  -- The text that a call with these parameters sends
  encode-written :
      (call : Call) (key : String) (v : Value) (fs : Fields)
      → cast2dump (as_mapping json call.params) ≡ ok (mapping (field key v fs))
      → IsPlain (mapping (field key v fs))
      → (content : Text) × (encode json call ≡ ok content)
        × Reads json content (mapping (field key v fs))
  unfolding encode
  encode-written call key v fs dumped plain =
      let (content, wrote, read) = lib.loads-dumps (mapping (field key v fs)) plain in
      (content, ap (serialized json) dumped ∙ ap (written json) wrote, read)

  -- Over a codec that writes and reads JSON and a transport that brings the server's text, where the parameters are a dict
  -- that is not empty, the server answers, and the parameters and the method's result or the error's data are fit for JSON: a two-way call returns what
  -- its method returns there, made fit for JSON and converted by the call's model, if that is a dict that is not empty and
  -- has no key `error`. It raises, formatted or through the callback, the code, the message and the data of the server's
  -- exception, and "Parse reply error" for a result that is no dict or an empty one. A one-way call returns nothing.
  pub exec_call-exec_rest :
      (callback : Option Callback) (transport : Text → String → Text) (call : Call) (key : String)
      (v : Value) (fs : Fields) (resp : Response)
      → Brings transport
      → cast2dump (as_mapping json call.params) ≡ ok (mapping (field key v fs))
      → IsPlain (mapping (field key v fs))
      → response_of call key v fs ≡ ok resp
      → IsPlainResponse resp
      → HasNoErrorKey resp
      → exec_call python json callback transport call
        ≡ (if call.one_way then ok nothing else result_of callback call.model resp)
  unfolding exec_call send_single_request
  exec_call-exec_rest callback transport call key v fs resp brings dumped plain answered
        plain_response no_error =
      let (content, encoded, read) = encode-written call key v fs dumped plain in
      ap (call_encoded python json callback transport call) encoded
      ∙ elim (Bool-cases call.one_way) [
        | inl one_way ↦ rw one_way refl
        | inr two_way ↦
            send-document callback transport call content key v fs resp brings read answered
              plain_response two_way
            ∙ received-document callback call.model resp no_error
            ∙ rw two_way refl
      ]

  received-refused :
      (callback : Option Callback) (model_cls : Option Model) (message code info : Option Value)
      → (x : ClientError) × (received python callback model_cls (refused_with message code info)
          ≡ err x)
  received-refused callback model_cls none code info = (_, refl)
  received-refused callback model_cls (some m) none info = (_, refl)
  received-refused callback model_cls (some m) (some c) info = (_, refl)

  received-error :
      (callback : Option Callback) (model_cls : Option Model) (e : Value)
      → (x : ClientError) × (received python callback model_cls (read_error e) ≡ err x)
  received-error callback model_cls (mapping gs) =
      received-refused callback model_cls (get "message" gs) (get "code" gs) (get "data" gs)
  received-error callback model_cls null = (_, refl)
  received-error callback model_cls (bool b) = (_, refl)
  received-error callback model_cls (number n) = (_, refl)
  received-error callback model_cls (text t) = (_, refl)
  received-error callback model_cls (bytes t) = (_, refl)
  received-error callback model_cls (default_of v) = (_, refl)
  received-error callback model_cls required = (_, refl)
  received-error callback model_cls (model fs) = (_, refl)
  received-error callback model_cls (sequence vs) = (_, refl)

  -- Over a codec that writes and reads JSON and a transport that brings the server's text, where the parameters are a dict
  -- that is not empty and fit for JSON: if the method of a two-way call has returned a dict that is fit for JSON and has a
  -- key `error`, the server answers with the status 200, and the call raises all the same, whatever the value of that key.
  pub exec_call-error_key :
      (callback : Option Callback) (transport : Text → String → Text) (call : Call) (key : String)
      (v e : Value) (fs gs : Fields)
      → Brings transport
      → cast2dump (as_mapping json call.params) ≡ ok (mapping (field key v fs))
      → IsPlain (mapping (field key v fs))
      → call.one_way ≡ false
      → response_of call key v fs ≡ ok (success (mapping gs))
      → IsPlain (mapping gs)
      → get "error" gs ≡ some e
      → ((content t : Text) × (encode json call ≡ ok content)
          × (exec_rest json exceptions srv content call.method ≡ ok (t, 200)))
        × ((x : ClientError) × (exec_call python json callback transport call ≡ err x))
  unfolding exec_call
  exec_call-error_key callback transport call key v e fs gs brings dumped plain two_way returned
        plain_result found =
      let (content, encoded, read) = encode-written call key v fs dumped plain in
      let (t, answer, reads) =
        exec_rest-response json lib exceptions srv content call.method (success (mapping gs)) read.0
          (ap (λ r. response_to exceptions srv r call.method) read.1 ∙ returned) plain_result in
      let (x, raised) = received-error callback call.model e in
      (
        (content, t, encoded, answer),
        (
          x,
          ap (call_encoded python json callback transport call) encoded
              ∙ send-document callback transport call content key v fs (success (mapping gs)) brings
                  read returned plain_result two_way
              ∙ ap (λ o. received python callback call.model (read_dict gs o)) found
              ∙ raised,
        ),
      )
