-- ===== src/RestRpc/Answers.antt =====
-- What `RestRpcExecutor.exec` of ipapp/rpc/restrpc/main.py answers to a request: a response and its HTTP status.
use ipapp.Common.{
  ℕ, ◌≡◌, if◌then◌else◌, refl, ap, sym, subst, String, true, false, Option, none, some, ◌∙◌,
}
use ipapp.Common.Exec.{Result, ok, err}
use ipapp.JsonRpc.{
  Value, null, bool, number, text, bytes, default_of, required, model, mapping, sequence, no_field,
  field,
}
use ipapp.JsonRpc.Dump.{IsPlain, cast2dump-plain}
use ipapp.RestRpc.{
  responded, answered_single, decode_error, Failure, as_some, answered_cast, loaded, Exceptions,
  Response, success, failure, Json, Request, Server, exec_method, respond_to, error_dict, status_of,
  serialize, answered, exec_parsed, exec_rest, parse_request, exec_single, answered_error,
  parse_subrequest, rest_error, with_status,
}

-- These bytes are UTF-8, and the text of this value.
abbrev pub Reads : {Text : Type 0} → Json Text → Text → Value → Type 0
Reads json t v = (json.is_utf8 t ≡ true) × (json.loads t ≡ ok v)

-- What `json` documents: a value that is fit for JSON is written, and read back.
pub record IsJson {Text : Type 0} (json : Json Text) : Type 0 where
  pub loads-dumps : (v : Value) → IsPlain v → (t : Text) × (json.dumps v ≡ ok t) × Reads json t v

-- The response that is sent in place of one: a result must be a dict that is not empty.
abbrev pub sent : Response → Response
sent (success (mapping (field key v fs))) = success (mapping (field key v fs))
sent (success v) = failure 500 "Parse reply error" (some (text "Wrong reply"))
sent (failure code message info) = failure code message info

-- The document of a response
abbrev pub document : Response → Value
document (success v) = v
document (failure code message none) = mapping (
    field "error" (mapping (field "message" (text message) (field "code" (number code) no_field)))
      no_field)
document (failure code message (some v)) = mapping (
    field "error"
      (mapping
        (field "message" (text message) (field "code" (number code) (field "data" v no_field))))
      no_field)

document-failure :
    (code : ℕ) (message : String) (info : Option Value)
    → document (failure code message info) ≡ error_dict code message info
document-failure code message none = refl
document-failure code message (some v) = refl

abbrev pub http_status : Response → ℕ
http_status (success v) = 200
http_status (failure code message info) = status_of code

abbrev IsPlainInfo : Option Value → Type 0
IsPlainInfo none = Unit
IsPlainInfo (some v) = IsPlain v

-- The result, or the data of the error, is fit for JSON.
abbrev pub IsPlainResponse : Response → Type 0
IsPlainResponse (success v) = IsPlain v
IsPlainResponse (failure code message info) = IsPlainInfo info

abbrev pub sent_of : Result Failure Response → Result Failure Response
sent_of (ok resp) = ok (sent resp)
sent_of (err e) = err e

-- The response to what the text of a request holds, as the server makes it
abbrev pub response_to :
    Exceptions → Server → Result String Value → String → Result Failure Response
response_to exceptions srv (ok (mapping (field key v fs))) method =
    let req : Request = record { method = method; kwargs = field key v fs; one_way = false } in
    sent_of (respond_to exceptions (exec_method exceptions srv req))
response_to exceptions srv (ok (mapping no_field)) method =
    ok (failure 400 "Invalid params" (some (text "Missing required params in request")))
response_to exceptions srv _ method = ok (failure 400 "Bad Request" none)

module _ {Text : Type 0} (json : Json Text) (lib : IsJson json) where
  error_dict-IsPlain :
      (code : ℕ) (message : String) (info : Option Value)
      → IsPlainInfo info
      → IsPlain (error_dict code message info)
  error_dict-IsPlain code message none h = ((tt, (tt, tt)), tt)
  error_dict-IsPlain code message (some v) h = ((tt, (tt, (h, tt))), tt)

  serialize-failure :
      (code : ℕ) (message : String) (info : Option Value)
      → IsPlainInfo info
      → (t : Text) × (serialize json (failure code message info) ≡ ok t)
        × Reads json t (error_dict code message info)
  unfolding serialize
  serialize-failure code message info h =
      let plain = error_dict-IsPlain code message info h in
      let (t, written, read) = lib.loads-dumps (error_dict code message info) plain in
      (t, rw (cast2dump-plain (error_dict code message info) plain, written) refl, read)

  answered-failure :
      (code : ℕ) (message : String) (info : Option Value)
      → IsPlainInfo info
      → (t : Text) × (answered_error json (rest_error code message info) ≡ ok (t, status_of code))
        × Reads json t (error_dict code message info)
  answered-failure code message none h =
      let (t, written, read) = serialize-failure code message none h in
      (t, ap (with_status (status_of code)) written, read)
  answered-failure code message (some v) h =
      let (t, written, read) = serialize-failure code message (some v) h in
      let cast = ap (λ c. answered_cast json code message (as_some c)) (cast2dump-plain v h) in
      (t, cast ∙ ap (with_status (status_of code)) written, read)

  answered-sent :
      (resp : Response)
      → IsPlainResponse (sent resp)
      → (t : Text) × (answered json (some resp) ≡ ok (t, http_status (sent resp)))
        × Reads json t (document (sent resp))
  unfolding serialize
  answered-sent (success (mapping (field key v fs))) h =
      let (t, written, read) = lib.loads-dumps (mapping (field key v fs)) h in
      (t, rw written refl, read)
  answered-sent (failure code message info) h =
      let (t, written, (utf8, read)) = serialize-failure code message info h in
      (
        t,
        ap (with_status (status_of code)) written,
        (utf8, read ∙ ap ok (sym (document-failure code message info))),
      )
  answered-sent (success (mapping no_field)) h =
      answered-failure 500 "Parse reply error" (some (text "Wrong reply")) tt
  answered-sent (success null) h =
      answered-failure 500 "Parse reply error" (some (text "Wrong reply")) tt
  answered-sent (success (bool b)) h =
      answered-failure 500 "Parse reply error" (some (text "Wrong reply")) tt
  answered-sent (success (number n)) h =
      answered-failure 500 "Parse reply error" (some (text "Wrong reply")) tt
  answered-sent (success (text t)) h =
      answered-failure 500 "Parse reply error" (some (text "Wrong reply")) tt
  answered-sent (success (bytes t)) h =
      answered-failure 500 "Parse reply error" (some (text "Wrong reply")) tt
  answered-sent (success (default_of v)) h =
      answered-failure 500 "Parse reply error" (some (text "Wrong reply")) tt
  answered-sent (success required) h =
      answered-failure 500 "Parse reply error" (some (text "Wrong reply")) tt
  answered-sent (success (model fs)) h =
      answered-failure 500 "Parse reply error" (some (text "Wrong reply")) tt
  answered-sent (success (sequence vs)) h =
      answered-failure 500 "Parse reply error" (some (text "Wrong reply")) tt

  -- This response is what is answered, if its result, or its data, is fit for JSON; or this exception is raised.
  abbrev IsAnswered : Result Failure (Text × ℕ) → Result Failure Response → Type 0
  IsAnswered x (ok resp) =
      IsPlainResponse resp
      → (t : Text) × (x ≡ ok (t, http_status resp)) × Reads json t (document resp)
  IsAnswered x (err e) = x ≡ err e

  answered_error-IsAnswered :
      (code : ℕ) (message : String) (info : Option Value)
      → IsAnswered
          (answered_error json (rest_error code message info))
          (ok (failure code message info))
  answered_error-IsAnswered code message info h =
      let (t, written, (utf8, read)) = answered-failure code message info h in
      (t, written, (utf8, read ∙ ap ok (sym (document-failure code message info))))

  answered_single-sent :
      (exceptions : Exceptions) (r : Result Failure Response)
      → IsAnswered (answered_single json (responded exceptions r)) (sent_of r)
  answered_single-sent exceptions (ok resp) = λ h. answered-sent resp h
  answered_single-sent exceptions (err e) = refl

  exec_parsed-response :
      (exceptions : Exceptions) (srv : Server) (r : Result String Value) (method : String)
      → IsAnswered
          (exec_parsed json exceptions srv (loaded r method))
          (response_to exceptions srv r method)
  unfolding parse_subrequest exec_single
  exec_parsed-response exceptions srv (ok (mapping (field key v fs))) method =
      let req : Request = record { method = method; kwargs = field key v fs; one_way = false } in
      answered_single-sent exceptions (respond_to exceptions (exec_method exceptions srv req))
  exec_parsed-response exceptions srv (ok (mapping no_field)) method =
      answered_error-IsAnswered 400 "Invalid params"
        (some (text "Missing required params in request"))
  exec_parsed-response exceptions srv (ok null) method =
      answered_error-IsAnswered 400 "Bad Request" none
  exec_parsed-response exceptions srv (ok (bool b)) method =
      answered_error-IsAnswered 400 "Bad Request" none
  exec_parsed-response exceptions srv (ok (number n)) method =
      answered_error-IsAnswered 400 "Bad Request" none
  exec_parsed-response exceptions srv (ok (text t)) method =
      answered_error-IsAnswered 400 "Bad Request" none
  exec_parsed-response exceptions srv (ok (bytes t)) method =
      answered_error-IsAnswered 400 "Bad Request" none
  exec_parsed-response exceptions srv (ok (default_of v)) method =
      answered_error-IsAnswered 400 "Bad Request" none
  exec_parsed-response exceptions srv (ok required) method =
      answered_error-IsAnswered 400 "Bad Request" none
  exec_parsed-response exceptions srv (ok (model fs)) method =
      answered_error-IsAnswered 400 "Bad Request" none
  exec_parsed-response exceptions srv (ok (sequence vs)) method =
      answered_error-IsAnswered 400 "Bad Request" none
  exec_parsed-response exceptions srv (err message) method =
      answered_error-IsAnswered 400 "Bad Request" none

  pub exec_rest-response :
      (exceptions : Exceptions) (srv : Server) (content : Text) (method : String) (resp : Response)
      → json.is_utf8 content ≡ true
      → response_to exceptions srv (json.loads content) method ≡ ok resp
      → IsPlainResponse resp
      → (t : Text) × (exec_rest json exceptions srv content method ≡ ok (t, http_status resp))
        × Reads json t (document resp)
  unfolding exec_rest parse_request
  exec_rest-response exceptions srv content method resp utf8 e =
      subst
        (λ b.
          IsAnswered
            (exec_parsed json exceptions srv
              (if b then loaded (json.loads content) method else err decode_error))
            (ok resp))
        (sym utf8)
        (subst (IsAnswered (exec_parsed json exceptions srv (loaded (json.loads content) method))) e
          (exec_parsed-response exceptions srv (json.loads content) method))
