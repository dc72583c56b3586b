-- ===== src/RestRpc/Outcomes.antt =====
-- What a caller of `RestRpcExecutor.exec` of ipapp/rpc/restrpc/main.py is told of each way in which a request may end.
use ipapp.Common.{
  ℕ, ◌≡◌, ◌≤◌, ◌<◌, ◌⊎◌, refl, ◌∙◌, String, true, Option, none, some, if◌then◌else◌, [], arith,
}
use ipapp.Common.Exec.{Result, ok, err}
use ipapp.Rpc.{
  Exc, invalid_arguments, method_not_found, not_implemented, user_warning, key_error,
  raised_by_handler, exec,
}
use ipapp.JsonRpc.{
  Value, null, bool, number, text, bytes, default_of, required, model, mapping, sequence, no_field,
  field, cast2dump,
}
use ipapp.RestRpc.{
  Exceptions, Exception, coded, code_only, bad_request, no_method, bad_params, two_args, other,
  Failure, attribute_error, Response, success, failure, Json, Server, truthy, as_kwargs, mapped,
  map_exc, exec_method, respond_cast, respond_to, error_respond, exec_rest,
}
use ipapp.RestRpc.Answers.{
  IsJson, http_status, Reads, IsPlainResponse, document, sent_of, response_to, exec_rest-response,
}

-- Data is told only if Python takes it for true.
abbrev told : Option Value → Option Value
told none = none
told (some v) = if truthy v then some v else none

-- The response to an exception: `AttributeError` leaves the server for one with a code and without a message.
abbrev pub response_of_exception : Exception → Result Failure Response
response_of_exception (coded code message info) = ok (failure code message (told info))
response_of_exception (code_only code) = err attribute_error
response_of_exception bad_request = ok (failure 400 "Bad Request" none)
response_of_exception no_method = ok (failure 404 "Method not found" none)
response_of_exception bad_params = ok (failure 400 "Invalid params" none)
response_of_exception (two_args message info) = ok (failure 500 message (told (some info)))
response_of_exception (other message) = ok (failure 500 message none)

-- The response to a result made fit for JSON, or to what this raises
abbrev pub response_of_result : Exceptions → Result Exc Value → Result Failure Response
response_of_result exceptions (ok (mapping (field key v fs))) =
    ok (success (mapping (field key v fs)))
response_of_result exceptions (ok v) =
    ok (failure 500 "Parse reply error" (some (text "Wrong reply")))
response_of_result exceptions (err method_not_found) = ok (failure 404 "Method not found" none)
response_of_result exceptions (err (invalid_arguments r)) = ok (failure 400 "Invalid params" none)
response_of_result exceptions (err (raised_by_handler name)) =
    response_of_exception (exceptions.of_handler name)
response_of_result exceptions (err e) = ok (failure 500 (exceptions.text_of e) none)

-- The response to what the call of a method ends with
abbrev pub response_of_call : Exceptions → Result Exc Value → Result Failure Response
response_of_call exceptions (ok v) = response_of_result exceptions (cast2dump v)
response_of_call exceptions (err method_not_found) = ok (failure 404 "Method not found" none)
response_of_call exceptions (err (invalid_arguments r)) = ok (
    failure 400 "Invalid params"
      (some (mapping (field "info" (text (exceptions.text_of (invalid_arguments r))) no_field))))
response_of_call exceptions (err (raised_by_handler name)) =
    response_of_exception (exceptions.of_handler name)
response_of_call exceptions (err e) = ok (failure 500 (exceptions.text_of e) none)

-- The response to a request whose text is this, if it is JSON
abbrev pub expected : Exceptions → Server → Result String Value → String → Result Failure Response
expected exceptions srv (ok (mapping (field key v fs))) method =
    response_of_call exceptions (exec srv.methods method [] (as_kwargs (field key v fs)))
expected exceptions srv (ok (mapping no_field)) method =
    ok (failure 400 "Invalid params" (some (text "Missing required params in request")))
expected exceptions srv (ok v) method = ok (failure 400 "Bad Request" none)
expected exceptions srv (err message) method = ok (failure 400 "Bad Request" none)

-- The HTTP status of a response: the code of a failure, if that is a status of an HTTP error, else 200
abbrev pub IsStatus : Response → ℕ → Type 0
IsStatus (success v) status = status ≡ 200
IsStatus (failure code message info) status =
    ((400 ≤ code) × (code < 600) × (status ≡ code))
    ⊎ ((code < 400) × (status ≡ 200))
    ⊎ ((600 ≤ code) × (status ≡ 200))

http_status-IsStatus : (resp : Response) → IsStatus resp (http_status resp)
http_status-IsStatus (success v) = refl
http_status-IsStatus (failure code message info) = ground arith

module _ (exceptions : Exceptions) where
  exception-sent : (e : Exception) → sent_of (error_respond e) ≡ response_of_exception e
  unfolding error_respond
  exception-sent (coded code message none) = refl
  exception-sent (coded code message (some v)) = refl
  exception-sent (code_only code) = refl
  exception-sent bad_request = refl
  exception-sent no_method = refl
  exception-sent bad_params = refl
  exception-sent (two_args message info) = refl
  exception-sent (other message) = refl

  cast-sent :
      (r : Result Exc Value) → sent_of (respond_cast exceptions r) ≡ response_of_result exceptions r
  unfolding error_respond
  cast-sent (ok (mapping (field key v fs))) = refl
  cast-sent (ok (mapping no_field)) = refl
  cast-sent (ok null) = refl
  cast-sent (ok (bool b)) = refl
  cast-sent (ok (number n)) = refl
  cast-sent (ok (text t)) = refl
  cast-sent (ok (bytes t)) = refl
  cast-sent (ok (default_of v)) = refl
  cast-sent (ok required) = refl
  cast-sent (ok (model fs)) = refl
  cast-sent (ok (sequence vs)) = refl
  cast-sent (err (invalid_arguments r)) = refl
  cast-sent (err method_not_found) = refl
  cast-sent (err not_implemented) = refl
  cast-sent (err user_warning) = refl
  cast-sent (err key_error) = refl
  cast-sent (err (raised_by_handler name)) = exception-sent (exceptions.of_handler name)

  call-sent :
      (r : Result Exc Value)
      → sent_of (respond_to exceptions (mapped exceptions r)) ≡ response_of_call exceptions r
  unfolding error_respond map_exc
  call-sent (ok v) = cast-sent (cast2dump v)
  call-sent (err (invalid_arguments r)) = refl
  call-sent (err method_not_found) = refl
  call-sent (err not_implemented) = refl
  call-sent (err user_warning) = refl
  call-sent (err key_error) = refl
  call-sent (err (raised_by_handler name)) = exception-sent (exceptions.of_handler name)

  response_to-expected :
      (srv : Server) (r : Result String Value) (method : String)
      → response_to exceptions srv r method ≡ expected exceptions srv r method
  unfolding exec_method
  response_to-expected srv (ok (mapping (field key v fs))) method =
      call-sent (exec srv.methods method [] (as_kwargs (field key v fs)))
  response_to-expected srv (ok (mapping no_field)) method = refl
  response_to-expected srv (ok null) method = refl
  response_to-expected srv (ok (bool b)) method = refl
  response_to-expected srv (ok (number n)) method = refl
  response_to-expected srv (ok (text t)) method = refl
  response_to-expected srv (ok (bytes t)) method = refl
  response_to-expected srv (ok (default_of v)) method = refl
  response_to-expected srv (ok required) method = refl
  response_to-expected srv (ok (model fs)) method = refl
  response_to-expected srv (ok (sequence vs)) method = refl
  response_to-expected srv (err message) method = refl

-- Where the content is UTF-8, and the result or the error's data is fit for JSON, and no exception has a code without a
-- message, a request is answered and nothing is raised. Text that is no JSON, or no dict, is answered with 400, and an
-- empty dict with 400; an unknown method with 404, and wrong arguments with 400 and their reason. Else the answer is the
-- method's result, with 200, if it is a dict that is not empty, and 500 for another result; for an exception it is its
-- code, message and data, or 500 and its text. The status is the code if that is a status of an HTTP error, else 200.
pub exec_rest_lem :
    {Text : Type 0} (json : Json Text) (lib : IsJson json) (exceptions : Exceptions) (srv : Server)
    (content : Text) (method : String) (resp : Response)
    → json.is_utf8 content ≡ true
    → expected exceptions srv (json.loads content) method ≡ ok resp
    → IsPlainResponse resp
    → (t : Text) × (status : ℕ) × (exec_rest json exceptions srv content method ≡ ok (t, status))
      × IsStatus resp status
      × Reads json t (document resp)
exec_rest_lem json lib exceptions srv content method resp utf8 e plain =
    let (t, answer, reads) =
      exec_rest-response json lib exceptions srv content method resp utf8
        (response_to-expected exceptions srv (json.loads content) method ∙ e) plain in
    (t, http_status resp, answer, http_status-IsStatus resp, reads)
