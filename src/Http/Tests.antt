-- ===== src/Http/Tests.antt =====
-- The theorems about ipapp/http/server.py at a request whose handler raises, and at an application with a sick component.
use ipapp.Common.{String, ◌≡◌, refl, true, false, Option, none, some, [], ◌∷◌, ◌==◌, ◌||◌}
use ipapp.Common.Dict.{lookup}
use ipapp.Common.Exec.{err}
use ipapp.Spans.{Span, Error, tag, start, annotate4adapter, annotate, new_span, get_name4adapter}
use ipapp.Http.{Texts}
use ipapp.Http.Server.{
  Config, Request, Resp, Library, Raised, http_exception, invalid_response, unbound_local, raises,
  with_server, open_span, req_wrapper,
}
use ipapp.Http.Server.Answers.{req_wrapper_lem}
use ipapp.Http.Server.Unnamed.{req_wrapper-unnamed}
use ipapp.Http.Health.{health_handler_get, health_handler_head, health_handler_lem}
use ipapp.App.{App, Component, Error as AppError, raised, init}

abbrev texts : Texts
texts = record {
  upper = λ t. t;
  lower = λ t. "get";
  hdrs_text = λ d. "headers";
  decode = λ charset t. t;
  json_key = λ k v. v;
  mask_url = λ u. u;
  status_text = λ n. "500";
}

abbrev config : Config
config = record {
  log_req_hdrs = true;
  log_req_body = false;
  log_resp_hdrs = true;
  log_resp_body = true;
}

abbrev response : Resp
response = record { status = 500; headers = []; body = none; charset = none; is_file = false }

abbrev class_name : Raised → String
class_name (http_exception r) = "HTTPInternalServerError"
class_name invalid_response = "UserWarning"
class_name unbound_local = "UnboundLocalError"

abbrev library : Library
library = record {
  server_name = "ipapp-http/1";
  internal_error = response;
  error_of = λ r. record { class_name = class_name r; message = "message"; trace = none };
}

abbrev request : Request
request = record {
  host = "host";
  raw_path = "/pay";
  method = "GET";
  url = "http://host/pay";
  headers = [];
  content = "";
  charset = none;
  route = some "/pay";
}

abbrev key_error : Error
key_error = record { class_name = "KeyError"; message = "card"; trace = none }

-- The handler tags the span, and then raises.
abbrev writes : Span → Span
writes s = tag "rpc.method" "pay" s

req_wrapper_lem_example :
    let (r, s') =
      req_wrapper texts library config 7 request writes
        (raises key_error)
        (new_span "t" "s" none) in
    (r ≡ err (http_exception (with_server library response)))
    × (lookup "http.status_code" s'.tags ≡ some "500")
    × (lookup "error.class" s'.tags ≡ some "HTTPInternalServerError")
unfolding new_span
req_wrapper_lem_example =
    req_wrapper_lem texts library config 7 request writes (raises key_error) (new_span "t" "s" none)

req_wrapper-unnamed_example :
    let s' =
      (req_wrapper texts library config 7 request writes
        (raises key_error)
        (new_span "t" "s" none)).1 in
    (get_name4adapter "PrometheusAdapter" true s' ≡ some s'.name)
    × ((s'.name == "") ≡ false)
    × ((true || (s'.name == "")) ≡ true)
unfolding new_span open_span start tag annotate4adapter annotate
req_wrapper-unnamed_example =
    req_wrapper-unnamed texts library config 7 request writes (raises key_error)
      (new_span "t" "s" none) refl

abbrev component : Option AppError → Component
component health = record { prepare = none; start = none; stop = none; health = health }

-- The queue is sick, and the database is not.
abbrev half_sick : App
half_sick = record (init (component none)) {
  components = ("db", component none) ∷ ("queue", component (some (raised 3))) ∷ [];
}

health_handler_lem_example :
    let get = health_handler_get (λ e. "closed") [] half_sick in
    let head = health_handler_head (λ e. "closed") [] half_sick in
    (get.status ≡ 500)
    × (get.is_raised ≡ true)
    × (get.skips_span ≡ false)
    × (get.document
        ≡ some (record {
          is_sick = true;
          checks = ("db", "ok") ∷ ("queue", "closed") ∷ [];
          others = [];
        }))
    × (head ≡ record get { document = none })
health_handler_lem_example = health_handler_lem (λ e. "closed") [] half_sick (refl, (refl, tt))
