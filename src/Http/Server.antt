-- ===== src/Http/Server.antt =====
-- ipapp/http/server.py, `Server._req_wrapper`: one request through the server, with its span and the handler's outcome.
-- The handler, the clock, and aiohttp's exceptions are arguments; the span is the one that the headers gave.
pub mod Written
pub mod Answers
pub mod Unnamed
use ipapp.Common.{
  ℕ, String, Bool, true, false, not, Option, none, some, List, [], ◌∷◌, ◌==◌, if◌then◌else◌,
}
use ipapp.Common.Text.{◌⁀◌}
use ipapp.Common.Lists.{contains}
use ipapp.Common.Dict.{Dict, lookup, insert, keys}
use ipapp.Common.Exec.{Result, ok, err}
use ipapp.Spans.{Span, Error, tag, error, start, finish, set_name4adapter, get_name4adapter}
use ipapp.Http.{Texts, annotated}

-- The flags of `ServerConfig` for the log
pub record Config : Type 0 where
  pub log_req_hdrs : Bool
  pub log_req_body : Bool
  pub log_resp_hdrs : Bool
  pub log_resp_body : Bool

-- What the code reads of a request
pub record Request : Type 0 where
  pub host : String
  pub raw_path : String
  pub method : String
  pub url : String
  pub headers : Dict String
  pub content : String
  pub charset : Option String
  pub route : Option String

-- The body of a response: a payload of some class, or bytes
pub data Body : Type 0 where
  payload bytes : String → Body

-- `web.Response` and `web.FileResponse`
pub record Resp : Type 0 where
  pub status : ℕ
  pub headers : Dict String
  pub body : Option Body
  pub charset : Option String
  pub is_file : Bool

-- What a handler does: it returns a response, or something else; it raises a response, or another exception; or it is
-- cancelled, which is no `Exception`.
pub data Handled : Type 0 where
  returns raises_http : Resp → Handled
  raises : Error → Handled
  returns_other cancelled : Handled

-- What the request raises: a response, a `UserWarning`, or the `UnboundLocalError` of `resp`
pub data Raised : Type 0 where
  http_exception : Resp → Raised
  invalid_response unbound_local : Raised

-- The value of `SERVER`, the response `HTTPInternalServerError()`, and what a span keeps of an exception
pub record Library : Type 0 where
  pub server_name : String
  pub internal_error : Resp
  pub error_of : Raised → Error

abbrev pub with_route : Option String → Span → Span
with_route none s = s
with_route (some route) s = tag "http.route" route s

-- `if 'Server' not in resp.headers`
abbrev pub with_server : Library → Resp → Resp
with_server lib resp =
    if contains "Server" (keys resp.headers)
    then resp
    else record resp { headers = insert "Server" lib.server_name resp.headers }

-- The name that `ServerHttpSpan.finish` gives to a span without one
abbrev pub name_of : Texts → Option String → Option String → String
name_of texts none none = "http::in"
name_of texts (some method) none = "http::in" ⁀ "::" ⁀ texts.lower method
name_of texts none (some route) = "http::in" ⁀ " (" ⁀ route ⁀ ")"
name_of texts (some method) (some route) =
    "http::in" ⁀ "::" ⁀ texts.lower method ⁀ " (" ⁀ route ⁀ ")"

abbrev pub named : Texts → Span → Span
named texts s =
    if s.name == ""
    then record s {
      name = name_of texts (lookup "http.method" s.tags) (lookup "http.route" s.tags);
    }
    else s

abbrev pub p8s_named : Option String → Span → Span
p8s_named none s = set_name4adapter "PrometheusAdapter" "http_in" s
p8s_named (some name) s = if name == "" then set_name4adapter "PrometheusAdapter" "http_in" s else s

-- `ServerHttpSpan.finish`
unfoldable pub finish_http : Texts → ℕ → Option Error → Span → Span
finish_http texts now exception s =
    let s' = named texts s in
    finish now none exception (p8s_named (get_name4adapter "PrometheusAdapter" true s') s')

module _ (texts : Texts) (lib : Library) (cfg : Config) (now : ℕ) where
  -- The part of `_req_wrapper` before the handler
  unfoldable pub open_span : Request → Span → Span
  open_span req s =
      let tagged = tag "http.url" (texts.mask_url req.url) (
        tag "http.method" (texts.upper req.method) (
          tag "http.path" req.raw_path
            (tag "http.host" req.host (record (start now none s) { kind = some "SERVER" })))) in
      let hdrs =
        if cfg.log_req_hdrs
        then annotated texts now "request_hdrs" (texts.hdrs_text req.headers) now tagged
        else tagged in
      let body =
        if cfg.log_req_body
        then annotated texts now "request_body" (texts.decode req.charset req.content) now hdrs
        else hdrs in
      with_route req.route body

  abbrev body_text : Option String → Body → String
  body_text charset (payload class_name) =
      texts.decode charset ("--- payload " ⁀ class_name ⁀ " ---")
  body_text charset (bytes content) = texts.decode charset content

  abbrev pub with_body : Bool → Option String → Option Body → Span → Span
  with_body true charset body s = s
  with_body false charset none s = s
  with_body false charset (some body) s =
      annotated texts now "response_body" (body_text charset body) now s

  -- What the `finally` behind the handler adds for a response
  unfoldable pub close_span : Resp → Span → Span
  close_span resp s =
      let tagged = tag "http.status_code" (texts.status_text resp.status) s in
      let hdrs =
        if cfg.log_resp_hdrs
        then annotated texts now "response_hdrs" (texts.hdrs_text resp.headers) now tagged
        else tagged in
      if cfg.log_resp_body then with_body resp.is_file resp.charset resp.body hdrs else hdrs

  -- The handler and the `finally` behind it; what the handler has written to the span of the request, which is in its
  -- context, is there whatever its outcome is
  unfoldable pub handle : (Span → Span) → Handled → Span → Result Raised Resp × Span
  unfolding close_span
  handle writes (returns resp) s = let r = with_server lib resp in (ok r, close_span r (writes s))
  handle writes (raises_http resp) s =
      let r = with_server lib resp in (err (http_exception r), close_span r (writes s))
  handle writes (raises e) s =
      let r = with_server lib lib.internal_error in
      (err (http_exception r), close_span r (error now e (writes s)))
  handle writes returns_other s = (err invalid_response, writes s)
  handle writes cancelled s = (err unbound_local, writes s)

  abbrev pub exception_of : Result Raised Resp → Option Error
  exception_of (ok resp) = none
  exception_of (err e) = some (lib.error_of e)

  abbrev pub finished : Result Raised Resp × Span → Result Raised Resp × Span
  finished (r, s) = (r, finish_http texts now (exception_of r) s)

  -- `_req_wrapper`
  unfoldable pub req_wrapper : Request → (Span → Span) → Handled → Span → Result Raised Resp × Span
  unfolding open_span handle finish_http
  req_wrapper req writes handled s = finished (handle writes handled (open_span req s))
