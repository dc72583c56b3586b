-- ===== src/Http/Server/Answers.antt =====
-- What a request to `Server._req_wrapper` of ipapp/http/server.py returns or raises, and what its span tells of it.
use ipapp.Common.{ℕ, ◌≡◌, refl, ap, ◌∙◌, String, Option, none, some, Bool-cases, inl, inr}
use ipapp.Common.Dict.{lookup, keys}
use ipapp.Common.Lists.{contains}
use ipapp.Common.Exec.{Result, ok, err}
use ipapp.Spans.{Span, error}
use ipapp.Http.{Texts}
use ipapp.Http.Server.{
  Config, Request, Resp, Handled, returns, raises_http, raises, returns_other, cancelled, Raised,
  http_exception, invalid_response, unbound_local, Library, with_server, open_span, close_span,
  handle, req_wrapper,
}
use ipapp.Http.Server.Written.{lookup-tag, lookup-finish_http, tags-close_span}

module _ (texts : Texts) (lib : Library) (cfg : Config) (now : ℕ) where
  -- What the request returns or raises
  abbrev pub answer_of : Handled → Result Raised Resp
  answer_of (returns resp) = ok (with_server lib resp)
  answer_of (raises_http resp) = err (http_exception (with_server lib resp))
  answer_of (raises e) = err (http_exception (with_server lib lib.internal_error))
  answer_of returns_other = err invalid_response
  answer_of cancelled = err unbound_local

  -- The tag with the status: that of the response, or what there was
  abbrev pub status_of : Handled → Option String → Option String
  status_of (returns resp) was = some (texts.status_text resp.status)
  status_of (raises_http resp) was = some (texts.status_text resp.status)
  status_of (raises e) was = some (texts.status_text lib.internal_error.status)
  status_of returns_other was = was
  status_of cancelled was = was

  -- The class of error of the span: that of what the request raises, or what there was
  abbrev pub class_of : Result Raised Resp → Option String → Option String
  class_of (ok resp) was = was
  class_of (err e) was = some (lib.error_of e).class_name

  status-with_server : (resp : Resp) → (with_server lib resp).status ≡ resp.status
  status-with_server resp = elim (Bool-cases (contains "Server" (keys resp.headers))) [
    | inl e ↦ rw e refl
    | inr e ↦ rw e refl
  ]

  lookup-close_span :
      (resp : Resp) (s : Span)
      → (lookup "http.status_code" (close_span texts lib cfg now (with_server lib resp) s).tags
          ≡ some (texts.status_text resp.status))
        × (lookup "error.class" (close_span texts lib cfg now (with_server lib resp) s).tags
            ≡ lookup "error.class" s.tags)
  lookup-close_span resp s =
      let r = with_server lib resp in
      let written = tags-close_span texts lib cfg now r s in
      (
        ap (lookup "http.status_code") written
            ∙ lookup-tag "http.status_code" "http.status_code" (texts.status_text r.status) s
            ∙ ap (λ n. some (texts.status_text n)) (status-with_server resp),
        ap (lookup "error.class") written
            ∙ lookup-tag "http.status_code" "error.class" (texts.status_text r.status) s,
      )

  -- A request returns what its handler has returned, with the header `Server`, and it raises a response that the handler
  -- has raised, with that header, and HTTPInternalServerError for any other exception; for another result it raises
  -- UserWarning, and if the handler is cancelled UnboundLocalError. The span has the status of the response, if there is
  -- one, and the class of what the request raises: for an exception of the handler that is HTTPInternalServerError. Where
  -- there is no response, and where nothing is raised, these tags are as the handler has left them, which may write what it
  -- likes to the span.
  pub req_wrapper_lem :
      (req : Request) (writes : Span → Span) (handled : Handled) (s : Span)
      → let (r, s') = req_wrapper texts lib cfg now req writes handled s in
        let written = writes (open_span texts lib cfg now req s) in
        (r ≡ answer_of handled)
        × (lookup "http.status_code" s'.tags
            ≡ status_of handled (lookup "http.status_code" written.tags))
        × (lookup "error.class" s'.tags
            ≡ class_of (answer_of handled) (lookup "error.class" written.tags))
  unfolding req_wrapper handle
  req_wrapper_lem req writes (returns resp) s =
      let o = writes (open_span texts lib cfg now req s) in
      let (status, class) = lookup-close_span resp o in
      let end =
        lookup-finish_http texts lib cfg now none
          (close_span texts lib cfg now (with_server lib resp) o) in
      (refl, end.0 ∙ status, end.1 ∙ class)
  req_wrapper_lem req writes (raises_http resp) s =
      let o = writes (open_span texts lib cfg now req s) in
      let r = with_server lib resp in
      let end =
        lookup-finish_http texts lib cfg now (some (lib.error_of (http_exception r)))
          (close_span texts lib cfg now r o) in
      (refl, end.0 ∙ (lookup-close_span resp o).0, end.1)
  req_wrapper_lem req writes (raises e) s =
      let o = error now e (writes (open_span texts lib cfg now req s)) in
      let r = with_server lib lib.internal_error in
      let end =
        lookup-finish_http texts lib cfg now (some (lib.error_of (http_exception r)))
          (close_span texts lib cfg now r o) in
      (refl, end.0 ∙ (lookup-close_span lib.internal_error o).0, end.1)
  req_wrapper_lem req writes returns_other s =
      let end =
        lookup-finish_http texts lib cfg now (some (lib.error_of invalid_response))
          (writes (open_span texts lib cfg now req s)) in
      (refl, end.0, end.1)
  req_wrapper_lem req writes cancelled s =
      let end =
        lookup-finish_http texts lib cfg now (some (lib.error_of unbound_local))
          (writes (open_span texts lib cfg now req s)) in
      (refl, end.0, end.1)
