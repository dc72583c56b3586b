-- ===== src/Http/Server/Unnamed.antt =====
-- The name that the Prometheus adapter reads of the span of a request, after `ServerHttpSpan.finish` of ipapp/http/server.py.
use ipapp.Common.{
  ℕ, ◌≡◌, refl, ap, ◌∙◌, String, Bool, true, false, Option, none, some, ◌==◌, if◌then◌else◌, ◌||◌,
  eq_iff, subst, Bool-cases, inl, inr,
}
use ipapp.Common.Dict.{Dict, lookup}
use ipapp.Spans.{
  Span, Error, tag, error, finish, annotate, annotate4adapter, get_name4adapter, with_error,
  with_trace, stamp_or,
}
use ipapp.Http.{Texts, annotated}
use ipapp.Http.Server.{
  Config, Request, Resp, Body, Handled, returns, raises_http, raises, returns_other, cancelled,
  Library, with_server, named, p8s_named, finish_http, open_span, close_span, with_body, handle,
  finished, exception_of, req_wrapper,
}
use ipapp.Http.Server.Written.{if-keeps, named-nonempty}

-- The names of a span
abbrev names : Span → Dict String × String
names s = (s.name4adapter, s.name)

names-with_trace : (now : ℕ) (t : Option String) (s : Span) → names (with_trace now t s) ≡ names s
unfolding annotate
names-with_trace now none s = refl
names-with_trace now (some t) s = refl

names-error : (now : ℕ) (e : Error) (s : Span) → names (error now e s) ≡ names s
unfolding error tag
names-error now e s =
    let tagged =
      tag "error.message" e.message (tag "error.class" e.class_name (tag "error" "true" s)) in
    names-with_trace now e.trace (record tagged { exception = some e })

names-with_error :
    (now : ℕ) (exception : Option Error) (s : Span) → names (with_error now exception s) ≡ names s
names-with_error now none s = refl
names-with_error now (some e) s = names-error now e s

get_name-unnamed :
    (s : Span)
    → lookup "PrometheusAdapter" s.name4adapter ≡ none
    → get_name4adapter "PrometheusAdapter" true s ≡ some s.name
unfolding get_name4adapter
get_name-unnamed s h = rw (get_name4adapter, h) refl

names-p8s_named :
    (name : String) (s : Span) → (name == "") ≡ false → names (p8s_named (some name) s) ≡ names s
names-p8s_named name s h = ap (λ b. names (if b then p8s_named none s else s)) h

named-adapters : (texts : Texts) (s : Span) → (named texts s).name4adapter ≡ s.name4adapter
named-adapters texts s = elim (Bool-cases (s.name == "")) [ inl e ↦ rw e refl | inr e ↦ rw e refl ]

own_name : (texts : Texts) (w : Span) → ((w.name == "") || ((named texts w).name == w.name)) ≡ true
own_name texts w = elim (Bool-cases (w.name == "")) [
  | inl e ↦ rw e refl
  | inr e ↦ rw e ((eq_iff w.name w.name).1 refl)
]

names-finish_http :
    (texts : Texts) (now : ℕ) (exception : Option Error) (s : Span)
    → lookup "PrometheusAdapter" s.name4adapter ≡ none
    → names (finish_http texts now exception s) ≡ names (named texts s)
unfolding finish_http finish
names-finish_http texts now exception s h =
    let s' = named texts s in
    let unnamed =
      get_name-unnamed s' (ap (lookup "PrometheusAdapter") (named-adapters texts s) ∙ h) in
    let p8s = p8s_named (get_name4adapter "PrometheusAdapter" true s') s' in
    names-with_error now exception (record p8s { finish_stamp = some (stamp_or none now) })
    ∙ ap (λ n. names (p8s_named n s')) unnamed
    ∙ names-p8s_named s'.name s' (named-nonempty texts s)

module _ (texts : Texts) (lib : Library) (cfg : Config) (now : ℕ) where
  names-annotated :
      (kind content : String) (s : Span) → names (annotated texts now kind content now s) ≡ names s
  unfolding annotate annotate4adapter
  names-annotated kind content s = refl

  names-with_body :
      (b : Bool) (charset : Option String) (body : Option Body) (s : Span)
      → names (with_body texts lib cfg now b charset body s) ≡ names s
  unfolding annotate annotate4adapter
  names-with_body true charset body s = refl
  names-with_body false charset none s = refl
  names-with_body false charset (some body) s = refl

  names-close_span :
      (resp : Resp) (s : Span) → names (close_span texts lib cfg now resp s) ≡ names s
  unfolding close_span tag
  names-close_span resp s =
      let tagged = tag "http.status_code" (texts.status_text resp.status) s in
      let noted = annotated texts now "response_hdrs" (texts.hdrs_text resp.headers) now tagged in
      let hdrs = if cfg.log_resp_hdrs then noted else tagged in
      if-keeps names cfg.log_resp_body
        (with_body texts lib cfg now resp.is_file resp.charset resp.body hdrs) hdrs
        (names-with_body resp.is_file resp.charset resp.body hdrs)
      ∙ if-keeps names cfg.log_resp_hdrs noted tagged (names-annotated "response_hdrs" _ tagged)

  names-handle :
      (writes : Span → Span) (handled : Handled) (s : Span)
      → names (handle texts lib cfg now writes handled s).1 ≡ names (writes s)
  unfolding handle
  names-handle writes (returns resp) s = names-close_span (with_server lib resp) (writes s)
  names-handle writes (raises_http resp) s = names-close_span (with_server lib resp) (writes s)
  names-handle writes (raises e) s =
      names-close_span (with_server lib lib.internal_error) (error now e (writes s))
      ∙ names-error now e (writes s)
  names-handle writes returns_other s = refl
  names-handle writes cancelled s = refl

  -- However a request ends, its span gets no name for the Prometheus adapter from the server: if the handler has given it
  -- none, the adapter reads the span's own name. That is not empty, and it is what the handler has left, if it has left one.
  pub req_wrapper-unnamed :
      (req : Request) (writes : Span → Span) (handled : Handled) (s : Span)
      → let written = writes (open_span texts lib cfg now req s) in
        lookup "PrometheusAdapter" written.name4adapter ≡ none
        → let s' = (req_wrapper texts lib cfg now req writes handled s).1 in
          (get_name4adapter "PrometheusAdapter" true s' ≡ some s'.name)
          × ((s'.name == "") ≡ false)
          × (((written.name == "") || (s'.name == written.name)) ≡ true)
  unfolding req_wrapper
  req_wrapper-unnamed req writes handled s h =
      let written = writes (open_span texts lib cfg now req s) in
      let (r, w) = handle texts lib cfg now writes handled (open_span texts lib cfg now req s) in
      let kept = names-handle writes handled (open_span texts lib cfg now req s) in
      let none' = ap (λ n. lookup "PrometheusAdapter" n.0) kept ∙ h in
      let ended = names-finish_http texts now (exception_of texts lib cfg now r) w none' in
      (
        get_name-unnamed (finished texts lib cfg now (r, w)).1 (
            ap (λ n. lookup "PrometheusAdapter" n.0) ended
            ∙ ap (lookup "PrometheusAdapter") (named-adapters texts w)
            ∙ none'),
        ap (λ n. n.1 == "") ended ∙ named-nonempty texts w,
        ap (λ n. (written.name == "") || (n.1 == written.name)) ended
            ∙ subst (λ n. ((n == "") || ((named texts w).name == n)) ≡ true) (ap (λ n. n.1) kept)
                (own_name texts w),
      )
