-- ===== src/Http/Server/Written.antt =====
-- The tags of a span of ipapp/http/server.py behind each part of a request.
use ipapp.Common.{
  ℕ, ◌≡◌, refl, sym, subst, ap, ◌∙◌, String, Bool, true, false, Option, none, some, ◌==◌, eq_iff,
  if◌then◌else◌, Bool-cases, inl, inr,
}
use Prim.Native.String
use ipapp.Common.Text.{◌⁀◌}
use ipapp.Common.Dict.{lookup, lookup-insert}
use ipapp.Spans.{
  Span, stamp_or, with_trace, with_error, Error, tag, error, start, finish, annotate,
  annotate4adapter, set_name4adapter, get_name4adapter,
}
use ipapp.Http.{Texts, annotated}
use ipapp.Http.Server.{
  Config, Request, Resp, Body, Library, with_route, named, name_of, p8s_named, finish_http,
  open_span, close_span, with_body,
}

abbrev is_nil : String → Bool
is_nil String.[] = true
is_nil (String.◌∷◌ c s) = false

append_nonempty : (x : String) → is_nil ("http::in" ⁀ x) ≡ false
append_nonempty x = ap is_nil (λ i. String.append.cons "h" "ttp::in" x i)

nonempty : (name : String) → is_nil name ≡ false → (name == "") ≡ false
nonempty name h = elim (Bool-cases (name == "")) [
  | inl e ↦ absurd (
      subst (λ b. elim b [ true ↦ ⊥ | false ↦ Unit ]) (sym h ∙ ap is_nil ((eq_iff name "").0 e)) tt)
  | inr e ↦ e
]

name_of-nonempty :
    (texts : Texts) (method route : Option String) → (name_of texts method route == "") ≡ false
name_of-nonempty texts none none = refl
name_of-nonempty texts (some method) none =
    nonempty ("http::in" ⁀ "::" ⁀ texts.lower method) (append_nonempty ("::" ⁀ texts.lower method))
name_of-nonempty texts none (some route) =
    nonempty ("http::in" ⁀ " (" ⁀ route ⁀ ")") (append_nonempty (" (" ⁀ route ⁀ ")"))
name_of-nonempty texts (some method) (some route) =
    nonempty ("http::in" ⁀ "::" ⁀ texts.lower method ⁀ " (" ⁀ route ⁀ ")")
      (append_nonempty ("::" ⁀ texts.lower method ⁀ " (" ⁀ route ⁀ ")"))

pub named-nonempty : (texts : Texts) (s : Span) → ((named texts s).name == "") ≡ false
named-nonempty texts s = elim (Bool-cases (s.name == "")) [
  | inl e ↦ rw e (name_of-nonempty texts (lookup "http.method" s.tags) (lookup "http.route" s.tags))
  | inr e ↦ rw e e
]

pub if-keeps :
    {A : Type 0} (f : Span → A) (b : Bool) (s t : Span) → f s ≡ f t → f (if b then s else t) ≡ f t
if-keeps f true s t h = h
if-keeps f false s t h = refl

tags-with_trace :
    (now : ℕ) (trace : Option String) (s : Span) → (with_trace now trace s).tags ≡ s.tags
unfolding annotate
tags-with_trace now none s = refl
tags-with_trace now (some t) s = refl

tags-annotated :
    (texts : Texts) (now : ℕ) (kind content : String) (ts : ℕ) (s : Span)
    → (annotated texts now kind content ts s).tags ≡ s.tags
unfolding annotate annotate4adapter
tags-annotated texts now kind content ts s = refl

pub lookup-tag :
    (k j v : String) (s : Span)
    → lookup j (tag k v s).tags ≡ (if k == j then some v else lookup j s.tags)
unfolding tag
lookup-tag k j v s = lookup-insert k j v s.tags

-- What an error writes to the tags
lookup-error :
    (now : ℕ) (e : Error) (s : Span)
    → (lookup "error.class" (error now e s).tags ≡ some e.class_name)
      × (lookup "http.status_code" (error now e s).tags ≡ lookup "http.status_code" s.tags)
unfolding error
lookup-error now e s =
    let flagged = tag "error" "true" s in
    let classed = tag "error.class" e.class_name flagged in
    let tagged = tag "error.message" e.message classed in
    let written = tags-with_trace now e.trace (record tagged { exception = some e }) in
    (
      ap (lookup "error.class") written
          ∙ lookup-tag "error.message" "error.class" e.message classed
          ∙ lookup-tag "error.class" "error.class" e.class_name flagged,
      ap (lookup "http.status_code") written
          ∙ lookup-tag "error.message" "http.status_code" e.message classed
          ∙ lookup-tag "error.class" "http.status_code" e.class_name flagged
          ∙ lookup-tag "error" "http.status_code" "true" s,
    )

module _ (texts : Texts) (lib : Library) (cfg : Config) (now : ℕ) where
  tags-with_body :
      (b : Bool) (charset : Option String) (body : Option Body) (s : Span)
      → (with_body texts lib cfg now b charset body s).tags ≡ s.tags
  tags-with_body true charset body s = refl
  tags-with_body false charset none s = refl
  tags-with_body false charset (some body) s = tags-annotated texts now "response_body" _ now s

  pub tags-close_span :
      (resp : Resp) (s : Span)
      → (close_span texts lib cfg now resp s).tags
        ≡ (tag "http.status_code" (texts.status_text resp.status) s).tags
  unfolding close_span
  tags-close_span resp s =
      let tagged = tag "http.status_code" (texts.status_text resp.status) s in
      let noted = annotated texts now "response_hdrs" (texts.hdrs_text resp.headers) now tagged in
      let hdrs = if cfg.log_resp_hdrs then noted else tagged in
      if-keeps (λ x. x.tags) cfg.log_resp_body
        (with_body texts lib cfg now resp.is_file resp.charset resp.body hdrs) hdrs
        (tags-with_body resp.is_file resp.charset resp.body hdrs)
      ∙ if-keeps (λ x. x.tags) cfg.log_resp_hdrs noted tagged
          (tags-annotated texts now "response_hdrs" _ now tagged)

  pub lookup-with_route :
      (j : String) (route : Option String) (s : Span)
      → ("http.route" == j) ≡ false
      → lookup j (with_route route s).tags ≡ lookup j s.tags
  lookup-with_route j none s h = refl
  lookup-with_route j (some route) s h = rw (lookup-tag "http.route" j route s, h) refl

  pub lookup-open_span :
      (j : String) (req : Request) (s : Span)
      → ("http.host" == j) ≡ false
      → ("http.path" == j) ≡ false
      → ("http.method" == j) ≡ false
      → ("http.url" == j) ≡ false
      → ("http.route" == j) ≡ false
      → lookup j (open_span texts lib cfg now req s).tags ≡ lookup j s.tags
  unfolding open_span start
  lookup-open_span j req s host path method url route =
      let started = record (start now none s) { kind = some "SERVER" } in
      let hosted = tag "http.host" req.host started in
      let pathed = tag "http.path" req.raw_path hosted in
      let methoded = tag "http.method" (texts.upper req.method) pathed in
      let tagged = tag "http.url" (texts.mask_url req.url) methoded in
      let noted = annotated texts now "request_hdrs" (texts.hdrs_text req.headers) now tagged in
      let hdrs = if cfg.log_req_hdrs then noted else tagged in
      let bodied =
        annotated texts now "request_body" (texts.decode req.charset req.content) now hdrs in
      lookup-with_route j req.route (if cfg.log_req_body then bodied else hdrs) route
      ∙ ap (lookup j) (
          if-keeps (λ x. x.tags) cfg.log_req_body bodied hdrs
            (tags-annotated texts now "request_body" _ now hdrs))
      ∙ ap (lookup j) (
          if-keeps (λ x. x.tags) cfg.log_req_hdrs noted tagged
            (tags-annotated texts now "request_hdrs" _ now tagged))
      ∙ rw
          (
            lookup-tag "http.url" j (texts.mask_url req.url) methoded,
            url,
            lookup-tag "http.method" j (texts.upper req.method) pathed,
            method,
            lookup-tag "http.path" j req.raw_path hosted,
            path,
            lookup-tag "http.host" j req.host started,
            host,
          )
          refl

  tags-p8s_named : (name : Option String) (s : Span) → (p8s_named name s).tags ≡ s.tags
  unfolding set_name4adapter
  tags-p8s_named none s = refl
  tags-p8s_named (some name) s = if-keeps (λ x. x.tags) (name == "") (p8s_named none s) s refl

  tags-named : (s : Span) → (named texts s).tags ≡ s.tags
  tags-named s = if-keeps (λ x. x.tags) (s.name == "") _ s refl

  lookup-with_error :
      (exception : Option Error) (s : Span)
      → (lookup "http.status_code" (with_error now exception s).tags
          ≡ lookup "http.status_code" s.tags)
        × (lookup "error.class" (with_error now exception s).tags
            ≡ elim exception [ none ↦ lookup "error.class" s.tags | some e ↦ some e.class_name ])
  lookup-with_error none s = (refl, refl)
  lookup-with_error (some e) s = let (class, status) = lookup-error now e s in (status, class)

  -- What the end of a span with these tags leaves of the two
  pub lookup-finish_http :
      (exception : Option Error) (s : Span)
      → (lookup "http.status_code" (finish_http texts now exception s).tags
          ≡ lookup "http.status_code" s.tags)
        × (lookup "error.class" (finish_http texts now exception s).tags
            ≡ elim exception [ none ↦ lookup "error.class" s.tags | some e ↦ some e.class_name ])
  unfolding finish_http finish
  lookup-finish_http exception s =
      let s' = named texts s in
      let p8s = p8s_named (get_name4adapter "PrometheusAdapter" true s') s' in
      let same = tags-p8s_named (get_name4adapter "PrometheusAdapter" true s') s' ∙ tags-named s in
      let (status, class) =
        lookup-with_error exception (record p8s { finish_stamp = some (stamp_or none now) }) in
      (
        status ∙ ap (lookup "http.status_code") same,
        class
            ∙ ap
                (λ t. elim exception [ none ↦ lookup "error.class" t | some e ↦ some e.class_name ])
                same,
      )
