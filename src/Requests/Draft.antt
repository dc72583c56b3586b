-- ===== src/Requests/Draft.antt =====
-- ipapp/logger/adapters/requests.py, `handle`: how the row of a span is made. The conversion of a text to a number by
-- pydantic, the JSON of tags, and the merge of two dicts are arguments. Stamps are numbers of microseconds.
use ipapp.Common.{
  ℕ, String, Bool, true, not, Option, none, some, List, [], ◌∷◌, ◌==◌, if◌then◌else◌,
}
use ipapp.Common.Int.{ℤ}
use ipapp.Common.Text.{◌⁀◌, clip}
use ipapp.Common.Dict.{Dict, lookup, erase}
use ipapp.Spans.{Span, Annotations, get_tags4adapter, get_annotations4adapter}
use ipapp.Requests.{
  Request, Config, SpanClass, http_span, amqp_in_span, amqp_out_span, other_span, Made, skipped,
  invalid, made,
}

-- `kwargs`, with the tags that are left; the code is a text still.
pub record Draft : Type 0 where
  pub request : Request
  pub code : Option String
  pub rest : Dict String

-- `if name in tags: kwargs[…] = tags.pop(name)`, for each key of `kwargs`
abbrev pop_url : String → Draft → Draft
pop_url name d = elim (lookup name d.rest) [
  | none ↦ d
  | some v ↦ record d { request = record d.request { url = some v }; rest = erase name d.rest }
]

abbrev pop_method : String → Draft → Draft
pop_method name d = elim (lookup name d.rest) [
  | none ↦ d
  | some v ↦ record d { request = record d.request { method = some v }; rest = erase name d.rest }
]

abbrev pop_code : String → Draft → Draft
pop_code name d = elim (lookup name d.rest) [
  | none ↦ d
  | some v ↦ record d { code = some v; rest = erase name d.rest }
]

abbrev pop_error : String → Draft → Draft
pop_error name d = elim (lookup name d.rest) [
  | none ↦ d
  | some v ↦ record d { request = record d.request { error = some v }; rest = erase name d.rest }
]

abbrev with_type : String → Draft → Draft
with_type type d = record d { request = record d.request { type = some type } }

-- The type of the request, by what is sent and by the direction, and for a call
abbrev type_of : String → Bool → String
type_of base is_out = if is_out then base ⁀ "_out" else base ⁀ "_in"

abbrev pop_http_method : String → Draft → Draft
pop_http_method type d = elim (lookup "rpc.method" d.rest) [
  | some v ↦ with_type ("rpc_" ⁀ type) (pop_method "rpc.method" d)
  | none ↦ pop_method "http.method" d
]

abbrev pop_http_code : Draft → Draft
pop_http_code d = elim (lookup "rpc.code" d.rest) [
  | some v ↦ pop_code "rpc.code" d
  | none ↦ pop_code "http.status_code" d
]

-- The part of `handle` for an `HttpSpan`
unfoldable pub draft_http : Draft → Draft
draft_http d =
    let type = type_of "http" d.request.is_out in
    pop_http_code (pop_http_method type (pop_url "http.url" (with_type type d)))

abbrev or_blank : Option String → String
or_blank none = ""
or_blank (some s) = s

-- Where a message goes to or comes from; an exchange that is empty is not named.
abbrev place_of : Option String → Option String → String
place_of exchange routing_key =
    if or_blank exchange == ""
    then "rk:" ⁀ or_blank routing_key
    else "ex:" ⁀ or_blank exchange ⁀ " rk:" ⁀ or_blank routing_key

abbrev act_of : SpanClass → String
act_of amqp_in_span = "receive: "
act_of _ = "publish: "

abbrev pop_amqp_method : SpanClass → String → Draft → Draft
pop_amqp_method c type d = elim (lookup "rpc.method" d.rest) [
  | some v ↦ with_type ("rpc_" ⁀ type) (pop_method "rpc.method" d)
  | none ↦
      let place = place_of (lookup "amqp.exchange" d.rest) (lookup "amqp.routing_key" d.rest) in
      record d {
        request = record d.request { method = some (act_of c ⁀ place) };
        rest = erase "amqp.routing_key" (erase "amqp.exchange" d.rest);
      }
]

-- The part of `handle` for a span of the queue
unfoldable pub draft_amqp : SpanClass → Draft → Draft
draft_amqp c d =
    let type = type_of "amqp" d.request.is_out in
    pop_url "amqp.url" (pop_amqp_method c type (pop_code "rpc.code" (with_type type d)))

-- The keys that are taken from annotations
pub data Key : Type 0 where
  req_hdrs_key req_body_key resp_hdrs_key resp_body_key : Key

abbrev with_key : Key → String → Request → Request
with_key req_hdrs_key val r = record r { req_hdrs = some val }
with_key req_body_key val r = record r { req_body = some val }
with_key resp_hdrs_key val r = record r { resp_hdrs = some val }
with_key resp_body_key val r = record r { resp_body = some val }

-- `_anns_mapping` as `start` makes it, with the queue's library there
abbrev pub anns_mapping : Config → List (Key × String × ℕ)
anns_mapping cfg =
    (req_hdrs_key, "request_hdrs", cfg.max_hdrs_length)
    ∷ (req_body_key, "request_body", cfg.max_body_length)
    ∷ (resp_hdrs_key, "response_hdrs", cfg.max_hdrs_length)
    ∷ (resp_body_key, "response_body", cfg.max_body_length)
    ∷ (req_hdrs_key, "amqp_in_props", cfg.max_hdrs_length)
    ∷ (req_body_key, "amqp_in_body", cfg.max_body_length)
    ∷ (resp_hdrs_key, "amqp_out_props", cfg.max_hdrs_length)
    ∷ (resp_body_key, "amqp_out_body", cfg.max_body_length)
    ∷ []

-- `"\n\n".join([a for a, _ in values])`
abbrev join_values : List (String × ℕ) → String
join_values [] = ""
join_values ((a, ts) ∷ []) = a
join_values ((a, ts) ∷ more) = a ⁀ "\n\n" ⁀ join_values more

-- The loop over `_anns_mapping`
abbrev annotate_keys : List (Key × String × ℕ) → Annotations → Request → Request
annotate_keys [] anns r = r
annotate_keys ((key, ann_name, max_len) ∷ mapping) anns r = elim (lookup ann_name anns) [
  | some values ↦
      annotate_keys mapping (erase ann_name anns)
        (with_key key (clip max_len (join_values values)) r)
  | none ↦ annotate_keys mapping anns r
]

abbrev erase_all : List String → Dict String → Dict String
erase_all [] d = d
erase_all (name ∷ names) d = erase_all names (erase name d)

-- The tags that are not logged.
abbrev pub spare_tags : List String
spare_tags =
    "error" ∷ "error.class" ∷ "http.host" ∷ "http.path" ∷ "http.route" ∷ "http.request.size"
    ∷ "http.response.size" ∷ "amqp.channel_number" ∷ []

abbrev or_zero : Option ℕ → ℕ
or_zero none = 0
or_zero (some n) = n

-- `span.kind != KIND_SERVER`
abbrev not_server : Option String → Bool
not_server none = true
not_server (some kind) = not (kind == "SERVER")

-- `kwargs` as it begins, and `is_out` for a span that is logged
abbrev draft_begins : Config → Span → Dict String → Draft
draft_begins cfg s tags = record {
  request = record {
    service = cfg.name;
    type = none;
    trace_id = s.trace_id;
    stamp_begin = or_zero s.start_stamp;
    stamp_end = or_zero s.finish_stamp;
    is_out = not_server s.kind;
    url = none;
    method = none;
    req_hdrs = none;
    req_body = none;
    resp_hdrs = none;
    resp_body = none;
    status_code = none;
    error = none;
    tags = none;
  };
  code = none;
  rest = tags;
}

abbrev draft_of : SpanClass → Draft → Option Draft
draft_of http_span d = some (draft_http d)
draft_of amqp_in_span d = some (draft_amqp amqp_in_span d)
draft_of amqp_out_span d = some (draft_amqp amqp_out_span d)
draft_of other_span d = none

module _ (to_int : String → Option ℤ) (json_encode : Dict String → String)
    (merge_tags : Dict String → Dict String → Dict String)
    (merge_annotations : Annotations → Annotations → Annotations) where
  abbrev tags_text : Dict String → Option String
  tags_text [] = none
  tags_text (t ∷ ts) = some (json_encode (t ∷ ts))

  -- `Request(**kwargs)`, which raises where the code is no number
  abbrev request_of : Option String → Request → Made
  request_of none r = made r
  request_of (some code) r = elim (to_int code) [
    | some n ↦ made (record r { status_code = some n })
    | none ↦ invalid
  ]

  abbrev finish_draft : Config → Annotations → Draft → Made
  finish_draft cfg anns d =
      let d' = pop_error "error.message" d in
      let r = annotate_keys (anns_mapping cfg) anns d'.request in
      request_of d'.code (record r { tags = tags_text (erase_all spare_tags d'.rest) })

  -- `handle`, until it appends
  unfoldable pub make_request : Config → SpanClass → Span → Made
  unfolding draft_http draft_amqp get_tags4adapter get_annotations4adapter
  make_request cfg c s =
      elim (draft_of c
        (draft_begins cfg s (get_tags4adapter merge_tags "RequestsAdapter" true s))) [
          | none ↦ skipped
          | some d ↦
              finish_draft cfg (get_annotations4adapter merge_annotations "RequestsAdapter" true s)
                d
        ]
