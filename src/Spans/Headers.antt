-- ===== src/Spans/Headers.antt =====
-- The headers of a span of ipapp/logger/span.py: `to_headers` and `from_headers`. The names of the headers and
-- the reading of the sampling header are the aiozipkin library's, and are parameters, as is the
-- lower case of a text.
use text.Mathlib.TextPositions.{eq_refl}
use ipapp.Common.{
  String, ◌≡◌, ap, ◌∙◌, ◌++◌, Bool-cases, Option-cases, inl, inr, Bool, true, false, not, Option,
  none, some, [], ◌∷◌, ◌==◌, eq_iff, arith, if◌then◌else◌,
}
use ipapp.Common.Lists.{Distinct}
use ipapp.Common.Dict.{Dict, lookup, insert, lookup-insert}
use ipapp.Spans.{Span, new_span}

-- The aiozipkin library's names of headers, in lower case where they are read.
pub record Zipkin : Type 0 where
  pub trace_id_header : String
  pub span_id_header : String
  pub parent_id_header : String
  pub flags_header : String
  pub sampled_header : String
  pub lower : String → String
  pub parse_sampled_header : Dict String → Option Bool

abbrev insert_parent : String → Option String → Dict String → Dict String
insert_parent header none d = d
insert_parent header (some parent) d = insert header parent d

-- `skip`, for the span itself
abbrev pub skipped : Span → Span
skipped s = record s { skip = true }

abbrev skip_unsampled : Option Bool → Span → Span
skip_unsampled (some false) s = skipped s
skip_unsampled _ s = s

module _ (z : Zipkin) where
  -- `to_headers`
  unfoldable pub to_headers : Span → Dict String
  to_headers s = insert_parent z.parent_id_header s.parent_id (
      insert z.sampled_header (if not s.skip then "1" else "0") (
        insert z.flags_header "0"
          (insert z.span_id_header s.id (insert z.trace_id_header s.trace_id []))))

  -- `{k.lower(): v for k, v in headers.items()}`
  abbrev pub lower_keys : Dict String → Dict String → Dict String
  lower_keys [] d = d
  lower_keys ((k, v) ∷ headers) d = lower_keys headers (insert (z.lower k) v d)

  abbrev lowered : Option (Dict String) → Dict String
  lowered none = []
  lowered (some headers) = lower_keys headers []

  abbrev span_of : (random_trace_id random_id : String) → Option String → Option String → Span
  span_of random_trace_id random_id none parent = new_span random_trace_id random_id none
  span_of random_trace_id random_id (some trace) parent =
      new_span (if trace == "" then random_trace_id else trace) random_id parent

  -- `from_headers`; `__init__` makes a trace id where there is none, or an empty one.
  unfoldable pub from_headers : (random_trace_id random_id : String) → Option (Dict String) → Span
  unfolding new_span
  from_headers random_trace_id random_id headers =
      let d = lowered headers in
      skip_unsampled (z.parse_sampled_header d) (
        span_of random_trace_id random_id (lookup (z.lower z.trace_id_header) d)
          (lookup (z.lower z.span_id_header) d))

  -- What the library documents: the five names differ, also in lower case, and the sampling header
  -- says yes by "1" and no by "0".
  pub record IsZipkin : Type 0 where
    pub distinct : Distinct (
        z.lower z.trace_id_header
        ∷ z.lower z.span_id_header
        ∷ z.lower z.flags_header
        ∷ z.lower z.sampled_header
        ∷ z.lower z.parent_id_header
        ∷ [])
    pub sampled_yes :
        (d : Dict String)
        → lookup (z.lower z.sampled_header) d ≡ some "1"
        → z.parse_sampled_header d ≡ some true
    pub sampled_no :
        (d : Dict String)
        → lookup (z.lower z.sampled_header) d ≡ some "0"
        → z.parse_sampled_header d ≡ some false

  lower_apart : (a b : String) → (z.lower a == z.lower b) ≡ false → (b == a) ≡ false
  lower_apart a b h = elim (Bool-cases (b == a)) [
    | inl e ↦
        let same : z.lower b ≡ z.lower a = ap z.lower ((eq_iff b a).0 e) in
        absurd (ground (arith, h, eq_iff (z.lower a) (z.lower b), same))
    | inr e ↦ e
  ]

  abbrev fixed_headers : Span → Dict String
  fixed_headers s =
      (z.trace_id_header, s.trace_id)
      ∷ (z.span_id_header, s.id)
      ∷ (z.flags_header, "0")
      ∷ (z.sampled_header, if not s.skip then "1" else "0")
      ∷ []

  abbrev parent_header : Option String → Dict String
  parent_header none = []
  parent_header (some parent) = (z.parent_id_header, parent) ∷ []

  module _ (law : IsZipkin) where
    raw-Distinct : Distinct (
        z.parent_id_header ∷ z.sampled_header ∷ z.flags_header ∷ z.span_id_header
        ∷ z.trace_id_header ∷ [])
    raw-Distinct =
        let d = law.distinct in
        ground (
          arith,
          lower_apart z.span_id_header z.trace_id_header,
          lower_apart z.flags_header z.trace_id_header,
          lower_apart z.flags_header z.span_id_header,
          lower_apart z.sampled_header z.trace_id_header,
          lower_apart z.sampled_header z.span_id_header,
          lower_apart z.sampled_header z.flags_header,
          lower_apart z.parent_id_header z.trace_id_header,
          lower_apart z.parent_id_header z.span_id_header,
          lower_apart z.parent_id_header z.flags_header,
          lower_apart z.parent_id_header z.sampled_header,
        )

    to_headers-fixed : (s : Span) → to_headers s ≡ fixed_headers s ++ parent_header s.parent_id
    unfolding to_headers
    to_headers-fixed s =
        let d = raw-Distinct in
        elim (Option-cases s.parent_id) [
          | inl e ↦ rw e (ground arith)
          | inr (parent, e) ↦ rw e (ground arith)
        ]

    lookup-to_headers :
        (s : Span)
        → let d = lowered (some (to_headers s)) in
          (lookup (z.lower z.trace_id_header) d ≡ some s.trace_id)
          × (lookup (z.lower z.span_id_header) d ≡ some s.id)
          × (lookup (z.lower z.sampled_header) d ≡ some (if not s.skip then "1" else "0"))
    lookup-to_headers s =
        let d = law.distinct in
        rw (to_headers-fixed s) (elim (Option-cases s.parent_id) [
          | inl e ↦ rw e (
              simp lookup-insert (
                ground (
                  arith,
                  eq_refl (z.lower z.trace_id_header),
                  eq_refl (z.lower z.span_id_header),
                  eq_refl (z.lower z.sampled_header),
                )))
          | inr (parent, e) ↦ rw e (
              simp lookup-insert (
                ground (
                  arith,
                  eq_refl (z.lower z.trace_id_header),
                  eq_refl (z.lower z.span_id_header),
                  eq_refl (z.lower z.sampled_header),
                )))
        ])

    -- What a span sends in its headers, the other side reads: its span has the same trace id, which is not
    -- empty, the sender's id as its parent, an id of its own, and is skipped exactly if
    -- the sender is; and nothing else is set.
    pub from_headers-to_headers :
        (random_trace_id random_id : String) (s : Span)
        → (s.trace_id == "") ≡ false
        → from_headers random_trace_id random_id (some (to_headers s))
          ≡ record (new_span s.trace_id random_id (some s.id)) { skip = s.skip }
    unfolding from_headers new_span
    from_headers-to_headers random_trace_id random_id s made =
        let d = lowered (some (to_headers s)) in
        let (trace, span, sampled) = lookup-to_headers s in
        elim (Bool-cases s.skip) [
          | inl e ↦
              rw (law.sampled_no d (sampled ∙ ground (arith, e)), trace, span, made)
                (ground (arith, e))
          | inr e ↦
              rw (law.sampled_yes d (sampled ∙ ground (arith, e)), trace, span, made)
                (ground (arith, e))
        ]
