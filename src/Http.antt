-- ===== src/Http.antt =====
-- ipapp/http/_base.py: what the annotations of a HTTP request or response add to a span.
pub mod Server
pub mod Health
mod Tests
use ipapp.Common.{ℕ, String, Bool, Option, none, some}
use ipapp.Common.Dict.{Dict}
use ipapp.Spans.{Span, annotate, annotate4adapter}

-- Operations on texts, and what the libraries make of headers, bytes and addresses; `decode` has the encoding first.
pub record Texts : Type 0 where
  pub upper : String → String
  pub lower : String → String
  pub hdrs_text : Dict String → String
  pub decode : Option String → String → String
  pub json_key : String → String → String
  pub mask_url : String → String
  pub status_text : ℕ → String

-- `_span_annotate_req_hdrs` and its like: the content, and for one adapter its JSON
abbrev pub annotated : Texts → ℕ → (kind content : String) → (ts : ℕ) → Span → Span
annotated texts now kind content ts s =
    annotate4adapter now "ZipkinAdapter" kind (texts.json_key kind content) (some ts)
      (annotate now kind content (some ts) s)
