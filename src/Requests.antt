-- ===== src/Requests.antt =====
-- ipapp/logger/adapters/requests.py: the rows of the log of requests, and the adapter's configuration.
pub mod Draft
pub mod Queue
pub mod Rows
pub mod Kept
mod Tests
use ipapp.Common.{ℕ, String, Bool, Option}
use ipapp.Common.Int.{ℤ}

pub record Request : Type 0 where
  pub service : Option String
  pub type : Option String
  pub trace_id : String
  pub stamp_begin : ℕ
  pub stamp_end : ℕ
  pub is_out : Bool
  pub url : Option String
  pub method : Option String
  pub req_hdrs : Option String
  pub req_body : Option String
  pub resp_hdrs : Option String
  pub resp_body : Option String
  pub status_code : Option ℤ
  pub error : Option String
  pub tags : Option String

-- The fields of `RequestsConfig` that are read.
pub record Config : Type 0 where
  pub name : Option String
  pub send_max_count : ℕ
  pub max_hdrs_length : ℕ
  pub max_body_length : ℕ
  pub max_queue_size : ℕ

-- The class of a span
pub data SpanClass : Type 0 where
  http_span amqp_in_span amqp_out_span other_span : SpanClass

-- How `handle` ends before it appends: the span is not logged, its code is no number, or there is a request.
pub data Made : Type 0 where
  skipped invalid : Made
  made : Request → Made
