-- ===== src/Requests/Tests.antt =====
-- The adapter of ipapp/logger/adapters/requests.py at concrete spans and databases.
use ipapp.Common.{
  ◌≡◌, refl, String, true, false, Option, none, some, [], ◌∷◌, ◌++◌, arith, ◌==◌, if◌then◌else◌,
}
use ipapp.Common.Int.{ℤ, pos}
use ipapp.Common.Text.{clip}
use ipapp.Spans.{Span, new_span}
use ipapp.Requests.{Request, Config, skipped, made, http_span, amqp_in_span, other_span}
use ipapp.Requests.Draft.{make_request}
use ipapp.Requests.Queue.{new_adapter, unreachable, refuses, works, start, stop, send, handle}
use ipapp.Requests.Rows.{row}
use ipapp.Requests.Kept.{handles, rounds, run, Ends, stop-writes_all}

abbrev cfg : Config
cfg = record {
  name = some "orders";
  send_max_count = 2;
  max_hdrs_length = 8;
  max_body_length = 3;
  max_queue_size = 3;
}

abbrev to_int : String → Option ℤ
to_int s = if s == "200" then some (pos 200) else none

abbrev first : Span
first = record (new_span "t1" "s1" none) {
  kind = some "SERVER";
  start_stamp = some 5;
  finish_stamp = some 9;
  tags =
      ("http.url", "/a")
      ∷ ("http.method", "GET")
      ∷ ("http.status_code", "200")
      ∷ ("error", "true")
      ∷ ("who", "me")
      ∷ [];
  annotations = ("request_body", ("abcd", 1) ∷ []) ∷ [];
}

abbrev second : Span
second = record (new_span "t2" "s2" none) { tags = ("amqp.routing_key", "jobs") ∷ [] }

abbrev first_request : Request
first_request = record {
  service = some "orders";
  type = some "http_in";
  trace_id = "t1";
  stamp_begin = 5;
  stamp_end = 9;
  is_out = false;
  url = some "/a";
  method = some "GET";
  req_hdrs = none;
  req_body = some "abc";
  resp_hdrs = none;
  resp_body = none;
  status_code = some (pos 200);
  error = none;
  tags = some "{...}";
}

http_row :
    make_request to_int (λ tags. "{...}") (λ d e. d ++ e) (λ d e. d ++ e) cfg http_span first
    ≡ made first_request
unfolding make_request new_span clip
http_row = refl

abbrev second_request : Request
second_request = record first_request {
  service = some "orders";
  type = some "amqp_out";
  trace_id = "t2";
  stamp_begin = 0;
  stamp_end = 0;
  is_out = true;
  url = none;
  method = some "receive: rk:jobs";
  req_body = none;
  status_code = none;
  tags = none;
}

amqp_row :
    make_request to_int (λ tags. "{...}") (λ d e. d ++ e) (λ d e. d ++ e) cfg amqp_in_span second
    ≡ made second_request
unfolding make_request new_span
amqp_row = refl

no_row :
    make_request to_int (λ tags. "{...}") (λ d e. d ++ e) (λ d e. d ++ e) cfg other_span second
    ≡ skipped
unfolding make_request new_span
no_row = refl

-- A request is gone when its statement fails.
lost_first :
    (send cfg refuses
      (run cfg (handles (made first_request) ∷ []) (start works new_adapter).1)).1.queue
    ≡ some []
unfolding send start run handle
lost_first = refl

stop-writes_all_example :
    Ends
      (stop 1 cfg
        (λ n. works)
        (run cfg
          (handles (made first_request)
            ∷ rounds unreachable
            ∷ handles skipped
            ∷ handles (made second_request)
            ∷ [])
          (start works new_adapter).1))
      (row first_request ∷ row second_request ∷ [])
stop-writes_all_example =
    stop-writes_all cfg
      (handles (made first_request)
        ∷ rounds unreachable
        ∷ handles skipped
        ∷ handles (made second_request)
        ∷ [])
      (λ n. works) 0 (omega arith) tt refl
