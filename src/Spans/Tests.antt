-- ===== src/Spans/Tests.antt =====
-- The theorems about ipapp/logger/span.py and ipapp/logger/logger.py at concrete spans.
use ipapp.Common.{◌≡◌, refl, String, Bool, true, false, Option, none, some, [], ◌∷◌, ◌==◌, arith}
use ipapp.Common.Int.{pos}
use ipapp.Common.Dict.{Dict, lookup, insert, lookup-insert}
use ipapp.Common.Exec.{ok}
use ipapp.Spans.{Span}
use ipapp.Spans.Tags.{IsMerge, over}
use ipapp.Spans.Headers.{Zipkin, IsZipkin}
use ipapp.Spans.Tree.{node, Nodes, leaf, child, callbacks}
use ipapp.Spans.Tree.Once.{callbacks-postorder, postorder}
use ipapp.Spans.Logger.{Logger, new_logger, stop_begins}
use ipapp.Spans.Logger.Drain.{starts, finishes, run, stop_begins-run}

abbrev merge : Dict String → Dict String → Dict String
merge d [] = d
merge d ((k, v) ∷ e) = insert k v (merge d e)

lookup-merge :
    (k : String) (d e : Dict String) → lookup k (merge d e) ≡ over (lookup k d) (lookup k e)
lookup-merge k d [] = refl
lookup-merge k d ((j, v) ∷ e) = ground (arith, lookup-insert j k v (merge d e), lookup-merge k d e)

merge-IsMerge : IsMerge merge
merge-IsMerge = record { overrides = lookup-merge }

abbrev plain : Span
plain = record {
  trace_id = "t";
  id = "1";
  parent_id = none;
  skip = true;
  name = "call";
  name4adapter = [];
  kind = none;
  annotations = [];
  annotations4adapter = [];
  tags = ("url", "/a") ∷ [];
  tags4adapter = ("zipkin", ("url", "/b") ∷ ("code", "7") ∷ []) ∷ [];
  start_stamp = none;
  finish_stamp = none;
  exception = none;
}

abbrev yes_or_no : Option String → Option Bool
yes_or_no none = none
yes_or_no (some t) = some (t == "1")

abbrev zipkin : Zipkin
zipkin = record {
  trace_id_header = "x-b3-traceid";
  span_id_header = "x-b3-spanid";
  parent_id_header = "x-b3-parentspanid";
  flags_header = "x-b3-flags";
  sampled_header = "x-b3-sampled";
  lower = λ t. t;
  parse_sampled_header = λ d. yes_or_no (lookup "x-b3-sampled" d);
}

zipkin-IsZipkin : IsZipkin zipkin
zipkin-IsZipkin = record {
  distinct = (refl, (refl, (refl, (refl, (refl, tt)))));
  sampled_yes = λ d h. rw h refl;
  sampled_no = λ d h. rw h refl;
}

-- Span 1 has the children 2 and 4, span 2 the child 3.
abbrev family : Nodes
family =
    child (node 2 false true false (child (node 3 false true false leaf) leaf))
      (child (node 4 false true false leaf) leaf)

callbacks-postorder_example :
    (callbacks (3 ∷ 2 ∷ 4 ∷ 1 ∷ []) (node 1 false true false family)).1 ≡ 3 ∷ 2 ∷ 4 ∷ 1 ∷ []
unfolding callbacks postorder
callbacks-postorder_example =
    callbacks-postorder 1 family (3 ∷ 2 ∷ 4 ∷ [])
      ((refl, refl, refl, ((refl, refl, refl, tt), tt)), ((refl, refl, refl, tt), tt))
      (refl, (refl, (refl, tt)))

-- Two spans are under way.
abbrev busy : Logger
busy = record new_logger { started = true; started_spans = pos 2 }

stop_begins-run_example :
    ((stop_begins busy).0 ≡ ok true)
    × ((run (finishes ∷ starts ∷ finishes ∷ finishes ∷ []) (stop_begins busy).1).0 ≡ ok tt)
    × ((run
          (finishes ∷ starts ∷ finishes ∷ finishes ∷ [])
          (stop_begins busy).1).1.all_spans_finished
        ≡ true)
stop_begins-run_example =
    stop_begins-run 1 busy (finishes ∷ starts ∷ finishes ∷ finishes ∷ []) refl refl refl
      (omega arith)
