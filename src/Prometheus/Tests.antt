-- ===== src/Prometheus/Tests.antt =====
-- The theorem about ipapp/logger/adapters/prometheus.py at two spans of queries and one of another name.
use ipapp.Common.{String, List, ◌≡◌, refl, none, some, [], ◌∷◌, ◌++◌}
use ipapp.Common.Dict.{Dict, lookup}
use ipapp.Common.Exec.{ok}
use ipapp.Spans.{
  Span, new_span, tag, set_name4adapter, get_name4adapter, get_tags4adapter, duration,
}
use ipapp.Prometheus.{Config, Histogram, Adapter, start, cfg_of, labels_of}
use ipapp.Prometheus.Observed.{handle_all, observations_of, handle-observes}

unfoldable query_span : String → Span
query_span query =
    set_name4adapter "PrometheusAdapter" "db_execute" (tag "db.query" query (new_span "t" "s" none))

abbrev spans : List Span
spans = query_span "set_pin" ∷ new_span "t" "u" none ∷ query_span "block" ∷ []

abbrev config : Config
config = record { hist_labels = []; hist_docs = [] }

abbrev first : Dict String → Dict String → Dict String
first d e = d

abbrev started : Adapter
started = start (λ d e. d) first config

handle-observes_example :
    (a' : Adapter) × (handle_all first 9 spans started ≡ ok a')
    × ((name : String) (h : Histogram)
        → lookup name started.p8s_hists ≡ some h
        → lookup name a'.p8s_hists
          ≡ some (record h {
            observed =
                h.observed
                ++ observations_of first 9 name
                    (cfg_of (lookup name started.p8s_hist_labels))
                    spans;
          }))
handle-observes_example = handle-observes (λ d e. d) first config 9 spans

observations-db_execute :
    observations_of first 9 "db_execute"
      (cfg_of (lookup "db_execute" started.p8s_hist_labels))
      spans
    ≡ (("error", "") ∷ ("query", "set_pin") ∷ [], 0)
      ∷ (("error", "") ∷ ("query", "block") ∷ [], 0)
      ∷ []
unfolding start query_span get_name4adapter set_name4adapter tag new_span labels_of duration
    get_tags4adapter
observations-db_execute = refl
