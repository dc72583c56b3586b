-- ===== src/Prometheus.antt =====
-- ipapp/logger/adapters/prometheus.py: the histograms that the adapter makes from its configuration, and what it observes of
-- a span. The merge of two dicts and the client library's buckets are arguments; the library's check of label names is
-- `labels`.
pub mod Labels
pub mod Observed
mod Tests
use ipapp.Common.{
  ℕ, String, Bool, true, false, not, ◌&&◌, Option, none, some, List, [], ◌∷◌, ◌++◌, ◌==◌,
  if◌then◌else◌,
}
use ipapp.Common.Lists.{contains}
use ipapp.Common.Dict.{Dict, lookup, insert, keys}
use ipapp.Common.Exec.{Result, ok, err}
use ipapp.Spans.{Span, get_name4adapter, get_tags4adapter, duration}

-- For each histogram, the tag of each label; `le` stands for the buckets.
abbrev pub LabelsCfg : Type 0
LabelsCfg = Dict (Dict String)

abbrev pub default_le : String
default_le = "0.005,0.01,0.025,0.05,0.075,0.1,0.25,0.5,0.75,1.0,2.5,5.0,7.5,10.0,60.0,Inf"

-- `DEFAULT_HISTOGRAM_LABELS`
unfoldable pub default_histogram_labels : LabelsCfg
default_histogram_labels =
    (
      "http_in",
      ("le", default_le)
          ∷ ("route", "http.route")
          ∷ ("host", "http.host")
          ∷ ("method", "http.method")
          ∷ ("status_code", "http.status_code")
          ∷ ("error", "error.class")
          ∷ [],
    )
    ∷ (
      "http_out",
      ("le", default_le)
          ∷ ("host", "http.host")
          ∷ ("method", "http.method")
          ∷ ("status_code", "http.status_code")
          ∷ ("error", "error.class")
          ∷ [],
    )
    ∷ (
      "db_connection",
      ("le", default_le) ∷ ("error", "error.class") ∷ ("free", "db.pool.free") ∷ [],
    )
    ∷ ("db_xact_commited", ("le", default_le) ∷ ("error", "error.class") ∷ [])
    ∷ ("db_xact_reverted", ("le", default_le) ∷ ("error", "error.class") ∷ [])
    ∷ ("db_execute", ("le", default_le) ∷ ("error", "error.class") ∷ ("query", "db.query") ∷ [])
    ∷ ("db_executemany", ("le", default_le) ∷ ("error", "error.class") ∷ ("query", "db.query") ∷ [])
    ∷ ("db_callproc", ("le", default_le) ∷ ("error", "error.class") ∷ ("query", "db.proc") ∷ [])
    ∷ ("db_callfunc", ("le", default_le) ∷ ("error", "error.class") ∷ ("query", "db.func") ∷ [])
    ∷ ("db_prepare", ("le", default_le) ∷ ("error", "error.class") ∷ ("query", "db.query") ∷ [])
    ∷ (
      "db_execute_prepared",
      ("le", default_le) ∷ ("error", "error.class") ∷ ("query", "db.query") ∷ [],
    )
    ∷ ("db_fetch", ("le", default_le) ∷ ("error", "error.class") ∷ ("query", "db.query") ∷ [])
    ∷ ("db_query_one", ("le", default_le) ∷ ("error", "error.class") ∷ ("query", "db.query") ∷ [])
    ∷ ("db_query_all", ("le", default_le) ∷ ("error", "error.class") ∷ ("query", "db.query") ∷ [])
    ∷ (
      "db_query_one_prepared",
      ("le", default_le) ∷ ("error", "error.class") ∷ ("query", "db.query") ∷ [],
    )
    ∷ (
      "db_query_all_prepared",
      ("le", default_le) ∷ ("error", "error.class") ∷ ("query", "db.query") ∷ [],
    )
    ∷ ("db_cursor", ("le", default_le) ∷ ("error", "error.class") ∷ ("query", "db.query") ∷ [])
    ∷ (
      "db_cursor_prepared",
      ("le", default_le) ∷ ("error", "error.class") ∷ ("query", "db.query") ∷ [],
    )
    ∷ (
      "rpc_in",
      ("le", default_le)
          ∷ ("error", "error.class")
          ∷ ("method", "rpc.method")
          ∷ ("code", "rpc.code")
          ∷ [],
    )
    ∷ (
      "rpc_out",
      ("le", default_le)
          ∷ ("error", "error.class")
          ∷ ("method", "rpc.method")
          ∷ ("code", "rpc.code")
          ∷ [],
    )
    ∷ []

-- `DEFAULT_HISTOGRAM_DOCS`
abbrev pub default_histogram_docs : Dict String
default_histogram_docs =
    ("http_in", "Incoming HTTP request") ∷ ("http_out", "Outgoing HTTP request") ∷ []

-- `hist_labels` and `hist_docs` of `PrometheusConfig`
pub record Config : Type 0 where
  pub hist_labels : LabelsCfg
  pub hist_docs : Dict String

-- A `Histogram` of the client library, with what it has observed
pub record Histogram : Type 0 where
  pub doc : String
  pub labelnames : List String
  pub buckets : Option String
  pub observed : List (Dict String × ℕ)

-- The fields of `PrometheusAdapter`
pub record Adapter : Type 0 where
  pub p8s_hists : Dict Histogram
  pub p8s_hist_labels : LabelsCfg

-- The library raises for a span whose labels are not those of the histogram.
pub data P8sError : Type 0 where
  incorrect_label_names : P8sError

-- The loop over the labels of a histogram: the names but `le`, and the text of `le`
unfoldable pub labelnames_of : Dict String → List String
labelnames_of [] = []
labelnames_of ((label, tag) ∷ cfg) =
    let rest = labelnames_of cfg in if label == "le" then rest else label ∷ rest

-- `self.p8s_hist_docs.get(hist_name) or hist_name`
abbrev doc_or : Option String → String → String
doc_or none name = name
doc_or (some doc) name = if doc == "" then name else doc

abbrev pub histogram : Dict String → String → Dict String → Histogram
histogram docs name cfg = record {
  doc = doc_or (lookup name docs) name;
  labelnames = labelnames_of cfg;
  buckets = lookup "le" cfg;
  observed = [];
}

-- The loop of `start` over the histograms
unfoldable pub hists_of : Dict String → LabelsCfg → Dict Histogram
unfolding labelnames_of
hists_of docs [] = []
hists_of docs ((name, cfg) ∷ labels) = (name, histogram docs name cfg) ∷ hists_of docs labels

-- `start`; the first two arguments are `dict_merge` of labels and of docs
unfoldable pub start :
    (LabelsCfg → LabelsCfg → LabelsCfg)
    → (Dict String → Dict String → Dict String)
    → Config
    → Adapter
unfolding hists_of default_histogram_labels
start merge_labels merge_docs cfg =
    let labels = merge_labels default_histogram_labels cfg.hist_labels in
    record {
      p8s_hists = hists_of (merge_docs default_histogram_docs cfg.hist_docs) labels;
      p8s_hist_labels = labels;
    }

-- `tag_val or ''`
abbrev pub or_text : Option String → String
or_text none = ""
or_text (some v) = v

-- The loop of `handle` over the labels
unfoldable pub labels_of : Dict String → Dict String → Dict String
labels_of tags [] = []
labels_of tags ((label, tag) ∷ cfg) =
    let rest = labels_of tags cfg in
    if label == "le" then rest else (label, or_text (lookup tag tags)) ∷ rest

abbrev pub all_in : List String → List String → Bool
all_in [] ys = true
all_in (x ∷ xs) ys = contains x ys && all_in xs ys

-- `hist.labels(**labels).observe(duration)`, and `hist.observe(duration)` if there are no labels
abbrev pub observe : Dict String → ℕ → Histogram → Result P8sError Histogram
observe labels seconds hist =
    if all_in (keys labels) hist.labelnames && all_in hist.labelnames (keys labels)
    then ok (record hist { observed = hist.observed ++ (labels, seconds) ∷ [] })
    else err incorrect_label_names

abbrev pub cfg_of : Option (Dict String) → Dict String
cfg_of none = []
cfg_of (some cfg) = cfg

abbrev pub put_hist : String → Result P8sError Histogram → Adapter → Result P8sError Adapter
put_hist name (ok hist) a = ok (record a { p8s_hists = insert name hist a.p8s_hists })
put_hist name (err e) a = err e

abbrev pub observed_in :
    String → Dict String → ℕ → Option Histogram → Adapter → Result P8sError Adapter
observed_in name tags seconds none a = ok a
observed_in name tags seconds (some hist) a =
    put_hist name (observe (labels_of tags (cfg_of (lookup name a.p8s_hist_labels))) seconds hist) a

abbrev pub handle_named : Option String → Dict String → ℕ → Adapter → Result P8sError Adapter
handle_named none tags seconds a = ok a
handle_named (some name) tags seconds a = observed_in name tags seconds (lookup name a.p8s_hists) a

-- `handle`; the first argument is `dict_merge` of two dicts
unfoldable pub handle :
    (Dict String → Dict String → Dict String) → ℕ → Span → Adapter → Result P8sError Adapter
unfolding labels_of
handle merge now s a =
    handle_named (get_name4adapter "PrometheusAdapter" true s)
      (get_tags4adapter merge "PrometheusAdapter" true s) (duration now s) a
