-- ===== src/Prometheus/Observed.antt =====
-- What `PrometheusAdapter` of ipapp/logger/adapters/prometheus.py observes of the spans that it handles.
use ipapp.Common.{
  ℕ, ◌≡◌, refl, sym, ap, subst, ◌∙◌, String, Bool, true, false, Option, none, some, List, [], ◌∷◌,
  map, ◌++◌, ◌==◌, eq_iff, if◌then◌else◌, Bool-cases, inl, inr,
}
use mathlib.Core.List.{append-nil, append_assoc}
use ipapp.Common.Dict.{Dict, lookup, insert, lookup-insert}
use ipapp.Common.Exec.{Result, ok, err}
use ipapp.Spans.{Span, get_name4adapter, get_tags4adapter, duration}
use ipapp.Prometheus.{
  LabelsCfg, Config, Histogram, Adapter, P8sError, start, labels_of, or_text, cfg_of, put_hist,
  observed_in, handle_named, handle,
}
use ipapp.Prometheus.Labels.{Fits, IsReady, start-IsReady, observe-Fits}

-- The histograms of the adapter after these spans
abbrev and_then :
    Result P8sError Adapter → (Adapter → Result P8sError Adapter) → Result P8sError Adapter
and_then (ok a) f = f a
and_then (err e) f = err e

abbrev pub handle_all :
    (Dict String → Dict String → Dict String) → ℕ → List Span → Adapter → Result P8sError Adapter
handle_all merge now [] a = ok a
handle_all merge now (s ∷ spans) a = and_then (handle merge now s a) (handle_all merge now spans)

-- The name of a span for the adapter
abbrev pub is_named : String → Option String → Bool
is_named name none = false
is_named name (some n) = n == name

-- The configured labels that a histogram has: all but `le`
abbrev pub without_le : Dict String → Dict String
without_le [] = []
without_le (entry ∷ cfg) = if entry.0 == "le" then without_le cfg else entry ∷ without_le cfg

-- A label with the text of its tag, or the empty text where there is no such tag
abbrev pub label_text : Dict String → String × String → String × String
label_text tags (label, tag) = (label, elim (lookup tag tags) [ none ↦ "" | some v ↦ v ])

-- What these spans tell a histogram of this name: labels and duration of each span of the name, in order
abbrev pub observations_of :
    (Dict String → Dict String → Dict String)
    → ℕ
    → String
    → Dict String
    → List Span
    → List (Dict String × ℕ)
observations_of merge now name cfg [] = []
observations_of merge now name cfg (s ∷ spans) =
    let rest = observations_of merge now name cfg spans in
    let tags = get_tags4adapter merge "PrometheusAdapter" true s in
    if is_named name (get_name4adapter "PrometheusAdapter" true s)
    then (map (label_text tags) (without_le cfg), duration now s) ∷ rest
    else rest

-- The same with the labels as `handle` makes them
abbrev observed_of :
    (Dict String → Dict String → Dict String)
    → ℕ
    → String
    → Dict String
    → List Span
    → List (Dict String × ℕ)
observed_of merge now name cfg [] = []
observed_of merge now name cfg (s ∷ spans) =
    let rest = observed_of merge now name cfg spans in
    if is_named name (get_name4adapter "PrometheusAdapter" true s)
    then (labels_of (get_tags4adapter merge "PrometheusAdapter" true s) cfg, duration now s) ∷ rest
    else rest

or_text-elim : (o : Option String) → or_text o ≡ (elim o [ none ↦ "" | some v ↦ v ])
or_text-elim none = refl
or_text-elim (some v) = refl

labels_of-text :
    (tags cfg : Dict String) → labels_of tags cfg ≡ map (label_text tags) (without_le cfg)
unfolding labels_of
labels_of-text tags [] = refl
labels_of-text tags ((label, tag) ∷ cfg) = elim (Bool-cases (label == "le")) [
  | inl e ↦ rw e (labels_of-text tags cfg)
  | inr e ↦ rw e (
      ap (λ rest. (label, or_text (lookup tag tags)) ∷ rest) (labels_of-text tags cfg)
      ∙ ap (λ v. (label, v) ∷ map (label_text tags) (without_le cfg))
          (or_text-elim (lookup tag tags)))
]

observed_of-observations :
    (merge : Dict String → Dict String → Dict String) (now : ℕ) (name : String) (cfg : Dict String)
    (spans : List Span)
    → observed_of merge now name cfg spans ≡ observations_of merge now name cfg spans
observed_of-observations merge now name cfg [] = refl
observed_of-observations merge now name cfg (s ∷ spans) =
    let b = is_named name (get_name4adapter "PrometheusAdapter" true s) in
    ap
      (λ os.
        if b
        then (labels_of (get_tags4adapter merge "PrometheusAdapter" true s) cfg, duration now s)
          ∷ os
        else os)
      (observed_of-observations merge now name cfg spans)
    ∙ ap
        (λ labels.
          if b
          then (labels, duration now s) ∷ observations_of merge now name cfg spans
          else observations_of merge now name cfg spans)
        (labels_of-text (get_tags4adapter merge "PrometheusAdapter" true s) cfg)

abbrev with_observed : List (Dict String × ℕ) → Option Histogram → Option Histogram
with_observed os none = none
with_observed os (some h) = some (record h { observed = h.observed ++ os })

-- What one span leaves, if its name is this
abbrev Observes : Adapter → Option String → Dict String → ℕ → Result P8sError Adapter → Type 0
Observes a n tags seconds r =
    (a' : Adapter) × (r ≡ ok a')
    × (a'.p8s_hist_labels ≡ a.p8s_hist_labels)
    × ((name : String)
        → lookup name a'.p8s_hists ≡ (
            if is_named name n
            then with_observed
                ((labels_of tags (cfg_of (lookup name a.p8s_hist_labels)), seconds) ∷ [])
                (lookup name a.p8s_hists)
            else lookup name a.p8s_hists))

observed_in-Observes :
    (a : Adapter) (n : String) (tags : Dict String) (seconds : ℕ) (o : Option Histogram)
    → lookup n a.p8s_hists ≡ o
    → Fits o (lookup n a.p8s_hist_labels)
    → Observes a (some n) tags seconds (observed_in n tags seconds o a)
observed_in-Observes a n tags seconds none found fits = (
  a,
  refl,
  refl,
  λ name. elim (Bool-cases (n == name)) [
    | inl e ↦ rw (e, sym ((eq_iff n name).0 e), found) refl
    | inr e ↦ rw e refl
  ],
)
observed_in-Observes a n tags seconds (some h) found fits =
    let labels = labels_of tags (cfg_of (lookup n a.p8s_hist_labels)) in
    let h' = record h { observed = h.observed ++ (labels, seconds) ∷ [] } in
    (
      record a { p8s_hists = insert n h' a.p8s_hists },
      ap (λ r. put_hist n r a) (observe-Fits tags (lookup n a.p8s_hist_labels) seconds h fits),
      refl,
      λ name. rw (lookup-insert n name h' a.p8s_hists) (elim (Bool-cases (n == name)) [
        | inl e ↦ rw e (
            subst
              (λ m.
                some h'
                ≡ with_observed
                    ((labels_of tags (cfg_of (lookup m a.p8s_hist_labels)), seconds) ∷ [])
                    (lookup m a.p8s_hists))
              ((eq_iff n name).0 e) (rw found refl))
        | inr e ↦ rw e refl
      ]),
    )

with_observed-nil : (o : Option Histogram) → with_observed [] o ≡ o
with_observed-nil none = refl
with_observed-nil (some h) = ap (λ os. some (record h { observed = os })) (append-nil h.observed)

with_observed-append :
    (xs ys : List (Dict String × ℕ)) (o : Option Histogram)
    → with_observed ys (with_observed xs o) ≡ with_observed (xs ++ ys) o
with_observed-append xs ys none = refl
with_observed-append xs ys (some h) =
    ap (λ os. some (record h { observed = os })) (append_assoc h.observed xs ys)

with_observed-Fits :
    (xs : List (Dict String × ℕ)) (o : Option Histogram) (cfg : Option (Dict String))
    → Fits o cfg
    → Fits (with_observed xs o) cfg
with_observed-Fits xs none cfg h = tt
with_observed-Fits xs (some x) cfg h = h

handle_named-Observes :
    (a : Adapter) (n : Option String) (tags : Dict String) (seconds : ℕ)
    → IsReady a
    → Observes a n tags seconds (handle_named n tags seconds a)
handle_named-Observes a none tags seconds ready = (a, refl, refl, λ name. refl)
handle_named-Observes a (some n) tags seconds ready =
    observed_in-Observes a n tags seconds (lookup n a.p8s_hists) refl (ready n)

if-Fits :
    (b : Bool) (xs : List (Dict String × ℕ)) (o : Option Histogram) (cfg : Option (Dict String))
    → Fits o cfg
    → Fits (if b then with_observed xs o else o) cfg
if-Fits true xs o cfg h = with_observed-Fits xs o cfg h
if-Fits false xs o cfg h = h

with_observed-if :
    (b : Bool) (x : Dict String × ℕ) (rest : List (Dict String × ℕ)) (o : Option Histogram)
    → with_observed rest (if b then with_observed (x ∷ []) o else o)
      ≡ with_observed (if b then x ∷ rest else rest) o
with_observed-if true x rest o = with_observed-append (x ∷ []) rest o
with_observed-if false x rest o = refl

-- What these spans leave of an adapter
abbrev AllObserve :
    (Dict String → Dict String → Dict String)
    → ℕ
    → List Span
    → Adapter
    → Result P8sError Adapter
    → Type 0
AllObserve merge now spans a r =
    (a' : Adapter) × (r ≡ ok a')
    × ((name : String)
        → lookup name a'.p8s_hists
          ≡ with_observed
              (observed_of merge now name (cfg_of (lookup name a.p8s_hist_labels)) spans)
              (lookup name a.p8s_hists))

handle_all-observe :
    (merge : Dict String → Dict String → Dict String) (now : ℕ) (spans : List Span) (a : Adapter)
    → IsReady a
    → AllObserve merge now spans a (handle_all merge now spans a)
unfolding handle
handle_all-observe merge now [] a ready =
    (a, refl, λ name. sym (with_observed-nil (lookup name a.p8s_hists)))
handle_all-observe merge now (s ∷ spans) a ready =
    let n = get_name4adapter "PrometheusAdapter" true s in
    let tags = get_tags4adapter merge "PrometheusAdapter" true s in
    let (a', handled, labels, hists) = handle_named-Observes a n tags (duration now s) ready in
    let ready' : IsReady a' = λ name.
      subst (λ l. Fits (lookup name a'.p8s_hists) (lookup name l)) (sym labels)
        (subst (λ o. Fits o (lookup name a.p8s_hist_labels)) (sym (hists name))
          (if-Fits (is_named name n) _ (lookup name a.p8s_hists) (lookup name a.p8s_hist_labels)
            (ready name))) in
    let (b, rest, hists') = handle_all-observe merge now spans a' ready' in
    (
      b,
      ap (λ r. and_then r (handle_all merge now spans)) handled ∙ rest,
      λ name.
          hists' name
          ∙ ap
              (λ l.
                with_observed (observed_of merge now name (cfg_of (lookup name l)) spans)
                  (lookup name a'.p8s_hists))
              labels
          ∙ ap
              (with_observed
                (observed_of merge now name (cfg_of (lookup name a.p8s_hist_labels)) spans))
              (hists name)
          ∙ with_observed-if (is_named name n) _ _ (lookup name a.p8s_hists),
    )

-- An adapter that has started handles any spans without an exception: the client library never gets other label names
-- than those of the histogram. Afterwards each histogram has observed the spans of its name, in order, each with its
-- duration and, for each label of the configuration but `le`, the tag of the span, or an empty text.
pub handle-observes :
    (merge_labels : LabelsCfg → LabelsCfg → LabelsCfg)
    (merge : Dict String → Dict String → Dict String) (cfg : Config) (now : ℕ) (spans : List Span)
    → let a = start merge_labels merge cfg in
      (a' : Adapter) × (handle_all merge now spans a ≡ ok a')
      × ((name : String) (h : Histogram)
          → lookup name a.p8s_hists ≡ some h
          → lookup name a'.p8s_hists
            ≡ some (record h {
              observed =
                  h.observed
                  ++ observations_of merge now name (cfg_of (lookup name a.p8s_hist_labels)) spans;
            }))
handle-observes merge_labels merge cfg now spans =
    let a = start merge_labels merge cfg in
    let (a', handled, hists) =
      handle_all-observe merge now spans a (start-IsReady merge_labels merge cfg) in
    (
      a',
      handled,
      λ name h found.
          hists name
          ∙ ap
              (with_observed
                (observed_of merge now name (cfg_of (lookup name a.p8s_hist_labels)) spans))
              found
          ∙ ap (λ os. some (record h { observed = h.observed ++ os }))
              (observed_of-observations merge now name (cfg_of (lookup name a.p8s_hist_labels))
                spans),
    )
