-- ===== src/Prometheus/Labels.antt =====
-- The labels of the histograms of ipapp/logger/adapters/prometheus.py are those of the configuration.
use ipapp.Common.{
  ℕ, ◌≡◌, refl, sym, ap, ◌∙◌, String, true, ◌&&◌, Option, none, some, List, [], ◌∷◌, ◌++◌, ◌==◌,
  eq_iff, arith, if◌then◌else◌, Bool-cases, inl, inr,
}
use ipapp.Common.Dict.{Dict, lookup, keys}
use ipapp.Common.Exec.{ok, err}
use ipapp.Prometheus.{
  LabelsCfg, Config, Histogram, Adapter, labelnames_of, hists_of, start, labels_of, all_in, observe,
  cfg_of, incorrect_label_names,
}

keys-labels_of : (tags cfg : Dict String) → keys (labels_of tags cfg) ≡ labelnames_of cfg
unfolding labels_of labelnames_of
keys-labels_of tags [] = refl
keys-labels_of tags ((label, tag) ∷ cfg) = elim (Bool-cases (label == "le")) [
  | inl e ↦ rw e (keys-labels_of tags cfg)
  | inr e ↦ rw e (ap (λ ks. label ∷ ks) (keys-labels_of tags cfg))
]

all_in-cons : (y : String) (xs ys : List String) → all_in xs ys ≡ true → all_in xs (y ∷ ys) ≡ true
all_in-cons y [] ys h = refl
all_in-cons y (x ∷ xs) ys h = ground (arith, all_in-cons y xs ys)

all_in_self : (xs : List String) → all_in xs xs ≡ true
all_in_self [] = refl
all_in_self (x ∷ xs) = ground (arith, eq_iff x x, all_in-cons x xs xs (all_in_self xs))

-- The histogram, if there is one, has the labels of its configuration.
abbrev pub Fits : Option Histogram → Option (Dict String) → Type 0
Fits none cfg = Unit
Fits (some h) cfg = h.labelnames ≡ labelnames_of (cfg_of cfg)

abbrev pub IsReady : Adapter → Type 0
IsReady a = (name : String) → Fits (lookup name a.p8s_hists) (lookup name a.p8s_hist_labels)

hists_of-Fits :
    (docs : Dict String) (labels : LabelsCfg) (name : String)
    → Fits (lookup name (hists_of docs labels)) (lookup name labels)
unfolding hists_of
hists_of-Fits docs [] name = tt
hists_of-Fits docs ((n, cfg) ∷ labels) name = elim (Bool-cases (n == name)) [
  | inl same ↦ rw same refl
  | inr other ↦ rw other (hists_of-Fits docs labels name)
]

pub start-IsReady :
    (merge_labels : LabelsCfg → LabelsCfg → LabelsCfg)
    (merge_docs : Dict String → Dict String → Dict String) (cfg : Config)
    → IsReady (start merge_labels merge_docs cfg)
unfolding start
start-IsReady merge_labels merge_docs cfg name = hists_of-Fits _ _ name

pub observe-Fits :
    (tags : Dict String) (cfg : Option (Dict String)) (seconds : ℕ) (h : Histogram)
    → h.labelnames ≡ labelnames_of (cfg_of cfg)
    → observe (labels_of tags (cfg_of cfg)) seconds h
      ≡ ok (record h { observed = h.observed ++ (labels_of tags (cfg_of cfg), seconds) ∷ [] })
observe-Fits tags cfg seconds h fits =
    let labels = labels_of tags (cfg_of cfg) in
    let names : keys labels ≡ h.labelnames = keys-labels_of tags (cfg_of cfg) ∙ sym fits in
    let matches : (all_in (keys labels) h.labelnames && all_in h.labelnames (keys labels)) ≡ true =
      rw (names, all_in_self h.labelnames) refl in
    ap
      (λ b.
        if b
        then ok (record h { observed = h.observed ++ (labels, seconds) ∷ [] })
        else err incorrect_label_names)
      matches
