-- ===== src/Spans/Tags.antt =====
-- The tags of a span of ipapp/logger/span.py: what an adapter reads after tags have been set or copied.
use ipapp.Common.{
  ℕ, String, ◌≡◌, refl, ◌∙◌, Bool, true, false, ◌&&◌, Option, none, some, [], ◌∷◌, ◌==◌, eq_iff,
  arith, if◌then◌else◌, inl, inr, Bool-cases,
}
use ipapp.Common.Dict.{Dict, lookup, insert, lookup-insert}
use ipapp.Spans.{
  Span, tag, set_tag4adapter, get_tags4adapter, or_empty, copy_tags, copy_tags4adapter,
  copy_all_tags4adapter, copy_to,
}

-- The second value, if there is one.
abbrev pub over : Option String → Option String → Option String
over old none = old
over old (some v) = some v

-- What `dict_merge` does with two dicts of texts: the second overrides the first.
pub record IsMerge (dict_merge : Dict String → Dict String → Dict String) : Type 0 where
  pub overrides :
      (k : String) (d e : Dict String) → lookup k (dict_merge d e) ≡ over (lookup k d) (lookup k e)

own_tags : String → Span → Dict String
own_tags adapter s = or_empty (lookup adapter s.tags4adapter)

own_tags-set_tag4adapter :
    (a b n m v : String) (s : Span)
    → lookup m (own_tags b (set_tag4adapter a n v s))
      ≡ (if (a == b) && (n == m) then some v else lookup m (own_tags b s))
unfolding own_tags set_tag4adapter
own_tags-set_tag4adapter a b n m v s =
    let own = or_empty (lookup a s.tags4adapter) in
    rw (lookup-insert a b (insert n v own) s.tags4adapter) (elim (Bool-cases (a == b)) [
      | inl e ↦ rw (e, lookup-insert n m v own, (eq_iff a b).0 e) refl
      | inr e ↦ rw e refl
    ])

tags-set_tag4adapter : (a n v : String) (s : Span) → (set_tag4adapter a n v s).tags ≡ s.tags
unfolding set_tag4adapter
tags-set_tag4adapter a n v s = refl

lookup-tag :
    (n m v : String) (s : Span)
    → lookup m (tag n v s).tags ≡ (if n == m then some v else lookup m s.tags)
unfolding tag
lookup-tag n m v s = lookup-insert n m v s.tags

own_tags-tag : (b n v : String) (s : Span) → own_tags b (tag n v s) ≡ own_tags b s
unfolding tag own_tags
own_tags-tag b n v s = refl

over-if :
    (b : Bool) (old : Option String) (v : String) (own : Option String)
    → over old (if b then some v else own) ≡ (if b then some v else over old own)
over-if true old v own = refl
over-if false old v own = refl

module _ (dict_merge : Dict String → Dict String → Dict String)
    (is_merge : IsMerge dict_merge) where
  -- What an adapter reads under a name: its own tag if there is one, or else the tag of the span.
  read_tag :
      (adapter name : String) (s : Span)
      → lookup name (get_tags4adapter dict_merge adapter true s)
        ≡ over (lookup name s.tags) (lookup name (own_tags adapter s))
  unfolding get_tags4adapter own_tags
  read_tag adapter name s = is_merge.overrides name s.tags (own_tags adapter s)

  -- After a tag is set for one adapter, that adapter reads it under its name, and nothing else changes for
  -- it or for another adapter. After a tag is set for the span, an adapter reads it under its name
  -- unless it has one of its own, and nothing else changes.
  pub get_tags4adapter_lem :
      (a b n m v : String) (s : Span)
      → (lookup m (get_tags4adapter dict_merge b true (set_tag4adapter a n v s)) ≡ (
          if (a == b) && (n == m) then some v else lookup m (get_tags4adapter dict_merge b true s)))
        × (lookup m (get_tags4adapter dict_merge b true (tag n v s))
            ≡ over
                (if n == m then some v else lookup m s.tags)
                (lookup m (get_tags4adapter dict_merge b false s)))
  unfolding get_tags4adapter
  get_tags4adapter_lem a b n m v s = (
    rw
        (
          read_tag b m (set_tag4adapter a n v s),
          own_tags-set_tag4adapter a b n m v s,
          read_tag b m s,
        )
        (rw (tags-set_tag4adapter a n v s)
          (over-if ((a == b) && (n == m)) (lookup m s.tags) v (lookup m (own_tags b s)))),
    rw (read_tag b m (tag n v s))
        (rw (lookup-tag n m v s, own_tags-tag b n v s) (unfold own_tags in refl)),
  )

copy_tags4adapter-lookup :
    (a b m : String) (tags : Dict String) (target : Span)
    → lookup m tags ≡ none
    → lookup m (own_tags b (copy_tags4adapter a tags target)) ≡ lookup m (own_tags b target)
copy_tags4adapter-lookup a b m [] target h = refl
copy_tags4adapter-lookup a b m ((n, v) ∷ tags) target h = elim (Bool-cases (n == m)) [
  | inl e ↦ absurd (ground (arith, h, e))
  | inr e ↦
      let rest : lookup m tags ≡ none = ground (arith, h, e) in
      copy_tags4adapter-lookup a b m tags (set_tag4adapter a n v target) rest
      ∙ own_tags-set_tag4adapter a b n m v target
      ∙ ground (arith, e)
]

copy_all-lookup :
    (b m : String) (adapters : Dict (Dict String)) (tags : Dict String) (target : Span)
    → lookup m tags ≡ none
    → lookup m (own_tags b (copy_all_tags4adapter adapters tags target))
      ≡ lookup m (own_tags b target)
copy_all-lookup b m [] tags target h = refl
copy_all-lookup b m ((a, own) ∷ rest) tags target h =
    copy_all-lookup b m rest tags (copy_tags4adapter a tags target) h
    ∙ copy_tags4adapter-lookup a b m tags target h

tags-copy_tags4adapter :
    (a : String) (tags : Dict String) (target : Span)
    → (copy_tags4adapter a tags target).tags ≡ target.tags
tags-copy_tags4adapter a [] target = refl
tags-copy_tags4adapter a ((n, v) ∷ tags) target =
    tags-copy_tags4adapter a tags (set_tag4adapter a n v target) ∙ tags-set_tag4adapter a n v target

tags-copy_all :
    (adapters : Dict (Dict String)) (tags : Dict String) (target : Span)
    → (copy_all_tags4adapter adapters tags target).tags ≡ target.tags
tags-copy_all [] tags target = refl
tags-copy_all ((a, own) ∷ rest) tags target =
    tags-copy_all rest tags (copy_tags4adapter a tags target) ∙ tags-copy_tags4adapter a tags target

copy_tags-lookup :
    (m : String) (tags : Dict String) (target : Span)
    → lookup m tags ≡ none
    → lookup m (copy_tags tags target).tags ≡ lookup m target.tags
copy_tags-lookup m [] target h = refl
copy_tags-lookup m ((n, v) ∷ tags) target h = elim (Bool-cases (n == m)) [
  | inl e ↦ absurd (ground (arith, h, e))
  | inr e ↦
      let rest : lookup m tags ≡ none = ground (arith, h, e) in
      copy_tags-lookup m tags (tag n v target) rest ∙ lookup-tag n m v target ∙ ground (arith, e)
]

own_tags-copy_tags :
    (b : String) (tags : Dict String) (target : Span)
    → own_tags b (copy_tags tags target) ≡ own_tags b target
own_tags-copy_tags b [] target = refl
own_tags-copy_tags b ((n, v) ∷ tags) target =
    own_tags-copy_tags b tags (tag n v target) ∙ own_tags-tag b n v target

-- `copy_to` loses the tags of an adapter: under a name that is no tag of the span itself, every adapter
-- reads in the target what it read before, whatever tags the source has for that adapter.
pub copy_to-tags_lost :
    (dict_merge : Dict String → Dict String → Dict String) (now : ℕ) (adapter name : String)
    (s target : Span)
    → IsMerge dict_merge
    → lookup name s.tags ≡ none
    → lookup name (get_tags4adapter dict_merge adapter true (copy_to now false true false s target))
      ≡ lookup name (get_tags4adapter dict_merge adapter true target)
unfolding copy_to
copy_to-tags_lost dict_merge now adapter name s target is_merge h =
    let tagged = copy_tags s.tags target in
    let copied = copy_all_tags4adapter s.tags4adapter s.tags tagged in
    rw
      (
        read_tag dict_merge is_merge adapter name copied,
        read_tag dict_merge is_merge adapter name target,
        tags-copy_all s.tags4adapter s.tags tagged,
        copy_all-lookup adapter name s.tags4adapter s.tags tagged h,
        own_tags-copy_tags adapter s.tags target,
        copy_tags-lookup name s.tags target h,
      )
      refl
