-- ===== src/Spans.antt =====
-- ipapp/logger/span.py, class `Span`: the tags, annotations, names and stamps of one span, its headers, and
-- what it copies to another. Random ids, the clock, and the merge of two dicts by the deepmerge library
-- are arguments; values are texts already.
pub mod Tags
pub mod Headers
pub mod Tree
pub mod Logger
mod Tests
use ipapp.Common.{
  ℕ, zero, suc, ◌-◌, String, Bool, true, false, not, Option, none, some, List, [], ◌∷◌, ◌++◌, ◌==◌,
  if◌then◌else◌,
}
use ipapp.Common.Dict.{Dict, lookup, insert}

-- An exception with its class, its text, and its trace, if there is any.
pub record Error : Type 0 where
  pub class_name : String
  pub message : String
  pub trace : Option String

abbrev pub Annotations : Type 0
Annotations = Dict (List (String × ℕ))

pub record Span : Type 0 where
  pub trace_id : String
  pub id : String
  pub parent_id : Option String
  pub skip : Bool
  pub name : String
  pub name4adapter : Dict String
  pub kind : Option String
  pub annotations : Annotations
  pub annotations4adapter : Dict Annotations
  pub tags : Dict String
  pub tags4adapter : Dict (Dict String)
  pub start_stamp : Option ℕ
  pub finish_stamp : Option ℕ
  pub exception : Option Error

-- `Span.__init__`, without a parent
unfoldable pub new_span : String → String → Option String → Span
new_span trace_id id parent_id = record {
  trace_id = trace_id;
  id = id;
  parent_id = parent_id;
  skip = false;
  name = "";
  name4adapter = [];
  kind = none;
  annotations = [];
  annotations4adapter = [];
  tags = [];
  tags4adapter = [];
  start_stamp = none;
  finish_stamp = none;
  exception = none;
}

abbrev named : Option String → Span → Span
named none s = s
named (some name) s = record s { name = name }

-- `if kind`: an empty text sets nothing.
abbrev of_kind : Option String → Span → Span
of_kind none s = s
of_kind (some kind) s = if kind == "" then s else record s { kind = some kind }

-- `Span.new`
unfoldable pub new : String → String → Option String → Option String → Span
unfolding new_span
new trace_id id name kind = of_kind kind (named name (new_span trace_id id none))

-- `Span.new_child`, the child; the tree is in the module Tree
unfoldable pub new_child : Span → String → Option String → Option String → Span
unfolding new_span
new_child parent id name kind =
    of_kind kind
      (named name (record (new_span parent.trace_id id (some parent.id)) { skip = parent.skip }))

-- `set_name4adapter`
unfoldable pub set_name4adapter : String → String → Span → Span
set_name4adapter adapter name s = record s { name4adapter = insert adapter name s.name4adapter }

-- `get_name4adapter`
unfoldable pub get_name4adapter : String → Bool → Span → Option String
get_name4adapter adapter merge s = elim (lookup adapter s.name4adapter) [
  | some name ↦ some name
  | none ↦ if merge then some s.name else none
]

-- `tag`
unfoldable pub tag : String → String → Span → Span
tag name value s = record s { tags = insert name value s.tags }

abbrev pub or_empty {ℓ} : {V : Type ℓ} → Option (Dict V) → Dict V
or_empty none = []
or_empty (some d) = d

-- `set_tag4adapter`
unfoldable pub set_tag4adapter : String → String → String → Span → Span
set_tag4adapter adapter name value s = record s {
  tags4adapter =
      insert adapter (insert name value (or_empty (lookup adapter s.tags4adapter))) s.tags4adapter;
}

-- `get_tags4adapter`; the first argument is `dict_merge` of two dicts
unfoldable pub get_tags4adapter :
    (Dict String → Dict String → Dict String) → String → Bool → Span → Dict String
get_tags4adapter dict_merge adapter merge s =
    let tags = or_empty (lookup adapter s.tags4adapter) in
    if merge then dict_merge s.tags tags else tags

-- `ts or time.time()`
abbrev pub stamp_or : Option ℕ → ℕ → ℕ
stamp_or none now = now
stamp_or (some zero) now = now
stamp_or (some (suc n)) now = suc n

abbrev pub or_no_values : Option (List (String × ℕ)) → List (String × ℕ)
or_no_values none = []
or_no_values (some xs) = xs

abbrev pub add_annotation : String → String → ℕ → Annotations → Annotations
add_annotation kind value ts anns =
    insert kind (or_no_values (lookup kind anns) ++ (value, ts) ∷ []) anns

-- `annotate`
unfoldable pub annotate : ℕ → String → String → Option ℕ → Span → Span
annotate now kind value ts s = record s {
  annotations = add_annotation kind value (stamp_or ts now) s.annotations;
}

-- `annotate4adapter`
unfoldable pub annotate4adapter : ℕ → String → String → String → Option ℕ → Span → Span
annotate4adapter now adapter kind value ts s = record s {
  annotations4adapter =
      insert adapter
        (add_annotation kind value (stamp_or ts now)
          (or_empty (lookup adapter s.annotations4adapter)))
        s.annotations4adapter;
}

-- `get_annotations4adapter`
unfoldable pub get_annotations4adapter :
    (Annotations → Annotations → Annotations) → String → Bool → Span → Annotations
get_annotations4adapter dict_merge adapter merge s =
    let anns = or_empty (lookup adapter s.annotations4adapter) in
    if merge then dict_merge s.annotations anns else anns

abbrev pub with_trace : ℕ → Option String → Span → Span
with_trace now none s = s
with_trace now (some trace) s = annotate now "traceback" trace none s

-- `error`
unfoldable pub error : ℕ → Error → Span → Span
unfolding tag annotate
error now e s =
    let tagged =
      tag "error.message" e.message (tag "error.class" e.class_name (tag "error" "true" s)) in
    with_trace now e.trace (record tagged { exception = some e })

-- `duration`, in the unit of the stamps; a clock that goes backwards is left out
unfoldable pub duration : ℕ → Span → ℕ
duration now s = elim s.start_stamp [
  | none ↦ 0
  | some start ↦ elim s.finish_stamp [ none ↦ now - start | some finish ↦ finish - start ]
]

-- `start` and `finish`, as far as they write to the span
unfoldable pub start : ℕ → Option ℕ → Span → Span
start now ts s = record s { start_stamp = some (stamp_or ts now) }

abbrev pub with_error : ℕ → Option Error → Span → Span
with_error now none s = s
with_error now (some e) s = error now e s

unfoldable pub finish : ℕ → Option ℕ → Option Error → Span → Span
unfolding error
finish now ts exception s =
    with_error now exception (record s { finish_stamp = some (stamp_or ts now) })

-- The loops of `copy_to`.
abbrev copy_values : ℕ → String → List (String × ℕ) → Span → Span
copy_values now kind [] target = target
copy_values now kind ((value, ts) ∷ anns) target =
    copy_values now kind anns (annotate now kind value (some ts) target)

abbrev copy_annotations : ℕ → Annotations → Span → Span
copy_annotations now [] target = target
copy_annotations now ((kind, anns) ∷ rest) target =
    copy_annotations now rest (copy_values now kind anns target)

abbrev copy_values4adapter : ℕ → String → String → List (String × ℕ) → Span → Span
copy_values4adapter now adapter kind [] target = target
copy_values4adapter now adapter kind ((value, ts) ∷ anns) target =
    copy_values4adapter now adapter kind anns
      (annotate4adapter now adapter kind value (some ts) target)

abbrev copy_annotations4adapter : ℕ → String → Annotations → Span → Span
copy_annotations4adapter now adapter [] target = target
copy_annotations4adapter now adapter ((kind, anns) ∷ rest) target =
    copy_annotations4adapter now adapter rest (copy_values4adapter now adapter kind anns target)

abbrev copy_adapters : ℕ → Dict Annotations → Span → Span
copy_adapters now [] target = target
copy_adapters now ((adapter, anns) ∷ rest) target =
    copy_adapters now rest (copy_annotations4adapter now adapter anns target)

abbrev pub copy_tags : Dict String → Span → Span
copy_tags [] target = target
copy_tags ((name, value) ∷ tags) target = copy_tags tags (tag name value target)

abbrev pub copy_tags4adapter : String → Dict String → Span → Span
copy_tags4adapter adapter [] target = target
copy_tags4adapter adapter ((name, value) ∷ tags) target =
    copy_tags4adapter adapter tags (set_tag4adapter adapter name value target)

-- For each adapter of the source the loop goes over `tags`, which are the tags of the span.
abbrev pub copy_all_tags4adapter : Dict (Dict String) → Dict String → Span → Span
copy_all_tags4adapter [] tags target = target
copy_all_tags4adapter ((adapter, adapter_tags) ∷ rest) tags target =
    copy_all_tags4adapter rest tags (copy_tags4adapter adapter tags target)

abbrev copy_error : ℕ → Option Error → Span → Span
copy_error now none target = target
copy_error now (some e) target = error now e target

-- `copy_to`
unfoldable pub copy_to : ℕ → (annotations tags error : Bool) → Span → Span → Span
unfolding annotate annotate4adapter tag set_tag4adapter error
copy_to now with_annotations with_tags with_errors s target =
    let annotated =
      if with_annotations
      then copy_adapters now s.annotations4adapter (copy_annotations now s.annotations target)
      else target in
    let tagged =
      if with_tags
      then copy_all_tags4adapter s.tags4adapter s.tags (copy_tags s.tags annotated)
      else annotated in
    if with_errors then copy_error now s.exception tagged else tagged
