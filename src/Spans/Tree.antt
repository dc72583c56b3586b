-- ===== src/Spans/Tree.antt =====
-- The handling of finished spans in ipapp/logger/span.py: `finish` schedules a callback, `_hasndle_spans`, and the
-- callback of a span whose parent is handled, or which has none, hands the span and its finished
-- descendants to the logger. A span is a tree with its children.
pub mod Once
use ipapp.Common.{ℕ, Bool, true, false, not, ◌&&◌, ◌||◌, List, [], ◌∷◌, ◌++◌, eqb, if◌then◌else◌}

mutual
  -- The fields of a span that its handling reads, and its children.
  pub data Node : Type 0 where
    node : (id : ℕ) (skip finished handled : Bool) (children : Nodes) → Node

  pub data Nodes : Type 0 where
    leaf : Nodes
    child : Node → Nodes → Nodes

unfoldable mutual
  -- `skip`
  pub skip : Node → Node
  skip (node id s f h children) = node id true f h (skip_children children)

  pub skip_children : Nodes → Nodes
  skip_children leaf = leaf
  skip_children (child c cs) = child (skip c) (skip_children cs)

-- The finish stamp of one span is set.
unfoldable mutual
  pub finish : ℕ → Node → Node
  finish i (node id s f h children) = node id s (eqb id i || f) h (finish_children i children)

  pub finish_children : ℕ → Nodes → Nodes
  finish_children i leaf = leaf
  finish_children i (child c cs) = child (finish i c) (finish_children i cs)

abbrev pub handed_over : Bool → ℕ → List ℕ
handed_over true id = []
handed_over false id = id ∷ []

unfoldable mutual
  -- One round of the loop of `_handle_children`; the list is what the logger handles, in order.
  pub handle_child : Node → Node × List ℕ
  handle_child (node id true true h children) = (node id true true true children, [])
  handle_child (node id false true h children) =
      let (children', events) = handle_children children in
      (node id false true true children', events ++ id ∷ [])
  handle_child (node id s false h children) = (node id s false h children, [])

  -- `_handle_children`
  pub handle_children : Nodes → Nodes × List ℕ
  handle_children leaf = (leaf, [])
  handle_children (child c cs) =
      let (c', events) = handle_child c in
      let (cs', later) = handle_children cs in (child c' cs', events ++ later)

-- `_hasndle_spans` of a span without a parent, or whose parent is handled
unfoldable pub handle : Node → Node × List ℕ
unfolding handle_children
handle (node id s f h children) =
    let (children', events) = handle_children children in
    (node id s f true children', events ++ handed_over s id)

unfoldable mutual
  unfolding handle

  -- `_hasndle_spans` of the span `i`, wherever it is in the tree; the flag says whether there is no parent or
  -- a handled one.
  pub callback : Bool → ℕ → Node → Node × List ℕ
  callback ready i (node id s f h children) =
      let (children', events) = callback_children h i children in
      if eqb id i
      then (if ready then handle (node id s f h children) else (node id s f h children, []))
      else (node id s f h children', events)

  pub callback_children : Bool → ℕ → Nodes → Nodes × List ℕ
  callback_children ready i leaf = (leaf, [])
  callback_children ready i (child c cs) =
      let (c', events) = callback ready i c in
      let (cs', later) = callback_children ready i cs in (child c' cs', events ++ later)

-- The callbacks of these spans, one after the other, and all that the logger handles.
unfoldable pub callbacks : List ℕ → Node → Node × List ℕ
callbacks [] t = (t, [])
callbacks (i ∷ is) t =
    let (t', events) = callback true i t in
    let (t'', later) = callbacks is t' in (t'', events ++ later)
