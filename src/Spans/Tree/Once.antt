-- ===== src/Spans/Tree/Once.antt =====
-- How often the spans of ipapp/logger/span.py are handled: once where the callback of the outermost span comes
-- last, and twice for a child that finishes after its parent and before its parent's callback.
use mathlib.Core.List.{append-nil}
use ipapp.Common.{
  ℕ, ◌+◌, ◌≤◌, ◌≡◌, refl, Bool, true, false, List, [], ◌∷◌, ◌++◌, eqb, arith, if◌then◌else◌,
}
use ipapp.Common.Lists.{All}
use ipapp.Spans.Tree.{
  Node, node, Nodes, leaf, child, handle_child, handle_children, handle, callback,
  callback_children, callbacks,
}

unfoldable mutual
  -- The spans of a tree, each one behind its descendants.
  pub postorder : Node → List ℕ
  postorder (node id s f h children) = postorders children ++ id ∷ []

  pub postorders : Nodes → List ℕ
  postorders leaf = []
  postorders (child c cs) = postorder c ++ postorders cs

abbrev mutual
  -- Every span is finished, none is skipped, and none is handled yet.
  pub IsFinished : Node → Type 0
  IsFinished (node id s f h children) =
      (s ≡ false) × (f ≡ true) × (h ≡ false) × AreFinished children

  pub AreFinished : Nodes → Type 0
  AreFinished leaf = Unit
  AreFinished (child c cs) = IsFinished c × AreFinished cs

mutual
  unfolding handle_child handle_children postorder postorders

  handle_child-postorder : (c : Node) → IsFinished c → (handle_child c).1 ≡ postorder c
  handle_child-postorder (node id true f h children) fin = absurd (cc)
  handle_child-postorder (node id false true h children) fin =
      rw (handle_children-postorders children fin.3) refl
  handle_child-postorder (node id false false h children) fin = absurd (cc)

  handle_children-postorders :
      (cs : Nodes) → AreFinished cs → (handle_children cs).1 ≡ postorders cs
  handle_children-postorders leaf fin = refl
  handle_children-postorders (child c cs) fin =
      rw (handle_child-postorder c fin.0, handle_children-postorders cs fin.1) refl

mutual
  unfolding callback callback_children

  -- The callback of a span whose parent is not handled does nothing.
  callback-idle : (i : ℕ) (c : Node) → IsFinished c → callback false i c ≡ (c, [])
  callback-idle i (node id s f h children) fin =
      rw (fin.2, callback_children-idle i children fin.3) (ground arith)

  callback_children-idle :
      (i : ℕ) (cs : Nodes) → AreFinished cs → callback_children false i cs ≡ (cs, [])
  callback_children-idle i leaf fin = refl
  callback_children-idle i (child c cs) fin =
      rw (callback-idle i c fin.0, callback_children-idle i cs fin.1) refl

-- A callback that comes before that of the outermost span does nothing.
callback-before :
    (i : ℕ) (id : ℕ) (children : Nodes)
    → AreFinished children
    → eqb id i ≡ false
    → callback true i (node id false true false children) ≡ (node id false true false children, [])
unfolding callback
callback-before i id children fin other = rw (callback_children-idle i children fin, other) refl

callback-root :
    (id : ℕ) (children : Nodes)
    → AreFinished children
    → (callback true id (node id false true false children)).1 ≡ postorders children ++ id ∷ []
unfolding callback handle
callback-root id children fin = rw (handle_children-postorders children fin) (ground arith)

-- When all spans of a tree are finished, none skipped, and the callback of the outermost one comes behind
-- any others, in any order, each span is handled once, and each one behind its descendants.
pub callbacks-postorder :
    (id : ℕ) (children : Nodes) (others : List ℕ)
    → AreFinished children
    → All (λ i. eqb id i ≡ false) others
    → (callbacks (others ++ id ∷ []) (node id false true false children)).1
      ≡ postorder (node id false true false children)
unfolding callbacks postorder
callbacks-postorder id children [] fin apart =
    rw (callback-root id children fin) (append-nil (postorders children ++ id ∷ []))
callbacks-postorder id children (i ∷ others) fin apart =
    rw (callback-before i id children fin apart.0)
      (callbacks-postorder id children others fin apart.1)

abbrev pub count : ℕ → List ℕ → ℕ
count x [] = 0
count x (y ∷ ys) = (if eqb y x then 1 else 0) + count x ys

count_self : (x : ℕ) → count x (x ∷ []) ≡ 1
count_self x = ground arith

count-append : (x : ℕ) (xs ys : List ℕ) → count x (xs ++ ys) ≡ count x xs + count x ys
count-append x [] ys = omega arith
count-append x (y ∷ xs) ys = omega (arith, count-append x xs ys)

callback_self :
    (id : ℕ) (s f h : Bool) (children : Nodes)
    → callback true id (node id s f h children) ≡ handle (node id s f h children)
unfolding callback
callback_self id s f h children = ground arith

count-handle :
    (id : ℕ) (f h : Bool) (children : Nodes) → 1 ≤ count id (handle (node id false f h children)).1
unfolding handle
count-handle id f h children =
    let events = (handle_children children).1 in ground (arith, count-append id events (id ∷ []))

-- What the callback of the parent hands over includes the child.
count-parent :
    (id c : ℕ) (kids siblings : Nodes)
    → 1
      ≤ count c
          (handle (node id false true false (child (node c false true false kids) siblings))).1
unfolding handle handle_child
count-parent id c kids siblings =
    let mine = (handle_children kids).1 in
    let rest = (handle_children siblings).1 in
    omega (
      arith,
      count-append c ((mine ++ c ∷ []) ++ rest) (id ∷ []),
      count-append c (mine ++ c ∷ []) rest,
      count-append c mine (c ∷ []),
      count_self c,
    )

handle-tree :
    (id c : ℕ) (kids siblings : Nodes)
    → (handle (node id false true false (child (node c false true false kids) siblings))).0
      ≡ node id false true true
          (child (node c false true true (handle_children kids).0) (handle_children siblings).0)
unfolding handle handle_child
handle-tree id c kids siblings = refl

-- Behind it, the callback of the child hands the child over again.
count-child :
    (id c : ℕ) (kids siblings : Nodes)
    → eqb id c ≡ false
    → 1
      ≤ count c
          (callback true c
            (node id false true true (child (node c false true true kids) siblings))).1
unfolding callback
count-child id c kids siblings other =
    let mine = (handle (node c false true true kids)).1 in
    let rest = (callback_children true c siblings).1 in
    rw (other, callback_self c false true true kids)
      (omega (arith, count-append c mine rest, count-handle c true true kids))

count-later :
    (id c : ℕ) (kids siblings : Nodes)
    → eqb id c ≡ false
    → 1
      ≤ count c
          (callback true c
            (handle (node id false true false (child (node c false true false kids) siblings))).0).1
count-later id c kids siblings other =
    rw (handle-tree id c kids siblings) (count-child id c _ _ other)

-- A child that is finished when its parent's callback comes, and whose own callback comes behind that, is
-- handled twice at least.
pub callbacks-twice :
    (id c : ℕ) (kids siblings : Nodes)
    → eqb id c ≡ false
    → 2
      ≤ count c
          (callbacks
            (id ∷ c ∷ [])
            (node id false true false (child (node c false true false kids) siblings))).1
unfolding callbacks
callbacks-twice id c kids siblings other =
    let t = node id false true false (child (node c false true false kids) siblings) in
    let later = callback true c (handle t).0 in
    rw (callback_self id false true false (child (node c false true false kids) siblings)) (
      omega (
        arith,
        count-append c (handle t).1 (later.1 ++ []),
        count-append c later.1 [],
        count-parent id c kids siblings,
        count-later id c kids siblings other,
      ))
