-- ===== src/Mq/Calls/Replies.antt =====
-- A call over the queue of ipapp/rpc/mq/pika.py ends with the first reply to it, whatever happens to other calls.
use ipapp.Common.{
  ◌≡◌, refl, ◌∙◌, sym, String, Bool, true, false, none, some, List, [], ◌∷◌, ◌==◌, eq_iff, arith,
  if◌then◌else◌, inl, inr, Bool-cases, Option-cases,
}
use ipapp.Common.Lists.{All}
use ipapp.Common.Dict.{lookup, insert, lookup-insert, lookup-erase}
use ipapp.Mq.Calls.{
  Calls, Response, Fut, pending, resolved, failed, fut_of, settle, call_begins, message, call_ends,
  ending_of,
}

-- What happens on the channel while a call waits.
pub data Event : Type 0 where
  begins ends : String → Event
  arrives : String → Response → Event

abbrev pub step : Event → Calls → Calls
step (begins id) futs = call_begins id futs
step (ends id) futs = (call_ends id futs).1
step (arrives id js) futs = message id js futs

unfoldable pub run : List Event → Calls → Calls
run [] futs = futs
run (e ∷ es) futs = run es (step e futs)

-- The event is not the begin or the end of another call with this id.
abbrev pub spares : String → Event → Bool
spares id (begins j) = if j == id then false else true
spares id (ends j) = if j == id then false else true
spares id (arrives j js) = true

-- The future of the call by the first reply to it, of those that settle a future
abbrev pub first_reply : String → List Event → Fut
first_reply id [] = pending
first_reply id (arrives j js ∷ es) =
    let rest = first_reply id es in if j == id then settle (fut_of js) rest else rest
first_reply id (e ∷ es) = first_reply id es

-- What the events make of the future of the call.
abbrev pub settled_by : String → Fut → List Event → Fut
settled_by id fut [] = fut
settled_by id fut (arrives j js ∷ es) =
    settled_by id (if j == id then settle fut (fut_of js) else fut) es
settled_by id fut (e ∷ es) = settled_by id fut es

message_absent :
    (id : String) (js : Response) (futs : Calls) → lookup id futs ≡ none → message id js futs ≡ futs
unfolding message
message_absent id js futs h = rw (message, h)

message_present :
    (id : String) (js : Response) (futs : Calls) (fut : Fut)
    → lookup id futs ≡ some fut
    → message id js futs ≡ insert id (settle fut (fut_of js)) futs
unfolding message
message_present id js futs fut h = rw (message, h)

step-lookup :
    (id : String) (e : Event) (futs : Calls) (fut : Fut)
    → spares id e ≡ true
    → lookup id futs ≡ some fut
    → lookup id (step e futs) ≡ some (settled_by id fut (e ∷ []))
unfolding call_begins call_ends
step-lookup id (begins j) futs fut h found =
    ground (arith, h, found, eq_iff j id, lookup-insert j id pending futs)
step-lookup id (ends j) futs fut h found =
    ground (arith, h, found, eq_iff j id, lookup-erase j id futs)
step-lookup id (arrives j js) futs fut h found = elim (Option-cases (lookup j futs)) [
  | inl absent ↦ ground (arith, eq_iff j id, found, absent, message_absent j js futs absent)
  | inr (old, present) ↦ ground (
    arith,
    eq_iff j id,
    found,
    present,
    message_present j js futs old present,
    lookup-insert j id (settle old (fut_of js)) futs,
  )
]

settled_by-run :
    (id : String) (es : List Event) (futs : Calls) (fut : Fut)
    → All (λ e. spares id e ≡ true) es
    → lookup id futs ≡ some fut
    → lookup id (run es futs) ≡ some (settled_by id fut es)
unfolding run
settled_by-run id [] futs fut h found = found
settled_by-run id (begins j ∷ es) futs fut h found =
    settled_by-run id es (step (begins j) futs) fut h.1
      (step-lookup id (begins j) futs fut h.0 found)
settled_by-run id (ends j ∷ es) futs fut h found =
    settled_by-run id es (step (ends j) futs) fut h.1 (step-lookup id (ends j) futs fut h.0 found)
settled_by-run id (arrives j js ∷ es) futs fut h found =
    settled_by-run id es (message j js futs) (settled_by id fut (arrives j js ∷ [])) h.1
      (step-lookup id (arrives j js) futs fut h.0 found)

settle-settle : (a b c : Fut) → settle (settle a b) c ≡ settle a (settle b c)
settle-settle pending b c = refl
settle-settle (resolved r) b c = refl
settle-settle (failed e) b c = refl

settle-pending : (a : Fut) → settle a pending ≡ a
settle-pending pending = refl
settle-pending (resolved r) = refl
settle-pending (failed e) = refl

settled_by-first_reply :
    (id : String) (fut : Fut) (es : List Event)
    → settled_by id fut es ≡ settle fut (first_reply id es)
settled_by-first_reply id fut [] = sym (settle-pending fut)
settled_by-first_reply id fut (begins j ∷ es) = settled_by-first_reply id fut es
settled_by-first_reply id fut (ends j ∷ es) = settled_by-first_reply id fut es
settled_by-first_reply id fut (arrives j js ∷ es) = elim (Bool-cases (j == id)) [
  | inl e ↦ rw e (
      settled_by-first_reply id (settle fut (fut_of js)) es
      ∙ settle-settle fut (fut_of js) (first_reply id es))
  | inr e ↦ rw e (settled_by-first_reply id fut es)
]

-- A call ends with the first reply to it, or by a timeout if none came, and leaves no future behind, whatever replies
-- come and whatever other calls begin and end while it waits, if none of these has its id.
pub call-first_reply :
    (id : String) (es : List Event) (futs : Calls)
    → All (λ e. spares id e ≡ true) es
    → (call_ends id (run es (call_begins id futs))).0 ≡ ending_of (some (first_reply id es))
      × (lookup id (call_ends id (run es (call_begins id futs))).1 ≡ none)
unfolding call_begins call_ends run
call-first_reply id es futs h =
    let own = (eq_iff id id).1 refl in
    let begun = lookup-insert id id pending futs ∙ rw own in
    let found = settled_by-run id es (call_begins id futs) pending h begun in
    (
      rw (found, settled_by-first_reply id pending es),
      lookup-erase id id (run es (call_begins id futs)) ∙ rw own,
    )
