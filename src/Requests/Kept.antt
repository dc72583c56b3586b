-- ===== src/Requests/Kept.antt =====
-- ipapp/logger/adapters/requests.py: every request that is handled is written, when the adapter keeps up.
use ipapp.Common.{
  ℕ, zero, suc, ◌+◌, ◌≤◌, ◌<◌, ◌≡◌, refl, sym, ap, subst, ◌∙◌, Bool, true, false, Option, some,
  List, [], ◌∷◌, ◌++◌, map, leb, ltb, arith, if◌then◌else◌,
}
use mathlib.Core.List.{append-nil, append_assoc, map-append}
use ipapp.Common.Lists.{length, length-append}
use ipapp.Common.Exec.{Result, ok}
use ipapp.Requests.{Request, Config, Made, skipped, invalid, made}
use ipapp.Requests.Queue.{
  Statement, build_query, Error, Adapter, new_adapter, Database, unreachable, refuses, works, start,
  append_bounded, min, handle, send, after_send, send_all, stop, send_round,
}
use ipapp.Requests.Rows.{Cell, written, all_written, row, build_query-written}

-- An adapter that has been started
abbrev started : Bool → List Request → Bool → List Statement → Adapter
started stopping queue sleeping executed = record {
  queue = some queue;
  stopping = stopping;
  sleeping = sleeping;
  executed = executed;
}

abbrev running : List Request → Bool → List Statement → Adapter
running = started false

append_bounded-room :
    (max : ℕ) (queue : List Request) (r : Request)
    → length queue < max
    → append_bounded max queue r ≡ queue ++ r ∷ []
append_bounded-room zero queue r h = absurd (omega (arith, h))
append_bounded-room (suc max) [] r h = refl
append_bounded-room (suc max) (q ∷ queue) r h = ground (arith, h)

all_written-snoc :
    (ss : List Statement) (s : Statement) → all_written (ss ++ s ∷ []) ≡ all_written ss ++ written s
all_written-snoc [] s = append-nil (written s)
all_written-snoc (t ∷ ss) s =
    ap (λ rows. written t ++ rows) (all_written-snoc ss s)
    ∙ sym (append_assoc (written t) (all_written ss) (written s))

-- What happens between the start and the stop.
pub data Event : Type 0 where
  handles : Made → Event
  rounds : Database → Event

abbrev pub step : Config → Event → Adapter → Adapter
step cfg (handles m) a = (handle cfg m a).1
step cfg (rounds db) a = send_round cfg db a

unfoldable pub run : Config → List Event → Adapter → Adapter
run cfg [] a = a
run cfg (e ∷ es) a = run cfg es (step cfg e a)

-- The requests of the spans that are handled
abbrev pub requests : List Event → List Request
requests [] = []
requests (handles (made r) ∷ es) = r ∷ requests es
requests (e ∷ es) = requests es

-- No statement fails; the database may be unreachable.
abbrev pub NoRefusal : List Event → Type 0
NoRefusal [] = Unit {0}
NoRefusal (rounds refuses ∷ es) = ⊥
NoRefusal (e ∷ es) = NoRefusal es

min-length : (max n : ℕ) → n ≤ max → min max n ≡ n
min-length max n h = ground (arith, h)

-- A statement that works writes the whole queue.
send-works :
    (cfg : Config) (stopping : Bool) (r : Request) (queue : List Request) (sleeping : Bool)
    (executed : List Statement)
    → length (r ∷ queue) ≤ cfg.max_queue_size
    → send cfg works (started stopping (r ∷ queue) sleeping executed) ≡ (
      ok tt,
      started stopping [] sleeping
          (executed ++ (build_query (length (r ∷ queue)) (r ∷ queue)).0 ∷ []),
    )
unfolding send
send-works cfg stopping r queue sleeping executed h =
    rw (min-length cfg.max_queue_size (length (r ∷ queue)) h, (build_query-written (r ∷ queue)).1)
      refl

-- The adapter runs, its queue is within its bound, and it has written these rows but for those of the queue.
abbrev Holds : Config → Adapter → List (List (Option Cell)) → Type 0
Holds cfg a rows =
    (queue : List Request) × (sleeping : Bool) × (executed : List Statement) × (a
      ≡ running queue sleeping executed)
    × (length queue ≤ cfg.max_queue_size)
    × (all_written executed ++ map row queue ≡ rows)

Holds-resp :
    (cfg : Config) {a b : Adapter} {rows rows' : List (List (Option Cell))}
    → a ≡ b
    → rows ≡ rows'
    → Holds cfg b rows
    → Holds cfg a rows'
Holds-resp cfg {b = b} {rows' = rows'} same equal h =
    subst (λ x. Holds cfg x rows') (sym same) (subst (λ x. Holds cfg b x) equal h)

handle-made :
    (cfg : Config) (r : Request) (queue : List Request) (sleeping : Bool)
    (executed : List Statement)
    → length queue < cfg.max_queue_size
    → (handle cfg (made r) (running queue sleeping executed)).1
      ≡ running
          (queue ++ r ∷ [])
          (if leb cfg.send_max_count (length (queue ++ r ∷ [])) then false else sleeping)
          executed
unfolding handle
handle-made cfg r queue sleeping executed h =
    rw (append_bounded-room cfg.max_queue_size queue r h) refl

send_round-unreachable :
    (cfg : Config) (r : Request) (queue : List Request) (sleeping : Bool)
    (executed : List Statement)
    → send_round cfg unreachable (running (r ∷ queue) sleeping executed)
      ≡ running (r ∷ queue) true executed
unfolding send_round send
send_round-unreachable cfg r queue sleeping executed = refl

send_round-works :
    (cfg : Config) (r : Request) (queue : List Request) (sleeping : Bool)
    (executed : List Statement)
    → length (r ∷ queue) ≤ cfg.max_queue_size
    → send_round cfg works (running (r ∷ queue) sleeping executed)
      ≡ running [] true (executed ++ (build_query (length (r ∷ queue)) (r ∷ queue)).0 ∷ [])
unfolding send_round
send_round-works cfg r queue sleeping executed h =
    ap (λ (p : Result Error (Unit {0}) × Adapter). record p.1 { sleeping = true })
      (send-works cfg false r queue sleeping executed h)

-- What is written and what is queued, after a statement for the whole queue
written-sent :
    (executed : List Statement) (queue more : List Request)
    → all_written (executed ++ (build_query (length queue) queue).0 ∷ []) ++ map row more
      ≡ all_written executed ++ map row (queue ++ more)
written-sent executed queue more =
    rw
      (
        all_written-snoc executed (build_query (length queue) queue).0,
        (build_query-written queue).0,
        map-append row queue more,
      )
      (append_assoc (all_written executed) (map row queue) (map row more))

run-Holds :
    (cfg : Config) (es : List Event) (queue : List Request) (sleeping : Bool)
    (executed : List Statement)
    → length queue + length (requests es) ≤ cfg.max_queue_size
    → NoRefusal es
    → Holds cfg
        (run cfg es (running queue sleeping executed))
        (all_written executed ++ map row (queue ++ requests es))
unfolding run handle send_round
run-Holds cfg [] queue sleeping executed fits h = (
  queue,
  sleeping,
  executed,
  refl,
  omega (arith, fits),
  ap (λ q. all_written executed ++ map row q) (sym (append-nil queue)),
)
run-Holds cfg (handles skipped ∷ es) queue sleeping executed fits h =
    run-Holds cfg es queue sleeping executed fits h
run-Holds cfg (handles invalid ∷ es) queue sleeping executed fits h =
    run-Holds cfg es queue sleeping executed fits h
run-Holds cfg (handles (made r) ∷ es) queue sleeping executed fits h =
    let room : length queue < cfg.max_queue_size = omega (arith, fits) in
    let sleeps = if leb cfg.send_max_count (length (queue ++ r ∷ [])) then false else sleeping in
    let fits' : length (queue ++ r ∷ []) + length (requests es) ≤ cfg.max_queue_size =
      rw (length-append queue (r ∷ [])) (omega (arith, fits)) in
    Holds-resp cfg (ap (run cfg es) (handle-made cfg r queue sleeping executed room))
      (ap (λ q. all_written executed ++ map row q) (append_assoc queue (r ∷ []) (requests es)))
      (run-Holds cfg es (queue ++ r ∷ []) sleeps executed fits' h)
run-Holds cfg (rounds unreachable ∷ es) [] sleeping executed fits h =
    run-Holds cfg es [] true executed fits h
run-Holds cfg (rounds unreachable ∷ es) (r ∷ queue) sleeping executed fits h =
    run-Holds cfg es (r ∷ queue) true executed fits h
run-Holds cfg (rounds refuses ∷ es) queue sleeping executed fits h = absurd h
run-Holds cfg (rounds works ∷ es) [] sleeping executed fits h =
    run-Holds cfg es [] true executed fits h
run-Holds cfg (rounds works ∷ es) (r ∷ queue) sleeping executed fits h =
    let room : length (r ∷ queue) ≤ cfg.max_queue_size = omega (arith, fits) in
    let executed' = executed ++ (build_query (length (r ∷ queue)) (r ∷ queue)).0 ∷ [] in
    Holds-resp cfg (ap (run cfg es) (send_round-works cfg r queue sleeping executed room))
      (written-sent executed (r ∷ queue) (requests es))
      (run-Holds cfg es [] true executed' (omega (arith, fits)) h)

send_all-empty :
    (fuel : ℕ) (cfg : Config) (db : ℕ → Database) (stopping sleeping : Bool)
    (executed : List Statement)
    → send_all fuel cfg db (started stopping [] sleeping executed)
      ≡ (some (ok tt), started stopping [] sleeping executed)
unfolding send_all
send_all-empty zero cfg db stopping sleeping executed = refl
send_all-empty (suc fuel) cfg db stopping sleeping executed = refl

-- How `stop` ends: it returns, the queue is empty, and these rows are written.
abbrev pub Ends : Option (Result Error (Unit {0})) × Adapter → List (List (Option Cell)) → Type 0
Ends (r, a) rows = (r ≡ some (ok tt)) × (a.queue ≡ some []) × (all_written a.executed ≡ rows)

stop-sends :
    (cfg : Config) (r : Request) (queue : List Request) (sleeping : Bool)
    (executed : List Statement) (db : ℕ → Database) (fuel : ℕ)
    → length (r ∷ queue) ≤ cfg.max_queue_size
    → db 0 ≡ works
    → stop (suc fuel) cfg db (running (r ∷ queue) sleeping executed) ≡ (
      some (ok tt),
      started true [] sleeping (executed ++ (build_query (length (r ∷ queue)) (r ∷ queue)).0 ∷ []),
    )
unfolding stop send_all
stop-sends cfg r queue sleeping executed db fuel h w =
    let a = started true (r ∷ queue) sleeping executed in
    let more = send_all fuel cfg (λ n. db (suc n)) in
    let nonempty : ltb 0 (length (r ∷ queue)) ≡ true = ground arith in
    ap (λ b. if b then after_send more (send cfg (db 0) a) else (some (ok tt), a)) nonempty
    ∙ ap (λ d. after_send more (send cfg d a)) w
    ∙ ap (after_send more) (send-works cfg true r queue sleeping executed h)
    ∙ send_all-empty fuel cfg (λ n. db (suc n)) true sleeping
        (executed ++ (build_query (length (r ∷ queue)) (r ∷ queue)).0 ∷ [])

stop-running :
    (cfg : Config) (queue : List Request) (sleeping : Bool) (executed : List Statement)
    (db : ℕ → Database) (fuel : ℕ)
    → length queue ≤ cfg.max_queue_size
    → db 0 ≡ works
    → Ends
        (stop (suc fuel) cfg db (running queue sleeping executed))
        (all_written executed ++ map row queue)
unfolding stop send_all
stop-running cfg [] sleeping executed db fuel h w =
    (refl, refl, sym (append-nil (all_written executed)))
stop-running cfg (r ∷ queue) sleeping executed db fuel h w =
    subst (λ p. Ends p (all_written executed ++ map row (r ∷ queue)))
      (sym (stop-sends cfg r queue sleeping executed db fuel h w))
      (
        refl,
        refl,
        sym (
              append-nil
                (all_written (executed ++ (build_query (length (r ∷ queue)) (r ∷ queue)).0 ∷ [])))
            ∙ written-sent executed (r ∷ queue) []
            ∙ ap (λ q. all_written executed ++ map row q) (append-nil (r ∷ queue)),
      )

-- After a `start` that works, and with fuel for one statement or more: if the first statement of `stop` works,
-- no statement before it has failed, and no more requests were handled than the queue can hold, then `stop`
-- returns with an empty queue, and the statements have written the rows of all requests, each value in its
-- column, once and in their order; in between the database may have been unreachable.
pub stop-writes_all :
    (cfg : Config) (es : List Event) (db : ℕ → Database) (fuel : ℕ)
    → length (requests es) ≤ cfg.max_queue_size
    → NoRefusal es
    → db 0 ≡ works
    → Ends (stop (suc fuel) cfg db (run cfg es (start works new_adapter).1)) (map row (requests es))
unfolding start
stop-writes_all cfg es db fuel fits h w =
    let (queue, sleeping, executed, same, room, equal) =
      run-Holds cfg es [] false [] (omega (arith, fits)) h in
    subst (λ a. Ends (stop (suc fuel) cfg db a) (map row (requests es))) (sym same)
      (subst (Ends (stop (suc fuel) cfg db (running queue sleeping executed))) equal
        (stop-running cfg queue sleeping executed db fuel room w))
