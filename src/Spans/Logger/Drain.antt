-- ===== src/Spans/Logger/Drain.antt =====
-- `stop` of the logger in ipapp/logger/logger.py waits for the spans that are under way, and no longer.
use ipapp.Common.{ℕ, zero, suc, ◌+◌, ◌≤◌, ◌≡◌, refl, true, false, List, [], ◌∷◌, arith}
use ipapp.Common.Int.{ℤ, pos}
use ipapp.Common.Exec.{Result, ok, err}
use ipapp.Spans.Logger.{Logger, LoggerError, span_started, span_finished, stop_begins, succ, pred}

-- What spans do while the logger stops.
pub data Event : Type 0 where
  starts finishes : Event

abbrev pub step : Event → Logger → Result LoggerError (Unit {0}) × Logger
step starts l = (ok tt, span_started l)
step finishes l = span_finished l

abbrev after :
    Result LoggerError (Unit {0})
    → Logger
    → Result LoggerError (Unit {0}) × Logger
    → Result LoggerError (Unit {0}) × Logger
after (ok _) l rest = rest
after (err e) l rest = (err e, l)

-- These events, one after the other, until one raises.
unfoldable pub run : List Event → Logger → Result LoggerError (Unit {0}) × Logger
run [] l = (ok tt, l)
run (e ∷ es) l = after (step e l).0 (step e l).1 (run es (step e l).1)

abbrev pub count_starts : List Event → ℕ
count_starts [] = 0
count_starts (starts ∷ es) = suc (count_starts es)
count_starts (finishes ∷ es) = count_starts es

abbrev pub count_finishes : List Event → ℕ
count_finishes [] = 0
count_finishes (starts ∷ es) = count_finishes es
count_finishes (finishes ∷ es) = suc (count_finishes es)

abbrev counted : ℤ → Logger → Logger
counted n l = record l { started_spans = n }

-- When nobody waits, only the count changes.
span_finished-idle :
    (l : Logger)
    → l.waiting_all_spans_finished ≡ false
    → span_finished l ≡ (ok tt, counted (pred l.started_spans) l)
unfolding span_finished
span_finished-idle l w = ground (arith, w)

-- Once the future has its result and nobody waits, nothing raises any more, and it keeps the result.
run-done :
    (es : List Event) (l : Logger)
    → l.all_spans_finished ≡ true
    → l.waiting_all_spans_finished ≡ false
    → ((run es l).0 ≡ ok tt) × ((run es l).1.all_spans_finished ≡ true)
unfolding run span_started
run-done [] l d w = (refl, d)
run-done (starts ∷ es) l d w = run-done es (counted (succ l.started_spans) l) d w
run-done (finishes ∷ es) l d w =
    rw (run, span_finished-idle l w) (run-done es (counted (pred l.started_spans) l) d w)

-- A finished span that is not the last leaves the wait as it is; the last one ends it.
span_finished-more :
    (n : ℕ) (l : Logger)
    → l.started_spans ≡ pos (suc (suc n))
    → span_finished l ≡ (ok tt, counted (pos (suc n)) l)
unfolding span_finished
span_finished-more n l e = ground (arith, e)

span_finished-last :
    (l : Logger)
    → l.started_spans ≡ pos 1
    → l.waiting_all_spans_finished ≡ true
    → l.all_spans_finished ≡ false
    → span_finished l ≡ (
      ok tt,
      record l {
        started_spans = pos 0;
        waiting_all_spans_finished = false;
        all_spans_finished = true;
      },
    )
unfolding span_finished
span_finished-last l e w d = ground (arith, e, w, d)

run-waits :
    (es : List Event) (n : ℕ) (l : Logger)
    → l.started_spans ≡ pos (suc n)
    → l.waiting_all_spans_finished ≡ true
    → l.all_spans_finished ≡ false
    → suc n + count_starts es ≤ count_finishes es
    → ((run es l).0 ≡ ok tt) × ((run es l).1.all_spans_finished ≡ true)
unfolding run span_started
run-waits [] n l e w d le = absurd (omega arith)
run-waits (starts ∷ es) n l e w d le =
    run-waits es (suc n) (counted (succ l.started_spans) l) (rw e refl) w d (omega arith)
run-waits (finishes ∷ es) zero l e w d le =
    rw (run, span_finished-last l e w d) (run-done es _ refl refl)
run-waits (finishes ∷ es) (suc n) l e w d le =
    rw (run, span_finished-more n l e)
      (run-waits es n (counted (pos (suc n)) l) refl w d (omega arith))

-- The logger has been started, and `stop` begins to wait while some spans are under way. Then, however spans start and
-- finish, once as many have finished as were under way or have started since, the wait is over; and no
-- finish raises.
pub stop_begins-run :
    (n : ℕ) (l : Logger) (es : List Event)
    → l.started ≡ true
    → l.started_spans ≡ pos (suc n)
    → l.all_spans_finished ≡ false
    → suc n + count_starts es ≤ count_finishes es
    → ((stop_begins l).0 ≡ ok true)
      × ((run es (stop_begins l).1).0 ≡ ok tt)
      × ((run es (stop_begins l).1).1.all_spans_finished ≡ true)
unfolding stop_begins
stop_begins-run n l es on e d le =
    let waiting : Logger = record l { waiting_all_spans_finished = true } in
    let begun : stop_begins l ≡ (ok true, waiting) = ground (arith, on, e, d) in
    let (fine, done) = run-waits es n waiting e refl d le in rw begun (refl, fine, done)
