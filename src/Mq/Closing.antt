-- ===== src/Mq/Closing.antt =====
-- When a connection of ipapp/mq/pika.py asks for a new one: after it was open and closed by the broker, and never
-- after `close`.
use ipapp.Common.{◌≡◌, refl, ◌∙◌, true, false, List, [], ◌∷◌, arith}
use ipapp.Mq.Connection.{
  Connection, close_begins, close_ends, on_connection_open, on_connection_error, Event, opens,
  fails, step, run,
}

-- Without `_on_close` nothing is scheduled, whatever the library calls.
step-scheduled :
    (e : Event) (c : Connection)
    → c.has_on_close ≡ false
    → ((step e c).scheduled ≡ c.scheduled) × ((step e c).has_on_close ≡ false)
unfolding on_connection_open on_connection_error
step-scheduled opens c h = (refl, h)
step-scheduled (fails e) c h = (ground (arith, h), ground (arith, h))

run-scheduled :
    (es : List Event) (c : Connection)
    → c.has_on_close ≡ false
    → ((run es c).scheduled ≡ c.scheduled) × ((run es c).has_on_close ≡ false)
unfolding run
run-scheduled [] c h = (refl, h)
run-scheduled (e ∷ es) c h =
    let (same, off) = step-scheduled e c h in
    let (same', off') = run-scheduled es (step e c) off in (same' ∙ same, off')

close_begins-scheduled :
    (c : Connection)
    → c.has_conn ≡ true
    → ((close_begins c).1.scheduled ≡ c.scheduled) × ((close_begins c).1.has_on_close ≡ false)
unfolding close_begins
close_begins-scheduled c h = (ground (arith, h), ground (arith, h))

close_ends-scheduled :
    (c : Connection)
    → ((close_ends c).1.scheduled ≡ c.scheduled) × ((close_ends c).1.has_on_close ≡ c.has_on_close)
unfolding close_ends
close_ends-scheduled c = (refl, refl)

-- Once `close` has begun on a connection, `_on_close` is never scheduled again, whatever the library calls until
-- `close` ends and after that.
pub close-scheduled :
    (c : Connection) (during later : List Event)
    → c.has_conn ≡ true
    → (run later (close_ends (run during (close_begins c).1)).1).scheduled ≡ c.scheduled
close-scheduled c during later h =
    let (begun, off) = close_begins-scheduled c h in
    let (same, off') = run-scheduled during (close_begins c).1 off in
    let (ended, off'') = close_ends-scheduled (run during (close_begins c).1) in
    (run-scheduled later (close_ends (run during (close_begins c).1)).1 (off'' ∙ off')).0
    ∙ ended
    ∙ same
    ∙ begun
