-- ===== src/Mq/Closed.antt =====
-- What becomes of the operations of a channel of ipapp/mq/pika.py once the broker has closed it.
use ipapp.Common.{◌≡◌, String, none, some, List, [], ◌∷◌, ◌++◌, arith}
use ipapp.Common.Lists.{All}
use ipapp.Common.Exec.{Result, err}
use ipapp.Mq.{MqError}
use ipapp.Mq.Channel.{Channel, Frame, Arrival, answers, closes, silence, on_close, send_and_wait}

close-kept :
    (e : MqError) (ch : Channel) (e' : MqError)
    → ch.close_fut ≡ some e
    → (on_close e' ch).close_fut ≡ some e
unfolding on_close
close-kept e ch e' h = ground arith

send_and_wait-closed :
    (frame : Frame) (arrival : Arrival) (ch : Channel) (e : MqError)
    → ch.close_fut ≡ some e
    → ((send_and_wait frame arrival ch).0 ≡ err e)
      × ((send_and_wait frame arrival ch).1.close_fut ≡ some e)
unfolding send_and_wait
send_and_wait-closed frame (answers r) ch e h = (ground (arith, h), h)
send_and_wait-closed frame (closes e') ch e h = (ground (arith, h), ground (arith, h))
send_and_wait-closed frame silence ch e h = (ground (arith, h), h)

-- The results of these operations, one after the other.
unfoldable pub operations : List (Frame × Arrival) → Channel → List (Result MqError String)
operations [] ch = []
operations ((frame, arrival) ∷ rest) ch =
    (send_and_wait frame arrival ch).0 ∷ operations rest (send_and_wait frame arrival ch).1

operations-closed :
    (ops : List (Frame × Arrival)) (ch : Channel) (e : MqError)
    → ch.close_fut ≡ some e
    → All (λ r. r ≡ err e) (operations ops ch)
unfolding operations
operations-closed [] ch e h = tt
operations-closed ((frame, arrival) ∷ rest) ch e h =
    let (raises, kept) = send_and_wait-closed frame arrival ch e h in
    (raises, operations-closed rest (send_and_wait frame arrival ch).1 e kept)

on_close-open :
    (error : String) (ch : Channel)
    → ch.close_fut ≡ none
    → (on_close (MqError.other error) ch).close_fut ≡ some (MqError.other error)
unfolding on_close
on_close-open error ch h = ground (arith, h)

-- When the broker closes an open channel with an error, the operation that waits and all that follow raise this
-- error, whatever they send and whatever still arrives.
pub operations-closes :
    (frame : Frame) (error : String) (ops : List (Frame × Arrival)) (ch : Channel)
    → ch.close_fut ≡ none
    → All
        (λ r. r ≡ err (MqError.other error))
        (operations ((frame, closes (MqError.other error)) ∷ ops) ch)
unfolding operations send_and_wait
operations-closes frame error ops ch h =
    let ch' : Channel = record ch { sent = ch.sent ++ frame ∷ [] } in
    let closed = on_close-open error ch' h in
    (
      ground (arith, h),
      operations-closed ops (on_close (MqError.other error) ch') (MqError.other error) closed,
    )
