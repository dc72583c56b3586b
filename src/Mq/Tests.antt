-- ===== src/Mq/Tests.antt =====
-- The theorems about ipapp/mq/pika.py at concrete connections and channels.
use ipapp.Common.{ℕ, zero, suc, ◌≡◌, refl, true, false, Option, none, some, [], ◌∷◌}
use ipapp.Common.Exec.{ok, err}
use ipapp.Mq.{MqError, connection_closed, prepare_error, timeout}
use ipapp.Mq.Connection.{
  Connection, new_connection, connect_begins, connect_ends, close_begins, close_ends, opens, fails,
  on_connection_open, on_connection_error, run, state_connected,
}
use ipapp.Mq.Closing.{close-scheduled}
use ipapp.Mq.Channel.{new_channel, silence, cancel}
use ipapp.Mq.Connect.{Pika, attempts, open_channels, connect, connect_lem}
use ipapp.Mq.Calls.{Response, response_of, raises, ending_of, call_begins, message, call_ends}
use ipapp.Mq.Calls.Replies.{begins, ends, arrives, first_reply, call-first_reply}
use ipapp.Mq.Calls.Replies
use ipapp.Common.Dict.{lookup}

abbrev established : Connection
established = record new_connection {
  has_conn = true;
  has_on_close = true;
  state = state_connected;
}

connect_established :
    connect_ends (run (opens ∷ []) (connect_begins new_connection)) ≡ (ok tt, established)
unfolding connect_ends run connect_begins on_connection_open
connect_established = refl

-- The broker closes the connection, and a new one is asked for.
lost_established :
    (run (fails (MqError.other "lost") ∷ []) established).scheduled ≡ MqError.other "lost" ∷ []
unfolding run on_connection_error
lost_established = refl

close-scheduled_example :
    (run
      (fails timeout ∷ [])
      (close_ends (run (fails connection_closed ∷ []) (close_begins established).1)).1).scheduled
    ≡ []
close-scheduled_example =
    close-scheduled established (fails connection_closed ∷ []) (fails timeout ∷ []) refl

cancel_nothing : (cancel none silence (new_channel none)).0 ≡ err MqError.user_warning
unfolding cancel
cancel_nothing = refl

abbrev pika : Pika
pika = record { channel_factories = []; channels = []; connected = false; started = false }

-- The second attempt succeeds.
abbrev second : ℕ → Option MqError
second (suc (suc zero)) = none
second _ = some timeout

connect_lem_example : connect 2 second pika ≡ (err prepare_error, record pika { connected = true })
connect_lem_example = connect_lem 2 second pika

connect_in_time : (connect 3 second pika).0 ≡ ok tt
unfolding connect attempts open_channels
connect_in_time = refl

abbrev good : Response
good = response_of (record { error = none; result = some "7" })

abbrev bad : Response
bad =
    response_of
      (record { error = some (record { code = 5; message = "no"; parent = "why" }); result = none })

-- The detail that the server sends is not what the client raises.
raises-bad :
    (call_ends "a" (Replies.run (arrives "a" bad ∷ []) (call_begins "a" []))).0
    ≡ raises (record { code = 5; message = "no"; detail = none })
unfolding call_ends Replies.run call_begins message response_of
raises-bad = refl

call-first_reply_example :
    ((call_ends "a" (
        Replies.run
          (begins "b" ∷ arrives "b" bad ∷ arrives "a" good ∷ ends "b" ∷ arrives "a" bad ∷ [])
          (call_begins "a" []))).0
      ≡ ending_of (
          some (
            first_reply "a"
              (begins "b" ∷ arrives "b" bad ∷ arrives "a" good ∷ ends "b" ∷ arrives "a" bad ∷ []))))
    × (lookup "a"
          (call_ends "a" (
            Replies.run
              (begins "b" ∷ arrives "b" bad ∷ arrives "a" good ∷ ends "b" ∷ arrives "a" bad ∷ [])
              (call_begins "a" []))).1
        ≡ none)
call-first_reply_example =
    call-first_reply "a"
      (begins "b" ∷ arrives "b" bad ∷ arrives "a" good ∷ ends "b" ∷ arrives "a" bad ∷ []) []
      (refl, (refl, (refl, (refl, (refl, tt)))))
