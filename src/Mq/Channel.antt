-- ===== src/Mq/Channel.antt =====
-- ipapp/mq/pika.py, class `PikaChannel`: the operations that send a frame and wait for the broker's answer, and
-- the close of the channel, after which each of them raises.
use ipapp.Common.{ℕ, String, Bool, Option, none, some, List, [], ◌∷◌, ◌++◌}
use ipapp.Common.Exec.{Result, ok, err}
use ipapp.Mq.{MqError, closed_by_client, invalid_state, user_warning}

-- What the operations send; their tables of arguments are left out.
pub data Frame : Type 0 where
  exchange_declare :
      (exchange exchange_type : String) (passive durable auto_delete internal : Bool) → Frame
  queue_declare : (queue : String) (passive durable exclusive auto_delete : Bool) → Frame
  queue_bind : (queue exchange : String) (routing_key : Option String) → Frame
  basic_qos : (prefetch_size prefetch_count : ℕ) (global_qos : Bool) → Frame
  basic_consume : (queue : String) (auto_ack exclusive : Bool) → Frame
  basic_ack : (delivery_tag : ℕ) (multiple : Bool) → Frame
  basic_nack : (delivery_tag : ℕ) (multiple requeue : Bool) → Frame
  basic_cancel : (consumer_tag : String) → Frame

-- What comes first after a frame: the answer, the close of the channel, or the timeout.
pub data Arrival : Type 0 where
  answers : String → Arrival
  closes : MqError → Arrival
  silence : Arrival

-- The fields of `PikaChannel`, and the frames it has sent. `close_fut` is the exception of the future.
pub record Channel : Type 0 where
  pub name : Option String
  pub consumer_tag : Option String
  pub close_fut : Option MqError
  pub sent : List Frame

-- `_init`
abbrev pub new_channel : Option String → Channel
new_channel name = record { name = name; consumer_tag = none; close_fut = none; sent = [] }

abbrev close_with : MqError → Option MqError → Option MqError
close_with closed_by_client old = old
close_with e none = some e
close_with e (some old) = some old

-- `on_close`
unfoldable pub on_close : MqError → Channel → Channel
on_close e ch = record ch { close_fut = close_with e ch.close_fut }

abbrev arrive : Arrival → Channel → Channel
arrive (closes e) ch = on_close e ch
arrive _ ch = ch

-- `fut.result()`, which raises where there is no answer
abbrev answer_of : Arrival → Result MqError String
answer_of (answers frame) = ok frame
answer_of _ = err invalid_state

-- `if self._close_fut.done(): self._close_fut.result()`, and then `fut.result()`
abbrev settled : Option MqError → Arrival → Result MqError String
settled (some e) arrival = err e
settled none arrival = answer_of arrival

-- The part that the operations share: they send the frame, and wait.
unfoldable pub send_and_wait : Frame → Arrival → Channel → Result MqError String × Channel
unfolding on_close
send_and_wait frame arrival ch =
    let ch' = arrive arrival (record ch { sent = ch.sent ++ frame ∷ [] }) in
    (settled ch'.close_fut arrival, ch')

-- `exchange_declare`, `queue_declare`, `queue_bind` and `qos`
unfoldable pub declare_exchange :
    (exchange exchange_type : String) (passive durable auto_delete internal : Bool)
    → Arrival
    → Channel
    → Result MqError String × Channel
unfolding send_and_wait
declare_exchange exchange exchange_type passive durable auto_delete internal =
    send_and_wait (exchange_declare exchange exchange_type passive durable auto_delete internal)

unfoldable pub declare_queue :
    (queue : String) (passive durable exclusive auto_delete : Bool)
    → Arrival
    → Channel
    → Result MqError String × Channel
unfolding send_and_wait
declare_queue queue passive durable exclusive auto_delete =
    send_and_wait (queue_declare queue passive durable exclusive auto_delete)

unfoldable pub bind_queue :
    (queue exchange : String) (routing_key : Option String)
    → Arrival
    → Channel
    → Result MqError String × Channel
unfolding send_and_wait
bind_queue queue exchange routing_key = send_and_wait (queue_bind queue exchange routing_key)

unfoldable pub qos :
    (prefetch_size prefetch_count : ℕ) (global_qos : Bool)
    → Arrival
    → Channel
    → Result MqError String × Channel
unfolding send_and_wait
qos prefetch_size prefetch_count global_qos =
    send_and_wait (basic_qos prefetch_size prefetch_count global_qos)

-- `consume`; the library returns the consumer's tag at once.
unfoldable pub consume :
    (queue : String) (auto_ack exclusive : Bool) (consumer_tag : String)
    → Arrival
    → Channel
    → Result MqError String × Channel
unfolding send_and_wait
consume queue auto_ack exclusive consumer_tag arrival ch =
    send_and_wait (basic_consume queue auto_ack exclusive) arrival
      (record ch { consumer_tag = some consumer_tag })

-- `ack` and `nack`, which wait for nothing
unfoldable pub ack : (delivery_tag : ℕ) (multiple : Bool) → Channel → Channel
ack delivery_tag multiple ch = record ch { sent = ch.sent ++ basic_ack delivery_tag multiple ∷ [] }

unfoldable pub nack : (delivery_tag : ℕ) (multiple requeue : Bool) → Channel → Channel
nack delivery_tag multiple requeue ch = record ch {
  sent = ch.sent ++ basic_nack delivery_tag multiple requeue ∷ [];
}

abbrev tag_or : Option String → Option String → Option String
tag_or none own = own
tag_or (some tag) own = some tag

-- `cancel`, of the given consumer or of the channel's own
unfoldable pub cancel : Option String → Arrival → Channel → Result MqError String × Channel
unfolding send_and_wait
cancel consumer_tag arrival ch = elim (tag_or consumer_tag ch.consumer_tag) [
  | none ↦ (err user_warning, ch)
  | some tag ↦ send_and_wait (basic_cancel tag) arrival ch
]
