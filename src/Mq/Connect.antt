-- ===== src/Mq/Connect.antt =====
-- ipapp/mq/pika.py, class `Pika`: the attempts to connect, the opening of the channels, and how the component
-- comes back after the connection is lost.
use ipapp.Common.{
  ℕ, zero, suc, ◌+◌, ◌-◌, ◌≡◌, refl, String, Bool, true, false, ◌||◌, not, Option, none, some, List,
  [], ◌∷◌, leb, if◌then◌else◌, ◌==◌, arith, Bool-cases, inl, inr,
}
use ipapp.Common.Exec.{Result, ok, err}
use ipapp.Mq.{MqError, prepare_error}
use ipapp.Mq.Channel.{Channel, new_channel}

-- What a channel factory makes: a channel's name, and how its opening, its `prepare` and its `start` end.
pub record Factory : Type 0 where
  pub name : Option String
  pub opens : Option MqError
  pub prepares : Option MqError
  pub starts : Option MqError

-- The fields of `Pika`; a channel keeps how its `start` ends.
pub record Pika : Type 0 where
  pub channel_factories : List Factory
  pub channels : List (Factory × Channel)
  pub connected : Bool
  pub started : Bool

-- The loop of `_connect`: what is left of `max_attempts`, the number of the attempt, and how each attempt ends.
-- It returns the last value of `attempt`, and whether it ended by the `break`.
unfoldable pub attempts : ℕ → ℕ → (ℕ → Option MqError) → ℕ × Bool
attempts zero attempt outcome = (attempt, false)
attempts (suc left) attempt outcome =
    let more = attempts left (suc attempt) outcome in
    elim (outcome (suc attempt)) [ none ↦ (suc attempt, true) | some e ↦ more ]

abbrev first_raised : Option MqError → Option MqError → Option MqError
first_raised none e = e
first_raised (some e) _ = some e

-- `asyncio.gather` of the channels' `prepare` or `start`: the first exception.
abbrev gather : {A : Type 0} → (A → Option MqError) → List A → Option MqError
gather outcome [] = none
gather outcome (f ∷ fs) = first_raised (outcome f) (gather outcome fs)

abbrev as_result : Option MqError → Result MqError (Unit {0})
as_result none = ok tt
as_result (some e) = err e

-- The loop of `_open_channels`: the channels opened until one fails.
abbrev open_each : List Factory → Option MqError × List (Factory × Channel)
open_each [] = (none, [])
open_each (f ∷ fs) =
    let (e, chs) = open_each fs in
    elim f.opens [ none ↦ (e, (f, new_channel f.name) ∷ chs) | some raised ↦ (some raised, []) ]

-- `_open_channels`
unfoldable pub open_channels : Pika → Result MqError (Unit {0}) × Pika
open_channels p =
    let (e, chs) = open_each p.channel_factories in
    let p' = record p { channels = chs } in
    elim e [
      | some raised ↦ (err raised, p')
      | none ↦ (as_result (gather (λ f. f.prepares) p.channel_factories), p')
    ]

abbrev start_channels : Result MqError (Unit {0}) × Pika → Result MqError (Unit {0}) × Pika
start_channels (err e, p) = (err e, p)
start_channels (ok _, p) =
    (if p.started then as_result (gather (λ c. c.0.starts) p.channels) else ok tt, p)

-- `_connect`, with a limit on the attempts
unfoldable pub connect : ℕ → (ℕ → Option MqError) → Pika → Result MqError (Unit {0}) × Pika
connect max_attempts outcome p =
    let (attempt, broke) = attempts max_attempts 0 outcome in
    let p' = record p { connected = broke } in
    if leb max_attempts attempt then (err prepare_error, p') else start_channels (open_channels p')

-- `_connect` without a limit, as `_on_disconnect` calls it; the number is how many attempts are looked at.
unfoldable pub reconnect :
    ℕ → (ℕ → Option MqError) → Pika → Option (Result MqError (Unit {0}) × Pika)
unfolding attempts open_channels
reconnect fuel outcome p =
    let (attempt, broke) = attempts fuel 0 outcome in
    if broke then some (start_channels (open_channels (record p { connected = true }))) else none

-- `_on_disconnect`
unfoldable pub on_disconnect :
    ℕ → (ℕ → Option MqError) → Pika → Option (Result MqError (Unit {0}) × Pika)
unfolding reconnect
on_disconnect fuel outcome p = reconnect fuel outcome (record p { channels = [] })

-- `start`
unfoldable pub start : Pika → Result MqError (Unit {0}) × Pika
start p = start_channels (ok tt, record p { started = true })

abbrev has_name : String → Option String → Bool
has_name name none = false
has_name name (some n) = n == name

abbrev find : String → List (Factory × Channel) → Option Channel
find name [] = none
find name ((f, ch) ∷ chs) = if has_name name ch.name then some ch else find name chs

-- `channel`
unfoldable pub channel : String → Pika → Option Channel
channel name p = find name p.channels

abbrev pub is_none : Option MqError → Bool
is_none none = true
is_none (some e) = false

-- One of the next attempts succeeds.
abbrev pub succeeds_within : ℕ → ℕ → (ℕ → Option MqError) → Bool
succeeds_within zero attempt outcome = false
succeeds_within (suc left) attempt outcome =
    is_none (outcome (suc attempt)) || succeeds_within left (suc attempt) outcome

attempts-broke :
    (left attempt : ℕ) (outcome : ℕ → Option MqError)
    → (attempts left attempt outcome).1 ≡ succeeds_within left attempt outcome
unfolding attempts
attempts-broke zero attempt outcome = refl
attempts-broke (suc left) attempt outcome =
    ground (arith, attempts-broke left (suc attempt) outcome)

attempts-exhausted :
    (left attempt : ℕ) (outcome : ℕ → Option MqError)
    → leb (attempt + left) (attempts left attempt outcome).0
      ≡ not (succeeds_within (left - 1) attempt outcome)
unfolding attempts
attempts-exhausted zero attempt outcome = ground arith
attempts-exhausted (suc zero) attempt outcome = ground arith
attempts-exhausted (suc (suc left)) attempt outcome =
    ground (arith, attempts-exhausted (suc left) (suc attempt) outcome)

succeeds_within-pred :
    (left attempt : ℕ) (outcome : ℕ → Option MqError)
    → succeeds_within (left - 1) attempt outcome ≡ true
    → succeeds_within left attempt outcome ≡ true
succeeds_within-pred zero attempt outcome h = absurd (ground (arith, h))
succeeds_within-pred (suc zero) attempt outcome h = absurd (ground (arith, h))
succeeds_within-pred (suc (suc left)) attempt outcome h =
    ground (arith, succeeds_within-pred (suc left) (suc attempt) outcome, h)

-- With a limit of n attempts, `_connect` goes on to open the channels exactly if one of the first n - 1
-- succeeds. Otherwise it raises `PrepareError`, also if the last allowed attempt has succeeded; then the
-- connection is open.
pub connect_lem :
    (max_attempts : ℕ) (outcome : ℕ → Option MqError) (p : Pika)
    → connect max_attempts outcome p ≡ (
        if succeeds_within (max_attempts - 1) 0 outcome
        then start_channels (open_channels (record p { connected = true }))
        else (err prepare_error, record p { connected = succeeds_within max_attempts 0 outcome }))
unfolding connect
connect_lem max_attempts outcome p =
    let exhausted : leb max_attempts (attempts max_attempts 0 outcome).0
        ≡ not (succeeds_within (max_attempts - 1) 0 outcome) =
      ground (arith, attempts-exhausted max_attempts 0 outcome) in
    rw (connect, exhausted, attempts-broke max_attempts 0 outcome)
      (elim (Bool-cases (succeeds_within (max_attempts - 1) 0 outcome)) [
        | inl e ↦ rw (e, succeeds_within-pred max_attempts 0 outcome e) refl
        | inr e ↦ rw e refl
      ])
