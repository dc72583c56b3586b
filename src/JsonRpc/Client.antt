-- ===== src/JsonRpc/Client.antt =====
-- ipapp/rpc/jsonrpc/main.py, classes `JsonRpcCall` and `JsonRpcClient`: a call, a batch of calls, and the
-- placing of the replies. The protocol library and the transport are parameters. An exception mapping
-- callback is a function to the exception that it raises.
pub mod Answered
pub mod Placing
mod Tests
use ipapp.Common.{
  ℕ, zero, suc, ◌+◌, String, Bool, true, false, not, ◌&&◌, Option, none, some, List, [], ◌∷◌, map,
  eqb, if◌then◌else◌,
}
use ipapp.Common.Int.{ℤ, negsuc}
use ipapp.Common.Exec.{Result, ok, err}
use ipapp.Rpc.{Exc}
use ipapp.JsonRpc.{Value, null, cast2dump}

-- The exceptions of a client.
pub data ClientError : Type 0 where
  json_rpc_error : (code : Option ℤ) (message : String) (info : Option Value) → ClientError
  cast_error : Exc → ClientError
  model_error : String → ClientError
  invalid_reply : String → ClientError

-- What a reply says: the library's `JSONRPCSuccessResponse` and `JSONRPCErrorResponse`.
pub data Body : Type 0 where
  success : Value → Body
  failure : (code : ℤ) (message : String) (info : Option Value) → Body

pub record Reply : Type 0 where
  pub unique_id : Option ℕ
  pub body : Body

-- A model makes an object of a result, or refuses it.
abbrev pub Model : Type 0
Model = Value → Result String Value

-- The fields of `JsonRpcCall`, before it is encoded.
pub record Call : Type 0 where
  pub method : String
  pub params : Option Value
  pub one_way : Bool
  pub model : Option Model

-- A call that is encoded.
pub record Sent : Type 0 where
  pub unique_id : Option ℕ
  pub model : Option Model

-- An element of the tuple that `exec_batch` returns: `None`, a result, or an exception as a value.
pub data Outcome : Type 0 where
  nothing : Outcome
  result : Value → Outcome
  failed : (code : ℤ) (message : String) (info : Option Value) → Outcome

-- What a transport brings back for a batch, as `json.loads` reads it.
pub data Answer (Json : Type 0) : Type 0 where
  not_json : String → Answer Json
  json_list : List Json → Answer Json
  json_value : Json → Answer Json

-- The protocol library on the client's side. The number is how many requests it has made before.
pub record ClientProtocol (Msg Json : Type 0) : Type 0 where
  pub create_request : ℕ → String → Option Value → Bool → Msg × Option ℕ
  pub parse_reply : Json → Result String Reply

abbrev pub Callback : Type 0
Callback = Option ℤ → String → Option Value → ClientError

-- `_raise_jsonrpc_error`
abbrev pub mapped_error : Option Callback → Callback
mapped_error none code message info = json_rpc_error code message info
mapped_error (some callback) code message info = callback code message info

abbrev outcome_of_value : Value → Outcome
outcome_of_value null = nothing
outcome_of_value v = result v

abbrev made : Result String Value → Result ClientError Outcome
made (ok v) = ok (result v)
made (err message) = err (model_error message)

-- `_convert_result`
unfoldable pub convert_result : Option Model → Value → Result ClientError Outcome
convert_result model null = ok nothing
convert_result none v = ok (result v)
convert_result (some model) v = made (model v)

abbrev pub dumped_params : Option Value → Result ClientError (Option Value)
dumped_params none = ok none
dumped_params (some v) = elim (cast2dump v) [ ok w ↦ ok (some w) | err e ↦ err (cast_error e) ]

abbrev pub server_error : ℤ
server_error = negsuc 31999

-- `results_order.index(result.unique_id)`
abbrev pub index_of : ℕ → List Sent → Option ℕ
index_of k [] = none
index_of k (s ∷ order) =
    let rest : Option ℕ = elim (index_of k order) [ none ↦ none | some i ↦ some (suc i) ] in
    elim s.unique_id [ none ↦ rest | some j ↦ if eqb j k then some 0 else rest ]

abbrev pub model_at : ℕ → List Sent → Option Model
model_at i [] = none
model_at zero (s ∷ order) = s.model
model_at (suc i) (s ∷ order) = model_at i order

abbrev pub set : List Outcome → ℕ → Outcome → List Outcome
set [] i o = []
set (x ∷ xs) zero o = o ∷ xs
set (x ∷ xs) (suc i) o = x ∷ set xs i o

-- What is stored for a reply.
abbrev pub outcome_of : Option Model → Body → Result ClientError Outcome
outcome_of model (success v) = convert_result model v
outcome_of model (failure code message info) = ok (failed code message info)

abbrev pub store : List Outcome → ℕ → Result ClientError Outcome → Result ClientError (List Outcome)
store results i (ok o) = ok (set results i o)
store results i (err e) = err e

abbrev pub place_at : Option ℕ → List Sent → Body → List Outcome → Result ClientError (List Outcome)
place_at none order body results =
    err (json_rpc_error (some server_error) "Invalid reply: Unexpected request id" none)
place_at (some i) order body results = store results i (outcome_of (model_at i order) body)

-- The body of the loop over the replies.
abbrev pub place : List Sent → Reply → List Outcome → Result ClientError (List Outcome)
place order reply results = elim reply.unique_id [
  | none ↦ ok results
  | some k ↦ place_at (index_of k order) order reply.body results
]

abbrev pub all_one_way : List Call → Bool
all_one_way [] = true
all_one_way (c ∷ calls) = c.one_way && all_one_way calls

module _ {Msg Json : Type 0} (proto : ClientProtocol Msg Json) where
  abbrev pub place_parsed :
      List Sent → Result String Reply → List Outcome → Result ClientError (List Outcome)
  place_parsed order (ok reply) results = place order reply results
  place_parsed order (err message) results = err (json_rpc_error (some server_error) message none)

  -- The loop of `exec_batch` over the replies.
  unfoldable pub place_all :
      List Sent → List Json → List Outcome → Result ClientError (List Outcome)
  place_all order [] results = ok results
  place_all order (r ∷ rs) results = elim (place_parsed order (proto.parse_reply r) results) [
    | ok results' ↦ place_all order rs results'
    | err e ↦ err e
  ]

  abbrev pub encoded :
      ℕ → Call → Result ClientError (Option Value) → Result ClientError (Msg × Sent)
  encoded made_before call (ok params) =
      let (msg, id) = proto.create_request made_before call.method params call.one_way in
      ok (msg, record { unique_id = id; model = call.model })
  encoded made_before call (err e) = err e

  -- `JsonRpcCall._encode`; the parameters are a sequence or a mapping.
  unfoldable pub encode : ℕ → Call → Result ClientError (Msg × Sent)
  encode made_before call = encoded made_before call (dumped_params call.params)

  abbrev pub add_sent :
      Result ClientError (Msg × Sent)
      → Result ClientError (List Msg × List Sent)
      → Result ClientError (List Msg × List Sent)
  add_sent (ok (msg, s)) (ok (msgs, order)) = ok (msg ∷ msgs, s ∷ order)
  add_sent (ok _) (err e) = err e
  add_sent (err e) _ = err e

  -- The loop of `exec_batch` over the calls.
  unfoldable pub encode_all : ℕ → List Call → Result ClientError (List Msg × List Sent)
  unfolding encode
  encode_all made_before [] = ok ([], [])
  encode_all made_before (c ∷ calls) =
      add_sent (encode made_before c) (encode_all (suc made_before) calls)

  abbrev refused_reply : Option Callback → Result String Reply → Result ClientError (List Json)
  refused_reply callback (err message) = err (invalid_reply message)
  refused_reply callback (ok reply) = elim reply.body [
    | success v ↦ err (mapped_error callback none "Invalid reply" none)
    | failure code message info ↦ err (mapped_error callback (some code) message info)
  ]

  -- `_send_batch_request`, from the answer of the transport on
  unfoldable pub read_batch :
      Option Callback → Bool → Answer Json → Result ClientError (Option (List Json))
  read_batch callback false answer = ok none
  read_batch callback true (not_json message) = err (mapped_error callback none message none)
  read_batch callback true (json_list rs) = ok (some rs)
  read_batch callback true (json_value j) = elim (refused_reply callback (proto.parse_reply j)) [
    | ok rs ↦ ok (some rs)
    | err e ↦ err e
  ]

  abbrev pub nothings : List Sent → List Outcome
  nothings order = map (λ s. nothing) order

  abbrev pub place_batch :
      List Sent → Result ClientError (Option (List Json)) → Result ClientError (List Outcome)
  place_batch order (ok none) = ok (nothings order)
  place_batch order (ok (some rs)) = place_all order rs (nothings order)
  place_batch order (err e) = err e

  abbrev pub exec_encoded :
      Option Callback
      → (List Msg → Answer Json)
      → Bool
      → Result ClientError (List Msg × List Sent)
      → Result ClientError (List Outcome)
  exec_encoded callback transport one_way (err e) = err e
  exec_encoded callback transport one_way (ok (msgs, order)) =
      place_batch order (read_batch callback (not one_way) (transport msgs))

  -- `JsonRpcClient.exec_batch`
  unfoldable pub exec_calls :
      Option Callback → (List Msg → Answer Json) → ℕ → List Call → Result ClientError (List Outcome)
  unfolding encode_all read_batch
  exec_calls callback transport made_before [] = ok []
  exec_calls callback transport made_before (c ∷ calls) =
      exec_encoded callback transport (all_one_way (c ∷ calls)) (encode_all made_before (c ∷ calls))

  abbrev read_body : Option Callback → Option Model → Body → Result ClientError Outcome
  read_body callback model (success v) = convert_result model v
  read_body callback model (failure code message info) =
      err (mapped_error callback (some code) message info)

  abbrev read_reply :
      Option Callback → Option Model → Result String Reply → Result ClientError Outcome
  read_reply callback model (ok reply) = read_body callback model reply.body
  read_reply callback model (err message) = err (json_rpc_error (some server_error) message none)

  -- `_send_single_request` and the conversion of its result
  unfoldable pub send_single :
      Option Callback → (Msg → Json) → Bool → Msg × Sent → Result ClientError Outcome
  send_single callback transport true (msg, s) = ok nothing
  send_single callback transport false (msg, s) =
      read_reply callback s.model (proto.parse_reply (transport msg))

  abbrev pub call_encoded :
      Option Callback
      → (Msg → Json)
      → Bool
      → Result ClientError (Msg × Sent)
      → Result ClientError Outcome
  call_encoded callback transport one_way (ok sent) = send_single callback transport one_way sent
  call_encoded callback transport one_way (err e) = err e

  -- `JsonRpcCall._call`
  unfoldable pub exec_call : Option Callback → (Msg → Json) → ℕ → Call → Result ClientError Outcome
  unfolding encode send_single convert_result
  exec_call callback transport made_before call =
      call_encoded callback transport call.one_way (encode made_before call)
