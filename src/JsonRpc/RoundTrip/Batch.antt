-- ===== src/JsonRpc/RoundTrip/Batch.antt =====
-- A batch of `JsonRpcClient` that `JsonRpcExecutor` answers, both in ipapp/rpc/jsonrpc/main.py.
use ipapp.Common.{ℕ, suc, ◌≡◌, true, false, Option, none, List, [], ◌∷◌, if◌then◌else◌}
use ipapp.Common.Exec.{Result, ok, err}
use ipapp.Rpc.{Exc}
use ipapp.JsonRpc.{
  Value, Raised, raised, Request, Item, request, Protocol, Server, cast2dump, exec_method,
  respond_to,
}
use ipapp.JsonRpc.Dump.{IsPlainInfo}
use ipapp.JsonRpc.Client.{
  ClientError, Body, success, failure, Call, Sent, Outcome, nothing, ClientProtocol, dumped_params,
  outcome_of,
}
use ipapp.JsonRpc.Client.Answered.{value_of, is_made}
use ipapp.JsonRpc.Client.Placing.{HasFreshIds}
use ipapp.JsonRpc.RoundTrip.{Understands, request_of, IsFit}

-- The parameters of a call as they are sent
abbrev pub params_of : Call → Option Value
params_of c = elim (dumped_params c.params) [ ok params ↦ params | err e ↦ none ]

-- The parameters of a call can be dumped.
abbrev pub Dumps : Call → Type 0
Dumps c = dumped_params c.params ≡ ok (params_of c)

module _ {Msg Resp : Type 0} {p : Protocol Resp} {proto : ClientProtocol Msg Resp}
    (lib : Understands p proto) (ids : HasFreshIds proto) (srv : Server) where
  abbrev req : ℕ → Call → Request
  req n c = request_of lib n c (params_of c)

  abbrev sent_of : ℕ → Call → Sent
  sent_of n c = record { unique_id = (req n c).unique_id; model = c.model }

  abbrev order_of : ℕ → List Call → List Sent
  order_of n [] = []
  order_of n (c ∷ calls) = sent_of n c ∷ order_of (suc n) calls

  abbrev msgs_of : ℕ → List Call → List Msg
  msgs_of n [] = []
  msgs_of n (c ∷ calls) =
      (proto.create_request n c.method (params_of c) c.one_way).0 ∷ msgs_of (suc n) calls

  -- The items of the batch as the server receives it
  abbrev pub items_of : ℕ → List Call → List Item
  items_of n [] = []
  items_of n (c ∷ calls) = request (req n c) ∷ items_of (suc n) calls

  abbrev reply_to : ℕ → Call → Resp
  reply_to n c = respond_to p (req n c) (exec_method srv (req n c))

  abbrev replies : ℕ → List Call → List Resp
  replies n [] = []
  replies n (c ∷ calls) =
      let rest = replies (suc n) calls in if c.one_way then rest else reply_to n c ∷ rest

  abbrev dumped_body : Result Exc Value → Body
  dumped_body (ok w) = success w
  dumped_body (err e) =
      failure (lib.code_of (raised e)) (lib.message_of (raised e)) (lib.info_of (raised e))

  -- What a reply says of the execution of its request
  abbrev pub body_of : Result Raised Value → Body
  body_of (ok v) = dumped_body (cast2dump v)
  body_of (err e) = failure (lib.code_of e) (lib.message_of e) (lib.info_of e)

  -- The element of the result for one call
  abbrev pub outcome_at : ℕ → Call → Result ClientError Outcome
  outcome_at n c =
      if c.one_way then ok nothing else outcome_of c.model (body_of (exec_method srv (req n c)))

  -- The results of the calls, each one executed by itself
  abbrev pub outcomes : ℕ → List Call → List Outcome
  outcomes n [] = []
  outcomes n (c ∷ calls) = value_of (outcome_at n c) ∷ outcomes (suc n) calls

  -- Each result can be converted by the model of its call.
  abbrev pub Converts : ℕ → List Call → Type 0
  Converts n [] = Unit {0}
  Converts n (c ∷ calls) = (is_made (outcome_at n c) ≡ true) × Converts (suc n) calls

  -- The parameters that are sent, and what is answered, are fit for JSON.
  abbrev pub AreFit : ℕ → List Call → Type 0
  AreFit n [] = Unit {0}
  AreFit n (c ∷ calls) =
      IsPlainInfo (params_of c)
      × (c.one_way ≡ false → IsFit lib (exec_method srv (req n c)))
      × AreFit (suc n) calls

  -- The client reads what the server answers to this call.
  abbrev IsParsed : ℕ → Call → Type 0
  IsParsed n c =
      proto.parse_reply (reply_to n c)
      ≡ ok (record { unique_id = (req n c).unique_id; body = body_of (exec_method srv (req n c)) })
