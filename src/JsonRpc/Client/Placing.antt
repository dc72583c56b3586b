-- ===== src/JsonRpc/Client/Placing.antt =====
-- `exec_batch` of the client in ipapp/rpc/jsonrpc/main.py: each call gets the reply with its own id, in whatever
-- order the replies come.
use ipapp.Common.{ℕ, ◌≡◌, Bool, true, false, Option, some, List, [], ◌∷◌, String}
use ipapp.Common.Exec.{Result, ok, err}
use ipapp.JsonRpc.{Value}
use ipapp.JsonRpc.Client.{Reply, Sent, Outcome, nothing, ClientProtocol}
use ipapp.JsonRpc.Client.Answered.{answered_by, can_place}

module _ {Msg Json : Type 0} (proto : ClientProtocol Msg Json) where
  abbrev pub can_place_parsed : List Sent → Result String Reply → Bool
  can_place_parsed order (ok reply) = can_place order reply
  can_place_parsed order (err message) = false

  -- The reply can be read, and placed among the calls.
  abbrev pub CanPlace : List Sent → Json → Type 0
  CanPlace order r = can_place_parsed order (proto.parse_reply r) ≡ true

  abbrev pub answered_parsed : Result String Reply → Outcome → Sent → Outcome
  answered_parsed (ok reply) old s = answered_by reply old s
  answered_parsed (err message) old s = old

  -- The outcome of a call after these replies: the last one with its id counts.
  abbrev pub answer_from : Outcome → List Json → Sent → Outcome
  answer_from old [] s = old
  answer_from old (r ∷ rs) s = answer_from (answered_parsed (proto.parse_reply r) old s) rs s

  abbrev pub answer : List Json → Sent → Outcome
  answer rs s = answer_from nothing rs s

  -- What the library documents of the ids: no two requests have the same, and a one-way request has none.
  pub record HasFreshIds : Type 0 where
    pub fresh :
        (n m : ℕ) (method method' : String) (params params' : Option Value)
        (one_way one_way' : Bool) (k : ℕ)
        → (proto.create_request n method params one_way).1 ≡ some k
        → (proto.create_request m method' params' one_way').1 ≡ some k
        → n ≡ m
