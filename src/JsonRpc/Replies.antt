-- ===== src/JsonRpc/Replies.antt =====
-- The responses of `JsonRpcExecutor` in ipapp/rpc/jsonrpc/main.py: those of a batch are those of its items,
-- and an unknown method has its error code.
use ipapp.Common.{
  ◌≡◌, refl, sym, ap, map, Option, Bool, true, false, ◌&&◌, ◌||◌, none, some, List, [], ◌∷◌, ◌==◌,
  arith, if◌then◌else◌,
}
use ipapp.Common.Int.{negsuc}
use ipapp.Common.Lists.{All, contains}
use ipapp.Common.Exec.{Result, ok, err}
use ipapp.Rpc.{Exc, Handler, init, method_not_found}
use ipapp.Rpc.Dispatch.{rpc_names, exec-unknown}
use ipapp.JsonRpc.{
  Value, Raised, json_rpc_error, Request, Item, invalid_request, request, Protocol, Server,
  cast2dump, exec_method, exec_in_executor, map_exc, exec_single, batch_replies, exec_batch,
  respond_to, batch_reply, cast_data, append_cast, with_cast, dumped_reply, respond_cast,
}

abbrev pub is_ok : Result Exc Value → Bool
is_ok (ok v) = true
is_ok (err e) = false

abbrev dumps_data : Option Value → Bool
dumps_data none = true
dumps_data (some v) = is_ok (cast2dump v)

module _ {Resp : Type 0} (p : Protocol Resp) (srv : Server) where
  -- The data of the response, if it has any, can be dumped.
  abbrev pub dumps_response : Resp → Bool
  dumps_response r = dumps_data (p.data_of r)

  abbrev dumps : Request → Result Raised Value → Bool
  dumps req (ok v) = is_ok (cast2dump v)
  dumps req (err e) = dumps_response (p.error_respond req e)

  -- What the item is answered with, its result or the data of its error, can be dumped, if it is answered.
  abbrev pub can_dump : Item → Bool
  can_dump (invalid_request m) = dumps_response (p.invalid_respond m)
  can_dump (request req) = req.one_way || dumps req (exec_method srv req)

  -- The responses to the items, each one by itself.
  abbrev pub single_replies : List Item → List Resp
  single_replies [] = []
  single_replies (invalid_request m ∷ items) = p.invalid_respond m ∷ single_replies items
  single_replies (request req ∷ items) = elim (exec_single p srv req) [
    | none ↦ single_replies items
    | some r ↦ r ∷ single_replies items
  ]

  abbrev pub dumped_with : Resp → Option Value → Resp
  dumped_with r none = r
  dumped_with r (some v) = elim (cast2dump v) [ ok w ↦ p.with_data w r | err e ↦ r ]

  -- The response with its data, if it has any, dumped
  abbrev pub dumped : Resp → Resp
  dumped r = dumped_with r (p.data_of r)

  cast_data-dumped : (r : Resp) → dumps_response r ≡ true → cast_data p r ≡ ok (dumped r)
  unfolding cast_data
  cast_data-dumped r h = by_data (p.data_of r) h
    where
      by_cast :
          (c : Result Exc Value)
          → is_ok c ≡ true
          → with_cast p r c ≡ ok (elim c [ ok w ↦ p.with_data w r | err e ↦ r ])
      by_cast (ok w) g = refl
      by_cast (err e) g = absurd (cc)

      by_data :
          (d : Option Value)
          → dumps_data d ≡ true
          → (elim d [ none ↦ ok r | some v ↦ with_cast p r (cast2dump v) ]) ≡ ok (dumped_with r d)
      by_data none g = refl
      by_data (some v) g = by_cast (cast2dump v) g

  module _ (no_data : (req : Request) (v : Value) → p.data_of (p.respond req v) ≡ none) where
    dumped-respond : (req : Request) (v : Value) → dumped (p.respond req v) ≡ p.respond req v
    dumped-respond req v = ap (dumped_with (p.respond req v)) (no_data req v)

    dumped_reply-ok :
        (req : Request) (c : Result Exc Value) (rest : List Resp)
        → is_ok c ≡ true
        → dumped_reply p req c (ok rest) ≡ ok (dumped (respond_cast p req c) ∷ rest)
    dumped_reply-ok req (ok w) rest h = ap (λ r. ok (r ∷ rest)) (sym (dumped-respond req w))
    dumped_reply-ok req (err e) rest h = absurd (cc)

    reply-dumped :
        (req : Request) (r : Result Raised Value) (rest : List Resp)
        → dumps req r ≡ true
        → batch_reply p req r (ok rest) ≡ ok (dumped (respond_to p req r) ∷ rest)
    reply-dumped req (ok v) rest h = dumped_reply-ok req (cast2dump v) rest h
    reply-dumped req (err e) rest h =
        ap (λ c. append_cast c (ok rest)) (cast_data-dumped (p.error_respond req e) h)

    item-replies :
        (req : Request) (one_way : Bool) (r : Result Raised Value) (rest : List Resp)
        → (one_way || dumps req r) ≡ true
        → (if one_way then ok (map dumped rest) else batch_reply p req r (ok (map dumped rest)))
          ≡ ok (
              map dumped (elim (if one_way then none else some (respond_to p req r)) [
                | none ↦ rest
                | some x ↦ x ∷ rest
              ]))
    item-replies req true r rest h = refl
    item-replies req false r rest h = reply-dumped req r (map dumped rest) h

    batch_replies-single :
        (items : List Item)
        → All (λ i. can_dump i ≡ true) items
        → batch_replies p srv items ≡ ok (map dumped (single_replies items))
    unfolding batch_replies exec_single
    batch_replies-single [] h = refl
    batch_replies-single (invalid_request m ∷ items) h = rw (batch_replies-single items h.1) (
        ap (λ c. append_cast c (ok (map dumped (single_replies items))))
          (cast_data-dumped (p.invalid_respond m) h.0))
    batch_replies-single (request req ∷ items) h =
        rw (batch_replies-single items h.1)
          (item-replies req req.one_way (exec_method srv req) (single_replies items) h.0)

    -- Where the response to a result has no attribute `data`: if the results and the data of the errors can be dumped, a
    -- batch that has responses is answered, by the responses that its items have one by one, with the data of an error
    -- dumped, in their order: one for each invalid request and each request that is not one-way, errors included.
    pub exec_batch_lem :
        (items : List Item)
        → p.expects_response items ≡ true
        → All (λ i. can_dump i ≡ true) items
        → exec_batch p srv items ≡ ok (some (map dumped (single_replies items)))
    unfolding exec_batch
    exec_batch_lem items expects h = rw (expects, batch_replies-single items h) refl

  exec_in_executor-unknown :
      (hs : List (Handler Value)) (req : Request)
      → init hs ≡ ok srv.methods
      → contains req.method (rpc_names hs) ≡ false
      → (req.method == "rpc.discover") ≡ false
      → req.kwargs ≡ []
      → exec_in_executor srv req ≡ err method_not_found
  unfolding exec_in_executor
  exec_in_executor-unknown hs req built absent ordinary no_kwargs =
      let e : (srv.discover_enabled && (req.method == "rpc.discover")) ≡ false =
        ground (arith, ordinary) in
      rw (e, no_kwargs) (exec-unknown hs srv.methods req.method req.args built absent).1

  -- A request with no keyword arguments of a method that no handler of the registry has, nor `rpc.discover`, is answered by the error
  -- -32601, unless it is one-way.
  pub exec_single-unknown :
      (hs : List (Handler Value)) (req : Request)
      → init hs ≡ ok srv.methods
      → contains req.method (rpc_names hs) ≡ false
      → (req.method == "rpc.discover") ≡ false
      → req.kwargs ≡ []
      → req.one_way ≡ false
      → exec_single p srv req
        ≡ some (p.error_respond req (json_rpc_error (negsuc 32600) "Method not found" none))
  unfolding exec_single exec_method map_exc
  exec_single-unknown hs req built absent ordinary no_kwargs two_way =
      let unknown = exec_in_executor-unknown hs req built absent ordinary no_kwargs in
      rw (two_way, unknown) refl
