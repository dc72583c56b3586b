-- ===== src/Mq/Calls/Detail.antt =====
-- What a client of ipapp/rpc/mq/pika.py gets from the result of the method executor on the server.
use ipapp.Common.{◌≡◌, refl, none, some, eqb, inl, inr, Option-cases, if◌then◌else◌}
use ipapp.Mq.Calls.{MethodResult, response_of, fut_of, resolved, failed, pending}

-- A result reaches the caller as it is. An error reaches it with its code and message, but without the text of its
-- parent; an error with the code zero reaches it as the result that is beside it, or not at all if there is none.
pub fut_of-response_of :
    (r : MethodResult)
    → fut_of (response_of r) ≡ elim r.error [
      | none ↦ resolved r.result
      | some e ↦
          if eqb e.code 0
          then elim r.result [ none ↦ pending | some x ↦ resolved (some x) ]
          else failed (record { code = e.code; message = e.message; detail = none })
    ]
unfolding response_of
fut_of-response_of r = elim (Option-cases r.error) [
  | inl e ↦ rw e
  | inr (err, e) ↦
      rw e
        (elim r.result
          as (λ o. fut_of (response_of (record { error = some err; result = o })) ≡ (
            if eqb err.code 0
            then elim o [ none ↦ pending | some x ↦ resolved (some x) ]
            else failed (record { code = err.code; message = err.message; detail = none }))) [
              | none ↦ refl
              | some x ↦ refl
            ])
]
