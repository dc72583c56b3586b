-- ===== src/RestRpc/Tests.antt =====
-- A client and a server of ipapp/rpc/restrpc/main.py, over a transport whose texts are JSON values, or no JSON.
use ipapp.Common.{ℕ, ◌≡◌, refl, ap, String, true, false, Option, none, some, [], ◌∷◌}
use ipapp.Common.Exec.{Result, ok, err}
use ipapp.Rpc.{Method, split_params, exec, raised_by_handler}
use ipapp.JsonRpc.{Value, Fields, null, number, text, mapping, no_field, field}
use ipapp.JsonRpc.{cast2dump}
use ipapp.RestRpc.{
  success, failure, exec_method, error_respond, serialize, Exceptions, coded, Json, Server, Failure,
  exec_rest,
}
use ipapp.RestRpc.Answers.{IsJson, Reads, document}
use ipapp.RestRpc.Outcomes.{IsStatus, exec_rest_lem}
use ipapp.RestRpc.Client.{encode, ClientError, Python, Call, result, convert_result, exec_call}
use ipapp.RestRpc.RoundTrip.{Brings, exec_call-exec_rest, exec_call-error_key}

abbrev load : Option Value → Result String Value
load (some v) = ok v
load none = err "no JSON"

abbrev json : Json (Option Value)
json = record { is_utf8 = λ t. true; dumps = λ v. ok (some v); loads = load }

json-IsJson : IsJson json
json-IsJson = record { loads-dumps = λ v h. (some v, refl, (refl, refl)) }

abbrev python : Python
python = record { str_of = λ v. ""; int_of = λ t. none; format_map = ok }

abbrev exceptions : Exceptions
exceptions = record { of_handler = λ name. coded 409 name (some null); text_of = λ e. "error" }

abbrev handler : Fields → Method Value
handler fs = record {
  params = split_params ("a" ∷ []) [] false;
  validators = [];
  model = none;
  func = λ args. ok (mapping fs);
}

abbrev refuses : Method Value
refuses = record {
  params = split_params ("a" ∷ []) [] false;
  validators = [];
  model = none;
  func = λ args. err (raised_by_handler "Conflict");
}

abbrev server : Server
server = record {
  methods =
      ("total", handler (field "total" (number 7) no_field))
      ∷ ("check", handler (field "error" (text "none found") no_field))
      ∷ ("refuse", refuses)
      ∷ [];
  has_scheduler = false;
}

abbrev text_of : Result Failure (Option Value × ℕ) → Option Value
text_of (ok (t, status)) = t
text_of (err e) = none

abbrev transport : Option Value → String → Option Value
transport content method = text_of (exec_rest json exceptions server content method)

transport-Brings : Brings json json-IsJson python exceptions server transport
transport-Brings content t method status h = ap text_of h

abbrev call_of : String → Call
call_of method = record {
  method = method;
  params = some (mapping (field "a" (number 1) no_field));
  one_way = false;
  model = none;
}

-- A handler's error with the code 409 is the status; data that is not true is left out.
exec_rest_refuse :
    exec_rest json exceptions server (some (mapping (field "a" (number 1) no_field))) "refuse"
    ≡ ok (some (document (failure 409 "Conflict" none)), 409)
unfolding exec_rest exec_method exec cast2dump error_respond serialize
exec_rest_refuse = refl

exec_rest_lem_example :
    (t : Option Value) × (status : ℕ) × (exec_rest json exceptions server
        (some (mapping (field "a" (number 1) no_field)))
        "refuse"
      ≡ ok (t, status))
    × IsStatus (failure 409 "Conflict" none) status
    × Reads json t (document (failure 409 "Conflict" none))
unfolding exec
exec_rest_lem_example =
    exec_rest_lem json json-IsJson exceptions server
      (some (mapping (field "a" (number 1) no_field))) "refuse" (failure 409 "Conflict" none) refl
      refl tt

exec_call-exec_rest_example :
    exec_call python json none transport (call_of "total")
    ≡ ok (result (mapping (field "total" (number 7) no_field)))
unfolding exec_method exec cast2dump convert_result
exec_call-exec_rest_example =
    exec_call-exec_rest json json-IsJson python exceptions server none transport (call_of "total")
      "a" (number 1) no_field (success (mapping (field "total" (number 7) no_field)))
      transport-Brings refl (tt, tt) refl (tt, tt) refl

exec_call-error_key_example :
    ((content t : Option Value) × (encode json (call_of "check") ≡ ok content)
      × (exec_rest json exceptions server content "check" ≡ ok (t, 200)))
    × ((x : ClientError) × (exec_call python json none transport (call_of "check") ≡ err x))
unfolding exec_method exec cast2dump
exec_call-error_key_example =
    exec_call-error_key json json-IsJson python exceptions server none transport (call_of "check")
      "a" (number 1) (text "none found") no_field (field "error" (text "none found") no_field)
      transport-Brings refl (tt, tt) refl refl (tt, tt) refl
