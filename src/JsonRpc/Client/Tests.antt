-- ===== src/JsonRpc/Client/Tests.antt =====
-- The theorem about the batches of a client of ipapp/rpc/jsonrpc/main.py at three calls.
use ipapp.Common.{ℕ, String, Bool, true, false, Option, none, some, List, [], ◌∷◌}
use ipapp.Common.Int.{negsuc}
use ipapp.Common.Exec.{ok}
use ipapp.JsonRpc.{number}
use ipapp.JsonRpc.Client.{success, failure, Reply, Call, Sent, ClientProtocol}

-- A message is its number, and so is its id.
abbrev id_of : ℕ → Bool → Option ℕ
id_of n true = none
id_of n false = some n

abbrev protocol : ClientProtocol ℕ Reply
protocol = record {
  create_request = λ n method params one_way. (n, id_of n one_way);
  parse_reply = ok;
}

abbrev call_of : String → Bool → Call
call_of method one_way = record { method = method; params = none; one_way = one_way; model = none }

abbrev calls : List Call
calls = call_of "a" false ∷ call_of "b" true ∷ call_of "c" false ∷ []

abbrev order : List Sent
order =
    record { unique_id = some 4; model = none }
    ∷ record { unique_id = none; model = none }
    ∷ record { unique_id = some 6; model = none }
    ∷ []

-- The replies come in another order.
abbrev replies : List Reply
replies =
    record { unique_id = some 6; body = failure (negsuc 32600) "Method not found" none }
    ∷ record { unique_id = some 4; body = success (number 9) }
    ∷ []
