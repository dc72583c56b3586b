-- ===== src/JsonRpc/RoundTrip/Tests.antt =====
-- A client and a server of ipapp/rpc/jsonrpc/main.py over a protocol whose messages are the requests themselves.
use ipapp.Common.{ℕ, ◌≡◌, refl, String, Bool, true, false, Option, none, some, List, [], ◌∷◌}
use ipapp.Common.Int.{ℤ, negsuc}
use ipapp.Common.Exec.{Result, ok, err}
use ipapp.Rpc.{Method, split_params, exec}
use ipapp.JsonRpc.{
  Value, Values, null, sequence, no_value, value, Raised, json_rpc_error, raised, Request, Protocol,
  Server, bytes, cast2dump, exec_method, respond_to,
}
use ipapp.JsonRpc.Client.{
  ClientError, Body, Reply, success, failure, Call, ClientProtocol, exec_call,
}
use ipapp.JsonRpc.{request, exec_batch}
use ipapp.JsonRpc.Client.{Answer, json_list, not_json}
use ipapp.Rpc.{Exc}
use ipapp.Common.{map, ap, sym}
use ipapp.JsonRpc.RoundTrip.{Understands}

abbrev values : Values → List Value
values no_value = []
values (value v vs) = v ∷ values vs

abbrev args : Option Value → List Value
args (some (sequence vs)) = values vs
args _ = []

abbrev id_of : ℕ → Bool → Option ℕ
id_of n true = none
id_of n false = some n

abbrev protocol_client : ClientProtocol Request Reply
protocol_client = record {
  create_request = λ n method params one_way. (
    record {
      method = method;
      args = args params;
      kwargs = [];
      one_way = one_way;
      unique_id = id_of n one_way;
    },
    id_of n one_way,
  );
  parse_reply = ok;
}

abbrev code : Raised → ℤ
code (json_rpc_error c message info) = c
code (raised e) = negsuc 31999

abbrev message : Raised → String
message (json_rpc_error c m info) = m
message (raised e) = "Server error"

abbrev data_of : Body → Option Value
data_of (success v) = none
data_of (failure c m info) = info

abbrev with_data : Value → Body → Body
with_data v (success w) = success w
with_data v (failure c m info) = failure c m (some v)

with_data-same : (b : Body) (v : Value) → data_of b ≡ some v → with_data v b ≡ b
with_data-same (success w) v h = absurd (cc)
with_data-same (failure c m info) v h = ap (failure c m) (sym h)

abbrev protocol_server : Protocol Reply
protocol_server = record {
  respond = λ req v. record { unique_id = req.unique_id; body = success v };
  error_respond =
      λ req e. record { unique_id = req.unique_id; body = failure (code e) (message e) none };
  invalid_respond = λ m. record { unique_id = none; body = failure (negsuc 32599) m none };
  expects_response = λ items. true;
  data_of = λ r. data_of r.body;
  with_data = λ v r. record r { body = with_data v r.body };
}

abbrev understands : Understands protocol_server protocol_client
understands = record {
  receive = λ msg. msg;
  args_of = args;
  kwargs_of = λ params. [];
  code_of = code;
  message_of = message;
  info_of = λ e. none;
  received = λ n method params one_way h. refl;
  own_id = λ n method params. (n, refl);
  read_result = λ req v two_way h. refl;
  read_error = λ req e two_way h. refl;
  no_data = λ req v. refl;
  own_data = λ req e. refl;
  same_data = λ r v h i. record { unique_id = r.unique_id; body = with_data-same r.body v h i };
  own_code = λ c m info. (refl, refl);
}

abbrev greet : Method Value
greet = record {
  params = split_params [] [] false;
  validators = [];
  model = none;
  func = λ args. ok (bytes "hello");
}

abbrev server : Server
server = record {
  methods = ("greet", greet) ∷ [];
  discover_enabled = true;
  discover_result = null;
  has_scheduler = true;
}

abbrev transport : Request → Reply
transport msg = respond_to protocol_server msg (exec_method server msg)

abbrev call_of : String → Call
call_of name = record { method = name; params = none; one_way = false; model = none }

unknown_call :
    exec_call protocol_client none transport 4 (call_of "part")
    ≡ err (ClientError.json_rpc_error (some (negsuc 32600)) "Method not found" none)
unfolding exec_call exec_method exec cast2dump
unknown_call = refl

abbrev calls : List Call
calls = call_of "part" ∷ record (call_of "greet") { one_way = true } ∷ call_of "greet" ∷ []

abbrev replies_of : Result Exc (Option (List Reply)) → Answer Reply
replies_of (ok (some rs)) = json_list rs
replies_of _ = not_json "no answer"

abbrev batch_transport : List Request → Answer Reply
batch_transport msgs =
    replies_of (exec_batch protocol_server server (map (λ msg. request msg) msgs))
