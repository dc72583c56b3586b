-- ===== src/JsonRpc/Tests.antt =====
-- The theorems about ipapp/rpc/jsonrpc/main.py at a server with one method.
use ipapp.Common.{◌≡◌, refl, Bool, true, false, Option, none, some, List, [], ◌∷◌, String}
use ipapp.Common.Int.{negsuc}
use ipapp.Common.Dict.{Dict}
use ipapp.Common.Exec.{ok}
use ipapp.Rpc.{Method, Handler, exec, init, split_params}
use ipapp.JsonRpc.{
  Value, null, text, bytes, Request, Item, invalid_request, request, Protocol, Server, Raised,
  json_rpc_error, cast2dump, exec_single, exec_batch,
}
use ipapp.JsonRpc.Replies.{exec_batch_lem}

-- What a response says.
data Reply : Type 0 where
  result : Value → Reply
  failure : Raised → Reply
  refused : String → Reply
  told : Value → Reply

abbrev expects : List Item → Bool
expects [] = false
expects (invalid_request m ∷ items) = true
expects (request req ∷ items) = elim req.one_way [ true ↦ expects items | false ↦ true ]

abbrev data_of : Reply → Option Value
data_of (refused m) = some (bytes m)
data_of _ = none

abbrev with_data : Value → Reply → Reply
with_data v (refused m) = told v
with_data v r = r

abbrev protocol : Protocol Reply
protocol = record {
  respond = λ req v. result v;
  error_respond = λ req e. failure e;
  invalid_respond = refused;
  data_of = data_of;
  with_data = with_data;
  expects_response = expects;
}

abbrev greet : Handler Value
greet = record {
  rpc_name = "greet";
  spec = record { args = []; defaults = []; has_varkw = false; kwonlyargs = []; is_method = false };
  validators = [];
  model = none;
  func = λ args. ok (bytes "hello");
}

abbrev methods : Dict (Method Value)
methods =
    (
      "greet",
      record {
        params = split_params [] [] false;
        validators = [];
        model = none;
        func = λ args. ok (bytes "hello");
      },
    )
    ∷ []

abbrev server : Server
server = record {
  methods = methods;
  discover_enabled = true;
  discover_result = null;
  has_scheduler = true;
}

abbrev call_of : String → Bool → Request
call_of name one_way = record {
  method = name;
  args = [];
  kwargs = [];
  one_way = one_way;
  unique_id = some 1;
}

init-greet : init (greet ∷ []) ≡ ok methods
unfolding init
init-greet = refl

abbrev items : List Item
items =
    request (call_of "greet" false)
    ∷ request (call_of "greet" true)
    ∷ invalid_request "no method"
    ∷ request (call_of "part" false)
    ∷ []

exec_batch_lem_example :
    exec_batch protocol server items
    ≡ ok (
        some (
          result (text "hello")
          ∷ told (text "no method")
          ∷ failure (json_rpc_error (negsuc 32600) "Method not found" none)
          ∷ []))
unfolding exec_batch exec_single exec cast2dump
exec_batch_lem_example =
    exec_batch_lem protocol server (λ req v. refl) items refl (refl, (refl, (refl, (refl, tt))))
