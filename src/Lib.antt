-- ===== src/Lib.antt =====
-- ipapp is a framework for services: an application holds components (databases, queues, servers,
-- task managers), starts them, waits, and stops them in order. Its parts meet in the application's
-- registry; each one keeps its own state, and the task managers share theirs through a database.
--
-- App: ipapp/app.py and ipapp/component.py. The record `App` is the state of `BaseApplication`, with
--   the calls it has made as a trace. `add`, `get`, `start`, `stop`, `run` and `health` are the methods
--   of that name, `stop_comp` and `stop_one` the two halves of `_stop_comp`. A component's methods have
--   a fixed outcome: no exception, or a given one. `gather` runs its calls in order and raises the
--   first exception. The number that `stop_comp` counts down is the interpreter's limit on nested
--   calls: at zero it raises `recursion`, and the number of components is enough.
-- Tasks: ipapp/task/db.py. The record `Tables` holds `task_pending`, `task_arch`, `task_log`, the
--   sequence of ids and the stamp of the last tick; a table is the list of its rows in the order of a
--   scan. Each method of `Db` is one function on the tables, the methods of `TaskManager` are in
--   Tasks/Manager and Tasks/Cron, and Tasks/System has the step relation: a step is one statement or
--   transaction of some manager. Stamps and intervals are numbers of microseconds, `locked` says which
--   rows another session has locked, and the outcome of a handler is an argument. A change of time zone
--   is the identity on instants. The crontab library is a parameter: a function to the next time after a
--   given one, which Tasks/Cron/Exact assumes to be later and to skip none. The loop `missed` runs on
--   fuel, and one more than the current stamp is enough.
-- Rpc: ipapp/rpc/main.py, the classes `_Method` and `Executor`: what is known of a handler's parameters
--   (`Params`), the binding and validation of the arguments of a call, the registry and its dispatch.
--   A handler is a function from its arguments to a result; `inspect.getfullargspec` is the record `ArgSpec`,
--   and the JSON schema validators and the pydantic model of a handler are functions in its record.
-- Locks: ipapp/utils/lock/local.py, `LocalLock`. Locks/Sound has what each operation keeps, Locks/Exclusion
--   what holds of every order in which calls come, give up and leave.
-- JsonRpc: ipapp/rpc/jsonrpc/main.py, the class `JsonRpcExecutor` from a parsed request on: one request, a
--   batch, and `cast2dump`, over the registry of Rpc. The protocol library is a parameter, the record
--   `Protocol`, as is the document that `rpc.discover` returns. The number n of an error code is
--   written as negsuc (n - 1) for -n.
-- JsonRpc/Client: the classes `JsonRpcCall` and `JsonRpcClient` of the same file. The protocol library and the
--   transport are parameters; `exec_calls` is `exec_batch`, and `exec_call` is `_call`.
--   JsonRpc/RoundTrip puts client and server together, with the laws of the library that both rely on.
-- Spans: ipapp/logger/span.py and, in Spans/Logger, ipapp/logger/logger.py. A span's own fields are the record
--   `Span`; for the handling of finished spans, in Spans/Tree, a span is a tree with its children, and
--   `callback` is `_hasndle_spans`. The header names of the tracing library, the lower case of
--   a text and the merge of dicts are parameters with their documented laws.
-- Mq: ipapp/mq/pika.py and, in Mq/Calls, ipapp/rpc/mq/pika.py. What the broker does and when is an argument, as a
--   list of events or as the arrival that ends a wait; the calls of the pika library return. `connect` and `close` of
--   a connection, and `call` of the client, are split where they wait. `reconnect` is `_connect` without a limit
--   of attempts, run on as many attempts as are looked at.
-- Requests: ipapp/logger/adapters/requests.py. Requests/Draft has how a span becomes a row, Requests/Queue the queue
--   and the statements. What the database does at each statement is an argument; the loop of `stop` runs on
--   fuel, and one statement is enough. Whether a statement writes a value into its column is told by the
--   meaning of placeholders in Requests/Rows.
-- Pg: ipapp/db/pg.py. Pg/Connect has the attempts of `Postgres.prepare`. Pg/Transactions is
--   `TransactionContextManager` over the locks of Locks, split where `__aenter__` has the lock; a run is a list of events
--   of tasks on one connection. Pg/Queries has the methods of `Connection` and `PreparedStatement` on the span that
--   `wrap2span` gives them, with its finish; what asyncpg answers, the models, and the JSON encoder, which may raise, are arguments,
--   and a cursor is run on the rows that its caller reads.
-- RestRpc: ipapp/rpc/restrpc/main.py and error.py. RestRpc.antt is the server, over the registry of Rpc and with the values
--   and the `cast2dump` of JsonRpc, which is the same code here; RestRpc/Client is the client, RestRpc/RoundTrip both.
--   `exec_rest` is `exec`, and `exec_call` is `_call`. The texts on the wire are of any type, with `json` and the test for
--   UTF-8 as functions on it. RestRpc/Outcomes says which response each request calls for.
-- Http: ipapp/http/_base.py and ipapp/http/server.py. Http/Server is `_req_wrapper`, with the part before the handler
--   (`open_span`), the `finally` behind it (`close_span`) and the end of the span (`finish_http`); a request has one stamp,
--   and what its handler writes to the span is any function on spans.
--   Http/Health is the health check over the application of App. aiohttp's exceptions and texts are arguments.
-- Locks/Redis: ipapp/utils/lock/redis.py, any number of processes over one server; `SET NX` and `DEL` are operations on
--   the list of keys, and the expiry of a key is an event.
-- Prometheus: ipapp/logger/adapters/prometheus.py, over the spans of Spans. A histogram has the list of what it has
--   observed; the client library's check of label names is in `observe`.
-- Locks/Postgres: ipapp/utils/lock/pg.py over the local lock of Locks; what each round of the loop of `acquire` meets at the
--   database is an argument. A connection that is found closed has lost its advisory locks.
-- Common has the numbers, tests, lists, dicts and the monad of methods that all parts share.
--
-- Not modelled: log lines and most tracing spans around the calls of other parts, connection pools, the HTTP client and
-- the storage clients, which are I/O over other libraries, the Oracle client, the publishing and the handling of messages
-- of the queue, the documents that are generated from annotations, and the command line.
pub mod Common
pub mod App
pub mod Tasks
pub mod Rpc
pub mod Locks
pub mod JsonRpc
pub mod Spans
pub mod Mq
pub mod Requests
pub mod Pg
pub mod RestRpc
pub mod Http
pub mod Prometheus
