-- ===== src/Lib.antt =====
-- The control plane for feature flags, experiments, rate limits and circuit breakers, its Go client
-- and its demo service.
--
-- The control plane is an HTTP server in Go (control-plane/). Handlers change maps of flags,
-- experiments, rate limits and breakers in memory, write each change to a key-value store and send
-- the new flag lists to the subscribers of an event stream. Every two seconds the maps are loaded
-- from the store again, so that several servers over one Redis follow each other. The Go client
-- (sdk/sdk.go) asks these handlers and keeps a copy of the flags, by polling or by following the
-- event stream. The demo service (microservice-demo/main.go) guards its action by the breaker and
-- the rate limiter of the control plane, and records incoming requests for a later replay.
--
-- Flag: control-plane/featureflag.go (`FeatureFlag`, `TargetRule`, `EvalContext`, `IsFlagEnabled`,
-- `hashString`). Flag/Rules describes when one rule matches, Flag/Eval and Flag/Rollout use it.
--
-- Experiment: control-plane/experiment.go (`AssignVariant`, `RecordConversion`).
--
-- RateLimit: the first half of control-plane/ratelimit.go (`Allow`, `rateLimitScopeKey`,
-- `resolveRateLimit`). RateLimit/Buckets is about one bucket, RateLimit/Traffic about calls of
-- `Allow` for any routes, RateLimit/Scopes about the resolution of limits.
--
-- Breaker: the second half of control-plane/ratelimit.go (`CircuitBreaker` and its methods).
-- Breaker/Steps treats the operations as steps of a state machine.
--
-- Store: control-plane/configstore.go (`ConfigStore` and its methods). Store/Values holds the values
-- of the Redis protocol and the decoding of a SCAN answer, Store/Prefix the listing by prefix,
-- Store/Resp the protocol's bytes (`readRESP`, `readRESPLine`, the command that `redisCommand`
-- writes), Store/History any sequence of writes and deletes against a plain map.
--
-- Metrics: control-plane/metrics.go. The module itself has counters, gauges and histograms,
-- Metrics/Labels the label texts, Metrics/Text the three `writePrometheus` and `ServeMetrics`,
-- Metrics/Registry the metrics that are registered.
--
-- Tracing: control-plane/tracing.go (`Start`, `SetAttributes` and the line of `End`).
--
-- Server: control-plane/main.go. The record `Server` holds the package variables; a handler is a
-- function from it and the request to the new state and the response. Server/Auth has the token
-- middleware, Server/Payloads the flag lists and `broadcastSSE`, Server/Stream `flagsSSEHandler`,
-- Server/Flags, Server/Experiments, Server/Limits, Server/Breakers and Server/Config the other
-- handlers, Server/Sync `loadFromStore`, Server/Routing `pathVar` and `routeParam`,
-- Server/Middleware the three middlewares in their order, and Server/Mux the table of `main`, a
-- request on its way to its handler and requests one after the other. Server/States has the state at
-- the start, the states that requests and reloads lead to, the text of /metrics, and what holds in
-- all those states. Server/Samples holds inputs that the tests share.
--
-- Json: the objects that the handlers answer with (`jsonOK`, `jsonError`), and what a client takes
-- from an object. Through it the clients of Sdk and Demo meet the handlers of Server.
--
-- Sdk: sdk/sdk.go. The module itself has each request and the reading of its answer, Sdk/Polling the
-- copy of the flags and the reader of an event stream, Sdk/Streaming the connections to it.
--
-- Demo: microservice-demo/main.go. The module itself has the captured traffic, Demo/Replay its
-- listing and its replay, Demo/Client the questions to the control plane, Demo/Action the three
-- handlers that ask them, Demo/Seed the seed data and the text of /metrics.
--
-- Shared has byte strings, maps as association lists, signed integers over the native numbers and
-- the lemmas on them. A map's `range` loop visits the entries in the order of the list, which stands
-- for any order.
--
-- Parameters. The Redis server is a function from its own state and a command to a new state and an
-- answer (`Env.command`), the JSON codec a record of functions (`Env`, `Codec`), and the file system
-- a map of files and whether writes succeed (`Disk`): a failed `os.WriteFile` is one that wrote
-- nothing. The time is an argument of each operation, and so are the random bytes of a trace id. The
-- body of a request is what the JSON decoder made of it: a value, an empty body or an error. The
-- network of the clients is a function from its own state and a request to a new state and an answer
-- (a replayed request may also change the state of the demo service), the mux of net/http a function
-- that picks an entry of the table, and the verb %g of package fmt a function of the number.
--
-- Bounds. The hash and the counters wrap around at 32 and at 64 bits. Limits, latencies and rollouts
-- are unbounded integers, and the outcome counters of a breaker and the sequence number of a
-- captured request are unbounded. Tokens are billionths of a token, an error threshold is the
-- fraction num / 2 ^ scale, and observed latencies are whole milliseconds: float64 rounding is left
-- out. A channel of the event stream holds 16 messages, the buffer of the demo service 2000
-- requests. The SCAN loop takes fuel and returns none when it runs out; one unit for each page is
-- enough, and the file store needs none. The reader of the protocol takes fuel for nested arrays:
-- more than the length of its input is enough.
--
-- Not modelled: requests that run at once, each of which is one step here, with the locks they take;
-- a handler that panics, which net/http recovers from; the network under the store, its timeouts,
-- and the pauses between two polls or two connections; the start and the shutdown of the processes;
-- the text of the landing and health pages, logs and response headers; the JavaScript and Python
-- clients in sdk/ and the manifests in deploy/, which are not Go code.
pub mod Shared
pub mod Flag
pub mod Metrics
pub mod RateLimit
pub mod Breaker
pub mod Store
pub mod Experiment
pub mod Server
pub mod Tracing
pub mod Json
pub mod Sdk
pub mod Demo
