-- ===== src/Sdk/Tests.antt =====
-- The Go client at concrete inputs.
use feature_flags_control_pl.Shared.{
  ℕ, ◌+◌, ◌≡◌, refl, true, arith, none, some, Option, List, [], ◌∷◌, Str, lit, lookup, str_eq, All,
  trim_space, is_empty,
}
use feature_flags_control_pl.Flag.{EvalContext}
use feature_flags_control_pl.Breaker.{CircuitBreaker}
use feature_flags_control_pl.Server.{Server}
use feature_flags_control_pl.Server.Samples.{codec, start, half_open_config}
use feature_flags_control_pl.Server.Sync.{from_config}
use feature_flags_control_pl.Server.Breakers.{get_circuit_breaker_handler}
use feature_flags_control_pl.Server.Stream.Fifo.{Frame, update, ping, bytes, messages}
use feature_flags_control_pl.Json.{answer, decoding}
use feature_flags_control_pl.Sdk.{get_circuit_breaker_state}
use feature_flags_control_pl.Sdk.Answers.{get_circuit_breaker_state-known}
use feature_flags_control_pl.Sdk.Polling.{Client, no_event, connect_sse}
use feature_flags_control_pl.Sdk.Cached.{poll, latest, Current, poll-latest}
use feature_flags_control_pl.Metrics.Registry.{qps, latency, error_rate}
use feature_flags_control_pl.Server.Auth.{Request, request_requires_auth, pass, auth_middleware}
use feature_flags_control_pl.Server.Stream.{net_http}
use feature_flags_control_pl.Sdk.Streaming.{start_sse}
use feature_flags_control_pl.Sdk.Streaming.Refused.{Round, answers_in, start_sse-refused}
use feature_flags_control_pl.Sdk.Events.{is_one_line, follow, connect_sse-follow}

abbrev stopped : CircuitBreaker
stopped = from_config (record half_open_config { state = lit "open" })

abbrev with_breaker : Server ℕ
with_breaker = record start { breakers = (lit "/a", stopped) ∷ [] }

stopped_found : lookup (lit "/a") with_breaker.breakers ≡ some stopped
unfolding lookup str_eq
stopped_found = refl

get_circuit_breaker_state-known_example :
    get_circuit_breaker_state (answer (get_circuit_breaker_handler with_breaker (lit "/a")).1)
    ≡ (lit "closed", some decoding)
get_circuit_breaker_state-known_example =
    get_circuit_breaker_state-known with_breaker (lit "/a") stopped stopped_found

abbrev alice : EvalContext
alice = record { user_id = lit "alice"; tenant_id = []; headers = [] }

-- Flags are texts here, and the empty text is none.
abbrev decode : Str → Option Str
decode [] = none
decode (c ∷ s) = some (c ∷ s)

abbrev client : Client Str
client = record { last_config = []; flags = []; has_callback = true; updates = [] }

abbrev polled : List (Option Str)
polled = some (lit "[1]") ∷ none ∷ some (lit "[2]") ∷ some [] ∷ []

poll-latest_example :
    ((poll decode client polled).flags ≡ latest decode client.flags polled)
    × Current decode (poll decode client polled)
poll-latest_example = poll-latest decode client polled (λ f d. absurd (ground arith))

-- The control plane counts the fetches.
abbrev fetch : ℕ → ℕ × Option Str
fetch n = (n + 1, some (lit "[2]"))

abbrev frames : List Frame
frames = update (lit "[]") ∷ ping ∷ update (lit "[1]") ∷ []

one_lines : All (λ msg. is_one_line msg ≡ true) (messages frames)
unfolding messages is_one_line
one_lines = (refl, (refl, tt))

connect_sse-follow_example :
    connect_sse decode fetch 0 client no_event [] (bytes frames)
    ≡ follow decode fetch 0 client frames
connect_sse-follow_example = connect_sse-follow decode fetch 0 client frames one_lines

abbrev stream_visit : Request
stream_visit = record { method = lit "GET"; path = lit "/flags/stream"; authorization = [] }

abbrev round : Round ℕ
round = record {
  request = stream_visit;
  id = 1;
  duration = 2;
  writer = net_http;
  traffic = record { qps = qps; latency = latency; error_rate = error_rate };
  server = start;
  body = lit "streaming not supported";
}

stream_visit_passes : auth_middleware (lit "t") stream_visit ≡ pass
unfolding auth_middleware request_requires_auth trim_space is_empty str_eq
stream_visit_passes = refl

start_sse-refused_example :
    start_sse decode fetch 0 client (answers_in codec (lit "dev") (lit "t") (round ∷ round ∷ []))
    ≡ (0, client)
start_sse-refused_example =
    start_sse-refused codec (lit "dev") (lit "t") decode fetch 0 client (round ∷ round ∷ [])
      (stream_visit_passes, (stream_visit_passes, tt))
