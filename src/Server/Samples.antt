-- ===== src/Server/Samples.antt =====
-- A small server and stand-ins for what lies behind it, for the concrete inputs of the tests.
use feature_flags_control_pl.Shared.{
  ℕ, str_eq, ◌&&◌, if◌then◌else◌, true, none, some, [], ◌∷◌, Str, lit,
}
use feature_flags_control_pl.Shared.Int.{pos}
use feature_flags_control_pl.Flag.{FeatureFlag}
use feature_flags_control_pl.Breaker.{half_open_state}
use feature_flags_control_pl.Metrics.{CounterVec, new_counter, new_gauge}
use feature_flags_control_pl.Store.{Env}
use feature_flags_control_pl.Server.{BreakerConfig, Codec, Channel, Server, empty_body}
use feature_flags_control_pl.Server.Mux.{
  Decoders, HttpRequest, Picked, picked, refused, create_flag,
}

abbrev pub env : Env ℕ
env = record { command = λ r parts. (r, none); marshal_map = λ m. []; decode_map = λ s. none }

abbrev pub flag_named : Str → FeatureFlag
flag_named name = record { name = name; enabled = true; environment = lit "dev"; target_rules = [] }

abbrev pub half_open_config : BreakerConfig
half_open_config = record {
  route = lit "/a";
  state = half_open_state;
  error_threshold = record { num = pos 1; scale = 1 };
  latency_ms = pos 0;
  latency_threshold_ms = pos 250;
  last_transition_unix = pos 5;
}

-- The text of a flag is its name, and every breaker decodes to `half_open_config`.
abbrev pub codec : Codec
codec = record {
  marshal_flag = λ f. f.name;
  unmarshal_flag = λ t. some (flag_named t);
  marshal_flags = λ fs. lit "[]";
  marshal_experiment = λ e. e.name;
  unmarshal_experiment = λ t. none;
  marshal_breaker = λ b. b.route;
  unmarshal_breaker = λ t. some half_open_config;
  format_limit = λ n. lit "1";
  scan_limit = λ t. pos 1;
}

abbrev pub counter : CounterVec
counter = new_counter (lit "c") [] []

abbrev pub quiet : Channel
quiet = record { id = 0; waiting = [] }

abbrev pub start : Server ℕ
start = record {
  flags = (lit "old", flag_named (lit "old")) ∷ [];
  experiments = [];
  breakers = [];
  rate_limits = [];
  buckets = [];
  store = none;
  world = record { disk = record { files = []; writable = true }; redis = 0 };
  clients = (lit "all", quiet ∷ []) ∷ (lit "dev", quiet ∷ []) ∷ [];
  flag_evaluations = counter;
  variant_exposure = counter;
  conversion_events = counter;
  throttled_requests = counter;
  breaker_gauge = new_gauge (lit "g") [] [];
}

abbrev pub decoders : Decoders
decoders = record {
  flag = λ t. empty_body;
  context = λ t. empty_body;
  experiment = λ t. empty_body;
  limit = λ t. empty_body;
  limit_check = λ t. empty_body;
  breaker = λ t. empty_body;
  route = λ t. empty_body;
  report = λ t. empty_body;
  config = λ t. empty_body;
}

-- A table of one entry.
abbrev pub only_create_flag : Str → Str → Picked
only_create_flag method path =
    if str_eq method (lit "POST") && str_eq path (lit "/flags")
    then picked create_flag
    else refused 404

abbrev pub anonymous : HttpRequest
anonymous = record {
  request = record { method = lit "POST"; path = lit "/flags"; authorization = lit "Bearer x" };
  path_value = [];
  query = [];
  body = lit "{}";
  created = 0;
  now = 0;
  id = 0;
  duration = 1;
}
