-- ===== src/Server.antt =====
-- control-plane/main.go: the state that the handlers share, and what a handler answers. A request is
-- handled as one step: the locks of the source are held for parts of a handler, and two requests that
-- run at once are not modelled. A request's body is what `json.NewDecoder(...).Decode` made of it.
pub mod Auth
pub mod Payloads
pub mod Flags
pub mod Limits
pub mod Breakers
pub mod Experiments
pub mod Config
pub mod Sync
pub mod Stream
pub mod Middleware
pub mod Routing
pub mod Mux
pub mod States
pub mod Samples
mod Tests
use feature_flags_control_pl.Shared.{ℕ, Bool, Option, none, some, List, Str, lit, ◌++◌, Dict}
use feature_flags_control_pl.Shared.Int.{ℤ}
use feature_flags_control_pl.Flag.{FeatureFlag}
use feature_flags_control_pl.Experiment.{Experiment}
use feature_flags_control_pl.RateLimit.{TokenBucket}
use feature_flags_control_pl.Breaker.{Fraction, CircuitBreaker}
use feature_flags_control_pl.Metrics.{CounterVec, GaugeVec}
use feature_flags_control_pl.Store.Values.{Result}
use feature_flags_control_pl.Store.{Env, World, ConfigStore, store_set}

-- The exported fields of a breaker, which are all that JSON carries.
pub record BreakerConfig : Type 0 where
  pub route : Str
  pub state : Str
  pub error_threshold : Fraction
  pub latency_ms : ℤ
  pub latency_threshold_ms : ℤ
  pub last_transition_unix : ℤ

-- encoding/json on the stored values, and `%d` and `fmt.Sscan` on a limit. `scan_limit` has 0 for a
-- text that holds no number, as the variable that is scanned into keeps its 0.
pub record Codec : Type 0 where
  pub marshal_flag : FeatureFlag → Str
  pub unmarshal_flag : Str → Option FeatureFlag
  pub marshal_flags : List FeatureFlag → Str
  pub marshal_experiment : Experiment → Str
  pub unmarshal_experiment : Str → Option Experiment
  pub marshal_breaker : BreakerConfig → Str
  pub unmarshal_breaker : Str → Option BreakerConfig
  pub format_limit : ℤ → Str
  pub scan_limit : Str → ℤ

-- A subscriber of the event stream: its channel, which is compared by identity, and the texts that
-- wait in it.
pub record Channel : Type 0 where
  pub id : ℕ
  pub waiting : List Str

pub record Server (R : Type 0) : Type 0 where
  pub flags : Dict FeatureFlag
  pub experiments : Dict Experiment
  pub breakers : Dict CircuitBreaker
  pub rate_limits : Dict ℤ
  pub buckets : Dict TokenBucket
  pub store : Option ConfigStore
  pub world : World R
  pub clients : Dict (List Channel)
  pub flag_evaluations : CounterVec
  pub variant_exposure : CounterVec
  pub conversion_events : CounterVec
  pub throttled_requests : CounterVec
  pub breaker_gauge : GaugeVec

-- What `Decode` leaves: a value; nothing for an empty body; or an error, with the value filled so far.
pub data Decoded (A : Type 0) : Type 0 where
  parsed : A → Decoded A
  empty_body : Decoded A
  malformed : A → Decoded A

pub data Body : Type 0 where
  error : Str → Body
  one_flag : FeatureFlag → Body
  flag_list : List FeatureFlag → Body
  deleted : Str → Body
  evaluated : Str → Bool → Body
  one_experiment : Experiment → Body
  assigned : Str → Str → Str → Body
  recorded : Str → Str → Body
  rate_limit : Str → Str → Str → ℤ → Body
  resolved : Str → Str → Str → ℤ → Bool → Str → Body
  rate_allowed : Bool → Str → Body
  breaker_default : Str → Body
  breaker_view : CircuitBreaker → Body
  breaker_set : CircuitBreaker → Body
  breaker_allowed : Str → Bool → Str → Body
  breaker_report : CircuitBreaker → ℤ → Body
  config_value : Str → Str → Body
  panicked : Body

pub record Response : Type 0 where
  pub status : ℕ
  pub body : Body

abbrev pub json_ok : Body → Response
json_ok b = record { status = 200; body = b }

abbrev pub json_error : Str → ℕ → Response
json_error msg code = record { status = code; body = error msg }

-- The store and the world that a write leaves in the server.
unfoldable pub stored :
    {R : Type 0} → Server R → (ConfigStore × World R) × Result (Unit {0}) → Server R
stored s ((cs, w), _) = record s { store = some cs; world = w }

module _ {R : Type 0} (env : Env R) where
  unfoldable pub persist_in : Server R → Option ConfigStore → Str → Str → Server R
  persist_in s none key value = s
  persist_in s (some cs) key value = stored s (store_set env cs s.world key value)

  -- `persistJSON` on the marshalled value. A failed write is logged, and the handler goes on.
  unfoldable pub persist_json : Server R → Str → Str → Str → Server R
  persist_json s prefix name value = persist_in s s.store (prefix ++ name) value
