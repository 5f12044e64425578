-- ===== src/Server/Sync.antt =====
-- control-plane/main.go, `loadFromStore`: the periodic reload of everything from the store. `none`
-- means that the fuel for listing the store ran out.
pub mod Reloaded
pub mod Loaded
pub mod Synced
pub mod Kept
mod Tests
use feature_flags_control_pl.Shared.{
  ℕ, Bool, true, false, Option, none, some, List, [], ◌∷◌, ◌++◌, Str, lit, Dict, lookup, insert,
  trim_prefix, ◌==◌, if◌then◌else◌,
}
use feature_flags_control_pl.Shared.Int.{ℤ, pos, ltb_ℤ, leb_ℤ}
use mathlib.Core.Bool.{◌&&◌}
use feature_flags_control_pl.Flag.{FeatureFlag}
use feature_flags_control_pl.Experiment.{Experiment}
use feature_flags_control_pl.Breaker.{CircuitBreaker, restore_runtime_state, state_to_float}
use feature_flags_control_pl.Metrics.{GaugeVec, gauge_set}
use feature_flags_control_pl.Store.Values.{Result, ok, err}
use feature_flags_control_pl.Store.{Env, World, ConfigStore}
use feature_flags_control_pl.Store.Prefix.{get_all_by_prefix}
use feature_flags_control_pl.Server.{BreakerConfig, Codec, Server}
use feature_flags_control_pl.Server.Payloads.{flag_payloads_by_env, broadcast_changed_flag_payloads}

-- `if json.Unmarshal(v, &f) == nil { next[f.Name] = &f }`
unfoldable pub add_flag : Option FeatureFlag → Dict FeatureFlag → Dict FeatureFlag
add_flag none next = next
add_flag (some f) next = insert f.name f next

unfoldable pub add_experiment : Option Experiment → Dict Experiment → Dict Experiment
add_experiment none next = next
add_experiment (some e) next = insert e.name e next

-- A decoded breaker: the fields that JSON does not carry are zero.
unfoldable pub from_config : BreakerConfig → CircuitBreaker
from_config b = record {
  route = b.route;
  state = b.state;
  error_threshold = b.error_threshold;
  latency_ms = b.latency_ms;
  latency_threshold_ms = b.latency_threshold_ms;
  last_transition_unix = b.last_transition_unix;
  successes = 0;
  failures = 0;
  last_change = 0;
  open_duration = 0;
  probe_in_flight = false;
}

abbrev pub is_zero : ℤ → Bool
is_zero z = leb_ℤ z (pos 0) && leb_ℤ (pos 0) z

unfoldable pub restored : CircuitBreaker → ℕ → CircuitBreaker
restored cb now =
    let cb' = restore_runtime_state cb now in
    if is_zero cb'.latency_threshold_ms then record cb' { latency_threshold_ms = pos 250 } else cb'

unfoldable pub add_breaker : ℕ → Option BreakerConfig → Dict CircuitBreaker → Dict CircuitBreaker
add_breaker now none next = next
add_breaker now (some b) next = let cb = restored (from_config b) now in insert cb.route cb next

-- `CircuitBreakerStateGauge.WithLabelValues(route).Set(stateToFloat(cb.GetState()))`
unfoldable pub set_gauges : Dict CircuitBreaker → GaugeVec → GaugeVec
set_gauges [] g = g
set_gauges ((route, cb) ∷ m) g = set_gauges m (gauge_set g (route ∷ []) (state_to_float cb.state))

module _ (c : Codec) where
  unfoldable pub load_flags : Dict Str → Dict FeatureFlag → Dict FeatureFlag
  load_flags [] next = next
  load_flags ((_, v) ∷ entries) next = load_flags entries (add_flag (c.unmarshal_flag v) next)

  unfoldable pub load_experiments : Dict Str → Dict Experiment → Dict Experiment
  load_experiments [] next = next
  load_experiments ((_, v) ∷ entries) next =
      load_experiments entries (add_experiment (c.unmarshal_experiment v) next)

  unfoldable pub load_breakers : ℕ → Dict Str → Dict CircuitBreaker → Dict CircuitBreaker
  load_breakers now [] next = next
  load_breakers now ((_, v) ∷ entries) next =
      load_breakers now entries (add_breaker now (c.unmarshal_breaker v) next)

  pub load_limits : Dict Str → Dict ℤ → Dict ℤ
  load_limits [] next = next
  load_limits ((k, v) ∷ entries) next =
      load_limits entries (insert (trim_prefix k (lit "ratelimit:")) (c.scan_limit v) next)

-- What the four listings of the store returned.
pub record Listings : Type 0 where
  pub flags : Dict Str
  pub experiments : Dict Str
  pub breakers : Dict Str
  pub limits : Dict Str

module _ {R : Type 0} where
  -- A listing and then what follows it; the first error ends the reload.
  pub list_then :
      {A B : Type 0}
      → Option (World R × Result A)
      → (World R → A → Option (World R × Result B))
      → Option (World R × Result B)
  list_then none k = none
  list_then (some (w, err e)) k = some (w, err e)
  list_then (some (w, ok a)) k = k w a

module _ {R : Type 0} (env : Env R) (c : Codec) where
  pub list_store : ℕ → ConfigStore → World R → Option (World R × Result Listings)
  list_store fuel cs w = list_then (get_all_by_prefix env fuel cs w (lit "flag:")) λ w1 fs.
      list_then (get_all_by_prefix env fuel cs w1 (lit "experiment:")) λ w2 es.
        list_then (get_all_by_prefix env fuel cs w2 (lit "cb:")) λ w3 bs.
          list_then (get_all_by_prefix env fuel cs w3 (lit "ratelimit:")) λ w4 ls.
            some (w4, ok (record { flags = fs; experiments = es; breakers = bs; limits = ls }))

  -- The four maps are replaced, the gauges set, and the changes of the flag lists broadcast.
  unfoldable pub install : Server R → ℕ → Listings → Server R
  install s now l =
      let before = flag_payloads_by_env c s.flags in
      let flags' = load_flags c l.flags [] in
      let breakers' = load_breakers c now l.breakers [] in
      record s {
        flags = flags';
        experiments = load_experiments c l.experiments [];
        breakers = breakers';
        rate_limits = load_limits c l.limits [];
        breaker_gauge = set_gauges breakers' s.breaker_gauge;
        clients = broadcast_changed_flag_payloads before (flag_payloads_by_env c flags') s.clients;
      }

  unfoldable pub installed : Server R → ℕ → World R × Result Listings → Server R
  installed s now (w, err e) = record s { world = w }
  installed s now (w, ok l) = install (record s { world = w }) now l

  unfoldable pub load_in : ℕ → Server R → ℕ → Option ConfigStore → Option (Server R)
  load_in fuel s now none = some s
  load_in fuel s now (some cs) = elim (list_store fuel cs s.world) [
    | none ↦ none
    | some r ↦ some (installed s now r)
  ]

  unfoldable pub load_from_store : ℕ → Server R → ℕ → Option (Server R)
  load_from_store fuel s now = load_in fuel s now s.store
