-- ===== src/Server/States/Shown.antt =====
-- The gauge of the circuit breakers shows their states.
use mathlib.Core.Option.{some-injective}
use feature_flags_control_pl.Shared.{
  ℕ, ◌≡◌, refl, sym, ap, ◌∙◌, Bool-cases, inl, inr, none, some, Option, [], ◌∷◌, Str, arith, str_eq,
  str_eq_iff, Dict, lookup, insert, lookup-insert, Distinct, insert-Distinct,
}
use feature_flags_control_pl.Breaker.{CircuitBreaker, state_to_float}
use feature_flags_control_pl.Metrics.{GaugeVec, gauge_set, gauge_value}
use feature_flags_control_pl.Metrics.Gauges.{gauge_value-set}
use feature_flags_control_pl.Server.{BreakerConfig, Codec}
use feature_flags_control_pl.Server.Sync.{
  from_config, restored, add_breaker, load_breakers, set_gauges,
}

-- For each breaker of the map, the value of its route is that of its state.
abbrev pub Shows : Dict CircuitBreaker → GaugeVec → Type 0
Shows bs g =
    (k : Str) (cb : CircuitBreaker)
    → lookup k bs ≡ some cb
    → gauge_value g (k ∷ []) ≡ state_to_float cb.state

pub insert-Shows :
    (bs : Dict CircuitBreaker) (g : GaugeVec) (route : Str) (cb : CircuitBreaker)
    → Shows bs g
    → Shows (insert route cb bs) (gauge_set g (route ∷ []) (state_to_float cb.state))
insert-Shows bs g route cb h k b found = elim (Bool-cases (str_eq route k)) [
  | inl same ↦
      let e : some cb ≡ some b = sym (rw (lookup-insert, same) refl) ∙ found in
      rw (gauge_value-set, same) (ap (λ x. state_to_float x.state) (some-injective cb b e))
  | inr other ↦ rw (gauge_value-set, other) (h k b (sym (rw (lookup-insert, other) refl) ∙ found))
]

set_gauges-other :
    (m : Dict CircuitBreaker) (g : GaugeVec) (k : Str)
    → lookup k m ≡ none
    → gauge_value (set_gauges m g) (k ∷ []) ≡ gauge_value g (k ∷ [])
unfolding set_gauges lookup
set_gauges-other [] g k missing = refl
set_gauges-other ((j, cb) ∷ m) g k missing = elim (Bool-cases (str_eq j k)) [
  | inl same ↦ absurd (ground arith)
  | inr other ↦
      set_gauges-other m (gauge_set g (j ∷ []) (state_to_float cb.state)) k (ground arith)
      ∙ rw (gauge_value-set, other) refl
]

pub set_gauges-Shows :
    (m : Dict CircuitBreaker) (g : GaugeVec) → Distinct m → Shows m (set_gauges m g)
unfolding set_gauges lookup
set_gauges-Shows [] g d k b found = absurd (ground arith)
set_gauges-Shows ((j, cb) ∷ m) g (fresh, d) k b found = elim (Bool-cases (str_eq j k)) [
  | inl same ↦
      let e : some cb ≡ some b = sym (rw same refl) ∙ found in
      let absent : lookup k m ≡ none = ground (arith, str_eq_iff j k) in
      set_gauges-other m (gauge_set g (j ∷ []) (state_to_float cb.state)) k absent
      ∙ rw (gauge_value-set, same) (ap (λ x. state_to_float x.state) (some-injective cb b e))
  | inr other ↦
      set_gauges-Shows m (gauge_set g (j ∷ []) (state_to_float cb.state)) d k b (ground arith)
]

add_breaker-Distinct :
    (now : ℕ) (o : Option BreakerConfig) (next : Dict CircuitBreaker)
    → Distinct next
    → Distinct (add_breaker now o next)
unfolding add_breaker
add_breaker-Distinct now none next d = d
add_breaker-Distinct now (some b) next d = insert-Distinct _ (restored (from_config b) now) next d

pub load_breakers-Distinct :
    (c : Codec) (now : ℕ) (entries : Dict Str) (next : Dict CircuitBreaker)
    → Distinct next
    → Distinct (load_breakers c now entries next)
unfolding load_breakers
load_breakers-Distinct c now [] next d = d
load_breakers-Distinct c now ((_, v) ∷ entries) next d =
    load_breakers-Distinct c now entries (add_breaker now (c.unmarshal_breaker v) next)
      (add_breaker-Distinct now (c.unmarshal_breaker v) next d)
