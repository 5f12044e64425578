-- ===== src/Server/Sync/Reloaded.antt =====
-- What a reload does to the circuit breakers.
use mathlib.Core.Option.{some-injective, none-ne-some}
use feature_flags_control_pl.Shared.{
  ℕ, ◌≡◌, refl, sym, ap, subst, ◌∙◌, inl, inr, true, false, not, Option, none, some, [], ◌∷◌, Str,
  arith, str_eq, Dict, lookup, lookup-insert, Bool-cases,
}
use feature_flags_control_pl.Breaker.{CircuitBreaker, half_open_state, ten_seconds, check}
use feature_flags_control_pl.Breaker.Restore.{restore_runtime_state-Restored}
use feature_flags_control_pl.Breaker.Probes.{check-half_open}
use feature_flags_control_pl.Store.{Env}
use feature_flags_control_pl.Server.{BreakerConfig, Codec, Server}
use feature_flags_control_pl.Server.Sync.{
  from_config, restored, add_breaker, load_breakers, Listings, install,
}

-- No outcome counted and no probe in flight.
pub record Fresh (cb : CircuitBreaker) : Type 0 where
  pub no_successes : cb.successes ≡ 0
  pub no_failures : cb.failures ≡ 0
  pub no_probe : cb.probe_in_flight ≡ false
  pub waits : cb.open_duration ≡ ten_seconds

restored-Fresh : (b : BreakerConfig) (now : ℕ) → Fresh (restored (from_config b) now)
unfolding restored from_config
restored-Fresh b now =
    let r = restore_runtime_state-Restored (from_config b) now in ground (arith, r)

add_breaker-Fresh :
    (now : ℕ) (o : Option BreakerConfig) (next : Dict CircuitBreaker)
    → ((k : Str) (cb : CircuitBreaker) → lookup k next ≡ some cb → Fresh cb)
    → (k : Str) (cb : CircuitBreaker) → lookup k (add_breaker now o next) ≡ some cb
    → Fresh cb
unfolding add_breaker
add_breaker-Fresh now none next h k cb found = h k cb found
add_breaker-Fresh now (some b) next h k cb found =
    let fresh = restored-Fresh b now in
    let new = restored (from_config b) now in
    elim (Bool-cases (str_eq new.route k)) [
      | inl e ↦ subst Fresh (some-injective _ _ (sym (rw (lookup-insert, e) refl) ∙ found)) fresh
      | inr e ↦ h k cb (sym (rw (lookup-insert, e) refl) ∙ found)
    ]

empty-Fresh : (k : Str) (cb : CircuitBreaker) → lookup k [] ≡ some cb → Fresh cb
unfolding lookup
empty-Fresh k cb e = absurd (none-ne-some cb e)

load_breakers-Fresh :
    (c : Codec) (now : ℕ) (entries : Dict Str) (next : Dict CircuitBreaker)
    → ((k : Str) (cb : CircuitBreaker) → lookup k next ≡ some cb → Fresh cb)
    → (k : Str) (cb : CircuitBreaker) → lookup k (load_breakers c now entries next) ≡ some cb
    → Fresh cb
unfolding load_breakers
load_breakers-Fresh c now [] next h k cb found = h k cb found
load_breakers-Fresh c now ((_, v) ∷ entries) next h k cb found =
    load_breakers-Fresh c now entries (add_breaker now (c.unmarshal_breaker v) next)
      (add_breaker-Fresh now (c.unmarshal_breaker v) next h) k cb found

-- Whatever the store lists, after a reload every breaker has counted no outcome and knows of no probe
-- in flight, so that a half-open breaker lets its next check through.
pub install-breakers_forget :
    {R : Type 0} (env : Env R) (c : Codec) (s : Server R) (now : ℕ) (l : Listings) (k : Str)
    (cb : CircuitBreaker)
    → lookup k (install env c s now l).breakers ≡ some cb
    → Fresh cb × (cb.state ≡ half_open_state → (at : ℕ) → (check cb at).allowed ≡ true)
unfolding install
install-breakers_forget env c s now l k cb found =
    let fresh = load_breakers-Fresh c now l.breakers [] empty-Fresh k cb found in
    (fresh, λ half at. (check-half_open cb at half).2 ∙ ap not fresh.no_probe)
