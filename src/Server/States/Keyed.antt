-- ===== src/Server/States/Keyed.antt =====
-- Every entry of a map stands under its own name.
use mathlib.Core.Option.{some-injective}
use feature_flags_control_pl.Shared.{
  ℕ, ◌≡◌, refl, sym, ap, ◌∙◌, Bool-cases, inl, inr, none, some, Option, [], ◌∷◌, Str, arith, str_eq,
  str_eq_sound, Dict, lookup, insert, delete, lookup-insert, lookup-delete,
}
use feature_flags_control_pl.Flag.{FeatureFlag}
use feature_flags_control_pl.Experiment.{Experiment}
use feature_flags_control_pl.Breaker.{CircuitBreaker}
use feature_flags_control_pl.Server.{BreakerConfig, Codec}
use feature_flags_control_pl.Server.Sync.{
  add_flag, add_experiment, from_config, restored, add_breaker, load_flags, load_experiments,
  load_breakers,
}

abbrev pub Keyed : {V : Type 0} → (V → Str) → Dict V → Type 0
Keyed {V} name m = (k : Str) (v : V) → lookup k m ≡ some v → name v ≡ k

module _ {V : Type 0} (name : V → Str) where
  pub empty-Keyed : Keyed name []
  unfolding lookup
  empty-Keyed k v found = absurd (ground arith)

  pub insert-Keyed :
      (key : Str) (v : V) (m : Dict V) → name v ≡ key → Keyed name m → Keyed name (insert key v m)
  insert-Keyed key v m own h k u found = elim (Bool-cases (str_eq key k)) [
    | inl same ↦
        let e : some v ≡ some u = sym (rw (lookup-insert, same) refl) ∙ found in
        ap name (sym (some-injective v u e)) ∙ own ∙ str_eq_sound key k same
    | inr other ↦ h k u (sym (rw (lookup-insert, other) refl) ∙ found)
  ]

  pub delete-Keyed : (key : Str) (m : Dict V) → Keyed name m → Keyed name (delete key m)
  delete-Keyed key m h k v found = elim (Bool-cases (str_eq key k)) [
    | inl same ↦ absurd (ground (arith, lookup-delete key k m))
    | inr other ↦ h k v (ground (arith, lookup-delete key k m))
  ]

add_flag-Keyed :
    (o : Option FeatureFlag) (m : Dict FeatureFlag)
    → Keyed (λ f. f.name) m
    → Keyed (λ f. f.name) (add_flag o m)
unfolding add_flag
add_flag-Keyed none m h = h
add_flag-Keyed (some f) m h = insert-Keyed (λ f. f.name) f.name f m refl h

pub load_flags-Keyed :
    (c : Codec) (entries : Dict Str) (m : Dict FeatureFlag)
    → Keyed (λ f. f.name) m
    → Keyed (λ f. f.name) (load_flags c entries m)
unfolding load_flags
load_flags-Keyed c [] m h = h
load_flags-Keyed c ((_, v) ∷ entries) m h =
    load_flags-Keyed c entries (add_flag (c.unmarshal_flag v) m)
      (add_flag-Keyed (c.unmarshal_flag v) m h)

add_experiment-Keyed :
    (o : Option Experiment) (m : Dict Experiment)
    → Keyed (λ e. e.name) m
    → Keyed (λ e. e.name) (add_experiment o m)
unfolding add_experiment
add_experiment-Keyed none m h = h
add_experiment-Keyed (some e) m h = insert-Keyed (λ e. e.name) e.name e m refl h

pub load_experiments-Keyed :
    (c : Codec) (entries : Dict Str) (m : Dict Experiment)
    → Keyed (λ e. e.name) m
    → Keyed (λ e. e.name) (load_experiments c entries m)
unfolding load_experiments
load_experiments-Keyed c [] m h = h
load_experiments-Keyed c ((_, v) ∷ entries) m h =
    load_experiments-Keyed c entries (add_experiment (c.unmarshal_experiment v) m)
      (add_experiment-Keyed (c.unmarshal_experiment v) m h)

add_breaker-Keyed :
    (now : ℕ) (o : Option BreakerConfig) (m : Dict CircuitBreaker)
    → Keyed (λ cb. cb.route) m
    → Keyed (λ cb. cb.route) (add_breaker now o m)
unfolding add_breaker
add_breaker-Keyed now none m h = h
add_breaker-Keyed now (some b) m h =
    insert-Keyed (λ cb. cb.route) _ (restored (from_config b) now) m refl h

pub load_breakers-Keyed :
    (c : Codec) (now : ℕ) (entries : Dict Str) (m : Dict CircuitBreaker)
    → Keyed (λ cb. cb.route) m
    → Keyed (λ cb. cb.route) (load_breakers c now entries m)
unfolding load_breakers
load_breakers-Keyed c now [] m h = h
load_breakers-Keyed c now ((_, v) ∷ entries) m h =
    load_breakers-Keyed c now entries (add_breaker now (c.unmarshal_breaker v) m)
      (add_breaker-Keyed now (c.unmarshal_breaker v) m h)
