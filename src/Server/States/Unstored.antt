-- ===== src/Server/States/Unstored.antt =====
-- The handlers that write nothing to the store leave the server well formed.
use feature_flags_control_pl.Shared.{
  ℕ, Bool, true, false, Bool-cases, inl, inr, Option, none, some, Str, List, [], ◌∷◌, arith,
  is_empty, Dict, lookup, if◌then◌else◌,
}
use feature_flags_control_pl.Flag.{FeatureFlag, EvalContext}
use feature_flags_control_pl.Experiment.{
  Experiment, exposed, assign, assign_variant, record_conversion,
}
use feature_flags_control_pl.Breaker.{CircuitBreaker}
use feature_flags_control_pl.Metrics.{CounterVec, counter_inc, GaugeVec}
use feature_flags_control_pl.Metrics.Text.Sized.{CounterSized, counter_inc-CounterSized, GaugeSized}
use feature_flags_control_pl.Store.{Env}
use feature_flags_control_pl.Server.{Codec, Server, Decoded, parsed, empty_body, malformed}
use feature_flags_control_pl.Server.Flags.{evaluate_found, evaluate_flag_handler}
use feature_flags_control_pl.Server.Experiments.{
  variant_found, get_variant_handler, conversion_found, record_conversion_handler,
}
use feature_flags_control_pl.Server.Limits.{
  CheckRequest, check_rate_limit, check_rate_limit_handler,
}
use feature_flags_control_pl.Server.States.Shown.{Shows}
use feature_flags_control_pl.Server.States.Keyed.{Keyed}
use feature_flags_control_pl.Server.Stream.{
  Writer, net_http, status_recorder, is_flusher, stream_handler,
}

-- An exposure counts under two labels.
exposed-CounterSized :
    (cv : CounterVec) (e : Experiment) (o : Option Str)
    → CounterSized 2 cv
    → CounterSized 2 (exposed cv e o).0
unfolding exposed
exposed-CounterSized cv e none h = h
exposed-CounterSized cv e (some v) h = counter_inc-CounterSized 2 cv _ (omega arith) h

assign-CounterSized :
    (cv : CounterVec) (e : Experiment) (user : Str) (vs : List Str)
    → CounterSized 2 cv
    → CounterSized 2 (assign cv e user vs).0
unfolding assign
assign-CounterSized cv e user [] h = h
assign-CounterSized cv e user (v ∷ vs) h = exposed-CounterSized cv e _ h

throttled-CounterSized :
    (cv : CounterVec) (allowed : Bool) (route : Str)
    → CounterSized 1 cv
    → CounterSized 1 (if allowed then cv else counter_inc cv (route ∷ []))
throttled-CounterSized cv true route h = h
throttled-CounterSized cv false route h = counter_inc-CounterSized 1 cv _ (omega arith) h

-- The flags and the experiments stand under their names and the breakers under their routes; the gauge
-- of the breakers has a value for its one label and shows their states.
abbrev pub Tables : Dict FeatureFlag → Dict Experiment → Dict CircuitBreaker → GaugeVec → Type 0
Tables fs es bs g =
    Keyed (λ f. f.name) fs
    × Keyed (λ e. e.name) es
    × Keyed (λ cb. cb.route) bs
    × GaugeSized 1 g
    × Shows bs g

module _ {R : Type 0} where
  -- What holds of the server in every state: each counter has a value for each of its labels, and the
  -- tables are in order.
  abbrev pub WellFormed : Server R → Type 0
  WellFormed s =
      CounterSized 2 s.flag_evaluations
      × CounterSized 2 s.variant_exposure
      × CounterSized 2 s.conversion_events
      × CounterSized 1 s.throttled_requests
      × Tables s.flags s.experiments s.breakers s.breaker_gauge

  evaluate_found-WellFormed :
      (env : Env R) (c : Codec) (s : Server R) (name : Str) (ctx : EvalContext)
      (o : Option FeatureFlag)
      → WellFormed s
      → WellFormed (evaluate_found env c s name ctx o).0
  unfolding evaluate_found
  evaluate_found-WellFormed env c s name ctx none h = h
  evaluate_found-WellFormed env c s name ctx (some f) (fe, ve, ce, th, g) =
      (counter_inc-CounterSized 2 s.flag_evaluations _ (omega arith) fe, ve, ce, th, g)

  pub evaluate-WellFormed :
      (env : Env R) (c : Codec) (s : Server R) (name : Str) (body : Decoded EvalContext)
      → WellFormed s
      → WellFormed (evaluate_flag_handler env c s name body).0
  unfolding evaluate_flag_handler
  evaluate-WellFormed env c s name (parsed ctx) h = evaluate_found-WellFormed env c s name ctx _ h
  evaluate-WellFormed env c s name empty_body h = h
  evaluate-WellFormed env c s name (malformed _) h = h

  variant_found-WellFormed :
      (s : Server R) (name user : Str) (o : Option Experiment)
      → WellFormed s
      → WellFormed (variant_found s name user o).0
  unfolding variant_found assign_variant
  variant_found-WellFormed s name user none h = h
  variant_found-WellFormed s name user (some e) (fe, ve, ce, th, g) =
      (fe, assign-CounterSized s.variant_exposure e user e.variants ve, ce, th, g)

  pub variant-WellFormed :
      (s : Server R) (name user : Str)
      → WellFormed s
      → WellFormed (get_variant_handler s name user).0
  unfolding get_variant_handler
  variant-WellFormed s name user h = elim (Bool-cases (is_empty user)) [
    | inl missing ↦ rw missing h
    | inr given ↦ rw given (variant_found-WellFormed s name user (lookup name s.experiments) h)
  ]

  conversion_found-WellFormed :
      (s : Server R) (name v : Str) (o : Option Experiment)
      → WellFormed s
      → WellFormed (conversion_found s name v o).0
  unfolding conversion_found record_conversion
  conversion_found-WellFormed s name v none h = h
  conversion_found-WellFormed s name v (some e) (fe, ve, ce, th, g) =
      (fe, ve, counter_inc-CounterSized 2 s.conversion_events _ (omega arith) ce, th, g)

  pub conversion-WellFormed :
      (s : Server R) (name v : Str)
      → WellFormed s
      → WellFormed (record_conversion_handler s name v).0
  unfolding record_conversion_handler
  conversion-WellFormed s name v h = elim (Bool-cases (is_empty v)) [
    | inl missing ↦ rw missing h
    | inr given ↦ rw given (conversion_found-WellFormed s name v (lookup name s.experiments) h)
  ]

  pub check_rate_limit-WellFormed :
      (s : Server R) (created now : ℕ) (body : Decoded CheckRequest)
      → WellFormed s
      → WellFormed (check_rate_limit_handler s created now body).0
  unfolding check_rate_limit_handler check_rate_limit
  check_rate_limit-WellFormed s created now (parsed req) (fe, ve, ce, th, g) =
      (fe, ve, ce, throttled-CounterSized s.throttled_requests _ req.route th, g)
  check_rate_limit-WellFormed s created now empty_body h = h
  check_rate_limit-WellFormed s created now (malformed _) h = h

  pub stream-WellFormed :
      (c : Codec) (id : ℕ) (query : Str) (w : Writer) (s : Server R)
      → WellFormed s
      → WellFormed (stream_handler c id query w s).0
  unfolding stream_handler is_flusher
  stream-WellFormed c id query net_http s h = h
  stream-WellFormed c id query (status_recorder w) s h = h
