-- ===== src/Server/Middleware/Counted.antt =====
-- What the middleware counts, whatever the handler behind it does.
use feature_flags_control_pl.Shared.{
  ℕ, ◌+◌, ◌≡◌, refl, Bool-cases, inl, inr, [], ◌∷◌, Str, leb, str_eq_refl, if◌then◌else◌,
}
use feature_flags_control_pl.Metrics.{int64, CounterVec, counter_inc, counter_value}
use feature_flags_control_pl.Metrics.Counters.{counter_value-inc}
use feature_flags_control_pl.Server.Auth.{Request, Verdict, pass, unauthorized, auth_middleware}
use feature_flags_control_pl.Server.Stream.{Writer, status_recorder}
use feature_flags_control_pl.Server.Middleware.{
  Handler, Traffic, counted, metrics_middleware, tracing_middleware, guarded, served,
}

counted_one :
    (cv : CounterVec) (path : Str)
    → counter_value (counter_inc cv (path ∷ [])) (path ∷ [])
      ≡ int64 (counter_value cv (path ∷ []) + 1)
counted_one cv path = rw (counter_value-inc, str_eq_refl) refl

counted_request :
    (t : Traffic) (path : Str) (duration status : ℕ)
    → counter_value (counted t path duration status).qps (path ∷ [])
      ≡ int64 (counter_value t.qps (path ∷ []) + 1)
unfolding counted
counted_request t path duration status = counted_one t.qps path

counted_error :
    (t : Traffic) (path : Str) (duration status : ℕ)
    → counter_value (counted t path duration status).error_rate (path ∷ []) ≡ (
        if leb 400 status
        then int64 (counter_value t.error_rate (path ∷ []) + 1)
        else counter_value t.error_rate (path ∷ []))
unfolding counted
counted_error t path duration status = elim (Bool-cases (leb 400 status)) [
  | inl bad ↦ rw bad (counted_one t.error_rate path)
  | inr fine ↦ rw fine refl
]

module _ {S : Type 0} where
  guarded_elim :
      (v : Verdict) (handler : Handler S) (w : Writer) (s : S)
      → guarded v handler w s ≡ (elim v [ pass ↦ handler w s | unauthorized ↦ (s, 401) ])
  unfolding guarded
  guarded_elim pass handler w s = refl
  guarded_elim unauthorized handler w s = refl

  -- A request runs its handler once when its token passes, and otherwise changes nothing and is answered
  -- with 401. In both cases one request more is counted for its path, modulo 2^64, and one error more
  -- exactly when the answer's status is 400 or more.
  pub served-counted :
      (token : Str) (r : Request) (duration : ℕ) (handler : Handler S) (w : Writer) (t : Traffic)
      (s : S)
      → let out = served token r duration handler w (t, s) in
        ((out.0.1, out.1) ≡ (elim (auth_middleware token r) [
          | pass ↦ handler (status_recorder w) s
          | unauthorized ↦ (s, 401)
        ]))
        × (counter_value out.0.0.qps (r.path ∷ []) ≡ int64 (counter_value t.qps (r.path ∷ []) + 1))
        × (counter_value out.0.0.error_rate (r.path ∷ []) ≡ (
            if leb 400 out.1
            then int64 (counter_value t.error_rate (r.path ∷ []) + 1)
            else counter_value t.error_rate (r.path ∷ [])))
  unfolding served metrics_middleware tracing_middleware guarded
  served-counted token r duration handler w t s =
      let status = (guarded (auth_middleware token r) handler (status_recorder w) s).1 in
      (
        guarded_elim (auth_middleware token r) handler (status_recorder w) s,
        counted_request t r.path duration status,
        counted_error t r.path duration status,
      )
