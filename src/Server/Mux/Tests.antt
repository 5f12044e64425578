-- ===== src/Server/Mux/Tests.antt =====
-- Requests through the mux at concrete inputs.
use feature_flags_control_pl.Shared.{
  ◌≡◌, refl, subst, inl, Bool-cases, inr, false, ◌&&◌, [], ◌∷◌, lit, arith, is_empty, str_eq,
  str_eq_sound, str_ne, has_prefix, trim_space, trim_prefix,
}
use feature_flags_control_pl.Metrics.{new_histogram}
use feature_flags_control_pl.Server.Samples.{
  env, codec, counter, start, decoders, only_create_flag, anonymous,
}
use feature_flags_control_pl.Server.Stream.{net_http}
use feature_flags_control_pl.Server.Middleware.{Traffic}
use feature_flags_control_pl.Server.Mux.{Route, pattern, picked, create_flag}
use feature_flags_control_pl.Server.Mux.Same.{Same}
use feature_flags_control_pl.Server.Mux.Protected.{
  Carries, Fits, PicksFitting, serve_all, serve_all-unauthorized,
}

picked-injective : (a b : Route) → picked a ≡ picked b → a ≡ b
picked-injective a b h = cc

fitting : PicksFitting env codec decoders only_create_flag (lit "t")
unfolding pattern
fitting method path route h =
    elim (Bool-cases (str_eq method (lit "POST") && str_eq path (lit "/flags"))) [
      | inl fits ↦
          let m : method ≡ lit "POST" = str_eq_sound _ _ (ground arith) in
          let p : path ≡ lit "/flags" = str_eq_sound _ _ (ground arith) in
          let r : create_flag ≡ route = ground arith in
          subst (λ x. Fits (pattern x) method path) r (inl m, ([], p, refl))
      | inr other ↦ absurd (ground arith)
    ]

abbrev traffic : Traffic
traffic = record {
  qps = counter;
  latency = new_histogram (lit "h") [] (1 ∷ []) [];
  error_rate = counter;
}

token_set : is_empty (trim_space (lit "t")) ≡ false
unfolding trim_space is_empty
token_set = refl

without_token : ¬ (Carries (lit "t") anonymous.request)
unfolding trim_space trim_prefix has_prefix str_eq
without_token h = str_ne (lit "x") (lit "t") refl h.1

serve_all-unauthorized_example :
    Same start
      (serve_all env codec decoders only_create_flag
        (lit "t")
        ((anonymous, net_http) ∷ (anonymous, net_http) ∷ [])
        (traffic, start)).1
serve_all-unauthorized_example =
    serve_all-unauthorized env codec decoders only_create_flag (lit "t")
      ((anonymous, net_http) ∷ (anonymous, net_http) ∷ []) traffic start fitting token_set
      (without_token, (without_token, tt))
