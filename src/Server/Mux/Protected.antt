-- ===== src/Server/Mux/Protected.antt =====
-- Requests without the token, on whatever way through the mux.
use feature_flags_control_pl.Shared.{
  ◌≡◌, ◌≢◌, refl, ap, ◌∙◌, ◌⊎◌, inl, inr, false, true, List, [], ◌∷◌, ◌++◌, Str, lit, is_empty,
  str_eq, str_ne, has_prefix, trim_space, trim_prefix, All,
}
use mathlib.Core.List.{append-nil}
use feature_flags_control_pl.Store.{Env}
use feature_flags_control_pl.Server.{Codec, Server}
use feature_flags_control_pl.Server.Auth.{Request, Verdict, pass, unauthorized, auth_middleware}
use feature_flags_control_pl.Server.Auth.Guarded
use feature_flags_control_pl.Server.Auth.Guarded.{Mutating, auth_middleware-mutating}
use feature_flags_control_pl.Server.Flags.{get_all_flags_handler, get_flag_handler}
use feature_flags_control_pl.Server.Limits.{get_rate_limit_handler}
use feature_flags_control_pl.Server.Breakers.{get_circuit_breaker_handler}
use feature_flags_control_pl.Server.Stream.{Writer, status_recorder}
use feature_flags_control_pl.Server.Middleware.{
  Traffic, metrics_middleware, tracing_middleware, guarded, served,
}
use feature_flags_control_pl.Server.Mux.{
  Route, Piece, fixed, name, rest, pattern, Decoders, HttpRequest, Picked, picked, refused, handle,
  handle_picked, serve,
}
use feature_flags_control_pl.Server.Mux.Same.{
  Same, Same-refl, Same-trans, evaluate-Same, variant-Same, check_rate_limit-Same,
  check_circuit_breaker-Same, get_config_handler-Same, stream-Same,
}

-- The text of a path that has the pieces.
abbrev pub HasPieces : List Piece → Str → Type 0
HasPieces [] path = path ≡ []
HasPieces (fixed t ∷ pieces) path = (more : Str) × (path ≡ t ++ more) × HasPieces pieces more
HasPieces (name ∷ pieces) path =
    (v : Str) × (more : Str) × (path ≡ v ++ more) × HasPieces pieces more
HasPieces (rest ∷ pieces) path =
    (v : Str) × (more : Str) × (path ≡ v ++ more) × HasPieces pieces more

-- The method and the path are those of the route's pattern; a GET pattern is also for HEAD.
abbrev pub Fits : Str × List Piece → Str → Str → Type 0
Fits (m, pieces) method path =
    ((method ≡ m) ⊎ ((m ≡ lit "GET") × (method ≡ lit "HEAD"))) × HasPieces pieces path

-- The token stands in the request's header.
abbrev pub Carries : Str → Request → Type 0
Carries token r =
    (has_prefix (trim_space r.authorization) (lit "Bearer ") ≡ true)
    × (trim_space (trim_prefix (trim_space r.authorization) (lit "Bearer ")) ≡ trim_space token)

path_only : (t path : Str) → HasPieces (fixed t ∷ []) path → path ≡ t
path_only t path (more, e, ended) = e ∙ ap (λ m. t ++ m) ended ∙ append-nil t

path_named : (t path : Str) → HasPieces (fixed t ∷ name ∷ []) path → (v : Str) × (path ≡ t ++ v)
path_named t path (more, e, (v, last, f, ended)) =
    (v, e ∙ ap (λ m. t ++ m) (f ∙ ap (λ m. v ++ m) ended ∙ append-nil v))

path_between :
    (t u path : Str)
    → HasPieces (fixed t ∷ name ∷ fixed u ∷ []) path
    → (v : Str) × (path ≡ t ++ (v ++ u))
path_between t u path (more, e, (v, tail, f, g)) =
    (v, e ∙ ap (λ m. t ++ m) (f ∙ ap (λ m. v ++ m) (path_only u tail g)))

method_is :
    (m method : Str)
    → m ≢ lit "GET"
    → (method ≡ m) ⊎ ((m ≡ lit "GET") × (method ≡ lit "HEAD"))
    → method ≡ m
method_is m method ne (inl e) = e
method_is m method ne (inr (get, _)) = absurd (ne get)

post_fits :
    (method : Str)
    → (method ≡ lit "POST") ⊎ ((lit "POST" ≡ lit "GET") × (method ≡ lit "HEAD"))
    → method ≡ lit "POST"
unfolding str_eq
post_fits method fits = method_is (lit "POST") method (str_ne (lit "POST") (lit "GET") refl) fits

put_fits :
    (method : Str)
    → (method ≡ lit "PUT") ⊎ ((lit "PUT" ≡ lit "GET") × (method ≡ lit "HEAD"))
    → method ≡ lit "PUT"
unfolding str_eq
put_fits method fits = method_is (lit "PUT") method (str_ne (lit "PUT") (lit "GET") refl) fits

delete_fits :
    (method : Str)
    → (method ≡ lit "DELETE") ⊎ ((lit "DELETE" ≡ lit "GET") × (method ≡ lit "HEAD"))
    → method ≡ lit "DELETE"
unfolding str_eq
delete_fits method fits =
    method_is (lit "DELETE") method (str_ne (lit "DELETE") (lit "GET") refl) fits

moved : {m p method path : Str} → method ≡ m → path ≡ p → Mutating m p → Mutating method path
moved {m} {p} {method} {path} e f x = rw (e, f) x

-- A request that wants the token and does not have it is refused.
unauthorized_verdict :
    (token : Str) (r : Request)
    → Mutating r.method r.path
    → is_empty (trim_space token) ≡ false
    → ¬ (Carries token r)
    → auth_middleware token r ≡ unauthorized
unauthorized_verdict token r m set without = verdict_case (auth_middleware token r) refl
  where
    verdict_case :
        (v : Verdict) → auth_middleware token r ≡ v → auth_middleware token r ≡ unauthorized
    verdict_case pass e =
        absurd (without (auth_middleware-mutating token r.method r.path r.authorization m set e))
    verdict_case unauthorized e = e

module _ {R : Type 0} (env : Env R) (c : Codec) (d : Decoders) where
  -- A request for an entry of the table wants the token, or changes nothing that the token guards.
  guarded_or_Same :
      (route : Route) (r : HttpRequest) (w : Writer) (s : Server R)
      → Fits (pattern route) r.request.method r.request.path
      → Mutating r.request.method r.request.path ⊎ Same s (handle env c d route r w s).0
  unfolding handle pattern get_all_flags_handler get_flag_handler get_rate_limit_handler
      get_circuit_breaker_handler
  guarded_or_Same Route.create_flag r w s (m, p) =
      inl (moved (post_fits _ m) (path_only _ _ p) Guarded.create_flag)
  guarded_or_Same Route.update_flag r w s (m, p) =
      let (v, e) = path_named (lit "/flags/") _ p in
      inl (moved (put_fits _ m) (e) (Guarded.update_flag v))
  guarded_or_Same Route.delete_flag r w s (m, p) =
      let (v, e) = path_named (lit "/flags/") _ p in
      inl (moved (delete_fits _ m) (e) (Guarded.delete_flag v))
  guarded_or_Same Route.create_experiment r w s (m, p) =
      inl (moved (post_fits _ m) (path_only _ _ p) Guarded.create_experiment)
  guarded_or_Same Route.record_conversion r w s (m, p) =
      let (v, e) = path_between (lit "/experiment/") (lit "/convert") _ p in
      inl (moved (post_fits _ m) (e) (Guarded.record_conversion v))
  guarded_or_Same Route.set_rate_limit r w s (m, p) =
      inl (moved (post_fits _ m) (path_only _ _ p) Guarded.set_rate_limit)
  guarded_or_Same Route.set_breaker r w s (m, p) =
      inl (moved (post_fits _ m) (path_only _ _ p) Guarded.set_circuit_breaker)
  guarded_or_Same Route.report_breaker r w s (m, p) =
      inl (moved (post_fits _ m) (path_only _ _ p) Guarded.report_circuit_breaker)
  guarded_or_Same Route.set_config r w s (m, p) =
      inl (moved (post_fits _ m) (path_only _ _ p) Guarded.set_config)
  guarded_or_Same Route.evaluate_flag r w s fits = inr (evaluate-Same env c s _ _)
  guarded_or_Same Route.get_variant r w s fits = inr (variant-Same s _ _)
  guarded_or_Same Route.check_rate_limit r w s fits = inr (check_rate_limit-Same s _ _ _)
  guarded_or_Same Route.check_breaker r w s fits = inr (check_circuit_breaker-Same env c s _ _ _)
  guarded_or_Same Route.get_config r w s fits = inr (get_config_handler-Same env s _)
  guarded_or_Same Route.flag_stream r w s fits = inr (stream-Same c _ _ w s)
  guarded_or_Same Route.landing r w s fits = inr (Same-refl s)
  guarded_or_Same Route.metrics r w s fits = inr (Same-refl s)
  guarded_or_Same Route.health r w s fits = inr (Same-refl s)
  guarded_or_Same Route.all_flags r w s fits = inr (Same-refl s)
  guarded_or_Same Route.get_flag r w s fits = inr (Same-refl s)
  guarded_or_Same Route.rate_limit r w s fits = inr (Same-refl s)
  guarded_or_Same Route.rate_limit_of r w s fits = inr (Same-refl s)
  guarded_or_Same Route.breaker r w s fits = inr (Same-refl s)
  guarded_or_Same Route.breaker_of r w s fits = inr (Same-refl s)

  module _ (mux : Str → Str → Picked) (token : Str) where
    -- The mux picks an entry only for a method and a path that fit its pattern.
    abbrev pub PicksFitting : Type 0
    PicksFitting =
        (method path : Str) (route : Route)
        → mux method path ≡ picked route
        → Fits (pattern route) method path

    handled-Same :
        (r : HttpRequest) (p : Picked) (w : Writer) (s : Server R)
        → PicksFitting
        → mux r.request.method r.request.path ≡ p
        → ¬ (Mutating r.request.method r.request.path)
        → Same s (handle_picked env c d p r w s).0
    unfolding handle_picked
    handled-Same r (refused status) w s fitting e harmless = Same-refl s
    handled-Same r (picked route) w s fitting e harmless =
        elim (guarded_or_Same route r w s (fitting _ _ route e)) [
          | inl mutating ↦ absurd (harmless mutating)
          | inr same ↦ same
        ]

    guarded-Same :
        (r : HttpRequest) (v : Verdict) (p : Picked) (w : Writer) (s : Server R)
        → PicksFitting
        → mux r.request.method r.request.path ≡ p
        → (Mutating r.request.method r.request.path → v ≡ unauthorized)
        → Same s (guarded v (handle_picked env c d p r) w s).0
    unfolding guarded
    guarded-Same r unauthorized p w s fitting e stops = Same-refl s
    guarded-Same r pass p w s fitting e stops =
        handled-Same r p w s fitting e (λ m. absurd (pass-ne-unauthorized (stops m)))
      where
        pass-ne-unauthorized : ¬ (pass ≡ unauthorized)
        pass-ne-unauthorized h = cc

    -- Requests one after the other, each with its writer.
    pub serve_all : List (HttpRequest × Writer) → Traffic × Server R → Traffic × Server R
    serve_all [] ts = ts
    serve_all ((r, w) ∷ rs) ts = serve_all rs (serve env c d mux token r w ts).0

    serve-Same :
        (r : HttpRequest) (w : Writer) (t : Traffic) (s : Server R)
        → PicksFitting
        → is_empty (trim_space token) ≡ false
        → ¬ (Carries token r.request)
        → Same s (serve env c d mux token r w (t, s)).0.1
    unfolding serve served metrics_middleware tracing_middleware
    serve-Same r w t s fitting set without =
        guarded-Same r (auth_middleware token r.request) (mux r.request.method r.request.path)
          (status_recorder w) s fitting refl
          (λ m. unauthorized_verdict token r.request m set without)

    -- With a token configured, requests that do not carry it, in any number and order and for whatever
    -- methods and paths, leave the flags, the experiments, the limits and the counts of conversions as
    -- they were, if the mux picks an entry of the table only for a request that fits its pattern.
    pub serve_all-unauthorized :
        (rs : List (HttpRequest × Writer)) (t : Traffic) (s : Server R)
        → PicksFitting
        → is_empty (trim_space token) ≡ false
        → All (λ (r, w). ¬ (Carries token r.request)) rs
        → Same s (serve_all rs (t, s)).1
    unfolding serve_all
    serve_all-unauthorized [] t s fitting set without = Same-refl s
    serve_all-unauthorized ((r, w) ∷ rs) t s fitting set (first, without) =
        let next = (serve env c d mux token r w (t, s)).0 in
        Same-trans s next.1 (serve_all rs next).1 (serve-Same r w t s fitting set first)
          (serve_all-unauthorized rs next.0 next.1 fitting set without)
