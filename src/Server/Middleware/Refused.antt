-- ===== src/Server/Middleware/Refused.antt =====
-- The event stream as it is served: behind the middleware.
use feature_flags_control_pl.Shared.{ℕ, ◌≡◌, refl, Str}
use feature_flags_control_pl.Server.{Codec, Server}
use feature_flags_control_pl.Server.Auth.{Request, pass, auth_middleware}
use feature_flags_control_pl.Server.Stream.{Writer, is_flusher, stream_handler}
use feature_flags_control_pl.Server.Middleware.{
  Traffic, counted, metrics_middleware, tracing_middleware, guarded, served,
}

-- Whatever the writer, the metrics middleware gives the stream's handler a writer that cannot flush: a
-- request for the event stream that is let through is answered with 500 and subscribes nobody.
pub served-stream_refused :
    {R : Type 0}
    → (c : Codec) (id duration : ℕ) (env token : Str) (r : Request) (w : Writer) (t : Traffic)
      (s : Server R)
    → auth_middleware token r ≡ pass
    → served token r duration (stream_handler c id env) w (t, s)
      ≡ ((counted t r.path duration 500, s), 500)
unfolding served metrics_middleware tracing_middleware guarded stream_handler is_flusher
served-stream_refused c id duration env token r w t s through = rw through refl
