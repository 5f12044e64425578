-- ===== src/Sdk/Streaming/Refused.antt =====
-- The Go client's event stream against the control plane as it is served.
use feature_flags_control_pl.Shared.{ℕ, ◌≡◌, refl, ap, ◌∙◌, Option, List, [], ◌∷◌, Str, All}
use feature_flags_control_pl.Server.{Codec, Server}
use feature_flags_control_pl.Server.Auth.{Request, pass, auth_middleware}
use feature_flags_control_pl.Server.Stream.{Writer, stream_handler}
use feature_flags_control_pl.Server.Middleware.{Traffic, served}
use feature_flags_control_pl.Server.Middleware.Refused.{served-stream_refused}
use feature_flags_control_pl.Sdk.Polling.{Client}
use feature_flags_control_pl.Sdk.Streaming.{
  StreamAnswer, opened_with, bad_status, connect_stream, start_sse,
}

-- A round at the control plane: the request as it comes, the state that it meets, and the body of the
-- answer.
pub record Round (R : Type 0) : Type 0 where
  pub request : Request
  pub id : ℕ
  pub duration : ℕ
  pub writer : Writer
  pub traffic : Traffic
  pub server : Server R
  pub body : Str

module _ {R : Type 0} (codec : Codec) (env token : Str) where
  -- The answer that the control plane gives in the round.
  pub answer_in : Round R → StreamAnswer
  answer_in r =
      opened_with
        (served token r.request r.duration (stream_handler codec r.id env) r.writer
          (r.traffic, r.server)).1
        r.body

  pub answers_in : List (Round R) → List StreamAnswer
  answers_in [] = []
  answers_in (r ∷ rs) = answer_in r ∷ answers_in rs

  module _ {F W : Type 0} (decode_flags : Str → Option F) (fetch : W → W × Option Str) where
    refused_round :
        (w : W) (c : Client F) (r : Round R)
        → auth_middleware token r.request ≡ pass
        → connect_stream decode_flags fetch w c (answer_in r) ≡ ((w, c), bad_status 500)
    unfolding answer_in connect_stream
    refused_round w c r through =
        ap (λ status. connect_stream decode_flags fetch w c (opened_with status r.body))
          (ap (λ o. o.1)
            (served-stream_refused codec r.id r.duration env token r.request r.writer r.traffic
              r.server through))

    -- However often the Go client connects to the event stream of the control plane, in whatever states
    -- of it, it never fetches a flag and keeps its copy as it is: each of its requests is answered with
    -- the status 500.
    pub start_sse-refused :
        (w : W) (c : Client F) (rs : List (Round R))
        → All (λ r. auth_middleware token r.request ≡ pass) rs
        → start_sse decode_flags fetch w c (answers_in rs) ≡ (w, c)
    unfolding start_sse answers_in
    start_sse-refused w c [] through = refl
    start_sse-refused w c (r ∷ rs) (first, through) =
        ap (λ o. start_sse decode_flags fetch o.0.0 o.0.1 (answers_in rs))
          (refused_round w c r first)
        ∙ start_sse-refused w c rs through
