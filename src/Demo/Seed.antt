-- ===== src/Demo/Seed.antt =====
-- microservice-demo/main.go: the requests that seed the control plane, and the text of /metrics. The
-- network is a parameter; a URL that net/http refuses is one that is not answered.
use feature_flags_control_pl.Shared.{ℕ, true, some, List, [], ◌∷◌, ◌++◌, Str, lit, Dict}
use feature_flags_control_pl.Shared.Int.{pos}
use feature_flags_control_pl.Store.Resp.{decimal}
use feature_flags_control_pl.Json.{Json, truth, number, fraction, text, names, rules, Answer}
use feature_flags_control_pl.Sdk.{Outgoing}
use feature_flags_control_pl.Demo.{Demo}
use feature_flags_control_pl.Demo.Client.{ControlPlane, post_json_request}

-- The paths and the payloads of the four requests. The rule gives no value, which is the empty text.
abbrev pub seed_payloads : List (Str × Dict Json)
seed_payloads =
    (
      lit "/flags",
      (lit "Name", text (lit "dark-mode"))
          ∷ (lit "Enabled", truth true)
          ∷ (lit "Environment", text (lit "dev"))
          ∷ (
            lit "TargetRules",
            rules (record { type = lit "percentage"; value = []; rollout = pos 50 } ∷ []),
          )
          ∷ [],
    )
    ∷ (
      lit "/experiment",
      (lit "Name", text (lit "button-color"))
          ∷ (lit "Variants", names (lit "blue" ∷ lit "green" ∷ []))
          ∷ [],
    )
    ∷ (
      lit "/ratelimit",
      (lit "Route", text (lit "/demo/action")) ∷ (lit "Limit", number (pos 10)) ∷ [],
    )
    ∷ (
      lit "/circuitbreaker",
      (lit "Route", text (lit "/demo/action"))
          ∷ (lit "State", text (lit "closed"))
          ∷ (lit "ErrorThreshold", fraction (record { num = pos 1; scale = 1 }))
          ∷ (lit "LatencyThresholdMs", number (pos 250))
          ∷ [],
    )
    ∷ []

module _ {W : Type 0} (cp : ControlPlane) (network : W → Outgoing → W × Answer) where
  -- The answer is not looked at.
  unfoldable pub post_json : W → Str → Dict Json → W
  post_json w url payload = (network w (post_json_request cp url (some payload))).0

  unfoldable pub post_all : W → List (Str × Dict Json) → W
  post_all w [] = w
  post_all w ((path, payload) ∷ more) = post_all (post_json w (cp.url ++ path) payload) more

  unfoldable pub seed_demo_data : W → W
  seed_demo_data w = post_all w seed_payloads

-- `# TYPE name counter` and the sample, for each counter.
unfoldable pub counters_text : Dict ℕ → Str
counters_text [] = []
counters_text ((name, n) ∷ counters) =
    lit "# TYPE "
    ++ (name
        ++ (lit " counter" ++ (10 ∷ (name ++ (32 ∷ (decimal n ++ (10 ∷ counters_text counters)))))))

pub serve_counters : Demo → Str
serve_counters d = counters_text d.counters
