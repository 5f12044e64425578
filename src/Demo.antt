-- ===== src/Demo.antt =====
-- microservice-demo/main.go: the state of the demo service, and its capture of incoming requests. A
-- request is handled as one step. The sequence number of a captured request is unbounded.
pub mod Log
pub mod Numbers
pub mod Replay
pub mod Client
pub mod Action
pub mod Seed
mod Tests
use feature_flags_control_pl.Shared.{
  ℕ, ◌+◌, Bool, true, false, not, ◌&&◌, ◌||◌, Option, none, some, List, [], ◌∷◌, ◌++◌, Str, lit,
  str_eq, is_empty, has_prefix, trim_space, Dict, lookup, insert, length, take, drop, leb,
  if◌then◌else◌,
}

pub record CapturedRequest : Type 0 where
  pub id : ℕ
  pub timestamp : Str
  pub method : Str
  pub path : Str
  pub query : Str
  pub headers : Dict Str
  pub body : Str

-- A request as the server gets it; no body stands for one that cannot be read.
pub record IncomingRequest : Type 0 where
  pub method : Str
  pub path : Str
  pub query : Str
  pub headers : Dict Str
  pub body : Option Str

pub record Demo : Type 0 where
  pub captured : List CapturedRequest
  pub seq : ℕ
  pub counters : Dict ℕ

abbrev pub max_captured_traffic : ℕ
max_captured_traffic = 2000

abbrev pub max_body : ℕ
max_body = 65536

-- `r.Header.Get(key)`
pub header : Str → Dict Str → Str
header key headers = elim (lookup key headers) [ none ↦ [] | some v ↦ v ]

-- `counter(name).Inc()`. The counters are unbounded here.
pub counter_bump : Str → Dict ℕ → Dict ℕ
counter_bump name counters =
    insert name (elim (lookup name counters) [ none ↦ 1 | some n ↦ n + 1 ]) counters

-- The early returns of `captureRequest`.
pub wants_capture : IncomingRequest → Bool
wants_capture r =
    not (str_eq (header (lit "X-Traffic-Replay") r.headers) (lit "true"))
    && (has_prefix r.path (lit "/demo/")
        && not (has_prefix r.path (lit "/demo/traffic/") || str_eq r.path (lit "/demo/health")))

pub keep_headers : Dict Str → List Str → Dict Str → Dict Str
keep_headers h [] out = out
keep_headers h (key ∷ keys) out =
    let v = trim_space (header key h) in
    keep_headers h keys (if is_empty v then out else insert key v out)

pub capture_headers : Dict Str → Dict Str
capture_headers h =
    keep_headers h (lit "Content-Type" ∷ lit "User-Agent" ∷ lit "X-Request-Id" ∷ []) []

pub captured_request : ℕ → Str → IncomingRequest → Str → CapturedRequest
captured_request id timestamp r body = record {
  id = id;
  timestamp = timestamp;
  method = r.method;
  path = r.path;
  query = r.query;
  headers = capture_headers r.headers;
  body = body;
}

-- The buffer under the lock: a full one drops its oldest request.
pub keep_captured : CapturedRequest → List CapturedRequest → List CapturedRequest
keep_captured req captured =
    if leb max_captured_traffic (length captured)
    then drop 1 captured ++ req ∷ []
    else captured ++ req ∷ []

-- The request goes on with the part of its body that was read.
pub capture_body : Demo → Str → IncomingRequest → Option Str → Demo × IncomingRequest
capture_body d timestamp r none = (d, r)
capture_body d timestamp r (some whole) =
    let body = take max_body whole in
    (
      record {
        captured = keep_captured (captured_request (d.seq + 1) timestamp r body) d.captured;
        seq = d.seq + 1;
        counters = counter_bump (lit "demo_traffic_captured_total") d.counters;
      },
      record r { body = some body },
    )

pub capture_request : Demo → Str → IncomingRequest → Demo × IncomingRequest
capture_request d timestamp r =
    if wants_capture r then capture_body d timestamp r r.body else (d, r)
