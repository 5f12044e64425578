-- ===== src/Demo/Replay.antt =====
-- microservice-demo/main.go: the listing of captured requests, and their replay. The network is a
-- parameter: what becomes of a request that is sent, with a state of its own. A replayed request comes to
-- the service that replays it, so the network changes the state of the service, too.
pub mod Selected
pub mod Counted
use feature_flags_control_pl.Shared.{
  ℕ, ◌+◌, ◌-◌, Bool, true, false, not, ◌&&◌, Option, none, some, List, [], ◌∷◌, ◌++◌, Str, lit, map,
  str_eq, is_empty, has_prefix, Dict, lookup, insert, length, drop, ltb, leb, if◌then◌else◌,
}
use feature_flags_control_pl.Shared.Int.{ℤ, pos, pos_part, ltb_ℤ, leb_ℤ}
use feature_flags_control_pl.Store.Resp.{decimal}
use feature_flags_control_pl.Demo.Numbers.{integer}
use feature_flags_control_pl.Demo.{CapturedRequest, IncomingRequest, Demo, counter_bump}

-- `limit` of a listing: 50 for none, at most 200.
pub listing_limit : Str → ℕ
listing_limit text =
    let n = integer text in
    let limit = if leb_ℤ n (pos 0) then 50 else pos_part n in if ltb 200 limit then 200 else limit

pub record Listing : Type 0 where
  pub total : ℕ
  pub returned : ℕ
  pub items : List CapturedRequest

pub get_captured_traffic : Demo → Str → Listing
get_captured_traffic d limit_query =
    let total = length d.captured in
    let items = drop (total - listing_limit limit_query) d.captured in
    record { total = total; returned = length items; items = items }

pub record ReplayTrafficRequest : Type 0 where
  pub path : Str
  pub method : Str
  pub limit : ℤ
  pub delay_ms : ℤ

-- strings.ToUpper on ASCII text
pub upper : ℕ → ℕ
upper c = if leb 97 c && leb c 122 then c - 32 else c

pub to_upper : Str → Str
to_upper s = map upper s

pub replay_limit : ℤ → ℕ
replay_limit n =
    let limit = if leb_ℤ n (pos 0) then 20 else pos_part n in if ltb 500 limit then 500 else limit

-- The path, the method and the limit that a replay works with.
pub replay_path : ReplayTrafficRequest → Str
replay_path req = if is_empty req.path then lit "/demo/action" else req.path

pub replay_method : ReplayTrafficRequest → Str
replay_method req = to_upper (if is_empty req.method then lit "POST" else req.method)

pub matching : Str → Str → List CapturedRequest → List CapturedRequest
matching path method [] = []
matching path method (r ∷ rs) =
    let rest = matching path method rs in
    if str_eq r.path path && str_eq r.method method then r ∷ rest else rest

-- `sort.Slice` by id. The ids are different, so the result does not depend on the method.
pub insert_by_id : CapturedRequest → List CapturedRequest → List CapturedRequest
insert_by_id r [] = r ∷ []
insert_by_id r (x ∷ xs) = if ltb x.id r.id then x ∷ insert_by_id r xs else r ∷ x ∷ xs

pub sort_by_id : List CapturedRequest → List CapturedRequest
sort_by_id [] = []
sort_by_id (r ∷ rs) = insert_by_id r (sort_by_id rs)

pub select_captured_traffic : List CapturedRequest → Str → Str → ℕ → List CapturedRequest
select_captured_traffic captured path method limit =
    let matches = sort_by_id (matching path method captured) in
    drop (length matches - limit) matches

pub is_nil : List CapturedRequest → Bool
is_nil [] = true
is_nil (_ ∷ _) = false

-- A request that is sent again.
pub record ReplayRequest : Type 0 where
  pub method : Str
  pub target : Str
  pub headers : Dict Str
  pub body : Str

-- `for k, v := range item.Headers { replayReq.Header.Set(k, v) }`
pub set_headers : Dict Str → Dict Str → Dict Str
set_headers [] h = h
set_headers ((k, v) ∷ headers) h = set_headers headers (insert k v h)

pub replay_headers : CapturedRequest → Dict Str
replay_headers item = insert (lit "X-Traffic-Replay") (lit "true") (set_headers item.headers [])

pub replay_target : Str → CapturedRequest → Str
replay_target port item =
    let target = lit "http://127.0.0.1:" ++ (port ++ item.path) in
    if is_empty item.query then target else target ++ (lit "?" ++ item.query)

pub replay_request : Str → CapturedRequest → ReplayRequest
replay_request port item = record {
  method = item.method;
  target = replay_target port item;
  headers = replay_headers item;
  body = item.body;
}

-- What becomes of a request: it cannot be built, it fails, or it is answered with a status.
pub data Outcome : Type 0 where
  unbuilt unanswered : Outcome
  answered : ℕ → Outcome

pub record Tally : Type 0 where
  pub status_counts : Dict ℕ
  pub failed : ℕ

-- The changes of one round of the loop, behind the request.
pub tally : Tally → Outcome → Tally
tally t (answered status) = record t {
  status_counts = counter_bump (decimal status) t.status_counts;
}
tally t _ = record t { failed = t.failed + 1 }

pub noted : Demo → Outcome → Demo
noted d (answered status) = record d {
  counters = counter_bump (lit "demo_traffic_replayed_total") d.counters;
}
noted d _ = record d { counters = counter_bump (lit "demo_traffic_replay_errors_total") d.counters }

pub record Report : Type 0 where
  pub path : Str
  pub method : Str
  pub attempted : ℕ
  pub successful : ℕ
  pub failed : ℕ
  pub status_counts : Dict ℕ
  pub message : Str

module _ {W : Type 0} (port : Str) (network : W → Demo → ReplayRequest → W × Demo × Outcome) where
  pub replay_all : W → Demo → Tally → List CapturedRequest → W × Demo × Tally
  replay_all w d t [] = (w, d, t)
  replay_all w d t (item ∷ items) =
      let (w', d', outcome) = network w d (replay_request port item) in
      replay_all w' (noted d' outcome) (tally t outcome) items

  pub replay_selected : W → Demo → Str → Str → List CapturedRequest → W × Demo × Report
  replay_selected w d path method selected =
      let (w', d', t) = replay_all w d (record { status_counts = []; failed = 0 }) selected in
      (
        w',
        d',
        record {
          path = path;
          method = method;
          attempted = length selected;
          successful = length selected - t.failed;
          failed = t.failed;
          status_counts = t.status_counts;
          message = if is_nil selected then lit "no matching captured traffic" else [];
        },
      )

  -- No request stands for a body that is no JSON, which is answered 400. An empty body is the zero
  -- request. A replay without matches is the loop over no items.
  pub replay_traffic : W → Demo → Option ReplayTrafficRequest → W × Demo × Option Report
  replay_traffic w d none = (w, d, none)
  replay_traffic w d (some req) =
      let path = replay_path req in
      let method = replay_method req in
      let (w', d', report) =
        replay_selected w d path method
          (select_captured_traffic d.captured path method (replay_limit req.limit)) in
      (w', d', some report)
