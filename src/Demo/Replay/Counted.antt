-- ===== src/Demo/Replay/Counted.antt =====
-- What a replay reports, and that it leaves the buffer alone: its requests come back to the service.
use Prim.Native.Nat.{min}
use feature_flags_control_pl.Shared.{
  ℕ, zero, suc, ap, ◌∙◌, ◌+◌, ◌-◌, ◌≡◌, refl, inl, inr, Option-cases, Option, none, some, List, [],
  ◌∷◌, Str, arith, length, length-drop, Dict, lookup, insert,
}
use feature_flags_control_pl.Store.Resp.{decimal}
use feature_flags_control_pl.Shared.Int.{ℤ, pos, negsuc}
use feature_flags_control_pl.Demo.{
  CapturedRequest, IncomingRequest, Demo, counter_bump, capture_request,
}
use feature_flags_control_pl.Demo.Replay.Selected.{capture-replayed}
use feature_flags_control_pl.Demo.Replay.{
  ReplayTrafficRequest, replay_limit, select_captured_traffic, sort_by_id, insert_by_id, matching,
  noted, ReplayRequest, replay_request, replay_path, replay_method, Outcome, answered, unbuilt,
  unanswered, Tally, tally, Report, replay_all, replay_selected, replay_traffic,
}

-- The sum of the counts.
abbrev pub total : Dict ℕ → ℕ
total [] = 0
total ((_, n) ∷ m) = n + total m

abbrev value : Option ℕ → ℕ
value none = 0
value (some n) = n

total-insert :
    (name : Str) (n : ℕ) (m : Dict ℕ)
    → total (insert name n m) + value (lookup name m) ≡ total m + n
unfolding lookup insert
total-insert name n [] = omega arith
total-insert name n ((k, v) ∷ m) = ground (arith, total-insert name n m)

total-bump : (name : Str) (m : Dict ℕ) → total (counter_bump name m) ≡ total m + 1
unfolding counter_bump
total-bump name m = elim (Option-cases (lookup name m)) [
  | inl new ↦ rw new (ground (arith, total-insert name 1 m, new))
  | inr (n, old) ↦ rw old (ground (arith, total-insert name (n + 1) m, old))
]

length-insert_by_id :
    (r : CapturedRequest) (rs : List CapturedRequest) → length (insert_by_id r rs) ≡ suc (length rs)
unfolding insert_by_id
length-insert_by_id r [] = refl
length-insert_by_id r (x ∷ xs) = ground (arith, length-insert_by_id r xs)

length-sort_by_id : (rs : List CapturedRequest) → length (sort_by_id rs) ≡ length rs
unfolding sort_by_id
length-sort_by_id [] = refl
length-sort_by_id (r ∷ rs) = length-insert_by_id r (sort_by_id rs) ∙ ap suc (length-sort_by_id rs)

-- How many requests a replay may take: 20 if none or a negative number is asked for, else what is asked
-- for, at most 500.
abbrev pub allowance : ℤ → ℕ
allowance (pos zero) = 20
allowance (pos (suc n)) = min 500 (suc n)
allowance (negsuc n) = 20

replay_limit-allowance : (n : ℤ) → replay_limit n ≡ allowance n
unfolding replay_limit
replay_limit-allowance (pos zero) = ground arith
replay_limit-allowance (pos (suc n)) = ground arith
replay_limit-allowance (negsuc n) = ground arith

-- The state that a request leaves: that of before, if it does not arrive; else that of a handler behind
-- the capture of the request, with all headers that were sent. No handler changes the captured traffic.
pub data Arrives (d : Demo) (sent : ReplayRequest) (after : Demo) : Type 0 where
  lost : after ≡ d → Arrives d sent after
  handled :
      (timestamp : Str) (r : IncomingRequest)
      → ((k v : Str) → lookup k sent.headers ≡ some v → lookup k r.headers ≡ some v)
      → after.captured ≡ (capture_request d timestamp r).0.captured
      → after.seq ≡ (capture_request d timestamp r).0.seq
      → Arrives d sent after

noted-captured :
    (d : Demo) (o : Outcome) → ((noted d o).captured ≡ d.captured) × ((noted d o).seq ≡ d.seq)
unfolding noted
noted-captured d (answered status) = (refl, refl)
noted-captured d unbuilt = (refl, refl)
noted-captured d unanswered = (refl, refl)

Arrives-captured :
    (port : Str) (item : CapturedRequest) (d after : Demo)
    → Arrives d (replay_request port item) after
    → (after.captured ≡ d.captured) × (after.seq ≡ d.seq)
unfolding replay_request
Arrives-captured port item d after (lost e) = (ap (λ x. x.captured) e, ap (λ x. x.seq) e)
Arrives-captured port item d after (handled timestamp r headers captured seq) =
    let skipped = capture-replayed d timestamp r item headers in
    (captured ∙ ap (λ x. x.0.captured) skipped, seq ∙ ap (λ x. x.0.seq) skipped)

module _ {W : Type 0} (port : Str) (network : W → Demo → ReplayRequest → W × Demo × Outcome) where
  replay_all-total :
      (w : W) (d : Demo) (t : Tally) (items : List CapturedRequest)
      → let t' = (replay_all port network w d t items).2 in
        total t'.status_counts + t'.failed ≡ total t.status_counts + t.failed + length items
  unfolding replay_all tally
  replay_all-total w d t [] = omega arith
  replay_all-total w d t (item ∷ items) =
      let (w', d', outcome) = network w d (replay_request port item) in
      (elim outcome
        as (λ o.
          let t' = (replay_all port network w' (noted d' o) (tally t o) items).2 in
          total t'.status_counts + t'.failed
          ≡ total t.status_counts + t.failed + suc (length items)) [
            | answered status ↦ omega (
              arith,
              replay_all-total w' (noted d' (answered status)) (tally t (answered status)) items,
              total-bump (decimal status) t.status_counts,
            )
            | unbuilt ↦
                omega (arith, replay_all-total w' (noted d' unbuilt) (tally t unbuilt) items)
            | unanswered ↦
                omega (arith, replay_all-total w' (noted d' unanswered) (tally t unanswered) items)
          ])

  replay_all-captured :
      ((w : W) (d : Demo) (r : ReplayRequest) → Arrives d r (network w d r).1)
      → (w : W) (d : Demo) (t : Tally) (items : List CapturedRequest)
      → let d' = (replay_all port network w d t items).1 in
        (d'.captured ≡ d.captured) × (d'.seq ≡ d.seq)
  unfolding replay_all
  replay_all-captured arrives w d t [] = (refl, refl)
  replay_all-captured arrives w d t (item ∷ items) =
      let sent = replay_request port item in
      let out = network w d sent in
      let came = Arrives-captured port item d out.1 (arrives w d sent) in
      let kept = noted-captured out.1 out.2 in
      let rest = replay_all-captured arrives out.0 (noted out.1 out.2) (tally t out.2) items in
      (rest.0 ∙ kept.0 ∙ came.0, rest.1 ∙ kept.1 ∙ came.1)

  -- A replay attempts all captured requests with its path and its method, up to the number that is asked
  -- for, at most 500, or 20 where none is asked for. Every attempt fails or is answered, and the counts
  -- of the statuses add up to the answered ones. The buffer stays as it was, if nothing but the
  -- replayed requests reaches the service meanwhile, each of them lost or with all its headers: the
  -- service does not capture them again.
  pub replay_traffic-total :
      (w : W) (d : Demo) (req : ReplayTrafficRequest)
      → ((w : W) (d : Demo) (r : ReplayRequest) → Arrives d r (network w d r).1)
      → let (w', d', report) = replay_traffic port network w d (some req) in
        (r : Report) × (report ≡ some r)
        × (r.attempted
            ≡ min
                (allowance req.limit)
                (length (matching (replay_path req) (replay_method req) d.captured)))
        × (r.successful + r.failed ≡ r.attempted)
        × (total r.status_counts ≡ r.successful)
        × (d'.captured ≡ d.captured)
        × (d'.seq ≡ d.seq)
  unfolding replay_traffic replay_selected select_captured_traffic
  replay_traffic-total w d req arrives =
      let path = replay_path req in
      let method = replay_method req in
      let limit = replay_limit req.limit in
      let selected = select_captured_traffic d.captured path method limit in
      let found = matching path method d.captured in
      let start : Tally = record { status_counts = []; failed = 0 } in
      let sum = replay_all-total w d start selected in
      let kept = replay_all-captured arrives w d start selected in
      (
        (replay_selected port network w d path method selected).2,
        refl,
        omega (
          arith,
          length-drop (length (sort_by_id found) - limit) (sort_by_id found),
          length-sort_by_id found,
          replay_limit-allowance req.limit,
        ),
        omega (arith, sum),
        omega (arith, sum),
        kept.0,
        kept.1,
      )
