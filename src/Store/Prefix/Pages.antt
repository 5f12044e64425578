-- ===== src/Store/Prefix/Pages.antt =====
-- What a listing by prefix returns.
use feature_flags_control_pl.Shared.{
  refl, ◌≢◌, Option, Bool, false, ◌||◌, lit, str_eq, Distinct, ℕ, zero, suc, ◌≤◌, ◌≡◌, ap, ◌∙◌,
  none, some, List, [], ◌∷◌, ◌++◌, Str, arith, is_empty, str_eq_iff, has_prefix, Dict, lookup,
  insert, lookup-insert, length, if◌then◌else◌,
}
use mathlib.Core.List.{append_assoc, append-nil}
use feature_flags_control_pl.Store.Values.{
  Value, text, items, nil, cons, nothing, texts, ok, string_members, redis_string_slice, scan_parts,
  redis_scan_response,
}
use feature_flags_control_pl.Store.{Env, Disk, World, ConfigStore, redis_command}
use feature_flags_control_pl.Store.Prefix.{
  filter_prefix, scan_answer, page_of, keep_value, fetch_values, fetch_scanned, scan_command,
  redis_scan_keys, get_all_by_prefix,
}

abbrev pub concat : List (List Str) → List Str
concat [] = []
concat (p ∷ ps) = p ++ concat ps

pub filter_prefix-lookup :
    (prefix k : Str) (m out : Dict Str)
    → Distinct m
    → lookup k (filter_prefix prefix m out) ≡ (
        if has_prefix k prefix
        then elim (lookup k m) [ none ↦ lookup k out | some v ↦ some v ]
        else lookup k out)
unfolding filter_prefix lookup
filter_prefix-lookup prefix k [] out d = ground arith
filter_prefix-lookup prefix k ((j, v) ∷ m) out d = ground (
  arith,
  str_eq_iff j k,
  lookup-insert j k v out,
  filter_prefix-lookup prefix k m (if has_prefix j prefix then insert j v out else out) d.1,
)

-- The command for a page, and the answer that holds one.
abbrev pub scan_from : Str → Str → List Str
scan_from pattern cursor =
    lit "SCAN" ∷ cursor ∷ lit "MATCH" ∷ pattern ∷ lit "COUNT" ∷ lit "100" ∷ []

abbrev pub scan_reply : Str → List Str → Value
scan_reply next keys = items (cons (text next) (cons (items (texts keys)) nil))

-- The answer to a question for a value that may be missing.
abbrev pub reply_of : Option Str → Value
reply_of none = nothing
reply_of (some v) = text v

string_members-texts : (keys : List Str) → string_members (texts keys) ≡ ok keys
unfolding string_members texts
string_members-texts [] = refl
string_members-texts (k ∷ keys) = rw (string_members-texts keys) refl

scan_answer-last :
    (keys : List Str)
    → scan_answer (some (scan_reply (lit "0") keys)) ≡ ok (record { keys = keys; next = none })
unfolding scan_answer page_of redis_scan_response scan_parts redis_string_slice str_eq
scan_answer-last keys = rw (string_members-texts keys) refl

scan_answer-more :
    (next : Str) (keys : List Str)
    → next ≢ lit "0"
    → scan_answer (some (scan_reply next keys)) ≡ ok (record { keys = keys; next = some next })
unfolding scan_answer page_of redis_scan_response scan_parts redis_string_slice
scan_answer-more next keys ne =
    let other : str_eq next (lit "0") ≡ false = ground (arith, str_eq_iff next (lit "0")) in
    rw (string_members-texts keys, other) refl

-- Whether a key stands in the list.
abbrev pub listed : Str → List Str → Bool
listed k [] = false
listed k (j ∷ keys) = str_eq j k || listed k keys

abbrev found_or : Option Str → Option Str → Option Str
found_or none o = o
found_or (some v) o = some v

lookup-keep_value :
    (key k : Str) (o : Option Str) (out : Dict Str)
    → lookup k (keep_value key (some (reply_of o)) out)
      ≡ (if str_eq key k then found_or o (lookup k out) else lookup k out)
unfolding keep_value
lookup-keep_value key k none out = ground arith
lookup-keep_value key k (some v) out = lookup-insert key k v out

found_or_self : (o p : Option Str) → found_or o (found_or o p) ≡ found_or o p
found_or_self none p = refl
found_or_self (some v) p = refl

-- A key that is fetched first and perhaps again later.
merged :
    (key k : Str) (m : Dict Str) (later : Bool) (o : Option Str)
    → (if later
        then found_or (lookup k m) (if str_eq key k then found_or (lookup key m) o else o)
        else (if str_eq key k then found_or (lookup key m) o else o))
      ≡ (if str_eq key k || later then found_or (lookup k m) o else o)
merged key k m later o = ground (arith, str_eq_iff key k, found_or_self (lookup k m) o)

found_or-none : (o : Option Str) → found_or o none ≡ o
found_or-none none = refl
found_or-none (some v) = refl

module _ {R : Type 0} (env : Env R) (cs : ConfigStore) where
  -- Without a Redis server, a listing by prefix succeeds at once, changes nothing and holds just the
  -- entries of the map whose key has the prefix.
  pub get_all_by_prefix-file :
      (fuel : ℕ) (w : World R) (prefix : Str)
      → cs.redis_addr ≡ []
      → Distinct cs.items
      → (out : Dict Str) × (get_all_by_prefix env fuel cs w prefix ≡ some (w, ok out))
        × ((k : Str) → lookup k out ≡ (if has_prefix k prefix then lookup k cs.items else none))
  unfolding get_all_by_prefix is_empty
  get_all_by_prefix-file fuel w prefix local d = (
    filter_prefix prefix cs.items [],
    rw local,
    λ k. unfold lookup in ground (arith, filter_prefix-lookup prefix k cs.items [] d),
  )

  -- A server in the state `r` answers a scan from `cursor` on in these pages, and is then in the state
  -- `last`: an answer is the next cursor and the keys of a page, and the cursor "0" ends the scan.
  pub data Serves (pattern : Str) (last : R) : R → Str → List (List Str) → Type 0 where
    last_page :
        {r : R} {cursor : Str} (keys : List Str)
        → env.command r (scan_from pattern cursor) ≡ (last, some (scan_reply (lit "0") keys))
        → Serves pattern last r cursor (keys ∷ [])
    more_pages :
        {r r' : R} {cursor next : Str} {pages : List (List Str)} (keys : List Str)
        → next ≢ lit "0"
        → env.command r (scan_from pattern cursor) ≡ (r', some (scan_reply next keys))
        → Serves pattern last r' next pages
        → Serves pattern last r cursor (keys ∷ pages)

  abbrev world_at : Disk → R → World R
  world_at disk r = record { disk = disk; redis = r }

  -- In the state `r`, the server answers a question for a value from the map and stays as it is.
  abbrev pub Gets : R → Dict Str → Type 0
  Gets r m =
      (key : Str) → env.command r (lit "GET" ∷ key ∷ []) ≡ (r, some (reply_of (lookup key m)))

  module _ (filled : is_empty cs.redis_addr ≡ false) where
    scan_step :
        (pattern cursor next : Str) (keys : List Str) (disk : Disk) (r r' : R)
        → env.command r (scan_from pattern cursor) ≡ (r', some (scan_reply next keys))
        → scan_command env cs (world_at disk r) pattern cursor
          ≡ (world_at disk r', some (scan_reply next keys))
    unfolding scan_command redis_command
    scan_step pattern cursor next keys disk r r' answered =
        rw (redis_command, filled, answered) refl

    scan_stop :
        (pattern : Str) (fuel : ℕ) (disk : Disk) (r r' : R) (cursor : Str)
        (all_keys keys : List Str)
        → env.command r (scan_from pattern cursor) ≡ (r', some (scan_reply (lit "0") keys))
        → redis_scan_keys env (suc fuel) cs (world_at disk r) pattern cursor all_keys
          ≡ some (world_at disk r', ok (all_keys ++ keys))
    unfolding redis_scan_keys
    scan_stop pattern fuel disk r r' cursor all_keys keys answered =
        let asked = scan_step pattern cursor (lit "0") keys disk r r' answered in
        let page = ap (λ a. scan_answer a.1) asked ∙ scan_answer-last keys in
        ground (arith, ap (λ a. a.0) asked)

    scan_go :
        (pattern : Str) (fuel : ℕ) (disk : Disk) (r r' : R) (cursor next : Str)
        (all_keys keys : List Str)
        → next ≢ lit "0"
        → env.command r (scan_from pattern cursor) ≡ (r', some (scan_reply next keys))
        → redis_scan_keys env (suc fuel) cs (world_at disk r) pattern cursor all_keys
          ≡ redis_scan_keys env fuel cs (world_at disk r') pattern next (all_keys ++ keys)
    unfolding redis_scan_keys
    scan_go pattern fuel disk r r' cursor next all_keys keys ne answered =
        let asked = scan_step pattern cursor next keys disk r r' answered in
        let page = ap (λ a. scan_answer a.1) asked ∙ scan_answer-more next keys ne in
        ground (arith, ap (λ a. a.0) asked)

    redis_scan_keys-pages :
        (pattern : Str) (last : R) {r : R} {cursor : Str} {pages : List (List Str)}
        → Serves pattern last r cursor pages
        → (disk : Disk) (fuel : ℕ) (all_keys : List Str) → length pages ≤ fuel
        → redis_scan_keys env fuel cs (world_at disk r) pattern cursor all_keys
          ≡ some (world_at disk last, ok (all_keys ++ concat pages))
    redis_scan_keys-pages pattern last (last_page keys answered) disk zero all_keys h =
        absurd (omega arith)
    redis_scan_keys-pages pattern last (more_pages keys ne answered rest) disk zero all_keys h =
        absurd (omega arith)
    redis_scan_keys-pages pattern last {r} {cursor} (last_page keys answered) disk (suc fuel)
          all_keys h =
        rw (scan_stop pattern fuel disk r last cursor all_keys keys answered, append-nil keys)
    redis_scan_keys-pages pattern last {r} {cursor}
          (more_pages {r' = r'} {next = next} {pages = more} keys ne answered rest) disk (suc fuel)
          all_keys h =
        scan_go pattern fuel disk r r' cursor next all_keys keys ne answered
        ∙ (redis_scan_keys-pages pattern last rest disk fuel (all_keys ++ keys) (omega arith)
            ∙ ap (λ ks. some (world_at disk last, ok ks))
                (append_assoc all_keys keys (concat more)))

    fetch_next :
        (m : Dict Str) (disk : Disk) (r : R) (key : Str) (keys : List Str) (out : Dict Str)
        → Gets r m
        → fetch_values env cs (world_at disk r) (key ∷ keys) out
          ≡ fetch_values env cs
              (world_at disk r)
              keys
              (keep_value key (some (reply_of (lookup key m))) out)
    unfolding fetch_values redis_command
    fetch_next m disk r key keys out gets =
        let got : redis_command env cs (world_at disk r) (lit "GET" ∷ key ∷ [])
            ≡ (world_at disk r, some (reply_of (lookup key m))) =
          rw (filled, gets key) refl in
        ap (λ a. fetch_values env cs a.0 keys (keep_value key a.1 out)) got

    -- The values of the keys, put into the map `out` one after the other.
    fetch_values-lookup :
        (m : Dict Str) (disk : Disk) (r : R) (keys : List Str) (out : Dict Str) (k : Str)
        → Gets r m
        → lookup k (fetch_values env cs (world_at disk r) keys out).1
          ≡ (if listed k keys then found_or (lookup k m) (lookup k out) else lookup k out)
    unfolding fetch_values
    fetch_values-lookup m disk r [] out k gets = refl
    fetch_values-lookup m disk r (key ∷ keys) out k gets =
        let kept = keep_value key (some (reply_of (lookup key m))) out in
        ap (λ a. lookup k a.1) (fetch_next m disk r key keys out gets)
        ∙ (fetch_values-lookup m disk r keys kept k gets
            ∙ rw (lookup-keep_value key k (lookup key m) out)
                (merged key k m (listed k keys) (lookup k out)))

    fetch_values-world :
        (m : Dict Str) (disk : Disk) (r : R) (keys : List Str) (out : Dict Str)
        → Gets r m
        → (fetch_values env cs (world_at disk r) keys out).0 ≡ world_at disk r
    unfolding fetch_values
    fetch_values-world m disk r [] out gets = refl
    fetch_values-world m disk r (key ∷ keys) out gets =
        ap (λ a. a.0) (fetch_next m disk r key keys out gets)
        ∙ fetch_values-world m disk r keys (keep_value key (some (reply_of (lookup key m))) out)
            gets

    -- If a Redis server is configured, if it answers a scan for the prefix in any number of pages, the
    -- last one with the cursor "0", and then a question for a value from a map, and if there is fuel for a
    -- round per page, then a listing by prefix ends with success, leaves the server as the scan left it,
    -- and holds the value of a key if the key stands in one of the pages and the map has it, and nothing
    -- else.
    pub get_all_by_prefix-pages :
        (prefix : Str) (m : Dict Str) (last : R) (w : World R) (pages : List (List Str)) (fuel : ℕ)
        → Serves (prefix ++ lit "*") last w.redis (lit "0") pages
        → Gets last m
        → length pages ≤ fuel
        → (out : Dict Str) × (get_all_by_prefix env fuel cs w prefix
            ≡ some (record w { redis = last }, ok out))
          × ((k : Str) → lookup k out ≡ (if listed k (concat pages) then lookup k m else none))
    unfolding get_all_by_prefix fetch_scanned
    get_all_by_prefix-pages prefix m last w pages fuel serves gets h =
        let scanned = redis_scan_keys-pages (prefix ++ lit "*") last serves w.disk fuel [] h in
        let start = world_at w.disk last in
        let fetched = fetch_values env cs start (concat pages) [] in
        (
          fetched.1,
          rw (filled, scanned, fetch_values-world m w.disk last (concat pages) [] gets) refl,
          λ k.
              unfold lookup in
              fetch_values-lookup m w.disk last (concat pages) [] k gets
              ∙ rw (found_or-none (lookup k m)) refl,
        )
