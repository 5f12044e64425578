-- ===== src/Demo/Replay/Selected.antt =====
-- Which requests a replay takes, and that none of them is captured again.
use feature_flags_control_pl.Shared.{
  ℕ, Dict, lookup, zero, suc, ◌-◌, ◌≤◌, ◌≡◌, refl, sym, ap, ◌∙◌, ◌↔◌, ◌⊎◌, subst, inl, inr,
  Bool-cases, true, false, ◌&&◌, some, List, [], ◌∷◌, ◌++◌, Str, lit, arith, length, length-drop,
  drop, take, ltb, if◌then◌else◌, In, str_eq, str_eq_iff, lookup-insert_self,
}
use mathlib.Core.List.{Perm}
use mathlib.Core.List.Perm
use feature_flags_control_pl.Demo.{
  CapturedRequest, IncomingRequest, Demo, header, wants_capture, capture_request,
}
use feature_flags_control_pl.Demo.Replay.{
  select_captured_traffic, sort_by_id, insert_by_id, matching, replay_headers, set_headers,
}

matching-In :
    (path method : Str) (r : CapturedRequest) (rs : List CapturedRequest)
    → In r (matching path method rs) ↔ (In r rs × (r.path ≡ path) × (r.method ≡ method))
unfolding matching
matching-In path method r [] = (λ h. absurd h, λ h. absurd h.0)
matching-In path method r (x ∷ rs) =
    let ih = matching-In path method r rs in
    elim (Bool-cases (str_eq x.path path && str_eq x.method method)) [
      | inl fits ↦
          let p : x.path ≡ path = ground (arith, str_eq_iff x.path path, fits) in
          let q : x.method ≡ method = ground (arith, str_eq_iff x.method method, fits) in
          rw fits (
            λ h. elim h [
              | inl e ↦ (inl e, ap (λ z. z.path) (sym e) ∙ p, ap (λ z. z.method) (sym e) ∙ q)
              | inr m ↦ let k = ih.0 m in (inr k.0, k.1, k.2)
            ],
            λ h. elim h.0 [ inl e ↦ inl e | inr m ↦ inr (ih.1 (m, h.1, h.2)) ],
          )
      | inr other ↦ rw other (
        λ m. let k = ih.0 m in (inr k.0, k.1, k.2),
        λ h. elim h.0 [
          | inl e ↦
              let p : x.path ≡ path = ap (λ z. z.path) e ∙ h.1 in
              let q : x.method ≡ method = ap (λ z. z.method) e ∙ h.2 in
              absurd (ground (arith, str_eq_iff x.path path, str_eq_iff x.method method, p, q))
          | inr m ↦ ih.1 (m, h.1, h.2)
        ],
      )
    ]

insert_by_id-perm :
    (r : CapturedRequest) (rs : List CapturedRequest) → Perm (insert_by_id r rs) (r ∷ rs)
unfolding insert_by_id
insert_by_id-perm r [] = Perm.refl (r ∷ [])
insert_by_id-perm r (x ∷ xs) =
    elim (ltb x.id r.id)
      as (λ b. Perm (if b then x ∷ insert_by_id r xs else r ∷ x ∷ xs) (r ∷ x ∷ xs)) [
        | true ↦ Perm.trans (Perm.cons x (insert_by_id-perm r xs)) (Perm.swap r x xs)
        | false ↦ Perm.refl (r ∷ x ∷ xs)
      ]

sort_by_id-perm : (rs : List CapturedRequest) → Perm (sort_by_id rs) rs
unfolding sort_by_id
sort_by_id-perm [] = Perm.refl []
sort_by_id-perm (r ∷ rs) =
    Perm.trans (insert_by_id-perm r (sort_by_id rs)) (Perm.cons r (sort_by_id-perm rs))

-- The ids do not fall.
abbrev pub IsAscending : ℕ → List CapturedRequest → Type 0
IsAscending n [] = Unit
IsAscending n (r ∷ rs) = (n ≤ r.id) × IsAscending r.id rs

insert_by_id-IsAscending :
    (n : ℕ) (r : CapturedRequest) (rs : List CapturedRequest)
    → n ≤ r.id
    → IsAscending n rs
    → IsAscending n (insert_by_id r rs)
unfolding insert_by_id
insert_by_id-IsAscending n r [] h s = (h, tt)
insert_by_id-IsAscending n r (x ∷ xs) h s = elim (Bool-cases (ltb x.id r.id)) [
  | inl below ↦ rw below (s.0, insert_by_id-IsAscending x.id r xs (ground arith) s.1)
  | inr above ↦ rw above (h, (ground arith, s.1))
]

sort_by_id-IsAscending : (rs : List CapturedRequest) → IsAscending 0 (sort_by_id rs)
unfolding sort_by_id
sort_by_id-IsAscending [] = tt
sort_by_id-IsAscending (r ∷ rs) =
    insert_by_id-IsAscending 0 r (sort_by_id rs) (omega arith) (sort_by_id-IsAscending rs)

take-drop {ℓ} : {A : Type ℓ} (n : ℕ) (xs : List A) → take n xs ++ drop n xs ≡ xs
take-drop zero xs = refl
take-drop (suc n) [] = refl
take-drop (suc n) (x ∷ xs) = ap (λ l. x ∷ l) (take-drop n xs)

-- `selected` is the newest part of the captured requests with the path and the method: with older ones
-- before it, it is all of them, in the order of their ids, and it leaves out older ones only where it
-- has the limit.
pub record Newest (captured : List CapturedRequest) (path method : Str) (limit : ℕ)
    (selected : List CapturedRequest) : Type 0 where
  pub older : List CapturedRequest
  pub found : List CapturedRequest
  pub found_In :
      (r : CapturedRequest) → In r found ↔ (In r captured × (r.path ≡ path) × (r.method ≡ method))
  pub all_found : Perm (older ++ selected) found
  pub ascending : IsAscending 0 (older ++ selected)
  pub bounded : length selected ≤ limit
  pub full : (older ≡ []) ⊎ (length selected ≡ limit)

take-zero_or :
    {A : Type 0} (n : ℕ) (limit : ℕ) (xs : List A)
    → n ≡ length xs - limit
    → (take n xs ≡ []) ⊎ (length (drop n xs) ≡ limit)
take-zero_or zero limit xs e = inl refl
take-zero_or (suc n) limit xs e = inr (omega (arith, length-drop (suc n) xs))

-- What a replay selects is the newest part of the captured requests with its path and its method, at
-- most as many as its limit.
pub select_captured_traffic-Newest :
    (captured : List CapturedRequest) (path method : Str) (limit : ℕ)
    → Newest captured path method limit (select_captured_traffic captured path method limit)
unfolding select_captured_traffic
select_captured_traffic-Newest captured path method limit =
    let matches = sort_by_id (matching path method captured) in
    let n = length matches - limit in
    let whole = take-drop n matches in
    record {
      older = take n matches;
      found = matching path method captured;
      found_In = λ r. matching-In path method r captured;
      all_found =
          subst (λ l. Perm l (matching path method captured)) (sym whole)
            (sort_by_id-perm (matching path method captured));
      ascending =
          subst (IsAscending 0) (sym whole)
            (sort_by_id-IsAscending (matching path method captured));
      bounded = omega (arith, length-drop n matches);
      full = take-zero_or n limit matches refl;
    }

header-found : (k v : Str) (h : Dict Str) → lookup k h ≡ some v → header k h ≡ v
unfolding header
header-found k v h found = rw (header, found) refl

replay_headers-marked :
    (item : CapturedRequest)
    → lookup (lit "X-Traffic-Replay") (replay_headers item) ≡ some (lit "true")
unfolding replay_headers
replay_headers-marked item =
    lookup-insert_self (lit "X-Traffic-Replay") (lit "true") (set_headers item.headers [])

marked-skipped :
    (r : IncomingRequest)
    → header (lit "X-Traffic-Replay") r.headers ≡ lit "true"
    → wants_capture r ≡ false
unfolding wants_capture str_eq
marked-skipped r marked = rw marked

-- A replayed request that reaches the service again, whatever its path, is not captured again, if its
-- headers hold those that were sent.
pub capture-replayed :
    (d : Demo) (timestamp : Str) (r : IncomingRequest) (item : CapturedRequest)
    → ((k v : Str) → lookup k (replay_headers item) ≡ some v → lookup k r.headers ≡ some v)
    → capture_request d timestamp r ≡ (d, r)
unfolding capture_request
capture-replayed d timestamp r item arrived = rw (
    marked-skipped r (
      header-found (lit "X-Traffic-Replay") (lit "true") r.headers
        (arrived (lit "X-Traffic-Replay") (lit "true") (replay_headers-marked item))))
