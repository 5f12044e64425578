-- ===== src/Demo/Log.antt =====
-- The buffer of captured requests against the log of all captured requests.
use feature_flags_control_pl.Shared.{
  ℕ, zero, suc, ◌+◌, ◌-◌, ◌≤◌, ◌≡◌, refl, sym, ap, ◌∙◌, Option, none, some, List, [], ◌∷◌, ◌++◌,
  Str, arith, length, length-append, length-drop, take, drop, leb, if◌then◌else◌, Bool-cases, inl,
  inr,
}
use mathlib.Core.List.{append_assoc, append-nil}
use feature_flags_control_pl.Demo.{
  CapturedRequest, IncomingRequest, Demo, max_captured_traffic, max_body, wants_capture,
  captured_request, keep_captured, capture_body, capture_request,
}

-- The service after the requests, each with the time at which it is captured.
pub run : Demo → List (Str × IncomingRequest) → Demo
run d [] = d
run d ((timestamp, r) ∷ rs) = run (capture_request d timestamp r).0 rs

-- The record of one request: none where the request is not captured.
pub entry_of : ℕ → Str → IncomingRequest → Option Str → List CapturedRequest
entry_of id timestamp r none = []
entry_of id timestamp r (some whole) = captured_request id timestamp r (take max_body whole) ∷ []

pub entry : ℕ → Str → IncomingRequest → List CapturedRequest
entry id timestamp r = if wants_capture r then entry_of id timestamp r r.body else []

-- All captured requests, oldest first, numbered on from `n`.
pub log : ℕ → List (Str × IncomingRequest) → List CapturedRequest
log n [] = []
log n ((timestamp, r) ∷ rs) = let new = entry (n + 1) timestamp r in new ++ log (n + length new) rs

abbrev pub last {ℓ} : {A : Type ℓ} → ℕ → List A → List A
last n xs = drop (length xs - n) xs

drop-append {ℓ} :
    {A : Type ℓ} (n : ℕ) (xs ys : List A) → n ≤ length xs → drop n (xs ++ ys) ≡ drop n xs ++ ys
drop-append zero xs ys h = refl
drop-append (suc n) [] ys h = absurd (omega arith)
drop-append (suc n) (x ∷ xs) ys h = drop-append n xs ys (omega arith)

drop-nil {ℓ} : {A : Type ℓ} (n : ℕ) → drop {A = A} n [] ≡ []
drop-nil zero = refl
drop-nil (suc n) = refl

drop-drop {ℓ} : {A : Type ℓ} (m n : ℕ) (xs : List A) → drop m (drop n xs) ≡ drop (n + m) xs
drop-drop m zero xs = ap (λ k. drop k xs) (omega arith)
drop-drop m (suc n) [] = drop-nil m ∙ sym (drop-nil (suc n + m))
drop-drop m (suc n) (x ∷ xs) =
    let same : suc (n + m) ≡ suc n + m = omega arith in
    drop-drop m n xs ∙ ap (λ k. drop k (x ∷ xs)) same

-- A kept request is the last of the log.
keep_captured-last :
    (req : CapturedRequest) (all : List CapturedRequest)
    → keep_captured req (last max_captured_traffic all)
      ≡ last max_captured_traffic (all ++ req ∷ [])
unfolding keep_captured
keep_captured-last req all =
    let size = length-drop (length all - max_captured_traffic) all in
    let grown = length-append all (req ∷ []) in
    let whole =
      drop-append (length (all ++ req ∷ []) - max_captured_traffic) all (req ∷ [])
        (omega (arith, grown)) in
    elim (Bool-cases (leb max_captured_traffic (length (last max_captured_traffic all)))) [
      | inl full ↦ rw full (
          ap (λ xs. xs ++ req ∷ [])
            (drop-drop 1 (length all - max_captured_traffic) all
              ∙ ap (λ k. drop k all) (ground (arith, size, grown)))
          ∙ sym whole)
      | inr room ↦
          rw room (ap (λ k. drop k all ++ req ∷ []) (ground (arith, size, grown)) ∙ sym whole)
    ]

capture_body-last :
    (d : Demo) (all : List CapturedRequest) (timestamp : Str) (r : IncomingRequest)
    (body : Option Str)
    → d.captured ≡ last max_captured_traffic all
    → ((capture_body d timestamp r body).0.captured
        ≡ last max_captured_traffic (all ++ entry_of (d.seq + 1) timestamp r body))
      × ((capture_body d timestamp r body).0.seq
          ≡ d.seq + length (entry_of (d.seq + 1) timestamp r body))
unfolding capture_body entry_of
capture_body-last d all timestamp r none held =
    (held ∙ ap (last max_captured_traffic) (sym (append-nil all)), omega arith)
capture_body-last d all timestamp r (some whole) held =
    let req = captured_request (d.seq + 1) timestamp r (take max_body whole) in
    (ap (keep_captured req) held ∙ keep_captured-last req all, omega arith)

-- One request, from a service that holds the last requests of `all`.
capture_request-last :
    (d : Demo) (all : List CapturedRequest) (timestamp : Str) (r : IncomingRequest)
    → d.captured ≡ last max_captured_traffic all
    → ((capture_request d timestamp r).0.captured
        ≡ last max_captured_traffic (all ++ entry (d.seq + 1) timestamp r))
      × ((capture_request d timestamp r).0.seq ≡ d.seq + length (entry (d.seq + 1) timestamp r))
unfolding capture_request entry
capture_request-last d all timestamp r held = elim (Bool-cases (wants_capture r)) [
  | inl wanted ↦ rw wanted (capture_body-last d all timestamp r r.body held)
  | inr other ↦ rw other (held ∙ ap (last max_captured_traffic) (sym (append-nil all)), omega arith)
]

run-last :
    (rs : List (Str × IncomingRequest)) (d : Demo) (all : List CapturedRequest)
    → d.captured ≡ last max_captured_traffic all
    → ((run d rs).captured ≡ last max_captured_traffic (all ++ log d.seq rs))
      × ((run d rs).seq ≡ d.seq + length (log d.seq rs))
unfolding run log
run-last [] d all held = (held ∙ ap (last max_captured_traffic) (sym (append-nil all)), omega arith)
run-last ((timestamp, r) ∷ rs) d all held =
    let d' = (capture_request d timestamp r).0 in
    let new = entry (d.seq + 1) timestamp r in
    let (kept, counted) = capture_request-last d all timestamp r held in
    let (rest, total) = run-last rs d' (all ++ new) kept in
    let numbered = ap (λ n. log n rs) counted in
    (
      rest
          ∙ ap (last max_captured_traffic)
              (append_assoc all new (log d'.seq rs) ∙ ap (λ l. all ++ (new ++ l)) numbered),
      total
          ∙ ap (λ l. d'.seq + length l) numbered
          ∙ omega (arith, counted, length-append new (log (d.seq + length new) rs)),
    )

abbrev pub fresh : Demo
fresh = record { captured = []; seq = 0; counters = [] }

-- After any requests to a fresh service, the buffer holds the last 2000 of all the requests that were
-- captured, oldest first and numbered from 1, and the sequence number is how many those are.
pub run-log :
    (rs : List (Str × IncomingRequest))
    → ((run fresh rs).captured ≡ last max_captured_traffic (log 0 rs))
      × ((run fresh rs).seq ≡ length (log 0 rs))
run-log rs = let (kept, counted) = run-last rs fresh [] refl in (kept, omega (arith, counted))
