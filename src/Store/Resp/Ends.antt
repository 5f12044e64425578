-- ===== src/Store/Resp/Ends.antt =====
-- The reader of the Redis protocol ends on every input.
use feature_flags_control_pl.Shared.{
  ℕ, zero, suc, ◌+◌, ◌≤◌, ◌<◌, Option, none, some, [], ◌∷◌, Str, arith, length, trim_suffix, ◌==◌,
  leb, take, ◌-◌, ◌^◌, Bool, true, false, if◌then◌else◌,
}
use feature_flags_control_pl.Shared.Int.{ℤ, pos, negsuc}
use feature_flags_control_pl.Store.Values.{Value, Items, text}
use feature_flags_control_pl.Store.Resp.{
  Read, done, failed, panicked, exhausted, atoi, split_line, read_resp_line, read_full, read_bulk,
  after_item, read_items, as_array, read_array, read_number, read_kind, read_resp,
}

-- The read came to an end, and left at most `n` bytes.
abbrev pub Ends : {A : Type 0} → ℕ → Read A → Type 0
Ends n (done a rest) = length rest ≤ n
Ends n failed = Unit
Ends n panicked = Unit
Ends n exhausted = ⊥

-- What is left of a line or a payload, where there is one.
abbrev Left : {A : Type 0} → ℕ → Option (A × Str) → Type 0
Left n none = Unit
Left n (some (a, rest)) = length rest ≤ n

Left-map :
    {A B : Type 0} (f : A → B) (m n : ℕ) (o : Option (A × Str))
    → m ≤ n
    → Left m o
    → Left n (elim o [ none ↦ none | some (a, rest) ↦ some (f a, rest) ])
Left-map f m n none h l = tt
Left-map f m n (some (a, rest)) h l = omega arith

split_line-Left : (s : Str) → Left (length s) (split_line s)
unfolding split_line
split_line-Left [] = tt
split_line-Left (b ∷ s) =
    let later =
      Left-map (λ line. b ∷ line) (length s) (suc (length s)) (split_line s) (omega arith)
        (split_line-Left s) in
    elim (b == 10)
      as (λ x. Left (suc (length s)) (
        if x
        then some ([], s)
        else elim (split_line s) [ none ↦ none | some (line, rest) ↦ some (b ∷ line, rest) ])) [
          | true ↦ omega arith
          | false ↦ later
        ]

read_resp_line-Left : (s : Str) → Left (length s) (read_resp_line s)
unfolding read_resp_line
read_resp_line-Left s =
    Left-map (λ line. trim_suffix line (13 ∷ [])) (length s) (length s) (split_line s) (omega arith)
      (split_line-Left s)

read_full-Left : (n : ℕ) (s : Str) → Left (length s) (read_full n s)
unfolding read_full
read_full-Left zero s = omega arith
read_full-Left (suc n) [] = tt
read_full-Left (suc n) (b ∷ s) =
    Left-map (λ p. b ∷ p) (length s) (suc (length s)) (read_full n s) (omega arith)
      (read_full-Left n s)

payload-Ends :
    (n m : ℕ) (o : Option (Str × Str))
    → Left m o
    → Ends m (elim o [ none ↦ failed | some (payload, rest) ↦ done (text (take n payload)) rest ])
payload-Ends n m none l = tt
payload-Ends n m (some (payload, rest)) l = l

read_bulk-Ends : (o : Option ℤ) (s : Str) → Ends (length s) (read_bulk o s)
unfolding read_bulk
read_bulk-Ends none s = tt
read_bulk-Ends (some (negsuc zero)) s = omega arith
read_bulk-Ends (some (negsuc (suc n))) s = tt
read_bulk-Ends (some (pos n)) s =
    let whole = payload-Ends n (length s) (read_full (n + 2) s) (read_full-Left (n + 2) s) in
    elim (leb (n + 2) (2 ^ 63 - 1))
      as (λ x. Ends (length s) (
        if x
        then elim (read_full (n + 2) s) [
          | none ↦ failed
          | some (payload, rest) ↦ done (text (take n payload)) rest
        ]
        else panicked)) [ true ↦ whole | false ↦ tt ]

Ends-weaken : {A : Type 0} (m n : ℕ) (r : Read A) → m ≤ n → Ends m r → Ends n r
Ends-weaken m n (done a rest) h e = omega arith
Ends-weaken m n failed h e = tt
Ends-weaken m n panicked h e = tt
Ends-weaken m n exhausted h e = e

after_item-Ends :
    (v : Value) (m n : ℕ) (r : Read Items) → m ≤ n → Ends m r → Ends n (after_item v r)
unfolding after_item
after_item-Ends v m n (done vs rest) h e = omega arith
after_item-Ends v m n failed h e = tt
after_item-Ends v m n panicked h e = tt
after_item-Ends v m n exhausted h e = e

read_items-Ends :
    (read : Str → Read Value) (k : ℕ)
    → ((t : Str) → length t ≤ k → Ends (length t) (read t))
    → (n : ℕ) (s : Str) → length s ≤ k
    → Ends (length s) (read_items read n s)
unfolding read_items
read_items-Ends read k reads zero s h = omega arith
read_items-Ends read k reads (suc n) s h =
    (elim (read s)
        as (λ r.
          Ends (length s) r
          → Ends (length s) (elim r [
            | done v rest ↦ after_item v (read_items read n rest)
            | failed ↦ failed
            | panicked ↦ panicked
            | exhausted ↦ exhausted
          ])) [
            | done v rest ↦ λ e.
                after_item-Ends v (length rest) (length s) (read_items read n rest) e
                  (read_items-Ends read k reads n rest (omega arith))
            | failed ↦ λ e. tt
            | panicked ↦ λ e. tt
            | exhausted ↦ λ e. e
          ])
      (reads s h)

as_array-Ends : (n : ℕ) (r : Read Items) → Ends n r → Ends n (as_array r)
unfolding as_array
as_array-Ends n (done vs rest) e = e
as_array-Ends n failed e = tt
as_array-Ends n panicked e = tt
as_array-Ends n exhausted e = e

read_array-Ends :
    (read : Str → Read Value) (k : ℕ)
    → ((t : Str) → length t ≤ k → Ends (length t) (read t))
    → (o : Option ℤ) (s : Str) → length s ≤ k
    → Ends (length s) (read_array read o s)
unfolding read_array
read_array-Ends read k reads none s h = tt
read_array-Ends read k reads (some (negsuc zero)) s h = omega arith
read_array-Ends read k reads (some (negsuc (suc n))) s h = tt
read_array-Ends read k reads (some (pos n)) s h =
    as_array-Ends (length s) (read_items read n s) (read_items-Ends read k reads n s h)

read_number-Ends : (o : Option ℤ) (s : Str) → Ends (length s) (read_number o s)
unfolding read_number
read_number-Ends none s = tt
read_number-Ends (some z) s = omega arith

Ends-if :
    {A : Type 0} (n : ℕ) (b : Bool) (r t : Read A)
    → Ends n r
    → Ends n t
    → Ends n (if b then r else t)
Ends-if n true r t e f = e
Ends-if n false r t e f = f

read_kind-Ends :
    (read : Str → Read Value) (k : ℕ)
    → ((t : Str) → length t ≤ k → Ends (length t) (read t))
    → (prefix : ℕ) (line s : Str) → length s ≤ k
    → Ends (length s) (read_kind read prefix line s)
unfolding read_kind
read_kind-Ends read k reads prefix line s h = Ends-if (length s) (prefix == 43) _ _ (omega arith) (
    Ends-if (length s) (prefix == 45) _ _ tt (
      Ends-if (length s) (prefix == 58) _ _ (read_number-Ends (atoi line) s) (
        Ends-if (length s) (prefix == 36) _ _ (read_bulk-Ends (atoi line) s) (
          Ends-if (length s) (prefix == 42) _ _ (read_array-Ends read k reads (atoi line) s h)
            tt))))

-- On any input, with fuel for more than its length, the reader ends, with a value, an error or a panic,
-- and leaves at most the input.
pub read_resp-Ends : (fuel : ℕ) (s : Str) → length s < fuel → Ends (length s) (read_resp fuel s)
unfolding read_resp
read_resp-Ends zero s h = absurd (omega arith)
read_resp-Ends (suc fuel) [] h = tt
read_resp-Ends (suc fuel) (prefix ∷ s) h =
    let reads : (t : Str) → length t ≤ length s → Ends (length t) (read_resp fuel t) =
      λ t l. read_resp-Ends fuel t (omega arith) in
    (elim (read_resp_line s)
        as (λ o.
          Left (length s) o
          → Ends (suc (length s)) (elim o [
            | none ↦ failed
            | some (line, rest) ↦ read_kind (read_resp fuel) prefix line rest
          ])) [
            | none ↦ λ l. tt
            | some (line, rest) ↦ λ l.
                Ends-weaken (length rest) (suc (length s))
                  (read_kind (read_resp fuel) prefix line rest) (omega arith)
                  (read_kind-Ends (read_resp fuel) (length s) reads prefix line rest l)
          ])
      (read_resp_line-Left s)
