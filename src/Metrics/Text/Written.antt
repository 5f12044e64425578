-- ===== src/Metrics/Text/Written.antt =====
-- The text of a counter is always written.
use feature_flags_control_pl.Shared.{
  ◌+◌, ◌≤◌, ◌≡◌, refl, Option, some, List, [], ◌∷◌, ◌++◌, Str, lit, arith, Dict, lookup, insert,
  Bool-cases, Option-cases, inl, inr, subst, sym, ◌∙◌, length, All, str_eq,
}
use mathlib.Core.Option.{some-injective}
use feature_flags_control_pl.Metrics.{
  CounterEntry, CounterVec, new_counter, int64, counter_entry, counter_inc, label_key, join,
  label_pair, label_parts, label_str,
}
use feature_flags_control_pl.Metrics.Text.{
  write_all, counter_line, write_counter, int64_text, head_lines, sample,
}

label_parts-some :
    (names vals : List Str)
    → length names ≤ length vals
    → (parts : List Str) × (label_parts names vals ≡ some parts)
unfolding label_parts
label_parts-some [] vals h = ([], refl)
label_parts-some (name ∷ names) [] h = absurd (omega arith)
label_parts-some (name ∷ names) (val ∷ vals) h =
    let (parts, e) = label_parts-some names vals (omega arith) in
    (label_pair name val ∷ parts, rw e refl)

pub label_str-some :
    (names vals : List Str)
    → length names ≤ length vals
    → (text : Str) × (label_str names vals ≡ some text)
unfolding label_str
label_str-some [] vals h = ([], refl)
label_str-some (name ∷ names) vals h =
    let (parts, e) = label_parts-some (name ∷ names) vals h in
    (123 ∷ (join (44 ∷ []) parts ++ 125 ∷ []), rw (label_str, e) refl)

-- Every entry has a value for each label.
abbrev pub Labelled : CounterVec → Type 0
Labelled cv = All (λ (k, e). length cv.labels ≤ length e.vals) cv.entries

pub write_all-some :
    {E : Type 0}
    → (write : E → Option Str) (Good : E → Type 0)
    → ((e : E) → Good e → (t : Str) × (write e ≡ some t))
    → (entries : Dict E) → All (λ (k, e). Good e) entries
    → (t : Str) × (write_all write entries ≡ some t)
unfolding write_all
write_all-some write Good one [] h = ([], refl)
write_all-some write Good one ((k, e) ∷ entries) (good, h) =
    let (t, p) = one e good in
    let (rest, q) = write_all-some write Good one entries h in (t ++ rest, rw (p, q) refl)

pub insert-All :
    {V : Type 0} (P : V → Type 0) (k : Str) (v : V) (m : Dict V)
    → P v
    → All (λ (j, w). P w) m
    → All (λ (j, w). P w) (insert k v m)
unfolding insert
insert-All P k v [] good h = (good, tt)
insert-All P k v ((j, w) ∷ m) good (here, h) = elim (Bool-cases (str_eq j k)) [
  | inl same ↦ rw same (good, h)
  | inr other ↦ rw other (here, insert-All P k v m good h)
]

pub lookup-All :
    {V : Type 0} (P : V → Type 0) (k : Str) (v : V) (m : Dict V)
    → All (λ (j, w). P w) m
    → lookup k m ≡ some v
    → P v
unfolding lookup
lookup-All P k v [] h found = absurd (cc)
lookup-All P k v ((j, w) ∷ m) (here, h) found = elim (Bool-cases (str_eq j k)) [
  | inl same ↦ subst P (some-injective _ _ (sym (rw same refl) ∙ found)) here
  | inr other ↦ lookup-All P k v m h (sym (rw other refl) ∙ found)
]

counter_entry-Labelled :
    (cv : CounterVec) (vals : List Str)
    → length cv.labels ≤ length vals
    → Labelled cv
    → length cv.labels ≤ length (counter_entry cv vals).vals
unfolding counter_entry
counter_entry-Labelled cv vals enough h = elim (Option-cases (lookup (label_key vals) cv.entries)) [
  | inl missing ↦ rw (counter_entry, missing) enough
  | inr (e, found) ↦
      rw (counter_entry, found)
        (lookup-All (λ e. length cv.labels ≤ length e.vals) (label_key vals) e cv.entries h found)
]

pub counter_inc-Labelled :
    (cv : CounterVec) (vals : List Str)
    → length cv.labels ≤ length vals
    → Labelled cv
    → Labelled (counter_inc cv vals)
unfolding counter_inc
counter_inc-Labelled cv vals enough h =
    let e = counter_entry cv vals in
    insert-All (λ e. length cv.labels ≤ length e.vals) (label_key vals)
      (record e { n = int64 (e.n + 1) }) cv.entries (counter_entry-Labelled cv vals enough h) h

counter_line-some :
    (cv : CounterVec) (e : CounterEntry)
    → length cv.labels ≤ length e.vals
    → (t : Str) × (counter_line cv e ≡ some t)
unfolding counter_line
counter_line-some cv e enough =
    let (labels, p) = label_str-some cv.labels e.vals enough in
    (sample cv.name labels (int64_text e.n), rw (counter_line, p) refl)

pub write_counter-Labelled :
    (cv : CounterVec) → Labelled cv → (t : Str) × (write_counter cv ≡ some t)
unfolding write_counter
write_counter-Labelled cv h =
    let (lines, e) =
      write_all-some (counter_line cv) (λ e. length cv.labels ≤ length e.vals)
        (counter_line-some cv) cv.entries h in
    (head_lines cv.name cv.help (lit "counter") ++ lines, rw (write_counter, e) refl)

pub increments : CounterVec → List (List Str) → CounterVec
increments cv [] = cv
increments cv (vals ∷ more) = increments (counter_inc cv vals) more

increments-Labelled :
    (cv : CounterVec) (all : List (List Str))
    → All (λ vals. length cv.labels ≤ length vals) all
    → Labelled cv
    → Labelled (increments cv all)
unfolding increments counter_inc
increments-Labelled cv [] enough h = h
increments-Labelled cv (vals ∷ more) (first, enough) h =
    increments-Labelled (counter_inc cv vals) more enough (counter_inc-Labelled cv vals first h)

-- A counter that was only ever incremented with at least as many label values as it has labels is
-- written to /metrics without a panic.
pub write_counter-some :
    (name help : Str) (labels : List Str) (all : List (List Str))
    → All (λ vals. length labels ≤ length vals) all
    → (t : Str) × (write_counter (increments (new_counter name help labels) all) ≡ some t)
unfolding new_counter
write_counter-some name help labels all enough =
    write_counter-Labelled (increments (new_counter name help labels) all)
      (increments-Labelled (new_counter name help labels) all enough tt)
