-- ===== src/Metrics/Text/Sized.antt =====
-- What lets a metric be written without a panic, and that it lasts while the metric is used.
use feature_flags_control_pl.Shared.{
  ℕ, ◌+◌, ◌≤◌, ◌<◌, ◌≡◌, refl, some, List, [], ◌∷◌, ◌++◌, Str, lit, arith, lookup, Option-cases,
  inl, inr, length, All,
}
use feature_flags_control_pl.Metrics.{
  new_counter, new_gauge, new_histogram, CounterVec, counter_inc, GaugeEntry, GaugeVec, gauge_entry,
  gauge_set, HistEntry, HistogramVec, zeros, new_hist_entry, hist_entry, bump_counts, observe_entry,
  hist_observe, label_key, insert_label,
}
use feature_flags_control_pl.Metrics.Text.{
  gauge_line, write_gauge, bucket_lines, hist_lines, write_histogram, head_lines, sample,
  int64_text, Metric, counter, gauge, histogram, write_metric, serve_metrics,
}
use feature_flags_control_pl.Metrics.Text.Written.{
  label_str-some, Labelled, write_all-some, insert-All, lookup-All, counter_inc-Labelled,
  write_counter-Labelled,
}

-- A counter with at most `n` labels, and with a value for each label in each entry.
abbrev pub CounterSized : ℕ → CounterVec → Type 0
CounterSized n cv = (length cv.labels ≤ n) × Labelled cv

pub new_counter-CounterSized :
    (name help : Str) (labels : List Str)
    → CounterSized (length labels) (new_counter name help labels)
unfolding new_counter
new_counter-CounterSized name help labels = (omega arith, tt)

pub counter_inc-CounterSized :
    (n : ℕ) (cv : CounterVec) (vals : List Str)
    → n ≤ length vals
    → CounterSized n cv
    → CounterSized n (counter_inc cv vals)
unfolding counter_inc
counter_inc-CounterSized n cv vals given (few, h) =
    (few, counter_inc-Labelled cv vals (omega arith) h)

abbrev pub GaugeSized : ℕ → GaugeVec → Type 0
GaugeSized n gv =
    (length gv.labels ≤ n) × All (λ (k, e). length gv.labels ≤ length e.vals) gv.entries

pub new_gauge-GaugeSized :
    (name help : Str) (labels : List Str) → GaugeSized (length labels) (new_gauge name help labels)
unfolding new_gauge
new_gauge-GaugeSized name help labels = (omega arith, tt)

gauge_entry-sized :
    (gv : GaugeVec) (vals : List Str)
    → length gv.labels ≤ length vals
    → All (λ (k, e). length gv.labels ≤ length e.vals) gv.entries
    → length gv.labels ≤ length (gauge_entry gv vals).vals
unfolding gauge_entry
gauge_entry-sized gv vals enough h = elim (Option-cases (lookup (label_key vals) gv.entries)) [
  | inl missing ↦ rw (gauge_entry, missing) enough
  | inr (e, found) ↦
      rw (gauge_entry, found)
        (lookup-All (λ e. length gv.labels ≤ length e.vals) (label_key vals) e gv.entries h found)
]

pub gauge_set-GaugeSized :
    (n : ℕ) (gv : GaugeVec) (vals : List Str) (v : ℕ)
    → n ≤ length vals
    → GaugeSized n gv
    → GaugeSized n (gauge_set gv vals v)
unfolding gauge_set
gauge_set-GaugeSized n gv vals v given (few, h) = (
  few,
  insert-All (λ e. length gv.labels ≤ length e.vals) (label_key vals)
      (record (gauge_entry gv vals) { v = v }) gv.entries
      (gauge_entry-sized gv vals (omega arith) h) h,
)

-- A histogram's entry has a count for each bound and one more.
abbrev pub EntrySized : List Str → HistEntry → Type 0
EntrySized labels e = (length labels ≤ length e.vals) × (length e.buckets < length e.counts)

abbrev pub HistSized : ℕ → HistogramVec → Type 0
HistSized n hv = (length hv.labels ≤ n) × All (λ (k, e). EntrySized hv.labels e) hv.entries

pub new_histogram-HistSized :
    (name help : Str) (buckets : List ℕ) (labels : List Str)
    → HistSized (length labels) (new_histogram name help buckets labels)
unfolding new_histogram
new_histogram-HistSized name help buckets labels = (omega arith, tt)

length-zeros : (bs : List ℕ) → length (zeros bs) ≡ length bs + 1
unfolding zeros
length-zeros [] = refl
length-zeros (b ∷ bs) = omega (arith, length-zeros bs)

length-bump_counts : (v : ℕ) (bs cs : List ℕ) → length (bump_counts v bs cs) ≡ length cs
unfolding bump_counts
length-bump_counts v bs [] = refl
length-bump_counts v [] (c ∷ cs) = refl
length-bump_counts v (b ∷ bs) (c ∷ cs) = omega (arith, length-bump_counts v bs cs)

hist_entry-EntrySized :
    (hv : HistogramVec) (vals : List Str)
    → length hv.labels ≤ length vals
    → All (λ (k, e). EntrySized hv.labels e) hv.entries
    → EntrySized hv.labels (hist_entry hv vals)
unfolding hist_entry new_hist_entry
hist_entry-EntrySized hv vals enough h = elim (Option-cases (lookup (label_key vals) hv.entries)) [
  | inl missing ↦ rw (hist_entry, missing) (enough, omega (arith, length-zeros hv.buckets))
  | inr (e, found) ↦
      rw (hist_entry, found)
        (lookup-All (EntrySized hv.labels) (label_key vals) e hv.entries h found)
]

pub hist_observe-HistSized :
    (n : ℕ) (hv : HistogramVec) (vals : List Str) (v : ℕ)
    → n ≤ length vals
    → HistSized n hv
    → HistSized n (hist_observe hv vals v)
unfolding hist_observe observe_entry
hist_observe-HistSized n hv vals v given (few, h) =
    let e = hist_entry hv vals in
    let (enough, counted) = hist_entry-EntrySized hv vals (omega arith) h in
    (
      few,
      insert-All (EntrySized hv.labels) (label_key vals) (observe_entry e v) hv.entries
          (enough, omega (arith, length-bump_counts v e.buckets e.counts)) h,
    )

module _ (float_text : ℕ → Str) where
  gauge_line-some :
      (gv : GaugeVec) (e : GaugeEntry)
      → length gv.labels ≤ length e.vals
      → (t : Str) × (gauge_line float_text gv e ≡ some t)
  unfolding gauge_line
  gauge_line-some gv e enough =
      let (labels, p) = label_str-some gv.labels e.vals enough in
      (sample gv.name labels (float_text e.v), rw (gauge_line, p) refl)

  write_gauge-some :
      (n : ℕ) (gv : GaugeVec) → GaugeSized n gv → (t : Str) × (write_gauge float_text gv ≡ some t)
  unfolding write_gauge
  write_gauge-some n gv (few, h) =
      let (lines, e) =
        write_all-some (gauge_line float_text gv) (λ e. length gv.labels ≤ length e.vals)
          (gauge_line-some gv) gv.entries h in
      (head_lines gv.name gv.help (lit "gauge") ++ lines, rw (write_gauge, e) refl)

  bucket_lines-some :
      (name base : Str) (bounds counts : List ℕ)
      → length bounds < length counts
      → (t : Str) × (bucket_lines float_text name base bounds counts ≡ some t)
  unfolding bucket_lines
  bucket_lines-some name base bounds [] more = absurd (omega arith)
  bucket_lines-some name base [] (c ∷ counts) more = (_, refl)
  bucket_lines-some name base (b ∷ bounds) (c ∷ counts) more =
      let (rest, e) = bucket_lines-some name base bounds counts (omega arith) in
      let line =
        sample (name ++ lit "_bucket") (insert_label base (lit "le") (float_text b))
          (int64_text c) in
      (line ++ rest, rw e refl)

  hist_lines-some :
      (hv : HistogramVec) (e : HistEntry)
      → EntrySized hv.labels e
      → (t : Str) × (hist_lines float_text hv e ≡ some t)
  unfolding hist_lines
  hist_lines-some hv e (enough, counted) =
      let (base, p) = label_str-some hv.labels e.vals enough in
      let (buckets, q) = bucket_lines-some hv.name base e.buckets e.counts counted in
      let summed = sample (hv.name ++ lit "_sum") base (float_text e.sum) in
      let counts = sample (hv.name ++ lit "_count") base (int64_text e.total) in
      (buckets ++ (summed ++ counts), rw (hist_lines, p, q) refl)

  write_histogram-some :
      (n : ℕ) (hv : HistogramVec)
      → HistSized n hv
      → (t : Str) × (write_histogram float_text hv ≡ some t)
  unfolding write_histogram
  write_histogram-some n hv (few, h) =
      let (lines, e) =
        write_all-some (hist_lines float_text hv) (EntrySized hv.labels) (hist_lines-some hv)
          hv.entries h in
      (head_lines hv.name hv.help (lit "histogram") ++ lines, rw (write_histogram, e) refl)

  abbrev pub Writable : Metric → Type 0
  Writable m = (t : Str) × (write_metric float_text m ≡ some t)

  pub counter-Writable : (n : ℕ) (cv : CounterVec) → CounterSized n cv → Writable (counter cv)
  unfolding write_metric
  counter-Writable n cv (few, h) = write_counter-Labelled cv h

  pub histogram-Writable : (n : ℕ) (hv : HistogramVec) → HistSized n hv → Writable (histogram hv)
  unfolding write_metric
  histogram-Writable n hv h = write_histogram-some n hv h

  pub gauge-Writable : (n : ℕ) (gv : GaugeVec) → GaugeSized n gv → Writable (gauge gv)
  unfolding write_metric
  gauge-Writable n gv h = write_gauge-some n gv h

  pub serve_metrics-some :
      (ms : List Metric) → All Writable ms → (t : Str) × (serve_metrics float_text ms ≡ some t)
  unfolding serve_metrics
  serve_metrics-some [] h = ([], refl)
  serve_metrics-some (m ∷ ms) ((here, p), h) =
      let (rest, q) = serve_metrics-some ms h in (here ++ rest, rw (p, q) refl)
