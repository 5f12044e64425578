-- ===== src/Metrics/Text.antt =====
-- control-plane/metrics.go: the text of /metrics. `float_text` stands for the verb %g of package fmt, on
-- a gauge's halves, on a bucket's bound and on a sum. A metric whose label values are missing panics,
-- which is `none`.
pub mod Written
pub mod Sized
use feature_flags_control_pl.Shared.{
  ℕ, ◌+◌, ◌-◌, ◌^◌, Bool, Option, none, some, List, [], ◌∷◌, ◌++◌, Str, lit, Dict, ltb,
  if◌then◌else◌,
}
use feature_flags_control_pl.Store.Resp.{decimal}
use feature_flags_control_pl.Metrics.{
  CounterEntry, CounterVec, GaugeEntry, GaugeVec, HistEntry, HistogramVec, label_str, insert_label,
}

infixl 5 ◌>>=◌
abbrev pub ◌>>=◌ {ℓ κ} : {A : Type ℓ} {B : Type κ} → Option A → (A → Option B) → Option B
none >>= f = none
some a >>= f = f a

-- The verb %d on the bit pattern of an int64.
pub int64_text : ℕ → Str
int64_text n = if ltb n (2 ^ 63) then decimal n else 45 ∷ decimal (2 ^ 64 - n)

pub head_lines : Str → Str → Str → Str
head_lines name help type =
    lit "# HELP "
    ++ (name ++ (32 ∷ (help ++ (10 ∷ (lit "# TYPE " ++ (name ++ (32 ∷ (type ++ 10 ∷ []))))))))

-- `name + labels + " " + value + "\n"`
pub sample : Str → Str → Str → Str
sample name labels value = name ++ (labels ++ (32 ∷ (value ++ 10 ∷ [])))

-- The visits of a `Range` loop, each of which writes a text or panics.
unfoldable pub write_all : {E : Type 0} → (E → Option Str) → Dict E → Option Str
write_all write [] = some []
write_all write ((k, e) ∷ entries) = do
  here ← write e
  rest ← write_all write entries
  some (here ++ rest)

pub counter_line : CounterVec → CounterEntry → Option Str
counter_line cv e = do
  labels ← label_str cv.labels e.vals
  some (sample cv.name labels (int64_text e.n))

pub write_counter : CounterVec → Option Str
write_counter cv = do
  lines ← write_all (counter_line cv) cv.entries
  some (head_lines cv.name cv.help (lit "counter") ++ lines)

-- A registered metric.
pub data Metric : Type 0 where
  counter : CounterVec → Metric
  gauge : GaugeVec → Metric
  histogram : HistogramVec → Metric

module _ (float_text : ℕ → Str) where
  pub gauge_line : GaugeVec → GaugeEntry → Option Str
  gauge_line gv e = do
    labels ← label_str gv.labels e.vals
    some (sample gv.name labels (float_text e.v))

  pub write_gauge : GaugeVec → Option Str
  write_gauge gv = do
    lines ← write_all (gauge_line gv) gv.entries
    some (head_lines gv.name gv.help (lit "gauge") ++ lines)

  -- The lines of the buckets, down to the one of "+Inf"; `counts` has one member more than the bounds.
  pub bucket_lines : Str → Str → List ℕ → List ℕ → Option Str
  bucket_lines name base bounds [] = none
  bucket_lines name base [] (n ∷ counts) =
      some
        (sample (name ++ lit "_bucket") (insert_label base (lit "le") (lit "+Inf")) (int64_text n))
  bucket_lines name base (b ∷ bounds) (n ∷ counts) = do
    rest ← bucket_lines name base bounds counts
    some (
        sample (name ++ lit "_bucket") (insert_label base (lit "le") (float_text b)) (int64_text n)
        ++ rest)

  pub hist_lines : HistogramVec → HistEntry → Option Str
  hist_lines hv e = do
    base ← label_str hv.labels e.vals
    buckets ← bucket_lines hv.name base e.buckets e.counts
    some (
        buckets
        ++ (sample (hv.name ++ lit "_sum") base (float_text e.sum)
            ++ sample (hv.name ++ lit "_count") base (int64_text e.total)))

  pub write_histogram : HistogramVec → Option Str
  write_histogram hv = do
    lines ← write_all (hist_lines hv) hv.entries
    some (head_lines hv.name hv.help (lit "histogram") ++ lines)

  pub write_metric : Metric → Option Str
  write_metric (counter cv) = write_counter cv
  write_metric (gauge gv) = write_gauge gv
  write_metric (histogram hv) = write_histogram hv

  pub serve_metrics : List Metric → Option Str
  serve_metrics [] = some []
  serve_metrics (m ∷ metrics) = do
    here ← write_metric m
    rest ← serve_metrics metrics
    some (here ++ rest)
