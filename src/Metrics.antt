-- ===== src/Metrics.antt =====
-- control-plane/metrics.go: counters, gauges and histograms partitioned by label values, and the
-- label text of the Prometheus format. A counter is the bit pattern of its int64. Observed values and
-- bucket bounds are whole numbers of milliseconds, as in the program, and a gauge's value is a number
-- of halves: 2 for 1.0, 1 for 0.5.
pub mod Labels
pub mod Counters
pub mod Gauges
pub mod Histograms
pub mod Text
pub mod Registry
mod Tests
use feature_flags_control_pl.Shared.{
  ℕ, zero, suc, ◌+◌, ◌-◌, ◌%◌, ◌^◌, Bool, true, false, Option, none, some, List, [], ◌∷◌, ◌++◌, Str,
  lit, is_empty, Dict, lookup, insert, length, take, get_or, leb, ◌==◌, if◌then◌else◌,
}

abbrev pub int64 : ℕ → ℕ
int64 n = n % 2 ^ 64

-- strings.Join(parts, sep)
pub join : Str → List Str → Str
join sep [] = []
join sep (s ∷ []) = s
join sep (s ∷ t ∷ rest) = s ++ (sep ++ join sep (t ∷ rest))

-- `labelKey`: the values joined by a NUL byte.
pub label_key : List Str → Str
label_key vals = join (0 ∷ []) vals

-- Counters

pub record CounterEntry : Type 0 where
  pub vals : List Str
  pub n : ℕ

pub record CounterVec : Type 0 where
  pub name : Str
  pub help : Str
  pub labels : List Str
  pub entries : Dict CounterEntry

pub new_counter : Str → Str → List Str → CounterVec
new_counter name help labels = record { name = name; help = help; labels = labels; entries = [] }

-- `LoadOrStore(key, &counterEntry{vals: vals})`
pub counter_entry : CounterVec → List Str → CounterEntry
counter_entry cv vals = elim (lookup (label_key vals) cv.entries) [
  | none ↦ record { vals = vals; n = 0 }
  | some e ↦ e
]

-- `cv.WithLabelValues(vals...).Inc()`
pub counter_inc : CounterVec → List Str → CounterVec
counter_inc cv vals =
    let e = counter_entry cv vals in
    record cv { entries = insert (label_key vals) (record e { n = int64 (e.n + 1) }) cv.entries }

-- `e.n.Load()` of the entry, 0 where there is none yet.
pub counter_value : CounterVec → List Str → ℕ
counter_value cv vals = (counter_entry cv vals).n

-- Gauges

pub record GaugeEntry : Type 0 where
  pub vals : List Str
  pub v : ℕ

pub record GaugeVec : Type 0 where
  pub name : Str
  pub help : Str
  pub labels : List Str
  pub entries : Dict GaugeEntry

pub new_gauge : Str → Str → List Str → GaugeVec
new_gauge name help labels = record { name = name; help = help; labels = labels; entries = [] }

pub gauge_entry : GaugeVec → List Str → GaugeEntry
gauge_entry gv vals = elim (lookup (label_key vals) gv.entries) [
  | none ↦ record { vals = vals; v = 0 }
  | some e ↦ e
]

-- `gv.WithLabelValues(vals...).Set(v)`
pub gauge_set : GaugeVec → List Str → ℕ → GaugeVec
gauge_set gv vals v = record gv {
  entries = insert (label_key vals) (record (gauge_entry gv vals) { v = v }) gv.entries;
}

-- The number of halves that a gauge holds, 0 where it was not set yet.
pub gauge_value : GaugeVec → List Str → ℕ
gauge_value gv vals = (gauge_entry gv vals).v

-- Histograms

pub record HistEntry : Type 0 where
  pub vals : List Str
  pub counts : List ℕ
  pub sum : ℕ
  pub total : ℕ
  pub buckets : List ℕ

pub record HistogramVec : Type 0 where
  pub name : Str
  pub help : Str
  pub labels : List Str
  pub buckets : List ℕ
  pub entries : Dict HistEntry

pub new_histogram : Str → Str → List ℕ → List Str → HistogramVec
new_histogram name help buckets labels = record {
  name = name;
  help = help;
  labels = labels;
  buckets = buckets;
  entries = [];
}

-- `make([]int64, len(buckets)+1)`
pub zeros : List ℕ → List ℕ
zeros [] = 0 ∷ []
zeros (_ ∷ bs) = 0 ∷ zeros bs

pub new_hist_entry : List Str → List ℕ → HistEntry
new_hist_entry vals buckets = record {
  vals = vals;
  counts = zeros buckets;
  sum = 0;
  total = 0;
  buckets = buckets;
}

pub hist_entry : HistogramVec → List Str → HistEntry
hist_entry hv vals = elim (lookup (label_key vals) hv.entries) [
  | none ↦ new_hist_entry vals hv.buckets
  | some e ↦ e
]

-- The loop over the buckets, and the increment of the last count behind it.
pub bump_counts : ℕ → List ℕ → List ℕ → List ℕ
bump_counts v bs [] = []
bump_counts v [] (c ∷ cs) = int64 (c + 1) ∷ cs
bump_counts v (b ∷ bs) (c ∷ cs) = (if leb v b then int64 (c + 1) else c) ∷ bump_counts v bs cs

pub observe_entry : HistEntry → ℕ → HistEntry
observe_entry e v = record e {
  sum = e.sum + v;
  total = int64 (e.total + 1);
  counts = bump_counts v e.buckets e.counts;
}

-- `hv.WithLabelValues(vals...).Observe(v)`
pub hist_observe : HistogramVec → List Str → ℕ → HistogramVec
hist_observe hv vals v = record hv {
  entries = insert (label_key vals) (observe_entry (hist_entry hv vals) v) hv.entries;
}

-- Label text

-- strings.ReplaceAll(s, c, r), where the text to replace is one byte.
pub replace_byte : ℕ → Str → Str → Str
replace_byte c r [] = []
replace_byte c r (a ∷ s) = let rest = replace_byte c r s in if a == c then r ++ rest else a ∷ rest

pub escape_label : Str → Str
escape_label s =
    replace_byte b'\n' (92 ∷ 110 ∷ [])
      (replace_byte 34 (92 ∷ 34 ∷ []) (replace_byte 92 (92 ∷ 92 ∷ []) s))

-- `name + "=\"" + escapeLabel(val) + "\""`
pub label_pair : Str → Str → Str
label_pair name val = name ++ (61 ∷ 34 ∷ (escape_label val ++ 34 ∷ []))

-- `vals[i]` past the end panics, which is `none`.
pub label_parts : List Str → List Str → Option (List Str)
label_parts [] vals = some []
label_parts (name ∷ names) [] = none
label_parts (name ∷ names) (val ∷ vals) = elim (label_parts names vals) [
  | none ↦ none
  | some parts ↦ some (label_pair name val ∷ parts)
]

pub label_str : List Str → List Str → Option Str
label_str [] vals = some []
label_str (name ∷ names) vals = elim (label_parts (name ∷ names) vals) [
  | none ↦ none
  | some parts ↦ some (123 ∷ (join (44 ∷ []) parts ++ 125 ∷ []))
]

-- `existing[:len(existing)-1] + "," + kv + "}"`
pub insert_label : Str → Str → Str → Str
insert_label existing k v =
    let kv = k ++ (61 ∷ 34 ∷ (v ++ 34 ∷ [])) in
    if is_empty existing
    then 123 ∷ (kv ++ 125 ∷ [])
    else take (length existing - 1) existing ++ (44 ∷ (kv ++ 125 ∷ []))
