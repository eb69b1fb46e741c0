-- ===== src/Processors/Stats.antt =====
-- plugins/processors/stats/metric.go and stats.go: the metrics that the processor stats computes, and
-- the labels by which it tells them apart.
pub mod Counts
pub mod Cache
pub mod Shared
pub mod Flush
use neptunus.Base.{
  ℕ, String, Bool, true, false, not, Option, none, some, List, [], ◌∷◌, Assoc, has, keys, contains,
  joined, if◌then◌else◌, ◌==◌, string_comparable,
}
use neptunus.Core.Event.{Event, get_label}

-- The machine's floating point numbers. `is_max` is the comparison with `math.MaxFloat64`.
pub record Floats : Type 1 where
  pub Float : Type 0
  pub zero : Float
  pub one : Float
  pub add : Float → Float → Float
  pub sub : Float → Float → Float
  pub mul : Float → Float → Float
  pub div : Float → Float → Float
  pub lt : Float → Float → Bool
  pub le : Float → Float → Bool
  pub is_max : Float → Bool

pub record MetricLabel : Type 0 where
  pub key : String
  pub value : String

pub record MetricDescr : Type 0 where
  pub name : String
  pub labels : List MetricLabel

pub record MetricStats : Type 0 where
  pub count : Bool
  pub sum : Bool
  pub gauge : Bool
  pub avg : Bool
  pub min : Bool
  pub max : Bool
  pub histogram : Bool

-- The texts that `hash` writes, one after another, to a hash of 64 bits.
unfoldable pub hashed_labels : List MetricLabel → List String
hashed_labels [] = []
hashed_labels (v ∷ labels) = v.key ∷ v.value ∷ hashed_labels labels

unfoldable pub hash : (String → ℕ) → MetricDescr → ℕ
unfolding hashed_labels
hash sum64 descr = sum64 (joined (descr.name ∷ hashed_labels descr.labels))

abbrev pub no_stats : MetricStats
no_stats = record {
  count = false;
  sum = false;
  gauge = false;
  avg = false;
  min = false;
  max = false;
  histogram = false;
}

-- The `switch` in the loop of `stats`.
unfoldable pub stat : String → MetricStats → MetricStats
stat v s =
    if v == "sum"
    then record s { sum = true }
    else if v == "count"
    then record s { count = true }
    else if v == "gauge"
    then record s { gauge = true }
    else if v == "avg"
    then record s { avg = true }
    else if v == "min"
    then record s { min = true }
    else if v == "max"
    then record s { max = true }
    else if v == "histogram"
    then record s { histogram = true }
    else s

unfoldable pub stats : List String → MetricStats → MetricStats
unfolding stat
stats [] s = s
stats (v ∷ names) s = stats names (stat v s)

module _ (F : Floats) where
  open F use {Float}

  pub record MetricValue : Type 0 where
    pub count : Float
    pub sum : Float
    pub gauge : Float
    pub avg : Float
    pub min : Float
    pub max : Float
    pub count2 : Float
    pub buckets : Assoc Float Float

  pub record Metric : Type 0 where
    pub descr : MetricDescr
    pub value : MetricValue
    pub stats : MetricStats
    pub observed : Bool

  -- The metric that `Stats.observe` makes, before the cache has added buckets.
  abbrev pub new_metric : MetricDescr → MetricStats → Assoc Float Float → Metric
  new_metric descr stats buckets = record {
    descr = descr;
    value = record {
      count = F.zero;
      sum = F.zero;
      gauge = F.zero;
      avg = F.zero;
      min = F.zero;
      max = F.zero;
      count2 = F.zero;
      buckets = buckets;
    };
    stats = stats;
    observed = false;
  }

  -- `n + d`, from zero again where the result would be the highest number.
  abbrev pub stepped : Float → Float → Float
  stepped n d = F.add (if F.is_max (F.add n d) then F.zero else n) d

  -- The loop that fills the buckets.
  unfoldable pub fill : Float → Assoc Float Float → Assoc Float Float
  fill value [] = []
  fill value ((le, count) ∷ buckets) =
      (le, if F.le value le then stepped count F.one else count) ∷ fill value buckets

  abbrev averaged : Float → MetricValue → MetricValue
  averaged value v =
      let n = F.add v.count2 F.one in
      record v {
        min = if F.lt value v.min then value else v.min;
        max = if F.lt v.max value then value else v.max;
        count2 = n;
        avg = F.add (F.div (F.mul v.avg (F.sub n F.one)) n) (F.div value n);
      }

  abbrev first_value : Float → MetricValue → MetricValue
  first_value value v = record v { avg = value; min = value; max = value; count2 = F.one }

  -- `metric.observe`.
  unfoldable pub observe : Float → Metric → Metric
  unfolding fill
  observe value m =
      let v = record m.value {
        count = stepped m.value.count F.one;
        sum = stepped m.value.sum value;
        gauge = value;
        buckets = fill value m.value.buckets;
      } in
      record m {
        value = if m.observed then averaged value v else first_value value v;
        observed = true;
      }

  -- `metric.reset`.
  unfoldable pub reset : Metric → Metric
  reset m = record m {
    observed = false;
    value = record m.value { count2 = F.zero; avg = F.zero; min = F.zero; max = F.zero };
  }

-- `withLabels`: none of an event that lacks one of the labels.
unfoldable pub with_labels : {D : Type 0} → List String → Event D → Option (List MetricLabel)
unfolding get_label
with_labels [] e = some []
with_labels (k ∷ names) e =
    let rest = with_labels names e in
    elim (get_label k e) [
      | none ↦ none
      | some v ↦ elim rest [
        | none ↦ none
        | some labels ↦ some (record { key = k; value = v } ∷ labels)
      ]
    ]

-- The loop of `withoutLabels`, over the labels of an event.
unfoldable pub other_labels : List String → Assoc String String → List MetricLabel
unfolding contains
other_labels excluded [] = []
other_labels excluded ((k, v) ∷ labels) =
    let rest = other_labels excluded labels in
    if contains excluded k then rest else record { key = k; value = v } ∷ rest

-- `withoutLabels`. `sort` is `slices.SortFunc` by `compareLabels`.
unfoldable pub without_labels :
    {D : Type 0}
    → (List MetricLabel → List MetricLabel)
    → List String
    → Event D
    → Option (List MetricLabel)
unfolding other_labels
without_labels sort excluded e = some (sort (other_labels excluded e.labels))

-- `noLabels`.
unfoldable pub no_labels : {D : Type 0} → Event D → Option (List MetricLabel)
no_labels e = some []
