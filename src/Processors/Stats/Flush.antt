-- ===== src/Processors/Stats/Flush.antt =====
-- plugins/processors/stats/stats.go: the processor's settings, what it observes of an event, and the
-- events that it makes of a metric.
use neptunus.Base.{
  ℕ, String, Bool, true, false, not, ◌&&◌, Option, none, some, List, [], ◌∷◌, Assoc, Result, ok,
  err, insert, contains, if◌then◌else◌, ◌==◌, ltb, string_comparable, joined,
}
use neptunus.Core.Fields.{Error, MapPath}
use neptunus.Core.Event.{Event, new_event_with_data, set_label, set_field, get_field}
use neptunus.Slices.{unique}
use neptunus.Processors.Stats.{
  Floats, MetricLabel, MetricDescr, MetricStats, Metric, stats, no_stats, new_metric, with_labels,
  without_labels, no_labels,
}

pub data Mode : Type 0 where
  individual shared : Mode

-- What the processor keeps of its settings, beside what it uses of them as they are.
pub record Setup : Type 0 where
  pub with_labels : List String
  pub period : ℕ
  pub mode : Mode
  pub fields : Assoc String MetricStats

-- `statsMap`.
abbrev pub known_stats : List String
known_stats = "count" ∷ "sum" ∷ "gauge" ∷ "avg" ∷ "min" ∷ "max" ∷ "histogram" ∷ []

-- The first text that is no known stat.
unfoldable pub unknown_stat : List String → Option String
unfolding contains
unknown_stat [] = none
unknown_stat (v ∷ names) =
    let rest = unknown_stat names in if contains known_stats v then rest else some v

-- The loop of `Init` over the fields.
unfoldable pub init_fields :
    Assoc String (List String) → Assoc String MetricStats → Result Error (Assoc String MetricStats)
unfolding unknown_stat stats insert unique
init_fields [] done = ok done
init_fields ((k, []) ∷ fields) done = err (joined ("field " ∷ k ∷ " has no configured stats" ∷ []))
init_fields ((k, v ∷ names) ∷ fields) done =
    let rest = init_fields fields (insert k (stats (unique (v ∷ names)) no_stats) done) in
    elim (unknown_stat (unique (v ∷ names))) [
      | some name ↦ err (joined ("unknown stat for field " ∷ k ∷ ": " ∷ name ∷ []))
      | none ↦ rest
    ]

abbrev is_empty : List String → Bool
is_empty [] = true
is_empty (x ∷ xs) = false

unfoldable pub mode_of : String → Result Error Mode
mode_of mode =
    if mode == "individual"
    then ok individual
    else if mode == "shared"
    then ok shared
    else err (joined ("unknown mode: " ∷ mode ∷ ", expected one of: shared, individual" ∷ []))

abbrev second : ℕ
second = 1000000000

-- `Init`. In the mode `shared` it joins the shared cache before it looks at the fields.
unfoldable pub init :
    ℕ → String → List String → List String → Assoc String (List String) → Result Error Setup
unfolding init_fields mode_of unique
init period mode with without fields =
    let labels = unique with in
    if not (is_empty labels) && not (is_empty without)
    then err "with_labels and without_labels set, but only one can be used at the same time"
    else elim (mode_of mode) [
      | err e ↦ err e
      | ok m ↦ elim (init_fields fields []) [
        | err e ↦ err e
        | ok fs ↦ ok (record {
          with_labels = labels;
          period = if ltb period second then second else period;
          mode = m;
          fields = fs;
        })
      ]
    ]

module _ (F : Floats) (M : MapPath) where
  open F use {Float}
  open M use {Any}

  -- What the processor uses of an event's values: a number as a value, and of a value.
  -- `new_id` and the like are drawn for an event, and `format` prints a bound.
  pub record Values : Type 0 where
    pub of_float : Float → Any
    pub to_float : Any → Option Float
    pub empty : Any
    pub is_highest : Float → Bool
    pub format : Float → String

  -- `labelsFunc`, as `Init` chooses it.
  unfoldable pub labels_func :
      (List MetricLabel → List MetricLabel)
      → List String
      → List String
      → Event Any
      → Option (List MetricLabel)
  unfolding with_labels without_labels no_labels
  labels_func sort with (x ∷ without) e = without_labels sort (x ∷ without) e
  labels_func sort (k ∷ with) [] e = with_labels (k ∷ with) e
  labels_func sort [] [] e = no_labels e

  module _ (V : Values) where
    -- The loop of `observe`: the metrics to observe, each with its value.
    unfoldable pub observed_fields :
        List MetricLabel → Assoc String MetricStats → Event Any → List (Metric F × Float)
    unfolding get_field
    observed_fields labels [] e = []
    observed_fields labels ((field, stats) ∷ fields) e =
        let rest = observed_fields labels fields e in
        elim (get_field M field e) [
          | err x ↦ rest
          | ok f ↦ elim (V.to_float f) [
            | none ↦ rest
            | some v ↦ (new_metric F (record { name = field; labels = labels }) stats [], v) ∷ rest
          ]
        ]

    -- `Stats.observe`.
    unfoldable pub observed :
        (Event Any → Option (List MetricLabel))
        → Assoc String MetricStats
        → Event Any
        → List (Metric F × Float)
    unfolding observed_fields
    observed labels fields e = elim (labels e) [ none ↦ [] | some ls ↦ observed_fields ls fields e ]

    -- The loop over a metric's labels.
    unfoldable pub put_labels : List MetricLabel → Event Any → Event Any
    unfolding set_label
    put_labels [] e = e
    put_labels (l ∷ labels) e = put_labels labels (set_label l.key l.value e)

    -- `SetField`, whose error is not looked at.
    unfoldable pub put_field : Bool → String → Float → Event Any → Event Any
    unfolding set_field
    put_field wanted key v e =
        if wanted then (elim (set_field M key (V.of_float v) e) [ ok e' ↦ e' | err x ↦ e ]) else e

    -- A new event of the metric, at the time of the flush; `drawn` are its new identifiers.
    unfoldable pub metric_event : String → ℕ → String × ℕ → MetricDescr → Event Any
    unfolding new_event_with_data set_label
    metric_event routing_key now drawn descr =
        set_label "::name" descr.name (
          set_label "::type" "metric" (new_event_with_data drawn.0 drawn.1 now routing_key V.empty))

    unfoldable pub value_event : String → ℕ → String × ℕ → Metric F → Event Any
    unfolding metric_event put_labels put_field
    value_event routing_key now drawn m = put_field m.stats.max "stats.max" m.value.max (
        put_field m.stats.min "stats.min" m.value.min (
          put_field m.stats.avg "stats.avg" m.value.avg (
            put_field m.stats.gauge "stats.gauge" m.value.gauge (
              put_field m.stats.sum "stats.sum" m.value.sum (
                put_field m.stats.count "stats.count" m.value.count
                  (put_labels m.descr.labels (metric_event routing_key now drawn m.descr)))))))

    unfoldable pub bucket_event : String → ℕ → String × ℕ → Metric F → Float → Float → Event Any
    unfolding metric_event put_labels put_field set_label
    bucket_event routing_key now drawn m le bucket = put_field true "stats.bucket" bucket (
        put_labels m.descr.labels (
          set_label "le" (if V.is_highest le then "+Inf" else V.format le)
            (metric_event routing_key now drawn m.descr)))

    -- The loop over the buckets.
    unfoldable pub bucket_events :
        String → ℕ → String × ℕ → Metric F → Assoc Float Float → List (Event Any)
    unfolding bucket_event
    bucket_events routing_key now drawn m [] = []
    bucket_events routing_key now drawn m ((le, bucket) ∷ buckets) =
        bucket_event routing_key now drawn m le bucket
        ∷ bucket_events routing_key now drawn m buckets

    -- What `Stats.flush` sends of a metric.
    unfoldable pub flush_fn : String → ℕ → String × ℕ → Metric F → List (Event Any)
    unfolding value_event bucket_events
    flush_fn routing_key now drawn m =
        value_event routing_key now drawn m
        ∷ (if m.stats.histogram then bucket_events routing_key now drawn m m.value.buckets else [])
