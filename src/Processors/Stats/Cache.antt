-- ===== src/Processors/Stats/Cache.antt =====
-- plugins/processors/stats/cache.go: the cache of metrics of one processor, `individualCache`, by the
-- hashes of the metrics. A metric's event is made by a function that the caller gives.
pub mod Dated
use neptunus.Base.{
  ℕ, ◌-◌, String, Bool, Option, none, some, List, [], ◌∷◌, ◌++◌, Assoc, lookup, insert, remove,
  length, ltb, if◌then◌else◌, nat_comparable,
}
use neptunus.Processors.Stats.{Floats, Metric, hash, observe, reset}

module _ (F : Floats) where
  open F use {Float}

  -- Times are in nanoseconds.
  pub record IndividualCache : Type 0 where
    pub c : Assoc ℕ (Metric F)
    pub d : Assoc ℕ ℕ

  abbrev pub new_individual_cache : IndividualCache
  new_individual_cache = record { c = []; d = [] }

  abbrev pub with_buckets : Assoc Float Float → Metric F → Metric F
  with_buckets b m = record m { value = record m.value { buckets = b } }

  -- The cached metric, or else the new one with the buckets.
  abbrev pub cached : Option (Metric F) → Metric F → Assoc Float Float → Metric F
  cached (some metric) m b = metric
  cached none m b = with_buckets b m

  -- `observe`, at a time.
  unfoldable pub cache_observe :
      (String → ℕ) → ℕ → Metric F → Assoc Float Float → Float → IndividualCache → IndividualCache
  unfolding hash observe lookup insert
  cache_observe sum64 now m b v cache =
      let k = hash sum64 m.descr in
      record {
        c = insert k (observe F v (cached (lookup k cache.c) m b)) cache.c;
        d = insert k now cache.d;
      }

  -- The loop of `flush`: what it sends, and the metrics behind it.
  unfoldable pub flush_metrics :
      {E : Type 0} → (Metric F → List E) → Assoc ℕ (Metric F) → List E × Assoc ℕ (Metric F)
  unfolding reset
  flush_metrics flush_fn [] = ([], [])
  flush_metrics flush_fn ((k, m) ∷ c) =
      let (sent, rest) = flush_metrics flush_fn c in (flush_fn m ++ sent, (k, reset F m) ∷ rest)

  unfoldable pub cache_flush :
      {E : Type 0} → (Metric F → List E) → IndividualCache → List E × IndividualCache
  unfolding flush_metrics
  cache_flush flush_fn cache =
      let (sent, c) = flush_metrics flush_fn cache.c in (sent, record cache { c = c })

  -- The loop of `dropOlderThan`, over the times.
  unfoldable pub drop_older : ℕ → ℕ → Assoc ℕ ℕ → IndividualCache → IndividualCache
  unfolding remove
  drop_older now older_than [] cache = cache
  drop_older now older_than ((k, v) ∷ d) cache = drop_older now older_than d (
      if ltb older_than (now - v)
      then record { c = remove k cache.c; d = remove k cache.d }
      else cache)

  unfoldable pub drop_older_than : ℕ → ℕ → IndividualCache → IndividualCache
  unfolding drop_older
  drop_older_than now older_than cache = drop_older now older_than cache.d cache

  unfoldable pub clear : IndividualCache → IndividualCache
  clear cache = record { c = []; d = [] }

  unfoldable pub size : IndividualCache → ℕ
  size cache = length cache.c
