-- ===== src/Tests/Statistics.antt =====
-- Metrics of plugins/processors/stats/, and slices.
use neptunus.Base.{
  ℕ, ◌+◌, ◌-◌, ◌*◌, ◌≡◌, refl, String, false, some, List, [], ◌∷◌, lookup, get_elem?, length, ltb,
  leb, nat_comparable, joined,
}
use neptunus.Processors.Stats.{
  Floats, Metric, MetricDescr, hash, hashed_labels, new_metric, no_stats,
}
use neptunus.Processors.Stats.Counts.{counted, within, tally, observe_all, observe_all-counts}
use neptunus.Processors.Stats.Cache.{
  IndividualCache, cache_observe, cache_flush, drop_older_than, clear,
}
use neptunus.Base.{if◌then◌else◌, ◌==◌, none}
use neptunus.Processors.Stats.{observe}
use neptunus.Processors.Stats.Cache.{with_buckets, new_individual_cache}
use neptunus.Processors.Stats.Cache.Dated.{Left, IsDated, operations-IsDated, cache_observe-shared}
use neptunus.Processors.Stats.Shared.{SharedCache, Storage}
use neptunus.Processors.Stats.Shared.Rounds.{
  all_events, begun_anew, flush_many, flush_many-round, close_all, join_all, join_all-close_all,
}

-- Numbers that stay below the highest.
abbrev small : Floats
small = record {
  Float = ℕ;
  zero = 0;
  one = 1;
  add = λ a b. a + b;
  sub = λ a b. a - b;
  mul = λ a b. a * b;
  div = λ a b. a;
  lt = ltb;
  le = leb;
  is_max = λ n. false;
}

abbrev values : List ℕ
values = 3 ∷ 7 ∷ 5 ∷ []

abbrev bounds : List ℕ
bounds = 4 ∷ 6 ∷ 100 ∷ []

abbrev latency : MetricDescr
latency = record { name = "latency"; labels = record { key = "a"; value = "bc" } ∷ [] }

abbrev similar : MetricDescr
similar = record { name = "latency"; labels = record { key = "ab"; value = "c" } ∷ [] }

observe_all-counts_example :
    let m =
      observe_all small values (new_metric small latency no_stats (tally small (λ b. 0) bounds)) in
    (m.value.count ≡ counted small (length values))
    × (m.value.buckets ≡ tally small (λ b. within small b values) bounds)
observe_all-counts_example = observe_all-counts small (λ n. refl) values bounds latency no_stats

abbrev same_hash : String → ℕ
same_hash s = 7

abbrev metric : Metric small
metric = new_metric small latency no_stats []

abbrev other_metric : Metric small
other_metric = new_metric small similar no_stats []

abbrev cache : IndividualCache small
cache = record { c = (7, metric) ∷ []; d = (7, 1) ∷ [] }

abbrev to_value : Metric small → List ℕ
to_value m = m.value.count ∷ []

operations-IsDated_example :
    IsDated small (cache_observe small same_hash 5 metric [] 3 cache)
    × ((k : ℕ)
        → lookup k (cache_observe small same_hash 5 metric [] 3 cache).d
          ≡ (if hash same_hash latency == k then some 5 else lookup k cache.d))
    × IsDated small (cache_flush small to_value cache).1
    × ((cache_flush small to_value cache).1.d ≡ cache.d)
    × IsDated small (drop_older_than small 5 2 cache)
    × ((k : ℕ) → Left small 5 2 (lookup k cache.d) (lookup k (drop_older_than small 5 2 cache).d))
    × IsDated small (clear small cache)
operations-IsDated_example = operations-IsDated small same_hash 5 2 metric [] 3 to_value cache refl

same_text :
    joined (latency.name ∷ hashed_labels latency.labels)
    ≡ joined (similar.name ∷ hashed_labels similar.labels)
unfolding hashed_labels
same_text = refl

nothing_cached : lookup (hash same_hash latency) (new_individual_cache small).c ≡ none
unfolding lookup
nothing_cached = refl

-- The two metrics have different labels.
cache_observe-shared_example :
    let both =
      cache_observe small same_hash 6 other_metric [] 4
        (cache_observe small same_hash 5 metric [] 3 (new_individual_cache small)) in
    (kept : Metric small) × (lookup (hash same_hash similar) both.c ≡ some kept)
    × (kept ≡ observe small 4 (observe small 3 (with_buckets small [] metric)))
    × (kept.descr ≡ latency)
cache_observe-shared_example =
    cache_observe-shared small same_hash metric other_metric 5 6 [] 3 4 (new_individual_cache small)
      same_text nothing_cached

-- A cache with two writers, of which one has flushed.
abbrev half : SharedCache small
half = record { id = 4; writers = 2; cache = cache; sync_point = 1 }

flush_many-round_example :
    (flush_many small to_value 0 half ≡ ([], record half { sync_point = 1 + 0 }))
    × (flush_many small to_value 1 half ≡ (
      all_events small to_value cache.c,
      record half { cache = record cache { c = begun_anew small cache.c }; sync_point = 0 },
    ))
flush_many-round_example = flush_many-round small to_value 0 half refl

abbrev storage : Storage small
storage = record { heap = half ∷ []; s = (4, 0) ∷ [] }

joined_already : lookup 4 storage.s ≡ some 0
unfolding lookup
joined_already = refl

join_all-close_all_example :
    (q : ℕ) × (lookup 4 (join_all small 2 4 (close_all small 2 0 storage)).s ≡ some q)
    × (get_elem? (join_all small 2 4 (close_all small 2 0 storage)).heap q
        ≡ some (record half { writers = 2 + 2 }))
join_all-close_all_example = join_all-close_all small 1 0 half storage joined_already refl refl
