-- ===== src/Processors/Stats/Shared.antt =====
-- plugins/processors/stats/cache.go: the cache that the processors of several lines share. The caches
-- are reached through pointers, so they live in a heap, and the storage holds addresses.
pub mod Rounds
use neptunus.Base.{
  ℕ, ◌+◌, String, Bool, true, false, Option, none, some, List, [], ◌∷◌, ◌++◌, Assoc, lookup, insert,
  remove, get_elem?, set, length, nat_beq, if◌then◌else◌, nat_comparable,
}
use neptunus.Processors.Stats.{Floats, Metric}
use neptunus.Processors.Stats.Cache.{
  IndividualCache, new_individual_cache, cache_observe, cache_flush, flush_metrics, drop_older_than,
  clear, size,
}

module _ (F : Floats) where
  open F use {Float}

  -- The counts of writers and of flushes are int64s that count plugins, far from their bounds.
  pub record SharedCache : Type 0 where
    pub id : ℕ
    pub writers : ℕ
    pub cache : IndividualCache F
    pub sync_point : ℕ

  pub record Storage : Type 0 where
    pub heap : List SharedCache
    pub s : Assoc ℕ ℕ

  -- A change of the cache at an address that `new_cache` returned.
  abbrev pub at : ℕ → (SharedCache → SharedCache) → Storage → Storage
  at p f st = elim (get_elem? st.heap p) [
    | none ↦ st
    | some c ↦ record st { heap = set st.heap p (f c) }
  ]

  abbrev pub with_writer : SharedCache → SharedCache
  with_writer c = record c { writers = c.writers + 1 }

  -- `newCache`.
  unfoldable pub new_cache : ℕ → Storage → ℕ × Storage
  unfolding lookup insert
  new_cache k st = elim (lookup k st.s) [
    | some p ↦ (p, at p with_writer st)
    | none ↦ (
      length st.heap,
      record {
        heap =
            st.heap
            ++ record { id = k; writers = 1; cache = new_individual_cache F; sync_point = 0 } ∷ [];
        s = insert k (length st.heap) st.s;
      },
    )
  ]

  unfoldable pub shared_observe :
      (String → ℕ) → ℕ → Metric F → Assoc Float Float → Float → SharedCache → SharedCache
  unfolding cache_observe
  shared_observe sum64 now m b v c = record c { cache = cache_observe F sum64 now m b v c.cache }

  unfoldable pub shared_flush :
      {E : Type 0} → (Metric F → List E) → SharedCache → List E × SharedCache
  unfolding flush_metrics
  shared_flush flush_fn c =
      if nat_beq (c.sync_point + 1) c.writers
      then (
        (flush_metrics F flush_fn c.cache.c).0,
        record c {
          cache = record c.cache { c = (flush_metrics F flush_fn c.cache.c).1 };
          sync_point = 0;
        },
      )
      else ([], record c { sync_point = c.sync_point + 1 })

  unfoldable pub shared_drop_older_than : ℕ → ℕ → SharedCache → SharedCache
  unfolding drop_older_than
  shared_drop_older_than now older_than c =
      if nat_beq c.sync_point 0
      then record c { cache = drop_older_than F now older_than c.cache }
      else c

  abbrev pub emptied : SharedCache → SharedCache
  emptied c = record c { cache = clear F c.cache }

  -- `clear`, of the cache at an address.
  unfoldable pub shared_clear : ℕ → Storage → Storage
  unfolding clear remove
  shared_clear p st = elim (get_elem? st.heap p) [
    | none ↦ st
    | some c ↦
        if nat_beq c.sync_point 0
        then record { heap = set st.heap p (emptied c); s = remove c.id st.s }
        else st
  ]

  unfoldable pub shared_size : SharedCache → ℕ
  unfolding size
  shared_size c = size F c.cache
