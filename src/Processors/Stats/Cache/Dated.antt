-- ===== src/Processors/Stats/Cache/Dated.antt =====
-- plugins/processors/stats/cache.go: metrics and their times, and metrics that share a hash.
use neptunus.Base.{
  ℕ, ◌-◌, ◌≡◌, refl, ap, ◌∙◌, sym, String, some, List, [], ◌∷◌, Assoc, lookup, insert, remove, keys,
  ltb, if◌then◌else◌, ◌==◌, nat_comparable, Bool-cases, inl, inr, joined, lookup-insert,
  lookup-remove, false, Option, Option-cases, ◌⊎◌, none, ==_refl,
}
use neptunus.Processors.Stats.{Floats, Metric, hash, hashed_labels, observe}
use neptunus.Processors.Stats.Cache.{
  IndividualCache, cache_observe, flush_metrics, cache_flush, drop_older, drop_older_than, clear,
  with_buckets,
}

-- The keys of a map after an insertion and a removal follow from the keys before.
unfoldable key_inserted : ℕ → List ℕ → List ℕ
key_inserted k [] = k ∷ []
key_inserted k (x ∷ ks) = if x == k then k ∷ ks else x ∷ key_inserted k ks

unfoldable key_removed : ℕ → List ℕ → List ℕ
key_removed k [] = []
key_removed k (x ∷ ks) = let rest = key_removed k ks in if x == k then rest else x ∷ rest

keys-insert :
    {V : Type 0} (k : ℕ) (v : V) (m : Assoc ℕ V) → keys (insert k v m) ≡ key_inserted k (keys m)
unfolding key_inserted insert
keys-insert k v [] = refl
keys-insert k v ((x, w) ∷ m) = elim (Bool-cases (x == k)) [
  | inl h ↦ rw h refl
  | inr h ↦ rw h (ap (λ l. x ∷ l) (keys-insert k v m))
]

keys-remove : {V : Type 0} (k : ℕ) (m : Assoc ℕ V) → keys (remove k m) ≡ key_removed k (keys m)
unfolding key_removed remove
keys-remove k [] = refl
keys-remove k ((x, w) ∷ m) = elim (Bool-cases (x == k)) [
  | inl h ↦ rw h (keys-remove k m)
  | inr h ↦ rw h (ap (λ l. x ∷ l) (keys-remove k m))
]

module _ (F : Floats) where
  open F use {Float}

  -- Every metric has a time, and every time belongs to a metric.
  abbrev pub IsDated : IndividualCache F → Type 0
  IsDated cache = keys cache.c ≡ keys cache.d

  keys-flush :
      {E : Type 0} (flush_fn : Metric F → List E) (c : Assoc ℕ (Metric F))
      → keys (flush_metrics F flush_fn c).1 ≡ keys c
  unfolding flush_metrics
  keys-flush flush_fn [] = refl
  keys-flush flush_fn ((k, m) ∷ c) = ap (λ l. k ∷ l) (keys-flush flush_fn c)

  drop_older-IsDated :
      (now older_than : ℕ) (d : Assoc ℕ ℕ) (cache : IndividualCache F)
      → IsDated cache
      → IsDated (drop_older F now older_than d cache)
  unfolding drop_older
  drop_older-IsDated now older_than [] cache h = h
  drop_older-IsDated now older_than ((k, v) ∷ d) cache h =
      elim (Bool-cases (ltb older_than (now - v))) [
        | inl old ↦
            rw (old, drop_older)
              (drop_older-IsDated now older_than d _
                (keys-remove k cache.c ∙ ap (key_removed k) h ∙ sym (keys-remove k cache.d)))
        | inr young ↦ rw (young, drop_older) (drop_older-IsDated now older_than d cache h)
      ]

  -- A time that is left was there, and is not older than allowed where it stood in what was looked at.
  drop_older-lookup :
      (now older_than : ℕ) (d : Assoc ℕ ℕ) (cache : IndividualCache F) (k t : ℕ)
      → lookup k (drop_older F now older_than d cache).d ≡ some t
      → (lookup k cache.d ≡ some t)
        × ((u : ℕ) → lookup k d ≡ some u → ltb older_than (now - u) ≡ false)
  unfolding drop_older lookup
  drop_older-lookup now older_than [] cache k t h = (h, λ u q. absurd cc)
  drop_older-lookup now older_than ((j, v) ∷ d) cache k t h =
      elim (Bool-cases (ltb older_than (now - v))) [
        | inr young ↦
            let (there, fresh) =
              drop_older-lookup now older_than d cache k t (rw (young, drop_older) at h) in
            (
              there,
              λ u q. elim (Bool-cases (j == k)) [
                | inl same ↦
                    let r = rw same at q in
                    let v≡u : v ≡ u = (let r' = r in cc) in
                    ap (λ w. ltb older_than (now - w)) (sym v≡u) ∙ young
                | inr other ↦ fresh u (rw other at q)
              ],
            )
        | inl old ↦
            let (there, fresh) =
              drop_older-lookup now older_than d
                (record { c = remove j cache.c; d = remove j cache.d }) k t
                (rw (old, drop_older) at h) in
            let kept = sym (lookup-remove j k cache.d) ∙ there in
            elim (Bool-cases (j == k)) [
              | inl same ↦ absurd (let q = rw same at kept in none-ne-some q)
              | inr other ↦ (rw other at kept, λ u q. fresh u (rw other at q))
            ]
      ]
    where
      none-ne-some : none ≡ some t → ⊥
      none-ne-some q = cc

  -- What becomes of a time: it is gone, or it is the one that was there and is not too old.
  abbrev pub Left : ℕ → ℕ → Option ℕ → Option ℕ → Type 0
  Left now older_than before after =
      (after ≡ none)
      ⊎ ((t : ℕ) × (after ≡ some t) × (before ≡ some t) × (ltb older_than (now - t) ≡ false))

  -- Every operation of the cache keeps each metric with a time and no time without a metric. A value
  -- observed sets the time of its metric to the current one and no other time, flushing keeps the times,
  -- and what `dropOlderThan` leaves has its time still, and one that is not older than allowed.
  pub operations-IsDated :
      {E : Type 0} (sum64 : String → ℕ) (now older_than : ℕ) (m : Metric F) (b : Assoc Float Float)
      (v : Float) (flush_fn : Metric F → List E) (cache : IndividualCache F)
      → IsDated cache
      → IsDated (cache_observe F sum64 now m b v cache)
        × ((k : ℕ)
            → lookup k (cache_observe F sum64 now m b v cache).d
              ≡ (if hash sum64 m.descr == k then some now else lookup k cache.d))
        × IsDated (cache_flush F flush_fn cache).1
        × ((cache_flush F flush_fn cache).1.d ≡ cache.d)
        × IsDated (drop_older_than F now older_than cache)
        × ((k : ℕ)
            → Left now older_than
                (lookup k cache.d)
                (lookup k (drop_older_than F now older_than cache).d))
        × IsDated (clear F cache)
  unfolding cache_observe cache_flush drop_older_than clear
  operations-IsDated sum64 now older_than m b v flush_fn cache h =
      let key = hash sum64 m.descr in
      (
        keys-insert key _ cache.c ∙ ap (key_inserted key) h ∙ sym (keys-insert key _ cache.d),
        λ k. lookup-insert key k now cache.d,
        keys-flush flush_fn cache.c ∙ h,
        refl,
        drop_older-IsDated now older_than cache.d cache h,
        λ k. elim (Option-cases (lookup k (drop_older_than F now older_than cache).d)) [
          | inl gone ↦ inl gone
          | inr (t, q) ↦
              let (there, fresh) = drop_older-lookup now older_than cache.d cache k t q in
              inr (t, q, there, fresh t there)
        ],
        refl,
      )

  -- Where the name and the labels of two metrics are the same text when they are written one behind
  -- the other, and neither is in the cache, values observed for the first and then for the second end
  -- in one metric: it has the description of the first, and both values have been observed for it.
  -- The second never gets a metric of its own, however the texts are divided.
  pub cache_observe-shared :
      (sum64 : String → ℕ) (first second : Metric F) (now later : ℕ) (b : Assoc Float Float)
      (v w : Float) (cache : IndividualCache F)
      → joined (first.descr.name ∷ hashed_labels first.descr.labels)
        ≡ joined (second.descr.name ∷ hashed_labels second.descr.labels)
      → lookup (hash sum64 first.descr) cache.c ≡ none
      → let both =
          cache_observe F sum64 later second b w (cache_observe F sum64 now first b v cache) in
        (kept : Metric F) × (lookup (hash sum64 second.descr) both.c ≡ some kept)
        × (kept ≡ observe F w (observe F v (with_buckets F b first)))
        × (kept.descr ≡ first.descr)
  unfolding cache_observe hash observe
  cache_observe-shared sum64 first second now later b v w cache same absent =
      let k = hash sum64 first.descr in
      let k' = hash sum64 second.descr in
      let once : Metric F = observe F v (with_buckets F b first) in
      let first_in : lookup k (insert k once cache.c) ≡ some once =
        lookup-insert k k once cache.c ∙ rw (==_refl k) refl in
      (
        observe F w once,
        rw (sym same, absent, first_in) (lookup-insert k k _ _ ∙ rw (==_refl k) refl),
        refl,
        refl,
      )
