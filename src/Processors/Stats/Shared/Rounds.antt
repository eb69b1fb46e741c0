-- ===== src/Processors/Stats/Shared/Rounds.antt =====
-- plugins/processors/stats/cache.go: when a shared cache sends its metrics, and what a restart of the
-- pipeline makes of it.
use neptunus.Base.{
  append-nil, Assoc, false, if◌then◌else◌, Bool-cases, inl, inr, ℕ, zero, suc, ◌+◌, ◌≡◌, refl, ◌∙◌,
  true, false, none, some, List, [], ◌∷◌, ◌++◌, lookup, insert, remove, get_elem?, set, length,
  nat_beq, arith, get_elem?-set_self, nat_comparable, lookup-remove, lookup-insert, ==_refl,
  get_elem?-append_end,
}
use neptunus.Processors.Stats.{Floats, Metric}
use neptunus.Processors.Stats.Cache.{flush_metrics, new_individual_cache}
use neptunus.Processors.Stats.Shared.{
  SharedCache, Storage, at, with_writer, emptied, new_cache, shared_flush, shared_clear,
}

module _ (F : Floats) where
  open F use {Float}

  -- Flushes one after another, and all that they send.
  unfoldable pub flush_many :
      {E : Type 0} → (Metric F → List E) → ℕ → SharedCache F → List E × SharedCache F
  flush_many flush_fn zero c = ([], c)
  flush_many flush_fn (suc n) c =
      let (sent, c') = shared_flush F flush_fn c in
      let (more, c'') = flush_many flush_fn n c' in (sent ++ more, c'')

  early_flush :
      {E : Type 0} (flush_fn : Metric F → List E) (c : SharedCache F)
      → nat_beq (c.sync_point + 1) c.writers ≡ false
      → shared_flush F flush_fn c ≡ ([], record c { sync_point = c.sync_point + 1 })
  unfolding shared_flush
  early_flush flush_fn c h = rw h refl

  last_flush :
      {E : Type 0} (flush_fn : Metric F → List E) (c : SharedCache F)
      → nat_beq (c.sync_point + 1) c.writers ≡ true
      → shared_flush F flush_fn c ≡ (
        (flush_metrics F flush_fn c.cache.c).0,
        record c {
          cache = record c.cache { c = (flush_metrics F flush_fn c.cache.c).1 };
          sync_point = 0;
        },
      )
  unfolding shared_flush
  last_flush flush_fn c h = rw h refl

  waiting :
      {E : Type 0} (c : SharedCache F) (n : ℕ)
      → c.sync_point ≡ n
      → ◌≡◌ {A = List E × SharedCache F} ([], c) ([], record c { sync_point = n })
  waiting c n h = λ i. ([], record c { sync_point = h i })

  -- The events of all metrics, one metric after the other.
  abbrev pub all_events : {E : Type 0} → (Metric F → List E) → Assoc ℕ (Metric F) → List E
  all_events flush_fn [] = []
  all_events flush_fn ((k, m) ∷ c) = flush_fn m ++ all_events flush_fn c

  -- The metrics that start a new round: average and extremes begin anew, the rest goes on.
  abbrev pub begun_anew : Assoc ℕ (Metric F) → Assoc ℕ (Metric F)
  begun_anew [] = []
  begun_anew ((k, m) ∷ c) =
      (
        k,
        record m {
          observed = false;
          value = record m.value { count2 = F.zero; avg = F.zero; min = F.zero; max = F.zero };
        },
      )
      ∷ begun_anew c

  flush_metrics_lem :
      {E : Type 0} (flush_fn : Metric F → List E) (c : Assoc ℕ (Metric F))
      → flush_metrics F flush_fn c ≡ (all_events flush_fn c, begun_anew c)
  unfolding flush_metrics
  flush_metrics_lem flush_fn [] = refl
  flush_metrics_lem flush_fn ((k, m) ∷ c) = rw (flush_metrics_lem flush_fn c) refl

  flush_many-metrics :
      {E : Type 0} (flush_fn : Metric F → List E) (n : ℕ) (c : SharedCache F)
      → c.sync_point + suc n ≡ c.writers
      → (flush_many flush_fn n c ≡ ([], record c { sync_point = c.sync_point + n }))
        × (flush_many flush_fn (suc n) c ≡ (
          (flush_metrics F flush_fn c.cache.c).0 ++ [],
          record c {
            cache = record c.cache { c = (flush_metrics F flush_fn c.cache.c).1 };
            sync_point = 0;
          },
        ))
  unfolding flush_many
  flush_many-metrics flush_fn zero c h =
      (waiting c _ (omega arith), rw (last_flush flush_fn c (ground arith)) refl)
  flush_many-metrics flush_fn (suc n) c h =
      let early = early_flush flush_fn c (ground arith) in
      let (silent, last) =
        flush_many-metrics flush_fn n (record c { sync_point = c.sync_point + 1 }) (omega arith) in
      (rw early (silent ∙ (λ i. ([], record c { sync_point = later i }))), rw early last)
    where
      later : c.sync_point + 1 + n ≡ c.sync_point + suc n
      later = omega arith

  -- While fewer flushes have been asked for than there are writers, a flush sends nothing and is
  -- counted. The flush that completes the round sends the events of every metric, in the order of the
  -- map, starts average and extremes of every metric anew and leaves its count, sum, gauge and buckets,
  -- and starts the next round.
  pub flush_many-round :
      {E : Type 0} (flush_fn : Metric F → List E) (n : ℕ) (c : SharedCache F)
      → c.sync_point + suc n ≡ c.writers
      → (flush_many flush_fn n c ≡ ([], record c { sync_point = c.sync_point + n }))
        × (flush_many flush_fn (suc n) c ≡ (
          all_events flush_fn c.cache.c,
          record c { cache = record c.cache { c = begun_anew c.cache.c }; sync_point = 0 },
        ))
  flush_many-round flush_fn n c h =
      let (silent, last) = flush_many-metrics flush_fn n c h in
      let flushed = flush_metrics_lem flush_fn c.cache.c in
      (
        silent,
        last ∙ (λ i. (
          append-nil ((flushed i).0) i,
          record c { cache = record c.cache { c = (flushed i).1 }; sync_point = 0 },
        )),
      )

  -- `Close` of the processors of n lines, and then n lines that join the cache again.
  unfoldable pub close_all : ℕ → ℕ → Storage F → Storage F
  unfolding shared_clear
  close_all zero p st = st
  close_all (suc n) p st = close_all n p (shared_clear F p st)

  unfoldable pub join_all : ℕ → ℕ → Storage F → Storage F
  unfolding new_cache
  join_all zero k st = st
  join_all (suc n) k st = join_all n k (new_cache F k st).1

  joined :
      (k p : ℕ) (c : SharedCache F) (st : Storage F)
      → lookup k st.s ≡ some p
      → get_elem? st.heap p ≡ some c
      → (new_cache F k st).1 ≡ record st { heap = set st.heap p (with_writer F c) }
  unfolding new_cache
  joined k p c st found there = rw (found, new_cache, at, there) refl

  join_all-joined :
      (n k p : ℕ) (c : SharedCache F) (st : Storage F)
      → lookup k st.s ≡ some p
      → get_elem? st.heap p ≡ some c
      → (lookup k (join_all n k st).s ≡ some p)
        × (get_elem? (join_all n k st).heap p ≡ some (record c { writers = c.writers + n }))
  unfolding join_all
  join_all-joined zero k p c st found there =
      (found, there ∙ (λ i. some (record c { writers = same i })))
    where
      same : c.writers ≡ c.writers + 0
      same = omega arith
  join_all-joined (suc n) k p c st found there =
      rw (joined k p c st found there, join_all)
        (let (f, t) =
            join_all-joined n k p (with_writer F c)
              (record st { heap = set st.heap p (with_writer F c) }) found
              (get_elem?-set_self st.heap p (with_writer F c) c there) in
          (f, t ∙ (λ i. some (record c { writers = same i }))))
    where
      same : c.writers + 1 + n ≡ c.writers + suc n
      same = omega arith

  close_all-waiting :
      (n p : ℕ) (c : SharedCache F) (st : Storage F)
      → get_elem? st.heap p ≡ some c
      → nat_beq c.sync_point 0 ≡ false
      → close_all n p st ≡ st
  unfolding close_all shared_clear
  close_all-waiting zero p c st there h = refl
  close_all-waiting (suc n) p c st there h =
      rw (there, close_all, shared_clear, h) (close_all-waiting n p c st there h)

  cleared :
      (p : ℕ) (c : SharedCache F) (st : Storage F)
      → get_elem? st.heap p ≡ some c
      → c.sync_point ≡ 0
      → shared_clear F p st ≡ record { heap = set st.heap p (emptied F c); s = remove c.id st.s }
  unfolding shared_clear
  cleared p c st there h = rw (there, shared_clear, h) refl

  close_all-cleared :
      (n p : ℕ) (c : SharedCache F) (st : Storage F)
      → get_elem? st.heap p ≡ some c
      → c.sync_point ≡ 0
      → lookup c.id (close_all (suc n) p st).s ≡ none
  unfolding close_all
  close_all-cleared zero p c st there h =
      rw (cleared p c st there h, close_all) (lookup-remove c.id c.id st.s ∙ rw (==_refl c.id) refl)
  close_all-cleared (suc n) p c st there h =
      rw (cleared p c st there h, close_all)
        (close_all-cleared n p (emptied F c) _ (get_elem?-set_self st.heap p (emptied F c) c there)
          h)

  -- After n + 1 lines that share a cache have closed, n + 1 lines join again under the same id. If no
  -- round was open, they get a new cache with n + 1 writers. If a round was open, the closing has
  -- changed nothing: they get the old cache, with its metrics, its open round and the n + 1 writers that
  -- are gone counted beside the new ones.
  pub join_all-close_all :
      (n p : ℕ) (c : SharedCache F) (st : Storage F)
      → lookup c.id st.s ≡ some p
      → get_elem? st.heap p ≡ some c
      → c.writers ≡ suc n
      → (q : ℕ) × (lookup c.id (join_all (suc n) c.id (close_all (suc n) p st)).s ≡ some q)
        × (get_elem? (join_all (suc n) c.id (close_all (suc n) p st)).heap q
            ≡ some (
                if nat_beq c.sync_point 0
                then record {
                  id = c.id;
                  writers = 1 + n;
                  cache = new_individual_cache F;
                  sync_point = 0;
                }
                else record c { writers = suc n + suc n }))
  unfolding join_all new_cache
  join_all-close_all n p c st found there w = elim (Bool-cases (nat_beq c.sync_point 0)) [
    | inr round ↦
        rw (close_all-waiting (suc n) p c st there round, round)
          (let (f, t) = join_all-joined (suc n) c.id p c st found there in
            (p, f, t ∙ (λ i. some (record c { writers = count i }))))
    | inl idle ↦
        rw idle (fresh (close_all (suc n) p st) (close_all-cleared n p c st there (ground arith)))
  ]
    where
      count : c.writers + suc n ≡ suc n + suc n
      count = omega arith

      new : SharedCache F
      new = record { id = c.id; writers = 1; cache = new_individual_cache F; sync_point = 0 }

      first :
          (s : Storage F)
          → lookup c.id s.s ≡ none
          → (new_cache F c.id s).1
            ≡ record { heap = s.heap ++ new ∷ []; s = insert c.id (length s.heap) s.s }
      first s h = rw (h, new_cache) refl

      fresh :
          (s : Storage F)
          → lookup c.id s.s ≡ none
          → (q : ℕ) × (lookup c.id (join_all (suc n) c.id s).s ≡ some q)
            × (get_elem? (join_all (suc n) c.id s).heap q ≡ some (record new { writers = 1 + n }))
      fresh s h =
          let st' : Storage F = record {
            heap = s.heap ++ new ∷ [];
            s = insert c.id (length s.heap) s.s;
          } in
          let (f, t) =
            join_all-joined n c.id (length s.heap) new st'
              (lookup-insert c.id c.id (length s.heap) s.s ∙ rw (==_refl c.id) refl)
              (get_elem?-append_end s.heap new) in
          (length s.heap, rw (first s h, join_all) f, rw (first s h, join_all) t)
