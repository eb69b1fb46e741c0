-- ===== src/Processors/Stats/Counts.antt =====
-- plugins/processors/stats/metric.go: what a metric has counted.
use neptunus.Base.{
  ℕ, zero, suc, ◌+◌, ◌≡◌, refl, ap, ◌∙◌, false, List, [], ◌∷◌, Assoc, length, if◌then◌else◌, arith,
  Bool-cases, inl, inr,
}
use neptunus.Processors.Stats.{
  Floats, Metric, MetricDescr, MetricStats, observe, fill, stepped, new_metric,
}

module _ (F : Floats) where
  open F use {Float}

  -- The n-th number from zero on.
  unfoldable pub counted : ℕ → Float
  counted zero = F.zero
  counted (suc n) = F.add (counted n) F.one

  -- How many of the values are at most a bound.
  unfoldable pub within : Float → List Float → ℕ
  within bound [] = 0
  within bound (v ∷ values) = (if F.le v bound then 1 else 0) + within bound values

  -- Values observed one after another.
  unfoldable pub observe_all : List Float → Metric F → Metric F
  observe_all [] m = m
  observe_all (v ∷ values) m = observe_all values (observe F v m)

  -- Each bound with a number for it.
  unfoldable pub tally : (Float → ℕ) → List Float → Assoc Float Float
  tally count [] = []
  tally count (bound ∷ bounds) = (bound, counted (count bound)) ∷ tally count bounds

  tally-ext :
      (f g : Float → ℕ) (bounds : List Float)
      → ((bound : Float) → f bound ≡ g bound)
      → tally f bounds ≡ tally g bounds
  unfolding tally
  tally-ext f g [] h = refl
  tally-ext f g (b ∷ bounds) h = rw (h b, tally-ext f g bounds h) refl

  bucket :
      (b : Float) (n k : ℕ) (rest : Assoc Float Float)
      → n ≡ k
      → ((b, counted n) ∷ rest) ≡ ((b, counted k) ∷ rest)
  bucket b n k rest h = rw h refl

  observe-count :
      (v : Float) (m : Metric F) → (observe F v m).value.count ≡ stepped F m.value.count F.one
  unfolding observe
  observe-count v m = elim (Bool-cases m.observed) [ inl h ↦ rw h refl | inr h ↦ rw h refl ]

  observe-buckets :
      (v : Float) (m : Metric F) → (observe F v m).value.buckets ≡ fill F v m.value.buckets
  unfolding observe
  observe-buckets v m = elim (Bool-cases m.observed) [ inl h ↦ rw h refl | inr h ↦ rw h refl ]

  module _ (below : (n : ℕ) → F.is_max (counted (suc n)) ≡ false) where
    stepped-counted : (n : ℕ) → stepped F (counted n) F.one ≡ counted (suc n)
    unfolding counted
    stepped-counted n = rw (stepped, below n) refl

    fill-tally :
        (v : Float) (f : Float → ℕ) (bounds : List Float)
        → fill F v (tally f bounds) ≡ tally (λ b. f b + (if F.le v b then 1 else 0)) bounds
    unfolding fill tally
    fill-tally v f [] = refl
    fill-tally v f (b ∷ bounds) = elim (Bool-cases (F.le v b)) [
      | inl low ↦
          rw (low, stepped-counted (f b), fill-tally v f bounds) (bucket b _ _ _ (omega arith))
      | inr high ↦ rw (high, fill-tally v f bounds) (bucket b _ _ _ (omega arith))
    ]

    observe_all-tally :
        (values : List Float) (m : Metric F) (n : ℕ) (f : Float → ℕ) (bounds : List Float)
        → m.value.count ≡ counted n
        → m.value.buckets ≡ tally f bounds
        → ((observe_all values m).value.count ≡ counted (n + length values))
          × ((observe_all values m).value.buckets ≡ tally (λ b. f b + within b values) bounds)
    unfolding observe_all within
    observe_all-tally [] m n f bounds hc hb =
        (hc ∙ ap counted (omega arith), hb ∙ tally-ext f _ bounds (λ b. omega arith))
    observe_all-tally (v ∷ values) m n f bounds hc hb =
        let (rest, filled) =
          observe_all-tally values (observe F v m) (suc n) (λ b. f b + (if F.le v b then 1 else 0))
            bounds (observe-count v m ∙ rw hc (stepped-counted n))
            (observe-buckets v m ∙ rw hb (fill-tally v f bounds)) in
        (rest ∙ ap counted (omega arith), filled ∙ tally-ext _ _ bounds (λ b. omega arith))

    -- From a new metric whose buckets are all zero, and where counting by ones never meets the highest
    -- number, the count is the number of values observed, and each bucket that of the values that are at
    -- most its bound: the buckets are cumulative.
    pub observe_all-counts :
        (values bounds : List Float) (descr : MetricDescr) (stats : MetricStats)
        → let m = observe_all values (new_metric F descr stats (tally (λ b. 0) bounds)) in
          (m.value.count ≡ counted (length values))
          × (m.value.buckets ≡ tally (λ b. within b values) bounds)
    unfolding counted
    observe_all-counts values bounds descr stats =
        let (count, buckets) =
          observe_all-tally values (new_metric F descr stats (tally (λ b. 0) bounds)) 0 (λ b. 0)
            bounds refl refl in
        (count ∙ ap counted (omega arith), buckets ∙ tally-ext _ _ bounds (λ b. omega arith))
