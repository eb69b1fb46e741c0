-- ===== src/Common/Retryer.antt =====
-- plugins/common/retryer/retryer.go: attempts up to a bound, or with no bound until one succeeds.
use neptunus.Base.{
  ℕ, zero, suc, ◌+◌, ◌≤◌, ◌<◌, ◌≡◌, ◌≢◌, refl, sym, ap, ◌∙◌, Option, none, some, ltb, if◌then◌else◌,
  arith, Option-cases, inl, inr, ◌⊎◌,
}
use native.Mathlib.Decide.{ℕ_discrete}
use neptunus.Base.Int.{ℤ, pos, negsuc, pos_part}

module _ {E : Type 0} (try : ℕ → Option E) where
  -- The loop of `Do`: `try` has the error, or none, of each call of `tryFunc`, by its number from 0.
  -- The result is the error that `Do` returns and the number of calls; none if the fuel ends first.
  unfoldable pub do_retries : ℤ → ℕ → ℕ → ℕ → Option (Option E × ℕ)
  do_retries bound zero calls attempts = none
  do_retries bound (suc fuel) calls attempts =
      let again = do_retries bound fuel (suc calls) (attempts + 1) in
      let same = do_retries bound fuel (suc calls) attempts in
      elim (try calls) [
        | none ↦ some (none, suc calls)
        | some e ↦ elim bound [
          | pos n ↦
              if ltb 0 n then (if ltb attempts n then again else some (some e, suc calls)) else same
          | negsuc n ↦ same
        ]
      ]

  step_done :
      (bound : ℤ) (fuel k a : ℕ)
      → try k ≡ none
      → do_retries bound (suc fuel) k a ≡ some (none, suc k)
  unfolding do_retries
  step_done bound fuel k a h = rw (h, do_retries)

  step_last :
      (n fuel k a : ℕ) (x : E)
      → try k ≡ some x
      → a ≡ n
      → 0 < n
      → do_retries (pos n) (suc fuel) k a ≡ some (some x, suc k)
  unfolding do_retries
  step_last n fuel k a x h e p = ground arith

  step_again :
      (n fuel k a : ℕ) (x : E)
      → try k ≡ some x
      → a < n
      → do_retries (pos n) (suc fuel) k a ≡ do_retries (pos n) fuel (suc k) (a + 1)
  unfolding do_retries
  step_again n fuel k a x h l = ground arith

  step_same :
      (bound : ℤ) (fuel k a : ℕ) (x : E)
      → try k ≡ some x
      → pos_part bound ≡ 0
      → do_retries bound (suc fuel) k a ≡ do_retries bound fuel (suc k) a
  unfolding do_retries
  step_same bound fuel k a x h p = ground arith

  -- `Do` with the bound n has made the calls up to the one numbered `last`: those before it failed,
  -- its own error or success is what `Do` returns, and an error is returned only of the n-th call.
  pub record IsOutcome (n from : ℕ) (r : Option E) (last : ℕ) : Type 0 where
    pub called : from ≤ last
    pub bounded : last < n
    pub failed_before : (i : ℕ) → from ≤ i → i < last → try i ≢ none
    pub result : r ≡ try last
    pub error_at_bound : r ≢ none → suc last ≡ n

  outcome :
      (n k : ℕ) (r : Option E) → k < n → r ≡ try k → (r ≢ none → suc k ≡ n) → IsOutcome n k r k
  outcome n k r l same at = record {
    called = omega arith;
    bounded = omega arith;
    failed_before = λ i a b. absurd (omega arith);
    result = same;
    error_at_bound = at;
  }

  IsOutcome-later :
      (n k last : ℕ) (r : Option E) (x : E)
      → try k ≡ some x
      → IsOutcome n (suc k) r last
      → IsOutcome n k r last
  IsOutcome-later n k last r x h o = record {
    called = omega arith;
    bounded = o.bounded;
    failed_before = λ i a b. elim (ℕ_discrete i k) [
      | yes same ↦ λ q. some-ne-none (sym h ∙ ap try (sym same) ∙ q)
      | no other ↦ o.failed_before i (omega arith) b
    ];
    result = o.result;
    error_at_bound = o.error_at_bound;
  }
    where
      some-ne-none : some x ≡ none → ⊥
      some-ne-none q = cc

  bounded_from :
      (n left k : ℕ)
      → k + suc left ≡ n
      → (r : Option E) × (last : ℕ) × (do_retries (pos n) (suc left) k (suc k) ≡ some (r, suc last))
        × IsOutcome n k r last
  bounded_from n zero k e = elim (Option-cases (try k)) [
    | inl good ↦ (
      none,
      k,
      step_done (pos n) zero k (suc k) good,
      outcome n k none (omega arith) (sym good) (λ q. absurd (q refl)),
    )
    | inr bad ↦ (
      some bad.0,
      k,
      step_last n zero k (suc k) bad.0 bad.1 (omega arith) (omega arith),
      outcome n k (some bad.0) (omega arith) (sym bad.1) (λ _. omega arith),
    )
  ]
  bounded_from n (suc left) k e =
      let later = bounded_from n left (suc k) (omega arith) in
      elim (Option-cases (try k)) [
        | inl good ↦ (
          none,
          k,
          step_done (pos n) (suc left) k (suc k) good,
          outcome n k none (omega arith) (sym good) (λ q. absurd (q refl)),
        )
        | inr bad ↦ (
          later.0,
          later.1,
          step_again n (suc left) k (suc k) bad.0 bad.1 (omega arith)
              ∙ ap (do_retries (pos n) (suc left) (suc k)) (omega arith)
              ∙ later.2,
          IsOutcome-later n k later.1 later.0 bad.0 bad.1 later.3,
        )
      ]

  -- With a positive `RetryAttempts` n, `Do` returns after at most n calls; every call before the last
  -- failed; it returns what the last call returned, and an error only of the n-th call.
  pub do_retries_bounded :
      (n : ℕ)
      → (r : Option E) × (last : ℕ) × (do_retries (pos (suc n)) (suc n) 0 1 ≡ some (r, suc last))
        × IsOutcome (suc n) 0 r last
  do_retries_bounded n = bounded_from (suc n) n 0 (omega arith)

  unbounded_from :
      (bound : ℤ) (m k : ℕ)
      → pos_part bound ≡ 0
      → try (k + m) ≡ none
      → (last : ℕ) × (do_retries bound (suc m) k 1 ≡ some (none, suc last))
        × (try last ≡ none)
        × (last ≤ k + m)
  unbounded_from bound zero k p h =
      let good : try k ≡ none = ap try (omega arith) ∙ h in
      (k, step_done bound zero k 1 good, good, omega arith)
  unbounded_from bound (suc m) k p h =
      let later = unbounded_from bound m (suc k) p (ap try (omega arith) ∙ h) in
      elim (Option-cases (try k)) [
        | inl good ↦ (k, step_done bound (suc m) k 1 good, good, omega arith)
        | inr bad ↦ (
          later.0,
          step_same bound (suc m) k 1 bad.0 bad.1 p ∙ later.1,
          later.2,
          omega (arith, later.3),
        )
      ]

  -- With no positive bound `Do` returns only a success, and it returns if a call ever succeeds: if
  -- the call numbered m does, then after at most m + 1 calls.
  do_retries_unbounded :
      (bound : ℤ) (m : ℕ)
      → pos_part bound ≡ 0
      → try m ≡ none
      → (last : ℕ) × (do_retries bound (suc m) 0 1 ≡ some (none, suc last))
        × (try last ≡ none)
        × (last ≤ m)
  do_retries_unbounded bound m p h =
      let r = unbounded_from bound m 0 p (ap try (omega arith) ∙ h) in
      (r.0, r.1, r.2, omega (arith, r.3))

  -- Calls that fail, and then one that succeeds, where the bound, if it is positive, allows them: `Do`
  -- returns with that success.
  pub do_retries_first :
      (bound : ℤ) (m k a : ℕ)
      → (pos_part bound ≡ 0) ⊎ (a + m ≤ pos_part bound)
      → ((i : ℕ) → k ≤ i → i < k + m → try i ≢ none)
      → try (k + m) ≡ none
      → do_retries bound (suc m) k a ≡ some (none, suc (k + m))
  do_retries_first bound zero k a allowed bad good =
      step_done bound zero k a (ap try (omega arith) ∙ good)
      ∙ ap (λ n. some (none, suc n)) (omega arith)
  do_retries_first bound (suc m) k a (inl free) bad good = elim (Option-cases (try k)) [
    | inl early ↦ absurd (bad k (omega arith) (omega arith) early)
    | inr (x, failed) ↦
        step_same bound (suc m) k a x failed free
        ∙ do_retries_first bound m (suc k) a (inl free) (λ i l r. bad i (omega arith) (omega arith))
            (ap try (omega arith) ∙ good)
        ∙ ap (λ n. some (none, suc n)) (omega arith)
  ]
  do_retries_first (pos n) (suc m) k a (inr within) bad good = elim (Option-cases (try k)) [
    | inl early ↦ absurd (bad k (omega arith) (omega arith) early)
    | inr (x, failed) ↦
        step_again n (suc m) k a x failed (omega arith)
        ∙ do_retries_first (pos n) m (suc k) (a + 1) (inr (omega arith))
            (λ i l r. bad i (omega arith) (omega arith)) (ap try (omega arith) ∙ good)
        ∙ ap (λ n. some (none, suc n)) (omega arith)
  ]
  do_retries_first (negsuc n) (suc m) k a (inr within) bad good = elim (Option-cases (try k)) [
    | inl early ↦ absurd (bad k (omega arith) (omega arith) early)
    | inr (x, failed) ↦
        step_same (negsuc n) (suc m) k a x failed refl
        ∙ do_retries_first (negsuc n) m (suc k) a (inl refl)
            (λ i l r. bad i (omega arith) (omega arith)) (ap try (omega arith) ∙ good)
        ∙ ap (λ n. some (none, suc n)) (omega arith)
  ]
