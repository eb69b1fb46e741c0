-- ===== src/Common/Batcher.antt =====
-- plugins/common/batcher/batcher.go: what `Run` receives, and the batches that it flushes.
use neptunus.Base.{
  ℕ, ◌≤◌, ◌<◌, ◌≡◌, sym, Option, none, some, List, [], ◌∷◌, ◌++◌, append-nil, append_assoc, length,
  length-append, nat_beq, if◌then◌else◌, All, arith, Bool-cases, inl, inr, nat_beq_iff,
}

-- What the `select` of the loop picks: an event, the end of the closed channel, or a tick.
pub data Signal {ℓ} (T : Type ℓ) : Type ℓ where
  event : T → Signal T
  closed tick : Signal T

module _ {ℓ} {T : Type ℓ} where
  -- The loop, with the buffer so far: the batches in the order of the calls of `flushFn`, and the
  -- buffer that is left while the loop goes on, or none once it has returned.
  unfoldable pub run : ℕ → List T → List (Signal T) → List (List T) × Option (List T)
  run size buf [] = ([], some buf)
  run size buf (event e ∷ signals) =
      let full = nat_beq (length (buf ++ e ∷ [])) size in
      let (batches, rest) = run size (if full then [] else buf ++ e ∷ []) signals in
      (if full then (buf ++ e ∷ []) ∷ batches else batches, rest)
  run size buf (closed ∷ signals) = (buf ∷ [], none)
  run size buf (tick ∷ signals) = let (batches, rest) = run size [] signals in (buf ∷ batches, rest)

  -- The events that the loop has received, up to the end of the channel.
  abbrev pub received : List (Signal T) → List T
  received [] = []
  received (event e ∷ signals) = e ∷ received signals
  received (closed ∷ signals) = []
  received (tick ∷ signals) = received signals

  abbrev pub concat : List (List T) → List T
  concat [] = []
  concat (b ∷ bs) = b ++ concat bs

  abbrev pub left_over : Option (List T) → List T
  left_over none = []
  left_over (some buf) = buf

  -- Nothing is lost, repeated or reordered: the batches, and then the buffer that is left, hold the
  -- events received, in their order, behind those that the buffer held at first.
  pub run-keeps :
      (size : ℕ) (buf : List T) (signals : List (Signal T))
      → concat (run size buf signals).0 ++ left_over (run size buf signals).1
        ≡ buf ++ received signals
  unfolding run
  run-keeps size buf [] = sym (append-nil buf)
  run-keeps size buf (event e ∷ signals) =
      elim (Bool-cases (nat_beq (length (buf ++ e ∷ [])) size)) [
        | inl full ↦ rw full (simp (append_assoc, run-keeps size [] signals))
        | inr more ↦ rw (more, run-keeps size (buf ++ e ∷ []) signals) (simp append_assoc)
      ]
  run-keeps size buf (closed ∷ signals) = simp append-nil
  run-keeps size buf (tick ∷ signals) = simp (append_assoc, run-keeps size [] signals)

  -- With a buffer of positive size that is not full at first, no batch is larger than it, and what
  -- is left is smaller.
  run_bounded :
      (size : ℕ) (buf : List T) (signals : List (Signal T))
      → length buf < size
      → All (λ (b : List T). length b ≤ size) (run size buf signals).0
        × (length (left_over (run size buf signals).1) < size)
  unfolding run
  run_bounded size buf [] h = (tt, h)
  run_bounded size buf (event e ∷ signals) h =
      elim (Bool-cases (nat_beq (length (buf ++ e ∷ [])) size)) [
        | inl full ↦
            let rest = run_bounded size [] signals (omega arith) in
            rw full
              ((omega (arith, (nat_beq_iff (length (buf ++ e ∷ [])) size).0 full), rest.0), rest.1)
        | inr more ↦ rw more (
            run_bounded size (buf ++ e ∷ []) signals
              (ground (arith, length-append buf (e ∷ []), more)))
      ]
  run_bounded size buf (closed ∷ signals) h = omega arith
  run_bounded size buf (tick ∷ signals) h =
      let rest = run_bounded size [] signals (omega arith) in ((omega arith, rest.0), rest.1)
