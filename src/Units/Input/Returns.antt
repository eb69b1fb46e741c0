-- ===== src/Units/Input/Returns.antt =====
-- core/unit/soft.go: what an input's unit has done when `Run` returns.
use mathlib.Core.Path.{subst}
use neptunus.Base.{ℕ, zero, suc, ◌+◌, ◌≡◌, ◌≢◌, refl, ◌∙◌, true, none, List, [], ◌∷◌, arith}
use neptunus.Units.{Event, panicked, stepped, Chain, plugin, filter, head, new_chain}
use neptunus.Units.Safety.{
  Safe, Safe-stepped, Safe-bind, Safe-weaken, Holds, count, in_chain, Linked,
}
use neptunus.Units.Stages.{Ended-running}
use neptunus.Units.Runs.{both}
use neptunus.Units.Returns.{new_chain-Linked, new_chain-head, new_chain-empty, in_stage-Ended}
use neptunus.Units.Input.{InUnit, filters_exited, outgoing, Action, run, new_unit}
use neptunus.Units.Input.Steps.{IsSound, last_hand, in_unit, added, Goes, step-Safe}

-- How often an event is emitted by the input in a run.
unfoldable pub total : Event → List Action → ℕ
total x [] = 0
total x (a ∷ actions) = added x a + total x actions

new_chain-idle : (n : ℕ) → last_hand (new_chain n) ≡ none
unfolding new_chain last_hand
new_chain-idle zero = refl
new_chain-idle (suc n) = new_chain-idle n

new_unit-IsSound : (n : ℕ) → IsSound (new_unit n)
unfolding new_unit
new_unit-IsSound n = record {
  linked = new_chain-Linked n;
  fed = new_chain-head n;
  idle = new_chain-idle n;
  rejects_ended = Ended-running _ refl;
  rejects_closed = λ e. absurd cc;
  left = λ e. absurd cc;
}

module _ (x : Event) where
  run-Safe :
      (actions : List Action) (u : InUnit)
      → IsSound u
      → Safe (Goes x (total x actions) u) (run actions u)
  unfolding run total
  run-Safe [] u h = Safe-stepped _ _ (h, omega arith)
  run-Safe (a ∷ actions) u h =
      Safe-bind _ _ _ _ (step-Safe x a u h)
        λ u' p. Safe-weaken _ _ _ (run-Safe actions u' p.0) λ u'' q. (q.0, omega (arith, p.1, q.1))

  in_unit-new_unit : (n : ℕ) → in_unit x (new_unit n) ≡ 0
  unfolding new_unit count
  in_unit-new_unit n = omega (arith, new_chain-empty x n)

  reached :
      (n : ℕ) (actions : List Action) (u : InUnit)
      → run actions (new_unit n) ≡ stepped u
      → IsSound u × (in_unit x u ≡ total x actions)
  reached n actions u e =
      let h =
        subst (Holds (Goes x (total x actions) (new_unit n))) e
          (run-Safe actions (new_unit n) (new_unit-IsSound n)).runs in
      (h.0, omega (arith, h.1, in_unit-new_unit n))

  -- When the filters have ended, what the chain holds is in the outgoing channel, which is closed.
  settled :
      (c : Chain)
      → Linked c
      → filters_exited c ≡ true
      → last_hand c ≡ none
      → (head c).closed ≡ true
      → (in_chain x c ≡ count x (outgoing c).buffer) × ((outgoing c).closed ≡ true)
  unfolding filters_exited outgoing last_hand in_chain
  settled (plugin s) l e idle closed = (rw idle (omega arith), closed)
  settled (filter s c) (h, k, l) e idle closed =
      let ends = both e in
      let (weighs, shut) = settled c l ends.1 idle (k ∙ ends.0) in
      (omega (arith, weighs, in_stage-Ended x s h ends.0), shut)

-- No run of an input's unit, with any number of filters and from its start, ever panics: nothing is
-- sent to a channel that has been closed, and no channel is closed twice.
pub run-panicked_in : (n : ℕ) (actions : List Action) → run actions (new_unit n) ≢ panicked
run-panicked_in n actions e =
    subst (Holds (Goes 0 (total 0 actions) (new_unit n))) e
      (run-Safe 0 actions (new_unit n) (new_unit-IsSound n)).runs

-- When `Run` of an input's unit has returned, its outgoing channel is closed, and every event that the
-- input emitted has been sent there or been rejected and done, exactly as often as it was emitted.
pub run-emitted :
    (n : ℕ) (actions : List Action) (u : InUnit)
    → run actions (new_unit n) ≡ stepped u
    → u.returned ≡ true
    → ((outgoing u.chain).closed ≡ true)
      × ((x : Event) → count x (outgoing u.chain).buffer + count x u.finished ≡ total x actions)
run-emitted n actions u e o =
    let (h, w) = reached 0 n actions u e in
    let gone = h.left o in
    let ends = both (h.rejects_closed (h.rejects_ended.closed gone)) in
    (
      (settled 0 u.chain h.linked ends.1 h.idle (h.fed ∙ ends.0)).1,
      λ x.
          let (h, w) = reached x n actions u e in
          let (weighs, shut) = settled x u.chain h.linked ends.1 h.idle (h.fed ∙ ends.0) in
          omega (arith, w, weighs, in_stage-Ended x u.rejected h.rejects_ended gone),
    )
