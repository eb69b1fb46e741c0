-- ===== src/Units/Output/Returns.antt =====
-- core/unit/soft.go: what an output's unit has done when `Run` returns.
use mathlib.Core.Path.{subst}
use neptunus.Base.{ℕ, ◌+◌, ◌≡◌, ◌≢◌, refl, sym, true, ◌&&◌, List, [], ◌∷◌, arith}
use neptunus.Units.{Event, panicked, stepped, all_exited}
use neptunus.Units.Safety.{Safe, Safe-stepped, Safe-bind, Safe-weaken, Holds, count}
use neptunus.Units.Stages.{Ended-running}
use neptunus.Units.Runs.{both}
use neptunus.Units.Returns.{
  new_chain-Linked, new_chain-last, new_chain-empty, in_chain-exited, in_stage-Ended,
}
use neptunus.Units.Output.{OutUnit, Action, run, new_unit}
use neptunus.Units.Output.Sound.{IsSound, all-last_exited, in_unit, added, Goes}
use neptunus.Units.Output.Steps.{step-Safe}

-- How often an event is fed to the unit in a run.
unfoldable pub total : Event → List Action → ℕ
total x [] = 0
total x (a ∷ actions) = added x a + total x actions

new_unit-IsSound : (n : ℕ) → IsSound (new_unit n)
unfolding new_unit
new_unit-IsSound n = record {
  linked = new_chain-Linked n;
  rejects_ended = Ended-running _ refl;
  rejects_closed = sym (new_chain-last n);
  done_ended = Ended-running _ refl;
  done_closed = sym (new_chain-last n);
  none_held = λ e. refl;
  over = λ e. absurd cc;
}

module _ (x : Event) where
  run-Safe :
      (actions : List Action) (u : OutUnit)
      → IsSound u
      → Safe (Goes x (total x actions) u) (run actions u)
  unfolding run total
  run-Safe [] u h = Safe-stepped _ _ (h, omega arith)
  run-Safe (a ∷ actions) u h =
      Safe-bind _ _ _ _ (step-Safe x a u h)
        λ u' p. Safe-weaken _ _ _ (run-Safe actions u' p.0) λ u'' q. (q.0, omega (arith, p.1, q.1))

  in_unit-new_unit : (n : ℕ) → in_unit x (new_unit n) ≡ 0
  unfolding new_unit count
  in_unit-new_unit n = omega (arith, new_chain-empty x n)

  reached :
      (n : ℕ) (actions : List Action) (u : OutUnit)
      → run actions (new_unit n) ≡ stepped u
      → IsSound u × (in_unit x u ≡ total x actions)
  reached n actions u e =
      let h =
        subst (Holds (Goes x (total x actions) (new_unit n))) e
          (run-Safe actions (new_unit n) (new_unit-IsSound n)).runs in
      (h.0, omega (arith, h.1, in_unit-new_unit n))

held_over : (x : Event) (u : OutUnit) → IsSound u → all_exited u.chain ≡ true → count x u.held ≡ 0
unfolding count
held_over x u h e = rw (h.none_held (all-last_exited u.chain e)) refl

-- No run of an output's unit, with any number of filters and from its start, ever panics: nothing is
-- sent to a channel that has been closed, and no channel is closed twice.
pub run-panicked_out : (n : ℕ) (actions : List Action) → run actions (new_unit n) ≢ panicked
run-panicked_out n actions e =
    subst (Holds (Goes 0 (total 0 actions) (new_unit n))) e
      (run-Safe 0 actions (new_unit n) (new_unit-IsSound n)).runs

-- When `Run` of an output's unit has returned, `Done` has been called for every event that was fed to
-- the unit, rejected or processed, exactly as often as it was fed.
pub run-finished :
    (n : ℕ) (actions : List Action) (u : OutUnit)
    → run actions (new_unit n) ≡ stepped u
    → u.returned ≡ true
    → (x : Event) → count x u.finished ≡ total x actions
run-finished n actions u e o x =
    let (h, w) = reached x n actions u e in
    let ends : ((all_exited u.chain && u.rejected.exited) ≡ true) × (u.processed.exited ≡ true) =
      both (h.over o) in
    let ends' : (all_exited u.chain ≡ true) × (u.rejected.exited ≡ true) = both ends.0 in
    omega (
      arith,
      w,
      in_chain-exited x u.chain h.linked ends'.0,
      held_over x u h ends'.0,
      in_stage-Ended x u.rejected h.rejects_ended ends'.1,
      in_stage-Ended x u.processed h.done_ended ends.1,
    )
