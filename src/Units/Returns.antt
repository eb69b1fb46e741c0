-- ===== src/Units/Returns.antt =====
-- core/unit/soft.go: what a processor's unit has done when `Run` returns.
use mathlib.Core.Path.{subst}
use neptunus.Base.{ℕ, zero, suc, ◌+◌, ◌≡◌, ◌≢◌, refl, sym, true, false, List, [], ◌∷◌, arith}
use neptunus.Units.{
  Event, panicked, stepped, Stage, Chain, plugin, filter, head, all_exited, ProcUnit, Action, run,
  new_chain, new_unit,
}
use neptunus.Units.Safety.{
  Safe, Safe-stepped, Safe-bind, Safe-weaken, Holds, count, in_stage, in_chain, Ended, Linked,
  last_exited,
}
use neptunus.Units.Stages.{Ended-running}
use neptunus.Units.Runs.{IsSound, in_unit, added, step-Safe, both}

-- How often an event is fed to the unit or made by the processor in a run.
unfoldable pub total : Event → List Action → ℕ
total x [] = 0
total x (a ∷ actions) = added x a + total x actions

pub new_chain-head : (n : ℕ) → (head (new_chain n)).closed ≡ false
unfolding new_chain
new_chain-head zero = refl
new_chain-head (suc n) = refl

pub new_chain-last : (n : ℕ) → last_exited (new_chain n) ≡ false
unfolding new_chain last_exited
new_chain-last zero = refl
new_chain-last (suc n) = new_chain-last n

pub new_chain-Linked : (n : ℕ) → Linked (new_chain n)
unfolding new_chain
new_chain-Linked zero = Ended-running _ refl
new_chain-Linked (suc n) = (Ended-running _ refl, new_chain-head n, new_chain-Linked n)

new_unit-IsSound : (n : ℕ) → IsSound (new_unit n)
unfolding new_unit
new_unit-IsSound n = record {
  linked = new_chain-Linked n;
  drops_ended = Ended-running _ refl;
  drops_closed = sym (new_chain-last n);
  returned = λ e. absurd cc;
}

module _ (x : Event) where
  pub new_chain-empty : (n : ℕ) → in_chain x (new_chain n) ≡ 0
  unfolding in_chain new_chain count
  new_chain-empty zero = omega arith
  new_chain-empty (suc n) = omega (arith, new_chain-empty n)

  pub run-Safe :
      (actions : List Action) (u : ProcUnit)
      → IsSound u
      → Safe (λ u'. IsSound u' × (in_unit x u' ≡ in_unit x u + total x actions)) (run actions u)
  unfolding run total
  run-Safe [] u h = Safe-stepped _ _ (h, omega arith)
  run-Safe (a ∷ actions) u h =
      Safe-bind _ _ _ _ (step-Safe x a u h)
        λ u' p. Safe-weaken _ _ _ (run-Safe actions u' p.0) λ u'' q. (q.0, omega (arith, p.1, q.1))

  pub in_stage-Ended : (s : Stage) → Ended s → s.exited ≡ true → in_stage x s ≡ 0
  unfolding count
  in_stage-Ended s h e = rw (h.empty e, h.free e) (omega arith)

  pub in_chain-exited : (c : Chain) → Linked c → all_exited c ≡ true → in_chain x c ≡ 0
  unfolding in_chain all_exited
  in_chain-exited (plugin s) l e = in_stage-Ended s l e
  in_chain-exited (filter s c) (h, k, l) e =
      let ends : s.exited ≡ true = ground (arith, e) in
      let others : all_exited c ≡ true = ground (arith, e) in
      omega (arith, in_stage-Ended s h ends, in_chain-exited c l others)

  in_unit-new_unit : (n : ℕ) → in_unit x (new_unit n) ≡ 0
  unfolding new_unit count
  in_unit-new_unit n = omega (arith, new_chain-empty n)

  pub reached :
      (n : ℕ) (actions : List Action) (u : ProcUnit)
      → run actions (new_unit n) ≡ stepped u
      → IsSound u × (in_unit x u ≡ total x actions)
  reached n actions u e =
      let h =
        subst (Holds (λ u'. IsSound u' × (in_unit x u' ≡ in_unit x (new_unit n) + total x actions)))
          e (run-Safe actions (new_unit n) (new_unit-IsSound n)).runs in
      (h.0, omega (arith, h.1, in_unit-new_unit n))

-- No run of a processor's unit, with any number of filters and from its start, ever panics: nothing
-- is sent to a channel that has been closed, and no channel is closed twice.
pub run-panicked : (n : ℕ) (actions : List Action) → run actions (new_unit n) ≢ panicked
run-panicked n actions e =
    subst (Holds (λ u'. IsSound u' × (in_unit 0 u' ≡ in_unit 0 (new_unit n) + total 0 actions))) e
      (run-Safe 0 actions (new_unit n) (new_unit-IsSound n)).runs

-- When `Run` of a processor's unit has returned, which is when the outgoing channel is closed, every
-- event that was fed to the unit, or made by its processor, has either been sent to the outgoing
-- channel or been dropped and its `Done` called, as often as it was fed or made.
pub run-returned :
    (n : ℕ) (actions : List Action) (u : ProcUnit)
    → run actions (new_unit n) ≡ stepped u
    → u.out.closed ≡ true
    → (x : Event) → count x u.out.buffer + count x u.done ≡ total x actions
run-returned n actions u e o x =
    let (h, w) = reached x n actions u e in
    let ends : (all_exited u.chain ≡ true) × (u.dropped.exited ≡ true) = both (h.returned o) in
    omega (
      arith,
      w,
      in_chain-exited x u.chain h.linked ends.0,
      in_stage-Ended x u.dropped h.drops_ended ends.1,
    )
