-- ===== src/Units/Runs.antt =====
-- core/unit/soft.go: what holds of a processor's unit in every run, and when it has returned.
use neptunus.Base.{
  ℕ, ◌+◌, ◌≡◌, Bool, true, false, ◌&&◌, List, [], ◌∷◌, ◌++◌, arith, ap, ◌∙◌, sym, Bool-cases, inl,
  inr,
}
use neptunus.Units.{
  Event, Channel, Stage, Chain, head, with_head, Effect, quiet, ended, outward, dropping,
  ChainAction, all_exited, ProcUnit, apply, Action, feed, feed_end, dropped_take, dropped_done,
  dropped_exit, finish, chain_acts, step,
}
use neptunus.Units.Safety.{
  Safe, Safe-stepped, Safe-bind, Safe-guard, count, count-append, occurs, in_stage, in_chain, Ended,
  Linked, last_exited, send-Safe, close-Safe, receive-Safe, give-Safe, leave-Safe,
}
use neptunus.Units.Stages.{
  running_open, Ended-running, Stepped, emitted, chain_step-Safe, with_head-Linked,
  in_chain-with_head, last_exited-with_head, all_exited-with_head,
}

-- What holds of a unit at every time: its channels are closed when the goroutine that sends to them
-- has ended, and the outgoing channel only when all goroutines have.
pub record IsSound (u : ProcUnit) : Type 0 where
  pub linked : Linked u.chain
  pub drops_ended : Ended u.dropped
  pub drops_closed : u.dropped.input.closed ≡ last_exited u.chain
  pub returned : u.out.closed ≡ true → (all_exited u.chain && u.dropped.exited) ≡ true

pub true-ne-false : true ≡ false → ⊥
true-ne-false e = cc

pub both : {a b : Bool} → (a && b) ≡ true → (a ≡ true) × (b ≡ true)
both {a} {b} e = ground (arith, e)

closed_running : (u : ProcUnit) → IsSound u → all_exited u.chain ≡ false → u.out.closed ≡ true → ⊥
closed_running u h r e = true-ne-false (sym (both (h.returned e)).0 ∙ r)

pub running_out : (u : ProcUnit) → IsSound u → all_exited u.chain ≡ false → u.out.closed ≡ false
running_out u h r = elim (Bool-cases u.out.closed) [
  | inl e ↦ absurd (closed_running u h r e)
  | inr e ↦ e
]

module _ (x : Event) where
  pub counted : (e : Event) (es : List Event) → count x (es ++ e ∷ []) ≡ count x es + occurs x e
  unfolding count
  counted e es = omega (arith, count-append x es (e ∷ []))

  -- How many of an event are anywhere in the unit, or have left it.
  abbrev pub in_unit : ProcUnit → ℕ
  in_unit u = in_chain x u.chain + in_stage x u.dropped + count x u.out.buffer + count x u.done

  abbrev pub added : Action → ℕ
  added (feed e) = occurs x e
  added (chain_acts a) = emitted x a
  added _ = 0

  -- A step to `u'` keeps the unit sound, and every event in it.
  abbrev pub Goes : Action → ProcUnit → ProcUnit → Type 0
  Goes a u u' = IsSound u' × (in_unit u' ≡ in_unit u + added a)

  apply-Safe :
      (a : ChainAction) (u : ProcUnit) (r : Effect × Chain)
      → IsSound u
      → Stepped x (emitted x a) u.chain r
      → Safe (Goes (chain_acts a) u) (apply r.0 (record u { chain = r.1 }))
  unfolding apply
  apply-Safe a u (quiet, c) h p = Safe-stepped _ _ (
    record {
      linked = p.linked;
      drops_ended = h.drops_ended;
      drops_closed = cc;
      returned = λ e. absurd (closed_running u h p.running e);
    },
    omega (arith, p.weighs),
  )
  apply-Safe a u (outward e, c) h p =
      Safe-bind _ _ _ _ (send-Safe x e u.out (running_out u h p.running)) λ q p'. Safe-stepped _ _ (
        record {
          linked = p.linked;
          drops_ended = h.drops_ended;
          drops_closed = cc;
          returned = λ e. absurd (true-ne-false (sym e ∙ p'.0));
        },
        omega (arith, p.weighs, p'.1),
      )
  apply-Safe a u (dropping e, c) h p =
      let o : u.dropped.input.closed ≡ false = h.drops_closed ∙ p.fits.0 in
      Safe-bind _ _ _ _ (send-Safe x e u.dropped.input o) λ q p'. Safe-stepped _ _ (
        record {
          linked = p.linked;
          drops_ended = Ended-running _ (running_open u.dropped h.drops_ended o);
          drops_closed = p'.0 ∙ sym p.fits.1;
          returned = λ e. absurd (closed_running u h p.running e);
        },
        omega (arith, p.weighs, p'.1),
      )
  apply-Safe a u (ended, c) h p =
      let o : u.dropped.input.closed ≡ false = h.drops_closed ∙ p.fits.0 in
      Safe-bind _ _ _ _ (close-Safe x u.dropped.input o) λ q p'. Safe-stepped _ _ (
        record {
          linked = p.linked;
          drops_ended = Ended-running _ (running_open u.dropped h.drops_ended o);
          drops_closed = p'.0 ∙ sym p.fits.1;
          returned = λ e. absurd (closed_running u h p.running e);
        },
        let same = ap (count x) p'.1 in omega (arith, p.weighs, same),
      )

  -- Another channel that is open, in the place of the first one, which is open too.
  fed :
      (u : ProcUnit) (q : Channel)
      → IsSound u
      → (head u.chain).closed ≡ false
      → IsSound (record u { chain = with_head u.chain q })
  fed u q h o = record {
    linked = with_head-Linked u.chain q h.linked o;
    drops_ended = h.drops_ended;
    drops_closed = h.drops_closed ∙ sym (last_exited-with_head x u.chain q);
    returned = λ e. rw (all_exited-with_head x u.chain q) (h.returned e);
  }

  -- A step of the goroutine of dropped events.
  consumed :
      (u : ProcUnit) (s : Stage) (done : List Event)
      → IsSound u
      → Ended s
      → u.dropped.exited ≡ false
      → s.input.closed ≡ u.dropped.input.closed
      → IsSound (record u { dropped = s; done = done })
  consumed u s done h e r k = record {
    linked = h.linked;
    drops_ended = e;
    drops_closed = k ∙ h.drops_closed;
    returned = λ o. absurd (true-ne-false (sym (both (h.returned o)).1 ∙ r));
  }

  -- From a sound unit no step panics: nothing is sent to a closed channel and no channel is closed
  -- twice. A step that is made keeps the unit sound, and neither loses nor repeats an event.
  pub step-Safe : (a : Action) (u : ProcUnit) → IsSound u → Safe (Goes a u) (step a u)
  unfolding step
  step-Safe (feed e) u h = Safe-guard _ _ _ λ g.
      let o : (head u.chain).closed ≡ false = ground (arith, g) in
      Safe-bind _ _ _ _ (send-Safe x e (head u.chain) o)
        λ q p. Safe-stepped _ _ (fed u q h o, omega (arith, p.1, in_chain-with_head x u.chain q))
  step-Safe feed_end u h = Safe-guard _ _ _ λ g.
      let o : (head u.chain).closed ≡ false = ground (arith, g) in
      Safe-bind _ _ _ _ (close-Safe x (head u.chain) o) λ q p. Safe-stepped _ _ (
        fed u q h o,
        let same = ap (count x) p.1 in omega (arith, same, in_chain-with_head x u.chain q),
      )
  step-Safe (chain_acts a) u h =
      Safe-bind _ _ _ _ (chain_step-Safe x a u.chain h.linked) λ r p. apply-Safe a u r h p
  step-Safe dropped_take u h =
      Safe-bind _ _ _ _ (receive-Safe x u.dropped)
        λ s p. Safe-stepped _ _ (consumed u s u.done h p.0.0 p.0.1 p.0.2, omega (arith, p.2))
  step-Safe dropped_done u h = Safe-bind _ _ _ _ (give-Safe x u.dropped h.drops_ended) λ r p.
      Safe-stepped _ _ (
        consumed u r.1 (u.done ++ r.0 ∷ []) h p.0.0 p.0.1 p.0.2,
        let more = counted r.0 u.done in omega (arith, p.2, more),
      )
  step-Safe dropped_exit u h =
      Safe-bind _ _ _ _ (leave-Safe x u.dropped)
        λ s p. Safe-stepped _ _ (consumed u s u.done h p.0.0 p.0.1 p.0.2, omega (arith, p.2))
  step-Safe finish u h = Safe-guard _ _ _ λ g. Safe-guard _ _ _ λ g'.
      Safe-bind _ _ _ _ (close-Safe x u.out (ground (arith, g'))) λ q p. Safe-stepped _ _ (
        record {
          linked = h.linked;
          drops_ended = h.drops_ended;
          drops_closed = h.drops_closed;
          returned = λ e. g;
        },
        let same = ap (count x) p.1 in omega (arith, same),
      )
