-- ===== src/Units/Output/Steps.antt =====
-- core/unit/soft.go: what a step of an output's unit does.
use neptunus.Base.{◌+◌, ◌≡◌, sym, ◌∙◌, ap, false, List, arith}
use neptunus.Units.{Event, Channel, Stage, head, with_head, filters}
use neptunus.Units.Safety.{
  Safe, Safe-stepped, Safe-bind, Safe-guard, count, in_stage, Ended, send-Safe, close-Safe,
  receive-Safe, give-Safe, leave-Safe,
}
use neptunus.Units.Stages.{
  chain_step-Safe, with_head-Linked, in_chain-with_head, last_exited-with_head,
  all_exited-with_head,
}
use neptunus.Units.Runs.{both, counted, true-ne-false}
use neptunus.Units.Output.{
  OutUnit, DoneAction, done_take, done_call, done_exit, done_step, Action, feed, feed_end, finish,
  filter_acts, output_acts, rejected_acts, processed_acts, step,
}
use neptunus.Units.Output.Sound.{IsSound, Goes, added, output_step-Safe, apply-Safe}

module _ (x : Event) where
  -- A goroutine that calls `Done` was running, and keeps its events and the state of its channel.
  abbrev pub Done : Stage → List Event → Stage × List Event → Type 0
  Done s events r =
      Ended r.0
      × (s.exited ≡ false)
      × (r.0.input.closed ≡ s.input.closed)
      × (in_stage x r.0 + count x r.1 ≡ in_stage x s + count x events)

  pub done_step-Safe :
      (a : DoneAction) (s : Stage) (events : List Event)
      → Ended s
      → Safe (Done s events) (done_step a s events)
  unfolding done_step
  done_step-Safe done_take s events h =
      Safe-bind _ _ _ _ (receive-Safe x s)
        λ s' p. Safe-stepped _ _ (p.0.0, p.0.1, p.0.2, omega (arith, p.2))
  done_step-Safe done_call s events h = Safe-bind _ _ _ _ (give-Safe x s h) λ r p.
      Safe-stepped _ _
        (p.0.0, p.0.1, p.0.2, let more = counted x r.0 events in omega (arith, p.2, more))
  done_step-Safe done_exit s events h =
      Safe-bind _ _ _ _ (leave-Safe x s)
        λ s' p. Safe-stepped _ _ (p.0.0, p.0.1, p.0.2, omega (arith, p.2))

  fed :
      (u : OutUnit) (q : Channel)
      → IsSound u
      → (head u.chain).closed ≡ false
      → IsSound (record u { chain = with_head u.chain q })
  fed u q h o = record {
    linked = with_head-Linked u.chain q h.linked o;
    rejects_ended = h.rejects_ended;
    rejects_closed = h.rejects_closed ∙ sym (last_exited-with_head x u.chain q);
    done_ended = h.done_ended;
    done_closed = h.done_closed ∙ sym (last_exited-with_head x u.chain q);
    none_held = λ e. h.none_held (sym (last_exited-with_head x u.chain q) ∙ e);
    over = λ e. rw (all_exited-with_head x u.chain q) (h.over e);
  }

  -- From a sound unit no step panics, and a step that is made keeps the unit sound and every event.
  pub step-Safe : (a : Action) (u : OutUnit) → IsSound u → Safe (Goes x (added x a) u) (step a u)
  unfolding step
  step-Safe (feed e) u h = Safe-guard _ _ _ λ g.
      let o : (head u.chain).closed ≡ false = ground (arith, g) in
      Safe-bind _ _ _ _ (send-Safe x e (head u.chain) o)
        λ q p. Safe-stepped _ _ (fed u q h o, omega (arith, p.1, in_chain-with_head x u.chain q))
  step-Safe feed_end u h = Safe-guard _ _ _ λ g.
      let o : (head u.chain).closed ≡ false = ground (arith, g) in
      Safe-bind _ _ _ _ (close-Safe x (head u.chain) o) λ q p. Safe-stepped _ _ (
        fed u q h o,
        let same = ap (count x) p.1 in omega (arith, same, in_chain-with_head x u.chain q),
      )
  step-Safe (filter_acts i a) u h =
      Safe-bind _ _ _ _ (chain_step-Safe x (filters i a) u.chain h.linked)
        λ r p. apply-Safe x 0 u r h p
  step-Safe (output_acts a) u h = output_step-Safe x a u h
  step-Safe (rejected_acts a) u h =
      Safe-bind _ _ _ _ (done_step-Safe a u.rejected u.finished h.rejects_ended) λ r p.
        Safe-stepped _ _ (
          record {
            linked = h.linked;
            rejects_ended = p.0;
            rejects_closed = p.2 ∙ h.rejects_closed;
            done_ended = h.done_ended;
            done_closed = h.done_closed;
            none_held = h.none_held;
            over = λ e. absurd (true-ne-false (sym (both (both (h.over e)).0).1 ∙ p.1));
          },
          omega (arith, p.3),
        )
  step-Safe (processed_acts a) u h =
      Safe-bind _ _ _ _ (done_step-Safe a u.processed u.finished h.done_ended) λ r p.
        Safe-stepped _ _ (
          record {
            linked = h.linked;
            rejects_ended = h.rejects_ended;
            rejects_closed = h.rejects_closed;
            done_ended = p.0;
            done_closed = p.2 ∙ h.done_closed;
            none_held = h.none_held;
            over = λ e. absurd (true-ne-false (sym (both (h.over e)).1 ∙ p.1));
          },
          omega (arith, p.3),
        )
  step-Safe finish u h = Safe-guard _ _ _ λ g. Safe-stepped _ _ (
    record {
      linked = h.linked;
      rejects_ended = h.rejects_ended;
      rejects_closed = h.rejects_closed;
      done_ended = h.done_ended;
      done_closed = h.done_closed;
      none_held = h.none_held;
      over = λ e. g;
    },
    omega arith,
  )
