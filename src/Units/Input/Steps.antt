-- ===== src/Units/Input/Steps.antt =====
-- core/unit/soft.go: what a step of an input's unit does.
use neptunus.Base.{
  ℕ, zero, suc, ◌+◌, ◌≡◌, refl, sym, ◌∙◌, ap, true, false, ◌&&◌, Option, none, arith, Bool-cases,
  inl, inr,
}
use neptunus.Units.{
  Event, Channel, Stage, Chain, plugin, filter, head, with_head, Effect, quiet, ended, outward,
  dropping, FilterAction, take, accept, reject, exit, filter_step, filters, chain_step,
}
use neptunus.Units.Safety.{
  Safe, Safe-blocked, Safe-stepped, Safe-bind, Safe-guard, Safe-both, count, occurs, in_stage,
  in_chain, Ended, Linked, send-Safe, close-Safe, receive-Safe, give-Safe, leave-Safe,
}
use neptunus.Units.Stages.{
  Stepped, chain_step-Safe, with_head-Linked, in_chain-with_head, head-with_head,
}
use neptunus.Units.Runs.{both, true-ne-false}
use neptunus.Units.Output.Sound.{reopened}
use neptunus.Units.Output.Steps.{done_step-Safe}
use neptunus.Units.Input.{
  InUnit, filters_exited, apply, Action, emit, input_exit, signal, close_rejected, finish,
  filter_acts, rejected_acts, step,
}

-- What the outgoing channel's stage has in hand: nothing, as it takes no steps.
unfoldable pub last_hand : Chain → Option Event
last_hand (plugin s) = s.hand
last_hand (filter s c) = last_hand c

-- The input's channel is closed exactly when the input has ended. The channel of rejected events is
-- closed only when the filters have ended too, and the unit is left only when that channel has been
-- read to its end.
pub record IsSound (u : InUnit) : Type 0 where
  pub linked : Linked u.chain
  pub fed : (head u.chain).closed ≡ u.over
  pub idle : last_hand u.chain ≡ none
  pub rejects_ended : Ended u.rejected
  pub rejects_closed : u.rejected.input.closed ≡ true → (u.over && filters_exited u.chain) ≡ true
  pub left : u.returned ≡ true → u.rejected.exited ≡ true

last_hand-with_head : (c : Chain) (q : Channel) → last_hand (with_head c q) ≡ last_hand c
unfolding last_hand
last_hand-with_head (plugin s) q = refl
last_hand-with_head (filter s c) q = refl

filters_exited-with_head :
    (c : Chain) (q : Channel) → filters_exited (with_head c q) ≡ filters_exited c
unfolding filters_exited
filters_exited-with_head (plugin s) q = refl
filters_exited-with_head (filter s c) q = refl

-- A filter that steps is running, and leaves the outgoing channel's stage idle.
abbrev Moves : Chain → Effect × Chain → Type 0
Moves c r = (filters_exited c ≡ false) × (last_hand r.1 ≡ last_hand c)

module _ (x : Event) where
  filter_step-Moves :
      (a : FilterAction) (s : Stage) (c : Chain)
      → Linked (filter s c)
      → Safe (Moves (filter s c)) (filter_step a s c)
  unfolding filter_step filters_exited last_hand
  filter_step-Moves take s c (h, k, l) =
      Safe-bind _ _ _ _ (receive-Safe x s) λ s' p. Safe-stepped _ _ (rw p.0.1 refl, refl)
  filter_step-Moves accept s c (h, k, l) = Safe-bind _ _ _ _ (give-Safe x s h) λ r p.
      Safe-bind _ _ _ _ (send-Safe x r.0 (head c) cc)
        λ q p'. Safe-stepped _ _ (rw p.0.1 refl, last_hand-with_head c q)
  filter_step-Moves reject s c (h, k, l) =
      Safe-bind _ _ _ _ (give-Safe x s h) λ r p. Safe-stepped _ _ (rw p.0.1 refl, refl)
  filter_step-Moves exit s c (h, k, l) = Safe-bind _ _ _ _ (leave-Safe x s) λ s' p.
      Safe-bind _ _ _ _ (close-Safe x (head c) cc)
        λ q p'. Safe-stepped _ _ (rw p.0.1 refl, last_hand-with_head c q)

  filters-Moves :
      (i : ℕ) (a : FilterAction) (c : Chain)
      → Linked c
      → Safe (Moves c) (chain_step (filters i a) c)
  unfolding chain_step filters_exited last_hand
  filters-Moves i a (plugin s) l = Safe-blocked _
  filters-Moves zero a (filter s c) l = filter_step-Moves a s c l
  filters-Moves (suc i) a (filter s c) l =
      Safe-bind _ _ _ _ (filters-Moves i a c l.2) λ r p. Safe-stepped _ _ (ground (arith, p.0), p.1)

  abbrev pub in_unit : InUnit → ℕ
  in_unit u = in_chain x u.chain + in_stage x u.rejected + count x u.finished

  abbrev pub added : Action → ℕ
  added (emit e) = occurs x e
  added _ = 0

  abbrev pub Goes : ℕ → InUnit → InUnit → Type 0
  Goes extra u u' = IsSound u' × (in_unit u' ≡ in_unit u + extra)

  rejects_open :
      (u : InUnit)
      → IsSound u
      → (u.over && filters_exited u.chain) ≡ false
      → u.rejected.input.closed ≡ false
  rejects_open u h r = elim (Bool-cases u.rejected.input.closed) [
    | inl e ↦ absurd (true-ne-false (sym (h.rejects_closed e) ∙ r))
    | inr e ↦ e
  ]

  apply-Safe :
      (u : InUnit) (r : Effect × Chain)
      → IsSound u
      → Stepped x 0 u.chain r × Moves u.chain r
      → Safe (Goes 0 u) (apply r.0 (record u { chain = r.1 }))
  unfolding apply
  apply-Safe u (quiet, c) h (p, m) =
      let o = rejects_open u h (ground (arith, m.0)) in
      Safe-stepped _ _ (
        record {
          linked = p.linked;
          fed = p.same_head ∙ h.fed;
          idle = m.1 ∙ h.idle;
          rejects_ended = h.rejects_ended;
          rejects_closed = λ e. absurd (true-ne-false (sym e ∙ o));
          left = h.left;
        },
        omega (arith, p.weighs),
      )
  apply-Safe u (outward e, c) h (p, m) =
      let o = rejects_open u h (ground (arith, m.0)) in
      Safe-bind _ _ _ _ (send-Safe x e u.rejected.input o) λ q p'. Safe-stepped _ _ (
        record {
          linked = p.linked;
          fed = p.same_head ∙ h.fed;
          idle = m.1 ∙ h.idle;
          rejects_ended = reopened u.rejected q h.rejects_ended o;
          rejects_closed = λ e. absurd (true-ne-false (sym e ∙ p'.0));
          left = h.left;
        },
        omega (arith, p.weighs, p'.1),
      )
  apply-Safe u (dropping e, c) h p = Safe-blocked _
  apply-Safe u (ended, c) h p = Safe-blocked _

  -- From a sound unit no step panics, and a step that is made keeps the unit sound and every event.
  pub step-Safe : (a : Action) (u : InUnit) → IsSound u → Safe (Goes (added a) u) (step a u)
  unfolding step
  step-Safe (emit e) u h = Safe-guard _ _ _ λ g.
      let runs : u.over ≡ false = ground (arith, g) in
      let o : (head u.chain).closed ≡ false = h.fed ∙ runs in
      Safe-bind _ _ _ _ (send-Safe x e (head u.chain) o) λ q p. Safe-stepped _ _ (
        record {
          linked = with_head-Linked u.chain q h.linked o;
          fed = rw (head-with_head u.chain q) (p.0 ∙ sym runs);
          idle = last_hand-with_head u.chain q ∙ h.idle;
          rejects_ended = h.rejects_ended;
          rejects_closed = λ e. absurd (true-ne-false (sym (both (h.rejects_closed e)).0 ∙ runs));
          left = h.left;
        },
        omega (arith, p.1, in_chain-with_head x u.chain q),
      )
  step-Safe input_exit u h = Safe-guard _ _ _ λ g.
      let runs : u.over ≡ false = ground (arith, g) in
      let o : (head u.chain).closed ≡ false = h.fed ∙ runs in
      Safe-bind _ _ _ _ (close-Safe x (head u.chain) o) λ q p. Safe-stepped _ _ (
        record {
          linked = with_head-Linked u.chain q h.linked o;
          fed = rw (head-with_head u.chain q) p.0;
          idle = last_hand-with_head u.chain q ∙ h.idle;
          rejects_ended = h.rejects_ended;
          rejects_closed = λ e. absurd (true-ne-false (sym (both (h.rejects_closed e)).0 ∙ runs));
          left = h.left;
        },
        let same = ap (count x) p.1 in omega (arith, same, in_chain-with_head x u.chain q),
      )
  step-Safe signal u h = Safe-stepped _ _ (
    record {
      linked = h.linked;
      fed = h.fed;
      idle = h.idle;
      rejects_ended = h.rejects_ended;
      rejects_closed = h.rejects_closed;
      left = h.left;
    },
    omega arith,
  )
  step-Safe (filter_acts i a) u h =
      Safe-bind _ _ _ _
        (Safe-both _ _ _ (chain_step-Safe x (filters i a) u.chain h.linked)
          (filters-Moves i a u.chain h.linked))
        λ r p. apply-Safe u r h p
  step-Safe (rejected_acts a) u h =
      Safe-bind _ _ _ _ (done_step-Safe x a u.rejected u.finished h.rejects_ended) λ r p.
        Safe-stepped _ _ (
          record {
            linked = h.linked;
            fed = h.fed;
            idle = h.idle;
            rejects_ended = p.0;
            rejects_closed = λ e. h.rejects_closed (sym p.2 ∙ e);
            left = λ e. absurd (true-ne-false (sym (h.left e) ∙ p.1));
          },
          omega (arith, p.3),
        )
  step-Safe close_rejected u h = Safe-guard _ _ _ λ g. Safe-guard _ _ _ λ g'.
      let o : u.rejected.input.closed ≡ false = ground (arith, g') in
      Safe-bind _ _ _ _ (close-Safe x u.rejected.input o) λ q p. Safe-stepped _ _ (
        record {
          linked = h.linked;
          fed = h.fed;
          idle = h.idle;
          rejects_ended = reopened u.rejected q h.rejects_ended o;
          rejects_closed = λ e. (both g).1;
          left = h.left;
        },
        let same = ap (count x) p.1 in omega (arith, same),
      )
  step-Safe finish u h = Safe-guard _ _ _ λ g. Safe-stepped _ _ (
    record {
      linked = h.linked;
      fed = h.fed;
      idle = h.idle;
      rejects_ended = h.rejects_ended;
      rejects_closed = h.rejects_closed;
      left = λ e. g;
    },
    omega arith,
  )
