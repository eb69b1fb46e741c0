-- ===== src/Units/Output/Sound.antt =====
-- core/unit/soft.go: what holds of an output's unit at every time, and a step of the output.
use neptunus.Base.{
  ℕ, zero, suc, refl, [], ◌∷◌, ◌+◌, ◌≡◌, sym, ◌∙◌, ap, true, false, ◌&&◌, List, arith, Bool-cases,
  inl, inr,
}
use neptunus.Units.{
  Event, Channel, Stage, Chain, plugin, filter, head, all_exited, Effect, quiet, ended, outward,
  dropping, processes, fetch, drop, return,
}
use neptunus.Units.Safety.{
  Safe, Safe-blocked, Safe-stepped, Safe-bind, Safe-guard, count, occurs, in_stage, in_chain, Ended,
  Linked, last_exited, send-Safe, close-Safe,
}
use neptunus.Units.Stages.{Ended-running, running_open, Stepped, chain_step-Safe}
use neptunus.Units.Runs.{both, counted, true-ne-false}
use neptunus.Units.Output.{
  OutUnit, OutputAction, output_take, output_done, output_keep, output_exit, output_release, pick,
  is_empty, keep, apply, output_step, Action, feed,
}

-- Both channels are closed exactly when the output has ended, and `Run` returns when all goroutines
-- have ended.
pub record IsSound (u : OutUnit) : Type 0 where
  pub linked : Linked u.chain
  pub rejects_ended : Ended u.rejected
  pub rejects_closed : u.rejected.input.closed ≡ last_exited u.chain
  pub none_held : last_exited u.chain ≡ true → u.held ≡ []
  pub done_ended : Ended u.processed
  pub done_closed : u.processed.input.closed ≡ last_exited u.chain
  pub over :
      u.returned ≡ true → (all_exited u.chain && u.rejected.exited && u.processed.exited) ≡ true

head_closed : (c : Chain) → Linked c → all_exited c ≡ true → (head c).closed ≡ true
unfolding all_exited
head_closed (plugin s) l e = l.closed e
head_closed (filter s c) (h, k, l) e = h.closed (both e).0

-- The processor ends last.
last-all_exited : (c : Chain) → Linked c → last_exited c ≡ true → all_exited c ≡ true
unfolding all_exited last_exited
last-all_exited (plugin s) l e = e
last-all_exited (filter s c) (h, k, l) e =
    let others = last-all_exited c l e in
    let ends : s.exited ≡ true = sym k ∙ head_closed c l others in ground (arith, ends, others)

pub all-last_exited : (c : Chain) → all_exited c ≡ true → last_exited c ≡ true
unfolding all_exited last_exited
all-last_exited (plugin s) e = e
all-last_exited (filter s c) e = all-last_exited c (both e).1

empty_held : (es : List Event) → is_empty es ≡ true → es ≡ []
unfolding is_empty
empty_held [] e = refl
empty_held (e' ∷ es) e = absurd (true-ne-false (sym e))

last_running : (c : Chain) → Linked c → all_exited c ≡ false → last_exited c ≡ false
last_running c l r = elim (Bool-cases (last_exited c)) [
  | inl e ↦ absurd (true-ne-false (sym (last-all_exited c l e) ∙ r))
  | inr e ↦ e
]

not_over : (u : OutUnit) → IsSound u → all_exited u.chain ≡ false → u.returned ≡ true → ⊥
not_over u h r e = true-ne-false (sym (both (both (h.over e)).0).0 ∙ r)

-- The stage of a channel that is open, with another channel.
pub reopened :
    (s : Stage) (q : Channel) → Ended s → s.input.closed ≡ false → Ended (record s { input = q })
reopened s q h o = Ended-running _ (running_open s h o)

module _ (x : Event) where
  abbrev pub in_unit : OutUnit → ℕ
  in_unit u =
      in_chain x u.chain
      + count x u.held
      + in_stage x u.rejected
      + in_stage x u.processed
      + count x u.finished

  abbrev pub added : Action → ℕ
  added (feed e) = occurs x e
  added _ = 0

  abbrev pub Goes : ℕ → OutUnit → OutUnit → Type 0
  Goes extra u u' = IsSound u' × (in_unit u' ≡ in_unit u + extra)

  pub apply-Safe :
      (extra : ℕ) (u : OutUnit) (r : Effect × Chain)
      → IsSound u
      → Stepped x extra u.chain r
      → Safe (Goes extra u) (apply r.0 (record u { chain = r.1 }))
  unfolding apply
  apply-Safe extra u (quiet, c) h p = Safe-stepped _ _ (
    record {
      linked = p.linked;
      rejects_ended = h.rejects_ended;
      rejects_closed = cc;
      done_ended = h.done_ended;
      done_closed = cc;
      none_held = λ e. h.none_held (sym p.fits ∙ e);
      over = λ e. absurd (not_over u h p.running e);
    },
    omega (arith, p.weighs),
  )
  apply-Safe extra u (outward e, c) h p =
      let o : u.rejected.input.closed ≡ false =
        h.rejects_closed ∙ last_running u.chain h.linked p.running in
      Safe-bind _ _ _ _ (send-Safe x e u.rejected.input o) λ q p'. Safe-stepped _ _ (
        record {
          linked = p.linked;
          rejects_ended = reopened u.rejected q h.rejects_ended o;
          rejects_closed = p'.0 ∙ sym (p.fits ∙ last_running u.chain h.linked p.running);
          done_ended = h.done_ended;
          done_closed = cc;
          none_held = λ e. h.none_held (sym p.fits ∙ e);
          over = λ e. absurd (not_over u h p.running e);
        },
        omega (arith, p.weighs, p'.1),
      )
  apply-Safe extra u (dropping e, c) h p =
      let o : u.processed.input.closed ≡ false = h.done_closed ∙ p.fits.0 in
      Safe-bind _ _ _ _ (send-Safe x e u.processed.input o) λ q p'. Safe-stepped _ _ (
        record {
          linked = p.linked;
          rejects_ended = h.rejects_ended;
          rejects_closed = h.rejects_closed ∙ p.fits.0 ∙ sym p.fits.1;
          done_ended = reopened u.processed q h.done_ended o;
          done_closed = p'.0 ∙ sym p.fits.1;
          none_held = λ e. absurd (true-ne-false (sym e ∙ p.fits.1));
          over = λ e. absurd (not_over u h p.running e);
        },
        omega (arith, p.weighs, p'.1),
      )
  apply-Safe extra u (ended, c) h p =
      let o : u.rejected.input.closed ≡ false = h.rejects_closed ∙ p.fits.0 in
      let o' : u.processed.input.closed ≡ false = h.done_closed ∙ p.fits.0 in
      Safe-guard _ _ _ λ g. Safe-bind _ _ _ _ (close-Safe x u.rejected.input o) λ r p₁.
        Safe-bind _ _ _ _ (close-Safe x u.processed.input o') λ q p₂. Safe-stepped _ _ (
          record {
            linked = p.linked;
            rejects_ended = reopened u.rejected r h.rejects_ended o;
            rejects_closed = p₁.0 ∙ sym p.fits.1;
            done_ended = reopened u.processed q h.done_ended o';
            done_closed = p₂.0 ∙ sym p.fits.1;
            none_held = λ e. empty_held u.held g;
            over = λ e. absurd (not_over u h p.running e);
          },
          let same = ap (count x) p₁.1 in
              let same' = ap (count x) p₂.1 in omega (arith, p.weighs, same, same'),
        )

  keep-Safe :
      (u : OutUnit) (r : Effect × Chain)
      → IsSound u
      → Stepped x 0 u.chain r
      → Safe (Goes 0 u) (keep r.0 (record u { chain = r.1 }))
  unfolding keep
  keep-Safe u (quiet, c) h p = Safe-blocked _
  keep-Safe u (outward e, c) h p = Safe-blocked _
  keep-Safe u (ended, c) h p = Safe-blocked _
  keep-Safe u (dropping e, c) h p = Safe-stepped _ _ (
    record {
      linked = p.linked;
      rejects_ended = h.rejects_ended;
      rejects_closed = h.rejects_closed ∙ p.fits.0 ∙ sym p.fits.1;
      done_ended = h.done_ended;
      done_closed = h.done_closed ∙ p.fits.0 ∙ sym p.fits.1;
      none_held = λ e. absurd (true-ne-false (sym e ∙ p.fits.1));
      over = λ e. absurd (not_over u h p.running e);
    },
    let more = counted x e u.held in omega (arith, p.weighs, more),
  )

  pick-Safe :
      (i : ℕ) (es : List Event)
      → Safe (λ r. (is_empty es ≡ false) × (count x r.1 + occurs x r.0 ≡ count x es)) (pick i es)
  unfolding pick count is_empty
  pick-Safe i [] = Safe-blocked _
  pick-Safe zero (e ∷ es) = Safe-stepped _ _ (refl, omega arith)
  pick-Safe (suc i) (e ∷ es) =
      Safe-bind _ _ _ _ (pick-Safe i es) λ r p. Safe-stepped _ _ (refl, omega (arith, p.1))

  -- An output that keeps an event has not ended.
  holding_running :
      (u : OutUnit) → IsSound u → is_empty u.held ≡ false → last_exited u.chain ≡ false
  unfolding is_empty
  holding_running u h e = elim (Bool-cases (last_exited u.chain)) [
    | inl o ↦ absurd (true-ne-false (sym (ap is_empty (h.none_held o)) ∙ e))
    | inr o ↦ o
  ]

  release-Safe :
      (i : ℕ) (u : OutUnit) → IsSound u → Safe (Goes 0 u) (output_step (output_release i) u)
  unfolding output_step apply
  release-Safe i u h = Safe-bind _ _ _ _ (pick-Safe i u.held) λ r p.
      let runs : last_exited u.chain ≡ false = holding_running u h p.0 in
      let o : u.processed.input.closed ≡ false = h.done_closed ∙ runs in
      Safe-bind _ _ _ _ (send-Safe x r.0 u.processed.input o) λ q p'. Safe-stepped _ _ (
        record {
          linked = h.linked;
          rejects_ended = h.rejects_ended;
          rejects_closed = h.rejects_closed;
          done_ended = reopened u.processed q h.done_ended o;
          done_closed = p'.0 ∙ sym runs;
          none_held = λ e. absurd (true-ne-false (sym e ∙ runs));
          over = λ e.
              absurd
                (true-ne-false (sym (all-last_exited u.chain (both (both (h.over e)).0).0) ∙ runs));
        },
        omega (arith, p.1, p'.1),
      )

  pub output_step-Safe :
      (a : OutputAction) (u : OutUnit) → IsSound u → Safe (Goes 0 u) (output_step a u)
  unfolding output_step
  output_step-Safe output_take u h =
      Safe-bind _ _ _ _ (chain_step-Safe x (processes fetch) u.chain h.linked)
        λ r p. apply-Safe 0 u r h p
  output_step-Safe output_done u h =
      Safe-bind _ _ _ _ (chain_step-Safe x (processes drop) u.chain h.linked)
        λ r p. apply-Safe 0 u r h p
  output_step-Safe output_keep u h =
      Safe-bind _ _ _ _ (chain_step-Safe x (processes drop) u.chain h.linked)
        λ r p. keep-Safe u r h p
  output_step-Safe output_exit u h =
      Safe-bind _ _ _ _ (chain_step-Safe x (processes return) u.chain h.linked)
        λ r p. apply-Safe 0 u r h p
  output_step-Safe (output_release i) u h = release-Safe i u h
