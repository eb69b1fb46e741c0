-- ===== src/Units/Stages.antt =====
-- core/unit/soft.go: what a step of a filter or of the processor does.
use neptunus.Base.{
  ℕ, zero, suc, ◌+◌, ◌≡◌, refl, Bool, true, false, arith, Bool-cases, inl, inr, ap, ◌∙◌,
}
use neptunus.Units.{
  Event, Channel, Stage, Chain, plugin, filter, head, with_head, Effect, quiet, ended, outward,
  dropping, FilterAction, take, accept, reject, exit, filter_step, ProcessorAction, fetch, pass,
  drop, return, emit, discard, processor_step, ChainAction, filters, processes, chain_step,
  all_exited,
}
use neptunus.Units.Safety.{
  Safe, Safe-blocked, Safe-stepped, Safe-bind, Safe-guard, count, occurs, in_chain, carried, Ended,
  Linked, last_exited, send-Safe, close-Safe, receive-Safe, give-Safe, leave-Safe,
}

-- How an effect goes with the end of the processor: it closes the channel of dropped events as it
-- ends, and sends to it only before.
abbrev pub Fits : Effect → Bool → Bool → Type 0
Fits quiet before after = after ≡ before
Fits (outward e) before after = after ≡ before
Fits (dropping e) before after = (before ≡ false) × (after ≡ false)
Fits ended before after = (before ≡ false) × (after ≡ true)

abbrev pub emitted : Event → ChainAction → ℕ
emitted x (processes (emit e)) = occurs x e
emitted x (processes (discard e)) = occurs x e
emitted x (processes _) = 0
emitted x (filters i a) = 0

-- A step from the chain `c`, with so many events of `x` more.
pub record Stepped (x : Event) (extra : ℕ) (c : Chain) (r : Effect × Chain) : Type 0 where
  pub linked : Linked r.1
  pub same_head : (head r.1).closed ≡ (head c).closed
  pub running : all_exited c ≡ false
  pub fits : Fits r.0 (last_exited c) (last_exited r.1)
  pub weighs : carried x r.0 + in_chain x r.1 ≡ in_chain x c + extra

pub running_open : (s : Stage) → Ended s → s.input.closed ≡ false → s.exited ≡ false
running_open s h o = elim (Bool-cases s.exited) [
  | inl e ↦ absurd (let q = h.closed e in cc)
  | inr e ↦ e
]

pub Ended-running : (s : Stage) → s.exited ≡ false → Ended s
Ended-running s e = record {
  closed = λ q. absurd cc;
  empty = λ q. absurd cc;
  free = λ q. absurd cc;
}

pub with_head-Linked :
    (c : Chain) (q : Channel) → Linked c → (head c).closed ≡ false → Linked (with_head c q)
with_head-Linked (plugin s) q l o = Ended-running _ (running_open s l o)
with_head-Linked (filter s c) q l o = (Ended-running _ (running_open s l.0 o), l.1, l.2)

pub head-with_head : (c : Chain) (q : Channel) → head (with_head c q) ≡ q
head-with_head (plugin s) q = refl
head-with_head (filter s c) q = refl

module _ (x : Event) where
  pub in_chain-with_head :
      (c : Chain) (q : Channel)
      → in_chain x (with_head c q) + count x (head c).buffer ≡ in_chain x c + count x q.buffer
  unfolding in_chain
  in_chain-with_head (plugin s) q = omega arith
  in_chain-with_head (filter s c) q = omega arith

  pub last_exited-with_head :
      (c : Chain) (q : Channel) → last_exited (with_head c q) ≡ last_exited c
  unfolding last_exited
  last_exited-with_head (plugin s) q = refl
  last_exited-with_head (filter s c) q = refl

  pub all_exited-with_head : (c : Chain) (q : Channel) → all_exited (with_head c q) ≡ all_exited c
  unfolding all_exited
  all_exited-with_head (plugin s) q = refl
  all_exited-with_head (filter s c) q = refl

  filter_step-Safe :
      (a : FilterAction) (s : Stage) (c : Chain)
      → Linked (filter s c)
      → Safe (Stepped x 0 (filter s c)) (filter_step a s c)
  unfolding filter_step all_exited last_exited in_chain
  filter_step-Safe take s c (h, k, l) = Safe-bind _ _ _ _ (receive-Safe x s) λ s' p.
      Safe-stepped _ _ (record {
        linked = (p.0.0, cc, l);
        same_head = p.0.2;
        running = rw p.0.1 refl;
        fits = refl;
        weighs = omega (arith, p.2);
      })
  filter_step-Safe accept s c (h, k, l) = Safe-bind _ _ _ _ (give-Safe x s h) λ r p.
      Safe-bind _ _ _ _ (send-Safe x r.0 (head c) cc) λ q p'. Safe-stepped _ _ (record {
        linked = (p.0.0, rw (head-with_head c q) cc, with_head-Linked c q l cc);
        same_head = p.0.2;
        running = rw p.0.1 refl;
        fits = last_exited-with_head c q;
        weighs = omega (arith, p.2, p'.1, in_chain-with_head c q);
      })
  filter_step-Safe reject s c (h, k, l) = Safe-bind _ _ _ _ (give-Safe x s h) λ r p.
      Safe-stepped _ _ (record {
        linked = (p.0.0, cc, l);
        same_head = p.0.2;
        running = rw p.0.1 refl;
        fits = refl;
        weighs = omega (arith, p.2);
      })
  filter_step-Safe exit s c (h, k, l) = Safe-bind _ _ _ _ (leave-Safe x s) λ s' p.
      Safe-bind _ _ _ _ (close-Safe x (head c) cc) λ q p'. Safe-stepped _ _ (record {
        linked = (p.0.0, rw (head-with_head c q) cc, with_head-Linked c q l cc);
        same_head = p.0.2;
        running = rw p.0.1 refl;
        fits = last_exited-with_head c q;
        weighs = let e = ap (count x) p'.1 in omega (arith, p.2, e, in_chain-with_head c q);
      })

  processor_step-Safe :
      (a : ProcessorAction) (s : Stage)
      → Ended s
      → Safe (Stepped x (emitted x (processes a)) (plugin s)) (processor_step a s)
  unfolding processor_step all_exited last_exited in_chain
  processor_step-Safe fetch s h = Safe-bind _ _ _ _ (receive-Safe x s) λ s' p.
      Safe-stepped _ _ (record {
        linked = p.0.0;
        same_head = p.0.2;
        running = p.0.1;
        fits = cc;
        weighs = omega (arith, p.2);
      })
  processor_step-Safe pass s h = Safe-bind _ _ _ _ (give-Safe x s h) λ r p.
      Safe-stepped _ _ (record {
        linked = p.0.0;
        same_head = p.0.2;
        running = p.0.1;
        fits = cc;
        weighs = omega (arith, p.2);
      })
  processor_step-Safe drop s h = Safe-bind _ _ _ _ (give-Safe x s h) λ r p.
      Safe-stepped _ _ (record {
        linked = p.0.0;
        same_head = p.0.2;
        running = p.0.1;
        fits = (p.0.1, p.1);
        weighs = omega (arith, p.2);
      })
  processor_step-Safe return s h = Safe-bind _ _ _ _ (leave-Safe x s) λ s' p.
      Safe-stepped _ _ (record {
        linked = p.0.0;
        same_head = p.0.2;
        running = p.0.1;
        fits = (p.0.1, p.1);
        weighs = omega (arith, p.2);
      })
  processor_step-Safe (emit e) s h = Safe-guard _ _ _ λ b. Safe-stepped _ _ (record {
    linked = h;
    same_head = refl;
    running = ground (arith, b);
    fits = refl;
    weighs = omega arith;
  })
  processor_step-Safe (discard e) s h = Safe-guard _ _ _ λ b. Safe-stepped _ _ (record {
    linked = h;
    same_head = refl;
    running = ground (arith, b);
    fits = (ground (arith, b), ground (arith, b));
    weighs = omega arith;
  })

  -- A step of a later plugin, with the filter before it.
  behind :
      (extra : ℕ) (s : Stage) (c : Chain) (r : Effect × Chain)
      → Linked (filter s c)
      → Stepped x extra c r
      → Stepped x extra (filter s c) (r.0, filter s r.1)
  unfolding all_exited last_exited in_chain
  behind extra s c r (h, k, l) p = record {
    linked = (h, p.same_head ∙ k, p.linked);
    same_head = refl;
    running = ground (arith, p.running);
    fits = p.fits;
    weighs = omega (arith, p.weighs);
  }

  -- A step of a filter or of the processor never panics, keeps the channels linked, and neither loses
  -- nor repeats an event.
  pub chain_step-Safe :
      (a : ChainAction) (c : Chain) → Linked c → Safe (Stepped x (emitted x a) c) (chain_step a c)
  unfolding chain_step
  chain_step-Safe (filters i a) (plugin s) l = Safe-blocked _
  chain_step-Safe (processes a) (plugin s) l = processor_step-Safe a s l
  chain_step-Safe (filters zero a) (filter s c) l = filter_step-Safe a s c l
  chain_step-Safe (filters (suc i) a) (filter s c) l =
      Safe-bind _ _ _ _ (chain_step-Safe (filters i a) c l.2)
        λ r p. Safe-stepped _ _ (behind _ s c r l p)
  chain_step-Safe (processes a) (filter s c) l =
      Safe-bind _ _ _ _ (chain_step-Safe (processes a) c l.2)
        λ r p. Safe-stepped _ _ (behind _ s c r l p)
