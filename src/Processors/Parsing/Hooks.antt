-- ===== src/Processors/Parsing/Hooks.antt =====
-- plugins/processors/parser/parser.go: the events that the processor sends and drops, and their tracker.
use neptunus.Base.{
  ℕ, suc, ◌+◌, ◌<◌, ◌≡◌, refl, ap, ◌∙◌, Bool, true, false, Option, none, some, List, [], ◌∷◌, ◌++◌,
  ok, length, length-append, get_elem?, arith, Option-cases, Result-cases, inl, inr, nat_beq,
  if◌then◌else◌, joined,
}
use neptunus.Core.Fields.{Error, MapPath}
use neptunus.Core.Tracker.{Tracker, calls, int32_sign}
use neptunus.Core.Event.{Event, Heap, Address, get_field, stack_error}
use neptunus.Core.Event.Sharing.{finish_all, Holds, finish_all-hooks}
use neptunus.Processors.Parsing.{
  Parser, Behaviour, merge, produce, Parsing, Sent, merged, spread, alone, parse_event,
}
use neptunus.Processors.Parsing.Spread.{
  Holds-append, later, produce_each-Holds, merge_each-Spread, Spread,
}

module _ {D : Type 0} where
  -- n + 1 events hold a tracker with duty n + 1.
  all_done :
      (a : Address) (es : List (Event D)) (h : Heap) (t : Tracker) (n : ℕ)
      → Holds a es
      → length es ≡ suc n
      → get_elem? h a ≡ some (record t { duty = t.duty + n })
      → t.duty ≡ 1
      → n + 1 < int32_sign
      → (finish_all es h).1 ≡ calls t.hook
  all_done a es h t n holds len at one bound =
      finish_all-hooks a es h (record t { duty = t.duty + n }) n holds at (omega arith)
        (omega arith) (omega arith)
      ∙ ap (λ k. calls (if nat_beq k (suc n) then t.hook else [])) len
      ∙ ground arith

module _ (M : MapPath) (P : Parsing M) where
  open M use {Any}

  -- What is sent and what is dropped, together, calls the hooks once.
  abbrev pub Finishes : Tracker → Sent M × Heap → Type 0
  Finishes t r = (finish_all (r.0.out ++ r.0.drop) r.1).1 ≡ calls t.hook

  merged-Finishes :
      (a : Address) (t : Tracker) (bound : ℕ) (e : Event Any) (r : Sent M × Option Error) (h : Heap)
      → Spread M P a t bound r.0 h
      → e.tracker ≡ some a
      → t.duty ≡ 1
      → bound + 1 < int32_sign
      → Finishes t (merged M P e r, h)
  unfolding stack_error
  merged-Finishes a t bound e (s, none) h w tr one b =
      let dropped = Holds-append a s.drop (e ∷ []) w.dropped (tr, tt) in
      all_done a (s.out ++ (s.drop ++ e ∷ [])) h t w.copies (Holds-append a s.out _ w.sent dropped)
        (omega (
          arith,
          length-append s.out (s.drop ++ e ∷ []),
          length-append s.drop (e ∷ []),
          w.together,
        ))
        w.counted one (omega (arith, w.bounded))
  merged-Finishes a t bound e (s, some x) h w tr one b =
      let e' = stack_error (joined ("error set field: " ∷ x ∷ [])) e in
      let sent = Holds-append a s.out (e' ∷ []) w.sent (tr, tt) in
      all_done a ((s.out ++ e' ∷ []) ++ s.drop) h t w.copies
        (Holds-append a _ s.drop sent w.dropped)
        (omega (
          arith,
          length-append (s.out ++ e' ∷ []) s.drop,
          length-append s.out (e' ∷ []),
          w.together,
        ))
        w.counted one (omega (arith, w.bounded))

  produced-Finishes :
      (a : Address) (t : Tracker) (e : Event Any) (events : List (Event Any)) (h : Heap) (n : ℕ)
      (gone : Bool)
      → Holds a events
      → length events ≡ n
      → get_elem? h a ≡ some (record t { duty = t.duty + n })
      → e.tracker ≡ some a
      → t.duty ≡ 1
      → n + 1 < int32_sign
      → Finishes t (
        if gone
            then record { out = events; drop = e ∷ [] }
            else record { out = events ++ e ∷ []; drop = [] },
        h,
      )
  produced-Finishes a t e events h n true w len at tr one b =
      all_done a (events ++ e ∷ []) h t n (Holds-append a events (e ∷ []) w (tr, tt))
        (omega (arith, length-append events (e ∷ []))) at one b
  produced-Finishes a t e events h n false w len at tr one b =
      all_done a ((events ++ e ∷ []) ++ []) h t n
        (Holds-append a _ [] (Holds-append a events (e ∷ []) w (tr, tt)) tt)
        (omega (arith, length-append (events ++ e ∷ []) [], length-append events (e ∷ []))) at one b

  spread-Finishes :
      (b : Behaviour) (p : Parser) (u : ℕ → ℕ) (donors : List Any) (e : Event Any) (h : Heap)
      (a : Address) (t : Tracker)
      → e.tracker ≡ some a
      → get_elem? h a ≡ some t
      → t.duty ≡ 1
      → length donors + 1 < int32_sign
      → Finishes t (spread M P (record p { behaviour = b }) u donors e h)
  unfolding spread
  spread-Finishes produce p u donors e h a t tr g one bound =
      let (w, len, at) = produce_each-Holds M P p.ider u 0 donors e h a t tr g (omega arith) in
      produced-Finishes a t e _ _ (length donors) p.drop_origin w len at tr one bound
  spread-Finishes merge p u donors e h a t tr g one bound =
      let w =
        merge_each-Spread M P (record p { behaviour = merge }) u 0 donors e h a t tr g
          (omega arith) in
      merged-Finishes a t (length donors) e _ _ w tr one bound

  alone-Finishes :
      (a : Address) (t : Tracker) (e : Event Any) (h : Heap)
      → e.tracker ≡ some a
      → get_elem? h a ≡ some t
      → t.duty ≡ 1
      → Finishes t (alone M P e, h)
  alone-Finishes a t e h tr g one =
      all_done a (e ∷ []) h t 0 (tr, tt) refl (g ∙ later M P t _ _ (omega arith)) one (omega arith)

  -- If an event is the only holder of its tracker, then whatever becomes of it - it is passed on, it
  -- fails, its copies replace it or go with it, or a copy fails half-way - `Done` of all that the
  -- processor sends and drops calls the hooks of the tracker once and does not panic, where the parser
  -- makes fewer events than an int32 counts.
  pub parse_event-hooks :
      (p : Parser) (u : ℕ → ℕ) (e : Event Any) (h : Heap) (a : Address) (t : Tracker)
      → e.tracker ≡ some a
      → get_elem? h a ≡ some t
      → t.duty ≡ 1
      → ((field : P.Bytes) (donors : List Any)
          → P.parse field e.routing_key ≡ ok donors
          → length donors + 1 < int32_sign)
      → (finish_all
          ((parse_event M P p u e h).0.out ++ (parse_event M P p u e h).0.drop)
          (parse_event M P p u e h).1).1
        ≡ calls t.hook
  unfolding parse_event stack_error
  parse_event-hooks p u e h a t tr g one bound = elim (Result-cases (get_field M p.from e)) [
    | inr (x, bad) ↦ rw (parse_event, bad) (alone-Finishes a t e h tr g one)
    | inl (raw, found) ↦ elim (Option-cases (P.bytes_of raw)) [
      | inl other ↦ rw (parse_event, found, other) (alone-Finishes a t e h tr g one)
      | inr (field, text) ↦ elim (Result-cases (P.parse field e.routing_key)) [
        | inr (x, bad) ↦
            rw (parse_event, found, text, bad) (alone-Finishes a t (stack_error x e) h tr g one)
        | inl (donors, good) ↦
            rw (parse_event, found, text, good)
              (spread-Finishes p.behaviour p u donors e h a t tr g one (bound field donors good))
      ]
    ]
  ]
