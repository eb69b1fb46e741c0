-- ===== src/Processors/Parsing/Spread.antt =====
-- plugins/processors/parser/parser.go: the copies of an event that the loops of the processor make, and the duty of
-- its tracker.
use neptunus.Base.{
  ℕ, suc, ◌+◌, ◌<◌, ◌≤◌, ◌≡◌, refl, ap, ◌∙◌, String, Option, none, some, List, [], ◌∷◌, ◌++◌, ok,
  length, get_elem?, arith, Bool-cases, Result-cases, inl, inr,
}
use neptunus.Core.Fields.{MapPath}
use neptunus.Core.Tracker.{Tracker, int32_sign}
use neptunus.Core.Event.{Event, Heap, Address, clone, set_field, delete_field}
use neptunus.Core.Event.Sharing.{Holds}
use neptunus.Processors.Cloning.Outputs.{copy_small, clone-heap}
use neptunus.Processors.Parsing.{
  Parser, Ider, Source, Parsing, Sent, with_id, apply_ider, produce_each, or_same, strip,
  merge_each, no_source, label_source, field_source,
}

module _ {D : Type 0} where
  pub Holds-append :
      (a : Address) (xs ys : List (Event D)) → Holds a xs → Holds a ys → Holds a (xs ++ ys)
  Holds-append a [] ys h k = k
  Holds-append a (x ∷ xs) ys h k = (h.0, Holds-append a xs ys h.1 k)

module _ (M : MapPath) (P : Parsing M) where
  open M use {Any}

  with_id-tracker : (id : Option String) (e : Event Any) → (with_id M P id e).tracker ≡ e.tracker
  with_id-tracker none e = refl
  with_id-tracker (some id) e = refl

  apply_ider-tracker : (i : Ider) (e : Event Any) → (apply_ider M P i e).tracker ≡ e.tracker
  unfolding apply_ider
  apply_ider-tracker i e = go i.source
    where
      go : (s : Source) → (apply_ider M P (record i { source = s }) e).tracker ≡ e.tracker
      go no_source = refl
      go label_source = with_id-tracker _ e
      go field_source = with_id-tracker _ e

  delete_field-tracker :
      (key : String) (e : Event Any) → (or_same M P e (delete_field M key e)).tracker ≡ e.tracker
  unfolding delete_field
  delete_field-tracker key e = elim (Result-cases (M.delete e.body key)) [
    | inl (b, good) ↦ rw good refl
    | inr (x, bad) ↦ rw bad refl
  ]

  strip-tracker : (p : Parser) (e : Event Any) → (strip M P p e).tracker ≡ e.tracker
  unfolding strip
  strip-tracker p e = elim (Bool-cases p.drop_origin) [
    | inl gone ↦ rw (strip, gone) (delete_field-tracker p.from e)
    | inr there ↦ rw (strip, there) refl
  ]

  set_field-tracker :
      (key : String) (v : Any) (e e' : Event Any)
      → set_field M key v e ≡ ok e'
      → e'.tracker ≡ e.tracker
  unfolding set_field
  set_field-tracker key v e e' h = elim (Result-cases (M.put e.body key v)) [
    | inl (b, good) ↦ (let q = rw good at h in cc)
    | inr (x, bad) ↦ (let q = rw bad at h in absurd cc)
  ]

  clone-copied :
      (u : ℕ) (e : Event Any) (h : Heap) (a : Address) (t : Tracker)
      → e.tracker ≡ some a
      → get_elem? h a ≡ some t
      → t.duty + 1 < int32_sign
      → get_elem? (clone M u e h).1 a ≡ some (record t { duty = t.duty + 1 })
  clone-copied u e h a t tr g b = clone-heap M u e h a t tr g ∙ ap (λ s. some s) (copy_small t b)

  pub later :
      (t : Tracker) (n k : ℕ) → n ≡ k → some (record t { duty = n }) ≡ some (record t { duty = k })
  later t n k h = rw h refl

  pub produce_each-Holds :
      (i : Ider) (u : ℕ → ℕ) (n : ℕ) (donors : List Any) (e : Event Any) (h : Heap) (a : Address)
      (t : Tracker)
      → e.tracker ≡ some a
      → get_elem? h a ≡ some t
      → t.duty + length donors < int32_sign
      → let r = produce_each M P i u n donors e h in
        Holds a r.0
        × (length r.0 ≡ length donors)
        × (get_elem? r.1 a ≡ some (record t { duty = t.duty + length donors }))
  unfolding produce_each clone
  produce_each-Holds i u n [] e h a t tr g b = (tt, refl, g ∙ later t _ _ (omega arith))
  produce_each-Holds i u n (donor ∷ donors) e h a t tr g b =
      let (holds, len, at) =
        produce_each-Holds i u (suc n) donors e (clone M (u n) e h).1 a
          (record t { duty = t.duty + 1 }) tr (clone-copied (u n) e h a t tr g (omega arith))
          (omega arith) in
      ((apply_ider-tracker i _ ∙ tr, holds), ap suc len, at ∙ later t _ _ (omega arith))

  -- So many copies have been made, and all were sent or dropped.
  pub record Spread (a : Address) (t : Tracker) (bound : ℕ) (s : Sent M) (h : Heap) : Type 0 where
    pub copies : ℕ
    pub bounded : copies ≤ bound
    pub sent : Holds a s.out
    pub dropped : Holds a s.drop
    pub together : length s.out + length s.drop ≡ copies
    pub counted : get_elem? h a ≡ some (record t { duty = t.duty + copies })

  pub merge_each-Spread :
      (p : Parser) (u : ℕ → ℕ) (n : ℕ) (donors : List Any) (e : Event Any) (h : Heap) (a : Address)
      (t : Tracker)
      → e.tracker ≡ some a
      → get_elem? h a ≡ some t
      → t.duty + length donors < int32_sign
      → let r = merge_each M P p u n donors e h in Spread a t (length donors) r.0.0 r.1
  unfolding merge_each clone
  merge_each-Spread p u n [] e h a t tr g b = record {
    copies = 0;
    bounded = omega arith;
    sent = tt;
    dropped = tt;
    together = omega arith;
    counted = g ∙ later t _ _ (omega arith);
  }
  merge_each-Spread p u n (donor ∷ donors) e h a t tr g b =
      let event = (clone M (u n) e h).0 in
      let copied = clone-copied (u n) e h a t tr g (omega arith) in
      elim (Result-cases (set_field M p.to donor (strip M P p event))) [
        | inr (x, bad) ↦
            rw (merge_each, bad)
              (record {
                copies = 1;
                bounded = omega arith;
                sent = tt;
                dropped = (strip-tracker p event ∙ tr, tt);
                together = omega arith;
                counted = copied;
              })
        | inl (event', good) ↦
            let rest =
              merge_each-Spread p u (suc n) donors e (clone M (u n) e h).1 a
                (record t { duty = t.duty + 1 }) tr copied (omega arith) in
            rw (merge_each, good)
              (record {
                copies = suc rest.copies;
                bounded = omega (arith, rest.bounded);
                sent = (
                  set_field-tracker p.to donor _ event' good ∙ strip-tracker p event ∙ tr,
                  rest.sent,
                );
                dropped = rest.dropped;
                together = omega (arith, rest.together);
                counted = rest.counted ∙ later t _ _ (omega arith);
              })
      ]
