-- ===== src/Processors/Failing.antt =====
-- What the processors template and lookup share: an event that goes through steps which may stack an error, with
-- `hasError` beside it.
use neptunus.Base.{
  ℕ, ◌+◌, ◌≡◌, ◌∙◌, refl, ap, String, ok, inl, inr, Result-cases, Bool, true, ◌||◌, [], ◌∷◌, ltb,
  length, length-append, arith,
}
use neptunus.Core.Fields.{Error, MapPath}
use neptunus.Core.Event.{Event, stack_error, set_label, set_field}

module _ {D : Type 0} where
  pub set_label-errors : (k v : String) (e : Event D) → (set_label k v e).errors ≡ e.errors
  unfolding set_label
  set_label-errors k v e = refl

  -- So many errors were stacked, and the event counts as failed if there was one, or it had failed.
  pub record Stacked (r r' : Event D × Bool) : Type 0 where
    pub errors : ℕ
    pub stacked : length r'.0.errors ≡ length r.0.errors + errors
    pub failed : r'.1 ≡ (r.1 || ltb 0 errors)

  pub Stacked-none : (r r' : Event D × Bool) → r'.0.errors ≡ r.0.errors → r'.1 ≡ r.1 → Stacked r r'
  Stacked-none r r' h k = record {
    errors = 0;
    stacked = ap length h ∙ omega arith;
    failed = k ∙ ground arith;
  }

  pub Stacked-one :
      (e : Event D) (failed : Bool) (x : Error) → Stacked (e, failed) (stack_error x e, true)
  unfolding stack_error
  Stacked-one e failed x = record {
    errors = 1;
    stacked = length-append e.errors (x ∷ []);
    failed = ground arith;
  }

  pub Stacked-trans : (r r' r'' : Event D × Bool) → Stacked r r' → Stacked r' r'' → Stacked r r''
  Stacked-trans r r' r'' h k = record {
    errors = h.errors + k.errors;
    stacked = omega (arith, h.stacked, k.stacked);
    failed = both r.1 r'.1 r''.1 h.errors k.errors h.failed k.failed;
  }
    where
      both :
          (a b c : Bool) (n m : ℕ)
          → b ≡ (a || ltb 0 n)
          → c ≡ (b || ltb 0 m)
          → c ≡ (a || ltb 0 (n + m))
      both a b c n m p q = ground arith

module _ (M : MapPath) where
  open M use {Any}

  pub set_field-errors :
      (k : String) (v : Any) (e e' : Event Any) → set_field M k v e ≡ ok e' → e'.errors ≡ e.errors
  unfolding set_field
  set_field-errors k v e e' h = elim (Result-cases (M.put e.body k v)) [
    | inl (b, good) ↦ (let q = rw good at h in cc)
    | inr (x, bad) ↦ (let q = rw bad at h in absurd cc)
  ]
