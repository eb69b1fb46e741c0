-- ===== src/Processors/Converter/Frame.antt =====
-- plugins/processors/converter/: what the conversions leave of an event.
use neptunus.Base.{
  ℕ, suc, ◌+◌, ◌≡◌, refl, ap, ◌∙◌, String, Bool, true, ◌||◌, ◌&&◌, Option, none, some, List, [],
  ◌∷◌, Result, ok, err, length, length-append, ltb, arith, Bool-cases, Option-cases, Result-cases,
  inl, inr, ◌==◌, string_comparable,
}
use neptunus.Core.Fields.{Error, MapPath}
use neptunus.Core.Event.{Event, get_label, set_label, get_field, set_field, stack_error}
use neptunus.Convert.{Library, Any, err_range}
use neptunus.Processors.Converter.{
  From, from_label, from_field, from_id, from_uuid, from_timestamp, from_routing_key, To, to_id,
  to_routing_key, to_timestamp, to_label, to_string, to_integer, to_unsigned, to_float, to_boolean,
  to_time, to_duration, ConversionParams, Values, put, given, timed_field, put_value,
  from_raw_field, convert_field, convert_text, convert_label, convert_uuid, convert_timestamp,
  convert, convert_all,
}

module _ {D : Type 0} where
  -- The second event is the first in all that no conversion touches.
  pub record Kept (e e' : Event D) : Type 0 where
    pub uuid : e'.uuid ≡ e.uuid
    pub tags : e'.tags ≡ e.tags
    pub errors : e'.errors ≡ e.errors
    pub tracker : e'.tracker ≡ e.tracker

  abbrev Holds : Event D → Result Error (Event D) → Type 0
  Holds e (ok e') = Kept e e'
  Holds e (err x) = Unit {0}

  -- A conversion keeps what none touches, if it succeeds.
  record Keeps (e : Event D) (r : Result Error (Event D)) : Type 0 where
    runs : Holds e r

  Keeps-ok : (e e' : Event D) → Kept e e' → Keeps e (ok e')
  Keeps-ok e e' h = record { runs = h }

  Keeps-err : (e : Event D) (x : Error) → Keeps e (err x)
  Keeps-err e x = record { runs = tt }

  same : (e : Event D) → Kept e e
  same e = record { uuid = refl; tags = refl; errors = refl; tracker = refl }

  set_label-Kept : (k v : String) (e : Event D) → Kept e (set_label k v e)
  unfolding set_label
  set_label-Kept k v e = record { uuid = refl; tags = refl; errors = refl; tracker = refl }

module _ (M : MapPath) (L : Library) (V : Values M L) where
  put-Keeps :
      (words path : String) (v : Any L) (e : Event M.Any) → Keeps e (put M L V words path v e)
  unfolding put set_field
  put-Keeps words path v e = elim (Result-cases (M.put e.body path (V.to_field v))) [
    | inl (b, good) ↦
        rw (put, good)
          (Keeps-ok _ _ (record { uuid = refl; tags = refl; errors = refl; tracker = refl }))
    | inr (x, bad) ↦ rw (put, bad) (Keeps-err _ _)
  ]

  given-Keeps :
      {A : Type 0} (from : String) (r : A × Option Error) (f : A → Event M.Any) (e : Event M.Any)
      → ((a : A) → Kept e (f a))
      → Keeps e (given M L V from r f)
  unfolding given
  given-Keeps from (a, none) f e h = Keeps-ok _ _ (h a)
  given-Keeps from (a, some x) f e h = Keeps-err _ _

  put_value-Keeps :
      (words from : String) (p : ConversionParams) (r : Any L × Option Error) (e : Event M.Any)
      → Keeps e (put_value M L V words from p r e)
  unfolding put_value
  put_value-Keeps words from p (v, none) e = put-Keeps words p.path v e
  put_value-Keeps words from p (v, some x) e = elim (Bool-cases (x == err_range && p.ioor)) [
    | inl ignored ↦ rw (put_value, ignored) (put-Keeps words p.path v e)
    | inr refused ↦ rw (put_value, refused) (Keeps-err _ _)
  ]

  raw_field-Keeps :
      (to : To) (from : String) (raw : M.Any) (p : ConversionParams) (e : Event M.Any)
      → Keeps e (from_raw_field M L V from raw (record p { to = to }) e)
  unfolding from_raw_field
  raw_field-Keeps to_id from raw p e =
      given-Keeps from _ _ e
        (λ a. record { uuid = refl; tags = refl; errors = refl; tracker = refl })
  raw_field-Keeps to_routing_key from raw p e =
      given-Keeps from _ _ e
        (λ a. record { uuid = refl; tags = refl; errors = refl; tracker = refl })
  raw_field-Keeps to_timestamp from raw p e =
      given-Keeps from _ _ e
        (λ a. record { uuid = refl; tags = refl; errors = refl; tracker = refl })
  raw_field-Keeps to_label from raw p e = given-Keeps from _ _ e (λ a. set_label-Kept p.path a e)
  raw_field-Keeps to_string from raw p e = put_value-Keeps _ from (record p { to = to_string }) _ e
  raw_field-Keeps to_integer from raw p e =
      put_value-Keeps _ from (record p { to = to_integer }) _ e
  raw_field-Keeps to_unsigned from raw p e =
      put_value-Keeps _ from (record p { to = to_unsigned }) _ e
  raw_field-Keeps to_float from raw p e = put_value-Keeps _ from (record p { to = to_float }) _ e
  raw_field-Keeps to_boolean from raw p e =
      put_value-Keeps _ from (record p { to = to_boolean }) _ e
  raw_field-Keeps to_time from raw p e = put_value-Keeps _ from (record p { to = to_time }) _ e
  raw_field-Keeps to_duration from raw p e =
      put_value-Keeps _ from (record p { to = to_duration }) _ e

  text-Keeps :
      (to : To) (s from : String) (p : ConversionParams) (e : Event M.Any)
      → Keeps e (convert_text M L V s from (record p { to = to }) e)
  unfolding convert_text
  text-Keeps to_id s from p e =
      Keeps-ok _ _ (record { uuid = refl; tags = refl; errors = refl; tracker = refl })
  text-Keeps to_routing_key s from p e =
      Keeps-ok _ _ (record { uuid = refl; tags = refl; errors = refl; tracker = refl })
  text-Keeps to_timestamp s from p e =
      given-Keeps _ _ _ e (λ a. record { uuid = refl; tags = refl; errors = refl; tracker = refl })
  text-Keeps to_label s from p e = Keeps-ok _ _ (set_label-Kept p.path s e)
  text-Keeps to_string s from p e = put_value-Keeps _ _ (record p { to = to_string }) _ e
  text-Keeps to_integer s from p e = put_value-Keeps _ _ (record p { to = to_integer }) _ e
  text-Keeps to_unsigned s from p e = put_value-Keeps _ _ (record p { to = to_unsigned }) _ e
  text-Keeps to_float s from p e = put_value-Keeps _ _ (record p { to = to_float }) _ e
  text-Keeps to_boolean s from p e = put_value-Keeps _ _ (record p { to = to_boolean }) _ e
  text-Keeps to_time s from p e = put_value-Keeps _ _ (record p { to = to_time }) _ e
  text-Keeps to_duration s from p e = put_value-Keeps _ _ (record p { to = to_duration }) _ e

  uuid-Keeps :
      (to : To) (p : ConversionParams) (e : Event M.Any)
      → Keeps e (convert_uuid M L V (record p { to = to }) e)
  unfolding convert_uuid
  uuid-Keeps to_id p e =
      Keeps-ok _ _ (record { uuid = refl; tags = refl; errors = refl; tracker = refl })
  uuid-Keeps to_routing_key p e =
      Keeps-ok _ _ (record { uuid = refl; tags = refl; errors = refl; tracker = refl })
  uuid-Keeps to_timestamp p e = Keeps-err _ _
  uuid-Keeps to_label p e = Keeps-ok _ _ (set_label-Kept p.path _ e)
  uuid-Keeps to_string p e = put-Keeps _ p.path _ e
  uuid-Keeps to_integer p e = Keeps-err _ _
  uuid-Keeps to_unsigned p e = Keeps-err _ _
  uuid-Keeps to_float p e = Keeps-err _ _
  uuid-Keeps to_boolean p e = Keeps-err _ _
  uuid-Keeps to_time p e = Keeps-err _ _
  uuid-Keeps to_duration p e = Keeps-err _ _

  timed_field-Keeps :
      (from path : String) (r : Any L × Option Error) (e : Event M.Any)
      → Keeps e (timed_field M L V from path r e)
  unfolding timed_field
  timed_field-Keeps from path (v, none) e = put-Keeps _ path v e
  timed_field-Keeps from path (v, some x) e = Keeps-err _ _

  timestamp-Keeps :
      (to : To) (p : ConversionParams) (e : Event M.Any)
      → Keeps e (convert_timestamp M L V (record p { to = to }) e)
  unfolding convert_timestamp
  timestamp-Keeps to_id p e =
      given-Keeps _ _ _ e (λ a. record { uuid = refl; tags = refl; errors = refl; tracker = refl })
  timestamp-Keeps to_routing_key p e =
      given-Keeps _ _ _ e (λ a. record { uuid = refl; tags = refl; errors = refl; tracker = refl })
  timestamp-Keeps to_timestamp p e = Keeps-ok _ _ (same e)
  timestamp-Keeps to_label p e = given-Keeps _ _ _ e (λ a. set_label-Kept p.path a e)
  timestamp-Keeps to_string p e = timed_field-Keeps _ p.path _ e
  timestamp-Keeps to_integer p e = timed_field-Keeps _ p.path _ e
  timestamp-Keeps to_unsigned p e = timed_field-Keeps _ p.path _ e
  timestamp-Keeps to_float p e = Keeps-err _ _
  timestamp-Keeps to_boolean p e = Keeps-err _ _
  timestamp-Keeps to_time p e = put-Keeps _ p.path _ e
  timestamp-Keeps to_duration p e = Keeps-err _ _

  field-Keeps : (p : ConversionParams) (e : Event M.Any) → Keeps e (convert_field M L V p e)
  unfolding convert_field
  field-Keeps p e = elim (Result-cases (get_field M p.path e)) [
    | inl (raw, good) ↦ rw (convert_field, good) (raw_field-Keeps p.to _ raw p e)
    | inr (x, bad) ↦ rw (convert_field, bad) (Keeps-err _ _)
  ]

  label-Keeps : (p : ConversionParams) (e : Event M.Any) → Keeps e (convert_label M L V p e)
  unfolding convert_label
  label-Keeps p e = elim (Option-cases (get_label p.path e)) [
    | inr (label, found) ↦ rw (convert_label, found) (text-Keeps p.to label "label" p e)
    | inl missing ↦ rw (convert_label, missing) (Keeps-err _ _)
  ]

  convert-Keeps :
      (from : From) (p : ConversionParams) (e : Event M.Any)
      → Keeps e (convert M L V (record p { from = from }) e)
  unfolding convert
  convert-Keeps from_label p e = label-Keeps (record p { from = from_label }) e
  convert-Keeps from_field p e = field-Keeps (record p { from = from_field }) e
  convert-Keeps from_id p e = text-Keeps p.to e.id "id" (record p { from = from_id }) e
  convert-Keeps from_uuid p e = uuid-Keeps p.to (record p { from = from_uuid }) e
  convert-Keeps from_timestamp p e = timestamp-Keeps p.to (record p { from = from_timestamp }) e
  convert-Keeps from_routing_key p e =
      text-Keeps p.to e.routing_key "routing key" (record p { from = from_routing_key }) e

  -- Whatever the conversions are, an event that went through all of them has its uuid, its tags and its
  -- tracker, and n errors more than before; the event counts as failed exactly if n is positive or
  -- it had failed before.
  pub convert_all-frame :
      (conversions : List ConversionParams) (failed : Bool) (e : Event M.Any)
      → let r = convert_all M L V conversions failed e in
        (r.0.uuid ≡ e.uuid)
        × (r.0.tags ≡ e.tags)
        × (r.0.tracker ≡ e.tracker)
        × (n : ℕ) × (length r.0.errors ≡ length e.errors + n)
        × (r.1 ≡ (failed || ltb 0 n))
  unfolding convert_all stack_error
  convert_all-frame [] failed e = (refl, refl, refl, 0, omega arith, ground arith)
  convert_all-frame (c ∷ conversions) failed e = elim (Result-cases (convert M L V c e)) [
    | inl (e', good) ↦
        let k = kept e e' (convert M L V c e) (convert-Keeps c.from c e) good in
        let (u, g, t, n, l, b) = convert_all-frame conversions failed e' in
        rw (convert_all, good)
          (u ∙ k.uuid, g ∙ k.tags, t ∙ k.tracker, n, l ∙ ap (λ es. length es + n) k.errors, b)
    | inr (x, bad) ↦
        let (u, g, t, n, l, b) = convert_all-frame conversions true (stack_error x e) in
        rw (convert_all, bad)
          (u, g, t, suc n, l ∙ omega (arith, length-append e.errors (x ∷ [])), b ∙ ground arith)
  ]
    where
      kept :
          (e e' : Event M.Any) (r : Result Error (Event M.Any)) → Keeps e r → r ≡ ok e' → Kept e e'
      kept e e' r h g = (rw g at h).runs
