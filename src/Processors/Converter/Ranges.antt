-- ===== src/Processors/Converter/Ranges.antt =====
-- plugins/processors/converter/converter_internal.go: what a conversion leaves as it was, and when an error of range is
-- ignored.
use neptunus.Base.{
  ◌≡◌, ◌≢◌, refl, String, true, false, Option, none, some, Result, ok, err, ==_ne,
  string_comparable,
}
use neptunus.Base.Int.{pos}
use neptunus.Core.Fields.{Error, MapPath}
use neptunus.Core.Event.{Event}
use neptunus.Convert.{Library, Any, text, err_range, of_result, any_to_time}
use neptunus.Processors.Converter.{
  To, to_id, to_routing_key, to_timestamp, to_label, to_string, to_integer, to_unsigned, to_float,
  to_boolean, to_time, to_duration, ConversionParams, Values, put_value, text_value, convert_text,
}

-- What strconv and time return for a text is an error of their own, which may wrap ErrRange, but is not
-- ErrRange itself.
abbrev Wrapped : {A : Type 0} → (String → Result Error A) → Type 0
Wrapped f = (s : String) (e : Error) → f s ≡ err e → e ≢ err_range

pub record IsWrapping (L : Library) : Type 0 where
  pub ints : Wrapped L.parse_int
  pub uints : Wrapped L.parse_uint
  pub floats : Wrapped L.parse_float
  pub bools : Wrapped L.parse_bool
  pub durations : Wrapped L.parse_duration
  pub times :
      (s layout : String) (e : Error) → any_to_time L (text s) layout ≡ err e → e ≢ err_range

module _ (M : MapPath) (L : Library) (V : Values M L) (law : IsWrapping L) where
  -- The error beside a value is not ErrRange.
  abbrev Plain : Option Error → Type 0
  Plain r = (e : Error) → r ≡ some e → e ≢ err_range

  of_result-Plain :
      {A : Type 0} (zero : A) (r : Result Error A)
      → ((e : Error) → r ≡ err e → e ≢ err_range)
      → Plain (of_result L zero r).1
  of_result-Plain zero (ok a) h = λ e q. absurd (let p = q in cc)
  of_result-Plain zero (err x) h = λ e q. h e (let p = q in cc)

  text_value-Plain : (to : To) (s tlyt : String) → Plain (text_value M L V to s tlyt).1
  unfolding text_value
  text_value-Plain to_integer s tlyt = of_result-Plain (pos 0) (L.parse_int s) (law.ints s)
  text_value-Plain to_unsigned s tlyt = of_result-Plain 0 (L.parse_uint s) (law.uints s)
  text_value-Plain to_float s tlyt =
      of_result-Plain (L.float_of_int (pos 0)) (L.parse_float s) (law.floats s)
  text_value-Plain to_boolean s tlyt = of_result-Plain false (L.parse_bool s) (law.bools s)
  text_value-Plain to_duration s tlyt =
      of_result-Plain (pos 0) (L.parse_duration s) (law.durations s)
  text_value-Plain to_time s tlyt =
      of_result-Plain V.zero_time (any_to_time L (text s) tlyt) (law.times s tlyt)
  text_value-Plain to_id s tlyt = λ e q. absurd cc
  text_value-Plain to_routing_key s tlyt = λ e q. absurd cc
  text_value-Plain to_timestamp s tlyt = λ e q. absurd cc
  text_value-Plain to_label s tlyt = λ e q. absurd cc
  text_value-Plain to_string s tlyt = λ e q. absurd cc

  put_value-Plain :
      (words from : String) (p : ConversionParams) (r : Any L × Option Error) (e : Event M.Any)
      → Plain r.1
      → put_value M L V words from (record p { ioor = true }) r e
        ≡ put_value M L V words from (record p { ioor = false }) r e
  unfolding put_value
  put_value-Plain words from p (v, none) e h = refl
  put_value-Plain words from p (v, some x) e h = rw (put_value, ==_ne x err_range (h x refl)) refl

  convert_to-ioor :
      (s from : String) (p : ConversionParams) (e : Event M.Any) (to : To)
      → convert_text M L V s from (record p { ioor = true; to = to }) e
        ≡ convert_text M L V s from (record p { ioor = false; to = to }) e
  unfolding convert_text put_value
  convert_to-ioor s from p e to_id = refl
  convert_to-ioor s from p e to_routing_key = refl
  convert_to-ioor s from p e to_timestamp = refl
  convert_to-ioor s from p e to_label = refl
  convert_to-ioor s from p e to_string =
      put_value-Plain _ _ p _ e (text_value-Plain to_string s p.tlyt)
  convert_to-ioor s from p e to_integer =
      put_value-Plain _ _ p _ e (text_value-Plain to_integer s p.tlyt)
  convert_to-ioor s from p e to_unsigned =
      put_value-Plain _ _ p _ e (text_value-Plain to_unsigned s p.tlyt)
  convert_to-ioor s from p e to_float =
      put_value-Plain _ _ p _ e (text_value-Plain to_float s p.tlyt)
  convert_to-ioor s from p e to_boolean =
      put_value-Plain _ _ p _ e (text_value-Plain to_boolean s p.tlyt)
  convert_to-ioor s from p e to_time = put_value-Plain _ _ p _ e (text_value-Plain to_time s p.tlyt)
  convert_to-ioor s from p e to_duration =
      put_value-Plain _ _ p _ e (text_value-Plain to_duration s p.tlyt)

  -- A conversion from a label, the id or the routing key does the same whether errors of range are to
  -- be ignored or not: the error that strconv returns is never ErrRange itself.
  pub convert_text-ioor :
      (s from : String) (p : ConversionParams) (e : Event M.Any)
      → convert_text M L V s from (record p { ioor = true }) e
        ≡ convert_text M L V s from (record p { ioor = false }) e
  convert_text-ioor s from p e = convert_to-ioor s from p e p.to
