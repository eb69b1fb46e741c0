-- ===== src/Processors/Converter.antt =====
-- plugins/processors/converter/converter_internal.go and converter.go: conversions of the parts of an event into
-- each other.
pub mod Setup
pub mod Ranges
pub mod Frame
use neptunus.Base.{
  ℕ, String, Bool, true, false, not, ◌&&◌, Option, none, some, List, [], ◌∷◌, Result, ok, err, ◌==◌,
  string_comparable, if◌then◌else◌, joined,
}
use neptunus.Base.Int.{ℤ, pos}
use neptunus.Core.Fields.{Error, MapPath}
use neptunus.Core.Event.{Event, get_label, set_label, get_field, set_field, stack_error}
use neptunus.Convert.{
  Library, Any, text, signed, unsigned, float64, bool, duration, time, int64, uint64, err_range,
  of_result, any_to_string_with_time_duration, any_to_integer_with_time_duration,
  any_to_unsigned_with_time_duration, any_to_float, any_to_boolean, any_to_time, any_to_duration,
}

-- Where a conversion reads, and what it makes.
pub data From : Type 0 where
  from_label from_field from_id from_uuid from_timestamp from_routing_key : From

pub data To : Type 0 where
  to_id to_routing_key to_timestamp to_label to_string to_integer to_unsigned to_float to_boolean
        to_time to_duration :
      To

pub record ConversionParams : Type 0 where
  pub from : From
  pub to : To
  pub path : String
  pub tlyt : String
  pub ioor : Bool

-- `toAsString`.
unfoldable pub to_as_string : To → String
to_as_string to_timestamp = "timestamp"
to_as_string to_id = "id"
to_as_string to_routing_key = "routing_key"
to_as_string to_label = "label"
to_as_string to_string = "string"
to_as_string to_integer = "integer"
to_as_string to_unsigned = "unsigned"
to_as_string to_float = "float"
to_as_string to_boolean = "boolean"
to_as_string to_time = "time"
to_as_string to_duration = "duration"

-- How the values of an event are values that the conversions know, with the times of events, and
-- `UUID.String`.
pub record Values (M : MapPath) (L : Library) : Type 0 where
  pub of_field : M.Any → Any L
  pub to_field : Any L → M.Any
  pub time_of : ℕ → L.Time
  pub of_time : L.Time → ℕ
  pub zero_time : L.Time
  pub uuid_text : ℕ → String

module _ (M : MapPath) (L : Library) (V : Values M L) where
  -- A value for a field beside an error, as Go returns them.
  abbrev as_any : {A : Type 0} → (A → Any L) → A × Option Error → Any L × Option Error
  as_any f (a, e) = (f a, e)

  -- The value that a field is set to, by the second part of the `switch` in `fromField`.
  unfoldable pub field_value : To → M.Any → String → Any L × Option Error
  field_value to_integer raw tlyt =
      as_any (signed int64) (any_to_integer_with_time_duration L (V.of_field raw) tlyt)
  field_value to_unsigned raw tlyt =
      as_any (unsigned uint64) (any_to_unsigned_with_time_duration L (V.of_field raw) tlyt)
  field_value to_float raw tlyt = as_any float64 (any_to_float L (V.of_field raw))
  field_value to_boolean raw tlyt = as_any bool (any_to_boolean L (V.of_field raw))
  field_value to_time raw tlyt =
      as_any time (of_result L V.zero_time (any_to_time L (V.of_field raw) tlyt))
  field_value to_duration raw tlyt =
      as_any duration (of_result L (pos 0) (any_to_duration L (V.of_field raw)))
  field_value _ raw tlyt = as_any text (any_to_string_with_time_duration L (V.of_field raw) tlyt)

  -- The value that a field is set to from a text, by the `switch` in `fromStringType`.
  unfoldable pub text_value : To → String → String → Any L × Option Error
  text_value to_integer s tlyt = as_any (signed int64) (of_result L (pos 0) (L.parse_int s))
  text_value to_unsigned s tlyt = as_any (unsigned uint64) (of_result L 0 (L.parse_uint s))
  text_value to_float s tlyt =
      as_any float64 (of_result L (L.float_of_int (pos 0)) (L.parse_float s))
  text_value to_boolean s tlyt = as_any bool (of_result L false (L.parse_bool s))
  text_value to_duration s tlyt = as_any duration (of_result L (pos 0) (L.parse_duration s))
  text_value to_time s tlyt = as_any time (of_result L V.zero_time (any_to_time L (text s) tlyt))
  text_value _ s tlyt = (text s, none)

  -- `SetField`, with the words before its error.
  unfoldable pub put : String → String → Any L → Event M.Any → Result Error (Event M.Any)
  put words path v e = elim (set_field M path (V.to_field v) e) [
    | ok e' ↦ ok e'
    | err x ↦ err (joined (words ∷ ": set field failed: " ∷ x ∷ []))
  ]

  -- The end of `fromField` and of `fromStringType`: an error that is ErrRange may be ignored.
  unfoldable pub put_value :
      String
      → String
      → ConversionParams
      → Any L × Option Error
      → Event M.Any
      → Result Error (Event M.Any)
  put_value words where_from p (v, none) e = put words p.path v e
  put_value words where_from p (v, some x) e =
      if x == err_range && p.ioor
      then put words p.path v e
      else err (joined (where_from ∷ ": " ∷ x ∷ []))

  -- What is done with a text or a time that may have failed.
  unfoldable pub given :
      {A : Type 0} → String → A × Option Error → (A → Event M.Any) → Result Error (Event M.Any)
  given where_from (a, none) f = ok (f a)
  given where_from (a, some x) f = err (joined (where_from ∷ ": " ∷ x ∷ []))

  abbrev pub timed : L.Time → Event M.Any → Event M.Any
  timed t e = record e { timestamp = V.of_time t }

  -- `fromField`, behind `GetField`.
  unfoldable pub from_raw_field :
      String → M.Any → ConversionParams → Event M.Any → Result Error (Event M.Any)
  from_raw_field from raw p e =
      let named = any_to_string_with_time_duration L (V.of_field raw) p.tlyt in
      elim p.to [
        | to_id ↦ given from named (λ s. record e { id = s })
        | to_routing_key ↦ given from named (λ s. record e { routing_key = s })
        | to_timestamp ↦
            given from (of_result L V.zero_time (any_to_time L (V.of_field raw) p.tlyt))
              (λ t. timed t e)
        | to_label ↦ given from named (λ s. set_label p.path s e)
        | to ↦ put_value "from field" from p (field_value to raw p.tlyt) e
      ]

  unfoldable pub convert_field : ConversionParams → Event M.Any → Result Error (Event M.Any)
  convert_field p e =
      let from = joined ("from field: " ∷ p.path ∷ []) in
      elim (get_field M p.path e) [
        | err x ↦ err (joined (from ∷ ": " ∷ x ∷ []))
        | ok raw ↦ from_raw_field from raw p e
      ]

  -- `fromStringType`.
  unfoldable pub convert_text :
      String → String → ConversionParams → Event M.Any → Result Error (Event M.Any)
  convert_text s from p e =
      let words = joined ("from " ∷ from ∷ []) in
      let where_from = joined (words ∷ ": " ∷ p.path ∷ []) in
      elim p.to [
        | to_id ↦ ok (record e { id = s })
        | to_routing_key ↦ ok (record e { routing_key = s })
        | to_timestamp ↦
            given where_from (of_result L V.zero_time (any_to_time L (text s) p.tlyt))
              (λ t. timed t e)
        | to_label ↦ ok (set_label p.path s e)
        | to ↦ put_value words where_from p (text_value to s p.tlyt) e
      ]

  unfoldable pub convert_label : ConversionParams → Event M.Any → Result Error (Event M.Any)
  convert_label p e = elim (get_label p.path e) [
    | none ↦ err (joined ("from label: " ∷ p.path ∷ ": no such label" ∷ []))
    | some label ↦ convert_text label "label" p e
  ]

  unfoldable pub convert_uuid : ConversionParams → Event M.Any → Result Error (Event M.Any)
  convert_uuid p e =
      let s = V.uuid_text e.uuid in
      elim p.to [
        | to_id ↦ ok (record e { id = s })
        | to_routing_key ↦ ok (record e { routing_key = s })
        | to_label ↦ ok (set_label p.path s e)
        | to_string ↦ put "from uuid" p.path (text s) e
        | to ↦
            err (
              joined
                ("from uuid: cannot convert: unsopported target type: " ∷ to_as_string to ∷ []))
      ]

  -- A field that is set to a value of the time, which may have failed.
  unfoldable pub timed_field :
      String → String → Any L × Option Error → Event M.Any → Result Error (Event M.Any)
  timed_field from path (v, none) e = put "from timestamp" path v e
  timed_field from path (v, some x) e = err (joined (from ∷ ": " ∷ x ∷ []))

  unfoldable pub convert_timestamp : ConversionParams → Event M.Any → Result Error (Event M.Any)
  convert_timestamp p e =
      let from = joined ("from timestamp: " ∷ p.path ∷ []) in
      let now : Any L = time (V.time_of e.timestamp) in
      let named = any_to_string_with_time_duration L now p.tlyt in
      elim p.to [
        | to_id ↦ given from named (λ s. record e { id = s })
        | to_routing_key ↦ given from named (λ s. record e { routing_key = s })
        | to_timestamp ↦ ok e
        | to_label ↦ given from named (λ s. set_label p.path s e)
        | to_string ↦ timed_field from p.path (as_any text named) e
        | to_integer ↦
            timed_field from p.path
              (as_any (signed int64) (any_to_integer_with_time_duration L now p.tlyt)) e
        | to_unsigned ↦
            timed_field from p.path
              (as_any (unsigned uint64) (any_to_unsigned_with_time_duration L now p.tlyt)) e
        | to_time ↦ put "from timestamp" p.path now e
        | to ↦ err (
            joined
              ("from timestamp: cannot convert to " ∷ to_as_string to ∷ ": unsopported type" ∷ []))
      ]

  -- `Convert`.
  unfoldable pub convert : ConversionParams → Event M.Any → Result Error (Event M.Any)
  convert p e = elim p.from [
    | from_label ↦ convert_label p e
    | from_field ↦ convert_field p e
    | from_id ↦ convert_text e.id "id" p e
    | from_uuid ↦ convert_uuid p e
    | from_timestamp ↦ convert_timestamp p e
    | from_routing_key ↦ convert_text e.routing_key "routing key" p e
  ]

  -- The loop of `Run` over the conversions, with `hasError`.
  unfoldable pub convert_all : List ConversionParams → Bool → Event M.Any → Event M.Any × Bool
  convert_all [] has_error e = (e, has_error)
  convert_all (c ∷ conversions) has_error e = elim (convert c e) [
    | ok e' ↦ convert_all conversions has_error e'
    | err x ↦ convert_all conversions true (stack_error x e)
  ]
