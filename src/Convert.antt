-- ===== src/Convert.antt =====
-- plugins/common/convert/convert.go: conversions between the scalar types of event fields.
pub mod Exact
pub mod Wrapping
use neptunus.Base.{
  ℕ, ◌+◌, ◌-◌, ◌^◌, ◌≤◌, ◌<◌, ◌≡◌, String, Bool, true, false, not, Option, none, some, Result, ok,
  err, ltb, leb, nat_beq, ◌==◌, string_comparable, if◌then◌else◌,
}
use neptunus.Base.Int.{ℤ, pos, negsuc}
use neptunus.Core.Fields.{Error}

pub data IntKind : Type 0 where
  int int8 int16 int32 int64 : IntKind

pub data UintKind : Type 0 where
  uint uint8 uint16 uint32 uint64 : UintKind

-- What the conversions use of strconv, of time and of the machine's floating point numbers. A
-- time.Duration is an int64 of nanoseconds.
pub record Library : Type 1 where
  pub Float : Type 0
  pub Time : Type 0
  pub parse_int : String → Result Error ℤ
  pub parse_uint : String → Result Error ℕ
  pub parse_float : String → Result Error Float
  pub parse_bool : String → Result Error Bool
  pub format_int : ℤ → String
  pub format_uint : ℕ → String
  pub format_float : Float → String
  pub float_of_int : ℤ → Float
  pub float_of_uint : ℕ → Float
  pub float_to_int64 : Float → ℤ
  pub float_to_uint64 : Float → ℕ
  pub outside_int64 : Float → Bool
  pub outside_uint64 : Float → Bool
  pub float_positive : Float → Bool
  pub unix : Time → ℤ
  pub unix_micro : Time → ℤ
  pub unix_milli : Time → ℤ
  pub time_format : Time → String → String
  pub time_string : Time → String
  pub duration_string : ℤ → String
  pub parse_time : String → String → Result Error Time
  pub parse_duration : String → Result Error ℤ
  pub from_unix : ℤ → Time
  pub from_unix_micro : ℤ → Time
  pub from_unix_milli : ℤ → Time

abbrev pub two_63 : ℕ
two_63 = 2 ^ 63

abbrev pub two_64 : ℕ
two_64 = 2 ^ 64

-- Go's `int64(t)` of a uint64, and `uint64(t)` of an int64.
abbrev pub int64_of_uint : ℕ → ℤ
int64_of_uint n = if ltb n two_63 then pos n else negsuc (two_64 - n - 1)

abbrev pub uint64_of_int : ℤ → ℕ
uint64_of_int (pos n) = n
uint64_of_int (negsuc n) = two_64 - (n + 1)

abbrev pub err_range : Error
err_range = "value out of range"

-- The test `t > math.MaxInt64` stands in the cases of these two kinds.
abbrev pub is_checked : UintKind → Bool
is_checked uint = true
is_checked uint64 = true
is_checked _ = false

module _ (L : Library) where
  open L use {Float, Time}

  -- A value of Go's `any`. `stringer` is a value of another type that has the method `String`, with
  -- the text that the method returns; `other` is of no type that is named here.
  pub data Any : Type 0 where
    text : String → Any
    bytes : String → Any
    signed : IntKind → ℤ → Any
    unsigned : UintKind → ℕ → Any
    float32 : Float → Any
    float64 : Float → Any
    bool : Bool → Any
    duration : ℤ → Any
    time : Time → Any
    stringer : String → Any
    other : Any

  abbrev unsupported : {A : Type 0} → A → A × Option Error
  unsupported a = (a, some "unsupported type")

  abbrev pub of_result : {A : Type 0} → A → Result Error A → A × Option Error
  of_result zero (ok a) = (a, none)
  of_result zero (err e) = (zero, some e)

  abbrev pub format_bool : Bool → String
  format_bool true = "true"
  format_bool false = "false"

  unfoldable pub any_to_string : Any → String × Option Error
  any_to_string (duration d) = (L.duration_string d, none)
  any_to_string (time t) = (L.time_string t, none)
  any_to_string (stringer s) = (s, none)
  any_to_string (bytes s) = (s, none)
  any_to_string (text s) = (s, none)
  any_to_string (signed k z) = (L.format_int z, none)
  any_to_string (unsigned k n) = (L.format_uint n, none)
  any_to_string (float32 f) = (L.format_float f, none)
  any_to_string (float64 f) = (L.format_float f, none)
  any_to_string (bool b) = (format_bool b, none)
  any_to_string other = unsupported ""

  unfoldable pub any_to_string_with_time_duration : Any → String → String × Option Error
  unfolding any_to_string
  any_to_string_with_time_duration (duration d) layout = (L.duration_string d, none)
  any_to_string_with_time_duration (time t) layout =
      if layout == "unix"
      then (L.format_int (L.unix t), none)
      else if layout == "unix_micro"
      then (L.format_int (L.unix_micro t), none)
      else if layout == "unix_milli"
      then (L.format_int (L.unix_milli t), none)
      else (L.time_format t layout, none)
  any_to_string_with_time_duration v layout = any_to_string v

  -- The value and the error of `AnyToInteger`: Go returns the value beside the error too.
  unfoldable pub any_to_integer : Any → ℤ × Option Error
  any_to_integer (text s) = of_result (pos 0) (L.parse_int s)
  any_to_integer (signed k z) = (z, none)
  any_to_integer (unsigned k n) =
      if is_checked k
      then (if ltb (two_63 - 1) n
          then (int64_of_uint n, some err_range)
          else (int64_of_uint n, none))
      else (int64_of_uint n, none)
  any_to_integer (float32 f) =
      (L.float_to_int64 f, if L.outside_int64 f then some err_range else none)
  any_to_integer (float64 f) =
      (L.float_to_int64 f, if L.outside_int64 f then some err_range else none)
  any_to_integer (bool b) = (if b then pos 1 else pos 0, none)
  any_to_integer _ = unsupported (pos 0)

  unfoldable pub any_to_integer_with_time_duration : Any → String → ℤ × Option Error
  unfolding any_to_integer
  any_to_integer_with_time_duration (duration d) layout = (d, none)
  any_to_integer_with_time_duration (time t) layout =
      if layout == "unix"
      then (L.unix t, none)
      else if layout == "unix_micro"
      then (L.unix_micro t, none)
      else if layout == "unix_milli"
      then (L.unix_milli t, none)
      else (pos 0, some "unsupported layout")
  any_to_integer_with_time_duration v layout = any_to_integer v

  abbrev pub is_negative : ℤ → Bool
  is_negative (pos n) = false
  is_negative (negsuc n) = true

  unfoldable pub any_to_unsigned : Any → ℕ × Option Error
  any_to_unsigned (text s) = of_result 0 (L.parse_uint s)
  any_to_unsigned (signed k z) = (uint64_of_int z, if is_negative z then some err_range else none)
  any_to_unsigned (unsigned k n) = (n, none)
  any_to_unsigned (float32 f) =
      (L.float_to_uint64 f, if L.outside_uint64 f then some err_range else none)
  any_to_unsigned (float64 f) =
      (L.float_to_uint64 f, if L.outside_uint64 f then some err_range else none)
  any_to_unsigned (bool b) = (if b then 1 else 0, none)
  any_to_unsigned _ = unsupported 0

  unfoldable pub any_to_unsigned_with_time_duration : Any → String → ℕ × Option Error
  unfolding any_to_unsigned
  any_to_unsigned_with_time_duration (duration d) layout = (uint64_of_int d, none)
  any_to_unsigned_with_time_duration (time t) layout =
      if layout == "unix"
      then (uint64_of_int (L.unix t), none)
      else if layout == "unix_micro"
      then (uint64_of_int (L.unix_micro t), none)
      else if layout == "unix_milli"
      then (uint64_of_int (L.unix_milli t), none)
      else (0, some "unsupported layout")
  any_to_unsigned_with_time_duration v layout = any_to_unsigned v

  unfoldable pub any_to_float : Any → Float × Option Error
  any_to_float (text s) = of_result (L.float_of_int (pos 0)) (L.parse_float s)
  any_to_float (signed k z) = (L.float_of_int z, none)
  any_to_float (unsigned k n) = (L.float_of_uint n, none)
  any_to_float (float32 f) = (f, none)
  any_to_float (float64 f) = (f, none)
  any_to_float (bool b) = (if b then L.float_of_int (pos 1) else L.float_of_int (pos 0), none)
  any_to_float _ = unsupported (L.float_of_int (pos 0))

  abbrev pub is_positive : ℤ → Bool
  is_positive (pos n) = ltb 0 n
  is_positive (negsuc n) = false

  unfoldable pub any_to_boolean : Any → Bool × Option Error
  any_to_boolean (text s) = of_result false (L.parse_bool s)
  any_to_boolean (signed k z) = (is_positive z, none)
  any_to_boolean (unsigned k n) = (ltb 0 n, none)
  any_to_boolean (float32 f) = (L.float_positive f, none)
  any_to_boolean (float64 f) = (L.float_positive f, none)
  any_to_boolean (bool b) = (b, none)
  any_to_boolean _ = unsupported false

  abbrev is_epoch : String → Bool
  is_epoch layout =
      if layout == "unix"
      then true
      else if layout == "unix_micro"
      then true
      else layout == "unix_milli"

  -- The last `switch` of `AnyToTime`.
  abbrev from_epoch : String → ℤ → Time
  from_epoch layout n =
      if layout == "unix"
      then L.from_unix n
      else if layout == "unix_micro"
      then L.from_unix_micro n
      else L.from_unix_milli n

  -- The `switch` on the type in `AnyToTime` with an epoch layout.
  unfoldable pub epoch_number : Any → Result Error ℤ
  epoch_number (text s) = L.parse_int s
  epoch_number (signed k z) = ok z
  epoch_number (unsigned k n) = ok (int64_of_uint n)
  epoch_number _ = err "unsopported type"

  abbrev epoch_time : String → Result Error ℤ → Result Error Time
  epoch_time layout (ok n) = ok (from_epoch layout n)
  epoch_time layout (err e) = err e

  unfoldable pub any_to_time : Any → String → Result Error Time
  unfolding epoch_number
  any_to_time (time t) layout = ok t
  any_to_time (text s) layout =
      if is_epoch layout then epoch_time layout (epoch_number (text s)) else L.parse_time layout s
  any_to_time v layout =
      if is_epoch layout then epoch_time layout (epoch_number v) else err "unsopported type"

  unfoldable pub any_to_duration : Any → Result Error ℤ
  any_to_duration (duration d) = ok d
  any_to_duration (text s) = L.parse_duration s
  any_to_duration (signed k z) = ok z
  any_to_duration (unsigned k n) = ok (int64_of_uint n)
  any_to_duration _ = err "unsopported type"
