-- ===== src/Tests/Numbers.antt =====
-- A library of texts and numbers for plugins/common/convert/convert.go: a number is printed as so many
-- digits "1".
use Prim.Native.String.{[], ◌∷◌}
use neptunus.Base.{
  ℕ, zero, suc, ◌+◌, ◌-◌, ◌/◌, ◌%◌, ◌^◌, ◌≡◌, ◌↔◌, String, true, false, none, some, ok, nat_beq,
  if◌then◌else◌, arith,
}
use neptunus.Base.Int.{ℤ, pos, negsuc, ◌≤ℤ◌}
use neptunus.Convert.{
  Library, signed, unsigned, int8, uint64, any_to_integer, any_to_duration, any_to_time, err_range,
}
use neptunus.Convert.Exact.{negative, any_to_integer_exact}
use neptunus.Convert.Wrapping.{any_to_duration-wraps}

abbrev ones : ℕ → String
ones zero = []
ones (suc n) = "1" ∷ ones n

abbrev count : String → ℕ
count [] = 0
count (c ∷ s) = suc (count s)

-- An even number of digits for a number that is not negative.
abbrev code : ℤ → ℕ
code (pos n) = n + n
code (negsuc n) = n + n + 1

abbrev decode : ℕ → ℤ
decode n = if nat_beq (n % 2) 0 then pos (n / 2) else negsuc (n / 2)

abbrev pub digits : Library
digits = record {
  Float = ℤ;
  Time = ℤ;
  parse_int = λ s. ok (decode (count s));
  parse_uint = λ s. ok (count s / 2);
  parse_float = λ s. ok (decode (count s));
  parse_bool = λ s. ok true;
  format_int = λ z. ones (code z);
  format_uint = λ n. ones (n + n);
  format_float = λ z. ones (code z);
  float_of_int = λ z. z;
  float_of_uint = λ n. pos n;
  float_to_int64 = λ z. z;
  float_to_uint64 = λ z. code z;
  outside_int64 = λ z. false;
  outside_uint64 = λ z. false;
  float_positive = λ z. true;
  unix = λ t. t;
  unix_micro = λ t. t;
  unix_milli = λ t. t;
  time_format = λ t layout. layout;
  time_string = λ t. ones (code t);
  duration_string = λ d. ones (code d);
  parse_time = λ layout s. ok (decode (count s));
  parse_duration = λ s. ok (decode (count s));
  from_unix = λ z. z;
  from_unix_micro = λ z. z;
  from_unix_milli = λ z. z;
}

any_to_integer_exact_example :
    (((any_to_integer digits (signed int8 (negsuc 4))).1 ≡ none) ↔ (negsuc 4 ≤ℤ pos (2 ^ 63 - 1)))
    × ((any_to_integer digits (signed int8 (negsuc 4))).1 ≡ none
        → (any_to_integer digits (signed int8 (negsuc 4))).0 ≡ negsuc 4)
any_to_integer_exact_example = any_to_integer_exact digits (negative int8 4 (omega arith))

any_to_duration-wraps_example :
    ((any_to_integer digits (unsigned uint64 (2 ^ 63))).1 ≡ some err_range)
    × (any_to_duration digits (unsigned uint64 (2 ^ 63)) ≡ ok (negsuc (2 ^ 63 - 1)))
    × (any_to_time digits (unsigned uint64 (2 ^ 63)) "unix" ≡ ok (negsuc (2 ^ 63 - 1)))
any_to_duration-wraps_example = any_to_duration-wraps digits (2 ^ 63) (omega arith) (omega arith)
