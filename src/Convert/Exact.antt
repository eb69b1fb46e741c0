-- ===== src/Convert/Exact.antt =====
-- plugins/common/convert/convert.go: a conversion to an integer type keeps the number or errs.
use neptunus.Base.{ℕ, ◌-◌, ◌^◌, ◌≤◌, ◌≡◌, ◌↔◌, none, arith}
use neptunus.Base.Int.{ℤ, pos, negsuc, ◌≤ℤ◌}
use neptunus.Convert.{
  Library, IntKind, int, int8, int16, int32, int64, UintKind, uint, uint8, uint16, uint32, uint64,
  Any, signed, unsigned, any_to_integer, any_to_unsigned,
}

-- The highest value of each kind, and the values of a kind.
abbrev pub max_int : IntKind → ℕ
max_int int = 2 ^ 63 - 1
max_int int8 = 2 ^ 7 - 1
max_int int16 = 2 ^ 15 - 1
max_int int32 = 2 ^ 31 - 1
max_int int64 = 2 ^ 63 - 1

abbrev pub max_uint : UintKind → ℕ
max_uint uint = 2 ^ 64 - 1
max_uint uint8 = 2 ^ 8 - 1
max_uint uint16 = 2 ^ 16 - 1
max_uint uint32 = 2 ^ 32 - 1
max_uint uint64 = 2 ^ 64 - 1

module _ (L : Library) where
  -- A value of a signed or unsigned integer type, of a kind and in its range, and its number.
  pub data IsNumber : Any L → ℤ → Type 0 where
    nonneg : (k : IntKind) (n : ℕ) → n ≤ max_int k → IsNumber (signed k (pos n)) (pos n)
    negative : (k : IntKind) (n : ℕ) → n ≤ max_int k → IsNumber (signed k (negsuc n)) (negsuc n)
    natural : (k : UintKind) (n : ℕ) → n ≤ max_uint k → IsNumber (unsigned k n) (pos n)

  -- `AnyToInteger` of an integer has no error exactly if the number is at most the highest int64, and
  -- then the result is the number.
  pub any_to_integer_exact :
      {v : Any L} {z : ℤ}
      → IsNumber v z
      → (((any_to_integer L v).1 ≡ none) ↔ (z ≤ℤ pos (2 ^ 63 - 1)))
        × ((any_to_integer L v).1 ≡ none → (any_to_integer L v).0 ≡ z)
  unfolding any_to_integer
  any_to_integer_exact (nonneg k n h) = ground arith
  any_to_integer_exact (negative k n h) = ground arith
  any_to_integer_exact (natural k n h) = ground arith

  -- `AnyToUnsigned` of an integer has no error exactly if the number is not negative, and then the
  -- result is the number.
  any_to_unsigned_exact :
      {v : Any L} {z : ℤ}
      → IsNumber v z
      → (((any_to_unsigned L v).1 ≡ none) ↔ (pos 0 ≤ℤ z))
        × ((any_to_unsigned L v).1 ≡ none → pos (any_to_unsigned L v).0 ≡ z)
  unfolding any_to_unsigned
  any_to_unsigned_exact (nonneg k n h) = ground arith
  any_to_unsigned_exact (negative k n h) = ground arith
  any_to_unsigned_exact (natural k n h) = ground arith
