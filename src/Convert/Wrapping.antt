-- ===== src/Convert/Wrapping.antt =====
-- plugins/common/convert/convert.go: the conversions to a time and to a duration have no range check.
use neptunus.Base.{ℕ, ◌-◌, ◌^◌, ◌≤◌, ◌<◌, ◌≡◌, some, ok, arith}
use neptunus.Base.Int.{negsuc}
use neptunus.Convert.{
  Library, uint64, unsigned, err_range, any_to_integer, any_to_duration, any_to_time,
}

-- A uint64 above the highest int64 is refused by `AnyToInteger`; `AnyToDuration` makes a negative
-- duration of it, and `AnyToTime` with the layout "unix" a time before the epoch, with no error.
pub any_to_duration-wraps :
    (L : Library) (n : ℕ)
    → 2 ^ 63 ≤ n
    → n < 2 ^ 64
    → ((any_to_integer L (unsigned uint64 n)).1 ≡ some err_range)
      × (any_to_duration L (unsigned uint64 n) ≡ ok (negsuc (2 ^ 64 - n - 1)))
      × (any_to_time L (unsigned uint64 n) "unix" ≡ ok (L.from_unix (negsuc (2 ^ 64 - n - 1))))
unfolding any_to_integer any_to_duration any_to_time
any_to_duration-wraps L n lo hi = ground arith
