-- ===== src/Core/Tracker.antt =====
-- core/tracker.go: the reference counter that calls an event's hooks when its last copy is done.
pub mod Duty
use neptunus.Base.{ℕ, ◌+◌, ◌^◌, ◌%◌, ◌-◌, String, List, [], ◌∷◌, ◌++◌, leb, nat_beq, if◌then◌else◌}
use neptunus.Base.Int.{ℤ, pos, negsuc}

-- A hook is known by a number; to call it is to report the number.
abbrev pub Hook : Type 0
Hook = ℕ

-- The duty is an int32, held as its two's complement bit pattern.
pub record Tracker : Type 0 where
  pub duty : ℕ
  pub hook : List Hook

-- What a call does beside its result: it calls hooks in order, or it panics.
pub data Effect : Type 0 where
  calls : List Hook → Effect
  panic : String → Effect

abbrev pub int32_mod : ℕ
int32_mod = 2 ^ 32

abbrev pub int32_sign : ℕ
int32_sign = 2 ^ 31

-- The signed value of an int32 bit pattern.
abbrev pub int32_value : ℕ → ℤ
int32_value n = if leb int32_sign n then negsuc (int32_mod - n - 1) else pos n

unfoldable pub new_tracker : Hook → Tracker
new_tracker hook = record { duty = 1; hook = hook ∷ [] }

unfoldable pub add_hook : Hook → Tracker → Tracker
add_hook hook d = record d { hook = d.hook ++ hook ∷ [] }

-- `Copy` returns the receiver itself: the caller keeps the same pointer.
unfoldable pub copy : Tracker → Tracker
copy d = record d { duty = (d.duty + 1) % int32_mod }

unfoldable pub decreace : Tracker → Tracker × Effect
decreace d =
    let n = (d.duty + int32_mod - 1) % int32_mod in
    let d' = record d { duty = n } in
    if leb int32_sign n
    then (d', panic "duty counter less than zero")
    else (d', if nat_beq n 0 then calls d.hook else calls [])
