-- ===== src/Core/Tracker/Duty.antt =====
-- The duty of a tracker counts the holders of the event, whatever the order of their calls.
use neptunus.Base.{
  ℕ, zero, suc, ◌-◌, ◌<◌, ◌≡◌, refl, List, [], ◌∷◌, ◌++◌, append-nil, arith, if◌then◌else◌, nat_beq,
}
use neptunus.Core.Tracker.{Tracker, Effect, calls, panic, copy, decreace, int32_sign}

-- What the holders of an event do to its tracker.
pub data Op : Type 0 where
  copied done : Op

-- The hooks that a sequence of calls has called, or the panic that ended it.
abbrev pub join : Effect → Effect → Effect
join (panic s) r = panic s
join (calls xs) (panic s) = panic s
join (calls xs) (calls ys) = calls (xs ++ ys)

unfoldable pub step : Op → Tracker → Tracker × Effect
unfolding copy decreace
step copied d = (copy d, calls [])
step done d = decreace d

unfoldable pub run : List Op → Tracker → Tracker × Effect
run [] d = (d, calls [])
run (o ∷ os) d = let (d', r) = step o d in let (d'', s) = run os d' in (d'', join r s)

-- Each call is made by one of the holders that are left: there is one, and a copy makes one more,
-- below the range of an int32.
abbrev pub Held : ℕ → List Op → Type 0
Held r [] = Unit {0}
Held r (copied ∷ os) = (0 < r) × (suc r < int32_sign) × Held (suc r) os
Held r (done ∷ os) = (0 < r) × Held (r - 1) os

-- The holders left after the calls.
abbrev pub holders : ℕ → List Op → ℕ
holders r [] = r
holders r (copied ∷ os) = holders (suc r) os
holders r (done ∷ os) = holders (r - 1) os

step-copied : (d : Tracker) → suc d.duty < int32_sign → copy d ≡ record d { duty = suc d.duty }
unfolding copy
step-copied d h = ground arith

step-done :
    (d : Tracker) (k : ℕ)
    → d.duty ≡ suc (suc k)
    → suc k < int32_sign
    → decreace d ≡ (record d { duty = suc k }, calls [])
unfolding decreace
step-done d k e h = ground arith

step-done_last : (d : Tracker) → d.duty ≡ 1 → decreace d ≡ (record d { duty = 0 }, calls d.hook)
unfolding decreace
step-done_last d e = ground arith

-- No holder is left, so no call is.
holders_none : (os : List Op) → Held 0 os → os ≡ []
holders_none [] h = refl
holders_none (copied ∷ os) h = absurd (omega arith)
holders_none (done ∷ os) h = absurd (omega arith)

-- From a tracker with k + 1 holders, calls that the holders make one after another never panic,
-- leave the duty at the number of holders that are left, and call the hooks, in the order in
-- which they were added and once, exactly if none is left.
pub run-counts :
    (os : List Op) (k : ℕ) (d : Tracker)
    → d.duty ≡ suc k
    → suc k < int32_sign
    → Held (suc k) os
    → run os d ≡ (
      record d { duty = holders (suc k) os },
      calls (if nat_beq (holders (suc k) os) 0 then d.hook else []),
    )
unfolding run step
run-counts [] k d e b h = ground arith
run-counts (copied ∷ os) k d e b h = ground (arith, step-copied d, run-counts os (suc k) (copy d))
run-counts (done ∷ os) zero d e b h = rw (holders_none os h.1, step-done_last d e, append-nil)
run-counts (done ∷ os) (suc k) d e b h =
    ground (arith, step-done d k, run-counts os k (decreace d).0)
