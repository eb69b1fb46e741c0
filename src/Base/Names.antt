-- ===== src/Base/Names.antt =====
-- Lists of names: membership as `slices.Contains` tests it, repetition, and texts put together.
use Prim.Native.String.{String, ◌++◌ as concat}
use mathlib.Core.Path.{◌≡◌, refl}
use mathlib.Core.Bool.{Bool, true, false, ◌||◌}
use mathlib.Core.List.{List, [], ◌∷◌, ◌++◌}
use native.Mathlib.Omega.{arith}
use neptunus.Base.Equality.{◌==◌, ==_iff, string_comparable}

-- `slices.Contains`.
unfoldable pub contains : List String → String → Bool
contains [] t = false
contains (x ∷ xs) t = x == t || contains xs t

-- No name stands twice.
abbrev pub Distinct : List String → Type 0
Distinct [] = Unit {0}
Distinct (x ∷ xs) = (contains xs x ≡ false) × Distinct xs

-- `fmt.Sprintf` of texts, in their order.
abbrev pub joined : List String → String
joined [] = ""
joined (x ∷ xs) = concat x (joined xs)

pub contains-append :
    (xs ys : List String) (t : String) → contains (xs ++ ys) t ≡ (contains xs t || contains ys t)
unfolding contains
contains-append [] ys t = refl
contains-append (x ∷ xs) ys t = ground (arith, contains-append xs ys t)

-- Two lists without repetition that share no name make one.
pub Distinct-append :
    (xs ys : List String)
    → Distinct xs
    → Distinct ys
    → ((t : String) → contains ys t ≡ true → contains xs t ≡ false)
    → Distinct (xs ++ ys)
unfolding contains
Distinct-append [] ys dx dy apart = dy
Distinct-append (x ∷ xs) ys dx dy apart = (
  ground (arith, contains-append xs ys x, apart x, ==_iff x x),
  Distinct-append xs ys dx.1 dy (λ t h. ground (arith, apart t h)),
)
