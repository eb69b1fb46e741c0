-- ===== src/Base/Maps.antt =====
-- Go's `map`, as an association list: the order of the list is the order in which `range` visits
-- it, so what is proved for every list holds for every order that the runtime may choose.
use mathlib.Core.Path.{◌≡◌, refl}
use mathlib.Core.Bool.{Bool, false, ◌||◌}
use mathlib.Core.List.{List, [], ◌∷◌}
use mathlib.Core.Option.{Option, none, some}
use native.Mathlib.Omega.{arith}
use neptunus.Base.Tests.{if◌then◌else◌}
use neptunus.Base.Equality.{Comparable, ◌==◌, ==_iff}

abbrev pub Assoc {ℓ κ} : Type ℓ → Type κ → Type (ℓ ⊔ κ)
Assoc K V = List (K × V)

abbrev pub keys {ℓ κ} : {K : Type ℓ} {V : Type κ} → Assoc K V → List K
keys [] = []
keys ((k, v) ∷ m) = k ∷ keys m

module _ {ℓ κ} {K : Type ℓ} {V : Type κ} ⦃e : Comparable K⦄ where
  unfoldable pub lookup : K → Assoc K V → Option V
  lookup key [] = none
  lookup key ((own, value) ∷ rest) = if own == key then some value else lookup key rest

  unfoldable pub remove : K → Assoc K V → Assoc K V
  remove key [] = []
  remove key ((own, value) ∷ rest) =
      let others = remove key rest in if own == key then others else (own, value) ∷ others

  -- A key that is there keeps its place.
  unfoldable pub insert : K → V → Assoc K V → Assoc K V
  insert key new [] = (key, new) ∷ []
  insert key new ((own, old) ∷ rest) =
      if own == key then (key, new) ∷ rest else (own, old) ∷ insert key new rest

  unfoldable pub has : K → Assoc K V → Bool
  has k [] = false
  has k ((j, v) ∷ m) = j == k || has k m

  pub lookup-insert :
      (key asked : K) (new : V) (m : Assoc K V)
      → lookup asked (insert key new m) ≡ (if key == asked then some new else lookup asked m)
  unfolding lookup insert
  lookup-insert key asked new [] = refl
  lookup-insert key asked new ((own, old) ∷ rest) =
      ground (
        arith,
        lookup-insert key asked new rest,
        ==_iff own key,
        ==_iff own asked,
        ==_iff key asked,
      )

  pub lookup-remove :
      (k j : K) (m : Assoc K V) → lookup j (remove k m) ≡ (if k == j then none else lookup j m)
  unfolding lookup remove
  lookup-remove k j [] = ground arith
  lookup-remove k j ((i, w) ∷ m) =
      ground (arith, ==_iff k j, ==_iff i k, ==_iff i j, lookup-remove k j m)

  pub has-insert : (k j : K) (v : V) (m : Assoc K V) → has j (insert k v m) ≡ (k == j || has j m)
  unfolding has insert
  has-insert k j v [] = ground arith
  has-insert k j v ((i, w) ∷ m) =
      ground (arith, ==_iff k j, ==_iff i k, ==_iff i j, has-insert k j v m)

pub ruleset assoc_laws = (lookup-insert, lookup-remove)
