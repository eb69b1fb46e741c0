-- ===== src/Slices.antt =====
-- pkg/slices/slices.go: helpers on slices. A `map` that serves as a set is the list of its keys.
pub mod Members
use neptunus.Base.{
  ◌≡◌, refl, ap, Bool, true, false, not, ◌&&◌, ◌||◌, List, [], ◌∷◌, ◌++◌, Comparable, ◌==◌, ==_iff,
  ==_refl, if◌then◌else◌, arith, Bool-cases, inl, inr,
}

module _ {ℓ} {T : Type ℓ} ⦃e : Comparable T⦄ where
  -- `Contains`.
  unfoldable pub holds : List T → T → Bool
  holds [] t = false
  holds (x ∷ xs) t = x == t || holds xs t

  -- `Diff`.
  unfoldable pub diff : List T → List T → List T
  unfolding holds
  diff [] second = []
  diff (x ∷ first) second =
      let rest = diff first second in if holds second x then rest else x ∷ rest

  -- The inner and the outer loop of `Cross`, with the keys of its map.
  unfoldable pub cross_with : T → List T → List T → List T
  unfolding holds
  cross_with i [] bucket = bucket
  cross_with i (j ∷ second) bucket =
      cross_with i second (if i == j && not (holds bucket i) then bucket ++ i ∷ [] else bucket)

  unfoldable pub cross_from : List T → List T → List T → List T
  unfolding cross_with
  cross_from [] second cross = cross
  cross_from (i ∷ first) second cross = cross_from first second (cross_with i second cross)

  -- `Cross`: what its map holds is what it returns.
  unfoldable pub cross : List T → List T → List T
  unfolding cross_from
  cross first second = cross_from first second []

  -- The loop of `Unique`, with the list that it builds, whose items are the keys of its map.
  unfoldable pub unique_from : List T → List T → List T
  unfolding holds
  unique_from [] list = list
  unique_from (item ∷ s) list = unique_from s (if holds list item then list else list ++ item ∷ [])

  unfoldable pub unique : List T → List T
  unfolding unique_from
  unique s = unique_from s []
