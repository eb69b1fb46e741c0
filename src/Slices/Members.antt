-- ===== src/Slices/Members.antt =====
-- pkg/slices/slices.go: what the helpers' results hold.
use neptunus.Base.{
  ◌≡◌, refl, false, not, ◌&&◌, ◌||◌, List, [], ◌∷◌, ◌++◌, Comparable, ◌==◌, ==_iff, arith,
  Bool-cases, inl, inr,
}
use neptunus.Slices.{holds, diff, cross, cross_with, cross_from, unique, unique_from}

module _ {ℓ} {T : Type ℓ} ⦃e : Comparable T⦄ where
  holds-append : (xs : List T) (x t : T) → holds (xs ++ x ∷ []) t ≡ (holds xs t || x == t)
  unfolding holds
  holds-append [] x t = ground arith
  holds-append (y ∷ xs) x t = ground (arith, holds-append xs x t)

  -- No item stands twice.
  abbrev pub NoRepeat : List T → Type 0
  NoRepeat [] = Unit {0}
  NoRepeat (x ∷ xs) = (holds xs x ≡ false) × NoRepeat xs

  NoRepeat-append :
      (xs : List T) (x : T) → NoRepeat xs → holds xs x ≡ false → NoRepeat (xs ++ x ∷ [])
  unfolding holds
  NoRepeat-append [] x h free = (refl, tt)
  NoRepeat-append (y ∷ xs) x h free = (
    ground (arith, holds-append xs x y, h.0, ==_iff x y, ==_iff y x),
    NoRepeat-append xs x h.1 (ground arith),
  )

  holds-unique_from :
      (s list : List T) (t : T) → holds (unique_from s list) t ≡ (holds list t || holds s t)
  unfolding unique_from holds
  holds-unique_from [] list t = ground arith
  holds-unique_from (x ∷ s) list t = elim (Bool-cases (holds list x)) [
    | inl old ↦ rw old (ground (arith, holds-unique_from s list t, ==_iff x t))
    | inr new ↦
        rw new (ground (arith, holds-unique_from s (list ++ x ∷ []) t, holds-append list x t))
  ]

  unique_from-NoRepeat : (s list : List T) → NoRepeat list → NoRepeat (unique_from s list)
  unfolding unique_from
  unique_from-NoRepeat [] list h = h
  unique_from-NoRepeat (x ∷ s) list h = elim (Bool-cases (holds list x)) [
    | inl old ↦ rw (unique_from, old) (unique_from-NoRepeat s list h)
    | inr new ↦
        rw (unique_from, new)
          (unique_from-NoRepeat s (list ++ x ∷ []) (NoRepeat-append list x h new))
  ]

  holds-diff : (xs ys : List T) (t : T) → holds (diff xs ys) t ≡ (holds xs t && not (holds ys t))
  unfolding diff holds
  holds-diff [] ys t = ground arith
  holds-diff (x ∷ xs) ys t = elim (Bool-cases (holds ys x)) [
    | inl there ↦ rw there (ground (arith, holds-diff xs ys t, ==_iff x t))
    | inr new ↦ rw new (ground (arith, holds-diff xs ys t, ==_iff x t))
  ]

  holds-cross_with :
      (i : T) (ys bucket : List T) (t : T)
      → holds (cross_with i ys bucket) t ≡ (holds bucket t || (i == t && holds ys i))
  unfolding cross_with holds
  holds-cross_with i [] bucket t = ground arith
  holds-cross_with i (j ∷ ys) bucket t = elim (Bool-cases (i == j && not (holds bucket i))) [
    | inl new ↦ rw new (
        ground (
          arith,
          holds-cross_with i ys (bucket ++ i ∷ []) t,
          holds-append bucket i t,
          ==_iff i t,
          ==_iff i j,
          ==_iff j i,
        ))
    | inr old ↦
        rw old (ground (arith, holds-cross_with i ys bucket t, ==_iff i t, ==_iff i j, ==_iff j i))
  ]

  cross_with-NoRepeat :
      (i : T) (ys bucket : List T) → NoRepeat bucket → NoRepeat (cross_with i ys bucket)
  unfolding cross_with
  cross_with-NoRepeat i [] bucket h = h
  cross_with-NoRepeat i (j ∷ ys) bucket h = elim (Bool-cases (i == j && not (holds bucket i))) [
    | inl new ↦
        rw (cross_with, new)
          (cross_with-NoRepeat i ys (bucket ++ i ∷ [])
            (NoRepeat-append bucket i h (ground (arith, new))))
    | inr old ↦ rw (cross_with, old) (cross_with-NoRepeat i ys bucket h)
  ]

  holds-cross_from :
      (xs ys bucket : List T) (t : T)
      → holds (cross_from xs ys bucket) t ≡ (holds bucket t || (holds xs t && holds ys t))
  unfolding cross_from holds
  holds-cross_from [] ys bucket t = ground arith
  holds-cross_from (x ∷ xs) ys bucket t = ground (
    arith,
    holds-cross_from xs ys (cross_with x ys bucket) t,
    holds-cross_with x ys bucket t,
    ==_iff x t,
  )

  cross_from-NoRepeat :
      (xs ys bucket : List T) → NoRepeat bucket → NoRepeat (cross_from xs ys bucket)
  unfolding cross_from
  cross_from-NoRepeat [] ys bucket h = h
  cross_from-NoRepeat (x ∷ xs) ys bucket h =
      cross_from-NoRepeat xs ys (cross_with x ys bucket) (cross_with-NoRepeat x ys bucket h)

  -- Unique keeps what the slice holds, Diff what the second slice does not hold, and Cross what both
  -- hold; Unique and Cross repeat nothing.
  operations-members :
      (xs ys : List T) (t : T)
      → (holds (unique xs) t ≡ holds xs t)
        × (holds (diff xs ys) t ≡ (holds xs t && not (holds ys t)))
        × (holds (cross xs ys) t ≡ (holds xs t && holds ys t))
        × NoRepeat (unique xs)
        × NoRepeat (cross xs ys)
  unfolding unique cross holds
  operations-members xs ys t = (
    holds-unique_from xs [] t,
    holds-diff xs ys t,
    holds-cross_from xs ys [] t,
    unique_from-NoRepeat xs [] tt,
    cross_from-NoRepeat xs ys [] tt,
  )
