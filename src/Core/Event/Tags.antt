-- ===== src/Core/Event/Tags.antt =====
-- Tags: a list without repetition that `DeleteTag` reorders.
use neptunus.Base.{
  String, ◌≡◌, refl, ◌∙◌, true, false, ◌||◌, ◌&&◌, not, List, [], ◌∷◌, ◌++◌, ◌==◌,
  string_comparable, ==_iff, arith, Bool-cases, inl, inr, contains, Distinct, contains-append,
  Distinct-append,
}
use neptunus.Core.Event.{Event, last, init, delete_from, has_tag, add_tag, delete_tag}

Distinct-append_one :
    (xs : List String) (t : String) → Distinct xs → contains xs t ≡ false → Distinct (xs ++ t ∷ [])
unfolding contains
Distinct-append_one xs t d h =
    Distinct-append xs (t ∷ []) d (refl, tt) (λ u e. ground (arith, ==_iff t u))

-- The last tag and the others.
contains-init :
    (x : String) (xs : List String) (u : String)
    → (contains (init (x ∷ xs)) u || last x xs == u) ≡ contains (x ∷ xs) u
unfolding contains init last
contains-init x [] u = ground arith
contains-init x (y ∷ xs) u = ground (arith, contains-init y xs u)

contains-swap : (l : List String) (x u : String) → contains (x ∷ l) u ≡ (contains l u || x == u)
unfolding contains
contains-swap l x u = ground arith

delete-skip :
    (x y : String) (ys : List String) (t : String)
    → (x == t) ≡ false
    → delete_from (x ∷ y ∷ ys) t ≡ x ∷ delete_from (y ∷ ys) t
unfolding delete_from
delete-skip x y ys t h = ground arith

delete-here :
    (x y : String) (ys : List String) (t : String)
    → (x == t) ≡ true
    → delete_from (x ∷ y ∷ ys) t ≡ last y ys ∷ init (y ∷ ys)
unfolding delete_from
delete-here x y ys t h = ground arith

-- A tag that stands nowhere in `l`, left out of a list that begins with it.
without_head :
    (x t u : String) (l : List String)
    → (x == t) ≡ true
    → contains l x ≡ false
    → contains l u ≡ ((x == u || contains l u) && not (t == u))
without_head x t u l e d = elim (Bool-cases (t == u)) [
  | inl p ↦ rw (p, ← (==_iff t u).0 p, ← (==_iff x t).0 e, d) (ground arith)
  | inr p ↦ ground (arith, ==_iff x t, ==_iff x u, ==_iff t u)
]

-- After `DeleteTag` of one tag from tags without repetition, the tags are those before it but the
-- deleted one.
pub contains-delete_from :
    (tags : List String) (t u : String)
    → Distinct tags
    → contains (delete_from tags t) u ≡ (contains tags u && not (t == u))
unfolding contains
contains-delete_from [] t u d = unfold delete_from in refl
contains-delete_from (x ∷ []) t u d =
    unfold delete_from in ground (arith, ==_iff x t, ==_iff x u, ==_iff t u)
contains-delete_from (x ∷ y ∷ ys) t u d = elim (Bool-cases (x == t)) [
  | inl e ↦ rw (delete-here x y ys t e) (
      contains-swap (init (y ∷ ys)) (last y ys) u
      ∙ contains-init y ys u
      ∙ without_head x t u (y ∷ ys) e d.0)
  | inr e ↦
      rw (delete-skip x y ys t e)
        (ground (arith, contains-delete_from (y ∷ ys) t u d.1, ==_iff x t, ==_iff x u, ==_iff t u))
]

Distinct-init :
    (x : String) (xs : List String)
    → Distinct (x ∷ xs)
    → Distinct (init (x ∷ xs)) × (contains (init (x ∷ xs)) (last x xs) ≡ false)
unfolding contains init last
Distinct-init x [] d = ground arith
Distinct-init x (y ∷ ys) d = ground (
  arith,
  Distinct-init y ys,
  contains-init y ys x,
  contains-init y ys (last y ys),
  ==_iff x (last y ys),
  ==_iff (last y ys) x,
)

Distinct-delete_from :
    (tags : List String) (t : String) → Distinct tags → Distinct (delete_from tags t)
Distinct-delete_from [] t d = unfold delete_from in d
Distinct-delete_from (x ∷ []) t d = unfold delete_from in ground arith
Distinct-delete_from (x ∷ y ∷ ys) t d = elim (Bool-cases (x == t)) [
  | inl e ↦ rw (delete-here x y ys t e) ((Distinct-init y ys d.1).1, (Distinct-init y ys d.1).0)
  | inr e ↦
      rw (delete-skip x y ys t e)
        (rw (contains-delete_from (y ∷ ys) t x d.1, d.0) refl, Distinct-delete_from (y ∷ ys) t d.1)
]

module _ {D : Type 0} (e : Event D) (t : String) where
  -- `AddTag` keeps the tags of an event free of repetition; afterwards it has the tags that it
  -- had and the added one, and no other.
  add_tag_lem :
      Distinct e.tags
      → Distinct (add_tag t e).tags
        × ((u : String) → has_tag u (add_tag t e) ≡ (has_tag u e || t == u))
  unfolding add_tag has_tag
  add_tag_lem d = elim (Bool-cases (contains e.tags t)) [
    | inl old ↦ (rw old d, λ u. rw old (ground (arith, ==_iff t u)))
    | inr new ↦ (
      rw new (Distinct-append_one e.tags t d new),
      λ u. rw new (contains-append e.tags (t ∷ []) u ∙ unfold contains in ground arith),
    )
  ]

  -- `DeleteTag` keeps the tags of an event free of repetition; from such tags it takes the given
  -- one, although it moves the last tag into the gap, and keeps every other.
  delete_tag_lem :
      Distinct e.tags
      → Distinct (delete_tag t e).tags
        × ((u : String) → has_tag u (delete_tag t e) ≡ (has_tag u e && not (t == u)))
  unfolding delete_tag has_tag
  delete_tag_lem d = (Distinct-delete_from e.tags t d, λ u. contains-delete_from e.tags t u d)
