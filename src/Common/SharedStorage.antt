-- ===== src/Common/SharedStorage.antt =====
-- plugins/common/sharedstorage/sharedstorage.go: objects that plugins of several lines share, kept
-- as long as one of them uses the object. A method holds the lock from its first line to its last.
use neptunus.Base.{
  ℕ, zero, suc, ◌+◌, ◌≡◌, refl, ap, Bool, true, false, Option, none, some, List, [], ◌∷◌, ◌++◌,
  length, replicate, Assoc, lookup, insert, remove, lookup-insert, lookup-remove, Comparable,
  ==_refl, if◌then◌else◌, arith, nat_beq,
}
use neptunus.Base.Int.{ℤ, pos, negsuc}

-- `n + 1` and `n - 1` of a Go int that is far from its bounds, which counts plugins.
abbrev pub inc : ℤ → ℤ
inc (pos n) = pos (suc n)
inc (negsuc zero) = pos 0
inc (negsuc (suc n)) = negsuc n

abbrev pub dec : ℤ → ℤ
dec (pos zero) = negsuc 0
dec (pos (suc n)) = pos n
dec (negsuc n) = negsuc (suc n)

abbrev pub is_zero : ℤ → Bool
is_zero (pos zero) = true
is_zero (pos (suc n)) = false
is_zero (negsuc n) = false

pub record SharedStorage {ℓ κ} (T : Type ℓ) (K : Type κ) : Type (ℓ ⊔ κ) where
  pub objects : Assoc K T
  pub members : Assoc K ℤ

-- Go's `m[k]` of a map of ints: 0 where the key is missing.
abbrev pub or_zero : Option ℤ → ℤ
or_zero none = pos 0
or_zero (some n) = n

module _ {ℓ κ} {T : Type ℓ} {K : Type κ} ⦃e : Comparable K⦄ where
  -- The object to use, whether the given one has been closed, and the storage. `closes` tells
  -- whether an object is an `io.Closer`.
  unfoldable pub compare_and_store :
      (T → Bool) → K → T → SharedStorage T K → T × Bool × SharedStorage T K
  compare_and_store closes id obj s =
      let members = insert id (inc (or_zero (lookup id s.members))) s.members in
      elim (lookup id s.objects) [
        | some c ↦ (c, closes obj, record s { members = members })
        | none ↦ (obj, false, record { objects = insert id obj s.objects; members = members })
      ]

  unfoldable pub leave : K → SharedStorage T K → Bool × SharedStorage T K
  leave id s =
      let n = dec (or_zero (lookup id s.members)) in
      if is_zero n
      then (
        true,
        record { objects = remove id s.objects; members = remove id (insert id n s.members) },
      )
      else (false, record s { members = insert id n s.members })

  -- n members share the object `c` under `id`; none has one, and there is no entry.
  abbrev pub Shares : K → ℕ → T → SharedStorage T K → Type ℓ
  Shares id zero c s = (lookup id s.objects ≡ none) × (lookup id s.members ≡ none)
  Shares id (suc n) c s =
      (lookup id s.objects ≡ some c) × (lookup id s.members ≡ some (pos (suc n)))

  -- The first member's object is kept, and every later member gets it in place of its own.
  pub compare_and_store-Shares :
      (closes : T → Bool) (id : K) (n : ℕ) (c obj : T) (s : SharedStorage T K)
      → Shares id (suc n) c s
      → ((compare_and_store closes id obj s).0 ≡ c)
        × ((compare_and_store closes id obj s).1 ≡ closes obj)
        × Shares id (suc (suc n)) c (compare_and_store closes id obj s).2
  unfolding compare_and_store
  compare_and_store-Shares closes id n c obj s h =
      ground (arith, lookup-insert id id (pos (suc (suc n))) s.members, ==_refl id)

  pub compare_and_store-first :
      (closes : T → Bool) (id : K) (obj : T) (s : SharedStorage T K)
      → Shares id zero obj s
      → ((compare_and_store closes id obj s).0 ≡ obj)
        × ((compare_and_store closes id obj s).1 ≡ false)
        × Shares id 1 obj (compare_and_store closes id obj s).2
  unfolding compare_and_store
  compare_and_store-first closes id obj s h =
      ground (
        arith,
        lookup-insert id id (pos 1) s.members,
        lookup-insert id id obj s.objects,
        ==_refl id,
      )

  leave-Shares :
      (id : K) (n : ℕ) (c : T) (s : SharedStorage T K)
      → Shares id (suc n) c s
      → ((leave id s).0 ≡ nat_beq n 0) × Shares id n c (leave id s).1
  unfolding leave
  leave-Shares id zero c s h = ground (
    arith,
    lookup-remove id id (insert id (pos 0) s.members),
    lookup-remove id id s.objects,
    ==_refl id,
  )
  leave-Shares id (suc n) c s h =
      ground (arith, lookup-insert id id (pos (suc n)) s.members, ==_refl id)

  -- A member for each of the objects, one after another: the objects that they get.
  unfoldable pub join_all : (T → Bool) → K → List T → SharedStorage T K → List T × SharedStorage T K
  join_all closes id [] s = ([], s)
  join_all closes id (obj ∷ objs) s =
      let (used, _, s') = compare_and_store closes id obj s in
      let (rest, s'') = join_all closes id objs s' in (used ∷ rest, s'')

  -- So many members leave: what `Leave` tells each of them.
  unfoldable pub leave_all : K → ℕ → SharedStorage T K → List Bool × SharedStorage T K
  leave_all id zero s = ([], s)
  leave_all id (suc n) s =
      let (last, s') = leave id s in let (rest, s'') = leave_all id n s' in (last ∷ rest, s'')

  join_all-Shares :
      (closes : T → Bool) (id : K) (n : ℕ) (c : T) (objs : List T) (s : SharedStorage T K)
      → Shares id (suc n) c s
      → ((join_all closes id objs s).0 ≡ replicate (length objs) c)
        × Shares id (suc (n + length objs)) c (join_all closes id objs s).1
  unfolding join_all
  join_all-Shares closes id n c [] s h = (refl, let e : n + 0 ≡ n = omega arith in rw e h)
  join_all-Shares closes id n c (obj ∷ objs) s h =
      let (same, _, h') = compare_and_store-Shares closes id n c obj s h in
      let (rest, h'') =
        join_all-Shares closes id (suc n) c objs (compare_and_store closes id obj s).2 h' in
      let e : n + suc (length objs) ≡ suc n + length objs = omega arith in
      (rw (same, rest) refl, rw e h'')

  leave_all-Shares :
      (id : K) (n : ℕ) (c : T) (s : SharedStorage T K)
      → Shares id (suc n) c s
      → ((leave_all id (suc n) s).0 ≡ replicate n false ++ true ∷ [])
        × Shares id zero c (leave_all id (suc n) s).1
  unfolding leave_all
  leave_all-Shares id zero c s h = let (last, h') = leave-Shares id zero c s h in (rw last refl, h')
  leave_all-Shares id (suc n) c s h =
      let (last, h') = leave-Shares id (suc n) c s h in
      let (rest, h'') = leave_all-Shares id n c (leave id s).1 h' in
      let more : nat_beq (suc n) 0 ≡ false = ground arith in
      (rw (last, more) (ap (λ l. false ∷ l) rest), h'')

  -- The members of a line of plugins join under an id that nobody uses, and leave: all get the object
  -- of the first of them, only the last one to leave is told so, and nothing is left under the id.
  pub lifetime :
      (closes : T → Bool) (id : K) (c : T) (objs : List T) (s : SharedStorage T K)
      → Shares id zero c s
      → ((join_all closes id (c ∷ objs) s).0 ≡ replicate (suc (length objs)) c)
        × ((leave_all id (suc (length objs)) (join_all closes id (c ∷ objs) s).1).0
            ≡ replicate (length objs) false ++ true ∷ [])
        × Shares id zero c (leave_all id (suc (length objs)) (join_all closes id (c ∷ objs) s).1).1
  unfolding join_all
  lifetime closes id c objs s h =
      let (first, _, h') = compare_and_store-first closes id c s h in
      let (rest, h'') =
        join_all-Shares closes id zero c objs (compare_and_store closes id c s).2 h' in
      let e : 0 + length objs ≡ length objs = omega arith in
      let (told, gone) =
        leave_all-Shares id (length objs) c
          (join_all closes id objs (compare_and_store closes id c s).2).1 (rw e at h'') in
      (rw (first, rest) refl, told, gone)
