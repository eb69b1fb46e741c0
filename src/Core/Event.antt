-- ===== src/Core/Event.antt =====
-- core/event.go and core/errors.go: the event that flows through a pipeline. An event is reached
-- through a pointer of one owner, so a method that changes it returns the new event; what clones
-- share is the tracker, so trackers live in a heap and an event holds the address of one.
pub mod Tags
pub mod Sharing
use neptunus.Base.{
  ℕ, zero, suc, ◌-◌, ◌+◌, String, Bool, true, false, ◌||◌, Option, none, some, List, [], ◌∷◌, ◌++◌,
  length, get_elem?, set, Assoc, lookup, insert, remove, Result, ok, err, ◌==◌, string_comparable,
  if◌then◌else◌, ◌>>=◌, contains,
}
use neptunus.Base.Int.{ℤ, pos, negsuc}
use neptunus.Core.Fields.{Error, MapPath}
use neptunus.Core.Tracker.{
  Tracker, Hook, Effect, calls, panic, new_tracker, add_hook, copy, decreace, int32_value,
}

abbrev pub Heap : Type 0
Heap = List Tracker

-- The address of a tracker in the heap.
abbrev pub Address : Type 0
Address = ℕ

pub record Event (D : Type 0) : Type 0 where
  pub id : String
  pub uuid : ℕ
  pub timestamp : ℕ
  pub routing_key : String
  pub tags : List String
  pub labels : Assoc String String
  pub body : D
  pub errors : List Error
  pub tracker : Option Address

-- Update of the tracker at an address. Addresses in events come from `new_tracker`, so the other
-- case does not arise.
abbrev pub modify : Address → (Tracker → Tracker) → Heap → Heap
modify p f h = elim (get_elem? h p) [ none ↦ h | some t ↦ set h p (f t) ]

-- The new ids and the time are those that the caller obtained.
unfoldable pub new_event_with_data : {D : Type 0} → String → ℕ → ℕ → String → D → Event D
new_event_with_data new_id new_uuid now routing_key body = record {
  id = new_id;
  uuid = new_uuid;
  timestamp = now;
  routing_key = routing_key;
  tags = [];
  labels = [];
  body = body;
  errors = [];
  tracker = none;
}

module _ {D : Type 0} where
  -- `AddHook` of events.
  unfoldable pub attach : Hook → Event D → Heap → Event D × Heap
  unfolding new_tracker add_hook
  attach hook e h = elim e.tracker [
    | none ↦ (record e { tracker = some (length h) }, h ++ new_tracker hook ∷ [])
    | some p ↦ (e, modify p (add_hook hook) h)
  ]

  -- `Done`.
  unfoldable pub finish : Event D → Heap → Heap × Effect
  unfolding decreace
  finish e h = elim e.tracker [
    | none ↦ (h, calls [])
    | some p ↦ elim (get_elem? h p) [
      | none ↦ (h, calls [])
      | some t ↦ (set h p (decreace t).0, (decreace t).1)
    ]
  ]

  unfoldable pub duty : Event D → Heap → ℤ
  duty e h = elim e.tracker [
    | none ↦ negsuc 0
    | some p ↦ elim (get_elem? h p) [ none ↦ negsuc 0 | some t ↦ int32_value t.duty ]
  ]

  unfoldable pub stack_error : Error → Event D → Event D
  stack_error x e = record e { errors = e.errors ++ x ∷ [] }

  unfoldable pub get_label : String → Event D → Option String
  get_label key e = lookup key e.labels

  unfoldable pub set_label : String → String → Event D → Event D
  set_label key value e = record e { labels = insert key value e.labels }

  unfoldable pub delete_label : String → Event D → Event D
  delete_label key e = record e { labels = remove key e.labels }

-- The loop of `DeleteTag` that finds the first index.
unfoldable pub index_of : List String → String → Option ℕ
index_of [] t = none
index_of (x ∷ xs) t =
    let rest = index_of xs t in
    if x == t then some 0 else elim rest [ none ↦ none | some i ↦ some (suc i) ]

-- `tags[len(tags)-1]`, with a default where there is none.
unfoldable pub last : String → List String → String
last d [] = d
last d (x ∷ xs) = last x xs

-- `tags[:len(tags)-1]`.
unfoldable pub init : List String → List String
init [] = []
init (x ∷ []) = []
init (x ∷ y ∷ xs) = x ∷ init (y ∷ xs)

unfoldable pub delete_from : List String → String → List String
unfolding index_of last init
delete_from tags tag = elim (index_of tags tag) [
  | none ↦ tags
  | some i ↦ init (set tags i (last tag tags))
]

module _ {D : Type 0} where
  unfoldable pub has_tag : String → Event D → Bool
  unfolding contains
  has_tag tag e = contains e.tags tag

  unfoldable pub add_tag : String → Event D → Event D
  unfolding contains
  add_tag tag e = if contains e.tags tag then e else record e { tags = e.tags ++ tag ∷ [] }

  unfoldable pub delete_tag : String → Event D → Event D
  unfolding delete_from
  delete_tag tag e = record e { tags = delete_from e.tags tag }

module _ (m : MapPath) where
  open m use {Any}

  unfoldable pub get_field : String → Event Any → Result Error Any
  get_field key e = m.get e.body key

  unfoldable pub set_field : String → Any → Event Any → Result Error (Event Any)
  set_field key value e = do p ← m.put e.body key value; ok (record e { body = p })

  unfoldable pub delete_field : String → Event Any → Result Error (Event Any)
  delete_field key e = do p ← m.delete e.body key; ok (record e { body = p })

  -- The copies of the slices and of the map are equal to them; the tracker is shared, and counts
  -- one more holder.
  unfoldable pub clone : ℕ → Event Any → Heap → Event Any × Heap
  unfolding copy
  clone new_uuid e h = (
    record e { uuid = new_uuid; body = m.clone e.body },
    elim e.tracker [ none ↦ h | some p ↦ modify p copy h ],
  )

  -- `ShareTracker`.
  unfoldable pub share_tracker : Event Any → Event Any → Heap → Result Error (Event Any × Heap)
  unfolding copy
  share_tracker from to h = elim to.tracker [
    | some _ ↦ err "receiver already has a tracker"
    | none ↦ ok (elim from.tracker [
      | none ↦ (to, h)
      | some p ↦ (record to { tracker = some p }, modify p copy h)
    ])
  ]

-- core/errors.go, `Slice`: the loop that appends the text of each error.
unfoldable pub error_slice : List Error → List String → List String
error_slice [] s = s
error_slice (x ∷ xs) s = error_slice xs (s ++ x ∷ [])
