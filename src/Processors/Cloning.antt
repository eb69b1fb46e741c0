-- ===== src/Processors/Cloning.antt =====
-- plugins/processors/clone/clone.go: an event and its copies.
pub mod Outputs
use neptunus.Base.{
  ℕ, zero, suc, String, Bool, List, [], ◌∷◌, ◌++◌, Assoc, nat_beq, if◌then◌else◌, ltb, ◌==◌,
  string_comparable,
}
use neptunus.Base.Int.{ℤ, pos, negsuc}
use neptunus.Core.Fields.{MapPath}
use neptunus.Core.Event.{Event, Heap, set_label, clone}

pub record Clone : Type 0 where
  pub routing_key : String
  pub save_timestamp : Bool
  pub count : ℤ
  pub labels : Assoc String String

-- `Init`: the count that the loop of `Run` then has.
unfoldable pub init_count : ℤ → ℕ
init_count (pos zero) = 1
init_count (pos (suc n)) = suc n
init_count (negsuc n) = 1

-- The loop over `Labels`.
unfoldable pub put_labels : {D : Type 0} → Assoc String String → Event D → Event D
unfolding set_label
put_labels [] e = e
put_labels ((k, v) ∷ rest) e = put_labels rest (set_label k v e)

module _ (m : MapPath) where
  open m use {Any}

  -- What the loop of `Run` sets in a copy of the event: the key, the labels, the time.
  unfoldable pub put_key : String → Event Any → Event Any
  put_key key cloned = if key == "" then cloned else record cloned { routing_key = key }

  unfoldable pub put_timestamp : Bool → ℕ → Event Any → Event Any
  put_timestamp save now cloned = if save then record cloned { timestamp = now } else cloned

  unfoldable pub dress : Clone → Event Any → Event Any → Event Any
  unfolding put_key put_labels put_timestamp
  dress p e cloned =
      put_timestamp p.save_timestamp e.timestamp
        (put_labels p.labels (put_key p.routing_key cloned))

  -- The loop, with the number of rounds left; `new_uuid` has the identifier of each round's copy.
  unfoldable pub copies : Clone → (ℕ → ℕ) → ℕ → Event Any → Heap → List (Event Any) × Heap
  unfolding clone dress
  copies p new_uuid zero e h = ([], h)
  copies p new_uuid (suc n) e h =
      let (cloned, h') = clone m (new_uuid n) e h in
      let (rest, h'') = copies p new_uuid n e h' in (dress p e cloned ∷ rest, h'')

  -- The body of `Run`: what it sends, in order.
  unfoldable pub clone_event : Clone → (ℕ → ℕ) → Event Any → Heap → List (Event Any) × Heap
  unfolding init_count copies
  clone_event p new_uuid e h =
      let (cloned, h') = copies p new_uuid (init_count p.count) e h in (cloned ++ e ∷ [], h')
