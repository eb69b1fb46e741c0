-- ===== src/Processors/Cloning/Outputs.antt =====
-- plugins/processors/clone/clone.go: the events that the processor sends, and their tracker.
use neptunus.Base.{
  ℕ, zero, suc, ◌+◌, ◌%◌, ◌<◌, ◌≡◌, refl, ap, ◌∙◌, String, Bool, Option, none, some, List, [], ◌∷◌,
  ◌++◌, length, length-append, get_elem?, get_elem?-set_self, arith, if◌then◌else◌, nat_beq, Assoc,
  string_comparable,
}
use neptunus.Core.Fields.{MapPath}
use neptunus.Core.Tracker.{Tracker, calls, copy, int32_mod, int32_sign}
use neptunus.Core.Event.{Event, Heap, Address, clone, modify, set_label}
use neptunus.Core.Event.Sharing.{finish_all, Holds, finish_all-hooks}
use neptunus.Processors.Cloning.{
  Clone, init_count, put_labels, put_key, put_timestamp, dress, copies, clone_event,
}

put_labels-timestamp :
    {D : Type 0} (labels : Assoc String String) (e : Event D)
    → (put_labels labels e).timestamp ≡ e.timestamp
unfolding put_labels set_label
put_labels-timestamp [] e = refl
put_labels-timestamp ((k, v) ∷ rest) e = put_labels-timestamp rest (set_label k v e)

put_labels-tracker :
    {D : Type 0} (labels : Assoc String String) (e : Event D)
    → (put_labels labels e).tracker ≡ e.tracker
unfolding put_labels set_label
put_labels-tracker [] e = refl
put_labels-tracker ((k, v) ∷ rest) e = put_labels-tracker rest (set_label k v e)

pub copy_small : (t : Tracker) → t.duty + 1 < int32_sign → copy t ≡ record t { duty = t.duty + 1 }
unfolding copy
copy_small t b = rw (modulo (t.duty + 1) (omega arith)) refl
  where
    modulo : (n : ℕ) → n < int32_sign → n % int32_mod ≡ n
    modulo n h = omega arith

modify-get_elem? :
    (a : Address) (f : Tracker → Tracker) (h : Heap) (t : Tracker)
    → get_elem? h a ≡ some t
    → get_elem? (modify a f h) a ≡ some (f t)
modify-get_elem? a f h t g = ground (arith, get_elem?-set_self h a (f t) t g)

module _ (m : MapPath) where
  open m use {Any}

  put_key-rest :
      (key : String) (c : Event Any)
      → ((put_key m key c).tracker ≡ c.tracker) × ((put_key m key c).timestamp ≡ c.timestamp)
  unfolding put_key
  put_key-rest key c = ground arith

  put_timestamp-tracker :
      (save : Bool) (now : ℕ) (c : Event Any) → (put_timestamp m save now c).tracker ≡ c.tracker
  unfolding put_timestamp
  put_timestamp-tracker save now c = ground arith

  put_timestamp-same :
      (save : Bool) (now : ℕ) (c : Event Any)
      → c.timestamp ≡ now
      → (put_timestamp m save now c).timestamp ≡ now
  unfolding put_timestamp
  put_timestamp-same save now c h = ground arith

  dress-tracker : (p : Clone) (e c : Event Any) → (dress m p e c).tracker ≡ c.tracker
  unfolding dress
  dress-tracker p e c =
      let keyed = put_key m p.routing_key c in
      put_timestamp-tracker p.save_timestamp e.timestamp (put_labels p.labels keyed)
      ∙ put_labels-tracker p.labels keyed
      ∙ (put_key-rest p.routing_key c).0

  dress-timestamp :
      (p : Clone) (e c : Event Any)
      → c.timestamp ≡ e.timestamp
      → (dress m p e c).timestamp ≡ e.timestamp
  unfolding dress
  dress-timestamp p e c h =
      let keyed = put_key m p.routing_key c in
      put_timestamp-same p.save_timestamp e.timestamp (put_labels p.labels keyed)
        (put_labels-timestamp p.labels keyed ∙ (put_key-rest p.routing_key c).1 ∙ h)

  -- Every event of the list has the time.
  abbrev pub Stamped : ℕ → List (Event Any) → Type 0
  Stamped t [] = Unit {0}
  Stamped t (e ∷ es) = (e.timestamp ≡ t) × Stamped t es

  copies-length :
      (p : Clone) (u : ℕ → ℕ) (n : ℕ) (e : Event Any) (h : Heap) → length (copies m p u n e h).0 ≡ n
  unfolding copies
  copies-length p u zero e h = refl
  copies-length p u (suc n) e h = ap (λ k. suc k) (copies-length p u n e (clone m (u n) e h).1)

  -- Each copy holds the event's tracker.
  copies-Holds :
      (p : Clone) (u : ℕ → ℕ) (n : ℕ) (e : Event Any) (h : Heap) (a : Address)
      → e.tracker ≡ some a
      → Holds a ((copies m p u n e h).0 ++ e ∷ [])
  unfolding copies clone
  copies-Holds p u zero e h a t = (t, tt)
  copies-Holds p u (suc n) e h a t =
      (dress-tracker p e (clone m (u n) e h).0 ∙ t, copies-Holds p u n e (clone m (u n) e h).1 a t)

  pub clone-heap :
      (u : ℕ) (e : Event Any) (h : Heap) (a : Address) (t : Tracker)
      → e.tracker ≡ some a
      → get_elem? h a ≡ some t
      → get_elem? (clone m u e h).1 a ≡ some (copy t)
  unfolding clone
  clone-heap u e h a t tr g =
      ap (λ (q : Option Address). get_elem? (elim q [ none ↦ h | some b ↦ modify b copy h ]) a) tr
      ∙ modify-get_elem? a copy h t g

  copies-heap :
      (p : Clone) (u : ℕ → ℕ) (n : ℕ) (e : Event Any) (h : Heap) (a : Address) (t : Tracker)
      → e.tracker ≡ some a
      → get_elem? h a ≡ some t
      → t.duty + n < int32_sign
      → get_elem? (copies m p u n e h).1 a ≡ some (record t { duty = t.duty + n })
  unfolding copies
  copies-heap p u zero e h a t tr g b = ground arith
  copies-heap p u (suc n) e h a t tr g b =
      let same = copy_small t (omega arith) in
      copies-heap p u n e (clone m (u n) e h).1 a (record t { duty = t.duty + 1 }) tr
        (clone-heap (u n) e h a t tr g ∙ ap (λ s. some s) same) (omega arith)
      ∙ ap (λ d. some (record t { duty = d })) (omega arith)

  clone-timestamp : (u : ℕ) (e : Event Any) (h : Heap) → (clone m u e h).0.timestamp ≡ e.timestamp
  unfolding clone
  clone-timestamp u e h = refl

  copies-Stamped :
      (p : Clone) (u : ℕ → ℕ) (n : ℕ) (e : Event Any) (h : Heap)
      → Stamped e.timestamp ((copies m p u n e h).0 ++ e ∷ [])
  unfolding copies
  copies-Stamped p u zero e h = (refl, tt)
  copies-Stamped p u (suc n) e h = (
    dress-timestamp p e (clone m (u n) e h).0 (clone-timestamp (u n) e h),
    copies-Stamped p u n e (clone m (u n) e h).1,
  )

  -- Whatever `save_timestamp` is, every event that the processor sends has the time of the event
  -- that it received.
  clone_event-Stamped :
      (p : Clone) (u : ℕ → ℕ) (e : Event Any) (h : Heap)
      → Stamped e.timestamp (clone_event m p u e h).0
  unfolding clone_event
  clone_event-Stamped p u e h = copies-Stamped p u (init_count p.count) e h

  -- If an event is the only holder of its tracker and the count, which is at least 1, fits an
  -- int32, the processor sends that many copies and the event behind them, and `Done` of all that
  -- it sends calls the hooks of the tracker once and does not panic.
  pub clone_event-hooks :
      (p : Clone) (u : ℕ → ℕ) (e : Event Any) (h : Heap) (a : Address) (t : Tracker)
      → e.tracker ≡ some a
      → get_elem? h a ≡ some t
      → t.duty ≡ 1
      → init_count p.count + 1 < int32_sign
      → (length (clone_event m p u e h).0 ≡ suc (init_count p.count))
        × ((finish_all (clone_event m p u e h).0 (clone_event m p u e h).1).1 ≡ calls t.hook)
  unfolding clone_event
  clone_event-hooks p u e h a t tr g d b =
      let n = init_count p.count in
      let sent = (copies m p u n e h).0 ++ e ∷ [] in
      let len : length sent ≡ suc n =
        length-append (copies m p u n e h).0 (e ∷ []) ∙ omega (arith, copies-length p u n e h) in
      let at = copies-heap p u n e h a t tr g (omega arith) in
      let done =
        finish_all-hooks a sent (copies m p u n e h).1 (record t { duty = t.duty + n }) n
          (copies-Holds p u n e h a tr) at (omega arith) (omega arith) (omega arith) in
      (len, done ∙ ap (λ k. calls (if nat_beq k (suc n) then t.hook else [])) len ∙ ground arith)
