-- ===== src/Core/Event/Sharing.antt =====
-- core/event.go: what `Done` and `Clone` do to a tracker that several events share.
use neptunus.Base.{
  ℕ, zero, suc, ◌-◌, ◌<◌, ◌≤◌, ◌≡◌, some, List, [], ◌∷◌, length, get_elem?, set, replicate, set-set,
  set-get_elem?, get_elem?-set_self, arith, if◌then◌else◌, nat_beq,
}
use neptunus.Core.Tracker.{Tracker, Effect, calls, decreace, int32_sign}
use neptunus.Core.Tracker.Duty.{done, join, run, step, Held, holders, run-counts}
use neptunus.Core.Event.{Event, Heap, Address, finish}

-- `Done` of every event of a list, one after another; the hooks called, or the panic.
unfoldable pub finish_all : {D : Type 0} → List (Event D) → Heap → Heap × Effect
finish_all [] h = (h, calls [])
finish_all (e ∷ es) h =
    let (h', r) = finish e h in let (h'', s) = finish_all es h' in (h'', join r s)

-- The events of the list hold the tracker at `p`.
abbrev pub Holds : {D : Type 0} → Address → List (Event D) → Type 0
Holds p [] = Unit {0}
Holds p (e ∷ es) = (e.tracker ≡ some p) × Holds p es

finish_at :
    {D : Type 0} (e : Event D) (p : Address) (h : Heap) (t : Tracker)
    → e.tracker ≡ some p
    → get_elem? h p ≡ some t
    → finish e h ≡ (set h p (decreace t).0, (decreace t).1)
unfolding finish
finish_at e p h t tr g = ground arith

-- `Done` of events that share a tracker is as many calls of `Decreace` on it.
pub finish_all-run :
    {D : Type 0} (p : Address) (es : List (Event D)) (h : Heap) (t : Tracker)
    → Holds p es
    → get_elem? h p ≡ some t
    → finish_all es h
      ≡ (set h p (run (replicate (length es) done) t).0, (run (replicate (length es) done) t).1)
unfolding finish_all run step
finish_all-run p [] h t hs g = rw (set-get_elem? h p t g)
finish_all-run p (e ∷ es) h t hs g =
    let ih =
      finish_all-run p es (set h p (decreace t).0) (decreace t).0 hs.1
        (get_elem?-set_self h p (decreace t).0 t g) in
    rw (finish_at e p h t hs.0 g, ih, set-set h p (decreace t).0)

Held-replicate : (j r : ℕ) → j ≤ r → Held r (replicate j done)
Held-replicate zero r h = tt
Held-replicate (suc j) r h = (omega arith, Held-replicate j (r - 1) (omega arith))

holders-replicate : (j r : ℕ) → holders r (replicate j done) ≡ r - j
holders-replicate zero r = omega arith
holders-replicate (suc j) r = omega (arith, holders-replicate j (r - 1))

-- Of the k + 1 events that hold a tracker with duty k + 1, `Done` of any n + 1 does not panic, and
-- calls the hooks exactly if these are all.
pub finish_all-hooks :
    {D : Type 0} (p : Address) (es : List (Event D)) (h : Heap) (t : Tracker) (k : ℕ)
    → Holds p es
    → get_elem? h p ≡ some t
    → t.duty ≡ suc k
    → suc k < int32_sign
    → length es ≤ suc k
    → (finish_all es h).1 ≡ calls (if nat_beq (length es) (suc k) then t.hook else [])
finish_all-hooks p es h t k hs g d b l =
    rw
      (
        finish_all-run p es h t hs g,
        run-counts (replicate (length es) done) k t d b (Held-replicate (length es) (suc k) l),
        holders-replicate (length es) (suc k),
      )
      (ground arith)
