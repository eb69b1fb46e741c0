-- ===== src/Fan/Broadcast.antt =====
-- plugins/core/fanout/fanout.go: what the outputs receive, and when the hooks run.
use neptunus.Base.{
  ℕ, zero, suc, ◌+◌, ◌<◌, ◌≤◌, ◌≡◌, refl, some, [], ◌∷◌, get_elem?, set, replicate, set-set,
  set-get_elem?, get_elem?-set_self, length-replicate, arith, if◌then◌else◌, nat_beq, ap, ◌∙◌, sym,
}
use neptunus.Core.Fields.{MapPath}
use neptunus.Core.Tracker.{Tracker, calls, copy, int32_sign}
use neptunus.Core.Event.{Event, Heap, Address, clone}
use neptunus.Core.Event.Sharing.{finish_all, Holds, finish_all-hooks}
use neptunus.Fan.{send}

copy-duty :
    (t : Tracker) (d : ℕ) → t.duty ≡ d → suc d < int32_sign → copy t ≡ record t { duty = suc d }
unfolding copy
copy-duty t d e b = ground arith

module _ (m : MapPath) (faithful : (d : m.Any) → m.clone d ≡ d) (fresh : ℕ → ℕ)
    (e : Event m.Any) where
  clone_at :
      (u : ℕ) (d : ℕ) (p : Address) (h : Heap) (t : Tracker)
      → e.tracker ≡ some p
      → get_elem? h p ≡ some t
      → t.duty ≡ d
      → suc d < int32_sign
      → clone m u e h ≡ (record e { uuid = u }, set h p (record t { duty = suc d }))
  unfolding clone
  clone_at u d p h t tr g du b = ground (arith, faithful e.body, copy-duty t d)

  -- To n + 1 outputs, n + 1 events go that are equal to the one received, and the tracker has n
  -- holders more.
  pub send-copies :
      (n d : ℕ) (p : Address) (h : Heap) (t : Tracker)
      → e.tracker ≡ some p
      → get_elem? h p ≡ some t
      → t.duty ≡ d
      → n + d < int32_sign
      → send m fresh (suc n) e h ≡ (replicate (suc n) e, set h p (record t { duty = n + d }))
  unfolding send
  send-copies zero d p h t tr g du b =
      ap (λ l. (e ∷ [], l)) (sym (set-get_elem? h p t g))
      ∙ ap (λ k. (e ∷ [], set h p (record t { duty = k }))) (omega arith)
  send-copies (suc n) d p h t tr g du b =
      rw
        (
          clone_at (fresh n) d p h t tr g du (omega arith),
          send-copies n (suc d) p (set h p (record t { duty = suc d })) (record t { duty = suc d })
              tr (get_elem?-set_self h p _ t g) refl (omega arith),
          set-set h p (record t { duty = suc d }) (record t { duty = n + suc d }),
        )
        (ap (λ k. (replicate (suc (suc n)) e, set h p (record t { duty = k }))) (omega arith))

  Holds-replicate : (p : Address) (j : ℕ) → e.tracker ≡ some p → Holds p (replicate j e)
  Holds-replicate p zero h = tt
  Holds-replicate p (suc j) h = (h, Holds-replicate p j h)

  -- An event with one holder is broadcast to n + 1 outputs, with values that `mappath` clones
  -- faithfully. Then each output has an event equal to it. When any j of the n + 1 received events
  -- are done, nothing panics, and the hooks are called exactly if j is n + 1.
  pub broadcast-done :
      (n j : ℕ) (p : Address) (h : Heap) (t : Tracker)
      → e.tracker ≡ some p
      → get_elem? h p ≡ some t
      → t.duty ≡ 1
      → suc n < int32_sign
      → j ≤ suc n
      → ((send m fresh (suc n) e h).0 ≡ replicate (suc n) e)
        × ((finish_all (replicate j e) (send m fresh (suc n) e h).1).1
            ≡ calls (if nat_beq j (suc n) then t.hook else []))
  broadcast-done n j p h t at g du b l =
      let sent = send-copies n 1 p h t at g du (omega arith) in
      let after = record t { duty = n + 1 } in
      rw
        (
          sent,
          finish_all-hooks p (replicate j e) (set h p after) after n (Holds-replicate p j at)
              (get_elem?-set_self h p after t g) (omega arith) b (rw length-replicate l),
          length-replicate j e,
        )
        (refl, refl)
