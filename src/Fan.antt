-- ===== src/Fan.antt =====
-- plugins/core/fanout/fanout.go: the broadcast of each event to every output.
pub mod Broadcast
use neptunus.Base.{ℕ, zero, suc, List, [], ◌∷◌}
use neptunus.Core.Fields.{MapPath}
use neptunus.Core.Event.{Event, Heap, clone}

module _ (m : MapPath) where
  open m use {Any}

  -- The inner loop of `FanOut.Run` from the consumer after which `n - 1` others come: the last one
  -- is sent the event itself, the others a clone under the event's own uuid. `fresh` has the uuids
  -- that `Clone` makes.
  unfoldable pub send : (ℕ → ℕ) → ℕ → Event Any → Heap → List (Event Any) × Heap
  send fresh zero e h = ([], h)
  send fresh (suc zero) e h = (e ∷ [], h)
  send fresh (suc (suc n)) e h =
      let (cloned, h') = clone m (fresh n) e h in
      let (rest, h'') = send fresh (suc n) e h' in (record cloned { uuid = e.uuid } ∷ rest, h'')

  -- `FanOut.Run`: for each event of the input, what is sent to the outputs in order.
  unfoldable pub fan_out : (ℕ → ℕ) → ℕ → List (Event Any) → Heap → List (List (Event Any)) × Heap
  unfolding send
  fan_out fresh outs [] h = ([], h)
  fan_out fresh outs (e ∷ es) h =
      let (sent, h') = send fresh outs e h in
      let (rest, h'') = fan_out fresh outs es h' in (sent ∷ rest, h'')
