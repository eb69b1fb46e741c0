-- ===== src/Filters.antt =====
-- plugins/filters/ and plugins/core/not/not.go: what a filter accepts, and where it sends it.
pub mod Glob
use neptunus.Base.{Bool, true, false, not, List, [], ◌∷◌, if◌then◌else◌}
use neptunus.Core.Event.{Event}

-- The two channels of `BaseFilter`.
pub record Channels (C : Type 0) : Type 0 where
  pub rej : C
  pub acc : C

-- core/base.go, `BaseFilter.SetChannels`.
unfoldable pub set_channels : {C : Type 0} → Bool → C → C → Channels C
set_channels reverse rejected accepted =
    if reverse
    then record { rej = accepted; acc = rejected }
    else record { rej = rejected; acc = accepted }

-- plugins/core/not/not.go, `SetChannels`: the child gets the two channels in the other order.
unfoldable pub not_set_channels : {C : Type 0} → Bool → C → C → Channels C
unfolding set_channels
not_set_channels reverse rejected accepted = set_channels reverse accepted rejected

-- metrics.EventStatus, and the observer that `Not.SetChannels` puts in place of its child's.
pub data EventStatus : Type 0 where
  event_accepted event_rejected event_failed : EventStatus

unfoldable pub not_status : EventStatus → EventStatus
not_status event_accepted = event_rejected
not_status event_rejected = event_accepted
not_status status = status

module _ {D : Type 0} where
  -- noerrors.go and pass.go: the test of `Run`.
  unfoldable pub noerrors : Event D → Bool
  noerrors e = elim e.errors [ [] ↦ true | x ∷ xs ↦ false ]

  unfoldable pub pass : Event D → Bool
  pass e = true

  -- The loop of a filter's `Run` with a test: what it sends to the channel of rejected events, and
  -- to that of accepted ones.
  unfoldable pub run_filter : (Event D → Bool) → List (Event D) → Channels (List (Event D))
  run_filter test [] = record { rej = []; acc = [] }
  run_filter test (e ∷ es) =
      let rest = run_filter test es in
      if test e then record rest { acc = e ∷ rest.acc } else record rest { rej = e ∷ rest.rej }
