-- ===== src/Units/Output.antt =====
-- core/unit/soft.go: the output's unit. Its filters and its output are a chain as in the processor's
-- unit; rejected events and events that are done have a channel and a goroutine each.
pub mod Sound
pub mod Steps
pub mod Returns
use neptunus.Base.{ℕ, zero, suc, Bool, true, false, not, ◌&&◌, List, [], ◌∷◌, ◌++◌}
use neptunus.Units.{
  Event, Outcome, blocked, stepped, ◌>>=◌, guard, Channel, send, close, Stage, receive, give, leave,
  Chain, head, with_head, Effect, quiet, ended, outward, dropping, FilterAction, fetch, drop,
  return, ChainAction, filters, processes, chain_step, all_exited, new_stage, new_chain,
}

-- `outSoftUnit`: `held` has the events that the output collects for a batch, `returned` is set when
-- `Run` is over, and `finished` has the events whose `Done` has been called.
pub record OutUnit : Type 0 where
  pub chain : Chain
  pub held : List Event
  pub rejected : Stage
  pub processed : Stage
  pub returned : Bool
  pub finished : List Event

-- An output receives, sends what it has to the channel of done events or keeps it for a batch, sends
-- an event that it keeps there, by its index, or ends.
pub data OutputAction : Type 0 where
  output_take output_done output_keep output_exit : OutputAction
  output_release : ℕ → OutputAction

-- The event with the index, and the others.
unfoldable pub pick : ℕ → List Event → Outcome (Event × List Event)
pick i [] = blocked
pick zero (e ∷ es) = stepped (e, es)
pick (suc i) (e ∷ es) = do r ← pick i es; stepped (r.0, e ∷ r.1)

unfoldable pub is_empty : List Event → Bool
is_empty [] = true
is_empty (e ∷ es) = false

-- The event in hand, of the chain's last stage, is kept.
unfoldable pub keep : Effect → OutUnit → Outcome OutUnit
keep (dropping e) u = stepped (record u { held = u.held ++ e ∷ [] })
keep quiet u = blocked
keep (outward e) u = blocked
keep ended u = blocked

-- An output ends once it keeps nothing.
unfoldable pub apply : Effect → OutUnit → Outcome OutUnit
unfolding send close is_empty
apply quiet u = stepped u
apply (outward e) u = do
  q ← send e u.rejected.input
  stepped (record u { rejected = record u.rejected { input = q } })
apply (dropping e) u = do
  q ← send e u.processed.input
  stepped (record u { processed = record u.processed { input = q } })
apply ended u = guard (is_empty u.held) (do
  r ← close u.rejected.input
  q ← close u.processed.input
  stepped (record u {
    rejected = record u.rejected { input = r };
    processed = record u.processed { input = q };
  }))

-- A step of the output's plugin.
unfoldable pub output_step : OutputAction → OutUnit → Outcome OutUnit
unfolding chain_step apply keep pick
output_step output_take u = do
  r ← chain_step (processes fetch) u.chain
  apply r.0 (record u { chain = r.1 })
output_step output_done u = do
  r ← chain_step (processes drop) u.chain
  apply r.0 (record u { chain = r.1 })
output_step output_keep u = do
  r ← chain_step (processes drop) u.chain
  keep r.0 (record u { chain = r.1 })
output_step output_exit u = do
  r ← chain_step (processes return) u.chain
  apply r.0 (record u { chain = r.1 })
output_step (output_release i) u = do
  r ← pick i u.held
  apply (dropping r.0) (record u { held = r.1 })

-- The steps of a goroutine that calls `Done` for the events of a channel.
pub data DoneAction : Type 0 where
  done_take done_call done_exit : DoneAction

unfoldable pub done_step : DoneAction → Stage → List Event → Outcome (Stage × List Event)
unfolding receive give leave
done_step done_take s events = do s' ← receive s; stepped (s', events)
done_step done_call s events = do r ← give s; stepped (r.1, events ++ r.0 ∷ [])
done_step done_exit s events = do s' ← leave s; stepped (s', events)

pub data Action : Type 0 where
  feed : Event → Action
  feed_end finish : Action
  filter_acts : ℕ → FilterAction → Action
  output_acts : OutputAction → Action
  rejected_acts processed_acts : DoneAction → Action

unfoldable pub step : Action → OutUnit → Outcome OutUnit
unfolding send close chain_step apply output_step done_step all_exited
step (feed e) u =
    guard (not (head u.chain).closed)
      (do q ← send e (head u.chain); stepped (record u { chain = with_head u.chain q }))
step feed_end u =
    guard (not (head u.chain).closed)
      (do q ← close (head u.chain); stepped (record u { chain = with_head u.chain q }))
step (filter_acts i a) u = do
  r ← chain_step (filters i a) u.chain
  apply r.0 (record u { chain = r.1 })
step (output_acts a) u = output_step a u
step (rejected_acts a) u = do
  r ← done_step a u.rejected u.finished
  stepped (record u { rejected = r.0; finished = r.1 })
step (processed_acts a) u = do
  r ← done_step a u.processed u.finished
  stepped (record u { processed = r.0; finished = r.1 })
step finish u =
    guard (all_exited u.chain && u.rejected.exited && u.processed.exited)
      (stepped (record u { returned = true }))

unfoldable pub run : List Action → OutUnit → Outcome OutUnit
unfolding step
run [] u = stepped u
run (a ∷ actions) u = do u' ← step a u; run actions u'

-- `newOutputSoftUnit`, with so many filters.
unfoldable pub new_unit : ℕ → OutUnit
unfolding new_chain
new_unit n = record {
  chain = new_chain n;
  held = [];
  rejected = new_stage;
  processed = new_stage;
  returned = false;
  finished = [];
}
