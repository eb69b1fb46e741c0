-- ===== src/Units/Input.antt =====
-- core/unit/soft.go: the input's unit. Its filters are a chain as in the processor's unit, whose last
-- stage is not a plugin but the outgoing channel: it takes no steps. A lookup's unit is the same
-- without filters and channels.
pub mod Steps
pub mod Returns
use neptunus.Base.{ℕ, Bool, true, false, not, ◌&&◌, Option, List, [], ◌∷◌, ◌++◌}
use neptunus.Units.{
  Event, Outcome, blocked, stepped, ◌>>=◌, guard, Channel, send, close, Stage, Chain, plugin,
  filter, head, with_head, Effect, quiet, ended, outward, dropping, FilterAction, filters,
  chain_step, new_stage, new_chain,
}
use neptunus.Units.Output.{DoneAction, done_step}

-- `inSoftUnit`: `signalled` is the stop signal, `over` tells that the input's `Run` has returned,
-- `returned` that the unit's has, and `finished` has the events whose `Done` has been called.
pub record InUnit : Type 0 where
  pub chain : Chain
  pub rejected : Stage
  pub signalled : Bool
  pub over : Bool
  pub returned : Bool
  pub finished : List Event

-- The goroutines of all filters have ended.
unfoldable pub filters_exited : Chain → Bool
filters_exited (plugin s) = true
filters_exited (filter s c) = s.exited && filters_exited c

-- The outgoing channel.
unfoldable pub outgoing : Chain → Channel
outgoing (plugin s) = s.input
outgoing (filter s c) = outgoing c

-- A filter's effect: it has sent an event to the channel of rejected events, or nothing. The others
-- are a processor's.
unfoldable pub apply : Effect → InUnit → Outcome InUnit
unfolding send
apply quiet u = stepped u
apply (outward e) u = do
  q ← send e u.rejected.input
  stepped (record u { rejected = record u.rejected { input = q } })
apply _ u = blocked

-- The input sends an event, or its `Run` returns and the first channel is closed; a filter or the
-- goroutine of rejected events steps; the stop signal is given; behind it, and when the input and the
-- filters have ended, `Run` closes the channel of rejected events; and then it returns.
pub data Action : Type 0 where
  emit : Event → Action
  input_exit signal close_rejected finish : Action
  filter_acts : ℕ → FilterAction → Action
  rejected_acts : DoneAction → Action

unfoldable pub step : Action → InUnit → Outcome InUnit
unfolding filters_exited chain_step apply done_step send close
step (emit e) u =
    guard (not u.over)
      (do q ← send e (head u.chain); stepped (record u { chain = with_head u.chain q }))
step input_exit u =
    guard (not u.over)
      (do q ← close (head u.chain); stepped (record u { chain = with_head u.chain q; over = true }))
step signal u = stepped (record u { signalled = true })
step (filter_acts i a) u = do
  r ← chain_step (filters i a) u.chain
  apply r.0 (record u { chain = r.1 })
step (rejected_acts a) u = do
  r ← done_step a u.rejected u.finished
  stepped (record u { rejected = r.0; finished = r.1 })
step close_rejected u = guard (u.signalled && (u.over && filters_exited u.chain)) (
    guard (not u.rejected.input.closed) (do
      q ← close u.rejected.input
      stepped (record u { rejected = record u.rejected { input = q } })))
step finish u = guard u.rejected.exited (stepped (record u { returned = true }))

unfoldable pub run : List Action → InUnit → Outcome InUnit
unfolding step
run [] u = stepped u
run (a ∷ actions) u = do u' ← step a u; run actions u'

-- `newInputSoftUnit`, with so many filters.
unfoldable pub new_unit : ℕ → InUnit
unfolding new_chain
new_unit n = record {
  chain = new_chain n;
  rejected = new_stage;
  signalled = false;
  over = false;
  returned = false;
  finished = [];
}
