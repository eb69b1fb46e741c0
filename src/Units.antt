-- ===== src/Units.antt =====
-- core/unit/soft.go: the processor's unit, its goroutines and its channels. A goroutine's next action
-- is one step; what it decides is an argument of the step. An event is known by a number. A channel
-- holds any number of events, so that a send never waits: a bounded channel has fewer runs.
pub mod Safety
pub mod Stages
pub mod Runs
pub mod Returns
pub mod Output
pub mod Input
use neptunus.Base.{
  ℕ, zero, suc, Bool, true, false, not, ◌&&◌, Option, none, some, List, [], ◌∷◌, ◌++◌,
  if◌then◌else◌,
}

abbrev pub Event : Type 0
Event = ℕ

-- What becomes of a step: it must wait, it panics, or it is made.
pub data Outcome (A : Type 0) : Type 0 where
  blocked panicked : Outcome A
  stepped : A → Outcome A

infixl 5 ◌>>=◌
unfoldable pub ◌>>=◌ : {A B : Type 0} → Outcome A → (A → Outcome B) → Outcome B
blocked >>= f = blocked
panicked >>= f = panicked
stepped x >>= f = f x

unfoldable pub guard : {A : Type 0} → Bool → Outcome A → Outcome A
guard true m = m
guard false m = blocked

pub record Channel : Type 0 where
  pub buffer : List Event
  pub closed : Bool

-- `c <- e`, and `close(c)`.
unfoldable pub send : Event → Channel → Outcome Channel
send e c = if c.closed then panicked else stepped (record c { buffer = c.buffer ++ e ∷ [] })

unfoldable pub close : Channel → Outcome Channel
close c = if c.closed then panicked else stepped (record c { closed = true })

-- A goroutine with the loop `for e := range input`: the event that has been received last and not
-- been sent on, and whether the loop has ended.
pub record Stage : Type 0 where
  pub input : Channel
  pub hand : Option Event
  pub exited : Bool

abbrev pub is_free : Stage → Bool
is_free s = if s.exited then false else elim s.hand [ none ↦ true | some e ↦ false ]

-- The next event is received, once the one before has been given away.
unfoldable pub receive : Stage → Outcome Stage
receive s = guard (is_free s) (elim s.input.buffer [
  | [] ↦ blocked
  | e ∷ rest ↦ stepped (record s { input = record s.input { buffer = rest }; hand = some e })
])

-- The event in hand is given away.
unfoldable pub give : Stage → Outcome (Event × Stage)
give s = elim s.hand [ none ↦ blocked | some e ↦ stepped (e, record s { hand = none }) ]

-- The loop ends when its channel is closed and empty.
unfoldable pub leave : Stage → Outcome Stage
leave s = guard (is_free s) (elim s.input.buffer [
  | [] ↦ guard s.input.closed (stepped (record s { exited = true }))
  | e ∷ rest ↦ blocked
])

-- The filters in their order, and the processor.
pub data Chain : Type 0 where
  plugin : Stage → Chain
  filter : Stage → Chain → Chain

abbrev pub head : Chain → Channel
head (plugin s) = s.input
head (filter s c) = s.input

abbrev pub with_head : Chain → Channel → Chain
with_head (plugin s) q = plugin (record s { input = q })
with_head (filter s c) q = filter (record s { input = q }) c

-- What the unit has to do for a step: nothing, send an event to the outgoing channel or to the
-- channel of dropped events, or close the latter.
pub data Effect : Type 0 where
  quiet ended : Effect
  outward dropping : Event → Effect

-- A filter receives, sends what it has to the next plugin or to the outgoing channel, or ends,
-- whereupon the channel of the next plugin is closed.
pub data FilterAction : Type 0 where
  take accept reject exit : FilterAction

unfoldable pub filter_step : FilterAction → Stage → Chain → Outcome (Effect × Chain)
filter_step take s c = do s' ← receive s; stepped (quiet, filter s' c)
filter_step accept s c = do
  r ← give s
  q ← send r.0 (head c)
  stepped (quiet, filter r.1 (with_head c q))
filter_step reject s c = do r ← give s; stepped (outward r.0, filter r.1 c)
filter_step exit s c = do
  s' ← leave s
  q ← close (head c)
  stepped (quiet, filter s' (with_head c q))

-- The processor receives, sends what it has on or drops it, sends or drops an event of its own, or
-- ends.
pub data ProcessorAction : Type 0 where
  fetch pass drop return : ProcessorAction
  emit discard : Event → ProcessorAction

unfoldable pub processor_step : ProcessorAction → Stage → Outcome (Effect × Chain)
processor_step fetch s = do s' ← receive s; stepped (quiet, plugin s')
processor_step pass s = do r ← give s; stepped (outward r.0, plugin r.1)
processor_step drop s = do r ← give s; stepped (dropping r.0, plugin r.1)
processor_step return s = do s' ← leave s; stepped (ended, plugin s')
processor_step (emit e) s = guard (not s.exited) (stepped (outward e, plugin s))
processor_step (discard e) s = guard (not s.exited) (stepped (dropping e, plugin s))

-- The step of a filter, by its index, or of the processor.
pub data ChainAction : Type 0 where
  filters : ℕ → FilterAction → ChainAction
  processes : ProcessorAction → ChainAction

unfoldable pub chain_step : ChainAction → Chain → Outcome (Effect × Chain)
unfolding filter_step processor_step
chain_step (filters i a) (plugin s) = blocked
chain_step (processes a) (plugin s) = processor_step a s
chain_step (filters zero a) (filter s c) = filter_step a s c
chain_step (filters (suc i) a) (filter s c) = do
  r ← chain_step (filters i a) c
  stepped (r.0, filter s r.1)
chain_step (processes a) (filter s c) = do
  r ← chain_step (processes a) c
  stepped (r.0, filter s r.1)

-- `procSoftUnit`: `done` has the dropped events whose `Done` has been called, by the goroutine that
-- reads the channel of dropped events.
pub record ProcUnit : Type 0 where
  pub chain : Chain
  pub dropped : Stage
  pub out : Channel
  pub done : List Event

unfoldable pub apply : Effect → ProcUnit → Outcome ProcUnit
unfolding send close
apply quiet u = stepped u
apply (outward e) u = do q ← send e u.out; stepped (record u { out = q })
apply (dropping e) u = do
  q ← send e u.dropped.input
  stepped (record u { dropped = record u.dropped { input = q } })
apply ended u = do
  q ← close u.dropped.input
  stepped (record u { dropped = record u.dropped { input = q } })

-- All goroutines that `Run` waits for have ended.
unfoldable pub all_exited : Chain → Bool
all_exited (plugin s) = s.exited
all_exited (filter s c) = s.exited && all_exited c

-- The steps: the unit before sends an event to the first channel, or closes it; a plugin steps; the
-- goroutine of dropped events receives, calls `Done`, or ends; and `Run` closes the outgoing
-- channel and returns.
pub data Action : Type 0 where
  feed : Event → Action
  feed_end dropped_take dropped_done dropped_exit finish : Action
  chain_acts : ChainAction → Action

unfoldable pub step : Action → ProcUnit → Outcome ProcUnit
unfolding send close receive give leave chain_step apply all_exited
step (feed e) u =
    guard (not (head u.chain).closed)
      (do q ← send e (head u.chain); stepped (record u { chain = with_head u.chain q }))
step feed_end u =
    guard (not (head u.chain).closed)
      (do q ← close (head u.chain); stepped (record u { chain = with_head u.chain q }))
step (chain_acts a) u = do r ← chain_step a u.chain; apply r.0 (record u { chain = r.1 })
step dropped_take u = do s ← receive u.dropped; stepped (record u { dropped = s })
step dropped_done u = do
  r ← give u.dropped
  stepped (record u { dropped = r.1; done = u.done ++ r.0 ∷ [] })
step dropped_exit u = do s ← leave u.dropped; stepped (record u { dropped = s })
step finish u =
    guard (all_exited u.chain && u.dropped.exited)
      (guard (not u.out.closed) (do q ← close u.out; stepped (record u { out = q })))

-- The steps in turn; it is blocked if one of them has to wait.
unfoldable pub run : List Action → ProcUnit → Outcome ProcUnit
unfolding step
run [] u = stepped u
run (a ∷ actions) u = do u' ← step a u; run actions u'

-- `newProcessorSoftUnit`, with so many filters.
abbrev pub new_channel : Channel
new_channel = record { buffer = []; closed = false }

abbrev pub new_stage : Stage
new_stage = record { input = new_channel; hand = none; exited = false }

unfoldable pub new_chain : ℕ → Chain
new_chain zero = plugin new_stage
new_chain (suc n) = filter new_stage (new_chain n)

unfoldable pub new_unit : ℕ → ProcUnit
unfolding new_chain
new_unit n = record { chain = new_chain n; dropped = new_stage; out = new_channel; done = [] }
