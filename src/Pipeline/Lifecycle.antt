-- ===== src/Pipeline/Lifecycle.antt =====
-- pipeline/pipeline.go: a pipeline that runs stops after the signal, and passes its states in order.
use neptunus.Base.{ℕ, zero, suc, ◌≡◌, refl, true, false, arith, ◌⊎◌, ◌≢◌}
use neptunus.Pipeline.{
  created, building, starting, running, stopping, stopped, Routine, absent, launched, entered,
  serving, leaving, exited, Pipeline, advance,
}

-- The state that the goroutine's point of `Run` goes with.
abbrev pub Matches : Pipeline → Type 0
Matches p = elim p.routine [
  | absent ↦ (p.state ≡ created) ⊎ ((p.state ≡ building) ⊎ (p.state ≡ stopped))
  | launched ↦ p.state ≡ building
  | entered ↦ p.state ≡ starting
  | serving ↦ p.state ≡ running
  | leaving ↦ (p.state ≡ stopping) × (p.done ≡ true)
  | exited ↦ p.state ≡ stopped
]

pub advances : ℕ → Pipeline → Pipeline
advances zero p = p
advances (suc n) p = advances n (advance p)

pub advance-Matches : (p : Pipeline) → Matches p → Matches (advance p)
unfolding advance
advance-Matches p h = ground arith

-- The goroutine is on its way: it has been launched, and has not passed its wait for the signal.
abbrev pub IsOnWay : Routine → Type 0
IsOnWay r = (r ≡ launched) ⊎ ((r ≡ entered) ⊎ (r ≡ serving))

advance_serving : (p : Pipeline) → p.routine ≡ serving → p.done ≡ false → advance p ≡ p
unfolding advance
advance_serving p r d = ground arith

advance_exited : (p : Pipeline) → p.routine ≡ exited → advance p ≡ p
unfolding advance
advance_exited p r = ground arith

-- Two steps from the launch, and four after the signal.
advance_twice :
    (p : Pipeline)
    → Matches p
    → IsOnWay p.routine
    → p.done ≡ false
    → ((advance (advance p)).state ≡ running)
      × ((advance (advance p)).routine ≡ serving)
      × ((advance (advance p)).done ≡ false)
unfolding advance
advance_twice p h w d = ground arith

advance_four :
    (p : Pipeline)
    → Matches p
    → p.routine ≢ absent
    → p.done ≡ true
    → ((advance (advance (advance (advance p)))).state ≡ stopped)
      × ((advance (advance (advance (advance p)))).routine ≡ exited)
unfolding advance
advance_four p h w d = ground arith

advances_serving : (n : ℕ) (p : Pipeline) → p.routine ≡ serving → p.done ≡ false → advances n p ≡ p
unfolding advances
advances_serving zero p r d = refl
advances_serving (suc n) p r d = rw (advance_serving p r d) (advances_serving n p r d)

advances_exited : (n : ℕ) (p : Pipeline) → p.routine ≡ exited → advances n p ≡ p
unfolding advances
advances_exited zero p r = refl
advances_exited (suc n) p r = rw (advance_exited p r) (advances_exited n p r)

-- A launched pipeline whose stop signal has been given has stopped after four steps of its
-- goroutine, and stays so.
advances_stop :
    (n : ℕ) (p : Pipeline)
    → Matches p
    → p.routine ≢ absent
    → p.done ≡ true
    → ((advances (suc (suc (suc (suc n)))) p).state ≡ stopped)
      × ((advances (suc (suc (suc (suc n)))) p).routine ≡ exited)
unfolding advances
advances_stop n p h w d =
    let q = advance_four p h w d in
    rw (advances_exited n (advance (advance (advance (advance p)))) q.1) q
