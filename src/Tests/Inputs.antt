-- ===== src/Tests/Inputs.antt =====
-- Runs of an input's unit: core/unit/soft.go.
use neptunus.Base.{◌+◌, ◌≡◌, ◌≢◌, refl, true, false, none, List, [], ◌∷◌}
use neptunus.Units.{
  Event, stepped, panicked, ◌>>=◌, guard, Stage, plugin, filter, take, accept, reject, exit,
}
use neptunus.Units.Safety.{count}
use neptunus.Units.Output.{done_take, done_call, done_exit}
use neptunus.Units.Input.{
  InUnit, Action, emit, input_exit, signal, close_rejected, finish, filter_acts, rejected_acts,
  outgoing, run, new_unit,
}
use neptunus.Units.Input.Returns.{total, run-panicked_in, run-emitted}

-- Of two events, the filter accepts the first and rejects the second.
abbrev in_story : List Action
in_story =
    emit 4
    ∷ filter_acts 0 take
    ∷ emit 5
    ∷ filter_acts 0 accept
    ∷ signal
    ∷ filter_acts 0 take
    ∷ input_exit
    ∷ filter_acts 0 reject
    ∷ rejected_acts done_take
    ∷ filter_acts 0 exit
    ∷ rejected_acts done_call
    ∷ close_rejected
    ∷ rejected_acts done_exit
    ∷ finish
    ∷ []

abbrev in_over : Stage
in_over = record { input = record { buffer = []; closed = true }; hand = none; exited = true }

abbrev in_returned : InUnit
in_returned = record {
  chain = filter in_over (
      plugin (record {
        input = record { buffer = 4 ∷ []; closed = true };
        hand = none;
        exited = false;
      }));
  rejected = in_over;
  signalled = true;
  over = true;
  returned = true;
  finished = 5 ∷ [];
}

in_story-ok : run in_story (new_unit 1) ≡ stepped in_returned
unfolding run new_unit ◌>>=◌ guard
in_story-ok = refl

run-panicked_in_example : run in_story (new_unit 1) ≢ panicked
run-panicked_in_example = run-panicked_in 1 in_story

run-emitted_example :
    ((outgoing in_returned.chain).closed ≡ true)
    × ((x : Event)
        → count x (outgoing in_returned.chain).buffer + count x in_returned.finished
          ≡ total x in_story)
run-emitted_example = run-emitted 1 in_story in_returned in_story-ok refl
