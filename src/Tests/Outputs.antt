-- ===== src/Tests/Outputs.antt =====
-- Runs of an output's unit: core/unit/soft.go.
use neptunus.Base.{◌≡◌, ◌≢◌, refl, true, none, List, [], ◌∷◌}
use neptunus.Units.{
  stepped, panicked, ◌>>=◌, guard, Stage, plugin, filter, take, accept, reject, exit,
}
use neptunus.Units.Safety.{count}
use neptunus.Units.Output.{
  OutUnit, Action, feed, feed_end, finish, filter_acts, output_acts, rejected_acts, processed_acts,
  output_take, output_done, output_keep, output_release, output_exit, done_take, done_call,
  done_exit, run, new_unit,
}
use neptunus.Units.Output.Returns.{total, run-panicked_out, run-finished}

-- Of three events, the filter rejects the first; the output keeps the second, receives the third, is
-- done with it at once and sends the second on.
abbrev out_story : List Action
out_story =
    feed 4
    ∷ filter_acts 0 take
    ∷ feed 5
    ∷ filter_acts 0 reject
    ∷ filter_acts 0 take
    ∷ feed 6
    ∷ feed_end
    ∷ filter_acts 0 accept
    ∷ filter_acts 0 take
    ∷ filter_acts 0 accept
    ∷ output_acts output_take
    ∷ output_acts output_keep
    ∷ filter_acts 0 exit
    ∷ output_acts output_take
    ∷ output_acts output_done
    ∷ output_acts (output_release 0)
    ∷ processed_acts done_take
    ∷ processed_acts done_call
    ∷ processed_acts done_take
    ∷ processed_acts done_call
    ∷ rejected_acts done_take
    ∷ output_acts output_exit
    ∷ processed_acts done_exit
    ∷ rejected_acts done_call
    ∷ rejected_acts done_exit
    ∷ finish
    ∷ []

abbrev out_over : Stage
out_over = record { input = record { buffer = []; closed = true }; hand = none; exited = true }

abbrev out_returned : OutUnit
out_returned = record {
  chain = filter out_over (plugin out_over);
  held = [];
  rejected = out_over;
  processed = out_over;
  returned = true;
  finished = 6 ∷ 5 ∷ 4 ∷ [];
}

out_story-ok : run out_story (new_unit 1) ≡ stepped out_returned
unfolding run new_unit ◌>>=◌ guard
out_story-ok = refl

run-panicked_out_example : run out_story (new_unit 1) ≢ panicked
run-panicked_out_example = run-panicked_out 1 out_story

run-finished_example : count 4 (6 ∷ 5 ∷ 4 ∷ []) ≡ total 4 out_story
run-finished_example = run-finished 1 out_story out_returned out_story-ok refl 4
