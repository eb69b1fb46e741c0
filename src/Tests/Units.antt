-- ===== src/Tests/Units.antt =====
-- Runs of units: core/unit/soft.go.
use neptunus.Base.{◌+◌, ◌≡◌, ◌≢◌, refl, true, none, List, [], ◌∷◌}
use neptunus.Units.{
  stepped, panicked, ◌>>=◌, Stage, plugin, filter, ProcUnit, Action, feed, feed_end, dropped_take,
  dropped_done, dropped_exit, finish, chain_acts, filters, processes, take, accept, reject, exit,
  fetch, pass, drop, return, emit, discard, run, new_unit, guard,
}
use neptunus.Units.Safety.{count}
use neptunus.Units.Returns.{total, run-panicked, run-returned}

-- Of three events, a filter rejects the first and accepts the others; the processor sends one event
-- of its own and drops another, drops the second event and sends the third one on.
abbrev story : List Action
story =
    feed 1
    ∷ feed 2
    ∷ chain_acts (filters 0 take)
    ∷ feed 3
    ∷ chain_acts (filters 0 reject)
    ∷ chain_acts (filters 0 take)
    ∷ chain_acts (filters 0 accept)
    ∷ feed_end
    ∷ chain_acts (processes fetch)
    ∷ chain_acts (processes (emit 9))
    ∷ chain_acts (processes (discard 8))
    ∷ chain_acts (filters 0 take)
    ∷ chain_acts (processes drop)
    ∷ dropped_take
    ∷ dropped_done
    ∷ dropped_take
    ∷ chain_acts (filters 0 accept)
    ∷ chain_acts (filters 0 exit)
    ∷ chain_acts (processes fetch)
    ∷ dropped_done
    ∷ chain_acts (processes pass)
    ∷ chain_acts (processes return)
    ∷ dropped_exit
    ∷ finish
    ∷ []

abbrev over : Stage
over = record { input = record { buffer = []; closed = true }; hand = none; exited = true }

abbrev returned : ProcUnit
returned = record {
  chain = filter over (plugin over);
  dropped = over;
  out = record { buffer = 1 ∷ 9 ∷ 3 ∷ []; closed = true };
  done = 8 ∷ 2 ∷ [];
}

story-ok : run story (new_unit 1) ≡ stepped returned
unfolding run new_unit ◌>>=◌ guard
story-ok = refl

run-panicked_example : run story (new_unit 1) ≢ panicked
run-panicked_example = run-panicked 1 story

run-returned_example : count 9 (1 ∷ 9 ∷ 3 ∷ []) + count 9 (8 ∷ 2 ∷ []) ≡ total 9 story
run-returned_example = run-returned 1 story returned story-ok refl 9
