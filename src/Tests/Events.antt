-- ===== src/Tests/Events.antt =====
-- Events with one tracker: core/event.go, core/tracker.go, plugins/core/fanout/fanout.go,
-- plugins/processors/.
use neptunus.Base.{
  ◌≡◌, refl, String, false, some, [], ◌∷◌, ok, string_comparable, arith, length, replicate,
}
use neptunus.Base.Int.{pos}
use neptunus.Core.Fields.{MapPath}
use neptunus.Core.Tracker.{Tracker, calls}
use neptunus.Core.Tracker.Duty.{copied, done, run, holders, run-counts}
use neptunus.Core.Event.{Event}
use neptunus.Core.Event.Sharing.{finish_all, finish_all-hooks}
use neptunus.Fan.{send}
use neptunus.Fan.Broadcast.{broadcast-done}
use neptunus.Processors.Cloning.{Clone, init_count, clone_event}
use neptunus.Processors.Cloning.Outputs.{clone_event-hooks}

-- A body that is one text, under every path.
abbrev pub text_body : MapPath
text_body = record {
  Any = String;
  nil = "";
  get = λ body key. ok body;
  put = λ body key value. ok value;
  delete = λ body key. ok "";
  clone = λ body. body;
}

abbrev pub message : Event String
message = record {
  id = "a";
  uuid = 7;
  timestamp = 100;
  routing_key = "in";
  tags = "x" ∷ "y" ∷ "z" ∷ [];
  labels = ("host", "h1") ∷ [];
  body = "payload";
  errors = [];
  tracker = some 0;
}

abbrev pub one_holder : Tracker
one_holder = record { duty = 1; hook = 5 ∷ [] }

abbrev two_holders : Tracker
two_holders = record { duty = 2; hook = 5 ∷ [] }

finish_all-hooks_example :
    (finish_all (message ∷ message ∷ []) (two_holders ∷ [])).1 ≡ calls (5 ∷ [])
finish_all-hooks_example =
    finish_all-hooks 0 (message ∷ message ∷ []) (two_holders ∷ []) two_holders 1 (refl, (refl, tt))
      refl refl (omega arith) (omega arith)

run-counts_example :
    run (copied ∷ done ∷ done ∷ []) one_holder
    ≡ (record one_holder { duty = holders 1 (copied ∷ done ∷ done ∷ []) }, calls (5 ∷ []))
run-counts_example =
    run-counts (copied ∷ done ∷ done ∷ []) 0 one_holder refl (omega arith)
      (omega arith, omega arith, (omega arith, (omega arith, tt)))

broadcast-done_example :
    ((send text_body (λ n. n) 3 message (one_holder ∷ [])).0 ≡ replicate 3 message)
    × ((finish_all (replicate 2 message) (send text_body (λ n. n) 3 message (one_holder ∷ [])).1).1
        ≡ calls [])
broadcast-done_example =
    broadcast-done text_body (λ d. refl) (λ n. n) message 2 2 0 (one_holder ∷ []) one_holder refl
      refl refl (omega arith) (omega arith)

abbrev twice : Clone
twice = record {
  routing_key = "copy";
  save_timestamp = false;
  count = pos 2;
  labels = ("cloned", "yes") ∷ [];
}

clone_event-hooks_example :
    (length (clone_event text_body twice (λ n. n) message (one_holder ∷ [])).0 ≡ 3)
    × ((finish_all
          (clone_event text_body twice (λ n. n) message (one_holder ∷ [])).0
          (clone_event text_body twice (λ n. n) message (one_holder ∷ [])).1).1
        ≡ calls (5 ∷ []))
unfolding init_count
clone_event-hooks_example =
    clone_event-hooks text_body twice (λ n. n) message (one_holder ∷ []) 0 one_holder refl refl refl
      (omega arith)
