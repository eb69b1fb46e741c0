-- ===== src/Tests/Duplicates.antt =====
-- An event whose first answer from Redis was lost: plugins/processors/deduplicate/deduplicate.go.
use neptunus.Base.{
  inl, ℕ, zero, suc, ◌<◌, ◌≡◌, ◌≢◌, refl, String, Bool, true, false, not, some, none, Result, ok,
  err, if◌then◌else◌, arith, insert, lookup,
}
use neptunus.Base.Int.{pos}
use neptunus.Core.Fields.{Error}
use neptunus.Core.Event.{Event, get_label, set_label}
use neptunus.Processors.Deduplicate.{
  Deduplicate, failed, deduplicate, IsSetNx, deduplicate-labelled, deduplicate-lost,
}
use neptunus.Tests.Events.{message}

abbrev first_lost : String → ℕ → Result Error Bool
first_lost key zero = err "i/o timeout"
first_lost key (suc n) = ok false

-- The server performed every call.
abbrev held : String → ℕ → Bool
held key zero = false
held key (suc n) = true

abbrev performed : String → ℕ → Bool
performed key n = true

first_lost-IsSetNx : IsSetNx first_lost held performed
first_lost-IsSetNx = record {
  answers = documented;
  sets = λ key n h. refl;
  stays = λ key n h. refl;
}
  where
    documented : (key : String) (n : ℕ) (b : Bool) → first_lost key n ≡ ok b → b ≡ not (held key n)
    documented key zero b h = absurd cc
    documented key (suc n) b h = cc

-- There is no bound on the retries.
abbrev by_host : Deduplicate
by_host = record { idempotency_key = "host"; keyspace = "seen:"; retry_attempts = pos 0 }

known : get_label by_host.idempotency_key (set_label "::duplicate" "false" message) ≡ some "h1"
unfolding get_label set_label lookup insert
known = refl

only_first : (i : ℕ) → i < 1 → failed (first_lost "seen:h1" i) ≢ none
unfolding failed
only_first zero l h = absurd cc
only_first (suc i) l h = absurd (omega arith)

deduplicate-labelled_example :
    (e' : Event String) × (deduplicate first_lost 2 by_host message ≡ some (e', false))
    × (get_label "::duplicate" e' ≡ some (if held "seen:h1" 1 then "true" else "false"))
deduplicate-labelled_example =
    deduplicate-labelled first_lost held performed 1 by_host "h1" false message first_lost-IsSetNx
      (inl refl) known refl only_first

deduplicate-lost_example :
    (e' : Event String) × (deduplicate first_lost 2 by_host message ≡ some (e', false))
    × (get_label "::duplicate" e' ≡ some "true")
deduplicate-lost_example =
    deduplicate-lost first_lost held performed 0 0 by_host "h1" false message first_lost-IsSetNx
      (inl refl) known refl only_first refl
