-- ===== src/Processors/Deduplicate.antt =====
-- plugins/processors/deduplicate/deduplicate.go: the events that a key in Redis marks as duplicates.
use neptunus.Base.{
  ◌⊎◌, ◌+◌, ◌≤◌, ℕ, zero, suc, ◌<◌, ◌≡◌, ◌≢◌, ◌∙◌, refl, ap, String, Bool, true, false, not, Option,
  none, some, [], ◌∷◌, Result, ok, err, if◌then◌else◌, string_comparable, joined, arith, inl, inr,
  lookup-insert,
}
use neptunus.Base.Int.{ℤ, pos_part}
use neptunus.Core.Fields.{Error}
use neptunus.Core.Event.{Event, get_label, set_label, stack_error}
use neptunus.Common.Retryer.{do_retries, do_retries_first}

pub record Deduplicate : Type 0 where
  pub idempotency_key : String
  pub keyspace : String
  pub retry_attempts : ℤ

-- The error that a call returns.
unfoldable pub failed : Result Error Bool → Option Error
failed (ok unique) = none
failed (err x) = some x

-- `unique` behind so many calls, of which the last had no error.
unfoldable pub unique : (ℕ → Result Error Bool) → ℕ → Bool
unique answers zero = false
unique answers (suc last) = elim (answers last) [ ok b ↦ b | err x ↦ false ]

module _ {D : Type 0} where
  -- The body of `Run`: the event that is sent, and whether it is counted as failed; none if the fuel of
  -- the retries ends first. `set_nx` has what the client returns from the n-th call of SETNX for a key,
  -- counted from 0: an error, or whether the key was set.
  unfoldable pub deduplicate :
      (String → ℕ → Result Error Bool) → ℕ → Deduplicate → Event D → Option (Event D × Bool)
  deduplicate set_nx fuel p event =
      let e = set_label "::duplicate" "false" event in
      elim (get_label p.idempotency_key e) [
        | none ↦ some (e, false)
        | some id ↦
            let answers = set_nx (joined (p.keyspace ∷ id ∷ [])) in
            elim (do_retries (λ i. failed (answers i)) p.retry_attempts fuel 0 1) [
              | none ↦ none
              | some (some x, calls) ↦ some (stack_error x e, true)
              | some (none, calls) ↦
                  some (if unique answers calls then e else set_label "::duplicate" "true" e, false)
            ]
      ]

-- What is documented of SETNX, and that a key does not expire while an event's calls are retried:
-- `held` is whether the server has a key before the n-th call for it, and `performed` whether it
-- performed that call, answered or not. An answer says whether the key was absent before the call; a
-- call that is performed leaves the key there, and the key stays.
pub record IsSetNx (set_nx : String → ℕ → Result Error Bool) (held performed : String → ℕ → Bool)
    : Type 0 where
  pub answers : (key : String) (n : ℕ) (b : Bool) → set_nx key n ≡ ok b → b ≡ not (held key n)
  pub sets : (key : String) (n : ℕ) → performed key n ≡ true → held key (suc n) ≡ true
  pub stays : (key : String) (n : ℕ) → held key n ≡ true → held key (suc n) ≡ true

-- The bound of the retries, if it is positive, allows so many calls.
abbrev pub Allows : Deduplicate → ℕ → Type 0
Allows p calls = (pos_part p.retry_attempts ≡ 0) ⊎ (calls ≤ pos_part p.retry_attempts)

abbrev pub key_of : Deduplicate → String → String
key_of p id = joined (p.keyspace ∷ id ∷ [])

stays_from :
    (set_nx : String → ℕ → Result Error Bool) (held performed : String → ℕ → Bool)
    → IsSetNx set_nx held performed
    → (key : String) (i m : ℕ) → held key i ≡ true
    → held key (i + m) ≡ true
stays_from set_nx held performed law key i zero h = ap (held key) (omega arith) ∙ h
stays_from set_nx held performed law key i (suc m) h =
    ap (held key) (omega arith)
    ∙ law.stays key (i + m) (stays_from set_nx held performed law key i m h)

module _ {D : Type 0} where
  labelled :
      (fresh held : Bool) (e : Event D)
      → fresh ≡ not held
      → get_label "::duplicate" (
          if fresh
          then set_label "::duplicate" "false" e
          else set_label "::duplicate" "true" (set_label "::duplicate" "false" e))
        ≡ some (if held then "true" else "false")
  unfolding get_label set_label
  labelled fresh true e h = rw h (lookup-insert "::duplicate" "::duplicate" "true" _ ∙ refl)
  labelled fresh false e h = rw h (lookup-insert "::duplicate" "::duplicate" "false" _ ∙ refl)

  -- Where the event has the label, the calls before one fail, that one is answered, and the bound of the
  -- retries, if there is one, allows it, the event is sent and counted as accepted, and labelled a
  -- duplicate exactly if its key was on the server before the call that was answered.
  pub deduplicate-labelled :
      (set_nx : String → ℕ → Result Error Bool) (held performed : String → ℕ → Bool) (last : ℕ)
      (p : Deduplicate) (id : String) (b : Bool) (e : Event D)
      → IsSetNx set_nx held performed
      → Allows p (suc last)
      → get_label p.idempotency_key (set_label "::duplicate" "false" e) ≡ some id
      → set_nx (key_of p id) last ≡ ok b
      → ((i : ℕ) → i < last → failed (set_nx (key_of p id) i) ≢ none)
      → (e' : Event D) × (deduplicate set_nx (suc last) p e ≡ some (e', false))
        × (get_label "::duplicate" e' ≡ some (if held (key_of p id) last then "true" else "false"))
  unfolding deduplicate unique set_label failed
  deduplicate-labelled set_nx held performed last p id b e law allowed there good before =
      let key = key_of p id in
      let fine : failed (set_nx key (0 + last)) ≡ none =
        ap (λ n. failed (set_nx key n)) (omega arith) ∙ ap failed good in
      let tried : do_retries (λ i. failed (set_nx key i)) p.retry_attempts (suc last) 0 1
          ≡ some (none, suc last) =
        do_retries_first (λ i. failed (set_nx key i)) p.retry_attempts last 0 1 (permitted allowed)
          (λ i l h. before i (omega arith)) fine
        ∙ ap (λ n. some (none, suc n)) (omega arith) in
      (
        if b
            then set_label "::duplicate" "false" e
            else set_label "::duplicate" "true" (set_label "::duplicate" "false" e),
        rw (there, deduplicate, tried, unique, good) refl,
        labelled b (held key last) e (law.answers key last b good),
      )
    where
      permitted :
          (pos_part p.retry_attempts ≡ 0) ⊎ (suc last ≤ pos_part p.retry_attempts)
          → (pos_part p.retry_attempts ≡ 0) ⊎ (1 + last ≤ pos_part p.retry_attempts)
      permitted (inl free) = inl free
      permitted (inr within) = inr (omega arith)

  -- If moreover the server performed one of the calls that failed for the client, whose answer was
  -- lost, the event is labelled a duplicate, though no other event need have had its key.
  pub deduplicate-lost :
      (set_nx : String → ℕ → Result Error Bool) (held performed : String → ℕ → Bool) (i m : ℕ)
      (p : Deduplicate) (id : String) (b : Bool) (e : Event D)
      → IsSetNx set_nx held performed
      → Allows p (suc (suc i + m))
      → get_label p.idempotency_key (set_label "::duplicate" "false" e) ≡ some id
      → set_nx (key_of p id) (suc i + m) ≡ ok b
      → ((j : ℕ) → j < suc i + m → failed (set_nx (key_of p id) j) ≢ none)
      → performed (key_of p id) i ≡ true
      → (e' : Event D) × (deduplicate set_nx (suc (suc i + m)) p e ≡ some (e', false))
        × (get_label "::duplicate" e' ≡ some "true")
  deduplicate-lost set_nx held performed i m p id b e law allowed there good before done =
      let (e', sent, label) =
        deduplicate-labelled set_nx held performed (suc i + m) p id b e law allowed there good
          before in
      let there' : held (key_of p id) (suc i + m) ≡ true =
        stays_from set_nx held performed law (key_of p id) (suc i) m
          (law.sets (key_of p id) i done) in
      (e', sent, label ∙ rw there' refl)
