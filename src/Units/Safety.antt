-- ===== src/Units/Safety.antt =====
-- core/unit/soft.go: rules for what a step may do, and the events that channels and goroutines hold.
use neptunus.Base.{
  ℕ, ◌+◌, ◌≡◌, refl, Bool, true, false, Option, none, some, List, [], ◌∷◌, ◌++◌, if◌then◌else◌,
  nat_beq, arith,
}
use neptunus.Units.{
  Event, Outcome, blocked, panicked, stepped, ◌>>=◌, guard, Channel, send, close, Stage, receive,
  give, leave, Chain, plugin, filter, head, Effect, quiet, ended, outward, dropping,
}

abbrev pub Holds : {A : Type 0} → (A → Type 0) → Outcome A → Type 0
Holds P blocked = Unit {0}
Holds P panicked = ⊥
Holds P (stepped x) = P x

-- The step does not panic, and if it is made, its result has the property.
pub record Safe {A : Type 0} (P : A → Type 0) (m : Outcome A) : Type 0 where
  pub runs : Holds P m

module _ {A : Type 0} where
  pub Safe-blocked : (P : A → Type 0) → Safe P blocked
  Safe-blocked P = record { runs = tt }

  pub Safe-stepped : (P : A → Type 0) (x : A) → P x → Safe P (stepped x)
  Safe-stepped P x h = record { runs = h }

  pub Safe-guard :
      (P : A → Type 0) (b : Bool) (m : Outcome A) → (b ≡ true → Safe P m) → Safe P (guard b m)
  unfolding guard
  Safe-guard P true m h = h refl
  Safe-guard P false m h = record { runs = tt }

  pub Safe-weaken : (P Q : A → Type 0) (m : Outcome A) → Safe P m → ((x : A) → P x → Q x) → Safe Q m
  Safe-weaken P Q blocked h w = record { runs = tt }
  Safe-weaken P Q panicked h w = record { runs = h.runs }
  Safe-weaken P Q (stepped x) h w = record { runs = w x h.runs }

  pub Safe-both : (P Q : A → Type 0) (m : Outcome A) → Safe P m → Safe Q m → Safe (λ x. P x × Q x) m
  Safe-both P Q blocked h k = record { runs = tt }
  Safe-both P Q panicked h k = record { runs = h.runs }
  Safe-both P Q (stepped x) h k = record { runs = (h.runs, k.runs) }

  pub Safe-bind :
      {B : Type 0} (Q : A → Type 0) (P : B → Type 0) (m : Outcome A) (f : A → Outcome B)
      → Safe Q m
      → ((x : A) → Q x → Safe P (f x))
      → Safe P (m >>= f)
  unfolding ◌>>=◌
  Safe-bind Q P blocked f h hf = record { runs = tt }
  Safe-bind Q P panicked f h hf = record { runs = h.runs }
  Safe-bind Q P (stepped x) f h hf = hf x h.runs

-- How often an event stands in a list, and how many of it are in a place.
unfoldable pub occurs : Event → Event → ℕ
occurs x e = if nat_beq x e then 1 else 0

unfoldable pub count : Event → List Event → ℕ
count x [] = 0
count x (e ∷ es) = occurs x e + count x es

pub count-append : (x : Event) (es fs : List Event) → count x (es ++ fs) ≡ count x es + count x fs
unfolding count
count-append x [] fs = omega arith
count-append x (e ∷ es) fs = omega (arith, count-append x es fs)

module _ (x : Event) where
  abbrev pub in_hand : Option Event → ℕ
  in_hand none = 0
  in_hand (some e) = occurs x e

  abbrev pub in_stage : Stage → ℕ
  in_stage s = count x s.input.buffer + in_hand s.hand

  unfoldable pub in_chain : Chain → ℕ
  in_chain (plugin s) = in_stage s
  in_chain (filter s c) = in_stage s + in_chain c

  abbrev pub carried : Effect → ℕ
  carried quiet = 0
  carried ended = 0
  carried (outward e) = occurs x e
  carried (dropping e) = occurs x e

-- A loop that has ended has read its channel, which was closed, to the end.
pub record Ended (s : Stage) : Type 0 where
  pub closed : s.exited ≡ true → s.input.closed ≡ true
  pub empty : s.exited ≡ true → s.input.buffer ≡ []
  pub free : s.exited ≡ true → s.hand ≡ none

-- A filter's outgoing channel is closed exactly if the filter has ended.
abbrev pub Linked : Chain → Type 0
Linked (plugin s) = Ended s
Linked (filter s c) = Ended s × ((head c).closed ≡ s.exited) × Linked c

unfoldable pub last_exited : Chain → Bool
last_exited (plugin s) = s.exited
last_exited (filter s c) = last_exited c

module _ (x : Event) where
  pub send-Safe :
      (e : Event) (q : Channel)
      → q.closed ≡ false
      → Safe
          (λ q'. (q'.closed ≡ false) × (count x q'.buffer ≡ count x q.buffer + occurs x e))
          (send e q)
  unfolding send count
  send-Safe e q o = rw o (Safe-stepped _ _ (refl, omega (arith, count-append x q.buffer (e ∷ []))))

  pub close-Safe :
      (q : Channel)
      → q.closed ≡ false
      → Safe (λ q'. (q'.closed ≡ true) × (q'.buffer ≡ q.buffer)) (close q)
  unfolding close
  close-Safe q o = rw o (Safe-stepped _ _ (refl, refl))

  -- The stage was running, and has as many events and a channel as open as before.
  abbrev Kept : Stage → Stage → Type 0
  Kept s s' = Ended s' × (s.exited ≡ false) × (s'.input.closed ≡ s.input.closed)

  abbrev pub Received : Stage → Stage → Type 0
  Received s s' = Kept s s' × (s'.exited ≡ false) × (in_stage x s' ≡ in_stage x s)

  abbrev pub Given : Stage → Event × Stage → Type 0
  Given s r = Kept s r.1 × (r.1.exited ≡ false) × (in_stage x r.1 + occurs x r.0 ≡ in_stage x s)

  abbrev pub Left : Stage → Stage → Type 0
  Left s s' = Kept s s' × (s'.exited ≡ true) × (in_stage x s' ≡ in_stage x s)

  abbrev stage_of : Bool → Option Event → List Event → Bool → Stage
  stage_of exited hand buffer closed = record {
    input = record { buffer = buffer; closed = closed };
    hand = hand;
    exited = exited;
  }

  running-Ended :
      (hand : Option Event) (buffer : List Event) (closed : Bool)
      → Ended (stage_of false hand buffer closed)
  running-Ended hand buffer closed = record { closed = λ q. cc; empty = λ q. cc; free = λ q. cc }

  pub receive-Safe : (s : Stage) → Safe (Received s) (receive s)
  unfolding receive count guard
  receive-Safe s = go s.exited s.hand s.input.buffer s.input.closed
    where
      go :
          (exited : Bool) (hand : Option Event) (buffer : List Event) (closed : Bool)
          → Safe
              (Received (stage_of exited hand buffer closed))
              (receive (stage_of exited hand buffer closed))
      go true hand buffer closed = Safe-blocked _
      go false (some e) buffer closed = Safe-blocked _
      go false none [] closed = Safe-blocked _
      go false none (e ∷ rest) closed =
          Safe-stepped _ _ ((running-Ended (some e) rest closed, refl, refl), refl, omega arith)

  pub give-Safe : (s : Stage) → Ended s → Safe (Given s) (give s)
  unfolding give count
  give-Safe s = go s.exited s.hand s.input.buffer s.input.closed
    where
      go :
          (exited : Bool) (hand : Option Event) (buffer : List Event) (closed : Bool)
          → Ended (stage_of exited hand buffer closed)
          → Safe
              (Given (stage_of exited hand buffer closed))
              (give (stage_of exited hand buffer closed))
      go exited none buffer closed h = Safe-blocked _
      go true (some e) buffer closed h = absurd (let q = h.free refl in cc)
      go false (some e) buffer closed h =
          Safe-stepped _ _ ((running-Ended none buffer closed, refl, refl), refl, omega arith)

  pub leave-Safe : (s : Stage) → Safe (Left s) (leave s)
  unfolding leave count guard
  leave-Safe s = go s.exited s.hand s.input.buffer s.input.closed
    where
      go :
          (exited : Bool) (hand : Option Event) (buffer : List Event) (closed : Bool)
          → Safe
              (Left (stage_of exited hand buffer closed))
              (leave (stage_of exited hand buffer closed))
      go true hand buffer closed = Safe-blocked _
      go false (some e) buffer closed = Safe-blocked _
      go false none (e ∷ rest) closed = Safe-blocked _
      go false none [] false = Safe-blocked _
      go false none [] true = Safe-stepped _ _ (
        (record { closed = λ q. refl; empty = λ q. refl; free = λ q. refl }, refl, refl),
        refl,
        refl,
      )
