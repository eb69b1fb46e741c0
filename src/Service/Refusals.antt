-- ===== src/Service/Refusals.antt =====
-- pipeline/service/internal.go: requests for a pipeline whose state stays "building".
use neptunus.Base.{
  ◌≡◌, ◌≢◌, refl, String, List, [], ◌∷◌, Result-cases, inl, inr, string_comparable,
  get_elem?-append_left,
}
use neptunus.Config
use neptunus.Core.Fields.{Error}
use neptunus.Assembly.{Registry}
use neptunus.Pipeline.{building, conflict, Pipeline, new_pipeline}
use neptunus.Pipeline.Storage.{Storage}
use neptunus.Service.{
  Service, PipeUnit, Reply, accepted, failed, start_conflict, stop_conflict, edit_conflict,
  create_pipeline, load_or_store, start_locked, start, stop, add, update, delete,
}
use neptunus.Service.Starting.{Registered}
use neptunus.Service.Locking.{checked-refuse, failed-ne-accepted}
use neptunus.Service.Races.{text}

-- A request for an id; the configurations have that id.
pub data Request : Type 0 where
  starts stops deletes : Request
  updates adds : Config.Pipeline → Request

abbrev named : String → Config.Pipeline → Config.Pipeline
named id cfg = record cfg { settings = record cfg.settings { id = id } }

module _ (S : Storage) (R : Registry) (id : String) where
  -- What happens while a request waits, and the request.
  abbrev pub Call : Type 0
  Call = (Service S.St → Service S.St) × Request

  abbrev pub answer : Call → Service S.St → Reply × Service S.St
  answer (wait, starts) s = start S R wait id s
  answer (wait, stops) s = stop S R wait id s
  answer (wait, deletes) s = delete S R wait id s
  answer (wait, updates cfg) s = update S R wait (named id cfg) s
  answer (wait, adds cfg) s = add S R (named id cfg) s

  -- None of the calls, one after the other, succeeds.
  abbrev pub AllRefused : List Call → Service S.St → Type 0
  AllRefused [] s = Unit {0}
  AllRefused (c ∷ calls) s = ((answer c s).0 ≢ accepted) × AllRefused calls (answer c s).1

  module _ (u : PipeUnit) (o : Pipeline) where
    -- A request is refused, and the pipeline is registered still.
    record IsRefused (r : Reply × Service S.St) : Type 0 where
      refused : r.0 ≢ accepted
      still : Registered id r.1 u o

    refusal :
        (r : Reply × Service S.St) (e : Error) (s : Service S.St)
        → Registered id s u o
        → r ≡ (failed (conflict e), s)
        → IsRefused r
    refusal r e s h q = rw q (record { refused = failed-ne-accepted _; still = h })

    module _ (s : Service S.St) (h : Registered id s u o) (at : o.state ≡ building) where
      loaded-Registered :
          (cfg : Config.Pipeline)
          → ((load_or_store S R id cfg s).0 ≡ u) × Registered id (load_or_store S R id cfg s).1 u o
      unfolding load_or_store create_pipeline
      loaded-Registered cfg =
          rw (h.unit, load_or_store)
            (
              refl,
              record {
                unit = h.unit;
                object = get_elem?-append_left s.objects (new_pipeline cfg ∷ []) u.p o h.object;
              },
            )

      start-IsRefused : (wait : Service S.St → Service S.St) → IsRefused (start S R wait id s)
      unfolding start
      start-IsRefused wait = elim (Result-cases (S.get id s.store)) [
        | inr (e, bad) ↦ rw (bad, start) (record { refused = failed-ne-accepted _; still = h })
        | inl (cfg, good) ↦
            let (same, still) = loaded-Registered cfg in
            rw (good, start)
              (refusal _ text (load_or_store S R id cfg s).1 still (
                checked-refuse start_conflict (load_or_store S R id cfg s).0.p
                  (load_or_store S R id cfg s).1
                  (λ _. start_locked S R id cfg (wait (load_or_store S R id cfg s).1)) o text
                  (rw same still.object) (rw at refl)))
      ]

      answer-IsRefused : (c : Call) → IsRefused (answer c s)
      unfolding stop delete update add
      answer-IsRefused (wait, starts) = start-IsRefused wait
      answer-IsRefused (wait, stops) =
          rw (h.unit, stop)
            (refusal _ text s h (checked-refuse stop_conflict u.p s _ o text h.object (rw at refl)))
      answer-IsRefused (wait, deletes) =
          let words : Error = "only stopped pipelines can be deleted" in
          rw (h.unit, delete)
            (refusal _ words s h
              (checked-refuse (edit_conflict words) u.p s _ o words h.object (rw at refl)))
      answer-IsRefused (wait, updates cfg) =
          let words : Error = "only stopped pipelines can be updated" in
          rw (h.unit, update)
            (refusal _ words s h
              (checked-refuse (edit_conflict words) u.p s _ o words h.object (rw at refl)))
      answer-IsRefused (wait, adds cfg) = rw (h.unit, add) (refusal _ _ s h refl)

    pub building-AllRefused :
        (calls : List Call) (s : Service S.St)
        → Registered id s u o
        → o.state ≡ building
        → AllRefused calls s
    building-AllRefused [] s h at = tt
    building-AllRefused (c ∷ calls) s h at =
        let r = answer-IsRefused s h at c in
        (r.refused, building-AllRefused calls (answer c s).1 r.still at)
