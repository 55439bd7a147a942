-- ===== src/Orchestrator/Service/Calls/Repaired.antt =====
-- The repairs keep what the few statements keep: a handoff is rebuilt, invalidated or reopened.
use clawside.Common.{String, List, [], ◌∷◌}
use clawside.Orchestrator.Types.{ActorRef, Handoff, EventRecord}
use clawside.Orchestrator.Records.{RepairRecord}
use clawside.Orchestrator.Action.{Store, for_each}
use clawside.Orchestrator.Action.Rules.{
  Keeps, Anything, pure-Keeps, or_raise-Meets, transaction-Meets, then-Keeps, bind-Keeps,
  raise_if-Keeps, current_time-Keeps, new_id-Keeps, for_each-Keeps, store_of-Meets,
}
use clawside.Orchestrator.Store.{save_repair}
use clawside.Orchestrator.Store.Frames.{save_repair-Keeps, replace_watches-Keeps}
use clawside.Orchestrator.Service.Create.Frames.{create_default_watches-Keeps}
use clawside.Orchestrator.Service.Repair.{
  replay_handoff_projection, build_default_repair_records, lookup_accepted_event, invalidate_event,
  new_invalidations, reopen_handoff_tx, reopen_handoff,
}
use clawside.Orchestrator.Service.Calls.Keeping.{Tables, OnTables, Invariant}

module _ (R : Tables) (Q : Handoff → Type 0) (inv : Invariant R Q) where
  abbrev P : Store → Type 0
  P = OnTables R

  replay-Keeps : (id : String) → Keeps P (replay_handoff_projection id)
  unfolding replay_handoff_projection
  replay-Keeps id = bind-Keeps P (inv.loaded id) (λ h q.
      bind-Keeps P {Q = Anything} (current_time-Keeps P) (λ reset_at _.
        bind-Keeps P (store_of-Meets P) (λ st _.
          bind-Keeps P {Q = Anything} (current_time-Keeps P) (λ updated_at _.
            then-Keeps P (inv.replayed h _ reset_at updated_at q) (
              bind-Keeps P {Q = Anything} (current_time-Keeps P) (λ now _.
                bind-Keeps P {Q = Anything} (create_default_watches-Keeps P _ now)
                  (λ watches _. replace_watches-Keeps P (λ _ _ p. p) id watches)))))))

  repairs-Keeps : (records : List RepairRecord) → Keeps P (for_each records save_repair)
  repairs-Keeps records = for_each-Keeps P records (λ r. save_repair-Keeps P (λ _ _ p. p) r)

  pub invalidate_event-Keeps :
      (id reason : String) (actor : ActorRef) → Keeps P (invalidate_event id reason actor)
  unfolding invalidate_event lookup_accepted_event build_default_repair_records
  invalidate_event-Keeps id reason actor =
      bind-Keeps P {Q = Anything} (current_time-Keeps P) (λ now _.
        bind-Keeps P {Q = Anything}
          (bind-Keeps P (store_of-Meets P) (λ st _. or_raise-Meets P Anything _ _ (λ _ _. tt)))
          (λ event _. transaction-Meets P Anything (
            bind-Keeps P {Q = Anything}
              (bind-Keeps P {Q = Anything} (new_id-Keeps P "repair") (λ rid _. pure-Keeps P _))
              (λ records _. then-Keeps P (repairs-Keeps records) (
                bind-Keeps P {Q = Anything} (or_raise-Meets P Anything _ _ (λ _ _. tt)) (λ chosen _.
                  then-Keeps P (raise_if-Keeps P _ _)
                    (then-Keeps P (replay-Keeps event.handoff_id) (pure-Keeps P _))))))))

  new_invalidations-Keeps :
      (reason : String) (actor : ActorRef) (events : List EventRecord)
      → Keeps P (new_invalidations reason actor events)
  unfolding new_invalidations
  new_invalidations-Keeps reason actor [] = pure-Keeps P []
  new_invalidations-Keeps reason actor (e ∷ events) =
      bind-Keeps P {Q = Anything} (new_id-Keeps P "repair") (λ id _.
        bind-Keeps P {Q = Anything} (current_time-Keeps P) (λ at _.
          bind-Keeps P {Q = Anything} (new_invalidations-Keeps reason actor events)
            (λ rest _. pure-Keeps P _)))

  pub reopen_handoff-Keeps :
      (id reason : String) (actor : ActorRef) → Keeps P (reopen_handoff id reason actor)
  unfolding reopen_handoff reopen_handoff_tx
  reopen_handoff-Keeps id reason actor =
      bind-Keeps P {Q = Anything} (new_id-Keeps P "repair") (λ rid _.
        bind-Keeps P {Q = Anything} (current_time-Keeps P) (λ at _. transaction-Meets P Anything (
          bind-Keeps P (inv.loaded id) (λ h q. then-Keeps P (raise_if-Keeps P _ _) (
            then-Keeps P (save_repair-Keeps P (λ _ _ p. p) _) (
              bind-Keeps P (store_of-Meets P) (λ st _.
                bind-Keeps P {Q = Anything} (new_invalidations-Keeps reason actor _) (λ records _.
                  then-Keeps P (repairs-Keeps records)
                    (then-Keeps P (replay-Keeps id) (pure-Keeps P _))))))))))
