-- ===== src/Orchestrator/Events/Rules.antt =====
-- What the recording of events needs of its statements, so that it keeps a property of the store.
use clawside.Common.{String, arith}
use clawside.Orchestrator.Types.{ActorRef, Handoff, EventRecord}
use clawside.Orchestrator.Records.{RepairRecord}
use clawside.Orchestrator.Machine.{Decision}
use clawside.Orchestrator.Action.{Store, run}
use clawside.Orchestrator.Action.Rules.{
  Meets, Keeps, Anything, pure-Keeps, raise-Meets, transaction-Meets, then-Keeps, bind-Keeps,
  if-Keeps, raise_if-Keeps, current_time-Keeps, new_id-Keeps,
}
use clawside.Orchestrator.Store.{
  load_handoff, save_projected_handoff, insert_accepted_event, insert_audit_event, save_repair,
}
use clawside.Orchestrator.Events.{
  validate_event_workflow_match, project_event, record_accepted_event_tx, record_accepted_event,
  record_rejected_event, complete_event, settle_event, record_authoritative_event,
  backfill_event_tx, backfill_event,
}

-- `Q` is what a handoff that was loaded is known to satisfy.
pub record Laws (P : Store → Type 0) (Q : Handoff → Type 0) : Type 0 where
  pub loaded : (id : String) → Meets P Q (load_handoff id)
  pub inserted : (e : EventRecord) → Keeps P (insert_accepted_event e)
  pub projected :
      (h : Handoff) (e : EventRecord)
      → Q h
      → Keeps P (save_projected_handoff (project_event h e) h.state_version)
  pub audited : (e : EventRecord) → Keeps P (insert_audit_event e)
  pub repaired : (r : RepairRecord) → Keeps P (save_repair r)

pub validate_event_workflow_match-Keeps :
    (P : Store → Type 0) (h : Handoff) (e : EventRecord)
    → Keeps P (validate_event_workflow_match h e)
unfolding validate_event_workflow_match run
validate_event_workflow_match-Keeps P h e = record { ends = λ s p. ground arith }

module _ (P : Store → Type 0) where
  pub complete_event-Keeps : (e : EventRecord) → Keeps P (complete_event e)
  unfolding complete_event
  complete_event-Keeps e =
      bind-Keeps P {Q = Anything} (if-Keeps P _ (new_id-Keeps P "evt") (pure-Keeps P e.id)) (λ id _.
        bind-Keeps P {Q = Anything}
          (if-Keeps P _ (current_time-Keeps P) (pure-Keeps P e.producer_event_time))
          (λ produced _.
            bind-Keeps P {Q = Anything}
              (if-Keeps P _ (current_time-Keeps P) (pure-Keeps P e.ingested_at))
              (λ ingested _. pure-Keeps P _)))

module _ (P : Store → Type 0) (Q : Handoff → Type 0) (laws : Laws P Q) where
  pub record_accepted_event-Keeps : (e : EventRecord) → Keeps P (record_accepted_event e)
  unfolding record_accepted_event record_accepted_event_tx
  record_accepted_event-Keeps e = then-Keeps P (raise_if-Keeps P _ _) (
      then-Keeps P (raise_if-Keeps P _ _) (
        transaction-Meets P Anything (
          bind-Keeps P (laws.loaded e.handoff_id) (λ h q.
            then-Keeps P (validate_event_workflow_match-Keeps P h e) (
              then-Keeps P (raise_if-Keeps P _ _) (
                then-Keeps P (laws.inserted e)
                  (then-Keeps P (laws.projected h e q) (pure-Keeps P _))))))))

  pub record_rejected_event-Keeps : (e : EventRecord) → Keeps P (record_rejected_event e)
  unfolding record_rejected_event
  record_rejected_event-Keeps e = then-Keeps P (raise_if-Keeps P _ _) (
      then-Keeps P
        (if-Keeps P _ (pure-Keeps P tt) (
          bind-Keeps P (laws.loaded e.handoff_id)
            (λ h _. validate_event_workflow_match-Keeps P h e)))
        (laws.audited e))

  settle_event-Keeps : (e : EventRecord) (h : Handoff) (d : Decision) → Keeps P (settle_event e h d)
  unfolding settle_event
  settle_event-Keeps e h d =
      if-Keeps P d.accepted
        (bind-Keeps P {Q = Anything} (record_accepted_event-Keeps _) (λ h _. pure-Keeps P _))
        (then-Keeps P (record_rejected_event-Keeps _) (raise-Meets P Anything _))

  pub record_authoritative_event-Keeps : (e : EventRecord) → Keeps P (record_authoritative_event e)
  unfolding record_authoritative_event
  record_authoritative_event-Keeps e =
      bind-Keeps P {Q = Anything} (complete_event-Keeps P e) (λ completed _.
        then-Keeps P (raise_if-Keeps P _ _) (
          bind-Keeps P (laws.loaded completed.handoff_id)
            (λ h _. settle_event-Keeps completed h _)))

  pub backfill_event-Keeps :
      (e : EventRecord) (reason : String) (requested_by : ActorRef)
      → Keeps P (backfill_event e reason requested_by)
  unfolding backfill_event backfill_event_tx
  backfill_event-Keeps e reason requested_by =
      bind-Keeps P {Q = Anything} (complete_event-Keeps P e) (λ completed _.
        bind-Keeps P {Q = Anything} (new_id-Keeps P "repair") (λ id _.
          bind-Keeps P {Q = Anything} (current_time-Keeps P) (λ now _.
            transaction-Meets P Anything (
              then-Keeps P (laws.repaired _) (
                bind-Keeps P (laws.loaded completed.handoff_id) (λ h q.
                  then-Keeps P (validate_event_workflow_match-Keeps P h completed) (
                    then-Keeps P (raise_if-Keeps P _ _) (
                      then-Keeps P (laws.inserted _)
                        (then-Keeps P (laws.projected h completed q) (pure-Keeps P _))))))))))
