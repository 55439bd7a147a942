-- ===== src/Orchestrator/Events.antt =====
-- internal/orchestrator: how an event gets into the store (`RecordAcceptedEvent` and
-- `RecordRejectedEvent` of store.go, `RecordAuthoritativeEvent` and `BackfillEvent` of service.go).
pub mod Rules
pub mod Accepted
pub mod Sound
use Prim.Native.String.{◌++◌}
use clawside.Common.{
  ℕ, String, Bool, true, false, not, Option, none, some, List, [], ◌∷◌, ltb, ◌==◌, if◌then◌else◌,
  str_eq,
}
use clawside.Orchestrator.Types.{EventType, ActorRef, Handoff, EventRecord, event_name}
use clawside.Orchestrator.Records.{RepairRecord}
use clawside.Orchestrator.Machine.{Decision, new_state_machine, apply}
use clawside.Orchestrator.Action.{
  Store, Failure, Action, pure, raise, transaction, ◌>>=◌, ◌>>◌, Done, raise_if, current_time,
  new_id,
}
use clawside.Orchestrator.Store.{
  load_handoff, save_projected_handoff, insert_accepted_event, insert_audit_event, save_repair,
}

-- The kind of signal that an observer's event is, as its text.
unfoldable pub observed_signal_kind_for_event : EventType → Option String
observed_signal_kind_for_event EventType.transport_accepted = some "transport_accepted"
observed_signal_kind_for_event EventType.transport_rejected = some "transport_rejected"
observed_signal_kind_for_event EventType.transport_timeout = some "transport_timeout"
observed_signal_kind_for_event EventType.transport_delivery_confirmed =
    some "transport_delivery_confirmed"
observed_signal_kind_for_event EventType.reminder_sent = some "reminder_sent"
observed_signal_kind_for_event EventType.watch_triggered = some "watch_triggered"
observed_signal_kind_for_event EventType.escalation_opened = some "escalation_opened"
observed_signal_kind_for_event EventType.escalation_resolved = some "escalation_resolved"
observed_signal_kind_for_event _ = none

unfoldable pub is_observed_signal_event : EventType → Bool
unfolding observed_signal_kind_for_event
is_observed_signal_event type = elim (observed_signal_kind_for_event type) [
  | none ↦ false
  | some kind ↦ true
]

unfoldable pub max_time : ℕ → ℕ → ℕ
max_time a b = if ltb b a then a else b

unfoldable pub validate_event_workflow_match : Handoff → EventRecord → Action Done
validate_event_workflow_match handoff event =
    if str_eq event.workflow_id ""
    then raise (Failure.invalid "event requires workflow_id")
    else if not (str_eq event.workflow_id handoff.workflow_id)
    then raise (Failure.invalid "event workflow_id does not match handoff workflow_id")
    else pure tt

unfoldable pub preserve_static_handoff_fields : Handoff → Handoff → Handoff
preserve_static_handoff_fields projected original = record projected {
  id = original.id;
  workflow_id = original.workflow_id;
  workflow_kind = original.workflow_kind;
  parent_handoff_id = original.parent_handoff_id;
  depends_on_handoff_ids = original.depends_on_handoff_ids;
  required_for_workflow_completion = original.required_for_workflow_completion;
  task_kind = original.task_kind;
  intent = original.intent;
  payload_ref = original.payload_ref;
  delivery_target_ref = original.delivery_target_ref;
  deadline_at = original.deadline_at;
  producer_actor = original.producer_actor;
  sender_actor = original.sender_actor;
  receiver_actor = original.receiver_actor;
  reviewer_actor = original.reviewer_actor;
  subject_actor = original.subject_actor;
  escalation_owner = original.escalation_owner;
  fallback_owner = original.fallback_owner;
  artifact_policy = original.artifact_policy;
  needs_review = original.needs_review;
  created_at = original.created_at;
}

-- What the state machine makes of a stored handoff and an event, and its decision.
unfoldable pub decide_event : Handoff → EventRecord → Handoff × Decision
decide_event handoff event =
    let (_, projected, decision) = apply (new_state_machine handoff) event in (projected, decision)

-- The handoff that is stored behind an accepted event.
unfoldable pub project_event : Handoff → EventRecord → Handoff
unfolding decide_event preserve_static_handoff_fields
project_event handoff event =
    let (projected, _) = decide_event handoff event in
    record (preserve_static_handoff_fields projected handoff) {
      updated_at = max_time handoff.updated_at event.ingested_at;
      last_authoritative_event_id = event.id;
    }

unfoldable pub record_accepted_event_tx : EventRecord → Action Handoff
record_accepted_event_tx event = do
  handoff ← load_handoff event.handoff_id
  validate_event_workflow_match handoff event
  let decision = (decide_event handoff event).1
  raise_if (not decision.accepted) (Failure.rejected decision.reason)
  let projected = project_event handoff event
  insert_accepted_event event
  save_projected_handoff projected handoff.state_version
  pure projected

unfoldable pub record_accepted_event : EventRecord → Action Handoff
record_accepted_event event = do
  raise_if (not event.accepted) (Failure.invalid "accepted event api requires event.Accepted=true")
  raise_if (is_observed_signal_event event.type)
      (Failure.invalid "accepted event api does not accept observed signal event")
  transaction (record_accepted_event_tx event)

unfoldable pub match_workflow : EventRecord → Action Done
match_workflow event =
    if str_eq event.workflow_id ""
    then pure tt
    else do handoff ← load_handoff event.handoff_id; validate_event_workflow_match handoff event

unfoldable pub record_rejected_event : EventRecord → Action Done
unfolding match_workflow
record_rejected_event event = do
  raise_if event.accepted (Failure.invalid "rejected event api requires event.Accepted=false")
  match_workflow event
  insert_audit_event event

-- `if event.ID == "" …`, `if event.ProducerEventTime.IsZero() …`, `if event.IngestedAt.IsZero() …`
unfoldable pub complete_event : EventRecord → Action EventRecord
complete_event event = do
  id ← if str_eq event.id "" then new_id "evt" else pure event.id
  produced ← if event.producer_event_time == 0 then current_time else pure event.producer_event_time
  ingested ← if event.ingested_at == 0 then current_time else pure event.ingested_at
  pure (record event { id = id; producer_event_time = produced; ingested_at = ingested })

pub record EventDecision : Type 0 where
  pub event : EventRecord
  pub decision : Decision
  pub handoff : Handoff

unfoldable pub rejected_event : Handoff → Decision → EventRecord → EventRecord
rejected_event handoff decision event = record event {
  workflow_id = if str_eq event.workflow_id "" then handoff.workflow_id else event.workflow_id;
  accepted = false;
  rejection_reason = decision.reason;
}

-- What follows `if !decision.Accepted`.
unfoldable pub settle_event : EventRecord → Handoff → Decision → Action EventDecision
settle_event event handoff decision =
    if decision.accepted
    then (do
      let accepted = record event { accepted = true }
      persisted ← record_accepted_event accepted
      pure (record { event = accepted; decision = decision; handoff = persisted }))
    else (do
      record_rejected_event (rejected_event handoff decision event)
      raise (Failure.rejected decision.reason))

-- `RecordAuthoritativeEvent`, and `RecordEvent`. The values beside an error are left out.
unfoldable pub record_authoritative_event : EventRecord → Action EventDecision
record_authoritative_event input = do
  event ← complete_event input
  raise_if (is_observed_signal_event event.type)
      (Failure.invalid "event is signal-only and cannot be recorded as authoritative")
  handoff ← load_handoff event.handoff_id
  settle_event event handoff (decide_event handoff event).1

backfill_repair : EventRecord → String → ActorRef → String → ℕ → RepairRecord
backfill_repair event reason requested_by id created_at = record {
  id = id;
  action = "backfill_event";
  target_type = "handoff";
  target_id = event.handoff_id;
  reason = reason;
  requested_by = requested_by;
  created_at = created_at;
  invalidates_id = "";
  replacement_id = "";
  reopened_state = "";
}

-- The body of the transaction of `BackfillEvent`.
unfoldable pub backfill_event_tx : EventRecord → RepairRecord → Action RepairRecord
backfill_event_tx event repair = do
  save_repair repair
  handoff ← load_handoff event.handoff_id
  validate_event_workflow_match handoff event
  let decision = (decide_event handoff event).1
  raise_if (not decision.accepted) (Failure.rejected decision.reason)
  insert_accepted_event (record event { accepted = true })
  save_projected_handoff (project_event handoff event) handoff.state_version
  pure repair

unfoldable pub backfill_event : EventRecord → String → ActorRef → Action RepairRecord
unfolding backfill_repair
backfill_event input reason requested_by = do
  event ← complete_event input
  id ← new_id "repair"
  created_at ← current_time
  transaction (backfill_event_tx event (backfill_repair event reason requested_by id created_at))
