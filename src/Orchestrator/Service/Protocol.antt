-- ===== src/Orchestrator/Service/Protocol.antt =====
-- protocol.go and protocol_service.go: the actions of the handoff protocol.
pub mod Gate
use clawside.Common.{
  ℕ, String, Bool, true, false, not, ◌||◌, Option, none, some, List, [], ◌∷◌, if◌then◌else◌, str_eq,
}
use clawside.Orchestrator.Types.{EventType, ReviewDecision, ActorRef, Handoff, EventRecord}
use clawside.Orchestrator.Completion.{is_valid_review_decision}
use clawside.Orchestrator.Machine.{Decision}
use clawside.Orchestrator.Action.{
  Failure, Action, pure, raise, ◌>>=◌, ◌>>◌, Done, raise_if, or_raise,
}
use clawside.Orchestrator.Store.{load_handoff}
use clawside.Orchestrator.Events.{EventDecision, record_authoritative_event}
use clawside.Orchestrator.Service.Related.{ensure_handoff_dependencies_completed}

-- The constants without their prefix, and any other text.
pub data ProtocolAction : Type 0 where
  receive claim start checkpoint submit review request_revision approve complete fail :
      ProtocolAction
  other : String → ProtocolAction

pub record ProtocolRequest : Type 0 where
  pub action : ProtocolAction
  pub handoff_id : String
  pub workflow_id : String
  pub actor : ActorRef
  pub producer_event_time : ℕ
  pub ingested_at : ℕ
  pub artifact_count : ℕ
  pub review_decision : ReviewDecision

pub record ProtocolResult : Type 0 where
  pub action : ProtocolAction
  pub event : EventRecord
  pub decision : Decision
  pub handoff : Handoff

unfoldable pub protocol_action_requires_completed_dependencies : ProtocolAction → Bool
protocol_action_requires_completed_dependencies ProtocolAction.fail = false
protocol_action_requires_completed_dependencies (ProtocolAction.other text) = false
protocol_action_requires_completed_dependencies _ = true

-- The `switch`: the type of the event and its review decision, or none for an error.
unfoldable pub protocol_event_type :
    ProtocolAction → ReviewDecision → Option (EventType × ReviewDecision)
protocol_event_type ProtocolAction.receive _ = some (EventType.received, ReviewDecision.unset)
protocol_event_type ProtocolAction.claim _ = some (EventType.claimed, ReviewDecision.unset)
protocol_event_type ProtocolAction.start _ = some (EventType.started, ReviewDecision.unset)
protocol_event_type ProtocolAction.checkpoint _ =
    some (EventType.checkpointed, ReviewDecision.unset)
protocol_event_type ProtocolAction.submit _ = some (EventType.submitted, ReviewDecision.unset)
protocol_event_type ProtocolAction.review decision =
    if not (is_valid_review_decision decision) then none else some (EventType.reviewed, decision)
protocol_event_type ProtocolAction.request_revision _ =
    some (EventType.reviewed, ReviewDecision.revision_required)
protocol_event_type ProtocolAction.approve _ = some (EventType.reviewed, ReviewDecision.approved)
protocol_event_type ProtocolAction.complete _ = some (EventType.completed, ReviewDecision.unset)
protocol_event_type ProtocolAction.fail _ = some (EventType.failed, ReviewDecision.unset)
protocol_event_type (ProtocolAction.other text) _ = none

unfoldable pub protocol_event : Handoff → ProtocolRequest → EventType → ReviewDecision → EventRecord
protocol_event handoff req type decision = record {
  id = "";
  workflow_id = if not (str_eq req.workflow_id "") then req.workflow_id else handoff.workflow_id;
  handoff_id = req.handoff_id;
  type = type;
  producer_event_time = req.producer_event_time;
  ingested_at = req.ingested_at;
  producer_actor = req.actor;
  subject_actor = req.actor;
  idempotency_key = "";
  correlation_id = "";
  causation_id = "";
  accepted = false;
  rejection_reason = "";
  attempt_id = "";
  artifact_count = req.artifact_count;
  review_decision = decision;
}

unfoldable pub protocol_event_from_request : Handoff → ProtocolRequest → Action EventRecord
protocol_event_from_request handoff req = do
  (type, decision) ←
      or_raise (protocol_event_type req.action req.review_decision)
        (Failure.invalid "unsupported protocol action")
  pure (protocol_event handoff req type decision)

-- The values beside an error are left out.
unfoldable pub apply_protocol_action : ProtocolRequest → Action ProtocolResult
apply_protocol_action req = do
  raise_if (str_eq req.handoff_id "") (Failure.invalid "protocol action requires handoff_id")
  raise_if (str_eq req.actor.id "" || str_eq req.actor.type "")
      (Failure.invalid "protocol action requires actor")
  handoff ← load_handoff req.handoff_id
  if protocol_action_requires_completed_dependencies req.action
      then ensure_handoff_dependencies_completed handoff
      else pure tt
  event ← protocol_event_from_request handoff req
  decided ← record_authoritative_event event
  pure (record {
    action = req.action;
    event = decided.event;
    decision = decided.decision;
    handoff = decided.handoff;
  })
