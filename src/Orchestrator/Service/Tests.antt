-- ===== src/Orchestrator/Service/Tests.antt =====
-- A service at work, for the tests: a handoff that is created, worked on, completed and reopened.
mod Histories
mod Operations
use Prim.Native.String.{◌++◌}
use clawside.Common.{
  ℕ, zero, suc, ◌+◌, String, true, false, Option, none, some, List, [], ◌∷◌, ◌≡◌, refl, length,
}
use clawside.Orchestrator.Types.{
  HandoffState, EventType, TaskKind, ArtifactMode, ReviewDecision, ActorRef, Handoff, EventRecord,
}
use clawside.Orchestrator.Table.{find}
use clawside.Orchestrator.Action.{Service, Store, Failure, err, ok, run}
use clawside.Orchestrator.Store.{handoff_key}
use clawside.Orchestrator.Service.Create.{CreateHandoffInput, no_actor}
use clawside.Orchestrator.Service.Protocol.{ProtocolAction, ProtocolRequest}
use clawside.Orchestrator.Service.Calls.{Call, perform, perform_all, empty_store}
use clawside.Orchestrator.Service.Create.{
  create_handoff, save_creation, new_root_handoff_creation, new_watch, create_default_watches,
  new_handoff, progress_event_for_task, has_relations,
}
use clawside.Orchestrator.Completion.{
  requires_submitted, requires_artifacts, requires_review, hydrate_flags,
  can_transition_to_completed, validate_completion_prereqs, required_artifact_count,
}
use clawside.Orchestrator.Store.{
  save_workflow, save_handoff, save_ownership_binding, load_workflow, load_handoff, save_watch,
  insert_accepted_event, insert_event, save_projected_handoff, insert_referenced,
  insert_audit_event,
}
use clawside.Orchestrator.Table.{upsert, insert_row, update, exists}
use clawside.Orchestrator.Service.Protocol.{
  apply_protocol_action, protocol_action_requires_completed_dependencies,
  protocol_event_from_request, protocol_event_type, protocol_event,
}
use clawside.Orchestrator.Service.Related.{ensure_handoff_dependencies_completed}
use clawside.Orchestrator.Events.{
  record_authoritative_event, complete_event, is_observed_signal_event,
  observed_signal_kind_for_event, decide_event, project_event, preserve_static_handoff_fields,
  max_time, settle_event, record_accepted_event, record_accepted_event_tx,
  validate_event_workflow_match, record_rejected_event, rejected_event,
}
use clawside.Orchestrator.Records.{ownership_binding_from_handoff}
use clawside.Orchestrator.Machine.{
  new_state_machine, apply, settle, advance, transition, reject_decision,
}
use clawside.Orchestrator.Actors.{
  validate_receiver_actor, validate_worker_actor, is_blank, same_reference, same_actor,
  is_workflow_controller,
}

abbrev pub tag : ℕ → String
tag zero = ""
tag (suc n) = "x" ++ tag n

abbrev pub service : Service
service = record {
  store = empty_store;
  now = λ n. n + 1;
  new_id = λ n prefix. prefix ++ tag n;
  calls = 0;
}

abbrev pub worker : ActorRef
worker = record { type = "agent"; id = "worker-1"; address = "" }

abbrev pub input : CreateHandoffInput
input = record {
  workflow_kind = "collaboration";
  sender = record { type = "user"; id = "user-1"; address = "" };
  receiver = worker;
  reviewer = no_actor;
  task_kind = TaskKind.generic_task;
  intent = "";
  parent_handoff_id = none;
  depends_on_handoff_ids = [];
  required_for_workflow_completion = true;
  artifact_policy = record {
    mode = ArtifactMode.none;
    types = [];
    min_count = 0;
    allow_replace = false;
  };
  needs_review = false;
  payload_ref = "";
  delivery_target_ref = "";
}

abbrev pub request : ProtocolAction → ProtocolRequest
request action = record {
  action = action;
  handoff_id = "hfxx";
  workflow_id = "";
  actor = worker;
  producer_event_time = 0;
  ingested_at = 0;
  artifact_count = 0;
  review_decision = ReviewDecision.unset;
}

abbrev pub calls : List Call
calls =
    Call.create input
    ∷ Call.protocol (request ProtocolAction.receive)
    ∷ Call.protocol (request ProtocolAction.claim)
    ∷ Call.protocol (request ProtocolAction.start)
    ∷ Call.protocol (request ProtocolAction.checkpoint)
    ∷ Call.protocol (request ProtocolAction.complete)
    ∷ []

-- A proof that unfolds this computes every call.
unfoldable pub computing : Service → Service
unfolding run perform perform_all create_handoff save_creation new_root_handoff_creation new_watch
    create_default_watches new_handoff progress_event_for_task requires_submitted requires_artifacts
    requires_review has_relations save_workflow save_handoff save_ownership_binding load_workflow
    load_handoff save_watch upsert find insert_row update apply_protocol_action
    protocol_action_requires_completed_dependencies ensure_handoff_dependencies_completed
    protocol_event_from_request protocol_event_type protocol_event record_authoritative_event
    complete_event is_observed_signal_event observed_signal_kind_for_event decide_event
    project_event preserve_static_handoff_fields max_time settle_event record_accepted_event
    record_accepted_event_tx validate_event_workflow_match insert_accepted_event insert_event exists
    save_projected_handoff record_rejected_event rejected_event insert_referenced insert_audit_event
    ownership_binding_from_handoff new_state_machine apply settle advance transition hydrate_flags
    reject_decision validate_receiver_actor validate_worker_actor is_blank same_reference same_actor
    is_workflow_controller can_transition_to_completed validate_completion_prereqs
    required_artifact_count
computing s = s

unfoldable pub worked : Service
unfolding computing
worked = perform_all calls service
