-- ===== src/Orchestrator/Tests.antt =====
-- The theorems on the orchestrator at a handoff that is worked on, reviewed and completed.
use clawside.Common.{ℕ, true, false, none, List, [], ◌∷◌, ◌≡◌, refl, arith, inr, Any}
use clawside.Orchestrator.Types.{
  Workflow, WorkflowStatus, HandoffState, EventType, TaskKind, ArtifactMode, ReviewDecision,
  ActorRef, Handoff, EventRecord,
}
use clawside.Orchestrator.Completion.{validate_completion_prereqs, requires_review, hydrate_flags}
use clawside.Orchestrator.Actors.{
  same_actor, is_blank, same_reference, is_workflow_controller, validate_receiver_actor,
  validate_worker_actor, validate_reviewer_actor,
}
use clawside.Orchestrator.Completion.{
  requires_artifacts, requires_submitted, required_artifact_count, can_transition_to_completed,
  is_valid_review_decision,
}
use clawside.Orchestrator.Machine.{
  StateMachine, transition, advance, settle, apply, apply_all, new_state_machine, reject_decision,
}
use clawside.Orchestrator.Machine.Invariant.{IsConsistent, apply_all-IsConsistent}
use clawside.Orchestrator.Machine.Graph.{Accepts, apply-Accepts}
use clawside.Orchestrator.Machine.Trace.{SameTerms, apply_all-SameTerms, terminal_absorbs}
use clawside.Orchestrator.Machine.Review.{IsPending, Approves, completed_needs_approval}
use clawside.Orchestrator.Machine.Finish.{Finishes}
use clawside.Orchestrator.Machine.Finish.Routes.{handoff_can_complete, is_underway}
use clawside.Orchestrator.Replay.{before, insert, sort_events, replay}
use clawside.Orchestrator.Replay.Replayed.{IsFresh, replay_needs_approval}
use clawside.Orchestrator.Projection.{project_workflow}
use clawside.Orchestrator.Projection.Status.{status_of, project_workflow-status}

abbrev nobody : ActorRef
nobody = record { type = ""; id = ""; address = "" }

abbrev worker : ActorRef
worker = record { type = "agent"; id = "worker-1"; address = "" }

abbrev reviewer : ActorRef
reviewer = record { type = "agent"; id = "reviewer-1"; address = "" }

abbrev handoff : Handoff
handoff = record {
  id = "handoff-1";
  workflow_id = "workflow-1";
  workflow_kind = "collaboration";
  parent_handoff_id = none;
  depends_on_handoff_ids = [];
  required_for_workflow_completion = true;
  state = HandoffState.created;
  state_version = 1;
  task_kind = TaskKind.review_required_task;
  intent = "";
  payload_ref = "";
  delivery_target_ref = "";
  deadline_at = none;
  producer_actor = nobody;
  sender_actor = nobody;
  receiver_actor = worker;
  reviewer_actor = reviewer;
  subject_actor = nobody;
  current_owner = nobody;
  lease_holder = nobody;
  escalation_owner = nobody;
  fallback_owner = nobody;
  leased_at = none;
  lease_expires_at = none;
  artifact_policy = record {
    mode = ArtifactMode.none;
    types = [];
    min_count = 0;
    allow_replace = false;
  };
  needs_review = true;
  review_decision = ReviewDecision.unset;
  has_received = false;
  has_claimed = false;
  has_started = false;
  has_checkpointed = false;
  has_submitted = false;
  has_reviewed = false;
  artifact_count = 0;
  last_authoritative_event_id = "";
  created_at = 1;
  updated_at = 1;
  completed_at = none;
}

abbrev event : EventType → ActorRef → ReviewDecision → ℕ → EventRecord
event type actor decision at_ = record {
  id = "event";
  workflow_id = "workflow-1";
  handoff_id = "handoff-1";
  type = type;
  producer_event_time = at_;
  ingested_at = at_;
  producer_actor = actor;
  subject_actor = actor;
  idempotency_key = "";
  correlation_id = "";
  causation_id = "";
  accepted = false;
  rejection_reason = "";
  attempt_id = "";
  artifact_count = 0;
  review_decision = decision;
}

abbrev by_worker : EventType → ℕ → EventRecord
by_worker type at_ = event type worker ReviewDecision.unset at_

abbrev events : List EventRecord
events =
    by_worker EventType.received 2
    ∷ by_worker EventType.claimed 3
    ∷ by_worker EventType.started 4
    ∷ by_worker EventType.checkpointed 5
    ∷ by_worker EventType.submitted 6
    ∷ event EventType.reviewed reviewer ReviewDecision.approved 7
    ∷ by_worker EventType.completed 8
    ∷ []

abbrev machine : StateMachine
machine = record { handoff = handoff }

events_complete : (apply_all machine events).0.handoff.state ≡ HandoffState.completed
unfolding apply_all apply settle advance hydrate_flags transition validate_receiver_actor
    validate_worker_actor validate_reviewer_actor is_blank same_reference same_actor
    is_workflow_controller requires_submitted requires_review requires_artifacts
    validate_completion_prereqs can_transition_to_completed is_valid_review_decision
    required_artifact_count
events_complete = refl

handoff-IsPending : IsPending handoff
handoff-IsPending = record { unapproved = refl; uncompleted = refl }

handoff_review : requires_review handoff ≡ true
unfolding requires_review
handoff_review = refl

completed_needs_approval_example : Any (Approves reviewer) events
completed_needs_approval_example =
    completed_needs_approval machine events handoff_review handoff-IsPending events_complete

handoff-IsConsistent : IsConsistent handoff
unfolding hydrate_flags
handoff-IsConsistent = record {
  claimed_received = λ h. h;
  started_claimed = λ h. h;
  checkpointed_started = λ h. h;
  submitted_checkpointed = λ h. h;
  reviewed_submitted = λ h. h;
  hydrated = refl;
  decision_valid = λ h. ground arith;
  completed_ready = λ h. ground arith;
}

apply_all-IsConsistent_example : IsConsistent (apply_all machine events).0.handoff
apply_all-IsConsistent_example = apply_all-IsConsistent machine events handoff-IsConsistent

received_accepted : (apply machine (by_worker EventType.received 2)).2.accepted ≡ true
unfolding apply settle advance hydrate_flags transition validate_receiver_actor
    validate_worker_actor validate_reviewer_actor is_blank same_reference same_actor
    is_workflow_controller requires_submitted requires_review requires_artifacts
    validate_completion_prereqs can_transition_to_completed is_valid_review_decision
    required_artifact_count
received_accepted = refl

apply-Accepts_example : Accepts machine (apply machine (by_worker EventType.received 2)).0
apply-Accepts_example = apply-Accepts machine (by_worker EventType.received 2) received_accepted

started_rejected : (apply machine (by_worker EventType.started 2)).2.accepted ≡ false
unfolding apply settle advance hydrate_flags transition validate_receiver_actor
    validate_worker_actor validate_reviewer_actor is_blank same_reference same_actor
    is_workflow_controller requires_submitted requires_review requires_artifacts
    validate_completion_prereqs can_transition_to_completed is_valid_review_decision
    required_artifact_count reject_decision
started_rejected = refl

abbrev failed_machine : StateMachine
failed_machine = record { handoff = record handoff { state = HandoffState.failed } }

failed_hydrated : hydrate_flags failed_machine.handoff ≡ failed_machine.handoff
unfolding hydrate_flags
failed_hydrated = refl

apply_all-SameTerms_example : SameTerms handoff (apply_all machine events).0.handoff
apply_all-SameTerms_example = apply_all-SameTerms machine events

terminal_absorbs_example : (apply_all failed_machine events).0.handoff ≡ failed_machine.handoff
terminal_absorbs_example = terminal_absorbs failed_machine events refl failed_hydrated

-- The events as they may be stored: the last one first.
abbrev stored : List EventRecord
stored =
    by_worker EventType.completed 8
    ∷ event EventType.reviewed reviewer ReviewDecision.approved 7
    ∷ by_worker EventType.received 2
    ∷ by_worker EventType.claimed 3
    ∷ by_worker EventType.checkpointed 5
    ∷ by_worker EventType.started 4
    ∷ by_worker EventType.submitted 6
    ∷ []

handoff-IsFresh : IsFresh handoff
handoff-IsFresh = record {
  new = inr refl;
  unreceived = refl;
  unclaimed = refl;
  unstarted = refl;
  uncheckpointed = refl;
  unsubmitted = refl;
  unreviewed = refl;
  unapproved = refl;
}

stored_complete : (replay handoff stored).0.state ≡ HandoffState.completed
unfolding apply_all apply settle advance hydrate_flags transition validate_receiver_actor
    validate_worker_actor validate_reviewer_actor is_blank same_reference same_actor
    is_workflow_controller requires_submitted requires_review requires_artifacts
    validate_completion_prereqs can_transition_to_completed is_valid_review_decision
    required_artifact_count replay sort_events insert before new_state_machine
stored_complete = refl

replay_needs_approval_example : Any (Approves reviewer) stored
replay_needs_approval_example =
    replay_needs_approval handoff stored handoff-IsFresh handoff_review stored_complete

abbrev workflow : Workflow
workflow = record {
  id = "workflow-1";
  kind = "collaboration";
  initiator_actor = nobody;
  status = WorkflowStatus.active;
  root_handoff_id = "handoff-1";
  current_handoff_id = "handoff-1";
  created_at = 1;
  updated_at = 1;
  completed_at = none;
}

-- The second handoff waits for the first.
abbrev handoffs : List Handoff
handoffs =
    handoff ∷ record handoff { id = "handoff-2"; depends_on_handoff_ids = "handoff-1" ∷ [] } ∷ []

project_workflow-status_example :
    ((project_workflow workflow handoffs 9).status ≡ status_of handoffs)
    × ((project_workflow workflow handoffs 9).updated_at ≡ 9)
project_workflow-status_example = project_workflow-status workflow handoffs 9

handoff-receiver : is_blank handoff.receiver_actor ≡ false
unfolding is_blank
handoff-receiver = refl

handoff-reviewer : is_blank handoff.reviewer_actor ≡ false
unfolding is_blank
handoff-reviewer = refl

handoff-underway : is_underway handoff.state handoff.review_decision ≡ true
unfolding is_underway
handoff-underway = refl

handoff_can_complete_example : Finishes handoff machine
handoff_can_complete_example =
    handoff_can_complete handoff handoff-receiver (λ needed. handoff-reviewer) handoff-underway
