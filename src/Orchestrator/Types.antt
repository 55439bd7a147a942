-- ===== src/Orchestrator/Types.antt =====
-- internal/orchestrator/types.go: the handoff, its events and the enumerations.
-- A Go string that is compared with named constants is a data type with one more constructor for
-- the empty text, `unset`, and one for any other text, `other`. `time.Time` is a number of
-- nanoseconds since Go's zero time, so 0 is the zero time; a pointer to a time is an `Option`.
-- A count (`int`) is a natural number: the code tests a count only by `> 0` and against a positive
-- bound, where a negative count behaves like 0. `map[string]any` payloads are not modelled.
use clawside.Common.{ℕ, String, List, Option, Bool}

pub data HandoffState : Type 0 where
  unset created dispatched received claimed started checkpointed submitted reviewed completed failed
        expired :
      HandoffState
  other : String → HandoffState

pub data EventType : Type 0 where
  transport_requested transport_accepted transport_rejected transport_timeout
        transport_delivery_confirmed :
      EventType
  received claimed started checkpointed submitted reviewed completed failed expired : EventType
  artifact_attached artifact_replaced artifact_validated watch_triggered reminder_sent
        escalation_opened escalation_resolved :
      EventType
  other : String → EventType

pub data TaskKind : Type 0 where
  generic_task artifact_required_task review_required_task : TaskKind
  other : String → TaskKind

pub data ArtifactMode : Type 0 where
  none optional required : ArtifactMode
  other : String → ArtifactMode

pub data ReviewDecision : Type 0 where
  unset approved revision_required rejected : ReviewDecision
  other : String → ReviewDecision

-- `ActorType` stays a text: the code compares it with "" and "system" and with another one.
pub record ActorRef : Type 0 where
  pub type : String
  pub id : String
  pub address : String

abbrev pub actor_system : String
actor_system = "system"

pub record ArtifactPolicy : Type 0 where
  pub mode : ArtifactMode
  pub types : List String
  pub min_count : ℕ
  pub allow_replace : Bool

pub record Handoff : Type 0 where
  pub id : String
  pub workflow_id : String
  pub workflow_kind : String
  pub parent_handoff_id : Option String
  pub depends_on_handoff_ids : List String
  pub required_for_workflow_completion : Bool
  pub state : HandoffState
  pub state_version : ℕ  -- int64, as its bit pattern
  pub task_kind : TaskKind
  pub intent : String
  pub payload_ref : String
  pub delivery_target_ref : String
  pub deadline_at : Option ℕ
  pub producer_actor : ActorRef
  pub sender_actor : ActorRef
  pub receiver_actor : ActorRef
  pub reviewer_actor : ActorRef
  pub subject_actor : ActorRef
  pub current_owner : ActorRef
  pub lease_holder : ActorRef
  pub escalation_owner : ActorRef
  pub fallback_owner : ActorRef
  pub leased_at : Option ℕ
  pub lease_expires_at : Option ℕ
  pub artifact_policy : ArtifactPolicy
  pub needs_review : Bool
  pub review_decision : ReviewDecision
  pub has_received : Bool
  pub has_claimed : Bool
  pub has_started : Bool
  pub has_checkpointed : Bool
  pub has_submitted : Bool
  pub has_reviewed : Bool
  pub artifact_count : ℕ
  pub last_authoritative_event_id : String
  pub created_at : ℕ
  pub updated_at : ℕ
  pub completed_at : Option ℕ

pub record EventRecord : Type 0 where
  pub id : String
  pub workflow_id : String
  pub handoff_id : String
  pub type : EventType
  pub producer_event_time : ℕ
  pub ingested_at : ℕ
  pub producer_actor : ActorRef
  pub subject_actor : ActorRef
  pub idempotency_key : String
  pub correlation_id : String
  pub causation_id : String
  pub accepted : Bool
  pub rejection_reason : String
  pub attempt_id : String
  pub artifact_count : ℕ
  pub review_decision : ReviewDecision

pub data WorkflowStatus : Type 0 where
  active blocked completed failed : WorkflowStatus
  other : String → WorkflowStatus

pub record Workflow : Type 0 where
  pub id : String
  pub kind : String
  pub initiator_actor : ActorRef
  pub status : WorkflowStatus
  pub root_handoff_id : String
  pub current_handoff_id : String
  pub created_at : ℕ
  pub updated_at : ℕ
  pub completed_at : Option ℕ

-- The text of an event type.
unfoldable pub event_name : EventType → String
event_name EventType.transport_requested = "transport_requested"
event_name EventType.transport_accepted = "transport_accepted"
event_name EventType.transport_rejected = "transport_rejected"
event_name EventType.transport_timeout = "transport_timeout"
event_name EventType.transport_delivery_confirmed = "transport_delivery_confirmed"
event_name EventType.received = "received"
event_name EventType.claimed = "claimed"
event_name EventType.started = "started"
event_name EventType.checkpointed = "checkpointed"
event_name EventType.submitted = "submitted"
event_name EventType.reviewed = "reviewed"
event_name EventType.completed = "completed"
event_name EventType.failed = "failed"
event_name EventType.expired = "expired"
event_name EventType.artifact_attached = "artifact_attached"
event_name EventType.artifact_replaced = "artifact_replaced"
event_name EventType.artifact_validated = "artifact_validated"
event_name EventType.watch_triggered = "watch_triggered"
event_name EventType.reminder_sent = "reminder_sent"
event_name EventType.escalation_opened = "escalation_opened"
event_name EventType.escalation_resolved = "escalation_resolved"
event_name (EventType.other name) = name
