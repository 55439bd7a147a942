-- ===== src/Orchestrator/Records.antt =====
-- internal/orchestrator: the records that are kept beside workflows, handoffs and events (types.go,
-- ownership.go, signals.go, and the record of an inbound task in store.go). The `Details` and
-- `Metadata` maps are not modelled.
use clawside.Common.{ℕ, String, Option}
use clawside.Orchestrator.Types.{ActorRef, EventType, Handoff}

pub record Watch : Type 0 where
  pub id : String
  pub handoff_id : String
  pub watch_type : String
  pub event_type : EventType
  pub deadline_at : ℕ
  pub status : String
  pub last_checked_at : ℕ
  pub last_result : String
  pub escalation_policy : String
  pub created_at : ℕ

pub record RepairRecord : Type 0 where
  pub id : String
  pub action : String
  pub target_type : String
  pub target_id : String
  pub reason : String
  pub requested_by : ActorRef
  pub created_at : ℕ
  pub invalidates_id : String
  pub replacement_id : String
  pub reopened_state : String

pub record OwnershipBinding : Type 0 where
  pub handoff_id : String
  pub current_owner : ActorRef
  pub lease_holder : ActorRef
  pub reviewer_actor : ActorRef
  pub escalation_owner : ActorRef
  pub fallback_owner : ActorRef
  pub leased_at : Option ℕ
  pub lease_expires_at : Option ℕ
  pub created_at : ℕ
  pub updated_at : ℕ

pub record ObserverHint : Type 0 where
  pub id : String
  pub handoff_id : String
  pub workflow_id : String
  pub signal_type : String
  pub created_at : ℕ

pub record ObservedSignal : Type 0 where
  pub id : String
  pub handoff_id : String
  pub workflow_id : String
  pub kind : String
  pub reason : String
  pub event_id : String
  pub attempt_id : String
  pub observed_at : ℕ

pub data RepairCandidateReason : Type 0 where
  missing_authoritative_progress late_transport_signal watchdog_escalation : RepairCandidateReason

pub data RepairSuggestedAction : Type 0 where
  review backfill_event request_revision escalate : RepairSuggestedAction

pub data RepairCandidateStatus : Type 0 where
  open_ resolved : RepairCandidateStatus

pub record RepairCandidate : Type 0 where
  pub id : String
  pub handoff_id : String
  pub workflow_id : String
  pub signal_id : String
  pub reason : RepairCandidateReason
  pub suggested_action : RepairSuggestedAction
  pub status : RepairCandidateStatus
  pub created_at : ℕ

pub record Artifact : Type 0 where
  pub id : String
  pub handoff_id : String
  pub type : String
  pub uri : String
  pub version : String
  pub checksum : String
  pub created_by : ActorRef
  pub created_at : ℕ

-- `a2aInboundTaskCreationRecord`
pub record TaskCreation : Type 0 where
  pub idempotency_key : String
  pub payload_hash : String
  pub workflow_id : String
  pub handoff_id : String
  pub created_at : ℕ

unfoldable pub ownership_binding_from_handoff : Handoff → OwnershipBinding
ownership_binding_from_handoff h = record {
  handoff_id = h.id;
  current_owner = h.current_owner;
  lease_holder = h.lease_holder;
  reviewer_actor = h.reviewer_actor;
  escalation_owner = h.escalation_owner;
  fallback_owner = h.fallback_owner;
  leased_at = h.leased_at;
  lease_expires_at = h.lease_expires_at;
  created_at = h.created_at;
  updated_at = h.updated_at;
}
