-- ===== src/Orchestrator/Service/Create.antt =====
-- service.go: handoffs that are created, alone, once for an idempotency key, or in a workflow.
pub mod Frames
pub mod Once
pub mod First
use clawside.Common.{
  ℕ, ◌+◌, ◌*◌, String, Bool, true, false, not, ◌&&◌, ◌||◌, Option, none, some, List, [], ◌∷◌,
  length, if◌then◌else◌, str_eq,
}
use clawside.Sender.Text.{is_blank_text}
use clawside.Orchestrator.Types.{
  HandoffState, EventType, TaskKind, ReviewDecision, ActorRef, actor_system, ArtifactPolicy,
  Handoff, Workflow, WorkflowStatus,
}
use clawside.Orchestrator.Completion.{requires_submitted}
use clawside.Orchestrator.Projection.{project_workflow}
use clawside.Orchestrator.Records.{Watch, Artifact, TaskCreation}
use clawside.Orchestrator.Action.{
  Failure, Action, pure, raise, transaction, ◌>>=◌, ◌>>◌, Done, store_of, raise_if, current_time,
  new_id, for_each,
}
use clawside.Orchestrator.Store.{
  save_workflow, load_workflow, save_handoff, load_handoff, save_artifact, load_task_creation,
  save_task_creation, save_watch,
}
use clawside.Orchestrator.Store.Lists.{list_workflow_handoffs}
use clawside.Orchestrator.Service.Related.{load_related_handoff}

pub record CreateHandoffInput : Type 0 where
  pub workflow_kind : String
  pub sender : ActorRef
  pub receiver : ActorRef
  pub reviewer : ActorRef
  pub task_kind : TaskKind
  pub intent : String
  pub parent_handoff_id : Option String
  pub depends_on_handoff_ids : List String
  pub required_for_workflow_completion : Bool
  pub artifact_policy : ArtifactPolicy
  pub needs_review : Bool
  pub payload_ref : String
  pub delivery_target_ref : String

pub record CreateHandoffResult : Type 0 where
  pub workflow : Workflow
  pub handoff : Handoff
  pub watches : List Watch

-- time.Minute
abbrev pub minute : ℕ
minute = 60 * 1_000_000_000

unfoldable pub progress_event_for_task : Handoff → EventType
progress_event_for_task h =
    if requires_submitted h then EventType.submitted else EventType.completed

unfoldable pub new_watch : String → String → EventType → ℕ → ℕ → Action Watch
new_watch handoff_id watch_type event_type deadline_at now = do
  id ← new_id "watch"
  pure (record {
    id = id;
    handoff_id = handoff_id;
    watch_type = watch_type;
    event_type = event_type;
    deadline_at = deadline_at;
    status = "active";
    last_checked_at = now;
    last_result = "";
    escalation_policy = "";
    created_at = now;
  })

unfoldable pub create_default_watches : Handoff → ℕ → Action (List Watch)
create_default_watches h now = do
  received ← new_watch h.id "wait_for_received" EventType.received (now + 5 * minute) now
  started ← new_watch h.id "wait_for_started" EventType.started (now + 10 * minute) now
  progress ← new_watch h.id "wait_for_progress" (progress_event_for_task h) (now + 15 * minute) now
  pure (received ∷ started ∷ progress ∷ [])

abbrev pub no_actor : ActorRef
no_actor = record { type = ""; id = ""; address = "" }

abbrev pub workflow_controller : ActorRef
workflow_controller = record { type = actor_system; id = "workflow-controller"; address = "" }

-- The literal of a new handoff, in `newRootHandoffCreation` and in `AppendHandoff`.
unfoldable pub new_handoff : CreateHandoffInput → String → String → String → ℕ → Handoff
new_handoff input id workflow_id workflow_kind now = record {
  id = id;
  workflow_id = workflow_id;
  workflow_kind = workflow_kind;
  parent_handoff_id = input.parent_handoff_id;
  depends_on_handoff_ids = input.depends_on_handoff_ids;
  required_for_workflow_completion = input.required_for_workflow_completion;
  state = HandoffState.created;
  state_version = 0;
  task_kind = input.task_kind;
  intent = input.intent;
  payload_ref = input.payload_ref;
  delivery_target_ref = input.delivery_target_ref;
  deadline_at = none;
  producer_actor = workflow_controller;
  sender_actor = input.sender;
  receiver_actor = input.receiver;
  reviewer_actor = input.reviewer;
  subject_actor = input.receiver;
  current_owner = input.receiver;
  lease_holder = no_actor;
  escalation_owner = input.sender;
  fallback_owner = input.sender;
  leased_at = none;
  lease_expires_at = none;
  artifact_policy = input.artifact_policy;
  needs_review = input.needs_review;
  review_decision = ReviewDecision.unset;
  has_received = false;
  has_claimed = false;
  has_started = false;
  has_checkpointed = false;
  has_submitted = false;
  has_reviewed = false;
  artifact_count = 0;
  last_authoritative_event_id = "";
  created_at = now;
  updated_at = now;
  completed_at = none;
}

new_workflow : CreateHandoffInput → String → String → ℕ → Workflow
new_workflow input id handoff_id now = record {
  id = id;
  kind = input.workflow_kind;
  initiator_actor = input.sender;
  status = WorkflowStatus.active;
  root_handoff_id = handoff_id;
  current_handoff_id = handoff_id;
  created_at = now;
  updated_at = now;
  completed_at = none;
}

unfoldable pub new_root_handoff_creation : CreateHandoffInput → ℕ → Action CreateHandoffResult
unfolding new_workflow
new_root_handoff_creation input now = do
  workflow_id ← new_id "wf"
  handoff_id ← new_id "hf"
  let handoff = new_handoff input handoff_id workflow_id input.workflow_kind now
  watches ← create_default_watches handoff now
  pure (record {
    workflow = new_workflow input workflow_id handoff_id now;
    handoff = handoff;
    watches = watches;
  })

-- `input.ParentHandoffID != nil || len(input.DependsOnHandoffIDs) > 0`
unfoldable pub has_relations : CreateHandoffInput → Bool
has_relations input = elim input.parent_handoff_id [
  | some parent ↦ true
  | none ↦ elim input.depends_on_handoff_ids [ [] ↦ false | id ∷ ids ↦ true ]
]

unfoldable pub save_creation : CreateHandoffResult → Action Done
save_creation created = do
  save_workflow created.workflow
  save_handoff created.handoff
  for_each created.watches save_watch

unfoldable pub create_handoff : CreateHandoffInput → Action CreateHandoffResult
create_handoff input = do
  raise_if (has_relations input) (Failure.invalid "workflow_id is required")
  now ← current_time
  created ← new_root_handoff_creation input now
  transaction (do save_creation created; pure created)

pub record InboundArtifactRef : Type 0 where
  pub uri : String
  pub type : String
  pub version : String
  pub checksum : String

pub record IdempotentCreateHandoffInput : Type 0 where
  pub idempotency_key : String
  pub payload_hash : String
  pub handoff : CreateHandoffInput
  pub artifact_refs : List InboundArtifactRef

pub record IdempotentCreateHandoffResult : Type 0 where
  pub created : CreateHandoffResult
  pub replayed : Bool

unfoldable pub new_artifacts :
    String → ActorRef → ℕ → List InboundArtifactRef → Action (List Artifact)
new_artifacts handoff_id sender now [] = pure []
new_artifacts handoff_id sender now (ref ∷ refs) = do
  id ← new_id "art"
  artifacts ← new_artifacts handoff_id sender now refs
  pure (
      (record {
        id = id;
        handoff_id = handoff_id;
        type = ref.type;
        uri = ref.uri;
        version = ref.version;
        checksum = ref.checksum;
        created_by = sender;
        created_at = now;
      })
      ∷ artifacts)

-- What follows `if ok` where a creation with the key is stored.
unfoldable pub replay_creation :
    TaskCreation → IdempotentCreateHandoffInput → Action IdempotentCreateHandoffResult
replay_creation stored input = do
  raise_if (not (str_eq stored.payload_hash input.payload_hash)) Failure.idempotency_conflict
  workflow ← load_workflow stored.workflow_id
  handoff ← load_handoff stored.handoff_id
  pure (record {
    created = record { workflow = workflow; handoff = handoff; watches = [] };
    replayed = true;
  })

task_creation : IdempotentCreateHandoffInput → CreateHandoffResult → ℕ → TaskCreation
task_creation input created now = record {
  idempotency_key = input.idempotency_key;
  payload_hash = input.payload_hash;
  workflow_id = created.workflow.id;
  handoff_id = created.handoff.id;
  created_at = now;
}

unfoldable pub store_creation :
    IdempotentCreateHandoffInput
    → CreateHandoffResult
    → List Artifact
    → ℕ
    → Action IdempotentCreateHandoffResult
unfolding task_creation
store_creation input created artifacts now = do
  save_workflow created.workflow
  save_handoff created.handoff
  for_each artifacts save_artifact
  for_each created.watches save_watch
  save_task_creation (task_creation input created now)
  pure (record { created = created; replayed = false })

unfoldable pub create_or_replay :
    IdempotentCreateHandoffInput
    → CreateHandoffResult
    → List Artifact
    → ℕ
    → Option TaskCreation
    → Action IdempotentCreateHandoffResult
create_or_replay input created artifacts now (some stored) = replay_creation stored input
create_or_replay input created artifacts now none = store_creation input created artifacts now

unfoldable pub create_handoff_idempotent :
    IdempotentCreateHandoffInput → Action IdempotentCreateHandoffResult
create_handoff_idempotent input = do
  raise_if (is_blank_text input.idempotency_key) (Failure.invalid "idempotency_key is required")
  raise_if (is_blank_text input.payload_hash) (Failure.invalid "payload_hash is required")
  raise_if (has_relations input.handoff) (Failure.invalid "workflow_id is required")
  now ← current_time
  root ← new_root_handoff_creation input.handoff now
  artifacts ← new_artifacts root.handoff.id input.handoff.sender now input.artifact_refs
  let created : CreateHandoffResult = record root {
    handoff = record root.handoff { artifact_count = length artifacts };
  }
  transaction (do
    stored ← load_task_creation input.idempotency_key
    create_or_replay input created artifacts now stored)

abbrev pub is_terminal_status : WorkflowStatus → Bool
is_terminal_status WorkflowStatus.completed = true
is_terminal_status WorkflowStatus.failed = true
is_terminal_status _ = false

-- The parent, where there is one.
unfoldable pub check_parent : Option String → String → Action Done
check_parent none workflow_id = pure tt
check_parent (some id) workflow_id = do load_related_handoff id workflow_id; pure tt

unfoldable pub append_handoff_tx : CreateHandoffInput → Workflow → ℕ → Action CreateHandoffResult
unfolding check_parent
append_handoff_tx input workflow now = do
  check_parent input.parent_handoff_id workflow.id
  for_each input.depends_on_handoff_ids (λ id. do load_related_handoff id workflow.id; pure tt)
  handoff_id ← new_id "hf"
  let handoff = new_handoff input handoff_id workflow.id workflow.kind now
  watches ← create_default_watches handoff now
  let appended = record workflow { current_handoff_id = handoff.id; updated_at = now }
  save_handoff handoff
  for_each watches save_watch
  save_workflow appended
  pure (record { workflow = appended; handoff = handoff; watches = watches })

unfoldable pub append_handoff : String → CreateHandoffInput → Action CreateHandoffResult
append_handoff workflow_id input = do
  raise_if (str_eq workflow_id "") (Failure.invalid "workflow_id is required")
  now ← current_time
  workflow ← load_workflow workflow_id
  st ← store_of
  let projected = project_workflow workflow (list_workflow_handoffs workflow_id st) now
  raise_if (is_terminal_status projected.status)
      (Failure.invalid "cannot append handoff to terminal workflow")
  raise_if (not (str_eq input.workflow_kind "") && not (str_eq input.workflow_kind workflow.kind))
      (Failure.invalid "workflow_kind does not match workflow")
  transaction (append_handoff_tx input workflow now)
