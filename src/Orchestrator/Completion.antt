-- ===== src/Orchestrator/Completion.antt =====
-- internal/orchestrator/state_machine.go: what a handoff needs before it may complete, the states
-- that may fail or expire, and the flags that a state implies (`hydrateFlags`).
use clawside.Common.{
  ℕ, String, Bool, true, false, not, ◌&&◌, ◌||◌, Option, none, some, ltb, if◌then◌else◌,
}
use clawside.Orchestrator.Types.{HandoffState, TaskKind, ArtifactMode, ReviewDecision, Handoff}

abbrev pub is_artifact_required_task : TaskKind → Bool
is_artifact_required_task TaskKind.artifact_required_task = true
is_artifact_required_task _ = false

abbrev pub is_review_required_task : TaskKind → Bool
is_review_required_task TaskKind.review_required_task = true
is_review_required_task _ = false

abbrev pub is_required : ArtifactMode → Bool
is_required ArtifactMode.required = true
is_required _ = false

abbrev pub is_approved : ReviewDecision → Bool
is_approved ReviewDecision.approved = true
is_approved _ = false

abbrev pub is_revision_required : ReviewDecision → Bool
is_revision_required ReviewDecision.revision_required = true
is_revision_required _ = false

unfoldable pub is_valid_review_decision : ReviewDecision → Bool
is_valid_review_decision ReviewDecision.approved = true
is_valid_review_decision ReviewDecision.revision_required = true
is_valid_review_decision ReviewDecision.rejected = true
is_valid_review_decision _ = false

unfoldable pub requires_artifacts : Handoff → Bool
requires_artifacts h =
    is_artifact_required_task h.task_kind
    || is_required h.artifact_policy.mode
    || ltb 0 h.artifact_policy.min_count

unfoldable pub requires_review : Handoff → Bool
requires_review h = is_review_required_task h.task_kind || h.needs_review

unfoldable pub requires_submitted : Handoff → Bool
requires_submitted h = requires_artifacts h || requires_review h

unfoldable pub required_artifact_count : Handoff → ℕ
required_artifact_count h =
    if ltb 0 h.artifact_policy.min_count
    then h.artifact_policy.min_count
    else if is_required h.artifact_policy.mode || is_artifact_required_task h.task_kind
    then 1
    else 0

unfoldable pub validate_completion_prereqs : Handoff → Option String
validate_completion_prereqs h =
    if not h.has_received
    then some "completed requires received"
    else if not h.has_claimed
    then some "completed requires claimed"
    else if not h.has_started
    then some "completed requires started"
    else if not h.has_checkpointed
    then some "completed requires checkpointed"
    else if requires_submitted h && not h.has_submitted
    then some "completed requires submitted"
    else if requires_artifacts h && ltb h.artifact_count (required_artifact_count h)
    then some "completed requires required artifacts"
    else if requires_review h && not h.has_reviewed
    then some "completed requires reviewed"
    else if requires_review h && not (is_approved h.review_decision)
    then some "completed requires approved review decision"
    else none

completed_from : HandoffState → Handoff → Bool
completed_from HandoffState.checkpointed h = not (requires_submitted h)
completed_from HandoffState.submitted h = not (requires_review h)
completed_from HandoffState.reviewed h = requires_review h
completed_from _ h = false

unfoldable pub can_transition_to_completed : Handoff → Bool
unfolding completed_from
can_transition_to_completed h = completed_from h.state h

unfoldable pub can_transition_to_failed : HandoffState → Bool
can_transition_to_failed HandoffState.created = true
can_transition_to_failed HandoffState.dispatched = true
can_transition_to_failed HandoffState.received = true
can_transition_to_failed HandoffState.claimed = true
can_transition_to_failed HandoffState.started = true
can_transition_to_failed HandoffState.checkpointed = true
can_transition_to_failed HandoffState.submitted = true
can_transition_to_failed HandoffState.reviewed = true
can_transition_to_failed _ = false

unfoldable pub can_transition_to_expired : HandoffState → Bool
can_transition_to_expired HandoffState.dispatched = true
can_transition_to_expired HandoffState.received = true
can_transition_to_expired HandoffState.claimed = true
can_transition_to_expired HandoffState.started = true
can_transition_to_expired HandoffState.checkpointed = true
can_transition_to_expired HandoffState.submitted = true
can_transition_to_expired _ = false

hydrate_state : HandoffState → Handoff → Handoff
hydrate_state HandoffState.reviewed h = record h {
  has_received = true;
  has_claimed = true;
  has_started = true;
  has_checkpointed = true;
  has_submitted = true;
  has_reviewed = true;
}
hydrate_state HandoffState.submitted h = record h {
  has_received = true;
  has_claimed = true;
  has_started = true;
  has_checkpointed = true;
  has_submitted = true;
}
hydrate_state HandoffState.checkpointed h = record h {
  has_received = true;
  has_claimed = true;
  has_started = true;
  has_checkpointed = true;
}
hydrate_state HandoffState.started h = record h {
  has_received = true;
  has_claimed = true;
  has_started = true;
}
hydrate_state HandoffState.claimed h = record h { has_received = true; has_claimed = true }
hydrate_state HandoffState.received h = record h { has_received = true }
hydrate_state HandoffState.completed h = record h {
  has_received = true;
  has_claimed = true;
  has_started = true;
  has_checkpointed = true;
  has_submitted = if requires_submitted h || h.has_submitted then true else h.has_submitted;
  has_reviewed = if requires_review h || h.has_reviewed then true else h.has_reviewed;
}
hydrate_state _ h = h

unfoldable pub hydrate_flags : Handoff → Handoff
unfolding hydrate_state
hydrate_flags h = hydrate_state h.state h
