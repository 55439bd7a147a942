-- ===== src/Orchestrator/Service/Status.antt =====
-- service.go: ownership and watches that a caller changes, and the status of a workflow.
use clawside.Common.{
  ℕ, String, Bool, true, false, not, ◌&&◌, ◌||◌, Option, none, some, List, if◌then◌else◌, str_eq,
}
use clawside.Orchestrator.Types.{ActorRef, Handoff, EventRecord, Workflow, WorkflowStatus}
use clawside.Orchestrator.Records.{Watch, OwnershipBinding}
use clawside.Orchestrator.Table.{exists}
use clawside.Orchestrator.Projection.{project_workflow}
use clawside.Orchestrator.Action.{Store, Action, pure, ◌>>=◌, ◌>>◌, store_of, current_time}
use clawside.Orchestrator.Store.{
  load_handoff, load_workflow, load_watch, update_watch, update_handoff_ownership,
  load_ownership_binding,
}
use clawside.Orchestrator.Store.Lists.{list_workflow_handoffs, list_watches, effective_events}
use clawside.Orchestrator.Service.Signals.Watchdog.{has_event_type}

-- `if input.X != nil { … }`
abbrev given : {A : Type 0} → Option A → A → A
given none old = old
given (some new) old = new

abbrev given_time : Option ℕ → Option ℕ → Option ℕ
given_time none old = old
given_time (some new) old = some new

pub record UpdateWatchInput : Type 0 where
  pub watch_id : String
  pub deadline_at : Option ℕ
  pub status : Option String
  pub escalation_policy : Option String

unfoldable pub changed_watch : UpdateWatchInput → Watch → Watch
changed_watch input watch = record watch {
  deadline_at = given input.deadline_at watch.deadline_at;
  status = given input.status watch.status;
  escalation_policy = given input.escalation_policy watch.escalation_policy;
}

-- `Service.UpdateWatch`
unfoldable pub change_watch : UpdateWatchInput → Action Watch
change_watch input = do
  watch ← load_watch input.watch_id
  update_watch (changed_watch input watch)
  load_watch watch.id

pub record UpdateOwnershipInput : Type 0 where
  pub handoff_id : String
  pub current_owner : Option ActorRef
  pub reviewer_actor : Option ActorRef
  pub escalation_owner : Option ActorRef
  pub fallback_owner : Option ActorRef
  pub lease_holder : Option ActorRef
  pub leased_at : Option ℕ
  pub lease_expires_at : Option ℕ

unfoldable pub changed_ownership : UpdateOwnershipInput → Handoff → ℕ → Handoff
changed_ownership input handoff now = record handoff {
  current_owner = given input.current_owner handoff.current_owner;
  reviewer_actor = given input.reviewer_actor handoff.reviewer_actor;
  escalation_owner = given input.escalation_owner handoff.escalation_owner;
  fallback_owner = given input.fallback_owner handoff.fallback_owner;
  lease_holder = given input.lease_holder handoff.lease_holder;
  leased_at = given_time input.leased_at handoff.leased_at;
  lease_expires_at = given_time input.lease_expires_at handoff.lease_expires_at;
  updated_at = now;
}

unfoldable pub update_ownership : UpdateOwnershipInput → Action OwnershipBinding
update_ownership input = do
  handoff ← load_handoff input.handoff_id
  now ← current_time
  update_handoff_ownership (changed_ownership input handoff now)
  load_ownership_binding handoff.id

-- A watch whose reminder was sent and whose event has not come.
unfoldable pub is_blocking_watch : List EventRecord → Watch → Bool
is_blocking_watch events w =
    if not (str_eq w.status "active") || not (str_eq w.last_result "reminder_sent")
    then false
    else not (has_event_type events w.event_type)

unfoldable pub handoff_has_blocked_watch : Store → Handoff → Bool
unfolding exists
handoff_has_blocked_watch st handoff =
    if not handoff.required_for_workflow_completion
    then false
    else exists (is_blocking_watch (effective_events handoff.id st)) (list_watches handoff.id st)

unfoldable pub workflow_has_blocked_watch : Store → List Handoff → Bool
unfolding exists
workflow_has_blocked_watch st handoffs = exists (handoff_has_blocked_watch st) handoffs

pub record WorkflowView : Type 0 where
  pub workflow : Workflow
  pub handoffs : List Handoff

abbrev pub is_active_status : WorkflowStatus → Bool
is_active_status WorkflowStatus.active = true
is_active_status _ = false

unfoldable pub workflow_status : String → Action WorkflowView
workflow_status workflow_id = do
  workflow ← load_workflow workflow_id
  st ← store_of
  let handoffs = list_workflow_handoffs workflow_id st
  now ← current_time
  let projected = project_workflow workflow handoffs now
  pure (record {
    workflow =
        if workflow_has_blocked_watch st handoffs && is_active_status projected.status
        then record projected { status = WorkflowStatus.blocked }
        else projected;
    handoffs = handoffs;
  })
