-- ===== src/Orchestrator/Service/Related.antt =====
-- service.go: the handoffs that a handoff refers to.
use clawside.Common.{String, not, str_eq}
use clawside.Orchestrator.Types.{Handoff}
use clawside.Orchestrator.Projection.{is_completed}
use clawside.Orchestrator.Action.{Failure, Action, pure, ◌>>=◌, ◌>>◌, Done, raise_if, for_each}
use clawside.Orchestrator.Store.{load_handoff}

-- The label is part of the error's text only. A missing handoff is the error of the load, wrapped.
unfoldable pub load_related_handoff : String → String → Action Handoff
load_related_handoff handoff_id workflow_id = do
  raise_if (str_eq handoff_id "") (Failure.invalid "handoff id is required")
  handoff ← load_handoff handoff_id
  raise_if (not (str_eq handoff.workflow_id workflow_id))
      (Failure.invalid "handoff belongs to another workflow")
  pure handoff

unfoldable pub ensure_dependency_completed : String → String → Action Done
ensure_dependency_completed workflow_id dependency_id = do
  dependency ← load_related_handoff dependency_id workflow_id
  raise_if (not (is_completed dependency.state))
      (Failure.invalid "handoff dependencies are incomplete")

unfoldable pub ensure_handoff_dependencies_completed : Handoff → Action Done
ensure_handoff_dependencies_completed handoff =
    for_each handoff.depends_on_handoff_ids (ensure_dependency_completed handoff.workflow_id)
