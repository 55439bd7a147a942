-- ===== src/Orchestrator/Projection.antt =====
-- internal/orchestrator/workflow_projection.go: the status of a workflow from its handoffs.
pub mod Status
use clawside.Common.{
  ℕ, String, Bool, true, false, not, ◌&&◌, ◌||◌, Option, none, some, List, [], ◌∷◌, ltb,
  if◌then◌else◌, str_eq,
}
use clawside.Orchestrator.Types.{HandoffState, Handoff, Workflow, WorkflowStatus}

-- `handoffByID[id]`: the map is filled in the order of the list, so the last handoff with an id wins.
unfoldable pub handoff_by_id : String → List Handoff → Option Handoff
handoff_by_id id [] = none
handoff_by_id id (h ∷ handoffs) = elim (handoff_by_id id handoffs) [
  | some later ↦ some later
  | none ↦ if str_eq h.id id then some h else none
]

unfoldable pub required_handoffs : List Handoff → List Handoff
required_handoffs [] = []
required_handoffs (h ∷ handoffs) =
    let rest = required_handoffs handoffs in
    if h.required_for_workflow_completion then h ∷ rest else rest

abbrev pub is_completed : HandoffState → Bool
is_completed HandoffState.completed = true
is_completed _ = false

-- `handoff.State == StateFailed || handoff.State == StateExpired`
abbrev pub is_lost : HandoffState → Bool
is_lost HandoffState.failed = true
is_lost HandoffState.expired = true
is_lost _ = false

abbrev pub incomplete : Option Handoff → Bool
incomplete none = true
incomplete (some dependency) = not (is_completed dependency.state)

-- The inner loop, which stops at the first dependency that is missing or not completed.
unfoldable pub has_open_dependency : List Handoff → List String → Bool
has_open_dependency handoffs [] = false
has_open_dependency handoffs (id ∷ ids) =
    if incomplete (handoff_by_id id handoffs) then true else has_open_dependency handoffs ids

abbrev pub after : Option ℕ → ℕ → Option ℕ
after none at_ = some at_
after (some latest) at_ = if ltb latest at_ then some at_ else some latest

-- `latestCompletion` after a completed handoff.
abbrev pub later_completion : Option ℕ → Option ℕ → Option ℕ
later_completion latest none = latest
later_completion latest (some at_) = after latest at_

-- The variables of the loop; `none` is its early return.
pub record Scan : Type 0 where
  pub blocked : Bool
  pub all_completed : Bool
  pub latest : Option ℕ

unfoldable pub scan_one : List Handoff → Scan → Handoff → Scan
scan_one handoffs s h =
    let blocked =
      if has_open_dependency handoffs h.depends_on_handoff_ids then true else s.blocked in
    if not (is_completed h.state)
    then record s { blocked = blocked; all_completed = false }
    else record s { blocked = blocked; latest = later_completion s.latest h.completed_at }

unfoldable pub scan : List Handoff → Scan → List Handoff → Option Scan
scan handoffs s [] = some s
scan handoffs s (h ∷ required) =
    let rest = scan handoffs (scan_one handoffs s h) required in
    if is_lost h.state then none else rest

abbrev pub first_scan : Scan
first_scan = record { blocked = false; all_completed = true; latest = none }

-- What follows the loop.
conclude : Workflow → Option Scan → Workflow
conclude projected none = record projected { status = WorkflowStatus.failed }
conclude projected (some s) =
    if s.blocked
    then record projected { status = WorkflowStatus.blocked }
    else if s.all_completed
    then record projected { status = WorkflowStatus.completed; completed_at = s.latest }
    else record projected { status = WorkflowStatus.active }

project_required : Workflow → List Handoff → List Handoff → Workflow
unfolding conclude
project_required projected handoffs [] = record projected { status = WorkflowStatus.active }
project_required projected handoffs (h ∷ required) =
    conclude projected (scan handoffs first_scan (h ∷ required))

unfoldable pub project_workflow : Workflow → List Handoff → ℕ → Workflow
unfolding project_required
project_workflow workflow handoffs now =
    let projected = record workflow { updated_at = now; completed_at = none } in
    project_required projected handoffs (required_handoffs handoffs)
