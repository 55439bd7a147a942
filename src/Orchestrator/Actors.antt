-- ===== src/Orchestrator/Actors.antt =====
-- internal/orchestrator: who may produce which event (ownership.go and the `validate…Actor`
-- functions of state_machine.go). A validator returns the text of its error, or `none`.
use Prim.Native.String.{◌++◌}
use clawside.Common.{
  String, Bool, true, false, not, ◌&&◌, ◌||◌, Option, none, some, List, [], ◌∷◌, if◌then◌else◌,
  str_eq,
}
use clawside.Orchestrator.Types.{ActorRef, actor_system, Handoff, EventRecord, event_name}

unfoldable pub same_actor : ActorRef → ActorRef → Bool
same_actor a b =
    not (str_eq a.type "")
    && not (str_eq b.type "")
    && str_eq a.type b.type
    && not (str_eq a.id "")
    && str_eq a.id b.id

unfoldable pub can_act_as_worker : Handoff → ActorRef → Bool
can_act_as_worker h actor =
    if same_actor h.lease_holder actor then true else same_actor h.current_owner actor

unfoldable pub can_act_as_reviewer : Handoff → ActorRef → Bool
can_act_as_reviewer h actor = same_actor h.reviewer_actor actor

-- `a.ID == "" || a.Type == ""`
unfoldable pub is_blank : ActorRef → Bool
is_blank a = str_eq a.id "" || str_eq a.type ""

-- `a.Type == b.Type && a.ID == b.ID`
unfoldable pub same_reference : ActorRef → ActorRef → Bool
same_reference a b = str_eq a.type b.type && str_eq a.id b.id

unfoldable pub is_workflow_controller : ActorRef → Bool
is_workflow_controller a = str_eq a.type actor_system && str_eq a.id "workflow-controller"

abbrev pub transport_system_actors : List String
transport_system_actors = "orchestrator" ∷ "adapter" ∷ []

abbrev pub expired_system_actors : List String
expired_system_actors = "watchdog" ∷ "workflow-controller" ∷ []

-- A lookup in a map whose values are empty structs.
unfoldable pub allowed : List String → String → Bool
allowed [] id = false
allowed (a ∷ rest) id = str_eq a id || allowed rest id

unfoldable pub validate_system_actor : EventRecord → List String → String → Option String
validate_system_actor event allowed_ids reason =
    if not (str_eq event.producer_actor.type actor_system)
    then some reason
    else if not (allowed allowed_ids event.producer_actor.id)
    then some reason
    else none

unfoldable pub validate_transport_actor : Handoff → EventRecord → Option String
validate_transport_actor _ event =
    validate_system_actor event transport_system_actors
      "transport events require orchestrator or adapter system actor"

unfoldable pub validate_receiver_actor : Handoff → EventRecord → Option String
validate_receiver_actor h event =
    if is_blank h.receiver_actor
    then some ("event " ++ (event_name event.type ++ " requires configured receiver actor"))
    else if is_blank event.subject_actor
    then some ("event " ++ (event_name event.type ++ " requires explicit subject actor"))
    else if not (same_reference event.subject_actor h.receiver_actor)
    then some ("event " ++ (event_name event.type ++ " requires receiver actor"))
    else if is_blank event.producer_actor
    then some ("event " ++ (event_name event.type ++ " requires explicit producer actor"))
    else if same_reference event.producer_actor h.receiver_actor
    then none
    else if is_workflow_controller event.producer_actor
    then none
    else some (
        "event " ++ (event_name event.type ++ " requires receiver or workflow controller producer"))

unfoldable pub validate_worker_actor : Handoff → EventRecord → String → Option String
validate_worker_actor h event action =
    if is_blank event.subject_actor
    then some (action ++ " requires explicit subject actor")
    else if is_blank event.producer_actor
    then some (action ++ " requires explicit producer actor")
    else if not (same_actor event.subject_actor event.producer_actor)
    then some (action ++ " requires subject actor to match producer actor")
    else if same_actor h.lease_holder event.subject_actor
        || same_actor h.current_owner event.subject_actor
        || same_actor h.receiver_actor event.subject_actor
    then none
    else if is_workflow_controller event.producer_actor
    then none
    else some (action ++ " requires current owner or lease holder")

unfoldable pub validate_reviewer_actor : Handoff → EventRecord → Option String
validate_reviewer_actor h event =
    if is_blank h.reviewer_actor
    then some "reviewed requires configured reviewer actor"
    else if is_blank event.subject_actor
    then some "reviewed requires explicit subject actor"
    else if not (same_reference event.subject_actor h.reviewer_actor)
    then some "reviewed requires reviewer actor"
    else if is_blank event.producer_actor
    then some "reviewed requires explicit producer actor"
    else if same_reference event.producer_actor h.reviewer_actor
    then none
    else if is_workflow_controller event.producer_actor
    then none
    else some "reviewed requires reviewer or workflow controller actor"
