-- ===== src/Orchestrator/Service/Calls/Reached.antt =====
-- What holds of every handoff that a service has stored, whatever calls it has answered.
use clawside.Common.{String, none, some, List, ◌≡◌}
use clawside.Orchestrator.Types.{HandoffState, Handoff}
use clawside.Orchestrator.Records.{ownership_binding_from_handoff}
use clawside.Orchestrator.Completion.{validate_completion_prereqs}
use clawside.Orchestrator.Machine.Invariant.{IsConsistent}
use clawside.Orchestrator.Table.{find}
use clawside.Orchestrator.Action.{Service}
use clawside.Orchestrator.Store.{handoff_key, binding_key}
use clawside.Orchestrator.Store.Sound.{IsSound}
use clawside.Orchestrator.Service.Calls.{Call, perform_all, empty_store}
use clawside.Orchestrator.Service.Calls.Sound.{IsSound-invariant}
use clawside.Orchestrator.Service.Calls.Performed.{perform_all-keeps}

empty-Sound : IsSound empty_store
unfolding find
empty-Sound = record { consistent = λ id h e. cc; bound = λ id h e. cc }

reached-Sound :
    (calls : List Call) (s : Service) → s.store ≡ empty_store → IsSound (perform_all calls s).store
reached-Sound calls s e =
    perform_all-keeps _ IsConsistent IsSound-invariant calls s (rw e empty-Sound)

-- Whatever calls of `Call` a service with an empty store has answered, also those that failed, a stored handoff
-- that is completed meets every prerequisite of completion.
pub stored_completed :
    (calls : List Call) (s : Service) (id : String) (h : Handoff)
    → s.store ≡ empty_store
    → find handoff_key id (perform_all calls s).store.handoffs ≡ some h
    → h.state ≡ HandoffState.completed
    → validate_completion_prereqs h ≡ none
stored_completed calls s id h empty e done =
    ((reached-Sound calls s empty).consistent id h e).completed_ready done

-- Whatever calls of `Call` a service with an empty store has answered, also those that failed, the ownership
-- binding of a stored handoff is the projection of that handoff.
pub stored_binding :
    (calls : List Call) (s : Service) (id : String) (h : Handoff)
    → s.store ≡ empty_store
    → find handoff_key id (perform_all calls s).store.handoffs ≡ some h
    → find binding_key id (perform_all calls s).store.ownership_bindings
      ≡ some (ownership_binding_from_handoff h)
stored_binding calls s id h empty e = (reached-Sound calls s empty).bound id h e
