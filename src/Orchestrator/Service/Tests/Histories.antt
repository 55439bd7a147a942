-- ===== src/Orchestrator/Service/Tests/Histories.antt =====
-- The theorems on the histories of a service, at one in which a handoff is completed.
use clawside.Common.{Bool, true, false, Option, none, some, ◌≡◌, refl}
use clawside.Orchestrator.Types.{HandoffState, Handoff}
use clawside.Orchestrator.Completion.{validate_completion_prereqs}
use clawside.Orchestrator.Records.{ownership_binding_from_handoff}
use clawside.Orchestrator.Table.{find}
use clawside.Orchestrator.Action.{Failure, err}
use clawside.Orchestrator.Store.{handoff_key, binding_key}
use clawside.Orchestrator.Service.Create.{new_handoff}
use clawside.Orchestrator.Service.Protocol.{ProtocolAction}
use clawside.Orchestrator.Service.Signals.Truth.{authority}
use clawside.Orchestrator.Service.Calls.{Call, perform, perform_all}
use clawside.Orchestrator.Service.Calls.Reached.{stored_completed, stored_binding}
use clawside.Orchestrator.Service.Calls.Delivered.{Delivered, stored_deliveries}
use clawside.Orchestrator.Service.Calls.Atomic.{perform-refused}
use clawside.Orchestrator.Service.Tests.{service, input, request, calls, computing}

abbrev or_default : Option Handoff → Handoff
or_default none = new_handoff input "" "" "" 0
or_default (some h) = h

abbrev done : Handoff
done = or_default (find handoff_key "hfxx" (perform_all calls service).store.handoffs)

abbrev is_found : Option Handoff → Bool
is_found none = false
is_found (some h) = true

found-or_default : (o : Option Handoff) → is_found o ≡ true → o ≡ some (or_default o)
found-or_default none e = cc
found-or_default (some h) e = refl

done_found : is_found (find handoff_key "hfxx" (perform_all calls service).store.handoffs) ≡ true
unfolding computing
done_found = refl

done_stored : find handoff_key "hfxx" (perform_all calls service).store.handoffs ≡ some done
done_stored = found-or_default _ done_found

done_completed : done.state ≡ HandoffState.completed
unfolding computing
done_completed = refl

stored_completed_example : validate_completion_prereqs done ≡ none
stored_completed_example =
    stored_completed calls service "hfxx" done refl done_stored done_completed

stored_binding_example :
    find binding_key "hfxx" (perform_all calls service).store.ownership_bindings
    ≡ some (ownership_binding_from_handoff done)
stored_binding_example = stored_binding calls service "hfxx" done refl done_stored

stored_deliveries_example : Delivered (perform_all calls service).store.accepted_events
stored_deliveries_example = stored_deliveries calls service refl

-- A completed handoff cannot be claimed.
late : Call
late = Call.protocol (request ProtocolAction.claim)

late_refused :
    (perform late (perform_all calls service)).0
    ≡ err (Failure.rejected "claimed requires received")
unfolding computing late
late_refused = refl

perform-refused_example :
    authority (perform late (perform_all calls service)).1.store
    ≡ authority (perform_all calls service).store
perform-refused_example =
    perform-refused late (perform_all calls service) (Failure.rejected "claimed requires received")
      late_refused
