-- ===== src/Orchestrator/Service/Tests/Operations.antt =====
-- The theorems on single operations of the service, at one that has work behind it.
use clawside.Common.{String, Bool, true, false, none, some, List, [], ◌∷◌, ◌≡◌, ◌≢◌, refl, All}
use clawside.Orchestrator.Types.{
  HandoffState, EventType, ReviewDecision, actor_system, Handoff, EventRecord, WorkflowStatus,
}
use clawside.Sender.Text.{is_blank_text, trim_space}
use clawside.Orchestrator.Actors.{validate_transport_actor, validate_system_actor, allowed}
use clawside.Sender.Timestamps.{text_le}
use clawside.Orchestrator.Records.{RepairRecord}
use clawside.Orchestrator.Table.{find}
use clawside.Orchestrator.Action.{Service, Failure, Result, ok, err}
use clawside.Orchestrator.Store.{handoff_key}
use clawside.Orchestrator.Events.{record_accepted_event}
use clawside.Orchestrator.Events.Accepted.{Advances, record_accepted_event-Advances}
use clawside.Orchestrator.Service.Create.{
  IdempotentCreateHandoffInput, IdempotentCreateHandoffResult, new_handoff,
  create_handoff_idempotent, store_creation, create_or_replay, new_artifacts,
}
use clawside.Orchestrator.Store.{save_task_creation, load_task_creation}
use clawside.Orchestrator.Service.Create.Once.{
  IsAdmitted, IsCreated, replayed_result, create_handoff_idempotent-replays,
}
use clawside.Orchestrator.Service.Create.First.{created-IsKept, create_handoff_idempotent-again}
use clawside.Orchestrator.Service.Signals.{record_observed_signal}
use clawside.Orchestrator.Service.Signals.Truth.{
  authority, record_observed_signal-authority, run_watchdog-authority,
}
use clawside.Orchestrator.Service.Signals.Watchdog.{run_watchdog}
use clawside.Orchestrator.Service.Protocol.{
  ProtocolAction, ProtocolRequest, ProtocolResult, apply_protocol_action,
}
use clawside.Orchestrator.Service.Protocol.Gate.{IsMet, apply_protocol_action-IsMet}
use clawside.Orchestrator.Service.Repair.{
  reopen_handoff, reopen_handoff_tx, is_reopenable_state, new_invalidations, invalidation,
  replay_handoff_projection, replayed_handoff, reset_handoff, last_event_id,
}
use clawside.Orchestrator.Service.Repair.Reopened.{IsReopened, reopen_handoff-fresh}
use clawside.Orchestrator.Service.Calls.{Call, perform_all}
use clawside.Orchestrator.Service.Tests.{service, worker, input, request, calls, computing}
use clawside.Orchestrator.Store.{save_repair, replace_watches}
use clawside.Orchestrator.Store.Lists.{
  replayed_events, accepted_events_of, event_before, time_before,
}
use clawside.Orchestrator.Table.{order_by, select}
use clawside.Orchestrator.Replay.{replay, sort_events, insert, before}
use clawside.Orchestrator.Machine.{apply_all}
use clawside.Orchestrator.Service.Create.{has_relations, append_handoff, append_handoff_tx}
use clawside.Orchestrator.Service.Related.{load_related_handoff, ensure_dependency_completed}
use clawside.Orchestrator.Store.Lists.{list_workflow_handoffs}
use clawside.Orchestrator.Projection.{
  project_workflow, required_handoffs, scan, scan_one, has_open_dependency, handoff_by_id,
}

-- The service behind the creation of a handoff, and the one where it is completed.
created : Service
created = perform_all (Call.create input ∷ []) service

completed : Service
completed = perform_all calls service

event : EventType → String → EventRecord
event type producer = record {
  id = "evt-1";
  workflow_id = "wfx";
  handoff_id = "hfxx";
  type = type;
  producer_event_time = 7;
  ingested_at = 8;
  producer_actor = record { type = actor_system; id = producer; address = "" };
  subject_actor = worker;
  idempotency_key = "delivery-1";
  correlation_id = "";
  causation_id = "";
  accepted = true;
  rejection_reason = "";
  attempt_id = "";
  artifact_count = 0;
  review_decision = ReviewDecision.unset;
}

record_observed_signal-authority_example :
    authority
      (record_observed_signal (event EventType.transport_accepted "adapter") none created).1.store
    ≡ authority created.store
record_observed_signal-authority_example =
    record_observed_signal-authority (event EventType.transport_accepted "adapter") none created

run_watchdog-authority_example :
    authority (run_watchdog 900_000_000_000 created).1.store ≡ authority created.store
run_watchdog-authority_example = run_watchdog-authority 900_000_000_000 created

-- What a call that succeeds returned.
module _ {A : Type 0} where
  abbrev value : A → Result A × Service → A
  value default (ok a, s) = a
  value default (err failure, s) = default

  abbrev succeeded : Result A × Service → Bool
  succeeded (ok a, s) = true
  succeeded (err failure, s) = false

  returned :
      (default : A) (r : Result A × Service) → succeeded r ≡ true → r ≡ (ok (value default r), r.1)
  returned default (ok a, s) e = refl
  returned default (err failure, s) e = cc

requested : EventRecord
requested = event EventType.transport_requested "orchestrator"

some_handoff : Handoff
some_handoff = new_handoff input "" "" "" 0

requested_accepted : succeeded (record_accepted_event requested created) ≡ true
unfolding computing requested event created validate_transport_actor validate_system_actor allowed
requested_accepted = refl

record_accepted_event-Advances_example :
    let r = record_accepted_event requested created in
    Advances requested created.store r.1.store (value some_handoff r)
record_accepted_event-Advances_example =
    let r = record_accepted_event requested created in
    record_accepted_event-Advances requested (value some_handoff r) created r.1
      (returned some_handoff r requested_accepted)

some_repair : RepairRecord
unfolding invalidation
some_repair = invalidation "" "" worker "" 0

reopened_ok : succeeded (reopen_handoff "hfxx" "again" worker completed) ≡ true
unfolding computing completed reopen_handoff reopen_handoff_tx is_reopenable_state new_invalidations
    invalidation replay_handoff_projection replayed_handoff reset_handoff last_event_id save_repair
    replace_watches replayed_events accepted_events_of event_before time_before text_le order_by
    select replay sort_events insert before apply_all
reopened_ok = refl

reopen_handoff-fresh_example :
    IsReopened "hfxx" (reopen_handoff "hfxx" "again" worker completed).1.store
reopen_handoff-fresh_example =
    let r = reopen_handoff "hfxx" "again" worker completed in
    reopen_handoff-fresh "hfxx" "again" worker (value some_repair r) completed r.1
      (returned some_repair r reopened_ok)

once : IdempotentCreateHandoffInput
once = record {
  idempotency_key = "key-1";
  payload_hash = "hash-1";
  handoff = input;
  artifact_refs = [];
}

some_result : IdempotentCreateHandoffResult
some_result = record {
  created = record {
    workflow = record {
      id = "";
      kind = "";
      initiator_actor = worker;
      status = WorkflowStatus.active;
      root_handoff_id = "";
      current_handoff_id = "";
      created_at = 0;
      updated_at = 0;
      completed_at = none;
    };
    handoff = some_handoff;
    watches = [];
  };
  replayed = false;
}

once_ok : succeeded (create_handoff_idempotent once service) ≡ true
unfolding computing once create_handoff_idempotent store_creation create_or_replay new_artifacts
    save_task_creation load_task_creation is_blank_text trim_space
once_ok = refl

abbrev first : Result IdempotentCreateHandoffResult × Service
first = create_handoff_idempotent once service

create_handoff_idempotent-again_example :
    (u : Service) × (create_handoff_idempotent once first.1 ≡ (
      ok (
          replayed_result
            (value some_result first).created.workflow
            (value some_result first).created.handoff),
      u,
    ))
    × (u.store ≡ first.1.store)
create_handoff_idempotent-again_example =
    create_handoff_idempotent-again once (value some_result first) service first.1
      (returned some_result first once_ok)

-- The store behind the first call, as the theorem on the second reads it.
once_created : IsCreated first.1.store "key-1"
unfolding once
once_created =
    let (admitted, k) =
      created-IsKept once (value some_result first) service first.1
        (returned some_result first once_ok) in
    record {
      creation = k.creation;
      workflow = (value some_result first).created.workflow;
      handoff = (value some_result first).created.handoff;
      kept = k.kept;
      workflow_kept = k.workflow_kept;
      handoff_kept = k.handoff_kept;
    }

-- The same key with another payload.
changed : IdempotentCreateHandoffInput
changed = record once { payload_hash = "hash-2" }

changed-IsAdmitted : IsAdmitted changed
unfolding changed once is_blank_text trim_space has_relations
changed-IsAdmitted = record { keyed = refl; hashed = refl; root = refl }

create_handoff_idempotent-replays_example :
    (u : Service) × (u.store ≡ first.1.store)
    × (once_created.creation.payload_hash ≡ changed.payload_hash
        → create_handoff_idempotent changed first.1
          ≡ (ok (replayed_result once_created.workflow once_created.handoff), u))
    × (once_created.creation.payload_hash ≢ changed.payload_hash
        → create_handoff_idempotent changed first.1 ≡ (err Failure.idempotency_conflict, u))
unfolding changed once
create_handoff_idempotent-replays_example =
    create_handoff_idempotent-replays changed first.1 changed-IsAdmitted once_created

-- A second handoff that waits for the first.
waiting : List Call
waiting =
    Call.create input
    ∷ Call.append "wfx" (record input { depends_on_handoff_ids = "hfxx" ∷ [] })
    ∷ Call.protocol (request ProtocolAction.receive)
    ∷ Call.protocol (request ProtocolAction.claim)
    ∷ Call.protocol (request ProtocolAction.start)
    ∷ Call.protocol (request ProtocolAction.checkpoint)
    ∷ Call.protocol (request ProtocolAction.complete)
    ∷ []

waited : Service
waited = perform_all waiting service

next : ProtocolRequest
next = record (request ProtocolAction.receive) { handoff_id = "hfxxxxxxx" }

some_protocol : ProtocolResult
some_protocol = record {
  action = ProtocolAction.receive;
  event = requested;
  decision = record { accepted = true; reason = ""; next = HandoffState.created };
  handoff = some_handoff;
}

next_ok : succeeded (apply_protocol_action next waited) ≡ true
unfolding computing next waited waiting append_handoff append_handoff_tx load_related_handoff
    ensure_dependency_completed list_workflow_handoffs order_by select time_before text_le
    project_workflow required_handoffs scan scan_one has_open_dependency handoff_by_id
next_ok = refl

next_gated : next.action ≢ ProtocolAction.fail
unfolding next
next_gated e = cc

apply_protocol_action-IsMet_example :
    (h : Handoff) × (find handoff_key next.handoff_id waited.store.handoffs ≡ some h)
    × All (IsMet waited.store h.workflow_id) h.depends_on_handoff_ids
apply_protocol_action-IsMet_example =
    let r = apply_protocol_action next waited in
    apply_protocol_action-IsMet next (value some_protocol r) waited r.1 next_gated
      (returned some_protocol r next_ok)
