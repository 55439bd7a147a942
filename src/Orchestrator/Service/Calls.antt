-- ===== src/Orchestrator/Service/Calls.antt =====
-- Fourteen calls of internal/orchestrator that write the handoffs: methods of `Service`, and the two
-- of `Store` by which an event is recorded directly. A history is a list of them. Not among them are
-- `DispatchHandoff`, which commits before its adapter answers and so may fail behind a write,
-- `ApplyCollaborationTemplate` and `RegisterAgent`.
pub mod Keeping
pub mod Created
pub mod Repaired
pub mod Performed
pub mod Sound
pub mod Reached
pub mod Delivered
pub mod Atomic
use clawside.Common.{ℕ, String, Option, List, [], ◌∷◌}
use clawside.Orchestrator.Types.{ActorRef, EventRecord}
use clawside.Orchestrator.Records.{ObserverHint}
use clawside.Orchestrator.Action.{Service, Store, Action, pure, ◌>>=◌, ◌>>◌, Done}
use clawside.Orchestrator.Events.{
  record_accepted_event, record_rejected_event, record_authoritative_event, backfill_event,
}
use clawside.Orchestrator.Service.Create.{
  CreateHandoffInput, IdempotentCreateHandoffInput, create_handoff, create_handoff_idempotent,
  append_handoff,
}
use clawside.Orchestrator.Service.Repair.{invalidate_event, reopen_handoff}
use clawside.Orchestrator.Service.Signals.{record_observed_signal}
use clawside.Orchestrator.Service.Signals.Watchdog.{run_watchdog}
use clawside.Orchestrator.Service.Protocol.{ProtocolRequest, apply_protocol_action}
use clawside.Orchestrator.Service.Status.{
  UpdateWatchInput, UpdateOwnershipInput, change_watch, update_ownership,
}

pub data Call : Type 0 where
  create : CreateHandoffInput → Call
  create_idempotent : IdempotentCreateHandoffInput → Call
  append : String → CreateHandoffInput → Call
  record_event : EventRecord → Call
  accept : EventRecord → Call
  reject : EventRecord → Call
  backfill : EventRecord → String → ActorRef → Call
  invalidate : String → String → ActorRef → Call
  reopen : String → String → ActorRef → Call
  observe : EventRecord → Option ObserverHint → Call
  protocol : ProtocolRequest → Call
  watch : UpdateWatchInput → Call
  own : UpdateOwnershipInput → Call
  watchdog : ℕ → Call

-- The result of a call is of no interest to the history.
unfoldable pub ignore : {A : Type 0} → Action A → Action Done
ignore call = do call; pure tt

unfoldable pub perform : Call → Action Done
unfolding ignore
perform (Call.create input) = ignore (create_handoff input)
perform (Call.create_idempotent input) = ignore (create_handoff_idempotent input)
perform (Call.append id input) = ignore (append_handoff id input)
perform (Call.record_event e) = ignore (record_authoritative_event e)
perform (Call.accept e) = ignore (record_accepted_event e)
perform (Call.reject e) = record_rejected_event e
perform (Call.backfill e reason actor) = ignore (backfill_event e reason actor)
perform (Call.invalidate id reason actor) = ignore (invalidate_event id reason actor)
perform (Call.reopen id reason actor) = ignore (reopen_handoff id reason actor)
perform (Call.observe e hint) = record_observed_signal e hint
perform (Call.protocol req) = ignore (apply_protocol_action req)
perform (Call.watch input) = ignore (change_watch input)
perform (Call.own input) = ignore (update_ownership input)
perform (Call.watchdog now) = ignore (run_watchdog now)

-- One call after the other, also where one fails.
unfoldable pub perform_all : List Call → Service → Service
perform_all [] s = s
perform_all (call ∷ calls) s = perform_all calls (perform call s).1

abbrev pub empty_store : Store
empty_store = record {
  workflows = [];
  handoffs = [];
  accepted_events = [];
  event_ingestion_audit = [];
  artifacts = [];
  a2a_inbound_task_creations = [];
  watches = [];
  divergences = [];
  repairs = [];
  ownership_bindings = [];
  observed_signals = [];
  repair_candidates = [];
}
