-- ===== src/Orchestrator/Service/Signals.antt =====
-- service.go (`RecordObservedSignal`) and signals.go: what observers report, which is stored beside
-- the events and never among them, and the repair candidates that it gives rise to.
pub mod Watchdog
pub mod Truth
use clawside.Common.{
  ℕ, String, Bool, true, false, not, ◌&&◌, ◌||◌, Option, none, some, List, [], ◌∷◌, if◌then◌else◌,
  str_eq, ◌==◌,
}
use clawside.Orchestrator.Types.{
  HandoffState, EventType, actor_system, Handoff, EventRecord, event_name,
}
use clawside.Orchestrator.Machine.{is_created, is_dispatched}
use clawside.Orchestrator.Projection.{is_completed}
use clawside.Orchestrator.Records.{
  ObserverHint, ObservedSignal, RepairCandidate, RepairCandidateReason, RepairSuggestedAction,
  RepairCandidateStatus,
}
use clawside.Orchestrator.Action.{
  Failure, Action, pure, raise, transaction, ◌>>=◌, ◌>>◌, Done, raise_if, or_raise, current_time,
  new_id, for_each,
}
use clawside.Orchestrator.Store.{
  load_handoff, insert_audit_event, save_divergence, append_observed_signal,
  append_repair_candidate,
}
use clawside.Orchestrator.Events.{
  observed_signal_kind_for_event, validate_event_workflow_match, complete_event,
}

-- The condition and the content of a candidate, by the kind of the signal.
unfoldable pub candidate_terms :
    Handoff → String → Option (RepairCandidateReason × RepairSuggestedAction)
candidate_terms h kind =
    if str_eq kind "transport_accepted" || str_eq kind "transport_delivery_confirmed"
    then (if is_dispatched h.state || is_created h.state
        then some
            (RepairCandidateReason.missing_authoritative_progress, RepairSuggestedAction.review)
        else none)
    else if str_eq kind "transport_timeout"
    then (if h.has_claimed
          || h.has_started
          || h.has_checkpointed
          || h.has_submitted
          || h.has_reviewed
          || is_completed h.state
        then some (RepairCandidateReason.late_transport_signal, RepairSuggestedAction.review)
        else none)
    else if str_eq kind "reminder_sent"
        || str_eq kind "watch_triggered"
        || str_eq kind "escalation_opened"
    then some (RepairCandidateReason.watchdog_escalation, RepairSuggestedAction.escalate)
    else none

unfoldable pub repair_candidate :
    Handoff
    → ObservedSignal
    → ℕ
    → String
    → Option (RepairCandidateReason × RepairSuggestedAction)
    → List RepairCandidate
repair_candidate h signal now id none = []
repair_candidate h signal now id (some (reason, suggested)) =
    (record {
      id = id;
      handoff_id = h.id;
      workflow_id = h.workflow_id;
      signal_id = signal.id;
      reason = reason;
      suggested_action = suggested;
      status = RepairCandidateStatus.open_;
      created_at = now;
    })
    ∷ []

unfoldable pub build_repair_candidates :
    Handoff → ObservedSignal → ℕ → Action (List RepairCandidate)
build_repair_candidates h signal now = do
  id ← new_id "repaircand"
  pure (repair_candidate h signal now id (candidate_terms h signal.kind))

-- `if auditEvent != nil …`
audit : Option EventRecord → Action Done
audit none = pure tt
audit (some event) = insert_audit_event event

-- `if hint != nil …`
diverge : Option ObserverHint → Action Done
diverge none = pure tt
diverge (some hint) = save_divergence hint

unfoldable pub persist_observed_signal :
    Handoff → Option EventRecord → Option ObserverHint → ObservedSignal → Action Done
unfolding audit diverge
persist_observed_signal handoff audit_event hint signal = transaction (do
  audit audit_event
  diverge hint
  append_observed_signal signal
  candidates ← build_repair_candidates handoff signal signal.observed_at
  for_each candidates append_repair_candidate)

hint_signal : ObserverHint → String → ObservedSignal
hint_signal hint id = record {
  id = id;
  handoff_id = hint.handoff_id;
  workflow_id = hint.workflow_id;
  kind = hint.signal_type;
  reason = hint.signal_type;
  event_id = "";
  attempt_id = "";
  observed_at = hint.created_at;
}

-- The branch of `RecordObservedSignal` for a hint.
unfoldable pub record_hint : ObserverHint → Action Done
unfolding hint_signal
record_hint input = do
  id ← if str_eq input.id "" then new_id "div" else pure input.id
  created_at ← if input.created_at == 0 then current_time else pure input.created_at
  handoff ← load_handoff input.handoff_id
  raise_if (not (str_eq input.workflow_id "") && not (str_eq input.workflow_id handoff.workflow_id))
      (Failure.invalid "divergence workflow mismatch")
  let hint : ObserverHint = record input {
    id = id;
    created_at = created_at;
    workflow_id = if str_eq input.workflow_id "" then handoff.workflow_id else input.workflow_id;
  }
  signal_id ← new_id "signal"
  persist_observed_signal handoff none (some hint) (hint_signal hint signal_id)

-- The four events of the transport that are also stored as a divergence.
unfoldable pub is_divergence : EventType → Bool
is_divergence EventType.transport_accepted = true
is_divergence EventType.transport_timeout = true
is_divergence EventType.transport_rejected = true
is_divergence EventType.transport_delivery_confirmed = true
is_divergence _ = false

event_signal : EventRecord → String → String → ObservedSignal
event_signal event kind id = record {
  id = id;
  handoff_id = event.handoff_id;
  workflow_id = event.workflow_id;
  kind = kind;
  reason = event_name event.type;
  event_id = event.id;
  attempt_id = event.attempt_id;
  observed_at = event.ingested_at;
}

-- `var hint *ObserverHint` and the `if` that sets it.
unfoldable pub event_hint : EventRecord → Action (Option ObserverHint)
event_hint event =
    if is_divergence event.type
    then (do
      id ← new_id "div"
      pure (
          some (record {
            id = id;
            handoff_id = event.handoff_id;
            workflow_id = event.workflow_id;
            signal_type = event_name event.type;
            created_at = event.ingested_at;
          })))
    else pure none

observed_event : Handoff → EventRecord → EventRecord
observed_event handoff event = record event {
  workflow_id = if str_eq event.workflow_id "" then handoff.workflow_id else event.workflow_id;
  accepted = false;
  rejection_reason = "observer_hint";
}

-- The branch of `RecordObservedSignal` for an event.
unfoldable pub record_observed_event : EventRecord → Action Done
unfolding event_signal observed_event
record_observed_event input = do
  completed ← complete_event input
  raise_if (not (str_eq completed.producer_actor.type actor_system))
      (Failure.invalid "observer hint requires system actor")
  kind ←
      or_raise (observed_signal_kind_for_event completed.type)
        (Failure.invalid "observer hint requires observer-only event type")
  handoff ← load_handoff completed.handoff_id
  let event = observed_event handoff completed
  validate_event_workflow_match handoff event
  signal_id ← new_id "signal"
  hint ← event_hint event
  persist_observed_signal handoff (some event) hint (event_signal event kind signal_id)

-- `RecordObservedSignal`, and `RecordObserverHint`.
unfoldable pub record_observed_signal : EventRecord → Option ObserverHint → Action Done
record_observed_signal event none = record_observed_event event
record_observed_signal event (some hint) = record_hint hint
