-- ===== src/Orchestrator/Store/Lists.antt =====
-- internal/orchestrator/store.go: the queries that list rows. ORDER BY compares the texts of the
-- times, and then the ids.
use clawside.Common.{ℕ, String, Bool, true, false, not, ◌&&◌, ◌||◌, List, if◌then◌else◌, str_eq}
use clawside.Sender.Timestamps.{text_le}
use clawside.Orchestrator.Types.{Handoff, EventRecord}
use clawside.Orchestrator.Records.{
  Watch, RepairRecord, ObserverHint, ObservedSignal, RepairCandidate,
}
use clawside.Orchestrator.Replay.{text_before}
use clawside.Orchestrator.Table.{select, exists, order_by}
use clawside.Orchestrator.Action.{Store}

-- One key of an ORDER BY: `rest` decides between equal times.
unfoldable pub time_before : ℕ → ℕ → Bool → Bool
time_before a b rest = if not (text_le b a) then true else if not (text_le a b) then false else rest

unfoldable pub list_handoffs : Store → List Handoff
list_handoffs st =
    order_by (λ a b. time_before a.created_at b.created_at (text_before a.id b.id)) st.handoffs

unfoldable pub list_workflow_handoffs : String → Store → List Handoff
list_workflow_handoffs workflow_id st =
    order_by (λ a b. time_before a.created_at b.created_at (text_before a.id b.id))
      (select (λ h. str_eq h.workflow_id workflow_id) st.handoffs)

unfoldable pub list_watches : String → Store → List Watch
list_watches handoff_id st =
    order_by (λ a b. time_before a.created_at b.created_at (text_before a.id b.id))
      (select (λ w. str_eq w.handoff_id handoff_id) st.watches)

unfoldable pub event_before : EventRecord → EventRecord → Bool
event_before a b =
    time_before a.ingested_at b.ingested_at
      (time_before a.producer_event_time b.producer_event_time (text_before a.id b.id))

-- Some repair invalidates the event with this id.
abbrev pub invalidates : String → RepairRecord → Bool
invalidates event_id r = str_eq r.action "invalidate_event" && str_eq r.invalidates_id event_id

unfoldable pub is_invalidated : List RepairRecord → EventRecord → Bool
is_invalidated repairs event = not (str_eq event.id "") && exists (invalidates event.id) repairs

-- `EffectiveEvents`, also `ListEvents`. A repair with an empty id is left out.
unfoldable pub effective_events : String → Store → List EventRecord
unfolding is_invalidated
effective_events handoff_id st = order_by event_before (
    select (λ e. str_eq e.handoff_id handoff_id && not (is_invalidated st.repairs e))
      st.accepted_events)

-- The query of `replayHandoffProjectionTx`, which does not leave out an empty id.
unfoldable pub replayed_events : String → Store → List EventRecord
replayed_events handoff_id st = order_by event_before (
    select (λ e. str_eq e.handoff_id handoff_id && not (exists (invalidates e.id) st.repairs))
      st.accepted_events)

unfoldable pub accepted_events_of : String → Store → List EventRecord
accepted_events_of handoff_id st =
    order_by event_before (select (λ e. str_eq e.handoff_id handoff_id) st.accepted_events)

unfoldable pub list_event_ingestion_audit : String → Store → List EventRecord
list_event_ingestion_audit handoff_id st =
    order_by event_before (select (λ e. str_eq e.handoff_id handoff_id) st.event_ingestion_audit)

unfoldable pub list_observed_signals : String → Store → List ObservedSignal
list_observed_signals handoff_id st =
    order_by (λ a b. time_before a.observed_at b.observed_at (text_before a.id b.id))
      (select (λ s. str_eq s.handoff_id handoff_id) st.observed_signals)

unfoldable pub list_repair_candidates : String → Store → List RepairCandidate
list_repair_candidates handoff_id st =
    order_by (λ a b. time_before a.created_at b.created_at (text_before a.id b.id))
      (select (λ c. str_eq c.handoff_id handoff_id) st.repair_candidates)

unfoldable pub list_divergences : String → Store → List ObserverHint
list_divergences handoff_id st =
    order_by (λ a b. time_before a.created_at b.created_at (text_before a.id b.id))
      (select (λ h. str_eq h.handoff_id handoff_id) st.divergences)

unfoldable pub list_repairs : String → Store → List RepairRecord
list_repairs handoff_id st =
    order_by (λ a b. time_before a.created_at b.created_at (text_before a.id b.id))
      (select
        (λ r.
          str_eq handoff_id ""
          || (str_eq r.target_type "handoff" && str_eq r.target_id handoff_id)
          || exists (λ e. str_eq e.handoff_id handoff_id && str_eq e.id r.invalidates_id)
              st.accepted_events)
        st.repairs)
