-- ===== src/Orchestrator/Store.antt =====
-- internal/orchestrator/store.go: the statements that write a row and those that load one. The JSON
-- columns hold the values themselves and the text columns of times the times: what is read is what was
-- written. The database itself does not fail; a row that is missing or taken is an error.
pub mod Lists
pub mod Frames
pub mod Sound
use clawside.Common.{
  ℕ, String, Bool, true, false, not, ◌&&◌, Option, none, some, List, [], ◌∷◌, if◌then◌else◌, str_eq,
  ◌==◌,
}
use clawside.Orchestrator.Types.{Workflow, Handoff, EventRecord}
use clawside.Orchestrator.Records.{
  Watch, RepairRecord, OwnershipBinding, ObserverHint, ObservedSignal, RepairCandidate, Artifact,
  TaskCreation, ownership_binding_from_handoff,
}
use clawside.Orchestrator.Table.{find, upsert, insert_row, update, select, exists}
use clawside.Orchestrator.Action.{
  Store, Failure, Action, pure, raise, or_raise, transaction, ◌>>=◌, ◌>>◌, Done, store_of,
  put_store, for_each,
}

abbrev pub workflow_key : Workflow → String
workflow_key w = w.id

abbrev pub handoff_key : Handoff → String
handoff_key h = h.id

abbrev pub event_key : EventRecord → String
event_key e = e.id

abbrev pub watch_key : Watch → String
watch_key w = w.id

abbrev pub repair_key : RepairRecord → String
repair_key r = r.id

abbrev pub binding_key : OwnershipBinding → String
binding_key b = b.handoff_id

abbrev pub creation_key : TaskCreation → String
creation_key c = c.idempotency_key

unfoldable pub save_workflow : Workflow → Action Done
save_workflow workflow = do
  st ← store_of
  put_store (record st { workflows = upsert workflow_key workflow st.workflows })

unfoldable pub load_workflow : String → Action Workflow
load_workflow id = do st ← store_of; or_raise (find workflow_key id st.workflows) Failure.no_rows

unfoldable pub load_handoff : String → Action Handoff
load_handoff id = do st ← store_of; or_raise (find handoff_key id st.handoffs) Failure.no_rows

unfoldable pub save_ownership_binding : OwnershipBinding → Action Done
save_ownership_binding binding = do
  st ← store_of
  put_store (record st { ownership_bindings = upsert binding_key binding st.ownership_bindings })

unfoldable pub load_ownership_binding : String → Action OwnershipBinding
load_ownership_binding handoff_id = do
  st ← store_of
  or_raise (find binding_key handoff_id st.ownership_bindings) Failure.no_rows

unfoldable pub save_handoff : Handoff → Action Done
save_handoff handoff = do
  st ← store_of
  put_store (record st { handoffs = upsert handoff_key handoff st.handoffs })
  save_ownership_binding (ownership_binding_from_handoff handoff)

-- UPDATE handoffs … WHERE id = ? AND state_version = ?
unfoldable pub versioned_row : Handoff → ℕ → Option Handoff → Option Handoff
versioned_row handoff expected none = none
versioned_row handoff expected (some row) = if row.state_version == expected then some row else none

unfoldable pub save_projected_handoff : Handoff → ℕ → Action Done
unfolding versioned_row
save_projected_handoff handoff expected_state_version = do
  st ← store_of
  row ←
      or_raise
        (versioned_row handoff expected_state_version (find handoff_key handoff.id st.handoffs))
        Failure.concurrency_conflict
  put_store (record st { handoffs = update handoff_key handoff.id (λ _. handoff) st.handoffs })
  save_ownership_binding (ownership_binding_from_handoff handoff)

-- The columns that the UPDATE of `updateHandoffOwnershipExec` sets.
unfoldable pub set_ownership : Handoff → Handoff → Handoff
set_ownership handoff row = record row {
  reviewer_actor = handoff.reviewer_actor;
  current_owner = handoff.current_owner;
  lease_holder = handoff.lease_holder;
  escalation_owner = handoff.escalation_owner;
  fallback_owner = handoff.fallback_owner;
  leased_at = handoff.leased_at;
  lease_expires_at = handoff.lease_expires_at;
  updated_at = handoff.updated_at;
}

unfoldable pub update_handoff_ownership : Handoff → Action Done
update_handoff_ownership handoff = transaction (do
  st ← store_of
  row ← or_raise (find handoff_key handoff.id st.handoffs) Failure.not_found
  put_store
      (record st { handoffs = update handoff_key handoff.id (set_ownership handoff) st.handoffs })
  save_ownership_binding (ownership_binding_from_handoff handoff))

-- The unique index on `(handoff_id, idempotency_key)` where the key is not empty.
abbrev pub same_delivery : EventRecord → EventRecord → Bool
same_delivery event row =
    not (str_eq event.idempotency_key "")
    && str_eq row.handoff_id event.handoff_id
    && str_eq row.idempotency_key event.idempotency_key

unfoldable pub insert_event : EventRecord → List EventRecord → Option (List EventRecord)
unfolding exists
insert_event event rows =
    if exists (same_delivery event) rows then none else insert_row event_key event rows

unfoldable pub insert_accepted_event : EventRecord → Action Done
insert_accepted_event event = do
  st ← store_of
  rows ← or_raise (insert_event event st.accepted_events) Failure.constraint
  put_store (record st { accepted_events = rows })

-- The foreign keys of an event: its workflow and its handoff are stored.
unfoldable pub insert_referenced : EventRecord → Store → Option (List EventRecord)
unfolding exists
insert_referenced event st =
    if exists (λ w. str_eq w.id event.workflow_id) st.workflows
      && exists (λ h. str_eq h.id event.handoff_id) st.handoffs
    then insert_row event_key event st.event_ingestion_audit
    else none

unfoldable pub insert_audit_event : EventRecord → Action Done
insert_audit_event event = do
  st ← store_of
  rows ← or_raise (insert_referenced event st) Failure.constraint
  put_store (record st { event_ingestion_audit = rows })

unfoldable pub save_artifact : Artifact → Action Done
save_artifact artifact = do
  st ← store_of
  rows ← or_raise (insert_row (λ a. a.id) artifact st.artifacts) Failure.constraint
  put_store (record st { artifacts = rows })

-- `none` where the row is missing: the caller goes on.
unfoldable pub load_task_creation : String → Action (Option TaskCreation)
load_task_creation idempotency_key = do
  st ← store_of
  pure (find creation_key idempotency_key st.a2a_inbound_task_creations)

unfoldable pub save_task_creation : TaskCreation → Action Done
save_task_creation creation = do
  st ← store_of
  rows ←
      or_raise (insert_row creation_key creation st.a2a_inbound_task_creations) Failure.constraint
  put_store (record st { a2a_inbound_task_creations = rows })

unfoldable pub save_watch : Watch → Action Done
save_watch watch = do
  st ← store_of
  rows ← or_raise (insert_row watch_key watch st.watches) Failure.constraint
  put_store (record st { watches = rows })

unfoldable pub load_watch : String → Action Watch
load_watch id = do st ← store_of; or_raise (find watch_key id st.watches) Failure.no_rows

unfoldable pub set_watch : Watch → Watch → Watch
set_watch watch row = record row {
  deadline_at = watch.deadline_at;
  status = watch.status;
  escalation_policy = watch.escalation_policy;
}

unfoldable pub update_watch : Watch → Action Done
update_watch watch = do
  st ← store_of
  row ← or_raise (find watch_key watch.id st.watches) Failure.not_found
  put_store (record st { watches = update watch_key watch.id (set_watch watch) st.watches })

-- The rows that it affects are not counted.
unfoldable pub update_watch_check : String → ℕ → String → Action Done
update_watch_check id checked_at last_result = do
  st ← store_of
  put_store (record st {
    watches =
        update watch_key id
          (λ w. record w { last_checked_at = checked_at; last_result = last_result }) st.watches;
  })

unfoldable pub replace_watches : String → List Watch → Action Done
replace_watches handoff_id watches = do
  st ← store_of
  put_store (record st { watches = select (λ w. not (str_eq w.handoff_id handoff_id)) st.watches })
  for_each watches save_watch

unfoldable pub save_repair : RepairRecord → Action Done
save_repair repair = do
  st ← store_of
  rows ← or_raise (insert_row repair_key repair st.repairs) Failure.constraint
  put_store (record st { repairs = rows })

unfoldable pub save_divergence : ObserverHint → Action Done
save_divergence hint = do
  st ← store_of
  rows ← or_raise (insert_row (λ h. h.id) hint st.divergences) Failure.constraint
  put_store (record st { divergences = rows })

unfoldable pub append_observed_signal : ObservedSignal → Action Done
append_observed_signal signal = do
  st ← store_of
  rows ← or_raise (insert_row (λ s. s.id) signal st.observed_signals) Failure.constraint
  put_store (record st { observed_signals = rows })

unfoldable pub append_repair_candidate : RepairCandidate → Action Done
append_repair_candidate candidate = do
  st ← store_of
  rows ← or_raise (insert_row (λ c. c.id) candidate st.repair_candidates) Failure.constraint
  put_store (record st { repair_candidates = rows })
