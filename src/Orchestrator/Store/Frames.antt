-- ===== src/Orchestrator/Store/Frames.antt =====
-- Each statement keeps every property of the store that does not read the table it writes.
use clawside.Common.{ℕ, String, Option, some, List, ◌≡◌}
use clawside.Orchestrator.Types.{Workflow, Handoff, EventRecord}
use clawside.Orchestrator.Records.{
  Watch, RepairRecord, ObserverHint, ObservedSignal, RepairCandidate, Artifact, TaskCreation,
}
use clawside.Orchestrator.Table.{find}
use clawside.Orchestrator.Action.{Store, Failure, or_raise, ◌>>=◌, store_of, put_store}
use clawside.Orchestrator.Action.Rules.{
  Meets, Keeps, Anything, or_raise-Meets, pure-Meets, >>=-Meets, >>-Meets, store_of-Meets,
  put_store-Keeps, for_each-Keeps,
}
use clawside.Orchestrator.Store.{
  handoff_key, save_workflow, load_workflow, load_handoff, insert_event, insert_accepted_event,
  insert_audit_event, save_artifact, load_task_creation, save_task_creation, save_watch, load_watch,
  update_watch, update_watch_check, replace_watches, save_repair, save_divergence,
  append_observed_signal, append_repair_candidate,
}

module _ (P : Store → Type 0) where
  -- A statement that writes what it computes from the store.
  pub write-Keeps :
      {change : Store → Store}
      → ((st : Store) → P st → P (change st))
      → Keeps P (store_of >>= λ st. put_store (change st))
  write-Keeps keep =
      >>=-Meets P P Anything (store_of-Meets P) (λ st p. put_store-Keeps P _ (keep st p))

  -- A statement that may fail.
  pub insert-Keeps :
      {B : Type 0} {rows : Store → Option B} {change : Store → B → Store} (failure : Failure)
      → ((st : Store) (b : B) → P st → rows st ≡ some b → P (change st b))
      → Keeps P (store_of >>= λ st. or_raise (rows st) failure >>= λ b. put_store (change st b))
  insert-Keeps {rows = rows} failure keep = >>=-Meets P P Anything (store_of-Meets P) (λ st p.
      >>=-Meets P (λ b. rows st ≡ some b) Anything
        (or_raise-Meets P (λ b. rows st ≡ some b) (rows st) failure (λ b e. e))
        (λ b e. put_store-Keeps P _ (keep st b p e)))

  pub load_handoff-Meets :
      (Q : Handoff → Type 0) (id : String)
      → ((st : Store) (h : Handoff) → P st → find handoff_key id st.handoffs ≡ some h → Q h)
      → Meets P Q (load_handoff id)
  unfolding load_handoff
  load_handoff-Meets Q id q =
      >>=-Meets P P Q (store_of-Meets P) (λ st p. or_raise-Meets P Q _ _ (λ h e. q st h p e))

  pub load_handoff-Keeps : (id : String) → Keeps P (load_handoff id)
  load_handoff-Keeps id = load_handoff-Meets Anything id (λ _ _ _ _. tt)

  pub load_workflow-Keeps : (id : String) → Keeps P (load_workflow id)
  unfolding load_workflow
  load_workflow-Keeps id =
      >>=-Meets P P Anything (store_of-Meets P) (λ st p. or_raise-Meets P Anything _ _ (λ _ _. tt))

  pub load_watch-Keeps : (id : String) → Keeps P (load_watch id)
  unfolding load_watch
  load_watch-Keeps id =
      >>=-Meets P P Anything (store_of-Meets P) (λ st p. or_raise-Meets P Anything _ _ (λ _ _. tt))

  pub load_task_creation-Keeps : (key : String) → Keeps P (load_task_creation key)
  unfolding load_task_creation
  load_task_creation-Keeps key =
      >>=-Meets P P Anything (store_of-Meets P) (λ st p. pure-Meets P Anything _ tt)

  pub save_workflow-Keeps :
      ((st : Store) (rows : List Workflow) → P st → P (record st { workflows = rows }))
      → (w : Workflow) → Keeps P (save_workflow w)
  unfolding save_workflow
  save_workflow-Keeps keep w = write-Keeps (λ st p. keep st _ p)

  pub insert_accepted_event-Keeps :
      (e : EventRecord)
      → ((st : Store) (rows : List EventRecord)
          → P st
          → insert_event e st.accepted_events ≡ some rows
          → P (record st { accepted_events = rows }))
      → Keeps P (insert_accepted_event e)
  unfolding insert_accepted_event
  insert_accepted_event-Keeps e keep = insert-Keeps Failure.constraint keep

  pub insert_audit_event-Keeps :
      ((st : Store) (rows : List EventRecord)
        → P st
        → P (record st { event_ingestion_audit = rows }))
      → (e : EventRecord) → Keeps P (insert_audit_event e)
  unfolding insert_audit_event
  insert_audit_event-Keeps keep e = insert-Keeps Failure.constraint (λ st rows p _. keep st rows p)

  pub save_artifact-Keeps :
      ((st : Store) (rows : List Artifact) → P st → P (record st { artifacts = rows }))
      → (a : Artifact) → Keeps P (save_artifact a)
  unfolding save_artifact
  save_artifact-Keeps keep a = insert-Keeps Failure.constraint (λ st rows p _. keep st rows p)

  pub save_task_creation-Keeps :
      ((st : Store) (rows : List TaskCreation)
        → P st
        → P (record st { a2a_inbound_task_creations = rows }))
      → (c : TaskCreation) → Keeps P (save_task_creation c)
  unfolding save_task_creation
  save_task_creation-Keeps keep c = insert-Keeps Failure.constraint (λ st rows p _. keep st rows p)

  pub save_repair-Keeps :
      ((st : Store) (rows : List RepairRecord) → P st → P (record st { repairs = rows }))
      → (r : RepairRecord) → Keeps P (save_repair r)
  unfolding save_repair
  save_repair-Keeps keep r = insert-Keeps Failure.constraint (λ st rows p _. keep st rows p)

  pub save_divergence-Keeps :
      ((st : Store) (rows : List ObserverHint) → P st → P (record st { divergences = rows }))
      → (h : ObserverHint) → Keeps P (save_divergence h)
  unfolding save_divergence
  save_divergence-Keeps keep h = insert-Keeps Failure.constraint (λ st rows p _. keep st rows p)

  pub append_observed_signal-Keeps :
      ((st : Store) (rows : List ObservedSignal) → P st → P (record st { observed_signals = rows }))
      → (o : ObservedSignal) → Keeps P (append_observed_signal o)
  unfolding append_observed_signal
  append_observed_signal-Keeps keep o =
      insert-Keeps Failure.constraint (λ st rows p _. keep st rows p)

  pub append_repair_candidate-Keeps :
      ((st : Store) (rows : List RepairCandidate)
        → P st
        → P (record st { repair_candidates = rows }))
      → (c : RepairCandidate) → Keeps P (append_repair_candidate c)
  unfolding append_repair_candidate
  append_repair_candidate-Keeps keep c =
      insert-Keeps Failure.constraint (λ st rows p _. keep st rows p)

  module _ (keep : (st : Store) (rows : List Watch) → P st → P (record st { watches = rows })) where
    pub save_watch-Keeps : (w : Watch) → Keeps P (save_watch w)
    unfolding save_watch
    save_watch-Keeps w = insert-Keeps Failure.constraint (λ st rows p _. keep st rows p)

    pub update_watch-Keeps : (w : Watch) → Keeps P (update_watch w)
    unfolding update_watch
    update_watch-Keeps w = insert-Keeps Failure.not_found (λ st row p _. keep st _ p)

    pub update_watch_check-Keeps :
        (id : String) (checked_at : ℕ) (last_result : String)
        → Keeps P (update_watch_check id checked_at last_result)
    unfolding update_watch_check
    update_watch_check-Keeps id checked_at last_result = write-Keeps (λ st p. keep st _ p)

    pub replace_watches-Keeps :
        (id : String) (watches : List Watch) → Keeps P (replace_watches id watches)
    unfolding replace_watches
    replace_watches-Keeps id watches = >>=-Meets P P Anything (store_of-Meets P) (λ st p.
        >>-Meets P Anything (put_store-Keeps P _ (keep st _ p))
          (for_each-Keeps P watches save_watch-Keeps))
