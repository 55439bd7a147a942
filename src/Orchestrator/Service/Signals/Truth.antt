-- ===== src/Orchestrator/Service/Signals/Truth.antt =====
-- What observers report changes nothing of what the events decide.
use clawside.Common.{ℕ, String, Option, none, some, List, [], ◌∷◌, ◌≡◌, refl}
use clawside.Orchestrator.Types.{Workflow, Handoff, EventRecord}
use clawside.Orchestrator.Records.{
  Watch, RepairRecord, OwnershipBinding, ObserverHint, ObservedSignal, RepairCandidate, Artifact,
  TaskCreation,
}
use clawside.Orchestrator.Action.{Store, Service}
use clawside.Orchestrator.Action.Rules.{
  Keeps, Ends-store, Anything, pure-Keeps, or_raise-Meets, transaction-Meets, then-Keeps,
  bind-Keeps, if-Keeps, raise_if-Keeps, current_time-Keeps, new_id-Keeps, for_each-Keeps,
  store_of-Meets,
}
use clawside.Orchestrator.Store.Frames.{
  load_handoff-Keeps, insert_audit_event-Keeps, save_divergence-Keeps, append_observed_signal-Keeps,
  append_repair_candidate-Keeps, update_watch_check-Keeps,
}
use clawside.Orchestrator.Events.Rules.{complete_event-Keeps, validate_event_workflow_match-Keeps}
use clawside.Orchestrator.Service.Signals.{
  build_repair_candidates, persist_observed_signal, audit, diverge, record_hint, event_hint,
  record_observed_event, record_observed_signal,
}
use clawside.Orchestrator.Service.Signals.Watchdog.{
  remind, check_watches, check_handoffs, run_watchdog,
}

-- The tables that hold the authoritative state; the watches are none of them.
pub record Authority : Type 0 where
  pub workflows : List Workflow
  pub handoffs : List Handoff
  pub accepted_events : List EventRecord
  pub artifacts : List Artifact
  pub a2a_inbound_task_creations : List TaskCreation
  pub repairs : List RepairRecord
  pub ownership_bindings : List OwnershipBinding

abbrev pub authority : Store → Authority
authority st = record {
  workflows = st.workflows;
  handoffs = st.handoffs;
  accepted_events = st.accepted_events;
  artifacts = st.artifacts;
  a2a_inbound_task_creations = st.a2a_inbound_task_creations;
  repairs = st.repairs;
  ownership_bindings = st.ownership_bindings;
}

-- The tables that a report may write can be replaced without losing the property.
pub record Laws (P : Store → Type 0) : Type 0 where
  pub audited :
      (st : Store) (rows : List EventRecord) → P st → P (record st { event_ingestion_audit = rows })
  pub diverged :
      (st : Store) (rows : List ObserverHint) → P st → P (record st { divergences = rows })
  pub signalled :
      (st : Store) (rows : List ObservedSignal) → P st → P (record st { observed_signals = rows })
  pub suggested :
      (st : Store) (rows : List RepairCandidate) → P st → P (record st { repair_candidates = rows })

module _ (P : Store → Type 0) (laws : Laws P) where
  audit-Keeps : (e : Option EventRecord) → Keeps P (audit e)
  unfolding audit
  audit-Keeps none = pure-Keeps P tt
  audit-Keeps (some e) = insert_audit_event-Keeps P laws.audited e

  diverge-Keeps : (h : Option ObserverHint) → Keeps P (diverge h)
  unfolding diverge
  diverge-Keeps none = pure-Keeps P tt
  diverge-Keeps (some h) = save_divergence-Keeps P laws.diverged h

  persist-Keeps :
      (h : Handoff) (e : Option EventRecord) (hint : Option ObserverHint) (signal : ObservedSignal)
      → Keeps P (persist_observed_signal h e hint signal)
  unfolding persist_observed_signal build_repair_candidates
  persist-Keeps h e hint signal = transaction-Meets P Anything (
      then-Keeps P (audit-Keeps e) (
        then-Keeps P (diverge-Keeps hint) (
          then-Keeps P (append_observed_signal-Keeps P laws.signalled signal) (
            bind-Keeps P {Q = Anything}
              (bind-Keeps P {Q = Anything} (new_id-Keeps P "repaircand") (λ id _. pure-Keeps P _))
              (λ candidates _.
                for_each-Keeps P candidates (append_repair_candidate-Keeps P laws.suggested))))))

  record_hint-Keeps : (hint : ObserverHint) → Keeps P (record_hint hint)
  unfolding record_hint
  record_hint-Keeps hint =
      bind-Keeps P {Q = Anything} (if-Keeps P _ (new_id-Keeps P "div") (pure-Keeps P _)) (λ id _.
        bind-Keeps P {Q = Anything} (if-Keeps P _ (current_time-Keeps P) (pure-Keeps P _)) (λ at _.
          bind-Keeps P {Q = Anything} (load_handoff-Keeps P hint.handoff_id) (λ h _.
            then-Keeps P (raise_if-Keeps P _ _) (
              bind-Keeps P {Q = Anything} (new_id-Keeps P "signal")
                (λ signal _. persist-Keeps h none _ _)))))

  event_hint-Keeps : (e : EventRecord) → Keeps P (event_hint e)
  unfolding event_hint
  event_hint-Keeps e =
      if-Keeps P _ (bind-Keeps P {Q = Anything} (new_id-Keeps P "div") (λ id _. pure-Keeps P _))
        (pure-Keeps P none)

  record_observed_event-Keeps : (e : EventRecord) → Keeps P (record_observed_event e)
  unfolding record_observed_event
  record_observed_event-Keeps e =
      bind-Keeps P {Q = Anything} (complete_event-Keeps P e) (λ completed _.
        then-Keeps P (raise_if-Keeps P _ _) (
          bind-Keeps P {Q = Anything} (or_raise-Meets P Anything _ _ (λ _ _. tt)) (λ kind _.
            bind-Keeps P {Q = Anything} (load_handoff-Keeps P completed.handoff_id) (λ h _.
              then-Keeps P (validate_event_workflow_match-Keeps P h _) (
                bind-Keeps P {Q = Anything} (new_id-Keeps P "signal") (λ signal _.
                  bind-Keeps P {Q = Anything} (event_hint-Keeps _)
                    (λ hint _. persist-Keeps h _ hint _)))))))

  pub record_observed_signal-Keeps :
      (e : EventRecord) (hint : Option ObserverHint) → Keeps P (record_observed_signal e hint)
  unfolding record_observed_signal
  record_observed_signal-Keeps e none = record_observed_event-Keeps e
  record_observed_signal-Keeps e (some hint) = record_hint-Keeps hint

  module _
      (watched : (st : Store) (rows : List Watch) → P st → P (record st { watches = rows })) where
    check_watches-Keeps :
        (h : Handoff) (now : ℕ) (events : List EventRecord) (watches : List Watch)
        → Keeps P (check_watches h now events watches)
    unfolding check_watches remind
    check_watches-Keeps h now events [] = pure-Keeps P 0
    check_watches-Keeps h now events (w ∷ watches) =
        if-Keeps P _
          (then-Keeps P
            (bind-Keeps P {Q = Anything} (new_id-Keeps P "evt") (λ id _.
              then-Keeps P (record_observed_event-Keeps _)
                (update_watch_check-Keeps P watched w.id now "reminder_sent")))
            (bind-Keeps P {Q = Anything} (check_watches-Keeps h now events watches)
              (λ sent _. pure-Keeps P _)))
          (check_watches-Keeps h now events watches)

    check_handoffs-Keeps :
        (now : ℕ) (handoffs : List Handoff) (sent : ℕ) (blocked : List String)
        → Keeps P (check_handoffs now handoffs sent blocked)
    unfolding check_handoffs
    check_handoffs-Keeps now [] sent blocked = pure-Keeps P _
    check_handoffs-Keeps now (h ∷ handoffs) sent blocked = bind-Keeps P (store_of-Meets P) (λ st _.
        bind-Keeps P {Q = Anything} (check_watches-Keeps h now _ _)
          (λ more _. check_handoffs-Keeps now handoffs _ _))

    pub run_watchdog-Keeps : (now : ℕ) → Keeps P (run_watchdog now)
    unfolding run_watchdog
    run_watchdog-Keeps now =
        bind-Keeps P {Q = Anything} (if-Keeps P _ (current_time-Keeps P) (pure-Keeps P _))
          (λ at _. bind-Keeps P (store_of-Meets P) (λ st _. check_handoffs-Keeps at _ 0 []))

-- The store has the authority it started with.
abbrev Unchanged : Authority → Store → Type 0
Unchanged a st = authority st ≡ a

Unchanged-Laws : (a : Authority) → Laws (Unchanged a)
Unchanged-Laws a = record {
  audited = λ _ _ p. p;
  diverged = λ _ _ p. p;
  signalled = λ _ _ p. p;
  suggested = λ _ _ p. p;
}

-- No report of an observer, an event or a hint, whether it is stored or refused, changes a workflow,
-- a handoff, an accepted event, an artifact, an inbound creation, a repair or an ownership binding.
pub record_observed_signal-authority :
    (e : EventRecord) (hint : Option ObserverHint) (s : Service)
    → authority (record_observed_signal e hint s).1.store ≡ authority s.store
record_observed_signal-authority e hint s = Ends-store (Unchanged (authority s.store)) Anything _ (
    (record_observed_signal-Keeps (Unchanged (authority s.store)) (Unchanged-Laws _) e hint).ends s
      refl)

-- A run of the watchdog changes no workflow, handoff, accepted event, artifact, inbound creation,
-- repair or ownership binding, whatever reminders it sends.
pub run_watchdog-authority :
    (now : ℕ) (s : Service) → authority (run_watchdog now s).1.store ≡ authority s.store
run_watchdog-authority now s = Ends-store (Unchanged (authority s.store)) Anything _ (
    (run_watchdog-Keeps (Unchanged (authority s.store)) (Unchanged-Laws _) (λ _ _ p. p) now).ends s
      refl)
