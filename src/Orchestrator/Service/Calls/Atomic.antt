-- ===== src/Orchestrator/Service/Calls/Atomic.antt =====
-- A call that fails has changed nothing of the authoritative state.
use clawside.Common.{String, ◌≡◌, refl, Option-cases, inl, inr}
use clawside.Orchestrator.Types.{ActorRef, Handoff, EventRecord}
use clawside.Orchestrator.Machine.{Decision}
use clawside.Orchestrator.Table.{find}
use clawside.Orchestrator.Action.{Store, Service, Failure, err}
use clawside.Orchestrator.Action.Rules.{
  Keeps, Anything, Refuses, Refuses-store, Keeps-Refuses, transaction-Refuses, >>=-Refuses,
  >>-Refuses, result-Refuses, ignored-Refuses, if-Refuses, pure-Keeps, raise-Meets, or_raise-Meets,
  then-Keeps, bind-Keeps, if-Keeps, raise_if-Keeps, current_time-Keeps, new_id-Keeps,
  for_each-Keeps, store_of-Meets, store_of-Keeps,
}
use clawside.Orchestrator.Store.{handoff_key}
use clawside.Orchestrator.Store.Frames.{
  load_handoff-Keeps, load_workflow-Keeps, load_watch-Keeps, insert_audit_event-Keeps,
  update_watch-Keeps,
}
use clawside.Orchestrator.Events.{
  record_accepted_event, match_workflow, record_rejected_event, settle_event,
  record_authoritative_event, backfill_event,
}
use clawside.Orchestrator.Events.Rules.{complete_event-Keeps, validate_event_workflow_match-Keeps}
use clawside.Orchestrator.Service.Related.{
  load_related_handoff, ensure_dependency_completed, ensure_handoff_dependencies_completed,
}
use clawside.Orchestrator.Service.Create.{
  CreateHandoffInput, IdempotentCreateHandoffInput, create_handoff, create_handoff_idempotent,
  append_handoff,
}
use clawside.Orchestrator.Service.Create.Frames.{new_root-Keeps, new_artifacts-Keeps}
use clawside.Orchestrator.Service.Repair.{lookup_accepted_event, invalidate_event, reopen_handoff}
use clawside.Orchestrator.Service.Signals.Truth.{
  Laws, authority, record_observed_signal-Keeps, run_watchdog-Keeps,
}
use clawside.Orchestrator.Service.Protocol.{
  ProtocolRequest, protocol_event_from_request, apply_protocol_action,
}
use clawside.Orchestrator.Service.Status.{
  UpdateWatchInput, UpdateOwnershipInput, change_watch, update_ownership,
}
use clawside.Orchestrator.Service.Calls.Sound.{update_ownership-stored, update_ownership-missing}
use clawside.Orchestrator.Service.Calls.{Call, ignore, perform}

-- The store before the call.
module _ (before : Store) where
  abbrev P : Store → Type 0
  P st = authority st ≡ authority before

  accept-Refuses : (e : EventRecord) → Refuses P (record_accepted_event e)
  unfolding record_accepted_event
  accept-Refuses e =
      >>-Refuses P (raise_if-Keeps P _ _)
        (>>-Refuses P (raise_if-Keeps P _ _) (transaction-Refuses P _))

  reject-Keeps : (e : EventRecord) → Keeps P (record_rejected_event e)
  unfolding record_rejected_event match_workflow
  reject-Keeps e = then-Keeps P (raise_if-Keeps P _ _) (
      then-Keeps P
        (if-Keeps P _ (pure-Keeps P tt) (
          bind-Keeps P {Q = Anything} (load_handoff-Keeps P e.handoff_id)
            (λ h _. validate_event_workflow_match-Keeps P h e)))
        (insert_audit_event-Keeps P (λ _ _ p. p) e))

  settle-Refuses : (e : EventRecord) (h : Handoff) (d : Decision) → Refuses P (settle_event e h d)
  unfolding settle_event
  settle-Refuses e h d =
      if-Refuses P d.accepted (result-Refuses P _ (accept-Refuses _))
        (Keeps-Refuses P (then-Keeps P (reject-Keeps _) (raise-Meets P Anything _)))

  authoritative-Refuses : (e : EventRecord) → Refuses P (record_authoritative_event e)
  unfolding record_authoritative_event
  authoritative-Refuses e = >>=-Refuses P (complete_event-Keeps P e) (λ completed.
      >>-Refuses P (raise_if-Keeps P _ _) (
        >>=-Refuses P (load_handoff-Keeps P completed.handoff_id)
          (λ h. settle-Refuses completed h _)))

  backfill-Refuses :
      (e : EventRecord) (reason : String) (actor : ActorRef)
      → Refuses P (backfill_event e reason actor)
  unfolding backfill_event
  backfill-Refuses e reason actor = >>=-Refuses P (complete_event-Keeps P e) (λ completed.
      >>=-Refuses P (new_id-Keeps P "repair")
        (λ id. >>=-Refuses P (current_time-Keeps P) (λ now. transaction-Refuses P _)))

  create-Refuses : (input : CreateHandoffInput) → Refuses P (create_handoff input)
  unfolding create_handoff
  create-Refuses input = >>-Refuses P (raise_if-Keeps P _ _) (
      >>=-Refuses P (current_time-Keeps P)
        (λ now. >>=-Refuses P (new_root-Keeps P input now) (λ c. transaction-Refuses P _)))

  idempotent-Refuses :
      (input : IdempotentCreateHandoffInput) → Refuses P (create_handoff_idempotent input)
  unfolding create_handoff_idempotent
  idempotent-Refuses input = >>-Refuses P (raise_if-Keeps P _ _) (
      >>-Refuses P (raise_if-Keeps P _ _) (
        >>-Refuses P (raise_if-Keeps P _ _) (
          >>=-Refuses P (current_time-Keeps P) (λ now.
            >>=-Refuses P (new_root-Keeps P input.handoff now) (λ c.
              >>=-Refuses P (new_artifacts-Keeps P _ _ now input.artifact_refs)
                (λ artifacts. transaction-Refuses P _))))))

  append-Refuses : (id : String) (input : CreateHandoffInput) → Refuses P (append_handoff id input)
  unfolding append_handoff
  append-Refuses id input = >>-Refuses P (raise_if-Keeps P _ _) (
      >>=-Refuses P (current_time-Keeps P) (λ now. >>=-Refuses P (load_workflow-Keeps P id) (λ w.
        >>=-Refuses P (store_of-Keeps P) (λ st.
          >>-Refuses P (raise_if-Keeps P _ _)
            (>>-Refuses P (raise_if-Keeps P _ _) (transaction-Refuses P _))))))

  invalidate-Refuses :
      (id reason : String) (actor : ActorRef) → Refuses P (invalidate_event id reason actor)
  unfolding invalidate_event lookup_accepted_event
  invalidate-Refuses id reason actor = >>=-Refuses P (current_time-Keeps P) (λ now.
      >>=-Refuses P
        (bind-Keeps P (store_of-Meets P) (λ st _. or_raise-Meets P Anything _ _ (λ _ _. tt)))
        (λ event. transaction-Refuses P _))

  reopen-Refuses :
      (id reason : String) (actor : ActorRef) → Refuses P (reopen_handoff id reason actor)
  unfolding reopen_handoff
  reopen-Refuses id reason actor =
      >>=-Refuses P (new_id-Keeps P "repair")
        (λ repair. >>=-Refuses P (current_time-Keeps P) (λ at. transaction-Refuses P _))

  dependency-Keeps :
      (workflow_id id : String) → Keeps P (ensure_dependency_completed workflow_id id)
  unfolding ensure_dependency_completed load_related_handoff
  dependency-Keeps workflow_id id =
      bind-Keeps P {Q = Anything}
        (then-Keeps P (raise_if-Keeps P _ _) (
          bind-Keeps P {Q = Anything} (load_handoff-Keeps P id)
            (λ h _. then-Keeps P (raise_if-Keeps P _ _) (pure-Keeps P h))))
        (λ d _. raise_if-Keeps P _ _)

  protocol-Refuses : (req : ProtocolRequest) → Refuses P (apply_protocol_action req)
  unfolding apply_protocol_action ensure_handoff_dependencies_completed protocol_event_from_request
  protocol-Refuses req = >>-Refuses P (raise_if-Keeps P _ _) (
      >>-Refuses P (raise_if-Keeps P _ _) (
        >>=-Refuses P (load_handoff-Keeps P req.handoff_id) (λ h.
          >>-Refuses P
            (if-Keeps P _
              (for_each-Keeps P h.depends_on_handoff_ids (dependency-Keeps h.workflow_id))
              (pure-Keeps P tt))
            (>>=-Refuses P
              (bind-Keeps P {Q = Anything} (or_raise-Meets P Anything _ _ (λ _ _. tt))
                (λ typed _. pure-Keeps P _))
              (λ event. result-Refuses P _ (authoritative-Refuses event))))))

  change_watch-Keeps : (input : UpdateWatchInput) → Keeps P (change_watch input)
  unfolding change_watch
  change_watch-Keeps input =
      bind-Keeps P {Q = Anything} (load_watch-Keeps P input.watch_id)
        (λ w _. then-Keeps P (update_watch-Keeps P (λ _ _ p. p) _) (load_watch-Keeps P w.id))

  own-Refuses : (input : UpdateOwnershipInput) → Refuses P (update_ownership input)
  own-Refuses input = record {
    ends = λ s p. elim (Option-cases (find handoff_key input.handoff_id s.store.handoffs)) [
      | inl missing ↦ rw (update_ownership-missing input s missing) p
      | inr (h, e) ↦ rw (update_ownership-stored input s h e) tt
    ];
  }

  observing : Laws P
  observing = record {
    audited = λ _ _ p. p;
    diverged = λ _ _ p. p;
    signalled = λ _ _ p. p;
    suggested = λ _ _ p. p;
  }

  perform-Refuses : (call : Call) → Refuses P (perform call)
  unfolding perform ignore
  perform-Refuses (Call.create input) = ignored-Refuses P tt (create-Refuses input)
  perform-Refuses (Call.create_idempotent input) = ignored-Refuses P tt (idempotent-Refuses input)
  perform-Refuses (Call.append id input) = ignored-Refuses P tt (append-Refuses id input)
  perform-Refuses (Call.record_event e) = ignored-Refuses P tt (authoritative-Refuses e)
  perform-Refuses (Call.accept e) = ignored-Refuses P tt (accept-Refuses e)
  perform-Refuses (Call.reject e) = Keeps-Refuses P (reject-Keeps e)
  perform-Refuses (Call.backfill e reason actor) =
      ignored-Refuses P tt (backfill-Refuses e reason actor)
  perform-Refuses (Call.invalidate id reason actor) =
      ignored-Refuses P tt (invalidate-Refuses id reason actor)
  perform-Refuses (Call.reopen id reason actor) =
      ignored-Refuses P tt (reopen-Refuses id reason actor)
  perform-Refuses (Call.observe e hint) =
      Keeps-Refuses P (record_observed_signal-Keeps P observing e hint)
  perform-Refuses (Call.protocol req) = ignored-Refuses P tt (protocol-Refuses req)
  perform-Refuses (Call.watch input) =
      ignored-Refuses P tt (Keeps-Refuses P (change_watch-Keeps input))
  perform-Refuses (Call.own input) = ignored-Refuses P tt (own-Refuses input)
  perform-Refuses (Call.watchdog now) =
      ignored-Refuses P tt (Keeps-Refuses P (run_watchdog-Keeps P observing (λ _ _ p. p) now))

-- One of the fourteen calls of `Call` that fails, wherever it fails, leaves every workflow, handoff,
-- accepted event, artifact, inbound creation, repair and ownership binding as it was. They are the
-- creation of a handoff (alone, idempotent or appended), the recording of an authoritative, accepted,
-- rejected or backfilled event, invalidation, reopening, an observed signal, a protocol action, an
-- update of a watch or of an owner, and a run of the watchdog; `DispatchHandoff` is none of them.
pub perform-refused :
    (call : Call) (s : Service) (failure : Failure)
    → (perform call s).0 ≡ err failure
    → authority (perform call s).1.store ≡ authority s.store
perform-refused call s failure e =
    Refuses-store (λ st. authority st ≡ authority s.store) (perform call s) failure
      ((perform-Refuses s.store call).ends s refl) e
