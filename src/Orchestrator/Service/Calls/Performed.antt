-- ===== src/Orchestrator/Service/Calls/Performed.antt =====
-- Every call keeps what the few statements keep, and so does a list of calls.
use clawside.Common.{List, [], ◌∷◌}
use clawside.Orchestrator.Types.{Handoff}
use clawside.Orchestrator.Action.{Store, Service, Action}
use clawside.Orchestrator.Action.Rules.{
  Keeps, Ends-store, Anything, pure-Keeps, or_raise-Meets, then-Keeps, bind-Keeps, if-Keeps,
  raise_if-Keeps, for_each-Keeps,
}
use clawside.Orchestrator.Store.Frames.{
  load_watch-Keeps, insert_audit_event-Keeps, save_repair-Keeps, update_watch-Keeps,
}
use clawside.Orchestrator.Events.Rules.{
  Laws, record_accepted_event-Keeps, record_rejected_event-Keeps, record_authoritative_event-Keeps,
  backfill_event-Keeps,
}
use clawside.Orchestrator.Service.Related.{
  ensure_dependency_completed, ensure_handoff_dependencies_completed,
}
use clawside.Orchestrator.Service.Signals.Truth.{record_observed_signal-Keeps, run_watchdog-Keeps}
use clawside.Orchestrator.Service.Signals.Truth
use clawside.Orchestrator.Service.Protocol.{
  ProtocolRequest, protocol_event_from_request, apply_protocol_action,
}
use clawside.Orchestrator.Service.Status.{UpdateWatchInput, change_watch}
use clawside.Orchestrator.Service.Calls.{Call, ignore, perform, perform_all}
use clawside.Orchestrator.Service.Calls.Keeping.{Tables, OnTables, Invariant}
use clawside.Orchestrator.Service.Calls.Created.{
  create_handoff-Keeps, create_handoff_idempotent-Keeps, append_handoff-Keeps, related-Keeps,
}
use clawside.Orchestrator.Service.Calls.Repaired.{invalidate_event-Keeps, reopen_handoff-Keeps}

module _ (R : Tables) (Q : Handoff → Type 0) (inv : Invariant R Q) where
  abbrev P : Store → Type 0
  P = OnTables R

  laws : Laws P Q
  laws = record {
    loaded = inv.loaded;
    inserted = inv.inserted;
    projected = inv.projected;
    audited = insert_audit_event-Keeps P (λ _ _ p. p);
    repaired = save_repair-Keeps P (λ _ _ p. p);
  }

  dependencies-Keeps : (h : Handoff) → Keeps P (ensure_handoff_dependencies_completed h)
  unfolding ensure_handoff_dependencies_completed ensure_dependency_completed
  dependencies-Keeps h = for_each-Keeps P h.depends_on_handoff_ids (λ id.
      bind-Keeps P {Q = Anything} (related-Keeps R Q inv id h.workflow_id)
        (λ d _. raise_if-Keeps P _ _))

  protocol-Keeps : (req : ProtocolRequest) → Keeps P (apply_protocol_action req)
  unfolding apply_protocol_action protocol_event_from_request
  protocol-Keeps req = then-Keeps P (raise_if-Keeps P _ _) (
      then-Keeps P (raise_if-Keeps P _ _) (
        bind-Keeps P (inv.loaded req.handoff_id) (λ h q.
          then-Keeps P (if-Keeps P _ (dependencies-Keeps h) (pure-Keeps P tt)) (
            bind-Keeps P {Q = Anything}
              (bind-Keeps P {Q = Anything} (or_raise-Meets P Anything _ _ (λ _ _. tt))
                (λ typed _. pure-Keeps P _))
              (λ event _.
                bind-Keeps P {Q = Anything} (record_authoritative_event-Keeps P Q laws event)
                  (λ decided _. pure-Keeps P _))))))

  watch-Keeps : (input : UpdateWatchInput) → Keeps P (change_watch input)
  unfolding change_watch
  watch-Keeps input =
      bind-Keeps P {Q = Anything} (load_watch-Keeps P input.watch_id)
        (λ w _. then-Keeps P (update_watch-Keeps P (λ _ _ p. p) _) (load_watch-Keeps P w.id))

  observing : Truth.Laws P
  observing = record {
    audited = λ _ _ p. p;
    diverged = λ _ _ p. p;
    signalled = λ _ _ p. p;
    suggested = λ _ _ p. p;
  }

  ignore-Keeps : {A : Type 0} {call : Action A} → Keeps P call → Keeps P (ignore call)
  unfolding ignore
  ignore-Keeps k = then-Keeps P k (pure-Keeps P tt)

  pub perform-Keeps : (call : Call) → Keeps P (perform call)
  unfolding perform
  perform-Keeps (Call.create input) = ignore-Keeps (create_handoff-Keeps R Q inv input)
  perform-Keeps (Call.create_idempotent input) =
      ignore-Keeps (create_handoff_idempotent-Keeps R Q inv input)
  perform-Keeps (Call.append id input) = ignore-Keeps (append_handoff-Keeps R Q inv id input)
  perform-Keeps (Call.record_event e) = ignore-Keeps (record_authoritative_event-Keeps P Q laws e)
  perform-Keeps (Call.accept e) = ignore-Keeps (record_accepted_event-Keeps P Q laws e)
  perform-Keeps (Call.reject e) = record_rejected_event-Keeps P Q laws e
  perform-Keeps (Call.backfill e reason actor) =
      ignore-Keeps (backfill_event-Keeps P Q laws e reason actor)
  perform-Keeps (Call.invalidate id reason actor) =
      ignore-Keeps (invalidate_event-Keeps R Q inv id reason actor)
  perform-Keeps (Call.reopen id reason actor) =
      ignore-Keeps (reopen_handoff-Keeps R Q inv id reason actor)
  perform-Keeps (Call.observe e hint) = record_observed_signal-Keeps P observing e hint
  perform-Keeps (Call.protocol req) = ignore-Keeps (protocol-Keeps req)
  perform-Keeps (Call.watch input) = ignore-Keeps (watch-Keeps input)
  perform-Keeps (Call.own input) = ignore-Keeps (inv.owned input)
  perform-Keeps (Call.watchdog now) = ignore-Keeps (run_watchdog-Keeps P observing (λ _ _ p. p) now)

  pub perform_all-keeps :
      (calls : List Call) (s : Service) → P s.store → P (perform_all calls s).store
  unfolding perform_all
  perform_all-keeps [] s p = p
  perform_all-keeps (call ∷ calls) s p =
      perform_all-keeps calls (perform call s).1
        (Ends-store P Anything (perform call s) ((perform-Keeps call).ends s p))
