-- ===== src/Orchestrator/Events/Accepted.antt =====
-- What an event that was accepted has changed.
use mathlib.Core.Bool.{false≢true}
use clawside.Common.{
  ℕ, String, true, false, none, Option, some, List, [], ◌∷◌, ◌++◌, ◌≡◌, ◌≢◌, refl, sym, ap, ◌∙◌,
  arith, inl, inr, Option-cases,
}
use clawside.Orchestrator.Types.{HandoffState, EventType, Handoff, EventRecord}
use clawside.Orchestrator.Records.{ownership_binding_from_handoff}
use clawside.Orchestrator.Completion.{hydrate_flags}
use clawside.Orchestrator.Machine.{
  StateMachine, Outcome, default_state, new_state_machine, transition, settle, reject_decision,
  apply,
}
use clawside.Orchestrator.Machine.Graph.{◌⟶◌, state-hydrate, state-advance, transition-⟶}
use clawside.Orchestrator.Table.{find, upsert, update}
use clawside.Orchestrator.Table.Laws.{
  find_key, find-update_self, find-update_other, insert_row-fresh,
}
use clawside.Orchestrator.Action.{Store, Service, Failure, ok, run, pure, raise}
use clawside.Orchestrator.Action.Inversion.{
  Returns, >>=-Returns, >>-Returns, pure-Returns, or_raise-Returns, transaction-Returns,
  raise_if-Returns, store_of-Returns,
}
use clawside.Orchestrator.Store.{
  handoff_key, binding_key, event_key, versioned_row, load_handoff, insert_event,
  insert_accepted_event, save_projected_handoff, save_ownership_binding,
}
use clawside.Orchestrator.Events.{
  is_observed_signal_event, observed_signal_kind_for_event, validate_event_workflow_match,
  decide_event, preserve_static_handoff_fields, project_event, record_accepted_event_tx,
  record_accepted_event,
}

pub load_handoff-Returns :
    (id : String) {h : Handoff} {s t : Service}
    → Returns (load_handoff id) s h t
    → (find handoff_key id s.store.handoffs ≡ some h) × (s ≡ t)
unfolding load_handoff
load_handoff-Returns id r =
    let (st, a, r1, r2) = >>=-Returns r in
    let (e1, s1) = store_of-Returns r1 in
    let (e2, s2) = or_raise-Returns Failure.no_rows r2 in (rw e1 e2, s1 ∙ s2)

match-Returns :
    (h : Handoff) (e : EventRecord) {u : _} {s t : Service}
    → Returns (validate_event_workflow_match h e) s u t
    → s ≡ t
unfolding validate_event_workflow_match pure raise
match-Returns h e {u = u} {s = s} {t = t} r = let q = r.eq in ground arith

insert_event-grown :
    (e : EventRecord) (rows grown : List EventRecord)
    → insert_event e rows ≡ some grown
    → grown ≡ rows ++ e ∷ []
unfolding insert_event
insert_event-grown e rows grown q = (insert_row-fresh event_key e rows grown (ground arith)).1

abbrev with_event : EventRecord → Service → Service
with_event e s = record s {
  store = record s.store { accepted_events = s.store.accepted_events ++ e ∷ [] };
}

-- The store with the event behind the accepted ones.
insert_accepted-Returns :
    (e : EventRecord) {u : _} {s t : Service}
    → Returns (insert_accepted_event e) s u t
    → t ≡ with_event e s
unfolding insert_accepted_event run
insert_accepted-Returns e {u = u} {s = s} {t = t} r =
    let q = r.eq in
    elim (Option-cases (insert_event e s.store.accepted_events)) [
      | inl none_ ↦ absurd (ground (arith, none_))
      | inr (grown, g) ↦ ground (arith, insert_event-grown e s.store.accepted_events grown g)
    ]

abbrev pub with_handoff : Handoff → Service → Service
with_handoff h s = record s {
  store = record s.store {
    handoffs = update handoff_key h.id (λ _. h) s.store.handoffs;
    ownership_bindings =
        upsert binding_key (ownership_binding_from_handoff h) s.store.ownership_bindings;
  };
}

pub save_projected-Returns :
    (h : Handoff) (version : ℕ) {u : _} {s t : Service}
    → Returns (save_projected_handoff h version) s u t
    → t ≡ with_handoff h s
unfolding save_projected_handoff save_ownership_binding run
save_projected-Returns h version {u = u} {s = s} {t = t} r =
    let q = r.eq in
    elim (Option-cases (versioned_row h version (find handoff_key h.id s.store.handoffs))) [
      | inl none_ ↦ absurd (ground (arith, none_))
      | inr (row, g) ↦ ground (arith, g)
    ]

-- An event that was accepted: the handoff it found, and the store behind it.
pub record Accepted (e : EventRecord) (before after : Store) (result : Handoff) : Type 0 where
  pub handoff : Handoff
  pub found : find handoff_key e.handoff_id before.handoffs ≡ some handoff
  pub decided : (decide_event handoff e).1.accepted ≡ true
  pub projected : result ≡ project_event handoff e
  pub appended : after.accepted_events ≡ before.accepted_events ++ e ∷ []
  pub saved :
      let p = project_event handoff e in
      after.handoffs ≡ update handoff_key p.id (λ _. p) before.handoffs

pub record_accepted_event_tx-Returns :
    (e : EventRecord) {k : Handoff} {s t : Service}
    → Returns (record_accepted_event_tx e) s k t
    → Accepted e s.store t.store k
unfolding record_accepted_event_tx
record_accepted_event_tx-Returns e {k = k} {s = s} {t = t} r =
    let (h, s1, r1, q1) = >>=-Returns r in
    let (u2, s2, r2, q2) = >>-Returns q1 in
    let (u3, s3, r3, q3) = >>-Returns q2 in
    let (u4, s4, r4, q4) = >>-Returns q3 in
    let (u5, s5, r5, q5) = >>-Returns q4 in
    let (found, e1) = load_handoff-Returns e.handoff_id r1 in
    let e2 = match-Returns h e r2 in
    let (accepted, e3) = raise_if-Returns _ r3 in
    let e4 = insert_accepted-Returns e r4 in
    let e5 = save_projected-Returns (project_event h e) h.state_version r5 in
    let (e6, e7) = pure-Returns q5 in
    let final : t ≡ with_handoff (project_event h e) (with_event e s) =
      sym e7
      ∙ e5
      ∙ ap (with_handoff (project_event h e)) e4
      ∙ ap (λ x. with_handoff (project_event h e) (with_event e x)) (sym (e1 ∙ e2 ∙ e3)) in
    record {
      handoff = h;
      found = found;
      decided = ground (arith, accepted);
      projected = sym e6;
      appended = ap (λ x. x.store.accepted_events) final;
      saved = ap (λ x. x.store.handoffs) final;
    }

settle-accepted :
    (m : StateMachine) (next : Handoff) (o : Outcome)
    → (settle m next o).2.accepted ≡ true
    → (settle m next o).1 ≡ (settle m next o).0.handoff
unfolding settle reject_decision
settle-accepted m next (Outcome.rejected reason) a = cc
settle-accepted m next Outcome.observed a = refl
settle-accepted m next (Outcome.advanced h) a = refl

apply-accepted :
    (m : StateMachine) (e : EventRecord)
    → (apply m e).2.accepted ≡ true
    → (apply m e).1 ≡ (apply m e).0.handoff
unfolding apply
apply-accepted m e a =
    settle-accepted m (hydrate_flags m.handoff) (transition e.type (hydrate_flags m.handoff) e) a

-- The state of a new machine is that of the handoff, where it is set.
new-state : (h : Handoff) → (new_state_machine h).handoff.state ≡ default_state h.state
unfolding new_state_machine hydrate_flags
new-state h = ground arith

edge-from : {a b c : HandoffState} → a ≡ b → a ⟶ c → b ⟶ c
edge-from e edge = rw e at edge

-- The state that an accepted event leaves the handoff in, by its type.
unfoldable pub arrives : EventType → Option HandoffState
arrives EventType.transport_requested = some HandoffState.dispatched
arrives EventType.received = some HandoffState.received
arrives EventType.claimed = some HandoffState.claimed
arrives EventType.started = some HandoffState.started
arrives EventType.checkpointed = some HandoffState.checkpointed
arrives EventType.submitted = some HandoffState.submitted
arrives EventType.reviewed = some HandoffState.reviewed
arrives EventType.completed = some HandoffState.completed
arrives EventType.failed = some HandoffState.failed
arrives EventType.expired = some HandoffState.expired
arrives _ = none

transition-arrives :
    (t : EventType) (h : Handoff) (e : EventRecord) (h' : Handoff)
    → transition t h e ≡ Outcome.advanced h'
    → arrives t ≡ some h'.state
unfolding transition arrives
transition-arrives EventType.received h e h' eq = ground arith
transition-arrives t h e h' eq = ground arith

transition-observed :
    (t : EventType) (h : Handoff) (e : EventRecord)
    → transition t h e ≡ Outcome.observed
    → is_observed_signal_event t ≡ true
unfolding transition is_observed_signal_event observed_signal_kind_for_event
transition-observed EventType.received h e eq = ground arith
transition-observed t h e eq = ground arith

-- A step of the diagram, to the state that the event's type names.
abbrev Steps : EventRecord → HandoffState → HandoffState → Type 0
Steps e before after = (before ⟶ after) × (arrives e.type ≡ some after)

settle-Steps :
    (m : StateMachine) (e : EventRecord) (o : Outcome)
    → is_observed_signal_event e.type ≡ false
    → transition e.type (hydrate_flags m.handoff) e ≡ o
    → (settle m (hydrate_flags m.handoff) o).2.accepted ≡ true
    → Steps e m.handoff.state (settle m (hydrate_flags m.handoff) o).0.handoff.state
unfolding settle reject_decision
settle-Steps m e (Outcome.rejected reason) own eq a = cc
settle-Steps m e Outcome.observed own eq a =
    absurd (false≢true (sym own ∙ transition-observed e.type (hydrate_flags m.handoff) e eq))
settle-Steps m e (Outcome.advanced h) own eq a =
    let n = hydrate_flags m.handoff in
    rw (state-advance h) (
      edge-from (state-hydrate m.handoff) (transition-⟶ e.type n e h eq),
      transition-arrives e.type n e h eq,
    )

apply-Steps :
    (m : StateMachine) (e : EventRecord)
    → is_observed_signal_event e.type ≡ false
    → (apply m e).2.accepted ≡ true
    → Steps e m.handoff.state (apply m e).0.handoff.state
unfolding apply
apply-Steps m e own a = settle-Steps m e _ own refl a

project_event-Steps :
    (h : Handoff) (e : EventRecord)
    → is_observed_signal_event e.type ≡ false
    → (decide_event h e).1.accepted ≡ true
    → Steps e (default_state h.state) (project_event h e).state
unfolding decide_event project_event preserve_static_handoff_fields
project_event-Steps h e own a =
    let m = new_state_machine h in
    let (edge, named) = apply-Steps m e own a in
    rw (apply-accepted m e a) (edge-from (new-state h) edge, named)

project_event-id : (h : Handoff) (e : EventRecord) → (project_event h e).id ≡ h.id
unfolding project_event preserve_static_handoff_fields
project_event-id h e = refl

-- What `record_accepted_event` promises: the handoff that the event names takes a step of the diagram
-- to the state of the event's type, no other handoff is touched, and the event stands behind the
-- accepted ones.
pub record Advances (e : EventRecord) (before after : Store) (result : Handoff) : Type 0 where
  pub handoff : Handoff
  pub found : find handoff_key e.handoff_id before.handoffs ≡ some handoff
  pub step : default_state handoff.state ⟶ result.state
  pub named : arrives e.type ≡ some result.state
  pub stored : find handoff_key e.handoff_id after.handoffs ≡ some result
  pub others :
      (id : String)
      → id ≢ e.handoff_id
      → find handoff_key id after.handoffs ≡ find handoff_key id before.handoffs
  pub appended : after.accepted_events ≡ before.accepted_events ++ e ∷ []

Accepted-Advances :
    (e : EventRecord) (before after : Store) (k : Handoff)
    → is_observed_signal_event e.type ≡ false
    → Accepted e before after k
    → Advances e before after k
Accepted-Advances e before after k own a =
    let h = a.handoff in
    let p = project_event h e in
    let id : p.id ≡ e.handoff_id =
      project_event-id h e ∙ find_key handoff_key e.handoff_id h before.handoffs a.found in
    let saved : after.handoffs ≡ update handoff_key e.handoff_id (λ _. p) before.handoffs =
      a.saved ∙ ap (λ i. update handoff_key i (λ _. p) before.handoffs) id in
    record {
      handoff = h;
      found = a.found;
      step = rw a.projected (project_event-Steps h e own a.decided).0;
      named = rw a.projected (project_event-Steps h e own a.decided).1;
      stored =
          ap (find handoff_key e.handoff_id) saved
          ∙ find-update_self handoff_key e.handoff_id (λ _. p) h before.handoffs id a.found
          ∙ ap some (sym a.projected);
      others = λ other ne.
          ap (find handoff_key other) saved
          ∙ find-update_other handoff_key other e.handoff_id (λ _. p) before.handoffs (λ _ _. id)
              ne;
      appended = a.appended;
    }

-- Where an event is accepted, the stored handoff that it names takes a step of the diagram to the
-- state that the event's type names, the result is the handoff that is stored behind it, no other
-- handoff changes, and the event is appended to the accepted ones.
pub record_accepted_event-Advances :
    (e : EventRecord) (k : Handoff) (s t : Service)
    → record_accepted_event e s ≡ (ok k, t)
    → Advances e s.store t.store k
unfolding record_accepted_event
record_accepted_event-Advances e k s t q =
    let r : Returns (record_accepted_event e) s k t = record { eq = q } in
    let (u1, s1, r1, q1) = >>-Returns r in
    let (u2, s2, r2, q2) = >>-Returns q1 in
    let (_, e1) = raise_if-Returns _ r1 in
    let (own, e2) = raise_if-Returns _ r2 in
    let a = record_accepted_event_tx-Returns e (transaction-Returns q2) in
    rw (e1 ∙ e2) (Accepted-Advances e s2.store t.store k own a)
