-- ===== src/Orchestrator/Events/Sound.antt =====
-- Accepting an event keeps the invariant of the store.
use clawside.Common.{String, ◌≡◌, refl, arith, inl, inr, ◌⊎◌, ap, ◌∙◌}
use clawside.Orchestrator.Types.{Handoff, EventRecord}
use clawside.Orchestrator.Completion.{
  requires_artifacts, requires_review, requires_submitted, validate_completion_prereqs,
  required_artifact_count, hydrate_flags,
}
use clawside.Orchestrator.Machine.{new_state_machine, apply}
use clawside.Orchestrator.Machine.Invariant.{IsConsistent}
use clawside.Orchestrator.Machine.Trace.{SameTerms, hydrate-SameTerms, apply-SameTerms}
use clawside.Orchestrator.Machine.Invariant.{hydrate-IsConsistent, apply-IsConsistent}
use clawside.Orchestrator.Machine.Trace.{SameTerms-trans}
use clawside.Orchestrator.Machine.{default_state, StateMachine, Outcome, settle, transition}
use clawside.Orchestrator.Replay.Replayed.{new-SameTerms}
use clawside.Orchestrator.Events.Rules.{Laws}
use clawside.Orchestrator.Action.Rules.{Meets}
use clawside.Orchestrator.Store.{load_handoff}
use clawside.Orchestrator.Store.Frames.{
  load_handoff-Meets, insert_accepted_event-Keeps, insert_audit_event-Keeps, save_repair-Keeps,
}
use clawside.Orchestrator.Store.Sound.{IsSound, save_projected_handoff-Keeps}
use clawside.Orchestrator.Events.{preserve_static_handoff_fields, decide_event, project_event}

-- The fields that no property of the state reads: those of `a`, and the ones of the owner and of
-- the last change of `b`.
unfoldable pub reframe : Handoff → Handoff → Handoff → Handoff
reframe a b p = record p {
  id = a.id;
  workflow_id = a.workflow_id;
  workflow_kind = a.workflow_kind;
  parent_handoff_id = a.parent_handoff_id;
  depends_on_handoff_ids = a.depends_on_handoff_ids;
  required_for_workflow_completion = a.required_for_workflow_completion;
  intent = a.intent;
  payload_ref = a.payload_ref;
  delivery_target_ref = a.delivery_target_ref;
  deadline_at = a.deadline_at;
  producer_actor = a.producer_actor;
  sender_actor = a.sender_actor;
  receiver_actor = a.receiver_actor;
  subject_actor = a.subject_actor;
  created_at = a.created_at;
  reviewer_actor = b.reviewer_actor;
  current_owner = b.current_owner;
  lease_holder = b.lease_holder;
  escalation_owner = b.escalation_owner;
  fallback_owner = b.fallback_owner;
  leased_at = b.leased_at;
  lease_expires_at = b.lease_expires_at;
  updated_at = b.updated_at;
  last_authoritative_event_id = b.last_authoritative_event_id;
}

hydrate-reframe : (a b p : Handoff) → hydrate_flags (reframe a b p) ≡ reframe a b (hydrate_flags p)
unfolding reframe hydrate_flags requires_submitted requires_artifacts requires_review
hydrate-reframe a b p = ground arith

pub reframe-IsConsistent : (a b p : Handoff) → IsConsistent p → IsConsistent (reframe a b p)
unfolding reframe validate_completion_prereqs requires_submitted requires_artifacts
    required_artifact_count requires_review
reframe-IsConsistent a b p c = record {
  claimed_received = c.claimed_received;
  started_claimed = c.started_claimed;
  checkpointed_started = c.checkpointed_started;
  submitted_checkpointed = c.submitted_checkpointed;
  reviewed_submitted = c.reviewed_submitted;
  hydrated = hydrate-reframe a b p ∙ ap (reframe a b) c.hydrated;
  decision_valid = c.decision_valid;
  completed_ready = c.completed_ready;
}

-- An unset state is set to `created`, which changes nothing that the invariant asks for.
started-IsConsistent :
    (h : Handoff) → IsConsistent h → IsConsistent (record h { state = default_state h.state })
unfolding hydrate_flags validate_completion_prereqs requires_submitted requires_artifacts
    required_artifact_count requires_review
started-IsConsistent h c = record {
  claimed_received = c.claimed_received;
  started_claimed = c.started_claimed;
  checkpointed_started = c.checkpointed_started;
  submitted_checkpointed = c.submitted_checkpointed;
  reviewed_submitted = c.reviewed_submitted;
  hydrated = ground (arith, c.hydrated);
  decision_valid = λ e. c.decision_valid (ground arith);
  completed_ready = λ e. c.completed_ready (ground arith);
}

new_state_machine-IsConsistent :
    (h : Handoff) → IsConsistent h → IsConsistent (new_state_machine h).handoff
unfolding new_state_machine
new_state_machine-IsConsistent h c = hydrate-IsConsistent _ (started-IsConsistent h c)

-- What an event is answered with is the machine's handoff, or the one before it, hydrated.
settle-next :
    (m : StateMachine) (next : Handoff) (o : Outcome)
    → ((settle m next o).1 ≡ (settle m next o).0.handoff) ⊎ ((settle m next o).1 ≡ next)
unfolding settle
settle-next m next (Outcome.rejected reason) = inr refl
settle-next m next Outcome.observed = inl refl
settle-next m next (Outcome.advanced h) = inl refl

module _ (h : Handoff) (e : EventRecord) where
  abbrev start : StateMachine
  start = new_state_machine h

  decided :
      ((apply start e).1 ≡ (apply start e).0.handoff)
      ⊎ ((apply start e).1 ≡ hydrate_flags start.handoff)
  unfolding apply
  decided =
      settle-next start (hydrate_flags start.handoff)
        (transition e.type (hydrate_flags start.handoff) e)

  decide_event-IsConsistent : IsConsistent h → IsConsistent (decide_event h e).0
  unfolding decide_event
  decide_event-IsConsistent c =
      let s = new_state_machine-IsConsistent h c in
      elim decided [
        | inl same ↦ rw same (apply-IsConsistent start e s)
        | inr same ↦ rw same (hydrate-IsConsistent start.handoff s)
      ]

  decide_event-SameTerms : SameTerms h (decide_event h e).0
  unfolding decide_event
  decide_event-SameTerms = SameTerms-trans (new-SameTerms h) (elim decided [
    | inl same ↦ rw same (apply-SameTerms start e)
    | inr same ↦ rw same (hydrate-SameTerms start.handoff)
  ])

  project_event-reframe :
      let p = (decide_event h e).0 in
      project_event h e
      ≡ reframe h (record (project_event h e) { reviewer_actor = h.reviewer_actor }) p
  unfolding project_event preserve_static_handoff_fields reframe
  project_event-reframe = ground (arith, decide_event-SameTerms)

  pub project_event-IsConsistent : IsConsistent h → IsConsistent (project_event h e)
  project_event-IsConsistent c =
      rw project_event-reframe (reframe-IsConsistent h _ _ (decide_event-IsConsistent c))

pub load_handoff-IsConsistent : (id : String) → Meets IsSound IsConsistent (load_handoff id)
load_handoff-IsConsistent id =
    load_handoff-Meets IsSound IsConsistent id (λ st h v e. v.consistent id h e)

pub IsSound-laws : Laws IsSound IsConsistent
IsSound-laws = record {
  loaded = load_handoff-IsConsistent;
  inserted = λ e. insert_accepted_event-Keeps IsSound e (λ st rows v _. v);
  projected = λ h e c.
      save_projected_handoff-Keeps (project_event h e) h.state_version
        (project_event-IsConsistent h e c);
  audited = insert_audit_event-Keeps IsSound (λ st rows v. v);
  repaired = save_repair-Keeps IsSound (λ st rows v. v);
}
