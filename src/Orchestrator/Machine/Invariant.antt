-- ===== src/Orchestrator/Machine/Invariant.antt =====
-- What holds of a handoff between two events: its flags are consistent with one another and with
-- its state, and a completed handoff has what completion asks for.
use clawside.Common.{ltb, Bool, true, false, none, List, [], ◌∷◌, ◌≡◌, refl, arith}
use clawside.Orchestrator.Types.{HandoffState, EventType, Handoff, EventRecord}
use clawside.Orchestrator.Completion.{
  requires_artifacts, requires_review, requires_submitted, validate_completion_prereqs,
  required_artifact_count, is_approved, hydrate_flags, is_valid_review_decision,
}
use clawside.Orchestrator.Machine.{
  StateMachine, Outcome, transition, complete, advance, settle, apply, apply_all,
}

pub record IsConsistent (h : Handoff) : Type 0 where
  pub claimed_received : h.has_claimed ≡ true → h.has_received ≡ true
  pub started_claimed : h.has_started ≡ true → h.has_claimed ≡ true
  pub checkpointed_started : h.has_checkpointed ≡ true → h.has_started ≡ true
  pub submitted_checkpointed : h.has_submitted ≡ true → h.has_checkpointed ≡ true
  pub reviewed_submitted : h.has_reviewed ≡ true → h.has_submitted ≡ true
  pub hydrated : hydrate_flags h ≡ h
  pub decision_valid :
      h.state ≡ HandoffState.reviewed → is_valid_review_decision h.review_decision ≡ true
  pub completed_ready : h.state ≡ HandoffState.completed → validate_completion_prereqs h ≡ none

-- Hydrating twice is hydrating once.
pub hydrate_flags_idem : (h : Handoff) → hydrate_flags (hydrate_flags h) ≡ hydrate_flags h
unfolding hydrate_flags requires_submitted requires_artifacts requires_review
hydrate_flags_idem h = ground arith

-- What `validate_completion_prereqs` checks, one field for each of its tests.
pub record IsReady (h : Handoff) : Type 0 where
  pub received : h.has_received ≡ true
  pub claimed : h.has_claimed ≡ true
  pub started : h.has_started ≡ true
  pub checkpointed : h.has_checkpointed ≡ true
  pub submitted : requires_submitted h ≡ true → h.has_submitted ≡ true
  pub artifacts :
      requires_artifacts h ≡ true → ltb h.artifact_count (required_artifact_count h) ≡ false
  pub reviewed : requires_review h ≡ true → h.has_reviewed ≡ true
  pub approved : requires_review h ≡ true → is_approved h.review_decision ≡ true

pub prereqs-IsReady : (h : Handoff) → validate_completion_prereqs h ≡ none → IsReady h
unfolding validate_completion_prereqs
prereqs-IsReady h e = ground arith

pub IsReady-prereqs : (h : Handoff) → IsReady h → validate_completion_prereqs h ≡ none
unfolding validate_completion_prereqs
IsReady-prereqs h r = ground arith

module _ (h : Handoff) (e : EventRecord) where
  abbrev done : Handoff
  done = advance (complete h e)

  done_requires :
      (requires_artifacts done ≡ requires_artifacts h)
      × (requires_review done ≡ requires_review h)
      × (requires_submitted done ≡ requires_submitted h)
      × (required_artifact_count done ≡ required_artifact_count h)
  unfolding advance complete hydrate_flags requires_submitted requires_artifacts requires_review
      required_artifact_count
  done_requires = (refl, refl, refl, refl)

  done-IsReady : IsReady h → IsReady done
  unfolding advance complete hydrate_flags requires_submitted
  done-IsReady r = ground (arith, done_requires)

pub completed_step :
    (h : Handoff) (e : EventRecord) (h' : Handoff)
    → transition EventType.completed h e ≡ Outcome.advanced h'
    → (h' ≡ complete h e) × (validate_completion_prereqs h ≡ none)
unfolding transition
completed_step h e h' eq = ground arith

completed_chain :
    (h : Handoff) (e : EventRecord)
    → IsConsistent h
    → (advance (complete h e)).has_reviewed ≡ true
    → (advance (complete h e)).has_submitted ≡ true
unfolding advance complete hydrate_flags requires_submitted
completed_chain h e c p = ground (arith, c.reviewed_submitted)

completed-ne-reviewed :
    (h : Handoff) (e : EventRecord) {b : Bool}
    → (advance (complete h e)).state ≡ HandoffState.reviewed
    → b ≡ true
unfolding advance complete hydrate_flags
completed-ne-reviewed h e p = cc

completed-IsConsistent :
    (h : Handoff) (e : EventRecord)
    → IsConsistent h
    → IsReady h
    → IsConsistent (advance (complete h e))
unfolding advance
completed-IsConsistent h e c r = record {
  claimed_received = λ _. ready.received;
  started_claimed = λ _. ready.claimed;
  checkpointed_started = λ _. ready.started;
  submitted_checkpointed = λ _. ready.checkpointed;
  reviewed_submitted = completed_chain h e c;
  hydrated = hydrate_flags_idem _;
  decision_valid = λ p. completed-ne-reviewed h e p;
  completed_ready = λ _. IsReady-prereqs (advance (complete h e)) ready;
}
  where
    ready : IsReady (advance (complete h e))
    ready = done-IsReady h e r

pub advance-IsConsistent :
    (t : EventType) (h : Handoff) (e : EventRecord) (h' : Handoff)
    → IsConsistent h
    → transition t h e ≡ Outcome.advanced h'
    → IsConsistent (advance h')
unfolding transition advance hydrate_flags is_valid_review_decision
advance-IsConsistent EventType.completed h e h' c eq =
    let (made, ready) = completed_step h e h' eq in
    rw made (completed-IsConsistent h e c (prereqs-IsReady h ready))
advance-IsConsistent EventType.received h e h' c eq = ground arith
advance-IsConsistent t h e h' c eq = ground arith

pub hydrate-IsConsistent : (h : Handoff) → IsConsistent h → IsConsistent (hydrate_flags h)
hydrate-IsConsistent h c = rw c.hydrated c

settle-IsConsistent :
    (m : StateMachine) (next : Handoff) (o : Outcome)
    → IsConsistent m.handoff
    → IsConsistent next
    → ((h' : Handoff) → o ≡ Outcome.advanced h' → IsConsistent (advance h'))
    → IsConsistent (settle m next o).0.handoff
unfolding settle
settle-IsConsistent m next (Outcome.rejected reason) c n step = c
settle-IsConsistent m next Outcome.observed c n step = n
settle-IsConsistent m next (Outcome.advanced h) c n step = step h refl

-- One event, whatever it is, keeps a consistent handoff consistent.
pub apply-IsConsistent :
    (m : StateMachine) (e : EventRecord)
    → IsConsistent m.handoff
    → IsConsistent (apply m e).0.handoff
unfolding apply
apply-IsConsistent m e c =
    let n = hydrate-IsConsistent m.handoff c in
    settle-IsConsistent m (hydrate_flags m.handoff) (transition e.type (hydrate_flags m.handoff) e)
      c n (λ h' eq. advance-IsConsistent e.type (hydrate_flags m.handoff) e h' n eq)

-- Any list of events keeps a consistent handoff consistent: its flags imply one another in the
-- order of the life cycle and agree with its state, a reviewed one has a valid decision, and a
-- completed one meets the prerequisites.
pub apply_all-IsConsistent :
    (m : StateMachine) (es : List EventRecord)
    → IsConsistent m.handoff
    → IsConsistent (apply_all m es).0.handoff
unfolding apply_all
apply_all-IsConsistent m [] c = c
apply_all-IsConsistent m (e ∷ es) c =
    apply_all-IsConsistent (apply m e).0 es (apply-IsConsistent m e c)
