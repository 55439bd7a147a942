-- ===== src/Orchestrator/Machine/Progress.antt =====
-- How a handoff gets to its end: the events that its receiver and its reviewer send to complete it.
use clawside.Common.{String, ltb, true, false, none, ◌≡◌, ◌∙◌, refl, arith, ◌⊎◌, inl, inr, str_eq}
use clawside.Orchestrator.Types.{
  ActorRef, HandoffState, EventType, ReviewDecision, Handoff, EventRecord,
}
use clawside.Orchestrator.Actors.{
  same_actor, is_blank, same_reference, validate_transport_actor, validate_receiver_actor,
  validate_worker_actor, validate_reviewer_actor,
}
use clawside.Orchestrator.Completion.{
  is_approved, is_revision_required, requires_artifacts, requires_review, requires_submitted,
  required_artifact_count, is_valid_review_decision, can_transition_to_completed,
  validate_completion_prereqs, hydrate_flags,
}
use clawside.Orchestrator.Machine.{Outcome, transition, advance, claim, submit, complete}
use clawside.Orchestrator.Machine.Graph.{state-advance}
use clawside.Orchestrator.Machine.Trace.{SameTerms}
use clawside.Orchestrator.Table.Laws.{str_eq_self}

abbrev pub adapter : ActorRef
adapter = record { type = "system"; id = "adapter"; address = "" }

-- An event on a handoff that an actor sends for itself, with as many artifacts as the handoff needs.
abbrev pub sent : Handoff → ActorRef → EventType → ReviewDecision → EventRecord
sent h actor type decision = record {
  id = "";
  workflow_id = h.workflow_id;
  handoff_id = h.id;
  type = type;
  producer_event_time = 1;
  ingested_at = 1;
  producer_actor = actor;
  subject_actor = actor;
  idempotency_key = "";
  correlation_id = "";
  causation_id = "";
  accepted = false;
  rejection_reason = "";
  attempt_id = "";
  artifact_count = required_artifact_count h;
  review_decision = decision;
}

module _ (h : Handoff) (e : EventRecord) (action : String) where
  pub worker_allowed :
      is_blank h.receiver_actor ≡ false
      → e.subject_actor ≡ h.receiver_actor
      → e.producer_actor ≡ h.receiver_actor
      → validate_worker_actor h e action ≡ none
  unfolding validate_worker_actor same_actor is_blank
  worker_allowed full s p =
      ground (arith, str_eq_self h.receiver_actor.type, str_eq_self h.receiver_actor.id)

  pub receiver_allowed :
      is_blank h.receiver_actor ≡ false
      → e.subject_actor ≡ h.receiver_actor
      → e.producer_actor ≡ h.receiver_actor
      → validate_receiver_actor h e ≡ none
  unfolding validate_receiver_actor same_reference is_blank
  receiver_allowed full s p =
      ground (arith, str_eq_self h.receiver_actor.type, str_eq_self h.receiver_actor.id)

  pub reviewer_allowed :
      is_blank h.reviewer_actor ≡ false
      → e.subject_actor ≡ h.reviewer_actor
      → e.producer_actor ≡ h.reviewer_actor
      → validate_reviewer_actor h e ≡ none
  unfolding validate_reviewer_actor same_reference is_blank
  reviewer_allowed full s p =
      ground (arith, str_eq_self h.reviewer_actor.type, str_eq_self h.reviewer_actor.id)

-- The event is accepted, and the handoff behind it satisfies the predicate.
abbrev pub Moves : (Handoff → Type 0) → EventType → Handoff → EventRecord → Type 0
Moves P t h e = (h' : Handoff) × ((transition t h e ≡ Outcome.advanced h') × P (advance h'))

-- What the next steps need to know of the handoff in each state.
abbrev pub In : HandoffState → Handoff → Type 0
In s h = h.state ≡ s

-- A state, and enough artifacts for completion.
abbrev pub Supplied : HandoffState → Handoff → Type 0
Supplied s h = (h.state ≡ s) × (ltb h.artifact_count (required_artifact_count h) ≡ false)

abbrev pub Passed : Handoff → Type 0
Passed h = Supplied HandoffState.reviewed h × (is_approved h.review_decision ≡ true)

abbrev pub Returned : Handoff → Type 0
Returned h = (h.state ≡ HandoffState.reviewed) × (is_revision_required h.review_decision ≡ true)

-- What a review leaves of a handoff.
abbrev pub Judged : EventRecord → Handoff → Handoff → Type 0
Judged e h k =
    (k.state ≡ HandoffState.reviewed)
    × ((k.review_decision ≡ e.review_decision)
        × ((k.artifact_count ≡ h.artifact_count)
            × (required_artifact_count k ≡ required_artifact_count h)))

module _ (h : Handoff) (e : EventRecord) where
  pub dispatching :
      validate_transport_actor h e ≡ none
      → h.state ≡ HandoffState.created
      → Moves (In HandoffState.dispatched) EventType.transport_requested h e
  unfolding transition advance hydrate_flags
  dispatching v s = rw (v, s) (_, (refl, refl))

  pub receiving :
      validate_receiver_actor h e ≡ none
      → (h.state ≡ HandoffState.dispatched)
        ⊎ ((h.state ≡ HandoffState.created) × (str_eq h.delivery_target_ref "" ≡ true))
      → Moves (In HandoffState.received) EventType.received h e
  unfolding transition advance hydrate_flags
  receiving v (inl s) = rw (v, s) (_, (refl, refl))
  receiving v (inr (s, d)) = rw (v, s, d) (_, (refl, refl))

  pub claiming :
      validate_worker_actor h e "claimed" ≡ none
      → h.state ≡ HandoffState.received
      → Moves (In HandoffState.claimed) EventType.claimed h e
  unfolding transition
  claiming v s = rw (v, s) (claim h e, (refl, state-advance (claim h e) ∙ ground arith))

  pub starting :
      validate_worker_actor h e "started" ≡ none
      → h.state ≡ HandoffState.claimed
      → Moves (In HandoffState.started) EventType.started h e
  unfolding transition advance hydrate_flags
  starting v s = rw (v, s) (_, (refl, refl))

  pub checkpointing :
      validate_worker_actor h e "checkpointed" ≡ none
      → (h.state ≡ HandoffState.started) ⊎ Returned h
      → Moves (In HandoffState.checkpointed) EventType.checkpointed h e
  unfolding transition advance hydrate_flags
  checkpointing v (inl s) = rw (v, s) (_, (refl, refl))
  checkpointing v (inr (s, r)) = rw (v, s, r) (_, (refl, refl))

  submit-Supplied :
      e.artifact_count ≡ required_artifact_count h
      → Supplied HandoffState.submitted (advance (submit h e))
  unfolding submit advance hydrate_flags required_artifact_count
  submit-Supplied n = ground arith

  pub submitting :
      validate_worker_actor h e "submitted" ≡ none
      → h.state ≡ HandoffState.checkpointed
      → e.artifact_count ≡ required_artifact_count h
      → Moves (Supplied HandoffState.submitted) EventType.submitted h e
  unfolding transition
  submitting v s n = rw (v, s) (submit h e, (refl, submit-Supplied n))

  pub reviewing :
      validate_reviewer_actor h e ≡ none
      → h.state ≡ HandoffState.submitted
      → is_valid_review_decision e.review_decision ≡ true
      → Moves (Judged e h) EventType.reviewed h e
  unfolding transition advance hydrate_flags required_artifact_count
  reviewing v s d = rw (v, s, d) (_, (refl, (refl, (refl, (refl, refl)))))

  pub completing :
      validate_worker_actor h e "completed" ≡ none
      → can_transition_to_completed h ≡ true
      → validate_completion_prereqs h ≡ none
      → Moves (In HandoffState.completed) EventType.completed h e
  unfolding transition
  completing v c p = rw (v, c, p) (complete h e, (refl, state-advance (complete h e)))

-- The handoff may be completed as it is, once its flags are filled in.
abbrev pub Closable : Handoff → Type 0
Closable h =
    (can_transition_to_completed (hydrate_flags h) ≡ true)
    × (validate_completion_prereqs (hydrate_flags h) ≡ none)

pub reviewed-Closable : (h : Handoff) → Passed h → requires_review h ≡ true → Closable h
unfolding can_transition_to_completed validate_completion_prereqs hydrate_flags requires_submitted
    requires_artifacts requires_review required_artifact_count
reviewed-Closable h p r = ground arith

pub submitted-Closable :
    (h : Handoff) → Supplied HandoffState.submitted h → requires_review h ≡ false → Closable h
unfolding can_transition_to_completed validate_completion_prereqs hydrate_flags requires_submitted
    requires_artifacts requires_review required_artifact_count
submitted-Closable h p r = ground arith

pub checkpointed-Closable :
    (h : Handoff) → h.state ≡ HandoffState.checkpointed → requires_submitted h ≡ false → Closable h
unfolding can_transition_to_completed validate_completion_prereqs hydrate_flags requires_submitted
    requires_artifacts requires_review required_artifact_count
checkpointed-Closable h p r = ground arith

pub required_same :
    {a b : Handoff} → SameTerms a b → required_artifact_count b ≡ required_artifact_count a
unfolding required_artifact_count
required_same s = rw (s.task_kind, s.artifact_policy)

-- What an event finds when it is applied.
pub hydrate-Supplied :
    (h : Handoff)
    → Supplied HandoffState.submitted h
    → Supplied HandoffState.submitted (hydrate_flags h)
unfolding hydrate_flags required_artifact_count
hydrate-Supplied h s = ground arith

pub hydrate-Returned : (h : Handoff) → Returned h → Returned (hydrate_flags h)
unfolding hydrate_flags
hydrate-Returned h s = ground arith

pub requires_submitted_same :
    {a b : Handoff} → SameTerms a b → requires_submitted b ≡ requires_submitted a
unfolding requires_submitted requires_artifacts requires_review
requires_submitted_same s = rw (s.task_kind, s.artifact_policy, s.needs_review)

pub Judged-Passed :
    (e : EventRecord) (h k : Handoff)
    → is_approved e.review_decision ≡ true
    → Supplied HandoffState.submitted h
    → Judged e h k
    → Passed k
unfolding required_artifact_count
Judged-Passed e h k ok s (at_, (decided, (counted, required))) =
    ((at_, rw (counted, required) s.1), rw decided ok)
