-- ===== src/Orchestrator/Machine/Finish.antt =====
-- The events that the actors of a handoff may send, and what one such event adds to a route.
pub mod Routes
use clawside.Common.{
  ℕ, String, Bool, ltb, true, false, not, ◌||◌, none, List, [], ◌∷◌, ◌≡◌, ◌∙◌, sym, ap, refl, arith,
  ◌⊎◌, inl, inr, Bool-cases, All, str_eq,
}
use clawside.Orchestrator.Types.{
  ActorRef, HandoffState, EventType, ReviewDecision, Handoff, EventRecord,
}
use clawside.Orchestrator.Actors.{
  is_blank, validate_system_actor, allowed, validate_transport_actor, validate_receiver_actor,
  validate_worker_actor, validate_reviewer_actor,
}
use clawside.Orchestrator.Completion.{
  is_approved, is_revision_required, requires_review, requires_submitted, required_artifact_count,
  is_valid_review_decision, hydrate_flags,
}
use clawside.Orchestrator.Machine.{
  is_submitted, StateMachine, Outcome, transition, advance, settle, apply, apply_all,
}
use clawside.Orchestrator.Machine.Graph.{state-hydrate}
use clawside.Orchestrator.Machine.Progress.{
  adapter, sent, Moves, In, Supplied, Passed, worker_allowed, receiver_allowed, reviewer_allowed,
  dispatching, receiving, claiming, starting, checkpointing, submitting, reviewing, completing,
  Closable, reviewed-Closable, submitted-Closable, checkpointed-Closable, required_same,
  hydrate-Supplied, hydrate-Returned, Judged, Returned, Judged-Passed, requires_submitted_same,
}
use clawside.Orchestrator.Machine.Review.{requires_review_same}
use clawside.Orchestrator.Machine.Trace.{
  SameTerms, SameTerms-refl, SameTerms-trans, hydrate-SameTerms, apply-SameTerms,
}

-- An event that the receiver, the reviewer or the adapter sends for itself.
pub record IsOwn (h : Handoff) (e : EventRecord) : Type 0 where
  pub alone : e.producer_actor ≡ e.subject_actor
  pub known :
      (e.subject_actor ≡ h.receiver_actor)
      ⊎ ((e.subject_actor ≡ h.reviewer_actor) ⊎ (e.subject_actor ≡ adapter))

-- Some list of such events completes the handoff of the machine.
abbrev pub Finishes : Handoff → StateMachine → Type 0
Finishes h m =
    (es : List EventRecord) × (All (IsOwn h) es
      × ((apply_all m es).0.handoff.state ≡ HandoffState.completed))

moved :
    (P : Handoff → Type 0) (m : StateMachine) (e : EventRecord)
    → Moves P e.type (hydrate_flags m.handoff) e
    → P (apply m e).0.handoff
unfolding apply settle
moved P m e (h, (same, p)) = rw same p

module _ (h : Handoff) where
  pub continue :
      (P : Handoff → Type 0) (m : StateMachine) (e : EventRecord)
      → IsOwn h e
      → SameTerms h m.handoff
      → Moves P e.type (hydrate_flags m.handoff) e
      → ((m' : StateMachine) → SameTerms h m'.handoff → P m'.handoff → Finishes h m')
      → Finishes h m
  unfolding apply_all
  continue P m e own same moves rest =
      let (es, (all, end)) =
        rest (apply m e).0 (SameTerms-trans same (apply-SameTerms m e)) (moved P m e moves) in
      (e ∷ es, ((own, all), end))

  pub by_receiver : EventType → EventRecord
  by_receiver t = sent h h.receiver_actor t ReviewDecision.unset

  pub by_reviewer : ReviewDecision → EventRecord
  by_reviewer d = sent h h.reviewer_actor EventType.reviewed d

  pub by_receiver-IsOwn : (t : EventType) → IsOwn h (by_receiver t)
  unfolding by_receiver
  by_receiver-IsOwn t = record { alone = refl; known = inl refl }

  pub by_reviewer-IsOwn : (d : ReviewDecision) → IsOwn h (by_reviewer d)
  unfolding by_reviewer
  by_reviewer-IsOwn d = record { alone = refl; known = inr (inl refl) }

module _ (h : Handoff) (m : StateMachine) (same : SameTerms h m.handoff) where
  pub next : Handoff
  next = hydrate_flags m.handoff

  pub same_next : SameTerms h next
  unfolding next
  same_next = SameTerms-trans same (hydrate-SameTerms m.handoff)

  pub may_work :
      (t : EventType) (action : String)
      → is_blank h.receiver_actor ≡ false
      → validate_worker_actor next (by_receiver h t) action ≡ none
  unfolding by_receiver
  may_work t action full =
      worker_allowed next (by_receiver h t) action
        (sym (ap is_blank same_next.receiver_actor) ∙ full) same_next.receiver_actor
        same_next.receiver_actor

  pub may_receive :
      is_blank h.receiver_actor ≡ false
      → validate_receiver_actor next (by_receiver h EventType.received) ≡ none
  unfolding by_receiver
  may_receive full =
      receiver_allowed next (by_receiver h EventType.received) ""
        (sym (ap is_blank same_next.receiver_actor) ∙ full) same_next.receiver_actor
        same_next.receiver_actor

  pub may_review :
      (d : ReviewDecision)
      → is_blank h.reviewer_actor ≡ false
      → validate_reviewer_actor next (by_reviewer h d) ≡ none
  unfolding by_reviewer
  may_review d full =
      reviewer_allowed next (by_reviewer h d) "" (sym (ap is_blank same_next.reviewer_actor) ∙ full)
        same_next.reviewer_actor same_next.reviewer_actor

  pub in_next : (s : HandoffState) → m.handoff.state ≡ s → next.state ≡ s
  unfolding next
  in_next s e = state-hydrate m.handoff ∙ e
