-- ===== src/Orchestrator/Machine/Finish/Routes.antt =====
-- The routes of a handoff to its completion, from each state that it may be in.
use clawside.Common.{
  String, Bool, true, false, ◌||◌, none, [], ◌≡◌, ◌∙◌, sym, ap, refl, arith, ◌⊎◌, inl, inr,
  Bool-cases, str_eq,
}
use clawside.Orchestrator.Types.{HandoffState, EventType, ReviewDecision, Handoff}
use clawside.Orchestrator.Actors.{
  is_blank, validate_system_actor, allowed, validate_transport_actor, validate_worker_actor,
}
use clawside.Orchestrator.Completion.{
  is_revision_required, requires_review, requires_submitted, is_valid_review_decision,
}
use clawside.Orchestrator.Machine.{is_submitted, StateMachine, apply_all}
use clawside.Orchestrator.Machine.Progress.{
  adapter, sent, Moves, In, Supplied, dispatching, receiving, claiming, starting, checkpointing,
  submitting, reviewing, completing, Closable, reviewed-Closable, submitted-Closable,
  checkpointed-Closable, required_same, hydrate-Supplied, hydrate-Returned, Judged, Returned,
  Judged-Passed, requires_submitted_same,
}
use clawside.Orchestrator.Machine.Review.{requires_review_same}
use clawside.Orchestrator.Machine.Trace.{SameTerms, SameTerms-refl}
use clawside.Orchestrator.Machine.Finish.{
  Finishes, continue, by_receiver, by_reviewer, by_receiver-IsOwn, by_reviewer-IsOwn, next,
  same_next, may_work, may_receive, may_review, in_next,
}

module _ (h : Handoff) (receiver : is_blank h.receiver_actor ≡ false)
    (reviewer : requires_review h ≡ true → is_blank h.reviewer_actor ≡ false) where
  close : (m : StateMachine) → SameTerms h m.handoff → Closable m.handoff → Finishes h m
  unfolding next by_receiver apply_all
  close m same (can, ready) =
      continue h (In HandoffState.completed) m (by_receiver h EventType.completed)
        (by_receiver-IsOwn h EventType.completed) same
        (completing (next h m same) (by_receiver h EventType.completed)
          (may_work h m same EventType.completed "completed" receiver) can ready)
        (λ m' same' done. ([], (tt, done)))

  judge :
      is_blank h.reviewer_actor ≡ false
      → (d : ReviewDecision) (m : StateMachine) (same : SameTerms h m.handoff)
      → is_valid_review_decision d ≡ true
      → In HandoffState.submitted m.handoff
      → ((m' : StateMachine)
          → SameTerms h m'.handoff
          → Judged (by_reviewer h d) (next h m same) m'.handoff
          → Finishes h m')
      → Finishes h m
  unfolding next by_reviewer
  judge full d m same valid s rest =
      continue h (Judged (by_reviewer h d) (next h m same)) m (by_reviewer h d)
        (by_reviewer-IsOwn h d) same
        (reviewing (next h m same) (by_reviewer h d) (may_review h m same d full)
          (in_next h m same HandoffState.submitted s) valid)
        rest

  from_submitted :
      (m : StateMachine)
      → SameTerms h m.handoff
      → Supplied HandoffState.submitted m.handoff
      → Finishes h m
  unfolding next by_reviewer is_valid_review_decision
  from_submitted m same s = elim (Bool-cases (requires_review h)) [
    | inl yes_ ↦ judge (reviewer yes_) ReviewDecision.approved m same refl s.0 (λ m' same' j.
        close m' same' (
          reviewed-Closable m'.handoff
            (Judged-Passed (by_reviewer h ReviewDecision.approved) (next h m same) m'.handoff refl
              (hydrate-Supplied m.handoff s) j)
            (requires_review_same h m'.handoff same' ∙ yes_)))
    | inr no_ ↦
        close m same (submitted-Closable m.handoff s (requires_review_same h m.handoff same ∙ no_))
  ]

  from_checkpointed :
      (m : StateMachine)
      → SameTerms h m.handoff
      → In HandoffState.checkpointed m.handoff
      → Finishes h m
  unfolding next by_receiver
  from_checkpointed m same s = elim (Bool-cases (requires_submitted h)) [
    | inl yes_ ↦
        continue h (Supplied HandoffState.submitted) m (by_receiver h EventType.submitted)
          (by_receiver-IsOwn h EventType.submitted) same
          (submitting (next h m same) (by_receiver h EventType.submitted)
            (may_work h m same EventType.submitted "submitted" receiver)
            (in_next h m same HandoffState.checkpointed s)
            (sym (required_same (same_next h m same))))
          from_submitted
    | inr no_ ↦
        close m same (checkpointed-Closable m.handoff s (requires_submitted_same same ∙ no_))
  ]

  work :
      (t : EventType) (action : String) (P : Handoff → Type 0) (m : StateMachine)
      (same : SameTerms h m.handoff)
      → (validate_worker_actor (next h m same) (by_receiver h t) action ≡ none
          → Moves P t (next h m same) (by_receiver h t))
      → ((m' : StateMachine) → SameTerms h m'.handoff → P m'.handoff → Finishes h m')
      → Finishes h m
  unfolding next by_receiver
  work t action P m same moves rest =
      continue h P m (by_receiver h t) (by_receiver-IsOwn h t) same
        (moves (may_work h m same t action receiver)) rest

  from_returned : (m : StateMachine) → SameTerms h m.handoff → Returned m.handoff → Finishes h m
  unfolding next
  from_returned m same r =
      work EventType.checkpointed "checkpointed" (In HandoffState.checkpointed) m same
        (λ v. checkpointing _ _ v (inr (hydrate-Returned m.handoff r))) from_checkpointed

  from_started :
      (m : StateMachine) → SameTerms h m.handoff → In HandoffState.started m.handoff → Finishes h m
  from_started m same s =
      work EventType.checkpointed "checkpointed" (In HandoffState.checkpointed) m same
        (λ v. checkpointing _ _ v (inl (in_next h m same HandoffState.started s))) from_checkpointed

  from_claimed :
      (m : StateMachine) → SameTerms h m.handoff → In HandoffState.claimed m.handoff → Finishes h m
  from_claimed m same s =
      work EventType.started "started" (In HandoffState.started) m same
        (λ v. starting _ _ v (in_next h m same HandoffState.claimed s)) from_started

  from_received :
      (m : StateMachine) → SameTerms h m.handoff → In HandoffState.received m.handoff → Finishes h m
  from_received m same s =
      work EventType.claimed "claimed" (In HandoffState.claimed) m same
        (λ v. claiming _ _ v (in_next h m same HandoffState.received s)) from_claimed

  receive :
      (m : StateMachine) (same : SameTerms h m.handoff)
      → ((next h m same).state ≡ HandoffState.dispatched)
        ⊎ (((next h m same).state ≡ HandoffState.created)
            × (str_eq (next h m same).delivery_target_ref "" ≡ true))
      → Finishes h m
  unfolding next by_receiver
  receive m same ready =
      continue h (In HandoffState.received) m (by_receiver h EventType.received)
        (by_receiver-IsOwn h EventType.received) same
        (receiving (next h m same) (by_receiver h EventType.received)
          (may_receive h m same receiver) ready)
        from_received

  from_dispatched :
      (m : StateMachine)
      → SameTerms h m.handoff
      → In HandoffState.dispatched m.handoff
      → Finishes h m
  from_dispatched m same s = receive m same (inl (in_next h m same HandoffState.dispatched s))

  from_created :
      (m : StateMachine) → SameTerms h m.handoff → In HandoffState.created m.handoff → Finishes h m
  unfolding next validate_transport_actor validate_system_actor allowed
  from_created m same s = elim (Bool-cases (str_eq (next h m same).delivery_target_ref "")) [
    | inl yes_ ↦ receive m same (inr (in_next h m same HandoffState.created s, yes_))
    | inr no_ ↦
        let e = sent h adapter EventType.transport_requested ReviewDecision.unset in
        continue h (In HandoffState.dispatched) m e
          (record { alone = refl; known = inr (inr refl) }) same
          (dispatching (next h m same) e refl (in_next h m same HandoffState.created s))
          from_dispatched
  ]

  from_submission :
      is_blank h.reviewer_actor ≡ false
      → (m : StateMachine) → SameTerms h m.handoff
      → In HandoffState.submitted m.handoff
      → Finishes h m
  unfolding by_reviewer is_valid_review_decision
  from_submission full m same s =
      judge full ReviewDecision.revision_required m same refl s
        (λ m' same' j. from_returned m' same' (j.0, ap is_revision_required j.1.0))

-- Work can still be done: the handoff is not at its end, and one that was reviewed was sent back.
unfoldable pub is_underway : HandoffState → ReviewDecision → Bool
is_underway HandoffState.created decision = true
is_underway HandoffState.dispatched decision = true
is_underway HandoffState.received decision = true
is_underway HandoffState.claimed decision = true
is_underway HandoffState.started decision = true
is_underway HandoffState.checkpointed decision = true
is_underway HandoffState.submitted decision = true
is_underway HandoffState.reviewed decision = is_revision_required decision
is_underway _ decision = false

unfoldable pub needs_reviewer : Handoff → Bool
needs_reviewer h = requires_review h || is_submitted h.state

from_state :
    (h : Handoff) (s : HandoffState)
    → h.state ≡ s
    → is_blank h.receiver_actor ≡ false
    → (needs_reviewer h ≡ true → is_blank h.reviewer_actor ≡ false)
    → is_underway s h.review_decision ≡ true
    → Finishes h (record { handoff = h })
unfolding is_underway needs_reviewer
from_state h HandoffState.created e receiver reviewer u =
    from_created h receiver (λ r. reviewer (ground arith)) _ (SameTerms-refl h) e
from_state h HandoffState.dispatched e receiver reviewer u =
    from_dispatched h receiver (λ r. reviewer (ground arith)) _ (SameTerms-refl h) e
from_state h HandoffState.received e receiver reviewer u =
    from_received h receiver (λ r. reviewer (ground arith)) _ (SameTerms-refl h) e
from_state h HandoffState.claimed e receiver reviewer u =
    from_claimed h receiver (λ r. reviewer (ground arith)) _ (SameTerms-refl h) e
from_state h HandoffState.started e receiver reviewer u =
    from_started h receiver (λ r. reviewer (ground arith)) _ (SameTerms-refl h) e
from_state h HandoffState.checkpointed e receiver reviewer u =
    from_checkpointed h receiver (λ r. reviewer (ground arith)) _ (SameTerms-refl h) e
from_state h HandoffState.submitted e receiver reviewer u =
    from_submission h receiver (λ r. reviewer (ground arith)) (reviewer (ground arith)) _
      (SameTerms-refl h) e
from_state h HandoffState.reviewed e receiver reviewer u =
    from_returned h receiver (λ r. reviewer (ground arith)) _ (SameTerms-refl h) (e, u)
from_state h s e receiver reviewer u = ground arith

-- A handoff on which work can still be done, and whose receiver is named, is completed by some list
-- of events, each of which the receiver, the reviewer or the delivery adapter sends for itself; the
-- reviewer has to be named where a review is required or the handoff is submitted.
pub handoff_can_complete :
    (h : Handoff)
    → is_blank h.receiver_actor ≡ false
    → (needs_reviewer h ≡ true → is_blank h.reviewer_actor ≡ false)
    → is_underway h.state h.review_decision ≡ true
    → Finishes h (record { handoff = h })
handoff_can_complete h receiver reviewer u = from_state h h.state refl receiver reviewer u
