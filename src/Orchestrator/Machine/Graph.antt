-- ===== src/Orchestrator/Machine/Graph.antt =====
-- The transition diagram of a handoff, with everything but the state left out.
use mathlib.Core.Bool.{false≢true}
use clawside.Common.{Bool, sym, true, false, ◌≡◌, ◌∙◌, ◌⊎◌, inl, inr, refl, arith, Bool-cases}
use clawside.Orchestrator.Types.{HandoffState, EventType, Handoff, EventRecord}
use clawside.Orchestrator.Completion.{
  can_transition_to_completed, can_transition_to_failed, can_transition_to_expired, hydrate_flags,
}
use clawside.Orchestrator.Machine.{
  StateMachine, Outcome, transition, reject_decision, advance, settle, apply,
}

infix 40 ◌⟶◌
pub data ◌⟶◌ : HandoffState → HandoffState → Type 0 where
  dispatch : HandoffState.created ⟶ HandoffState.dispatched
  receive : HandoffState.dispatched ⟶ HandoffState.received
  receive_undispatched : HandoffState.created ⟶ HandoffState.received
  claim : HandoffState.received ⟶ HandoffState.claimed
  start : HandoffState.claimed ⟶ HandoffState.started
  checkpoint : HandoffState.started ⟶ HandoffState.checkpointed
  checkpoint_again : HandoffState.reviewed ⟶ HandoffState.checkpointed
  submit : HandoffState.checkpointed ⟶ HandoffState.submitted
  submit_again : HandoffState.reviewed ⟶ HandoffState.submitted
  review : HandoffState.submitted ⟶ HandoffState.reviewed
  complete_plain : HandoffState.checkpointed ⟶ HandoffState.completed
  complete_submitted : HandoffState.submitted ⟶ HandoffState.completed
  complete_reviewed : HandoffState.reviewed ⟶ HandoffState.completed
  fail : {s : HandoffState} → can_transition_to_failed s ≡ true → s ⟶ HandoffState.failed
  expire : {s : HandoffState} → can_transition_to_expired s ≡ true → s ⟶ HandoffState.expired

ruleset edges = (
  dispatch, receive, receive_undispatched, claim, start, checkpoint, checkpoint_again, submit,
  submit_again, review, complete_plain, complete_submitted, complete_reviewed, fail, expire,
)

pub transition-⟶ :
    (t : EventType) (h : Handoff) (e : EventRecord) (h' : Handoff)
    → transition t h e ≡ Outcome.advanced h'
    → h.state ⟶ h'.state
unfolding transition can_transition_to_completed
transition-⟶ EventType.received h e h' eq = grind (arith, edges)
transition-⟶ t h e h' eq = grind (arith, edges)

pub state-advance : (h : Handoff) → (advance h).state ≡ h.state
unfolding advance hydrate_flags
state-advance h = ground arith

pub state-hydrate : (h : Handoff) → (hydrate_flags h).state ≡ h.state
unfolding hydrate_flags
state-hydrate h = ground arith

-- The two ways in which an event is accepted: a step of the diagram, or an observation.
abbrev pub Accepts : StateMachine → StateMachine → Type 0
Accepts m m' = (m.handoff.state ⟶ m'.handoff.state) ⊎ (m'.handoff ≡ hydrate_flags m.handoff)

settle-Accepts :
    (m : StateMachine) (o : Outcome)
    → ((h' : Handoff) → o ≡ Outcome.advanced h' → (hydrate_flags m.handoff).state ⟶ h'.state)
    → (settle m (hydrate_flags m.handoff) o).2.accepted ≡ true
    → Accepts m (settle m (hydrate_flags m.handoff) o).0
unfolding settle reject_decision
settle-Accepts m (Outcome.rejected reason) step ok = cc
settle-Accepts m Outcome.observed step ok = inr refl
settle-Accepts m (Outcome.advanced h) step ok =
    inl (rw (state-advance h) (rw (state-hydrate m.handoff) at (step h refl)))

-- An accepted event follows an edge of the diagram, or leaves the handoff as it was, up to the
-- flags that its state implies.
pub apply-Accepts :
    (m : StateMachine) (e : EventRecord) → (apply m e).2.accepted ≡ true → Accepts m (apply m e).0
unfolding apply
apply-Accepts m e ok =
    let h = hydrate_flags m.handoff in
    settle-Accepts m (transition e.type h e) (transition-⟶ e.type h e) ok

settle-rejected :
    (m : StateMachine) (h : Handoff) (o : Outcome)
    → (settle m h o).2.accepted ≡ false
    → ((settle m h o).0 ≡ m) × ((settle m h o).2.next ≡ h.state)
unfolding settle reject_decision
settle-rejected m h (Outcome.rejected reason) no_ = (refl, refl)
settle-rejected m h Outcome.observed no_ = cc
settle-rejected m h (Outcome.advanced h') no_ = cc

-- A rejected event changes nothing, and the decision names the state that stays.
apply-rejected :
    (m : StateMachine) (e : EventRecord)
    → (apply m e).2.accepted ≡ false
    → ((apply m e).0 ≡ m) × ((apply m e).2.next ≡ m.handoff.state)
unfolding apply
apply-rejected m e no_ =
    let h = hydrate_flags m.handoff in
    let (same, next) = settle-rejected m h (transition e.type h e) no_ in
    (same, next ∙ state-hydrate m.handoff)

abbrev pub is_terminal : HandoffState → Bool
is_terminal HandoffState.completed = true
is_terminal HandoffState.failed = true
is_terminal HandoffState.expired = true
is_terminal _ = false

fails_not_terminal : (s : HandoffState) → can_transition_to_failed s ≡ true → is_terminal s ≡ false
unfolding can_transition_to_failed
fails_not_terminal s p = ground arith

expires_not_terminal :
    (s : HandoffState) → can_transition_to_expired s ≡ true → is_terminal s ≡ false
unfolding can_transition_to_expired
expires_not_terminal s p = ground arith

-- No edge leaves `completed`, `failed` or `expired`.
pub terminal_no_edge : {s t : HandoffState} → s ⟶ t → is_terminal s ≡ false
terminal_no_edge (fail p) = fails_not_terminal _ p
terminal_no_edge (expire p) = expires_not_terminal _ p
terminal_no_edge dispatch = refl
terminal_no_edge _ = refl

-- A handoff that is completed, failed or expired stays as it is, up to the flags that its state
-- implies, whatever the event.
pub apply_terminal :
    (m : StateMachine) (e : EventRecord)
    → is_terminal m.handoff.state ≡ true
    → ((apply m e).0 ≡ m) ⊎ ((apply m e).0.handoff ≡ hydrate_flags m.handoff)
apply_terminal m e t = elim (Bool-cases (apply m e).2.accepted) [
  | inr no_ ↦ inl (apply-rejected m e no_).0
  | inl ok ↦ elim (apply-Accepts m e ok) [
    | inr same ↦ inr same
    | inl edge ↦ absurd (false≢true (sym (terminal_no_edge edge) ∙ t))
  ]
]
