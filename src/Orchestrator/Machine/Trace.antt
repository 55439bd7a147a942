-- ===== src/Orchestrator/Machine/Trace.antt =====
-- What holds of a handoff after a whole list of events: what stays finished, and what no event
-- writes.
use clawside.Common.{true, List, [], ◌∷◌, ◌≡◌, ◌∙◌, ap, inl, inr, refl, arith}
use clawside.Orchestrator.Types.{EventType, Handoff, EventRecord}
use clawside.Orchestrator.Completion.{hydrate_flags}
use clawside.Orchestrator.Machine.{
  StateMachine, Outcome, transition, advance, settle, apply, apply_all,
}
use clawside.Orchestrator.Machine.Graph.{is_terminal, apply_terminal}

-- The fields that no event writes.
pub record SameTerms (a b : Handoff) : Type 0 where
  pub id : a.id ≡ b.id
  pub workflow_id : a.workflow_id ≡ b.workflow_id
  pub depends_on_handoff_ids : a.depends_on_handoff_ids ≡ b.depends_on_handoff_ids
  pub task_kind : a.task_kind ≡ b.task_kind
  pub delivery_target_ref : a.delivery_target_ref ≡ b.delivery_target_ref
  pub artifact_policy : a.artifact_policy ≡ b.artifact_policy
  pub needs_review : a.needs_review ≡ b.needs_review
  pub producer_actor : a.producer_actor ≡ b.producer_actor
  pub sender_actor : a.sender_actor ≡ b.sender_actor
  pub receiver_actor : a.receiver_actor ≡ b.receiver_actor
  pub reviewer_actor : a.reviewer_actor ≡ b.reviewer_actor
  pub subject_actor : a.subject_actor ≡ b.subject_actor

pub SameTerms-refl : (a : Handoff) → SameTerms a a
SameTerms-refl a = ground arith

pub SameTerms-trans : {a b c : Handoff} → SameTerms a b → SameTerms b c → SameTerms a c
SameTerms-trans p q = ground arith

pub hydrate-SameTerms : (a : Handoff) → SameTerms a (hydrate_flags a)
unfolding hydrate_flags
hydrate-SameTerms a = ground arith

advance-SameTerms : (a : Handoff) → SameTerms a (advance a)
unfolding advance
advance-SameTerms a =
    SameTerms-trans (ground arith) (hydrate-SameTerms (record a { state_version = _ }))

transition-SameTerms :
    (t : EventType) (h : Handoff) (e : EventRecord) (h' : Handoff)
    → transition t h e ≡ Outcome.advanced h'
    → SameTerms h h'
unfolding transition
transition-SameTerms EventType.received h e h' eq = ground arith
transition-SameTerms t h e h' eq = ground arith

settle-SameTerms :
    (m : StateMachine) (o : Outcome)
    → ((h' : Handoff) → o ≡ Outcome.advanced h' → SameTerms (hydrate_flags m.handoff) h')
    → SameTerms m.handoff (settle m (hydrate_flags m.handoff) o).0.handoff
unfolding settle
settle-SameTerms m (Outcome.rejected reason) step = SameTerms-refl m.handoff
settle-SameTerms m Outcome.observed step = hydrate-SameTerms m.handoff
settle-SameTerms m (Outcome.advanced h) step =
    SameTerms-trans (hydrate-SameTerms m.handoff)
      (SameTerms-trans (step h refl) (advance-SameTerms h))

pub apply-SameTerms :
    (m : StateMachine) (e : EventRecord) → SameTerms m.handoff (apply m e).0.handoff
unfolding apply
apply-SameTerms m e =
    let h = hydrate_flags m.handoff in
    settle-SameTerms m (transition e.type h e) (transition-SameTerms e.type h e)

-- No list of events changes the ids of a handoff, its dependencies, its task kind, its target, its
-- artifact policy, whether it needs a review, or the producer, sender, receiver, reviewer and
-- subject that it names.
pub apply_all-SameTerms :
    (m : StateMachine) (es : List EventRecord) → SameTerms m.handoff (apply_all m es).0.handoff
unfolding apply_all
apply_all-SameTerms m [] = SameTerms-refl m.handoff
apply_all-SameTerms m (e ∷ es) =
    SameTerms-trans (apply-SameTerms m e) (apply_all-SameTerms (apply m e).0 es)

hydrated_terminal :
    (m : StateMachine) (e : EventRecord)
    → is_terminal m.handoff.state ≡ true
    → hydrate_flags m.handoff ≡ m.handoff
    → (apply m e).0.handoff ≡ m.handoff
hydrated_terminal m e t c = elim (apply_terminal m e t) [
  | inl same ↦ ap (λ (n : StateMachine). n.handoff) same
  | inr same ↦ same ∙ c
]

-- A completed, failed or expired handoff whose flags agree with its state is left exactly as it is
-- by every list of events.
pub terminal_absorbs :
    (m : StateMachine) (es : List EventRecord)
    → is_terminal m.handoff.state ≡ true
    → hydrate_flags m.handoff ≡ m.handoff
    → (apply_all m es).0.handoff ≡ m.handoff
unfolding apply_all
terminal_absorbs m [] t c = refl
terminal_absorbs m (e ∷ es) t c =
    let same = hydrated_terminal m e t c in
    terminal_absorbs (apply m e).0 es (rw same t) (rw same c) ∙ same
