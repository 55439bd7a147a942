-- ===== src/Orchestrator/Machine/Review.antt =====
-- A handoff that needs a review completes only after an approval by the reviewer that it names.
use mathlib.Core.Bool.{false≢true}
use clawside.Common.{
  Bool, true, false, List, [], ◌∷◌, ◌≡◌, ◌∙◌, sym, ap, ◌⊎◌, inl, inr, refl, none, arith, Any,
  Bool-cases,
}
use clawside.Orchestrator.Types.{ActorRef, HandoffState, EventType, Handoff, EventRecord}
use clawside.Orchestrator.Actors.{same_reference, validate_reviewer_actor}
use clawside.Orchestrator.Completion.{is_approved, requires_review, hydrate_flags}
use clawside.Orchestrator.Machine.{
  StateMachine, Outcome, transition, advance, settle, apply, apply_all,
}
use clawside.Orchestrator.Machine.Invariant.{prereqs-IsReady, completed_step}
use clawside.Orchestrator.Machine.Trace.{SameTerms, hydrate-SameTerms, apply-SameTerms}

abbrev pub is_completed : HandoffState → Bool
is_completed HandoffState.completed = true
is_completed _ = false

-- Not completed, and no approval on record.
pub record IsPending (h : Handoff) : Type 0 where
  pub unapproved : is_approved h.review_decision ≡ false
  pub uncompleted : is_completed h.state ≡ false

-- An approval of `h` by the reviewer that it names.
pub record Approves (reviewer : ActorRef) (e : EventRecord) : Type 0 where
  pub reviewed : e.type ≡ EventType.reviewed
  pub approved : is_approved e.review_decision ≡ true
  pub by_reviewer : same_reference e.subject_actor reviewer ≡ true

hydrate-IsPending : (h : Handoff) → IsPending h → IsPending (hydrate_flags h)
unfolding hydrate_flags
hydrate-IsPending h p = ground arith

advance-IsPending : (h : Handoff) → IsPending h → IsPending (advance h)
unfolding advance hydrate_flags
advance-IsPending h p = ground arith

review_step :
    (h : Handoff) (e : EventRecord) (h' : Handoff)
    → transition EventType.reviewed h e ≡ Outcome.advanced h'
    → (validate_reviewer_actor h e ≡ none)
      × (h'.review_decision ≡ e.review_decision)
      × (is_completed h'.state ≡ false)
unfolding transition
review_step h e h' eq = ground arith

validated_reviewer :
    (h : Handoff) (e : EventRecord)
    → validate_reviewer_actor h e ≡ none
    → same_reference e.subject_actor h.reviewer_actor ≡ true
unfolding validate_reviewer_actor
validated_reviewer h e v = ground arith

-- The only way out of `IsPending` is an approval.
IsPending-step :
    (t : EventType) (h : Handoff) (e : EventRecord) (h' : Handoff)
    → requires_review h ≡ true
    → IsPending h
    → e.type ≡ t
    → transition t h e ≡ Outcome.advanced h'
    → Approves h.reviewer_actor e ⊎ IsPending h'
unfolding transition
IsPending-step EventType.reviewed h e h' r p k eq =
    let (v, decided, open_) = review_step h e h' eq in
    elim (Bool-cases (is_approved e.review_decision)) [
      | inl y ↦ inl (record { reviewed = k; approved = y; by_reviewer = validated_reviewer h e v })
      | inr n ↦ inr (record { unapproved = rw decided n; uncompleted = open_ })
    ]
IsPending-step EventType.completed h e h' r p k eq =
    let (_, ready) = completed_step h e h' eq in
    absurd (false≢true (sym p.unapproved ∙ (prereqs-IsReady h ready).approved r))
IsPending-step t h e h' r p k eq = inr (ground arith)

pub requires_review_same : (a b : Handoff) → SameTerms a b → requires_review b ≡ requires_review a
unfolding requires_review
requires_review_same a b s = rw (s.task_kind, s.needs_review)

module _ (m : StateMachine) (e : EventRecord) where
  settle-IsPending :
      (reviewer : ActorRef) (o : Outcome)
      → IsPending m.handoff
      → ((h' : Handoff) → o ≡ Outcome.advanced h' → Approves reviewer e ⊎ IsPending h')
      → Approves reviewer e ⊎ IsPending (settle m (hydrate_flags m.handoff) o).0.handoff
  unfolding settle
  settle-IsPending reviewer (Outcome.rejected reason) p step = inr p
  settle-IsPending reviewer Outcome.observed p step = inr (hydrate-IsPending m.handoff p)
  settle-IsPending reviewer (Outcome.advanced h) p step = elim (step h refl) [
    | inl yes_ ↦ inl yes_
    | inr q ↦ inr (advance-IsPending h q)
  ]

  apply-IsPending :
      requires_review m.handoff ≡ true
      → IsPending m.handoff
      → Approves m.handoff.reviewer_actor e ⊎ IsPending (apply m e).0.handoff
  unfolding apply
  apply-IsPending r p =
      let h = hydrate_flags m.handoff in
      let same = hydrate-SameTerms m.handoff in
      settle-IsPending m.handoff.reviewer_actor (transition e.type h e) p (λ h' eq.
        rw same.reviewer_actor (
          IsPending-step e.type h e h' (requires_review_same m.handoff h same ∙ r)
            (hydrate-IsPending m.handoff p) refl eq))

-- A handoff that needs a review, and is neither approved nor completed, is completed by a list of
-- events only if one of them is a review that approves, whose subject is the named reviewer.
pub completed_needs_approval :
    (m : StateMachine) (es : List EventRecord)
    → requires_review m.handoff ≡ true
    → IsPending m.handoff
    → (apply_all m es).0.handoff.state ≡ HandoffState.completed
    → Any (Approves m.handoff.reviewer_actor) es
unfolding apply_all
completed_needs_approval m [] r p c = absurd (false≢true (sym p.uncompleted ∙ ap is_completed c))
completed_needs_approval m (e ∷ es) r p c = elim (apply-IsPending m e r p) [
  | inl approval ↦ Any.head approval
  | inr q ↦
      let same = apply-SameTerms m e in
      Any.tail (
        rw same.reviewer_actor (
          completed_needs_approval (apply m e).0 es
            (requires_review_same m.handoff (apply m e).0.handoff same ∙ r) q c))
]
