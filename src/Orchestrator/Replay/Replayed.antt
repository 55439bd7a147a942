-- ===== src/Orchestrator/Replay/Replayed.antt =====
-- What a replay of stored events guarantees, in whatever order they were stored.
use clawside.Common.{
  suc, Bool, true, false, List, [], ◌∷◌, ◌≡◌, ◌∙◌, ap, refl, ◌⊎◌, inl, inr, if◌then◌else◌, arith,
  length, Any,
}
use clawside.Orchestrator.Types.{HandoffState, Handoff, EventRecord}
use clawside.Orchestrator.Completion.{requires_review, hydrate_flags, is_approved}
use clawside.Orchestrator.Machine.{StateMachine, new_state_machine, apply, apply_all}
use clawside.Orchestrator.Machine.Invariant.{IsConsistent}
use clawside.Orchestrator.Machine.Review.{
  IsPending, Approves, requires_review_same, completed_needs_approval,
}
use clawside.Orchestrator.Machine.Trace.{SameTerms, SameTerms-trans, hydrate-SameTerms}
use clawside.Orchestrator.Replay.{before, insert, sort_events, replay}

-- Nothing has happened to the handoff yet.
pub record IsFresh (h : Handoff) : Type 0 where
  pub new : (h.state ≡ HandoffState.unset) ⊎ (h.state ≡ HandoffState.created)
  pub unreceived : h.has_received ≡ false
  pub unclaimed : h.has_claimed ≡ false
  pub unstarted : h.has_started ≡ false
  pub uncheckpointed : h.has_checkpointed ≡ false
  pub unsubmitted : h.has_submitted ≡ false
  pub unreviewed : h.has_reviewed ≡ false
  pub unapproved : is_approved h.review_decision ≡ false

pub new-IsConsistent : (h : Handoff) → IsFresh h → IsConsistent (new_state_machine h).handoff
unfolding new_state_machine hydrate_flags
new-IsConsistent h f = elim f.new [ inl u ↦ ground arith | inr c ↦ ground arith ]

new-IsPending : (h : Handoff) → IsFresh h → IsPending (new_state_machine h).handoff
unfolding new_state_machine hydrate_flags
new-IsPending h f = elim f.new [ inl u ↦ ground arith | inr c ↦ ground arith ]

pub new-SameTerms : (h : Handoff) → SameTerms h (new_state_machine h).handoff
unfolding new_state_machine
new-SameTerms h = SameTerms-trans (ground arith) (hydrate-SameTerms (record h { state = _ }))

module _ {ℓ} {P : EventRecord → Type ℓ} where
  Any-swap :
      (b : Bool) (e x : EventRecord) (rest es : List EventRecord)
      → (Any P rest → Any P (e ∷ es))
      → Any P (if b then x ∷ rest else e ∷ x ∷ es)
      → Any P (e ∷ x ∷ es)
  Any-swap false e x rest es ih a = a
  Any-swap true e x rest es ih (Any.head p) = Any.tail (Any.head p)
  Any-swap true e x rest es ih (Any.tail q) = elim (ih q) [
    | Any.head p ↦ Any.head p
    | Any.tail t ↦ Any.tail (Any.tail t)
  ]

  Any-insert : (e : EventRecord) (es : List EventRecord) → Any P (insert e es) → Any P (e ∷ es)
  unfolding insert
  Any-insert e [] a = a
  Any-insert e (x ∷ es) a = Any-swap (before x e) e x (insert e es) es (λ q. Any-insert e es q) a

  Any-sort : (es : List EventRecord) → Any P (sort_events es) → Any P es
  unfolding sort_events
  Any-sort [] a = a
  Any-sort (e ∷ es) a = elim (Any-insert e (sort_events es) a) [
    | Any.head p ↦ Any.head p
    | Any.tail q ↦ Any.tail (Any-sort es q)
  ]

length-insert : (e : EventRecord) (es : List EventRecord) → length (insert e es) ≡ suc (length es)
unfolding insert
length-insert e [] = refl
length-insert e (x ∷ es) = ground (arith, length-insert e es)

length-sort : (es : List EventRecord) → length (sort_events es) ≡ length es
unfolding sort_events
length-sort [] = refl
length-sort (e ∷ es) = length-insert e (sort_events es) ∙ ap suc (length-sort es)

decisions-length :
    (m : StateMachine) (es : List EventRecord) → length (apply_all m es).1 ≡ length es
unfolding apply_all
decisions-length m [] = refl
decisions-length m (e ∷ es) = ap suc (decisions-length (apply m e).0 es)

-- A replay gives one decision for each stored event.
pub replay-decisions : (h : Handoff) (es : List EventRecord) → length (replay h es).1 ≡ length es
unfolding replay
replay-decisions h es = decisions-length (new_state_machine h) (sort_events es) ∙ length-sort es

-- Where the replay of a fresh handoff that needs a review ends completed, the stored events hold a review that approves, whose subject is the reviewer that the handoff names.
pub replay_needs_approval :
    (h : Handoff) (es : List EventRecord)
    → IsFresh h
    → requires_review h ≡ true
    → (replay h es).0.state ≡ HandoffState.completed
    → Any (Approves h.reviewer_actor) es
unfolding replay
replay_needs_approval h es f r c =
    let same = new-SameTerms h in
    Any-sort es (
      rw same.reviewer_actor (
        completed_needs_approval (new_state_machine h) (sort_events es)
          (requires_review_same h (new_state_machine h).handoff same ∙ r) (new-IsPending h f) c))
