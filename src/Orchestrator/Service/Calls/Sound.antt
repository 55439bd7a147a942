-- ===== src/Orchestrator/Service/Calls/Sound.antt =====
-- Every call keeps the invariant of the store.
use clawside.Common.{ℕ, ◌+◌, none, some, List, ◌≡◌, refl, ap, ◌∙◌, inl, inr, arith, Option-cases}
use clawside.Orchestrator.Types.{HandoffState, Handoff, EventRecord}
use clawside.Orchestrator.Records.{ownership_binding_from_handoff}
use clawside.Orchestrator.Completion.{hydrate_flags}
use clawside.Orchestrator.Machine.{new_state_machine}
use clawside.Orchestrator.Machine.Invariant.{IsConsistent, apply_all-IsConsistent}
use clawside.Orchestrator.Machine.Trace.{SameTerms, SameTerms-trans, apply_all-SameTerms}
use clawside.Orchestrator.Replay.{replay, sort_events}
use clawside.Orchestrator.Replay.Replayed.{IsFresh, new-IsConsistent, new-SameTerms}
use clawside.Orchestrator.Table.{find, update, upsert}
use clawside.Orchestrator.Table.Laws.{find_key, find-upsert_self}
use clawside.Orchestrator.Action.{Service, Store, Failure, ok, err, run}
use clawside.Orchestrator.Action.Rules.{Keeps}
use clawside.Orchestrator.Store.{
  handoff_key, binding_key, set_ownership, update_handoff_ownership, load_handoff,
  load_ownership_binding, save_ownership_binding,
}
use clawside.Orchestrator.Store.Frames.{insert_accepted_event-Keeps}
use clawside.Orchestrator.Store.Sound.{
  Sound, IsSound, save_handoff-Keeps, save_projected_handoff-Keeps, own-Sound,
}
use clawside.Orchestrator.Events.{preserve_static_handoff_fields}
use clawside.Orchestrator.Events.Sound.{
  reframe, reframe-IsConsistent, project_event-IsConsistent, load_handoff-IsConsistent,
}
use clawside.Orchestrator.Service.Create.{new_handoff}
use clawside.Orchestrator.Service.Repair.{reset_handoff, replayed_handoff}
use clawside.Orchestrator.Service.Status.{UpdateOwnershipInput, changed_ownership, update_ownership}
use clawside.Orchestrator.Service.Calls.Keeping.{IsNew, Invariant}

new-state : (h : Handoff) → IsNew h → h.state ≡ HandoffState.created
unfolding new_handoff
new-state h n = ap (λ q. q.state) n.created

IsNew-IsConsistent : (h : Handoff) → IsNew h → IsConsistent h
unfolding new_handoff hydrate_flags
IsNew-IsConsistent h n = record {
  claimed_received = λ p. ground (arith, ap (λ q. q.has_claimed) n.created);
  started_claimed = λ p. ground (arith, ap (λ q. q.has_started) n.created);
  checkpointed_started = λ p. ground (arith, ap (λ q. q.has_checkpointed) n.created);
  submitted_checkpointed = λ p. ground (arith, ap (λ q. q.has_submitted) n.created);
  reviewed_submitted = λ p. ground (arith, ap (λ q. q.has_reviewed) n.created);
  hydrated = ground (arith, new-state h n);
  decision_valid = λ p. ground (arith, new-state h n);
  completed_ready = λ p. ground (arith, new-state h n);
}

module _ (h : Handoff) (events : List EventRecord) (reset_at now : ℕ) where
  abbrev base : Handoff
  base = reset_handoff h reset_at

  base-IsFresh : IsFresh base
  unfolding reset_handoff
  base-IsFresh = record {
    new = inr refl;
    unreceived = refl;
    unclaimed = refl;
    unstarted = refl;
    uncheckpointed = refl;
    unsubmitted = refl;
    unreviewed = refl;
    unapproved = refl;
  }

  rebuilt-IsConsistent : IsConsistent (replay base events).0
  unfolding replay
  rebuilt-IsConsistent =
      apply_all-IsConsistent (new_state_machine base) (sort_events events)
        (new-IsConsistent base base-IsFresh)

  rebuilt-SameTerms : SameTerms base (replay base events).0
  unfolding replay
  rebuilt-SameTerms =
      SameTerms-trans (new-SameTerms base)
        (apply_all-SameTerms (new_state_machine base) (sort_events events))

  replayed-reframe :
      let r = replayed_handoff h events reset_at now in r ≡ reframe h r (replay base events).0
  unfolding replayed_handoff preserve_static_handoff_fields reframe reset_handoff
  replayed-reframe = ground (arith, rebuilt-SameTerms)

  replayed-IsConsistent : IsConsistent (replayed_handoff h events reset_at now)
  replayed-IsConsistent = rw replayed-reframe (reframe-IsConsistent h _ _ rebuilt-IsConsistent)

-- The input sets the owner's columns and the time of the change only.
changed-reframe :
    (input : UpdateOwnershipInput) (h : Handoff) (now : ℕ)
    → let k = changed_ownership input h now in
      set_ownership k h
      ≡ reframe h (record k { last_authoritative_event_id = h.last_authoritative_event_id }) h
unfolding changed_ownership set_ownership reframe
changed-reframe input h now = refl

-- Where the handoff is stored, its row and its binding are replaced together.
module _ (input : UpdateOwnershipInput) (s : Service) (h : Handoff) where
  abbrev pub k : Handoff
  k = changed_ownership input h (s.now s.calls)

  abbrev pub st : Store
  st = s.store

  unfoldable pub owned_store : Store
  owned_store = record st {
    handoffs = update handoff_key h.id (set_ownership k) st.handoffs;
    ownership_bindings =
        upsert binding_key (ownership_binding_from_handoff k) st.ownership_bindings;
  }

  pub update_ownership-stored :
      find handoff_key input.handoff_id st.handoffs ≡ some h
      → update_ownership input s ≡ (
        ok (ownership_binding_from_handoff k),
        record s { store = owned_store; calls = s.calls + 1 },
      )
  unfolding update_ownership load_handoff load_ownership_binding update_handoff_ownership
      save_ownership_binding owned_store changed_ownership ownership_binding_from_handoff run
  update_ownership-stored e =
      let id = find_key handoff_key input.handoff_id h st.handoffs e in
      let e' : find handoff_key h.id st.handoffs ≡ some h =
        ap (λ i. find handoff_key i st.handoffs) id ∙ e in
      rw
        (
          e,
          e',
          find-upsert_self binding_key (ownership_binding_from_handoff k) st.ownership_bindings,
        )
        refl

  changed-Sound :
      find handoff_key input.handoff_id st.handoffs ≡ some h → IsSound st → IsSound owned_store
  unfolding owned_store changed_ownership
  changed-Sound e v =
      let id = find_key handoff_key input.handoff_id h st.handoffs e in
      let e' : find handoff_key h.id st.handoffs ≡ some h =
        ap (λ i. find handoff_key i st.handoffs) id ∙ e in
      own-Sound st.handoffs st.ownership_bindings v k h
        (rw (changed-reframe input h (s.now s.calls))
          (reframe-IsConsistent h _ h (v.consistent input.handoff_id h e)))
        refl e'

pub update_ownership-missing :
    (input : UpdateOwnershipInput) (s : Service)
    → find handoff_key input.handoff_id s.store.handoffs ≡ none
    → update_ownership input s ≡ (err Failure.no_rows, s)
unfolding update_ownership load_handoff run
update_ownership-missing input s e = rw e refl

update_ownership-Keeps : (input : UpdateOwnershipInput) → Keeps IsSound (update_ownership input)
update_ownership-Keeps input = record {
  ends = λ s v. elim (Option-cases (find handoff_key input.handoff_id s.store.handoffs)) [
    | inl missing ↦ rw (update_ownership-missing input s missing) v
    | inr (h, e) ↦ rw (update_ownership-stored input s h e) (changed-Sound input s h e v, tt)
  ];
}

pub IsSound-invariant : Invariant (λ handoffs bindings events. Sound handoffs bindings) IsConsistent
IsSound-invariant = record {
  loaded = load_handoff-IsConsistent;
  inserted = λ e. insert_accepted_event-Keeps IsSound e (λ _ _ v _. v);
  projected =
      λ h e c. save_projected_handoff-Keeps _ h.state_version (project_event-IsConsistent h e c);
  created = λ h n. save_handoff-Keeps h (IsNew-IsConsistent h n);
  replayed = λ h events reset_at now c.
      save_projected_handoff-Keeps _ h.state_version (replayed-IsConsistent h events reset_at now);
  owned = update_ownership-Keeps;
}
