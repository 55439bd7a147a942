-- ===== src/Orchestrator/Store/Sound.antt =====
-- The invariant of the store: every stored handoff has flags that agree with its state, and an
-- ownership binding that is the projection of its own fields.
use clawside.Common.{
  ℕ, String, Option, none, some, List, ◌≡◌, refl, arith, eq_iff, Option-cases, inl, inr,
}
use clawside.Orchestrator.Types.{Handoff}
use clawside.Orchestrator.Records.{OwnershipBinding, ownership_binding_from_handoff}
use clawside.Orchestrator.Machine.Invariant.{IsConsistent}
use clawside.Orchestrator.Table.{find, upsert, update}
use clawside.Orchestrator.Table.Laws.{
  find_key, find-upsert_self, find-upsert_other, find-update_self, find-update_other,
}
use clawside.Orchestrator.Action.{Store, run}
use clawside.Orchestrator.Action.Rules.{Keeps}
use clawside.Orchestrator.Store.{
  handoff_key, binding_key, versioned_row, set_ownership, save_handoff, save_projected_handoff,
  save_ownership_binding,
}

pub record Sound (handoffs : List Handoff) (bindings : List OwnershipBinding) : Type 0 where
  pub consistent :
      (id : String) (h : Handoff) → find handoff_key id handoffs ≡ some h → IsConsistent h
  pub bound :
      (id : String) (h : Handoff)
      → find handoff_key id handoffs ≡ some h
      → find binding_key id bindings ≡ some (ownership_binding_from_handoff h)

abbrev pub IsSound : Store → Type 0
IsSound st = Sound st.handoffs st.ownership_bindings

module _ (handoffs : List Handoff) (bindings : List OwnershipBinding)
    (v : Sound handoffs bindings) where
  pub upsert-Sound :
      (h : Handoff)
      → IsConsistent h
      → Sound
          (upsert handoff_key h handoffs)
          (upsert binding_key (ownership_binding_from_handoff h) bindings)
  unfolding ownership_binding_from_handoff
  upsert-Sound h c =
      let b = ownership_binding_from_handoff h in
      record {
        consistent = λ id k e. ground (
          arith,
          find-upsert_self handoff_key h handoffs,
          find-upsert_other handoff_key id h handoffs,
          eq_iff id h.id,
          v.consistent id k,
        );
        bound = λ id k e. ground (
          arith,
          find-upsert_self handoff_key h handoffs,
          find-upsert_other handoff_key id h handoffs,
          eq_iff id h.id,
          v.bound id k,
          find-upsert_self binding_key b bindings,
          find-upsert_other binding_key id b bindings,
        );
      }

  -- The handoff replaces the row with its id.
  pub update-Sound :
      (h row : Handoff)
      → IsConsistent h
      → find handoff_key h.id handoffs ≡ some row
      → Sound
          (update handoff_key h.id (λ _. h) handoffs)
          (upsert binding_key (ownership_binding_from_handoff h) bindings)
  unfolding ownership_binding_from_handoff
  update-Sound h row c found =
      let b = ownership_binding_from_handoff h in
      record {
        consistent = λ id k e. ground (
          arith,
          find-update_self handoff_key h.id (λ _. h) row handoffs refl found,
          find-update_other handoff_key id h.id (λ _. h) handoffs (λ _ _. refl),
          eq_iff id h.id,
          v.consistent id k,
        );
        bound = λ id k e. ground (
          arith,
          find-update_self handoff_key h.id (λ _. h) row handoffs refl found,
          find-update_other handoff_key id h.id (λ _. h) handoffs (λ _ _. refl),
          eq_iff id h.id,
          v.bound id k,
          find-upsert_self binding_key b bindings,
          find-upsert_other binding_key id b bindings,
        );
      }

  -- The owner's columns of a row are set to those of a handoff with its id and creation time.
  pub own-Sound :
      (h row : Handoff)
      → IsConsistent (set_ownership h row)
      → h.created_at ≡ row.created_at
      → find handoff_key h.id handoffs ≡ some row
      → Sound
          (update handoff_key h.id (set_ownership h) handoffs)
          (upsert binding_key (ownership_binding_from_handoff h) bindings)
  unfolding ownership_binding_from_handoff set_ownership
  own-Sound h row c at found =
      let b = ownership_binding_from_handoff h in
      let same = find_key handoff_key h.id row handoffs found in
      record {
        consistent = λ id k e. ground (
          arith,
          find-update_self handoff_key h.id (set_ownership h) row handoffs same found,
          find-update_other handoff_key id h.id (set_ownership h) handoffs (λ _ q. q),
          eq_iff id h.id,
          v.consistent id k,
        );
        bound = λ id k e. ground (
          arith,
          same,
          find-update_self handoff_key h.id (set_ownership h) row handoffs same found,
          find-update_other handoff_key id h.id (set_ownership h) handoffs (λ _ q. q),
          eq_iff id h.id,
          v.bound id k,
          find-upsert_self binding_key b bindings,
          find-upsert_other binding_key id b bindings,
        );
      }

pub versioned_row-found :
    (h : Handoff) (version : ℕ) (o : Option Handoff) (row : Handoff)
    → versioned_row h version o ≡ some row
    → o ≡ some row
unfolding versioned_row
versioned_row-found h version none row e = cc
versioned_row-found h version (some r) row e = ground arith

pub save_handoff-Keeps : (h : Handoff) → IsConsistent h → Keeps IsSound (save_handoff h)
unfolding save_handoff save_ownership_binding run
save_handoff-Keeps h c = record {
  ends = λ s v. (upsert-Sound s.store.handoffs s.store.ownership_bindings v h c, tt);
}

pub save_projected_handoff-Keeps :
    (h : Handoff) (version : ℕ) → IsConsistent h → Keeps IsSound (save_projected_handoff h version)
unfolding save_projected_handoff save_ownership_binding run
save_projected_handoff-Keeps h version c = record {
  ends = λ s v.
      let found = find handoff_key h.id s.store.handoffs in
      elim (Option-cases (versioned_row h version found)) [
        | inl none_ ↦ rw none_ v
        | inr (row, e) ↦ rw e (
          update-Sound s.store.handoffs s.store.ownership_bindings v h row c
              (versioned_row-found h version found row e),
          tt,
        )
      ];
}
