-- ===== src/Orchestrator/Service/Create/First.antt =====
-- What the first call with an idempotency key leaves behind, and the second call returns.
use clawside.Common.{
  ℕ, String, Option, none, some, List, ◌≡◌, refl, sym, ap, ◌∙◌, arith, eq_iff, Option-cases, inl,
  inr,
}
use clawside.Orchestrator.Types.{Handoff, Workflow}
use clawside.Orchestrator.Records.{Artifact, TaskCreation, Watch}
use clawside.Orchestrator.Table.{find, insert_row}
use clawside.Orchestrator.Table.Laws.{find-upsert_self, find-insert_self}
use clawside.Orchestrator.Action.{Store, Service, Failure, ok, run, for_each}
use clawside.Orchestrator.Action.Rules.{for_each-Keeps}
use clawside.Orchestrator.Action.Inversion.{
  Returns, >>=-Returns, >>-Returns, pure-Returns, or_raise-Returns, transaction-Returns,
  raise_if-Returns, store_of-Returns, Keeps-Returns,
}
use clawside.Orchestrator.Store.{
  workflow_key, handoff_key, creation_key, load_workflow, load_task_creation, save_workflow,
  save_handoff, save_ownership_binding, save_artifact, save_watch, save_task_creation,
}
use clawside.Orchestrator.Store.Frames.{save_artifact-Keeps, save_watch-Keeps}
use clawside.Orchestrator.Events.Accepted.{load_handoff-Returns}
use clawside.Orchestrator.Service.Create.{
  CreateHandoffResult, IdempotentCreateHandoffInput, IdempotentCreateHandoffResult, task_creation,
  replay_creation, store_creation, create_or_replay, create_handoff_idempotent,
}
use clawside.Orchestrator.Service.Create.Once.{
  IsAdmitted, replayed_result, create_handoff_idempotent-replays,
}

-- The creation that a result stands for is stored.
pub record IsKept (st : Store) (input : IdempotentCreateHandoffInput) (w : Workflow) (h : Handoff)
    : Type 0 where
  pub creation : TaskCreation
  pub hashed : creation.payload_hash ≡ input.payload_hash
  pub kept : find creation_key input.idempotency_key st.a2a_inbound_task_creations ≡ some creation
  pub workflow_kept : find workflow_key creation.workflow_id st.workflows ≡ some w
  pub handoff_kept : find handoff_key creation.handoff_id st.handoffs ≡ some h

save_workflow-Returns :
    (w : Workflow) {u : _} {s t : Service}
    → Returns (save_workflow w) s u t
    → find workflow_key w.id t.store.workflows ≡ some w
unfolding save_workflow run
save_workflow-Returns w {s = s} {t = t} r =
    let q = ap (λ x. x.1.store.workflows) r.eq in
    ap (find workflow_key w.id) (sym q) ∙ find-upsert_self workflow_key w s.store.workflows

save_handoff-Returns :
    (h : Handoff) {u : _} {s t : Service}
    → Returns (save_handoff h) s u t
    → (find handoff_key h.id t.store.handoffs ≡ some h) × (t.store.workflows ≡ s.store.workflows)
unfolding save_handoff save_ownership_binding run
save_handoff-Returns h {s = s} {t = t} r =
    let q = ap (λ x. x.1.store.handoffs) r.eq in
    (
      ap (find handoff_key h.id) (sym q) ∙ find-upsert_self handoff_key h s.store.handoffs,
      ap (λ x. x.1.store.workflows) (sym r.eq),
    )

save_task_creation-Returns :
    (c : TaskCreation) {u : _} {s t : Service}
    → Returns (save_task_creation c) s u t
    → (find creation_key c.idempotency_key t.store.a2a_inbound_task_creations ≡ some c)
      × (t.store.workflows ≡ s.store.workflows)
      × (t.store.handoffs ≡ s.store.handoffs)
unfolding save_task_creation run
save_task_creation-Returns c {u = u} {s = s} {t = t} r =
    let q = r.eq in
    elim (Option-cases (insert_row creation_key c s.store.a2a_inbound_task_creations)) [
      | inl taken ↦ absurd (ground (arith, taken))
      | inr (rows, g) ↦
          ground
            (arith, g, find-insert_self creation_key c s.store.a2a_inbound_task_creations rows g)
    ]

-- The two tables are those of an earlier store.
abbrev Same : Store → Store → Type 0
Same before st = (st.workflows ≡ before.workflows) × (st.handoffs ≡ before.handoffs)

rows-Same :
    (artifacts : List Artifact) (watches : List Watch) {u v : _} {s t w : Service}
    → Returns (for_each artifacts save_artifact) s u t
    → Returns (for_each watches save_watch) t v w
    → Same s.store w.store
rows-Same artifacts watches {s = s} r1 r2 =
    let P = Same s.store in
    Keeps-Returns P (for_each-Keeps P watches (λ x. save_watch-Keeps P (λ _ _ p. p) x)) r2 (
      Keeps-Returns P (for_each-Keeps P artifacts (λ x. save_artifact-Keeps P (λ _ _ p. p) x)) r1
        (refl, refl))

store_creation-IsKept :
    (input : IdempotentCreateHandoffInput) (c : CreateHandoffResult) (artifacts : List Artifact)
    (now : ℕ) {r : IdempotentCreateHandoffResult} {s t : Service}
    → Returns (store_creation input c artifacts now) s r t
    → IsKept t.store input r.created.workflow r.created.handoff
unfolding store_creation task_creation
store_creation-IsKept input c artifacts now r =
    let (_, s1, r1, q1) = >>-Returns r in
    let (_, s2, r2, q2) = >>-Returns q1 in
    let (_, s3, r3, q3) = >>-Returns q2 in
    let (_, s4, r4, q4) = >>-Returns q3 in
    let (_, s5, r5, q5) = >>-Returns q4 in
    let (e6, e7) = pure-Returns q5 in
    let (h_kept, w_same) = save_handoff-Returns c.handoff r2 in
    let (w_rows, h_rows) = rows-Same artifacts c.watches r3 r4 in
    let creation = task_creation input c now in
    let (c_kept, w_last, h_last) = save_task_creation-Returns creation r5 in
    let last = ap (λ x. x.store) (sym e7) in
    record {
      creation = creation;
      hashed = refl;
      kept =
          ap (λ st. find creation_key input.idempotency_key st.a2a_inbound_task_creations) last
          ∙ c_kept;
      workflow_kept =
          ap (λ st. find workflow_key c.workflow.id st.workflows) last
          ∙ ap (find workflow_key c.workflow.id) (w_last ∙ w_rows ∙ w_same)
          ∙ save_workflow-Returns c.workflow r1
          ∙ ap (λ x. some x.created.workflow) e6;
      handoff_kept =
          ap (λ st. find handoff_key c.handoff.id st.handoffs) last
          ∙ ap (find handoff_key c.handoff.id) (h_last ∙ h_rows)
          ∙ h_kept
          ∙ ap (λ x. some x.created.handoff) e6;
    }

load_workflow-Returns :
    (id : String) {w : Workflow} {s t : Service}
    → Returns (load_workflow id) s w t
    → (find workflow_key id s.store.workflows ≡ some w) × (s ≡ t)
unfolding load_workflow
load_workflow-Returns id r =
    let (st, a, r1, r2) = >>=-Returns r in
    let (e1, s1) = store_of-Returns r1 in
    let (e2, s2) = or_raise-Returns Failure.no_rows r2 in (rw e1 e2, s1 ∙ s2)

-- A call that finds a creation returns it and leaves the store alone.
replay_creation-IsKept :
    (input : IdempotentCreateHandoffInput) (c : TaskCreation) {r : IdempotentCreateHandoffResult}
    {s t : Service}
    → find creation_key input.idempotency_key s.store.a2a_inbound_task_creations ≡ some c
    → Returns (replay_creation c input) s r t
    → IsKept t.store input r.created.workflow r.created.handoff
unfolding replay_creation
replay_creation-IsKept input c kept r =
    let (_, s1, r1, q1) = >>-Returns r in
    let (w, s2, r2, q2) = >>=-Returns q1 in
    let (h, s3, r3, q3) = >>=-Returns q2 in
    let (same, e1) = raise_if-Returns _ r1 in
    let (w_kept, e2) = load_workflow-Returns c.workflow_id r2 in
    let (h_kept, e3) = load_handoff-Returns c.handoff_id r3 in
    let (e4, e5) = pure-Returns q3 in
    let last = ap (λ x. x.store) (sym (e3 ∙ e5)) in
    record {
      creation = c;
      hashed = (eq_iff c.payload_hash input.payload_hash).0 (ground (arith, same));
      kept =
          ap (λ st. find creation_key input.idempotency_key st.a2a_inbound_task_creations)
            (last ∙ ap (λ x. x.store) (sym (e1 ∙ e2)))
          ∙ kept;
      workflow_kept =
          ap (λ st. find workflow_key c.workflow_id st.workflows)
            (last ∙ ap (λ x. x.store) (sym e2))
          ∙ w_kept
          ∙ ap (λ x. some x.created.workflow) e4;
      handoff_kept =
          ap (λ st. find handoff_key c.handoff_id st.handoffs) last
          ∙ h_kept
          ∙ ap (λ x. some x.created.handoff) e4;
    }

create_or_replay-IsKept :
    (input : IdempotentCreateHandoffInput) (c : CreateHandoffResult) (artifacts : List Artifact)
    (now : ℕ) (stored : Option TaskCreation) {r : IdempotentCreateHandoffResult} {s t : Service}
    → find creation_key input.idempotency_key s.store.a2a_inbound_task_creations ≡ stored
    → Returns (create_or_replay input c artifacts now stored) s r t
    → IsKept t.store input r.created.workflow r.created.handoff
unfolding create_or_replay
create_or_replay-IsKept input c artifacts now none e r =
    store_creation-IsKept input c artifacts now r
create_or_replay-IsKept input c artifacts now (some stored) e r =
    replay_creation-IsKept input stored e r

load_task_creation-Returns :
    (key : String) {o : Option TaskCreation} {s t : Service}
    → Returns (load_task_creation key) s o t
    → find creation_key key t.store.a2a_inbound_task_creations ≡ o
unfolding load_task_creation
load_task_creation-Returns key r =
    let (st, a, r1, r2) = >>=-Returns r in
    let (e1, s1) = store_of-Returns r1 in
    let (e2, s2) = pure-Returns r2 in
    ap (λ x. find creation_key key x.store.a2a_inbound_task_creations) (sym (s1 ∙ s2))
    ∙ ap (λ x. find creation_key key x.a2a_inbound_task_creations) e1
    ∙ e2

pub created-IsKept :
    (input : IdempotentCreateHandoffInput) (r : IdempotentCreateHandoffResult) (s t : Service)
    → create_handoff_idempotent input s ≡ (ok r, t)
    → IsAdmitted input × IsKept t.store input r.created.workflow r.created.handoff
unfolding create_handoff_idempotent
created-IsKept input r s t q =
    let r0 : Returns (create_handoff_idempotent input) s r t = record { eq = q } in
    let (_, s1, r1, q1) = >>-Returns r0 in
    let (_, s2, r2, q2) = >>-Returns q1 in
    let (_, s3, r3, q3) = >>-Returns q2 in
    let (now, s4, r4, q4) = >>=-Returns q3 in
    let (root, s5, r5, q5) = >>=-Returns q4 in
    let (artifacts, s6, r6, q6) = >>=-Returns q5 in
    let (stored, s7, r7, q7) = >>=-Returns (transaction-Returns q6) in
    (
      record {
        keyed = (raise_if-Returns _ r1).0;
        hashed = (raise_if-Returns _ r2).0;
        root = (raise_if-Returns _ r3).0;
      },
      create_or_replay-IsKept input _ artifacts now stored
          (load_task_creation-Returns input.idempotency_key r7) q7,
    )

-- A call that succeeded, made once more in the store that it left, returns the same workflow and the
-- same handoff, marked as replayed, and writes nothing.
pub create_handoff_idempotent-again :
    (input : IdempotentCreateHandoffInput) (r : IdempotentCreateHandoffResult) (s t : Service)
    → create_handoff_idempotent input s ≡ (ok r, t)
    → (u : Service) × (create_handoff_idempotent input t
        ≡ (ok (replayed_result r.created.workflow r.created.handoff), u))
      × (u.store ≡ t.store)
create_handoff_idempotent-again input r s t q =
    let (admitted, k) = created-IsKept input r s t q in
    let (u, same, replays, conflicts) = create_handoff_idempotent-replays input t admitted (record {
      creation = k.creation;
      workflow = r.created.workflow;
      handoff = r.created.handoff;
      kept = k.kept;
      workflow_kept = k.workflow_kept;
      handoff_kept = k.handoff_kept;
    }) in
    (u, replays k.hashed, same)
