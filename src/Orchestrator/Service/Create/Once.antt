-- ===== src/Orchestrator/Service/Create/Once.antt =====
-- One idempotency key, one handoff.
use clawside.Common.{
  ℕ, String, true, false, some, List, [], ◌∷◌, ◌≡◌, ◌≢◌, refl, ap, ◌∙◌, eq_iff, length,
}
use clawside.Orchestrator.Types.{ActorRef, Handoff, Workflow}
use clawside.Orchestrator.Records.{Artifact, TaskCreation}
use clawside.Orchestrator.Table.{find}
use clawside.Orchestrator.Table.Laws.{str_eq_other}
use clawside.Orchestrator.Action.{Store, Service, Failure, ok, err, run, ◌>>=◌, transaction, commit}
use clawside.Orchestrator.Action.Drawing.{
  Drawn, >>=-eq, >>-eq, >>=-Drawn, pure-Drawn, new_id-Drawn, current_time-Drawn, raise_if-eq_false,
}
use clawside.Orchestrator.Store.{
  workflow_key, handoff_key, creation_key, load_workflow, load_handoff, load_task_creation,
}
use clawside.Sender.Text.{is_blank_text}
use clawside.Orchestrator.Service.Create.{
  CreateHandoffInput, CreateHandoffResult, IdempotentCreateHandoffInput,
  IdempotentCreateHandoffResult, InboundArtifactRef, new_watch, create_default_watches,
  new_root_handoff_creation, new_artifacts, has_relations, replay_creation, create_or_replay,
  create_handoff_idempotent,
}

watch-Drawn : (a b : String) (e : _) (c d : ℕ) (s : Service) → Drawn (new_watch a b e c d) s
unfolding new_watch
watch-Drawn a b e c d s = >>=-Drawn _ _ s (new_id-Drawn "watch" s) (λ id t. pure-Drawn _ t)

root-Drawn :
    (input : CreateHandoffInput) (now : ℕ) (s : Service)
    → Drawn (new_root_handoff_creation input now) s
unfolding new_root_handoff_creation create_default_watches
root-Drawn input now s = >>=-Drawn _ _ s (new_id-Drawn "wf" s) (λ workflow_id t1.
    >>=-Drawn _ _ t1 (new_id-Drawn "hf" t1) (λ id t2.
      >>=-Drawn _ _ t2
        (>>=-Drawn _ _ t2 (watch-Drawn _ _ _ _ _ t2) (λ a t3.
          >>=-Drawn _ _ t3 (watch-Drawn _ _ _ _ _ t3)
            (λ b t4. >>=-Drawn _ _ t4 (watch-Drawn _ _ _ _ _ t4) (λ c t5. pure-Drawn _ t5))))
        (λ watches t6. pure-Drawn _ t6)))

artifacts-Drawn :
    (id : String) (sender : ActorRef) (now : ℕ) (refs : List InboundArtifactRef) (s : Service)
    → Drawn (new_artifacts id sender now refs) s
unfolding new_artifacts
artifacts-Drawn id sender now [] s = pure-Drawn [] s
artifacts-Drawn id sender now (ref ∷ refs) s =
    >>=-Drawn _ _ s (new_id-Drawn "art" s)
      (λ art t. >>=-Drawn _ _ t (artifacts-Drawn id sender now refs t) (λ rest u. pure-Drawn _ u))

-- The input passes the three tests at the head of the call.
pub record IsAdmitted (input : IdempotentCreateHandoffInput) : Type 0 where
  pub keyed : is_blank_text input.idempotency_key ≡ false
  pub hashed : is_blank_text input.payload_hash ≡ false
  pub root : has_relations input.handoff ≡ false

-- A creation with the key is stored, with its workflow and its handoff.
pub record IsCreated (st : Store) (key : String) : Type 0 where
  pub creation : TaskCreation
  pub workflow : Workflow
  pub handoff : Handoff
  pub kept : find creation_key key st.a2a_inbound_task_creations ≡ some creation
  pub workflow_kept : find workflow_key creation.workflow_id st.workflows ≡ some workflow
  pub handoff_kept : find handoff_key creation.handoff_id st.handoffs ≡ some handoff

replay-same :
    (c : TaskCreation) (input : IdempotentCreateHandoffInput) (w : Workflow) (h : Handoff)
    (s : Service)
    → c.payload_hash ≡ input.payload_hash
    → find workflow_key c.workflow_id s.store.workflows ≡ some w
    → find handoff_key c.handoff_id s.store.handoffs ≡ some h
    → replay_creation c input s ≡ (
      ok (record { created = record { workflow = w; handoff = h; watches = [] }; replayed = true }),
      s,
    )
unfolding replay_creation load_workflow load_handoff run
replay-same c input w h s same ew eh =
    rw ((eq_iff c.payload_hash input.payload_hash).1 same, ew, eh) refl

replay-other :
    (c : TaskCreation) (input : IdempotentCreateHandoffInput) (s : Service)
    → c.payload_hash ≢ input.payload_hash
    → replay_creation c input s ≡ (err Failure.idempotency_conflict, s)
unfolding replay_creation run
replay-other c input s ne = rw (str_eq_other c.payload_hash input.payload_hash ne) refl

-- What is left of the call once the input is admitted: the body of the transaction, in a store that
-- is still the one of the start.
pub record Opened (input : IdempotentCreateHandoffInput) (s : Service) : Type 0 where
  pub created : CreateHandoffResult
  pub artifacts : List Artifact
  pub now : ℕ
  pub later : Service
  pub store : later.store ≡ s.store
  pub eq :
      create_handoff_idempotent input s
      ≡ transaction
          (load_task_creation input.idempotency_key >>= λ stored.
            create_or_replay input created artifacts now stored)
          later

opened : (input : IdempotentCreateHandoffInput) (s : Service) → IsAdmitted input → Opened input s
unfolding create_handoff_idempotent
opened input s a =
    let d1 = current_time-Drawn s in
    let d2 = root-Drawn input.handoff d1.result d1.later in
    let d3 =
      artifacts-Drawn d2.result.handoff.id input.handoff.sender d1.result input.artifact_refs
        d2.later in
    record {
      created = record d2.result {
        handoff = record d2.result.handoff { artifact_count = length d3.result };
      };
      artifacts = d3.result;
      now = d1.result;
      later = d3.later;
      store = d3.store ∙ d2.store ∙ d1.store;
      eq =
          >>-eq _ _ s tt s (raise_if-eq_false _ _ s a.keyed)
          ∙ >>-eq _ _ s tt s (raise_if-eq_false _ _ s a.hashed)
          ∙ >>-eq _ _ s tt s (raise_if-eq_false _ _ s a.root)
          ∙ >>=-eq _ _ s d1.result d1.later d1.eq
          ∙ >>=-eq _ _ d1.later d2.result d2.later d2.eq
          ∙ >>=-eq _ _ d2.later d3.result d3.later d3.eq;
    }

abbrev pub replayed_result : Workflow → Handoff → IdempotentCreateHandoffResult
replayed_result w h = record {
  created = record { workflow = w; handoff = h; watches = [] };
  replayed = true;
}

body-replays :
    (input : IdempotentCreateHandoffInput) (c : CreateHandoffResult) (artifacts : List Artifact)
    (now : ℕ) (s : Service) (k : IsCreated s.store input.idempotency_key)
    → (transaction
        (load_task_creation input.idempotency_key >>= λ stored.
          create_or_replay input c artifacts now stored)
        s)
      ≡ commit s.store (replay_creation k.creation input s)
unfolding transaction load_task_creation create_or_replay run
body-replays input c artifacts now s k = rw k.kept refl

-- Where a creation with the key is stored with its workflow and handoff, an admitted call with the
-- same payload returns these two, marked as replayed, and one with another payload fails with the
-- conflict of idempotency; neither writes anything.
pub create_handoff_idempotent-replays :
    (input : IdempotentCreateHandoffInput) (s : Service)
    → IsAdmitted input
    → (k : IsCreated s.store input.idempotency_key)
    → (u : Service) × (u.store ≡ s.store)
      × (k.creation.payload_hash ≡ input.payload_hash
          → create_handoff_idempotent input s ≡ (ok (replayed_result k.workflow k.handoff), u))
      × (k.creation.payload_hash ≢ input.payload_hash
          → create_handoff_idempotent input s ≡ (err Failure.idempotency_conflict, u))
unfolding commit
create_handoff_idempotent-replays input s a k =
    let o = opened input s a in
    let k' : IsCreated o.later.store input.idempotency_key = record {
      creation = k.creation;
      workflow = k.workflow;
      handoff = k.handoff;
      kept =
          ap (λ st. find creation_key input.idempotency_key st.a2a_inbound_task_creations) o.store
          ∙ k.kept;
      workflow_kept =
          ap (λ st. find workflow_key k.creation.workflow_id st.workflows) o.store
          ∙ k.workflow_kept;
      handoff_kept =
          ap (λ st. find handoff_key k.creation.handoff_id st.handoffs) o.store ∙ k.handoff_kept;
    } in
    let body = body-replays input o.created o.artifacts o.now o.later k' in
    (
      o.later,
      o.store,
      λ same.
          o.eq
          ∙ body
          ∙ ap (commit o.later.store) (
              replay-same k.creation input k.workflow k.handoff o.later same k'.workflow_kept
                k'.handoff_kept),
      λ other.
          o.eq ∙ body ∙ ap (commit o.later.store) (replay-other k.creation input o.later other),
    )
