-- ===== src/Orchestrator/Service/Calls/Created.antt =====
-- The calls that create a handoff keep what the few statements keep.
use clawside.Common.{ℕ, String, Option, none, some, List, refl}
use clawside.Orchestrator.Types.{Handoff}
use clawside.Orchestrator.Records.{Watch, Artifact, TaskCreation}
use clawside.Orchestrator.Action.{Store, for_each}
use clawside.Orchestrator.Action.Rules.{
  Meets, Keeps, Anything, pure-Keeps, transaction-Meets, then-Keeps, bind-Keeps, >>=-Meets,
  pure-Meets, raise_if-Keeps, current_time-Keeps, new_id-Keeps, for_each-Keeps, store_of-Meets,
}
use clawside.Orchestrator.Store.{save_watch}
use clawside.Orchestrator.Store.Frames.{
  load_handoff-Keeps, load_workflow-Keeps, load_task_creation-Keeps, save_workflow-Keeps,
  save_artifact-Keeps, save_task_creation-Keeps, save_watch-Keeps,
}
use clawside.Orchestrator.Service.Related.{load_related_handoff}
use clawside.Orchestrator.Service.Create.{
  CreateHandoffInput, CreateHandoffResult, IdempotentCreateHandoffInput, new_handoff,
  new_root_handoff_creation, save_creation, create_handoff, replay_creation, store_creation,
  create_or_replay, create_handoff_idempotent, check_parent, append_handoff_tx, append_handoff,
}
use clawside.Orchestrator.Service.Create.Frames.{create_default_watches-Keeps, new_artifacts-Keeps}
use clawside.Orchestrator.Service.Calls.Keeping.{Tables, OnTables, IsNew, Invariant}

module _ (R : Tables) (Q : Handoff → Type 0) (inv : Invariant R Q) where
  abbrev P : Store → Type 0
  P = OnTables R

  -- The handoff of a creation is new.
  root-Meets :
      (input : CreateHandoffInput) (now : ℕ)
      → Meets P (λ c. IsNew c.handoff) (new_root_handoff_creation input now)
  unfolding new_root_handoff_creation new_handoff
  root-Meets input now =
      >>=-Meets P Anything (λ c. IsNew c.handoff) (new_id-Keeps P "wf")
        (λ workflow_id _.
          >>=-Meets P Anything (λ c. IsNew c.handoff) (new_id-Keeps P "hf")
            (λ id _.
              >>=-Meets P Anything (λ c. IsNew c.handoff) (create_default_watches-Keeps P _ now)
                (λ watches _.
                  pure-Meets P (λ c. IsNew c.handoff) _
                    (record {
                      input = input;
                      workflow_id = workflow_id;
                      workflow_kind = input.workflow_kind;
                      now = now;
                      created = refl;
                    }))))

  save_watches-Keeps : (watches : List Watch) → Keeps P (for_each watches save_watch)
  save_watches-Keeps watches = for_each-Keeps P watches (λ w. save_watch-Keeps P (λ _ _ p. p) w)

  pub create_handoff-Keeps : (input : CreateHandoffInput) → Keeps P (create_handoff input)
  unfolding create_handoff save_creation
  create_handoff-Keeps input = then-Keeps P (raise_if-Keeps P _ _) (
      bind-Keeps P {Q = Anything} (current_time-Keeps P) (λ now _.
        bind-Keeps P (root-Meets input now) (λ c new. transaction-Meets P Anything (
          then-Keeps P
            (then-Keeps P (save_workflow-Keeps P (λ _ _ p. p) c.workflow)
              (then-Keeps P (inv.created c.handoff new) (save_watches-Keeps c.watches)))
            (pure-Keeps P c)))))

  create_or_replay-Keeps :
      (input : IdempotentCreateHandoffInput) (c : CreateHandoffResult) (artifacts : List Artifact)
      (now : ℕ) (stored : Option TaskCreation)
      → IsNew c.handoff
      → Keeps P (create_or_replay input c artifacts now stored)
  unfolding create_or_replay replay_creation store_creation
  create_or_replay-Keeps input c artifacts now (some stored) new =
      then-Keeps P (raise_if-Keeps P _ _) (
        bind-Keeps P {Q = Anything} (load_workflow-Keeps P stored.workflow_id) (λ w _.
          bind-Keeps P {Q = Anything} (load_handoff-Keeps P stored.handoff_id)
            (λ h _. pure-Keeps P _)))
  create_or_replay-Keeps input c artifacts now none new =
      then-Keeps P (save_workflow-Keeps P (λ _ _ p. p) c.workflow) (
        then-Keeps P (inv.created c.handoff new) (
          then-Keeps P (for_each-Keeps P artifacts (λ a. save_artifact-Keeps P (λ _ _ p. p) a)) (
            then-Keeps P (save_watches-Keeps c.watches)
              (then-Keeps P (save_task_creation-Keeps P (λ _ _ p. p) _) (pure-Keeps P _)))))

  pub create_handoff_idempotent-Keeps :
      (input : IdempotentCreateHandoffInput) → Keeps P (create_handoff_idempotent input)
  unfolding create_handoff_idempotent
  create_handoff_idempotent-Keeps input = then-Keeps P (raise_if-Keeps P _ _) (
      then-Keeps P (raise_if-Keeps P _ _) (
        then-Keeps P (raise_if-Keeps P _ _) (
          bind-Keeps P {Q = Anything} (current_time-Keeps P) (λ now _.
            bind-Keeps P (root-Meets input.handoff now) (λ c new.
              bind-Keeps P {Q = Anything} (new_artifacts-Keeps P _ _ now input.artifact_refs)
                (λ artifacts _. transaction-Meets P Anything (
                  bind-Keeps P {Q = Anything} (load_task_creation-Keeps P input.idempotency_key)
                    (λ stored _. create_or_replay-Keeps input _ artifacts now stored (record {
                      input = new.input;
                      workflow_id = new.workflow_id;
                      workflow_kind = new.workflow_kind;
                      now = new.now;
                      created = new.created;
                    })))))))))

  pub related-Keeps : (id workflow_id : String) → Keeps P (load_related_handoff id workflow_id)
  unfolding load_related_handoff
  related-Keeps id workflow_id = then-Keeps P (raise_if-Keeps P _ _) (
      bind-Keeps P {Q = Anything} (load_handoff-Keeps P id)
        (λ h _. then-Keeps P (raise_if-Keeps P _ _) (pure-Keeps P h)))

  check_parent-Keeps :
      (parent : Option String) (workflow_id : String) → Keeps P (check_parent parent workflow_id)
  unfolding check_parent
  check_parent-Keeps none workflow_id = pure-Keeps P tt
  check_parent-Keeps (some id) workflow_id =
      then-Keeps P (related-Keeps id workflow_id) (pure-Keeps P tt)

  pub append_handoff-Keeps :
      (workflow_id : String) (input : CreateHandoffInput)
      → Keeps P (append_handoff workflow_id input)
  unfolding append_handoff append_handoff_tx new_handoff
  append_handoff-Keeps workflow_id input = then-Keeps P (raise_if-Keeps P _ _) (
      bind-Keeps P {Q = Anything} (current_time-Keeps P) (λ now _.
        bind-Keeps P {Q = Anything} (load_workflow-Keeps P workflow_id) (λ w _.
          bind-Keeps P (store_of-Meets P) (λ st _. then-Keeps P (raise_if-Keeps P _ _) (
            then-Keeps P (raise_if-Keeps P _ _) (
              transaction-Meets P Anything (
                then-Keeps P (check_parent-Keeps input.parent_handoff_id w.id) (
                  then-Keeps P
                    (for_each-Keeps P input.depends_on_handoff_ids
                      (λ id. then-Keeps P (related-Keeps id w.id) (pure-Keeps P tt)))
                    (bind-Keeps P {Q = Anything} (new_id-Keeps P "hf") (λ id _.
                      bind-Keeps P {Q = Anything} (create_default_watches-Keeps P _ now)
                        (λ watches _.
                          then-Keeps P
                            (inv.created (new_handoff input id w.id w.kind now) (record {
                              input = input;
                              workflow_id = w.id;
                              workflow_kind = w.kind;
                              now = now;
                              created = refl;
                            }))
                            (then-Keeps P (save_watches-Keeps watches) (
                              then-Keeps P (save_workflow-Keeps P (λ _ _ p. p) _)
                                (pure-Keeps P _))))))))))))))
