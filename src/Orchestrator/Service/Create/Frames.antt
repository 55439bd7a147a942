-- ===== src/Orchestrator/Service/Create/Frames.antt =====
-- The values of a creation are drawn without writing anything.
use clawside.Common.{ℕ, String, List, [], ◌∷◌}
use clawside.Orchestrator.Types.{EventType, ActorRef, Handoff}
use clawside.Orchestrator.Action.{Store}
use clawside.Orchestrator.Action.Rules.{Keeps, Anything, bind-Keeps, pure-Keeps, new_id-Keeps}
use clawside.Orchestrator.Service.Create.{
  CreateHandoffInput, InboundArtifactRef, new_watch, create_default_watches,
  new_root_handoff_creation, new_artifacts,
}

module _ (P : Store → Type 0) where
  new_watch-Keeps :
      (handoff_id watch_type : String) (event_type : EventType) (deadline_at now : ℕ)
      → Keeps P (new_watch handoff_id watch_type event_type deadline_at now)
  unfolding new_watch
  new_watch-Keeps handoff_id watch_type event_type deadline_at now =
      bind-Keeps P {Q = Anything} (new_id-Keeps P "watch") (λ id _. pure-Keeps P _)

  pub create_default_watches-Keeps :
      (h : Handoff) (now : ℕ) → Keeps P (create_default_watches h now)
  unfolding create_default_watches
  create_default_watches-Keeps h now =
      bind-Keeps P {Q = Anything} (new_watch-Keeps _ _ _ _ _) (λ a _.
        bind-Keeps P {Q = Anything} (new_watch-Keeps _ _ _ _ _)
          (λ b _. bind-Keeps P {Q = Anything} (new_watch-Keeps _ _ _ _ _) (λ c _. pure-Keeps P _)))

  pub new_root-Keeps :
      (input : CreateHandoffInput) (now : ℕ) → Keeps P (new_root_handoff_creation input now)
  unfolding new_root_handoff_creation
  new_root-Keeps input now = bind-Keeps P {Q = Anything} (new_id-Keeps P "wf") (λ wf _.
      bind-Keeps P {Q = Anything} (new_id-Keeps P "hf") (λ hf _.
        bind-Keeps P {Q = Anything} (create_default_watches-Keeps _ now)
          (λ watches _. pure-Keeps P _)))

  pub new_artifacts-Keeps :
      (id : String) (sender : ActorRef) (now : ℕ) (refs : List InboundArtifactRef)
      → Keeps P (new_artifacts id sender now refs)
  unfolding new_artifacts
  new_artifacts-Keeps id sender now [] = pure-Keeps P []
  new_artifacts-Keeps id sender now (ref ∷ refs) =
      bind-Keeps P {Q = Anything} (new_id-Keeps P "art") (λ art _.
        bind-Keeps P {Q = Anything} (new_artifacts-Keeps id sender now refs)
          (λ rest _. pure-Keeps P _))
