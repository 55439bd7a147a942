-- ===== src/Orchestrator/Service/Calls/Keeping.antt =====
-- A property of the handoffs, the ownership bindings and the accepted events is kept by every call,
-- if it is kept by the few statements that write one of these tables.
use clawside.Common.{ℕ, String, List, ◌≡◌}
use clawside.Orchestrator.Types.{Handoff, EventRecord}
use clawside.Orchestrator.Records.{OwnershipBinding}
use clawside.Orchestrator.Action.{Store}
use clawside.Orchestrator.Action.Rules.{Meets, Keeps}
use clawside.Orchestrator.Store.{
  load_handoff, save_handoff, save_projected_handoff, insert_accepted_event,
}
use clawside.Orchestrator.Events.{project_event}
use clawside.Orchestrator.Service.Create.{CreateHandoffInput, new_handoff}
use clawside.Orchestrator.Service.Repair.{replayed_handoff}
use clawside.Orchestrator.Service.Status.{UpdateOwnershipInput, update_ownership}

abbrev pub Tables : Type 1
Tables = List Handoff → List OwnershipBinding → List EventRecord → Type 0

abbrev pub OnTables : Tables → Store → Type 0
OnTables R st = R st.handoffs st.ownership_bindings st.accepted_events

-- A handoff that nothing has happened to, with any number of artifacts.
pub record IsNew (h : Handoff) : Type 0 where
  pub input : CreateHandoffInput
  pub workflow_id : String
  pub workflow_kind : String
  pub now : ℕ
  pub created :
      record h { artifact_count = 0 } ≡ new_handoff input h.id workflow_id workflow_kind now

pub record Invariant (R : Tables) (Q : Handoff → Type 0) : Type 0 where
  pub loaded : (id : String) → Meets (OnTables R) Q (load_handoff id)
  pub inserted : (e : EventRecord) → Keeps (OnTables R) (insert_accepted_event e)
  pub projected :
      (h : Handoff) (e : EventRecord)
      → Q h
      → Keeps (OnTables R) (save_projected_handoff (project_event h e) h.state_version)
  pub created : (h : Handoff) → IsNew h → Keeps (OnTables R) (save_handoff h)
  pub replayed :
      (h : Handoff) (events : List EventRecord) (reset_at now : ℕ)
      → Q h
      → Keeps
          (OnTables R)
          (save_projected_handoff (replayed_handoff h events reset_at now) h.state_version)
  pub owned : (input : UpdateOwnershipInput) → Keeps (OnTables R) (update_ownership input)
