-- ===== src/Orchestrator/Service/Protocol/Gate.antt =====
-- The dependencies of a handoff come first.
use clawside.Common.{
  String, Bool, true, false, some, List, [], ◌∷◌, ◌≡◌, sym, ap, ◌∙◌, arith, All, eq_iff,
  if◌then◌else◌, ◌≢◌, none, refl, inl, inr, Bool-cases, none-ne-some,
}
use clawside.Orchestrator.Types.{Handoff, ReviewDecision, EventRecord}
use clawside.Orchestrator.Projection.{is_completed}
use clawside.Orchestrator.Table.{find}
use clawside.Orchestrator.Action.{Store, Service, ok, Action, Done, for_each}
use clawside.Orchestrator.Action.Inversion.{
  Returns, >>=-Returns, >>-Returns, pure-Returns, raise_if-Returns, or_raise-Returns,
}
use clawside.Orchestrator.Store.{handoff_key}
use clawside.Orchestrator.Events.Accepted.{load_handoff-Returns}
use clawside.Orchestrator.Service.Related.{
  load_related_handoff, ensure_dependency_completed, ensure_handoff_dependencies_completed,
}
use clawside.Orchestrator.Service.Protocol.{
  ProtocolAction, ProtocolRequest, ProtocolResult, protocol_event_type, protocol_event_from_request,
  protocol_action_requires_completed_dependencies, apply_protocol_action,
}

-- The handoff with this id is stored, belongs to the workflow and is completed.
pub record IsMet (st : Store) (workflow_id : String) (id : String) : Type 0 where
  pub dependency : Handoff
  pub stored : find handoff_key id st.handoffs ≡ some dependency
  pub same_workflow : dependency.workflow_id ≡ workflow_id
  pub completed : is_completed dependency.state ≡ true

load_related-Returns :
    (id workflow_id : String) {d : Handoff} {s t : Service}
    → Returns (load_related_handoff id workflow_id) s d t
    → (find handoff_key id s.store.handoffs ≡ some d) × (d.workflow_id ≡ workflow_id) × (s ≡ t)
unfolding load_related_handoff
load_related-Returns id workflow_id r =
    let (_, s1, r1, q1) = >>-Returns r in
    let (h, s2, r2, q2) = >>=-Returns q1 in
    let (_, s3, r3, q3) = >>-Returns q2 in
    let (_, e1) = raise_if-Returns _ r1 in
    let (found, e2) = load_handoff-Returns id r2 in
    let (same, e3) = raise_if-Returns _ r3 in
    let (e4, e5) = pure-Returns q3 in
    (
      ap (λ x. find handoff_key id x.store.handoffs) e1 ∙ found ∙ ap some e4,
      ap (λ x. x.workflow_id) (sym e4)
          ∙ (eq_iff h.workflow_id workflow_id).0 (ground (arith, same)),
      e1 ∙ e2 ∙ e3 ∙ e5,
    )

dependency-IsMet :
    (workflow_id id : String) {u : _} {s t : Service}
    → Returns (ensure_dependency_completed workflow_id id) s u t
    → IsMet s.store workflow_id id × (s ≡ t)
unfolding ensure_dependency_completed
dependency-IsMet workflow_id id r =
    let (d, s1, r1, q1) = >>=-Returns r in
    let (found, same, e1) = load_related-Returns id workflow_id r1 in
    let (done, e2) = raise_if-Returns _ q1 in
    (
      record {
        dependency = d;
        stored = found;
        same_workflow = same;
        completed = ground (arith, done);
      },
      e1 ∙ e2,
    )

at_start :
    (workflow_id : String) (ids : List String) {s t : Service}
    → s ≡ t
    → All (IsMet t.store workflow_id) ids
    → All (IsMet s.store workflow_id) ids
at_start workflow_id ids e met = rw e met

dependencies-IsMet :
    (workflow_id : String) (ids : List String) {u : _} {s t : Service}
    → Returns (for_each ids (ensure_dependency_completed workflow_id)) s u t
    → All (IsMet s.store workflow_id) ids
unfolding for_each
dependencies-IsMet workflow_id [] r = tt
dependencies-IsMet workflow_id (id ∷ ids) {s = s} r =
    let (_, s1, r1, q1) = >>-Returns r in
    let (met, e) = dependency-IsMet workflow_id id r1 in
    (met, at_start workflow_id ids e (dependencies-IsMet workflow_id ids q1))

branch-Returns :
    (test : Bool) (yes_ no_ : Action Done) {u : Done} {s t : Service}
    → test ≡ true
    → Returns (if test then yes_ else no_) s u t
    → Returns yes_ s u t
branch-Returns true yes_ no_ e r = r
branch-Returns false yes_ no_ e r = cc

-- An action that is neither gated nor a failure is none that the protocol knows.
ungated-unknown :
    (action : ProtocolAction) (decision : ReviewDecision)
    → action ≢ ProtocolAction.fail
    → protocol_action_requires_completed_dependencies action ≡ false
    → protocol_event_type action decision ≡ none
unfolding protocol_action_requires_completed_dependencies protocol_event_type
ungated-unknown ProtocolAction.fail decision other open_ = absurd (other refl)
ungated-unknown (ProtocolAction.other text) decision other open_ = refl
ungated-unknown action decision other open_ = cc

unknown-refused :
    (h : Handoff) (req : ProtocolRequest) {e : EventRecord} {s t : Service}
    → protocol_event_type req.action req.review_decision ≡ none
    → ¬ Returns (protocol_event_from_request h req) s e t
unfolding protocol_event_from_request
unknown-refused h req unknown r =
    let (_, _, typed, _) = >>=-Returns r in
    none-ne-some (sym unknown ∙ (or_raise-Returns _ typed).0)

-- Where an action other than `handoff.fail` goes through, every handoff that the stored handoff
-- depends on was stored, in the same workflow, and completed.
pub apply_protocol_action-IsMet :
    (req : ProtocolRequest) (result : ProtocolResult) (s t : Service)
    → req.action ≢ ProtocolAction.fail
    → apply_protocol_action req s ≡ (ok result, t)
    → (h : Handoff) × (find handoff_key req.handoff_id s.store.handoffs ≡ some h)
      × All (IsMet s.store h.workflow_id) h.depends_on_handoff_ids
unfolding apply_protocol_action ensure_handoff_dependencies_completed
apply_protocol_action-IsMet req result s t other q =
    let r : Returns (apply_protocol_action req) s result t = record { eq = q } in
    let (_, s1, r1, q1) = >>-Returns r in
    let (_, s2, r2, q2) = >>-Returns q1 in
    let (h, s3, r3, q3) = >>=-Returns q2 in
    let (_, s4, r4, q4) = >>-Returns q3 in
    let (_, s5, r5, q5) = >>=-Returns q4 in
    let (_, e1) = raise_if-Returns _ r1 in
    let (_, e2) = raise_if-Returns _ r2 in
    let (found, e3) = load_handoff-Returns req.handoff_id r3 in
    elim (Bool-cases (protocol_action_requires_completed_dependencies req.action)) [
      | inl gated ↦
          let met = dependencies-IsMet h.workflow_id h.depends_on_handoff_ids (
            branch-Returns (protocol_action_requires_completed_dependencies req.action) _ _ gated
              r4) in
          (
            h,
            ap (λ x. find handoff_key req.handoff_id x.store.handoffs) (e1 ∙ e2) ∙ found,
            at_start h.workflow_id h.depends_on_handoff_ids (e1 ∙ e2 ∙ e3) met,
          )
      | inr open_ ↦
          absurd
            (unknown-refused h req (ungated-unknown req.action req.review_decision other open_) r5)
    ]
