-- ===== src/Orchestrator/Projection/Status.antt =====
-- The loop of ProjectWorkflow against what the statuses mean.
use clawside.Common.{
  not, str_eq, String, ℕ, Bool, true, false, ◌&&◌, ◌||◌, Option, none, some, List, [], ◌∷◌, ◌≡◌,
  inl, inr, refl, ◌∙◌, arith, if◌then◌else◌, Bool-cases,
}
use clawside.Orchestrator.Types.{HandoffState, Handoff, Workflow, WorkflowStatus}
use clawside.Orchestrator.Projection.{
  handoff_by_id, incomplete, required_handoffs, is_completed, is_lost, has_open_dependency, Scan,
  scan_one, scan, first_scan, conclude, project_required, project_workflow,
}

-- Some handoff failed or expired; some has an open dependency; all are completed.
any_lost : List Handoff → Bool
any_lost [] = false
any_lost (h ∷ hs) = is_lost h.state || any_lost hs

any_blocked : List Handoff → List Handoff → Bool
any_blocked handoffs [] = false
any_blocked handoffs (h ∷ hs) =
    has_open_dependency handoffs h.depends_on_handoff_ids || any_blocked handoffs hs

every_completed : List Handoff → Bool
every_completed [] = true
every_completed (h ∷ hs) = is_completed h.state && every_completed hs

abbrev is_empty : List Handoff → Bool
is_empty [] = true
is_empty (h ∷ hs) = false

-- What the loop comes to, from the handoffs and those of them that are required.
loop_status : List Handoff → List Handoff → WorkflowStatus
unfolding any_lost any_blocked every_completed
loop_status handoffs required =
    if is_empty required
    then WorkflowStatus.active
    else if any_lost required
    then WorkflowStatus.failed
    else if any_blocked handoffs required
    then WorkflowStatus.blocked
    else if every_completed required
    then WorkflowStatus.completed
    else WorkflowStatus.active

scan-lost :
    (handoffs : List Handoff) (s : Scan) (hs : List Handoff)
    → any_lost hs ≡ true
    → scan handoffs s hs ≡ none
unfolding scan any_lost
scan-lost handoffs s [] l = cc
scan-lost handoffs s (h ∷ hs) l = ground (arith, scan-lost handoffs (scan_one handoffs s h) hs)

-- The variables after the loop, where no handoff is lost.
record Scanned (handoffs : List Handoff) (s : Scan) (hs : List Handoff) (r : Option Scan)
    : Type 0 where
  end : Scan
  there : r ≡ some end
  blocked : end.blocked ≡ (s.blocked || any_blocked handoffs hs)
  completed : end.all_completed ≡ (s.all_completed && every_completed hs)

any_lost-tail : (h : Handoff) (hs : List Handoff) → any_lost (h ∷ hs) ≡ false → any_lost hs ≡ false
unfolding any_lost
any_lost-tail h hs l = ground arith

any_lost-head :
    (h : Handoff) (hs : List Handoff) → any_lost (h ∷ hs) ≡ false → is_lost h.state ≡ false
unfolding any_lost
any_lost-head h hs l = ground arith

scan_cons :
    (handoffs : List Handoff) (s : Scan) (h : Handoff) (hs : List Handoff)
    → is_lost h.state ≡ false
    → scan handoffs s (h ∷ hs) ≡ scan handoffs (scan_one handoffs s h) hs
unfolding scan
scan_cons handoffs s h hs keep = rw keep refl

scan_one-blocked :
    (handoffs : List Handoff) (s : Scan) (h : Handoff) (hs : List Handoff)
    → ((scan_one handoffs s h).blocked || any_blocked handoffs hs)
      ≡ (s.blocked || any_blocked handoffs (h ∷ hs))
unfolding scan_one any_blocked
scan_one-blocked handoffs s h hs = ground arith

scan_one-completed :
    (handoffs : List Handoff) (s : Scan) (h : Handoff) (hs : List Handoff)
    → ((scan_one handoffs s h).all_completed && every_completed hs)
      ≡ (s.all_completed && every_completed (h ∷ hs))
unfolding scan_one every_completed
scan_one-completed handoffs s h hs = ground arith

scan-Scanned :
    (handoffs : List Handoff) (s : Scan) (hs : List Handoff)
    → any_lost hs ≡ false
    → Scanned handoffs s hs (scan handoffs s hs)
unfolding scan any_blocked every_completed
scan-Scanned handoffs s [] l = record {
  end = s;
  there = refl;
  blocked = ground arith;
  completed = ground arith;
}
scan-Scanned handoffs s (h ∷ hs) l =
    let rest = scan-Scanned handoffs (scan_one handoffs s h) hs (any_lost-tail h hs l) in
    record {
      end = rest.end;
      there = scan_cons handoffs s h hs (any_lost-head h hs l) ∙ rest.there;
      blocked = rest.blocked ∙ scan_one-blocked handoffs s h hs;
      completed = rest.completed ∙ scan_one-completed handoffs s h hs;
    }

conclude-lost :
    (w : Workflow) (r : Option Scan) → r ≡ none → (conclude w r).status ≡ WorkflowStatus.failed
unfolding conclude
conclude-lost w r e = rw e refl

conclude-kept :
    (w : Workflow) (r : Option Scan) (end : Scan) (b c : Bool)
    → r ≡ some end
    → end.blocked ≡ b
    → end.all_completed ≡ c
    → (conclude w r).status ≡ (
        if b
        then WorkflowStatus.blocked
        else if c
        then WorkflowStatus.completed
        else WorkflowStatus.active)
unfolding conclude
conclude-kept w r end b c e p q = rw e (ground (arith, p, q))

project_required-status :
    (w : Workflow) (handoffs required : List Handoff)
    → (project_required w handoffs required).status ≡ loop_status handoffs required
unfolding project_required loop_status
project_required-status w handoffs [] = refl
project_required-status w handoffs (h ∷ hs) = elim (Bool-cases (any_lost (h ∷ hs))) [
  | inl lost ↦ rw lost (conclude-lost w _ (scan-lost handoffs first_scan (h ∷ hs) lost))
  | inr kept ↦
      let r = scan-Scanned handoffs first_scan (h ∷ hs) kept in
      rw kept (conclude-kept w _ r.end _ _ r.there r.blocked r.completed)
]

conclude-updated : (w : Workflow) (r : Option Scan) → (conclude w r).updated_at ≡ w.updated_at
unfolding conclude
conclude-updated w none = refl
conclude-updated w (some s) = ground arith

project_required-updated :
    (w : Workflow) (handoffs required : List Handoff)
    → (project_required w handoffs required).updated_at ≡ w.updated_at
unfolding project_required
project_required-updated w handoffs [] = refl
project_required-updated w handoffs (h ∷ hs) =
    conclude-updated w (scan handoffs first_scan (h ∷ hs))

-- What the statuses mean, from the handoffs alone. Of the handoffs with one id the last one counts.
abbrev ended_badly : HandoffState → Bool
ended_badly HandoffState.failed = true
ended_badly HandoffState.expired = true
ended_badly _ = false

abbrev finished : HandoffState → Bool
finished HandoffState.completed = true
finished _ = false

last_with : String → List Handoff → Option Handoff → Option Handoff
last_with id [] last = last
last_with id (h ∷ hs) last = last_with id hs (if str_eq h.id id then some h else last)

abbrev is_done : Option Handoff → Bool
is_done none = false
is_done (some h) = finished h.state

waits : List Handoff → List String → Bool
unfolding last_with
waits handoffs [] = false
waits handoffs (id ∷ ids) = not (is_done (last_with id handoffs none)) || waits handoffs ids

some_required : (Handoff → Bool) → List Handoff → Bool
some_required test [] = false
some_required test (h ∷ hs) = h.required_for_workflow_completion && test h || some_required test hs

unfoldable pub status_of : List Handoff → WorkflowStatus
unfolding some_required waits
status_of handoffs =
    if not (some_required (λ h. true) handoffs)
    then WorkflowStatus.active
    else if some_required (λ h. ended_badly h.state) handoffs
    then WorkflowStatus.failed
    else if some_required (λ h. waits handoffs h.depends_on_handoff_ids) handoffs
    then WorkflowStatus.blocked
    else if some_required (λ h. not (finished h.state)) handoffs
    then WorkflowStatus.active
    else WorkflowStatus.completed

-- The map of the loop is what the last handoff with an id leaves.
or_last : Option Handoff → Option Handoff → Option Handoff
or_last none last = last
or_last (some h) last = some h

last_with-by_id :
    (id : String) (hs : List Handoff) (last : Option Handoff)
    → last_with id hs last ≡ or_last (handoff_by_id id hs) last
unfolding last_with or_last handoff_by_id
last_with-by_id id [] last = refl
last_with-by_id id (h ∷ hs) last =
    last_with-by_id id hs (if str_eq h.id id then some h else last) ∙ ground arith

incomplete-is_done : (o : Option Handoff) → incomplete o ≡ not (is_done o)
incomplete-is_done o = ground arith

or_last-none : (o : Option Handoff) → or_last o none ≡ o
unfolding or_last
or_last-none none = refl
or_last-none (some h) = refl

open-waits :
    (handoffs : List Handoff) (ids : List String)
    → has_open_dependency handoffs ids ≡ waits handoffs ids
unfolding has_open_dependency waits
open-waits handoffs [] = refl
open-waits handoffs (id ∷ ids) =
    rw (last_with-by_id id handoffs none, or_last-none (handoff_by_id id handoffs))
      (ground (arith, incomplete-is_done (handoff_by_id id handoffs), open-waits handoffs ids))

any_lost-required :
    (hs : List Handoff)
    → any_lost (required_handoffs hs) ≡ some_required (λ h. ended_badly h.state) hs
unfolding any_lost required_handoffs some_required
any_lost-required [] = refl
any_lost-required (h ∷ hs) = ground (arith, any_lost-required hs)

any_blocked-required :
    (handoffs hs : List Handoff)
    → any_blocked handoffs (required_handoffs hs)
      ≡ some_required (λ h. waits handoffs h.depends_on_handoff_ids) hs
unfolding any_blocked required_handoffs some_required
any_blocked-required handoffs [] = refl
any_blocked-required handoffs (h ∷ hs) =
    ground (arith, any_blocked-required handoffs hs, open-waits handoffs h.depends_on_handoff_ids)

every_completed-required :
    (hs : List Handoff)
    → every_completed (required_handoffs hs) ≡ not (some_required (λ h. not (finished h.state)) hs)
unfolding every_completed required_handoffs some_required
every_completed-required [] = refl
every_completed-required (h ∷ hs) = ground (arith, every_completed-required hs)

is_empty-required :
    (hs : List Handoff) → is_empty (required_handoffs hs) ≡ not (some_required (λ h. true) hs)
unfolding required_handoffs some_required
is_empty-required [] = refl
is_empty-required (h ∷ hs) = ground (arith, is_empty-required hs)

loop_status-of :
    (handoffs : List Handoff)
    → loop_status handoffs (required_handoffs handoffs) ≡ status_of handoffs
unfolding loop_status status_of
loop_status-of handoffs =
    rw
      (
        is_empty-required handoffs,
        any_lost-required handoffs,
        any_blocked-required handoffs handoffs,
        every_completed-required handoffs,
      )
      (ground arith)

-- Projecting a workflow stamps it with the time and gives it the status that its handoffs call for:
-- active where none is required; else failed where a required one failed or expired; else blocked
-- where a required one depends on a handoff that is missing or not completed; else completed where
-- all required ones are; else active.
pub project_workflow-status :
    (w : Workflow) (handoffs : List Handoff) (now : ℕ)
    → ((project_workflow w handoffs now).status ≡ status_of handoffs)
      × ((project_workflow w handoffs now).updated_at ≡ now)
unfolding project_workflow
project_workflow-status w handoffs now =
    let required = required_handoffs handoffs in
    let projected = record w { updated_at = now; completed_at = none } in
    (
      project_required-status projected handoffs required ∙ loop_status-of handoffs,
      project_required-updated projected handoffs required,
    )
