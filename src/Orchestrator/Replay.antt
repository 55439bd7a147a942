-- ===== src/Orchestrator/Replay.antt =====
-- `Replay` of internal/orchestrator/state_machine.go: a handoff rebuilt from its stored events, which
-- are first put in the order of their ingestion.
pub mod Replayed
use Prim.Native.String.{compare as compare_text}
use Prim.Native.Nat.{Ordering}
use clawside.Common.{ℕ, String, Bool, true, false, not, List, [], ◌∷◌, ltb, ◌==◌, if◌then◌else◌}
use clawside.Orchestrator.Types.{Handoff, EventRecord}
use clawside.Orchestrator.Machine.{Decision, StateMachine, new_state_machine, apply_all}

-- `sorted[i].ID < sorted[j].ID`
abbrev pub text_before : String → String → Bool
text_before a b = elim (compare_text a b) [ Ordering.lt ↦ true | _ ↦ false ]

-- The comparison that `Replay` gives to `sort.SliceStable`.
unfoldable pub before : EventRecord → EventRecord → Bool
before a b =
    if not (a.ingested_at == b.ingested_at)
    then ltb a.ingested_at b.ingested_at
    else if not (a.producer_event_time == b.producer_event_time)
    then ltb a.producer_event_time b.producer_event_time
    else text_before a.id b.id

-- `event` stands before the first element that it does not come after: equal ones keep their order.
unfoldable pub insert : EventRecord → List EventRecord → List EventRecord
insert event [] = event ∷ []
insert event (e ∷ events) =
    let rest = insert event events in if before e event then e ∷ rest else event ∷ e ∷ events

-- A stable sort, as `sort.SliceStable` is one.
unfoldable pub sort_events : List EventRecord → List EventRecord
sort_events [] = []
sort_events (e ∷ events) = insert e (sort_events events)

unfoldable pub replay : Handoff → List EventRecord → Handoff × List Decision
replay initial events =
    let (machine, decisions) = apply_all (new_state_machine initial) (sort_events events) in
    (machine.handoff, decisions)
