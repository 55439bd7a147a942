-- ===== src/Orchestrator/Service/Repair.antt =====
-- service.go and repair.go: events that are invalidated, handoffs that are reopened, and the handoff
-- that is rebuilt from the events that are left.
pub mod Rebuilt
pub mod Reopened
use clawside.Common.{
  ℕ, String, Bool, true, false, not, Option, none, some, List, [], ◌∷◌, if◌then◌else◌, str_eq,
}
use clawside.Orchestrator.Types.{HandoffState, ReviewDecision, ActorRef, Handoff, EventRecord}
use clawside.Orchestrator.Records.{RepairRecord}
use clawside.Orchestrator.Table.{find}
use clawside.Orchestrator.Replay.{replay}
use clawside.Orchestrator.Action.{
  Store, Failure, Action, pure, raise, or_raise, transaction, ◌>>=◌, ◌>>◌, Done, store_of, raise_if,
  current_time, new_id, for_each,
}
use clawside.Orchestrator.Store.{
  event_key, load_handoff, save_projected_handoff, save_repair, replace_watches,
}
use clawside.Orchestrator.Store.Lists.{replayed_events, accepted_events_of}
use clawside.Orchestrator.Events.{preserve_static_handoff_fields}
use clawside.Orchestrator.Service.Create.{no_actor, create_default_watches}

-- The record that invalidates an event.
unfoldable pub invalidation : String → String → ActorRef → String → ℕ → RepairRecord
invalidation event_id reason actor id created_at = record {
  id = id;
  action = "invalidate_event";
  target_type = "event";
  target_id = event_id;
  reason = reason;
  requested_by = actor;
  created_at = created_at;
  invalidates_id = event_id;
  replacement_id = "";
  reopened_state = "";
}

unfoldable pub build_default_repair_records :
    String → String → ActorRef → ℕ → Action (List RepairRecord)
build_default_repair_records event_id reason actor now = do
  id ← new_id "repair"
  pure (invalidation event_id reason actor id now ∷ [])

-- `base` of `replayHandoffProjectionTx`.
unfoldable pub reset_handoff : Handoff → ℕ → Handoff
reset_handoff handoff now = record handoff {
  state = HandoffState.created;
  state_version = 0;
  review_decision = ReviewDecision.unset;
  current_owner = no_actor;
  lease_holder = no_actor;
  leased_at = none;
  lease_expires_at = none;
  has_received = false;
  has_claimed = false;
  has_started = false;
  has_checkpointed = false;
  has_submitted = false;
  has_reviewed = false;
  artifact_count = 0;
  last_authoritative_event_id = "";
  completed_at = none;
  updated_at = now;
}

-- `events[len(events)-1].ID`, or what is there where no event is left.
unfoldable pub last_event_id : String → List EventRecord → String
last_event_id id [] = id
last_event_id id (e ∷ events) = last_event_id e.id events

unfoldable pub replayed_handoff : Handoff → List EventRecord → ℕ → ℕ → Handoff
unfolding preserve_static_handoff_fields
replayed_handoff handoff events reset_at now =
    let projected =
      preserve_static_handoff_fields (replay (reset_handoff handoff reset_at) events).0 handoff in
    record projected {
      last_authoritative_event_id = last_event_id projected.last_authoritative_event_id events;
      updated_at = now;
    }

unfoldable pub replay_handoff_projection : String → Action Done
replay_handoff_projection handoff_id = do
  handoff ← load_handoff handoff_id
  reset_at ← current_time
  st ← store_of
  updated_at ← current_time
  let projected = replayed_handoff handoff (replayed_events handoff_id st) reset_at updated_at
  save_projected_handoff projected handoff.state_version
  now ← current_time
  watches ← create_default_watches projected now
  replace_watches handoff_id watches

-- The last record of the list whose action is `invalidate_event`.
unfoldable pub default_invalidation : List RepairRecord → Option RepairRecord
default_invalidation [] = none
default_invalidation (r ∷ records) = elim (default_invalidation records) [
  | some later ↦ some later
  | none ↦ if str_eq r.action "invalidate_event" then some r else none
]

-- `lookupAcceptedEventHandoffID`
unfoldable pub lookup_accepted_event : String → Action EventRecord
lookup_accepted_event event_id = do
  st ← store_of
  or_raise (find event_key event_id st.accepted_events) Failure.no_rows

unfoldable pub invalidate_event : String → String → ActorRef → Action RepairRecord
invalidate_event event_id reason actor = do
  now ← current_time
  event ← lookup_accepted_event event_id
  transaction (do
    records ← build_default_repair_records event_id reason actor now
    for_each records save_repair
    invalidate ←
        or_raise (default_invalidation records)
          (Failure.invalid "default repair rules did not create invalidate_event record")
    raise_if (str_eq invalidate.id "")
        (Failure.invalid "default repair rules did not create invalidate_event record")
    replay_handoff_projection event.handoff_id
    pure invalidate)

unfoldable pub is_reopenable_state : HandoffState → Bool
is_reopenable_state HandoffState.failed = true
is_reopenable_state HandoffState.expired = true
is_reopenable_state HandoffState.completed = true
is_reopenable_state _ = false

reopening : String → String → ActorRef → String → ℕ → RepairRecord
reopening handoff_id reason actor id created_at = record {
  id = id;
  action = "reopen_handoff";
  target_type = "handoff";
  target_id = handoff_id;
  reason = reason;
  requested_by = actor;
  created_at = created_at;
  invalidates_id = "";
  replacement_id = "";
  reopened_state = "created";
}

-- One more invalidation for each event that was accepted, whether it is invalidated already or not.
unfoldable pub new_invalidations : String → ActorRef → List EventRecord → Action (List RepairRecord)
new_invalidations reason actor [] = pure []
new_invalidations reason actor (e ∷ events) = do
  id ← new_id "repair"
  created_at ← current_time
  records ← new_invalidations reason actor events
  pure (invalidation e.id reason actor id created_at ∷ records)

unfoldable pub reopen_handoff_tx : String → String → ActorRef → RepairRecord → Action RepairRecord
reopen_handoff_tx handoff_id reason actor repair = do
  handoff ← load_handoff handoff_id
  raise_if (not (is_reopenable_state handoff.state))
      (Failure.invalid "reopen requires failed, expired, or completed handoff")
  save_repair repair
  st ← store_of
  invalidations ← new_invalidations reason actor (accepted_events_of handoff_id st)
  for_each invalidations save_repair
  replay_handoff_projection handoff_id
  pure repair

unfoldable pub reopen_handoff : String → String → ActorRef → Action RepairRecord
unfolding reopening
reopen_handoff handoff_id reason actor = do
  id ← new_id "repair"
  created_at ← current_time
  transaction
      (reopen_handoff_tx handoff_id reason actor (reopening handoff_id reason actor id created_at))
