-- ===== src/Orchestrator/Service/Signals/Watchdog.antt =====
-- watchdog.go: reminders for the watches whose deadline has passed without the event they wait for.
use Prim.Native.Nat.{◌-◌}
use clawside.Common.{
  ℕ, suc, ◌+◌, ◌*◌, String, Bool, false, not, ◌&&◌, ◌||◌, List, [], ◌∷◌, length, ltb, ◌==◌,
  if◌then◌else◌, str_eq,
}
use clawside.Orchestrator.Types.{
  EventType, ReviewDecision, actor_system, Handoff, EventRecord, event_name,
}
use clawside.Orchestrator.Records.{Watch}
use clawside.Orchestrator.Table.{exists}
use clawside.Orchestrator.Action.{Action, pure, ◌>>=◌, ◌>>◌, Done, store_of, current_time, new_id}
use clawside.Orchestrator.Store.{update_watch_check}
use clawside.Orchestrator.Store.Lists.{list_handoffs, list_watches, effective_events}
use clawside.Orchestrator.Service.Create.{minute, no_actor}
use clawside.Orchestrator.Service.Signals.{record_observed_event}

abbrev pub reminder_cooldown : ℕ
reminder_cooldown = 5 * minute

-- The types are compared as texts.
unfoldable pub has_event_type : List EventRecord → EventType → Bool
unfolding exists
has_event_type events type = exists (λ e. str_eq (event_name e.type) (event_name type)) events

-- The three conditions under which the loop does not `continue`. A `last_checked_at` after `now`
-- gives a negative difference, which is below the cooldown.
unfoldable pub is_due : ℕ → List EventRecord → Watch → Bool
is_due now events w =
    if not (str_eq w.status "active") || ltb now w.deadline_at
    then false
    else if has_event_type events w.event_type
    then false
    else not
        (str_eq w.last_result "reminder_sent" && ltb (now - w.last_checked_at) reminder_cooldown)

reminder : Handoff → ℕ → String → EventRecord
reminder handoff now id = record {
  id = id;
  workflow_id = handoff.workflow_id;
  handoff_id = handoff.id;
  type = EventType.reminder_sent;
  producer_event_time = now;
  ingested_at = now;
  producer_actor = record { type = actor_system; id = "watchdog"; address = "" };
  subject_actor = no_actor;
  idempotency_key = "";
  correlation_id = "";
  causation_id = "";
  accepted = false;
  rejection_reason = "";
  attempt_id = "";
  artifact_count = 0;
  review_decision = ReviewDecision.unset;
}

unfoldable pub remind : Handoff → ℕ → Watch → Action Done
unfolding reminder
remind handoff now watch = do
  id ← new_id "evt"
  record_observed_event (reminder handoff now id)
  update_watch_check watch.id now "reminder_sent"

-- The inner loop: the number of reminders that it sent.
unfoldable pub check_watches : Handoff → ℕ → List EventRecord → List Watch → Action ℕ
check_watches handoff now events [] = pure 0
check_watches handoff now events (watch ∷ watches) =
    if is_due now events watch
    then (do
      remind handoff now watch
      sent ← check_watches handoff now events watches
      pure (suc sent))
    else check_watches handoff now events watches

pub record RunWatchdogResult : Type 0 where
  pub reminders_sent : ℕ
  pub blocked_workflows : ℕ

-- `blockedWorkflowIDs`, a set.
unfoldable pub add_id : String → List String → List String
unfolding exists
add_id id ids = if exists (λ other. str_eq other id) ids then ids else id ∷ ids

-- The outer loop.
unfoldable pub check_handoffs : ℕ → List Handoff → ℕ → List String → Action RunWatchdogResult
check_handoffs now [] sent blocked =
    pure (record { reminders_sent = sent; blocked_workflows = length blocked })
check_handoffs now (handoff ∷ handoffs) sent blocked = do
  st ← store_of
  more ← check_watches handoff now (effective_events handoff.id st) (list_watches handoff.id st)
  check_handoffs now handoffs (sent + more) (
      if handoff.required_for_workflow_completion && ltb 0 more
      then add_id handoff.workflow_id blocked
      else blocked)

unfoldable pub run_watchdog : ℕ → Action RunWatchdogResult
run_watchdog input_now = do
  now ← if input_now == 0 then current_time else pure input_now
  st ← store_of
  check_handoffs now (list_handoffs st) 0 []
