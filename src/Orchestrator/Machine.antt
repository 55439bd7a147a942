-- ===== src/Orchestrator/Machine.antt =====
-- internal/orchestrator/state_machine.go: the handoff state machine. A rejected or merely observed
-- event and an advance are the three outcomes of the `switch` in `Apply`; `settle` is the code
-- before and behind the `switch`. `*StateMachine` is passed and returned.
pub mod Invariant
pub mod Graph
pub mod Trace
pub mod Review
pub mod Progress
pub mod Finish
use Prim.Native.String.{◌++◌}
use clawside.Common.{
  ℕ, ◌+◌, ◌*◌, ◌%◌, ◌^◌, String, Bool, true, false, not, ◌&&◌, ◌||◌, Option, none, some, List, [],
  ◌∷◌, ltb, ◌==◌, if◌then◌else◌, str_eq,
}
use clawside.Orchestrator.Types.{
  HandoffState, EventType, ReviewDecision, Handoff, EventRecord, event_name,
}
use clawside.Orchestrator.Actors.{
  expired_system_actors, validate_system_actor, validate_transport_actor, validate_receiver_actor,
  validate_worker_actor, validate_reviewer_actor,
}
use clawside.Orchestrator.Completion.{
  is_revision_required, is_valid_review_decision, validate_completion_prereqs,
  can_transition_to_completed, can_transition_to_failed, can_transition_to_expired, hydrate_flags,
}

pub record Decision : Type 0 where
  pub accepted : Bool
  pub reason : String
  pub next : HandoffState

pub record StateMachine : Type 0 where
  pub handoff : Handoff

-- 30 * time.Minute
abbrev pub default_handoff_lease_ttl : ℕ
default_handoff_lease_ttl = 30 * 60 * 1_000_000_000

abbrev pub default_state : HandoffState → HandoffState
default_state HandoffState.unset = HandoffState.created
default_state s = s

unfoldable pub new_state_machine : Handoff → StateMachine
new_state_machine h = record {
  handoff = hydrate_flags (record h { state = default_state h.state });
}

unfoldable pub reject_decision : HandoffState → String → Decision
reject_decision state reason = record { accepted = false; reason = reason; next = state }

abbrev pub is_created : HandoffState → Bool
is_created HandoffState.created = true
is_created _ = false

abbrev pub is_dispatched : HandoffState → Bool
is_dispatched HandoffState.dispatched = true
is_dispatched _ = false

abbrev pub is_received : HandoffState → Bool
is_received HandoffState.received = true
is_received _ = false

abbrev pub is_claimed : HandoffState → Bool
is_claimed HandoffState.claimed = true
is_claimed _ = false

abbrev pub is_started : HandoffState → Bool
is_started HandoffState.started = true
is_started _ = false

abbrev pub is_checkpointed : HandoffState → Bool
is_checkpointed HandoffState.checkpointed = true
is_checkpointed _ = false

abbrev pub is_submitted : HandoffState → Bool
is_submitted HandoffState.submitted = true
is_submitted _ = false

abbrev pub is_reviewed : HandoffState → Bool
is_reviewed HandoffState.reviewed = true
is_reviewed _ = false

pub data Outcome : Type 0 where
  rejected : String → Outcome
  observed : Outcome
  advanced : Handoff → Outcome

-- `if err := validate…(); err != nil { return … }`
abbrev pub check : Option String → Outcome → Outcome
check none rest = rest
check (some reason) rest = Outcome.rejected reason

-- `if !test { return … }`
abbrev pub require : Bool → String → Outcome → Outcome
require true reason rest = rest
require false reason rest = Outcome.rejected reason

claimed_at : EventRecord → ℕ
claimed_at event = if event.ingested_at == 0 then event.producer_event_time else event.ingested_at

pub claim : Handoff → EventRecord → Handoff
unfolding claimed_at
claim h event =
    let leased = record h {
      state = HandoffState.claimed;
      has_received = true;
      has_claimed = true;
      current_owner = event.subject_actor;
      lease_holder = event.subject_actor;
    } in
    if claimed_at event == 0 then leased else record leased {
      leased_at = some (claimed_at event);
      lease_expires_at = some (claimed_at event + default_handoff_lease_ttl);
    }

pub submit : Handoff → EventRecord → Handoff
submit h event = record h {
  state = HandoffState.submitted;
  has_received = true;
  has_claimed = true;
  has_started = true;
  has_checkpointed = true;
  has_submitted = true;
  has_reviewed = false;
  review_decision = ReviewDecision.unset;
  artifact_count = if ltb 0 event.artifact_count then event.artifact_count else h.artifact_count;
}

pub completion_time : Handoff → EventRecord → Option ℕ
completion_time h event =
    if not (event.producer_event_time == 0)
    then some event.producer_event_time
    else if not (event.ingested_at == 0)
    then some event.ingested_at
    else h.completed_at

pub complete : Handoff → EventRecord → Handoff
complete h event = record h {
  state = HandoffState.completed;
  completed_at = completion_time h event;
}

transport_update : Handoff → EventRecord → Outcome
transport_update h event = check (validate_transport_actor h event) Outcome.observed

-- The `switch event.Type` of `Apply`.
unfoldable pub transition : EventType → Handoff → EventRecord → Outcome
unfolding claim submit complete transport_update
transition EventType.transport_requested h event = check (validate_transport_actor h event) (
    require (is_created h.state) "transport_requested requires created"
      (Outcome.advanced (record h { state = HandoffState.dispatched })))
transition EventType.transport_accepted h event = transport_update h event
transition EventType.transport_rejected h event = transport_update h event
transition EventType.transport_timeout h event = transport_update h event
transition EventType.transport_delivery_confirmed h event = transport_update h event
transition EventType.received h event = check (validate_receiver_actor h event) (
    require (is_dispatched h.state || (is_created h.state && str_eq h.delivery_target_ref ""))
      "received requires dispatched"
      (Outcome.advanced (record h { state = HandoffState.received; has_received = true })))
transition EventType.claimed h event =
    check (validate_worker_actor h event "claimed")
      (require (is_received h.state) "claimed requires received" (Outcome.advanced (claim h event)))
transition EventType.started h event = check (validate_worker_actor h event "started") (
    require (is_claimed h.state) "started requires claimed" (
      Outcome.advanced (record h {
        state = HandoffState.started;
        has_received = true;
        has_claimed = true;
        has_started = true;
      })))
transition EventType.checkpointed h event = check (validate_worker_actor h event "checkpointed") (
    require (is_started h.state || (is_reviewed h.state && is_revision_required h.review_decision))
      "checkpointed requires started or revision_required review"
      (Outcome.advanced (record h {
        state = HandoffState.checkpointed;
        has_received = true;
        has_claimed = true;
        has_started = true;
        has_checkpointed = true;
        has_submitted = false;
        has_reviewed = false;
        review_decision = ReviewDecision.unset;
      })))
transition EventType.submitted h event = check (validate_worker_actor h event "submitted") (
    require
      (is_checkpointed h.state || (is_reviewed h.state && is_revision_required h.review_decision))
      "submitted requires checkpointed" (Outcome.advanced (submit h event)))
transition EventType.reviewed h event = check (validate_reviewer_actor h event) (
    require (is_submitted h.state) "reviewed requires submitted" (
      require (is_valid_review_decision event.review_decision)
        "reviewed requires valid review decision"
        (Outcome.advanced (record h {
          state = HandoffState.reviewed;
          has_received = true;
          has_claimed = true;
          has_started = true;
          has_checkpointed = true;
          has_submitted = true;
          has_reviewed = true;
          review_decision = event.review_decision;
        }))))
transition EventType.completed h event = check (validate_worker_actor h event "completed") (
    require (can_transition_to_completed h)
      "completed requires checkpointed, submitted, or reviewed state"
      (check (validate_completion_prereqs h) (Outcome.advanced (complete h event))))
transition EventType.failed h event = check (validate_worker_actor h event "failed") (
    require (can_transition_to_failed h.state)
      "failed requires created, dispatched, received, claimed, started, checkpointed, submitted, or reviewed"
      (Outcome.advanced (record h { state = HandoffState.failed })))
transition EventType.expired h event =
    check
      (validate_system_actor event expired_system_actors
        "expired requires watchdog or workflow-controller system actor")
      (require (can_transition_to_expired h.state)
        "expired requires dispatched, received, claimed, started, checkpointed, or submitted"
        (Outcome.advanced (record h { state = HandoffState.expired })))
transition type h event = Outcome.rejected ("unsupported event type " ++ event_name type)

-- `next.StateVersion++` and what follows it
unfoldable pub advance : Handoff → Handoff
advance h = hydrate_flags (record h { state_version = (h.state_version + 1) % 2 ^ 64 })

unfoldable pub settle : StateMachine → Handoff → Outcome → StateMachine × Handoff × Decision
settle m next (Outcome.rejected reason) = (m, next, reject_decision next.state reason)
settle m next Outcome.observed =
    (record { handoff = next }, next, record { accepted = true; reason = ""; next = next.state })
settle m next (Outcome.advanced h) =
    let h' = advance h in
    (record { handoff = h' }, h', record { accepted = true; reason = ""; next = h'.state })

unfoldable pub apply : StateMachine → EventRecord → StateMachine × Handoff × Decision
unfolding settle
apply m event =
    let next = hydrate_flags m.handoff in settle m next (transition event.type next event)

-- The loop of `Replay`, over the events in their sorted order.
unfoldable pub apply_all : StateMachine → List EventRecord → StateMachine × List Decision
apply_all m [] = (m, [])
apply_all m (event ∷ events) =
    let (m', _, decision) = apply m event in
    let (last, decisions) = apply_all m' events in (last, decision ∷ decisions)
