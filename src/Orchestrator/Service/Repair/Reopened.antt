-- ===== src/Orchestrator/Service/Repair/Reopened.antt =====
-- A handoff that is reopened starts again, with none of its events left.
use clawside.Common.{
  String, Bool, true, false, not, ◌||◌, none, some, List, [], ◌∷◌, ◌≡◌, refl, sym, ap, ◌∙◌, All,
  str_eq,
}
use clawside.Orchestrator.Types.{HandoffState, ActorRef, Handoff, EventRecord}
use clawside.Orchestrator.Records.{RepairRecord}
use clawside.Orchestrator.Completion.{hydrate_flags}
use clawside.Orchestrator.Machine.{new_state_machine, apply_all}
use clawside.Orchestrator.Replay.{replay, sort_events}
use clawside.Orchestrator.Table.{find, select, exists}
use clawside.Orchestrator.Action.{Store, Service, ok, for_each}
use clawside.Orchestrator.Action.Rules.{for_each-Keeps}
use clawside.Orchestrator.Action.Inversion.{
  Returns, >>=-Returns, >>-Returns, pure-Returns, transaction-Returns, store_of-Returns,
  Keeps-Returns,
}
use clawside.Orchestrator.Store.{handoff_key, save_repair}
use clawside.Orchestrator.Store.Frames.{save_repair-Keeps}
use clawside.Orchestrator.Store.Lists.{
  invalidates, replayed_events, accepted_events_of, event_before,
}
use clawside.Orchestrator.Events.{preserve_static_handoff_fields}
use clawside.Orchestrator.Service.Create.{no_actor}
use clawside.Orchestrator.Service.Repair.Rebuilt.{
  All-order_by, Covered, new_invalidations-Covered, new_invalidations-Keeps, save_repairs-Covered,
  Covered_none, Replayed, replay-Replayed,
}
use clawside.Orchestrator.Service.Repair.{
  reset_handoff, replayed_handoff, reopen_handoff_tx, reopen_handoff,
}

-- The events that stand behind a reopening.
abbrev belongs : String → EventRecord → Bool
belongs id e = str_eq e.handoff_id id

All-weaken :
    {A B : EventRecord → Type 0} (events : List EventRecord)
    → ((e : EventRecord) → A e → B e)
    → All A events
    → All B events
All-weaken [] f a = tt
All-weaken (e ∷ events) f a = (f e a.0, All-weaken events f a.1)

at_rows :
    (id : String) (repairs : List RepairRecord) {events others : List EventRecord}
    → events ≡ others
    → All (λ e. not (exists (invalidates e.id) repairs) ≡ false) (select (belongs id) others)
    → All (λ e. not (exists (invalidates e.id) repairs) ≡ false) (select (belongs id) events)
at_rows id repairs same a = rw same a

or_true : (a : Bool) {b : Bool} → b ≡ true → (a || b) ≡ true
or_true true e = refl
or_true false e = e

All-invalidated :
    (id : String) (st : Store) (records : List RepairRecord) {u : _} {s t : Service}
    → Returns (for_each records save_repair) s u t
    → s.store.accepted_events ≡ st.accepted_events
    → All (Covered records) (accepted_events_of id st)
    → replayed_events id t.store ≡ []
unfolding accepted_events_of
All-invalidated id st records {s = s} {t = t} r same cover =
    let kept : t.store.accepted_events ≡ st.accepted_events =
      Keeps-Returns (λ x. x.accepted_events ≡ st.accepted_events)
        (for_each-Keeps (λ x. x.accepted_events ≡ st.accepted_events) records
          (λ x. save_repair-Keeps (λ y. y.accepted_events ≡ st.accepted_events) (λ _ _ p. p) x))
        r same in
    let chosen =
      All-order_by event_before (Covered records) (select (belongs id) st.accepted_events) cover in
    Covered_none id t.store (
      at_rows id t.store.repairs kept (
        All-weaken (select (belongs id) st.accepted_events)
          (λ e c. ap not (save_repairs-Covered e.id records r (or_true _ c))) chosen))

-- The handoff that a reopening leaves.
abbrev pub IsReopened : String → Store → Type 0
IsReopened id st =
    (h : Handoff) × (find handoff_key id st.handoffs ≡ some h)
    × (h.state ≡ HandoffState.created)
    × (h.state_version ≡ 0)
    × (h.has_received ≡ false)
    × (h.has_reviewed ≡ false)
    × (h.current_owner ≡ no_actor)
    × (h.completed_at ≡ none)
    × (replayed_events id st ≡ [])

IsReopened-at :
    (id : String) {s t : Service} → s ≡ t → IsReopened id s.store → IsReopened id t.store
IsReopened-at id e x = rw e at x

same_replayed :
    (id : String) (before after : Store)
    → after.repairs ≡ before.repairs
    → after.accepted_events ≡ before.accepted_events
    → replayed_events id after ≡ replayed_events id before
unfolding replayed_events
same_replayed id before after r e = rw (r, e) refl

Replayed-IsReopened :
    (id : String) (before after : Store)
    → Replayed id before after
    → replayed_events id before ≡ []
    → IsReopened id after
unfolding replayed_handoff preserve_static_handoff_fields replay sort_events apply_all
    new_state_machine reset_handoff hydrate_flags
Replayed-IsReopened id before after r empty = (
  replayed_handoff r.handoff [] r.reset_at r.now,
  r.stored ∙ ap (λ es. some (replayed_handoff r.handoff es r.reset_at r.now)) empty,
  refl,
  refl,
  refl,
  refl,
  refl,
  refl,
  same_replayed id before after r.repairs r.accepted_events ∙ empty,
)

-- Behind a reopening that succeeded, the handoff is stored in the state `created`, at version 0, as
-- neither received nor reviewed, without owner and completion time, and every event of it that was
-- accepted is invalidated: none is left to replay.
pub reopen_handoff-fresh :
    (id reason : String) (actor : ActorRef) (repair : RepairRecord) (s t : Service)
    → reopen_handoff id reason actor s ≡ (ok repair, t)
    → IsReopened id t.store
unfolding reopen_handoff reopen_handoff_tx
reopen_handoff-fresh id reason actor repair s t q =
    let r : Returns (reopen_handoff id reason actor) s repair t = record { eq = q } in
    let (_, s1, r1, q1) = >>=-Returns r in
    let (_, s2, r2, q2) = >>=-Returns q1 in
    let (h0, s3, r3, q3) = >>=-Returns (transaction-Returns q2) in
    let (_, s4, r4, q4) = >>-Returns q3 in
    let (_, s5, r5, q5) = >>-Returns q4 in
    let (st, s6, r6, q6) = >>=-Returns q5 in
    let (records, s7, r7, q7) = >>=-Returns q6 in
    let (_, s8, r8, q8) = >>-Returns q7 in
    let (_, s9, r9, q9) = >>-Returns q8 in
    let (e6, e7) = store_of-Returns r6 in
    let (_, last) = pure-Returns q9 in
    let events = accepted_events_of id st in
    let P : Store → Type 0 = λ x. x.accepted_events ≡ st.accepted_events in
    let same : P s7.store =
      Keeps-Returns P (new_invalidations-Keeps P reason actor events) r7
        (ap (λ x. x.store.accepted_events) (sym e7) ∙ ap (λ x. x.accepted_events) e6) in
    let none_left =
      All-invalidated id st records r8 same (new_invalidations-Covered reason actor events r7) in
    IsReopened-at id last
      (Replayed-IsReopened id s8.store s9.store (replay-Replayed id r9) none_left)
