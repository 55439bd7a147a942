-- ===== src/Orchestrator/Service/Repair/Rebuilt.antt =====
-- What a replay stores, and what the repairs of a reopening invalidate.
use clawside.Common.{
  ℕ, String, Bool, true, false, not, ◌&&◌, ◌||◌, if◌then◌else◌, some, List, [], ◌∷◌, ◌++◌, ◌≡◌,
  refl, sym, ap, ◌∙◌, arith, All, str_eq, Option-cases, Bool-cases, inl, inr,
}
use clawside.Orchestrator.Types.{ActorRef, Handoff, EventRecord}
use clawside.Orchestrator.Records.{RepairRecord}
use clawside.Orchestrator.Table.{find, update, select, exists, order_by, insert_row, place}
use clawside.Orchestrator.Table.Laws.{str_eq_self, find_key, find-update_self, insert_row-fresh}
use clawside.Orchestrator.Action.{
  Store, Service, Action, run, ◌>>=◌, ◌>>◌, for_each, Done, current_time,
}
use clawside.Orchestrator.Action.Rules.{
  Keeps, Anything, new_id-Keeps, current_time-Keeps, bind-Keeps, pure-Keeps,
}
use clawside.Orchestrator.Action.Inversion.{
  Returns, >>=-Returns, >>-Returns, pure-Returns, store_of-Returns, Keeps-Returns,
}
use clawside.Orchestrator.Store.{
  handoff_key, repair_key, save_repair, save_projected_handoff, replace_watches,
}
use clawside.Orchestrator.Store.Frames.{replace_watches-Keeps}
use clawside.Orchestrator.Store.Lists.{invalidates, replayed_events, event_before}
use clawside.Orchestrator.Events.{preserve_static_handoff_fields}
use clawside.Orchestrator.Events.Accepted.{load_handoff-Returns, save_projected-Returns}
use clawside.Orchestrator.Service.Create.{create_default_watches}
use clawside.Orchestrator.Service.Create.Frames.{create_default_watches-Keeps}
use clawside.Orchestrator.Service.Repair.{
  invalidation, replayed_handoff, replay_handoff_projection, new_invalidations,
}

module _ {R : Type 0} (before : R → R → Bool) (P : R → Type 0) where
  All-split :
      (test : Bool) (new r : R) (rows rest : List R)
      → (All P rest → P new × All P rows)
      → All P (if test then new ∷ r ∷ rows else r ∷ rest)
      → P new × All P (r ∷ rows)
  All-split true new r rows rest ih a = a
  All-split false new r rows rest ih a = let (one, others) = ih a.1 in (one, (a.0, others))

  All-place : (new : R) (rows : List R) → All P (place before new rows) → P new × All P rows
  unfolding place
  All-place new [] a = (a.0, tt)
  All-place new (r ∷ rows) a =
      let ih = All-place new rows in
      All-split (before new r) new r rows (place before new rows) ih a

  pub All-order_by : (rows : List R) → All P (order_by before rows) → All P rows
  unfolding order_by
  All-order_by [] a = tt
  All-order_by (r ∷ rows) a =
      let (one, rest) = All-place r (order_by before rows) a in (one, All-order_by rows rest)

-- Where each selected row fails a second test, no row is selected by both.
select-none :
    {R : Type 0} (test other : R → Bool) (rows : List R)
    → All (λ r. other r ≡ false) (select test rows)
    → select (λ r. test r && other r) rows ≡ []
unfolding select
select-none test other [] a = refl
select-none test other (r ∷ rows) a = elim (Bool-cases (test r)) [
  | inl yes_ ↦
      let a' : (other r ≡ false) × All (λ x. other x ≡ false) (select test rows) = rw yes_ at a in
      rw (yes_, a'.0) (select-none test other rows a'.1)
  | inr no_ ↦
      let a' : All (λ x. other x ≡ false) (select test rows) = rw no_ at a in
      rw no_ (select-none test other rows a')
]

-- The records of a reopening invalidate every event that they were made for, and nothing is written.
abbrev pub Covered : List RepairRecord → EventRecord → Type 0
Covered repairs e = exists (invalidates e.id) repairs ≡ true

All-Covered-cons :
    (r : RepairRecord) (repairs : List RepairRecord) (events : List EventRecord)
    → All (Covered repairs) events
    → All (Covered (r ∷ repairs)) events
unfolding exists
All-Covered-cons r repairs [] a = tt
All-Covered-cons r repairs (e ∷ events) a =
    (ground (arith, a.0), All-Covered-cons r repairs events a.1)

Covered-by :
    {records others : List RepairRecord} (events : List EventRecord)
    → records ≡ others
    → All (Covered records) events
    → All (Covered others) events
Covered-by events same a = rw same at a

Covered-first :
    (e : EventRecord) (reason : String) (actor : ActorRef) (id : String) (at_ : ℕ)
    (rest : List RepairRecord)
    → Covered (invalidation e.id reason actor id at_ ∷ rest) e
unfolding exists invalidation
Covered-first e reason actor id at_ rest = rw str_eq_self refl

pub new_invalidations-Covered :
    (reason : String) (actor : ActorRef) (events : List EventRecord) {records : List RepairRecord}
    {s t : Service}
    → Returns (new_invalidations reason actor events) s records t
    → All (Covered records) events
unfolding new_invalidations
new_invalidations-Covered reason actor [] r = tt
new_invalidations-Covered reason actor (e ∷ events) {records = records} r =
    let (id, s1, r1, q1) = >>=-Returns r in
    let (at_, s2, r2, q2) = >>=-Returns q1 in
    let (rest, s3, r3, q3) = >>=-Returns q2 in
    let (same, _) = pure-Returns q3 in
    Covered-by (e ∷ events) same (
      Covered-first e reason actor id at_ rest,
      All-Covered-cons (invalidation e.id reason actor id at_) rest events
          (new_invalidations-Covered reason actor events r3),
    )

pub new_invalidations-Keeps :
    (P : Store → Type 0) (reason : String) (actor : ActorRef) (events : List EventRecord)
    → Keeps P (new_invalidations reason actor events)
unfolding new_invalidations
new_invalidations-Keeps P reason actor [] = pure-Keeps P []
new_invalidations-Keeps P reason actor (e ∷ events) =
    bind-Keeps P {Q = Anything} (new_id-Keeps P "repair") (λ id _.
      bind-Keeps P {Q = Anything} (current_time-Keeps P) (λ at_ _.
        bind-Keeps P {Q = Anything} (new_invalidations-Keeps P reason actor events)
          (λ rest _. pure-Keeps P _)))

exists-append :
    {R : Type 0} (test : R → Bool) (rows : List R) (r : R)
    → exists test (rows ++ r ∷ []) ≡ exists test rows || test r
unfolding exists
exists-append test [] r = ground arith
exists-append test (x ∷ rows) r = ground (arith, exists-append test rows r)

-- Saving a repair keeps what the ones before it invalidate, and adds what it invalidates.
save_repair-Returns :
    (r : RepairRecord) {u : _} {s t : Service}
    → Returns (save_repair r) s u t
    → t.store.repairs ≡ s.store.repairs ++ r ∷ []
unfolding save_repair run
save_repair-Returns r {u = u} {s = s} {t = t} q =
    let e = q.eq in
    elim (Option-cases (insert_row repair_key r s.store.repairs)) [
      | inl taken ↦ absurd (ground (arith, taken))
      | inr (rows, g) ↦ ground (arith, g, insert_row-fresh repair_key r s.store.repairs rows g)
    ]

pub save_repairs-Covered :
    (id : String) (records : List RepairRecord) {u : _} {s t : Service}
    → Returns (for_each records save_repair) s u t
    → (exists (invalidates id) s.store.repairs || exists (invalidates id) records) ≡ true
    → exists (invalidates id) t.store.repairs ≡ true
unfolding for_each exists
save_repairs-Covered id [] {s = s} r e =
    let (_, same) = pure-Returns r in
    ap (λ x. exists (invalidates id) x.store.repairs) (sym same) ∙ ground (arith, e)
save_repairs-Covered id (x ∷ records) {s = s} r e =
    let (_, s1, r1, q1) = >>-Returns r in
    let grown = save_repair-Returns x r1 in
    save_repairs-Covered id records q1 (
      ap (λ rs. exists (invalidates id) rs || exists (invalidates id) records) grown
      ∙ ap (λ b. b || exists (invalidates id) records)
          (exists-append (invalidates id) s.store.repairs x)
      ∙ ground (arith, e))

-- The events that a replay sees, where every event of the handoff is invalidated.
pub Covered_none :
    (id : String) (st : Store)
    → All
        (λ e. not (exists (invalidates e.id) st.repairs) ≡ false)
        (select (λ e. str_eq e.handoff_id id) st.accepted_events)
    → replayed_events id st ≡ []
unfolding replayed_events order_by
Covered_none id st a = ap (order_by event_before) (
    select-none (λ e. str_eq e.handoff_id id) (λ e. not (exists (invalidates e.id) st.repairs))
      st.accepted_events a)

-- The tables that a replay reads and writes are those of an earlier store.
abbrev Same : Store → Store → Type 0
Same before st =
    (st.handoffs ≡ before.handoffs)
    × (st.repairs ≡ before.repairs)
    × (st.accepted_events ≡ before.accepted_events)

-- The handoff that a replay stores.
pub record Replayed (id : String) (before after : Store) : Type 0 where
  pub handoff : Handoff
  pub reset_at : ℕ
  pub now : ℕ
  pub stored :
      find handoff_key id after.handoffs
      ≡ some (replayed_handoff handoff (replayed_events id before) reset_at now)
  pub repairs : after.repairs ≡ before.repairs
  pub accepted_events : after.accepted_events ≡ before.accepted_events

replayed-id :
    (h : Handoff) (events : List EventRecord) (reset_at now : ℕ)
    → (replayed_handoff h events reset_at now).id ≡ h.id
unfolding replayed_handoff preserve_static_handoff_fields
replayed-id h events reset_at now = refl

-- What the statements of a replay, one after the other, come to.
replayed-stored :
    (id : String) (h p : Handoff) (before after : Store)
    → find handoff_key id before.handoffs ≡ some h
    → p.id ≡ h.id
    → after.handoffs ≡ update handoff_key p.id (λ _. p) before.handoffs
    → find handoff_key id after.handoffs ≡ some p
replayed-stored id h p before after found same saved =
    let key : p.id ≡ id = same ∙ find_key handoff_key id h before.handoffs found in
    ap (find handoff_key id) (saved ∙ ap (λ i. update handoff_key i (λ _. p) before.handoffs) key)
    ∙ find-update_self handoff_key id (λ _. p) h before.handoffs key found

-- What a replay does once it has its handoff.
abbrev write_back : String → Handoff → ℕ → Action Done
write_back id p version = do
  save_projected_handoff p version
  now ← current_time
  watches ← create_default_watches p now
  replace_watches id watches

write_back-Returns :
    (id : String) (p : Handoff) (version : ℕ) {u : _} {s t : Service}
    → Returns (write_back id p version) s u t
    → (t.store.handoffs ≡ update handoff_key p.id (λ _. p) s.store.handoffs)
      × (t.store.repairs ≡ s.store.repairs)
      × (t.store.accepted_events ≡ s.store.accepted_events)
write_back-Returns id p version {s = s} {t = t} r =
    let (_, s5, r5, q5) = >>-Returns r in
    let (later, s6, r6, q6) = >>=-Returns q5 in
    let (watches, s7, r7, q7) = >>=-Returns q6 in
    let e6 = ap (λ x. x.store) (save_projected-Returns p version r5) in
    let P = Same s5.store in
    let rest : Same s5.store t.store =
      Keeps-Returns P (replace_watches-Keeps P (λ _ _ x. x) id watches) q7 (
        Keeps-Returns P (create_default_watches-Keeps P p later) r7
          (Keeps-Returns P (current_time-Keeps P) r6 (refl, refl, refl))) in
    (
      rest.0 ∙ ap (λ x. x.handoffs) e6,
      rest.1 ∙ ap (λ x. x.repairs) e6,
      rest.2 ∙ ap (λ x. x.accepted_events) e6,
    )

pub current_time-Returns : {n : ℕ} {s t : Service} → Returns current_time s n t → t.store ≡ s.store
unfolding current_time
current_time-Returns r = ap (λ x. x.1.store) (sym r.eq)

pub replay-Replayed :
    (id : String) {u : _} {s t : Service}
    → Returns (replay_handoff_projection id) s u t
    → Replayed id s.store t.store
unfolding replay_handoff_projection
replay-Replayed id {s = s} {t = t} r =
    let (h, s1, r1, q1) = >>=-Returns r in
    let (reset_at, s2, r2, q2) = >>=-Returns q1 in
    let (st, s3, r3, q3) = >>=-Returns q2 in
    let (now, s4, r4, q4) = >>=-Returns q3 in
    let p = replayed_handoff h (replayed_events id st) reset_at now in
    let (found, e1) = load_handoff-Returns id r1 in
    let (e3, e4) = store_of-Returns r3 in
    let same2 : s2.store ≡ s.store = current_time-Returns r2 ∙ ap (λ x. x.store) (sym e1) in
    let same4 : s4.store ≡ s.store = current_time-Returns r4 ∙ ap (λ x. x.store) (sym e4) ∙ same2 in
    let (w1, w2, w3) = write_back-Returns id p h.state_version q4 in
    record {
      handoff = h;
      reset_at = reset_at;
      now = now;
      stored =
          replayed-stored id h p s.store t.store found (replayed-id h _ reset_at now)
            (w1 ∙ ap (λ x. update handoff_key p.id (λ _. p) x.handoffs) same4)
          ∙ ap (λ x. some (replayed_handoff h (replayed_events id x) reset_at now))
              (sym e3 ∙ same2);
      repairs = w2 ∙ ap (λ x. x.repairs) same4;
      accepted_events = w3 ∙ ap (λ x. x.accepted_events) same4;
    }
