-- ===== src/Orchestrator/Service/Calls/Delivered.antt =====
-- Among the accepted events no id and no delivery stands twice.
use clawside.Common.{
  ℕ, false, none, some, List, [], ◌∷◌, ◌++◌, ◌≡◌, arith, All, str_eq, inl, inr, Bool-cases,
}
use clawside.Orchestrator.Types.{Handoff, EventRecord}
use clawside.Orchestrator.Records.{OwnershipBinding}
use clawside.Orchestrator.Table.{find, exists}
use clawside.Orchestrator.Table.Laws.{insert_row-fresh}
use clawside.Orchestrator.Action.{Store, Service}
use clawside.Orchestrator.Action.Rules.{
  Keeps, Anything, or_raise-Meets, transaction-Meets, then-Keeps, bind-Keeps, current_time-Keeps,
  store_of-Meets, put_store-Keeps,
}
use clawside.Orchestrator.Store.{
  event_key, same_delivery, insert_event, save_handoff, save_projected_handoff,
  save_ownership_binding, update_handoff_ownership, load_ownership_binding,
}
use clawside.Orchestrator.Store.Frames.{
  load_handoff-Keeps, insert_accepted_event-Keeps, write-Keeps,
}
use clawside.Orchestrator.Service.Status.{UpdateOwnershipInput, update_ownership}
use clawside.Orchestrator.Service.Calls.{Call, perform_all, empty_store}
use clawside.Orchestrator.Service.Calls.Keeping.{Invariant}
use clawside.Orchestrator.Service.Calls.Performed.{perform_all-keeps}

-- Two events that were accepted in this order have different ids, and are not the same delivery.
abbrev pub Apart : EventRecord → EventRecord → Type 0
Apart earlier later = (str_eq earlier.id later.id ≡ false) × (same_delivery later earlier ≡ false)

abbrev pub Delivered : List EventRecord → Type 0
Delivered [] = Unit
Delivered (e ∷ events) = All (Apart e) events × Delivered events

All-Apart-append :
    (e new : EventRecord) (events : List EventRecord)
    → All (Apart e) events
    → Apart e new
    → All (Apart e) (events ++ new ∷ [])
All-Apart-append e new [] a b = (b, tt)
All-Apart-append e new (x ∷ events) a b = (a.0, All-Apart-append e new events a.1 b)

Delivered-append :
    (new : EventRecord) (events : List EventRecord)
    → Delivered events
    → find event_key new.id events ≡ none
    → exists (same_delivery new) events ≡ false
    → Delivered (events ++ new ∷ [])
unfolding find exists
Delivered-append new [] d f x = (tt, tt)
Delivered-append new (e ∷ events) d f x =
    let apart : Apart e new = ground arith in
    (
      All-Apart-append e new events d.0 apart,
      Delivered-append new events d.1 (ground arith) (ground arith),
    )

insert_event-Delivered :
    (new : EventRecord) (events grown : List EventRecord)
    → Delivered events
    → insert_event new events ≡ some grown
    → Delivered grown
unfolding insert_event
insert_event-Delivered new events grown d e =
    elim (Bool-cases (exists (same_delivery new) events)) [
      | inl taken ↦ absurd (ground arith)
      | inr free ↦
          let (fresh, same) = insert_row-fresh event_key new events grown (ground arith) in
          rw same (Delivered-append new events d fresh free)
    ]

abbrev P : Store → Type 0
P st = Delivered st.accepted_events

binding-Keeps : (b : OwnershipBinding) → Keeps P (save_ownership_binding b)
unfolding save_ownership_binding
binding-Keeps b = write-Keeps P (λ st p. p)

save_handoff-Keeps : (h : Handoff) → Keeps P (save_handoff h)
unfolding save_handoff
save_handoff-Keeps h =
    bind-Keeps P (store_of-Meets P) (λ st p. then-Keeps P (put_store-Keeps P _ p) (binding-Keeps _))

save_projected-Keeps : (h : Handoff) (version : ℕ) → Keeps P (save_projected_handoff h version)
unfolding save_projected_handoff
save_projected-Keeps h version = bind-Keeps P (store_of-Meets P) (λ st p.
    bind-Keeps P {Q = Anything} (or_raise-Meets P Anything _ _ (λ _ _. tt))
      (λ row _. then-Keeps P (put_store-Keeps P _ p) (binding-Keeps _)))

own-Keeps : (input : UpdateOwnershipInput) → Keeps P (update_ownership input)
unfolding update_ownership update_handoff_ownership load_ownership_binding
own-Keeps input = bind-Keeps P {Q = Anything} (load_handoff-Keeps P input.handoff_id) (λ h _.
    bind-Keeps P {Q = Anything} (current_time-Keeps P) (λ now _.
      then-Keeps P
        (transaction-Meets P Anything (
          bind-Keeps P (store_of-Meets P) (λ st p.
            bind-Keeps P {Q = Anything} (or_raise-Meets P Anything _ _ (λ _ _. tt))
              (λ row _. then-Keeps P (put_store-Keeps P _ p) (binding-Keeps _)))))
        (bind-Keeps P (store_of-Meets P) (λ st p. or_raise-Meets P Anything _ _ (λ _ _. tt)))))

Delivered-invariant : Invariant (λ handoffs bindings events. Delivered events) Anything
Delivered-invariant = record {
  loaded = load_handoff-Keeps P;
  inserted =
      λ e. insert_accepted_event-Keeps P e (λ st rows d i. insert_event-Delivered e _ rows d i);
  projected = λ h e _. save_projected-Keeps _ _;
  created = λ h _. save_handoff-Keeps h;
  replayed = λ h events reset_at now _. save_projected-Keeps _ _;
  owned = own-Keeps;
}

-- Whatever calls of `Call` a service with an empty store has answered, also those that failed, no two of its
-- accepted events have the same id, and no two the same handoff and the same idempotency key that is
-- not empty.
pub stored_deliveries :
    (calls : List Call) (s : Service)
    → s.store ≡ empty_store
    → Delivered (perform_all calls s).store.accepted_events
stored_deliveries calls s empty =
    perform_all-keeps _ Anything Delivered-invariant calls s (rw empty tt)
