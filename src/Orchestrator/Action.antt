-- ===== src/Orchestrator/Action.antt =====
-- internal/orchestrator: the state of the service and its calls. `Store` is the tables of
-- store.go and `Service` the struct of service.go. A call takes the service and returns a result
-- and the service behind it, also where it fails: what a statement outside a transaction wrote stays
-- written. The clock and `NewID` are a reading and an id for each number of calls made before.
pub mod Rules
pub mod Inversion
pub mod Drawing
use clawside.Common.{ℕ, ◌+◌, String, Bool, true, false, Option, none, some, List, [], ◌∷◌}
use clawside.Orchestrator.Types.{EventType, Workflow, Handoff, EventRecord}
use clawside.Orchestrator.Records.{
  Watch, RepairRecord, OwnershipBinding, ObserverHint, ObservedSignal, RepairCandidate, Artifact,
  TaskCreation,
}

pub record Store : Type 0 where
  pub workflows : List Workflow
  pub handoffs : List Handoff
  pub accepted_events : List EventRecord
  pub event_ingestion_audit : List EventRecord
  pub artifacts : List Artifact
  pub a2a_inbound_task_creations : List TaskCreation
  pub watches : List Watch
  pub divergences : List ObserverHint
  pub repairs : List RepairRecord
  pub ownership_bindings : List OwnershipBinding
  pub observed_signals : List ObservedSignal
  pub repair_candidates : List RepairCandidate

pub record Service : Type 0 where
  pub store : Store
  pub now : ℕ → ℕ
  pub new_id : ℕ → String → String
  pub calls : ℕ

-- The errors that the callers or the theorems tell apart; `invalid` is any other, with its text.
pub data Failure : Type 0 where
  no_rows constraint not_found concurrency_conflict idempotency_conflict : Failure
  rejected : String → Failure
  invalid : String → Failure

pub data Result (A : Type 0) : Type 0 where
  ok : A → Result A
  err : Failure → Result A

abbrev pub Action : Type 0 → Type 0
Action A = Service → Result A × Service

module _ {A : Type 0} where
  unfoldable pub pure : A → Action A
  pure a s = (ok a, s)

  unfoldable pub raise : Failure → Action A
  raise failure s = (err failure, s)

  unfoldable pub or_raise : Option A → Failure → Action A
  unfolding pure raise
  or_raise none failure = raise failure
  or_raise (some a) failure = pure a

  -- `tx.Commit()` behind a body without error; the deferred `tx.Rollback()` behind any other.
  unfoldable pub commit : Store → Result A × Service → Result A × Service
  commit before (ok a, s) = (ok a, s)
  commit before (err failure, s) = (err failure, record s { store = before })

  unfoldable pub transaction : Action A → Action A
  unfolding commit
  transaction body s = commit s.store (body s)

unfoldable pub continue : {A B : Type 0} → (A → Action B) → Result A × Service → Result B × Service
continue next (ok a, s) = next a s
continue next (err failure, s) = (err failure, s)

infixl 5 ◌>>=◌ ◌>>◌
unfoldable pub ◌>>=◌ : {A B : Type 0} → Action A → (A → Action B) → Action B
unfolding continue
(first >>= next) s = continue next (first s)

abbrev pub Done : Type 0
Done = Unit {0}

unfoldable pub ◌>>◌ : {A B : Type 0} → Action A → Action B → Action B
unfolding ◌>>=◌
(first >> next) s = (first >>= λ _. next) s

unfoldable pub store_of : Action Store
store_of s = (ok s.store, s)

unfoldable pub put_store : Store → Action Done
put_store store s = (ok tt, record s { store = store })

unfoldable pub raise_if : Bool → Failure → Action Done
unfolding pure raise
raise_if true failure = raise failure
raise_if false failure = pure tt

-- `s.now()`
unfoldable pub current_time : Action ℕ
current_time s = (ok (s.now s.calls), record s { calls = s.calls + 1 })

-- `NewID(prefix)`
unfoldable pub new_id : String → Action String
new_id prefix s = (ok (s.new_id s.calls prefix), record s { calls = s.calls + 1 })

-- A loop whose body may fail, which ends it.
unfoldable pub for_each : {A : Type 0} → List A → (A → Action Done) → Action Done
for_each [] body = pure tt
for_each (a ∷ more) body = body a >> for_each more body

-- The result of a call; a proof that unfolds `run` sees through all of the above.
unfoldable pub run : {A : Type 0} → Action A → Service → Result A × Service
unfolding or_raise transaction ◌>>=◌ ◌>>◌ store_of put_store raise_if current_time new_id for_each
run call s = call s
