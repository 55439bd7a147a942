-- ===== src/Sender/Store/Exclusive.antt =====
-- A claimed job is not handed out a second time before it is put back.
use mathlib.Core.Bool.{false≢true}
use mathlib.Core.Path.{subst}
use clawside.Common.{
  ℕ, ◌+◌, ◌-◌, ◌/◌, leb, ◌++◌, Bool, true, false, not, ◌&&◌, List, [], ◌∷◌, some, ◌≡◌, inl, inr,
  refl, sym, ap, ◌∙◌, arith, Bool-cases, Option-cases, none-ne-some, some_eq, ◌==◌, if◌then◌else◌,
}
use clawside.Sender.Store.{
  CreateJob, Job, Status, Store, in_flight, find_row, has_id, get_by_idempotency_key, insert_job,
  enqueue, is_ready, claimed, claim_rows, claim_next_ready, settle_job, mark_retry, mark_sent,
  mark_failed, is_sending, is_expired_sending, recovered, recover_expired_sending_jobs,
}
use clawside.Sender.Store.Keys.{IsValid, step-IsValid, run-IsValid}
use clawside.Sender.Store.Ops.{Op, step, run}
use clawside.Sender.Store.Claim.{claim-some}
use clawside.Sender.Store.Lease.{find_row-update_rows, lease_not_expired}
use clawside.Sender.Timestamps.{second}

-- Neither pending nor waiting for a retry.
abbrev pub is_held : Status → Bool
is_held Status.pending = false
is_held Status.retry = false
is_held _ = true

-- The statements that may make the job `id` claimable again, where its lease ends at `ends`: its
-- retry, and a recovery that does not run in a second before that of the end.
abbrev pub releases : ℕ → ℕ → Op → Bool
releases id ends (Op.retry i n at_ error now) = i == id
releases id ends (Op.recover now grace) = leb (ends / second) (now / second)
releases id ends _ = false

abbrev pub none_releases : ℕ → ℕ → List Op → Bool
none_releases id ends [] = true
none_releases id ends (op ∷ ops) = not (releases id ends op) && none_releases id ends ops

pub record Holds (id ends : ℕ) (rows : List Job) : Type 0 where
  pub job : Job
  pub there : find_row (has_id id) rows ≡ some job
  pub held : is_held job.status ≡ true
  pub leased : is_sending job.status ≡ true → job.lease_expires_at ≡ some ends

id-find_row : (id : ℕ) (rows : List Job) (j : Job) → find_row (has_id id) rows ≡ some j → j.id ≡ id
unfolding find_row
id-find_row id [] j f = absurd (none-ne-some f)
id-find_row id (i ∷ rows) j f = ground (arith, id-find_row id rows j)

pub find_row-append :
    (id : ℕ) (rows : List Job) (n j : Job)
    → find_row (has_id id) rows ≡ some j
    → find_row (has_id id) (rows ++ n ∷ []) ≡ some j
unfolding find_row
find_row-append id [] n j f = absurd (none-ne-some f)
find_row-append id (i ∷ rows) n j f = elim (Bool-cases (has_id id i)) [
  | inl y ↦ rw y (rw y at f)
  | inr x ↦ rw x (find_row-append id rows n j (rw x at f))
]

held_not_ready : (now : ℕ) (j : Job) → is_held j.status ≡ true → is_ready now j ≡ false
unfolding is_ready
held_not_ready now j h = ground arith

find_row-claim_rows :
    (now lease id : ℕ) (rows : List Job) (j : Job)
    → is_held j.status ≡ true
    → find_row (has_id id) rows ≡ some j
    → find_row (has_id id) (claim_rows now lease rows).0 ≡ some j
unfolding find_row claim_rows claimed
find_row-claim_rows now lease id [] j h f = absurd (none-ne-some f)
find_row-claim_rows now lease id (i ∷ rows) j h f =
    ground (arith, find_row-claim_rows now lease id rows j h, held_not_ready now i)

module _ (s : Store) (id ends : ℕ) (h : Holds id ends s.rows) where
  settle-Holds :
      (target : ℕ) (change : Job → Job)
      → ((j : Job) → (change j).id ≡ j.id)
      → ((j : Job) → in_flight target j ≡ true → j.id ≡ id → is_held (change j).status ≡ true)
      → ((j : Job) → is_sending (change j).status ≡ false)
      → Holds id ends (settle_job s target change).0.rows
  unfolding settle_job
  settle-Holds target change k ok idle = record {
    job = if in_flight target h.job then change h.job else h.job;
    there = find_row-update_rows id (in_flight target) change s.rows h.job k h.there;
    held = elim (Bool-cases (in_flight target h.job)) [
      | inl y ↦ rw y (ok h.job y (id-find_row id s.rows h.job h.there))
      | inr n ↦ rw n h.held
    ];
    leased = λ sending. elim (Bool-cases (in_flight target h.job)) [
      | inl y ↦ absurd (false≢true (sym (idle h.job) ∙ (rw y at sending)))
      | inr n ↦ rw n (h.leased (rw n at sending))
    ];
  }

  enqueue-Holds : (c : CreateJob) (now : ℕ) → Holds id ends (enqueue s c now).0.rows
  unfolding insert_job enqueue
  enqueue-Holds c now = elim (Option-cases (get_by_idempotency_key s c.idempotency_key)) [
    | inl fresh ↦
        rw (fresh, enqueue)
          (record {
            job = h.job;
            there = find_row-append id s.rows _ h.job h.there;
            held = h.held;
            leased = h.leased;
          })
    | inr (j, found) ↦ rw (found, enqueue) h
  ]

  step-Holds : (op : Op) → releases id ends op ≡ false → Holds id ends (step s op).rows
  unfolding step mark_retry mark_sent mark_failed claim_next_ready recover_expired_sending_jobs
      recovered
  step-Holds (Op.enqueued c now) r = enqueue-Holds c now
  step-Holds (Op.claim now lease) r = record {
    job = h.job;
    there = find_row-claim_rows now lease id s.rows h.job h.held h.there;
    held = h.held;
    leased = h.leased;
  }
  step-Holds (Op.retry i n at_ error now) r =
      settle-Holds i _ (λ j. refl) (λ j y e. ground arith) (λ j. refl)
  step-Holds (Op.sent i n now) r = settle-Holds i _ (λ j. refl) (λ j y e. refl) (λ j. refl)
  step-Holds (Op.failed i n error now) r = settle-Holds i _ (λ j. refl) (λ j y e. refl) (λ j. refl)
  step-Holds (Op.recover now grace) r = record {
    job = h.job;
    there =
        find_row-update_rows id (is_expired_sending now (now - grace)) (recovered now) s.rows h.job
          (λ j. refl) h.there
        ∙ rw (lease_not_expired now (now - grace) ends h.job h.leased r) refl;
    held = h.held;
    leased = h.leased;
  }

run-Holds :
    (s : Store) (ops : List Op) (id ends : ℕ)
    → Holds id ends s.rows
    → none_releases id ends ops ≡ true
    → Holds id ends (run s ops).rows
unfolding run
run-Holds s [] id ends h r = h
run-Holds s (op ∷ ops) id ends h r =
    run-Holds (step s op) ops id ends (step-Holds s id ends h op (ground arith)) (ground arith)

claim-Holds :
    (s : Store) (now lease : ℕ) (k : Job)
    → IsValid s
    → (claim_next_ready s now lease).1 ≡ some k
    → Holds k.id (now + lease) (claim_next_ready s now lease).0.rows
unfolding claimed
claim-Holds s now lease k v e =
    let c = claim-some s now lease k v e in
    let same : c.job.id ≡ k.id = ap (λ (j : Job). j.id) (sym c.result) in
    record {
      job = k;
      there =
          subst (λ i. find_row (has_id i) (claim_next_ready s now lease).0.rows ≡ some k) same
            c.written;
      held = ap (λ (j : Job). is_held j.status) c.result;
      leased = λ _. ap (λ (j : Job). j.lease_expires_at) c.result;
    }

held_not_claimed :
    (s : Store) (now lease id ends : ℕ) (k : Job)
    → IsValid s
    → Holds id ends s.rows
    → (claim_next_ready s now lease).1 ≡ some k
    → (k.id == id) ≡ false
unfolding claimed
held_not_claimed s now lease id ends k v h e = elim (Bool-cases (k.id == id)) [
  | inr n ↦ n
  | inl y ↦
      let c = claim-some s now lease k v e in
      let same : c.job.id ≡ id = ap (λ (j : Job). j.id) (sym c.result) ∙ (ground arith) in
      let one : c.job ≡ h.job = some_eq (sym c.there ∙ (rw same h.there)) in
      absurd (false≢true (sym (held_not_ready now h.job h.held) ∙ (rw (← one) c.ready)))
]

-- After a claim in a valid table, no later claim returns the same job, as long as no statement in
-- between marks that job for a retry and every recovery in between runs in a second before that in
-- which the lease of the claim ends.
pub no_double_claim :
    (s : Store) (now lease : ℕ) (k : Job)
    → IsValid s
    → (claim_next_ready s now lease).1 ≡ some k
    → (ops : List Op) (now' lease' : ℕ) (k' : Job) → none_releases k.id (now + lease) ops ≡ true
    → (claim_next_ready (run (claim_next_ready s now lease).0 ops) now' lease').1 ≡ some k'
    → (k'.id == k.id) ≡ false
no_double_claim s now lease k v e ops now' lease' k' r e' =
    let s' = (claim_next_ready s now lease).0 in
    let v' : IsValid s' = unfold step in step-IsValid s (Op.claim now lease) v in
    held_not_claimed (run s' ops) now' lease' k.id (now + lease) k' (run-IsValid s' ops v')
      (run-Holds s' ops k.id (now + lease) (claim-Holds s now lease k v e) r) e'
