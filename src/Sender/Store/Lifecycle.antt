-- ===== src/Sender/Store/Lifecycle.antt =====
-- The life of a row: which statuses follow one another, what of a row is never rewritten, and that no
-- row is lost.
use clawside.Common.{
  ℕ, Bool, true, List, [], ◌∷◌, ◌++◌, ◌-◌, some, ◌≡◌, refl, ap, arith, All, Bool-cases,
  Option-cases, inl, inr, ◌==◌, none-ne-some, some_eq,
}
use clawside.Sender.Store.{
  CreateJob, Job, Status, Store, find_row, has_id, is_sending, in_flight, get_by_idempotency_key,
  update_rows, insert_job, enqueue, is_ready, claimed, claim_rows, recovered, claim_next_ready,
  settle_job, mark_retry, mark_sent, mark_failed, is_expired_sending, recover_expired_sending_jobs,
}
use clawside.Sender.Store.Ops.{Op, step}

pub data Move : Status → Status → Type 0 where
  claim_pending : Move Status.pending Status.sending
  claim_retry : Move Status.retry Status.sending
  put_back : Move Status.sending Status.retry
  deliver : Move Status.sending Status.sent
  give_up : Move Status.sending Status.failed

-- What a row keeps from its creation.
pub record SameContent (j k : Job) : Type 0 where
  pub id : k.id ≡ j.id
  pub bot_name : k.bot_name ≡ j.bot_name
  pub chat_id : k.chat_id ≡ j.chat_id
  pub text : k.text ≡ j.text
  pub idempotency_key : k.idempotency_key ≡ j.idempotency_key
  pub max_attempts : k.max_attempts ≡ j.max_attempts
  pub created_at : k.created_at ≡ j.created_at
  pub reply_to_message_id : k.reply_to_message_id ≡ j.reply_to_message_id
  pub disable_notification : k.disable_notification ≡ j.disable_notification

pub data JobStep (j k : Job) : Type 0 where
  kept : k ≡ j → JobStep j k
  moved : SameContent j k → Move j.status k.status → JobStep j k

-- Each row is kept or makes one move; new rows come at the end and are pending.
pub data Evolves : List Job → List Job → Type 0 where
  created : {rows : List Job} → All (λ j. j.status ≡ Status.pending) rows → Evolves [] rows
  next :
      {j k : Job} {rows rows' : List Job}
      → JobStep j k
      → Evolves rows rows'
      → Evolves (j ∷ rows) (k ∷ rows')

Evolves-refl : (rows : List Job) → Evolves rows rows
Evolves-refl [] = created tt
Evolves-refl (j ∷ rows) = next (kept refl) (Evolves-refl rows)

Evolves-append :
    (rows : List Job) (j : Job) → j.status ≡ Status.pending → Evolves rows (rows ++ j ∷ [])
Evolves-append [] j p = created (p, tt)
Evolves-append (k ∷ rows) j p = next (kept refl) (Evolves-append rows j p)

Evolves-update_rows :
    (test : Job → Bool) (change : Job → Job)
    → ((j : Job) → test j ≡ true → JobStep j (change j))
    → (rows : List Job) → Evolves rows (update_rows test change rows)
unfolding update_rows
Evolves-update_rows test change h [] = created tt
Evolves-update_rows test change h (j ∷ rows) = elim (Bool-cases (test j)) [
  | inl yes_ ↦ rw yes_ (next (h j yes_) (Evolves-update_rows test change h rows))
  | inr no_ ↦ rw no_ (next (kept refl) (Evolves-update_rows test change h rows))
]

claimed-Move : (now lease : ℕ) (j : Job) → is_ready now j ≡ true → Move j.status Status.sending
unfolding is_ready
claimed-Move now lease j r = grind (arith, claim_pending, claim_retry)

claimed-JobStep :
    (now lease : ℕ) (j : Job) → is_ready now j ≡ true → JobStep j (claimed now lease j)
unfolding claimed
claimed-JobStep now lease j r = moved (ground arith) (claimed-Move now lease j r)

Evolves-claim_rows : (now lease : ℕ) (rows : List Job) → Evolves rows (claim_rows now lease rows).0
unfolding claim_rows
Evolves-claim_rows now lease [] = created tt
Evolves-claim_rows now lease (j ∷ rows) = elim (Bool-cases (is_ready now j)) [
  | inl yes_ ↦ rw yes_ (next (claimed-JobStep now lease j yes_) (Evolves-refl rows))
  | inr no_ ↦ rw no_ (next (kept refl) (Evolves-claim_rows now lease rows))
]

-- A change to a row that is being sent, which sets the status and leaves the content alone.
pub record Settles (t : Status) (change : Job → Job) : Type 0 where
  pub status : (j : Job) → (change j).status ≡ t
  pub content : (j : Job) → SameContent j (change j)
  pub allowed : Move Status.sending t

sending_of_test : (j : Job) → is_sending j.status ≡ true → j.status ≡ Status.sending
sending_of_test j e = ground arith

move_eq : {a b x y : Status} → a ≡ x → b ≡ y → Move x y → Move a b
move_eq p q m = rw (p, q) m

Settles-JobStep :
    (t : Status) (change : Job → Job) (j : Job)
    → Settles t change
    → is_sending j.status ≡ true
    → JobStep j (change j)
Settles-JobStep t change j c e =
    moved (c.content j) (move_eq (sending_of_test j e) (c.status j) c.allowed)

in_flight_sending : (id : ℕ) (j : Job) → in_flight id j ≡ true → is_sending j.status ≡ true
in_flight_sending id j e = ground arith

Evolves-settle :
    (s : Store) (id : ℕ) (t : Status) (change : Job → Job)
    → Settles t change
    → Evolves s.rows (settle_job s id change).0.rows
unfolding settle_job
Evolves-settle s id t change c =
    Evolves-update_rows (in_flight id) change
      (λ j e. Settles-JobStep t change j c (in_flight_sending id j e)) s.rows

Evolves-enqueue : (s : Store) (c : CreateJob) (now : ℕ) → Evolves s.rows (enqueue s c now).0.rows
unfolding insert_job enqueue
Evolves-enqueue s c now = elim (Option-cases (get_by_idempotency_key s c.idempotency_key)) [
  | inl fresh ↦ rw (fresh, enqueue) (Evolves-append s.rows _ refl)
  | inr (j, found) ↦ rw (found, enqueue) (Evolves-refl s.rows)
]

expired_is_sending :
    (now cutoff : ℕ) (j : Job) → is_expired_sending now cutoff j ≡ true → is_sending j.status ≡ true
unfolding is_expired_sending
expired_is_sending now cutoff j e = ground arith

recovered-Settles : (now : ℕ) → Settles Status.retry (recovered now)
unfolding recovered
recovered-Settles now = record {
  status = λ j. refl;
  content = λ j. ground arith;
  allowed = put_back;
}

content_kept : (j k : Job) → k ≡ j → SameContent j k
content_kept j k e = ground arith

-- Whatever the statement, each row keeps its content and stays or makes one move of the life cycle,
-- no row goes away, and a new row is pending.
pub step-Evolves : (s : Store) (op : Op) → Evolves s.rows (step s op).rows
unfolding step mark_retry mark_sent mark_failed claim_next_ready recover_expired_sending_jobs
step-Evolves s (Op.enqueued c now) = Evolves-enqueue s c now
step-Evolves s (Op.claim now lease) = Evolves-claim_rows now lease s.rows
step-Evolves s (Op.retry id n at_ error now) =
    Evolves-settle s id Status.retry _
      (record { status = λ j. refl; content = λ j. ground arith; allowed = put_back })
step-Evolves s (Op.sent id n now) =
    Evolves-settle s id Status.sent _
      (record { status = λ j. refl; content = λ j. ground arith; allowed = deliver })
step-Evolves s (Op.failed id n error now) =
    Evolves-settle s id Status.failed _
      (record { status = λ j. refl; content = λ j. ground arith; allowed = give_up })
step-Evolves s (Op.recover now grace) =
    Evolves-update_rows (is_expired_sending now (now - grace)) (recovered now)
      (λ j e.
        Settles-JobStep Status.retry (recovered now) j (recovered-Settles now)
          (expired_is_sending now (now - grace) j e))
      s.rows

pub JobStep-content : (j k : Job) → JobStep j k → SameContent j k
JobStep-content j k (kept e) = content_kept j k e
JobStep-content j k (moved c m) = c

-- The row that a lookup by a kept column finds is followed by the one that the lookup finds later.
pub find_row-Evolves :
    (test : Job → Bool)
    → ((j k : Job) → SameContent j k → test k ≡ test j)
    → (rows rows' : List Job) (j : Job) → Evolves rows rows'
    → find_row test rows ≡ some j
    → (k : Job) × (find_row test rows' ≡ some k) × JobStep j k
unfolding find_row
find_row-Evolves test same_test rows rows' j (created p) f = absurd (none-ne-some f)
find_row-Evolves test same_test (x ∷ rows) (y ∷ rows') j (next e rest) f =
    let step_test : test y ≡ test x = same_test x y (JobStep-content x y e) in
    elim (Bool-cases (test x)) [
      | inl yes_ ↦
          let same : x ≡ j = some_eq (rw yes_ at f) in (y, rw (step_test, yes_), rw same at e)
      | inr no_ ↦
          let (k, found, st) = find_row-Evolves test same_test rows rows' j rest (rw no_ at f) in
          (k, rw (step_test, no_) found, st)
    ]

pub same_has_id : (id : ℕ) (j k : Job) → SameContent j k → has_id id k ≡ has_id id j
same_has_id id j k c = ap (λ i. i == id) c.id
