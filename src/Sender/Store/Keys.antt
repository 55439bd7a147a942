-- ===== src/Sender/Store/Keys.antt =====
-- The ids and the idempotency keys of the table: ids ascend and stay below the next one, and no two
-- rows have the same key, unless it is empty.
use clawside.Common.{
  ℕ, ◌+◌, ◌<◌, String, Bool, false, List, [], ◌∷◌, ◌++◌, none, ◌≡◌, refl, sym, ap, ◌⊎◌, inl, inr,
  arith, All, All-append, str_eq, eq_iff, Bool-cases, Option-cases, none-ne-some,
}
use clawside.Sender.Store.{
  CreateJob, Job, Store, empty, find_row, has_key, insert_job, get_by_idempotency_key, update_rows,
  enqueue, claim_rows, claim_next_ready, settle_job, mark_retry, mark_sent, mark_failed,
  recover_expired_sending_jobs,
}
use clawside.Sender.Store.Ops.{Op, step, run}

abbrev pub Key : Type 0
Key = ℕ × String

abbrev pub keys : List Job → List Key
keys [] = []
keys (j ∷ rows) = (j.id, j.idempotency_key) ∷ keys rows

-- Two rows may share a key only if it is empty.
abbrev pub Apart : Key → Key → Type 0
Apart p q = (p.0 < q.0) × ((p.1 ≡ "") ⊎ (str_eq p.1 q.1 ≡ false))

abbrev pub Ordered : List Key → Type 0
Ordered [] = Unit
Ordered (p ∷ ps) = All (Apart p) ps × Ordered ps

pub record IsValid (s : Store) : Type 0 where
  pub ordered : Ordered (keys s.rows)
  pub below : All (λ p. p.0 < s.next_id) (keys s.rows)

pub empty-IsValid : IsValid empty
empty-IsValid = record { ordered = tt; below = tt }

module _ (test : Job → Bool) (change : Job → Job) where
  pub keys-update_rows :
      ((j : Job) → ((change j).id ≡ j.id) × ((change j).idempotency_key ≡ j.idempotency_key))
      → (rows : List Job) → keys (update_rows test change rows) ≡ keys rows
  unfolding update_rows
  keys-update_rows same [] = refl
  keys-update_rows same (j ∷ rows) = elim (Bool-cases (test j)) [
    | inl yes_ ↦
        rw (yes_, (same j).0, (same j).1)
          (ap (λ ps. (j.id, j.idempotency_key) ∷ ps) (keys-update_rows same rows))
    | inr no_ ↦ rw no_ (ap (λ ps. (j.id, j.idempotency_key) ∷ ps) (keys-update_rows same rows))
  ]

keys-claim_rows : (now lease : ℕ) (rows : List Job) → keys (claim_rows now lease rows).0 ≡ keys rows
unfolding claim_rows
keys-claim_rows now lease [] = refl
keys-claim_rows now lease (j ∷ rows) = ground (arith, keys-claim_rows now lease rows)

-- A statement that keeps the ids, the keys and the counter keeps a valid table valid.
same-IsValid :
    (s t : Store) → keys t.rows ≡ keys s.rows → t.next_id ≡ s.next_id → IsValid s → IsValid t
same-IsValid s t k n v = record { ordered = rw k v.ordered; below = rw (k, n) v.below }

pub settle-IsValid :
    (s : Store) (id : ℕ) (change : Job → Job)
    → ((j : Job) → ((change j).id ≡ j.id) × ((change j).idempotency_key ≡ j.idempotency_key))
    → IsValid s
    → IsValid (settle_job s id change).0
unfolding settle_job
settle-IsValid s id change same v = same-IsValid s _ (keys-update_rows _ change same s.rows) refl v

keys-append :
    (rows : List Job) (j : Job)
    → keys (rows ++ j ∷ []) ≡ keys rows ++ (j.id, j.idempotency_key) ∷ []
keys-append [] j = refl
keys-append (k ∷ rows) j = ap (λ ps. (k.id, k.idempotency_key) ∷ ps) (keys-append rows j)

Ordered-append :
    (ps : List Key) (q : Key) → Ordered ps → All (λ p. Apart p q) ps → Ordered (ps ++ q ∷ [])
Ordered-append [] q o a = (tt, tt)
Ordered-append (p ∷ ps) q o a =
    (All-append (Apart p) ps (q ∷ []) o.0 (a.0, tt), Ordered-append ps q o.1 a.1)

All-weaken : (n m : ℕ) (ps : List Key) → n < m → All (λ p. p.0 < n) ps → All (λ p. p.0 < m) ps
All-weaken n m [] lt a = tt
All-weaken n m (p ∷ ps) lt a = (omega arith, All-weaken n m ps lt a.1)

key_apart : (p q : String) → q ≡ "" → (p ≡ "") ⊎ (str_eq p q ≡ false)
key_apart p q e = ground (arith, eq_iff p q, Bool-cases (str_eq p q))

absent-key :
    (s : Store) (key : String)
    → get_by_idempotency_key s key ≡ none
    → (key ≡ "") ⊎ (find_row (has_key key) s.rows ≡ none)
unfolding get_by_idempotency_key
absent-key s key e = ground (arith, eq_iff key "")

-- A key that no row has is apart from all of them.
fresh_key :
    (id : ℕ) (key : String) (rows : List Job)
    → All (λ p. p.0 < id) (keys rows)
    → (key ≡ "") ⊎ (find_row (has_key key) rows ≡ none)
    → All (λ p. Apart p (id, key)) (keys rows)
unfolding find_row
fresh_key id key [] below fresh = tt
fresh_key id key (j ∷ rows) below (inl e) =
    ((below.0, key_apart j.idempotency_key key e), fresh_key id key rows below.1 (inl e))
fresh_key id key (j ∷ rows) below (inr e) = elim (Bool-cases (has_key key j)) [
  | inl yes_ ↦ absurd (none-ne-some (sym (rw yes_ at e)))
  | inr no_ ↦ ((below.0, inr no_), fresh_key id key rows below.1 (inr (rw no_ at e)))
]

pub insert-IsValid :
    (s : Store) (c : CreateJob) (now : ℕ)
    → get_by_idempotency_key s c.idempotency_key ≡ none
    → IsValid s
    → IsValid (insert_job s c now).0
unfolding insert_job
insert-IsValid s c now fresh v =
    let apart =
      fresh_key s.next_id c.idempotency_key s.rows v.below (absent-key s c.idempotency_key fresh) in
    record {
      ordered =
          rw (keys-append s.rows (insert_job s c now).1)
            (Ordered-append (keys s.rows) _ v.ordered apart);
      below = rw (keys-append s.rows (insert_job s c now).1) (
          All-append _ (keys s.rows) _
            (All-weaken s.next_id (s.next_id + 1) (keys s.rows) (omega arith) v.below)
            (omega arith, tt));
    }

-- Accepting a job keeps the table valid, whether it is inserted or found.
pub enqueue-IsValid :
    (s : Store) (c : CreateJob) (now : ℕ) → IsValid s → IsValid (enqueue s c now).0
unfolding enqueue
enqueue-IsValid s c now v = elim (Option-cases (get_by_idempotency_key s c.idempotency_key)) [
  | inl fresh ↦ rw (fresh, enqueue) (insert-IsValid s c now fresh v)
  | inr (j, found) ↦ rw (found, enqueue) v
]

-- Every statement keeps the table valid.
pub step-IsValid : (s : Store) (op : Op) → IsValid s → IsValid (step s op)
unfolding step mark_retry mark_sent mark_failed claim_next_ready recover_expired_sending_jobs
step-IsValid s (Op.enqueued c now) v = enqueue-IsValid s c now v
step-IsValid s (Op.claim now lease) v = same-IsValid s _ (keys-claim_rows now lease s.rows) refl v
step-IsValid s (Op.retry id n at_ error now) v = settle-IsValid s id _ (λ j. (refl, refl)) v
step-IsValid s (Op.sent id n now) v = settle-IsValid s id _ (λ j. (refl, refl)) v
step-IsValid s (Op.failed id n error now) v = settle-IsValid s id _ (λ j. (refl, refl)) v
step-IsValid s (Op.recover now grace) v =
    same-IsValid s _ (keys-update_rows _ _ (λ j. (refl, refl)) s.rows) refl v

-- Any list of statements keeps a valid table valid: ids stay in order and below the next one, and no two rows share
-- an idempotency key that is not empty.
pub run-IsValid : (s : Store) (ops : List Op) → IsValid s → IsValid (run s ops)
unfolding run
run-IsValid s [] v = v
run-IsValid s (op ∷ ops) v = run-IsValid (step s op) ops (step-IsValid s op v)
