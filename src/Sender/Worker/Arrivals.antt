-- ===== src/Sender/Worker/Arrivals.antt =====
-- What the messages that arrive beside the worker add to its work.
use clawside.Common.{
  ℕ, ◌+◌, ◌≤◌, List, [], ◌∷◌, ◌++◌, none, some, ◌≡◌, inl, inr, arith, All, All-append, Option-cases,
}
use clawside.Sender.Store.{
  CreateJob, Job, Store, get_job, get_by_idempotency_key, new_job, insert_job, enqueue,
}
use clawside.Sender.Store.Exclusive.{find_row-append}
use clawside.Sender.Store.Keys.{insert-IsValid}
use clawside.Sender.Store.Ops.{Op, step, run}
use clawside.Sender.Worker.Budget.{HasBudget, IsSound, work_of, work}

budgets_append :
    (rows : List Job) (j : Job) → All HasBudget rows → HasBudget j → All HasBudget (rows ++ j ∷ [])
budgets_append rows j a b = All-append HasBudget rows (j ∷ []) a (b, tt)

pub insert-IsSound :
    (s : Store) (c : CreateJob) (now : ℕ)
    → get_by_idempotency_key s c.idempotency_key ≡ none
    → 1 ≤ c.max_attempts
    → IsSound s
    → IsSound (insert_job s c now).0
unfolding insert_job new_job
insert-IsSound s c now f m v = record {
  valid = insert-IsValid s c now f v.valid;
  budgets = budgets_append s.rows _ v.budgets (λ _. omega arith);
}

-- An arriving message, which may be tried at least once; and the attempts that it brings.
abbrev pub Arrives : Op → Type 0
Arrives (Op.enqueued c now) = 1 ≤ c.max_attempts
Arrives _ = ⊥

abbrev pub brought : List Op → ℕ
brought [] = 0
brought (Op.enqueued c now ∷ ops) = c.max_attempts + brought ops
brought (_ ∷ ops) = brought ops

work-append : (rows : List Job) (j : Job) → work (rows ++ j ∷ []) ≡ work rows + work_of j
work-append [] j = omega arith
work-append (i ∷ rows) j = omega (arith, work-append rows j)

insert-work :
    (s : Store) (c : CreateJob) (now : ℕ)
    → work (insert_job s c now).0.rows ≤ work s.rows + c.max_attempts
unfolding insert_job new_job
insert-work s c now = omega (arith, work-append s.rows (new_job c s.next_id now))

-- A message adds at most its attempts, and keeps the table sound.
enqueue-work :
    (s : Store) (c : CreateJob) (now : ℕ)
    → 1 ≤ c.max_attempts
    → IsSound s
    → (work (enqueue s c now).0.rows ≤ work s.rows + c.max_attempts) × IsSound (enqueue s c now).0
unfolding enqueue
enqueue-work s c now m v = elim (Option-cases (get_by_idempotency_key s c.idempotency_key)) [
  | inl fresh ↦ rw (fresh, enqueue) (insert-work s c now, insert-IsSound s c now fresh m v)
  | inr (j, found) ↦ rw (found, enqueue) (omega arith, v)
]

enqueue-kept :
    (s : Store) (c : CreateJob) (now id : ℕ) (k : Job)
    → get_job s id ≡ some k
    → get_job (enqueue s c now).0 id ≡ some k
unfolding get_job insert_job new_job enqueue
enqueue-kept s c now id k f = elim (Option-cases (get_by_idempotency_key s c.idempotency_key)) [
  | inl fresh ↦ rw (fresh, enqueue) (find_row-append id s.rows _ k f)
  | inr (j, found) ↦ rw (found, enqueue) f
]

pub run-work :
    (s : Store) (ops : List Op)
    → All Arrives ops
    → IsSound s
    → (work (run s ops).rows ≤ work s.rows + brought ops) × IsSound (run s ops)
unfolding run step
run-work s [] a v = (omega arith, v)
run-work s (Op.enqueued c now ∷ ops) a v =
    let (more, v') = enqueue-work s c now a.0 v in
    let (rest, last) = run-work (enqueue s c now).0 ops a.1 v' in (omega (arith, more, rest), last)
run-work s (Op.claim now lease ∷ ops) a v = absurd a.0
run-work s (Op.retry id n at_ e now ∷ ops) a v = absurd a.0
run-work s (Op.sent id n now ∷ ops) a v = absurd a.0
run-work s (Op.failed id n e now ∷ ops) a v = absurd a.0
run-work s (Op.recover now grace ∷ ops) a v = absurd a.0

pub run-kept :
    (s : Store) (ops : List Op) (id : ℕ) (k : Job)
    → All Arrives ops
    → get_job s id ≡ some k
    → get_job (run s ops) id ≡ some k
unfolding run step
run-kept s [] id k a f = f
run-kept s (Op.enqueued c now ∷ ops) id k a f =
    run-kept (enqueue s c now).0 ops id k a.1 (enqueue-kept s c now id k f)
run-kept s (Op.claim now lease ∷ ops) id k a f = absurd a.0
run-kept s (Op.retry i n at_ e now ∷ ops) id k a f = absurd a.0
run-kept s (Op.sent i n now ∷ ops) id k a f = absurd a.0
run-kept s (Op.failed i n e now ∷ ops) id k a f = absurd a.0
run-kept s (Op.recover now grace ∷ ops) id k a f = absurd a.0
