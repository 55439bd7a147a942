-- ===== src/Sender/Worker/Budget.antt =====
-- How much work the worker has left: the attempts that the jobs which are not final may still make.
use mathlib.Core.Path.{subst}
use clawside.Common.{
  ℕ, ◌+◌, ◌-◌, ◌≤◌, ◌<◌, String, Bool, true, false, List, [], ◌∷◌, Option, none, some, ◌≡◌, inl,
  inr, refl, sym, ap, arith, All, Bool-cases, none-ne-some, some_eq, ltb, if◌then◌else◌,
}
use clawside.Sender.Text.{is_blank_text}
use clawside.Sender.Store.{
  Job, Store, is_sending, in_flight, find_row, has_id, update_rows, is_ready, claimed, claim_rows,
}
use clawside.Sender.Store.Keys.{keys, Ordered, IsValid}
use clawside.Sender.Store.History.{is_final}
use clawside.Sender.Store.Settle.{later_not_in_flight, update_rows-none}
use clawside.Sender.Worker.{
  BotRuntimeConfig, SendResult, sent_ok, send_failed, telegram_error, other_error,
}
use clawside.Sender.Worker.Outcome.{verdict, round_change, change}

abbrev pub work_of : Job → ℕ
work_of j = if is_final j.status then 0 else j.max_attempts - j.attempt_count

abbrev pub work : List Job → ℕ
work [] = 0
work (j ∷ rows) = work_of j + work rows

-- A job that is not final has an attempt left.
abbrev pub HasBudget : Job → Type 0
HasBudget j = is_final j.status ≡ false → j.attempt_count < j.max_attempts

ready_not_final : (now : ℕ) (j : Job) → is_ready now j ≡ true → is_final j.status ≡ false
unfolding is_ready
ready_not_final now j r = ground arith

pub claim_rows-work :
    (now lease : ℕ) (rows : List Job)
    → All HasBudget rows
    → (work (claim_rows now lease rows).0 ≡ work rows) × All HasBudget (claim_rows now lease rows).0
unfolding claim_rows claimed
claim_rows-work now lease [] b = (refl, tt)
claim_rows-work now lease (j ∷ rows) b = elim (Bool-cases (is_ready now j)) [
  | inl r ↦ let live = ready_not_final now j r in rw (r, live) (refl, (λ _. b.0 live, b.1))
  | inr r ↦
      let (same, rest) = claim_rows-work now lease rows b.1 in
      rw r (ap (λ n. work_of j + n) same, (b.0, rest))
]

pub budget-find_row :
    (test : Job → Bool) (rows : List Job) (k : Job)
    → All HasBudget rows
    → find_row test rows ≡ some k
    → HasBudget k
unfolding find_row
budget-find_row test [] k a f = absurd (none-ne-some f)
budget-find_row test (j ∷ rows) k a f = elim (Bool-cases (test j)) [
  | inl y ↦ subst HasBudget (some_eq (rw y at f)) a.0
  | inr n ↦ budget-find_row test rows k a.1 (rw n at f)
]

head_work :
    (change : Job → Job) (rows : List Job) (j : Job) (id : ℕ)
    → Ordered (keys (j ∷ rows))
    → has_id id j ≡ true
    → is_sending j.status ≡ true
    → All HasBudget rows
    → HasBudget (change j)
    → (work (update_rows (in_flight id) change (j ∷ rows)) + work_of j
        ≡ work (j ∷ rows) + work_of (change j))
      × All HasBudget (update_rows (in_flight id) change (j ∷ rows))
unfolding update_rows
head_work change rows j id o y d b c =
    let here : j.id ≡ id = ground arith in
    let idle = later_not_in_flight (j.id, j.idempotency_key) rows o.0 in
    let (same, _) =
      update_rows-none (in_flight id) change rows
        (subst (λ i. All (λ r. in_flight i r ≡ false) rows) here idle) in
    rw (y, d, same) (omega arith, (c, b))

-- Settling the one row that is being sent moves its work, and its budget, to the row written.
pub settle-work :
    (change : Job → Job) (rows : List Job) (k : Job) (id : ℕ)
    → Ordered (keys rows)
    → find_row (has_id id) rows ≡ some k
    → is_sending k.status ≡ true
    → All HasBudget rows
    → HasBudget (change k)
    → (work (update_rows (in_flight id) change rows) + work_of k ≡ work rows + work_of (change k))
      × All HasBudget (update_rows (in_flight id) change rows)
unfolding find_row update_rows
settle-work change [] k id o f d b c = absurd (none-ne-some f)
settle-work change (j ∷ rows) k id o f d b c = elim (Bool-cases (has_id id j)) [
  | inl y ↦
      let same : j ≡ k = some_eq (rw y at f) in
      subst
        (λ i.
          (work (update_rows (in_flight id) change (j ∷ rows)) + work_of i
            ≡ work (j ∷ rows) + work_of (change i))
          × All HasBudget (update_rows (in_flight id) change (j ∷ rows)))
        same
        (head_work change rows j id o y (subst (λ i. is_sending i.status ≡ true) (sym same) d) b.1
          (subst (λ i. HasBudget (change i)) (sym same) c))
  | inr n ↦
      let (moved, rest) = settle-work change rows k id o.1 (rw n at f) d b.1 c in
      rw n (omega (arith, moved), (b.0, rest))
]

-- A round spends at least one attempt of the job, and keeps the job within its budget.
verdict_spends :
    (r : SendResult) (k : Job) (now : ℕ)
    → is_sending k.status ≡ true
    → HasBudget k
    → (work_of (verdict r k now k) + 1 ≤ work_of k) × HasBudget (verdict r k now k)
unfolding verdict
verdict_spends sent_ok k now d b = ground arith
verdict_spends (send_failed (telegram_error text true retry_after)) k now d b =
    elim (Bool-cases (ltb (k.attempt_count + 1) k.max_attempts)) [
      | inl y ↦ rw y (ground arith)
      | inr n ↦ rw n (ground arith)
    ]
verdict_spends (send_failed (telegram_error text false retry_after)) k now d b = ground arith
verdict_spends (send_failed (other_error text)) k now d b = ground arith

pub change_spends :
    (send : String → Job → SendResult) (bot : Option BotRuntimeConfig) (k : Job) (now : ℕ)
    → is_sending k.status ≡ true
    → HasBudget k
    → (work_of (round_change send bot k now k) + 1 ≤ work_of k)
      × HasBudget (round_change send bot k now k)
unfolding round_change
change_spends send none k now d b = ground arith
change_spends send (some bot) k now d b = elim (Bool-cases (is_blank_text bot.token)) [
  | inl y ↦ rw y (ground arith)
  | inr n ↦ rw n (verdict_spends (send bot.token k) k now d b)
]

-- A table that is valid, and whose jobs are within their budgets.
pub record IsSound (s : Store) : Type 0 where
  pub valid : IsValid s
  pub budgets : All HasBudget s.rows
