-- ===== src/Sender/Worker/Outcome.antt =====
-- How a round ends for the job that it claims.
use clawside.Common.{
  ℕ, zero, suc, ◌+◌, List, ◌⊎◌, arith, String, true, false, Option, none, some, ◌≡◌, inl, inr,
  none-ne-some, some_eq, refl, sym, ap, ◌∙◌, Bool-cases, ltb, if◌then◌else◌,
}
use clawside.Sender.Text.{is_blank_text}
use clawside.Sender.Store.{
  Job, Status, Store, StoreError, state_conflict, is_pending, is_sending, find_row, has_id, get_job,
  claimed, claim_next_ready, settle_job, mark_retry, mark_sent, mark_failed,
}
use clawside.Sender.Store.Keys.{IsValid, step-IsValid, run-IsValid}
use clawside.Sender.Store.History.{run-begun}
use clawside.Sender.Store.Ops.{Op, step, run}
use clawside.Sender.Store.Claim.{claim-some, claim-none}
use clawside.Sender.Store.Settle.{answer, written, sending_answer, settle_exact}
use clawside.Sender.RuntimeState.{RuntimeState, mark_job_claimed}
use mathlib.Core.Path.{subst}
use clawside.Sender.Worker.{
  BotRuntimeConfig, lookup_bot, SendResult, sent_ok, send_failed, telegram_error, other_error,
  error_text, retry_delay, retry_decision, Worker, Round, claim_lease_duration, settled, after_send,
  process_job, process_claimed, process_next_at,
}

-- How long a job waits after a number of attempts: what Telegram asks for, or ten seconds, a minute,
-- five minutes and then a quarter of an hour, in nanoseconds.
abbrev backoff : ℕ → ℕ
backoff (suc zero) = 10_000_000_000
backoff (suc (suc zero)) = 60_000_000_000
backoff (suc (suc (suc zero))) = 300_000_000_000
backoff _ = 900_000_000_000

abbrev wait : ℕ → ℕ → ℕ
wait (suc retry_after) attempts = suc retry_after
wait zero attempts = backoff attempts

retry_delay-wait :
    (attempts retry_after : ℕ) → retry_delay attempts retry_after ≡ wait retry_after attempts
unfolding retry_delay
retry_delay-wait attempts (suc retry_after) = ground arith
retry_delay-wait zero zero = refl
retry_delay-wait (suc zero) zero = refl
retry_delay-wait (suc (suc zero)) zero = refl
retry_delay-wait (suc (suc (suc zero))) zero = refl
retry_delay-wait (suc (suc (suc (suc n)))) zero = ground arith

-- The rows that a job may become: sent, waiting for another attempt, or failed.
abbrev delivered : ℕ → ℕ → Job → Job
delivered attempts now j = record j {
  status = Status.sent;
  attempt_count = attempts;
  next_retry_at = none;
  last_error = "";
  updated_at = now;
  sent_at = some now;
  lease_expires_at = none;
}

abbrev waiting : ℕ → ℕ → String → ℕ → Job → Job
waiting attempts at_ text now j = record j {
  status = Status.retry;
  attempt_count = attempts;
  next_retry_at = some at_;
  last_error = text;
  updated_at = now;
  sent_at = none;
  lease_expires_at = none;
}

abbrev given_up : ℕ → String → ℕ → Job → Job
given_up attempts text now j = record j {
  status = Status.failed;
  attempt_count = attempts;
  next_retry_at = none;
  last_error = text;
  updated_at = now;
  lease_expires_at = none;
}

-- The change that a round makes to the row of a claimed job, by what Telegram answers: only an error
-- of Telegram that says so is tried again, while attempts are left.
unfoldable pub verdict : SendResult → Job → ℕ → Job → Job
verdict sent_ok k now = delivered (k.attempt_count + 1) now
verdict (send_failed (telegram_error text true retry_after)) k now =
    if ltb (k.attempt_count + 1) k.max_attempts
    then waiting (k.attempt_count + 1) (now + wait retry_after (k.attempt_count + 1)) text now
    else given_up (k.attempt_count + 1) text now
verdict (send_failed (telegram_error text false retry_after)) k now =
    given_up (k.attempt_count + 1) text now
verdict (send_failed (other_error text)) k now = given_up (k.attempt_count + 1) text now

-- The change for a job whose bot is unknown or has no token.
unfoldable pub undeliverable : Job → ℕ → Job → Job
undeliverable k now = given_up k.attempt_count "missing bot token configuration" now

-- The change of a round, with the bot looked up.
unfoldable pub round_change :
    (String → Job → SendResult) → Option BotRuntimeConfig → Job → ℕ → Job → Job
unfolding verdict undeliverable
round_change send none k now = undeliverable k now
round_change send (some bot) k now =
    if is_blank_text bot.token then undeliverable k now else verdict (send bot.token k) k now

-- What is left of the round once the store has settled the job, or has found it settled by others.
pub record Settled (r : Round) (store : Store) : Type 0 where
  pub processed : r.processed ≡ true
  pub error : r.error ≡ none
  pub store_is : r.worker.store ≡ store

-- The answers of a settlement that a round does not report: none, and the state conflict.
abbrev Quiet : Option StoreError → Type 0
Quiet e = (e ≡ none) ⊎ (e ≡ some state_conflict)

answer-Quiet : (j : Job) → is_pending j.status ≡ false → Quiet (answer (some j))
answer-Quiet j p = elim (Bool-cases (is_sending j.status)) [
  | inl sending ↦ inl (sending_answer j sending)
  | inr other ↦ inr (ground arith)
]

settled_ok :
    (w : Worker) (store : Store) (e : Option StoreError) (m : RuntimeState)
    → Quiet e
    → Settled (settled w (store, e) m) store
unfolding settled
settled_ok w store e m (inl p) = rw p (record { processed = refl; error = refl; store_is = refl })
settled_ok w store e m (inr p) = rw p (record { processed = refl; error = refl; store_is = refl })

after_send-Settled :
    (w : Worker) (k : Job) (r : SendResult) (now : ℕ)
    → Quiet (settle_job w.store k.id (verdict r k now)).1
    → Settled (after_send w k r now) (settle_job w.store k.id (verdict r k now)).0
unfolding after_send retry_decision verdict mark_sent mark_retry mark_failed error_text
after_send-Settled w k sent_ok now p = settled_ok w _ _ _ p
after_send-Settled w k (send_failed (telegram_error text true retry_after)) now p =
    elim (Bool-cases (ltb (k.attempt_count + 1) k.max_attempts)) [
      | inl y ↦
          rw (y, retry_delay-wait (k.attempt_count + 1) retry_after)
            (settled_ok w _ _ _ (rw y at p))
      | inr n ↦ rw n (settled_ok w _ _ _ (rw n at p))
    ]
after_send-Settled w k (send_failed (telegram_error text false retry_after)) now p =
    settled_ok w _ _ _ p
after_send-Settled w k (send_failed (other_error text)) now p = settled_ok w _ _ _ p

process_job-Settled :
    (send : String → Job → SendResult) (w : Worker) (k : Job) (bot : Option BotRuntimeConfig)
    (now : ℕ)
    → Quiet (settle_job w.store k.id (round_change send bot k now)).1
    → Settled
        (process_job send w k bot now)
        (settle_job w.store k.id (round_change send bot k now)).0
unfolding process_job round_change mark_failed
process_job-Settled send w k none now p = settled_ok w _ _ _ p
process_job-Settled send w k (some bot) now p = elim (Bool-cases (is_blank_text bot.token)) [
  | inl y ↦ rw y (settled_ok w _ _ _ (rw y at p))
  | inr n ↦ rw n (after_send-Settled w k (send bot.token k) now (rw n at p))
]

id-verdict : (r : SendResult) (k : Job) (now : ℕ) (j : Job) → (verdict r k now j).id ≡ j.id
unfolding verdict
id-verdict r k now j = ground arith

pub id-round_change :
    (send : String → Job → SendResult) (bot : Option BotRuntimeConfig) (k : Job) (now : ℕ) (j : Job)
    → (round_change send bot k now j).id ≡ j.id
unfolding round_change
id-round_change send none k now j = refl
id-round_change send (some bot) k now j = elim (Bool-cases (is_blank_text bot.token)) [
  | inl y ↦ rw y
  | inr n ↦ rw n (id-verdict (send bot.token k) k now j)
]

process_claimed-some :
    (send : String → Job → SendResult) (w : Worker) (meanwhile : List Op) (p : Store × Option Job)
    (k : Job) (now : ℕ)
    → p.1 ≡ some k
    → process_claimed send w meanwhile p now
      ≡ process_job send
          (record w {
            store = run p.0 meanwhile;
            runtime_state = mark_job_claimed w.runtime_state now;
          })
          k
          (lookup_bot k.bot_name w.bots)
          now
unfolding process_claimed
process_claimed-some send w meanwhile (store, none) k now e = absurd (none-ne-some e)
process_claimed-some send w meanwhile (store, some j) k now e = rw (some_eq e)

process_claimed-none :
    (send : String → Job → SendResult) (w : Worker) (meanwhile : List Op) (p : Store × Option Job)
    (now : ℕ)
    → p.1 ≡ none
    → process_claimed send w meanwhile p now
      ≡ record { worker = record w { store = p.0 }; processed = false; error = none }
unfolding process_claimed
process_claimed-none send w meanwhile (store, none) now e = refl
process_claimed-none send w meanwhile (store, some j) now e = absurd (none-ne-some (sym e))

claimed_sending : (now lease : ℕ) (j k : Job) → k ≡ claimed now lease j → is_sending k.status ≡ true
unfolding claimed
claimed_sending now lease j k e = ap (λ (i : Job). is_sending i.status) e

same_claim_id : (now lease : ℕ) (j k : Job) → k ≡ claimed now lease j → j.id ≡ k.id
unfolding claimed
same_claim_id now lease j k e = ap (λ (i : Job). i.id) (sym e)

-- The table behind the claim, with what the settlement of the claimed job needs.
pub claim_there :
    (s : Store) (now lease : ℕ) (k : Job)
    → IsValid s
    → (claim_next_ready s now lease).1 ≡ some k
    → IsValid (claim_next_ready s now lease).0
      × (get_job (claim_next_ready s now lease).0 k.id ≡ some k)
      × (is_sending k.status ≡ true)
unfolding step get_job
claim_there s now lease k v e =
    let c = claim-some s now lease k v e in
    (
      step-IsValid s (Op.claim now lease) v,
      subst (λ i. find_row (has_id i) (claim_next_ready s now lease).0.rows ≡ some k)
          (same_claim_id now lease c.job k c.result) c.written,
      claimed_sending now lease c.job k c.result,
    )

module _ (send : String → Job → SendResult) (w : Worker) (meanwhile : List Op) (now : ℕ)
    (v : IsValid w.store) where
  abbrev pub claim : Store × Option Job
  claim = claim_next_ready w.store now (claim_lease_duration w)

  -- The table at the settlement.
  abbrev pub sent_from : Store
  sent_from = run claim.0 meanwhile

  abbrev pub change : Job → Job → Job
  change k = round_change send (lookup_bot k.bot_name w.bots) k now

  abbrev pub round : Round
  round = process_next_at send w meanwhile now

  sent_from-IsValid : IsValid sent_from
  unfolding step
  sent_from-IsValid =
      run-IsValid claim.0 meanwhile (step-IsValid w.store (Op.claim now (claim_lease_duration w)) v)

  -- The settlement of a round succeeds, or meets a job that was settled already.
  pub round-Settled :
      (k : Job) → claim.1 ≡ some k → Settled round (settle_job sent_from k.id (change k)).0
  unfolding process_next_at
  round-Settled k e =
      let (_, there, sending) = claim_there w.store now (claim_lease_duration w) k v e in
      let bot = lookup_bot k.bot_name w.bots in
      let (j, found, begun) = run-begun claim.0 meanwhile k.id k there (ground arith) in
      let (answered, _) =
        settle_exact sent_from k.id (change k) sent_from-IsValid (id-round_change send bot k now) in
      rw (process_claimed-some send w meanwhile claim k now e) (
        process_job-Settled send
          (record w { store = sent_from; runtime_state = mark_job_claimed w.runtime_state now }) k
          bot now (rw (answered, found) (answer-Quiet j begun)))

  -- In a valid table, a round that claims a job reports a job and no error, whatever others do to the
  -- table while the message is being sent. The job is still there behind that; if it is being sent,
  -- its row becomes what the answer of Telegram asks for, and otherwise the row stays as others left it.
  pub round_outcome :
      (k : Job)
      → claim.1 ≡ some k
      → (round.processed ≡ true)
        × (round.error ≡ none)
        × ((j : Job) × (get_job sent_from k.id ≡ some j)
            × (get_job round.worker.store k.id
                ≡ some (if is_sending j.status then change k j else j)))
  round_outcome k e =
      let (_, there, sending) = claim_there w.store now (claim_lease_duration w) k v e in
      let bot = lookup_bot k.bot_name w.bots in
      let (j, found, _) = run-begun claim.0 meanwhile k.id k there (ground arith) in
      let (_, row) =
        settle_exact sent_from k.id (change k) sent_from-IsValid (id-round_change send bot k now) in
      let done = round-Settled k e in
      (
        done.processed,
        done.error,
        (j, found, rw done.store_is (row ∙ ap (written (change k)) found)),
      )

  -- In a valid table, a round that claims no job reports none and leaves the store as it was.
  pub round_idle : claim.1 ≡ none → (round.processed ≡ false) × (round.worker.store ≡ w.store)
  unfolding process_next_at
  round_idle e =
      rw (process_claimed-none send w meanwhile claim now e)
        (refl, (claim-none w.store now (claim_lease_duration w) e).0)

key-verdict :
    (r : SendResult) (k : Job) (now : ℕ) (j : Job)
    → (verdict r k now j).idempotency_key ≡ j.idempotency_key
unfolding verdict
key-verdict r k now j = ground arith

pub key-round_change :
    (send : String → Job → SendResult) (bot : Option BotRuntimeConfig) (k : Job) (now : ℕ) (j : Job)
    → (round_change send bot k now j).idempotency_key ≡ j.idempotency_key
unfolding round_change
key-round_change send none k now j = refl
key-round_change send (some bot) k now j = elim (Bool-cases (is_blank_text bot.token)) [
  | inl y ↦ rw y
  | inr n ↦ rw n (key-verdict (send bot.token k) k now j)
]
