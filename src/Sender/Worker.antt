-- ===== src/Sender/Worker.antt =====
-- worker.go, retry_policy.go and telegram_error_classifier.go: one round of the worker. What
-- Telegram answers to a message is the argument `send`; the bots are an association list of their
-- configuration by name. Durations are nanoseconds. `retryAfter` is tested only by `> 0`, so a
-- negative one is 0 here. A round reads the clock once, as `now`. The statements that others run on
-- the table while the message is being sent are the argument `meanwhile`.
pub mod Outcome
pub mod Budget
pub mod Arrivals
pub mod Loop
use clawside.Common.{
  ℕ, zero, suc, ◌+◌, ◌-◌, ◌*◌, String, Bool, true, false, not, ◌&&◌, Option, none, some, List, [],
  ◌∷◌, ltb, ◌==◌, if◌then◌else◌, str_eq,
}
use clawside.Common.Int.{ℤ, pos, negsuc}
use clawside.Sender.Timestamps.{second}
use clawside.Sender.Text.{is_blank_text}
use clawside.Sender.Store.{
  Job, Store, StoreError, state_conflict, claim_next_ready, mark_retry, mark_sent, mark_failed,
}
use clawside.Sender.Store.Ops.{Op, run}
use clawside.Sender.RuntimeState.{
  RuntimeState, mark_worker_started, mark_worker_loop, mark_worker_stopped, mark_job_claimed,
  mark_job_succeeded, mark_job_failed,
}

pub record BotRuntimeConfig : Type 0 where
  pub enabled : Bool
  pub account_id : String
  pub token : String
  pub allow_user_ids : List ℕ

unfoldable pub lookup_bot : String → List (String × BotRuntimeConfig) → Option BotRuntimeConfig
lookup_bot name [] = none
lookup_bot name ((n, bot) ∷ bots) = if str_eq n name then some bot else lookup_bot name bots

-- An error of `SendMessage`, with its text. Only a `TelegramError` has the other two fields.
pub data SendError : Type 0 where
  telegram_error : String → Bool → ℕ → SendError
  other_error : String → SendError

pub data SendResult : Type 0 where
  sent_ok : SendResult
  send_failed : SendError → SendResult

unfoldable pub error_text : SendError → String
error_text (telegram_error text retryable retry_after) = text
error_text (other_error text) = text

abbrev first_retry_delay : ℕ
first_retry_delay = 10 * second

abbrev second_retry_delay : ℕ
second_retry_delay = 60 * second

abbrev third_retry_delay : ℕ
third_retry_delay = 5 * 60 * second

abbrev default_retry_delay : ℕ
default_retry_delay = 15 * 60 * second

unfoldable pub retry_delay : ℕ → ℕ → ℕ
retry_delay attempt_count retry_after =
    if ltb 0 retry_after
    then retry_after
    else if attempt_count == 1
    then first_retry_delay
    else if attempt_count == 2
    then second_retry_delay
    else if attempt_count == 3
    then third_retry_delay
    else default_retry_delay

unfoldable pub retry_decision : SendError → ℕ × Bool
retry_decision (telegram_error text retryable retry_after) = (retry_after, retryable)
retry_decision (other_error text) = (0, false)

abbrev lease_buffer : ℕ
lease_buffer = 2 * second

-- The worker, and what it holds.
pub record Worker : Type 0 where
  pub store : Store
  pub bots : List (String × BotRuntimeConfig)
  pub send_timeout : ℤ
  pub runtime_state : RuntimeState

-- `if d <= 0 { return leaseBuffer }`, for the sum of the timeout and the buffer.
abbrev lease_of : ℤ → ℕ
lease_of (pos timeout) = timeout + lease_buffer
lease_of (negsuc n) = if ltb (suc n) lease_buffer then lease_buffer - suc n else lease_buffer

unfoldable pub claim_lease_duration : Worker → ℕ
claim_lease_duration w = lease_of w.send_timeout

-- What a round returns: whether it had a job, and the error of the store if there was one that is no
-- state conflict.
pub record Round : Type 0 where
  pub worker : Worker
  pub processed : Bool
  pub error : Option StoreError

unfoldable pub is_state_conflict : StoreError → Bool
is_state_conflict state_conflict = true
is_state_conflict _ = false

-- `if err := w.store.Mark…(); err != nil { if !w.logSettlementStateConflict(…) { return true, err } }`
-- and the mark in the runtime state behind it.
unfoldable pub settled : Worker → Store × Option StoreError → RuntimeState → Round
unfolding is_state_conflict
settled w (store, none) marked = record {
  worker = record w { store = store; runtime_state = marked };
  processed = true;
  error = none;
}
settled w (store, some e) marked =
    if is_state_conflict e
    then record {
      worker = record w { store = store; runtime_state = marked };
      processed = true;
      error = none;
    }
    else record { worker = record w { store = store }; processed = true; error = some e }

-- The end of a round whose message was sent, or not.
unfoldable pub after_send : Worker → Job → SendResult → ℕ → Round
unfolding retry_decision
after_send w job sent_ok now =
    settled w (mark_sent w.store job.id (job.attempt_count + 1) now)
      (mark_job_succeeded w.runtime_state now)
after_send w job (send_failed e) now =
    let attempt_count = job.attempt_count + 1 in
    let (retry_after, retryable) = retry_decision e in
    if retryable && ltb attempt_count job.max_attempts
    then settled w
        (mark_retry w.store job.id attempt_count (now + retry_delay attempt_count retry_after)
          (error_text e) now)
        (mark_job_failed w.runtime_state now)
    else settled w (mark_failed w.store job.id attempt_count (error_text e) now)
        (mark_job_failed w.runtime_state now)

-- A claimed job, with its bot.
unfoldable pub process_job :
    (String → Job → SendResult) → Worker → Job → Option BotRuntimeConfig → ℕ → Round
process_job send w job none now =
    settled w (mark_failed w.store job.id job.attempt_count "missing bot token configuration" now)
      (mark_job_failed w.runtime_state now)
process_job send w job (some bot) now =
    if is_blank_text bot.token
    then settled w
        (mark_failed w.store job.id job.attempt_count "missing bot token configuration" now)
        (mark_job_failed w.runtime_state now)
    else after_send w job (send bot.token job) now

process_claimed : (String → Job → SendResult) → Worker → List Op → Store × Option Job → ℕ → Round
unfolding process_job
process_claimed send w meanwhile (store, none) now = record {
  worker = record w { store = store };
  processed = false;
  error = none;
}
process_claimed send w meanwhile (store, some job) now =
    process_job send
      (record w {
        store = run store meanwhile;
        runtime_state = mark_job_claimed w.runtime_state now;
      })
      job (lookup_bot job.bot_name w.bots) now

unfoldable pub process_next_at : (String → Job → SendResult) → Worker → List Op → ℕ → Round
unfolding process_claimed claim_lease_duration
process_next_at send w meanwhile now =
    process_claimed send w meanwhile (claim_next_ready w.store now (claim_lease_duration w)) now

-- A round of the loop: what others do to the table before it, the time, and what they do during it.
pub record Turn : Type 0 where
  pub before : List Op
  pub now : ℕ
  pub meanwhile : List Op

unfoldable pub begin_turn : Worker → Turn → Worker
begin_turn w turn = record w {
  store = run w.store turn.before;
  runtime_state = mark_worker_loop w.runtime_state turn.now;
}

-- The loop of `Run`, once for each time at which the clock is read; the number of rounds that had a
-- job is counted. An error of a round is logged, and the loop goes on. How long the loop sleeps
-- shows only in the times.
unfoldable pub run_loop : (String → Job → SendResult) → Worker → List Turn → Worker × ℕ
unfolding begin_turn
run_loop send w [] = (w, 0)
run_loop send w (turn ∷ turns) =
    let round = process_next_at send (begin_turn w turn) turn.meanwhile turn.now in
    let (last, count) = run_loop send round.worker turns in
    (last, if round.processed then suc count else count)

-- `Run`, from its start at a time until it is cancelled behind the last round.
unfoldable pub run_worker : (String → Job → SendResult) → Worker → ℕ → List Turn → Worker × ℕ
unfolding run_loop
run_worker send w started turns =
    let begun = record w { runtime_state = mark_worker_started w.runtime_state started } in
    let (last, count) = run_loop send begun turns in
    (record last { runtime_state = mark_worker_stopped last.runtime_state }, count)
