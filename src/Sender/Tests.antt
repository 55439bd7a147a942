-- ===== src/Sender/Tests.antt =====
-- A small table of jobs on which the theorems on the sender are tried: one that is pending, one that
-- waits for its retry and one that was sent.
mod Jobs
mod Rounds
mod Messages
mod Reports
use clawside.Common.{
  ℕ, ◌*◌, ◌+◌, ◌/◌, ◌≤◌, String, true, false, none, some, List, [], ◌∷◌, ◌≡◌, refl, arith, inr, ◌⊎◌,
  ◌↔◌, ◌==◌, length, All, Option, ◌&&◌,
}
use clawside.Common.Int.{ℤ, pos}
use clawside.Sender.Timestamps.{second, text_le, text_le-seconds, text_le_reversed}
use clawside.Sender.Text.{trim_space, is_blank_text, normalize_bot_name}
use clawside.Sender.Store.{
  Status, CreateJob, Job, Store, get_job, get_by_idempotency_key, find_row, insert_job, is_ready,
  claimed, claim_rows, claim_next_ready, settle_job, enqueue, new_job, update_rows, count_rows,
  mark_sent,
}
use clawside.Sender.Store.Ops.{Op, step, run}
use clawside.Sender.Store.Keys.{IsValid, run-IsValid}
use clawside.Sender.Store.Lifecycle.{SameContent, Evolves, step-Evolves}
use clawside.Sender.Store.History.{run-content, run-final}
use clawside.Sender.Store.Claim.{Claims, claim-some, claim-none, claim-not_early}
use clawside.Sender.Store.Settle.{answer, written, settle_exact}
use clawside.Sender.Store.Exclusive.{no_double_claim}
use clawside.Sender.RuntimeState.{new_runtime_state}
use clawside.Sender.Worker.{
  BotRuntimeConfig, SendResult, sent_ok, Worker, lookup_bot, process_next_at, run_loop,
  claim_lease_duration,
}
use clawside.Sender.Worker.Outcome.{change, round_outcome, round_idle}
use clawside.Sender.Worker.Budget.{work, IsSound}
use clawside.Sender.Submit.{
  SendCommand, SendService, ok, err, validate, accept, submit, resolve_max_attempts, allowlisted,
  same_send_payload, enqueue_checked, idempotency_key_conflict, bot_required,
}
use clawside.Sender.Submit.Accepted.{
  IsAccepted, validate-IsAccepted, outcome, submit-IsSound, submit_refused,
}
use clawside.Sender.Submit.Idempotent.{submit_again}
use clawside.Sender.Queries.{
  found, allowed_job_status, normalize_job_list_filter, has_status, ordered_rows, limit_rows,
  list_rows, map_items, list_jobs, get_stats, readiness, max_job_list_limit,
}
use clawside.Sender.Requests.{
  HttpHandler, new_http_handler, Method, Request, Surroundings, authorized, is_post, strip_prefix,
  serve_http,
}
use clawside.Sender.Requests.Guarded.{serve-guarded, serve-IsSound, serve-unkeyed}
use clawside.Sender.Queries.Listed.{min, list_rows_exact, list_jobs_bounded}
use clawside.Sender.Queries.Reported.{get_stats_total}

abbrev pub job_1 : Job
job_1 = record {
  id = 1;
  bot_name = "news";
  chat_id = 7;
  text = "hello";
  idempotency_key = "key-1";
  status = Status.pending;
  attempt_count = 0;
  max_attempts = 3;
  next_retry_at = none;
  lease_expires_at = none;
  last_error = "";
  created_at = 1;
  updated_at = 1;
  sent_at = none;
  reply_to_message_id = none;
  disable_notification = false;
}

abbrev pub job_2 : Job
job_2 = record job_1 {
  id = 2;
  idempotency_key = "key-2";
  status = Status.retry;
  attempt_count = 1;
  next_retry_at = some (3 * second);
}

abbrev pub job_3 : Job
job_3 = record job_1 {
  id = 3;
  idempotency_key = "";
  status = Status.sent;
  attempt_count = 1;
  sent_at = some 2;
}

abbrev pub table : Store
table = record { rows = job_1 ∷ job_2 ∷ job_3 ∷ []; next_id = 4 }

abbrev pub finished : Store
finished = record { rows = job_3 ∷ []; next_id = 4 }

abbrev pub now : ℕ
now = 5 * second

abbrev pub lease : ℕ
lease = 12 * second

pub table-IsValid : IsValid table
table-IsValid = record {
  ordered = (
    ((ground arith, inr refl), ((ground arith, inr refl), tt)),
    (((ground arith, inr refl), tt), (tt, tt)),
  );
  below = (ground arith, (ground arith, (ground arith, tt)));
}

abbrev pub claimed_1 : Job
claimed_1 = record job_1 {
  status = Status.sending;
  updated_at = now;
  lease_expires_at = some (now + lease);
}

-- Statements of a day: a message, a claim that fails, a recovery and another claim.
abbrev pub day : List Op
day =
    Op.claim now lease
    ∷ Op.retry 1 1 (now + second) "timeout" now
    ∷ Op.recover (now + second) second
    ∷ Op.claim (now + 2 * second) lease
    ∷ []

abbrev pub bot : BotRuntimeConfig
bot = record { enabled = true; account_id = "1"; token = "token"; allow_user_ids = 7 ∷ [] }

abbrev pub bots : List (String × BotRuntimeConfig)
bots = ("news", bot) ∷ []

pub table-IsSound : IsSound table
table-IsSound = record {
  valid = table-IsValid;
  budgets = ((λ _. ground arith), ((λ _. ground arith), ((λ f. ground arith), tt)));
}

abbrev pub same_text : String → String
same_text s = s
