-- ===== src/Sender/Tests/Messages.antt =====
-- The theorems on requests and submissions at a small table of jobs.
use clawside.Common.{
  ◌+◌, String, true, false, none, some, List, [], ◌∷◌, ◌≡◌, refl, ◌⊎◌, Option, ◌&&◌,
}
use clawside.Common.Int.{ℤ, pos}
use clawside.Sender.Timestamps.{second}
use clawside.Sender.Text.{trim_space, is_blank_text, normalize_bot_name}
use clawside.Sender.Store.{
  CreateJob, Job, get_by_idempotency_key, find_row, insert_job, enqueue, new_job,
}
use clawside.Sender.Store.Ops.{Op, run}
use clawside.Sender.Store.Lifecycle.{SameContent}
use clawside.Sender.RuntimeState.{new_runtime_state}
use clawside.Sender.Worker.{lookup_bot}
use clawside.Sender.Worker.Budget.{IsSound}
use clawside.Sender.Submit.{
  SendCommand, SendService, ok, err, validate, accept, submit_amid, submit, resolve_max_attempts,
  allowlisted, same_send_payload, enqueue_checked, idempotency_key_conflict, bot_required,
}
use clawside.Sender.Submit.Accepted.{IsAccepted, validate-IsAccepted, submit_refused}
use clawside.Sender.Submit.Idempotent.{submit_again}
use clawside.Sender.Submit.Raced.{Answers, accept-Answers}
use clawside.Sender.Requests.{
  HttpHandler, new_http_handler, Method, Request, Surroundings, authorized, is_post, strip_prefix,
  serve_http,
}
use clawside.Sender.Requests.Guarded.{serve-guarded, serve-IsSound, serve-unkeyed}
use clawside.Sender.Tests.{job_1, table, now, day, bots, table-IsSound, same_text}

abbrev service : SendService
service = record { bots = bots; global_allowlist = []; default_max_attempts = 3 }

abbrev request : SendCommand
request = record {
  bot = "news";
  chat_id = 7;
  text = "good morning";
  idempotency_key = "key-9";
  max_attempts = pos 2;
  reply_to_message_id = none;
  disable_notification = false;
}

abbrev accepted : CreateJob
accepted = record {
  bot_name = "news";
  chat_id = 7;
  text = "good morning";
  idempotency_key = "key-9";
  max_attempts = 2;
  reply_to_message_id = none;
  disable_notification = false;
}

abbrev job_4 : Job
job_4 = record job_1 {
  id = 4;
  text = "good morning";
  idempotency_key = "key-9";
  max_attempts = 2;
  created_at = now;
  updated_at = now;
}

request_valid : validate same_text service request ≡ ok accepted
unfolding validate normalize_bot_name trim_space is_blank_text lookup_bot allowlisted
    resolve_max_attempts
request_valid = refl

validate-IsAccepted_example : IsAccepted same_text service accepted
validate-IsAccepted_example = validate-IsAccepted same_text service request accepted request_valid

-- Another submission takes the key for another text between the lookup and the insertion.
abbrev taken : List Op
taken = Op.enqueued (record accepted { text = "good night" }) now ∷ []

accept-Answers_example :
    Answers (accept table taken accepted now).0 accepted (accept table taken accepted now).1
accept-Answers_example = accept-Answers table taken accepted now refl

abbrev nameless : SendCommand
nameless = record request { bot = " " }

nameless_refused : (submit same_text service table nameless now).1 ≡ err bot_required
unfolding submit submit_amid validate normalize_bot_name trim_space
nameless_refused = refl

submit_refused_example :
    ((submit same_text service table nameless now).0 ≡ table)
    × ((validate same_text service nameless ≡ err bot_required)
        ⊎ (bot_required ≡ idempotency_key_conflict))
submit_refused_example =
    submit_refused same_text service table nameless now bot_required nameless_refused

request_accepted : (submit same_text service table request now).1 ≡ ok job_4
unfolding submit submit_amid run accept validate normalize_bot_name trim_space is_blank_text
    lookup_bot allowlisted resolve_max_attempts get_by_idempotency_key find_row enqueue_checked
    enqueue insert_job new_job same_send_payload
request_accepted = refl

submit_again_example :
    let later = run (submit same_text service table request now).0 day in
    (k : Job) × (submit same_text service later request (now + second) ≡ (later, ok k))
    × SameContent job_4 k
submit_again_example =
    submit_again same_text service table request now accepted job_4 request_valid refl
      request_accepted day (now + second)

abbrev handler : HttpHandler
handler = record {
  send_service = service;
  sender_auth_key = "secret";
  worker_poll_interval = second;
  send_timeout = second;
}

abbrev surroundings : Surroundings
surroundings = record { ping = none; runtime_state = new_runtime_state; now = now }

abbrev forged : Request
forged = record {
  method = Method.post;
  path = "/send";
  authorization = "Bearer guess";
  status = "";
  limit = "";
  body = some request;
}

abbrev signed : Request
signed = record forged { authorization = "Bearer secret" }

abbrev no_number : String → Option ℤ
no_number s = none

forged_refused : (is_post forged.method && authorized handler forged.authorization) ≡ false
unfolding authorized strip_prefix trim_space
forged_refused = refl

serve-guarded_example :
    (serve_http no_number same_text same_text handler surroundings table forged).0 ≡ table
serve-guarded_example =
    serve-guarded no_number same_text same_text handler surroundings table forged forged_refused

serve-IsSound_example :
    IsSound (serve_http no_number same_text same_text handler surroundings table signed).0
serve-IsSound_example =
    serve-IsSound no_number same_text same_text handler surroundings table signed table-IsSound

blank_key : is_blank_text " " ≡ true
unfolding is_blank_text trim_space
blank_key = refl

serve-unkeyed_example :
    (serve_http no_number same_text same_text
      (new_http_handler service " " second second)
      surroundings
      table
      signed).0
    ≡ table
serve-unkeyed_example =
    serve-unkeyed no_number same_text same_text service " " second second surroundings table signed
      blank_key
