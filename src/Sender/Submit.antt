-- ===== src/Sender/Submit.antt =====
-- send_service.go and service_errors.go: the acceptance of a message. The order of the checks is
-- that of `Submit`. A set of chat ids is the list that it is made from.
pub mod Accepted
pub mod Idempotent
pub mod Raced
use Prim.Native.String.{count}
use clawside.Common.{
  ℕ, suc, String, Bool, true, false, not, ◌&&◌, ◌||◌, Option, none, some, List, [], ◌∷◌, ltb, leb,
  ◌==◌, if◌then◌else◌, str_eq,
}
use clawside.Common.Int.{ℤ, pos, negsuc}
use clawside.Sender.Text.{trim_space, is_blank_text, normalize_bot_name}
use clawside.Sender.Store.{CreateJob, Job, Store, get_by_idempotency_key, enqueue}
use clawside.Sender.Store.Ops.{Op, run}
use clawside.Sender.Worker.{BotRuntimeConfig, lookup_bot}

pub record SendCommand : Type 0 where
  pub bot : String
  pub chat_id : ℕ
  pub text : String
  pub idempotency_key : String
  pub max_attempts : ℤ
  pub reply_to_message_id : Option ℕ
  pub disable_notification : Bool

pub record SendService : Type 0 where
  pub bots : List (String × BotRuntimeConfig)
  pub global_allowlist : List ℕ
  pub default_max_attempts : ℕ

pub data ServiceError : Type 0 where
  bot_required unknown_bot bot_disabled bot_unavailable chat_id_required chat_id_not_allowed
        text_required text_exceeds_limit max_attempts_invalid idempotency_key_conflict :
      ServiceError

pub data Result {ℓ} (A : Type ℓ) : Type ℓ where
  err : ServiceError → Result A
  ok : A → Result A

infixl 5 ◌>>=◌ ◌>>◌
abbrev pub ◌>>=◌ {ℓ κ} : {A : Type ℓ} {B : Type κ} → Result A → (A → Result B) → Result B
err refusal >>= next = err refusal
ok value >>= next = next value

-- A check that passes gives no value.
abbrev pub ◌>>◌ {ℓ} : {A : Type ℓ} → Result (Unit {0}) → Result A → Result A
err refusal >> next = err refusal
ok passed >> next = next

-- `if refused { return Job{}, e }`
abbrev pub refuse_if : Bool → ServiceError → Result (Unit {0})
refuse_if true e = err e
refuse_if false e = ok tt

abbrev pub telegram_max_text_length : ℕ
telegram_max_text_length = 4096

abbrev pub min_max_attempts : ℕ
min_max_attempts = 1

abbrev pub max_max_attempts : ℕ
max_max_attempts = 5

unfoldable pub allowed_id : ℕ → List ℕ → Bool
allowed_id chat_id [] = false
allowed_id chat_id (id ∷ ids) = id == chat_id || allowed_id chat_id ids

unfoldable pub allowlisted : ℕ → List ℕ → List ℕ → Bool
unfolding allowed_id
allowlisted chat_id global_allowlist bot_allowlist =
    if allowed_id chat_id global_allowlist
    then true
    else if allowed_id chat_id bot_allowlist
    then true
    else false

abbrev or_unknown : Option BotRuntimeConfig → Result BotRuntimeConfig
or_unknown none = err unknown_bot
or_unknown (some bot) = ok bot

-- `if req.MaxAttempts == 0 { … }` and the test of the bounds behind it.
unfoldable pub resolve_max_attempts : ℕ → ℤ → Result ℕ
resolve_max_attempts default (negsuc n) = err max_attempts_invalid
resolve_max_attempts default (pos n) =
    let attempts = if n == 0 then default else n in
    if ltb attempts min_max_attempts || ltb max_max_attempts attempts
    then err max_attempts_invalid
    else ok attempts

-- The checks of `Submit`, and the request as it is after them.
unfoldable pub validate : (String → String) → SendService → SendCommand → Result CreateJob
validate to_lower service req = do
  let name = normalize_bot_name to_lower req.bot
  refuse_if (str_eq name "") bot_required
  bot ← or_unknown (lookup_bot name service.bots)
  refuse_if (not bot.enabled) bot_disabled
  refuse_if (is_blank_text bot.token) bot_unavailable
  refuse_if (req.chat_id == 0) chat_id_required
  refuse_if (not (allowlisted req.chat_id service.global_allowlist bot.allow_user_ids))
      chat_id_not_allowed
  refuse_if (is_blank_text req.text) text_required
  refuse_if (ltb telegram_max_text_length (count req.text)) text_exceeds_limit
  attempts ← resolve_max_attempts service.default_max_attempts req.max_attempts
  ok (record {
    bot_name = name;
    chat_id = req.chat_id;
    text = req.text;
    idempotency_key = trim_space req.idempotency_key;
    max_attempts = attempts;
    reply_to_message_id = req.reply_to_message_id;
    disable_notification = req.disable_notification;
  })

unfoldable pub same_nullable_int64 : Option ℕ → Option ℕ → Bool
same_nullable_int64 none none = true
same_nullable_int64 none (some b) = false
same_nullable_int64 (some a) none = false
same_nullable_int64 (some a) (some b) = a == b

unfoldable pub same_bool : Bool → Bool → Bool
same_bool true b = b
same_bool false b = not b

unfoldable pub same_send_payload : Job → CreateJob → Bool
unfolding same_nullable_int64 same_bool
same_send_payload job req =
    str_eq job.bot_name req.bot_name
    && job.chat_id == req.chat_id
    && str_eq job.text req.text
    && job.max_attempts == req.max_attempts
    && same_nullable_int64 job.reply_to_message_id req.reply_to_message_id
    && same_bool job.disable_notification req.disable_notification

unfoldable pub enqueue_checked : Store → CreateJob → ℕ → Store × Result Job
enqueue_checked s c now =
    let (s', job) = enqueue s c now in
    if not (str_eq c.idempotency_key "") && not (same_send_payload job c)
    then (s', err idempotency_key_conflict)
    else (s', ok job)

-- The rest of `Submit`, for a request that passed the checks. Others may run the statements
-- `meanwhile` between the lookup of the key and the insertion.
unfoldable pub accept : Store → List Op → CreateJob → ℕ → Store × Result Job
accept s meanwhile c now =
    if str_eq c.idempotency_key ""
    then enqueue_checked (run s meanwhile) c now
    else elim (get_by_idempotency_key s c.idempotency_key) [
      | none ↦ enqueue_checked (run s meanwhile) c now
      | some existing ↦
          if not (same_send_payload existing c)
          then (s, err idempotency_key_conflict)
          else (s, ok existing)
    ]

unfoldable pub submit_amid :
    (String → String) → SendService → Store → List Op → SendCommand → ℕ → Store × Result Job
submit_amid to_lower service s meanwhile req now = elim (validate to_lower service req) [
  | err e ↦ (s, err e)
  | ok c ↦ accept s meanwhile c now
]

-- A submission that no other statement runs beside.
unfoldable pub submit :
    (String → String) → SendService → Store → SendCommand → ℕ → Store × Result Job
unfolding submit_amid
submit to_lower service s req now = submit_amid to_lower service s [] req now

-- The HTTP status of an error of `Submit`.
unfoldable pub send_error_status : ServiceError → ℕ
send_error_status bot_required = 400
send_error_status unknown_bot = 400
send_error_status chat_id_required = 400
send_error_status text_required = 400
send_error_status text_exceeds_limit = 400
send_error_status max_attempts_invalid = 400
send_error_status bot_disabled = 403
send_error_status bot_unavailable = 403
send_error_status chat_id_not_allowed = 403
send_error_status idempotency_key_conflict = 409
