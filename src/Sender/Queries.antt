-- ===== src/Sender/Queries.antt =====
-- job_query_service.go, with ListJobs and GetStats of store.go: what the sender reports of its jobs
-- and of its worker. A time is compared as the text that the table stores. Durations are
-- nanoseconds within int64. `Ping` is the argument `ping`, its error where it fails. The redaction
-- of bot tokens, a regular expression, is the argument `redact`. The age of the oldest job is the
-- whole seconds that have passed; the rounding of Go's float64 is left out.
pub mod Listed
pub mod Reported
use clawside.Common.{
  ℕ, zero, suc, ◌+◌, ◌-◌, ◌*◌, ◌/◌, String, Bool, true, false, not, ◌&&◌, ◌||◌, Option, none, some,
  List, [], ◌∷◌, ltb, ◌==◌, if◌then◌else◌, str_eq,
}
use clawside.Common.Int.{ℤ, pos, negsuc}
use clawside.Sender.Timestamps.{text_le, second}
use clawside.Sender.Text.{trim_space, is_blank_text}
use clawside.Sender.Store.{Status, Job, Store, is_pending, is_sending, is_retry, count_rows}
use clawside.Sender.Worker.{BotRuntimeConfig}
use clawside.Sender.RuntimeState.{RuntimeState}

abbrev pub max_job_list_limit : ℕ
max_job_list_limit = 100

pub record JobListFilter : Type 0 where
  pub status : Status
  pub limit : ℕ

pub data QueryError : Type 0 where
  status_required invalid_status invalid_limit : QueryError

pub data Query {ℓ} (A : Type ℓ) : Type ℓ where
  found : A → Query A
  refused : QueryError → Query A

-- `isAllowedJobStatus`, with the status that the text names.
unfoldable pub allowed_job_status : String → Option Status
allowed_job_status status =
    if str_eq status "pending"
    then some Status.pending
    else if str_eq status "retry"
    then some Status.retry
    else if str_eq status "sending"
    then some Status.sending
    else if str_eq status "failed"
    then some Status.failed
    else if str_eq status "sent"
    then some Status.sent
    else none

-- `limit <= 0 || limit > MaxJobListLimit`
abbrev pub limit_filter : Status → ℤ → Query JobListFilter
limit_filter status (negsuc n) = refused invalid_limit
limit_filter status (pos limit) =
    if limit == 0 || ltb max_job_list_limit limit
    then refused invalid_limit
    else found (record { status = status; limit = limit })

unfoldable pub normalize_job_list_filter : String → ℤ → Query JobListFilter
normalize_job_list_filter raw limit =
    let status = trim_space raw in
    if str_eq status "" then refused status_required else elim (allowed_job_status status) [
      | none ↦ refused invalid_status
      | some s ↦ limit_filter s limit
    ]

abbrev pub is_failed : Status → Bool
is_failed Status.failed = true
is_failed _ = false

abbrev pub is_sent : Status → Bool
is_sent Status.sent = true
is_sent _ = false

-- status = ?
unfoldable pub has_status : Status → Job → Bool
has_status Status.pending j = is_pending j.status
has_status Status.retry j = is_retry j.status
has_status Status.sending j = is_sending j.status
has_status Status.failed j = is_failed j.status
has_status Status.sent j = is_sent j.status

-- created_at ASC, id ASC
unfoldable pub created_first : Job → Job → Bool
created_first a b =
    not (text_le b.created_at a.created_at) || text_le a.created_at b.created_at && ltb a.id b.id

-- updated_at DESC, id DESC
unfoldable pub updated_last : Job → Job → Bool
updated_last a b =
    not (text_le a.updated_at b.updated_at) || text_le b.updated_at a.updated_at && ltb b.id a.id

abbrev pub job_order : Status → Job → Job → Bool
job_order Status.pending = created_first
job_order _ = updated_last

unfoldable pub insert_row : (Job → Job → Bool) → Job → List Job → List Job
insert_row precedes j [] = j ∷ []
insert_row precedes j (r ∷ rows) =
    let rest = insert_row precedes j rows in if precedes r j then r ∷ rest else j ∷ r ∷ rows

-- SELECT … WHERE test ORDER BY precedes
unfoldable pub ordered_rows : (Job → Bool) → (Job → Job → Bool) → List Job → List Job
ordered_rows test precedes [] = []
ordered_rows test precedes (j ∷ rows) =
    let rest = ordered_rows test precedes rows in
    if test j then insert_row precedes j rest else rest

-- LIMIT n
unfoldable pub limit_rows : ℕ → List Job → List Job
limit_rows zero rows = []
limit_rows (suc n) [] = []
limit_rows (suc n) (j ∷ rows) = j ∷ limit_rows n rows

unfoldable pub list_rows : JobListFilter → Store → List Job
list_rows filter s =
    limit_rows filter.limit
      (ordered_rows (has_status filter.status) (job_order filter.status) s.rows)

pub record JobListItem : Type 0 where
  pub job_id : ℕ
  pub bot : String
  pub chat_id : ℕ
  pub status : Status
  pub attempt_count : ℕ
  pub max_attempts : ℕ
  pub last_error : String
  pub created_at : ℕ
  pub updated_at : ℕ
  pub sent_at : Option ℕ

unfoldable pub sanitize_observability_last_error : (String → String) → String → String
sanitize_observability_last_error redact last_error =
    if is_blank_text last_error then "" else redact last_error

unfoldable pub map_job_list_item : (String → String) → Job → JobListItem
map_job_list_item redact job = record {
  job_id = job.id;
  bot = job.bot_name;
  chat_id = job.chat_id;
  status = job.status;
  attempt_count = job.attempt_count;
  max_attempts = job.max_attempts;
  last_error = sanitize_observability_last_error redact job.last_error;
  created_at = job.created_at;
  updated_at = job.updated_at;
  sent_at = job.sent_at;
}

unfoldable pub map_items : (String → String) → List Job → List JobListItem
map_items redact [] = []
map_items redact (j ∷ jobs) = map_job_list_item redact j ∷ map_items redact jobs

abbrev pub list_answer : (String → String) → Store → Query JobListFilter → Query (List JobListItem)
list_answer redact s (refused e) = refused e
list_answer redact s (found filter) = found (map_items redact (list_rows filter s))

unfoldable pub list_jobs : (String → String) → Store → String → ℤ → Query (List JobListItem)
list_jobs redact s status limit = list_answer redact s (normalize_job_list_filter status limit)

pub record JobStats : Type 0 where
  pub pending_count : ℕ
  pub retry_count : ℕ
  pub sending_count : ℕ
  pub failed_count : ℕ
  pub sent_count : ℕ
  pub oldest_pending_age_seconds : Option ℕ

abbrev pub earlier : ℕ → Option ℕ → Option ℕ
earlier created none = some created
earlier created (some oldest) = some (if text_le created oldest then created else oldest)

-- MIN(created_at) WHERE status = 'pending'
unfoldable pub oldest_pending : List Job → Option ℕ
oldest_pending [] = none
oldest_pending (j ∷ rows) =
    let rest = oldest_pending rows in
    if is_pending j.status then earlier j.created_at rest else rest

-- A negative age is 0.
abbrev pub age_seconds : ℕ → Option ℕ → Option ℕ
age_seconds now none = none
age_seconds now (some created) = some ((now - created) / second)

unfoldable pub get_stats : Store → ℕ → JobStats
get_stats s now = record {
  pending_count = count_rows (has_status Status.pending) s.rows;
  retry_count = count_rows (has_status Status.retry) s.rows;
  sending_count = count_rows (has_status Status.sending) s.rows;
  failed_count = count_rows (has_status Status.failed) s.rows;
  sent_count = count_rows (has_status Status.sent) s.rows;
  oldest_pending_age_seconds = age_seconds now (oldest_pending s.rows);
}

unfoldable pub has_enabled_bot : List (String × BotRuntimeConfig) → Bool
has_enabled_bot [] = false
has_enabled_bot ((name, bot) ∷ bots) =
    if bot.enabled && not (is_blank_text bot.token) then true else has_enabled_bot bots

unfoldable pub readiness_threshold : ℕ → ℕ → ℕ
readiness_threshold worker_poll_interval send_timeout =
    let first = 3 * worker_poll_interval in
    let second = send_timeout + worker_poll_interval in if ltb first second then second else first

pub data NotReady : Type 0 where
  ping_store : String → NotReady
  no_enabled_bot worker_not_running loop_not_run loop_stale : NotReady

unfoldable pub readiness :
    Option String → List (String × BotRuntimeConfig) → RuntimeState → ℕ → ℕ → ℕ → Option NotReady
readiness ping bots snapshot worker_poll_interval send_timeout now = elim ping [
  | some e ↦ some (ping_store e)
  | none ↦
      if not (has_enabled_bot bots)
      then some no_enabled_bot
      else if not snapshot.worker_running
      then some worker_not_running
      else if snapshot.last_loop_at == 0
      then some loop_not_run
      else if ltb (readiness_threshold worker_poll_interval send_timeout)
          (now - snapshot.last_loop_at)
      then some loop_stale
      else none
]
