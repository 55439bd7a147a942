-- ===== src/Sender/Requests.antt =====
-- http_handler.go: the HTTP requests that the sender answers. A request is its method, its path, the
-- header `Authorization`, the two query values and the decoded body, `none` where it is no valid
-- JSON for a message; the size limit of the body belongs to its decoding. `strconv.Atoi` and
-- `strconv.ParseInt` are the argument `parse_int`. An answer is its status code with its body.
pub mod Guarded
use Prim.Native.Char.{code}
use clawside.Common.{
  ℕ, ◌==◌, String, Bool, true, false, not, ◌&&◌, ◌||◌, Option, none, some, List, if◌then◌else◌,
  str_eq,
}
use clawside.Common.Int.{ℤ, pos, negsuc}
use clawside.Sender.Text.{trim_space, is_blank_text}
use clawside.Sender.Store.{Status, Job, Store, get_job}
use clawside.Sender.Worker.{BotRuntimeConfig}
use clawside.Sender.RuntimeState.{RuntimeState}
use clawside.Sender.Submit.{
  SendCommand, SendService, ServiceError, Result, ok, err, submit, send_error_status,
}
use clawside.Sender.Queries.{
  JobListItem, JobStats, Query, QueryError, found, refused, NotReady, list_jobs, get_stats,
  readiness, sanitize_observability_last_error,
}

pub record HttpHandler : Type 0 where
  pub send_service : SendService
  pub sender_auth_key : String
  pub worker_poll_interval : ℕ
  pub send_timeout : ℕ

unfoldable pub new_http_handler : SendService → String → ℕ → ℕ → HttpHandler
new_http_handler service sender_auth_key poll timeout = record {
  send_service = service;
  sender_auth_key = trim_space sender_auth_key;
  worker_poll_interval = poll;
  send_timeout = timeout;
}

pub data Method : Type 0 where
  get post : Method
  other : String → Method

pub record Request : Type 0 where
  pub method : Method
  pub path : String
  pub authorization : String
  pub status : String
  pub limit : String
  pub body : Option SendCommand

-- What the handler reads from outside: the ping of the store, the runtime state and the clock.
pub record Surroundings : Type 0 where
  pub ping : Option String
  pub runtime_state : RuntimeState
  pub now : ℕ

pub record JobResponse : Type 0 where
  pub job_id : ℕ
  pub status : Status
  pub attempt_count : ℕ
  pub last_error : String
  pub created_at : ℕ
  pub updated_at : ℕ
  pub sent_at : Option ℕ

pub data Body : Type 0 where
  error_response : String → Body
  service_error : ServiceError → Body
  query_error : QueryError → Body
  not_ready : NotReady → Body
  health_response : Body
  stats_response : JobStats → RuntimeState → Body
  jobs_response : List JobListItem → Body
  job_response : JobResponse → Body
  send_response : ℕ → Status → String → Body

pub record Answer : Type 0 where
  pub status_code : ℕ
  pub body : Body

abbrev pub answer : ℕ → Body → Answer
answer status_code body = record { status_code = status_code; body = body }

abbrev pub not_found : Answer
not_found = answer 404 (error_response "not found")

abbrev pub method_not_allowed : Answer
method_not_allowed = answer 405 (error_response "method not allowed")

-- `strings.HasPrefix` and `strings.TrimPrefix`: what stands behind the prefix, where there is it.
unfoldable pub strip_prefix : String → String → Option String
strip_prefix String.[] s = some s
strip_prefix (String.◌∷◌ p ps) String.[] = none
strip_prefix (String.◌∷◌ p ps) (String.◌∷◌ c s) =
    let rest = strip_prefix ps s in if code p == code c then rest else none

-- `provided != "" && provided == h.senderAuthKey`, for a header that has the prefix.
abbrev pub provides : String → Option String → Bool
provides key none = false
provides key (some rest) = not (str_eq (trim_space rest) "") && str_eq (trim_space rest) key

unfoldable pub authorized : HttpHandler → String → Bool
authorized h raw =
    let auth_header = trim_space raw in
    if str_eq auth_header "" || str_eq h.sender_auth_key ""
    then false
    else provides h.sender_auth_key (strip_prefix "Bearer " auth_header)

abbrev pub is_get : Method → Bool
is_get get = true
is_get _ = false

abbrev pub is_post : Method → Bool
is_post post = true
is_post _ = false

abbrev pub handle_healthz : Request → Answer
handle_healthz r = if not (is_get r.method) then method_not_allowed else answer 200 health_response

abbrev pub ready_answer : Option NotReady → Answer
ready_answer none = answer 200 health_response
ready_answer (some e) = answer 503 (not_ready e)

abbrev pub handle_readyz : HttpHandler → Surroundings → Request → Answer
handle_readyz h x r =
    if not (is_get r.method)
    then method_not_allowed
    else ready_answer (
        readiness x.ping h.send_service.bots x.runtime_state h.worker_poll_interval h.send_timeout
          x.now)

abbrev pub handle_stats : Surroundings → Store → Request → Answer
handle_stats x s r =
    if not (is_get r.method)
    then method_not_allowed
    else answer 200 (stats_response (get_stats s x.now) x.runtime_state)

abbrev pub list_response : Query (List JobListItem) → Answer
list_response (found jobs) = answer 200 (jobs_response jobs)
list_response (refused e) = answer 400 (query_error e)

abbrev pub default_job_list_limit : ℕ
default_job_list_limit = 20

-- `parseJobListLimit`, and the limit where none is given; `none` for one that is no number.
unfoldable pub parse_job_list_limit : (String → Option ℤ) → String → Option ℤ
parse_job_list_limit parse_int raw =
    if is_blank_text raw then some (pos default_job_list_limit) else parse_int (trim_space raw)

abbrev pub list_at_limit : (String → String) → Store → String → Option ℤ → Answer
list_at_limit redact s status none = answer 400 (error_response "invalid limit")
list_at_limit redact s status (some limit) = list_response (list_jobs redact s status limit)

abbrev pub handle_list_jobs : (String → Option ℤ) → (String → String) → Store → Request → Answer
handle_list_jobs parse_int redact s r =
    if not (is_get r.method)
    then method_not_allowed
    else list_at_limit redact s r.status (parse_job_list_limit parse_int r.limit)

unfoldable pub map_job_response : (String → String) → Job → JobResponse
map_job_response redact job = record {
  job_id = job.id;
  status = job.status;
  attempt_count = job.attempt_count;
  last_error = sanitize_observability_last_error redact job.last_error;
  created_at = job.created_at;
  updated_at = job.updated_at;
  sent_at = job.sent_at;
}

unfoldable pub has_slash : String → Bool
has_slash String.[] = false
has_slash (String.◌∷◌ c s) = code c == 47 || has_slash s

abbrev pub job_answer : (String → String) → Option Job → Answer
job_answer redact none = not_found
job_answer redact (some job) = answer 200 (job_response (map_job_response redact job))

-- `err != nil || jobID <= 0`; the store has no job with the id 0.
abbrev pub job_by_id : (String → String) → Store → Option ℤ → Answer
job_by_id redact s none = not_found
job_by_id redact s (some (negsuc n)) = not_found
job_by_id redact s (some (pos id)) = if id == 0 then not_found else job_answer redact (get_job s id)

abbrev pub handle_get_job :
    (String → Option ℤ) → (String → String) → Store → Request → String → Answer
handle_get_job parse_int redact s r id_raw =
    if not (is_get r.method)
    then method_not_allowed
    else if str_eq id_raw "" || has_slash id_raw
    then not_found
    else job_by_id redact s (parse_int id_raw)

abbrev pub send_answer : Store × Result Job → Store × Answer
send_answer (s, err e) = (s, answer (send_error_status e) (service_error e))
send_answer (s, ok job) = (s, answer 202 (send_response job.id job.status job.idempotency_key))

abbrev pub submit_body :
    (String → String) → HttpHandler → Store → Option SendCommand → ℕ → Store × Answer
submit_body to_lower h s none now = (s, answer 400 (error_response "invalid json body"))
submit_body to_lower h s (some req) now = send_answer (submit to_lower h.send_service s req now)

unfoldable pub handle_send :
    (String → String) → HttpHandler → Surroundings → Store → Request → Store × Answer
handle_send to_lower h x s r =
    if not (is_post r.method)
    then (s, method_not_allowed)
    else if not (authorized h r.authorization)
    then (
      s,
      if is_blank_text r.authorization
          then answer 401 (error_response "missing authorization")
          else answer 403 (error_response "invalid authorization"),
    )
    else submit_body to_lower h s r.body x.now

-- The part of `ServeHTTP` behind the paths that are read only.
abbrev pub serve_rest :
    (String → Option ℤ)
    → (String → String)
    → (String → String)
    → HttpHandler
    → Surroundings
    → Store
    → Request
    → Option String
    → Store × Answer
serve_rest parse_int redact to_lower h x s r (some id_raw) =
    (s, handle_get_job parse_int redact s r id_raw)
serve_rest parse_int redact to_lower h x s r none =
    if str_eq r.path "/send" then handle_send to_lower h x s r else (s, not_found)

unfoldable pub serve_http :
    (String → Option ℤ)
    → (String → String)
    → (String → String)
    → HttpHandler
    → Surroundings
    → Store
    → Request
    → Store × Answer
serve_http parse_int redact to_lower h x s r =
    if str_eq r.path "/healthz"
    then (s, handle_healthz r)
    else if str_eq r.path "/readyz"
    then (s, handle_readyz h x r)
    else if str_eq r.path "/stats"
    then (s, handle_stats x s r)
    else if str_eq r.path "/jobs"
    then (s, handle_list_jobs parse_int redact s r)
    else serve_rest parse_int redact to_lower h x s r (strip_prefix "/jobs/" r.path)
