-- ===== src/Sender/Store.antt =====
-- store.go: the jobs table and the operations on it. The table is the list of its rows in the order
-- of the primary key; AUTOINCREMENT gives each new row an id above all earlier ones, kept in
-- `next_id`. An UPDATE or a SELECT is written out as a function over the rows, with the condition of
-- its WHERE clause. A column that is NULL is `none`; for `idempotency_key` it is the empty text, as
-- `scanJob` reads it. An int64 is its bit pattern. The database does not fail here: I/O errors of
-- SQLite and cancelled contexts are left out. `now` is an argument where the source reads the clock.
pub mod Ops
pub mod Keys
pub mod Lifecycle
pub mod History
pub mod Claim
pub mod Settle
pub mod Exclusive
pub mod Lease
use clawside.Common.{
  ℕ, zero, suc, ◌+◌, ◌-◌, ◌*◌, ◌/◌, String, Bool, true, false, not, ◌&&◌, ◌||◌, Option, none, some,
  List, [], ◌∷◌, ◌++◌, ltb, ◌==◌, if◌then◌else◌, str_eq,
}
use clawside.Sender.Timestamps.{text_le}

pub data Status : Type 0 where
  pending sending sent retry failed : Status

pub record CreateJob : Type 0 where
  pub bot_name : String
  pub chat_id : ℕ
  pub text : String
  pub idempotency_key : String
  pub max_attempts : ℕ
  pub reply_to_message_id : Option ℕ
  pub disable_notification : Bool

pub record Job : Type 0 where
  pub id : ℕ
  pub bot_name : String
  pub chat_id : ℕ
  pub text : String
  pub idempotency_key : String
  pub status : Status
  pub attempt_count : ℕ
  pub max_attempts : ℕ
  pub next_retry_at : Option ℕ
  pub lease_expires_at : Option ℕ
  pub last_error : String
  pub created_at : ℕ
  pub updated_at : ℕ
  pub sent_at : Option ℕ
  pub reply_to_message_id : Option ℕ
  pub disable_notification : Bool

pub record Store : Type 0 where
  pub rows : List Job
  pub next_id : ℕ

pub data StoreError : Type 0 where
  job_not_found invalid_transition state_conflict : StoreError

abbrev pub empty : Store
empty = record { rows = []; next_id = 1 }

abbrev pub is_pending : Status → Bool
is_pending Status.pending = true
is_pending _ = false

abbrev pub is_sending : Status → Bool
is_sending Status.sending = true
is_sending _ = false

abbrev pub is_retry : Status → Bool
is_retry Status.retry = true
is_retry _ = false

-- SELECT … WHERE test LIMIT 1
unfoldable pub find_row : (Job → Bool) → List Job → Option Job
find_row test [] = none
find_row test (j ∷ rows) = if test j then some j else find_row test rows

-- UPDATE … SET change WHERE test
unfoldable pub update_rows : (Job → Bool) → (Job → Job) → List Job → List Job
update_rows test change [] = []
update_rows test change (j ∷ rows) = (if test j then change j else j) ∷ update_rows test change rows

-- The number of rows that an UPDATE affects.
unfoldable pub count_rows : (Job → Bool) → List Job → ℕ
count_rows test [] = 0
count_rows test (j ∷ rows) = let rest = count_rows test rows in if test j then suc rest else rest

abbrev pub has_id : ℕ → Job → Bool
has_id id j = j.id == id

unfoldable pub get_job : Store → ℕ → Option Job
unfolding find_row
get_job s id = find_row (has_id id) s.rows

abbrev pub has_key : String → Job → Bool
has_key key j = str_eq j.idempotency_key key

unfoldable pub get_by_idempotency_key : Store → String → Option Job
unfolding find_row
get_by_idempotency_key s key = if str_eq key "" then none else find_row (has_key key) s.rows

unfoldable pub new_job : CreateJob → ℕ → ℕ → Job
new_job c id now = record {
  id = id;
  bot_name = c.bot_name;
  chat_id = c.chat_id;
  text = c.text;
  idempotency_key = c.idempotency_key;
  status = Status.pending;
  attempt_count = 0;
  max_attempts = c.max_attempts;
  next_retry_at = none;
  lease_expires_at = none;
  last_error = "";
  created_at = now;
  updated_at = now;
  sent_at = none;
  reply_to_message_id = c.reply_to_message_id;
  disable_notification = c.disable_notification;
}

unfoldable pub insert_job : Store → CreateJob → ℕ → Store × Job
unfolding new_job
insert_job s c now =
    let j = new_job c s.next_id now in
    (record { rows = s.rows ++ j ∷ []; next_id = s.next_id + 1 }, j)

-- The unique index refuses a second row with the same key that is not empty; the row that is there
-- is then the result.
unfoldable pub enqueue : Store → CreateJob → ℕ → Store × Job
unfolding insert_job
enqueue s c now = elim (get_by_idempotency_key s c.idempotency_key) [
  | some existing ↦ (s, existing)
  | none ↦ insert_job s c now
]

abbrev due : Option ℕ → ℕ → Bool
due none now = false
due (some at) now = text_le at now

unfoldable pub is_ready : ℕ → Job → Bool
is_ready now j = is_pending j.status || is_retry j.status && due j.next_retry_at now

unfoldable pub claimed : ℕ → ℕ → Job → Job
claimed now lease_duration j = record j {
  status = Status.sending;
  updated_at = now;
  lease_expires_at = some (now + lease_duration);
}

-- The first row in the order of the ids that is ready is updated and returned.
unfoldable pub claim_rows : ℕ → ℕ → List Job → List Job × Option Job
unfolding is_ready claimed
claim_rows now lease [] = ([], none)
claim_rows now lease (j ∷ rows) =
    let (rest, found) = claim_rows now lease rows in
    if is_ready now j
    then (claimed now lease j ∷ rows, some (claimed now lease j))
    else (j ∷ rest, found)

unfoldable pub claim_next_ready : Store → ℕ → ℕ → Store × Option Job
claim_next_ready s now lease_duration =
    let (rows, found) = claim_rows now lease_duration s.rows in (record s { rows = rows }, found)

-- WHERE id = ? AND status = 'sending'
abbrev pub in_flight : ℕ → Job → Bool
in_flight id j = j.id == id && is_sending j.status

pub classify_status : Status → StoreError
classify_status Status.retry = state_conflict
classify_status Status.sent = state_conflict
classify_status Status.failed = state_conflict
classify_status Status.sending = state_conflict
classify_status Status.pending = invalid_transition

unfoldable pub classify_transition_conflict : List Job → ℕ → StoreError
unfolding classify_status find_row
classify_transition_conflict rows id = elim (find_row (has_id id) rows) [
  | none ↦ job_not_found
  | some j ↦ classify_status j.status
]

-- An UPDATE of the row that is being sent, and `ensureTransitionSucceeded`.
unfoldable pub settle_job : Store → ℕ → (Job → Job) → Store × Option StoreError
unfolding classify_transition_conflict update_rows count_rows
settle_job s id change =
    let rows = update_rows (in_flight id) change s.rows in
    (
      record s { rows = rows },
      if ltb 0 (count_rows (in_flight id) s.rows)
          then none
          else some (classify_transition_conflict rows id),
    )

unfoldable pub mark_retry : Store → ℕ → ℕ → ℕ → String → ℕ → Store × Option StoreError
mark_retry s id attempt_count next_retry_at last_error now = settle_job s id λ j. record j {
  status = Status.retry;
  attempt_count = attempt_count;
  next_retry_at = some next_retry_at;
  last_error = last_error;
  updated_at = now;
  sent_at = none;
  lease_expires_at = none;
}

unfoldable pub mark_sent : Store → ℕ → ℕ → ℕ → Store × Option StoreError
mark_sent s id attempt_count sent_at = settle_job s id λ j. record j {
  status = Status.sent;
  attempt_count = attempt_count;
  next_retry_at = none;
  last_error = "";
  updated_at = sent_at;
  sent_at = some sent_at;
  lease_expires_at = none;
}

unfoldable pub mark_failed : Store → ℕ → ℕ → String → ℕ → Store × Option StoreError
mark_failed s id attempt_count last_error now = settle_job s id λ j. record j {
  status = Status.failed;
  attempt_count = attempt_count;
  next_retry_at = none;
  last_error = last_error;
  updated_at = now;
  lease_expires_at = none;
}

abbrev lapsed : Option ℕ → ℕ → ℕ → ℕ → Bool
lapsed (some expires) updated_at now cutoff = text_le expires now
lapsed none updated_at now cutoff = text_le updated_at cutoff

unfoldable pub is_expired_sending : ℕ → ℕ → Job → Bool
is_expired_sending now cutoff j =
    is_sending j.status && lapsed j.lease_expires_at j.updated_at now cutoff

unfoldable pub recovered : ℕ → Job → Job
recovered now j = record j {
  status = Status.retry;
  next_retry_at = some now;
  sent_at = none;
  last_error = "recovered expired sending lease; retrying delivery";
  updated_at = now;
  lease_expires_at = none;
}

unfoldable pub recover_expired_sending_jobs : Store → ℕ → ℕ → Store
unfolding is_expired_sending recovered update_rows
recover_expired_sending_jobs s now legacy_grace_period =
    let cutoff = now - legacy_grace_period in
    record s { rows = update_rows (is_expired_sending now cutoff) (recovered now) s.rows }
