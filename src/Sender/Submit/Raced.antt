-- ===== src/Sender/Submit/Raced.antt =====
-- Submissions under one idempotency key that run at the same time.
use clawside.Common.{
  ℕ, Bool, true, false, List, Option, none, some, ◌≡◌, inl, inr, refl, sym, ap, ◌∙◌, arith, str_eq,
  eq_iff, Bool-cases,
}
use clawside.Sender.Store.{CreateJob, Job, Store, get_by_idempotency_key}
use clawside.Sender.Store.Ops.{Op, run}
use clawside.Sender.Submit.{
  ServiceError, Result, ok, err, same_nullable_int64, same_bool, same_send_payload, accept,
  idempotency_key_conflict,
}
use clawside.Sender.Submit.Accepted.{outcome, accept-outcome}
use clawside.Sender.Submit.Idempotent.{key_lookup, outcome_found}

-- The row asks for what the request asks for.
pub record IsRequested (c : CreateJob) (job : Job) : Type 0 where
  pub bot_name : job.bot_name ≡ c.bot_name
  pub chat_id : job.chat_id ≡ c.chat_id
  pub text : job.text ≡ c.text
  pub max_attempts : job.max_attempts ≡ c.max_attempts
  pub reply_to_message_id : job.reply_to_message_id ≡ c.reply_to_message_id
  pub disable_notification : job.disable_notification ≡ c.disable_notification

nullable_eq : (a b : Option ℕ) → same_nullable_int64 a b ≡ true → a ≡ b
unfolding same_nullable_int64
nullable_eq a b e = ground arith

bool_eq : (a b : Bool) → same_bool a b ≡ true → a ≡ b
unfolding same_bool
bool_eq a b e = ground arith

payload-IsRequested :
    (job : Job) (c : CreateJob) → same_send_payload job c ≡ true → IsRequested c job
unfolding same_send_payload
payload-IsRequested job c e = record {
  bot_name = (eq_iff job.bot_name c.bot_name).0 (ground arith);
  chat_id = ground arith;
  text = (eq_iff job.text c.text).0 (ground arith);
  max_attempts = ground arith;
  reply_to_message_id = nullable_eq job.reply_to_message_id c.reply_to_message_id (ground arith);
  disable_notification = bool_eq job.disable_notification c.disable_notification (ground arith);
}

nullable_refl : (a : Option ℕ) → same_nullable_int64 a a ≡ true
unfolding same_nullable_int64
nullable_refl a = ground arith

bool_refl : (a : Bool) → same_bool a a ≡ true
unfolding same_bool
bool_refl a = ground arith

IsRequested-payload :
    (job : Job) (c : CreateJob) → IsRequested c job → same_send_payload job c ≡ true
unfolding same_send_payload
IsRequested-payload job c r = ground (
  arith,
  (eq_iff job.bot_name c.bot_name).1 r.bot_name,
  (eq_iff job.text c.text).1 r.text,
  ap (same_nullable_int64 job.reply_to_message_id) (sym r.reply_to_message_id)
      ∙ nullable_refl job.reply_to_message_id,
  ap (same_bool job.disable_notification) (sym r.disable_notification)
      ∙ bool_refl job.disable_notification,
  r.chat_id,
  r.max_attempts,
)

-- The answer to a request, against the table behind it: the job that has the key and asks for the
-- same, or a conflict with the job that has the key and asks for something else.
abbrev pub Answers : Store → CreateJob → Result Job → Type 0
Answers s c (ok job) = (get_by_idempotency_key s c.idempotency_key ≡ some job) × IsRequested c job
Answers s c (err e) =
    (e ≡ idempotency_key_conflict)
    × ((existing : Job) × (get_by_idempotency_key s c.idempotency_key ≡ some existing)
        × (¬ IsRequested c existing))

module _ (s : Store) (c : CreateJob) (now : ℕ) (keyed : str_eq c.idempotency_key "" ≡ false) where
  conflict-Answers :
      (o : Option Job) (e : ServiceError)
      → get_by_idempotency_key s c.idempotency_key ≡ o
      → (outcome s c now o).1 ≡ err e
      → Answers (outcome s c now o).0 c (err e)
  conflict-Answers none e f q = cc
  conflict-Answers (some j) e f q = elim (Bool-cases (same_send_payload j c)) [
    | inl y ↦ absurd (ground (arith, y))
    | inr n ↦
        (ground (arith, n), (j, f, λ r. absurd (ground (arith, n, IsRequested-payload j c r))))
  ]

  outcome-Answers :
      (o : Option Job) (r : Result Job)
      → get_by_idempotency_key s c.idempotency_key ≡ o
      → (outcome s c now o).1 ≡ r
      → Answers (outcome s c now o).0 c r
  outcome-Answers o (ok job) f q =
      let (found, payload) =
        outcome_found s c now keyed o job (sym (key_lookup s c.idempotency_key keyed) ∙ f) q in
      (
        key_lookup (outcome s c now o).0 c.idempotency_key keyed ∙ found,
        payload-IsRequested job c payload,
      )
  outcome-Answers o (err e) f q = conflict-Answers o e f q

-- A checked request with a key is answered with the job that has the key in the table behind it, if
-- that job asks for the same, and refused as a conflict only with a job that has the key and asks for
-- something else: whatever others do to the table between the lookup and the insertion.
pub accept-Answers :
    (s : Store) (meanwhile : List Op) (c : CreateJob) (now : ℕ)
    → str_eq c.idempotency_key "" ≡ false
    → Answers (accept s meanwhile c now).0 c (accept s meanwhile c now).1
accept-Answers s meanwhile c now keyed = elim (accept-outcome s meanwhile c now) [
  | inl e ↦ rw e (outcome-Answers (run s meanwhile) c now keyed _ _ refl refl)
  | inr e ↦ rw e (outcome-Answers s c now keyed _ _ refl refl)
]
