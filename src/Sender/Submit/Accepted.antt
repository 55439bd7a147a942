-- ===== src/Sender/Submit/Accepted.antt =====
-- What a submitted message has passed, and what its acceptance does to the table.
use Prim.Native.String.{count}
use text.Mathlib.TextPositions.{eq_refl}
use clawside.Common.{
  sym, none-ne-some, ℕ, ◌≤◌, String, true, false, Option, none, some, List, [], ◌≡◌, ◌≢◌, ◌⊎◌, inl,
  inr, refl, ap, ◌∙◌, arith, if◌then◌else◌, str_eq, Bool-cases, Option-cases,
}
use clawside.Sender.Text.{is_blank_text, normalize_bot_name}
use clawside.Sender.Store.{
  CreateJob, Job, Store, get_by_idempotency_key, insert_job, new_job, enqueue,
}
use clawside.Sender.Store.Ops.{Op, run}
use clawside.Sender.Worker.{BotRuntimeConfig, lookup_bot}
use clawside.Sender.Worker.Budget.{IsSound}
use clawside.Sender.Worker.Arrivals.{insert-IsSound}
use clawside.Sender.Submit.{
  SendCommand, SendService, ServiceError, Result, ok, err, resolve_max_attempts, allowlisted,
  validate, same_nullable_int64, same_send_payload, enqueue_checked, accept, submit_amid, submit,
  idempotency_key_conflict,
}

resolve_bounds :
    (default : ℕ) (n : _) (a : ℕ) → resolve_max_attempts default n ≡ ok a → (1 ≤ a) × (a ≤ 5)
unfolding resolve_max_attempts
resolve_bounds default n a h = ground arith

-- What the checks of `Submit` leave.
pub record IsAccepted (to_lower : String → String) (service : SendService) (c : CreateJob)
    : Type 0 where
  pub bot : BotRuntimeConfig
  pub known : lookup_bot c.bot_name service.bots ≡ some bot
  pub enabled : bot.enabled ≡ true
  pub token : is_blank_text bot.token ≡ false
  pub chat_id : c.chat_id ≢ 0
  pub allowed : allowlisted c.chat_id service.global_allowlist bot.allow_user_ids ≡ true
  pub text : is_blank_text c.text ≡ false
  pub short : count c.text ≤ 4096
  pub attempts_from : 1 ≤ c.max_attempts
  pub attempts_to : c.max_attempts ≤ 5

resolve-cases {ℓ} :
    {A : Type ℓ} (r : Result A) → ((a : A) × (r ≡ ok a)) ⊎ ((e : ServiceError) × (r ≡ err e))
resolve-cases (ok a) = inl (a, refl)
resolve-cases (err e) = inr (e, refl)

err_eq {ℓ} : {A : Type ℓ} {a b : ServiceError} → ◌≡◌ {A = Result A} (err a) (err b) → a ≡ b
err_eq h = cc

-- A request that passes the checks names an enabled bot with a token, an allowed recipient that is
-- not 0, a text that is neither blank nor longer than 4096 characters, and one to five attempts.
pub validate-IsAccepted :
    (to_lower : String → String) (service : SendService) (req : SendCommand) (c : CreateJob)
    → validate to_lower service req ≡ ok c
    → IsAccepted to_lower service c
unfolding validate
validate-IsAccepted to_lower service req c h =
    elim (Option-cases (lookup_bot (normalize_bot_name to_lower req.bot) service.bots)) [
      | inl n ↦ absurd (ground arith)
      | inr (bot, b) ↦
          elim (resolve-cases
            (resolve_max_attempts service.default_max_attempts req.max_attempts)) [
              | inr (e, r) ↦ absurd (ground arith)
              | inl (a, r) ↦
                  let bounds = resolve_bounds service.default_max_attempts req.max_attempts a r in
                  record {
                    bot = bot;
                    known = ground arith;
                    enabled = ground arith;
                    token = ground arith;
                    chat_id = ground arith;
                    allowed = ground arith;
                    text = ground arith;
                    short = ground arith;
                    attempts_from = ground arith;
                    attempts_to = ground arith;
                  }
            ]
    ]

same_nullable_refl : (a : Option ℕ) → same_nullable_int64 a a ≡ true
unfolding same_nullable_int64
same_nullable_refl none = refl
same_nullable_refl (some a) = ground arith

-- A new row has the payload that it was made from.
pub new_payload :
    (s : Store) (c : CreateJob) (now : ℕ) → same_send_payload (insert_job s c now).1 c ≡ true
unfolding same_send_payload insert_job new_job
new_payload s c now =
    ground (arith, eq_refl c.bot_name, eq_refl c.text, same_nullable_refl c.reply_to_message_id)

pub enqueue-none :
    (s : Store) (c : CreateJob) (now : ℕ)
    → get_by_idempotency_key s c.idempotency_key ≡ none
    → enqueue s c now ≡ insert_job s c now
unfolding enqueue
enqueue-none s c now f = rw (f, enqueue)

-- `Enqueue`, and the row it answers with, where the key is empty or new.
pub enqueue_fresh :
    (s : Store) (c : CreateJob) (now : ℕ)
    → get_by_idempotency_key s c.idempotency_key ≡ none
    → enqueue_checked s c now ≡ ((insert_job s c now).0, ok (insert_job s c now).1)
unfolding enqueue_checked
enqueue_fresh s c now f = elim (Bool-cases (str_eq c.idempotency_key "")) [
  | inl y ↦ rw (y, enqueue-none s c now f)
  | inr n ↦ rw (n, enqueue-none s c now f, new_payload s c now)
]

no_key : (s : Store) (key : String) → str_eq key "" ≡ true → get_by_idempotency_key s key ≡ none
unfolding get_by_idempotency_key
no_key s key e = rw e

-- What accepting a checked request comes to: a new pending row, or the row with the same key if its
-- payload is the same, or a conflict.
abbrev pub outcome : Store → CreateJob → ℕ → Option Job → Store × Result Job
outcome s c now none = ((insert_job s c now).0, ok (insert_job s c now).1)
outcome s c now (some existing) =
    (s, if same_send_payload existing c then ok existing else err idempotency_key_conflict)

pub enqueue-outcome :
    (s : Store) (c : CreateJob) (now : ℕ)
    → enqueue_checked s c now ≡ outcome s c now (get_by_idempotency_key s c.idempotency_key)
enqueue-outcome s c now = elim (Option-cases (get_by_idempotency_key s c.idempotency_key)) [
  | inl f ↦ rw f (enqueue_fresh s c now f)
  | inr (j, f) ↦ elim (Bool-cases (str_eq c.idempotency_key "")) [
    | inl y ↦ absurd (none-ne-some (sym (no_key s c.idempotency_key y) ∙ f))
    | inr n ↦ unfold enqueue_checked in unfold enqueue in rw (n, f) (ground arith)
  ]
]

-- Acceptance comes down to one look at the table: as it was where the key was found, and as others
-- left it where it was not.
pub accept-outcome :
    (s : Store) (meanwhile : List Op) (c : CreateJob) (now : ℕ)
    → let later = run s meanwhile in
      (accept s meanwhile c now
        ≡ outcome later c now (get_by_idempotency_key later c.idempotency_key))
      ⊎ (accept s meanwhile c now ≡ outcome s c now (get_by_idempotency_key s c.idempotency_key))
unfolding accept
accept-outcome s meanwhile c now = elim (Bool-cases (str_eq c.idempotency_key "")) [
  | inl y ↦ inl (rw y (enqueue-outcome (run s meanwhile) c now))
  | inr n ↦ elim (Option-cases (get_by_idempotency_key s c.idempotency_key)) [
    | inl f ↦ inl (rw (n, f) (enqueue-outcome (run s meanwhile) c now))
    | inr (j, f) ↦ inr (rw (n, f) (ground arith))
  ]
]

accept_alone :
    (s : Store) (c : CreateJob) (now : ℕ)
    → accept s [] c now ≡ outcome s c now (get_by_idempotency_key s c.idempotency_key)
unfolding run
accept_alone s c now = elim (accept-outcome s [] c now) [ inl e ↦ e | inr e ↦ e ]

outcome-IsSound :
    (s : Store) (c : CreateJob) (now : ℕ) (o : Option Job)
    → get_by_idempotency_key s c.idempotency_key ≡ o
    → 1 ≤ c.max_attempts
    → IsSound s
    → IsSound (outcome s c now o).0
outcome-IsSound s c now none f m v = insert-IsSound s c now f m v
outcome-IsSound s c now (some j) f m v = v

module _ (to_lower : String → String) (service : SendService) (s : Store) (req : SendCommand)
    (now : ℕ) where
  pub submit-ok :
      (c : CreateJob)
      → validate to_lower service req ≡ ok c
      → submit to_lower service s req now
        ≡ outcome s c now (get_by_idempotency_key s c.idempotency_key)
  unfolding submit submit_amid
  submit-ok c e = rw (e, submit_amid) (accept_alone s c now)

  submit-err :
      (e : ServiceError)
      → validate to_lower service req ≡ err e
      → submit to_lower service s req now ≡ (s, err e)
  unfolding submit submit_amid
  submit-err e h = rw (h, submit_amid)

  -- From a sound table, accepting or refusing a message keeps the table sound: in order, with
  -- unique keys, and with an attempt left for every job that is not final.
  pub submit-IsSound : IsSound s → IsSound (submit to_lower service s req now).0
  submit-IsSound v = elim (resolve-cases (validate to_lower service req)) [
    | inr (e, h) ↦ rw (submit-err e h) v
    | inl (c, h) ↦ rw (submit-ok c h) (
        outcome-IsSound s c now (get_by_idempotency_key s c.idempotency_key) refl
          (validate-IsAccepted to_lower service req c h).attempts_from v)
  ]

  outcome_refused :
      (c : CreateJob) (o : Option Job) (e : ServiceError)
      → (outcome s c now o).1 ≡ err e
      → ((outcome s c now o).0 ≡ s) × (e ≡ idempotency_key_conflict)
  outcome_refused c none e h = cc
  outcome_refused c (some j) e h = ground arith

  -- A refused message leaves the table as it is; behind the checks the only refusal is the
  -- conflict of idempotency keys.
  pub submit_refused :
      (e : ServiceError)
      → (submit to_lower service s req now).1 ≡ err e
      → ((submit to_lower service s req now).0 ≡ s)
        × ((validate to_lower service req ≡ err e) ⊎ (e ≡ idempotency_key_conflict))
  submit_refused e h = elim (resolve-cases (validate to_lower service req)) [
    | inr (e', v) ↦
        let same = submit-err e' v in
        let eq : e' ≡ e = err_eq (rw same at h) in (rw same, inl (v ∙ ap err eq))
    | inl (c, v) ↦
        let same = submit-ok c v in
        let (kept, conflict) =
          outcome_refused c (get_by_idempotency_key s c.idempotency_key) e (rw same at h) in
        (rw same kept, inr conflict)
  ]
