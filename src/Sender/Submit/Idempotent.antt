-- ===== src/Sender/Submit/Idempotent.antt =====
-- A message that is submitted again under its idempotency key.
use text.Mathlib.TextPositions.{eq_refl}
use clawside.Common.{
  ℕ, ◌++◌, String, true, false, List, [], ◌∷◌, Option, none, some, ◌≡◌, inl, inr, sym, ap, ◌∙◌,
  str_eq, Bool-cases, none-ne-some,
}
use clawside.Sender.Store.{
  CreateJob, Job, Store, find_row, has_key, get_by_idempotency_key, insert_job, new_job,
}
use clawside.Sender.Store.Ops.{Op, run}
use clawside.Sender.Store.Lifecycle.{SameContent}
use clawside.Sender.Store.History.{run-row}
use clawside.Sender.Submit.{
  SendCommand, SendService, ServiceError, ok, err, validate, same_send_payload, submit,
}
use clawside.Sender.Submit.Accepted.{outcome, new_payload, submit-ok}

pub ok_eq {ℓ} : {A : Type ℓ} {a b : A} → ok a ≡ ok b → a ≡ b
ok_eq e = cc

err-ne-ok {ℓ} : {A : Type ℓ} {a : A} {e : ServiceError} → err e ≡ ok a → ⊥
err-ne-ok h = cc

same_has_key : (key : String) (j k : Job) → SameContent j k → has_key key k ≡ has_key key j
same_has_key key j k c = ap (λ i. str_eq i key) c.idempotency_key

-- Two rows with the same content have the same payload.
same_payload_kept :
    (j k : Job) (c : CreateJob) → SameContent j k → same_send_payload k c ≡ same_send_payload j c
unfolding same_send_payload
same_payload_kept j k c s = cc

find_key_append :
    (key : String) (rows : List Job) (j : Job)
    → find_row (has_key key) rows ≡ none
    → has_key key j ≡ true
    → find_row (has_key key) (rows ++ j ∷ []) ≡ some j
unfolding find_row
find_key_append key [] j f h = rw h
find_key_append key (i ∷ rows) j f h = elim (Bool-cases (has_key key i)) [
  | inl y ↦ absurd (none-ne-some (sym (rw y at f)))
  | inr n ↦ rw n (find_key_append key rows j (rw n at f) h)
]

pub key_lookup :
    (s : Store) (key : String)
    → str_eq key "" ≡ false
    → get_by_idempotency_key s key ≡ find_row (has_key key) s.rows
unfolding get_by_idempotency_key
key_lookup s key e = rw e

-- An accepted message with a key is found by it, with the payload that was asked for.
module _ (s : Store) (c : CreateJob) (now : ℕ) (keyed : str_eq c.idempotency_key "" ≡ false) where
  inserted_found :
      find_row (has_key c.idempotency_key) s.rows ≡ none
      → find_row (has_key c.idempotency_key) (insert_job s c now).0.rows
        ≡ some (insert_job s c now).1
  unfolding insert_job new_job
  inserted_found f = find_key_append c.idempotency_key s.rows _ f (eq_refl c.idempotency_key)

  pub outcome_found :
      (o : Option Job) (job : Job)
      → find_row (has_key c.idempotency_key) s.rows ≡ o
      → (outcome s c now o).1 ≡ ok job
      → (find_row (has_key c.idempotency_key) (outcome s c now o).0.rows ≡ some job)
        × (same_send_payload job c ≡ true)
  outcome_found none job f e =
      let same : (insert_job s c now).1 ≡ job = ok_eq e in
      (inserted_found f ∙ ap some same, rw (← same) (new_payload s c now))
  outcome_found (some j) job f e = elim (Bool-cases (same_send_payload j c)) [
    | inl y ↦ let same : j ≡ job = ok_eq (rw y at e) in (f ∙ ap some same, rw (← same) y)
    | inr n ↦ absurd (err-ne-ok (rw n at e))
  ]

-- A request that passes the checks with an idempotency key that is not empty, and was accepted, is
-- answered with the same job, its content unchanged, when it is submitted again, and then the
-- table stays as it is: whatever statements of the worker, of the recovery or of other submissions
-- ran in between.
pub submit_again :
    (to_lower : String → String) (service : SendService) (s : Store) (req : SendCommand) (now : ℕ)
    (c : CreateJob) (job : Job)
    → validate to_lower service req ≡ ok c
    → str_eq c.idempotency_key "" ≡ false
    → (submit to_lower service s req now).1 ≡ ok job
    → (ops : List Op) (now' : ℕ)
    → let later = run (submit to_lower service s req now).0 ops in
      (k : Job) × (submit to_lower service later req now' ≡ (later, ok k)) × SameContent job k
submit_again to_lower service s req now c job valid keyed accepted ops now' =
    let first = submit-ok to_lower service s req now c valid in
    let s' = (submit to_lower service s req now).0 in
    let (found, payload) =
      outcome_found s c now keyed (get_by_idempotency_key s c.idempotency_key) job
        (sym (key_lookup s c.idempotency_key keyed)) (rw first at accepted) in
    let there : find_row (has_key c.idempotency_key) s'.rows ≡ some job = rw first found in
    let (k, last, same) =
      run-row (has_key c.idempotency_key) (same_has_key c.idempotency_key) s' ops job there in
    let known = key_lookup (run s' ops) c.idempotency_key keyed ∙ last in
    (
      k,
      submit-ok to_lower service (run s' ops) req now' c valid
          ∙ rw (known, same_payload_kept job k c same, payload),
      same,
    )
