-- ===== src/Sender/Store/Settle.antt =====
-- MarkSent, MarkRetry and MarkFailed: the row that is being sent is written, and any other state of
-- the job is an error that changes nothing.
use clawside.Common.{
  ℕ, String, Bool, true, false, List, [], ◌∷◌, Option, none, some, ◌≡◌, inl, inr, refl, sym, ap,
  ◌∙◌, arith, All, Bool-cases, Option-cases, none-ne-some, some_eq, ◌==◌, if◌then◌else◌, ltb,
}
use clawside.Sender.Store.{
  Job, Status, Store, StoreError, job_not_found, invalid_transition, state_conflict, is_sending,
  in_flight, find_row, has_id, get_job, update_rows, count_rows, settle_job,
  classify_transition_conflict, classify_status,
}
use clawside.Sender.Store.Keys.{keys, Apart, Ordered, IsValid}

pub update_rows-none :
    (test : Job → Bool) (change : Job → Job) (rows : List Job)
    → All (λ j. test j ≡ false) rows
    → (update_rows test change rows ≡ rows) × (count_rows test rows ≡ 0)
unfolding update_rows count_rows
update_rows-none test change [] a = (refl, refl)
update_rows-none test change (j ∷ rows) a =
    let (same, zero_) = update_rows-none test change rows a.1 in rw (a.0, same, zero_) (refl, refl)

-- Behind a row no other row has its id.
pub later_not_in_flight :
    (p : ℕ × String) (rows : List Job)
    → All (Apart p) (keys rows)
    → All (λ j. in_flight p.0 j ≡ false) rows
later_not_in_flight p [] a = tt
later_not_in_flight p (j ∷ rows) a =
    let greater = a.0.0 in (ground arith, later_not_in_flight p rows a.1)

absent_not_in_flight :
    (id : ℕ) (rows : List Job)
    → find_row (has_id id) rows ≡ none
    → All (λ j. in_flight id j ≡ false) rows
unfolding find_row
absent_not_in_flight id [] f = tt
absent_not_in_flight id (j ∷ rows) f = elim (Bool-cases (has_id id j)) [
  | inl y ↦ absurd (none-ne-some (sym (rw y at f)))
  | inr n ↦ (rw n, absent_not_in_flight id rows (rw n at f))
]

pub idle_not_in_flight :
    (id : ℕ) (rows : List Job) (j : Job)
    → Ordered (keys rows)
    → find_row (has_id id) rows ≡ some j
    → is_sending j.status ≡ false
    → All (λ j. in_flight id j ≡ false) rows
unfolding find_row
idle_not_in_flight id [] j o f d = tt
idle_not_in_flight id (i ∷ rows) j o f d = elim (Bool-cases (has_id id i)) [
  | inl y ↦
      let same : i ≡ j = some_eq (rw y at f) in
      let sending : is_sending i.status ≡ false = rw same d in
      let here : i.id ≡ id = ground arith in
      (rw (y, sending), rw here at (later_not_in_flight (i.id, i.idempotency_key) rows o.0))
  | inr n ↦ (rw n, idle_not_in_flight id rows j o.1 (rw n at f) d)
]

-- The written row, found by its id, and the number of rows that the UPDATE affects.
sending_written :
    (id : ℕ) (change : Job → Job) (rows : List Job) (j : Job)
    → ((j : Job) → (change j).id ≡ j.id)
    → find_row (has_id id) rows ≡ some j
    → is_sending j.status ≡ true
    → (find_row (has_id id) (update_rows (in_flight id) change rows) ≡ some (change j))
      × (ltb 0 (count_rows (in_flight id) rows) ≡ true)
unfolding find_row update_rows count_rows
sending_written id change [] j k f d = absurd (none-ne-some f)
sending_written id change (i ∷ rows) j k f d = elim (Bool-cases (has_id id i)) [
  | inl y ↦
      let same : i ≡ j = some_eq (rw y at f) in
      let sending : is_sending i.status ≡ true = rw same d in
      let there : has_id id (change i) ≡ true = ap (λ n. n == id) (k i) ∙ y in
      rw (y, sending, there) (ap (λ r. some (change r)) same, ground arith)
  | inr n ↦ rw (n, n) (sending_written id change rows j k (rw n at f) d)
]

-- What settling answers, by the row that has the id.
abbrev pub answer : Option Job → Option StoreError
answer none = some job_not_found
answer (some j) = elim j.status [
  | Status.sending ↦ none
  | Status.pending ↦ some invalid_transition
  | _ ↦ some state_conflict
]

abbrev pub written : (Job → Job) → Option Job → Option Job
written change none = none
written change (some j) = some (if is_sending j.status then change j else j)

quiet :
    (s : Store) (id : ℕ) (change : Job → Job)
    → All (λ j. in_flight id j ≡ false) s.rows
    → settle_job s id change ≡ (s, some (classify_transition_conflict s.rows id))
unfolding settle_job
quiet s id change a =
    let (same, none_) = update_rows-none (in_flight id) change s.rows a in rw (same, none_)

classify_status-answer :
    (j : Job) → is_sending j.status ≡ false → some (classify_status j.status) ≡ answer (some j)
unfolding classify_status
classify_status-answer j d = ground arith

pub sending_answer : (j : Job) → is_sending j.status ≡ true → answer (some j) ≡ none
sending_answer j d = ground arith

module _ (s : Store) (id : ℕ) (change : Job → Job) where
  -- In a valid table, settling a job answers by the status of the row with its id, writes that row
  -- if it is being sent, and otherwise leaves it as it is.
  pub settle_exact :
      IsValid s
      → ((j : Job) → (change j).id ≡ j.id)
      → ((settle_job s id change).1 ≡ answer (get_job s id))
        × (get_job (settle_job s id change).0 id ≡ written change (get_job s id))
  unfolding get_job classify_transition_conflict
  settle_exact v k = elim (Option-cases (find_row (has_id id) s.rows)) [
    | inl f ↦
        rw (quiet s id change (absent_not_in_flight id s.rows f), f, classify_transition_conflict)
          (refl, refl)
    | inr (j, f) ↦ elim (Bool-cases (is_sending j.status)) [
      | inl d ↦
          let (there, counted) = sending_written id change s.rows j k f d in
          unfold settle_job in rw (counted, there, f, sending_answer j d, d) (refl, refl)
      | inr d ↦
          rw
            (
              quiet s id change (idle_not_in_flight id s.rows j v.ordered f d),
              f,
              classify_transition_conflict,
              classify_status-answer j d,
              d,
            )
            (refl, refl)
    ]
  ]
