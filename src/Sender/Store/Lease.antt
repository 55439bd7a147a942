-- ===== src/Sender/Store/Lease.antt =====
-- The lease of a claim against the recovery of expired leases.
use clawside.Common.{
  ℕ, ◌-◌, ◌/◌, ◌<◌, Bool, true, false, some, List, [], ◌∷◌, ◌≡◌, ap, ◌∙◌, ◌==◌, refl, arith, inl,
  inr, Bool-cases, none-ne-some, leb, some_eq, if◌then◌else◌,
}
use clawside.Sender.Timestamps.{second, text_le, text_le-seconds}
use clawside.Sender.Store.{
  Job, Store, is_sending, find_row, has_id, get_job, update_rows, is_expired_sending, recovered,
  recover_expired_sending_jobs,
}

pub find_row-update_rows :
    (id : ℕ) (test : Job → Bool) (change : Job → Job) (rows : List Job) (j : Job)
    → ((j : Job) → (change j).id ≡ j.id)
    → find_row (has_id id) rows ≡ some j
    → find_row (has_id id) (update_rows test change rows) ≡ some (if test j then change j else j)
unfolding find_row update_rows
find_row-update_rows id test change [] j k f = absurd (none-ne-some f)
find_row-update_rows id test change (i ∷ rows) j k f = elim (Bool-cases (has_id id i)) [
  | inl y ↦
      let same : i ≡ j = some_eq (rw y at f) in
      let there : has_id id (if test i then change i else i) ≡ true = kept i y in
      rw there (ap (λ r. some (if test r then change r else r)) same)
  | inr n ↦
      let apart : has_id id (if test i then change i else i) ≡ false = kept i n in
      rw apart (find_row-update_rows id test change rows j k (rw n at f))
]
  where
    kept : (i : Job) {b : Bool} → has_id id i ≡ b → has_id id (if test i then change i else i) ≡ b
    kept i e = elim (Bool-cases (test i)) [
      | inl t ↦ rw t (ap (λ n. n == id) (k i) ∙ e)
      | inr t ↦ rw t e
    ]

not_expired :
    (now cutoff expires : ℕ) (j : Job)
    → j.lease_expires_at ≡ some expires
    → now / second < expires / second
    → is_expired_sending now cutoff j ≡ false
unfolding is_expired_sending
not_expired now cutoff expires j l before = elim (Bool-cases (text_le expires now)) [
  | inl y ↦ absurd (ground (arith, text_le-seconds expires now y))
  | inr n ↦ ground (arith, n)
]

pub lease_not_expired :
    (now cutoff expires : ℕ) (j : Job)
    → (is_sending j.status ≡ true → j.lease_expires_at ≡ some expires)
    → leb (expires / second) (now / second) ≡ false
    → is_expired_sending now cutoff j ≡ false
unfolding is_expired_sending
lease_not_expired now cutoff expires j l before = elim (Bool-cases (is_sending j.status)) [
  | inl y ↦ not_expired now cutoff expires j (l y) (ground arith)
  | inr n ↦ ground (arith, n)
]

-- A recovery leaves a job alone whose lease expires in a later second than that of the recovery,
-- whatever the grace period.
pub recover-leased :
    (s : Store) (now grace : ℕ) (id : ℕ) (j : Job) (expires : ℕ)
    → get_job s id ≡ some j
    → j.lease_expires_at ≡ some expires
    → now / second < expires / second
    → get_job (recover_expired_sending_jobs s now grace) id ≡ some j
unfolding get_job recover_expired_sending_jobs recovered
recover-leased s now grace id j expires f l before =
    find_row-update_rows id (is_expired_sending now (now - grace)) (recovered now) s.rows j
      (λ i. refl) f
    ∙ rw (not_expired now (now - grace) expires j l before) refl
