-- ===== src/Sender/Store/Claim.antt =====
-- ClaimNextReady: which job a claim takes, and that it takes no other.
use mathlib.Core.Bool.{false≢true}
use clawside.Common.{
  ℕ, String, ◌/◌, ◌≤◌, ◌<◌, true, false, List, [], ◌∷◌, none, some, ◌≡◌, inl, inr, refl, sym, ap,
  ◌∙◌, arith, All, Bool-cases, none-ne-some, some_eq, ◌==◌, if◌then◌else◌,
}
use clawside.Sender.Timestamps.{second, text_le-seconds}
use clawside.Sender.Store.{
  Job, Status, Store, find_row, has_id, get_job, is_ready, claimed, claim_rows, claim_next_ready,
}
use clawside.Sender.Store.Keys.{keys, Apart, Ordered, IsValid}

-- What a claim that returns `k` does to the rows.
pub record Claims (now lease : ℕ) (rows rows' : List Job) (k : Job) : Type 0 where
  pub job : Job
  pub there : find_row (has_id job.id) rows ≡ some job
  pub ready : is_ready now job ≡ true
  pub result : k ≡ claimed now lease job
  pub written : find_row (has_id job.id) rows' ≡ some k
  pub oldest : All (λ i. is_ready now i ≡ true → job.id ≤ i.id) rows
  pub others :
      (id : ℕ) → (job.id == id) ≡ false → find_row (has_id id) rows' ≡ find_row (has_id id) rows

id-claimed : (now lease : ℕ) (j : Job) → (claimed now lease j).id ≡ j.id
unfolding claimed
id-claimed now lease j = refl

same_id : (n : ℕ) → (n == n) ≡ true
same_id n = ground arith

later_ids :
    (now : ℕ) (j : Job) (rows : List Job)
    → All (Apart (j.id, j.idempotency_key)) (keys rows)
    → All (λ i. is_ready now i ≡ true → j.id ≤ i.id) rows
later_ids now j [] a = tt
later_ids now j (i ∷ rows) a = (λ _. omega arith, later_ids now j rows a.1)

above_found :
    (p : ℕ × String) (id : ℕ) (rows : List Job) (j : Job)
    → All (Apart p) (keys rows)
    → find_row (has_id id) rows ≡ some j
    → p.0 < id
unfolding find_row
above_found p id [] j a f = absurd (none-ne-some f)
above_found p id (i ∷ rows) j a f = ground (arith, above_found p id rows j a.1)

head_claim :
    (now lease : ℕ) (j k : Job) (rows : List Job)
    → Ordered (keys (j ∷ rows))
    → is_ready now j ≡ true
    → some (claimed now lease j) ≡ some k
    → Claims now lease (j ∷ rows) (claimed now lease j ∷ rows) k
unfolding find_row claimed
head_claim now lease j k rows o r e = record {
  job = j;
  there = rw (same_id j.id);
  ready = r;
  result = sym (some_eq e);
  written = rw (same_id j.id) e;
  oldest = (λ _. omega arith, later_ids now j rows o.0);
  others = λ id ne. rw ne;
}

tail_claim :
    (now lease : ℕ) (j k : Job) (rows rows' : List Job)
    → Ordered (keys (j ∷ rows))
    → is_ready now j ≡ false
    → Claims now lease rows rows' k
    → Claims now lease (j ∷ rows) (j ∷ rows') k
unfolding find_row
tail_claim now lease j k rows rows' o r c =
    let below = above_found (j.id, j.idempotency_key) c.job.id rows c.job o.0 c.there in
    let apart : (j.id == c.job.id) ≡ false = ground arith in
    record {
      job = c.job;
      there = rw apart c.there;
      ready = c.ready;
      result = c.result;
      written = rw apart c.written;
      oldest = (λ t. absurd (false≢true (sym r ∙ t)), c.oldest);
      others = λ id ne. ap (λ o. if j.id == id then some j else o) (c.others id ne);
    }

claim_rows-Claims :
    (now lease : ℕ) (rows : List Job) (k : Job)
    → Ordered (keys rows)
    → (claim_rows now lease rows).1 ≡ some k
    → Claims now lease rows (claim_rows now lease rows).0 k
unfolding claim_rows
claim_rows-Claims now lease [] k o e = absurd (none-ne-some e)
claim_rows-Claims now lease (j ∷ rows) k o e = elim (Bool-cases (is_ready now j)) [
  | inl r ↦ rw r (head_claim now lease j k rows o r (rw r at e))
  | inr r ↦
      rw r
        (tail_claim now lease j k rows _ o r (claim_rows-Claims now lease rows k o.1 (rw r at e)))
]

-- In a valid table a claim returns the row with the least id among those that are ready, as the
-- update writes it, and leaves the rows with other ids alone.
pub claim-some :
    (s : Store) (now lease : ℕ) (k : Job)
    → IsValid s
    → (claim_next_ready s now lease).1 ≡ some k
    → Claims now lease s.rows (claim_next_ready s now lease).0.rows k
unfolding claim_next_ready
claim-some s now lease k v e = claim_rows-Claims now lease s.rows k v.ordered e

claim_rows-none :
    (now lease : ℕ) (rows : List Job)
    → (claim_rows now lease rows).1 ≡ none
    → ((claim_rows now lease rows).0 ≡ rows) × All (λ i. is_ready now i ≡ false) rows
unfolding claim_rows
claim_rows-none now lease [] e = (refl, tt)
claim_rows-none now lease (j ∷ rows) e = elim (Bool-cases (is_ready now j)) [
  | inl r ↦ absurd (none-ne-some (sym (rw r at e)))
  | inr r ↦
      let (same, rest) = claim_rows-none now lease rows (rw r at e) in (rw (r, same), (r, rest))
]

-- A claim that returns nothing changes nothing, and then no row is ready.
pub claim-none :
    (s : Store) (now lease : ℕ)
    → (claim_next_ready s now lease).1 ≡ none
    → ((claim_next_ready s now lease).0 ≡ s) × All (λ i. is_ready now i ≡ false) s.rows
unfolding claim_next_ready
claim-none s now lease e =
    let (same, rest) = claim_rows-none now lease s.rows e in
    (ap (λ (rows : List Job). record s { rows = rows }) same, rest)

due_second :
    (now : ℕ) (j : Job) (at_ : ℕ)
    → j.status ≡ Status.retry
    → j.next_retry_at ≡ some at_
    → is_ready now j ≡ true
    → at_ / second ≤ now / second
unfolding is_ready
due_second now j at_ p q r = text_le-seconds at_ now (ground arith)

-- In a valid table, a retry that a claim returns is never claimed in a second before that of its
-- `next_retry_at`.
pub claim-not_early :
    (s : Store) (now lease : ℕ) (k : Job)
    → IsValid s
    → (claim_next_ready s now lease).1 ≡ some k
    → (j : Job) (at_ : ℕ) → get_job s k.id ≡ some j
    → j.status ≡ Status.retry
    → j.next_retry_at ≡ some at_
    → at_ / second ≤ now / second
unfolding get_job
claim-not_early s now lease k v e j at_ f p q =
    let c = claim-some s now lease k v e in
    let same : c.job ≡ j =
      some_eq (sym c.there ∙ rw (← id-claimed now lease c.job) (rw (← c.result) f)) in
    due_second now j at_ p q (rw (← same) c.ready)
