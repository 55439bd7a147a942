-- ===== src/Sender/Queries/Listed.antt =====
-- What a list of jobs shows.
use clawside.Common.{
  ℕ, zero, suc, ◌≤◌, String, Bool, true, false, List, [], ◌∷◌, ◌≡◌, refl, arith, if◌then◌else◌,
  length, All, ltb,
}
use clawside.Common.Int.{ℤ, pos, negsuc}
use clawside.Sender.Store.{Job, Store, count_rows}
use clawside.Sender.Queries.{
  JobListFilter, JobListItem, Query, found, refused, has_status, job_order, insert_row,
  ordered_rows, limit_rows, list_rows, map_items, list_jobs, normalize_job_list_filter, list_answer,
  QueryError, max_job_list_limit,
}

module _ (P : Job → Type 0) where
  All-if :
      (b : Bool) (xs ys : List Job)
      → (b ≡ true → All P xs)
      → (b ≡ false → All P ys)
      → All P (if b then xs else ys)
  All-if true xs ys t f = t refl
  All-if false xs ys t f = f refl

  All-insert_row :
      (precedes : Job → Job → Bool) (j : Job) (rows : List Job)
      → P j
      → All P rows
      → All P (insert_row precedes j rows)
  unfolding insert_row
  All-insert_row precedes j [] p ps = (p, ps)
  All-insert_row precedes j (r ∷ rows) p ps =
      All-if (precedes r j) (r ∷ insert_row precedes j rows) (j ∷ r ∷ rows)
        (λ _. (ps.0, All-insert_row precedes j rows p ps.1)) (λ _. (p, ps))

  All-limit_rows : (n : ℕ) (rows : List Job) → All P rows → All P (limit_rows n rows)
  unfolding limit_rows
  All-limit_rows zero rows ps = tt
  All-limit_rows (suc n) [] ps = tt
  All-limit_rows (suc n) (j ∷ rows) ps = (ps.0, All-limit_rows n rows ps.1)

ordered_rows-test :
    (test : Job → Bool) (precedes : Job → Job → Bool) (rows : List Job)
    → All (λ j. test j ≡ true) (ordered_rows test precedes rows)
unfolding ordered_rows
ordered_rows-test test precedes [] = tt
ordered_rows-test test precedes (j ∷ rows) =
    let rest = ordered_rows-test test precedes rows in
    let sorted = ordered_rows test precedes rows in
    All-if _ (test j) (insert_row precedes j sorted) sorted
      (λ yes_. All-insert_row _ precedes j sorted yes_ rest) (λ _. rest)

length-insert_row :
    (precedes : Job → Job → Bool) (j : Job) (rows : List Job)
    → length (insert_row precedes j rows) ≡ suc (length rows)
unfolding insert_row
length-insert_row precedes j [] = refl
length-insert_row precedes j (r ∷ rows) = ground (arith, length-insert_row precedes j rows)

length-ordered_rows :
    (test : Job → Bool) (precedes : Job → Job → Bool) (rows : List Job)
    → length (ordered_rows test precedes rows) ≡ count_rows test rows
unfolding ordered_rows count_rows
length-ordered_rows test precedes [] = refl
length-ordered_rows test precedes (j ∷ rows) = ground (
  arith,
  length-ordered_rows test precedes rows,
  length-insert_row precedes j (ordered_rows test precedes rows),
)

abbrev pub min : ℕ → ℕ → ℕ
min a b = if ltb b a then b else a

length-limit_rows : (n : ℕ) (rows : List Job) → length (limit_rows n rows) ≡ min n (length rows)
unfolding limit_rows
length-limit_rows zero rows = ground arith
length-limit_rows (suc n) [] = ground arith
length-limit_rows (suc n) (j ∷ rows) = ground (arith, length-limit_rows n rows)

pub list_rows_exact :
    (filter : JobListFilter) (s : Store)
    → All (λ j. has_status filter.status j ≡ true) (list_rows filter s)
      × (length (list_rows filter s)
          ≡ min filter.limit (count_rows (has_status filter.status) s.rows))
unfolding list_rows
list_rows_exact filter s =
    let test = has_status filter.status in
    let precedes = job_order filter.status in
    let sorted = ordered_rows test precedes s.rows in
    (
      All-limit_rows _ filter.limit sorted (ordered_rows-test test precedes s.rows),
      rw (length-limit_rows filter.limit sorted, length-ordered_rows test precedes s.rows) refl,
    )

length-map_items :
    (redact : String → String) (jobs : List Job) → length (map_items redact jobs) ≡ length jobs
unfolding map_items
length-map_items redact [] = refl
length-map_items redact (j ∷ jobs) = omega (arith, length-map_items redact jobs)

normalize-limit :
    (status : String) (limit : ℤ) (filter : JobListFilter)
    → normalize_job_list_filter status limit ≡ found filter
    → filter.limit ≤ max_job_list_limit
unfolding normalize_job_list_filter
normalize-limit status (pos n) filter e = ground arith
normalize-limit status (negsuc n) filter e = ground arith

items-bounded :
    (redact : String → String) (filter : JobListFilter) (s : Store)
    → filter.limit ≤ max_job_list_limit
    → length (map_items redact (list_rows filter s)) ≤ max_job_list_limit
items-bounded redact filter s le =
    let n = list_rows_exact filter s in
    ground (arith, n.1, length-map_items redact (list_rows filter s))

found_eq : (a b : List JobListItem) → found a ≡ found b → a ≡ b
found_eq a b e = cc

refused-ne-found : {e : QueryError} {a : List JobListItem} → refused e ≡ found a → ⊥
refused-ne-found h = cc

answer-bounded :
    (redact : String → String) (s : Store) (items : List JobListItem) (q : Query JobListFilter)
    → ((filter : JobListFilter) → q ≡ found filter → filter.limit ≤ max_job_list_limit)
    → list_answer redact s q ≡ found items
    → length items ≤ max_job_list_limit
answer-bounded redact s items (refused r) h e = absurd (refused-ne-found e)
answer-bounded redact s items (found filter) h e =
    rw (← found_eq _ items e) (items-bounded redact filter s (h filter refl))

-- No answer to a list request holds more than a hundred jobs, whatever limit is asked for.
pub list_jobs_bounded :
    (redact : String → String) (s : Store) (status : String) (limit : ℤ) (items : List JobListItem)
    → list_jobs redact s status limit ≡ found items
    → length items ≤ max_job_list_limit
unfolding list_jobs
list_jobs_bounded redact s status limit items e =
    answer-bounded redact s items (normalize_job_list_filter status limit)
      (λ filter h. normalize-limit status limit filter h) e
