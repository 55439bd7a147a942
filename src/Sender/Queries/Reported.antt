-- ===== src/Sender/Queries/Reported.antt =====
-- What the report on the jobs says.
use clawside.Common.{ℕ, ◌+◌, List, [], ◌∷◌, ◌≡◌, refl, arith, length}
use clawside.Sender.Store.{Status, Job, Store, count_rows}
use clawside.Sender.Queries.{has_status, get_stats}

abbrev counts : List Job → ℕ
counts rows =
    count_rows (has_status Status.pending) rows
    + count_rows (has_status Status.retry) rows
    + count_rows (has_status Status.sending) rows
    + count_rows (has_status Status.failed) rows
    + count_rows (has_status Status.sent) rows

count_rows_total : (rows : List Job) → counts rows ≡ length rows
unfolding count_rows has_status
count_rows_total [] = refl
count_rows_total (j ∷ rows) = ground (arith, count_rows_total rows)

-- The five counts of the statistics add up to the number of jobs in the store.
pub get_stats_total :
    (s : Store) (now : ℕ)
    → let stats = get_stats s now in
      stats.pending_count + stats.retry_count + stats.sending_count + stats.failed_count
        + stats.sent_count
      ≡ length s.rows
unfolding get_stats
get_stats_total s now = count_rows_total s.rows
