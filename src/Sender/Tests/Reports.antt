-- ===== src/Sender/Tests/Reports.antt =====
-- The theorems on reports and timestamps at a small table of jobs.
use clawside.Common.{◌*◌, ◌+◌, ◌≤◌, true, false, [], ◌≡◌, refl, arith}
use clawside.Common.Int.{pos}
use clawside.Sender.Timestamps.{second, text_le, text_le_reversed}
use clawside.Sender.Text.{trim_space}
use clawside.Sender.Queries.{
  found, allowed_job_status, normalize_job_list_filter, has_status, ordered_rows, limit_rows,
  list_rows, map_items, list_jobs, max_job_list_limit,
}
use clawside.Sender.Queries.Listed.{list_jobs_bounded}
use clawside.Sender.Tests.{finished, now, same_text}

finished_list : list_jobs same_text finished "pending" (pos 5) ≡ found []
unfolding list_jobs normalize_job_list_filter trim_space allowed_job_status list_rows ordered_rows
    limit_rows has_status map_items
finished_list = refl

list_jobs_bounded_example : 0 ≤ max_job_list_limit
list_jobs_bounded_example = list_jobs_bounded same_text finished "pending" (pos 5) [] finished_list

three_five : text_le (3 * second) now ≡ true
unfolding text_le
three_five = refl

text_le_reversed_example :
    (text_le (5 * second) (5 * second + 1) ≡ false) × (text_le (5 * second + 1) (5 * second) ≡ true)
text_le_reversed_example = text_le_reversed 5 1 (ground arith) (ground arith)
