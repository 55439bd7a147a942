-- ===== src/Sender/RuntimeState.antt =====
-- runtime_state.go: what the worker reports about itself. Times are nanoseconds, 0 for Go's zero
-- time; the lock and the nil receiver are left out.
use clawside.Common.{ℕ, Bool, true, false}

pub record RuntimeState : Type 0 where
  pub worker_running : Bool
  pub started_at : ℕ
  pub last_loop_at : ℕ
  pub last_job_claim_at : ℕ
  pub last_success_at : ℕ
  pub last_failure_at : ℕ

abbrev pub new_runtime_state : RuntimeState
new_runtime_state = record {
  worker_running = false;
  started_at = 0;
  last_loop_at = 0;
  last_job_claim_at = 0;
  last_success_at = 0;
  last_failure_at = 0;
}

unfoldable pub mark_worker_started : RuntimeState → ℕ → RuntimeState
mark_worker_started s at_ = record s { worker_running = true; started_at = at_ }

unfoldable pub mark_worker_loop : RuntimeState → ℕ → RuntimeState
mark_worker_loop s at_ = record s { last_loop_at = at_ }

unfoldable pub mark_job_claimed : RuntimeState → ℕ → RuntimeState
mark_job_claimed s at_ = record s { last_job_claim_at = at_ }

unfoldable pub mark_job_succeeded : RuntimeState → ℕ → RuntimeState
mark_job_succeeded s at_ = record s { last_success_at = at_ }

unfoldable pub mark_job_failed : RuntimeState → ℕ → RuntimeState
mark_job_failed s at_ = record s { last_failure_at = at_ }

unfoldable pub mark_worker_stopped : RuntimeState → RuntimeState
mark_worker_stopped s = record s { worker_running = false }
