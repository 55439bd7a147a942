-- ===== src/Sender/Tests/Jobs.antt =====
-- The theorems on the store at a small table of jobs.
use clawside.Common.{
  ◌*◌, ◌+◌, ◌/◌, ◌≤◌, false, none, some, List, [], ◌∷◌, ◌≡◌, refl, arith, inr, ◌==◌,
}
use clawside.Sender.Timestamps.{second, text_le}
use clawside.Sender.Store.{
  recover_expired_sending_jobs, is_expired_sending, recovered, Status, Job, Store, get_job,
  find_row, is_ready, claimed, claim_rows, claim_next_ready, settle_job, update_rows, mark_sent,
}
use clawside.Sender.Store.Ops.{Op, step, run}
use clawside.Sender.Store.Keys.{IsValid, run-IsValid}
use clawside.Sender.Store.Lifecycle.{SameContent, Evolves, step-Evolves}
use clawside.Sender.Store.History.{run-content, run-final}
use clawside.Sender.Store.Claim.{Claims, claim-some, claim-not_early}
use clawside.Sender.Store.Settle.{answer, written, settle_exact}
use clawside.Sender.Store.Lease.{recover-leased}
use clawside.Sender.Store.Exclusive.{no_double_claim}
use clawside.Sender.Tests.{
  job_1, job_2, job_3, table, finished, now, lease, table-IsValid, claimed_1, day,
}

-- The table where only the retry is left.
abbrev retries : Store
retries = record { rows = job_2 ∷ job_3 ∷ []; next_id = 4 }

retries-IsValid : IsValid retries
retries-IsValid = record {
  ordered = (((ground arith, inr refl), tt), (tt, tt));
  below = (ground arith, (ground arith, tt));
}

abbrev claimed_2 : Job
claimed_2 = record job_2 {
  status = Status.sending;
  updated_at = now;
  lease_expires_at = some (now + lease);
}

table_claim : (claim_next_ready table now lease).1 ≡ some claimed_1
unfolding claim_next_ready claim_rows is_ready claimed
table_claim = refl

retries_claim : (claim_next_ready retries now lease).1 ≡ some claimed_2
unfolding claim_next_ready claim_rows is_ready claimed text_le
retries_claim = refl

finished_claim : (claim_next_ready finished now lease).1 ≡ none
unfolding claim_next_ready claim_rows is_ready
finished_claim = refl

abbrev between : List Op
between = Op.recover (now + second) second ∷ Op.sent 1 1 now ∷ []

second_claim :
    (claim_next_ready (run (claim_next_ready table now lease).0 between) now lease).1
    ≡ some claimed_2
unfolding recover_expired_sending_jobs is_expired_sending recovered claim_next_ready claim_rows
    is_ready claimed text_le run step mark_sent settle_job update_rows
second_claim = refl

no_double_claim_example : (2 == 1) ≡ false
no_double_claim_example =
    no_double_claim table now lease claimed_1 table-IsValid table_claim between now lease claimed_2
      refl second_claim

claim-some_example : Claims now lease table.rows (claim_next_ready table now lease).0.rows claimed_1
claim-some_example = claim-some table now lease claimed_1 table-IsValid table_claim

waiting_2 : get_job retries 2 ≡ some job_2
unfolding get_job find_row
waiting_2 = refl

claim-not_early_example : 3 * second / second ≤ now / second
claim-not_early_example =
    claim-not_early retries now lease claimed_2 retries-IsValid retries_claim job_2 (3 * second)
      waiting_2 refl refl

run-IsValid_example : IsValid (run table day)
run-IsValid_example = run-IsValid table day table-IsValid

step-Evolves_example : Evolves table.rows (step table (Op.claim now lease)).rows
step-Evolves_example = step-Evolves table (Op.claim now lease)

stored_1 : get_job table 1 ≡ some job_1
unfolding get_job find_row
stored_1 = refl

stored_3 : get_job table 3 ≡ some job_3
unfolding get_job find_row
stored_3 = refl

run-content_example : (k : Job) × (get_job (run table day) 1 ≡ some k) × SameContent job_1 k
run-content_example = run-content table day 1 job_1 stored_1

run-final_example : get_job (run table day) 3 ≡ some job_3
run-final_example = run-final table day 3 job_3 stored_3 refl

abbrev to_sent : Job → Job
to_sent j = record j { status = Status.sent; sent_at = some now; lease_expires_at = none }

abbrev busy : Store
busy = record { rows = claimed_1 ∷ job_3 ∷ []; next_id = 4 }

busy-IsValid : IsValid busy
busy-IsValid = record {
  ordered = (((ground arith, inr refl), tt), (tt, tt));
  below = (ground arith, (ground arith, tt));
}

settle_exact_example :
    ((settle_job busy 1 to_sent).1 ≡ answer (get_job busy 1))
    × (get_job (settle_job busy 1 to_sent).0 1 ≡ written to_sent (get_job busy 1))
settle_exact_example = settle_exact busy 1 to_sent busy-IsValid (λ j. refl)

busy-claimed_1 : get_job busy 1 ≡ some claimed_1
unfolding get_job find_row
busy-claimed_1 = refl

recover-leased_example :
    get_job (recover_expired_sending_jobs busy (now + second) second) 1 ≡ some claimed_1
recover-leased_example =
    recover-leased busy (now + second) second 1 claimed_1 (now + lease) busy-claimed_1 refl
      (ground arith)
