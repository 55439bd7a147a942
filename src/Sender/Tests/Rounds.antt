-- ===== src/Sender/Tests/Rounds.antt =====
-- The theorems on the worker at a small table of jobs.
use clawside.Common.Int.{pos}
use clawside.Common.{
  ◌*◌, ◌+◌, ◌≤◌, String, true, none, some, List, [], ◌∷◌, ◌≡◌, refl, arith, if◌then◌else◌, false,
}
use clawside.Sender.Timestamps.{second}
use clawside.Sender.Store.{
  CreateJob, Job, is_sending, get_job, is_ready, claimed, claim_rows, claim_next_ready,
}
use clawside.Sender.Store.Keys.{IsValid}
use clawside.Sender.RuntimeState.{new_runtime_state}
use clawside.Sender.Worker.{
  SendResult, sent_ok, Worker, Turn, process_next_at, run_loop, claim_lease_duration,
}
use clawside.Sender.Worker.Outcome.{change, round_outcome}
use clawside.Sender.Worker.Budget.{work, IsSound}
use clawside.Sender.Worker.Loop.{run_loop-work}
use clawside.Sender.Store.Ops.{Op, run}
use clawside.Sender.Tests.{table, finished, now, table-IsValid, claimed_1, bots, table-IsSound}

abbrev worker : Worker
worker = record {
  store = table;
  bots = bots;
  send_timeout = pos (10 * second);
  runtime_state = new_runtime_state;
}

abbrev delivers : String → Job → SendResult
delivers token job = sent_ok

worker_claim : (claim_next_ready worker.store now (claim_lease_duration worker)).1 ≡ some claimed_1
unfolding claim_next_ready claim_rows is_ready claimed claim_lease_duration
worker_claim = refl

-- Another worker settles the job while the message is being sent.
abbrev meanwhile : List Op
meanwhile = Op.failed 1 1 "rejected" now ∷ []

round_outcome_example :
    ((process_next_at delivers worker meanwhile now).processed ≡ true)
    × ((process_next_at delivers worker meanwhile now).error ≡ none)
    × ((j : Job) × (get_job
            (run (claim_next_ready table now (claim_lease_duration worker)).0 meanwhile)
            1
          ≡ some j)
        × (get_job (process_next_at delivers worker meanwhile now).worker.store 1
            ≡ some (
                if is_sending j.status
                then change delivers worker meanwhile now table-IsValid claimed_1 j
                else j)))
round_outcome_example =
    round_outcome delivers worker meanwhile now table-IsValid claimed_1 worker_claim

abbrev idle_worker : Worker
idle_worker = record worker { store = finished }

finished-IsValid : IsValid finished
finished-IsValid = record { ordered = (tt, tt); below = (ground arith, tt) }

idle_claim : (claim_next_ready idle_worker.store now (claim_lease_duration idle_worker)).1 ≡ none
unfolding claim_next_ready claim_rows is_ready
idle_claim = refl

abbrev message : CreateJob
message = record {
  bot_name = "news";
  chat_id = 7;
  text = "good night";
  idempotency_key = "";
  max_attempts = 2;
  reply_to_message_id = none;
  disable_notification = false;
}

abbrev turns : List Turn
turns =
    (record { before = []; now = now; meanwhile = Op.enqueued message now ∷ [] })
    ∷ (record { before = []; now = 6 * second; meanwhile = [] })
    ∷ []

run_loop-work_example :
    ((run_loop delivers worker turns).1 + work (run_loop delivers worker turns).0.store.rows ≤ 7)
    × IsSound (run_loop delivers worker turns).0.store
run_loop-work_example =
    run_loop-work delivers worker turns ((tt, (ground arith, tt)), ((tt, tt), tt)) table-IsSound
