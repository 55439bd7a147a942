-- ===== src/Sender/Store/Ops.antt =====
-- store.go as a state machine: the statements that change the table, one constructor each. The
-- database runs them one after another (one open connection), so any interleaving of the worker,
-- the HTTP handlers and the recovery is a list of them.
use clawside.Common.{ℕ, String, List, [], ◌∷◌}
use clawside.Sender.Store.{
  CreateJob, Store, enqueue, claim_next_ready, mark_retry, mark_sent, mark_failed,
  recover_expired_sending_jobs,
}

pub data Op : Type 0 where
  enqueued : CreateJob → ℕ → Op
  claim : ℕ → ℕ → Op
  retry : ℕ → ℕ → ℕ → String → ℕ → Op
  sent : ℕ → ℕ → ℕ → Op
  failed : ℕ → ℕ → String → ℕ → Op
  recover : ℕ → ℕ → Op

unfoldable pub step : Store → Op → Store
step s (Op.enqueued c now) = (enqueue s c now).0
step s (Op.claim now lease) = (claim_next_ready s now lease).0
step s (Op.retry id attempts next_retry_at error now) =
    (mark_retry s id attempts next_retry_at error now).0
step s (Op.sent id attempts now) = (mark_sent s id attempts now).0
step s (Op.failed id attempts error now) = (mark_failed s id attempts error now).0
step s (Op.recover now grace) = recover_expired_sending_jobs s now grace

unfoldable pub run : Store → List Op → Store
run s [] = s
run s (op ∷ ops) = run (step s op) ops
