-- ===== src/Sender/Worker/Loop.antt =====
-- The loop of the worker, with messages arriving beside it.
use clawside.Common.{
  ℕ, ◌+◌, ◌≤◌, String, Bool, List, [], ◌∷◌, some, ◌≡◌, inl, inr, arith, All, Option-cases,
  if◌then◌else◌,
}
use clawside.Sender.Store.{Job, Store, has_id, get_job, claim_next_ready, settle_job}
use clawside.Sender.Store.Keys.{settle-IsValid, step-IsValid}
use clawside.Sender.Worker.{
  lookup_bot, SendResult, Worker, claim_lease_duration, process_next_at, run_loop,
}
use clawside.Sender.Worker.Outcome.{
  round_change, id-round_change, key-round_change, claim, claim_there, round-Settled, round_idle,
}
use clawside.Sender.Store.Ops.{Op, step, run}
use clawside.Sender.Worker.{Round, Turn, begin_turn}
use clawside.Sender.Worker.Budget.{
  work, IsSound, claim_rows-work, budget-find_row, settle-work, change_spends,
}
use clawside.Sender.Worker.Arrivals.{Arrives, brought, run-work, run-kept}

abbrev one_round : Bool → ℕ
one_round b = if b then 1 else 0

module _ (send : String → Job → SendResult) (w : Worker) (meanwhile : List Op) (now : ℕ)
    (arriving : All Arrives meanwhile) (s : IsSound w.store) where
  abbrev claimed_store : Store
  claimed_store = (claim_next_ready w.store now (claim_lease_duration w)).0

  abbrev the_round : Round
  the_round = process_next_at send w meanwhile now

  claimed-IsSound : (work claimed_store.rows ≡ work w.store.rows) × IsSound claimed_store
  unfolding claim_next_ready step
  claimed-IsSound =
      let lease = claim_lease_duration w in
      let (same, budgets) = claim_rows-work now lease w.store.rows s.budgets in
      (
        same,
        record { valid = step-IsValid w.store (Op.claim now lease) s.valid; budgets = budgets },
      )

  busy_round :
      (k : Job)
      → (claim send w meanwhile now s.valid).1 ≡ some k
      → (work the_round.worker.store.rows + 1 ≤ work w.store.rows + brought meanwhile)
        × IsSound the_round.worker.store
  unfolding settle_job get_job
  busy_round k e =
      let lease = claim_lease_duration w in
      let bot = lookup_bot k.bot_name w.bots in
      let (_, there, sending) = claim_there w.store now lease k s.valid e in
      let (same, sound) = claimed-IsSound in
      let (more, v) = run-work claimed_store meanwhile arriving sound in
      let found = run-kept claimed_store meanwhile k.id k arriving there in
      let rows = (run claimed_store meanwhile).rows in
      let b = budget-find_row (has_id k.id) rows k v.budgets found in
      let (spent, kept) = change_spends send bot k now sending b in
      let (moved, rest) =
        settle-work (round_change send bot k now) rows k k.id v.valid.ordered found sending
          v.budgets kept in
      let done = round-Settled send w meanwhile now s.valid k e in
      rw done.store_is (
        omega (arith, moved, spent, same, more),
        record {
          valid =
              settle-IsValid (run claimed_store meanwhile) k.id (round_change send bot k now)
                (λ j. (id-round_change send bot k now j, key-round_change send bot k now j))
                v.valid;
          budgets = rest;
        },
      )

  -- A round keeps the table sound, and spends at least one attempt if it has a job.
  pub round_work :
      (one_round the_round.processed + work the_round.worker.store.rows
        ≤ work w.store.rows + brought meanwhile)
      × IsSound the_round.worker.store
  round_work = elim (Option-cases (claim send w meanwhile now s.valid).1) [
    | inl e ↦
        let (idle, same) = round_idle send w meanwhile now s.valid e in
        rw (idle, same) (omega arith, s)
    | inr (k, e) ↦
        let (spent, sound) = busy_round k e in
        (
          rw (round-Settled send w meanwhile now s.valid k e).processed (omega (arith, spent)),
          sound,
        )
  ]

-- Before a turn and during it, only messages arrive.
abbrev pub OnlyArrivals : Turn → Type 0
OnlyArrivals turn = All Arrives turn.before × All Arrives turn.meanwhile

abbrev pub all_brought : List Turn → ℕ
all_brought [] = 0
all_brought (turn ∷ turns) = brought turn.before + brought turn.meanwhile + all_brought turns

-- From a sound table, and while others do nothing to the table but add messages, the worker has a job
-- in at most as many rounds as there are attempts left and attempts that the messages bring, and the
-- table stays sound, whatever Telegram answers and however often the loop runs.
pub run_loop-work :
    (send : String → Job → SendResult) (w : Worker) (turns : List Turn)
    → All OnlyArrivals turns
    → IsSound w.store
    → ((run_loop send w turns).1 + work (run_loop send w turns).0.store.rows
        ≤ work w.store.rows + all_brought turns)
      × IsSound (run_loop send w turns).0.store
unfolding run_loop begin_turn
run_loop-work send w [] a s = (omega arith, s)
run_loop-work send w (turn ∷ turns) a s =
    let begun = begin_turn w turn in
    let (more, ready) = run-work w.store turn.before a.0.0 s in
    let (spent, sound) = round_work send begun turn.meanwhile turn.now a.0.1 ready in
    let (rest, last) =
      run_loop-work send (process_next_at send begun turn.meanwhile turn.now).worker turns a.1
        sound in
    (ground arith, last)
