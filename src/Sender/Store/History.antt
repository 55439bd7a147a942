-- ===== src/Sender/Store/History.antt =====
-- What happens to a job over any list of statements.
use clawside.Common.{ℕ, Bool, true, false, List, [], ◌∷◌, some, ◌≡◌, refl, sym, ◌∙◌, arith}
use clawside.Sender.Store.{Job, Status, Store, is_pending, find_row, has_id, get_job}
use clawside.Sender.Store.Ops.{Op, step, run}
use clawside.Sender.Store.Lifecycle.{
  Move, SameContent, JobStep, kept, moved, JobStep-content, step-Evolves, find_row-Evolves,
  same_has_id,
}

SameContent-refl : (j : Job) → SameContent j j
SameContent-refl j = ground arith

SameContent-trans : (j k l : Job) → SameContent j k → SameContent k l → SameContent j l
SameContent-trans j k l p q = ground arith

-- A row found by what rows keep is found again after any list of statements.
pub run-row :
    (test : Job → Bool)
    → ((j k : Job) → SameContent j k → test k ≡ test j)
    → (s : Store) (ops : List Op) (j : Job) → find_row test s.rows ≡ some j
    → (k : Job) × (find_row test (run s ops).rows ≡ some k) × SameContent j k
unfolding run
run-row test same_test s [] j f = (j, f, SameContent-refl j)
run-row test same_test s (op ∷ ops) j f =
    let (k, found, st) =
      find_row-Evolves test same_test s.rows (step s op).rows j (step-Evolves s op) f in
    let (l, last, same) = run-row test same_test (step s op) ops k found in
    (l, last, SameContent-trans j k l (JobStep-content j k st) same)

-- A job that is in the table stays there through any list of statements, with the same text,
-- recipient, bot, key, limit of attempts and time of creation.
pub run-content :
    (s : Store) (ops : List Op) (id : ℕ) (j : Job)
    → get_job s id ≡ some j
    → (k : Job) × (get_job (run s ops) id ≡ some k) × SameContent j k
unfolding get_job
run-content s ops id j f = run-row (has_id id) (same_has_id id) s ops j f

abbrev pub is_final : Status → Bool
is_final Status.sent = true
is_final Status.failed = true
is_final _ = false

final_no_move : {a b : Status} → Move a b → is_final a ≡ false
final_no_move Move.claim_pending = refl
final_no_move _ = refl

final_step : (j k : Job) → JobStep j k → is_final j.status ≡ true → k ≡ j
final_step j k (kept e) f = e
final_step j k (moved c m) f = absurd (false-ne-true (sym (final_no_move m) ∙ f))
  where
    false-ne-true : ◌≡◌ {A = Bool} false true → ⊥
    false-ne-true e = cc

-- A job that was sent or has failed is never changed again: not claimed, not retried, not recovered.
pub run-final :
    (s : Store) (ops : List Op) (id : ℕ) (j : Job)
    → get_job s id ≡ some j
    → is_final j.status ≡ true
    → get_job (run s ops) id ≡ some j
unfolding run get_job
run-final s [] id j f d = f
run-final s (op ∷ ops) id j f d =
    let (k, found, st) =
      find_row-Evolves (has_id id) (same_has_id id) s.rows (step s op).rows j (step-Evolves s op)
        f in
    let same = final_step j k st d in run-final (step s op) ops id j (rw same at found) d

no_move_back : {a b : Status} → Move a b → is_pending b ≡ false
no_move_back Move.put_back = refl
no_move_back _ = refl

begun_step : (j k : Job) → JobStep j k → is_pending j.status ≡ false → is_pending k.status ≡ false
begun_step j k (kept e) f = rw e f
begun_step j k (moved c m) f = no_move_back m

-- A job that was claimed once is in the table behind any list of statements, and never pending again.
pub run-begun :
    (s : Store) (ops : List Op) (id : ℕ) (j : Job)
    → get_job s id ≡ some j
    → is_pending j.status ≡ false
    → (k : Job) × (get_job (run s ops) id ≡ some k) × (is_pending k.status ≡ false)
unfolding run get_job
run-begun s [] id j f d = (j, f, d)
run-begun s (op ∷ ops) id j f d =
    let (k, found, st) =
      find_row-Evolves (has_id id) (same_has_id id) s.rows (step s op).rows j (step-Evolves s op)
        f in
    run-begun (step s op) ops id k found (begun_step j k st d)
