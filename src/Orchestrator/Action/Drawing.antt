-- ===== src/Orchestrator/Action/Drawing.antt =====
-- Calls that read the clock and draw ids only: they succeed, and leave the store alone.
use clawside.Common.{String, Bool, true, false, ◌≡◌, refl, ◌∙◌}
use clawside.Orchestrator.Action.{
  Service, Failure, Result, ok, err, Action, pure, continue, ◌>>=◌, ◌>>◌, raise_if, raise,
  current_time, new_id,
}

pub record Drawn {A : Type 0} (call : Action A) (s : Service) : Type 0 where
  pub result : A
  pub later : Service
  pub eq : call s ≡ (ok result, later)
  pub store : later.store ≡ s.store

module _ {A B : Type 0} where
  continue-eq :
      (next : A → Action B) (r : Result A × Service) (a : A) (t : Service)
      → r ≡ (ok a, t)
      → continue next r ≡ next a t
  unfolding continue
  continue-eq next r a t e = rw e refl

  -- The first call returned `a`.
  pub >>=-eq :
      (first : Action A) (next : A → Action B) (s : Service) (a : A) (t : Service)
      → first s ≡ (ok a, t)
      → (first >>= next) s ≡ next a t
  unfolding ◌>>=◌
  >>=-eq first next s a t e = continue-eq next (first s) a t e

  pub >>-eq :
      (first : Action A) (next : Action B) (s : Service) (a : A) (t : Service)
      → first s ≡ (ok a, t)
      → (first >> next) s ≡ next t
  unfolding ◌>>◌
  >>-eq first next s a t e = >>=-eq first (λ _. next) s a t e

  pub >>=-Drawn :
      (first : Action A) (next : A → Action B) (s : Service)
      → Drawn first s
      → ((a : A) (t : Service) → Drawn (next a) t)
      → Drawn (first >>= next) s
  >>=-Drawn first next s d rest =
      let later = rest d.result d.later in
      record {
        result = later.result;
        later = later.later;
        eq = >>=-eq first next s d.result d.later d.eq ∙ later.eq;
        store = later.store ∙ d.store;
      }

pub pure-Drawn : {A : Type 0} (a : A) (s : Service) → Drawn (pure a) s
unfolding pure
pure-Drawn a s = record { result = a; later = s; eq = refl; store = refl }

pub new_id-Drawn : (prefix : String) (s : Service) → Drawn (new_id prefix) s
unfolding new_id
new_id-Drawn prefix s = record { result = _; later = _; eq = refl; store = refl }

pub current_time-Drawn : (s : Service) → Drawn current_time s
unfolding current_time
current_time-Drawn s = record { result = _; later = _; eq = refl; store = refl }

pub raise_if-eq_false :
    (test : Bool) (failure : Failure) (s : Service)
    → test ≡ false
    → raise_if test failure s ≡ (ok tt, s)
unfolding raise_if pure raise
raise_if-eq_false true failure s e = cc
raise_if-eq_false false failure s e = refl

pub raise_if-eq_true :
    (test : Bool) (failure : Failure) (s : Service)
    → test ≡ true
    → raise_if test failure s ≡ (err failure, s)
unfolding raise_if pure raise
raise_if-eq_true true failure s e = refl
raise_if-eq_true false failure s e = cc
