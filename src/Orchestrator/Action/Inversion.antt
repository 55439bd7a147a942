-- ===== src/Orchestrator/Action/Inversion.antt =====
-- What a call that returned a result has done.
use clawside.Common.{Bool, true, false, Option, none, some, ◌≡◌, refl, ap}
use clawside.Orchestrator.Action.{
  Store, Service, Failure, Result, ok, err, Action, pure, raise, or_raise, commit, transaction,
  continue, ◌>>=◌, ◌>>◌, Done, store_of, put_store, raise_if,
}
use clawside.Orchestrator.Action.Rules.{Keeps, Anything, Ends-store}

-- The call took the service from `s` to `t` and returned `a`.
pub record Returns {A : Type 0} (call : Action A) (s : Service) (a : A) (t : Service) : Type 0 where
  pub eq : call s ≡ (ok a, t)

module _ {A B : Type 0} where
  continue-Returns :
      (next : A → Action B) (r : Result A × Service) (b : B) (u : Service)
      → continue next r ≡ (ok b, u)
      → (a : A) × (t : Service) × (r ≡ (ok a, t)) × Returns (next a) t b u
  unfolding continue
  continue-Returns next (ok a, t) b u e = (a, t, refl, record { eq = e })
  continue-Returns next (err failure, t) b u e = cc

  pub >>=-Returns :
      {first : Action A} {next : A → Action B} {s u : Service} {b : B}
      → Returns (first >>= next) s b u
      → (a : A) × (t : Service) × Returns first s a t × Returns (next a) t b u
  unfolding ◌>>=◌
  >>=-Returns {first = first} {next = next} {s = s} {u = u} {b = b} r =
      let (a, t, e, rest) = continue-Returns next (first s) b u r.eq in
      (a, t, record { eq = e }, rest)

  pub >>-Returns :
      {first : Action A} {next : Action B} {s u : Service} {b : B}
      → Returns (first >> next) s b u
      → (a : A) × (t : Service) × Returns first s a t × Returns next t b u
  unfolding ◌>>◌
  >>-Returns {first = first} {next = next} {b = b} r =
      >>=-Returns {first = first} {next = λ _. next} {b = b} (record { eq = r.eq })

module _ {A : Type 0} where
  pub pure-Returns : {a b : A} {s t : Service} → Returns (pure a) s b t → (a ≡ b) × (s ≡ t)
  unfolding pure
  pure-Returns r = let e = r.eq in (cc, cc)

  or_raise-eq :
      (o : Option A) (failure : Failure) (a : A) (s t : Service)
      → or_raise o failure s ≡ (ok a, t)
      → (o ≡ some a) × (s ≡ t)
  unfolding or_raise pure raise
  or_raise-eq none failure a s t e = cc
  or_raise-eq (some b) failure a s t e = (cc, cc)

  pub or_raise-Returns :
      {o : Option A} {a : A} {s t : Service} (failure : Failure)
      → Returns (or_raise o failure) s a t
      → (o ≡ some a) × (s ≡ t)
  or_raise-Returns {o = o} {a = a} {s = s} {t = t} failure r = or_raise-eq o failure a s t r.eq

  commit-Returns :
      (before : Store) (r : Result A × Service) (a : A) (t : Service)
      → commit before r ≡ (ok a, t)
      → r ≡ (ok a, t)
  unfolding commit
  commit-Returns before (ok b, u) a t e = e
  commit-Returns before (err failure, u) a t e = cc

  pub transaction-Returns :
      {body : Action A} {a : A} {s t : Service}
      → Returns (transaction body) s a t
      → Returns body s a t
  unfolding transaction
  transaction-Returns {body = body} {a = a} {s = s} {t = t} r = record {
    eq = commit-Returns s.store (body s) a t r.eq;
  }

raise_if-eq :
    (test : Bool) (failure : Failure) (u : Done) (s t : Service)
    → raise_if test failure s ≡ (ok u, t)
    → (test ≡ false) × (s ≡ t)
unfolding raise_if raise pure
raise_if-eq true failure u s t e = cc
raise_if-eq false failure u s t e = (refl, cc)

pub raise_if-Returns :
    {test : Bool} {u : Done} {s t : Service} (failure : Failure)
    → Returns (raise_if test failure) s u t
    → (test ≡ false) × (s ≡ t)
raise_if-Returns {test = test} {u = u} {s = s} {t = t} failure r =
    raise_if-eq test failure u s t r.eq

pub store_of-Returns :
    {st : Store} {s t : Service} → Returns store_of s st t → (s.store ≡ st) × (s ≡ t)
unfolding store_of
store_of-Returns r = let e = r.eq in (cc, cc)

pub put_store-Returns :
    {st : Store} {u : Done} {s t : Service}
    → Returns (put_store st) s u t
    → record s { store = st } ≡ t
unfolding put_store
put_store-Returns r = let e = r.eq in cc

-- What a call keeps holds behind it.
pub Keeps-Returns :
    (P : Store → Type 0) {A : Type 0} {call : Action A} {a : A} {s t : Service}
    → Keeps P call
    → Returns call s a t
    → P s.store
    → P t.store
Keeps-Returns P {call = call} {s = s} k r p =
    rw (ap (λ x. x.1.store) r.eq) at (Ends-store P Anything (call s) (k.ends s p))
