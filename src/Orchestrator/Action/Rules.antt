-- ===== src/Orchestrator/Action/Rules.antt =====
-- The rules for calls: `Meets P Q call` says that the call keeps the property `P` of the store,
-- however it ends, and that a result without error has the property `Q`.
use clawside.Common.{
  String, Bool, true, false, Option, none, some, List, [], ◌∷◌, ◌≡◌, refl, if◌then◌else◌,
}
use clawside.Orchestrator.Action.{
  Store, Service, Failure, Result, ok, err, Action, pure, raise, or_raise, commit, transaction,
  continue, ◌>>=◌, ◌>>◌, Done, store_of, put_store, raise_if, current_time, new_id, for_each,
}

module _ {A : Type 0} (P : Store → Type 0) (Q : A → Type 0) where
  abbrev pub Ends : Result A × Service → Type 0
  Ends (ok a, s) = P s.store × Q a
  Ends (err failure, s) = P s.store

  pub Ends-store : (r : Result A × Service) → Ends r → P r.1.store
  Ends-store (ok a, s) e = e.0
  Ends-store (err failure, s) e = e

  pub record Meets (call : Action A) : Type 0 where
    pub ends : (s : Service) → P s.store → Ends (call s)

abbrev pub Anything : {A : Type 0} → A → Type 0
Anything a = Unit

-- A call that keeps `P`, whatever its result is.
abbrev pub Keeps : (Store → Type 0) → {A : Type 0} → Action A → Type 0
Keeps P call = Meets P Anything call

module _ (P : Store → Type 0) where
  module _ {A : Type 0} (Q : A → Type 0) where
    pub pure-Meets : (a : A) → Q a → Meets P Q (pure a)
    unfolding pure
    pure-Meets a q = record { ends = λ s p. (p, q) }

    pub raise-Meets : (failure : Failure) → Meets P Q (raise failure)
    unfolding raise
    raise-Meets failure = record { ends = λ s p. p }

    pub or_raise-Meets :
        (o : Option A) (failure : Failure)
        → ((a : A) → o ≡ some a → Q a)
        → Meets P Q (or_raise o failure)
    unfolding or_raise
    or_raise-Meets none failure q = record { ends = λ s p. p }
    or_raise-Meets (some a) failure q = record { ends = λ s p. (p, q a refl) }

    commit-Ends :
        (before : Store)
        → P before
        → (r : Result A × Service) → Ends P Q r
        → Ends P Q (commit before r)
    unfolding commit
    commit-Ends before p (ok a, s) e = e
    commit-Ends before p (err failure, s) e = p

    pub transaction-Meets : {body : Action A} → Meets P Q body → Meets P Q (transaction body)
    unfolding transaction
    transaction-Meets {body = body} m = record {
      ends = λ s p. commit-Ends s.store p (body s) (m.ends s p);
    }

  module _ {A B : Type 0} (Q : A → Type 0) (W : B → Type 0) where
    continue-Ends :
        (next : A → Action B)
        → ((a : A) → Q a → Meets P W (next a))
        → (r : Result A × Service) → Ends P Q r
        → Ends P W (continue next r)
    unfolding continue
    continue-Ends next rest (ok a, s) e = (rest a e.1).ends s e.0
    continue-Ends next rest (err failure, s) e = e

    pub >>=-Meets :
        {first : Action A} {next : A → Action B}
        → Meets P Q first
        → ((a : A) → Q a → Meets P W (next a))
        → Meets P W (first >>= next)
    unfolding ◌>>=◌
    >>=-Meets {first = first} {next = next} m rest = record {
      ends = λ s p. continue-Ends next rest (first s) (m.ends s p);
    }

  -- The first call's result is not used by what follows.
  module _ {A B : Type 0} (W : B → Type 0) where
    pub >>-Meets :
        {first : Action A} {next : Action B}
        → Keeps P first
        → Meets P W next
        → Meets P W (first >> next)
    unfolding ◌>>◌
    >>-Meets m rest = record { ends = (>>=-Meets Anything W m (λ _ _. rest)).ends }

  pub raise_if-Keeps : (test : Bool) (failure : Failure) → Keeps P (raise_if test failure)
  unfolding raise_if raise pure
  raise_if-Keeps true failure = record { ends = λ s p. p }
  raise_if-Keeps false failure = record { ends = λ s p. (p, tt) }

  pub current_time-Keeps : Keeps P current_time
  unfolding current_time
  current_time-Keeps = record { ends = λ s p. (p, tt) }

  pub new_id-Keeps : (prefix : String) → Keeps P (new_id prefix)
  unfolding new_id
  new_id-Keeps prefix = record { ends = λ s p. (p, tt) }

  pub store_of-Meets : Meets P P store_of
  unfolding store_of
  store_of-Meets = record { ends = λ s p. (p, p) }

  pub store_of-Keeps : Keeps P store_of
  unfolding store_of
  store_of-Keeps = record { ends = λ s p. (p, tt) }

  pub put_store-Keeps : (store : Store) → P store → Keeps P (put_store store)
  unfolding put_store
  put_store-Keeps store p = record { ends = λ s _. (p, tt) }

  pub for_each-Keeps :
      {A : Type 0} (items : List A) {body : A → Action Done}
      → ((a : A) → Keeps P (body a))
      → Keeps P (for_each items body)
  unfolding for_each
  for_each-Keeps [] m = pure-Meets Anything tt tt
  for_each-Keeps (a ∷ items) m = >>-Meets Anything (m a) (for_each-Keeps items m)

  pub then-Keeps :
      {A B : Type 0} {first : Action A} {next : Action B}
      → Keeps P first
      → Keeps P next
      → Keeps P (first >> next)
  then-Keeps m rest = >>-Meets Anything m rest

  -- What follows the first call uses its result.
  pub bind-Keeps :
      {A B : Type 0} {Q : A → Type 0} {first : Action A} {next : A → Action B}
      → Meets P Q first
      → ((a : A) → Q a → Keeps P (next a))
      → Keeps P (first >>= next)
  bind-Keeps {Q = Q} m rest = >>=-Meets Q Anything m rest

  pub pure-Keeps : {A : Type 0} (a : A) → Keeps P (pure a)
  pure-Keeps a = pure-Meets Anything a tt

  pub if-Keeps :
      {A : Type 0} (test : Bool) {yes no_ : Action A}
      → Keeps P yes
      → Keeps P no_
      → Keeps P (if test then yes else no_)
  if-Keeps true m n = m
  if-Keeps false m n = n

-- A call that fails has the property `P` of the store behind it.
module _ {A : Type 0} (P : Store → Type 0) where
  abbrev Fails : Result A × Service → Type 0
  Fails (ok a, s) = Unit
  Fails (err failure, s) = P s.store

  pub record Refuses (call : Action A) : Type 0 where
    pub ends : (s : Service) → P s.store → Fails (call s)

  pub Refuses-store :
      (r : Result A × Service) (failure : Failure) → Fails r → r.0 ≡ err failure → P r.1.store
  Refuses-store (ok a, s) failure f e = cc
  Refuses-store (err other, s) failure f e = f

module _ (P : Store → Type 0) where
  module _ {A : Type 0} where
    Ends-Fails : (r : Result A × Service) → Ends P Anything r → Fails P r
    Ends-Fails (ok a, s) e = tt
    Ends-Fails (err failure, s) e = e

    pub Keeps-Refuses : {call : Action A} → Keeps P call → Refuses P call
    Keeps-Refuses {call = call} k = record { ends = λ s p. Ends-Fails (call s) (k.ends s p) }

    commit-Fails :
        (before : Store) → P before → (r : Result A × Service) → Fails P (commit before r)
    unfolding commit
    commit-Fails before p (ok a, s) = tt
    commit-Fails before p (err failure, s) = p

    -- Whatever its body does.
    pub transaction-Refuses : (body : Action A) → Refuses P (transaction body)
    unfolding transaction
    transaction-Refuses body = record { ends = λ s p. commit-Fails s.store p (body s) }

  module _ {A B : Type 0} where
    continue-Fails :
        (next : A → Action B)
        → ((a : A) → Refuses P (next a))
        → (r : Result A × Service) → Ends P Anything r
        → Fails P (continue next r)
    unfolding continue
    continue-Fails next rest (ok a, s) e = (rest a).ends s e.0
    continue-Fails next rest (err failure, s) e = e

    pub >>=-Refuses :
        {first : Action A} {next : A → Action B}
        → Keeps P first
        → ((a : A) → Refuses P (next a))
        → Refuses P (first >>= next)
    unfolding ◌>>=◌
    >>=-Refuses {first = first} {next = next} k rest = record {
      ends = λ s p. continue-Fails next rest (first s) (k.ends s p);
    }

    pub >>-Refuses :
        {first : Action A} {next : Action B}
        → Keeps P first
        → Refuses P next
        → Refuses P (first >> next)
    unfolding ◌>>◌
    >>-Refuses k rest = record { ends = (>>=-Refuses k (λ _. rest)).ends }

    pure-Fails :
        (f : A → B) (r : Result A × Service) → Fails P r → Fails P (continue (λ a. pure (f a)) r)
    unfolding continue pure
    pure-Fails f (ok a, s) e = tt
    pure-Fails f (err failure, s) e = e

    -- What follows the call cannot fail.
    pub result-Refuses :
        {first : Action A} (f : A → B) → Refuses P first → Refuses P (first >>= λ a. pure (f a))
    unfolding ◌>>=◌
    result-Refuses {first = first} f r = record {
      ends = λ s p. pure-Fails f (first s) (r.ends s p);
    }

    pub ignored-Refuses : {first : Action A} (b : B) → Refuses P first → Refuses P (first >> pure b)
    unfolding ◌>>◌
    ignored-Refuses b r = record { ends = (result-Refuses (λ _. b) r).ends }

  pub if-Refuses :
      {A : Type 0} (test : Bool) {yes no_ : Action A}
      → Refuses P yes
      → Refuses P no_
      → Refuses P (if test then yes else no_)
  if-Refuses true m n = m
  if-Refuses false m n = n
