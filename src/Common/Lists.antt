-- ===== src/Common/Lists.antt =====
-- Lists measured by native numbers, and predicates on all and on some of the elements.
use Prim.Native.Nat.{ℕ, suc, ◌+◌}
use mathlib.Core.Path.{◌≡◌}
use mathlib.Core.List.{List, [], ◌∷◌, ◌++◌}
use native.Mathlib.Omega.{arith}

module _ {ℓ} {A : Type ℓ} where
  abbrev pub length : List A → ℕ
  length [] = 0
  length (x ∷ xs) = suc (length xs)

  pub length-append : (xs ys : List A) → length (xs ++ ys) ≡ length xs + length ys
  length-append [] ys = omega arith
  length-append (x ∷ xs) ys = omega (arith, length-append xs ys)

module _ {ℓ κ} {A : Type ℓ} where
  abbrev pub All : (A → Type κ) → List A → Type κ
  All holds [] = Unit
  All holds (first ∷ more) = holds first × All holds more

  -- Some element satisfies the predicate; the position is kept.
  pub data Any (P : A → Type κ) : List A → Type (ℓ ⊔ κ) where
    head : {x : A} {xs : List A} → P x → Any P (x ∷ xs)
    tail : {x : A} {xs : List A} → Any P xs → Any P (x ∷ xs)

module _ {ℓ κ} {A : Type ℓ} where
  pub All-append :
      (holds : A → Type κ) (front back : List A)
      → All holds front
      → All holds back
      → All holds (front ++ back)
  All-append holds [] back none_ there = there
  All-append holds (first ∷ more) back here there =
      let (one, others) = here in (one, All-append holds more back others there)
