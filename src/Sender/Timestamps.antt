-- ===== src/Sender/Timestamps.antt =====
-- store.go, `formatTimestamp`: a time is kept as the text that Go's RFC 3339 layout with
-- nanoseconds gives, which leaves out trailing zeros of the fraction, and SQLite compares such
-- texts byte by byte. A time is a number of nanoseconds. In UTC and for years of four digits the
-- text up to the seconds has a fixed width, so its order is that of the seconds; what follows, the
-- fraction and the letter Z, is compared as it is written.
use Prim.Native.Nat.{compare, Ordering}
use clawside.Common.{
  ℕ, zero, suc, ◌+◌, ◌*◌, ◌/◌, ◌%◌, ◌^◌, ◌≤◌, ◌<◌, Bool, true, false, List, [], ◌∷◌, ◌==◌,
  if◌then◌else◌, ◌≡◌, ◌∙◌, ◌≢◌, refl, arith, Bool-cases, inl, inr, ◌⊎◌,
}

abbrev pub second : ℕ
second = 1_000_000_000

-- The last `k` decimal digits of `n`, as bytes, in front of `rest`.
digits : ℕ → ℕ → List ℕ → List ℕ
digits zero n rest = rest
digits (suc k) n rest = digits k (n / 10) ((b'0' + n % 10) ∷ rest)

-- What stands behind the seconds, for a fraction of `k` digits: no trailing zeros, and no point
-- where no digit is left.
fraction : ℕ → ℕ → List ℕ
unfolding digits
fraction zero n = b'Z' ∷ []
fraction (suc k) n =
    if n % 10 == 0 then fraction k (n / 10) else b'.' ∷ digits (suc k) n (b'Z' ∷ [])

bytes_le : List ℕ → List ℕ → Bool
bytes_le [] ys = true
bytes_le (x ∷ xs) [] = false
bytes_le (x ∷ xs) (y ∷ ys) = elim (compare x y) [
  | Ordering.lt ↦ true
  | Ordering.eq ↦ bytes_le xs ys
  | Ordering.gt ↦ false
]

-- `a <= b` in SQL, where the columns hold the formatted times.
unfoldable pub text_le : ℕ → ℕ → Bool
unfolding fraction bytes_le
text_le a b = elim (compare (a / second) (b / second)) [
  | Ordering.lt ↦ true
  | Ordering.eq ↦ bytes_le (fraction 9 (a % second)) (fraction 9 (b % second))
  | Ordering.gt ↦ false
]

-- Where the text of one time is not behind that of another, its second is not later either.
pub text_le-seconds : (a b : ℕ) → text_le a b ≡ true → a / second ≤ b / second
unfolding text_le
text_le-seconds a b h = ground arith

pub seconds-text_le : (a b : ℕ) → a / second < b / second → text_le a b ≡ true
unfolding text_le
seconds-text_le a b h = ground arith

bytes_le_total : (xs ys : List ℕ) → (bytes_le xs ys ≡ true) ⊎ (bytes_le ys xs ≡ true)
unfolding bytes_le
bytes_le_total [] ys = inl refl
bytes_le_total (x ∷ xs) [] = inr refl
bytes_le_total (x ∷ xs) (y ∷ ys) = ground (arith, bytes_le_total xs ys)

pub text_le_total : (a b : ℕ) → (text_le a b ≡ true) ⊎ (text_le b a ≡ true)
unfolding text_le
text_le_total a b =
    ground (arith, bytes_le_total (fraction 9 (a % second)) (fraction 9 (b % second)))

fraction-zero : (k : ℕ) → fraction k 0 ≡ b'Z' ∷ []
unfolding fraction
fraction-zero zero = refl
fraction-zero (suc k) = fraction-zero k

fraction_point : (k n : ℕ) → n ≢ 0 → n < 10 ^ k → (rest : List ℕ) × (fraction k n ≡ b'.' ∷ rest)
unfolding fraction
fraction_point zero n ne lt = absurd (ne (omega arith))
fraction_point (suc k) n ne lt = elim (Bool-cases (n % 10 == 0)) [
  | inl z ↦ rw z (fraction_point k (n / 10) (ground arith) (grind arith))
  | inr nz ↦ (digits (suc k) n (b'Z' ∷ []), rw nz)
]

text_le-same_second :
    (a b : ℕ)
    → a / second ≡ b / second
    → text_le a b ≡ bytes_le (fraction 9 (a % second)) (fraction 9 (b % second))
unfolding text_le
text_le-same_second a b e = ground arith

module _ (n : ℕ) (pos : 0 < n) (below : n < second) where
  bytes_le-fraction :
      (bytes_le (fraction 9 0) (fraction 9 n) ≡ false)
      × (bytes_le (fraction 9 n) (fraction 9 0) ≡ true)
  unfolding bytes_le
  bytes_le-fraction =
      let (rest, e) = fraction_point 9 n (omega arith) (omega arith) in
      rw (e, fraction-zero 9) (refl, refl)

-- Within one second the order of the texts may be the reverse of the order in time: the text of a
-- whole second comes behind that of every later time within the same second.
pub text_le_reversed :
    (s n : ℕ)
    → 0 < n
    → n < second
    → (text_le (s * second) (s * second + n) ≡ false)
      × (text_le (s * second + n) (s * second) ≡ true)
text_le_reversed s n pos below =
    let whole : s * second % second ≡ 0 = omega arith in
    let part : (s * second + n) % second ≡ n = omega arith in
    let (later, earlier) = bytes_le-fraction n pos below in
    (
      text_le-same_second (s * second) (s * second + n) (omega arith) ∙ rw (whole, part) later,
      text_le-same_second (s * second + n) (s * second) (omega arith) ∙ rw (whole, part) earlier,
    )
