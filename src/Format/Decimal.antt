-- ===== src/Format/Decimal.antt =====
-- Decimal digits: how many there are, and that they are read back as the number.
use mathlib.Core.List.{append_assoc}
use sope.Prelude.{
  ℕ, zero, suc, ◌+◌, ◌*◌, ◌/◌, ◌%◌, ◌≤◌, ◌<◌, ◌≡◌, refl, ap, ◌∙◌, false, [], ◌∷◌, ◌++◌, Text, arith,
  length, length-append, replicate, ltb, Bool-cases, inl, inr,
}
use sope.Libc.{digits_value}
use sope.Format.{digits_within}

-- the first number that does not fit in k digits
unfoldable pub limit : ℕ → ℕ
limit zero = 1
limit (suc k) = 10 * limit k

last_digit : ℕ → ℕ
last_digit n = b'0' + n % 10

digits-short : (f n : ℕ) → n < 10 → digits_within (suc f) n ≡ last_digit n ∷ []
unfolding digits_within last_digit
digits-short f n h = ground arith

digits-long :
    (f n : ℕ) → 10 ≤ n → digits_within (suc f) n ≡ digits_within f (n / 10) ++ last_digit n ∷ []
unfolding digits_within last_digit
digits-long f n h = ground arith

one_digit :
    (acc n : ℕ) (rest : Text)
    → digits_value acc (last_digit n ∷ rest) ≡ digits_value (acc * 10 + n % 10) rest
unfolding digits_value last_digit
one_digit acc n rest = ground arith

pub digits_value-digits_within :
    (f n : ℕ) (rest : Text)
    → n < limit f
    → 0 < f
    → digits_value 0 (digits_within f n ++ rest) ≡ digits_value n rest
unfolding limit
digits_value-digits_within zero n rest h p = absurd (omega arith)
digits_value-digits_within (suc f) n rest h p = elim (Bool-cases (ltb n 10)) [
  | inl short ↦
      ap (λ t. digits_value 0 (t ++ rest)) (digits-short f n (ground arith))
      ∙ one_digit 0 n rest
      ∙ ap (λ k. digits_value k rest) (ground arith)
  | inr long ↦
      ap (λ t. digits_value 0 (t ++ rest)) (digits-long f n (ground arith))
      ∙ ap (digits_value 0) (append_assoc (digits_within f (n / 10)) (last_digit n ∷ []) rest)
      ∙ digits_value-digits_within f (n / 10) (last_digit n ∷ rest) (omega arith) (more f h long)
      ∙ one_digit (n / 10) n rest
      ∙ ap (λ k. digits_value k rest) (omega arith)
]
  where
    more : (f : ℕ) → n < 10 * limit f → ltb n 10 ≡ false → 0 < f
    more zero h long = ground arith
    more (suc f) h long = omega arith

length-digits-short : (f n : ℕ) → n < 10 → length (digits_within (suc f) n) ≡ 1
length-digits-short f n h = ap length (digits-short f n h)

length-digits-long :
    (f n : ℕ) → 10 ≤ n → length (digits_within (suc f) n) ≡ length (digits_within f (n / 10)) + 1
length-digits-long f n h =
    ap length (digits-long f n h) ∙ length-append (digits_within f (n / 10)) (last_digit n ∷ [])

pub length-digits_within-le : (k f n : ℕ) → n < limit (suc k) → length (digits_within f n) ≤ suc k
unfolding limit digits_within
length-digits_within-le k zero n h = omega arith
length-digits_within-le zero (suc f) n h = omega (arith, length-digits-short f n (omega arith))
length-digits_within-le (suc k) (suc f) n h = elim (Bool-cases (ltb n 10)) [
  | inl short ↦ omega (arith, length-digits-short f n (ground arith))
  | inr long ↦ omega (
    arith,
    length-digits-long f n (ground arith),
    length-digits_within-le k f (n / 10) (omega arith),
  )
]

limit-positive : (k : ℕ) → 0 < limit k
unfolding limit
limit-positive zero = omega arith
limit-positive (suc k) = omega (arith, limit-positive k)

pub length-digits_within-gt : (k f n : ℕ) → limit k ≤ n → k < f → k < length (digits_within f n)
unfolding limit
length-digits_within-gt k zero n h p = absurd (omega arith)
length-digits_within-gt zero (suc f) n h p = elim (Bool-cases (ltb n 10)) [
  | inl short ↦ omega (arith, length-digits-short f n (ground arith))
  | inr long ↦ omega (arith, length-digits-long f n (ground arith))
]
length-digits_within-gt (suc k) (suc f) n h p = omega (
  arith,
  length-digits-long f n (omega (arith, limit-positive k)),
  length-digits_within-gt k f (n / 10) (omega arith) (omega arith),
)

pub digits_value-zeros :
    (k : ℕ) (t : Text) → digits_value 0 (replicate k b'0' ++ t) ≡ digits_value 0 t
unfolding digits_value
digits_value-zeros zero t = refl
digits_value-zeros (suc k) t = digits_value-zeros k t
