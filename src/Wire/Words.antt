-- ===== src/Wire/Words.antt =====
-- Words, strings and parts of memory, written and read back.
use mathlib.Core.List.{append_assoc}
use sope.Prelude.{
  ℕ, zero, suc, ◌+◌, ◌-◌, ◌*◌, ◌/◌, ◌%◌, ◌≤◌, ◌<◌, ◌≡◌, ◌≢◌, refl, ap, sym, ◌∙◌, List, [], ◌∷◌,
  ◌++◌, Text, arith, length, length-append, length-replicate, replicate,
}
use sope.Types.{
  u32_mod, max_password_len, OpType, op_unknown, op_create_account, op_balance, op_transfer,
  op_shutdown, op_max_number,
}
use sope.Accounts.{c_string}
use sope.Wire.{Bytes, take, drop, put_u32, get_u32, put_password, op_value, op_of_value}

u32_of_bytes :
    (n : ℕ)
    → n < u32_mod
    → n % 256
        + 256 * (n / 256 % 256)
        + 65_536 * (n / 65_536 % 256)
        + 16_777_216 * (n / 16_777_216 % 256)
      ≡ n
u32_of_bytes n h = omega arith

pub get_u32-put_u32 : (n : ℕ) (rest : Bytes) → n < u32_mod → get_u32 (put_u32 n ++ rest) ≡ (n, rest)
get_u32-put_u32 n rest h = ap (λ k. (k, rest)) (u32_of_bytes n h)

-- no terminator inside the string
abbrev pub NoZero : Text → Type 0
NoZero [] = Unit {0}
NoZero (c ∷ cs) = (c ≢ 0) × NoZero cs

pub c_string-zero : (t : Text) (rest : Bytes) → NoZero t → c_string (t ++ 0 ∷ rest) ≡ t
c_string-zero [] rest h = refl
c_string-zero (c ∷ cs) rest h = ground (arith, c_string-zero cs rest h.1)

module _ {ℓ} {A : Type ℓ} where
  pub take-length : (xs ys : List A) → take (length xs) (xs ++ ys) ≡ xs
  take-length [] ys = refl
  take-length (x ∷ xs) ys = ap (λ l. x ∷ l) (take-length xs ys)

  pub drop-length : (xs ys : List A) → drop (length xs) (xs ++ ys) ≡ ys
  drop-length [] ys = refl
  drop-length (x ∷ xs) ys = drop-length xs ys

  pub length-take : (n : ℕ) (xs : List A) → n ≤ length xs → length (take n xs) ≡ n
  length-take zero xs h = refl
  length-take (suc n) [] h = absurd (omega arith)
  length-take (suc n) (x ∷ xs) h = ap suc (length-take n xs (omega arith))

  pub length-drop : (n : ℕ) (xs : List A) → n ≤ length xs → length (drop n xs) + n ≡ length xs
  length-drop zero xs h = omega arith
  length-drop (suc n) [] h = absurd (omega arith)
  length-drop (suc n) (x ∷ xs) h = omega (arith, length-drop n xs (omega arith))

pub length-put_password :
    (junk : ℕ) (t : Text)
    → length t ≤ max_password_len
    → length (put_password junk t) ≡ max_password_len + 1
length-put_password junk t h = omega (
  arith,
  length-append t (0 ∷ replicate (max_password_len - length t) junk),
  length-replicate (max_password_len - length t) junk,
)

pub drop-put_password :
    (junk : ℕ) (t : Text) (rest : Bytes)
    → length t ≤ max_password_len
    → drop (max_password_len + 1) (put_password junk t ++ rest) ≡ rest
drop-put_password junk t rest h =
    ap (λ n. drop n (put_password junk t ++ rest)) (sym (length-put_password junk t h))
    ∙ drop-length (put_password junk t) rest

pub c_string-put_password :
    (junk : ℕ) (t : Text) (rest : Bytes) → NoZero t → c_string (put_password junk t ++ rest) ≡ t
c_string-put_password junk t rest h =
    ap c_string (append_assoc t (0 ∷ replicate (max_password_len - length t) junk) rest)
    ∙ c_string-zero t (replicate (max_password_len - length t) junk ++ rest) h

-- `op_unknown` stands for the values that have no enumerator.
abbrev pub IsOp : OpType → Type 0
IsOp (op_unknown n) = 4 < n
IsOp _ = Unit {0}

pub op_of_value-op_value : (op : OpType) → IsOp op → op_of_value (op_value op) ≡ op
op_of_value-op_value op_create_account h = refl
op_of_value-op_value op_balance h = refl
op_of_value-op_value op_transfer h = refl
op_of_value-op_value op_shutdown h = refl
op_of_value-op_value op_max_number h = refl
op_of_value-op_value (op_unknown n) h = ground arith
