-- ===== src/Fifo/Laws.antt =====
-- Which process ids `getUserFifoPath` has room for, and what their paths look like.
use mathlib.Core.List.{append-nil}
use sope.Prelude.{
  ℕ, ◌+◌, ◌-◌, ◌^◌, ◌≤◌, ◌<◌, ◌≡◌, sym, ap, ◌∙◌, [], ◌++◌, none, some, Text, arith, length,
  length-append, length-replicate, replicate,
}
use sope.Libc.{digits_value}
use sope.Format.{digits_within, decimal, zero_padded}
use sope.Format.Decimal.{
  limit, digits_value-digits_within, length-digits_within-le, length-digits_within-gt,
  digits_value-zeros,
}
use sope.Fifo.{get_user_fifo_path, user_fifo_path_prefix, width_id}

digits_value-decimal : (n : ℕ) → n < 2 ^ 31 → digits_value 0 (decimal n) ≡ n
unfolding decimal limit digits_value
digits_value-decimal n h =
    ap (digits_value 0) (sym (append-nil (digits_within 20 n)))
    ∙ digits_value-digits_within 20 n [] (omega arith) (omega arith)

length-decimal-le : (n : ℕ) → n < 100_000 → length (decimal n) ≤ 5
unfolding decimal limit
length-decimal-le n h = length-digits_within-le 4 20 n (omega arith)

length-decimal-gt : (n : ℕ) → 100_000 ≤ n → 5 < length (decimal n)
unfolding decimal limit
length-decimal-gt n h = length-digits_within-gt 5 20 n (omega arith) (omega arith)

length-zero_padded :
    (n : ℕ) → length (zero_padded width_id n) ≡ (width_id - length (decimal n)) + length (decimal n)
length-zero_padded n =
    length-append (replicate (width_id - length (decimal n)) b'0') (decimal n)
    ∙ ap (λ k. k + length (decimal n)) (length-replicate (width_id - length (decimal n)) b'0')

digits_value-zero_padded : (n : ℕ) → n < 2 ^ 31 → digits_value 0 (zero_padded width_id n) ≡ n
digits_value-zero_padded n h =
    digits_value-zeros (width_id - length (decimal n)) (decimal n) ∙ digits_value-decimal n h

-- For a process id below 100000 `getUserFifoPath` stays inside its buffers: the path is the prefix
-- and WIDTH_ID digits, which read back as the process id.
pub get_user_fifo_path-digits :
    (pid : ℕ)
    → pid < 100_000
    → (digits : Text) × (get_user_fifo_path pid ≡ some (user_fifo_path_prefix ++ digits))
      × (length digits ≡ width_id)
      × (digits_value 0 digits ≡ pid)
unfolding get_user_fifo_path
get_user_fifo_path-digits pid h = (
  zero_padded width_id pid,
  ground (arith, length-zero_padded pid, length-decimal-le pid h),
  omega (arith, length-zero_padded pid, length-decimal-le pid h),
  digits_value-zero_padded pid (omega arith),
)

-- For every process id from 100000 on `getUserFifoPath` writes past the end of `userPID`.
pub get_user_fifo_path-overflow :
    (pid : ℕ) → 100_000 ≤ pid → pid < 2 ^ 31 → get_user_fifo_path pid ≡ none
unfolding get_user_fifo_path
get_user_fifo_path-overflow pid h small =
    ground (arith, length-zero_padded pid, length-decimal-gt pid h)
