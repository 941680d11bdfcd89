-- ===== src/Log/Width.antt =====
-- How long the pieces of a log line are, and a whole line.
use sope.Prelude.{
  ℕ, zero, suc, ◌+◌, ◌-◌, ◌/◌, ◌%◌, ◌≤◌, ◌^◌, inl, inr, [], ◌∷◌, ◌++◌, Text, arith, length,
  length-append, length-replicate, replicate, ltb, ◌==◌, if◌then◌else◌, Bool-cases,
}
use sope.Prelude.Strings.{codes}
use sope.Types.{
  OpType, op_create_account, op_balance, op_transfer, op_shutdown, op_max_number, op_unknown,
  RetCode, rc_ok, rc_srv_down, rc_srv_timeout, rc_usr_down, rc_login_fail, rc_op_nallow,
  rc_id_in_use, rc_id_not_found, rc_same_id, rc_no_funds, rc_too_high, rc_other, TlvRequest,
  TlvReply, max_password_len,
}
use sope.Format.{digits_within, decimal, pad, space_padded}
use sope.Fifo.{width_id}
use sope.Log.{
  int, space_padded_int, left_aligned, op_type_str, rc_str, request_info, reply_info, width_op,
  width_rc,
}

length-digits_within : (f n : ℕ) → length (digits_within f n) ≤ f
unfolding digits_within
length-digits_within zero n = omega arith
length-digits_within (suc f) n = elim (Bool-cases (ltb n 10)) [
  | inl e ↦ rw e (omega arith)
  | inr e ↦ rw e (
      omega (
        arith,
        length-digits_within f (n / 10),
        length-append (digits_within f (n / 10)) ((b'0' + n % 10) ∷ []),
      ))
]

pub length-decimal : (n : ℕ) → length (decimal n) ≤ 20
unfolding decimal
length-decimal n = length-digits_within 20 n

pub length-pad :
    (byte width : ℕ) (t : Text) (k : ℕ) → length t ≤ k → length (pad byte width t) ≤ width + k
length-pad byte width t k h = omega (
  arith,
  h,
  length-append (replicate (width - length t) byte) t,
  length-replicate (width - length t) byte,
)

pub length-int : (width n : ℕ) → length (int width n) ≤ width + 21
unfolding int
length-int width n = elim (Bool-cases (ltb n (2 ^ 31))) [
  | inl e ↦ rw e (omega (arith, length-pad b'0' width (decimal n) 20 (length-decimal n)))
  | inr e ↦ rw e (
      omega (
        arith,
        length-pad b'0' (width - 1) (decimal (2 ^ 32 - n)) 20 (length-decimal (2 ^ 32 - n)),
      ))
]

pub length-space_padded : (width n : ℕ) → length (space_padded width n) ≤ width + 20
length-space_padded width n = length-pad b' ' width (decimal n) 20 (length-decimal n)

pub length-space_padded_int : (width n : ℕ) → length (space_padded_int width n) ≤ width + 21
unfolding space_padded_int
length-space_padded_int width n = elim (Bool-cases (ltb n (2 ^ 31))) [
  | inl e ↦ rw e (omega (arith, length-space_padded width n))
  | inr e ↦ rw e (
      length-pad b' ' width (b'-' ∷ decimal (2 ^ 32 - n)) 21
        (omega (arith, length-decimal (2 ^ 32 - n))))
]

pub length-left_aligned :
    (width : ℕ) (t : Text) (k : ℕ) → length t ≤ k → length (left_aligned width t) ≤ width + k
length-left_aligned width t k h = omega (
  arith,
  h,
  length-append t (replicate (width - length t) b' '),
  length-replicate {A = ℕ} (width - length t) b' ',
)

pub length-op_type_str : (op : OpType) → length (op_type_str op) ≤ 8
unfolding op_type_str
length-op_type_str op_create_account = omega arith
length-op_type_str op_balance = omega arith
length-op_type_str op_transfer = omega arith
length-op_type_str op_shutdown = omega arith
length-op_type_str op_max_number = omega arith
length-op_type_str (op_unknown n) = omega arith

pub length-rc_str : (rc : RetCode) → length (rc_str rc) ≤ 12
unfolding rc_str
length-rc_str rc_ok = omega arith
length-rc_str rc_srv_down = omega arith
length-rc_str rc_srv_timeout = omega arith
length-rc_str rc_usr_down = omega arith
length-rc_str rc_login_fail = omega arith
length-rc_str rc_op_nallow = omega arith
length-rc_str rc_id_in_use = omega arith
length-rc_str rc_id_not_found = omega arith
length-rc_str rc_same_id = omega arith
length-rc_str rc_no_funds = omega arith
length-rc_str rc_too_high = omega arith
length-rc_str rc_other = omega arith

-- a text of at most so many bytes
pub record Within (n : ℕ) (t : Text) : Type 0 where
  pub bound : length t ≤ n

pub within : {n : ℕ} (t : Text) → length t ≤ n → Within n t
within t h = record { bound = h }

infixl 5 ◌&◌
pub ◌&◌ : {a b : Text} {m n : ℕ} → Within m a → Within n b → Within (m + n) (a ++ b)
◌&◌ {a = a} {b = b} h g = record { bound = omega (arith, h.bound, g.bound, length-append a b) }

pub exactly : (t : Text) → Within (length t) t
exactly t = record { bound = omega arith }

pub int-Within : (width n : ℕ) → Within (width + 21) (int width n)
int-Within width n = within (int width n) (length-int width n)

pub space_padded-Within : (width n : ℕ) → Within (width + 20) (space_padded width n)
space_padded-Within width n = within (space_padded width n) (length-space_padded width n)

pub space_padded_int-Within : (width n : ℕ) → Within (width + 21) (space_padded_int width n)
space_padded_int-Within width n =
    within (space_padded_int width n) (length-space_padded_int width n)

pub spaced : {t : Text} {n : ℕ} → Within n t → Within (suc n) (b' ' ∷ t)
spaced {t = t} h = record { bound = omega (arith, h.bound) }

op-Within : (op : OpType) → Within 16 (left_aligned width_op (op_type_str op))
op-Within op = within _ (length-left_aligned width_op (op_type_str op) 8 (length-op_type_str op))

abbrev fill_of : TlvRequest → ℕ
fill_of request =
    let n = length request.value.header.password in (max_password_len - n) + (n - max_password_len)

request_info-parts :
    (pipe_buf own_pid id : ℕ) (request : TlvRequest)
    → Within
        (4
          + 26
          + 4
          + 24
          + 8
          + 26
          + 2
          + 25
          + 3
          + length request.value.header.password
          + 2
          + length (replicate {A = ℕ} (fill_of request) b' ')
          + 2
          + 25
          + 5
          + 16)
        (request_info pipe_buf own_pid id request)
unfolding request_info
request_info-parts pipe_buf own_pid id request =
    let header = request.value.header in
    exactly ((if id == own_pid then b'E' else b'R') ∷ codes " - ")
    & int-Within width_id id
    & exactly (codes " - [")
    & space_padded_int-Within 3 request.length
    & exactly (codes " bytes] ")
    & int-Within width_id header.pid
    & exactly (codes " (")
    & int-Within 4 header.account_id
    & exactly (codes ", \"")
    & exactly header.password
    & exactly (codes "\")")
    & exactly (replicate (fill_of request) b' ')
    & exactly (codes " [")
    & space_padded-Within 5 header.op_delay_ms
    & exactly (codes " ms] ")
    & op-Within request.type

-- With a password that fits in its array the information of a request is at most 250 bytes long.
pub length-request_info :
    (pipe_buf own_pid id : ℕ) (request : TlvRequest)
    → length request.value.header.password ≤ max_password_len
    → length (request_info pipe_buf own_pid id request) ≤ 250
length-request_info pipe_buf own_pid id request h = omega (
  arith,
  (request_info-parts pipe_buf own_pid id request).bound,
  length-replicate {A = ℕ} (fill_of request) b' ',
  h,
)

reply_info-parts :
    (pipe_buf own_pid id : ℕ) (reply : TlvReply)
    → Within (4 + 26 + 4 + 24 + 8 + 25 + 17 + 25) (reply_info pipe_buf own_pid id reply)
unfolding reply_info
reply_info-parts pipe_buf own_pid id reply =
    let header = reply.value.header in
    exactly ((if id == own_pid then b'R' else b'E') ∷ codes " - ")
    & int-Within width_id id
    & exactly (codes " - [")
    & space_padded_int-Within 3 reply.length
    & exactly (codes " bytes] ")
    & int-Within 4 header.account_id
    & spaced (
        within _
          (length-pad b' ' width_op (op_type_str reply.type) 8 (length-op_type_str reply.type)))
    & spaced (
        within _
          (length-pad b' ' width_rc (rc_str header.ret_code) 12 (length-rc_str header.ret_code)))

-- The information of a reply is at most 133 bytes long.
pub length-reply_info :
    (pipe_buf own_pid id : ℕ) (reply : TlvReply)
    → length (reply_info pipe_buf own_pid id reply) ≤ 133
length-reply_info pipe_buf own_pid id reply =
    omega (arith, (reply_info-parts pipe_buf own_pid id reply).bound)
