-- ===== src/Wire.antt =====
-- The bytes of requests and replies in the FIFOs: the writes of user.c (sendRequest) and bankoffice.c
-- (sendReply), and the reads of server.c (readRequests) and user.c (awaitReply). The structures are
-- packed, and a uint32_t is four bytes, the lowest first.
pub mod Words
pub mod Requests
pub mod Stream
pub mod Replies
mod Tests
use sope.Prelude.{
  ℕ, zero, suc, ◌+◌, ◌-◌, ◌*◌, ◌/◌, ◌%◌, ◌^◌, Bool, true, false, List, [], ◌∷◌, ◌++◌, Option, none,
  some, Text, length, replicate, ◌==◌, ltb, if◌then◌else◌,
}
use sope.Types.{
  OpType, op_create_account, op_balance, op_transfer, op_shutdown, op_max_number, op_unknown,
  RetCode, rc_ok, rc_srv_down, rc_srv_timeout, rc_usr_down, rc_login_fail, rc_op_nallow,
  rc_id_in_use, rc_id_not_found, rc_same_id, rc_no_funds, rc_too_high, rc_other, ret_code_value,
  ReqHeader, ReqCreateAccount, ReqValue, TlvRequest, RepValue, TlvReply, max_password_len,
  sizeof_req_header, sizeof_req_create_account,
}
use sope.Accounts.{c_string}
use sope.Reply.{new_reply}

abbrev pub Bytes : Type 0
Bytes = List ℕ

module _ {ℓ} {A : Type ℓ} where
  abbrev pub take : ℕ → List A → List A
  take zero xs = []
  take (suc n) [] = []
  take (suc n) (x ∷ xs) = x ∷ take n xs

  abbrev pub drop : ℕ → List A → List A
  drop zero xs = xs
  drop (suc n) [] = []
  drop (suc n) (x ∷ xs) = drop n xs

-- the bytes of a uint32_t
abbrev pub put_u32 : ℕ → Bytes
put_u32 n = n % 256 ∷ n / 256 % 256 ∷ n / 65_536 % 256 ∷ n / 16_777_216 % 256 ∷ []

-- the uint32_t at the start of the memory, and the memory behind it
abbrev pub get_u32 : Bytes → ℕ × Bytes
get_u32 (a ∷ b ∷ c ∷ d ∷ rest) = (a + 256 * b + 65_536 * c + 16_777_216 * d, rest)
get_u32 _ = (0, [])

-- a `char[MAX_PASSWORD_LEN + 1]` that holds a string of at most MAX_PASSWORD_LEN bytes; `junk` is
-- what stands behind the terminator
abbrev pub put_password : ℕ → Text → Bytes
put_password junk t = t ++ 0 ∷ replicate (max_password_len - length t) junk

-- the values of `op_type_t`
abbrev pub op_value : OpType → ℕ
op_value op_create_account = 0
op_value op_balance = 1
op_value op_transfer = 2
op_value op_shutdown = 3
op_value op_max_number = 4
op_value (op_unknown n) = n

abbrev pub op_of_value : ℕ → OpType
op_of_value n =
    if n == 0
    then op_create_account
    else if n == 1
    then op_balance
    else if n == 2
    then op_transfer
    else if n == 3
    then op_shutdown
    else if n == 4
    then op_max_number
    else op_unknown n

-- `req_header_t`, `req_create_account_t` and `req_value_t` in memory
abbrev pub header_bytes : ℕ → ReqHeader → Bytes
header_bytes junk h =
    put_u32 h.pid ++ put_u32 h.account_id ++ put_password junk h.password ++ put_u32 h.op_delay_ms

abbrev pub create_bytes : ℕ → ReqCreateAccount → Bytes
create_bytes junk c = put_u32 c.account_id ++ put_u32 c.balance ++ put_password junk c.password

unfoldable pub value_bytes : ℕ → ReqValue → Bytes
value_bytes junk v = header_bytes junk v.header ++ create_bytes junk v.create

-- `write` in sendRequest: the type, the length, and `length` bytes of the value
unfoldable pub send_request : ℕ → TlvRequest → Bytes
unfolding value_bytes
send_request junk r =
    put_u32 (op_value r.type) ++ put_u32 r.length ++ take r.length (value_bytes junk r.value)

-- The value in this memory. A string ends where its terminator is, inside its array or not.
abbrev pub create_of : Bytes → ReqCreateAccount
create_of m =
    let (account_id, m1) = get_u32 m in
    let (balance, m2) = get_u32 m1 in
    record { account_id = account_id; balance = balance; password = c_string m2 }

unfoldable pub value_of : Bytes → ReqValue
value_of m =
    let (pid, m1) = get_u32 m in
    let (account_id, m2) = get_u32 m1 in
    let (delay, m3) = get_u32 (drop (max_password_len + 1) m2) in
    record {
      header = record {
        pid = pid;
        account_id = account_id;
        password = c_string m2;
        op_delay_ms = delay;
      };
      create = create_of m3;
    }

-- What the reads have put into a structure that held `old`.
abbrev pub overlay : Bytes → Bytes → Bytes
overlay new old = new ++ drop (length new) old

-- the size of `req_value_t`
abbrev pub sizeof_req_value : ℕ
sizeof_req_value = sizeof_req_header + sizeof_req_create_account

-- The end of `readRequests`, with the requests that it put into the queue; `overruns` is a read past
-- the end of `request`, and `no_fuel` more rounds than the fuel allows.
pub data Received : Type 0 where
  received : List TlvRequest → Received
  overruns no_fuel : Received

abbrev pub and_then : TlvRequest → Received → Received
and_then r (received rs) = received (r ∷ rs)
and_then r overruns = overruns
and_then r no_fuel = no_fuel

-- The loop of `readRequests` over what the clients write until the last one closes the FIFO. A write is
-- far below PIPE_BUF and stays in one piece; a read takes what it asks for, or what is left. `old k`
-- is what the variable `request` holds at the start of the round with k rounds of fuel left.
unfoldable pub receive_within : (ℕ → Bytes × Bytes) → ℕ → Bytes → Received
unfolding value_of
receive_within old zero stream = no_fuel
receive_within old (suc fuel) stream =
    let (old_head, old_value) = old fuel in
    let (op, m) = get_u32 (overlay (take 8 stream) old_head) in
    let n = (get_u32 m).0 in
    let rest = drop 8 stream in
    let new = take n rest in
    let more = receive_within old fuel (drop n rest) in
    if length new == 0
    then received []
    else if ltb sizeof_req_value (length new)
    then overruns
    else and_then
        (record { type = op_of_value op; length = n; value = value_of (overlay new old_value) })
        more

unfoldable pub receive_requests : (ℕ → Bytes × Bytes) → Bytes → Received
unfolding receive_within
receive_requests old stream = receive_within old (suc (length stream)) stream

-- the values of `ret_code`; a value that has no macro is not told apart from OTHER
abbrev pub ret_code_of : ℕ → RetCode
ret_code_of n =
    if n == 0
    then rc_ok
    else if n == 1
    then rc_srv_down
    else if n == 2
    then rc_srv_timeout
    else if n == 3
    then rc_usr_down
    else if n == 4
    then rc_login_fail
    else if n == 5
    then rc_op_nallow
    else if n == 6
    then rc_id_in_use
    else if n == 7
    then rc_id_not_found
    else if n == 8
    then rc_same_id
    else if n == 9
    then rc_no_funds
    else if n == 10
    then rc_too_high
    else rc_other

-- the bytes of the union, `junk` where nothing was written
abbrev pub put_word : ℕ → Option ℕ → Bytes
put_word junk none = put_u32 junk
put_word junk (some w) = put_u32 w

-- `write` in sendReply
unfoldable pub send_reply_bytes : ℕ → TlvReply → Bytes
unfolding ret_code_value
send_reply_bytes junk r =
    put_u32 (op_value r.type)
    ++ put_u32 r.length
    ++ take r.length (
        put_u32 r.value.header.account_id
        ++ put_u32 (ret_code_value r.value.header.ret_code)
        ++ put_word junk r.value.word)

-- the bytes of `newReply()` that the reads of awaitReply write over
abbrev pub new_reply_bytes : Bytes
new_reply_bytes = replicate 4 255 ++ put_u32 11 ++ put_u32 0

-- `rep_value_t` in this memory
abbrev pub reply_value_of : Bytes → RepValue
reply_value_of m =
    let (account_id, m1) = get_u32 m in
    let (code, m2) = get_u32 m1 in
    record {
      header = record { account_id = account_id; ret_code = ret_code_of code };
      word = some (get_u32 m2).0;
    }

-- The two reads of `awaitReply`; `none` is a read past the end of `reply`.
unfoldable pub read_reply : Bytes → Option TlvReply
read_reply stream =
    let (op, m) = get_u32 (overlay (take 8 stream) (replicate 8 255)) in
    let n = (get_u32 m).0 in
    let new = take n (drop 8 stream) in
    if ltb 12 (length new)
    then none
    else some (record {
      type = op_of_value op;
      length = n;
      value = reply_value_of (overlay new new_reply_bytes);
    })
