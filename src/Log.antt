-- ===== src/Log.antt =====
-- PROJ2/src/log.c: the lines of the log files. The texts have no zero byte inside; the number of
-- bytes that a pipe takes at once, PIPE_BUF, is a parameter. An int is the 32 bits that hold it, and
-- "€" its three bytes.
pub mod Width
pub mod Whole
mod Tests
use sope.Prelude.{
  ℕ, ◌+◌, ◌-◌, ◌^◌, Bool, true, false, List, [], ◌∷◌, ◌++◌, Option, none, some, Text, length,
  replicate, ◌==◌, ltb, if◌then◌else◌,
}
use sope.Prelude.Strings.{codes}
use sope.Types.{
  OpType, op_create_account, op_balance, op_transfer, op_shutdown, op_max_number, op_unknown,
  RetCode, rc_ok, rc_srv_down, rc_srv_timeout, rc_usr_down, rc_login_fail, rc_op_nallow,
  rc_id_in_use, rc_id_not_found, rc_same_id, rc_no_funds, rc_too_high, rc_other, SyncMechOp,
  mutex_lock, mutex_trylock, mutex_unlock, cond_signal, cond_wait, sem_init, sem_post, sem_wait,
  SyncRole, role_account, role_consumer, role_producer, BankAccount, TlvRequest, TlvReply, transfer,
  max_password_len, salt_len, hash_len,
}
use sope.Format.{decimal, pad, zero_padded, space_padded, zero_padded_int}
use sope.Fifo.{width_id}
use sope.Wire.{take, drop}

-- the other widths of constants.h
abbrev pub width_delay : ℕ
width_delay = 5

abbrev pub width_account : ℕ
width_account = 4

abbrev pub width_balance : ℕ
width_balance = 10

abbrev pub width_op : ℕ
width_op = 8

abbrev pub width_rc : ℕ
width_rc = 12

abbrev pub width_hash : ℕ
width_hash = 5

abbrev pub width_tlv_len : ℕ
width_tlv_len = 3

abbrev pub width_startend : ℕ
width_startend = 5

-- OP_TYPE_STR, RC_STR, SYNC_MECH_STR, and the first letters of SYNC_ROLE_STR
unfoldable pub op_type_str : OpType → Text
op_type_str op_create_account = codes "CREATE"
op_type_str op_balance = codes "BALANCE"
op_type_str op_transfer = codes "TRANSFER"
op_type_str op_shutdown = codes "SHUTDOWN"
op_type_str op_max_number = []
op_type_str (op_unknown n) = []

unfoldable pub rc_str : RetCode → Text
rc_str rc_ok = codes "OK"
rc_str rc_srv_down = codes "SRV_DOWN"
rc_str rc_srv_timeout = codes "SRV_TIMEOUT"
rc_str rc_usr_down = codes "USR_DOWN"
rc_str rc_login_fail = codes "LOGIN_FAIL"
rc_str rc_op_nallow = codes "OP_NALLOW"
rc_str rc_id_in_use = codes "ID_IN_USE"
rc_str rc_id_not_found = codes "ID_NOT_FOUND"
rc_str rc_same_id = codes "SAME_ID"
rc_str rc_no_funds = codes "NO_FUNDS"
rc_str rc_too_high = codes "TOO_HIGH"
rc_str rc_other = codes "OTHER"

unfoldable pub sync_mech_str : SyncMechOp → Text
sync_mech_str mutex_lock = codes "MUTEX_LOCK"
sync_mech_str mutex_trylock = codes "MUTEX_TRYLOCK"
sync_mech_str mutex_unlock = codes "MUTEX_UNLOCK"
sync_mech_str cond_signal = codes "COND_SIGNAL"
sync_mech_str cond_wait = codes "COND_WAIT"
sync_mech_str sem_init = codes "SEM_INIT"
sync_mech_str sem_post = codes "SEM_POST"
sync_mech_str sem_wait = codes "SEM_WAIT"

abbrev pub sync_role_letter : SyncRole → ℕ
sync_role_letter role_account = b'A'
sync_role_letter role_consumer = b'C'
sync_role_letter role_producer = b'P'

-- `%*s` and `%-*s`
abbrev pub right_aligned : ℕ → Text → Text
right_aligned width t = pad b' ' width t

abbrev pub left_aligned : ℕ → Text → Text
left_aligned width t = t ++ replicate (width - length t) b' '

-- `%*d` of an int, by its 32 bits
unfoldable pub space_padded_int : ℕ → ℕ → Text
space_padded_int width n =
    if ltb n (2 ^ 31) then space_padded width n else pad b' ' width (b'-' ∷ decimal (2 ^ 32 - n))

unfoldable pub int : ℕ → ℕ → Text
int width n = zero_padded_int width n

abbrev pub euro : Text
euro = 0xE2 ∷ 0x82 ∷ 0xAC ∷ []

-- What a logging function returns, with what it writes: -1 for a null pointer, -2 for a type that
-- it has no case for, and the number of characters of the line.
pub data Logged : Type 0 where
  no_pointer no_case : Logged
  printed : (ret : ℕ) → (written : Text) → Logged

module _ (pipe_buf : ℕ) where
  -- the contents of a buffer of PIPE_BUF bytes behind snprintf
  abbrev pub in_buffer : Text → Text
  in_buffer t = take (pipe_buf - 1) t

  unfoldable pub atomic_printf : Text → Logged
  atomic_printf t = printed (length t) (in_buffer t)

  unfoldable pub request_info : (own_pid id : ℕ) → TlvRequest → Text
  unfolding op_type_str space_padded_int int
  request_info own_pid id request =
      let header = request.value.header in
      let password_length = length header.password in
      (if id == own_pid then b'E' else b'R') ∷ codes " - "
      ++ int width_id id
      ++ codes " - ["
      ++ space_padded_int width_tlv_len request.length
      ++ codes " bytes] "
      ++ int width_id header.pid
      ++ codes " ("
      ++ int width_account header.account_id
      ++ codes ", \""
      ++ header.password
      ++ codes "\")"
      ++ replicate ((max_password_len - password_length) + (password_length - max_password_len))
          b' '
      ++ codes " ["
      ++ space_padded width_delay header.op_delay_ms
      ++ codes " ms] "
      ++ left_aligned width_op (op_type_str request.type)

  -- `logBaseRequestInfo`
  abbrev pub log_base_request_info : (own_pid id : ℕ) → TlvRequest → Text
  log_base_request_info own_pid id request = in_buffer (request_info own_pid id request)

  abbrev pub request_tail : TlvRequest → OpType → Option Text
  request_tail request op_create_account =
      let create = request.value.create in
      some (
        b' ' ∷ int width_account create.account_id
        ++ b' ' ∷ space_padded width_balance create.balance
        ++ euro
        ++ codes " \""
        ++ create.password
        ++ codes "\"\n")
  request_tail request op_balance = some (codes "\n")
  request_tail request op_transfer = some (
      b' ' ∷ int width_account (transfer request.value).account_id
      ++ b' ' ∷ space_padded width_balance (transfer request.value).amount
      ++ euro
      ++ codes "\n")
  request_tail request op_shutdown = some (codes "\n")
  request_tail request op_max_number = none
  request_tail request (op_unknown n) = none

  abbrev pub print_behind : Text → Option Text → Logged
  print_behind info none = no_case
  print_behind info (some tail) = atomic_printf (info ++ tail)

  unfoldable pub log_request : (own_pid id : ℕ) → Option TlvRequest → Logged
  unfolding request_info atomic_printf int
  log_request own_pid id none = no_pointer
  log_request own_pid id (some request) =
      print_behind (log_base_request_info own_pid id request) (request_tail request request.type)

  unfoldable pub reply_info : (own_pid id : ℕ) → TlvReply → Text
  unfolding op_type_str rc_str space_padded_int int
  reply_info own_pid id reply =
      let header = reply.value.header in
      (if id == own_pid then b'R' else b'E') ∷ codes " - "
      ++ int width_id id
      ++ codes " - ["
      ++ space_padded_int width_tlv_len reply.length
      ++ codes " bytes] "
      ++ int width_account header.account_id
      ++ b' ' ∷ right_aligned width_op (op_type_str reply.type)
      ++ b' ' ∷ right_aligned width_rc (rc_str header.ret_code)

  -- `logBaseReplyInfo`
  abbrev pub log_base_reply_info : (own_pid id : ℕ) → TlvReply → Text
  log_base_reply_info own_pid id reply = in_buffer (reply_info own_pid id reply)

  -- `word` is what the union of the reply holds.
  abbrev pub reply_tail : (word : ℕ) → OpType → Option Text
  reply_tail word op_create_account = some (codes "\n")
  reply_tail word op_balance =
      some (b' ' ∷ space_padded_int width_balance word ++ euro ++ codes "\n")
  reply_tail word op_transfer =
      some (b' ' ∷ space_padded_int width_balance word ++ euro ++ codes "\n")
  reply_tail word op_shutdown = some (b' ' ∷ int 0 word ++ codes "\n")
  reply_tail word op_max_number = none
  reply_tail word (op_unknown n) = none

  abbrev pub word_of : ℕ → Option ℕ → ℕ
  word_of junk none = junk
  word_of junk (some w) = w

  -- `junk` is what the union holds if nothing was written there.
  unfoldable pub log_reply : (own_pid id : ℕ) → (junk : ℕ) → Option TlvReply → Logged
  unfolding reply_info atomic_printf space_padded_int int
  log_reply own_pid id junk none = no_pointer
  log_reply own_pid id junk (some reply) =
      print_behind (log_base_reply_info own_pid id reply)
        (reply_tail (word_of junk reply.value.word) reply.type)

  -- `logBankOfficeOpen` and `logBankOfficeClose`, through `logBankOfficeInfo`
  unfoldable pub log_bank_office_info : (id tid : ℕ) → (is_open : Bool) → Logged
  unfolding atomic_printf int
  log_bank_office_info id tid is_open = atomic_printf (
      codes "I - "
      ++ int width_id id
      ++ codes " - "
      ++ left_aligned width_startend (if is_open then codes "OPEN" else codes "CLOSE")
      ++ b' ' ∷ decimal tid
      ++ codes "\n")

  unfoldable pub log_account_creation : (id : ℕ) → Option BankAccount → Logged
  unfolding atomic_printf int
  log_account_creation id none = no_pointer
  log_account_creation id (some account) = atomic_printf (
      codes "I - "
      ++ int width_id id
      ++ codes " - "
      ++ int width_account account.account_id
      ++ b' ' ∷ right_aligned salt_len account.salt
      ++ codes " ..."
      ++ right_aligned width_hash (drop (hash_len - width_hash) account.hash)
      ++ codes "\n")

  -- `logSyncMech`, and `logSyncMechSem` with the value of the semaphore
  unfoldable pub log_sync_mech : (id : ℕ) → SyncMechOp → SyncRole → (sid : ℕ) → Logged
  unfolding atomic_printf sync_mech_str int
  log_sync_mech id smo role sid = atomic_printf (
      codes "S - "
      ++ int width_id id
      ++ codes " - "
      ++ sync_role_letter role ∷ int width_id sid
      ++ b' ' ∷ sync_mech_str smo
      ++ codes "\n")

  unfoldable pub log_sync_mech_sem : (id : ℕ) → SyncMechOp → SyncRole → (sid val : ℕ) → Logged
  unfolding atomic_printf sync_mech_str int
  log_sync_mech_sem id smo role sid val = atomic_printf (
      codes "S - "
      ++ int width_id id
      ++ codes " - "
      ++ sync_role_letter role ∷ int width_id sid
      ++ b' ' ∷ sync_mech_str smo
      ++ codes " [val="
      ++ int 0 val
      ++ codes "]\n")

  unfoldable pub log_delay : (id delay_ms : ℕ) → Logged
  unfolding atomic_printf int
  log_delay id delay_ms = atomic_printf (
      codes "A - "
      ++ int width_id id
      ++ codes " - ["
      ++ space_padded width_delay delay_ms
      ++ codes " ms]\n")

  unfoldable pub log_sync_delay : (id sid delay_ms : ℕ) → Logged
  unfolding atomic_printf int
  log_sync_delay id sid delay_ms = atomic_printf (
      codes "A - "
      ++ int width_id id
      ++ codes " - "
      ++ sync_role_letter role_account ∷ int width_id sid
      ++ codes " ["
      ++ space_padded width_delay delay_ms
      ++ codes " ms]\n")
