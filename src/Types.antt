-- ===== src/Types.antt =====
-- PROJ2/src/constants.h and types.h: the limits, the enumerations, and the messages that the user
-- program and the server exchange. A uint32_t is its value; an int is the 32 bits that hold it.
use sope.Prelude.{ℕ, ◌+◌, ◌%◌, ◌^◌, Option, Text}

-- constants.h
abbrev pub max_bank_offices : ℕ
max_bank_offices = 99

abbrev pub max_bank_accounts : ℕ
max_bank_accounts = 4096

abbrev pub min_balance : ℕ
min_balance = 1

abbrev pub max_balance : ℕ
max_balance = 1_000_000_000

abbrev pub admin_account_id : ℕ
admin_account_id = 0

abbrev pub min_password_len : ℕ
min_password_len = 8

abbrev pub max_password_len : ℕ
max_password_len = 20

abbrev pub hash_len : ℕ
hash_len = 64

abbrev pub salt_len : ℕ
salt_len = 64

abbrev pub max_op_delay_ms : ℕ
max_op_delay_ms = 99_999

abbrev pub u32_mod : ℕ
u32_mod = 2 ^ 32

-- `(uint32_t)n`
abbrev pub u32 : ℕ → ℕ
u32 n = n % u32_mod

-- `op_type_t`; `op_unknown n` is a value n of the field for which there is no enumerator.
pub data OpType : Type 0 where
  op_create_account op_balance op_transfer op_shutdown op_max_number : OpType
  op_unknown : ℕ → OpType

-- `ret_code_t`; of the enumerators that only count the others, __OP_MAX_NUMBER alone is kept, since
-- `manageRequest` has a case for it.
pub data RetCode : Type 0 where
  rc_ok rc_srv_down rc_srv_timeout rc_usr_down rc_login_fail rc_op_nallow : RetCode
  rc_id_in_use rc_id_not_found rc_same_id rc_no_funds rc_too_high rc_other : RetCode

-- the macros OK to OTHER of constants.h, which the code stores in `ret_code`
unfoldable pub ret_code_value : RetCode → ℕ
ret_code_value rc_ok = 0
ret_code_value rc_srv_down = 1
ret_code_value rc_srv_timeout = 2
ret_code_value rc_usr_down = 3
ret_code_value rc_login_fail = 4
ret_code_value rc_op_nallow = 5
ret_code_value rc_id_in_use = 6
ret_code_value rc_id_not_found = 7
ret_code_value rc_same_id = 8
ret_code_value rc_no_funds = 9
ret_code_value rc_too_high = 10
ret_code_value rc_other = 11

-- `sync_mech_op_t` and `sync_role_t`
pub data SyncMechOp : Type 0 where
  mutex_lock mutex_unlock mutex_trylock cond_signal cond_wait : SyncMechOp
  sem_init sem_post sem_wait : SyncMechOp

pub data SyncRole : Type 0 where
  role_producer role_consumer role_account : SyncRole

-- `bank_account_t`
pub record BankAccount : Type 0 where
  pub account_id : ℕ
  pub hash : Text
  pub salt : Text
  pub balance : ℕ

-- `req_header_t`
pub record ReqHeader : Type 0 where
  pub pid : ℕ
  pub account_id : ℕ
  pub password : Text
  pub op_delay_ms : ℕ

-- `req_create_account_t`
pub record ReqCreateAccount : Type 0 where
  pub account_id : ℕ
  pub balance : ℕ
  pub password : Text

-- `req_transfer_t`
pub record ReqTransfer : Type 0 where
  pub account_id : ℕ
  pub amount : ℕ

-- `req_value_t`. Its union is kept as the larger member, `create`: both members are packed and
-- begin with two uint32_t, so `transfer` is a view of the same eight bytes.
pub record ReqValue : Type 0 where
  pub header : ReqHeader
  pub create : ReqCreateAccount

abbrev pub transfer : ReqValue → ReqTransfer
transfer v = record { account_id = v.create.account_id; amount = v.create.balance }

-- `tlv_request_t`
pub record TlvRequest : Type 0 where
  pub type : OpType
  pub length : ℕ
  pub value : ReqValue

-- `rep_header_t`
pub record RepHeader : Type 0 where
  pub account_id : ℕ
  pub ret_code : RetCode

-- `rep_value_t`. The three members of its union are one uint32_t each at the same place: `word` is
-- that place, and `none` stands for a word which was never written.
pub record RepValue : Type 0 where
  pub header : RepHeader
  pub word : Option ℕ

-- `tlv_reply_t`
pub record TlvReply : Type 0 where
  pub type : OpType
  pub length : ℕ
  pub value : RepValue

-- `sizeof` of the packed structures
abbrev pub sizeof_req_header : ℕ
sizeof_req_header = 4 + 4 + (max_password_len + 1) + 4

abbrev pub sizeof_req_create_account : ℕ
sizeof_req_create_account = 4 + 4 + (max_password_len + 1)

abbrev pub sizeof_req_transfer : ℕ
sizeof_req_transfer = 4 + 4

abbrev pub sizeof_rep_header : ℕ
sizeof_rep_header = 4 + 4

-- the size of each member of the union of `rep_value_t`
abbrev pub sizeof_rep_word : ℕ
sizeof_rep_word = 4
