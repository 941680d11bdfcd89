-- ===== src/Client/OutOfRange.antt =====
-- Where the user program's checks are not enough: the id MAX_BANK_ACCOUNTS, and long passwords.
use sope.Prelude.{ℕ, ◌≤◌, ◌<◌, ◌≡◌, ◌⊎◌, inl, inr, some, Text, length, arith}
use sope.Types.{
  OpType, op_balance, op_shutdown, ReqHeader, sizeof_req_header, ReqCreateAccount, TlvRequest,
  max_bank_accounts, max_password_len,
}
use sope.State.{Env, Server, fault}
use sope.Fifo.{get_user_fifo_path}
use sope.Accounts.{lock_account}
use sope.Office.Manage.{manage_request}
use sope.Client.{UserArgs, made, overflow, make_req_header, create_request, op_type_of, request_of}

lock_account-fault :
    (id thread : ℕ) (s : Server) → max_bank_accounts ≤ id → lock_account id thread s ≡ fault
unfolding lock_account
lock_account-fault id thread s outside = ground arith

-- `manageRequest` accesses an array outside its bounds for each id from MAX_BANK_ACCOUNTS on.
manage_request-fault :
    (env : Env) (r : TlvRequest) (thread : ℕ) (s : Server) (path : Text)
    → max_bank_accounts ≤ r.value.header.account_id
    → get_user_fifo_path r.value.header.pid ≡ some path
    → manage_request env r thread s ≡ fault
unfolding manage_request
manage_request-fault env r thread s path outside p =
    ground (arith, lock_account-fault r.value.header.account_id thread s outside)

-- the header that `makeReqHeader` fills in
abbrev header_of : ℕ → UserArgs → ReqHeader
header_of pid args = record {
  pid = pid;
  account_id = args.id;
  password = args.password;
  op_delay_ms = args.delay_ms;
}

-- The user program lets the id MAX_BANK_ACCOUNTS through: for a balance check (opcode 1) or a
-- shutdown (opcode 3) with that id and a password that fits it makes a request, on which every
-- server that can name the user's FIFO accesses its arrays out of bounds.
create_request-last_id :
    (junk : ReqCreateAccount) (pid : ℕ) (args : UserArgs) (path : Text) (env : Env) (thread : ℕ)
    (s : Server)
    → args.id ≡ max_bank_accounts
    → length args.password ≤ max_password_len
    → (args.opcode ≡ 1) ⊎ (args.opcode ≡ 3)
    → get_user_fifo_path pid ≡ some path
    → (r : TlvRequest) × (create_request junk pid args ≡ made r)
      × (manage_request env r thread s ≡ fault)
unfolding create_request make_req_header
create_request-last_id junk pid args path env thread s last fits (inl balance) p = (
  request_of op_balance sizeof_req_header (header_of pid args) junk,
  ground arith,
  manage_request-fault env (request_of op_balance sizeof_req_header (header_of pid args) junk)
      thread s path (omega arith) p,
)
create_request-last_id junk pid args path env thread s last fits (inr shutdown) p = (
  request_of op_shutdown sizeof_req_header (header_of pid args) junk,
  ground arith,
  manage_request-fault env (request_of op_shutdown sizeof_req_header (header_of pid args) junk)
      thread s path (omega arith) p,
)

-- For an id that the user program lets through and an opcode that exists, a password of more than
-- MAX_PASSWORD_LEN bytes is copied past the end of its array.
create_request-overflow :
    (junk : ReqCreateAccount) (pid : ℕ) (args : UserArgs) (op : OpType)
    → args.id ≤ max_bank_accounts
    → op_type_of args.opcode ≡ some op
    → max_password_len < length args.password
    → create_request junk pid args ≡ overflow
unfolding create_request make_req_header
create_request-overflow junk pid args op in_range known long = ground arith
