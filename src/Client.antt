-- ===== src/Client.antt =====
-- PROJ2/src/user.c and argProcessing.c: how the user program makes a request of its arguments, and
-- how the server reads its own.
-- An int is the 32 bits that hold it; `status` is what exit is called with.
pub mod Checks
pub mod OutOfRange
pub mod Session
pub mod Delivery
pub mod SessionTests
mod Tests
use sope.Prelude.{
  ℕ, ◌+◌, ◌-◌, ◌^◌, Bool, true, false, List, [], ◌∷◌, Option, none, some, Text, length, ◌==◌, ltb,
  leb, ◌||◌, if◌then◌else◌,
}
use sope.Types.{
  OpType, op_create_account, op_balance, op_transfer, op_shutdown, op_max_number, ReqHeader,
  ReqCreateAccount, ReqTransfer, ReqValue, TlvRequest, max_bank_offices, max_bank_accounts,
  max_balance, min_password_len, max_password_len, sizeof_req_header, sizeof_req_create_account,
  sizeof_req_transfer,
}
use sope.Libc.{atoi, strtok}

-- The value, the end of the program, or a write past the end of a buffer.
pub data Made (A : Type 0) : Type 0 where
  made : A → Made A
  exits : (status : ℕ) → Made A
  overflow : Made A

infixl 5 ◌>>=◌
abbrev pub ◌>>=◌ : {A B : Type 0} → Made A → (A → Made B) → Made B
made a >>= f = f a
exits n >>= f = exits n
overflow >>= f = overflow

-- `UserArgs` and `ServerArgs` of argProcessing.h
pub record UserArgs : Type 0 where
  pub id : ℕ
  pub password : Text
  pub delay_ms : ℕ
  pub opcode : ℕ
  pub args : Text

pub record ServerArgs : Type 0 where
  pub num_offices : ℕ
  pub admin_password : Text

-- an int that is at most 0
abbrev pub not_positive : ℕ → Bool
not_positive n = n == 0 || leb (2 ^ 31) n

-- `argv` with its `argc` elements
unfoldable pub process_server_args : List Text → Made ServerArgs
process_server_args (prog ∷ offices ∷ password ∷ []) =
    let num_offices = atoi offices in
    if not_positive num_offices || ltb max_bank_offices num_offices
    then exits 1
    else if ltb (length password) min_password_len || ltb max_password_len (length password)
    then exits 1
    else made (record { num_offices = num_offices; admin_password = password })
process_server_args _ = exits 1

unfoldable pub process_user_args : List Text → Made UserArgs
process_user_args (prog ∷ id ∷ password ∷ delay ∷ opcode ∷ args ∷ []) = made (record {
  id = atoi id;
  password = password;
  delay_ms = atoi delay;
  opcode = atoi opcode;
  args = args;
})
process_user_args _ = exits 1

-- `strcpy` into an array of MAX_PASSWORD_LEN + 1 bytes
abbrev pub copy_password : Text → Made Text
copy_password password = if ltb max_password_len (length password) then overflow else made password

-- The tests `account_id < 0` and `op_delay_ms < 0` are of unsigned values, and never hold.
unfoldable pub make_req_header : ℕ → UserArgs → Made ReqHeader
make_req_header pid args = if ltb max_bank_accounts args.id then exits 1 else do
  password ← copy_password args.password
  made
      (record { pid = pid; account_id = args.id; password = password; op_delay_ms = args.delay_ms })

abbrev pub check_create : ReqCreateAccount → Made ReqCreateAccount
check_create r =
    if r.account_id == 0 || ltb max_bank_accounts r.account_id
    then exits 1
    else if r.balance == 0 || ltb max_balance r.balance
    then exits 1
    else if ltb (length r.password) min_password_len || ltb max_password_len (length r.password)
    then exits 1
    else made r

-- The password is copied before anything is checked.
unfoldable pub make_create_acc_req : Text → Made ReqCreateAccount
make_create_acc_req args = elim (strtok args) [
  | none ↦ exits 1
  | some (acc_id, rest) ↦ elim (strtok rest) [
    | none ↦ exits 1
    | some (balance, rest') ↦ elim (strtok rest') [
      | none ↦ exits 1
      | some (token, _) ↦ do
        password ← copy_password token
        check_create
            (record { account_id = atoi acc_id; balance = atoi balance; password = password })
    ]
  ]
]

abbrev pub check_transfer : ReqTransfer → Made ReqTransfer
check_transfer r =
    if r.account_id == 0 || ltb max_bank_accounts r.account_id
    then exits 1
    else if r.amount == 0 || ltb max_balance r.amount
    then exits 1
    else made r

unfoldable pub make_transfer_req : Text → Made ReqTransfer
make_transfer_req args = elim (strtok args) [
  | none ↦ exits 1
  | some (acc_id, rest) ↦ elim (strtok rest) [
    | none ↦ exits 1
    | some (amount, _) ↦ check_transfer (record { account_id = atoi acc_id; amount = atoi amount })
  ]
]

-- the enumerator for an opcode; `none` where `createRequest` knows of no operation
abbrev pub op_type_of : ℕ → Option OpType
op_type_of n =
    if n == 0
    then some op_create_account
    else if n == 1
    then some op_balance
    else if n == 2
    then some op_transfer
    else if n == 3
    then some op_shutdown
    else none

abbrev pub request_of : OpType → ℕ → ReqHeader → ReqCreateAccount → TlvRequest
request_of op n header create = record {
  type = op;
  length = n;
  value = record { header = header; create = create };
}

-- `junk` is what the stack holds where the union of the request is not written.
module _ (junk : ReqCreateAccount) where
  -- the arguments of the operation, after the header
  abbrev pub with_args : OpType → ReqHeader → Text → Made TlvRequest
  with_args op_create_account header args = do
    create ← make_create_acc_req args
    made
        (request_of op_create_account (sizeof_req_header + sizeof_req_create_account) header create)
  with_args op_transfer header args = do
    transfer ← make_transfer_req args
    made (
        request_of op_transfer (sizeof_req_header + sizeof_req_transfer) header
          (record junk { account_id = transfer.account_id; balance = transfer.amount }))
  with_args op header args = made (request_of op sizeof_req_header header junk)

  unfoldable pub create_request : ℕ → UserArgs → Made TlvRequest
  create_request pid args = elim (op_type_of args.opcode) [
    | none ↦ exits 1
    | some op ↦ do header ← make_req_header pid args; with_args op header args.args
  ]
