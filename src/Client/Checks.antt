-- ===== src/Client/Checks.antt =====
-- What the user program's checks promise of the requests that it sends.
use sope.Prelude.{
  ℕ, ◌+◌, ◌≤◌, ◌≡◌, ◌≢◌, refl, sym, subst, ◌∙◌, none, some, Text, length, arith, Option-cases, inl,
  inr,
}
use sope.Types.{
  OpType, op_create_account, op_balance, op_transfer, op_shutdown, op_max_number, op_unknown,
  ReqHeader, ReqCreateAccount, ReqTransfer, TlvRequest, max_bank_accounts, transfer, max_balance,
  min_password_len, max_password_len, sizeof_req_header, sizeof_req_create_account,
  sizeof_req_transfer,
}
use sope.Office.Locks.{IsDelay}
use sope.Office.Serves.{IsRequest, ArgsInRange}
use sope.Office.Invariant.{BalanceAllowed}
use sope.Client.{
  UserArgs, Made, made, exits, overflow, ◌>>=◌, make_req_header, make_create_acc_req,
  make_transfer_req, create_request, with_args, op_type_of,
}

-- The arguments of the operation are in the ranges that the protocol names, and the length counts
-- the bytes of the header and of these arguments.
abbrev pub ArgsChecked : OpType → TlvRequest → Type 0
ArgsChecked op_create_account r =
    (r.length ≡ sizeof_req_header + sizeof_req_create_account)
    × (1 ≤ r.value.create.account_id)
    × (r.value.create.account_id ≤ max_bank_accounts)
    × (1 ≤ r.value.create.balance)
    × (r.value.create.balance ≤ max_balance)
    × (min_password_len ≤ length r.value.create.password)
    × (length r.value.create.password ≤ max_password_len)
ArgsChecked op_transfer r =
    (r.length ≡ sizeof_req_header + sizeof_req_transfer)
    × (1 ≤ (transfer r.value).account_id)
    × ((transfer r.value).account_id ≤ max_bank_accounts)
    × (1 ≤ (transfer r.value).amount)
    × ((transfer r.value).amount ≤ max_balance)
ArgsChecked op_balance r = r.length ≡ sizeof_req_header
ArgsChecked op_shutdown r = r.length ≡ sizeof_req_header
ArgsChecked _ r = ⊥

pub record IsChecked (pid : ℕ) (args : UserArgs) (r : TlvRequest) : Type 0 where
  pub sender : (r.value.header.pid ≡ pid) × (r.value.header.account_id ≡ args.id)
  pub login :
      (r.value.header.password ≡ args.password)
      × (length r.value.header.password ≤ max_password_len)
  pub id_checked : r.value.header.account_id ≤ max_bank_accounts
  pub delay_kept : r.value.header.op_delay_ms ≡ args.delay_ms
  pub operation : op_type_of args.opcode ≡ some r.type
  pub args_checked : ArgsChecked r.type r

make_create_acc_req-checked :
    (t : Text) (r : ReqCreateAccount)
    → make_create_acc_req t ≡ made r
    → (1 ≤ r.account_id)
      × (r.account_id ≤ max_bank_accounts)
      × (1 ≤ r.balance)
      × (r.balance ≤ max_balance)
      × (min_password_len ≤ length r.password)
      × (length r.password ≤ max_password_len)
unfolding make_create_acc_req
make_create_acc_req-checked t r e = ground arith

make_transfer_req-checked :
    (t : Text) (r : ReqTransfer)
    → make_transfer_req t ≡ made r
    → (1 ≤ r.account_id)
      × (r.account_id ≤ max_bank_accounts)
      × (1 ≤ r.amount)
      × (r.amount ≤ max_balance)
unfolding make_transfer_req
make_transfer_req-checked t r e = ground arith

make_req_header-checked :
    (pid : ℕ) (args : UserArgs) (header : ReqHeader)
    → make_req_header pid args ≡ made header
    → (header ≡ record {
      pid = pid;
      account_id = args.id;
      password = args.password;
      op_delay_ms = args.delay_ms;
    })
      × (args.id ≤ max_bank_accounts)
      × (length args.password ≤ max_password_len)
unfolding make_req_header
make_req_header-checked pid args header e = ground arith

>>=-eq-made :
    {A B : Type 0} (m : Made A) (f : A → Made B) {b : B}
    → (m >>= f) ≡ made b
    → (a : A) × (m ≡ made a) × (f a ≡ made b)
>>=-eq-made (made a) f h = (a, refl, h)
>>=-eq-made (exits n) f h = cc
>>=-eq-made overflow f h = cc

with_args-checked :
    (junk : ReqCreateAccount) (op : OpType) (header : ReqHeader) (t : Text) (r : TlvRequest) (n : ℕ)
    → op_type_of n ≡ some op
    → with_args junk op header t ≡ made r
    → (r.type ≡ op) × (r.value.header ≡ header) × ArgsChecked op r
with_args-checked junk op_create_account header t r n u e =
    let (create, e1, e2) = >>=-eq-made (make_create_acc_req t) _ e in
    ground (arith, make_create_acc_req-checked t create e1)
with_args-checked junk op_transfer header t r n u e =
    let (req, e1, e2) = >>=-eq-made (make_transfer_req t) _ e in
    ground (arith, make_transfer_req-checked t req e1)
with_args-checked junk op_balance header t r n u e = ground arith
with_args-checked junk op_shutdown header t r n u e = ground arith
with_args-checked junk op_max_number header t r n u e = ground arith
with_args-checked junk (op_unknown k) header t r n u e = ground arith

IsChecked-of_parts :
    (pid : ℕ) (args : UserArgs) (op : OpType) (header : ReqHeader) (r : TlvRequest)
    → op_type_of args.opcode ≡ some op
    → make_req_header pid args ≡ made header
    → (r.type ≡ op) × (r.value.header ≡ header) × ArgsChecked op r
    → IsChecked pid args r
IsChecked-of_parts pid args op header r o h (t, e, a) = record {
  sender = ground (arith, make_req_header-checked pid args header h);
  login = ground (arith, make_req_header-checked pid args header h);
  id_checked = ground (arith, make_req_header-checked pid args header h);
  delay_kept = ground (arith, make_req_header-checked pid args header h);
  operation = rw t o;
  args_checked = subst (λ o. ArgsChecked o r) (sym t) a;
}

create_request-none :
    (junk : ReqCreateAccount) (pid : ℕ) (args : UserArgs)
    → op_type_of args.opcode ≡ none
    → create_request junk pid args ≡ exits 1
unfolding create_request
create_request-none junk pid args u = ground arith

create_request-some :
    (junk : ReqCreateAccount) (pid : ℕ) (args : UserArgs) (op : OpType)
    → op_type_of args.opcode ≡ some op
    → create_request junk pid args
      ≡ (make_req_header pid args >>= λ header. with_args junk op header args.args)
unfolding create_request
create_request-some junk pid args op known = rw (known, create_request) refl

-- A request that the user program makes carries its arguments: the sender, the login and the delay
-- as given, the operation of the opcode, an id of at most MAX_BANK_ACCOUNTS, and arguments of the
-- operation in their ranges, with the length that counts them.
pub create_request-IsChecked :
    (junk : ReqCreateAccount) (pid : ℕ) (args : UserArgs) (r : TlvRequest)
    → create_request junk pid args ≡ made r
    → IsChecked pid args r
create_request-IsChecked junk pid args r e = elim (Option-cases (op_type_of args.opcode)) [
  | inl unknown ↦ absurd (cc (create_request-none junk pid args unknown))
  | inr (op, known) ↦
      let (header, e1, e2) =
        >>=-eq-made (make_req_header pid args) (λ header. with_args junk op header args.args)
          (sym (create_request-some junk pid args op known) ∙ e) in
      IsChecked-of_parts pid args op header r known e1
        (with_args-checked junk op header args.args r args.opcode known e2)
]

ArgsChecked-in_range :
    (op : OpType) (r : TlvRequest)
    → ArgsChecked op r
    → (op ≢ op_balance → op ≢ op_shutdown → r.value.create.account_id ≢ max_bank_accounts)
    → ArgsInRange r op × BalanceAllowed r op
ArgsChecked-in_range op_create_account r a h =
    let ne = h (λ e. cc) (λ e. cc) in (omega arith, omega arith)
ArgsChecked-in_range op_transfer r a h = let ne = h (λ e. cc) (λ e. cc) in (omega arith, tt)
ArgsChecked-in_range op_balance r a h = (tt, tt)
ArgsChecked-in_range op_shutdown r a h = (tt, tt)
ArgsChecked-in_range op_max_number r a h = absurd a
ArgsChecked-in_range (op_unknown n) r a h = absurd a

-- A request that the user program makes is one that the server can take (`IsRequest`), with a first
-- balance that it may be given, if no id in it is MAX_BANK_ACCOUNTS and usleep can be given the delay.
pub create_request-IsRequest :
    (junk : ReqCreateAccount) (pid : ℕ) (args : UserArgs) (r : TlvRequest)
    → create_request junk pid args ≡ made r
    → r.value.header.account_id ≢ max_bank_accounts
    → (r.type ≢ op_balance → r.type ≢ op_shutdown → r.value.create.account_id ≢ max_bank_accounts)
    → IsDelay args.delay_ms
    → IsRequest r × BalanceAllowed r r.type
create_request-IsRequest junk pid args r e id_ok dest_ok short =
    let c = create_request-IsChecked junk pid args r e in
    let (args_in, allowed) = ArgsChecked-in_range r.type r c.args_checked dest_ok in
    (
      record {
        id_in = omega (arith, c.id_checked);
        args_in = args_in;
        short = rw c.delay_kept short;
      },
      allowed,
    )
