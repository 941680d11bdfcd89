-- ===== src/Office/Spec.antt =====
-- What the bank does with a request, as one step: no locks, no delays, no pointers, and sums of
-- true numbers. The first refusal that applies decides, in the order of `ret_code_t`, but that a
-- login to an account which does not exist gives `rc_id_not_found`.
use sope.Prelude.{
  ℕ, ◌+◌, ◌-◌, Bool, true, false, not, ◌||◌, List, [], ◌∷◌, ◌++◌, Text, str_eq, ◌==◌, ltb,
  if◌then◌else◌,
}
use sope.Prelude.Array.{update}
use sope.Types.{
  BankAccount, ReqTransfer, TlvRequest, TlvReply, RetCode, rc_ok, rc_login_fail, rc_op_nallow,
  rc_id_in_use, rc_id_not_found, rc_same_id, rc_no_funds, rc_too_high, OpType, op_create_account,
  op_balance, op_transfer, op_shutdown, transfer, admin_account_id, max_balance,
}
use sope.Reply.{
  make_error_reply, make_shutdown_reply, make_balance_reply, make_transfer_reply, make_create_reply,
}
use sope.Office.Sound.{Bank}

-- The code of the first reason that holds.
unfoldable pub first_code : List (Bool × RetCode) → RetCode
first_code [] = rc_ok
first_code ((holds, code) ∷ reasons) = if holds then code else first_code reasons

abbrev pub put_account : Bank → ℕ → BankAccount → Bank
put_account b id account = record b {
  accounts = update b.accounts id account;
  used_accounts = update b.used_accounts id true;
}

abbrev pub put_balance : Bank → ℕ → ℕ → Bank
put_balance b id balance = record b {
  accounts = update b.accounts id (record (b.accounts id) { balance = balance });
}

abbrev pub is_ok : RetCode → Bool
is_ok rc_ok = true
is_ok _ = false

unfoldable pub transfer_verdict : Bank → ℕ → ReqTransfer → RetCode
transfer_verdict b src req = first_code (
    (src == admin_account_id || req.account_id == admin_account_id, rc_op_nallow)
    ∷ (not (b.used_accounts req.account_id), rc_id_not_found)
    ∷ (src == req.account_id, rc_same_id)
    ∷ (ltb (b.accounts src).balance req.amount, rc_no_funds)
    ∷ (ltb max_balance ((b.accounts req.account_id).balance + req.amount), rc_too_high)
    ∷ [])

unfoldable pub make_transfer : Bank → ℕ → ReqTransfer → Bank
make_transfer b src req =
    put_balance (put_balance b src ((b.accounts src).balance - req.amount)) req.account_id
      ((b.accounts req.account_id).balance + req.amount)

-- `sha256` is the hash, `salt` the salt of an account that is made, and `active` the number of
-- offices at work.
module _ (sha256 : Text → Text) (salt : Text) (active : ℕ) where
  unfoldable pub perform : OpType → Bank → TlvRequest → TlvReply × Bank
  perform op_create_account b r =
      let id = r.value.header.account_id in
      let new = r.value.create in
      if id == admin_account_id
      then if b.used_accounts new.account_id then (make_error_reply rc_id_in_use r, b) else (
        make_create_reply id,
        put_account b new.account_id (record {
          account_id = new.account_id;
          hash = sha256 (new.password ++ salt);
          salt = salt;
          balance = new.balance;
        }),
      )
      else (make_error_reply rc_op_nallow r, b)
  perform op_balance b r =
      let id = r.value.header.account_id in
      if id == admin_account_id
      then (make_error_reply rc_op_nallow r, b)
      else (make_balance_reply id (b.accounts id).balance, b)
  perform op_transfer b r =
      let id = r.value.header.account_id in
      let req = transfer r.value in
      let code = transfer_verdict b id req in
      let b' = make_transfer b id req in
      if is_ok code
      then (make_transfer_reply id (b'.accounts id).balance code, b')
      else (make_transfer_reply id (b.accounts id).balance code, b)
  perform op_shutdown b r =
      let id = r.value.header.account_id in
      if id == admin_account_id
      then (make_shutdown_reply id active, record b { fifo_open = false })
      else (make_error_reply rc_op_nallow r, b)
  perform _ b r = (make_error_reply rc_op_nallow r, b)

  unfoldable pub serve : Bank → TlvRequest → TlvReply × Bank
  serve b r =
      let account = b.accounts r.value.header.account_id in
      if b.used_accounts r.value.header.account_id
      then if str_eq (sha256 (r.value.header.password ++ account.salt)) account.hash
        then perform r.type b r
        else (make_error_reply rc_login_fail r, b)
      else (make_error_reply rc_id_not_found r, b)
