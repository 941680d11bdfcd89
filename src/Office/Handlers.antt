-- ===== src/Office/Handlers.antt =====
-- PROJ2/src/bankoffice.c: the login check and the handlers of the four operations.
use sope.Prelude.{
  ℕ, ◌+◌, ◌-◌, Bool, false, List, [], ◌∷◌, Option, none, some, str_eq, ◌==◌, ltb, if◌then◌else◌,
}
use sope.Prelude.Array.{update}
use sope.Types.{
  ReqTransfer, TlvRequest, TlvReply, RetCode, rc_ok, rc_login_fail, rc_op_nallow, rc_id_in_use,
  rc_id_not_found, rc_same_id, rc_no_funds, rc_too_high, transfer, admin_account_id, max_balance,
  u32, u32_mod,
}
use sope.State.{Env, fifo_closed, done, fault, M, pure, emit, ◌>>=◌, ◌>>◌}
use sope.Reply.{
  make_error_reply, make_shutdown_reply, make_balance_reply, make_transfer_reply, make_create_reply,
}
use sope.Accounts.{get_account, load_account, generate_hash, create_account}
use sope.Office.Access.{op_delay_shutdown}

-- `numActiveOffices` over the array
abbrev pub num_active : List Bool → ℕ
num_active [] = 0
num_active (b ∷ bs) = (if b then 1 else 0) + num_active bs

unfoldable pub get_num_active_offices : M ℕ
get_num_active_offices s = done (num_active s.active_offices) s

-- `account->balance = balance`
abbrev pub store_balance : ℕ → ℕ → M (Unit {0})
store_balance p balance s =
    done tt
      (record s { accounts = update s.accounts p (record (s.accounts p) { balance = balance }) })

module _ (env : Env) where
  -- The result is `none` for a valid account, else the reply that refuses the request. strcmp gets
  -- a null pointer where there is no hash.
  unfoldable pub validate_account : TlvRequest → M (Option TlvReply)
  validate_account request = do
    account ← get_account request.value.header.account_id
    elim account [
      | none ↦ pure (some (make_error_reply rc_id_not_found request))
      | some p ↦ do
        found ← load_account p
        hash ← generate_hash env request.value.header.password found.salt
        elim hash [
          | none ↦ λ s. fault
          | some h ↦
              if str_eq h found.hash
              then pure none
              else pure (some (make_error_reply rc_login_fail request))
        ]
    ]

  unfoldable pub handle_create_account_request : TlvRequest → ℕ → M TlvReply
  handle_create_account_request request thread =
      let account_id = request.value.header.account_id in
      let new_acc_id = request.value.create.account_id in
      if account_id == admin_account_id
      then (do
        existing ← get_account new_acc_id
        elim existing [
          | some p ↦ pure (make_error_reply rc_id_in_use request)
          | none ↦ do
            create_account env new_acc_id request.value.create.balance request.value.create.password
                thread
            pure (make_create_reply account_id)
        ])
      else pure (make_error_reply rc_op_nallow request)

-- `destAccount->balance += amount`, after the other account has been written
abbrev pub add_to_balance : ℕ → ℕ → M (Unit {0})
add_to_balance p amount = do
  account ← load_account p
  store_balance p (u32 (account.balance + amount))

-- `srcAccount->balance -= amount`
abbrev pub take_from_balance : ℕ → ℕ → M (Unit {0})
take_from_balance p amount = do
  account ← load_account p
  store_balance p (u32 (account.balance + u32_mod - amount))

-- `makeTransferReply(srcAccount->account_id, srcAccount->balance, code)`
abbrev pub transfer_reply : ℕ → RetCode → M TlvReply
transfer_reply src_account code = do
  src ← load_account src_account
  pure (make_transfer_reply src.account_id src.balance code)

-- `handleTransferRequest` from its test for a null destination on
abbrev pub transfer_to : ReqTransfer → ℕ → Option ℕ → M TlvReply
transfer_to req src_account none = transfer_reply src_account rc_id_not_found
transfer_to req src_account (some dest_account) = do
  src ← load_account src_account
  dest ← load_account dest_account
  if dest.account_id == admin_account_id
      then transfer_reply src_account rc_op_nallow
      else if src.account_id == req.account_id
      then transfer_reply src_account rc_same_id
      else if ltb src.balance req.amount
      then transfer_reply src_account rc_no_funds
      else if ltb max_balance (u32 (dest.balance + req.amount))
      then transfer_reply src_account rc_too_high
      else do
        take_from_balance src_account req.amount
        add_to_balance dest_account req.amount
        transfer_reply src_account rc_ok

unfoldable pub handle_transfer_request : TlvRequest → ℕ → M TlvReply
handle_transfer_request request thread = do
  src_account ← get_account request.value.header.account_id
  dest_account ← get_account (transfer request.value).account_id
  elim src_account [
    | none ↦ λ s. fault
    | some p ↦ do
      src ← load_account p
      if src.account_id == admin_account_id
          then transfer_reply p rc_op_nallow
          else transfer_to (transfer request.value) p dest_account
  ]

-- fchmod and close on the server's end of its FIFO, `shutdownFD`
abbrev pub close_fifo : M (Unit {0})
close_fifo s = emit fifo_closed (record s { fifo_open = false })

unfoldable pub handle_shutdown_request : TlvRequest → ℕ → M TlvReply
unfolding op_delay_shutdown get_num_active_offices
handle_shutdown_request request thread = do
  op_delay_shutdown request.value.header.op_delay_ms thread
  if request.value.header.account_id == admin_account_id
      then (do
        close_fifo
        active ← get_num_active_offices
        pure (make_shutdown_reply request.value.header.account_id active))
      else pure (make_error_reply rc_op_nallow request)

unfoldable pub handle_balance_request : TlvRequest → ℕ → M TlvReply
handle_balance_request request thread =
    if request.value.header.account_id == admin_account_id
    then pure (make_error_reply rc_op_nallow request)
    else do
      account ← get_account request.value.header.account_id
      elim account [
        | none ↦ λ s. fault
        | some p ↦ do
          found ← load_account p
          pure (make_balance_reply found.account_id found.balance)
      ]
