-- ===== src/Office/Transfer.antt =====
-- The branches of `handleTransferRequest` as a code and a state.
pub mod Money
pub mod First
use sope.Prelude.{
  ℕ, ◌+◌, ◌-◌, ◌%◌, ◌^◌, ◌≤◌, ◌<◌, ◌≡◌, ◌≢◌, ◌⊎◌, inl, inr, refl, Bool, true, false, Option, none,
  some, arith, ◌==◌, ltb, if◌then◌else◌,
}
use sope.Prelude.Array.{update}
use sope.Types.{
  BankAccount, ReqTransfer, TlvRequest, TlvReply, RetCode, rc_ok, rc_srv_down, rc_srv_timeout,
  rc_usr_down, rc_login_fail, rc_op_nallow, rc_id_in_use, rc_id_not_found, rc_same_id, rc_no_funds,
  rc_too_high, rc_other, ret_code_value, transfer, admin_account_id, max_bank_accounts, max_balance,
  u32, u32_mod,
}
use sope.Reply.{make_transfer_reply}
use sope.State.{Server, Outcome, done}
use sope.Accounts.{get_account}
use sope.Office.Sound.{bank, IsSound}
use sope.Office.Handlers.{handle_transfer_request}

-- The code of the answer, for a source account that exists.
unfoldable pub transfer_code : Server → ℕ → ReqTransfer → RetCode
transfer_code s src req =
    if (s.accounts src).account_id == admin_account_id
    then rc_op_nallow
    else if s.used_accounts req.account_id
    then if (s.accounts req.account_id).account_id == admin_account_id
      then rc_op_nallow
      else if (s.accounts src).account_id == req.account_id
      then rc_same_id
      else if ltb (s.accounts src).balance req.amount
      then rc_no_funds
      else if ltb max_balance (u32 ((s.accounts req.account_id).balance + req.amount))
      then rc_too_high
      else rc_ok
    else rc_id_not_found

-- The accounts after the two assignments to balances.
abbrev debited : Server → ℕ → ReqTransfer → BankAccount
debited s src req = record (s.accounts src) {
  balance = u32 ((s.accounts src).balance + u32_mod - req.amount);
}

abbrev credited : Server → ReqTransfer → BankAccount
credited s req = record (s.accounts req.account_id) {
  balance = u32 ((s.accounts req.account_id).balance + req.amount);
}

unfoldable pub moved : Server → ℕ → ReqTransfer → Server
moved s src req = record s {
  accounts = update (update s.accounts src (debited s src req)) req.account_id (credited s req);
}

abbrev pub answer : Server → ℕ → RetCode → TlvReply
answer s src code = make_transfer_reply (s.accounts src).account_id (s.accounts src).balance code

-- A state in which the transfer that `request` asks for may be handled: the ids are in range, and
-- the source is in use.
pub record MayTransfer (s : Server) (request : TlvRequest) : Type 0 where
  pub src_in : request.value.header.account_id < max_bank_accounts
  pub dest_in : (transfer request.value).account_id < max_bank_accounts
  pub src_used : s.used_accounts request.value.header.account_id ≡ true

pub handle_transfer_request-eq :
    (request : TlvRequest) (thread : ℕ) (s : Server)
    → IsSound (bank s)
    → MayTransfer s request
    → let src = request.value.header.account_id in
      let req = transfer request.value in
      (transfer_code s src req ≢ rc_ok
        × (handle_transfer_request request thread s
            ≡ done (answer s src (transfer_code s src req)) s))
      ⊎ (transfer_code s src req ≡ rc_ok
          × (handle_transfer_request request thread s
              ≡ done (answer (moved s src req) src rc_ok) (moved s src req)))
unfolding handle_transfer_request transfer_code moved get_account
handle_transfer_request-eq request thread s v m =
    ground (arith, v.named request.value.header.account_id, v.named request.value.create.account_id)

-- When the comments of types.h say that a code applies to a transfer.
abbrev pub Applies : Server → ℕ → ReqTransfer → RetCode → Type 0
Applies s src req rc_op_nallow = (src ≡ admin_account_id) ⊎ (req.account_id ≡ admin_account_id)
Applies s src req rc_id_not_found = s.used_accounts req.account_id ≡ false
Applies s src req rc_same_id = src ≡ req.account_id
Applies s src req rc_no_funds = (s.accounts src).balance < req.amount
Applies s src req rc_too_high = max_balance < (s.accounts req.account_id).balance + req.amount
Applies s src req _ = ⊥

-- The code is the first in the enumeration's order that applies, and `rc_ok` if none does.
abbrev pub IsFirst : (RetCode → Type 0) → RetCode → Type 0
IsFirst P code =
    (code ≢ rc_ok → P code)
    × ((c : RetCode) → P c → (code ≢ rc_ok) × (ret_code_value code ≤ ret_code_value c))

module _ (request : TlvRequest) (s : Server) (v : IsSound (bank s))
    (m : MayTransfer s request) where
  abbrev src : ℕ
  src = request.value.header.account_id

  abbrev req : ReqTransfer
  req = transfer request.value

  pub code-Applies : transfer_code s src req ≢ rc_ok → Applies s src req (transfer_code s src req)
  unfolding transfer_code
  code-Applies h =
      ground (arith, v.named src, v.named req.account_id, v.bounded src, v.bounded req.account_id)

  pub code-first :
      (c : RetCode)
      → Applies s src req c
      → (transfer_code s src req ≢ rc_ok)
        × (ret_code_value (transfer_code s src req) ≤ ret_code_value c)
  unfolding transfer_code ret_code_value
  code-first rc_op_nallow a = ground (arith, v.admin, v.named src, v.named req.account_id)
  code-first rc_id_not_found a = ground (arith, v.admin, v.named src, v.named req.account_id)
  code-first rc_same_id a = ground (arith, v.named src, v.named req.account_id)
  code-first rc_no_funds a = ground (arith, v.named src, v.named req.account_id)
  code-first rc_too_high a =
      ground (arith, v.named src, v.named req.account_id, v.bounded src, v.bounded req.account_id)
  code-first c a = elim a [ ]

  -- what a finished transfer does: the two balances move by the amount, and nothing else changes
  pub moved_balances :
      transfer_code s src req ≡ rc_ok
      → ((debited s src req).balance + req.amount ≡ (s.accounts src).balance)
        × ((credited s req).balance ≡ (s.accounts req.account_id).balance + req.amount)
        × ((credited s req).balance ≤ max_balance)
        × (src ≢ req.account_id)
        × (s.used_accounts req.account_id ≡ true)
  unfolding transfer_code
  moved_balances h =
      ground (arith, v.named src, v.named req.account_id, v.bounded src, v.bounded req.account_id)
