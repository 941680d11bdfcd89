-- ===== src/Office/Invariant.antt =====
-- What a request keeps: the well-formed accounts, and the money but for deposits.
use sope.Prelude.{ℕ, ◌+◌, ◌-◌, ◌≤◌, ◌<◌, ◌≡◌, ◌≢◌, true, false, arith, if◌then◌else◌}
use sope.Prelude.Array.{sum_below-change}
use sope.Types.{
  BankAccount, ReqTransfer, TlvRequest, TlvReply, rc_ok, OpType, op_create_account,
  max_bank_accounts, max_balance,
}
use sope.Office.Sound.{Bank, IsSound, funds, total_funds}
use sope.Office.Spec.{transfer_verdict, make_transfer, first_code, put_account, put_balance, is_ok}

module _ (b : Bank) (src : ℕ) (req : ReqTransfer) (v : IsSound b)
    (ok : transfer_verdict b src req ≡ rc_ok) where
  abbrev dest : ℕ
  dest = req.account_id

  pub verdict_ok :
      (src ≢ dest)
      × (b.used_accounts dest ≡ true)
      × (req.amount ≤ (b.accounts src).balance)
      × ((b.accounts dest).balance + req.amount ≤ max_balance)
  unfolding transfer_verdict first_code
  verdict_ok = ground arith

  pub make_transfer-IsSound : IsSound (make_transfer b src req)
  unfolding make_transfer
  make_transfer-IsSound = record {
    admin = v.admin;
    named = λ i u. ground (arith, v.named i u);
    bounded = λ i u. ground (arith, v.bounded i, v.bounded src, verdict_ok);
  }

  -- the bank between the two writes
  abbrev halfway : Bank
  halfway = put_balance b src ((b.accounts src).balance - req.amount)

  pub total_funds-make_transfer :
      src < max_bank_accounts
      → dest < max_bank_accounts
      → b.used_accounts src ≡ true
      → total_funds (make_transfer b src req) ≡ total_funds b
  unfolding make_transfer total_funds
  total_funds-make_transfer src_in dest_in used = omega (
    arith,
    verdict_ok,
    sum_below-change (funds halfway) (funds b) src (λ j h. ground arith) max_bank_accounts src_in,
    sum_below-change (funds (put_balance halfway dest ((b.accounts dest).balance + req.amount)))
        (funds halfway) dest (λ j h. ground arith) max_bank_accounts dest_in,
    at_src,
    at_dest,
  )
    where
      at_src :
          (funds b src ≡ (b.accounts src).balance)
          × (funds halfway src ≡ (b.accounts src).balance - req.amount)
      at_src = ground arith

      at_dest :
          (funds halfway dest ≡ (b.accounts dest).balance)
          × (funds (put_balance halfway dest ((b.accounts dest).balance + req.amount)) dest
              ≡ (b.accounts dest).balance + req.amount)
      at_dest = ground (arith, verdict_ok)

module _ (b : Bank) (id : ℕ) (account : BankAccount) where
  pub put_account-IsSound :
      IsSound b
      → account.account_id ≡ id
      → account.balance ≤ max_balance
      → IsSound (put_account b id account)
  put_account-IsSound v named bounded = record {
    admin = ground (arith, v.admin);
    named = λ i u. ground (arith, v.named i);
    bounded = λ i u. ground (arith, v.bounded i);
  }

  pub total_funds-put_account :
      id < max_bank_accounts
      → b.used_accounts id ≡ false
      → total_funds (put_account b id account) ≡ total_funds b + account.balance
  unfolding total_funds
  total_funds-put_account inside fresh = omega (
    arith,
    sum_below-change (funds (put_account b id account)) (funds b) id (λ j h. ground arith)
        max_bank_accounts inside,
    here,
  )
    where
      here : (funds b id ≡ 0) × (funds (put_account b id account) id ≡ account.balance)
      here = ground arith

-- The money that a request brings into the bank, by the reply to it.
abbrev pub deposited : OpType → TlvRequest → TlvReply → ℕ
deposited op_create_account r reply =
    if is_ok reply.value.header.ret_code then r.value.create.balance else 0
deposited _ r reply = 0

-- The balance of an account to be created is one that the protocol allows.
abbrev pub BalanceAllowed : TlvRequest → OpType → Type 0
BalanceAllowed r op_create_account = r.value.create.balance ≤ max_balance
BalanceAllowed r _ = Unit {0}

-- The bank stays sound, and holds what it held and the deposit.
abbrev pub Keeps : OpType → TlvRequest → Bank → TlvReply × Bank → Type 0
Keeps op r b out = IsSound out.1 × (total_funds out.1 ≡ total_funds b + deposited op r out.0)
