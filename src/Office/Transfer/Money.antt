-- ===== src/Office/Transfer/Money.antt =====
-- What `handleTransferRequest` does to the accounts: money moves, and none is made or lost.
use sope.Prelude.{ℕ, ◌+◌, ◌≡◌, ◌≢◌, ◌⊎◌, inl, inr, refl, some, arith}
use sope.Prelude.Array.{update, sum_below-change}
use sope.Types.{ReqTransfer, TlvRequest, TlvReply, rc_ok, transfer, max_bank_accounts}
use sope.Reply.{make_transfer_reply}
use sope.State.{Server, done}
use sope.Office.Sound.{bank, IsSound, funds, total_funds}
use sope.Office.Handlers.{handle_transfer_request}
use sope.Office.Transfer.{
  MayTransfer, transfer_code, moved, debited, credited, handle_transfer_request-eq, moved_balances,
}

-- The amount has gone from `src` to the account that the request names; of these two accounts
-- nothing but the balance has changed, and nothing of any other, or of the rest of the server.
pub record Transferred (s : Server) (src : ℕ) (req : ReqTransfer) (s' : Server) : Type 0 where
  pub distinct : src ≢ req.account_id
  pub paid : (s'.accounts src).balance + req.amount ≡ (s.accounts src).balance
  pub received :
      (s'.accounts req.account_id).balance ≡ (s.accounts req.account_id).balance + req.amount
  pub others : (i : ℕ) → s'.accounts i ≡ record (s.accounts i) { balance = (s'.accounts i).balance }
  pub untouched : (i : ℕ) → i ≢ src → i ≢ req.account_id → s'.accounts i ≡ s.accounts i
  pub rest : s' ≡ record s { accounts = s'.accounts }

module _ (request : TlvRequest) (s : Server) (v : IsSound (bank s))
    (m : MayTransfer s request) where
  abbrev src : ℕ
  src = request.value.header.account_id

  abbrev req : ReqTransfer
  req = transfer request.value

  module _ (ok : transfer_code s src req ≡ rc_ok) where
    moved-Transferred : Transferred s src req (moved s src req)
    unfolding moved
    moved-Transferred = record {
      distinct = (moved_balances request s v m ok).3;
      paid = ground (arith, moved_balances request s v m ok);
      received = ground (arith, moved_balances request s v m ok);
      others = λ i. ground arith;
      untouched = λ i p q. ground arith;
      rest = refl;
    }

    moved-IsSound : IsSound (bank (moved s src req))
    unfolding moved
    moved-IsSound = record {
      admin = v.admin;
      named = λ i u. ground (arith, v.named i u);
      bounded = λ i u. ground (arith, v.bounded i, moved_balances request s v m ok);
    }

    -- the state between the two assignments
    abbrev halfway : Server
    halfway = record s { accounts = update s.accounts src (debited s src req) }

    total_funds-moved : total_funds (bank (moved s src req)) ≡ total_funds (bank s)
    unfolding moved total_funds
    total_funds-moved = omega (
      arith,
      moved_balances request s v m ok,
      sum_below-change (funds (bank halfway)) (funds (bank s)) src (λ j h. ground arith)
          max_bank_accounts m.src_in,
      sum_below-change (funds (bank (moved s src req))) (funds (bank halfway)) req.account_id
          (λ j h. ground arith) max_bank_accounts m.dest_in,
      at_src,
      at_dest,
    )
      where
        at_src :
            (funds (bank s) src ≡ (s.accounts src).balance)
            × (funds (bank halfway) src ≡ (debited s src req).balance)
        at_src = ground (arith, m.src_used)

        at_dest :
            (funds (bank halfway) req.account_id ≡ (s.accounts req.account_id).balance)
            × (funds (bank (moved s src req)) req.account_id ≡ (credited s req).balance)
        at_dest = ground (arith, moved_balances request s v m ok)

  -- In a well-formed bank, with both ids in range and the source in use, a transfer returns. If its
  -- answer is `rc_ok` the amount has moved, and the answer gives the new
  -- balance of the source; else nothing has changed. In both cases the money in the bank is as
  -- much as before, and the accounts stay well formed.
  pub handle_transfer_request-Transferred :
      (thread : ℕ)
      → (reply : TlvReply) × (s' : Server) × (handle_transfer_request request thread s
          ≡ done reply s')
        × (((reply.value.header.ret_code ≡ rc_ok)
              × Transferred s src req s'
              × (reply.value.word ≡ some (s'.accounts src).balance))
            ⊎ ((reply.value.header.ret_code ≢ rc_ok) × (s' ≡ s)))
        × (total_funds (bank s') ≡ total_funds (bank s))
        × IsSound (bank s')
  unfolding make_transfer_reply
  handle_transfer_request-Transferred thread =
      elim (handle_transfer_request-eq request thread s v m) [
        | inl (refused, e) ↦ (_, _, e, inr (refused, refl), refl, v)
        | inr (ok, e) ↦ (
          _,
          _,
          e,
          inl (refl, moved-Transferred ok, refl),
          total_funds-moved ok,
          moved-IsSound ok,
        )
      ]
