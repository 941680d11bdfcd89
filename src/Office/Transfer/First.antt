-- ===== src/Office/Transfer/First.antt =====
-- Which code `handleTransferRequest` answers.
use sope.Prelude.{ℕ, ◌≡◌, refl, inl, inr}
use sope.Types.{TlvRequest, TlvReply, transfer}
use sope.State.{Server, done}
use sope.Reply.{make_transfer_reply}
use sope.Office.Sound.{bank, IsSound}
use sope.Office.Handlers.{handle_transfer_request}
use sope.Office.Transfer.{
  MayTransfer, Applies, IsFirst, handle_transfer_request-eq, code-Applies, code-first,
}

-- In a well-formed bank, with both ids in range and the source in use, a transfer returns, and its
-- answer has the first code of the enumeration that applies: not
-- allowed, no such account, same account, no funds, too high, in this order; it is `rc_ok` exactly
-- where none applies. (For no funds, that the amount exceeds the balance.)
pub handle_transfer_request-IsFirst :
    (request : TlvRequest) (thread : ℕ) (s : Server)
    → IsSound (bank s)
    → MayTransfer s request
    → (reply : TlvReply) × (s' : Server) × (handle_transfer_request request thread s
        ≡ done reply s')
      × IsFirst
          (Applies s request.value.header.account_id (transfer request.value))
          reply.value.header.ret_code
unfolding make_transfer_reply
handle_transfer_request-IsFirst request thread s v m =
    elim (handle_transfer_request-eq request thread s v m) [
      | inl (_, e) ↦ (_, _, e, (code-Applies request s v m, code-first request s v m))
      | inr (ok, e) ↦
          (_, _, e, ((λ h. absurd (h refl)), λ c a. absurd ((code-first request s v m c a).0 ok)))
    ]
