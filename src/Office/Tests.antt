-- ===== src/Office/Tests.antt =====
-- Runs of `manageRequest` and its handlers on the sample bank.
use sope.Prelude.{◌⊎◌, ◌≢◌, ◌+◌, ◌≡◌, refl, [], some, arith, inl}
use sope.Samples.{path, path_of_1234, toy_env, toy_Sha256, start, start-IsSound, pay, open_account}
use sope.Types.{TlvReply, rc_ok, op_create_account, transfer}
use sope.State.{Server, done}
use sope.Accounts.Salt.{new_salt}
use sope.Office.Handlers.{handle_transfer_request, num_active}
use sope.Office.Manage.{manage_request}
use sope.Office.Sound.{bank, IsSound, total_funds}
use sope.Office.Spec.{serve}
use sope.Office.Serves.{IsRequest}
use sope.Office.Refine.{Refines, manage_request-Refines}
use sope.Office.Invariant.{deposited}
use sope.Office.Keeps.{manage_request-Keeps}
use sope.Office.Transfer.{MayTransfer, Applies, IsFirst}
use sope.Office.Transfer.First.{handle_transfer_request-IsFirst}
use sope.Office.Transfer.Money.{Transferred, handle_transfer_request-Transferred}

pay-IsRequest : IsRequest pay
pay-IsRequest = record { id_in = omega arith; args_in = omega arith; short = inl (omega arith) }

open_account-IsRequest : IsRequest open_account
open_account-IsRequest = record {
  id_in = omega arith;
  args_in = omega arith;
  short = inl (omega arith);
}

pay-MayTransfer : MayTransfer start pay
pay-MayTransfer = record { src_in = omega arith; dest_in = omega arith; src_used = refl }

manage_request-Refines_example : Refines toy_env toy_Sha256 pay 3 start path
manage_request-Refines_example =
    manage_request-Refines toy_env toy_Sha256 pay 3 start path start-IsSound refl pay-IsRequest
      path_of_1234 (λ n. refl)

manage_request-Keeps_example :
    let reply =
      (serve toy_Sha256.sha256
        (new_salt toy_env 64)
        (num_active start.active_offices)
        (bank start)
        open_account).0 in
    (s' : Server) × (manage_request toy_env open_account 3 start ≡ done tt s')
    × (s'.account_mutexes ≡ [])
    × IsSound (bank s')
    × (total_funds (bank s')
        ≡ total_funds (bank start) + deposited op_create_account open_account reply)
manage_request-Keeps_example =
    manage_request-Keeps toy_env toy_Sha256 open_account 3 start path start-IsSound refl
      open_account-IsRequest (omega arith) path_of_1234 (λ n. refl)

handle_transfer_request-IsFirst_example :
    (reply : TlvReply) × (s' : Server) × (handle_transfer_request pay 3 start ≡ done reply s')
    × IsFirst (Applies start 2 (transfer pay.value)) reply.value.header.ret_code
handle_transfer_request-IsFirst_example =
    handle_transfer_request-IsFirst pay 3 start start-IsSound pay-MayTransfer

handle_transfer_request-Transferred_example :
    (reply : TlvReply) × (s' : Server) × (handle_transfer_request pay 3 start ≡ done reply s')
    × (((reply.value.header.ret_code ≡ rc_ok)
          × Transferred start 2 (transfer pay.value) s'
          × (reply.value.word ≡ some (s'.accounts 2).balance))
        ⊎ ((reply.value.header.ret_code ≢ rc_ok) × (s' ≡ start)))
    × (total_funds (bank s') ≡ total_funds (bank start))
    × IsSound (bank s')
handle_transfer_request-Transferred_example =
    handle_transfer_request-Transferred pay start start-IsSound pay-MayTransfer 3
