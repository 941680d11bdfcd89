-- ===== src/Office/Manage.antt =====
-- PROJ2/src/bankoffice.c: `sendReply` and `manageRequest`.
use sope.Prelude.{ℕ, ◌+◌, none, some, Text, if◌then◌else◌}
use sope.Types.{
  TlvRequest, TlvReply, RetCode, rc_usr_down, OpType, op_create_account, op_balance, op_transfer,
  op_shutdown, op_max_number, op_unknown, transfer,
}
use sope.State.{Env, reply_logged, sent, done, exited, fault, M, pure, emit, ◌>>=◌, ◌>>◌}
use sope.Fifo.{get_user_fifo_path}
use sope.Accounts.{lock_account, unlock_account}
use sope.Office.Access.{get_single_account_access, get_double_account_access, unlock_double_account}
use sope.Office.Handlers.{
  validate_account, handle_create_account_request, handle_balance_request, handle_transfer_request,
  handle_shutdown_request,
}

-- `getUserFifoPath(pid)`; writing past its buffer is a fault.
abbrev pub user_fifo_path_of : ℕ → M Text
user_fifo_path_of pid s = elim (get_user_fifo_path pid) [ none ↦ fault | some path ↦ done path s ]

abbrev pub with_code : TlvReply → RetCode → TlvReply
with_code reply code = record reply {
  value = record {
    header = record { account_id = reply.value.header.account_id; ret_code = code };
    word = reply.value.word;
  };
}

module _ (env : Env) where
  unfoldable pub send_reply : TlvReply → Text → ℕ → M (Unit {0})
  send_reply reply user_fifo_path thread s =
      let n = s.sends in
      let s' = record s { sends = n + 1 } in
      if env.fifo_opens n
      then if env.fifo_writes n
        then (do emit (sent user_fifo_path reply); emit (reply_logged thread reply)) s'
        else exited 1
      else emit (reply_logged thread (with_code reply rc_usr_down)) s'

  -- The `switch` of `manageRequest`: locks, operation, unlocks, and the reply. In the cases that
  -- make no reply, the one that is sent was never written.
  unfoldable pub serve_request : OpType → TlvRequest → ℕ → M TlvReply
  serve_request op_create_account request thread = do
    get_single_account_access request.value.create.account_id request.value.header.op_delay_ms
        thread
    reply ← handle_create_account_request env request thread
    unlock_account request.value.create.account_id thread
    pure reply
  serve_request op_balance request thread = do
    get_single_account_access request.value.header.account_id request.value.header.op_delay_ms
        thread
    reply ← handle_balance_request request thread
    unlock_account request.value.header.account_id thread
    pure reply
  serve_request op_transfer request thread = do
    get_double_account_access request.value.header.account_id (transfer request.value).account_id
        request.value.header.op_delay_ms thread
    reply ← handle_transfer_request request thread
    unlock_double_account request.value.header.account_id (transfer request.value).account_id thread
    pure reply
  serve_request op_shutdown request thread = handle_shutdown_request request thread
  serve_request op_max_number request thread = λ s. fault
  serve_request (op_unknown n) request thread = λ s. fault

  unfoldable pub manage_request : TlvRequest → ℕ → M (Unit {0})
  manage_request request thread = do
    user_fifo_path ← user_fifo_path_of request.value.header.pid
    lock_account request.value.header.account_id thread
    refused ← validate_account env request
    unlock_account request.value.header.account_id thread
    elim refused [
      | some reply ↦ send_reply reply user_fifo_path thread
      | none ↦ do
        reply ← serve_request request.type request thread
        send_reply reply user_fifo_path thread
    ]
