-- ===== src/Reply.antt =====
-- PROJ2/src/replymaker.c: the constructors of replies.
-- An `int` parameter that receives a uint32_t and is stored in one keeps its 32 bits.
use sope.Prelude.{ℕ, ◌+◌, ◌-◌, Option, none, some}
use sope.Types.{
  OpType, op_create_account, op_balance, op_transfer, op_shutdown, op_unknown, RetCode, rc_ok,
  rc_other, TlvRequest, TlvReply, u32_mod, sizeof_rep_header, sizeof_rep_word,
}

-- -1 in a field of 32 bits
abbrev pub minus_one : ℕ
minus_one = u32_mod - 1

unfoldable pub new_reply : TlvReply
new_reply = record {
  type = op_unknown minus_one;
  length = minus_one;
  value = record { header = record { account_id = minus_one; ret_code = rc_other }; word = some 0 };
}

-- A reply whose union holds `w`, as the makers below build it.
abbrev pub reply_of : OpType → ℕ → RetCode → ℕ → Option ℕ → TlvReply
reply_of op account_id code n w = record {
  type = op;
  length = n;
  value = record { header = record { account_id = account_id; ret_code = code }; word = w };
}

unfoldable pub make_error_reply : RetCode → TlvRequest → TlvReply
unfolding new_reply
make_error_reply code request =
    reply_of request.type request.value.header.account_id code sizeof_rep_header
      new_reply.value.word

unfoldable pub make_shutdown_reply : ℕ → ℕ → TlvReply
make_shutdown_reply account_id active_offices =
    reply_of op_shutdown account_id rc_ok (sizeof_rep_header + sizeof_rep_word)
      (some active_offices)

unfoldable pub make_balance_reply : ℕ → ℕ → TlvReply
make_balance_reply account_id balance =
    reply_of op_balance account_id rc_ok (sizeof_rep_header + sizeof_rep_word) (some balance)

unfoldable pub make_transfer_reply : ℕ → ℕ → RetCode → TlvReply
make_transfer_reply account_id balance code =
    reply_of op_transfer account_id code (sizeof_rep_header + sizeof_rep_word) (some balance)

-- The union stays as the stack left it.
unfoldable pub make_create_reply : ℕ → TlvReply
make_create_reply account_id = reply_of op_create_account account_id rc_ok sizeof_rep_header none
