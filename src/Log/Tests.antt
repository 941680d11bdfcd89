-- ===== src/Log/Tests.antt =====
-- Log lines at concrete inputs.
use sope.Prelude.{◌≡◌, refl, ◌++◌, some, none, arith}
use sope.Prelude.Strings.{codes}
use sope.Types.{op_transfer, rc_no_funds, TlvReply}
use sope.Format.{decimal}
use sope.Samples.{pay}
use sope.Log.{printed, request_info, request_tail, log_request, reply_info, reply_tail, euro}
use sope.Log.Whole.{whole, log_request-whole}

log_request-whole_example :
    log_request 4096 1234 1 (some pay)
    ≡ whole (request_info 4096 1234 1 pay) (request_tail 4096 pay pay.type)
log_request-whole_example =
    log_request-whole 4096 (omega arith) 1234 1 pay (omega arith) (omega arith)

abbrev refused : TlvReply
refused = record {
  type = op_transfer;
  length = 12;
  value = record { header = record { account_id = 7; ret_code = rc_no_funds }; word = none };
}

reply_line :
    whole (reply_info 4096 1234 1234 refused) (reply_tail 4096 5 op_transfer)
    ≡ printed 65 (
        codes "R - 01234 - [ 12 bytes] 0007 TRANSFER     NO_FUNDS          5" ++ euro ++ codes "\n")
unfolding reply_info decimal
reply_line = refl
