-- ===== src/Client/SessionTests.antt =====
-- A session of the user program at concrete inputs.
use sope.Prelude.{refl, true, false, some, inr, arith}
use sope.Types.{TlvReply, op_balance, rc_ok, rc_srv_down}
use sope.Reply.{reply_of, make_error_reply}
use sope.Wire.{send_reply_bytes}
use sope.Wire.Replies.{ReplyFits}
use sope.Samples.{pay}
use sope.Client.Session.{Calls, answered, unopened, session, EndsWith, session-EndsWith}

abbrev pub balance_100 : TlvReply
balance_100 = reply_of op_balance 2 rc_ok 12 (some 100)

pub balance_100-ReplyFits : ReplyFits balance_100
balance_100-ReplyFits = record {
  known_op = (tt, omega arith);
  account_id = omega arith;
  word = inr (refl, (100, omega arith, refl));
}

abbrev no_server : Calls
no_server = record {
  pid = 1234;
  mkfifo_works = true;
  server_opens = false;
  write_works = true;
  wait = unopened;
}

session-EndsWith_example : EndsWith (make_error_reply rc_srv_down pay) (session 7 no_server pay)
session-EndsWith_example =
    session-EndsWith 7 no_server (omega arith) refl pay (make_error_reply rc_srv_down pay) refl

abbrev pub with_server : Calls
with_server = record no_server {
  server_opens = true;
  wait = answered (send_reply_bytes 9 balance_100);
}
