-- ===== src/Wire/Tests.antt =====
-- Requests and a reply on their way.
use sope.Prelude.{ℕ, ◌≡◌, refl, List, [], ◌∷◌, inr, some, arith, replicate}
use sope.Types.{TlvRequest, TlvReply, op_balance, rc_ok}
use sope.Reply.{reply_of}
use sope.Wire.{Bytes, receive_requests, received, send_reply_bytes, read_reply}
use sope.Wire.Words.{NoZero}
use sope.Wire.Requests.{HeaderFits, CreateFits}
use sope.Wire.Stream.{AllFit, AllSame, send_all, receive_requests-send_all}
use sope.Wire.Replies.{SameReply, read_reply-send_reply_bytes}
use sope.Samples.{pay, open_account, secret}

-- a transfer in the form in which the user program sends it: 33 and 8 bytes
abbrev sent_pay : TlvRequest
sent_pay = record pay { length = 41 }

abbrev garbage : ℕ → Bytes × Bytes
garbage k = (replicate 8 k, replicate 62 k)

secret-NoZero : NoZero secret
secret-NoZero = ground arith

pay-HeaderFits : HeaderFits sent_pay.value.header
pay-HeaderFits = record {
  pid = omega arith;
  account_id = omega arith;
  delay = omega arith;
  password = (secret-NoZero, omega arith);
}

open_account-HeaderFits : HeaderFits open_account.value.header
open_account-HeaderFits = record {
  pid = omega arith;
  account_id = omega arith;
  delay = omega arith;
  password = (secret-NoZero, omega arith);
}

open_account-CreateFits : CreateFits open_account.value.create
open_account-CreateFits = record {
  account_id = omega arith;
  balance = omega arith;
  password = (secret-NoZero, omega arith);
}

both-AllFit : AllFit (sent_pay ∷ open_account ∷ [])
both-AllFit = (
  (pay-HeaderFits, (refl, omega arith, omega arith)),
  ((open_account-HeaderFits, (refl, open_account-CreateFits)), tt),
)

receive_requests-send_all_example :
    (rs' : List TlvRequest) × (receive_requests garbage (send_all 9 (sent_pay ∷ open_account ∷ []))
      ≡ received rs')
    × AllSame (sent_pay ∷ open_account ∷ []) rs'
receive_requests-send_all_example =
    receive_requests-send_all 9 garbage (sent_pay ∷ open_account ∷ []) both-AllFit

abbrev balance_100 : TlvReply
balance_100 = reply_of op_balance 2 rc_ok 12 (some 100)

read_reply-send_reply_bytes_example :
    (r' : TlvReply) × (read_reply (send_reply_bytes 9 balance_100) ≡ some r')
    × SameReply balance_100 r'
read_reply-send_reply_bytes_example = read_reply-send_reply_bytes 9 balance_100 (record {
  known_op = (tt, omega arith);
  account_id = omega arith;
  word = inr (refl, (100, omega arith, refl));
})
