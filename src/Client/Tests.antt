-- ===== src/Client/Tests.antt =====
-- Requests of sample command lines.
use sope.Prelude.{◌≡◌, inl, refl, List, [], ◌∷◌, replicate, arith}
use sope.Types.{ReqCreateAccount, TlvRequest, op_transfer}
use sope.Libc.{atoi, strtok, digits_value}
use sope.Office.Invariant.{BalanceAllowed}
use sope.Office.Serves.{IsRequest}
use sope.Client.{UserArgs, made, overflow, make_req_header, make_transfer_req, create_request}
use sope.Client.Checks.{IsChecked, create_request-IsChecked, create_request-IsRequest}
use sope.Client.Delivery.{IsMade, receive_requests-AllMade}
use sope.Wire.{receive_requests, received}
use sope.Wire.Stream.{AllSame, send_all}
use sope.Samples.{secret}

abbrev junk : ReqCreateAccount
junk = record { account_id = 9; balance = 9; password = [] }

-- transfer of 30 to account 1: opcode 2, arguments "1 30"
abbrev pay_args : UserArgs
pay_args = record {
  id = 2;
  password = secret;
  delay_ms = 5;
  opcode = 2;
  args = b'1' ∷ b' ' ∷ b'3' ∷ b'0' ∷ [];
}

abbrev paid : TlvRequest
paid = record {
  type = op_transfer;
  length = 41;
  value = record {
    header = record { pid = 1234; account_id = 2; password = secret; op_delay_ms = 5 };
    create = record { account_id = 1; balance = 30; password = [] };
  };
}

pay_args-made : create_request junk 1234 pay_args ≡ made paid
unfolding create_request make_req_header make_transfer_req strtok atoi digits_value
pay_args-made = refl

-- a balance check with a password of 21 bytes
abbrev long_args : UserArgs
long_args = record { id = 1; password = replicate 21 b'x'; delay_ms = 0; opcode = 1; args = [] }

long_args-overflow : create_request junk 1234 long_args ≡ overflow
unfolding create_request make_req_header
long_args-overflow = refl

create_request-IsChecked_example : IsChecked 1234 pay_args paid
create_request-IsChecked_example = create_request-IsChecked junk 1234 pay_args paid pay_args-made

create_request-IsRequest_example : IsRequest paid × BalanceAllowed paid op_transfer
create_request-IsRequest_example =
    create_request-IsRequest junk 1234 pay_args paid pay_args-made (omega arith)
      (λ b n. omega arith) (inl (omega arith))

paid-IsMade : IsMade paid
paid-IsMade = record {
  junk = junk;
  pid = 1234;
  args = pay_args;
  is_made = pay_args-made;
  pid_int = omega arith;
  delay_int = omega arith;
  password = ground arith;
  new_password = λ e. cc;
}

receive_requests-AllMade_example :
    (rs : List TlvRequest) × (receive_requests
        (λ k. (replicate 8 k, []))
        (send_all 7 (paid ∷ paid ∷ []))
      ≡ received rs)
    × AllSame (paid ∷ paid ∷ []) rs
receive_requests-AllMade_example =
    receive_requests-AllMade 7 (λ k. (replicate 8 k, [])) (paid ∷ paid ∷ [])
      (paid-IsMade, (paid-IsMade, tt))
