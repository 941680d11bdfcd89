-- ===== src/Client/Delivery.antt =====
-- From the command lines of the users to the queue of the server: user.c (createRequest, sendRequest)
-- and server.c (readRequests).
use sope.Prelude.{ℕ, ◌<◌, ◌≡◌, refl, subst, sym, List, [], ◌∷◌, arith}
use sope.Types.{
  OpType, op_create_account, op_balance, op_transfer, op_shutdown, op_max_number, op_unknown,
  ReqCreateAccount, TlvRequest, u32_mod,
}
use sope.Client.{UserArgs, made, create_request}
use sope.Client.Checks.{ArgsChecked, create_request-IsChecked}
use sope.Wire.{Bytes, receive_requests, received}
use sope.Wire.Words.{NoZero}
use sope.Wire.Stream.{ArgsFit, Fits, AllFit, AllSame, send_all, receive_requests-send_all}

-- A request that createRequest made of a user's arguments. These are ints and strings, and a string
-- has no zero byte inside.
pub record IsMade (r : TlvRequest) : Type 0 where
  pub junk : ReqCreateAccount
  pub pid : ℕ
  pub args : UserArgs
  pub is_made : create_request junk pid args ≡ made r
  pub pid_int : pid < u32_mod
  pub delay_int : args.delay_ms < u32_mod
  pub password : NoZero args.password
  pub new_password : r.type ≡ op_create_account → NoZero r.value.create.password

abbrev pub AllMade : List TlvRequest → Type 0
AllMade [] = Unit {0}
AllMade (r ∷ rs) = IsMade r × AllMade rs

ArgsChecked-ArgsFit :
    (op : OpType) (r : TlvRequest)
    → (op ≡ op_create_account → NoZero r.value.create.password)
    → ArgsChecked op r
    → ArgsFit op r
ArgsChecked-ArgsFit op_create_account r n (len, id_low, id_high, low, high, short, long) = (
  len,
  record {
    account_id = omega (arith, id_high);
    balance = omega (arith, high);
    password = (n refl, long);
  },
)
ArgsChecked-ArgsFit op_transfer r n (len, id_low, id_high, low, high) =
    (len, omega (arith, id_high), omega (arith, high))
ArgsChecked-ArgsFit op_balance r n len = len
ArgsChecked-ArgsFit op_shutdown r n len = len
ArgsChecked-ArgsFit op_max_number r n a = a
ArgsChecked-ArgsFit (op_unknown k) r n a = a

IsMade-Fits : (r : TlvRequest) → IsMade r → Fits r
IsMade-Fits r m =
    let c = create_request-IsChecked m.junk m.pid m.args r m.is_made in
    (
      record {
        pid = omega (arith, c.sender.0, m.pid_int);
        account_id = omega (arith, c.id_checked);
        delay = omega (arith, c.delay_kept, m.delay_int);
        password = (subst NoZero (sym c.login.0) m.password, c.login.1);
      },
      ArgsChecked-ArgsFit r.type r m.new_password c.args_checked,
    )

AllMade-AllFit : (rs : List TlvRequest) → AllMade rs → AllFit rs
AllMade-AllFit [] m = tt
AllMade-AllFit (r ∷ rs) m = (IsMade-Fits r m.0, AllMade-AllFit rs m.1)

-- Whatever command lines the users give: the requests that createRequest makes of them, sent one
-- behind the other, are what readRequests puts into the queue, in the same order, with the same type,
-- length, header and arguments of the operation.
pub receive_requests-AllMade :
    (noise : ℕ) (old : ℕ → Bytes × Bytes) (rs : List TlvRequest)
    → AllMade rs
    → (rs' : List TlvRequest) × (receive_requests old (send_all noise rs) ≡ received rs')
      × AllSame rs rs'
receive_requests-AllMade noise old rs m =
    receive_requests-send_all noise old rs (AllMade-AllFit rs m)
