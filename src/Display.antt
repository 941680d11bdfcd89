-- ===== src/Display.antt =====
-- What the programs print for a request and a reply: PROJ2/src/user.c (displayRequest, displayReply)
-- and PROJ2/src/server.c (displayRequest).
-- A return code outside its enumeration is left out.
pub mod Reading
pub mod Answer
mod Tests
use sope.Prelude.{ℕ, ◌-◌, ◌^◌, [], ◌∷◌, ◌++◌, Option, none, some, Text, ltb, if◌then◌else◌}
use sope.Prelude.Strings.{codes}
use sope.Types.{
  TlvRequest, TlvReply, OpType, op_create_account, op_balance, op_transfer, op_shutdown,
  op_max_number, op_unknown, transfer, RetCode, rc_ok, rc_srv_down, rc_srv_timeout, rc_usr_down,
  rc_login_fail, rc_op_nallow, rc_id_in_use, rc_id_not_found, rc_same_id, rc_no_funds, rc_too_high,
  rc_other,
}
use sope.Format.{decimal}
use sope.Log.{euro}

-- `%d` of an int, by its 32 bits
unfoldable pub int : ℕ → Text
int n = if ltb n (2 ^ 31) then decimal n else b'-' ∷ decimal (2 ^ 32 - n)

-- the switch of displayRequest in user.c
abbrev pub request_kind : TlvRequest → OpType → Text
request_kind r op_create_account =
    codes "Type: ACCOUNT CREATION\n - ID: "
    ++ int r.value.create.account_id
    ++ codes " | Password: \""
    ++ r.value.create.password
    ++ codes "\" | Initial Balance: "
    ++ int r.value.create.balance
    ++ euro
    ++ codes "\n"
request_kind r op_balance = codes "Type: BALANCE CHECK\n"
request_kind r op_transfer =
    codes "Type: ACCOUNT TRANSFER\n - ID: "
    ++ int (transfer r.value).account_id
    ++ codes " | Amount: "
    ++ int (transfer r.value).amount
    ++ euro
    ++ codes "\n"
request_kind r op_shutdown = codes "Type: SERVER SHUTDOWN\n"
request_kind r op_max_number = []
request_kind r (op_unknown n) = []

-- `displayRequest` of user.c
unfoldable pub display_request : TlvRequest → Text
display_request r =
    codes "\nSent request!\n - PID: "
    ++ int r.value.header.pid
    ++ codes " | Delay: "
    ++ int r.value.header.op_delay_ms
    ++ codes " | Message length: "
    ++ int r.length
    ++ codes "\n - Account ID: "
    ++ int r.value.header.account_id
    ++ codes " | Password: \""
    ++ r.value.header.password
    ++ codes "\"\n"
    ++ request_kind r r.type
    ++ codes "\n------------------\n"

-- the first switch of displayReply, without the newline of the line
unfoldable pub status : RetCode → Text
status rc_ok = codes "Status: OK"
status rc_srv_down = codes "Status: Server Down"
status rc_srv_timeout = codes "Status: Server Timeout - Did not get response from server"
status rc_usr_down = codes "Status: User Down - Could not connect with user."
status rc_login_fail = codes "Status: Login Fail - Account ID and password don't match."
status rc_op_nallow = codes "Status: Operation not allowed."
status rc_id_in_use = codes "Status: Account ID in use."
status rc_id_not_found = codes "Status: Account ID could not be found."
status rc_same_id = codes "Status: Sender and Receiver have the same ID."
status rc_no_funds = codes "Status: Sender has not enough funds."
status rc_too_high = codes "Status: Receiver would have too many funds."
status rc_other = codes "Status: Unexpected error."

-- the second switch, with the word of the reply
abbrev pub reply_kind : ℕ → OpType → Text
reply_kind word op_create_account = codes "Type: ACCOUNT CREATION\n"
reply_kind word op_balance =
    codes "Type: BALANCE CHECK\n - Balance: " ++ (int word ++ (euro ++ codes "\n"))
reply_kind word op_transfer =
    codes "Type: ACCOUNT TRANSFER\n - Balance: " ++ (int word ++ (euro ++ codes "\n"))
reply_kind word op_shutdown =
    codes "Type: SERVER SHUTDOWN\n - Number of active offices: " ++ (int word ++ codes "\n")
reply_kind word op_max_number = []
reply_kind word (op_unknown n) = []

-- the returns between the two switches
abbrev pub behind_status : Text → RetCode → Text
behind_status kind rc_ok = kind
behind_status kind _ = []

abbrev pub shown_word : ℕ → Option ℕ → ℕ
shown_word junk none = junk
shown_word junk (some w) = w

-- `displayReply`, which reads the account id of the request; `junk` is what the union holds if nothing
-- was written there.
unfoldable pub display_reply : (junk : ℕ) → TlvRequest → TlvReply → Text
display_reply junk request reply =
    let kind = reply_kind (shown_word junk reply.value.word) reply.type in
    let code = reply.value.header.ret_code in
    codes "\nReceived reply!\n - Message length: "
    ++ (int reply.length
        ++ (codes "\n - Account ID: "
            ++ (int request.value.header.account_id
                ++ (codes "\n" ++ (status code ++ (codes "\n" ++ behind_status kind code))))))

-- `displayRequest` of server.c
abbrev pub server_display_request : TlvRequest → Text
server_display_request r = elim r.type [
  | op_create_account ↦
      codes "Got create account request from PID " ++ int r.value.header.pid ++ codes "\n"
  | op_balance ↦ codes "Got balance request from PID " ++ int r.value.header.pid ++ codes "\n"
  | op_transfer ↦ codes "Got transfer request from PID " ++ int r.value.header.pid ++ codes "\n"
  | op_shutdown ↦ codes "Got shutdown request from PID " ++ int r.value.header.pid ++ codes "\n"
  | op_max_number ↦ []
  | op_unknown n ↦ []
]
