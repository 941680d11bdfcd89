-- ===== src/Display/Reading.antt =====
-- What a user reads off the text of displayReply (PROJ2/src/user.c).
use sope.Prelude.{
  ℕ, zero, suc, ◌+◌, ◌-◌, ◌/◌, ◌%◌, ◌^◌, ◌<◌, ◌≡◌, inl, inr, refl, ap, ◌∙◌, Bool, true, false, List,
  [], ◌∷◌, ◌++◌, Option, none, some, Text, arith, ◌==◌, ltb, if◌then◌else◌, Bool-cases, str_eq,
}
use sope.Prelude.Strings.{codes}
use sope.Types.{
  TlvRequest, TlvReply, OpType, op_create_account, op_balance, op_transfer, op_shutdown,
  op_max_number, op_unknown, RetCode, rc_ok, rc_srv_down, rc_srv_timeout, rc_usr_down,
  rc_login_fail, rc_op_nallow, rc_id_in_use, rc_id_not_found, rc_same_id, rc_no_funds, rc_too_high,
  rc_other,
}
use sope.Libc.{is_digit, digits_value}
use sope.Format.{decimal, digits_within}
use sope.Format.Decimal.{limit, digits_value-digits_within}
use sope.Display.{int, status, reply_kind, behind_status, shown_word, display_reply}

-- the text up to the first newline, and the text behind it
abbrev pub first_line : Text → Text
first_line [] = []
first_line (c ∷ cs) = let rest = first_line cs in if c == 10 then [] else c ∷ rest

abbrev pub below_line : Text → Text
below_line [] = []
below_line (c ∷ cs) = let rest = below_line cs in if c == 10 then cs else rest

-- the text behind the first colon and one space
abbrev pub behind_colon : Text → Text
behind_colon [] = []
behind_colon (c ∷ []) = []
behind_colon (c ∷ d ∷ cs) = let rest = behind_colon (d ∷ cs) in if c == b':' then cs else rest

abbrev pub find_code : Text → List RetCode → Option RetCode
find_code line [] = none
find_code line (c ∷ cs) =
    let rest = find_code line cs in if str_eq line (status c) then some c else rest

abbrev pub all_codes : List RetCode
all_codes =
    rc_ok ∷ rc_srv_down ∷ rc_srv_timeout ∷ rc_usr_down ∷ rc_login_fail ∷ rc_op_nallow ∷ rc_id_in_use
    ∷ rc_id_not_found ∷ rc_same_id ∷ rc_no_funds ∷ rc_too_high ∷ rc_other ∷ []

abbrev pub op_of_line : Text → Option OpType
op_of_line line =
    if str_eq line (codes "Type: ACCOUNT CREATION")
    then some op_create_account
    else if str_eq line (codes "Type: BALANCE CHECK")
    then some op_balance
    else if str_eq line (codes "Type: ACCOUNT TRANSFER")
    then some op_transfer
    else if str_eq line (codes "Type: SERVER SHUTDOWN")
    then some op_shutdown
    else none

-- The status, the operation and the number that the text shows; the number is 0 where there is none.
pub record Told : Type 0 where
  pub code : Option RetCode
  pub op : Option OpType
  pub number : ℕ

-- the lines from the status on
abbrev pub read_status : Text → Told
read_status t =
    let kind = below_line t in
    record {
      code = find_code (first_line t) all_codes;
      op = op_of_line (first_line kind);
      number = digits_value 0 (behind_colon (below_line kind));
    }

abbrev pub read_display : Text → Told
read_display t = read_status (below_line (below_line (below_line (below_line t))))

-- the operation, if it is one of the four that displayReply names
abbrev pub named : OpType → Option OpType
named op_max_number = none
named (op_unknown n) = none
named op = some op

abbrev pub named_in : RetCode → OpType → Option OpType
named_in rc_ok op = named op
named_in _ op = none

-- whether a reply has a number to tell
abbrev pub is_numbered : OpType → RetCode → Bool
is_numbered op rc_ok = elim op [
  | op_create_account ↦ false
  | op_balance ↦ true
  | op_transfer ↦ true
  | op_shutdown ↦ true
  | op_max_number ↦ false
  | op_unknown n ↦ false
]
is_numbered op _ = false

-- what a reply with this word has to tell
abbrev pub news : ℕ → OpType → RetCode → Told
news word op code = record {
  code = some code;
  op = named_in code op;
  number = if is_numbered op code then word else 0;
}

has_newline : Text → Bool
has_newline [] = false
has_newline (c ∷ cs) = if c == 10 then true else has_newline cs

below_line-append : (xs ys : Text) → has_newline xs ≡ false → below_line (xs ++ 10 ∷ ys) ≡ ys
unfolding has_newline
below_line-append [] ys h = refl
below_line-append (c ∷ cs) ys h = ground (arith, h, below_line-append cs ys)

has_newline-append :
    (xs ys : Text)
    → has_newline xs ≡ false
    → has_newline ys ≡ false
    → has_newline (xs ++ ys) ≡ false
unfolding has_newline
has_newline-append [] ys h g = g
has_newline-append (c ∷ cs) ys h g = ground (arith, h, g, has_newline-append cs ys)

digits_within-plain : (f n : ℕ) → has_newline (digits_within f n) ≡ false
unfolding has_newline digits_within
digits_within-plain zero n = refl
digits_within-plain (suc f) n = elim (Bool-cases (ltb n 10)) [
  | inl short ↦ rw short (ground arith)
  | inr long ↦ rw long (
      has_newline-append (digits_within f (n / 10)) ((b'0' + n % 10) ∷ [])
        (digits_within-plain f (n / 10)) (ground arith))
]

int-plain : (n : ℕ) → has_newline (int n) ≡ false
unfolding has_newline int decimal
int-plain n = elim (Bool-cases (ltb n (2 ^ 31))) [
  | inl low ↦ rw low (digits_within-plain 20 n)
  | inr high ↦ rw high (digits_within-plain 20 (2 ^ 32 - n))
]

-- the two lines of the status, whatever stands below
StatusLine : RetCode → Text → Type 0
StatusLine c rest =
    (find_code (first_line (status c ++ 10 ∷ rest)) all_codes ≡ some c)
    × (below_line (status c ++ 10 ∷ rest) ≡ rest)

status-StatusLine : (c : RetCode) (rest : Text) → StatusLine c rest
unfolding StatusLine status str_eq
status-StatusLine rc_ok rest = (refl, refl)
status-StatusLine rc_srv_down rest = (refl, refl)
status-StatusLine rc_srv_timeout rest = (refl, refl)
status-StatusLine rc_usr_down rest = (refl, refl)
status-StatusLine rc_login_fail rest = (refl, refl)
status-StatusLine rc_op_nallow rest = (refl, refl)
status-StatusLine rc_id_in_use rest = (refl, refl)
status-StatusLine rc_id_not_found rest = (refl, refl)
status-StatusLine rc_same_id rest = (refl, refl)
status-StatusLine rc_no_funds rest = (refl, refl)
status-StatusLine rc_too_high rest = (refl, refl)
status-StatusLine rc_other rest = (refl, refl)

int-value :
    (n : ℕ) (c : ℕ) (rest : Text)
    → n < 2 ^ 31
    → is_digit c ≡ false
    → digits_value 0 (int n ++ c ∷ rest) ≡ n
unfolding int decimal limit digits_value
int-value n c rest h g =
    ap (λ t. digits_value 0 (t ++ c ∷ rest)) {x = int n} {y = digits_within 20 n} (ground arith)
    ∙ digits_value-digits_within 20 n (c ∷ rest) (omega arith) (omega arith)
    ∙ ground (arith, g)

-- the lines above the status
display_reply-above :
    (junk : ℕ) (request : TlvRequest) (reply : TlvReply)
    → let kind = reply_kind (shown_word junk reply.value.word) reply.type in
      let code = reply.value.header.ret_code in
      below_line (below_line (below_line (below_line (display_reply junk request reply))))
      ≡ status code ++ 10 ∷ behind_status kind code
unfolding display_reply
display_reply-above junk request reply =
    ap below_line (below_line-append (int reply.length) _ (int-plain reply.length))
    ∙ below_line-append (int request.value.header.account_id) _
        (int-plain request.value.header.account_id)

-- The lines of the operation and of the number, and their absence, are read as what was printed.
read_kind-news :
    (word : ℕ) (op : OpType)
    → (is_numbered op rc_ok ≡ true → word < 2 ^ 31)
    → let kind = reply_kind word op in
      (op_of_line (first_line kind) ≡ named op)
      × (digits_value 0 (behind_colon (below_line kind))
          ≡ (if is_numbered op rc_ok then word else 0))
unfolding str_eq digits_value
read_kind-news word op_create_account h = (refl, refl)
read_kind-news word op_balance h = (refl, int-value word 0xE2 _ (h refl) refl)
read_kind-news word op_transfer h = (refl, int-value word 0xE2 _ (h refl) refl)
read_kind-news word op_shutdown h = (refl, int-value word 10 _ (h refl) refl)
read_kind-news word op_max_number h = (refl, refl)
read_kind-news word (op_unknown n) h = (refl, refl)

read_status-failure :
    (c : RetCode)
    → read_status (status c ++ 10 ∷ []) ≡ record { code = some c; op = none; number = 0 }
unfolding StatusLine str_eq digits_value
read_status-failure c = let (found, below) = status-StatusLine c [] in simp (found, below) refl

read_status-news :
    (word : ℕ) (op : OpType) (c : RetCode)
    → (is_numbered op c ≡ true → word < 2 ^ 31)
    → read_status (status c ++ 10 ∷ behind_status (reply_kind word op) c) ≡ news word op c
unfolding StatusLine
read_status-news word op rc_ok h =
    let (found, below) = status-StatusLine rc_ok (reply_kind word op) in
    let (kind, number) = read_kind-news word op h in simp (found, below, kind, number) refl
read_status-news word op rc_srv_down h = read_status-failure rc_srv_down
read_status-news word op rc_srv_timeout h = read_status-failure rc_srv_timeout
read_status-news word op rc_usr_down h = read_status-failure rc_usr_down
read_status-news word op rc_login_fail h = read_status-failure rc_login_fail
read_status-news word op rc_op_nallow h = read_status-failure rc_op_nallow
read_status-news word op rc_id_in_use h = read_status-failure rc_id_in_use
read_status-news word op rc_id_not_found h = read_status-failure rc_id_not_found
read_status-news word op rc_same_id h = read_status-failure rc_same_id
read_status-news word op rc_no_funds h = read_status-failure rc_no_funds
read_status-news word op rc_too_high h = read_status-failure rc_too_high
read_status-news word op rc_other h = read_status-failure rc_other

-- Of the text that displayReply prints for a reply, a user reads off its return code, and, just where this
-- is OK, its operation, if it is one of the four, and the number of a reply that has one, if it is below 2 ^ 31.
pub display_reply-news :
    (junk : ℕ) (request : TlvRequest) (reply : TlvReply)
    → (is_numbered reply.type reply.value.header.ret_code ≡ true
        → shown_word junk reply.value.word < 2 ^ 31)
    → read_display (display_reply junk request reply)
      ≡ news (shown_word junk reply.value.word) reply.type reply.value.header.ret_code
display_reply-news junk request reply h =
    ap read_status (display_reply-above junk request reply)
    ∙ read_status-news (shown_word junk reply.value.word) reply.type reply.value.header.ret_code h
