-- ===== src/Client/Session.antt =====
-- PROJ2/src/user.c from the request on: main, sendRequest, awaitReply, the handler of the alarm; and
-- makeUserFifo and deleteUserFifo of fifoMaker.c.
-- What the system calls give is a parameter (Calls). The texts on the terminal are left out, and an alarm
-- that goes off after the user's FIFO did not open.
use sope.Prelude.{
  ℕ, ◌<◌, ◌≡◌, refl, Bool, true, List, [], ◌∷◌, ◌++◌, Option, none, some, Text, arith,
  if◌then◌else◌, Bool-cases, inl, inr,
}
use sope.Types.{TlvRequest, TlvReply, rc_srv_down, rc_srv_timeout, rc_usr_down}
use sope.Reply.{make_error_reply}
use sope.Fifo.{get_user_fifo_path, user_fifo_path_prefix}
use sope.Fifo.Laws.{get_user_fifo_path-digits}
use sope.Wire.{Bytes, send_request, read_reply, send_reply_bytes}
use sope.Wire.Replies.{ReplyFits, SameReply, read_reply-send_reply_bytes}

-- How the wait for the reply ends: with SIGALRM, with a FIFO that does not open, with a read that
-- fails, or with what was written into the FIFO.
pub data Wait : Type 0 where
  timed_out unopened unreadable : Wait
  answered : Bytes → Wait

pub record Calls : Type 0 where
  pub pid : ℕ
  pub mkfifo_works : Bool
  pub server_opens : Bool
  pub write_works : Bool
  pub wait : Wait

-- what the program does
pub data Deed : Type 0 where
  made_fifo deleted_fifo : Text → Deed
  showed_request logged_request : TlvRequest → Deed
  sent : Bytes → Deed
  showed_reply logged_reply : TlvReply → Deed

-- The status of the program and what it did, or a write past the end of a buffer.
pub data Session : Type 0 where
  ended : (status : ℕ) → List Deed → Session
  overrun : Session

abbrev pub does : List Deed → Session → Session
does ds (ended n es) = ended n (ds ++ es)
does ds overrun = overrun

-- the end of main with the reply of awaitReply
abbrev pub shows : Text → TlvReply → Session
shows path r = ended 0 (deleted_fifo path ∷ showed_reply r ∷ [])

abbrev pub takes_reply : Text → Option TlvReply → Session
takes_reply path none = overrun
takes_reply path (some r) = does (logged_reply r ∷ []) (shows path r)

-- awaitReply and sigAlarmHandler, with the rest of main
unfoldable pub await_reply : TlvRequest → Text → Wait → Session
await_reply request path timed_out =
    let r = make_error_reply rc_srv_timeout request in
    ended 0 (logged_reply r ∷ deleted_fifo path ∷ showed_reply r ∷ [])
await_reply request path unopened = shows path (make_error_reply rc_usr_down request)
await_reply request path unreadable = ended 1 []
await_reply request path (answered stream) = takes_reply path (read_reply stream)

-- sendRequest, with the rest of main
abbrev pub send_and_wait : (junk : ℕ) → Calls → TlvRequest → Text → Session
send_and_wait junk c request path =
    let down = make_error_reply rc_srv_down request in
    does (logged_request request ∷ []) (
      if c.server_opens
      then if c.write_works
        then does (sent (send_request junk request) ∷ []) (await_reply request path c.wait)
        else ended 1 []
      else ended 0 (showed_reply down ∷ logged_reply down ∷ deleted_fifo path ∷ []))

-- displayRequest and makeUserFifo in main
abbrev pub with_fifo_path : (junk : ℕ) → Calls → TlvRequest → Option Text → Session
with_fifo_path junk c request none = overrun
with_fifo_path junk c request (some path) = does (showed_request request ∷ []) (
    if c.mkfifo_works
    then does (made_fifo path ∷ []) (send_and_wait junk c request path)
    else ended 1 [])

unfoldable pub session : (junk : ℕ) → Calls → TlvRequest → Session
unfolding await_reply
session junk c request = with_fifo_path junk c request (get_user_fifo_path c.pid)

-- the FIFOs that were made, those that were deleted, and the replies that were shown
abbrev pub fifos_made : List Deed → List Text
fifos_made [] = []
fifos_made (made_fifo path ∷ ds) = path ∷ fifos_made ds
fifos_made (_ ∷ ds) = fifos_made ds

abbrev pub fifos_deleted : List Deed → List Text
fifos_deleted [] = []
fifos_deleted (deleted_fifo path ∷ ds) = path ∷ fifos_deleted ds
fifos_deleted (_ ∷ ds) = fifos_deleted ds

abbrev pub shown : List Deed → List TlvReply
shown [] = []
shown (showed_reply r ∷ ds) = r ∷ shown ds
shown (_ ∷ ds) = shown ds

-- The reply that is due to the user; none where the program fails.
abbrev pub due_in_wait : TlvRequest → Wait → Option TlvReply
due_in_wait request timed_out = some (make_error_reply rc_srv_timeout request)
due_in_wait request unopened = some (make_error_reply rc_usr_down request)
due_in_wait request unreadable = none
due_in_wait request (answered stream) = read_reply stream

abbrev pub due : Calls → TlvRequest → Option TlvReply
due c request =
    if c.server_opens
    then if c.write_works then due_in_wait request c.wait else none
    else some (make_error_reply rc_srv_down request)

-- A session that ends with the status 0, shows just this reply, and makes and deletes just one FIFO.
abbrev pub EndsWith : TlvReply → Session → Type 0
EndsWith r s =
    (path : Text) × (ds : List Deed) × (s ≡ ended 0 ds)
    × (shown ds ≡ r ∷ [])
    × (fifos_made ds ≡ path ∷ [])
    × (fifos_deleted ds ≡ path ∷ [])

await_reply-EndsWith :
    (junk : ℕ) (request : TlvRequest) (r : TlvReply) (path : Text) (w : Wait)
    → due_in_wait request w ≡ some r
    → EndsWith r (
        does (showed_request request ∷ []) (
          does (made_fifo path ∷ []) (
            does
              (logged_request request ∷ [])
              (does (sent (send_request junk request) ∷ []) (await_reply request path w)))))
unfolding await_reply
await_reply-EndsWith junk request r path timed_out h = (path, _, refl, cc, refl, refl)
await_reply-EndsWith junk request r path unopened h = (path, _, refl, cc, refl, refl)
await_reply-EndsWith junk request r path unreadable h = cc
await_reply-EndsWith junk request r path (answered stream) h =
    rw h (path, _, refl, refl, refl, refl)

with_fifo_path-EndsWith :
    (junk : ℕ) (c : Calls) (request : TlvRequest) (r : TlvReply) (path : Text)
    → c.mkfifo_works ≡ true
    → due c request ≡ some r
    → EndsWith r (with_fifo_path junk c request (some path))
with_fifo_path-EndsWith junk c request r path mkfifo h = elim (Bool-cases c.server_opens) [
  | inl o ↦ elim (Bool-cases c.write_works) [
    | inl w ↦
        let e : due_in_wait request c.wait ≡ some r = ground (arith, h, o, w) in
        rw (mkfifo, o, w) (await_reply-EndsWith junk request r path c.wait e)
    | inr w ↦ ground (arith, h, o, w)
  ]
  | inr o ↦ rw (mkfifo, o) (path, _, refl, ground (arith, h, o), refl, refl)
]

module _ (junk : ℕ) (c : Calls) (small : c.pid < 100_000) (mkfifo : c.mkfifo_works ≡ true)
    (request : TlvRequest) where
  -- With a process id that getUserFifoPath has room for and a FIFO that can be made: whenever there is
  -- a reply for the user, be it the server's, or the program's own for a server that is down, a wait
  -- that is too long, or a FIFO that does not open, the program ends with the status 0, has shown just
  -- this reply, and has deleted just the FIFO that it made.
  pub session-EndsWith :
      (r : TlvReply) → due c request ≡ some r → EndsWith r (session junk c request)
  unfolding session
  session-EndsWith r h =
      let (digits, e, wide, value) = get_user_fifo_path-digits c.pid small in
      rw e (with_fifo_path-EndsWith junk c request r (user_fifo_path_prefix ++ digits) mkfifo h)

  -- What sendReply of the server writes, the user sees: where the server runs and answers in time,
  -- the reply that is shown has the type, the code, the account and the number of the one that was sent.
  pub session-answered :
      (noise : ℕ) (sent_reply : TlvReply)
      → ReplyFits sent_reply
      → c.server_opens ≡ true
      → c.write_works ≡ true
      → c.wait ≡ answered (send_reply_bytes noise sent_reply)
      → (r : TlvReply) × SameReply sent_reply r × EndsWith r (session junk c request)
  session-answered noise sent_reply fits o w e =
      let (r, read, same) = read_reply-send_reply_bytes noise sent_reply fits in
      (r, same, session-EndsWith r (rw (o, w, e) read))
