-- ===== src/Display/Answer.antt =====
-- From the reply that the server writes to the text that the user reads.
use sope.Prelude.{ℕ, ◌+◌, ◌<◌, ◌^◌, ◌≡◌, ◌⊎◌, refl, true, false, some, ◌∙◌, inl, inr}
use sope.Types.{TlvRequest, TlvReply, sizeof_rep_header, sizeof_rep_word}
use sope.Wire.{send_reply_bytes}
use sope.Wire.Replies.{ReplyFits, SameReply}
use sope.Client.Session.{Calls, answered, session, EndsWith, session-answered}
use sope.Display.{display_reply, shown_word}
use sope.Display.Reading.{read_display, news, is_numbered, display_reply-news}

-- A reply that has no number to tell, or one with this word.
abbrev pub HasWord : ℕ → TlvReply → Type 0
HasWord word r =
    (is_numbered r.type r.value.header.ret_code ≡ false)
    ⊎ ((r.length ≡ sizeof_rep_header + sizeof_rep_word)
        × (r.value.word ≡ some word)
        × (word < 2 ^ 31))

same-news :
    (junk word : ℕ) (sent r : TlvReply)
    → HasWord word sent
    → SameReply sent r
    → (is_numbered r.type r.value.header.ret_code ≡ true → shown_word junk r.value.word < 2 ^ 31)
      × (news (shown_word junk r.value.word) r.type r.value.header.ret_code
          ≡ news word sent.type sent.value.header.ret_code)
same-news junk word sent r has (type, length, header, same) = elim has [
  | inl e ↦ simp (type, header, e) ((λ f. absurd (cc f)), refl)
  | inr (full, word_sent, low) ↦
      let w : r.value.word ≡ some word = same full ∙ word_sent in
      simp (w, type, header) ((λ _. low), refl)
]

module _ (junk : ℕ) (c : Calls) (small : c.pid < 100_000) (mkfifo : c.mkfifo_works ≡ true)
    (request : TlvRequest) where
  -- What sendReply of the server writes, the user reads: where the process id has room in the name of the FIFO, the FIFO can be made,
  -- and the server runs and answers in time, the program ends with the status 0 and has shown just one reply, whose text tells the return code
  -- that was sent, and, just where this is OK, the operation and the balance or the number of offices that was sent, if it is below 2 ^ 31.
  pub session-news :
      (noise : ℕ) (sent_reply : TlvReply)
      → ReplyFits sent_reply
      → c.server_opens ≡ true
      → c.write_works ≡ true
      → c.wait ≡ answered (send_reply_bytes noise sent_reply)
      → (word : ℕ) → HasWord word sent_reply
      → (r : TlvReply) × EndsWith r (session junk c request)
        × (read_display (display_reply junk request r)
            ≡ news word sent_reply.type sent_reply.value.header.ret_code)
  session-news noise sent_reply fits o w e word has =
      let (r, same, ends) =
        session-answered junk c small mkfifo request noise sent_reply fits o w e in
      let (low, equal) = same-news junk word sent_reply r has same in
      (r, ends, display_reply-news junk request r low ∙ equal)
