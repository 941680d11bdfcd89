-- ===== src/Display/Tests.antt =====
-- The texts of the programs at concrete inputs.
use sope.Prelude.{◌++◌, ◌≡◌, refl, inr, arith}
use sope.Prelude.Strings.{codes}
use sope.Types.{TlvReply, op_balance, rc_ok}
use sope.Format.{decimal}
use sope.Log.{euro}
use sope.Samples.{pay}
use sope.Client.Session.{EndsWith, session}
use sope.Client.SessionTests.{balance_100, balance_100-ReplyFits, with_server}
use sope.Display.{display_reply, int, status}
use sope.Display.Reading.{read_display, news}
use sope.Display.Answer.{session-news}

session-news_example :
    (r : TlvReply) × EndsWith r (session 7 with_server pay)
    × (read_display (display_reply 7 pay r) ≡ news 100 op_balance rc_ok)
session-news_example =
    session-news 7 with_server (omega arith) refl pay 9 balance_100 balance_100-ReplyFits refl refl
      refl 100 (inr (refl, refl, omega arith))

balance_100-text :
    display_reply 7 pay balance_100
    ≡ codes
        "\nReceived reply!\n - Message length: 12\n - Account ID: 2\nStatus: OK\nType: BALANCE CHECK\n - Balance: 100"
      ++ euro
      ++ codes "\n"
unfolding display_reply int decimal status
balance_100-text = refl
