-- ===== src/Life/Running.antt =====
-- The threads of the server at work on its accounts: the steps of Threads, where an office that is at
-- `manageRequest` performs it (PROJ2/src/bankoffice.c), and where the reads of the main thread end only when a
-- shutdown has closed the server's own end of its FIFO (PROJ2/src/server.c).
use sope.Prelude.{
  ℕ, zero, suc, ◌-◌, Bool, true, false, ◌&&◌, List, [], ◌∷◌, ◌++◌, ◌==◌, ltb, if◌then◌else◌,
}
use sope.Types.{TlvRequest}
use sope.State.{Env, Server, Outcome, done, exited, fault, deadlock}
use sope.Office.Manage.{manage_request}
use sope.Threads.{Main, m_reads, Office, o_manages, System, turn}

-- The threads, and the accounts behind the last step, or how the program has come to its end.
pub record Live : Type 0 where
  pub threads : System TlvRequest
  pub server : Outcome (Unit {0})

-- The main thread reads, and all that the users have sent has been read.
abbrev pub is_read_out : Main TlvRequest → List TlvRequest → Bool
is_read_out m_reads [] = true
is_read_out _ _ = false

-- `activeOffices` as an array
abbrev pub flags : ℕ → (ℕ → Bool) → List Bool
flags zero active = []
flags (suc k) active = flags k active ++ active k ∷ []

module _ (env : Env) (junk : TlvRequest) (n : ℕ) where
  -- What the step of an office with this number does to the accounts.
  abbrev pub office_serves : Office TlvRequest → ℕ → System TlvRequest → Server → Outcome (Unit {0})
  office_serves (o_manages r) thread threads s =
      manage_request env r thread (record s { active_offices = flags n threads.active_offices })
  office_serves _ thread threads s = done tt s

  abbrev pub serves : ℕ → System TlvRequest → Server → Outcome (Unit {0})
  serves t threads s =
      if t == 0
      then done tt s
      else if ltb (t - 1) n
      then office_serves (threads.offices (t - 1)) t threads s
      else done tt s

  -- `read` waits while there is nothing to read and the server's own end of the FIFO is open.
  abbrev pub is_blocked : ℕ → System TlvRequest → Server → Bool
  is_blocked t threads s = (t == 0) && (is_read_out threads.main threads.incoming && s.fifo_open)

  -- One turn of thread t, as in Threads.
  unfoldable pub live_turn : ℕ → Live → Live
  live_turn t l = elim l.server [
    | done _ s ↦
        if is_blocked t l.threads s
        then l
        else record { threads = turn junk n t l.threads; server = serves t l.threads s }
    | exited status ↦ l
    | fault ↦ l
    | deadlock ↦ l
  ]

  unfoldable pub live_run : List ℕ → Live → Live
  unfolding live_turn
  live_run [] l = l
  live_run (t ∷ ts) l = live_run ts (live_turn t l)
