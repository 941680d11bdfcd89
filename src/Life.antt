-- ===== src/Life.antt =====
-- The server from its start to its end: PROJ2/src/server.c (main), logfileopeners.c (openSLog),
-- fifoMaker.c (makeServerFifo, openServerFifo) and bankoffice.c (createQueue, createBankOffices,
-- destroyBankOffices, destroyQueue). The threads perform the requests on the accounts (Running). Which calls
-- of the system work is a parameter (Calls); the texts on the terminal are left out.
pub mod Running
pub mod Servable
pub mod Keeps
pub mod Closed
pub mod Balance
pub mod Served
mod Tests
use sope.Prelude.{ℕ, zero, suc, ◌+◌, Bool, true, false, List, [], ◌∷◌, ◌++◌, Text, if◌then◌else◌}
use sope.Types.{TlvRequest, max_bank_offices}
use sope.Office.Access.{min, max}
use sope.Client.{ServerArgs, Made, made, exits, overflow, process_server_args}
use sope.Wire.{Bytes, Received, received, overruns, no_fuel, receive_requests}
use sope.Threads.{
  buffer_size, Main, m_reads, m_tests, m_testing, m_finished, m_waits, m_locks, m_pushes, m_unlocks,
  m_posts, m_tested, m_counts,
}
use sope.Threads as Threads
use sope.State.{Env, Server, Outcome, done, exited, deadlock}
use sope.Startup.{setup_accounts}
use sope.Life.Running.{Live, live_run}

-- what the server takes and has to give back
pub data Resource : Type 0 where
  semaphore office : ℕ → Resource
  account_mutexes server_fifo : Resource

pub data Deed : Type 0 where
  took freed : Resource → Deed
  unlinked_fifo assigned_shutdown_fd : Deed
  -- lines of the log
  sem_logged : (value : ℕ) → Deed
  office_open_logged office_close_logged : (id tid : ℕ) → Deed

pub record Calls : Type 0 where
  pub slog_opens : Bool
  pub sem_init_works : ℕ → Bool
  pub thread_starts : ℕ → Bool
  pub tid : ℕ → ℕ
  pub mkfifo_works : Bool
  pub fifo_opens_read : Bool
  pub fifo_opens_write : Bool
  pub sem_destroy_works : ℕ → Bool

-- A function that returns, one that ends the program, one that has not come to its end by the end of
-- the schedule, and undefined behaviour.
pub data Run (A : Type 0) : Type 0 where
  returns : A → List Deed → Run A
  ends : (status : ℕ) → List Deed → Run A
  waits fault : Run A

abbrev pub behind : {A : Type 0} → List Deed → Run A → Run A
behind ds (returns a es) = returns a (ds ++ es)
behind ds (ends n es) = ends n (ds ++ es)
behind ds waits = waits
behind ds fault = fault

infixl 5 ◌>>=◌ ◌>>◌
abbrev pub ◌>>=◌ : {A B : Type 0} → Run A → (A → Run B) → Run B
returns a ds >>= f = behind ds (f a)
ends n ds >>= f = ends n ds
waits >>= f = waits
fault >>= f = fault

abbrev pub ◌>>◌ : {B : Type 0} → Run (Unit {0}) → Run B → Run B
m >> k = m >>= λ _. k

abbrev pub does : List Deed → Run (Unit {0})
does ds = returns tt ds

-- a call whose failure ends the program with the status 1
abbrev pub calls : Bool → List Deed → Run (Unit {0})
calls works ds = if works then does ds else ends 1 []

abbrev pub is_finished : {A : Type 0} → Main A → Bool
is_finished m_finished = true
is_finished _ = false

module _ (c : Calls) where
  abbrev pub open_s_log : Run (Unit {0})
  open_s_log = calls c.slog_opens []

  -- `queueEmptySem` is the semaphore 0, and `queueFullSem` the semaphore 1.
  unfoldable pub create_queue : Run (Unit {0})
  create_queue = do
    calls (c.sem_init_works 0) (took (semaphore 0) ∷ sem_logged buffer_size ∷ [])
    calls (c.sem_init_works 1) (took (semaphore 1) ∷ sem_logged 0 ∷ [])

  unfoldable pub destroy_queue : Run (Unit {0})
  destroy_queue = do
    calls (c.sem_destroy_works 0) (freed (semaphore 0) ∷ [])
    calls (c.sem_destroy_works 1) (freed (semaphore 1) ∷ [])

  -- the loop of createBankOffices, from i on
  unfoldable pub create_offices : (rounds i : ℕ) → Run (Unit {0})
  create_offices zero i = does []
  create_offices (suc rounds) i =
      let rest = create_offices rounds (i + 1) in
      calls (c.thread_starts i) (took (office (i + 1)) ∷ office_open_logged (i + 1) (c.tid i) ∷ [])
      >> rest

  -- `createBankOffices`, with `numberOfOffices` as result
  unfoldable pub create_bank_offices : ℕ → Run ℕ
  unfolding create_queue create_offices
  create_bank_offices num_offices =
      let n = max (min num_offices max_bank_offices) 1 in
      do create_queue; create_offices n 0; returns n []

  -- the loop of destroyBankOffices
  unfoldable pub destroy_offices : (rounds i : ℕ) → Run (Unit {0})
  destroy_offices zero i = does []
  destroy_offices (suc rounds) i =
      let rest = destroy_offices rounds (i + 1) in
      does (freed (office (i + 1)) ∷ office_close_logged (i + 1) (c.tid i) ∷ []) >> rest

  abbrev pub make_server_fifo : Run (Unit {0})
  make_server_fifo = does (unlinked_fifo ∷ []) >> calls c.mkfifo_works (took server_fifo ∷ [])

  abbrev pub open_server_fifo : Bool → Run (Unit {0})
  open_server_fifo opens = calls opens []

  -- `waitForRequestFinish`, for what the threads have come to, with the requests handled. An office may
  -- end the program before; one that waits for a mutex which it holds stays active.
  unfoldable pub wait_for_request_finish : Live → Run (List TlvRequest)
  wait_for_request_finish l = elim l.server [
    | done _ s ↦ if is_finished l.threads.main then returns l.threads.handled [] else waits
    | exited status ↦ ends status []
    | Outcome.fault ↦ fault
    | deadlock ↦ waits
  ]

  unfoldable pub destroy_bank_offices : ℕ → Live → Run (List TlvRequest)
  unfolding wait_for_request_finish destroy_offices destroy_queue
  destroy_bank_offices n l = do
    handled ← wait_for_request_finish l
    destroy_offices n 0
    destroy_queue
    returns handled []

  -- `readRequests`, with the requests that it puts into the queue
  abbrev pub read_requests : Received → Run (List TlvRequest)
  read_requests (received rs) = returns rs []
  read_requests overruns = fault
  read_requests no_fuel = fault

  -- the state in which a function leaves the accounts
  abbrev pub state_behind : Outcome (Unit {0}) → Run Server
  state_behind (done _ s) = returns s []
  state_behind (exited status) = ends status []
  state_behind Outcome.fault = fault
  state_behind deadlock = waits

  -- What main does with its arguments, and the requests that were handled: `stream` is what comes
  -- through the FIFO, `memory`, `old`, `active` and `junk` what was in memory, and `schedule` the turns
  -- of the threads until the end. A message of length 0, which ends the reads as well, is left out.
  module _ (env : Env) (memory : Server) (old : ℕ → Bytes × Bytes) (active : ℕ → Bool)
      (junk : TlvRequest) (stream : Bytes) (schedule : List ℕ) where
    -- the threads, with n offices, the accounts and these requests
    abbrev pub threads : ℕ → Server → List TlvRequest → Live
    threads n accounts requests = live_run env junk n schedule (record {
      threads = Threads.create_bank_offices junk active requests;
      server = done tt (record accounts { fifo_open = true });
    })

    unfoldable pub run_server : ServerArgs → Run (List TlvRequest)
    unfolding create_bank_offices destroy_bank_offices setup_accounts live_run
    run_server args = do
      open_s_log
      does (took account_mutexes ∷ [])
      accounts ← state_behind (setup_accounts env args.admin_password memory)
      n ← create_bank_offices args.num_offices
      make_server_fifo
      open_server_fifo c.fifo_opens_read
      open_server_fifo c.fifo_opens_write
      does (assigned_shutdown_fd ∷ [])
      requests ← read_requests (receive_requests old stream)
      handled ← destroy_bank_offices n (threads n accounts requests)
      does (freed account_mutexes ∷ [])
      does (freed server_fifo ∷ [])
      returns handled []

    abbrev pub with_server_args : Made ServerArgs → Run (List TlvRequest)
    with_server_args (made args) = run_server args
    with_server_args (exits n) = ends n []
    with_server_args overflow = fault

    unfoldable pub server_main : List Text → Run (List TlvRequest)
    unfolding run_server process_server_args
    server_main argv = with_server_args (process_server_args argv)
