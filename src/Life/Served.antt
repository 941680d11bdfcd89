-- ===== src/Life/Served.antt =====
-- From the bytes in the server's FIFO to the end of the server.
use sope.Prelude.{ℕ, ◌≤◌, ◌≡◌, Bool, true, false, List, [], ◌∷◌, ◌++◌, Text}
use sope.Types.{TlvRequest, max_bank_offices}
use sope.State.{Env, Server, done}
use sope.Accounts.Hash.{Sha256}
use sope.Client.{ServerArgs}
use sope.Wire.{Bytes, received, receive_requests}
use sope.Wire.Stream.{send_all}
use sope.Startup.{setup_accounts}
use sope.Startup.Laws.{setup_accounts-IsSound}
use sope.Office.Sound.{bank, IsSound}
use sope.Threads as Threads
use sope.Threads.Invariant.{count}
use sope.Life.{
  Resource, Deed, took, freed, account_mutexes, server_fifo, unlinked_fifo, assigned_shutdown_fd,
  Calls, Run, returns, threads, server_main,
}
use sope.Life.Balance.{taken, given, AllWork, start_deeds, end_deeds}
use sope.Life.Running.{Live}

module _ (c : Calls) (w : AllWork c) (env : Env) (memory : Server) (old : ℕ → Bytes × Bytes)
    (active : ℕ → Bool) (junk : TlvRequest) (stream : Bytes) (schedule : List ℕ) where
  abbrev last : List Deed
  last = freed account_mutexes ∷ freed server_fifo ∷ []

  abbrev later : ℕ → List Deed
  later n = unlinked_fifo ∷ took server_fifo ∷ assigned_shutdown_fd ∷ (end_deeds c w n ++ last)

  -- what the server does with n offices
  abbrev pub deeds : ℕ → List Deed
  deeds n = took account_mutexes ∷ (start_deeds c w n ++ later n)

  module _ (args : ServerArgs) (accounts : Server)
      (set : setup_accounts env args.admin_password memory ≡ done tt accounts)
      (rs : List TlvRequest) (low : 1 ≤ args.num_offices)
      (high : args.num_offices ≤ max_bank_offices) (got : receive_requests old stream ≡ received rs)
      (s : Server) where
    abbrev end_of_turns : Live
    end_of_turns = threads c env memory old active junk stream schedule args.num_offices accounts rs

module _ (c : Calls) (w : AllWork c) (env : Env) (h : Sha256 env) (memory : Server)
    (old : ℕ → Bytes × Bytes) (active : ℕ → Bool) (junk : TlvRequest) (noise : ℕ)
    (requests : List TlvRequest) (schedule : List ℕ) (argv : List Text) (args : ServerArgs) where
  abbrev pub stream : Bytes
  stream = send_all noise requests

  -- where the threads are at the end of the schedule, with the requests read from the FIFO
  abbrev pub at_end : List TlvRequest → Live
  at_end rs =
      let (accounts, e, free, sound, money) =
        setup_accounts-IsSound env h args.admin_password memory in
      threads c env memory old active junk stream schedule args.num_offices accounts rs

  abbrev pub main_runs : Run (List TlvRequest)
  main_runs = server_main c env memory old active junk stream schedule argv

  -- where the threads begin
  abbrev start_of : List TlvRequest → Server → Live
  start_of rs accounts = record {
    threads = Threads.create_bank_offices junk active rs;
    server = done tt (record accounts { fifo_open = true });
  }

  -- what main does where it returns, and what it leaves
  abbrev pub Serves : List TlvRequest → Type 0
  Serves rs =
      (handled : List TlvRequest) × (ds : List Deed) × (main_runs ≡ returns handled ds)
      × ((test : TlvRequest → Bool) → count test handled ≡ count test rs)
      × ((test : Resource → Bool) → taken test ds ≡ given test ds)
      × (s : Server) × ((at_end rs).server ≡ done tt s)
      × IsSound (bank s)
      × (s.fifo_open ≡ false)
