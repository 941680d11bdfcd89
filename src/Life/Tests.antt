-- ===== src/Life/Tests.antt =====
-- A server with one office, which the administrator shuts down, from its start to its end.
use mathlib.Core.Option as Option
use sope.Prelude.{
  ℕ, ◌+◌, ◌≡◌, refl, true, List, [], ◌∷◌, ◌++◌, Option, none, some, Text, length, replicate, str_eq,
}
use sope.Prelude.Strings.{codes}
use sope.Types.{TlvRequest, ReqCreateAccount, op_shutdown}
use sope.Queue.{queue_create, queue_push}
use sope.Libc.{atoi, digits_value}
use sope.Client.{UserArgs, ServerArgs, process_server_args}
use sope.Wire.{Bytes, receive_requests, send_request}
use sope.Accounts.{
  generate_salt, generate_hash, clear_accounts, lock_account, create_account, salt_loop,
  store_account, unlock_account, get_account,
}
use sope.Fifo.{get_user_fifo_path}
use sope.Format.{decimal}
use sope.Office.Handlers.{validate_account, handle_shutdown_request}
use sope.Office.Manage.{manage_request, serve_request, send_reply}
use sope.Threads.{run, turn, main_move, office_move}
use sope.Threads as Threads
use sope.Samples.{toy_env, toy_Sha256, start}
use sope.Life.{Calls, Run, returns, ends, waits, server_main}
use sope.Life.Balance.{AllWork}
use sope.Life.Running.{Live}
use sope.Life.Served.{at_end}

abbrev all_calls : Calls
all_calls = record {
  slog_opens = true;
  sem_init_works = λ k. true;
  thread_starts = λ i. true;
  tid = λ i. 700 + i;
  mkfifo_works = true;
  fifo_opens_read = true;
  fifo_opens_write = true;
  sem_destroy_works = λ k. true;
}

all_calls-AllWork : AllWork all_calls
all_calls-AllWork = record {
  log = refl;
  sem_init = λ k. refl;
  thread = λ i. refl;
  mkfifo = refl;
  reader = refl;
  writer = refl;
  sem_destroy = λ k. refl;
}

abbrev empty : ReqCreateAccount
empty = record { account_id = 0; balance = 0; password = [] }

-- the administrator shuts the server down
abbrev user_args : UserArgs
user_args = record { id = 0; password = codes "password1"; delay_ms = 5; opcode = 3; args = [] }

abbrev shutdown : TlvRequest
shutdown = record {
  type = op_shutdown;
  length = 33;
  value = record {
    header = record { pid = 1234; account_id = 0; password = codes "password1"; op_delay_ms = 5 };
    create = empty;
  };
}

abbrev memory : ℕ → Bytes × Bytes
memory k = (replicate 8 k, replicate 62 k)

abbrev turns : List ℕ
turns = replicate 7 0 ++ (replicate 12 1 ++ replicate 6 0)

abbrev argv : List Text
argv = codes "server" ∷ codes "1" ∷ codes "password1" ∷ []

abbrev server_args : ServerArgs
server_args = record { num_offices = 1; admin_password = codes "password1" }

abbrev end_of : List TlvRequest → Live
end_of rs =
    at_end all_calls all_calls-AllWork toy_env toy_Sha256 start memory (λ i. true) shutdown 7
      (shutdown ∷ []) turns argv server_args rs

abbrev main_of : List ℕ → Run (List TlvRequest)
main_of schedule =
    server_main all_calls toy_env start memory (λ i. true) shutdown (send_request 7 shutdown ++ [])
      schedule argv

abbrev handled_by : Run (List TlvRequest) → Option (List TlvRequest)
handled_by (returns handled ds) = some handled
handled_by (ends n ds) = none
handled_by waits = none
handled_by Run.fault = none

-- Under this schedule main returns, and without the turns of the office it waits for the shutdown.
main_returns : Option.map length (handled_by (main_of turns)) ≡ some 1
unfolding server_main manage_request validate_account generate_salt generate_hash run turn main_move
    office_move queue_create queue_push receive_requests send_request process_server_args atoi
    digits_value Threads.create_bank_offices clear_accounts lock_account create_account salt_loop
    store_account unlock_account get_user_fifo_path decimal get_account str_eq serve_request
    handle_shutdown_request send_reply
main_returns = refl

main_waits : main_of (replicate 40 0) ≡ waits
unfolding server_main queue_create queue_push turn main_move receive_requests send_request
    process_server_args atoi digits_value Threads.create_bank_offices clear_accounts lock_account
    create_account generate_salt generate_hash salt_loop store_account unlock_account
main_waits = refl
