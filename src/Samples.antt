-- ===== src/Samples.antt =====
-- Data for the tests: an environment with a toy hash, a bank, and requests.
use sope.Prelude.{
  ℕ, ◌+◌, ◌≡◌, refl, true, false, [], ◌++◌, some, ◌∷◌, Text, arith, length, length-replicate,
  replicate, ◌==◌, ltb, if◌then◌else◌,
}
use sope.Types.{TlvRequest, OpType, op_create_account, op_transfer, hash_len}
use sope.State.{Env, Server}
use sope.Fifo.{get_user_fifo_path, user_fifo_path_prefix}
use sope.Format.{decimal}
use sope.Accounts.Hash.{Sha256}
use sope.Office.Sound.{bank, IsSound}

-- A hash that tells only lengths apart.
abbrev pub toy_sha256 : Text → Text
toy_sha256 t = replicate hash_len (b'a' + length t)

abbrev pub toy_env : Env
toy_env = record {
  rand = λ n. n;
  coprocess = λ n t. record {
    close_read = true;
    close_write = true;
    written = length t;
    close_input = true;
    output = toy_sha256 t;
    close_output = true;
  };
  fifo_opens = λ n. true;
  fifo_writes = λ n. true;
  heap_byte = 7;
}

pub toy_Sha256 : Sha256 toy_env
toy_Sha256 = record {
  sha256 = toy_sha256;
  size = λ t. length-replicate hash_len (b'a' + length t);
  runs = λ n t. refl;
}

abbrev pub secret : Text
secret = b'p' ∷ b'a' ∷ b's' ∷ b's' ∷ b'w' ∷ b'o' ∷ b'r' ∷ b'd' ∷ []

-- Accounts 0, 1 and 2, with 100 in each but the administrator's.
abbrev pub start : Server
start = record {
  accounts = λ i. record {
    account_id = i;
    hash = toy_sha256 secret;
    salt = [];
    balance = if i == 0 then 0 else 100;
  };
  used_accounts = λ i. ltb i 3;
  account_mutexes = [];
  active_offices = true ∷ false ∷ [];
  fifo_open = true;
  rand_calls = 64;
  hash_calls = 1;
  sends = 0;
  log = [];
}

pub start-IsSound : IsSound (bank start)
start-IsSound = record { admin = refl; named = λ i u. refl; bounded = λ i u. ground arith }

abbrev pub request_of : OpType → ℕ → ℕ → ℕ → TlvRequest
request_of op id arg_id amount = record {
  type = op;
  length = 62;
  value = record {
    header = record { pid = 1234; account_id = id; password = secret; op_delay_ms = 5 };
    create = record { account_id = arg_id; balance = amount; password = secret };
  };
}

-- 30 from account 2 to account 1
abbrev pub pay : TlvRequest
pay = request_of op_transfer 2 1 30

-- a new account 7 with 500
abbrev pub open_account : TlvRequest
open_account = request_of op_create_account 0 7 500

-- the FIFO of process 1234
abbrev pub path : Text
path = user_fifo_path_prefix ++ (b'0' ∷ b'1' ∷ b'2' ∷ b'3' ∷ b'4' ∷ [])

pub path_of_1234 : get_user_fifo_path 1234 ≡ some path
unfolding get_user_fifo_path decimal
path_of_1234 = refl
