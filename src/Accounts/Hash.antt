-- ===== src/Accounts/Hash.antt =====
-- `generateHash` and `createAccount`, where the pipes to sha256sum work.
use sope.Prelude.{ℕ, ◌+◌, ◌<◌, ◌≡◌, true, ◌∷◌, ◌++◌, some, Text, arith, length}
use sope.Prelude.Array.{update}
use sope.Types.{BankAccount, max_bank_accounts, hash_len, salt_len}
use sope.State.{Env, account_creation, Server, done}
use sope.Accounts.{generate_hash, store_account, create_account}
use sope.Accounts.Salt.{new_salt, generate_salt_lem}

-- What the server relies on: every system call of `generateHash` succeeds, and sha256sum prints
-- the HASH_LEN digits of the hash of its input.
pub record Sha256 (env : Env) : Type 0 where
  pub sha256 : Text → Text
  pub size : (t : Text) → length (sha256 t) ≡ hash_len
  pub runs :
      (n : ℕ) (t : Text)
      → env.coprocess n t ≡ record {
        close_read = true;
        close_write = true;
        written = length t;
        close_input = true;
        output = sha256 t;
        close_output = true;
      }

store_account_lem :
    (id : ℕ) (account : BankAccount) (s : Server)
    → id < max_bank_accounts
    → store_account id account s
      ≡ done tt (record s {
        accounts = update s.accounts id account;
        used_accounts = update s.used_accounts id true;
      })
unfolding store_account
store_account_lem id account s inside = ground arith

module _ (env : Env) (h : Sha256 env) where
  pub generate_hash_lem :
      (password salt : Text) (s : Server)
      → generate_hash env password salt s
        ≡ done (some (h.sha256 (password ++ salt))) (record s { hash_calls = s.hash_calls + 1 })
  unfolding generate_hash
  generate_hash_lem password salt s =
      ground (arith, h.runs s.hash_calls (password ++ salt), h.size (password ++ salt))

  -- the account that `createAccount` makes
  abbrev pub new_account : Server → ℕ → ℕ → Text → BankAccount
  new_account s id balance password = record {
    account_id = id;
    hash = h.sha256 (password ++ new_salt env s.rand_calls);
    salt = new_salt env s.rand_calls;
    balance = balance;
  }

  -- the state with that account in the table
  abbrev pub created : Server → ℕ → ℕ → Text → ℕ → Server
  created s id balance password thread =
      let account = new_account s id balance password in
      record s {
        accounts = update s.accounts id account;
        used_accounts = update s.used_accounts id true;
        rand_calls = s.rand_calls + salt_len;
        hash_calls = s.hash_calls + 1;
        log = account_creation thread account ∷ s.log;
      }

  pub create_account_lem :
      (id balance : ℕ) (password : Text) (thread : ℕ) (s : Server)
      → id < max_bank_accounts
      → create_account env id balance password thread s
        ≡ done tt (created s id balance password thread)
  unfolding create_account
  create_account_lem id balance password thread s inside = ground (
    arith,
    generate_salt_lem env s,
    generate_hash_lem password (new_salt env s.rand_calls)
        (record s { rand_calls = s.rand_calls + salt_len }),
    store_account_lem id (new_account s id balance password)
        (record s { rand_calls = s.rand_calls + salt_len; hash_calls = s.hash_calls + 1 }),
  )
