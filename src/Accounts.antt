-- ===== src/Accounts.antt =====
-- PROJ2/src/accounts.c: the table of accounts, its mutexes, salts and password hashes.
-- A `bank_account_t*` into the table is the index that it points to.
pub mod Salt
pub mod Hash
mod Tests
use sope.Prelude.{
  ℕ, zero, suc, ◌+◌, ◌-◌, ◌%◌, Bool, true, false, not, List, [], ◌∷◌, ◌++◌, Option, none, some,
  Text, length, set, replicate, ◌==◌, ltb, if◌then◌else◌,
}
use sope.Prelude.Array.{update}
use sope.Types.{
  BankAccount, max_bank_accounts, hash_len, salt_len, mutex_lock, mutex_unlock, role_account,
}
use sope.State.{
  PipeIo, Env, Event, sync_mech, account_creation, Server, Outcome, done, fault, deadlock, M, pure,
  emit, ◌>>=◌, ◌>>◌,
}

-- An array of MAX_BANK_ACCOUNTS elements may be accessed at these indices.
abbrev pub in_range : ℕ → Bool
in_range id = ltb id max_bank_accounts

abbrev pub is_locked : ℕ → List ℕ → Bool
is_locked id [] = false
is_locked id (j ∷ js) = if j == id then true else is_locked id js

abbrev pub released : ℕ → List ℕ → List ℕ
released id [] = []
released id (j ∷ js) = if j == id then js else j ∷ released id js

unfoldable pub get_account : ℕ → M (Option ℕ)
get_account id s =
    if in_range id then done (if s.used_accounts id then some id else none) s else fault

-- `*account`
abbrev pub load_account : ℕ → M BankAccount
load_account p s = done (s.accounts p) s

-- what `clearAccounts` does to the table and the mutexes, and `destroyAccounts` too
unfoldable pub clear_accounts : M (Unit {0})
clear_accounts s = done tt (record s { used_accounts = λ i. false; account_mutexes = [] })

-- pthread_mutex_lock and pthread_mutex_unlock on `accountMutexes[id]`
abbrev pub lock_mutex : ℕ → M (Unit {0})
lock_mutex id s =
    if in_range id
    then if is_locked id s.account_mutexes
      then deadlock
      else done tt (record s { account_mutexes = id ∷ s.account_mutexes })
    else fault

abbrev pub unlock_mutex : ℕ → M (Unit {0})
unlock_mutex id s =
    if in_range id
    then if is_locked id s.account_mutexes
      then done tt (record s { account_mutexes = released id s.account_mutexes })
      else fault
    else fault

unfoldable pub lock_account : ℕ → ℕ → M (Unit {0})
lock_account id thread = do emit (sync_mech thread mutex_lock role_account id); lock_mutex id

unfoldable pub unlock_account : ℕ → ℕ → M (Unit {0})
unlock_account id thread = do unlock_mutex id; emit (sync_mech thread mutex_unlock role_account id)

-- `accounts[id] = account; usedAccounts[id] = true`
unfoldable pub store_account : ℕ → BankAccount → M (Unit {0})
store_account id account s =
    if in_range id
    then done tt (record s {
      accounts = update s.accounts id account;
      used_accounts = update s.used_accounts id true;
    })
    else fault

-- the digit that `"%x"` prints for d < 16
abbrev pub hex_digit : ℕ → ℕ
hex_digit d = if ltb d 10 then b'0' + d else b'a' + (d - 10)

-- `sprintf(salt + i, "%x", r % 16)`, for the `n` rounds from i on; `rand k` is the next random
-- number.
unfoldable pub salt_loop : (ℕ → ℕ) → ℕ → ℕ → ℕ → Text → Text
salt_loop rand k zero i buf = buf
salt_loop rand k (suc n) i buf =
    salt_loop rand (k + 1) n (i + 1) (set (set buf i (hex_digit (rand k % 16))) (i + 1) 0)

-- the C string at the start of a buffer
abbrev pub c_string : Text → Text
c_string [] = []
c_string (x ∷ xs) = if x == 0 then [] else x ∷ c_string xs

module _ (env : Env) where
  -- the buffer of `generateSalt` at its end
  abbrev pub salt_buffer : ℕ → Text
  salt_buffer k = salt_loop env.rand k salt_len 0 (replicate (salt_len + 1) env.heap_byte)

  unfoldable pub generate_salt : M Text
  generate_salt s =
      done (c_string (salt_buffer s.rand_calls)) (record s { rand_calls = s.rand_calls + salt_len })

  -- the checks of `generateHash` on what the system calls for the text `concatd` gave
  abbrev pub read_hash : Text → PipeIo → Option Text
  read_hash concatd io =
      if not io.close_read
      then none
      else if not io.close_write
      then none
      else if not (io.written == length concatd)
      then none
      else if not io.close_input
      then none
      else if not (length io.output == hash_len)
      then none
      else if not io.close_output
      then none
      else some io.output

  unfoldable pub generate_hash : Text → Text → M (Option Text)
  generate_hash password salt s =
      let concatd = password ++ salt in
      done (read_hash concatd (env.coprocess s.hash_calls concatd))
        (record s { hash_calls = s.hash_calls + 1 })

  -- The account is not made, and nothing is said of it, where there is no hash.
  unfoldable pub create_account : ℕ → ℕ → Text → ℕ → M (Unit {0})
  create_account id balance password thread = do
    salt ← generate_salt
    hash ← generate_hash password salt
    elim hash [
      | none ↦ pure tt
      | some h ↦
          let account : BankAccount = record {
            account_id = id;
            hash = h;
            salt = salt;
            balance = balance;
          } in
          do store_account id account; emit (account_creation thread account)
    ]
