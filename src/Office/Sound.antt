-- ===== src/Office/Sound.antt =====
-- What lasts of the server from one request to the next, its well-formed states, and the money.
use sope.Prelude.{ℕ, ◌≤◌, ◌≡◌, Bool, true, if◌then◌else◌}
use sope.Prelude.Array.{sum_below}
use sope.Types.{BankAccount, admin_account_id, max_bank_accounts, max_balance}
use sope.State.{Server}

pub record Bank : Type 0 where
  pub accounts : ℕ → BankAccount
  pub used_accounts : ℕ → Bool
  pub fifo_open : Bool

abbrev pub bank : Server → Bank
bank s = record { accounts = s.accounts; used_accounts = s.used_accounts; fifo_open = s.fifo_open }

-- The administrator's account is in use, and each account in use lies at the index of its id, with
-- a balance that the protocol allows.
pub record IsSound (b : Bank) : Type 0 where
  pub admin : b.used_accounts admin_account_id ≡ true
  pub named : (i : ℕ) → b.used_accounts i ≡ true → (b.accounts i).account_id ≡ i
  pub bounded : (i : ℕ) → b.used_accounts i ≡ true → (b.accounts i).balance ≤ max_balance

abbrev pub funds : Bank → ℕ → ℕ
funds b i = if b.used_accounts i then (b.accounts i).balance else 0

-- All the money in the bank.
unfoldable pub total_funds : Bank → ℕ
total_funds b = sum_below max_bank_accounts (funds b)
