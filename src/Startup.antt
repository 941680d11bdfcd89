-- ===== src/Startup.antt =====
-- PROJ2/src/server.c: the accounts at the start of the server.
pub mod Laws
mod Tests
use sope.Prelude.{ℕ, Text}
use sope.Types.{admin_account_id}
use sope.State.{Env, M, ◌>>=◌, ◌>>◌}
use sope.Accounts.{clear_accounts, lock_account, unlock_account, create_account}

unfoldable pub setup_accounts : Env → Text → M (Unit {0})
setup_accounts env admin_password = do
  clear_accounts
  lock_account 0 0
  create_account env admin_account_id 0 admin_password 0
  unlock_account 0 0
