-- ===== src/Startup/Laws.antt =====
-- The bank with which the server starts.
use sope.Prelude.{
  ℕ, zero, suc, ◌<◌, ◌≡◌, ◌≢◌, refl, true, false, [], ◌∷◌, none, some, Text, str_eq_iff, arith,
}
use sope.Prelude.Array.{sum_below}
use sope.Types.{TlvRequest, rc_id_not_found, max_bank_accounts, admin_account_id}
use sope.Reply.{make_error_reply}
use sope.State.{Env, Server, done}
use sope.Accounts.{clear_accounts}
use sope.Accounts.Hash.{Sha256, created, create_account_lem}
use sope.Office.Locks.{step, locked, unlocked, lock_account_lem, unlock_account_lem}
use sope.Office.Handlers.{validate_account}
use sope.Office.Refine.{validate_account-eq, checked, password_matches}
use sope.Office.Sound.{bank, IsSound, funds, total_funds}
use sope.Startup.{setup_accounts}

sum_below-zero : (n : ℕ) (f : ℕ → ℕ) → ((i : ℕ) → f i ≡ 0) → sum_below n f ≡ 0
unfolding sum_below
sum_below-zero zero f h = refl
sum_below-zero (suc n) f h = omega (arith, h n, sum_below-zero n f h)

module _ (env : Env) (h : Sha256 env) (password : Text) (s : Server) where
  -- the table after `clearAccounts`, and the state while the administrator's mutex is held
  abbrev cleared : Server
  cleared = record s { used_accounts = λ i. false; account_mutexes = [] }

  abbrev held : Server
  held = step cleared (0 ∷ []) (locked 0 0 ∷ s.log)

  -- the state when `setupAccounts` is done
  abbrev pub opened : Server
  opened =
      let after = created env h held admin_account_id 0 password 0 in
      step after [] (unlocked 0 0 ∷ after.log)

  setup_accounts-eq : setup_accounts env password s ≡ done tt opened
  unfolding setup_accounts clear_accounts
  setup_accounts-eq = ground (
    arith,
    lock_account_lem 0 0 cleared (omega arith) refl,
    create_account_lem env h admin_account_id 0 password 0 held (omega arith),
    unlock_account_lem 0 0 (created env h held admin_account_id 0 password 0) (omega arith) refl,
  )

  opened-IsSound : IsSound (bank opened)
  opened-IsSound = record {
    admin = refl;
    named = λ i u. ground arith;
    bounded = λ i u. ground arith;
  }

  opened-total : total_funds (bank opened) ≡ 0
  unfolding total_funds
  opened-total = sum_below-zero max_bank_accounts (funds (bank opened)) (λ i. ground arith)

  -- Where sha256sum works, and whatever the tables held before, `setupAccounts` returns with no mutex held and a well-formed
  -- bank in which there is no money.
  pub setup_accounts-IsSound :
      (s' : Server) × (setup_accounts env password s ≡ done tt s')
      × (s'.account_mutexes ≡ [])
      × IsSound (bank s')
      × (total_funds (bank s') ≡ 0)
  setup_accounts-IsSound = (opened, setup_accounts-eq, refl, opened-IsSound, opened-total)

  module _ (r : TlvRequest) where
    -- After `setupAccounts`, where sha256sum works, a login as the administrator with the password of
    -- the command line is accepted.
    pub setup_accounts-admin :
        r.value.header.account_id ≡ admin_account_id
        → r.value.header.password ≡ password
        → (s' : Server) × (s'' : Server) × (setup_accounts env password s ≡ done tt s')
          × (validate_account env r s' ≡ done none s'')
    setup_accounts-admin e p = (opened, checked env h r 0 opened, setup_accounts-eq, right)
      where
        matches : password_matches env h r 0 opened ≡ true
        matches = (str_eq_iff _ _).1 (rw (p, e) refl)

        right : validate_account env r opened ≡ done none (checked env h r 0 opened)
        right = ground (arith, validate_account-eq env h r 0 opened, matches)

    -- After `setupAccounts`, where sha256sum works, a login to any other account in range is answered
    -- with `rc_id_not_found`.
    setup_accounts-others :
        r.value.header.account_id < max_bank_accounts
        → r.value.header.account_id ≢ admin_account_id
        → (s' : Server) × (setup_accounts env password s ≡ done tt s')
          × (validate_account env r s' ≡ done (some (make_error_reply rc_id_not_found r)) s')
    setup_accounts-others inside ne =
        (opened, setup_accounts-eq, ground (arith, validate_account-eq env h r 0 opened inside))
