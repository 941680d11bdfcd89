-- ===== src/Startup/Tests.antt =====
-- The start of the server with the sample password.
use sope.Prelude.{◌≡◌, refl, [], none}
use sope.State.{Server, done}
use sope.Office.Handlers.{validate_account}
use sope.Office.Sound.{bank, IsSound, total_funds}
use sope.Startup.{setup_accounts}
use sope.Startup.Laws.{setup_accounts-IsSound, setup_accounts-admin}
use sope.Samples.{toy_env, toy_Sha256, secret, start, open_account}

setup_accounts-IsSound_example :
    (s' : Server) × (setup_accounts toy_env secret start ≡ done tt s')
    × (s'.account_mutexes ≡ [])
    × IsSound (bank s')
    × (total_funds (bank s') ≡ 0)
setup_accounts-IsSound_example = setup_accounts-IsSound toy_env toy_Sha256 secret start

-- `open_account` comes from the administrator.
setup_accounts-admin_example :
    (s' : Server) × (s'' : Server) × (setup_accounts toy_env secret start ≡ done tt s')
    × (validate_account toy_env open_account s' ≡ done none s'')
setup_accounts-admin_example =
    setup_accounts-admin toy_env toy_Sha256 secret start open_account refl refl
