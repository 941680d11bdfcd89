-- ===== src/Accounts/Tests.antt =====
-- A salt from the sample environment.
use sope.Prelude.{◌+◌, ◌≡◌, [], ◌∷◌, ◌++◌, Text, length}
use sope.Types.{salt_len}
use sope.State.{done}
use sope.Accounts.{generate_salt, salt_buffer}
use sope.Accounts.Salt.{AllHex, generate_salt-AllHex}
use sope.Samples.{toy_env, start}

generate_salt-AllHex_example :
    (salt : Text) × (generate_salt toy_env start
      ≡ done salt (record start { rand_calls = start.rand_calls + salt_len }))
    × (salt_buffer toy_env start.rand_calls ≡ salt ++ 0 ∷ [])
    × (length salt ≡ salt_len)
    × AllHex salt
generate_salt-AllHex_example = generate_salt-AllHex toy_env start
