-- ===== src/Office/Locks.antt =====
-- The locks of a request, from a state in which no mutex is held: each is free when it is taken,
-- and those of two accounts are taken in the order of their ids.
use sope.Prelude.{ℕ, ◌+◌, ◌*◌, ◌≤◌, ◌<◌, ◌≡◌, ◌⊎◌, List, [], ◌∷◌, arith, ◌==◌, if◌then◌else◌}
use sope.Types.{max_bank_accounts, mutex_lock, mutex_unlock, role_account, u32, u32_mod}
use sope.State.{Event, sync_mech, sync_delay, delay, slept, Server, done}
use sope.Accounts.{lock_account, unlock_account}
use sope.Office.Access.{
  op_delay, op_delay_shutdown, get_single_account_access, get_double_account_access,
  unlock_double_account, min, max,
}

-- `delayMS * 1000` stays in the range of int.
abbrev pub IsDelay : ℕ → Type 0
IsDelay delay_ms =
    (delay_ms < 2_147_484) ⊎ ((u32_mod ≤ delay_ms + 2_147_483) × (delay_ms < u32_mod))

-- the state with these mutexes held, and these events on top of the log
abbrev pub step : Server → List ℕ → List Event → Server
step s held events = record s { account_mutexes = held; log = events }

abbrev pub locked : ℕ → ℕ → Event
locked thread id = sync_mech thread mutex_lock role_account id

abbrev pub unlocked : ℕ → ℕ → Event
unlocked thread id = sync_mech thread mutex_unlock role_account id

abbrev pub waited : ℕ → ℕ → ℕ → List Event → List Event
waited thread id delay_ms log = slept (u32 (delay_ms * 1000)) ∷ sync_delay thread id delay_ms ∷ log

pub lock_account_lem :
    (id thread : ℕ) (s : Server)
    → id < max_bank_accounts
    → s.account_mutexes ≡ []
    → lock_account id thread s ≡ done tt (step s (id ∷ []) (locked thread id ∷ s.log))
unfolding lock_account
lock_account_lem id thread s inside free = ground arith

pub unlock_account_lem :
    (id thread : ℕ) (s : Server)
    → id < max_bank_accounts
    → s.account_mutexes ≡ id ∷ []
    → unlock_account id thread s ≡ done tt (step s [] (unlocked thread id ∷ s.log))
unfolding unlock_account
unlock_account_lem id thread s inside held = ground arith

pub get_single_account_access_lem :
    (id delay_ms thread : ℕ) (s : Server)
    → id < max_bank_accounts
    → IsDelay delay_ms
    → s.account_mutexes ≡ []
    → get_single_account_access id delay_ms thread s
      ≡ done tt (step s (id ∷ []) (waited thread id delay_ms (locked thread id ∷ s.log)))
unfolding get_single_account_access op_delay lock_account
get_single_account_access_lem id delay_ms thread s inside short free = ground arith

-- the mutexes and the log while both accounts are held
abbrev pub both : ℕ → ℕ → List ℕ
both id1 id2 = if id1 == id2 then id1 ∷ [] else max id1 id2 ∷ min id1 id2 ∷ []

abbrev pub both_log : ℕ → ℕ → ℕ → ℕ → List Event → List Event
both_log thread id1 id2 delay_ms log =
    if id1 == id2
    then waited thread id1 delay_ms (locked thread id1 ∷ log)
    else waited thread (max id1 id2) delay_ms (
        locked thread (max id1 id2)
        ∷ waited thread (min id1 id2) delay_ms (locked thread (min id1 id2) ∷ log))

pub get_double_account_access_lem :
    (id1 id2 delay_ms thread : ℕ) (s : Server)
    → id1 < max_bank_accounts
    → id2 < max_bank_accounts
    → IsDelay delay_ms
    → s.account_mutexes ≡ []
    → get_double_account_access id1 id2 delay_ms thread s
      ≡ done tt (step s (both id1 id2) (both_log thread id1 id2 delay_ms s.log))
unfolding get_double_account_access op_delay lock_account
get_double_account_access_lem id1 id2 delay_ms thread s in1 in2 short free = ground arith

abbrev pub both_unlocked : ℕ → ℕ → ℕ → List Event → List Event
both_unlocked thread id1 id2 log =
    if id1 == id2
    then unlocked thread id1 ∷ log
    else unlocked thread (min id1 id2) ∷ unlocked thread (max id1 id2) ∷ log

pub unlock_double_account_lem :
    (id1 id2 thread : ℕ) (s : Server)
    → id1 < max_bank_accounts
    → id2 < max_bank_accounts
    → s.account_mutexes ≡ both id1 id2
    → unlock_double_account id1 id2 thread s
      ≡ done tt (step s [] (both_unlocked thread id1 id2 s.log))
unfolding unlock_double_account unlock_account
unlock_double_account_lem id1 id2 thread s in1 in2 held = ground arith

pub op_delay_shutdown_lem :
    (delay_ms thread : ℕ) (s : Server)
    → IsDelay delay_ms
    → op_delay_shutdown delay_ms thread s
      ≡ done tt
          (step s s.account_mutexes (slept (u32 (delay_ms * 1000)) ∷ delay thread delay_ms ∷ s.log))
unfolding op_delay_shutdown
op_delay_shutdown_lem delay_ms thread s short = ground arith
