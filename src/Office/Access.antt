-- ===== src/Office/Access.antt =====
-- PROJ2/src/bankoffice.c: delays, and the locks of one or two accounts.
use sope.Prelude.{ℕ, ◌-◌, ◌*◌, ◌==◌, ltb, leb, ◌||◌, if◌then◌else◌}
use sope.Types.{u32, u32_mod}
use sope.State.{sync_delay, delay, slept, fault, M, emit, ◌>>◌}
use sope.Accounts.{lock_account, unlock_account}

-- `usleep(delayMS * 1000)`, where delayMS is an int: the product must not leave its range.
abbrev pub sleep_ms : ℕ → M (Unit {0})
sleep_ms delay_ms s =
    if ltb delay_ms 2_147_484 || leb (u32_mod - 2_147_483) delay_ms
    then emit (slept (u32 (delay_ms * 1000))) s
    else fault

unfoldable pub op_delay_shutdown : ℕ → ℕ → M (Unit {0})
op_delay_shutdown delay_ms thread = do emit (delay thread delay_ms); sleep_ms delay_ms

unfoldable pub op_delay : ℕ → ℕ → ℕ → M (Unit {0})
op_delay delay_ms acc_id thread = do emit (sync_delay thread acc_id delay_ms); sleep_ms delay_ms

unfoldable pub get_single_account_access : ℕ → ℕ → ℕ → M (Unit {0})
get_single_account_access id delay_ms thread = do
  lock_account id thread
  op_delay delay_ms id thread

-- the macros of accounts.h
abbrev pub min : ℕ → ℕ → ℕ
min a b = if ltb a b then a else b

abbrev pub max : ℕ → ℕ → ℕ
max a b = if ltb b a then a else b

unfoldable pub get_double_account_access : ℕ → ℕ → ℕ → ℕ → M (Unit {0})
get_double_account_access id1 id2 delay_ms thread =
    if id1 == id2 then (do lock_account id1 thread; op_delay delay_ms id1 thread) else do
      let first = min id1 id2
      let second = max id1 id2
      lock_account first thread
      op_delay delay_ms first thread
      lock_account second thread
      op_delay delay_ms second thread

unfoldable pub unlock_double_account : ℕ → ℕ → ℕ → M (Unit {0})
unlock_double_account id1 id2 thread = if id1 == id2 then unlock_account id1 thread else do
  let first = max id1 id2
  let second = min id1 id2
  unlock_account first thread
  unlock_account second thread
