-- ===== src/Office/Performs.antt =====
-- Each handler does to the bank what the specification says.
use sope.Prelude.{
  ℕ, ◌*◌, ◌<◌, ◌≡◌, ◌≢◌, inl, inr, refl, true, false, ◌∷◌, Text, arith, Bool-cases, ◌==◌,
}
use sope.Types.{
  ReqCreateAccount, u32, TlvRequest, TlvReply, RetCode, rc_ok, OpType, op_create_account,
  op_balance, op_transfer, op_shutdown, transfer, max_bank_accounts, admin_account_id,
}
use sope.State.{delay, slept, fifo_closed, Env, Server, Outcome, done}
use sope.Accounts.{get_account}
use sope.Accounts.Salt.{new_salt}
use sope.Accounts.Hash.{Sha256, created, create_account_lem}
use sope.Office.Handlers.{
  handle_create_account_request, handle_balance_request, handle_transfer_request,
  handle_shutdown_request, num_active, get_num_active_offices,
}
use sope.Office.Locks.{IsDelay, op_delay_shutdown_lem}
use sope.Office.Sound.{bank, IsSound}
use sope.Office.Spec.{perform, transfer_verdict, make_transfer, first_code, is_ok}
use sope.Office.Transfer.{
  MayTransfer, transfer_code, moved, answer, handle_transfer_request-eq, moved_balances,
}

-- The handler returns the reply of the specification, leaves the bank as the specification says,
-- and the mutexes and the offices as they were.
abbrev pub Performs :
    (Text → Text) → Text → OpType → TlvRequest → Server → Outcome TlvReply → Type 0
Performs sha256 salt op r s out =
    let spec = perform sha256 salt (num_active s.active_offices) op (bank s) r in
    (s' : Server) × (out ≡ done spec.0 s')
    × (bank s' ≡ spec.1)
    × (s'.account_mutexes ≡ s.account_mutexes)
    × (s'.active_offices ≡ s.active_offices)
    × (s'.sends ≡ s.sends)

not-is_ok : (c : RetCode) → c ≢ rc_ok → is_ok c ≡ false
not-is_ok c h = ground arith

module _ (env : Env) (h : Sha256 env) (r : TlvRequest) (thread : ℕ) (s : Server)
    (v : IsSound (bank s)) where
  abbrev id : ℕ
  id = r.value.header.account_id

  abbrev new : ReqCreateAccount
  new = r.value.create

  abbrev salt : Text
  salt = new_salt env s.rand_calls

  pub handle_create_account_request-Performs :
      r.value.create.account_id < max_bank_accounts
      → Performs h.sha256 salt op_create_account r s (handle_create_account_request env r thread s)
  unfolding handle_create_account_request perform get_account
  handle_create_account_request-Performs inside = elim (Bool-cases (id == admin_account_id)) [
    | inr other ↦ (s, ground arith, ground arith, refl, refl, refl)
    | inl admin ↦ elim (Bool-cases (s.used_accounts new.account_id)) [
      | inl taken ↦ (s, ground arith, ground arith, refl, refl, refl)
      | inr fresh ↦ (
        created env h s new.account_id new.balance new.password thread,
        ground (arith, create_account_lem env h new.account_id new.balance new.password thread s),
        ground arith,
        refl,
        refl,
        refl,
      )
    ]
  ]

  pub handle_balance_request-Performs :
      id < max_bank_accounts
      → s.used_accounts id ≡ true
      → Performs h.sha256 salt op_balance r s (handle_balance_request r thread s)
  unfolding handle_balance_request perform get_account
  handle_balance_request-Performs inside used =
      (s, ground (arith, v.named id), ground arith, refl, refl, refl)

  pub handle_shutdown_request-Performs :
      IsDelay r.value.header.op_delay_ms
      → Performs h.sha256 salt op_shutdown r s (handle_shutdown_request r thread s)
  unfolding handle_shutdown_request perform get_num_active_offices
  handle_shutdown_request-Performs short =
      let delayed =
        slept (u32 (r.value.header.op_delay_ms * 1000))
        ∷ delay thread r.value.header.op_delay_ms
        ∷ s.log in
      elim (Bool-cases (id == admin_account_id)) [
        | inl admin ↦ (
          record s { fifo_open = false; log = fifo_closed ∷ delayed },
          ground (arith, op_delay_shutdown_lem r.value.header.op_delay_ms thread s),
          ground arith,
          refl,
          refl,
          refl,
        )
        | inr other ↦ (
          record s { log = delayed },
          ground (arith, op_delay_shutdown_lem r.value.header.op_delay_ms thread s),
          ground arith,
          refl,
          refl,
          refl,
        )
      ]

  transfer_code-verdict :
      MayTransfer s r
      → transfer_code s id (transfer r.value) ≡ transfer_verdict (bank s) id (transfer r.value)
  unfolding transfer_code transfer_verdict first_code
  transfer_code-verdict m =
      ground
        (arith, v.admin, v.named id, v.named new.account_id, v.bounded id, v.bounded new.account_id)

  bank-moved :
      MayTransfer s r
      → transfer_code s id (transfer r.value) ≡ rc_ok
      → bank (moved s id (transfer r.value)) ≡ make_transfer (bank s) id (transfer r.value)
  unfolding moved make_transfer
  bank-moved m ok = ground (arith, moved_balances r s v m ok)

  moved_rest :
      MayTransfer s r
      → let s' = moved s id (transfer r.value) in
        ((s'.accounts id).account_id ≡ id)
        × (s'.account_mutexes ≡ s.account_mutexes)
        × (s'.active_offices ≡ s.active_offices)
        × (s'.sends ≡ s.sends)
  unfolding moved
  moved_rest m = (ground (arith, v.named id), refl, refl, refl)

  transfer_refused :
      MayTransfer s r
      → transfer_code s id (transfer r.value) ≢ rc_ok
      → perform h.sha256 salt (num_active s.active_offices) op_transfer (bank s) r
        ≡ (answer s id (transfer_code s id (transfer r.value)), bank s)
  unfolding perform
  transfer_refused m refused =
      ground (arith, transfer_code-verdict m, not-is_ok _ refused, v.named id)

  transfer_made :
      MayTransfer s r
      → transfer_code s id (transfer r.value) ≡ rc_ok
      → perform h.sha256 salt (num_active s.active_offices) op_transfer (bank s) r
        ≡ (answer (moved s id (transfer r.value)) id rc_ok, bank (moved s id (transfer r.value)))
  unfolding perform
  transfer_made m ok = rw (← bank-moved m ok, ← transfer_code-verdict m, ok, (moved_rest m).0) refl

  pub handle_transfer_request-Performs :
      MayTransfer s r → Performs h.sha256 salt op_transfer r s (handle_transfer_request r thread s)
  handle_transfer_request-Performs m = elim (handle_transfer_request-eq r thread s v m) [
    | inl (refused, e) ↦ (
      s,
      rw (transfer_refused m refused) e,
      rw (transfer_refused m refused) refl,
      refl,
      refl,
      refl,
    )
    | inr (ok, e) ↦ (
      moved s id (transfer r.value),
      rw (transfer_made m ok) e,
      rw (transfer_made m ok) refl,
      (moved_rest m).1,
      (moved_rest m).2,
      (moved_rest m).3,
    )
  ]
