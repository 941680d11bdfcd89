-- ===== src/Office/Serves.antt =====
-- The `switch` of `manageRequest`, from a state in which no mutex is held: the locks, the handler
-- and the unlocks do together what the specification says.
use sope.Prelude.{ℕ, ◌<◌, ◌≡◌, refl, ◌∙◌, true, [], ◌∷◌}
use sope.Types.{
  TlvRequest, OpType, op_create_account, op_balance, op_transfer, op_shutdown, op_max_number,
  op_unknown, transfer, max_bank_accounts,
}
use sope.State.{Env, Server, done}
use sope.State.Laws.{bracket}
use sope.Accounts.{unlock_account}
use sope.Office.Access.{get_single_account_access, get_double_account_access, unlock_double_account}
use sope.Accounts.Salt.{new_salt}
use sope.Accounts.Hash.{Sha256}
use sope.Office.Handlers.{
  num_active, handle_create_account_request, handle_balance_request, handle_transfer_request,
}
use sope.Office.Manage.{serve_request}
use sope.Office.Locks.{
  IsDelay, step, locked, unlocked, waited, both, both_log, both_unlocked, unlock_account_lem,
  get_single_account_access_lem, get_double_account_access_lem, unlock_double_account_lem,
}
use sope.Office.Sound.{bank, IsSound}
use sope.Office.Spec.{perform}
use sope.Office.Performs.{
  handle_create_account_request-Performs, handle_balance_request-Performs,
  handle_shutdown_request-Performs, handle_transfer_request-Performs,
}

-- The account that the arguments of the operation name is in range.
abbrev pub ArgsInRange : TlvRequest → OpType → Type 0
ArgsInRange r op_create_account = r.value.create.account_id < max_bank_accounts
ArgsInRange r op_transfer = (transfer r.value).account_id < max_bank_accounts
ArgsInRange r op_balance = Unit {0}
ArgsInRange r op_shutdown = Unit {0}
ArgsInRange r _ = ⊥

-- A request that the server can take: an operation that exists, ids in range, and a delay which
-- usleep can be given.
pub record IsRequest (r : TlvRequest) : Type 0 where
  pub id_in : r.value.header.account_id < max_bank_accounts
  pub args_in : ArgsInRange r r.type
  pub short : IsDelay r.value.header.op_delay_ms

module _ (env : Env) (h : Sha256 env) (r : TlvRequest) (thread : ℕ) where
  abbrev id : ℕ
  id = r.value.header.account_id

  abbrev delay_ms : ℕ
  delay_ms = r.value.header.op_delay_ms

  module _ (s : Server) (v : IsSound (bank s)) (free : s.account_mutexes ≡ []) where
    -- What `Performs` says, with no mutex held in the end.
    abbrev pub Serves : OpType → Type 0
    Serves op =
        let spec =
          perform h.sha256 (new_salt env s.rand_calls) (num_active s.active_offices) op (bank s)
            r in
        (s' : Server) × (serve_request env op r thread s ≡ done spec.0 s')
        × (bank s' ≡ spec.1)
        × (s'.account_mutexes ≡ [])
        × (s'.active_offices ≡ s.active_offices)
        × (s'.sends ≡ s.sends)

    serve_create_account :
        r.value.create.account_id < max_bank_accounts → IsDelay delay_ms → Serves op_create_account
    unfolding serve_request
    serve_create_account inside short =
        let new = r.value.create.account_id in
        let s1 = step s (new ∷ []) (waited thread new delay_ms (locked thread new ∷ s.log)) in
        let (s2, e2, b, m, a, n) =
          handle_create_account_request-Performs env h r thread s1 v inside in
        (
          step s2 [] (unlocked thread new ∷ s2.log),
          bracket (get_single_account_access new delay_ms thread) (unlock_account new thread)
              (handle_create_account_request env r thread) {s = s}
              (get_single_account_access_lem new delay_ms thread s inside short free) e2
              (unlock_account_lem new thread s2 inside m),
          b,
          refl,
          a,
          n,
        )

    serve_balance :
        id < max_bank_accounts → IsDelay delay_ms → s.used_accounts id ≡ true → Serves op_balance
    unfolding serve_request
    serve_balance inside short used =
        let s1 = step s (id ∷ []) (waited thread id delay_ms (locked thread id ∷ s.log)) in
        let (s2, e2, b, m, a, n) =
          handle_balance_request-Performs env h r thread s1 v inside used in
        (
          step s2 [] (unlocked thread id ∷ s2.log),
          bracket (get_single_account_access id delay_ms thread) (unlock_account id thread)
              (handle_balance_request r thread) {s = s}
              (get_single_account_access_lem id delay_ms thread s inside short free) e2
              (unlock_account_lem id thread s2 inside m),
          b,
          refl,
          a,
          n,
        )

    serve_transfer :
        id < max_bank_accounts
        → (transfer r.value).account_id < max_bank_accounts
        → IsDelay delay_ms
        → s.used_accounts id ≡ true
        → Serves op_transfer
    unfolding serve_request
    serve_transfer inside dest_inside short used =
        let dest = r.value.create.account_id in
        let s1 = step s (both id dest) (both_log thread id dest delay_ms s.log) in
        let (s2, e2, b, m, a, n) =
          handle_transfer_request-Performs env h r thread s1 v
            (record { src_in = inside; dest_in = dest_inside; src_used = used }) in
        (
          step s2 [] (both_unlocked thread id dest s2.log),
          bracket (get_double_account_access id dest delay_ms thread)
              (unlock_double_account id dest thread) (handle_transfer_request r thread) {s = s}
              (get_double_account_access_lem id dest delay_ms thread s inside dest_inside short
                free)
              e2 (unlock_double_account_lem id dest thread s2 inside dest_inside m),
          b,
          refl,
          a,
          n,
        )

    serve_shutdown : IsDelay delay_ms → Serves op_shutdown
    unfolding serve_request
    serve_shutdown short =
        let (s2, e2, b, m, a, n) = handle_shutdown_request-Performs env h r thread s v short in
        (s2, e2, b, m ∙ free, a, n)

    pub serve_request-Serves :
        (op : OpType)
        → id < max_bank_accounts
        → ArgsInRange r op
        → IsDelay delay_ms
        → s.used_accounts id ≡ true
        → Serves op
    serve_request-Serves op_create_account inside args short used = serve_create_account args short
    serve_request-Serves op_balance inside args short used = serve_balance inside short used
    serve_request-Serves op_transfer inside args short used = serve_transfer inside args short used
    serve_request-Serves op_shutdown inside args short used = serve_shutdown short
    serve_request-Serves op_max_number inside args short used = absurd args
    serve_request-Serves (op_unknown n) inside args short used = absurd args
