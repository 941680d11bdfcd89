-- ===== src/Office/Keeps.antt =====
-- Every request keeps the bank sound, and its money but for the deposit of a new account.
use sope.Prelude.{
  ℕ, ◌+◌, ◌<◌, ◌≡◌, refl, ap, ◌∙◌, true, false, Text, [], ◌++◌, some, arith, str_eq, ◌==◌,
  Bool-cases, inl, inr,
}
use sope.Types.{
  TlvRequest, RetCode, rc_ok, OpType, op_create_account, op_balance, op_transfer, op_shutdown,
  op_max_number, op_unknown, transfer, max_bank_accounts, admin_account_id, rc_login_fail,
  rc_id_not_found,
}
use sope.Reply.{make_error_reply, make_create_reply}
use sope.State.{Env, Server, done}
use sope.Fifo.{get_user_fifo_path}
use sope.Accounts.Salt.{new_salt}
use sope.Accounts.Hash.{Sha256}
use sope.Office.Handlers.{num_active}
use sope.Office.Manage.{manage_request}
use sope.Office.Sound.{Bank, bank, IsSound, total_funds}
use sope.Office.Spec.{perform, serve, transfer_verdict, is_ok}
use sope.Office.Serves.{ArgsInRange, IsRequest}
use sope.Office.Refine.{manage_request-Refines}
use sope.Office.Invariant.{
  Keeps, BalanceAllowed, deposited, make_transfer-IsSound, total_funds-make_transfer,
  put_account-IsSound, total_funds-put_account,
}

pub is_ok→eq : (c : RetCode) → is_ok c ≡ true → c ≡ rc_ok
is_ok→eq c h = ground arith

no_deposit : (n : ℕ) → n ≡ n + 0
no_deposit n = omega arith

module _ (sha256 : Text → Text) (salt : Text) (active : ℕ) (b : Bank) (r : TlvRequest)
    (v : IsSound b) where
  abbrev id : ℕ
  id = r.value.header.account_id

  perform_create-Keeps :
      r.value.create.account_id < max_bank_accounts
      → BalanceAllowed r op_create_account
      → Keeps op_create_account r b (perform sha256 salt active op_create_account b r)
  unfolding perform make_error_reply make_create_reply
  perform_create-Keeps inside allowed = elim (Bool-cases (id == admin_account_id)) [
    | inr other ↦ rw other (v, no_deposit _)
    | inl admin ↦ elim (Bool-cases (b.used_accounts r.value.create.account_id)) [
      | inl taken ↦ rw (admin, taken) (v, no_deposit _)
      | inr fresh ↦
          rw (admin, fresh)
            (put_account-IsSound b _ _ v refl allowed, total_funds-put_account b _ _ inside fresh)
    ]
  ]

  perform-transfer-Keeps :
      id < max_bank_accounts
      → (transfer r.value).account_id < max_bank_accounts
      → b.used_accounts id ≡ true
      → Keeps op_transfer r b (perform sha256 salt active op_transfer b r)
  unfolding perform
  perform-transfer-Keeps inside dest_inside used =
      elim (Bool-cases (is_ok (transfer_verdict b id (transfer r.value)))) [
        | inl ok ↦ rw ok (
          make_transfer-IsSound b id (transfer r.value) v (is_ok→eq _ ok),
          total_funds-make_transfer b id (transfer r.value) v (is_ok→eq _ ok) inside dest_inside
                used
              ∙ no_deposit _,
        )
        | inr refused ↦ rw refused (v, no_deposit _)
      ]

  perform_shutdown-Keeps : Keeps op_shutdown r b (perform sha256 salt active op_shutdown b r)
  unfolding perform total_funds
  perform_shutdown-Keeps = elim (Bool-cases (id == admin_account_id)) [
    | inl admin ↦
        rw admin (record { admin = v.admin; named = v.named; bounded = v.bounded }, no_deposit _)
    | inr other ↦ rw other (v, no_deposit _)
  ]

  perform_balance-Keeps : Keeps op_balance r b (perform sha256 salt active op_balance b r)
  unfolding perform
  perform_balance-Keeps = elim (Bool-cases (id == admin_account_id)) [
    | inl admin ↦ rw admin (v, no_deposit _)
    | inr other ↦ rw other (v, no_deposit _)
  ]

  pub perform-Keeps :
      (op : OpType)
      → id < max_bank_accounts
      → ArgsInRange r op
      → BalanceAllowed r op
      → b.used_accounts id ≡ true
      → Keeps op r b (perform sha256 salt active op b r)
  perform-Keeps op_create_account inside args allowed used = perform_create-Keeps args allowed
  perform-Keeps op_balance inside args allowed used = perform_balance-Keeps
  perform-Keeps op_transfer inside args allowed used = perform-transfer-Keeps inside args used
  perform-Keeps op_shutdown inside args allowed used = perform_shutdown-Keeps
  perform-Keeps op_max_number inside args allowed used = absurd args
  perform-Keeps (op_unknown n) inside args allowed used = absurd args

  refused-Keeps :
      (op : OpType) (code : RetCode)
      → is_ok code ≡ false
      → Keeps op r b (make_error_reply code r, b)
  unfolding make_error_reply
  refused-Keeps op_create_account code h = (v, rw h (no_deposit _))
  refused-Keeps _ code h = (v, no_deposit _)

  pub serve-Keeps :
      IsRequest r → BalanceAllowed r r.type → Keeps r.type r b (serve sha256 salt active b r)
  unfolding serve
  serve-Keeps q allowed = elim (Bool-cases (b.used_accounts id)) [
    | inr unknown ↦ rw unknown (refused-Keeps r.type rc_id_not_found refl)
    | inl known ↦
        elim (Bool-cases (
          str_eq (sha256 (r.value.header.password ++ (b.accounts id).salt)) (b.accounts id).hash)) [
            | inr wrong ↦ rw (known, wrong) (refused-Keeps r.type rc_login_fail refl)
            | inl right ↦ rw (known, right) (perform-Keeps r.type q.id_in q.args_in allowed known)
          ]
  ]

-- From a state with a well-formed bank and no mutex held, for a request in range with an allowed
-- balance, whose reply the FIFO takes if it opens, `manageRequest` returns, with no mutex held and the bank well formed; the money in the bank is
-- what it was, and the first balance of an account which the request has created.
pub manage_request-Keeps :
    (env : Env) (h : Sha256 env) (r : TlvRequest) (thread : ℕ) (s : Server) (path : Text)
    → IsSound (bank s)
    → s.account_mutexes ≡ []
    → IsRequest r
    → BalanceAllowed r r.type
    → get_user_fifo_path r.value.header.pid ≡ some path
    → ((n : ℕ) → env.fifo_writes n ≡ true)
    → let reply =
        (serve h.sha256 (new_salt env s.rand_calls) (num_active s.active_offices) (bank s) r).0 in
      (s' : Server) × (manage_request env r thread s ≡ done tt s')
      × (s'.account_mutexes ≡ [])
      × IsSound (bank s')
      × (total_funds (bank s') ≡ total_funds (bank s) + deposited r.type r reply)
manage_request-Keeps env h r thread s path v free q allowed p writes =
    let (s', log, e, b, sent_reply, m, a) =
      manage_request-Refines env h r thread s path v free q p writes in
    let (sound, total) =
      serve-Keeps h.sha256 (new_salt env s.rand_calls) (num_active s.active_offices) (bank s) r v q
        allowed in
    (s', e, m, rw b sound, ap total_funds b ∙ total)
