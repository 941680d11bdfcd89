-- ===== src/Office/Refine.antt =====
-- `manageRequest` as a whole does what the specification says, in one step.
use sope.Prelude.{
  ℕ, ◌+◌, ◌<◌, ◌≡◌, refl, ◌∙◌, Bool, true, false, List, [], ◌∷◌, ◌++◌, none, some, Text, arith,
  str_eq, if◌then◌else◌, Bool-cases, inl, inr,
}
use sope.Types.{
  TlvRequest, TlvReply, rc_login_fail, rc_id_not_found, rc_usr_down, max_bank_accounts,
}
use sope.Reply.{make_error_reply}
use sope.State.{Env, Event, Server, done, sent, reply_logged}
use sope.Fifo.{get_user_fifo_path}
use sope.Accounts.{get_account}
use sope.Accounts.Salt.{new_salt}
use sope.Accounts.Hash.{Sha256, generate_hash_lem}
use sope.Office.Handlers.{validate_account, num_active}
use sope.Office.Manage.{send_reply, serve_request, manage_request, with_code}
use sope.Office.Locks.{step, locked, unlocked, lock_account_lem, unlock_account_lem}
use sope.Office.Sound.{Bank, bank, IsSound}
use sope.Office.Spec.{perform, serve}
use sope.Office.Serves.{IsRequest, serve_request-Serves}

module _ (env : Env) (h : Sha256 env) (r : TlvRequest) (thread : ℕ) where
  abbrev id : ℕ
  id = r.value.header.account_id

  -- The login: no such account, a wrong password, or neither.
  abbrev pub checked : Server → Server
  checked s = record s { hash_calls = s.hash_calls + 1 }

  abbrev pub password_matches : Server → Bool
  password_matches s =
      str_eq (h.sha256 (r.value.header.password ++ (s.accounts id).salt)) (s.accounts id).hash

  pub validate_account-eq :
      (s : Server)
      → id < max_bank_accounts
      → validate_account env r s ≡ (
          if s.used_accounts id
          then if password_matches s
            then done none (checked s)
            else done (some (make_error_reply rc_login_fail r)) (checked s)
          else done (some (make_error_reply rc_id_not_found r)) s)
  unfolding validate_account get_account
  validate_account-eq s inside =
      ground (arith, generate_hash_lem env h r.value.header.password (s.accounts id).salt s)

  -- The states at the login, and after it.
  abbrev at_login : Server → Server
  at_login s = step s (id ∷ []) (locked thread id ∷ s.log)

  abbrev logged_in : Server → Server
  logged_in s = step s [] (unlocked thread id ∷ s.log)

  manage_request-refused :
      (s s2 : Server) (path : Text) (reply : TlvReply)
      → get_user_fifo_path r.value.header.pid ≡ some path
      → id < max_bank_accounts
      → s.account_mutexes ≡ []
      → validate_account env r (at_login s) ≡ done (some reply) s2
      → s2.account_mutexes ≡ id ∷ []
      → manage_request env r thread s ≡ send_reply env reply path thread (logged_in s2)
  unfolding manage_request
  manage_request-refused s s2 path reply p inside free e held =
      ground (
        arith,
        lock_account_lem id thread s inside free,
        unlock_account_lem id thread s2 inside held,
      )

  manage_request-valid :
      (s s2 s3 : Server) (path : Text) (reply : TlvReply)
      → get_user_fifo_path r.value.header.pid ≡ some path
      → id < max_bank_accounts
      → s.account_mutexes ≡ []
      → validate_account env r (at_login s) ≡ done none s2
      → s2.account_mutexes ≡ id ∷ []
      → serve_request env r.type r thread (logged_in s2) ≡ done reply s3
      → manage_request env r thread s ≡ send_reply env reply path thread s3
  unfolding manage_request
  manage_request-valid s s2 s3 path reply p inside free e held served =
      ground (
        arith,
        lock_account_lem id thread s inside free,
        unlock_account_lem id thread s2 inside held,
      )

  -- What becomes of the reply: it is written to the user's FIFO and logged, or if that does not
  -- open, logged as one that the user did not get.
  abbrev pub reply_events : Text → ℕ → TlvReply → List Event → List Event
  reply_events path n reply log =
      if env.fifo_opens n
      then reply_logged thread reply ∷ sent path reply ∷ log
      else reply_logged thread (with_code reply rc_usr_down) ∷ log

  send_reply_lem :
      (reply : TlvReply) (path : Text) (s : Server)
      → env.fifo_writes s.sends ≡ true
      → send_reply env reply path thread s
        ≡ done tt (record s { sends = s.sends + 1; log = reply_events path s.sends reply s.log })
  unfolding send_reply
  send_reply_lem reply path s writes = ground arith

  -- `manageRequest` returns with no mutex held and the bank as the specification says, and the
  -- reply of the specification is the last thing in the log.
  abbrev pub Refines : Server → Text → Type 0
  Refines s path =
      let spec =
        serve h.sha256 (new_salt env s.rand_calls) (num_active s.active_offices) (bank s) r in
      (s' : Server) × (log : List Event) × (manage_request env r thread s ≡ done tt s')
      × (bank s' ≡ spec.1)
      × (s'.log ≡ reply_events path s.sends spec.0 log)
      × (s'.account_mutexes ≡ [])
      × (s'.active_offices ≡ s.active_offices)

  module _ (s : Server) (path : Text) (v : IsSound (bank s)) (free : s.account_mutexes ≡ [])
      (q : IsRequest r) (p : get_user_fifo_path r.value.header.pid ≡ some path)
      (writes : (n : ℕ) → env.fifo_writes n ≡ true) where
    abbrev spec : TlvReply × Bank
    spec = serve h.sha256 (new_salt env s.rand_calls) (num_active s.active_offices) (bank s) r

    not_found : s.used_accounts id ≡ false → spec ≡ (make_error_reply rc_id_not_found r, bank s)
    unfolding serve
    not_found unknown = rw unknown refl

    login_fail :
        s.used_accounts id ≡ true
        → password_matches s ≡ false
        → spec ≡ (make_error_reply rc_login_fail r, bank s)
    unfolding serve
    login_fail known wrong = rw (known, wrong) refl

    login_ok :
        s.used_accounts id ≡ true
        → password_matches s ≡ true
        → spec
          ≡ perform h.sha256
              (new_salt env s.rand_calls)
              (num_active s.active_offices)
              r.type
              (bank s)
              r
    unfolding serve
    login_ok known right = rw (known, right) refl

    refused :
        (reply : TlvReply) (calls : ℕ)
        → validate_account env r (at_login s)
          ≡ done (some reply) (record (at_login s) { hash_calls = calls })
        → spec ≡ (reply, bank s)
        → Refines s path
    refused reply calls e is =
        let s2 = record (at_login s) { hash_calls = calls } in
        let s3 = logged_in s2 in
        (
          record s3 { sends = s3.sends + 1; log = reply_events path s3.sends reply s3.log },
          s3.log,
          manage_request-refused s s2 path reply p q.id_in free e refl
              ∙ send_reply_lem reply path s3 (writes s3.sends),
          rw is refl,
          rw is refl,
          refl,
          refl,
        )

    accepted :
        validate_account env r (at_login s) ≡ done none (checked (at_login s))
        → s.used_accounts id ≡ true
        → spec
          ≡ perform h.sha256
              (new_salt env s.rand_calls)
              (num_active s.active_offices)
              r.type
              (bank s)
              r
        → Refines s path
    accepted e known is =
        let s2 = logged_in (checked (at_login s)) in
        let (s3, served, b, m, a, n) =
          serve_request-Serves env h r thread s2 v refl r.type q.id_in q.args_in q.short known in
        (
          record s3 { sends = s3.sends + 1; log = reply_events path s3.sends spec.0 s3.log },
          s3.log,
          manage_request-valid s (checked (at_login s)) s3 path spec.0 p q.id_in free e refl
                (rw is served)
              ∙ send_reply_lem spec.0 path s3 (writes s3.sends),
          rw is b,
          rw n refl,
          m,
          a,
        )

    -- From a state with a well-formed bank and no mutex held, for a request in range whose reply the
    -- FIFO takes if it opens, `manageRequest` returns. The reply that it sends to the user's FIFO (or
    -- logs as `rc_usr_down` where the FIFO does not open) and the bank that it leaves are those of the
    -- specification `serve`; every mutex is free again and the offices are as active as before.
    pub manage_request-Refines : Refines s path
    manage_request-Refines = elim (Bool-cases (s.used_accounts id)) [
      | inr unknown ↦
          refused (make_error_reply rc_id_not_found r) s.hash_calls
            (ground (arith, validate_account-eq (at_login s) q.id_in)) (not_found unknown)
      | inl known ↦ elim (Bool-cases (password_matches s)) [
        | inr wrong ↦
            refused (make_error_reply rc_login_fail r) (s.hash_calls + 1)
              (ground (arith, validate_account-eq (at_login s) q.id_in)) (login_fail known wrong)
        | inl right ↦
            accepted (ground (arith, validate_account-eq (at_login s) q.id_in)) known
              (login_ok known right)
      ]
    ]
