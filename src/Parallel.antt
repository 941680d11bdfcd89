-- ===== src/Parallel.antt =====
-- PROJ2/src/bankoffice.c and accounts.c: several offices in `manageRequest` at once, as atomic steps
-- on the accounts and their mutexes. A step takes or gives back one mutex, reads what a handler
-- tests, or writes one account; the checks of a handler read only accounts whose mutexes it holds.
-- Logging, delays and the sending of replies touch nothing shared and are left out. sha256sum is the
-- function `sha256`, and `salts k` the salt number k that `generateSalt` makes.
pub mod Phases
pub mod Moves
pub mod Locking
pub mod Writing
pub mod Serial
pub mod Funds
pub mod Progress
pub mod Work
pub mod Fair
mod Tests
use sope.Prelude.{
  ℕ, ◌+◌, ◌-◌, Bool, true, false, List, [], ◌∷◌, ◌++◌, Option, none, some, Text, str_eq, ◌==◌, ltb,
  if◌then◌else◌,
}
use sope.Prelude.Array.{update}
use sope.Types.{
  BankAccount, ReqTransfer, TlvRequest, OpType, op_create_account, op_balance, op_transfer,
  op_shutdown, RetCode, rc_ok, rc_op_nallow, rc_id_not_found, rc_same_id, rc_no_funds, rc_too_high,
  transfer, admin_account_id, max_balance, u32, u32_mod,
}
use sope.Office.Access.{min, max}
use sope.Office.Sound.{Bank}
use sope.Office.Spec.{perform, put_account, put_balance, is_ok}
use sope.Threads.{when}

-- Where an office is in `manageRequest`. `held` are the mutexes that it holds for the operation, the
-- latest first, and `todo` those that it has still to take; when there are none the handler runs.
-- p_takes and p_adds stand before the two assignments of `handleTransferRequest`, and p_creates
-- before those of `createAccount`.
pub data Phase : Type 0 where
  p_idle : Phase
  p_login p_validates : (request : TlvRequest) → Phase
  p_logout : (request : TlvRequest) (valid : Bool) → Phase
  p_works : (request : TlvRequest) (held todo : List ℕ) → Phase
  p_takes p_adds : (request : TlvRequest) (held : List ℕ) → Phase
  p_creates : (request : TlvRequest) (account : BankAccount) (held : List ℕ) → Phase
  p_unlocks : (held : List ℕ) → Phase

-- `account_mutexes id` is the office that holds the mutex. `order` lists the requests whose handlers
-- have run, the latest first, each with the salt that was next when it ran.
pub record Shared : Type 0 where
  pub bank : Bank
  pub account_mutexes : ℕ → Option ℕ
  pub offices : ℕ → Phase
  pub incoming : List TlvRequest
  pub salts_made : ℕ
  pub order : List (TlvRequest × Text)

abbrev pub is_unowned : Option ℕ → Bool
is_unowned none = true
is_unowned (some i) = false

-- The mutexes of a request's operation, in the order in which they are taken.
abbrev pub locks_of : OpType → TlvRequest → List ℕ
locks_of op_create_account r = r.value.create.account_id ∷ []
locks_of op_balance r = r.value.header.account_id ∷ []
locks_of op_transfer r =
    let id1 = r.value.header.account_id in
    let id2 = (transfer r.value).account_id in
    if id1 == id2 then id1 ∷ [] else min id1 id2 ∷ max id1 id2 ∷ []
locks_of _ r = []

-- The tests of `handleTransferRequest`, in its order.
unfoldable pub transfer_checks : Bank → ℕ → ReqTransfer → RetCode
transfer_checks b src req =
    if (b.accounts src).account_id == admin_account_id
    then rc_op_nallow
    else if b.used_accounts req.account_id
    then if (b.accounts req.account_id).account_id == admin_account_id
      then rc_op_nallow
      else if (b.accounts src).account_id == req.account_id
      then rc_same_id
      else if ltb (b.accounts src).balance req.amount
      then rc_no_funds
      else if ltb max_balance (u32 ((b.accounts req.account_id).balance + req.amount))
      then rc_too_high
      else rc_ok
    else rc_id_not_found

abbrev pub go : ℕ → Phase → Shared → Shared
go i p s = record s { offices = update s.offices i p }

module _ (sha256 : Text → Text) (salts : ℕ → Text) where
  -- `validateAccount`
  abbrev pub is_valid : Bank → TlvRequest → Bool
  is_valid b r =
      let account = b.accounts r.value.header.account_id in
      if b.used_accounts r.value.header.account_id
      then str_eq (sha256 (r.value.header.password ++ account.salt)) account.hash
      else false

  -- the account that `createAccount` makes with a salt
  abbrev pub account_of : TlvRequest → Text → BankAccount
  account_of r salt = record {
    account_id = r.value.create.account_id;
    hash = sha256 (r.value.create.password ++ salt);
    salt = salt;
    balance = r.value.create.balance;
  }

  -- What is next once the handler has made its tests.
  abbrev pub after_checks : OpType → Bank → TlvRequest → List ℕ → Text → Phase
  after_checks op_create_account b r held salt =
      if r.value.header.account_id == admin_account_id
      then if b.used_accounts r.value.create.account_id
        then p_unlocks held
        else p_creates r (account_of r salt) held
      else p_unlocks held
  after_checks op_transfer b r held salt =
      if is_ok (transfer_checks b r.value.header.account_id (transfer r.value))
      then p_takes r held
      else p_unlocks held
  after_checks _ b r held salt = p_unlocks held

  -- `handleShutdownRequest` closes the server's FIFO.
  abbrev pub after_shutdown : OpType → Bank → TlvRequest → Bank
  after_shutdown op_shutdown b r =
      if r.value.header.account_id == admin_account_id then record b { fifo_open = false } else b
  after_shutdown _ b r = b

  -- One step of office i, `none` where it must wait.
  unfoldable pub manage_move : ℕ → Phase → Shared → Option Shared
  manage_move i p_idle s = elim s.incoming [
    | [] ↦ none
    | request ∷ rest ↦ some (record (go i (p_login request) s) { incoming = rest })
  ]
  manage_move i (p_login r) s =
      when (is_unowned (s.account_mutexes r.value.header.account_id))
        (record (go i (p_validates r) s) {
          account_mutexes = update s.account_mutexes r.value.header.account_id (some i);
        })
  manage_move i (p_validates r) s = some (go i (p_logout r (is_valid s.bank r)) s)
  manage_move i (p_logout r valid) s =
      some (record (go i (if valid then p_works r [] (locks_of r.type r) else p_idle) s) {
        account_mutexes = update s.account_mutexes r.value.header.account_id none;
      })
  manage_move i (p_works r held (id ∷ todo)) s =
      when (is_unowned (s.account_mutexes id)) (record (go i (p_works r (id ∷ held) todo) s) {
        account_mutexes = update s.account_mutexes id (some i);
      })
  manage_move i (p_works r held []) s =
      some (record (go i (after_checks r.type s.bank r held (salts s.salts_made)) s) {
        bank = after_shutdown r.type s.bank r;
        salts_made = s.salts_made + 1;
        order = (r, salts s.salts_made) ∷ s.order;
      })
  manage_move i (p_takes r held) s =
      let src = r.value.header.account_id in
      some (record (go i (p_adds r held) s) {
        bank =
            put_balance s.bank src
              (u32 ((s.bank.accounts src).balance + u32_mod - (transfer r.value).amount));
      })
  manage_move i (p_adds r held) s =
      let dest = (transfer r.value).account_id in
      some (record (go i (p_unlocks held) s) {
        bank =
            put_balance s.bank dest
              (u32 ((s.bank.accounts dest).balance + (transfer r.value).amount));
      })
  manage_move i (p_creates r account held) s = some (record (go i (p_unlocks held) s) {
    bank = put_account s.bank r.value.create.account_id account;
  })
  manage_move i (p_unlocks (id ∷ held)) s =
      some (record (go i (p_unlocks held) s) { account_mutexes = update s.account_mutexes id none })
  manage_move i (p_unlocks []) s = some (go i p_idle s)

  -- The n offices take turns as a scheduler says; one that must wait changes nothing.
  unfoldable pub take_turns : ℕ → List ℕ → Shared → Shared
  unfolding manage_move
  take_turns n [] s = s
  take_turns n (i ∷ is) s =
      take_turns n is
        (if ltb i n then (elim (manage_move i (s.offices i) s) [ none ↦ s | some s' ↦ s' ]) else s)

  -- The requests one after the other, as the specification performs them.
  unfoldable pub replay : Bank → List (TlvRequest × Text) → Bank
  replay b [] = b
  replay b ((r, salt) ∷ earlier) = (perform sha256 salt 0 r.type (replay b earlier) r).1

-- Offices that have not begun, with no mutex held.
abbrev pub opening : Bank → List TlvRequest → Shared
opening b requests = record {
  bank = b;
  account_mutexes = λ id. none;
  offices = λ i. p_idle;
  incoming = requests;
  salts_made = 0;
  order = [];
}
