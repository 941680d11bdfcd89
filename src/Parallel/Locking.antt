-- ===== src/Parallel/Locking.antt =====
-- The steps that take or give back a mutex, or only read.
use sope.Prelude.{
  ℕ, ◌<◌, ◌≡◌, ◌≢◌, inr, refl, subst, ap, Bool, true, false, List, [], ◌∷◌, Option, none, some,
  arith, ◌==◌, ◌||◌, Text,
}
use sope.Prelude.Array.{update}
use sope.Types.{
  TlvRequest, OpType, op_create_account, op_balance, op_transfer, op_shutdown, op_max_number,
  op_unknown, max_bank_accounts,
}
use sope.Accounts.{is_locked}
use sope.Office.Sound.{Bank}
use sope.Office.Serves.{ArgsInRange}
use sope.Parallel.{
  Phase, p_idle, p_login, p_validates, p_logout, p_works, p_unlocks, locks_of, Shared, go,
  is_unowned, is_valid, manage_move,
}
use sope.Threads.Invariant.{All, when-All}
use sope.Parallel.Phases.{holds, changing, Knows, Ascends}
use sope.Parallel.Moves.{Inv, Moves-Inv, AllAllowed}

-- The mutexes of a request are in range and ascend.
locks_of-Ascends :
    (op : OpType) (r : TlvRequest)
    → r.value.header.account_id < max_bank_accounts
    → ArgsInRange r op
    → Ascends [] (locks_of op r)
locks_of-Ascends op_create_account r inside args = (args, (λ j h. absurd (cc h)), tt)
locks_of-Ascends op_balance r inside args = (inside, (λ j h. absurd (cc h)), tt)
locks_of-Ascends op_transfer r inside args = ground arith
locks_of-Ascends op_shutdown r inside args = tt
locks_of-Ascends op_max_number r inside args = tt
locks_of-Ascends (op_unknown k) r inside args = tt

module _ (n i : ℕ) (serial : Bank) (s : Shared) (v : Inv n serial s) (inside : i < n) where
  abbrev Kept : Shared → Type 0
  Kept = Inv n serial

  -- A step to `p'` that writes no account.
  quiet :
      (p' : Phase) (m' : ℕ → Option ℕ) (rest : List TlvRequest)
      → ((id : ℕ) → changing (s.offices i) id ≡ false)
      → Knows s.bank serial p'
      → ((id : ℕ) → holds p' id ≡ true → m' id ≡ some i)
      → ((id : ℕ) → m' id ≡ some i → holds p' id ≡ true)
      → ((id j : ℕ) → j ≢ i → m' id ≡ some j → s.account_mutexes id ≡ some j)
      → ((id j : ℕ) → j ≢ i → s.account_mutexes id ≡ some j → m' id ≡ some j)
      → AllAllowed rest
      → Kept (record (go i p' s) { account_mutexes = m'; incoming = rest })
  quiet p' m' rest still known takes keeps leaves respects coming =
      Moves-Inv n i serial s (record (go i p' s) { account_mutexes = m'; incoming = rest }) v inside
        p' serial
        (record {
          known = known;
          frame = λ id h. ((refl, refl), (refl, refl));
          grows = λ id h. h;
          settles = λ id c h. h (still id);
          trails = v.behind;
          fifo = v.same_fifo;
          stays_sound = v.sound;
          takes = takes;
          keeps = keeps;
          leaves = leaves;
          respects = respects;
        })
        refl coming

  -- one that holds the same mutexes
  same_locks :
      (p p' : Phase) (rest : List TlvRequest)
      → s.offices i ≡ p
      → ((id : ℕ) → changing p id ≡ false)
      → ((id : ℕ) → holds p' id ≡ holds p id)
      → Knows s.bank serial p'
      → AllAllowed rest
      → Kept (record (go i p' s) { incoming = rest })
  same_locks p p' rest e still same known coming =
      quiet p' s.account_mutexes rest (λ id. rw e (still id)) known
        (λ id h. v.owned i id (ground (arith, same id, ap (λ q. holds q id) e)))
        (λ id h. ground (arith, same id, ap (λ q. holds q id) e, v.owner id i h)) (λ id j ne h. h)
        (λ id j ne h. h) coming

  -- one that takes the mutex x
  takes_lock :
      (p p' : Phase) (x : ℕ)
      → s.offices i ≡ p
      → ((id : ℕ) → changing p id ≡ false)
      → is_unowned (s.account_mutexes x) ≡ true
      → ((id : ℕ) → holds p' id ≡ (x == id || holds p id))
      → Knows s.bank serial p'
      → Kept (record (go i p' s) { account_mutexes = update s.account_mutexes x (some i) })
  takes_lock p p' x e still free same known =
      quiet p' (update s.account_mutexes x (some i)) s.incoming (λ id. rw e (still id)) known
        (λ id h. ground (arith, same id, ap (λ q. holds q id) e, v.owned i id))
        (λ id h. ground (arith, same id, ap (λ q. holds q id) e, v.owner id i))
        (λ id j ne h. ground (arith, same id)) (λ id j ne h. ground (arith, same id)) v.allowed

  -- one that gives back the mutex x
  gives_lock :
      (p p' : Phase) (x : ℕ)
      → s.offices i ≡ p
      → ((id : ℕ) → changing p id ≡ false)
      → holds p x ≡ true
      → holds p' x ≡ false
      → ((id : ℕ) → x ≢ id → holds p' id ≡ holds p id)
      → Knows s.bank serial p'
      → Kept (record (go i p' s) { account_mutexes = update s.account_mutexes x none })
  gives_lock p p' x e still held freed same known =
      quiet p' (update s.account_mutexes x none) s.incoming (λ id. rw e (still id)) known
        (λ id h. ground (arith, same id, freed, ap (λ q. holds q id) e, v.owned i id))
        (λ id h. ground (arith, same id, ap (λ q. holds q id) e, v.owner id i))
        (λ id j ne h. ground arith)
        (λ id j ne h. ground (arith, v.owned i x, ap (λ q. holds q x) e)) v.allowed

  pub receives-Inv :
      (xs : List TlvRequest)
      → s.incoming ≡ xs
      → s.offices i ≡ p_idle
      → All Kept (elim xs [
        | [] ↦ none
        | request ∷ rest ↦ some (record (go i (p_login request) s) { incoming = rest })
      ])
  receives-Inv [] e at = tt
  receives-Inv (r ∷ rest) e at =
      let coming = subst AllAllowed e v.allowed in
      same_locks p_idle (p_login r) rest at (λ id. refl) (λ id. refl) coming.0 coming.1

  module _ (sha256 : Text → Text) (salts : ℕ → Text) where
    pub login-Inv :
        (r : TlvRequest)
        → s.offices i ≡ p_login r
        → All Kept (manage_move sha256 salts i (p_login r) s)
    unfolding manage_move
    login-Inv r e = when-All Kept _ _ (λ g.
        takes_lock (p_login r) (p_validates r) r.value.header.account_id e (λ id. refl) g
          (λ id. ground arith) (known r e))
      where
        known : (r : TlvRequest) → s.offices i ≡ p_login r → Knows s.bank serial (p_validates r)
        known r e = subst (Knows s.bank serial) e (v.knows i)

    is_valid-used :
        (b : Bank) (r : TlvRequest)
        → is_valid sha256 salts b r ≡ true
        → b.used_accounts r.value.header.account_id ≡ true
    is_valid-used b r h = ground arith

    pub validates-Inv :
        (r : TlvRequest)
        → s.offices i ≡ p_validates r
        → All Kept (manage_move sha256 salts i (p_validates r) s)
    unfolding manage_move
    validates-Inv r e =
        same_locks (p_validates r) (p_logout r (is_valid sha256 salts s.bank r)) s.incoming e
          (λ id. refl) (λ id. refl)
          (subst (Knows s.bank serial) e (v.knows i), is_valid-used s.bank r) v.allowed

    pub logout-Inv :
        (r : TlvRequest) (valid : Bool)
        → s.offices i ≡ p_logout r valid
        → All Kept (manage_move sha256 salts i (p_logout r valid) s)
    unfolding manage_move
    logout-Inv r false e =
        gives_lock (p_logout r false) p_idle r.value.header.account_id e (λ id. refl) (ground arith)
          refl (λ id ne. ground arith) tt
    logout-Inv r true e =
        let (ok, used) = subst (Knows s.bank serial) e (v.knows i) in
        gives_lock (p_logout r true) (p_works r [] (locks_of r.type r)) r.value.header.account_id e
          (λ id. refl) (ground arith) refl (λ id ne. ground arith)
          (ok, used refl, tt, locks_of-Ascends r.type r ok.0.id_in ok.0.args_in, λ id h. inr h)

    pub locks-Inv :
        (r : TlvRequest) (held : List ℕ) (x : ℕ) (todo : List ℕ)
        → s.offices i ≡ p_works r held (x ∷ todo)
        → All Kept (manage_move sha256 salts i (p_works r held (x ∷ todo)) s)
    unfolding manage_move
    locks-Inv r held x todo e = when-All Kept _ _ (λ g.
        let (ok, used, distinct, ascends, covers) = subst (Knows s.bank serial) e (v.knows i) in
        takes_lock (p_works r held (x ∷ todo)) (p_works r (x ∷ held) todo) x e (λ id. refl) g
          (λ id. ground arith)
          (
            ok,
            used,
            (free held x todo e g, distinct),
            ascends.2,
            λ id h. ground (arith, covers id h),
          ))
      where
        free :
            (held : List ℕ) (x : ℕ) (todo : List ℕ)
            → s.offices i ≡ p_works r held (x ∷ todo)
            → is_unowned (s.account_mutexes x) ≡ true
            → is_locked x held ≡ false
        free held x todo e g = ground (arith, v.owned i x, ap (λ q. holds q x) e)

    pub unlocks-Inv :
        (held : List ℕ)
        → s.offices i ≡ p_unlocks held
        → All Kept (manage_move sha256 salts i (p_unlocks held) s)
    unfolding manage_move
    unlocks-Inv [] e =
        same_locks (p_unlocks []) p_idle s.incoming e (λ id. refl) (λ id. refl) tt v.allowed
    unlocks-Inv (x ∷ held) e =
        let (fresh, distinct) = subst (Knows s.bank serial) e (v.knows i) in
        gives_lock (p_unlocks (x ∷ held)) (p_unlocks held) x e (λ id. refl) (ground arith) fresh
          (λ id ne. ground arith) distinct
