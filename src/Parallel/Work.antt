-- ===== src/Parallel/Work.antt =====
-- Each step of an office in `manageRequest` leaves it, and all offices together, less to do.
use sope.Prelude.{
  ℕ, ◌+◌, ◌*◌, ◌≤◌, ◌<◌, ◌≡◌, refl, sym, ap, ◌∙◌, Bool, true, false, List, [], ◌∷◌, Option, none,
  some, arith, Text, length,
}
use sope.Prelude.Array.{update, sum_below, sum_below-change}
use sope.Types.{
  TlvRequest, OpType, op_create_account, op_balance, op_transfer, op_shutdown, op_max_number,
  op_unknown,
}
use sope.Office.Sound.{Bank}
use sope.Parallel.{
  Phase, p_idle, p_login, p_validates, p_logout, p_works, p_takes, p_adds, p_creates, p_unlocks,
  Shared, go, manage_move, is_unowned, locks_of, after_checks,
}
use sope.Threads.{when}
use sope.Threads.Invariant.{All}

-- the steps that an office has before it, at most
abbrev pub work : Phase → ℕ
work p_idle = 0
work (p_login r) = 11
work (p_validates r) = 10
work (p_logout r valid) = 9
work (p_works r held todo) = 4 + length held + 2 * length todo
work (p_takes r held) = 3 + length held
work (p_adds r held) = 2 + length held
work (p_creates r account held) = 2 + length held
work (p_unlocks held) = 1 + length held

length-locks_of : (op : OpType) (r : TlvRequest) → length (locks_of op r) ≤ 2
length-locks_of op_create_account r = omega arith
length-locks_of op_balance r = omega arith
length-locks_of op_transfer r = ground arith
length-locks_of op_shutdown r = omega arith
length-locks_of op_max_number r = omega arith
length-locks_of (op_unknown k) r = omega arith

module _ (sha256 : Text → Text) (salts : ℕ → Text) (n : ℕ) where
  -- the steps that are left, at most
  unfoldable pub left : Shared → ℕ
  left s = sum_below n (λ i. work (s.offices i)) + 12 * length s.incoming

  left-falls :
      (s s' : Shared) (i : ℕ) (p' : Phase)
      → i < n
      → s'.offices ≡ update s.offices i p'
      → work p' + 12 * length s'.incoming < work (s.offices i) + 12 * length s.incoming
      → left s' < left s
  unfolding left
  left-falls s s' i p' inside e less = omega (
    arith,
    less,
    sum_below-change (λ j. work (s.offices j)) (λ j. work (s'.offices j)) i
        (λ j ne. ap work (sym (ap (λ f. f j) e ∙ ground arith))) n inside,
    at_i,
  )
    where
      at_i : work (s'.offices i) ≡ work p'
      at_i = ap work (ap (λ f. f i) e ∙ here)
        where
          here : update s.offices i p' i ≡ p'
          here = ground arith

  checks-work :
      (op : OpType) (b : Bank) (r : TlvRequest) (held : List ℕ) (salt : Text)
      → work (after_checks sha256 salts op b r held salt) < 4 + length held
  checks-work op_create_account b r held salt = ground arith
  checks-work op_balance b r held salt = omega arith
  checks-work op_transfer b r held salt = ground arith
  checks-work op_shutdown b r held salt = omega arith
  checks-work op_max_number b r held salt = omega arith
  checks-work (op_unknown k) b r held salt = omega arith

  abbrev pub Falls : Shared → Option Shared → Type 0
  Falls s o = All (λ s'. left s' < left s) o

  begins-Falls :
      (s : Shared) (i : ℕ) (xs : List TlvRequest)
      → i < n
      → s.offices i ≡ p_idle
      → s.incoming ≡ xs
      → Falls s (elim xs [
        | [] ↦ none
        | request ∷ rest ↦ some (record (go i (p_login request) s) { incoming = rest })
      ])
  begins-Falls s i [] inside e f = tt
  begins-Falls s i (r ∷ rest) inside e f =
      left-falls s (record (go i (p_login r) s) { incoming = rest }) i (p_login r) inside refl
        (omega (arith, ap work e, ap length f))

  takes-Falls :
      (s : Shared) (i : ℕ) (free : Bool) (m : ℕ → Option ℕ) (p' : Phase)
      → i < n
      → work p' < work (s.offices i)
      → Falls s (when free (record (go i p' s) { account_mutexes = m }))
  takes-Falls s i true m p' inside less =
      left-falls s (record (go i p' s) { account_mutexes = m }) i p' inside refl
        (omega (arith, less))
  takes-Falls s i false m p' inside less = tt

  -- every step of an office leaves less to do
  pub manage_move-Falls :
      (s : Shared) (i : ℕ) (p : Phase)
      → i < n
      → s.offices i ≡ p
      → Falls s (manage_move sha256 salts i p s)
  unfolding manage_move
  manage_move-Falls s i p_idle inside e = begins-Falls s i s.incoming inside e refl
  manage_move-Falls s i (p_login r) inside e =
      takes-Falls s i (is_unowned (s.account_mutexes r.value.header.account_id)) _ (p_validates r)
        inside (omega (arith, ap work e))
  manage_move-Falls s i (p_validates r) inside e =
      left-falls s _ i _ inside refl (omega (arith, ap work e))
  manage_move-Falls s i (p_logout r true) inside e =
      left-falls s _ i _ inside refl (omega (arith, ap work e, length-locks_of r.type r))
  manage_move-Falls s i (p_logout r false) inside e =
      left-falls s _ i _ inside refl (omega (arith, ap work e))
  manage_move-Falls s i (p_works r held (x ∷ todo)) inside e =
      takes-Falls s i (is_unowned (s.account_mutexes x)) _ (p_works r (x ∷ held) todo) inside
        (omega (arith, ap work e))
  manage_move-Falls s i (p_works r held []) inside e =
      left-falls s _ i _ inside refl
        (omega (arith, ap work e, checks-work r.type s.bank r held (salts s.salts_made)))
  manage_move-Falls s i (p_takes r held) inside e =
      left-falls s _ i (p_adds r held) inside refl (omega (arith, ap work e))
  manage_move-Falls s i (p_adds r held) inside e =
      left-falls s _ i (p_unlocks held) inside refl (omega (arith, ap work e))
  manage_move-Falls s i (p_creates r account held) inside e =
      left-falls s _ i (p_unlocks held) inside refl (omega (arith, ap work e))
  manage_move-Falls s i (p_unlocks []) inside e =
      left-falls s _ i p_idle inside refl (omega (arith, ap work e))
  manage_move-Falls s i (p_unlocks (x ∷ held)) inside e =
      left-falls s _ i (p_unlocks held) inside refl (omega (arith, ap work e))
