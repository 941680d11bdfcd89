-- ===== src/Parallel/Progress.antt =====
-- No deadlock among the offices: mutexes are taken in the order of their accounts.
use sope.Prelude.{
  ℕ, zero, suc, ◌+◌, ◌≤◌, ◌<◌, ◌≡◌, ◌≢◌, ◌⊎◌, inl, inr, refl, ap, true, false, List, [], ◌∷◌,
  Option, none, some, arith, Text, Bool-cases,
}
use sope.Types.{TlvRequest, max_bank_accounts}
use sope.Office.Sound.{Bank, IsSound}
use sope.Parallel.{
  Phase, p_idle, p_login, p_validates, p_logout, p_works, p_takes, p_adds, p_creates, p_unlocks,
  Shared, manage_move, is_unowned,
}
use sope.Parallel.Phases.{holds, Knows}
use sope.Parallel.Moves.{Inv, AllAllowed}
use sope.Parallel.Serial.{reached, reached-Inv}

module _ (sha256 : Text → Text) (salts : ℕ → Text) (n : ℕ) (serial : Bank) (s : Shared)
    (v : Inv n serial s) where
  -- some office can take a step
  abbrev pub CanMove : Type 0
  CanMove = (i : ℕ) × (i < n) × (manage_move sha256 salts i (s.offices i) s ≢ none)

  -- An office that has begun moves, or waits for a mutex that another holds: any account's at the
  -- login, when it holds none, and else one above those that it holds.
  abbrev Waits : ℕ → Phase → Type 0
  Waits i p =
      (x j : ℕ) × (s.account_mutexes x ≡ some j)
      × (x < max_bank_accounts)
      × ((id : ℕ) → holds p id ≡ true → id < x)

  owner_of : (m : Option ℕ) → is_unowned m ≡ false → (j : ℕ) × (m ≡ some j)
  owner_of none h = absurd (cc h)
  owner_of (some j) h = (j, refl)

  moves_or_Waits :
      (i : ℕ) (p : Phase)
      → Knows s.bank serial p
      → p ≢ p_idle
      → (manage_move sha256 salts i p s ≢ none) ⊎ Waits i p
  unfolding manage_move
  moves_or_Waits i p_idle k h = absurd (h refl)
  moves_or_Waits i (p_login r) k h =
      elim (Bool-cases (is_unowned (s.account_mutexes r.value.header.account_id))) [
        | inl free ↦ inl (rw free (λ x. cc))
        | inr taken ↦
            let (j, e) = owner_of _ taken in
            inr (r.value.header.account_id, j, e, k.0.id_in, λ id z. absurd (cc z))
      ]
  moves_or_Waits i (p_validates r) k h = inl (λ x. cc)
  moves_or_Waits i (p_logout r valid) k h = inl (λ x. cc)
  moves_or_Waits i (p_works r held (x ∷ todo)) k h =
      elim (Bool-cases (is_unowned (s.account_mutexes x))) [
        | inl free ↦ inl (rw free (λ x. cc))
        | inr taken ↦
            let (j, e) = owner_of _ taken in
            let (ok, used, distinct, ascends, covers) = k in inr (x, j, e, ascends.0, ascends.1)
      ]
  moves_or_Waits i (p_works r held []) k h = inl (λ x. cc)
  moves_or_Waits i (p_takes r held) k h = inl (λ x. cc)
  moves_or_Waits i (p_adds r held) k h = inl (λ x. cc)
  moves_or_Waits i (p_creates r account held) k h = inl (λ x. cc)
  moves_or_Waits i (p_unlocks []) k h = inl (λ x. cc)
  moves_or_Waits i (p_unlocks (x ∷ held)) k h = inl (λ x. cc)

  holds-begun : (p : Phase) (id : ℕ) → holds p id ≡ true → p ≢ p_idle
  holds-begun p id h e = cc (ap (λ q. holds q id) e, h)

  -- Along the owners the mutexes go up, and there are MAX_BANK_ACCOUNTS of them.
  owner-moves :
      (fuel x i : ℕ)
      → max_bank_accounts ≤ x + fuel
      → x < max_bank_accounts
      → s.account_mutexes x ≡ some i
      → CanMove
  owner-moves zero x i enough inside e = absurd (omega arith)
  owner-moves (suc fuel) x i enough inside e =
      let (small, mine) = v.owner x i e in
      elim (moves_or_Waits i (s.offices i) (v.knows i) (holds-begun _ x mine)) [
        | inl moves ↦ (i, small, moves)
        | inr (y, j, held, y_in, above) ↦
            owner-moves fuel y j (omega (arith, above x mine)) y_in held
      ]

  pub begun-CanMove : (i : ℕ) → i < n → s.offices i ≢ p_idle → CanMove
  begun-CanMove i inside begun = elim (moves_or_Waits i (s.offices i) (v.knows i) begun) [
    | inl moves ↦ (i, inside, moves)
    | inr (x, j, held, x_in, above) ↦ owner-moves max_bank_accounts x j (omega arith) x_in held
  ]

module _ (sha256 : Text → Text) (salts : ℕ → Text) (n : ℕ) (b : Bank) (requests : List TlvRequest)
    (schedule : List ℕ) where
  abbrev state : Shared
  state = reached sha256 salts n b requests schedule

  -- Whatever the schedule of n offices, from a well-formed bank and requests in range, the offices do
  -- not deadlock over the mutexes of the accounts: while one of them is in `manageRequest`, some
  -- office can take a step.
  pub take_turns-moves :
      (i : ℕ)
      → IsSound b
      → AllAllowed requests
      → i < n
      → state.offices i ≢ p_idle
      → (j : ℕ) × (j < n) × (manage_move sha256 salts j (state.offices j) state ≢ none)
  take_turns-moves i sound allowed inside begun =
      begun-CanMove sha256 salts n _ state
        (reached-Inv sha256 salts n b requests schedule sound allowed) i inside begun
