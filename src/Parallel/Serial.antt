-- ===== src/Parallel/Serial.antt =====
-- Offices at work together do what the requests do one after the other.
use sope.Prelude.{
  ℕ, ◌<◌, ◌≡◌, inl, inr, refl, sym, subst, ap, Bool, true, false, List, [], ◌∷◌, Option, none, some,
  arith, Text, Bool-cases, ltb, fun_ext,
}
use native.Mathlib.Decide.{dec_lt}
use sope.Types.{TlvRequest}
use sope.Office.Sound.{Bank, IsSound}
use sope.Parallel.{
  Phase, p_idle, p_login, p_validates, p_logout, p_works, p_takes, p_adds, p_creates, p_unlocks,
  Shared, replay, manage_move, take_turns, opening, go,
}
use sope.Threads.{when}
use sope.Threads.Invariant.{All}
use sope.Parallel.Phases.{holds, changing, Agree}
use sope.Parallel.Moves.{Inv, Moves-Inv, AllAllowed}
use sope.Parallel.Locking.{
  receives-Inv, login-Inv, validates-Inv, logout-Inv, locks-Inv, unlocks-Inv,
}
use sope.Parallel.Writing.{works-Moves, takes-Moves, adds-Moves, creates-Moves}

Bank-ext :
    (b c : Bank)
    → b.accounts ≡ c.accounts
    → b.used_accounts ≡ c.used_accounts
    → b.fifo_open ≡ c.fifo_open
    → b ≡ c
Bank-ext b c p q r = cc

when-map :
    {A : Type 0} (P Q : A → Type 0) (b : Bool) (a : A)
    → (P a → Q a)
    → All P (when b a)
    → All Q (when b a)
when-map P Q true a f h = f h
when-map P Q false a f h = tt

module _ (sha256 : Text → Text) (salts : ℕ → Text) (n : ℕ) (b : Bank) where
  -- the bank of the requests done so far, one after the other
  abbrev serial_of : Shared → Bank
  serial_of s = replay sha256 salts b s.order

  abbrev Kept : Shared → Type 0
  Kept s = Inv n (serial_of s) s

  receives :
      (s : Shared) (i : ℕ) (xs : List TlvRequest)
      → All (Inv n (serial_of s)) (elim xs [
        | [] ↦ none
        | request ∷ rest ↦ some (record (go i (p_login request) s) { incoming = rest })
      ])
      → All Kept (elim xs [
        | [] ↦ none
        | request ∷ rest ↦ some (record (go i (p_login request) s) { incoming = rest })
      ])
  receives s i [] h = tt
  receives s i (r ∷ rest) h = h

  pub manage_move-Inv :
      (s : Shared) (i : ℕ) (p : Phase)
      → Kept s
      → i < n
      → s.offices i ≡ p
      → All Kept (manage_move sha256 salts i p s)
  unfolding manage_move replay
  manage_move-Inv s i p_idle v inside e =
      receives s i s.incoming (receives-Inv n i (serial_of s) s v inside s.incoming refl e)
  manage_move-Inv s i (p_login r) v inside e =
      when-map (Inv n (serial_of s)) Kept _ _ (λ h. h)
        (login-Inv n i (serial_of s) s v inside sha256 salts r e)
  manage_move-Inv s i (p_validates r) v inside e =
      validates-Inv n i (serial_of s) s v inside sha256 salts r e
  manage_move-Inv s i (p_logout r valid) v inside e =
      logout-Inv n i (serial_of s) s v inside sha256 salts r valid e
  manage_move-Inv s i (p_works r held (x ∷ todo)) v inside e =
      when-map (Inv n (serial_of s)) Kept _ _ (λ h. h)
        (locks-Inv n i (serial_of s) s v inside sha256 salts r held x todo e)
  manage_move-Inv s i (p_works r held []) v inside e =
      Moves-Inv n i (serial_of s) s _ v inside _ _
        (works-Moves n i (serial_of s) s v sha256 salts (salts s.salts_made) r held e) refl
        v.allowed
  manage_move-Inv s i (p_takes r held) v inside e =
      Moves-Inv n i (serial_of s) s _ v inside _ _ (takes-Moves n i (serial_of s) s v r held e) refl
        v.allowed
  manage_move-Inv s i (p_adds r held) v inside e =
      Moves-Inv n i (serial_of s) s _ v inside _ _ (adds-Moves n i (serial_of s) s v r held e) refl
        v.allowed
  manage_move-Inv s i (p_creates r account held) v inside e =
      Moves-Inv n i (serial_of s) s _ v inside _ _
        (creates-Moves n i (serial_of s) s v r held account e) refl v.allowed
  manage_move-Inv s i (p_unlocks []) v inside e =
      unlocks-Inv n i (serial_of s) s v inside sha256 salts [] e
  manage_move-Inv s i (p_unlocks (x ∷ held)) v inside e =
      unlocks-Inv n i (serial_of s) s v inside sha256 salts (x ∷ held) e

  -- What every step keeps, every schedule keeps.
  module _ (P : Shared → Type 0)
      (keeps : (s : Shared) (i : ℕ)
        → P s
        → i < n
        → All P (manage_move sha256 salts i (s.offices i) s)) where
    turn-keeps :
        (s : Shared) (o : Option Shared) → P s → All P o → P (elim o [ none ↦ s | some s' ↦ s' ])
    turn-keeps s none v all = v
    turn-keeps s (some s') v all = all

    pub turns-keep : (is : List ℕ) (s : Shared) → P s → P (take_turns sha256 salts n is s)
    unfolding take_turns
    turns-keep [] s v = v
    turns-keep (i ∷ is) s v = turns-keep is _ (elim (Bool-cases (ltb i n)) [
      | inl inside ↦
          rw inside (
            turn-keeps s (manage_move sha256 salts i (s.offices i) s) v
              (keeps s i v (ground arith)))
      | inr outside ↦ rw outside v
    ])

  pub opening-Inv :
      (requests : List TlvRequest) → IsSound b → AllAllowed requests → Kept (opening b requests)
  unfolding replay
  opening-Inv requests sound allowed = record {
    knows = λ i. tt;
    owned = λ i id h. absurd (cc h);
    owner = λ id i h. absurd (cc h);
    settled = λ id h. (refl, refl);
    behind = λ id h. h;
    same_fifo = refl;
    sound = sound;
    allowed = allowed;
    outside = λ i h. refl;
  }

  -- the state after a schedule
  abbrev pub reached : List TlvRequest → List ℕ → Shared
  reached requests schedule = take_turns sha256 salts n schedule (opening b requests)

  module _ (requests : List TlvRequest) (schedule : List ℕ) (sound : IsSound b)
      (allowed : AllAllowed requests) where
    abbrev state : Shared
    state = reached requests schedule

    pub reached-Inv : Kept state
    reached-Inv =
        turns-keep Kept (λ s i v inside. manage_move-Inv s i (s.offices i) v inside refl) schedule
          (opening b requests) (opening-Inv requests sound allowed)

    pub take_turns-serial :
        ((i : ℕ) → i < n → state.offices i ≡ p_idle)
        → (state.bank ≡ replay sha256 salts b state.order) × IsSound state.bank
    take_turns-serial idle = (same, subst IsSound (sym same) reached-Inv.sound)
      where
        all_idle : (j : ℕ) → state.offices j ≡ p_idle
        all_idle j = elim (dec_lt j n) [
          | yes inside ↦ idle j inside
          | no beyond ↦ reached-Inv.outside j (omega arith)
        ]

        agree : (id : ℕ) → Agree state.bank (serial_of state) id
        agree id = reached-Inv.settled id (λ j. ap (λ p. changing p id) (all_idle j))

        same : state.bank ≡ serial_of state
        same =
            Bank-ext state.bank (serial_of state) (fun_ext (λ id. (agree id).0))
              (fun_ext (λ id. (agree id).1)) reached-Inv.same_fifo

    -- From a well-formed bank and requests in range with allowed balances, whatever the schedule of
    -- n offices, no two of them hold the mutex of the same account.
    pub take_turns-exclusive :
        (i j id : ℕ) → holds (state.offices i) id ≡ true → holds (state.offices j) id ≡ true → i ≡ j
    take_turns-exclusive i j id a c =
        ground (arith, reached-Inv.owned i id a, reached-Inv.owned j id c)
