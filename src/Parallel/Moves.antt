-- ===== src/Parallel/Moves.antt =====
-- The invariant of offices at work, and what a step of one of them has to show for it.
use sope.Prelude.{
  ℕ, ◌≤◌, ◌<◌, ◌≡◌, ◌≢◌, inl, inr, sym, subst, ap, ◌∙◌, true, false, List, [], ◌∷◌, Option, some,
  arith, Bool-cases,
}
use sope.Prelude.Array.{update}
use native.Mathlib.Decide.{ℕ_discrete}
use sope.Types.{TlvRequest}
use sope.Office.Sound.{Bank, IsSound}
use sope.Parallel.{Phase, p_idle, Shared}
use sope.Parallel.Phases.{holds, changing, Agree, Allowed, Knows, Knows-frame}

abbrev pub AllAllowed : List TlvRequest → Type 0
AllAllowed [] = Unit {0}
AllAllowed (r ∷ rs) = Allowed r × AllAllowed rs

-- `serial` is the bank in which the requests of `order` are done one after the other.
pub record Inv (n : ℕ) (serial : Bank) (s : Shared) : Type 0 where
  pub knows : (i : ℕ) → Knows s.bank serial (s.offices i)
  pub owned : (i id : ℕ) → holds (s.offices i) id ≡ true → s.account_mutexes id ≡ some i
  pub owner : (id i : ℕ) → s.account_mutexes id ≡ some i → (i < n) × (holds (s.offices i) id ≡ true)
  pub settled : (id : ℕ) → ((j : ℕ) → changing (s.offices j) id ≡ false) → Agree s.bank serial id
  pub behind : (id : ℕ) → s.bank.used_accounts id ≡ true → serial.used_accounts id ≡ true
  pub same_fifo : s.bank.fifo_open ≡ serial.fifo_open
  pub sound : IsSound serial
  pub allowed : AllAllowed s.incoming
  pub outside : (i : ℕ) → n ≤ i → s.offices i ≡ p_idle

-- Office i goes to `p'`, the mutexes become `m'`, and the banks `b'` and `serial'`.
pub record Moves (i : ℕ) (serial : Bank) (s : Shared) (p' : Phase) (m' : ℕ → Option ℕ)
    (b' serial' : Bank) : Type 0 where
  pub known : Knows b' serial' p'
  pub frame :
      (id : ℕ) → holds (s.offices i) id ≡ false → Agree s.bank b' id × Agree serial serial' id
  pub grows : (id : ℕ) → s.bank.used_accounts id ≡ true → b'.used_accounts id ≡ true
  pub settles :
      (id : ℕ)
      → changing p' id ≡ false
      → (changing (s.offices i) id ≡ false → Agree s.bank serial id)
      → Agree b' serial' id
  pub trails : (id : ℕ) → b'.used_accounts id ≡ true → serial'.used_accounts id ≡ true
  pub fifo : b'.fifo_open ≡ serial'.fifo_open
  pub stays_sound : IsSound serial'
  pub takes : (id : ℕ) → holds p' id ≡ true → m' id ≡ some i
  pub keeps : (id : ℕ) → m' id ≡ some i → holds p' id ≡ true
  pub leaves : (id j : ℕ) → j ≢ i → m' id ≡ some j → s.account_mutexes id ≡ some j
  pub respects : (id j : ℕ) → j ≢ i → s.account_mutexes id ≡ some j → m' id ≡ some j

module _ (n i : ℕ) (serial : Bank) (s s' : Shared) (v : Inv n serial s) (inside : i < n) where
  module _ (p' : Phase) (serial' : Bank)
      (m : Moves i serial s p' s'.account_mutexes s'.bank serial')
      (offices : s'.offices ≡ update s.offices i p') where
    at_i : s'.offices i ≡ p'
    at_i = ap (λ f. f i) offices ∙ ground arith

    at_other : (j : ℕ) → j ≢ i → s'.offices j ≡ s.offices j
    at_other j ne = ap (λ f. f j) offices ∙ ground arith

    -- what another office holds, office i does not
    not_mine : (j id : ℕ) → j ≢ i → holds (s.offices j) id ≡ true → holds (s.offices i) id ≡ false
    not_mine j id ne h = elim (Bool-cases (holds (s.offices i) id)) [
      | inl mine ↦ ground (arith, v.owned i id mine, v.owned j id h)
      | inr free ↦ free
    ]

    Knows-other : (j : ℕ) → j ≢ i → Knows s'.bank serial' (s.offices j)
    Knows-other j ne =
        Knows-frame s.bank serial s'.bank serial' (s.offices j)
          (λ id h. m.frame id (not_mine j id ne h)) m.grows (v.knows j)

    pub Moves-Inv : AllAllowed s'.incoming → Inv n serial' s'
    Moves-Inv coming = record {
      knows = λ j. elim (ℕ_discrete j i) [
        | yes e ↦ subst (Knows s'.bank serial') (sym (ap s'.offices e ∙ at_i)) m.known
        | no ne ↦ subst (Knows s'.bank serial') (sym (at_other j ne)) (Knows-other j ne)
      ];
      owned = λ j id h. elim (ℕ_discrete j i) [
        | yes e ↦ ground (arith, m.takes id, ap s'.offices e, at_i)
        | no ne ↦ ground (arith, at_other j ne, v.owned j id, m.respects id j ne)
      ];
      owner = λ id j h. elim (ℕ_discrete j i) [
        | yes e ↦ ground (arith, m.keeps id, ap s'.offices e, at_i)
        | no ne ↦ ground (arith, at_other j ne, v.owner id j, m.leaves id j ne)
      ];
      settled = λ id all. m.settles id (rw at_i at (all i)) (λ mine. v.settled id (λ j.
          elim (ℕ_discrete j i) [ yes e ↦ rw e mine | no ne ↦ rw (at_other j ne) at (all j) ]));
      behind = m.trails;
      same_fifo = m.fifo;
      sound = m.stays_sound;
      allowed = coming;
      outside = λ j h. at_other j (λ e. omega arith) ∙ v.outside j h;
    }
