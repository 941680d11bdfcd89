-- ===== src/Parallel/Funds.antt =====
-- Offices at work together make no money and lose none.
use sope.Prelude.{
  ℕ, ◌+◌, ◌<◌, ◌≡◌, refl, subst, ap, ◌∙◌, List, [], ◌∷◌, Option, none, some, arith, Text,
}
use sope.Types.{TlvRequest}
use sope.Office.Sound.{Bank, IsSound, total_funds}
use sope.Office.Spec.{perform}
use sope.Office.Invariant.{deposited}
use sope.Office.Keeps.{perform-Keeps}
use sope.Parallel.{
  Phase, p_idle, p_login, p_validates, p_logout, p_works, p_takes, p_adds, p_creates, p_unlocks,
  Shared, replay, manage_move, opening, go,
}
use sope.Threads.Invariant.{All, when-All}
use sope.Parallel.Phases.{Knows}
use sope.Parallel.Moves.{Inv, AllAllowed}
use sope.Parallel.Serial.{manage_move-Inv, turns-keep, reached, opening-Inv, take_turns-serial}

module _ (sha256 : Text → Text) (salts : ℕ → Text) (b : Bank) where
  -- the first balances of the accounts that these requests create, done one after the other
  unfoldable pub deposits : List (TlvRequest × Text) → ℕ
  deposits [] = 0
  deposits ((r, salt) ∷ earlier) =
      deposited r.type r (perform sha256 salt 0 r.type (replay sha256 salts b earlier) r).0
      + deposits earlier

module _ (sha256 : Text → Text) (salts : ℕ → Text) (n : ℕ) (b : Bank) where
  abbrev Kept : Shared → Type 0
  Kept s = Inv n (replay sha256 salts b s.order) s

  abbrev Balanced : Shared → Type 0
  Balanced s =
      total_funds (replay sha256 salts b s.order) ≡ total_funds b + deposits sha256 salts b s.order

  receives :
      (s : Shared) (i : ℕ) (xs : List TlvRequest)
      → Balanced s
      → All Balanced (elim xs [
        | [] ↦ none
        | request ∷ rest ↦ some (record (go i (p_login request) s) { incoming = rest })
      ])
  receives s i [] h = tt
  receives s i (r ∷ rest) h = h

  manage_move-Balanced :
      (s : Shared) (i : ℕ) (p : Phase)
      → Kept s
      → Balanced s
      → s.offices i ≡ p
      → All Balanced (manage_move sha256 salts i p s)
  unfolding manage_move replay deposits
  manage_move-Balanced s i p_idle v h e = receives s i s.incoming h
  manage_move-Balanced s i (p_login r) v h e = when-All Balanced _ _ (λ g. h)
  manage_move-Balanced s i (p_validates r) v h e = h
  manage_move-Balanced s i (p_logout r valid) v h e = h
  manage_move-Balanced s i (p_works r held (x ∷ todo)) v h e = when-All Balanced _ _ (λ g. h)
  manage_move-Balanced s i (p_works r held []) v h e =
      let (allowed, used, distinct, ascends, covers) =
        subst (Knows s.bank (replay sha256 salts b s.order)) e (v.knows i) in
      omega (
        arith,
        h,
        (perform-Keeps sha256 (salts s.salts_made) 0 (replay sha256 salts b s.order) r v.sound
            r.type allowed.0.id_in allowed.0.args_in allowed.1 (v.behind _ used)).1,
      )
  manage_move-Balanced s i (p_takes r held) v h e = h
  manage_move-Balanced s i (p_adds r held) v h e = h
  manage_move-Balanced s i (p_creates r account held) v h e = h
  manage_move-Balanced s i (p_unlocks []) v h e = h
  manage_move-Balanced s i (p_unlocks (x ∷ held)) v h e = h

  opening-Balanced : (requests : List TlvRequest) → Balanced (opening b requests)
  unfolding replay deposits
  opening-Balanced requests = omega arith

  abbrev Both : Shared → Type 0
  Both s = Kept s × Balanced s

  All-pair : (o : Option Shared) → All Kept o → All Balanced o → All Both o
  All-pair none p q = tt
  All-pair (some s) p q = (p, q)

  Both-reached :
      (requests : List TlvRequest) (schedule : List ℕ)
      → IsSound b
      → AllAllowed requests
      → Both (reached sha256 salts n b requests schedule)
  Both-reached requests schedule sound allowed =
      turns-keep sha256 salts n b Both
        (λ s i h inside.
          All-pair _ (manage_move-Inv sha256 salts n b s i (s.offices i) h.0 inside refl)
            (manage_move-Balanced s i (s.offices i) h.0 h.1 refl))
        schedule (opening b requests)
        (opening-Inv sha256 salts n b requests sound allowed, opening-Balanced requests)

  -- Whatever the schedule of n offices, from a well-formed bank and requests in range: when all
  -- offices are idle again, the money in the bank is what it was at first, and the first balances
  -- of the accounts that were created.
  pub take_turns-funds :
      (requests : List TlvRequest) (schedule : List ℕ)
      → IsSound b
      → AllAllowed requests
      → ((i : ℕ) → i < n → (reached sha256 salts n b requests schedule).offices i ≡ p_idle)
      → let s = reached sha256 salts n b requests schedule in
        total_funds s.bank ≡ total_funds b + deposits sha256 salts b s.order
  take_turns-funds requests schedule sound allowed idle =
      ap total_funds (take_turns-serial sha256 salts n b requests schedule sound allowed idle).0
      ∙ (Both-reached requests schedule sound allowed).1
