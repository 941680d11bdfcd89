-- ===== src/Parallel/Fair.antt =====
-- Offices that all get their turns again and again come to the end of their requests.
use sope.Prelude.{ℕ, ◌<◌, ◌≡◌, refl, Bool, true, false, List, [], ◌∷◌, ◌++◌, none, Text, ◌==◌, ◌||◌}
use sope.Office.Sound.{Bank}
use sope.Parallel.{p_idle, Shared, manage_move, take_turns, replay}
use sope.Parallel.Moves.{Inv}
use sope.Parallel.Work.{left}

-- whether an office is named in a list of turns
abbrev pub has_turn : ℕ → List ℕ → Bool
has_turn i [] = false
has_turn i (j ∷ js) = (i == j) || has_turn i js

abbrev pub concat : List (List ℕ) → List ℕ
concat [] = []
concat (xs ∷ xss) = xs ++ concat xss

-- In every round each of the n offices has a turn, and any of them more than one.
abbrev pub AllFair : ℕ → List (List ℕ) → Type 0
AllFair n [] = Unit {0}
AllFair n (round ∷ rounds) = ((i : ℕ) → i < n → has_turn i round ≡ true) × AllFair n rounds

-- All offices are idle, and no request is left.
abbrev pub IsDone : ℕ → Shared → Type 0
IsDone n s = ((i : ℕ) → i < n → s.offices i ≡ p_idle) × (s.incoming ≡ [])

module _ (sha256 : Text → Text) (salts : ℕ → Text) (n : ℕ) (b : Bank) where
  abbrev after : List ℕ → Shared → Shared
  after is s = take_turns sha256 salts n is s

  abbrev Stuck : List ℕ → Shared → Type 0
  Stuck is s =
      (i : ℕ) → has_turn i is ≡ true → i < n → manage_move sha256 salts i (s.offices i) s ≡ none

  abbrev IsLess : Shared → Shared → Type 0
  IsLess s' s = left sha256 salts n s' < left sha256 salts n s

  after-cons : (i : ℕ) (is : List ℕ) (s : Shared) → after (i ∷ is) s ≡ after is (after (i ∷ []) s)
  unfolding take_turns
  after-cons i is s = refl

  abbrev serial : Shared → Bank
  serial s = replay sha256 salts b s.order

  abbrev Kept : Shared → Type 0
  Kept s = Inv n (serial s) s
