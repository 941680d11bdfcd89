-- ===== src/Parallel/Tests.antt =====
-- Two offices that transfer between the same two accounts in opposite directions, step by step in
-- turn.
use sope.Prelude.{
  ℕ, zero, suc, ◌+◌, ◌<◌, ◌≡◌, ◌≢◌, refl, true, List, [], ◌∷◌, none, Text, arith, inl, str_eq,
}
use sope.Types.{TlvRequest, op_transfer}
use sope.Office.Sound.{bank, total_funds}
use sope.Parallel.{p_idle, Shared, manage_move, take_turns, transfer_checks}
use sope.Parallel.Phases.{holds}
use sope.Parallel.Moves.{AllAllowed}
use sope.Parallel.Serial.{reached, take_turns-exclusive}
use sope.Parallel.Funds.{deposits, take_turns-funds}
use sope.Parallel.Progress.{take_turns-moves}
use sope.Samples.{toy_sha256, start, start-IsSound, pay, request_of}

abbrev pay_back : TlvRequest
pay_back = request_of op_transfer 1 2 10

abbrev salts : ℕ → Text
salts k = k ∷ []

abbrev two : List TlvRequest
two = pay ∷ pay_back ∷ []

two-AllAllowed : AllAllowed two
two-AllAllowed = (
  (record { id_in = omega arith; args_in = omega arith; short = inl (omega arith) }, tt),
  ((record { id_in = omega arith; args_in = omega arith; short = inl (omega arith) }, tt), tt),
)

abbrev in_turn : ℕ → List ℕ
in_turn zero = []
in_turn (suc k) = 0 ∷ 1 ∷ in_turn k

abbrev at_end : Shared
at_end = reached toy_sha256 salts 2 (bank start) two (in_turn 20)

at_end-idle : (i : ℕ) → i < 2 → at_end.offices i ≡ p_idle
unfolding take_turns manage_move transfer_checks str_eq
at_end-idle zero h = refl
at_end-idle (suc zero) h = refl
at_end-idle (suc (suc i)) h = absurd (omega arith)

take_turns-funds_example :
    total_funds at_end.bank
    ≡ total_funds (bank start) + deposits toy_sha256 salts (bank start) at_end.order
take_turns-funds_example =
    take_turns-funds toy_sha256 salts 2 (bank start) two (in_turn 20) start-IsSound two-AllAllowed
      at_end-idle

-- Both offices are at the locks of their transfers.
abbrev midway : Shared
midway = reached toy_sha256 salts 2 (bank start) two (in_turn 5)

midway-begun : midway.offices 0 ≢ p_idle
unfolding take_turns manage_move transfer_checks str_eq
midway-begun = λ e. cc

take_turns-moves_example :
    (j : ℕ) × (j < 2) × (manage_move toy_sha256 salts j (midway.offices j) midway ≢ none)
take_turns-moves_example =
    take_turns-moves toy_sha256 salts 2 (bank start) two (in_turn 5) 0 start-IsSound two-AllAllowed
      (omega arith) midway-begun

office_0-holds : holds (midway.offices 0) 1 ≡ true
unfolding take_turns manage_move str_eq
office_0-holds = refl

take_turns-exclusive_example : ◌≡◌ {A = ℕ} 0 0
take_turns-exclusive_example =
    take_turns-exclusive toy_sha256 salts 2 (bank start) two (in_turn 5) start-IsSound
      two-AllAllowed 0 0 1 office_0-holds office_0-holds

-- k rounds of both offices
abbrev rounds : ℕ → List (List ℕ)
rounds zero = []
rounds (suc k) = (0 ∷ 1 ∷ []) ∷ rounds k
