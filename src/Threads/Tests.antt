-- ===== src/Threads/Tests.antt =====
-- Two requests and one office.
use sope.Prelude.{
  arith, none, ◌≢◌, ◌⊎◌, ℕ, ◌<◌, ◌≤◌, ◌≡◌, refl, Bool, true, false, List, [], ◌∷◌, ◌++◌, some,
  replicate,
}
use sope.Queue.{queue_create, queue_push, store}
use sope.Queue.Refine.{contents}
use sope.Threads.{
  m_finished, m_pushes, o_pops, System, create_bank_offices, main_move, office_move, turn, run,
  buffer_size,
}
use sope.Threads.Invariant.{count, main_inside, office_inside, main_request}
use sope.Threads.Safety.{reached, run-bounded, run-exclusive, run-history}
use sope.Threads.Progress.{run-moves}
use sope.Threads.Finish.{run-finished}

abbrev undefined_flags : ℕ → Bool
undefined_flags i = true

abbrev two : List ℕ
two = 7 ∷ 8 ∷ []

-- The office starts, and takes 7 while the main thread adds 8.
abbrev between : List ℕ
between = 1 ∷ replicate 7 0 ++ (1 ∷ 1 ∷ 0 ∷ 1 ∷ 0 ∷ 1 ∷ [])

-- The main thread adds both, the office handles both, and the main thread waits for it.
abbrev to_the_end : List ℕ
to_the_end = replicate 13 0 ++ (replicate 20 1 ++ replicate 5 0)

abbrev at_end : System ℕ
at_end = reached 0 1 undefined_flags two to_the_end

at_end-finished : at_end.main ≡ m_finished
unfolding run turn main_move office_move create_bank_offices queue_create queue_push
at_end-finished = refl

run-finished_example :
    (at_end.taken ≡ two)
    × (contents 0 at_end.queue ≡ [])
    × ((test : ℕ → Bool) → count test at_end.handled ≡ count test two)
run-finished_example = run-finished 0 1 undefined_flags two to_the_end at_end-finished

abbrev midway : System ℕ
midway = reached 0 1 undefined_flags two between

run-bounded_example :
    (midway.queue.capacity ≡ buffer_size)
    × (midway.queue.size ≤ buffer_size)
    × ((r : ℕ)
        → midway.main ≡ m_pushes r
        → queue_push 0 midway.queue r ≡ some (store midway.queue r))
    × ((i : ℕ) → i < 1 → midway.offices i ≡ o_pops → 0 < midway.queue.size)
run-bounded_example = run-bounded 0 1 undefined_flags two between

run-exclusive_example :
    ((i j : ℕ)
      → office_inside (midway.offices i) ≡ true
      → office_inside (midway.offices j) ≡ true
      → i ≡ j)
    × ((i : ℕ) → office_inside (midway.offices i) ≡ true → main_inside midway.main ≡ false)
run-exclusive_example = run-exclusive 0 1 undefined_flags two between

run-history_example :
    midway.taken ++ (contents 0 midway.queue ++ (main_request midway.main ++ midway.incoming)) ≡ two
run-history_example = run-history 0 1 undefined_flags two between

midway-going : midway.main ≢ m_finished
unfolding run turn main_move office_move create_bank_offices queue_create queue_push
midway-going = λ e. cc

run-moves_example :
    (main_move 0 1 midway.main midway ≢ none)
    ⊎ ((i : ℕ) × (i < 1) × (office_move 0 i (midway.offices i) midway ≢ none))
run-moves_example = run-moves 0 1 undefined_flags two between (omega arith) midway-going
