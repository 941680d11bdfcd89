-- ===== src/Queue/Tests.antt =====
-- Runs of the queue at concrete inputs.
use sope.Prelude.{ℕ, ◌≡◌, refl, List, [], ◌∷◌, some, arith}
use sope.Queue.{RequestQueue, queue_push}
use sope.Queue.Bounds.{IsValid}
use sope.Queue.Refine.{contents}
use sope.Queue.Resize.{queue_push-Pushed, Pushed}
use sope.Queue.Run.{Call, pushes, pops, fifo, run-fifo, Runs}

-- 8, then 9, round the end of the array
abbrev wrapped : RequestQueue ℕ
wrapped = record { front = 2; rear = 0; capacity = 3; size = 2; array = 9 ∷ 7 ∷ 8 ∷ [] }

-- 7, 8, 9: the next push doubles the capacity
abbrev full : RequestQueue ℕ
full = record { front = 1; rear = 0; capacity = 3; size = 3; array = 9 ∷ 7 ∷ 8 ∷ [] }

abbrev script : List (Call ℕ)
script = pushes 1 ∷ pushes 2 ∷ pops ∷ pops ∷ pushes 3 ∷ pops ∷ []

wrapped-IsValid : IsValid wrapped
wrapped-IsValid = record {
  nonempty = omega arith;
  small = omega arith;
  storage = refl;
  front_in = omega arith;
  rear_in = omega arith;
  size_in = omega arith;
  follows = omega arith;
}

full-IsValid : IsValid full
full-IsValid = record {
  nonempty = omega arith;
  small = omega arith;
  storage = refl;
  front_in = omega arith;
  rear_in = omega arith;
  size_in = omega arith;
  follows = omega arith;
}

contents-wrapped : contents 0 wrapped ≡ 8 ∷ 9 ∷ []
contents-wrapped = refl

push-full :
    queue_push 0 full 5
    ≡ some
        (record { front = 0; rear = 3; capacity = 6; size = 4; array = 7 ∷ 8 ∷ 9 ∷ 5 ∷ 0 ∷ 0 ∷ [] })
unfolding queue_push
push-full = refl

queue_push-Pushed_example :
    (r : RequestQueue ℕ) × (queue_push 0 full 5 ≡ some r) × Pushed 0 full 5 r
queue_push-Pushed_example = queue_push-Pushed 0 full 5 full-IsValid (omega arith)

run-fifo_example : Runs 0 script wrapped (8 ∷ 9 ∷ 1 ∷ []) (2 ∷ 3 ∷ [])
unfolding fifo
run-fifo_example =
    run-fifo 0 script wrapped (8 ∷ 9 ∷ []) (8 ∷ 9 ∷ 1 ∷ []) (2 ∷ 3 ∷ [])
      (record { valid = wrapped-IsValid; grows = omega arith; items = omega arith }) refl refl
