-- ===== src/Threads/Safety.antt =====
-- Every schedule keeps the invariant, and what follows from it.
use sope.Prelude.{
  ℕ, ◌+◌, ◌-◌, ◌≤◌, ◌<◌, ◌≡◌, refl, Bool, true, false, List, [], ◌∷◌, ◌++◌, Option, none, some,
  arith, ◌==◌, ltb, Bool-cases, inl, inr,
}
use sope.Queue.{queue_push, store}
use sope.Queue.Resize.{queue_push-room}
use sope.Queue.Refine.{contents}
use sope.Threads.{
  buffer_size, m_pushes, o_pops, System, create_bank_offices, main_move, office_move, turn, run,
}
use sope.Threads.Invariant.{
  Inv, All, main_inside, main_request, office_inside, held, total, count, create_bank_offices-Inv,
}
use sope.Threads.MainKeeps.{main_move-Inv, room}
use sope.Threads.OfficeKeeps.{office_move-Inv, waiting}

-- What the state is after a move that may not be possible.
abbrev pub moved : {A : Type 0} → Option (System A) → System A → System A
moved o s = elim o [ none ↦ s | some s' ↦ s' ]

moved-All :
    {A : Type 0} (P : System A → Type 0) (o : Option (System A)) (s : System A)
    → P s
    → All P o
    → P (moved o s)
moved-All P none s h all = h
moved-All P (some s') s h all = all

module _ {A : Type 0} (junk : A) (n : ℕ) where
  module _ (P : System A → Type 0)
      (main_keeps : (s : System A) → P s → All P (main_move junk n s.main s))
      (office_keeps : (s : System A) (i : ℕ)
        → i < n
        → P s
        → All P (office_move junk i (s.offices i) s)) where
    turn-keeps : (t : ℕ) (s : System A) → P s → P (turn junk n t s)
    unfolding turn
    turn-keeps t s h = elim (Bool-cases (t == 0)) [
      | inl main ↦ rw main (moved-All P (main_move junk n s.main s) s h (main_keeps s h))
      | inr office ↦ elim (Bool-cases (ltb (t - 1) n)) [
        | inl inside ↦
            rw (office, inside)
              (moved-All P (office_move junk (t - 1) (s.offices (t - 1)) s) s h
                (office_keeps s (t - 1) (ground arith) h))
        | inr outside ↦ rw (office, outside) h
      ]
    ]

    pub run-keeps : (ts : List ℕ) (s : System A) → P s → P (run junk n ts s)
    unfolding run
    run-keeps [] s h = h
    run-keeps (t ∷ ts) s h = run-keeps ts (turn junk n t s) (turn-keeps t s h)

  module _ (active : ℕ → Bool) (requests : List A) (schedule : List ℕ) where
    -- the state after the schedule
    abbrev pub reached : System A
    reached = run junk n schedule (create_bank_offices junk active requests)

    pub reached-Inv : Inv junk n requests reached
    reached-Inv =
        run-keeps (Inv junk n requests) (λ s v. main_move-Inv junk n requests s v s.main refl)
          (λ s i inside v. office_move-Inv junk n requests s v i inside (s.offices i) refl) schedule
          (create_bank_offices junk active requests)
          (create_bank_offices-Inv junk n requests active)

    -- Whatever the schedule, the queue never holds more than BUFFER_SIZE requests and keeps its
    -- capacity: when the main thread pushes, there is room for the item, so that it is stored
    -- without a resize; and when an office pops, there is an item to take.
    pub run-bounded :
        (reached.queue.capacity ≡ buffer_size)
        × (reached.queue.size ≤ buffer_size)
        × ((r : A)
            → reached.main ≡ m_pushes r
            → queue_push junk reached.queue r ≡ some (store reached.queue r))
        × ((i : ℕ) → i < n → reached.offices i ≡ o_pops → 0 < reached.queue.size)
    run-bounded = (
      v.capacity,
      omega (arith, v.slots),
      (λ r e. queue_push-room junk reached.queue r (room junk n requests reached v e)),
      λ i inside e. waiting junk n requests reached v i inside e,
    )
      where
        v : Inv junk n requests reached
        v = reached-Inv

    -- Whatever the schedule, at most one thread is between locking and unlocking the queue's mutex.
    pub run-exclusive :
        ((i j : ℕ)
          → office_inside (reached.offices i) ≡ true
          → office_inside (reached.offices j) ≡ true
          → i ≡ j)
        × ((i : ℕ) → office_inside (reached.offices i) ≡ true → main_inside reached.main ≡ false)
    run-exclusive = (
      (λ i j a b. ground (arith, reached-Inv.office_alone i a, reached-Inv.office_alone j b)),
      λ i a. ground (arith, reached-Inv.office_alone i a, reached-Inv.main_alone),
    )

    -- Whatever the schedule, the requests are taken from the queue in the order in which they came
    -- in, and none is lost: those taken, those in the queue, the one that the main thread is adding
    -- and those still to come make up the list of all.
    pub run-history :
        reached.taken
          ++ (contents junk reached.queue ++ (main_request reached.main ++ reached.incoming))
        ≡ requests
    run-history = reached-Inv.history

    -- Whatever the schedule, each request that was taken is handled once or held by one office: of
    -- the requests that pass a test, those handled and those held are as many as those taken.
    run-counted :
        (test : A → Bool)
        → count test reached.handled + total (held test) n reached.offices
          ≡ count test reached.taken
    run-counted test = reached-Inv.counted test
