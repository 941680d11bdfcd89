-- ===== src/Threads/Progress.antt =====
-- No deadlock over the queue: the mutex always has an owner that can go on, and the semaphores never
-- block the main thread and all offices at once.
use sope.Prelude.{
  ℕ, zero, suc, ◌-◌, ◌≤◌, ◌<◌, ◌≡◌, ◌≢◌, ◌⊎◌, refl, subst, sym, Bool, true, List, [], ◌∷◌, Option,
  none, some, arith, ltb, Bool-cases, inl, inr, Option-cases,
}
use sope.Prelude.Array.{sum_below}
use sope.Queue.{queue_push}
use sope.Queue.Resize.{queue_push-Pushed}
use sope.Threads.{
  Main, m_reads, m_tests, m_testing, m_finished, m_waits, m_locks, m_pushes, m_unlocks, m_posts,
  m_tested, m_counts, Office, o_starts, o_waits, o_marks, o_locks, o_pops, o_clears, o_unlocks,
  o_posts, o_manages, System, create_bank_offices, main_move, office_move,
}
use sope.Threads.Invariant.{
  Inv, All, when-All, elim-All, main_inside, office_inside, office_slot, office_item, total,
  create_bank_offices-Inv,
}
use sope.Threads.MainKeeps.{main_move-Inv}
use sope.Threads.OfficeKeeps.{office_move-Inv}
use sope.Threads.Safety.{run-keeps, reached}
use sope.Threads.Finish.{All-both}

elim-some_list :
    {A B : Type 0} (b : B) (f : A → List A → B) (xs : List A)
    → elim xs [ [] ↦ some b | x ∷ rest ↦ some (f x rest) ] ≢ none
elim-some_list b f [] = λ x. cc
elim-some_list b f (y ∷ rest) = λ x. cc

-- The thread that holds the mutex is between locking and unlocking it.
abbrev pub Owned : {A : Type 0} → ℕ → System A → Type 0
Owned n s =
    (t : ℕ)
    → s.queue_mutex ≡ some t
    → ((t ≡ 0) × (main_inside s.main ≡ true))
      ⊎ ((0 < t) × (t ≤ n) × (office_inside (s.offices (t - 1)) ≡ true))

elim-some :
    {A B : Type 0} (f : A → B) (o : Option A) {a : A}
    → o ≡ some a
    → elim o [ none ↦ none | some x ↦ some (f x) ] ≢ none
elim-some f none e = λ x. cc
elim-some f (some a) e = λ x. cc

module _ {A : Type 0} (junk : A) (n : ℕ) (requests : List A) (s : System A)
    (v : Inv junk n requests s) (o : Owned n s) where
  reads :
      (xs : List A)
      → s.main ≡ m_reads
      → All (Owned n) (elim xs [
        | [] ↦ some (record s { main = m_tests })
        | request ∷ rest ↦ some (record s { main = m_waits request; incoming = rest })
      ])
  reads [] e = λ t h. ground (arith, o t h)
  reads (r ∷ rest) e = λ t h. ground (arith, o t h)

  main_move-Owned : (p : Main A) → s.main ≡ p → All (Owned n) (main_move junk n p s)
  unfolding main_move
  main_move-Owned m_reads e = reads s.incoming e
  main_move-Owned (m_waits r) e = when-All (Owned n) _ _ (λ g t h. ground (arith, o t h))
  main_move-Owned (m_locks r) e = when-All (Owned n) _ _ (λ g t h. ground arith)
  main_move-Owned (m_pushes r) e =
      let (q, pushed, f) = queue_push-Pushed junk s.queue r v.valid (omega (arith, v.capacity)) in
      elim-All (Owned n) _ _ pushed (λ t h. ground (arith, o t h))
  main_move-Owned (m_unlocks r) e = λ t h. ground arith
  main_move-Owned (m_posts r) e = λ t h. ground (arith, o t h)
  main_move-Owned m_tests e = when-All (Owned n) _ _ (λ g t h. ground arith)
  main_move-Owned m_testing e = λ t h. ground (arith, o t h)
  main_move-Owned (m_tested b) e = λ t h. ground arith
  main_move-Owned (m_counts i sum) e = λ t h. ground (arith, o t h)
  main_move-Owned m_finished e = tt

  office_move-Owned :
      (i : ℕ) → i < n → (p : Office A) → s.offices i ≡ p → All (Owned n) (office_move junk i p s)
  unfolding office_move
  office_move-Owned i inside o_starts e = λ t h. ground (arith, o t h)
  office_move-Owned i inside o_waits e = when-All (Owned n) _ _ (λ g t h. ground (arith, o t h))
  office_move-Owned i inside o_marks e = λ t h. ground (arith, o t h)
  office_move-Owned i inside o_locks e = when-All (Owned n) _ _ (λ g t h. ground arith)
  office_move-Owned i inside o_pops e = λ t h. ground (arith, o t h)
  office_move-Owned i inside (o_unlocks r) e = λ t h. ground arith
  office_move-Owned i inside (o_posts r) e = λ t h. ground (arith, o t h)
  office_move-Owned i inside (o_manages r) e = λ t h. ground (arith, o t h)
  office_move-Owned i inside o_clears e = λ t h. ground (arith, o t h)

  -- some thread can take a step
  abbrev pub CanMove : Type 0
  CanMove =
      (main_move junk n s.main s ≢ none)
      ⊎ ((i : ℕ) × (i < n) × (office_move junk i (s.offices i) s ≢ none))

  main_inside-moves : (p : Main A) → s.main ≡ p → main_inside p ≡ true → main_move junk n p s ≢ none
  unfolding main_move
  main_inside-moves (m_pushes r) e h =
      let (q, pushed, f) = queue_push-Pushed junk s.queue r v.valid (omega (arith, v.capacity)) in
      elim-some _ (queue_push junk s.queue r) pushed
  main_inside-moves (m_unlocks r) e h = λ x. cc
  main_inside-moves m_testing e h = λ x. cc
  main_inside-moves (m_tested b) e h = λ x. cc
  main_inside-moves m_reads e h = absurd (cc h)
  main_inside-moves (m_waits r) e h = absurd (cc h)
  main_inside-moves (m_locks r) e h = absurd (cc h)
  main_inside-moves (m_posts r) e h = absurd (cc h)
  main_inside-moves m_tests e h = absurd (cc h)
  main_inside-moves (m_counts i sum) e h = absurd (cc h)
  main_inside-moves m_finished e h = absurd (cc h)

  office_inside-moves :
      (i : ℕ) (p : Office A) → office_inside p ≡ true → office_move junk i p s ≢ none
  unfolding office_move
  office_inside-moves i o_pops h = λ x. cc
  office_inside-moves i (o_unlocks r) h = λ x. cc
  office_inside-moves i o_starts h = absurd (cc h)
  office_inside-moves i o_waits h = absurd (cc h)
  office_inside-moves i o_marks h = absurd (cc h)
  office_inside-moves i o_locks h = absurd (cc h)
  office_inside-moves i (o_posts r) h = absurd (cc h)
  office_inside-moves i (o_manages r) h = absurd (cc h)
  office_inside-moves i o_clears h = absurd (cc h)

  owner-moves : (t : ℕ) → s.queue_mutex ≡ some t → CanMove
  owner-moves t h = elim (o t h) [
    | inl (zero_t, here) ↦ inl (main_inside-moves s.main refl here)
    | inr (positive, small, here) ↦
        inr (t - 1, omega arith, office_inside-moves (t - 1) (s.offices (t - 1)) here)
  ]

  module _ (unlocked : s.queue_mutex ≡ none) where
    -- With the mutex free, an office waits for nothing but an item.
    office-moves : (i : ℕ) (p : Office A) → (p ≡ o_waits) ⊎ (office_move junk i p s ≢ none)
    unfolding office_move
    office-moves i o_waits = inl refl
    office-moves i o_locks = inr (rw unlocked (λ x. cc))
    office-moves i o_starts = inr (λ x. cc)
    office-moves i o_marks = inr (λ x. cc)
    office-moves i o_pops = inr (λ x. cc)
    office-moves i (o_unlocks r) = inr (λ x. cc)
    office-moves i (o_posts r) = inr (λ x. cc)
    office-moves i (o_manages r) = inr (λ x. cc)
    office-moves i o_clears = inr (λ x. cc)

    some_office :
        (k : ℕ)
        → k ≤ n
        → ((i : ℕ) × (i < n) × (office_move junk i (s.offices i) s ≢ none))
          ⊎ ((total office_slot k s.offices ≡ 0) × (total office_item k s.offices ≡ 0))
    unfolding sum_below
    some_office zero h = inr (refl, refl)
    some_office (suc k) h = elim (office-moves k (s.offices k)) [
      | inr moves ↦ inl (k, omega arith, moves)
      | inl waits ↦ elim (some_office k (omega arith)) [
        | inl found ↦ inl found
        | inr (a, b) ↦ inr (rw waits (omega (arith, a)), rw waits (omega (arith, b)))
      ]
    ]

    waits-moves : (i : ℕ) → 0 < s.queue_full_sem → office_move junk i o_waits s ≢ none
    unfolding office_move
    waits-moves i item = ground arith

    with_slot : (r : A) → ltb 0 s.queue_empty_sem ≡ true → main_move junk n (m_waits r) s ≢ none
    unfolding main_move
    with_slot r slot = rw slot (λ x. cc)

    -- Where all offices wait for an item, and the main thread for a slot, there is an item.
    slot-moves : (r : A) → s.main ≡ m_waits r → 0 < n → CanMove
    slot-moves r e positive = elim (some_office n (omega arith)) [
      | inl (i, inside, moves) ↦ inr (i, inside, moves)
      | inr (a, b) ↦ elim (Bool-cases (ltb 0 s.queue_empty_sem)) [
        | inl slot ↦ inl (subst (λ p. main_move junk n p s ≢ none) (sym e) (with_slot r slot))
        | inr full ↦ elim (office-moves 0 (s.offices 0)) [
          | inr moves ↦ inr (0, positive, moves)
          | inl waits ↦ inr (
            0,
            positive,
            subst (λ p. office_move junk 0 p s ≢ none) (sym waits)
                (waits-moves 0 (ground (arith, v.slots, v.items))),
          )
        ]
      ]
    ]

    main-moves :
        (p : Main A) → p ≢ m_finished → ((r : A) × (p ≡ m_waits r)) ⊎ (main_move junk n p s ≢ none)
    unfolding main_move
    main-moves m_reads h = inr (elim-some_list _ _ s.incoming)
    main-moves (m_waits r) h = inl (r, refl)
    main-moves (m_locks r) h = inr (rw unlocked (λ x. cc))
    main-moves (m_pushes r) h =
        let (q, pushed, f) = queue_push-Pushed junk s.queue r v.valid (omega (arith, v.capacity)) in
        inr (elim-some _ (queue_push junk s.queue r) pushed)
    main-moves (m_unlocks r) h = inr (λ x. cc)
    main-moves (m_posts r) h = inr (λ x. cc)
    main-moves m_tests h = inr (rw unlocked (λ x. cc))
    main-moves m_testing h = inr (λ x. cc)
    main-moves (m_tested b) h = inr (λ x. cc)
    main-moves (m_counts i sum) h = inr (λ x. cc)
    main-moves m_finished h = absurd (h refl)

  can_move : s.main ≢ m_finished → 0 < n → CanMove
  can_move going positive = elim (Option-cases s.queue_mutex) [
    | inr (t, held) ↦ owner-moves t held
    | inl unlocked ↦ elim (main-moves unlocked s.main going) [
      | inr moves ↦ inl moves
      | inl (r, e) ↦ slot-moves unlocked r e positive
    ]
  ]

module _ {A : Type 0} (junk : A) (n : ℕ) (active : ℕ → Bool) (requests : List A)
    (schedule : List ℕ) where
  abbrev state : System A
  state = reached junk n active requests schedule

  abbrev Both : System A → Type 0
  Both s = Inv junk n requests s × Owned n s

  start-Owned : Owned n (create_bank_offices junk active requests)
  unfolding create_bank_offices
  start-Owned t h = absurd (cc h)

  reached-Both : Both state
  reached-Both =
      run-keeps junk n Both
        (λ s h.
          All-both (Inv junk n requests) (Owned n) _
            (main_move-Inv junk n requests s h.0 s.main refl)
            (main_move-Owned junk n requests s h.0 h.1 s.main refl))
        (λ s i inside h.
          All-both (Inv junk n requests) (Owned n) _
            (office_move-Inv junk n requests s h.0 i inside (s.offices i) refl)
            (office_move-Owned junk n requests s h.0 h.1 i inside (s.offices i) refl))
        schedule (create_bank_offices junk active requests)
        (create_bank_offices-Inv junk n requests active, start-Owned)

  -- Whatever the schedule, with at least one office the threads do not deadlock over the queue: as
  -- long as the main thread has not finished, it or some office can take a step.
  pub run-moves :
      0 < n
      → state.main ≢ m_finished
      → (main_move junk n state.main state ≢ none)
        ⊎ ((i : ℕ) × (i < n) × (office_move junk i (state.offices i) state ≢ none))
  run-moves positive going =
      can_move junk n requests state reached-Both.0 reached-Both.1 going positive
