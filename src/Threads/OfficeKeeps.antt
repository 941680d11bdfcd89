-- ===== src/Threads/OfficeKeeps.antt =====
-- A step of an office keeps the invariant.
use mathlib.Core.List.{append_assoc}
use sope.Prelude.{ℕ, ◌+◌, ◌<◌, ◌≡◌, refl, sym, ap, ◌∙◌, Bool, false, List, [], ◌∷◌, ◌++◌, arith}
use sope.Prelude.Array.{update}
use sope.Queue.{queue_pop}
use sope.Queue.Bounds.{queue_pop-IsValid, queue_pop-sizes}
use sope.Queue.Refine.{contents-queue_pop}
use sope.Threads.{
  Office, o_starts, o_waits, o_marks, o_locks, o_pops, o_clears, o_unlocks, o_posts, o_manages,
  System, office_move, go_office,
}
use sope.Threads.Invariant.{
  Inv, All, when-All, main_request, office_inside, office_slot, office_item, held, total,
  total-update, count-append,
}

module _ {A : Type 0} (junk : A) (n : ℕ) (requests : List A) (s : System A)
    (v : Inv junk n requests s) (i : ℕ) (inside : i < n) where
  abbrev Kept : System A → Type 0
  Kept = Inv junk n requests

  -- The sums after office i has gone from `p` to `p'`.
  abbrev Moves : Office A → Office A → Type 0
  Moves p p' =
      (total office_slot n (update s.offices i p') + office_slot p
        ≡ total office_slot n s.offices + office_slot p')
      × (total office_item n (update s.offices i p') + office_item p
          ≡ total office_item n s.offices + office_item p')
      × ((test : A → Bool)
          → total (held test) n (update s.offices i p') + held test p
            ≡ total (held test) n s.offices + held test p')

  moves : (p p' : Office A) → s.offices i ≡ p → Moves p p'
  moves p p' e = (
    rw (sym e) (total-update office_slot n s.offices i p' inside),
    rw (sym e) (total-update office_item n s.offices i p' inside),
    λ test. rw (sym e) (total-update (held test) n s.offices i p' inside),
  )

  -- A step from `p` to `p'` that leaves the semaphores, the mutex, the queue and the requests.
  quiet :
      (p p' : Office A) (active : ℕ → Bool)
      → s.offices i ≡ p
      → office_slot p' ≡ office_slot p
      → office_item p' ≡ office_item p
      → ((test : A → Bool) → held test p' ≡ held test p)
      → office_inside p' ≡ false
      → Kept (record (go_office junk i p' s) { active_offices = active })
  quiet p p' active e a b c d = record {
    valid = v.valid;
    capacity = v.capacity;
    slots = omega (arith, v.slots, moves p p' e);
    items = omega (arith, v.items, moves p p' e);
    main_alone = v.main_alone;
    office_alone = λ j h. ground (arith, v.office_alone j);
    history = v.history;
    counted = λ test. omega (arith, v.counted test, (moves p p' e).2 test, c test);
  }

  abbrev popped : A
  popped = (queue_pop junk s.queue).0

  -- There is an item when an office pops.
  pub waiting : s.offices i ≡ o_pops → 0 < s.queue.size
  waiting e = omega (arith, v.items, moves o_pops o_waits e)

  pub office_move-Inv : (p : Office A) → s.offices i ≡ p → All Kept (office_move junk i p s)
  unfolding office_move
  office_move-Inv o_starts e = quiet o_starts o_waits _ e refl refl (λ t. refl) refl
  office_move-Inv o_waits e = when-All Kept _ _ (λ g. record {
    valid = v.valid;
    capacity = v.capacity;
    slots = omega (arith, v.slots, moves o_waits o_marks e);
    items = ground (arith, v.items, moves o_waits o_marks e);
    main_alone = v.main_alone;
    office_alone = λ j h. ground (arith, v.office_alone j);
    history = v.history;
    counted = λ test. omega (arith, v.counted test, (moves o_waits o_marks e).2 test);
  })
  office_move-Inv o_marks e = quiet o_marks o_locks _ e refl refl (λ t. refl) refl
  office_move-Inv o_locks e = when-All Kept _ _ (λ g. record {
    valid = v.valid;
    capacity = v.capacity;
    slots = omega (arith, v.slots, moves o_locks o_pops e);
    items = omega (arith, v.items, moves o_locks o_pops e);
    main_alone = λ h. ground (arith, v.main_alone h);
    office_alone = λ j h. ground (arith, v.office_alone j);
    history = v.history;
    counted = λ test. omega (arith, v.counted test, (moves o_locks o_pops e).2 test);
  })
  office_move-Inv o_pops e =
      let some_item = waiting e in
      let (size, capacity) = queue_pop-sizes junk s.queue v.valid some_item in
      record {
        valid = queue_pop-IsValid junk s.queue v.valid some_item;
        capacity = ground (arith, v.capacity, capacity);
        slots = omega (arith, v.slots, moves o_pops (o_unlocks popped) e, size);
        items = omega (arith, v.items, moves o_pops (o_unlocks popped) e, size);
        main_alone = v.main_alone;
        office_alone = λ j h. ground (arith, v.office_alone j, v.office_alone i);
        history =
            append_assoc s.taken (popped ∷ []) _
            ∙ ap (λ l. s.taken ++ (l ++ (main_request s.main ++ s.incoming)))
                (sym (contents-queue_pop junk s.queue v.valid some_item))
            ∙ v.history;
        counted = λ test. omega (
          arith,
          v.counted test,
          (moves o_pops (o_unlocks popped) e).2 test,
          count-append test s.taken popped,
        );
      }
  office_move-Inv (o_unlocks r) e = record {
    valid = v.valid;
    capacity = v.capacity;
    slots = omega (arith, v.slots, moves (o_unlocks r) (o_posts r) e);
    items = omega (arith, v.items, moves (o_unlocks r) (o_posts r) e);
    main_alone = λ h. ground (arith, v.main_alone h, v.office_alone i);
    office_alone = λ j h. ground (arith, v.office_alone j, v.office_alone i);
    history = v.history;
    counted = λ test. omega (arith, v.counted test, (moves (o_unlocks r) (o_posts r) e).2 test);
  }
  office_move-Inv (o_posts r) e = record {
    valid = v.valid;
    capacity = v.capacity;
    slots = omega (arith, v.slots, moves (o_posts r) (o_manages r) e);
    items = omega (arith, v.items, moves (o_posts r) (o_manages r) e);
    main_alone = v.main_alone;
    office_alone = λ j h. ground (arith, v.office_alone j);
    history = v.history;
    counted = λ test. omega (arith, v.counted test, (moves (o_posts r) (o_manages r) e).2 test);
  }
  office_move-Inv (o_manages r) e = record {
    valid = v.valid;
    capacity = v.capacity;
    slots = omega (arith, v.slots, moves (o_manages r) o_clears e);
    items = omega (arith, v.items, moves (o_manages r) o_clears e);
    main_alone = v.main_alone;
    office_alone = λ j h. ground (arith, v.office_alone j);
    history = v.history;
    counted = λ test. omega (
      arith,
      v.counted test,
      (moves (o_manages r) o_clears e).2 test,
      count-append test s.handled r,
    );
  }
  office_move-Inv o_clears e = quiet o_clears o_waits _ e refl refl (λ t. refl) refl
