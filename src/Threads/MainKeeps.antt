-- ===== src/Threads/MainKeeps.antt =====
-- A step of the main thread keeps the invariant.
use mathlib.Core.List.{append_assoc}
use sope.Prelude.{ℕ, ◌<◌, ◌≡◌, refl, sym, ap, ◌∙◌, true, List, [], ◌∷◌, ◌++◌, some, arith}
use sope.Queue.Refine.{contents}
use sope.Queue.Resize.{queue_push-Pushed}
use sope.Threads.{
  Main, m_reads, m_tests, m_testing, m_finished, m_waits, m_locks, m_pushes, m_unlocks, m_posts,
  m_tested, m_counts, System, main_move,
}
use sope.Threads.Invariant.{
  Inv, All, when-All, elim-All, main_slot, main_item, main_inside, main_request,
}

module _ {A : Type 0} (junk : A) (n : ℕ) (requests : List A) where
  module _ (s : System A) (v : Inv junk n requests s) where
    abbrev Kept : System A → Type 0
    Kept = Inv junk n requests

    -- A step to `p` that leaves the semaphores, the queue and the requests.
    quiet :
        (p : Main A)
        → main_slot p ≡ main_slot s.main
        → main_item p ≡ main_item s.main
        → main_request p ≡ main_request s.main
        → (main_inside p ≡ true → main_inside s.main ≡ true)
        → Kept (record s { main = p })
    quiet p a b c d = record {
      valid = v.valid;
      capacity = v.capacity;
      slots = omega (arith, v.slots);
      items = omega (arith, v.items);
      main_alone = λ h. v.main_alone (d h);
      office_alone = v.office_alone;
      history = rw c v.history;
      counted = v.counted;
    }

    -- what comes of a read, by the requests to come
    reads :
        (xs : List A)
        → s.incoming ≡ xs
        → s.main ≡ m_reads
        → All Kept (elim xs [
          | [] ↦ some (record s { main = m_tests })
          | request ∷ rest ↦ some (record s { main = m_waits request; incoming = rest })
        ])
    reads [] done e = quiet m_tests (ground arith) (ground arith) (ground arith) (λ h. ground arith)
    reads (r ∷ rest) more e = record {
      valid = v.valid;
      capacity = v.capacity;
      slots = ground (arith, v.slots);
      items = ground (arith, v.items);
      main_alone = λ h. ground arith;
      office_alone = v.office_alone;
      history = ground (arith, v.history);
      counted = v.counted;
    }

    -- There is room when the main thread pushes.
    pub room : {r : A} → s.main ≡ m_pushes r → s.queue.size < s.queue.capacity
    room e = ground (arith, v.slots, v.capacity)

    pub main_move-Inv : (p : Main A) → s.main ≡ p → All Kept (main_move junk n p s)
    unfolding main_move
    main_move-Inv m_reads e = reads s.incoming refl e
    main_move-Inv (m_waits r) e = when-All Kept _ _ (λ g. record {
      valid = v.valid;
      capacity = v.capacity;
      slots = ground (arith, v.slots);
      items = ground (arith, v.items);
      main_alone = λ h. ground arith;
      office_alone = v.office_alone;
      history = ground (arith, v.history);
      counted = v.counted;
    })
    main_move-Inv (m_locks r) e = when-All Kept _ _ (λ g. record {
      valid = v.valid;
      capacity = v.capacity;
      slots = ground (arith, v.slots);
      items = ground (arith, v.items);
      main_alone = λ h. refl;
      office_alone = λ i h. ground (arith, v.office_alone i h);
      history = ground (arith, v.history);
      counted = v.counted;
    })
    main_move-Inv (m_pushes r) e =
        let (q, pushed, f) = queue_push-Pushed junk s.queue r v.valid (omega (arith, v.capacity)) in
        elim-All Kept _ _ pushed (record {
          valid = f.valid;
          capacity = ground (arith, f.capacity, v.capacity, room e);
          slots = ground (arith, v.slots, f.size);
          items = ground (arith, v.items, f.size);
          main_alone = λ h. v.main_alone (ground arith);
          office_alone = v.office_alone;
          history =
              ap (λ l. s.taken ++ (l ++ s.incoming)) f.items
              ∙ ap (λ l. s.taken ++ l) (append_assoc (contents junk s.queue) (r ∷ []) s.incoming)
              ∙ ap (λ m. s.taken ++ (contents junk s.queue ++ (main_request m ++ s.incoming)))
                  (sym e)
              ∙ v.history;
          counted = v.counted;
        })
    main_move-Inv (m_unlocks r) e = record {
      valid = v.valid;
      capacity = v.capacity;
      slots = ground (arith, v.slots);
      items = ground (arith, v.items);
      main_alone = λ h. ground arith;
      office_alone = λ i h. ground (arith, v.office_alone i h, v.main_alone);
      history = ground (arith, v.history);
      counted = v.counted;
    }
    main_move-Inv (m_posts r) e = record {
      valid = v.valid;
      capacity = v.capacity;
      slots = ground (arith, v.slots);
      items = ground (arith, v.items);
      main_alone = λ h. ground arith;
      office_alone = v.office_alone;
      history = ground (arith, v.history);
      counted = v.counted;
    }
    main_move-Inv m_tests e = when-All Kept _ _ (λ g. record {
      valid = v.valid;
      capacity = v.capacity;
      slots = ground (arith, v.slots);
      items = ground (arith, v.items);
      main_alone = λ h. refl;
      office_alone = λ i h. ground (arith, v.office_alone i h);
      history = ground (arith, v.history);
      counted = v.counted;
    })
    main_move-Inv m_testing e =
        quiet (m_tested _) (ground arith) (ground arith) (ground arith) (λ h. ground arith)
    main_move-Inv (m_tested b) e = record {
      valid = v.valid;
      capacity = v.capacity;
      slots = ground (arith, v.slots);
      items = ground (arith, v.items);
      main_alone = λ h. ground arith;
      office_alone = λ i h. ground (arith, v.office_alone i h, v.main_alone);
      history = ground (arith, v.history);
      counted = v.counted;
    }
    main_move-Inv (m_counts i total) e =
        quiet _ (ground arith) (ground arith) (ground arith) (λ h. ground arith)
    main_move-Inv m_finished e = tt
