-- ===== src/Threads/Drain.antt =====
-- `waitForRequestFinish`: what holds while the main thread waits for the queue and the offices.
use sope.Prelude.{
  ℕ, ◌<◌, ◌≡◌, refl, ap, Bool, true, false, List, [], ◌∷◌, some, arith, ◌==◌, if◌then◌else◌,
}
use sope.Queue.Resize.{queue_push-Pushed}
use sope.Threads.{
  Main, m_reads, m_tests, m_testing, m_finished, m_waits, m_locks, m_pushes, m_unlocks, m_posts,
  m_tested, m_counts, Office, o_starts, o_waits, o_marks, o_locks, o_pops, o_clears, o_unlocks,
  o_posts, o_manages, System, main_move, office_move,
}
use sope.Threads.Invariant.{Inv, All, when-All, elim-All}
use sope.Threads.OfficeKeeps.{waiting}

module _ {A : Type 0} where
  -- from setting its element of `activeOffices` to clearing it
  abbrev pub is_busy : Office A → Bool
  is_busy o_starts = false
  is_busy o_waits = false
  is_busy o_marks = false
  is_busy _ = true

  -- with a request that is not yet handled
  abbrev pub holds : Office A → Bool
  holds (o_unlocks r) = true
  holds (o_posts r) = true
  holds (o_manages r) = true
  holds _ = false

  holds-is_busy : (p : Office A) → is_busy p ≡ false → holds p ≡ false
  holds-is_busy o_starts h = refl
  holds-is_busy o_waits h = refl
  holds-is_busy o_marks h = refl
  holds-is_busy o_locks h = refl
  holds-is_busy o_pops h = refl
  holds-is_busy o_clears h = refl
  holds-is_busy (o_unlocks r) h = cc
  holds-is_busy (o_posts r) h = cc
  holds-is_busy (o_manages r) h = cc

  -- after the last request
  abbrev pub is_closed : Main A → Bool
  is_closed m_tests = true
  is_closed m_testing = true
  is_closed (m_tested b) = true
  is_closed (m_counts i total) = true
  is_closed m_finished = true
  is_closed _ = false

  -- after an empty queue was seen
  abbrev pub is_drained : Main A → Bool
  is_drained (m_tested b) = b
  is_drained (m_counts i total) = true
  is_drained m_finished = true
  is_drained _ = false

  -- how many offices the sum has found at rest so far
  abbrev pub counted_to : ℕ → Main A → ℕ
  counted_to n (m_counts i total) = if total == 0 then i else 0
  counted_to n m_finished = n
  counted_to n _ = 0

  counted_to-is_drained : (n j : ℕ) (p : Main A) → j < counted_to n p → is_drained p ≡ true
  counted_to-is_drained n j (m_counts i total) h = refl
  counted_to-is_drained n j m_finished h = refl
  counted_to-is_drained n j (m_tested b) h = ground arith
  counted_to-is_drained n j m_reads h = ground arith
  counted_to-is_drained n j m_tests h = ground arith
  counted_to-is_drained n j m_testing h = ground arith
  counted_to-is_drained n j (m_waits r) h = ground arith
  counted_to-is_drained n j (m_locks r) h = ground arith
  counted_to-is_drained n j (m_pushes r) h = ground arith
  counted_to-is_drained n j (m_unlocks r) h = ground arith
  counted_to-is_drained n j (m_posts r) h = ground arith

pub record Drain {A : Type 0} (n : ℕ) (s : System A) : Type 0 where
  pub busy : (i : ℕ) → is_busy (s.offices i) ≡ true → s.active_offices i ≡ true
  pub closed : is_closed s.main ≡ true → s.incoming ≡ []
  pub drained : is_drained s.main ≡ true → s.queue.size ≡ 0
  pub idle : (j : ℕ) → j < counted_to n s.main → holds (s.offices j) ≡ false

module _ {A : Type 0} (junk : A) (n : ℕ) (requests : List A) (s : System A)
    (v : Inv junk n requests s) (d : Drain n s) where
  -- A step of the main thread that comes before the queue is seen empty.
  early :
      (s' : System A)
      → s'.offices ≡ s.offices
      → s'.active_offices ≡ s.active_offices
      → (is_closed s'.main ≡ true → s'.incoming ≡ [])
      → is_drained s'.main ≡ false
      → Drain n s'
  early s' o a c not_yet = record {
    busy = λ i h. ground (arith, d.busy i, ap (λ f. f i) o, ap (λ f. f i) a);
    closed = c;
    drained = λ h. cc;
    idle = λ j h. absurd (cc (counted_to-is_drained n j s'.main h));
  }

  reads :
      (xs : List A)
      → s.incoming ≡ xs
      → All (Drain n) (elim xs [
        | [] ↦ some (record s { main = m_tests })
        | request ∷ rest ↦ some (record s { main = m_waits request; incoming = rest })
      ])
  reads [] done = early (record s { main = m_tests }) refl refl (λ h. done) refl
  reads (r ∷ rest) more =
      early (record s { main = m_waits r; incoming = rest }) refl refl (λ h. ground arith) refl

  pub main_move-Drain : (p : Main A) → s.main ≡ p → All (Drain n) (main_move junk n p s)
  unfolding main_move
  main_move-Drain m_reads e = reads s.incoming refl
  main_move-Drain (m_waits r) e =
      when-All (Drain n) _ _ (λ g. early _ refl refl (λ h. ground arith) refl)
  main_move-Drain (m_locks r) e =
      when-All (Drain n) _ _ (λ g. early _ refl refl (λ h. ground arith) refl)
  main_move-Drain (m_pushes r) e =
      let (q, pushed, f) = queue_push-Pushed junk s.queue r v.valid (omega (arith, v.capacity)) in
      elim-All (Drain n) _ _ pushed (early _ refl refl (λ h. ground arith) refl)
  main_move-Drain (m_unlocks r) e = early _ refl refl (λ h. ground arith) refl
  main_move-Drain (m_posts r) e = early _ refl refl (λ h. ground arith) refl
  main_move-Drain m_tests e =
      when-All (Drain n) _ _ (λ g. early _ refl refl (λ h. d.closed (rw e refl)) refl)
  main_move-Drain m_testing e = record {
    busy = d.busy;
    closed = λ h. d.closed (rw e refl);
    drained = λ h. ground arith;
    idle = λ j h. ground arith;
  }
  main_move-Drain (m_tested b) e = record {
    busy = d.busy;
    closed = λ h. d.closed (rw e refl);
    drained = λ h. ground (arith, d.drained);
    idle = λ j h. ground arith;
  }
  main_move-Drain (m_counts i total) e = record {
    busy = d.busy;
    closed = λ h. d.closed (rw e refl);
    drained = λ h. d.drained (rw e refl);
    idle = λ j h. ground (arith, d.idle j, d.busy j, holds-is_busy (s.offices j));
  }
  main_move-Drain m_finished e = tt

  module _ (i : ℕ) (inside : i < n) where
    pub office_move-Drain :
        (p : Office A) → s.offices i ≡ p → All (Drain n) (office_move junk i p s)
    unfolding office_move
    office_move-Drain o_starts e = record {
      busy = λ j h. ground (arith, d.busy j);
      closed = d.closed;
      drained = d.drained;
      idle = λ j h. ground (arith, d.idle j);
    }
    office_move-Drain o_waits e = when-All (Drain n) _ _ (λ g. record {
      busy = λ j h. ground (arith, d.busy j);
      closed = d.closed;
      drained = d.drained;
      idle = λ j h. ground (arith, d.idle j);
    })
    office_move-Drain o_marks e = record {
      busy = λ j h. ground (arith, d.busy j);
      closed = d.closed;
      drained = d.drained;
      idle = λ j h. ground (arith, d.idle j);
    }
    office_move-Drain o_locks e = when-All (Drain n) _ _ (λ g. record {
      busy = λ j h. ground (arith, d.busy j, d.busy i);
      closed = d.closed;
      drained = d.drained;
      idle = λ j h. ground (arith, d.idle j);
    })
    office_move-Drain o_pops e =
        let some_item = waiting junk n requests s v i inside e in
        record {
          busy = λ j h. ground (arith, d.busy j, d.busy i);
          closed = d.closed;
          drained = λ h. ground (arith, d.drained h);
          idle = λ j h. ground (arith, d.drained, counted_to-is_drained n j s.main h);
        }
    office_move-Drain (o_unlocks r) e = record {
      busy = λ j h. ground (arith, d.busy j, d.busy i);
      closed = d.closed;
      drained = d.drained;
      idle = λ j h. ground (arith, d.idle j, d.idle i);
    }
    office_move-Drain (o_posts r) e = record {
      busy = λ j h. ground (arith, d.busy j, d.busy i);
      closed = d.closed;
      drained = d.drained;
      idle = λ j h. ground (arith, d.idle j, d.idle i);
    }
    office_move-Drain (o_manages r) e = record {
      busy = λ j h. ground (arith, d.busy j, d.busy i);
      closed = d.closed;
      drained = d.drained;
      idle = λ j h. ground (arith, d.idle j);
    }
    office_move-Drain o_clears e = record {
      busy = λ j h. ground (arith, d.busy j);
      closed = d.closed;
      drained = d.drained;
      idle = λ j h. ground (arith, d.idle j);
    }
