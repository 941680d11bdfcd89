-- ===== src/Threads/Finish.antt =====
-- The end of the server: nothing that came in is lost.
use mathlib.Core.List.{append-nil}
use sope.Prelude.{
  ℕ, zero, suc, ◌<◌, ◌≡◌, refl, sym, ap, ◌∙◌, Bool, false, List, [], ◌∷◌, ◌++◌, Option, none, some,
  arith, length,
}
use sope.Prelude.Array.{sum_below}
use sope.Queue.Refine.{contents, length-contents}
use sope.Threads.{
  m_finished, Office, o_starts, o_waits, o_marks, o_locks, o_pops, o_clears, o_unlocks, o_posts,
  o_manages, System, create_bank_offices,
}
use sope.Threads.Invariant.{Inv, All, held, total, count, create_bank_offices-Inv}
use sope.Threads.MainKeeps.{main_move-Inv}
use sope.Threads.OfficeKeeps.{office_move-Inv}
use sope.Threads.Safety.{run-keeps, reached}
use sope.Threads.Drain.{Drain, holds, main_move-Drain, office_move-Drain}

pub All-both :
    {A : Type 0} (P Q : A → Type 0) (o : Option A) → All P o → All Q o → All (λ a. P a × Q a) o
All-both P Q none p q = tt
All-both P Q (some a) p q = (p, q)

held-holds : {A : Type 0} (test : A → Bool) (p : Office A) → holds p ≡ false → held test p ≡ 0
held-holds test o_starts h = refl
held-holds test o_waits h = refl
held-holds test o_marks h = refl
held-holds test o_locks h = refl
held-holds test o_pops h = refl
held-holds test o_clears h = refl
held-holds test (o_unlocks r) h = absurd (cc h)
held-holds test (o_posts r) h = absurd (cc h)
held-holds test (o_manages r) h = absurd (cc h)

total-idle :
    {A : Type 0} (test : A → Bool) (n : ℕ) (offices : ℕ → Office A)
    → ((j : ℕ) → j < n → holds (offices j) ≡ false)
    → total (held test) n offices ≡ 0
unfolding sum_below
total-idle test zero offices h = refl
total-idle test (suc n) offices h = omega (
  arith,
  held-holds test (offices n) (h n (omega arith)),
  total-idle test n offices (λ j l. h j (omega arith)),
)

length-zero : {A : Type 0} (xs : List A) → length xs ≡ 0 → xs ≡ []
length-zero [] h = refl
length-zero (x ∷ xs) h = absurd (omega arith)

module _ {A : Type 0} (junk : A) (n : ℕ) (active : ℕ → Bool) (requests : List A)
    (schedule : List ℕ) where
  abbrev state : System A
  state = reached junk n active requests schedule

  abbrev Both : System A → Type 0
  Both s = Inv junk n requests s × Drain n s

  start-Drain : Drain n (create_bank_offices junk active requests)
  unfolding create_bank_offices
  start-Drain = record {
    busy = λ i h. ground arith;
    closed = λ h. ground arith;
    drained = λ h. ground arith;
    idle = λ j h. ground arith;
  }

  reached-Both : Both state
  reached-Both =
      run-keeps junk n Both
        (λ s h.
          All-both (Inv junk n requests) (Drain n) _
            (main_move-Inv junk n requests s h.0 s.main refl)
            (main_move-Drain junk n requests s h.0 h.1 s.main refl))
        (λ s i inside h.
          All-both (Inv junk n requests) (Drain n) _
            (office_move-Inv junk n requests s h.0 i inside (s.offices i) refl)
            (office_move-Drain junk n requests s h.0 h.1 i inside (s.offices i) refl))
        schedule (create_bank_offices junk active requests)
        (create_bank_offices-Inv junk n requests active, start-Drain)

  -- When `waitForRequestFinish` returns, so that the office threads are cancelled, every request
  -- that came in has been taken from the queue, in its order, and handled: none is left in the queue,
  -- and those handled that pass any test are as many as those that came in.
  pub run-finished :
      state.main ≡ m_finished
      → (state.taken ≡ requests)
        × (contents junk state.queue ≡ [])
        × ((test : A → Bool) → count test state.handled ≡ count test requests)
  run-finished finished = (all_taken, empty, all_handled)
    where
      v : Inv junk n requests state
      v = reached-Both.0

      d : Drain n state
      d = reached-Both.1

      empty : contents junk state.queue ≡ []
      empty = length-zero _ (length-contents junk state.queue ∙ d.drained (rw finished refl))

      all_taken : state.taken ≡ requests
      all_taken =
          sym (append-nil state.taken)
          ∙ sym
              (ap (λ l. state.taken ++ l) (rw (empty, finished, d.closed (rw finished refl)) refl))
          ∙ v.history

      all_handled : (test : A → Bool) → count test state.handled ≡ count test requests
      all_handled test = omega (
        arith,
        v.counted test,
        total-idle test n state.offices (λ j l. d.idle j (ground (arith, finished))),
        ap (count test) all_taken,
      )
