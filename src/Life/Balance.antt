-- ===== src/Life/Balance.antt =====
-- What the server takes it gives back.
use mathlib.Core.List.{append-nil}
use sope.Prelude.{
  ℕ, zero, suc, ◌+◌, ◌≤◌, ◌≡◌, refl, ap, Bool, true, List, [], ◌∷◌, ◌++◌, arith, false,
  if◌then◌else◌,
}
use sope.Types.{max_bank_offices}
use sope.State.{Server, done}
use sope.Office.Access.{min, max}
use sope.Threads.{buffer_size}
use sope.Life.Running.{Live}
use sope.Life.{
  Resource, semaphore, office, Deed, took, freed, unlinked_fifo, assigned_shutdown_fd, sem_logged,
  office_open_logged, office_close_logged, Calls, returns, does, create_queue, destroy_queue,
  create_offices, create_bank_offices, destroy_offices, destroy_bank_offices,
  wait_for_request_finish, waits, is_finished,
}

module _ (test : Resource → Bool) where
  abbrev pub one : Resource → ℕ
  one x = if test x then 1 else 0

  -- how many resources that pass the test were taken, and how many were given back
  unfoldable pub taken : List Deed → ℕ
  taken [] = 0
  taken (took x ∷ ds) = one x + taken ds
  taken (freed x ∷ ds) = taken ds
  taken (unlinked_fifo ∷ ds) = taken ds
  taken (assigned_shutdown_fd ∷ ds) = taken ds
  taken (sem_logged value ∷ ds) = taken ds
  taken (office_open_logged id tid ∷ ds) = taken ds
  taken (office_close_logged id tid ∷ ds) = taken ds

  unfoldable pub given : List Deed → ℕ
  given [] = 0
  given (freed x ∷ ds) = one x + given ds
  given (took x ∷ ds) = given ds
  given (unlinked_fifo ∷ ds) = given ds
  given (assigned_shutdown_fd ∷ ds) = given ds
  given (sem_logged value ∷ ds) = given ds
  given (office_open_logged id tid ∷ ds) = given ds
  given (office_close_logged id tid ∷ ds) = given ds

  pub taken-append : (xs ys : List Deed) → taken (xs ++ ys) ≡ taken xs + taken ys
  unfolding taken
  taken-append [] ys = omega arith
  taken-append (took x ∷ xs) ys = omega (arith, taken-append xs ys)
  taken-append (freed x ∷ xs) ys = taken-append xs ys
  taken-append (unlinked_fifo ∷ xs) ys = taken-append xs ys
  taken-append (assigned_shutdown_fd ∷ xs) ys = taken-append xs ys
  taken-append (sem_logged value ∷ xs) ys = taken-append xs ys
  taken-append (office_open_logged id tid ∷ xs) ys = taken-append xs ys
  taken-append (office_close_logged id tid ∷ xs) ys = taken-append xs ys

  pub given-append : (xs ys : List Deed) → given (xs ++ ys) ≡ given xs + given ys
  unfolding given
  given-append [] ys = omega arith
  given-append (freed x ∷ xs) ys = omega (arith, given-append xs ys)
  given-append (took x ∷ xs) ys = given-append xs ys
  given-append (unlinked_fifo ∷ xs) ys = given-append xs ys
  given-append (assigned_shutdown_fd ∷ xs) ys = given-append xs ys
  given-append (sem_logged value ∷ xs) ys = given-append xs ys
  given-append (office_open_logged id tid ∷ xs) ys = given-append xs ys
  given-append (office_close_logged id tid ∷ xs) ys = given-append xs ys

-- The deeds of the loops over the offices.
unfoldable pub opened : Calls → (rounds i : ℕ) → List Deed
opened c zero i = []
opened c (suc rounds) i =
    took (office (i + 1)) ∷ office_open_logged (i + 1) (c.tid i) ∷ opened c rounds (i + 1)

unfoldable pub closed : Calls → (rounds i : ℕ) → List Deed
closed c zero i = []
closed c (suc rounds) i =
    freed (office (i + 1)) ∷ office_close_logged (i + 1) (c.tid i) ∷ closed c rounds (i + 1)

-- Every call of the system that the server needs works.
pub record AllWork (c : Calls) : Type 0 where
  pub log : c.slog_opens ≡ true
  pub sem_init : (k : ℕ) → c.sem_init_works k ≡ true
  pub thread : (i : ℕ) → c.thread_starts i ≡ true
  pub mkfifo : c.mkfifo_works ≡ true
  pub reader : c.fifo_opens_read ≡ true
  pub writer : c.fifo_opens_write ≡ true
  pub sem_destroy : (k : ℕ) → c.sem_destroy_works k ≡ true

module _ (c : Calls) where
  module _ (test : Resource → Bool) where
    -- the offices that are created are those that are destroyed
    pub opened-closed :
        (rounds i : ℕ)
        → (taken test (opened c rounds i) ≡ given test (closed c rounds i))
          × (given test (opened c rounds i) ≡ 0)
          × (taken test (closed c rounds i) ≡ 0)
    unfolding opened closed taken given
    opened-closed zero i = (refl, refl, refl)
    opened-closed (suc rounds) i =
        let (a, b, c) = opened-closed rounds (i + 1) in (omega (arith, a), b, c)

  destroy_offices-closed : (rounds i : ℕ) → destroy_offices c rounds i ≡ does (closed c rounds i)
  unfolding destroy_offices closed
  destroy_offices-closed zero i = refl
  destroy_offices-closed (suc rounds) i = rw (destroy_offices-closed rounds (i + 1)) refl

  module _ (w : AllWork c) where
    create_offices-opened : (rounds i : ℕ) → create_offices c rounds i ≡ does (opened c rounds i)
    unfolding create_offices opened
    create_offices-opened zero i = refl
    create_offices-opened (suc rounds) i =
        rw (w.thread i, create_offices-opened rounds (i + 1)) refl

    abbrev pub start_deeds : ℕ → List Deed
    start_deeds n =
        took (semaphore 0)
        ∷ sem_logged buffer_size
        ∷ took (semaphore 1)
        ∷ sem_logged 0
        ∷ opened c n 0

    abbrev pub end_deeds : ℕ → List Deed
    end_deeds n = closed c n 0 ++ freed (semaphore 0) ∷ freed (semaphore 1) ∷ []

    clamped : (num : ℕ) → 1 ≤ num → num ≤ max_bank_offices → max (min num max_bank_offices) 1 ≡ num
    clamped num low high = ground arith

    pub create_bank_offices-starts :
        (num : ℕ)
        → 1 ≤ num
        → num ≤ max_bank_offices
        → create_bank_offices c num ≡ returns num (start_deeds num)
    unfolding create_bank_offices create_queue
    create_bank_offices-starts num low high =
        rw (clamped num low high, w.sem_init 0, w.sem_init 1, create_offices-opened num 0)
          (ap
            (λ l.
              returns num (
                took (semaphore 0)
                ∷ sem_logged buffer_size
                ∷ took (semaphore 1)
                ∷ sem_logged 0
                ∷ l))
            (append-nil (opened c num 0)))

    -- the main thread in its wait, while the accounts go on
    wait_for_request_finish-goes :
        (l : Live) (s : Server)
        → l.server ≡ done tt s
        → wait_for_request_finish c l
          ≡ (if is_finished l.threads.main then returns l.threads.handled [] else waits)
    unfolding wait_for_request_finish
    wait_for_request_finish-goes l s goes =
        ap (λ o. wait_for_request_finish c (record { threads = l.threads; server = o })) goes

    pub destroy_bank_offices-ends :
        (n : ℕ) (l : Live) (s : Server)
        → l.server ≡ done tt s
        → is_finished l.threads.main ≡ true
        → destroy_bank_offices c n l ≡ returns l.threads.handled (end_deeds n)
    unfolding destroy_bank_offices destroy_queue
    destroy_bank_offices-ends n l s goes finished =
        simp
          (
            wait_for_request_finish-goes l s goes,
            finished,
            destroy_offices-closed n 0,
            w.sem_destroy 0,
            w.sem_destroy 1,
          )
          refl

    pub destroy_bank_offices-waits :
        (n : ℕ) (l : Live) (s : Server)
        → l.server ≡ done tt s
        → is_finished l.threads.main ≡ false
        → destroy_bank_offices c n l ≡ waits
    unfolding destroy_bank_offices
    destroy_bank_offices-waits n l s goes busy =
        simp (wait_for_request_finish-goes l s goes, busy) refl
