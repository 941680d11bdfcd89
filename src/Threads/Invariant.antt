-- ===== src/Threads/Invariant.antt =====
-- What holds of the threads and the queue between any two steps, whatever the schedule.
use sope.Prelude.{
  ℕ, ◌+◌, ◌<◌, ◌≡◌, refl, Bool, true, false, List, [], ◌∷◌, ◌++◌, Option, none, some, arith,
  if◌then◌else◌, zero, suc, subst,
}
use sope.Prelude.Array.{update, sum_below, sum_below-change}
use sope.Queue.{queue_create}
use sope.Queue.Bounds.{IsValid, queue_create-IsValid}
use sope.Queue.Refine.{contents}
use sope.Threads.{
  buffer_size, Main, m_testing, m_waits, m_locks, m_pushes, m_unlocks, m_posts, m_tested, Office,
  o_starts, o_marks, o_locks, o_pops, o_unlocks, o_posts, o_manages, System, create_bank_offices,
  when,
}

module _ {A : Type 0} where
  -- An empty slot that the main thread has waited for and not filled, and one that an office has
  -- emptied and not posted.
  abbrev pub main_slot : Main A → ℕ
  main_slot (m_locks r) = 1
  main_slot (m_pushes r) = 1
  main_slot _ = 0

  abbrev pub office_slot : Office A → ℕ
  office_slot (o_unlocks r) = 1
  office_slot (o_posts r) = 1
  office_slot _ = 0

  -- An item that the main thread has pushed and not posted, and one that an office has waited for
  -- and not popped.
  abbrev pub main_item : Main A → ℕ
  main_item (m_unlocks r) = 1
  main_item (m_posts r) = 1
  main_item _ = 0

  abbrev pub office_item : Office A → ℕ
  office_item o_marks = 1
  office_item o_locks = 1
  office_item o_pops = 1
  office_item _ = 0

  -- between locking and unlocking the mutex
  abbrev pub main_inside : Main A → Bool
  main_inside (m_pushes r) = true
  main_inside (m_unlocks r) = true
  main_inside m_testing = true
  main_inside (m_tested b) = true
  main_inside _ = false

  abbrev pub office_inside : Office A → Bool
  office_inside o_pops = true
  office_inside (o_unlocks r) = true
  office_inside _ = false

  -- the request that the main thread has read and not pushed
  abbrev pub main_request : Main A → List A
  main_request (m_waits r) = r ∷ []
  main_request (m_locks r) = r ∷ []
  main_request (m_pushes r) = r ∷ []
  main_request _ = []

  -- Whether the office holds a request that is not yet handled, and passes the test.
  abbrev pub held : (A → Bool) → Office A → ℕ
  held test (o_unlocks r) = if test r then 1 else 0
  held test (o_posts r) = if test r then 1 else 0
  held test (o_manages r) = if test r then 1 else 0
  held test _ = 0

  -- how many items pass a test
  unfoldable pub count : (A → Bool) → List A → ℕ
  count test [] = 0
  count test (x ∷ xs) = (if test x then 1 else 0) + count test xs

  pub count-append :
      (test : A → Bool) (xs : List A) (x : A)
      → count test (xs ++ x ∷ []) ≡ count test xs + (if test x then 1 else 0)
  unfolding count
  count-append test [] x = omega arith
  count-append test (y ∷ ys) x = omega (arith, count-append test ys x)

  abbrev pub total : (Office A → ℕ) → ℕ → (ℕ → Office A) → ℕ
  total f n offices = sum_below n (λ i. f (offices i))

  pub total-update :
      (f : Office A → ℕ) (n : ℕ) (offices : ℕ → Office A) (i : ℕ) (p : Office A)
      → i < n
      → total f n (update offices i p) + f (offices i) ≡ total f n offices + f p
  total-update f n offices i p inside = omega (
    arith,
    sum_below-change (λ j. f (update offices i p j)) (λ j. f (offices j)) i (λ j h. ground arith) n
        inside,
    here,
  )
    where
      here : f (update offices i p i) ≡ f p
      here = ground arith

-- The semaphores count the free slots and the items of the queue; `requests` are what the server
-- got in all.
pub record Inv {A : Type 0} (junk : A) (n : ℕ) (requests : List A) (s : System A) : Type 0 where
  pub valid : IsValid s.queue
  pub capacity : s.queue.capacity ≡ buffer_size
  pub slots :
      s.queue_empty_sem + s.queue.size + main_slot s.main + total office_slot n s.offices
      ≡ buffer_size
  pub items : s.queue_full_sem + main_item s.main + total office_item n s.offices ≡ s.queue.size
  pub main_alone : main_inside s.main ≡ true → s.queue_mutex ≡ some 0
  pub office_alone : (i : ℕ) → office_inside (s.offices i) ≡ true → s.queue_mutex ≡ some (i + 1)
  pub history : s.taken ++ (contents junk s.queue ++ (main_request s.main ++ s.incoming)) ≡ requests
  pub counted :
      (test : A → Bool) → count test s.handled + total (held test) n s.offices ≡ count test s.taken

module _ {A : Type 0} (junk : A) (n : ℕ) (requests : List A) where
  total-zero : (f : Office A → ℕ) (n : ℕ) → f o_starts ≡ 0 → total f n (λ i. o_starts) ≡ 0
  unfolding sum_below
  total-zero f zero h = refl
  total-zero f (suc n) h = omega (arith, h, total-zero f n h)

  pub create_bank_offices-Inv :
      (active : ℕ → Bool) → Inv junk n requests (create_bank_offices junk active requests)
  unfolding create_bank_offices queue_create
  create_bank_offices-Inv active = record {
    valid = queue_create-IsValid junk buffer_size (omega arith) (omega arith);
    capacity = refl;
    slots = omega (arith, total-zero office_slot n refl);
    items = omega (arith, total-zero office_item n refl);
    main_alone = λ h. ground arith;
    office_alone = λ i h. ground arith;
    history = refl;
    counted = λ test. omega (arith, total-zero (held test) n refl);
  }

-- Every result that there is has the property.
abbrev pub All : {A : Type 0} → (A → Type 0) → Option A → Type 0
All P none = Unit {0}
All P (some a) = P a

pub when-All :
    {A : Type 0} (P : A → Type 0) (b : Bool) (a : A) → (b ≡ true → P a) → All P (when b a)
when-All P true a h = h refl
when-All P false a h = tt

pub elim-All :
    {A B : Type 0} (P : B → Type 0) (f : A → B) (o : Option A) {a : A}
    → o ≡ some a
    → P (f a)
    → All P (elim o [ none ↦ none | some x ↦ some (f x) ])
elim-All P f none e h = tt
elim-All P f (some x) {a} e h = subst (λ y. P (f y)) same h
  where
    same : a ≡ x
    same = cc
