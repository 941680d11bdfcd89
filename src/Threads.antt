-- ===== src/Threads.antt =====
-- PROJ2/src/bankoffice.c: the queue between the main thread and the office threads, from the start
-- of the offices to their end, as atomic steps of the threads. A step is one call on a semaphore or
-- the mutex, one call on the queue, or one access to `activeOffices`; what is logged is left out, and
-- `manageRequest` is one step that hands a request over to `handled`.
pub mod Invariant
pub mod MainKeeps
pub mod OfficeKeeps
pub mod Safety
pub mod Drain
pub mod Finish
pub mod Progress
mod Tests
use sope.Prelude.{
  ℕ, ◌+◌, ◌-◌, Bool, true, false, List, [], ◌∷◌, ◌++◌, Option, none, some, ◌==◌, ltb, if◌then◌else◌,
}
use sope.Prelude.Array.{update}
use sope.Queue.{RequestQueue, queue_create, queue_push, queue_pop, queue_empty}

-- BUFFER_SIZE
abbrev pub buffer_size : ℕ
buffer_size = 5000

-- What the main thread does next: `readRequests` and, for each request, `addRequestToQueue`; then
-- `waitForRequestFinish`, whose sum of active offices is at office i.
pub data Main (A : Type 0) : Type 0 where
  m_reads m_tests m_testing m_finished : Main A
  m_waits m_locks m_pushes m_unlocks m_posts : (request : A) → Main A
  m_tested : (queue_empty : Bool) → Main A
  m_counts : (i num_active_offices : ℕ) → Main A

-- What an office does next: `runBankOffice`, with `getRequestFromQueue` from o_waits to o_posts.
pub data Office (A : Type 0) : Type 0 where
  o_starts o_waits o_marks o_locks o_pops o_clears : Office A
  o_unlocks o_posts o_manages : (request : A) → Office A

-- `queue_mutex` is the number of the thread that holds the mutex: 0 for the main thread, i + 1 for
-- office i. `incoming` are the requests still to come through the server's FIFO, `taken` those that
-- were popped, and `handled` those that `manageRequest` is done with, the latest last.
pub record System (A : Type 0) : Type 0 where
  pub queue : RequestQueue A
  pub queue_empty_sem : ℕ
  pub queue_full_sem : ℕ
  pub queue_mutex : Option ℕ
  pub active_offices : ℕ → Bool
  pub main : Main A
  pub offices : ℕ → Office A
  pub incoming : List A
  pub taken : List A
  pub handled : List A

abbrev pub is_free : Option ℕ → Bool
is_free none = true
is_free (some thread) = false

-- A step that must wait for a condition.
abbrev pub when : {A : Type 0} → Bool → A → Option A
when b a = if b then some a else none

module _ {A : Type 0} (junk : A) where
  abbrev pub go_office : ℕ → Office A → System A → System A
  go_office i p s = record s { offices = update s.offices i p }

  -- After `createQueue`, with the offices created; `activeOffices` is as malloc left it.
  unfoldable pub create_bank_offices : (ℕ → Bool) → List A → System A
  create_bank_offices active requests = record {
    queue = queue_create junk buffer_size;
    queue_empty_sem = buffer_size;
    queue_full_sem = 0;
    queue_mutex = none;
    active_offices = active;
    main = m_reads;
    offices = λ i. o_starts;
    incoming = requests;
    taken = [];
    handled = [];
  }

  -- `addRequestToQueue`
  abbrev pub add_request_to_queue : Main A → System A → Option (System A)
  add_request_to_queue (m_waits request) s =
      when (ltb 0 s.queue_empty_sem)
        (record s { main = m_locks request; queue_empty_sem = s.queue_empty_sem - 1 })
  add_request_to_queue (m_locks request) s =
      when (is_free s.queue_mutex) (record s { main = m_pushes request; queue_mutex = some 0 })
  add_request_to_queue (m_pushes request) s = elim (queue_push junk s.queue request) [
    | none ↦ none
    | some pushed ↦ some (record s { main = m_unlocks request; queue = pushed })
  ]
  add_request_to_queue (m_unlocks request) s =
      some (record s { main = m_posts request; queue_mutex = none })
  add_request_to_queue (m_posts request) s =
      some (record s { main = m_reads; queue_full_sem = s.queue_full_sem + 1 })
  add_request_to_queue _ s = none

  -- The loop of `readRequests`: it ends where there is nothing more to read.
  abbrev pub read_requests : System A → Option (System A)
  read_requests s = elim s.incoming [
    | [] ↦ some (record s { main = m_tests })
    | request ∷ rest ↦ some (record s { main = m_waits request; incoming = rest })
  ]

  -- `waitForRequestFinish`, with n offices
  abbrev pub wait_for_request_finish : ℕ → Main A → System A → Option (System A)
  wait_for_request_finish n m_tests s =
      when (is_free s.queue_mutex) (record s { main = m_testing; queue_mutex = some 0 })
  wait_for_request_finish n m_testing s = some (record s { main = m_tested (queue_empty s.queue) })
  wait_for_request_finish n (m_tested empty) s =
      some (record s { main = if empty then m_counts 0 0 else m_tests; queue_mutex = none })
  wait_for_request_finish n (m_counts i total) s = some (record s {
    main =
        if ltb i n
        then m_counts (i + 1) (total + (if s.active_offices i then 1 else 0))
        else if total == 0
        then m_finished
        else m_counts 0 0;
  })
  wait_for_request_finish n _ s = none

  -- A step of the main thread, where there are n offices; `none` where it waits or has finished.
  unfoldable pub main_move : ℕ → Main A → System A → Option (System A)
  main_move n m_reads s = read_requests s
  main_move n (m_waits request) s = add_request_to_queue (m_waits request) s
  main_move n (m_locks request) s = add_request_to_queue (m_locks request) s
  main_move n (m_pushes request) s = add_request_to_queue (m_pushes request) s
  main_move n (m_unlocks request) s = add_request_to_queue (m_unlocks request) s
  main_move n (m_posts request) s = add_request_to_queue (m_posts request) s
  main_move n p s = wait_for_request_finish n p s

  -- `getRequestFromQueue` in office i
  abbrev pub get_request_from_queue : ℕ → Office A → System A → Option (System A)
  get_request_from_queue i o_waits s =
      when (ltb 0 s.queue_full_sem)
        (record (go_office i o_marks s) { queue_full_sem = s.queue_full_sem - 1 })
  get_request_from_queue i o_marks s =
      some (record (go_office i o_locks s) { active_offices = update s.active_offices i true })
  get_request_from_queue i o_locks s =
      when (is_free s.queue_mutex) (record (go_office i o_pops s) { queue_mutex = some (i + 1) })
  get_request_from_queue i o_pops s =
      let (request, popped) = queue_pop junk s.queue in
      some (record (go_office i (o_unlocks request) s) {
        queue = popped;
        taken = s.taken ++ request ∷ [];
      })
  get_request_from_queue i (o_unlocks request) s =
      some (record (go_office i (o_posts request) s) { queue_mutex = none })
  get_request_from_queue i (o_posts request) s =
      some (record (go_office i (o_manages request) s) { queue_empty_sem = s.queue_empty_sem + 1 })
  get_request_from_queue i _ s = none

  -- `runBankOffice`
  unfoldable pub office_move : ℕ → Office A → System A → Option (System A)
  office_move i o_starts s =
      some (record (go_office i o_waits s) { active_offices = update s.active_offices i false })
  office_move i (o_manages request) s =
      some (record (go_office i o_clears s) { handled = s.handled ++ request ∷ [] })
  office_move i o_clears s =
      some (record (go_office i o_waits s) { active_offices = update s.active_offices i false })
  office_move i p s = get_request_from_queue i p s

  -- One turn of thread t, which is the main thread for 0 and else office t - 1. A thread that must
  -- wait, and a number that is no thread's, change nothing.
  unfoldable pub turn : ℕ → ℕ → System A → System A
  unfolding main_move office_move
  turn n t s =
      if t == 0
      then (elim (main_move n s.main s) [ none ↦ s | some s' ↦ s' ])
      else if ltb (t - 1) n
      then (elim (office_move (t - 1) (s.offices (t - 1)) s) [ none ↦ s | some s' ↦ s' ])
      else s

  -- The threads take turns as a scheduler says.
  unfoldable pub run : ℕ → List ℕ → System A → System A
  run n [] s = s
  run n (t ∷ ts) s = run n ts (turn n t s)
