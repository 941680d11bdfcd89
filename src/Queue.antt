-- ===== src/Queue.antt =====
-- PROJ2/src/queue.c: the queue of requests, an array used in a circle that doubles when it is full.
-- Generic in the items; `junk` stands for what memory holds before it is first written, and for
-- what a read outside the array gives. An int is the 32 bits that hold it.
pub mod Bounds
pub mod Refine
pub mod Resize
pub mod Run
mod Tests
use sope.Prelude.{
  ℕ, zero, suc, ◌+◌, ◌-◌, ◌*◌, ◌%◌, ◌^◌, Bool, true, false, List, Option, none, some, get_or, set,
  replicate, ◌==◌, if◌then◌else◌,
}
use sope.Types.{u32, u32_mod}

-- `RequestQueue`
pub record RequestQueue {ℓ} (A : Type ℓ) : Type ℓ where
  pub front : ℕ
  pub rear : ℕ
  pub capacity : ℕ
  pub size : ℕ
  pub array : List A

-- `n++` and `n--` on an int
abbrev pub incr : ℕ → ℕ
incr n = u32 (n + 1)

abbrev pub decr : ℕ → ℕ
decr n = u32 (n + u32_mod - 1)

-- an index that has reached the capacity goes back to 0
abbrev pub around : ℕ → ℕ → ℕ
around capacity i = if i == capacity then 0 else i

module _ {ℓ} {A : Type ℓ} where
  abbrev pub queue_full : RequestQueue A → Bool
  queue_full q = q.size == q.capacity

  abbrev pub queue_empty : RequestQueue A → Bool
  queue_empty q = q.size == 0

  -- the rest of `queue_push`, after its test for a full queue
  pub store : RequestQueue A → A → RequestQueue A
  store q item =
      let rear = around q.capacity (incr q.rear) in
      record q { size = incr q.size; rear = rear; array = set q.array rear item }

module _ {ℓ} {A : Type ℓ} (junk : A) where
  unfoldable pub queue_create : ℕ → RequestQueue A
  queue_create capacity = record {
    front = 0;
    rear = decr capacity;
    capacity = capacity;
    size = 0;
    array = replicate capacity junk;
  }

  pub queue_front : RequestQueue A → A
  queue_front q = get_or q.array q.front junk

  pub queue_pop : RequestQueue A → A × RequestQueue A
  queue_pop q = (
    get_or q.array q.front junk,
    record q { size = decr q.size; front = around q.capacity (incr q.front) },
  )

  -- The `while` loop of `queue_resize`, for at most as many rounds as the fuel says; `push` is the
  -- call of `queue_push` in it.
  pub refill :
      (RequestQueue A → A → Option (RequestQueue A))
      → ℕ
      → RequestQueue A
      → RequestQueue A
      → Option (RequestQueue A)
  refill push zero q new_queue = if queue_empty q then some new_queue else none
  refill push (suc n) q new_queue = elim (queue_empty q) [
    | true ↦ some new_queue
    | false ↦
        let (item, rest) = queue_pop q in
        elim (push new_queue item) [ none ↦ none | some pushed ↦ refill push n rest pushed ]
  ]

  -- `*queue = *new_queue` makes the new queue the result.
  pub queue_resize :
      (RequestQueue A → A → Option (RequestQueue A)) → RequestQueue A → Option (RequestQueue A)
  queue_resize push q = refill push q.size q (queue_create (u32 (q.capacity * 2)))

  -- `queue_push` and `queue_resize` call one another; the fuel bounds the depth of the calls.
  pub push_within : ℕ → RequestQueue A → A → Option (RequestQueue A)
  push_within zero q item = none
  push_within (suc depth) q item = elim (queue_full q) [
    | true ↦ elim (queue_resize (push_within depth) q) [
      | none ↦ none
      | some resized ↦ some (store resized item)
    ]
    | false ↦ some (store q item)
  ]

  -- One level for the call, and one for the calls that `queue_resize` makes.
  unfoldable pub queue_push : RequestQueue A → A → Option (RequestQueue A)
  unfolding push_within queue_resize refill store queue_pop queue_create
  queue_push = push_within 2
