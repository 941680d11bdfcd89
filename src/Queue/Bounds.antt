-- ===== src/Queue/Bounds.antt =====
-- The representation invariant of the queue of queue.c, and that its operations keep it.
use sope.Prelude.{ℕ, ◌+◌, ◌^◌, ◌≤◌, ◌<◌, ◌≡◌, ◌⊎◌, arith, length, length-set, length-replicate}
use sope.Queue.{RequestQueue, queue_create, queue_pop, store, around, incr}

-- `rear` is the index before `front + size`, going round.
pub record IsValid {ℓ} {A : Type ℓ} (q : RequestQueue A) : Type 0 where
  pub nonempty : 0 < q.capacity
  pub small : q.capacity < 2 ^ 31
  pub storage : length q.array ≡ q.capacity
  pub front_in : q.front < q.capacity
  pub rear_in : q.rear < q.capacity
  pub size_in : q.size ≤ q.capacity
  pub follows :
      (q.rear + 1 ≡ q.front + q.size)
      ⊎ (q.rear + 1 + q.capacity ≡ q.front + q.size)
      ⊎ (q.rear + 1 ≡ q.front + q.size + q.capacity)

module _ {ℓ} {A : Type ℓ} where
  -- Writing an item keeps the invariant while there is room.
  pub store-IsValid :
      (q : RequestQueue A) (x : A) → IsValid q → q.size < q.capacity → IsValid (store q x)
  unfolding store
  store-IsValid q x v room = ground (arith, length-set q.array (around q.capacity (incr q.rear)) x)

module _ {ℓ} {A : Type ℓ} (junk : A) where
  -- A queue of a positive capacity is valid and empty at the start.
  pub queue_create-IsValid :
      (capacity : ℕ) → 0 < capacity → capacity < 2 ^ 31 → IsValid (queue_create junk capacity)
  unfolding queue_create
  queue_create-IsValid c pos small = ground (arith, length-replicate c junk)

  -- So does taking one out, while there is one.
  pub queue_pop-IsValid :
      (q : RequestQueue A) → IsValid q → 0 < q.size → IsValid (queue_pop junk q).1
  unfolding queue_pop
  queue_pop-IsValid q v some_item = ground arith

  -- The size goes down by one, and the capacity stays.
  pub queue_pop-sizes :
      (q : RequestQueue A)
      → IsValid q
      → 0 < q.size
      → ((queue_pop junk q).1.size + 1 ≡ q.size) × ((queue_pop junk q).1.capacity ≡ q.capacity)
  unfolding queue_pop
  queue_pop-sizes q v some_item = ground arith
