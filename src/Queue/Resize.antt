-- ===== src/Queue/Resize.antt =====
-- `queue_push` as a whole: a full queue is copied into one of twice the capacity, and the two
-- levels of calls that `queue_push` allows are enough.
use mathlib.Core.List.{append_assoc, append-nil}
use native.Mathlib.Decide.{dec_lt}
use sope.Prelude.{
  ℕ, zero, suc, ◌+◌, ◌*◌, ◌^◌, ◌≤◌, ◌<◌, ◌≡◌, refl, sym, ap, ◌∙◌, List, [], ◌∷◌, ◌++◌, Option, some,
  arith, length, ◌==◌, if◌then◌else◌,
}
use sope.Types.{u32}
use sope.Queue.{
  RequestQueue, queue_create, queue_pop, store, refill, queue_resize, push_within, queue_push,
}
use sope.Queue.Bounds.{IsValid, queue_create-IsValid, store-IsValid, queue_pop-IsValid}
use sope.Queue.Refine.{contents, length-contents, contents-store, contents-queue_pop}

module _ {ℓ} {A : Type ℓ} (junk : A) where
  push_within-room :
      (depth : ℕ) (q : RequestQueue A) (x : A)
      → q.size < q.capacity
      → push_within junk (suc depth) q x ≡ some (store q x)
  unfolding push_within
  push_within-room depth q x room = ground arith

  -- What the loop has made of `new` when it stops.
  record Refilled (q new r : RequestQueue A) : Type ℓ where
    valid : IsValid r
    items : contents junk r ≡ contents junk new ++ contents junk q
    capacity : r.capacity ≡ new.capacity
    size : r.size ≡ new.size + q.size

  contents-empty : (q : RequestQueue A) → q.size ≡ 0 → contents junk q ≡ []
  contents-empty q e = empty (contents junk q) (length-contents junk q ∙ e)
    where
      empty : (l : List A) → length l ≡ 0 → l ≡ []
      empty [] h = refl
      empty (x ∷ l) h = absurd (omega arith)

  refill-done :
      (push : RequestQueue A → A → Option (RequestQueue A)) (n : ℕ) (q new : RequestQueue A)
      → q.size ≡ 0
      → refill junk push n q new ≡ some new
  unfolding refill
  refill-done push zero q new e = ground arith
  refill-done push (suc n) q new e = ground arith

  refill-step :
      (push : RequestQueue A → A → Option (RequestQueue A)) (n : ℕ) (q new : RequestQueue A)
      {pushed : RequestQueue A}
      → 0 < q.size
      → push new (queue_pop junk q).0 ≡ some pushed
      → refill junk push (suc n) q new ≡ refill junk push n (queue_pop junk q).1 pushed
  unfolding refill
  refill-step push n q new some_item e = ground arith

  size-queue_pop :
      (q : RequestQueue A) → IsValid q → 0 < q.size → (queue_pop junk q).1.size + 1 ≡ q.size
  unfolding queue_pop
  size-queue_pop q v some_item = omega arith

  size-store :
      (q : RequestQueue A) (x : A)
      → IsValid q
      → q.size < q.capacity
      → ((store q x).size ≡ q.size + 1) × ((store q x).capacity ≡ q.capacity)
  unfolding store
  size-store q x v room = (omega arith, refl)

  Refilled-here : (q new : RequestQueue A) → IsValid new → q.size ≡ 0 → Refilled q new new
  Refilled-here q new w e = record {
    valid = w;
    items = rw (contents-empty q e) (sym (append-nil _));
    capacity = refl;
    size = omega arith;
  }

  -- A round moves the oldest item over.
  Refilled-round :
      (q new r : RequestQueue A)
      → IsValid q
      → IsValid new
      → 0 < q.size
      → new.size < new.capacity
      → Refilled (queue_pop junk q).1 (store new (queue_pop junk q).0) r
      → Refilled q new r
  Refilled-round q new r v w some_item room f = record {
    valid = f.valid;
    items =
        f.items
        ∙ ap (λ l. l ++ contents junk (queue_pop junk q).1)
            (contents-store junk new (queue_pop junk q).0 w room)
        ∙ append_assoc (contents junk new) ((queue_pop junk q).0 ∷ [])
            (contents junk (queue_pop junk q).1)
        ∙ ap (◌++◌ (contents junk new)) (sym (contents-queue_pop junk q v some_item));
    capacity = f.capacity ∙ (size-store new _ w room).1;
    size = omega (
      arith,
      f.size,
      (size-store new (queue_pop junk q).0 w room).0,
      size-queue_pop q v some_item,
    );
  }

  -- The loop returns, with all the items moved over.
  abbrev Refills : ℕ → RequestQueue A → RequestQueue A → Type ℓ
  Refills n q new =
      (r : RequestQueue A) × (refill junk (push_within junk 1) n q new ≡ some r) × Refilled q new r

  Refills-round :
      (n : ℕ) (q new : RequestQueue A)
      → IsValid q
      → IsValid new
      → 0 < q.size
      → new.size < new.capacity
      → Refills n (queue_pop junk q).1 (store new (queue_pop junk q).0)
      → Refills (suc n) q new
  Refills-round n q new v w some_item room (r, e, f) = (
    r,
    refill-step _ n q new some_item (push_within-room 0 new (queue_pop junk q).0 room) ∙ e,
    Refilled-round q new r v w some_item room f,
  )

  refill_lem :
      (n : ℕ) (q new : RequestQueue A)
      → IsValid q
      → IsValid new
      → q.size ≤ n
      → q.size + new.size ≤ new.capacity
      → Refills n q new
  refill_lem zero q new v w enough room =
      (new, refill-done _ zero q new (omega arith), Refilled-here q new w (omega arith))
  refill_lem (suc n) q new v w enough room = elim (dec_lt 0 q.size) [
    | yes h ↦ Refills-round n q new v w h (omega arith) (
        refill_lem n (queue_pop junk q).1 (store new (queue_pop junk q).0)
          (queue_pop-IsValid junk q v h) (store-IsValid new _ w (omega arith))
          (omega (arith, size-queue_pop q v h))
          (omega
            (arith, size-queue_pop q v h, size-store new (queue_pop junk q).0 w (omega arith))))
    | no h ↦ (new, refill-done _ (suc n) q new (omega arith), Refilled-here q new w (omega arith))
  ]

  -- What a push makes of a valid queue: the item is the last one, and the capacity has doubled if
  -- the queue was full.
  pub record Pushed (q : RequestQueue A) (x : A) (r : RequestQueue A) : Type ℓ where
    pub valid : IsValid r
    pub items : contents junk r ≡ contents junk q ++ x ∷ []
    pub capacity : r.capacity ≡ (if q.size == q.capacity then q.capacity * 2 else q.capacity)
    pub size : r.size ≡ q.size + 1

  pub queue_push-room :
      (q : RequestQueue A) (x : A) → q.size < q.capacity → queue_push junk q x ≡ some (store q x)
  unfolding push_within queue_push
  queue_push-room q x room = ground arith

  abbrev doubled : RequestQueue A → RequestQueue A
  doubled q = queue_create junk (u32 (q.capacity * 2))

  queue_push-full :
      (q : RequestQueue A) (x : A) {r : RequestQueue A}
      → q.size ≡ q.capacity
      → refill junk (push_within junk 1) q.size q (doubled q) ≡ some r
      → queue_push junk q x ≡ some (store r x)
  unfolding push_within queue_resize queue_push
  queue_push-full q x full e = ground arith

  queue_create-fields :
      (c : ℕ) → ((queue_create junk c).size ≡ 0) × ((queue_create junk c).capacity ≡ c)
  unfolding queue_create
  queue_create-fields c = (refl, refl)

  Pushed-room :
      (q : RequestQueue A) (x : A) → IsValid q → q.size < q.capacity → Pushed q x (store q x)
  Pushed-room q x v room = record {
    valid = store-IsValid q x v room;
    items = contents-store junk q x v room;
    capacity = ground (arith, size-store q x v room);
    size = (size-store q x v room).0;
  }

  Pushed-full :
      (q : RequestQueue A) (x : A) (r : RequestQueue A)
      → IsValid q
      → q.size ≡ q.capacity
      → q.capacity < 2 ^ 30
      → Refilled q (doubled q) r
      → Pushed q x (store r x)
  Pushed-full q x r v full small f = record {
    valid = store-IsValid r x f.valid room;
    items =
        contents-store junk r x f.valid room
        ∙ ap (λ l. l ++ x ∷ [])
            (f.items
              ∙ ap (λ l. l ++ contents junk q)
                  (contents-empty (doubled q) (queue_create-fields (u32 (q.capacity * 2))).0));
    capacity = ground (
      arith,
      size-store r x f.valid room,
      f.capacity,
      queue_create-fields (u32 (q.capacity * 2)),
    );
    size =
        omega
          (arith, size-store r x f.valid room, f.size, queue_create-fields (u32 (q.capacity * 2)));
  }
    where
      room : r.size < r.capacity
      room =
          omega (arith, v.nonempty, f.size, f.capacity, queue_create-fields (u32 (q.capacity * 2)))

  -- `queue_push` returns on every valid queue whose capacity is below 2^30, full or not: the result is
  -- valid, holds the item behind the others, and has twice the capacity if the queue was full.
  pub queue_push-Pushed :
      (q : RequestQueue A) (x : A)
      → IsValid q
      → q.capacity < 2 ^ 30
      → (r : RequestQueue A) × (queue_push junk q x ≡ some r) × Pushed q x r
  queue_push-Pushed q x v small = elim (dec_lt q.size q.capacity) [
    | yes room ↦ (store q x, queue_push-room q x room, Pushed-room q x v room)
    | no not_room ↦ resized (omega arith)
  ]
    where
      resized :
          q.size ≡ q.capacity → (r : RequestQueue A) × (queue_push junk q x ≡ some r) × Pushed q x r
      resized full =
          let (r, e, f) =
            refill_lem q.size q (doubled q) v
              (queue_create-IsValid junk (u32 (q.capacity * 2)) (omega arith) (omega arith))
              (omega arith) (omega (arith, queue_create-fields (u32 (q.capacity * 2)))) in
          (store r x, queue_push-full q x full e, Pushed-full q x r v full small f)
