-- ===== src/Queue/Refine.antt =====
-- A valid queue behaves as the list of the items that it holds, oldest first.
use sope.Prelude.{
  ℕ, zero, suc, ◌+◌, ◌-◌, ◌<◌, ◌≡◌, ◌≢◌, ◌∙◌, refl, ap, ap₂, List, [], ◌∷◌, ◌++◌, arith, length,
  get_or, get_or-set_self, get_or-set_ne, ltb, if◌then◌else◌,
}
use sope.Queue.{RequestQueue, queue_pop, store, around, incr, decr}
use sope.Queue.Bounds.{IsValid}

module _ {ℓ} {A : Type ℓ} where
  -- `f 0`, …, `f (n - 1)`
  abbrev pub tabulate : ℕ → (ℕ → A) → List A
  tabulate zero f = []
  tabulate (suc n) f = f 0 ∷ tabulate n (λ k. f (suc k))

  tabulate_cong :
      (n : ℕ) (f g : ℕ → A) → ((k : ℕ) → k < n → f k ≡ g k) → tabulate n f ≡ tabulate n g
  tabulate_cong zero f g h = refl
  tabulate_cong (suc n) f g h =
      ap₂ ◌∷◌ (h 0 (omega arith))
        (tabulate_cong n (λ k. f (suc k)) (λ k. g (suc k)) (λ k lt. h (suc k) (omega arith)))

  tabulate_snoc : (n : ℕ) (f : ℕ → A) → tabulate (suc n) f ≡ tabulate n f ++ f n ∷ []
  tabulate_snoc zero f = refl
  tabulate_snoc (suc n) f = ap (◌∷◌ (f 0)) (tabulate_snoc n (λ k. f (suc k)))

  length-tabulate : (n : ℕ) (f : ℕ → A) → length (tabulate n f) ≡ n
  length-tabulate zero f = refl
  length-tabulate (suc n) f = ap suc (length-tabulate n (λ k. f (suc k)))

-- the index of the item that is `k` places behind the front
abbrev place : ℕ → ℕ → ℕ → ℕ
place capacity front k = if ltb (front + k) capacity then front + k else front + k - capacity

module _ {ℓ} {A : Type ℓ} (junk : A) where
  abbrev pub contents : RequestQueue A → List A
  contents q = tabulate q.size (λ k. get_or q.array (place q.capacity q.front k) junk)

  pub length-contents : (q : RequestQueue A) → length (contents q) ≡ q.size
  length-contents q = length-tabulate q.size _

  rear-store :
      (q : RequestQueue A)
      → IsValid q
      → around q.capacity (incr q.rear) ≡ place q.capacity q.front q.size
  rear-store q v = ground arith

  -- The slot that is written is none of the occupied ones.
  place-ne :
      (q : RequestQueue A) (k : ℕ)
      → IsValid q
      → q.size < q.capacity
      → k < q.size
      → around q.capacity (incr q.rear) ≢ place q.capacity q.front k
  place-ne q k v room lt = ground arith

  pub contents-store :
      (q : RequestQueue A) (x : A)
      → IsValid q
      → q.size < q.capacity
      → contents (store q x) ≡ contents q ++ x ∷ []
  unfolding store
  contents-store q x v room =
      ap (λ n. tabulate n items) one_more
      ∙ tabulate_snoc q.size items
      ∙ ap₂ (λ l y. l ++ y ∷ []) kept added
    where
      items : ℕ → A
      items k = get_or (store q x).array (place q.capacity q.front k) junk

      one_more : incr q.size ≡ suc q.size
      one_more = omega arith

      kept : tabulate q.size items ≡ contents q
      kept =
          tabulate_cong q.size items _ λ k lt. get_or-set_ne q.array x junk (place-ne q k v room lt)

      added : items q.size ≡ x
      added = rw (← rear-store q v) (get_or-set_self q.array _ x junk (ground arith))

  -- A pop takes the oldest item off.
  pub contents-queue_pop :
      (q : RequestQueue A)
      → IsValid q
      → 0 < q.size
      → let (x, rest) = queue_pop junk q in contents q ≡ x ∷ contents rest
  unfolding queue_pop
  contents-queue_pop q v some_item = ap (λ n. tabulate n items) one_less ∙ ap₂ ◌∷◌ first others
    where
      items : ℕ → A
      items k = get_or q.array (place q.capacity q.front k) junk

      one_less : q.size ≡ suc (decr q.size)
      one_less = omega arith

      first : items 0 ≡ get_or q.array q.front junk
      first = ap (λ i. get_or q.array i junk) (ground arith)

      others : tabulate (decr q.size) (λ k. items (suc k)) ≡ contents (queue_pop junk q).1
      others = tabulate_cong (decr q.size) _ _ λ k lt. ap (λ i. get_or q.array i junk) (next k lt)
        where
          next :
              (k : ℕ)
              → k < decr q.size
              → place q.capacity q.front (suc k)
                ≡ place q.capacity (around q.capacity (incr q.front)) k
          next k lt = ground arith
