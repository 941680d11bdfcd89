-- ===== src/Queue/Run.antt =====
-- Whole sequences of calls: a queue returns what a first-in first-out list returns.
use sope.Prelude.{
  ℕ, suc, ◌+◌, ◌^◌, ◌<◌, ◌≡◌, ap, ◌∙◌, List, [], ◌∷◌, ◌++◌, Option, none, some, arith, length,
  Option-cases, inl, inr,
}
use sope.Queue.{RequestQueue, queue_pop, queue_push}
use sope.Queue.Bounds.{IsValid, queue_pop-IsValid}
use sope.Queue.Refine.{contents, length-contents, contents-queue_pop}
use sope.Queue.Resize.{queue_push-Pushed, Pushed}

pub data Call {ℓ} (A : Type ℓ) : Type ℓ where
  pushes : A → Call A
  pops : Call A

module _ {ℓ} {A : Type ℓ} where
  -- The specification: what each pop returns, and the items left; `none` is a pop of nothing.
  unfoldable pub fifo : List (Call A) → List A → Option (List A × List A)
  fifo [] xs = some ([], xs)
  fifo (pushes x ∷ cs) xs = fifo cs (xs ++ x ∷ [])
  fifo (pops ∷ cs) [] = none
  fifo (pops ∷ cs) (x ∷ xs) = elim (fifo cs xs) [
    | none ↦ none
    | some (out, rest) ↦ some (x ∷ out, rest)
  ]

module _ {ℓ} {A : Type ℓ} (junk : A) where
  -- The calls of queue.c in order, with what each pop returns.
  unfoldable pub run : List (Call A) → RequestQueue A → Option (List A × RequestQueue A)
  run [] q = some ([], q)
  run (pushes x ∷ cs) q = elim (queue_push junk q x) [ none ↦ none | some r ↦ run cs r ]
  run (pops ∷ cs) q =
      let (x, r) = queue_pop junk q in
      elim (run cs r) [ none ↦ none | some (out, s) ↦ some (x ∷ out, s) ]

  -- the queue is valid, and has room to grow by `n` items within the range of int
  pub record Roomy (n : ℕ) (q : RequestQueue A) : Type 0 where
    pub valid : IsValid q
    pub grows : q.capacity < 2 ^ 30
    pub items : q.size + n < 2 ^ 29

  -- The calls return, with the results `out`, and leave a queue that holds `rest`.
  abbrev pub Runs : List (Call A) → RequestQueue A → List A → List A → Type ℓ
  Runs cs q out rest =
      (r : RequestQueue A) × (run cs q ≡ some (out, r)) × IsValid r × (contents junk r ≡ rest)

  Pushed-Roomy :
      (n : ℕ) (q : RequestQueue A) (x : A) (r : RequestQueue A)
      → Roomy (suc n) q
      → Pushed junk q x r
      → Roomy n r
  Pushed-Roomy n q x r v f = record { valid = f.valid; grows = ground arith; items = ground arith }

  module _ (q : RequestQueue A) (x : A) (xs : List A) (v : IsValid q)
      (c : contents junk q ≡ x ∷ xs) where
    pop_some : 0 < q.size
    pop_some = omega (arith, ap length c, length-contents junk q)

    pop_item : (queue_pop junk q).0 ≡ x
    pop_item = cc (contents-queue_pop junk q v pop_some)

    pop_rest : contents junk (queue_pop junk q).1 ≡ xs
    pop_rest = cc (contents-queue_pop junk q v pop_some)

    pop-Roomy : (n : ℕ) → Roomy (suc n) q → Roomy n (queue_pop junk q).1
    unfolding queue_pop
    pop-Roomy n r = record {
      valid = queue_pop-IsValid junk q v pop_some;
      grows = r.grows;
      items = omega (arith, r.items, pop_some, v.size_in, v.small);
    }

  Runs-pushes :
      (cs : List (Call A)) (q : RequestQueue A) (x : A) {r : RequestQueue A}
      {o : Option (List A × RequestQueue A)}
      → queue_push junk q x ≡ some r
      → run cs r ≡ o
      → run (pushes x ∷ cs) q ≡ o
  unfolding run
  Runs-pushes cs q x p e = rw (p, run) e

  Runs-pops :
      (cs : List (Call A)) (q : RequestQueue A) (x : A) (out rest : List A)
      → (queue_pop junk q).0 ≡ x
      → Runs cs (queue_pop junk q).1 out rest
      → Runs (pops ∷ cs) q (x ∷ out) rest
  unfolding run
  Runs-pops cs q x out rest i (r, e, w, d) = (r, rw (e, i), w, d)

  -- From a valid queue that can grow by the calls within the range of int, any sequence of pushes and
  -- pops returns: where the first-in first-out list has an item for each pop, the queue returns the same items, and holds the same
  -- ones in the end.
  pub run-fifo :
      (cs : List (Call A)) (q : RequestQueue A) (xs out rest : List A)
      → Roomy (length cs) q
      → contents junk q ≡ xs
      → fifo cs xs ≡ some (out, rest)
      → Runs cs q out rest
  unfolding run fifo
  run-fifo [] q xs out rest v c e = (q, ground arith, v.valid, ground arith)
  run-fifo (pushes x ∷ cs) q xs out rest v c e =
      let (r, p, f) = queue_push-Pushed junk q x v.valid v.grows in
      let (s, e', w, d) =
        run-fifo cs r (xs ++ x ∷ []) out rest (Pushed-Roomy (length cs) q x r v f)
          (f.items ∙ ap (λ l. l ++ x ∷ []) c) e in
      (s, Runs-pushes cs q x p e', w, d)
  run-fifo (pops ∷ cs) q [] out rest v c e = cc
  run-fifo (pops ∷ cs) q (x ∷ xs) out rest v c e = elim (Option-cases (fifo cs xs)) [
    | inl stuck ↦ ground arith
    | inr ((out', rest'), e') ↦ rw (heads out' rest' e') at (
        Runs-pops cs q x out' rest (pop_item q x xs v.valid c) (
          run-fifo cs (queue_pop junk q).1 xs out' rest (pop-Roomy q x xs v.valid c (length cs) v)
            (pop_rest q x xs v.valid c) (e' ∙ lasts out' rest' e')))
  ]
    where
      heads : (out' rest' : List A) → fifo cs xs ≡ some (out', rest') → x ∷ out' ≡ out
      heads out' rest' e' = ground arith

      lasts :
          (out' rest' : List A)
          → fifo cs xs ≡ some (out', rest')
          → ◌≡◌ {A = Option (List A × List A)} (some (out', rest')) (some (out', rest))
      lasts out' rest' e' = ground arith
