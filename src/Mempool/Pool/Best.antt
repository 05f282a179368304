-- ===== src/Mempool/Pool/Best.antt =====
-- crates/pool/src/mempool/pool.rs: the loops along the best operations of the pool.
use rundler.Common.{
  ℕ, ◌≡◌, ◌≢◌, refl, subst, inl, inr, false, some, some_inj, List, [], ◌∷◌, map, nat_beq, nat_eq,
  arith, All, Bool-cases, Option-cases,
}
use rundler.Common.HashSet.{contains, Distinct}
use rundler.Types.{id_eq}
use rundler.Mempool.Pool.{
  OrderedPoolOperation, Cell, hash_of, best_insert, best_remove, pop_last, comes_before,
  compares_equal,
}

abbrev pub hashes : List OrderedPoolOperation → List ℕ
hashes os = map (λ o. hash_of o) os

pub apart-All :
    (k : ℕ) (os : List OrderedPoolOperation)
    → contains k (hashes os) ≡ false
    → All (λ (p : OrderedPoolOperation). k ≢ hash_of p) os
unfolding contains
apart-All k [] h = tt
apart-All k (x ∷ xs) h = (ground arith, apart-All k xs (ground arith))

-- The loops along the best operations.
module _ (cells : ℕ → Cell) (o : OrderedPoolOperation) where
  pub best_insert-All :
      (P : OrderedPoolOperation → Type 0) (os : List OrderedPoolOperation)
      → P o
      → All P os
      → All P (best_insert cells o os)
  unfolding best_insert
  best_insert-All P [] p h = (p, tt)
  best_insert-All P (x ∷ xs) p h = elim (Bool-cases (comes_before cells o x)) [
    | inl before ↦ rw before (p, h)
    | inr after ↦ elim (Bool-cases (compares_equal cells o x)) [
      | inl same ↦ rw (after, same) h
      | inr differ ↦ rw (after, differ) (h.0, best_insert-All P xs p h.1)
    ]
  ]

  contains-best_insert :
      (k : ℕ) (os : List OrderedPoolOperation)
      → nat_beq (hash_of o) k ≡ false
      → contains k (hashes os) ≡ false
      → contains k (hashes (best_insert cells o os)) ≡ false
  unfolding best_insert contains
  contains-best_insert k [] d h = ground arith
  contains-best_insert k (x ∷ xs) d h = ground (arith, contains-best_insert k xs d)

  pub best_insert-Distinct :
      (os : List OrderedPoolOperation)
      → contains (hash_of o) (hashes os) ≡ false
      → Distinct (hashes os)
      → Distinct (hashes (best_insert cells o os))
  unfolding best_insert contains
  best_insert-Distinct [] h d = (refl, tt)
  best_insert-Distinct (x ∷ xs) h d =
      ground (arith, contains-best_insert (hash_of x) xs, best_insert-Distinct xs)

  contains-best_remove :
      (k : ℕ) (os : List OrderedPoolOperation)
      → contains k (hashes os) ≡ false
      → contains k (hashes (best_remove cells o os)) ≡ false
  unfolding best_remove contains
  contains-best_remove k [] h = refl
  contains-best_remove k (x ∷ xs) h = ground (arith, contains-best_remove k xs)

  pub best_remove-Distinct :
      (os : List OrderedPoolOperation)
      → Distinct (hashes os)
      → Distinct (hashes (best_remove cells o os))
  unfolding best_remove contains
  best_remove-Distinct [] d = tt
  best_remove-Distinct (x ∷ xs) d =
      ground (arith, contains-best_remove (hash_of x) xs, best_remove-Distinct xs)

  pub best_remove-All :
      (P : OrderedPoolOperation → Type 0) (os : List OrderedPoolOperation)
      → All P os
      → All P (best_remove cells o os)
  unfolding best_remove
  best_remove-All P [] h = tt
  best_remove-All P (x ∷ xs) h = elim (Bool-cases (compares_equal cells o x)) [
    | inl same ↦ rw same h.1
    | inr differ ↦ rw differ (h.0, best_remove-All P xs h.1)
  ]

  pub best_remove-Absent :
      (os : List OrderedPoolOperation)
      → All (λ (p : OrderedPoolOperation). o.submission_id ≢ p.submission_id) os
      → best_remove cells o os ≡ os
  unfolding best_remove
  best_remove-Absent [] h = refl
  best_remove-Absent (x ∷ xs) h = ground (arith, h.0, best_remove-Absent xs h.1)

  -- Where submission ids tell operations apart as hashes do, the given one is removed.
  pub best_remove-Apart :
      (os : List OrderedPoolOperation)
      → All
          (λ (p : OrderedPoolOperation).
            (hash_of o ≡ hash_of p → o.submission_id ≡ p.submission_id)
            × (o.submission_id ≡ p.submission_id → hash_of o ≡ hash_of p))
          os
      → Distinct (hashes os)
      → All (λ (p : OrderedPoolOperation). hash_of o ≢ hash_of p) (best_remove cells o os)
  unfolding best_remove
  best_remove-Apart [] h d = tt
  best_remove-Apart (x ∷ xs) h d = elim (Bool-cases (compares_equal cells o x)) [
    | inl same ↦ rw same (apart-All (hash_of o) xs (ground (arith, h.0.1)))
    | inr differ ↦ rw differ (ground (arith, h.0.0), best_remove-Apart xs h.1 d.1)
  ]

pub pop_last-All :
    (P : OrderedPoolOperation → Type 0) (os ys : List OrderedPoolOperation)
    (y : OrderedPoolOperation)
    → pop_last os ≡ some (ys, y)
    → All P os
    → All P ys × P y
unfolding pop_last
pop_last-All P [] ys y h a = absurd (ground arith)
pop_last-All P (x ∷ xs) ys y h a = elim (Option-cases (pop_last xs)) [
  | inl q ↦
      let e : ([], x) ≡ (ys, y) = some_inj (ground arith) in
      subst (λ (r : List OrderedPoolOperation × OrderedPoolOperation). All P r.0 × P r.1) e
        (tt, a.0)
  | inr (r, q) ↦
      let e : (x ∷ r.0, r.1) ≡ (ys, y) = some_inj (ground arith) in
      let b = pop_last-All P xs r.0 r.1 q a.1 in
      subst (λ (t : List OrderedPoolOperation × OrderedPoolOperation). All P t.0 × P t.1) e
        ((a.0, b.0), b.1)
]

contains-pop_last :
    (k : ℕ) (os ys : List OrderedPoolOperation) (y : OrderedPoolOperation)
    → pop_last os ≡ some (ys, y)
    → contains k (hashes os) ≡ false
    → contains k (hashes ys) ≡ false
unfolding pop_last contains
contains-pop_last k [] ys y h c = absurd (ground arith)
contains-pop_last k (x ∷ xs) ys y h c = elim (Option-cases (pop_last xs)) [
  | inl q ↦ ground arith
  | inr (r, q) ↦ ground (arith, contains-pop_last k xs r.0 r.1 q)
]

pub pop_last-Distinct :
    (os ys : List OrderedPoolOperation) (y : OrderedPoolOperation)
    → pop_last os ≡ some (ys, y)
    → Distinct (hashes os)
    → Distinct (hashes ys)
unfolding pop_last
pop_last-Distinct [] ys y h d = absurd (ground arith)
pop_last-Distinct (x ∷ xs) ys y h d = elim (Option-cases (pop_last xs)) [
  | inl q ↦
      let e : [] ≡ ys = ground arith in
      subst (λ (l : List OrderedPoolOperation). Distinct (hashes l)) e tt
  | inr (r, q) ↦
      let e : x ∷ r.0 ≡ ys = ground arith in
      subst (λ (l : List OrderedPoolOperation). Distinct (hashes l)) e
        (contains-pop_last (hash_of x) xs r.0 r.1 q d.0, pop_last-Distinct xs r.0 r.1 q d.1)
]

pub pop_last-Apart :
    (os ys : List OrderedPoolOperation) (y : OrderedPoolOperation)
    → pop_last os ≡ some (ys, y)
    → Distinct (hashes os)
    → contains (hash_of y) (hashes ys) ≡ false
unfolding pop_last contains
pop_last-Apart [] ys y h d = absurd (ground arith)
pop_last-Apart (x ∷ xs) ys y h d = elim (Option-cases (pop_last xs)) [
  | inl q ↦ ground arith
  | inr (r, q) ↦
      let other =
        (pop_last-All (λ (p : OrderedPoolOperation). hash_of x ≢ hash_of p) xs r.0 r.1 q
          (apart-All (hash_of x) xs d.0)).1 in
      let rest = pop_last-Apart xs r.0 r.1 q d.1 in
      let apart : contains (hash_of r.1) (hashes (x ∷ r.0)) ≡ false = ground (arith, other, rest) in
      let e : (x ∷ r.0, r.1) ≡ (ys, y) = some_inj (ground arith) in
      subst
        (λ (t : List OrderedPoolOperation × OrderedPoolOperation).
          contains (hash_of t.1) (hashes t.0) ≡ false)
        e apart
]
