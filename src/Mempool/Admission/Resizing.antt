-- ===== src/Mempool/Admission/Resizing.antt =====
-- crates/pool/src/mempool/pool.rs: when `enforce_size` returns, and with how much fuel.
use rundler.Common.{
  ℕ, zero, suc, ◌+◌, ◌-◌, ◌≤◌, ◌<◌, ◌≡◌, ◌≢◌, refl, sym, ◌∙◌, ap, subst, inl, inr, true, false,
  Option, none, some, List, [], ◌∷◌, ◌++◌, nat_eq, arith, All, All-zip, Bool-cases, Option-cases,
  length,
}
use rundler.Common.HashMap.{get}
use rundler.Common.HashMap.Values.{sum_values, sum_values-removed}
use rundler.Common.HashSet.{contains}
use rundler.Types.{id_eq}
use rundler.Types.Operation.{PoolOperation}
use rundler.Mempool.EntityTracker.{exceeds, isize_bound}
use rundler.Mempool.Pool.{
  PoolInner, OrderedPoolOperation, Cell, hash_of, mem_size, best_remove, pop_last, remember_mined,
  drop_operation, remove_operation_internal,
}
use rundler.Mempool.Pool.Best.{
  hashes, pop_last-All, pop_last-Distinct, pop_last-Apart, apart-All, best_remove-Absent,
}
use rundler.Mempool.Pool.Stored.{IsStored, Ids, IsIndexed}
use rundler.Mempool.Pool.Removed.{
  drop_operation-IsIndexed, remove_operation_internal_found, same_hash,
}
use rundler.Mempool.Admission.{enforce_size}
use rundler.Mempool.Admission.Indices.{with_best-IsIndexed}

-- With no best operation left and the pool still too large, the loop goes round for ever.
pub enforce_size-Stuck :
    (fuel : ℕ) (s : PoolInner) (removed : List ℕ)
    → s.best ≡ []
    → exceeds s.pool_size s.config.max_size_of_pool_bytes ≡ true
    → enforce_size fuel s removed ≡ none
unfolding enforce_size pop_last
enforce_size-Stuck zero s removed b over = refl
enforce_size-Stuck (suc fuel) s removed b over =
    ground (arith, enforce_size-Stuck fuel s removed b over)

pop_last-Empty : (os : List OrderedPoolOperation) → pop_last os ≡ none → os ≡ []
unfolding pop_last
pop_last-Empty [] h = refl
pop_last-Empty (x ∷ xs) h = elim (Option-cases (pop_last xs)) [
  | inl q ↦ absurd (ground arith)
  | inr (r, q) ↦ absurd (ground arith)
]

-- The memory of a list of operations.
abbrev pub bytes : (OrderedPoolOperation → ℕ) → List OrderedPoolOperation → ℕ
bytes f [] = 0
bytes f (o ∷ os) = f o + bytes f os

pop_last-Measured :
    (f : OrderedPoolOperation → ℕ) (os ys : List OrderedPoolOperation) (y : OrderedPoolOperation)
    → pop_last os ≡ some (ys, y)
    → (length os ≡ suc (length ys)) × (bytes f os ≡ bytes f ys + f y)
unfolding pop_last
pop_last-Measured f [] ys y h = absurd (ground arith)
pop_last-Measured f (x ∷ xs) ys y h = elim (Option-cases (pop_last xs)) [
  | inl q ↦ ground (arith, pop_last-Empty xs q)
  | inr (r, q) ↦ ground (arith, pop_last-Measured f xs r.0 r.1 q)
]

length-best_remove :
    (cells : ℕ → Cell) (o : OrderedPoolOperation) (os : List OrderedPoolOperation)
    → length (best_remove cells o os) ≤ length os
unfolding best_remove
length-best_remove cells o [] = omega arith
length-best_remove cells o (x ∷ xs) = ground (arith, length-best_remove cells o xs)

length-removed :
    (s : PoolInner) (hash : ℕ)
    → length (remove_operation_internal s hash none).0.best ≤ length s.best
unfolding remove_operation_internal drop_operation remember_mined
length-removed s hash = elim (Option-cases (get hash s.by_hash)) [
  | inl q ↦ rw (remove_operation_internal, q) omega arith
  | inr (o, q) ↦ rw (remove_operation_internal, q) (length-best_remove s.cells o s.best)
]

-- More fuel than there are best operations finds what any fuel finds: the loop of `resized` gives up only
-- where the code's loop does not end.
pub enforce_size-Enough :
    (fuel n : ℕ) (s : PoolInner) (removed : List ℕ) (r : PoolInner × Option (List ℕ))
    → enforce_size fuel s removed ≡ some r
    → length s.best ≤ n
    → enforce_size (suc n) s removed ≡ some r
unfolding enforce_size
enforce_size-Enough zero n s removed r h b = absurd (ground arith)
enforce_size-Enough (suc fuel) n s removed r h b =
    elim (Bool-cases (exceeds s.pool_size s.config.max_size_of_pool_bytes)) [
      | inr fits ↦ ground arith
      | inl over ↦ elim (Option-cases (pop_last s.best)) [
        | inl q ↦
            absurd (
              ground
                (arith, enforce_size-Stuck (suc fuel) s removed (pop_last-Empty s.best q) over))
        | inr ((others, worst), q) ↦
            let m = pop_last-Measured (λ o. 0) s.best others worst q in
            let u : PoolInner × Option PoolOperation =
              remove_operation_internal (record s { best = others }) (hash_of worst) none in
            elim (Option-cases u.1) [
              | inl gone ↦ ground arith
              | inr (po, found) ↦
                  let rest = removed ++ hash_of worst ∷ [] in
                  let e : enforce_size fuel u.0 rest ≡ some r = ground arith in
                  let less : length u.0.best ≤ n - 1 =
                    omega
                      (arith, m.0, length-removed (record s { best = others }) (hash_of worst)) in
                  let again = enforce_size-Enough fuel (n - 1) u.0 rest r e less in
                  let next : suc (n - 1) ≡ n = omega (arith, m.0) in
                  let done : enforce_size n u.0 rest ≡ some r =
                    subst (λ (k : ℕ). enforce_size k u.0 rest ≡ some r) next again in
                  ground arith
            ]
      ]
    ]

-- One round of the loop.
abbrev evicted : PoolInner → List OrderedPoolOperation → OrderedPoolOperation → PoolInner
evicted s others worst = drop_operation (record s { best = others }) (hash_of worst) worst

enforce_size_round :
    (n : ℕ) (s : PoolInner) (removed : List ℕ) (others : List OrderedPoolOperation)
    (worst : OrderedPoolOperation)
    → exceeds s.pool_size s.config.max_size_of_pool_bytes ≡ true
    → pop_last s.best ≡ some (others, worst)
    → IsStored s.by_hash worst
    → enforce_size (suc n) s removed
      ≡ enforce_size n (evicted s others worst) (removed ++ hash_of worst ∷ [])
unfolding enforce_size remove_operation_internal remember_mined
enforce_size_round n s removed others worst over q st =
    rw (enforce_size, over, q, remove_operation_internal, st)
      (ap (λ (u : PoolInner). enforce_size n u (removed ++ hash_of worst ∷ []))
        (remove_operation_internal_found (record s { best = others }) (hash_of worst) none worst
          st))

module _ (ids : Ids) where
  unlike :
      (s : PoolInner) (o : OrderedPoolOperation) (os : List OrderedPoolOperation)
      → IsIndexed ids s
      → IsStored s.by_hash o
      → All (IsStored s.by_hash) os
      → contains (hash_of o) (hashes os) ≡ false
      → All (λ (p : OrderedPoolOperation). o.submission_id ≢ p.submission_id) os
  unlike s o os i so a c =
      All-zip (λ p sp ne e. ne ((same_hash ids s o p i so sp).1 e)) os a
        (apart-All (hash_of o) os c)

  best_left :
      (s : PoolInner)
      → IsIndexed ids s
      → pop_last s.best ≡ none
      → s.config.max_size_of_pool_bytes < isize_bound
      → sum_values (λ o. mem_size s.config o) s.by_hash
        ≤ bytes (λ o. mem_size s.config o) s.best + s.config.max_size_of_pool_bytes
      → exceeds s.pool_size s.config.max_size_of_pool_bytes ≢ true
  best_left s i q limit fit over =
      let f : OrderedPoolOperation → ℕ = λ o. mem_size s.config o in
      let none_left : bytes f s.best ≡ 0 =
        ap (λ (os : List OrderedPoolOperation). bytes f os) (pop_last-Empty s.best q) in
      absurd (ground (arith, i.sized))

  -- A pool that knows its operations and their memory, in which the operations that are not among the best
  -- would fit, is brought to its maximal size or below, with as much fuel as `resized` has. The maximal
  -- size is an isize.
  pub enforce_size-Returns :
      (n : ℕ) (s : PoolInner) (removed : List ℕ)
      → IsIndexed ids s
      → length s.best ≤ n
      → s.config.max_size_of_pool_bytes < isize_bound
      → sum_values (λ o. mem_size s.config o) s.by_hash
        ≤ bytes (λ o. mem_size s.config o) s.best + s.config.max_size_of_pool_bytes
      → (t : PoolInner) × (r : List ℕ) × (enforce_size (suc n) s removed ≡ some (t, some r))
        × (exceeds t.pool_size s.config.max_size_of_pool_bytes ≡ false)
  unfolding enforce_size drop_operation
  enforce_size-Returns zero s removed i b limit fit =
      elim (Bool-cases (exceeds s.pool_size s.config.max_size_of_pool_bytes)) [
        | inr fits ↦ (s, removed, ground arith, fits)
        | inl over ↦ elim (Option-cases (pop_last s.best)) [
          | inl q ↦ absurd (best_left s i q limit fit over)
          | inr ((others, worst), q) ↦
              absurd (omega (arith, (pop_last-Measured (λ o. 0) s.best others worst q).0))
        ]
      ]
  enforce_size-Returns (suc n) s removed i b limit fit =
      elim (Bool-cases (exceeds s.pool_size s.config.max_size_of_pool_bytes)) [
        | inr fits ↦ (s, removed, ground arith, fits)
        | inl over ↦ elim (Option-cases (pop_last s.best)) [
          | inl q ↦ absurd (best_left s i q limit fit over)
          | inr ((others, worst), q) ↦
              let f : OrderedPoolOperation → ℕ = λ o. mem_size s.config o in
              let m = pop_last-Measured f s.best others worst q in
              let (so, sw) =
                pop_last-All (IsStored s.by_hash) s.best others worst q i.best_stored in
              let once = pop_last-Distinct s.best others worst q i.best_once in
              let apart = pop_last-Apart s.best others worst q i.best_once in
              let kept : (evicted s others worst).best ≡ others =
                best_remove-Absent s.cells worst others (unlike s worst others i sw so apart) in
              let size = sum_values-removed f (hash_of worst) worst s.by_hash i.by_hash_map sw in
              let len : length (evicted s others worst).best ≤ n =
                subst (λ (os : List OrderedPoolOperation). length os ≤ n) (sym kept)
                  (omega (arith, m.0)) in
              let left : sum_values f (evicted s others worst).by_hash
                  ≤ bytes f (evicted s others worst).best + s.config.max_size_of_pool_bytes =
                subst
                  (λ (os : List OrderedPoolOperation).
                    sum_values f (evicted s others worst).by_hash
                    ≤ bytes f os + s.config.max_size_of_pool_bytes)
                  (sym kept) (omega (arith, m.1, size)) in
              let (t, r, e, fits) =
                enforce_size-Returns n (evicted s others worst) (removed ++ hash_of worst ∷ [])
                  (drop_operation-IsIndexed ids (record s { best = others }) (hash_of worst) worst
                    sw (with_best-IsIndexed ids s others so once i))
                  len limit left in
              (t, r, enforce_size_round (suc n) s removed others worst over q sw ∙ e, fits)
        ]
      ]
