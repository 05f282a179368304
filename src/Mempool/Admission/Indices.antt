-- ===== src/Mempool/Admission/Indices.antt =====
-- crates/pool/src/mempool/pool.rs: an operation that enters the pool, and the ones that it replaces or
-- that leave for its size, keep the indices of the pool in step.
use rundler.Common.{
  ℕ, zero, suc, ◌≡◌, refl, sym, ◌∙◌, ap, subst, inl, inr, false, Option, none, some, List, [], ◌∷◌,
  ◌++◌, nat_eq, arith, All, All-map, Bool-cases, Option-cases, length,
}
use rundler.Common.Int.{ℤ, pos}
use rundler.Common.Results.{Result, ok, Result-cases}
use rundler.Common.HashMap.{
  HashMap, get, insert, get_inserted, get-insert_cases, get_past, insert-IsMap, get_unlike,
  get_gone, get_absent,
}
use rundler.Common.HashMap.Values.{sum_values, sum_values-inserted}
use rundler.Common.HashSet.{contains, Distinct}
use rundler.Types.{id_eq}
use rundler.Types.Operation.{PoolOperation, UserOperation}
use rundler.Mempool.EntityTracker.{exceeds, add_size}
use rundler.Mempool.Pool.{
  PoolInner, mem_size, OrderedPoolOperation, hash_of, id_of, pop_last, remove_operation_internal,
  remove_operation_by_hash, remember_mined, drop_operation,
}
use rundler.Mempool.Pool.Best.{
  hashes, best_insert-All, best_insert-Distinct, pop_last-All, pop_last-Distinct,
}
use rundler.Mempool.Pool.Stored.{IsStored, Ids, IsIssued, IsIndexed}
use rundler.Mempool.Pool.Removed.{
  remove_operation_internal_found, remove_operation_internal-IsIndexed,
}
use rundler.Mempool.Admission.{
  PoolError, insert_operation, enforce_size, check_replacement, replaced, resized, after_resize,
  add_operation_internal,
}

-- An absent hash is not among stored operations.
contains-absent :
    (h : ℕ) (m : HashMap ℕ OrderedPoolOperation) (os : List OrderedPoolOperation)
    → get h m ≡ none
    → All (IsStored m) os
    → contains h (hashes os) ≡ false
unfolding contains
contains-absent h m [] q a = refl
contains-absent h m (x ∷ xs) q a = ground (arith, contains-absent h m xs q a.1)

after_resize_pool :
    (hash : ℕ) (s t : PoolInner) (removed : Option (List ℕ)) (r : Result PoolError ℕ)
    → after_resize hash (some (s, removed)) ≡ some (t, r)
    → s ≡ t
after_resize_pool hash s t none r h = ground arith
after_resize_pool hash s t (some removed) r h = ground arith

inserted_size :
    (s : PoolInner) (o : OrderedPoolOperation)
    → get (hash_of o) s.by_hash ≡ none
    → s.pool_size ≡ pos (sum_values (λ p. mem_size s.config p) s.by_hash)
    → add_size s.pool_size (mem_size s.config o)
      ≡ pos (sum_values (λ p. mem_size s.config p) (insert (hash_of o) o s.by_hash))
inserted_size s o nh sized =
    let f : OrderedPoolOperation → ℕ = λ p. mem_size s.config p in
    ap (λ (z : ℤ). add_size z (f o)) sized
    ∙ ap pos (sym (sum_values-inserted f (hash_of o) o s.by_hash nh))

module _ (ids : Ids) where
  insert_operation-IsIndexed :
      (s : PoolInner) (o : OrderedPoolOperation)
      → get (hash_of o) s.by_hash ≡ none
      → get (id_of o) s.by_id ≡ none
      → IsIssued ids o
      → IsIndexed ids s
      → IsIndexed ids (insert_operation s o)
  unfolding insert_operation
  insert_operation-IsIndexed s o nh ni io i =
      let kept : All (IsStored (insert (hash_of o) o s.by_hash)) s.best =
        All-map
          (λ p sp.
            get_past (hash_of o) (hash_of p) o s.by_hash
              (get_unlike (hash_of o) (hash_of p) p s.by_hash nh sp)
            ∙ sp)
          s.best i.best_stored in
      let own : IsStored (insert (hash_of o) o s.by_hash) o =
        get_inserted (hash_of o) o s.by_hash in
      record {
        by_hash_id = λ h p e. elim (get-insert_cases (hash_of o) h o p s.by_hash e) [
          | inl (same, eq) ↦
              subst
                (λ (x : OrderedPoolOperation).
                  (hash_of x ≡ h) × (get (id_of x) (insert (id_of o) o s.by_id) ≡ some x))
                eq (same, get_inserted (id_of o) o s.by_id)
          | inr (differ, g) ↦
              let (hp, gp) = i.by_hash_id h p g in
              (
                hp,
                get_past (id_of o) (id_of p) o s.by_id
                      (get_unlike (id_of o) (id_of p) p s.by_id ni gp)
                    ∙ gp,
              )
        ];
        by_id_hash = λ j p e. elim (get-insert_cases (id_of o) j o p s.by_id e) [
          | inl (same, eq) ↦
              subst
                (λ (x : OrderedPoolOperation).
                  (id_of x ≡ j) × (get (hash_of x) (insert (hash_of o) o s.by_hash) ≡ some x))
                eq (same, own)
          | inr (differ, g) ↦
              let (jp, gp) = i.by_id_hash j p g in
              (
                jp,
                get_past (hash_of o) (hash_of p) o s.by_hash
                      (get_unlike (hash_of o) (hash_of p) p s.by_hash nh gp)
                    ∙ gp,
              )
        ];
        by_hash_map = insert-IsMap (hash_of o) o s.by_hash i.by_hash_map;
        best_stored = elim (Bool-cases (s.cells o.submission_id).eligible) [
          | inl now ↦ rw now (
              best_insert-All s.cells o (IsStored (insert (hash_of o) o s.by_hash)) s.best own kept)
          | inr never ↦ rw never kept
        ];
        best_once = elim (Bool-cases (s.cells o.submission_id).eligible) [
          | inl now ↦ rw now (
              best_insert-Distinct s.cells o s.best
                (contains-absent (hash_of o) s.by_hash s.best nh i.best_stored) i.best_once)
          | inr never ↦ rw never i.best_once
        ];
        sized = inserted_size s o nh i.sized;
        next_id = i.next_id;
        stored_issued = λ h p e. elim (get-insert_cases (hash_of o) h o p s.by_hash e) [
          | inl (same, eq) ↦ subst (IsIssued ids) eq io
          | inr (differ, g) ↦ i.stored_issued h p g
        ];
        mined_issued = i.mined_issued;
      }

  pub with_best-IsIndexed :
      (s : PoolInner) (os : List OrderedPoolOperation)
      → All (IsStored s.by_hash) os
      → Distinct (hashes os)
      → IsIndexed ids s
      → IsIndexed ids (record s { best = os })
  with_best-IsIndexed s os a d i = record {
    by_hash_id = i.by_hash_id;
    by_id_hash = i.by_id_hash;
    by_hash_map = i.by_hash_map;
    best_stored = a;
    best_once = d;
    sized = i.sized;
    next_id = i.next_id;
    stored_issued = i.stored_issued;
    mined_issued = i.mined_issued;
  }

  enforce_size-IsIndexed :
      (fuel : ℕ) (s t : PoolInner) (removed : List ℕ) (r : Option (List ℕ))
      → enforce_size fuel s removed ≡ some (t, r)
      → IsIndexed ids s
      → IsIndexed ids t
  unfolding enforce_size
  enforce_size-IsIndexed zero s t removed r h i = absurd (ground arith)
  enforce_size-IsIndexed (suc fuel) s t removed r h i =
      elim (Bool-cases (exceeds s.pool_size s.config.max_size_of_pool_bytes)) [
        | inr fits ↦ let e : s ≡ t = ground arith in subst (IsIndexed ids) e i
        | inl over ↦ elim (Option-cases (pop_last s.best)) [
          | inl q ↦
              let e : enforce_size fuel s removed ≡ some (t, r) = ground arith in
              enforce_size-IsIndexed fuel s t removed r e i
          | inr ((others, worst), q) ↦
              let (sa, sw) =
                pop_last-All (IsStored s.by_hash) s.best others worst q i.best_stored in
              let u : PoolInner × Option PoolOperation =
                remove_operation_internal (record s { best = others }) (hash_of worst) none in
              let iu : IsIndexed ids u.0 =
                remove_operation_internal-IsIndexed ids (record s { best = others }) (hash_of worst)
                  none
                  (with_best-IsIndexed s others sa
                    (pop_last-Distinct s.best others worst q i.best_once) i) in
              elim (Option-cases u.1) [
                | inl gone ↦ let e : u.0 ≡ t = ground arith in subst (IsIndexed ids) e iu
                | inr (po, found) ↦
                    let e : enforce_size fuel u.0 (removed ++ hash_of worst ∷ []) ≡ some (t, r) =
                      ground arith in
                    enforce_size-IsIndexed fuel u.0 t (removed ++ hash_of worst ∷ []) r e iu
              ]
        ]
      ]

  -- What an accepted operation replaces leaves both its hash and its id free.
  replaced-Free :
      (s : PoolInner) (op : UserOperation) (old : Option ℕ)
      → check_replacement s op ≡ ok old
      → IsIndexed ids s
      → (get op.hash (replaced s old).by_hash ≡ none) × (get op.id (replaced s old).by_id ≡ none)
  unfolding check_replacement remove_operation_by_hash remove_operation_internal remember_mined
      drop_operation
  replaced-Free s op old h i = elim (Option-cases (get op.hash s.by_hash)) [
    | inr (p, known) ↦ absurd (ground arith)
    | inl absent ↦ elim (Option-cases (get op.id s.by_id)) [
      | inl q ↦
          let e : none ≡ old = ground arith in
          subst
            (λ (x : Option ℕ).
              (get op.hash (replaced s x).by_hash ≡ none) × (get op.id (replaced s x).by_id ≡ none))
            e (absent, q)
      | inr (p, q) ↦
          let e : some (hash_of p) ≡ old = ground arith in
          let (own, st) = i.by_id_hash op.id p q in
          subst
            (λ (x : Option ℕ).
              (get op.hash (replaced s x).by_hash ≡ none) × (get op.id (replaced s x).by_id ≡ none))
            e
            (subst (λ (x : PoolInner). (get op.hash x.by_hash ≡ none) × (get op.id x.by_id ≡ none))
              (sym (remove_operation_internal_found s (hash_of p) none p st))
              (
                get_absent (hash_of p) op.hash s.by_hash absent,
                get_gone (id_of p) op.id s.by_id own,
              ))
    ]
  ]

  replaced-IsIndexed :
      (s : PoolInner) (old : Option ℕ) → IsIndexed ids s → IsIndexed ids (replaced s old)
  unfolding remove_operation_by_hash
  replaced-IsIndexed s none i = i
  replaced-IsIndexed s (some hash) i = remove_operation_internal-IsIndexed ids s hash none i

  pub add_operation_internal-IsIndexed :
      (s t : PoolInner) (o : OrderedPoolOperation) (r : Result PoolError ℕ)
      → add_operation_internal s o ≡ some (t, r)
      → IsIssued ids o
      → IsIndexed ids s
      → IsIndexed ids t
  unfolding add_operation_internal
  add_operation_internal-IsIndexed s t o r h io i =
      elim (Result-cases (check_replacement s o.po.uo)) [
        | inr (e, q) ↦ let e : s ≡ t = ground arith in subst (IsIndexed ids) e i
        | inl (old, q) ↦
            let (nh, ni) = replaced-Free s o.po.uo old q i in
            let u = insert_operation (replaced s old) o in
            let iu : IsIndexed ids u =
              insert_operation-IsIndexed (replaced s old) o nh ni io (replaced-IsIndexed s old i) in
            elim (Option-cases (resized u)) [
              | inl stuck ↦ absurd (ground arith)
              | inr ((v, removed), done) ↦
                  let e : v ≡ t = after_resize_pool (hash_of o) v t removed r (ground arith) in
                  subst (IsIndexed ids) e
                    (enforce_size-IsIndexed (suc (length u.best)) u v [] removed done iu)
            ]
      ]
