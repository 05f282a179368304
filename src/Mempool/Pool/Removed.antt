-- ===== src/Mempool/Pool/Removed.antt =====
-- crates/pool/src/mempool/pool.rs: removing operations keeps the indices of the pool in step.
use rundler.Common.{
  ℕ, ◌≡◌, refl, sym, ◌∙◌, ap, subst, inl, inr, Option, none, some, some_inj, List, [], ◌∷◌, nat_eq,
  All-map, All-zip, Option-cases,
}
use rundler.Common.HashMap.{
  get, remove, get-removed, get_apart, remove-IsMap, get_once, get-insert_cases,
}
use rundler.Common.HashMap.Values.{sum_values, sum_values-removed}
use rundler.Common.Int.{ℤ, pos, sub_ℕ-add}
use rundler.Mempool.EntityTracker.{sub_size}
use rundler.Types.{id_eq}
use rundler.Mempool.Pool.{
  PoolInner, OrderedPoolOperation, hash_of, id_of, best_remove, mem_size, drop_operation,
  remember_mined, remove_operation_internal, remove_hashes,
}
use rundler.Mempool.Pool.Best.{best_remove-All, best_remove-Apart, best_remove-Distinct}
use rundler.Mempool.Pool.Stored.{IsStored, Ids, IsIssued, IsIndexed}

pub remove_operation_internal_found :
    (s : PoolInner) (hash : ℕ) (block_number : Option ℕ) (o : OrderedPoolOperation)
    → get hash s.by_hash ≡ some o
    → (remove_operation_internal s hash block_number).0
      ≡ remember_mined hash o block_number (drop_operation s hash o)
unfolding remove_operation_internal
remove_operation_internal_found s hash block_number o q = rw (remove_operation_internal, q) refl

module _ (ids : Ids) where
  pub same_hash :
      (s : PoolInner) (o p : OrderedPoolOperation)
      → IsIndexed ids s
      → IsStored s.by_hash o
      → IsStored s.by_hash p
      → (hash_of o ≡ hash_of p → o.submission_id ≡ p.submission_id)
        × (o.submission_id ≡ p.submission_id → hash_of o ≡ hash_of p)
  same_hash s o p i so sp =
      let io = i.stored_issued (hash_of o) o so in
      let ip = i.stored_issued (hash_of p) p sp in
      (
        (λ (e : hash_of o ≡ hash_of p).
            ap (λ (x : OrderedPoolOperation). x.submission_id)
              (get_once (hash_of o) (hash_of p) o p s.by_hash so sp e)),
        (λ (e : o.submission_id ≡ p.submission_id).
            let same : some o ≡ some p = sym io ∙ ap ids.issued e ∙ ip in
            ap (λ (x : OrderedPoolOperation). hash_of x) (some_inj same)),
      )

  -- What is left of the pool's size.
  dropped_size :
      (s : PoolInner) (hash : ℕ) (o : OrderedPoolOperation)
      → get hash s.by_hash ≡ some o
      → IsIndexed ids s
      → sub_size s.pool_size (mem_size s.config o)
        ≡ pos (sum_values (λ p. mem_size s.config p) (remove hash s.by_hash))
  dropped_size s hash o q i =
      let f : OrderedPoolOperation → ℕ = λ p. mem_size s.config p in
      ap (λ (z : ℤ). sub_size z (f o)) i.sized
      ∙ sub_ℕ-add (sum_values f (remove hash s.by_hash)) (f o) (sum_values f s.by_hash)
          (sum_values-removed f hash o s.by_hash i.by_hash_map q)

  pub drop_operation-IsIndexed :
      (s : PoolInner) (hash : ℕ) (o : OrderedPoolOperation)
      → get hash s.by_hash ≡ some o
      → IsIndexed ids s
      → IsIndexed ids (drop_operation s hash o)
  unfolding drop_operation
  drop_operation-IsIndexed s hash o q i =
      let own : hash_of o ≡ hash = (i.by_hash_id hash o q).0 in
      let stored : IsStored s.by_hash o = subst (λ (h : ℕ). get h s.by_hash ≡ some o) (sym own) q in
      record {
        by_hash_id = λ h p e.
            let (ne, g) = get-removed hash h p s.by_hash e in
            let (hp, gp) = i.by_hash_id h p g in
            (
              hp,
              get_apart (id_of o) (id_of p) s.by_id (λ (same : id_of o ≡ id_of p). ne (
                    sym own
                    ∙ ap (λ (x : OrderedPoolOperation). hash_of x)
                        (get_once (id_of o) (id_of p) o p s.by_id (i.by_hash_id hash o q).1 gp same)
                    ∙ hp))
                  ∙ gp,
            );
        by_id_hash = λ j p e.
            let (ne, g) = get-removed (id_of o) j p s.by_id e in
            let (jp, gp) = i.by_id_hash j p g in
            (
              jp,
              get_apart hash (hash_of p) s.by_hash (λ (same : hash ≡ hash_of p). ne (
                    ap (λ (x : OrderedPoolOperation). id_of x)
                      (get_once hash (hash_of p) o p s.by_hash q gp same)
                    ∙ jp))
                  ∙ gp,
            );
        by_hash_map = remove-IsMap hash s.by_hash i.by_hash_map;
        best_stored =
            All-zip (λ p sp ne. get_apart hash (hash_of p) s.by_hash (λ e. ne (own ∙ e)) ∙ sp)
              (best_remove s.cells o s.best)
              (best_remove-All s.cells o (IsStored s.by_hash) s.best i.best_stored)
              (best_remove-Apart s.cells o s.best
                (All-map (λ p sp. same_hash s o p i stored sp) s.best i.best_stored) i.best_once);
        best_once = best_remove-Distinct s.cells o s.best i.best_once;
        sized = dropped_size s hash o q i;
        next_id = i.next_id;
        stored_issued = λ h p e. i.stored_issued h p (get-removed hash h p s.by_hash e).1;
        mined_issued = i.mined_issued;
      }

  remember_mined-IsIndexed :
      (hash : ℕ) (o : OrderedPoolOperation) (block_number : Option ℕ) (s : PoolInner)
      → IsIssued ids o
      → IsIndexed ids s
      → IsIndexed ids (remember_mined hash o block_number s)
  unfolding remember_mined
  remember_mined-IsIndexed hash o none s io i = i
  remember_mined-IsIndexed hash o (some block_number) s io i = record {
    by_hash_id = i.by_hash_id;
    by_id_hash = i.by_id_hash;
    by_hash_map = i.by_hash_map;
    best_stored = i.best_stored;
    best_once = i.best_once;
    sized = i.sized;
    next_id = i.next_id;
    stored_issued = i.stored_issued;
    mined_issued = λ h b p e.
        elim (get-insert_cases hash h (o, block_number) (p, b) s.mined_at_block_number_by_hash e) [
          | inl (same, eq) ↦ subst (IsIssued ids) (ap (λ (x : OrderedPoolOperation × ℕ). x.0) eq) io
          | inr (differ, g) ↦ i.mined_issued h b p g
        ];
  }

  pub remove_operation_internal-IsIndexed :
      (s : PoolInner) (hash : ℕ) (block_number : Option ℕ)
      → IsIndexed ids s
      → IsIndexed ids (remove_operation_internal s hash block_number).0
  unfolding remove_operation_internal
  remove_operation_internal-IsIndexed s hash block_number i =
      elim (Option-cases (get hash s.by_hash)) [
        | inl q ↦ rw (remove_operation_internal, q) i
        | inr (o, q) ↦
            rw (remove_operation_internal, q)
              (remember_mined-IsIndexed hash o block_number (drop_operation s hash o)
                (i.stored_issued hash o q) (drop_operation-IsIndexed s hash o q i))
      ]

  pub remove_hashes-IsIndexed :
      (hs : List ℕ) (s : PoolInner) → IsIndexed ids s → IsIndexed ids (remove_hashes s hs)
  unfolding remove_hashes
  remove_hashes-IsIndexed [] s i = i
  remove_hashes-IsIndexed (hash ∷ hs) s i =
      remove_hashes-IsIndexed hs (remove_operation_internal s hash none).0
        (remove_operation_internal-IsIndexed s hash none i)
