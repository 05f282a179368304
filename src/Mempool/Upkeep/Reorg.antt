-- ===== src/Mempool/Upkeep/Reorg.antt =====
-- crates/pool/src/mempool/pool.rs: an operation that is mined in a block which a reorganisation takes back.
use rundler.Common.{ℕ, ◌≡◌, refl, sym, ◌∙◌, ap, subst, false, none, some, nat_eq, arith}
use rundler.Common.Int.{ℤ, pos, negsuc}
use rundler.Common.Results.{ok}
use rundler.Common.HashMap.{get, remove, get_inserted, get_gone, get-reinserted}
use rundler.Common.HashSet.{contains}
use rundler.Types.{UserOperationId, id_eq}
use rundler.Mempool.Paymaster.{MinedOp}
use rundler.Mempool.EntityTracker.{exceeds, add_size, sub_size}
use rundler.Mempool.Pool.{
  PoolInner, OrderedPoolOperation, hash_of, id_of, mem_size, mined_remove, drop_operation,
  remember_mined,
}
use rundler.Mempool.Pool.Removed.{remove_operation_internal_found}
use rundler.Mempool.Admission.{
  check_replacement, insert_operation, enforce_size, add_operation_internal,
}
use rundler.Mempool.Upkeep.{mine_operation, unmine_operation}

add_size-sub_size : (z : ℤ) (n : ℕ) → add_size (sub_size z n) n ≡ z
add_size-sub_size (pos a) n = ground arith
add_size-sub_size (negsuc a) n = ground arith

-- An operation whose hash and id are free, and with which the pool fits, is just inserted.
add_operation_internal_fits :
    (s : PoolInner) (o : OrderedPoolOperation)
    → get (hash_of o) s.by_hash ≡ none
    → get (id_of o) s.by_id ≡ none
    → exceeds (add_size s.pool_size (mem_size s.config o)) s.config.max_size_of_pool_bytes ≡ false
    → add_operation_internal s o ≡ some (insert_operation s o, ok (hash_of o))
unfolding add_operation_internal check_replacement enforce_size insert_operation contains
add_operation_internal_fits s o nh ni fits =
    rw (add_operation_internal, check_replacement, nh, ni, enforce_size, fits) refl

-- The pool after an operation is mined, and after that is taken back.
abbrev mined_state : PoolInner → OrderedPoolOperation → ℕ → PoolInner
mined_state s o block_number =
    remember_mined (hash_of o) o (some block_number) (drop_operation s (hash_of o) o)

mine_operation_found :
    (s : PoolInner) (mined_op : MinedOp) (block_number : ℕ) (o : OrderedPoolOperation)
    → get mined_op.id s.by_id ≡ some o
    → get (hash_of o) s.by_hash ≡ some o
    → (mine_operation s mined_op block_number).0 ≡ mined_state s o block_number
unfolding mine_operation
mine_operation_found s mined_op block_number o q st =
    rw (mine_operation, q) (remove_operation_internal_found s (hash_of o) (some block_number) o st)

-- Where an operation stands in both indices and the pool fits, mining it and taking the block back brings
-- it back: every operation is found by hash and by id as before, and the pool has the size that it had.
-- But the size of the cache of mined operations still counts the operation.
pub unmine_operation-mine_operation :
    (s : PoolInner) (mined_op : MinedOp) (block_number : ℕ) (o : OrderedPoolOperation)
    → get mined_op.id s.by_id ≡ some o
    → id_of o ≡ mined_op.id
    → get (hash_of o) s.by_hash ≡ some o
    → exceeds s.pool_size s.config.max_size_of_pool_bytes ≡ false
    → (t : PoolInner) × (unmine_operation (mine_operation s mined_op block_number).0 (hash_of o)
        ≡ some (t, some o.po))
      × ((h : ℕ) → get h t.by_hash ≡ get h s.by_hash)
      × ((i : UserOperationId) → get i t.by_id ≡ get i s.by_id)
      × (t.pool_size ≡ s.pool_size)
      × (t.cache_size ≡ add_size s.cache_size (mem_size s.config o))
unfolding unmine_operation insert_operation drop_operation remember_mined
unmine_operation-mine_operation s mined_op block_number o q own st fits =
    let m = mined_state s o block_number in
    let back : PoolInner = record m {
      mined_at_block_number_by_hash = remove (hash_of o) m.mined_at_block_number_by_hash;
      mined_hashes_with_block_numbers =
          mined_remove block_number (hash_of o) m.mined_hashes_with_block_numbers;
    } in
    let size = add_size-sub_size s.pool_size (mem_size s.config o) in
    let added =
      add_operation_internal_fits back o (get_gone (hash_of o) (hash_of o) s.by_hash refl)
        (get_gone (id_of o) (id_of o) s.by_id refl)
        (subst (λ (z : ℤ). exceeds z s.config.max_size_of_pool_bytes ≡ false) (sym size) fits) in
    let kept = get_inserted (hash_of o) (o, block_number) s.mined_at_block_number_by_hash in
    let ran : unmine_operation m (hash_of o) ≡ some (insert_operation back o, some o.po) =
      rw (unmine_operation, kept, added) refl in
    (
      insert_operation back o,
      subst
          (λ (u : PoolInner).
            unmine_operation u (hash_of o) ≡ some (insert_operation back o, some o.po))
          (sym (mine_operation_found s mined_op block_number o q st)) ran,
      (λ h. get-reinserted (hash_of o) h o s.by_hash st),
      (λ i.
          get-reinserted (id_of o) i o s.by_id
            (ap (λ (i : UserOperationId). get i s.by_id) own ∙ q)),
      size,
      refl,
    )
