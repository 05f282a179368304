-- ===== src/Mempool/Requests/Reservations.antt =====
-- crates/pool/src/mempool/uo_pool.rs: the two ways of removing one operation on request, and the
-- reservation of its cost.
use rundler.Common.{
  ℕ, ◌+◌, ◌-◌, ◌≡◌, refl, sym, subst, inl, inr, false, none, some, [], ◌∷◌, ltb, u64, nat_eq, arith,
  Option-cases,
}
use rundler.Common.HashMap.{get, get_gone}
use rundler.Types.{UserOperationId, id_eq}
use rundler.Types.Operation.{PoolOperation}
use rundler.Mempool.Paymaster
use rundler.Mempool.Paymaster.{LruMap, PaymasterTracker, PaymasterBalance, UserOpFees}
use rundler.Mempool.Paymaster.Tracker.{EntryPoint}
use rundler.Mempool.Pool.{
  PoolInner, get_operation_by_hash, get_operation_by_id, remove_operation_by_hash,
  remove_operation_internal,
}
use rundler.Mempool.UoPool.{UoPool}
use rundler.Mempool.Requests.{remove_operations, remove_op_by_id}

-- What the pool hands out is what it removed.
removed_lookup :
    (p : PoolInner) (hash : ℕ) (po : PoolOperation)
    → get_operation_by_hash p hash ≡ some po
    → (remove_operation_by_hash p hash).1 ≡ some po
unfolding get_operation_by_hash remove_operation_by_hash remove_operation_internal
removed_lookup p hash po h = elim (Option-cases (get hash p.by_hash)) [
  | inl q ↦ absurd (ground arith)
  | inr (o, q) ↦ ground arith
]

module _ {Map : Type 0} (lru : LruMap Map) (ep : EntryPoint) where
  released :
      (s : PaymasterTracker Map) (id : UserOperationId) (fee : UserOpFees) (b : PaymasterBalance)
      → get id s.user_op_fees ≡ some fee
      → lru.peek fee.paymaster s.paymaster_balances ≡ some b
      → let t = Paymaster.remove_operation lru s id in
        (get id t.user_op_fees ≡ none)
        × (lru.peek fee.paymaster t.paymaster_balances
            ≡ some (record b { pending = b.pending - fee.max_op_cost }))
  unfolding Paymaster.remove_operation
  released s id fee b q cached =
      rw (Paymaster.remove_operation, q)
        (
          get_gone id id s.user_op_fees refl,
          ground (
            arith,
            cached,
            nat_eq.same_iff fee.paymaster fee.paymaster,
            lru.peek-update fee.paymaster fee.paymaster
                (λ (pb : PaymasterBalance). record pb { pending = pb.pending - fee.max_op_cost })
                s.paymaster_balances,
          ),
        )

  -- An operation that is old enough to be dropped by its id, and whose cost is reserved with a paymaster in the
  -- cache, leaves the same pool whether it is removed by its id or by its hash. The removal by hash forgets
  -- its fees and takes its cost from what the paymaster has pending; the removal by id does neither.
  pub remove_op_by_id_keeps_reservation :
      (s : UoPool Map) (id : UserOperationId) (po : PoolOperation) (fee : UserOpFees)
      (b : PaymasterBalance)
      → get_operation_by_id s.pool id ≡ some po
      → po.uo.id ≡ id
      → get_operation_by_hash s.pool po.uo.hash ≡ some po
      → ltb s.block_number (u64 (po.sim_block_number + s.config.drop_min_num_blocks)) ≡ false
      → get id s.paymaster.user_op_fees ≡ some fee
      → lru.peek fee.paymaster s.paymaster.paymaster_balances ≡ some b
      → let by_id = (remove_op_by_id lru ep s id).0 in
        let by_hash = remove_operations lru ep s (po.uo.hash ∷ []) in
        (by_id.pool ≡ by_hash.pool)
        × (get id by_hash.paymaster.user_op_fees ≡ none)
        × (lru.peek fee.paymaster by_hash.paymaster.paymaster_balances
            ≡ some (record b { pending = b.pending - fee.max_op_cost }))
        × (get id by_id.paymaster.user_op_fees ≡ some fee)
        × (lru.peek fee.paymaster by_id.paymaster.paymaster_balances ≡ some b)
  unfolding remove_op_by_id remove_operations
  remove_op_by_id_keeps_reservation s id po fee b q own st late known cached =
      let found = removed_lookup s.pool po.uo.hash po st in
      let freed =
        subst
          (λ (i : UserOperationId).
            let t = Paymaster.remove_operation lru s.paymaster i in
            (get id t.user_op_fees ≡ none)
            × (lru.peek fee.paymaster t.paymaster_balances
                ≡ some (record b { pending = b.pending - fee.max_op_cost })))
          (sym own) (released s.paymaster id fee b known cached) in
      (
        rw (remove_op_by_id, q, late) refl,
        rw (remove_operations, found) freed.0,
        rw (remove_operations, found) freed.1,
        rw (remove_op_by_id, q, late) known,
        rw (remove_op_by_id, q, late) cached,
      )
