-- ===== src/Mempool/Requests.antt =====
-- crates/pool/src/mempool/uo_pool.rs: what UoPool does and reads at the request of others.
pub mod Reservations
pub mod Examples
use rundler.Common.{
  ℕ, zero, suc, ◌+◌, Bool, true, false, Option, none, some, List, [], ◌∷◌, ◌>>=◌, ltb, nat_beq,
  nat_eq, if◌then◌else◌, u64,
}
use rundler.Common.Results.{Result, ok, err}
use rundler.Types.{UserOperationId}
use rundler.Types.Entity.{EntityType, Entity}
use rundler.Types.Operation.{PoolOperation}
use rundler.Mempool.Reputation
use rundler.Mempool.Reputation.{AddressReputation, ReputationStatus}
use rundler.Mempool.Paymaster
use rundler.Mempool.Paymaster.{LruMap, PaymasterTracker, Op, MinedOp}
use rundler.Mempool.Paymaster.Tracker
use rundler.Mempool.Paymaster.Tracker.{EntryPoint}
use rundler.Mempool.Pool
use rundler.Mempool.Pool.{
  PoolInner, get_operation_by_hash, get_operation_by_id, remove_operation_by_hash,
}
use rundler.Mempool.Admission.{PoolError, operation_drop_too_soon}
use rundler.Mempool.Upkeep
use rundler.Mempool.Upkeep.{
  Block, mine_operation, unmine_operation, forget_mined_operations_before_block, preconfirm_txns,
  preconfirm_txns_at_block_number, get_pre_confirmed_uo, do_maintenance,
}
use rundler.Mempool.UoPool.{UoPool}

pub data EntityUpdateType : Type 0 where
  unstaked_invalidation staked_invalidation paymaster_ops_seen_decrement : EntityUpdateType

pub record EntityUpdate : Type 0 where
  pub entity : Entity
  pub update_type : EntityUpdateType
  pub value : Option ℕ

abbrev pub is_paymaster : EntityType → Bool
is_paymaster EntityType.paymaster = true
is_paymaster _ = false

module _ {Map : Type 0} (lru : LruMap Map) (ep : EntryPoint) where
  unfoldable pub throttle_entity : UoPool Map → Entity → UoPool Map
  throttle_entity s entity = record s {
    pool = (Upkeep.throttle_entity s.pool entity s.block_number).0;
  }

  unfoldable pub remove_entity : UoPool Map → Entity → UoPool Map
  remove_entity s entity = record s { pool = (Upkeep.remove_entity s.pool entity).0 }

  unfoldable pub remove_operations : UoPool Map → List ℕ → UoPool Map
  remove_operations s [] = s
  remove_operations s (hash ∷ hashes) =
      let (pool, removed) = remove_operation_by_hash s.pool hash in
      remove_operations
        (record s {
          pool = pool;
          paymaster = elim removed [
            | none ↦ s.paymaster
            | some op ↦ Paymaster.remove_operation lru s.paymaster op.uo.id
          ];
        })
        hashes

  unfoldable pub remove_op_by_id :
      UoPool Map → UserOperationId → UoPool Map × Result PoolError (Option ℕ)
  remove_op_by_id s id = elim (get_operation_by_id s.pool id) [
    | none ↦ (s, ok none)
    | some po ↦
        let (pool, removed) = remove_operation_by_hash s.pool po.uo.hash in
        if ltb s.block_number (u64 (po.sim_block_number + s.config.drop_min_num_blocks))
        then (
          s,
          err (
              operation_drop_too_soon po.sim_block_number s.block_number
                s.config.drop_min_num_blocks),
        )
        else (
          record s { pool = pool },
          ok (elim removed [ none ↦ none | some op ↦ some po.uo.hash ]),
        )
  ]

  -- What the reputation of an entity does to its operations.
  unfoldable pub sanction : UoPool Map → Entity → Option (UoPool Map)
  sanction s entity = elim (Reputation.status s.reputation entity.address) [
    | none ↦ none
    | some ReputationStatus.ok ↦ some s
    | some ReputationStatus.throttled ↦ some (throttle_entity s entity)
    | some ReputationStatus.banned ↦ some (remove_entity s entity)
  ]

  -- The decrement of a paymaster's count panics without a paymaster or a value.
  unfoldable pub update_reputation : AddressReputation → EntityUpdate → Option AddressReputation
  update_reputation r update = elim update.update_type [
    | unstaked_invalidation ↦ some (Reputation.handle_urep_030_penalty r update.entity.address)
    | staked_invalidation ↦ some (Reputation.handle_srep_050_penalty r update.entity.address)
    | paymaster_ops_seen_decrement ↦
        let amended : Option AddressReputation = update.value >>= λ v.
        some (Reputation.handle_erep_015_amendment r update.entity.address v) in
        if is_paymaster update.entity.kind then amended else none
  ]

  unfoldable pub update_entity : UoPool Map → EntityUpdate → Option (UoPool Map)
  unfolding sanction update_reputation
  update_entity s update = do
    r ← update_reputation s.reputation update
    sanction (record s { reputation = r }) update.entity

  unfoldable pub clear_state : UoPool Map → Bool → Bool → Bool → UoPool Map
  clear_state s clear_mempool clear_paymaster clear_reputation = record s {
    pool = if clear_mempool then Upkeep.clear s.pool else s.pool;
    paymaster = if clear_paymaster then Paymaster.clear lru s.paymaster else s.paymaster;
    reputation = if clear_reputation then Reputation.clear s.reputation else s.reputation;
  }

  unfoldable pub set_tracking : UoPool Map → Bool → Bool → UoPool Map
  set_tracking s paymaster_on reputation_on = record s {
    paymaster = Paymaster.set_tracking lru s.paymaster paymaster_on;
    reputation = Reputation.set_tracking s.reputation reputation_on;
  }

  unfoldable pub set_reputation : UoPool Map → ℕ → ℕ → ℕ → UoPool Map
  set_reputation s address ops_seen ops_included = record s {
    reputation = Reputation.set_reputation s.reputation address ops_seen ops_included;
  }

  -- An error of the entry point leaves the balances.
  unfoldable pub reset_confirmed_paymaster_balances : UoPool Map → Option (UoPool Map)
  reset_confirmed_paymaster_balances s =
      Tracker.reset_confirmed_balances lru ep s.paymaster >>= λ r.
      some (record s { paymaster = r.0 })

abbrev pub take : ℕ → List PoolOperation → List PoolOperation
take zero pos = []
take (suc n) [] = []
take (suc n) (po ∷ pos) = po ∷ take n pos

abbrev pub same_filter : Option ℕ → Option ℕ → Bool
same_filter none none = true
same_filter (some a) (some b) = nat_beq a b
same_filter _ _ = false

-- What is read of the pool.
abbrev pub filtered : Option ℕ → List PoolOperation → List PoolOperation
filtered filter_id [] = []
filtered filter_id (po ∷ pos) =
    let rest = filtered filter_id pos in
    if same_filter filter_id po.filter_id then po ∷ rest else rest

unfoldable pub best_operations : {Map : Type 0} → UoPool Map → ℕ → Option ℕ → List PoolOperation
best_operations s max filter_id = take max (filtered filter_id (Pool.best_operations s.pool))

unfoldable pub all_operations : {Map : Type 0} → UoPool Map → ℕ → List PoolOperation
all_operations s max = take max (Pool.all_operations s.pool)

unfoldable pub get_user_operation_by_hash :
    {Map : Type 0} → UoPool Map → ℕ → Option PoolOperation × Option ℕ
get_user_operation_by_hash s hash =
    (get_operation_by_hash s.pool hash, get_pre_confirmed_uo s.pool hash)
