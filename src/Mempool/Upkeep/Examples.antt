-- ===== src/Mempool/Upkeep/Examples.antt =====
-- Theorems on the pool's upkeep at concrete inputs.
use rundler.Common.{ℕ, ◌≡◌, refl, some, nat_eq, saturating_add}
use rundler.Common.HashMap
use rundler.Common.HashMap.{get}
use rundler.Common.HashSet.{contains}
use rundler.Utils.Math.{increase_by_percent}
use rundler.Types.{UserOperationId, id_eq}
use rundler.Types.Entity
use rundler.Types.Entity.{Entity, EntityInfos, account, paymaster}
use rundler.Types.Operation
use rundler.Types.Operation.{UserOperation, UserOperationPermissions, PoolOperation, gas_price}
use rundler.Mempool.EntityTracker.{total, increment_entity_count, decrement_entity_count}
use rundler.Mempool.Pool.{
  PoolInner, OrderedPoolOperation, new, set_cell, best_insert, best_remove, pop_last, mined_insert,
  mined_remove, increment_counts, decrement_counts, decrement_address_count, remember_mined,
  drop_operation, remove_operation_internal, remove_operation_by_hash, remove_hashes,
}
use rundler.Mempool.Admission.{
  get_min_replacement_fees, check_replacement, enforce_size, insert_operation,
  add_operation_internal, is_eligible, ordered, with_cell, add_operation,
}
use rundler.Mempool.Upkeep.{
  mine_operation, unmine_operation, is_expired, pays_for_da, is_underpriced, refreshed, maintain,
  do_maintenance,
}
use rundler.Mempool.EntityTracker.{add_size}
use rundler.Mempool.Upkeep.Reorg.{unmine_operation-mine_operation}
use rundler.Mempool.Calls.{step, run}
use rundler.Mempool.Calls.Examples.{operation, mined, pair}

abbrev second : OrderedPoolOperation
second = record { po = operation 2 13 90; submission_id = 1; insertion_time = 502 }

unmine_operation-mine_operation_example :
    (t : PoolInner) × (unmine_operation (mine_operation pair (mined 2 13) 8).0 13
      ≡ some (t, some (operation 2 13 90)))
    × ((h : ℕ) → get h t.by_hash ≡ get h pair.by_hash)
    × ((i : UserOperationId) → get i t.by_id ≡ get i pair.by_id)
    × (t.pool_size ≡ pair.pool_size)
    × (t.cache_size ≡ add_size pair.cache_size 120)
unfolding pair run step new add_operation add_operation_internal check_replacement
    get_min_replacement_fees increase_by_percent enforce_size insert_operation is_eligible ordered
    with_cell set_cell best_insert best_remove mined_insert mined_remove increment_counts
    decrement_counts decrement_address_count total increment_entity_count decrement_entity_count
    remember_mined drop_operation remove_operation_internal remove_operation_by_hash remove_hashes
    mine_operation unmine_operation is_expired pays_for_da is_underpriced refreshed maintain
    do_maintenance gas_price get HashMap.insert HashMap.remove contains pop_last saturating_add
    Operation.entities Entity.entities Entity.get Operation.mem_size
unmine_operation-mine_operation_example =
    unmine_operation-mine_operation pair (mined 2 13) 8 second refl refl refl refl
