-- ===== src/Mempool/Admission/Examples.antt =====
-- Tests of how operations enter the pool, and its theorems at concrete inputs.
use rundler.Common.{
  ℕ, ◌≡◌, refl, true, false, none, some, List, [], arith, ◌⊎◌, nat_eq, saturating_add,
}
use rundler.Common.HashMap
use rundler.Common.HashMap.{get}
use rundler.Common.HashMap.Values.{sum_values}
use rundler.Common.HashSet.{contains}
use rundler.Utils.Math.{increase_by_percent}
use rundler.Types.{id_eq}
use rundler.Types.Entity
use rundler.Types.Entity.{Entity, EntityInfos, account, paymaster}
use rundler.Types.Operation
use rundler.Types.Operation.{UserOperation, UserOperationPermissions, PoolOperation, gas_price}
use rundler.Mempool.EntityTracker.{total, increment_entity_count, decrement_entity_count}
use rundler.Mempool.Pool.{
  PoolInner, PoolInnerConfig, new, set_cell, best_insert, best_remove, pop_last, mined_insert,
  mined_remove, increment_counts, decrement_counts, decrement_address_count, remember_mined,
  drop_operation, remove_operation_internal, remove_operation_by_hash, remove_hashes,
}
use rundler.Mempool.Admission.{
  get_min_replacement_fees, check_replacement, enforce_size, insert_operation,
  add_operation_internal, is_eligible, ordered, with_cell, add_operation,
}
use rundler.Mempool.Upkeep.{
  mine_operation, unmine_operation, is_expired, pays_for_da, is_underpriced, refreshed, maintain,
  do_maintenance,
}
use rundler.Mempool.EntityTracker.{exceeds}
use rundler.Mempool.Pool.{get_operation_by_hash}
use rundler.Mempool.Pool.Stored.{IsIndexed}
use rundler.Mempool.Admission.Accepted.{add_operation-Found}
use rundler.Mempool.Admission.Resizing.{enforce_size-Returns, enforce_size-Stuck}
use rundler.Mempool.Calls.{step, run}
use rundler.Mempool.Calls.Indices.{IsKept, run-IsKept, new-IsKept}
use rundler.Mempool.Calls.Examples.{config, tight, operation, two_calls, pair}

-- A third operation that pays more drives out the second.
unfoldable third : PoolInner
unfolding add_operation
third = elim (add_operation pair (operation 3 15 110) 1 0 503) [ none ↦ pair | some (p, r) ↦ p ]

add_operation-Found_example :
    (◌≡◌ {A = ℕ} 15 15)
    × (get_operation_by_hash third 15 ≡ some (operation 3 15 110))
    × ((k : ℕ)
        → (k ≡ 15)
          ⊎ ((get_operation_by_hash third k ≡ none)
              ⊎ (get_operation_by_hash third k ≡ get_operation_by_hash pair k)))
unfolding third pair run step new add_operation add_operation_internal check_replacement
    get_min_replacement_fees increase_by_percent enforce_size insert_operation is_eligible ordered
    with_cell set_cell best_insert best_remove mined_insert mined_remove increment_counts
    decrement_counts decrement_address_count total increment_entity_count decrement_entity_count
    remember_mined drop_operation remove_operation_internal remove_operation_by_hash remove_hashes
    mine_operation unmine_operation is_expired pays_for_da is_underpriced refreshed maintain
    do_maintenance gas_price get HashMap.insert HashMap.remove contains pop_last saturating_add
    Operation.entities Entity.entities Entity.get Operation.mem_size get_operation_by_hash
    sum_values
add_operation-Found_example = add_operation-Found pair third (operation 3 15 110) 1 0 503 15 refl

evicted_test : get_operation_by_hash third 13 ≡ none
unfolding third pair run step new add_operation add_operation_internal check_replacement
    get_min_replacement_fees increase_by_percent enforce_size insert_operation is_eligible ordered
    with_cell set_cell best_insert best_remove mined_insert mined_remove increment_counts
    decrement_counts decrement_address_count total increment_entity_count decrement_entity_count
    remember_mined drop_operation remove_operation_internal remove_operation_by_hash remove_hashes
    mine_operation unmine_operation is_expired pays_for_da is_underpriced refreshed maintain
    do_maintenance gas_price get HashMap.insert HashMap.remove contains pop_last saturating_add
    Operation.entities Entity.entities Entity.get Operation.mem_size get_operation_by_hash
    sum_values
evicted_test = refl

pair-IsKept : IsKept 2 pair
unfolding third pair run step new add_operation add_operation_internal check_replacement
    get_min_replacement_fees increase_by_percent enforce_size insert_operation is_eligible ordered
    with_cell set_cell best_insert best_remove mined_insert mined_remove increment_counts
    decrement_counts decrement_address_count total increment_entity_count decrement_entity_count
    remember_mined drop_operation remove_operation_internal remove_operation_by_hash remove_hashes
    mine_operation unmine_operation is_expired pays_for_da is_underpriced refreshed maintain
    do_maintenance gas_price get HashMap.insert HashMap.remove contains pop_last saturating_add
    Operation.entities Entity.entities Entity.get Operation.mem_size get_operation_by_hash
    sum_values
pair-IsKept = run-IsKept two_calls 0 (new tight) pair refl (omega arith) (new-IsKept tight)

-- The same pool with room for one operation only.
abbrev crowded : PoolInner
crowded = record pair { config = record (pair.config) { max_size_of_pool_bytes = 130 } }

crowded-IsIndexed : IsIndexed pair-IsKept.ids crowded
unfolding third pair run step new add_operation add_operation_internal check_replacement
    get_min_replacement_fees increase_by_percent enforce_size insert_operation is_eligible ordered
    with_cell set_cell best_insert best_remove mined_insert mined_remove increment_counts
    decrement_counts decrement_address_count total increment_entity_count decrement_entity_count
    remember_mined drop_operation remove_operation_internal remove_operation_by_hash remove_hashes
    mine_operation unmine_operation is_expired pays_for_da is_underpriced refreshed maintain
    do_maintenance gas_price get HashMap.insert HashMap.remove contains pop_last saturating_add
    Operation.entities Entity.entities Entity.get Operation.mem_size get_operation_by_hash
    sum_values
crowded-IsIndexed = record {
  by_hash_id = pair-IsKept.indexed.by_hash_id;
  by_id_hash = pair-IsKept.indexed.by_id_hash;
  by_hash_map = pair-IsKept.indexed.by_hash_map;
  best_stored = pair-IsKept.indexed.best_stored;
  best_once = pair-IsKept.indexed.best_once;
  sized = pair-IsKept.indexed.sized;
  next_id = pair-IsKept.indexed.next_id;
  stored_issued = pair-IsKept.indexed.stored_issued;
  mined_issued = pair-IsKept.indexed.mined_issued;
}

enforce_size-Returns_example :
    (t : PoolInner) × (r : List ℕ) × (enforce_size 3 crowded [] ≡ some (t, some r))
    × (exceeds t.pool_size 130 ≡ false)
unfolding third pair run step new add_operation add_operation_internal check_replacement
    get_min_replacement_fees increase_by_percent enforce_size insert_operation is_eligible ordered
    with_cell set_cell best_insert best_remove mined_insert mined_remove increment_counts
    decrement_counts decrement_address_count total increment_entity_count decrement_entity_count
    remember_mined drop_operation remove_operation_internal remove_operation_by_hash remove_hashes
    mine_operation unmine_operation is_expired pays_for_da is_underpriced refreshed maintain
    do_maintenance gas_price get HashMap.insert HashMap.remove contains pop_last saturating_add
    Operation.entities Entity.entities Entity.get Operation.mem_size get_operation_by_hash
    sum_values
enforce_size-Returns_example =
    enforce_size-Returns pair-IsKept.ids 2 crowded [] crowded-IsIndexed (omega arith) (omega arith)
      (omega arith)

-- A pool that tracks the data gas, with an operation that does not pay for it and is larger than the pool.
abbrev tracking : PoolInnerConfig
tracking = record config {
  da_gas_tracking_enabled = true;
  has_da_gas_oracle = true;
  max_size_of_pool_bytes = 100;
}

unfoldable full : PoolInner
unfolding new with_cell ordered insert_operation
full =
    insert_operation (with_cell (new tracking) (operation 1 11 100) 1 60000)
      (ordered (new tracking) (operation 1 11 100) 500)

enforce_size-Stuck_example : enforce_size 3 full [] ≡ none
unfolding full run step new add_operation add_operation_internal check_replacement
    get_min_replacement_fees increase_by_percent enforce_size insert_operation is_eligible ordered
    with_cell set_cell best_insert best_remove mined_insert mined_remove increment_counts
    decrement_counts decrement_address_count total increment_entity_count decrement_entity_count
    remember_mined drop_operation remove_operation_internal remove_operation_by_hash remove_hashes
    mine_operation unmine_operation is_expired pays_for_da is_underpriced refreshed maintain
    do_maintenance gas_price get HashMap.insert HashMap.remove contains pop_last saturating_add
    Operation.entities Entity.entities Entity.get Operation.mem_size get_operation_by_hash
    sum_values
enforce_size-Stuck_example = enforce_size-Stuck 3 full [] refl refl
