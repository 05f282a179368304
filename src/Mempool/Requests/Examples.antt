-- ===== src/Mempool/Requests/Examples.antt =====
-- A UoPool for the tests, and the theorems on requests at concrete inputs.
use rundler.Common.{
  false, ◌≤◌, ◌≡◌, refl, true, none, some, [], ◌∷◌, arith, ◌⊎◌, ◌<◌, ◌+◌, nat_eq, saturating_add,
}
use rundler.Common.HashMap
use rundler.Common.HashMap.{get}
use rundler.Common.HashSet.{contains}
use rundler.Utils.Math.{increase_by_percent}
use rundler.Types.{UserOperationId, id_eq}
use rundler.Types.Entity
use rundler.Types.Entity.{Entity, EntityInfos, account, paymaster}
use rundler.Types.Operation
use rundler.Types.Operation.{UserOperation, UserOperationPermissions, PoolOperation, gas_price}
use rundler.Mempool.EntityTracker.{total, increment_entity_count, decrement_entity_count}
use rundler.Mempool.Pool.{
  PoolInner, new, set_cell, best_insert, best_remove, pop_last, mined_insert, mined_remove,
  increment_counts, decrement_counts, decrement_address_count, remember_mined, drop_operation,
  remove_operation_internal, remove_operation_by_hash, remove_hashes,
}
use rundler.Mempool.Admission.{
  get_min_replacement_fees, check_replacement, enforce_size, insert_operation,
  add_operation_internal, is_eligible, ordered, with_cell, add_operation,
}
use rundler.Mempool.Upkeep.{
  mine_operation, unmine_operation, is_expired, pays_for_da, is_underpriced, refreshed, maintain,
  do_maintenance,
}
use rundler.Mempool.Reputation
use rundler.Mempool.Paymaster.{PaymasterTracker}
use rundler.Mempool.Paymaster.Cache.{Bounded, bounded}
use rundler.Mempool.Paymaster.Tracker.{EntryPoint}
use rundler.Mempool.Pool.{get_operation_by_hash, get_operation_by_id}
use rundler.Mempool.UoPool.{UoPool, PoolConfig}
use rundler.Mempool.UoPool
use rundler.Mempool.UoPool.Throttled.{maintain-throttled}
use rundler.Mempool.ChainUpdate.{ChainUpdate, confirmed}
use rundler.Mempool.Requests.Reservations.{remove_op_by_id_keeps_reservation}
use rundler.Mempool.Requests.{remove_operations, remove_op_by_id}
use rundler.Mempool.Calls.{step, run}
use rundler.Mempool.Calls.Examples.{operation, pair}

abbrev pub entry_point : EntryPoint
entry_point = record {
  get_deposit_info = λ a. none;
  balance_of = λ a. some 1000;
  get_balances = λ xs. some [];
}

abbrev pub pool_config : PoolConfig
pool_config = record {
  entry_point = 9;
  same_sender_mempool_count = 4;
  throttled_entity_mempool_count = 4;
  throttled_entity_live_blocks = 10;
  drop_min_num_blocks = 10;
  max_expected_storage_slots = 5;
}

-- A state with the given pool, at block 20.
abbrev pub with_pool : PoolInner → PaymasterTracker Bounded → UoPool Bounded
with_pool pool tracker = record {
  pool = pool;
  throttled_ops = [];
  block_number = 20;
  block_hash = 0;
  bundle_fees = record { max_fee_per_gas = 10; max_priority_fee_per_gas = 1 };
  uo_fees = record { max_fee_per_gas = 10; max_priority_fee_per_gas = 1 };
  base_fee = 1;
  reputation = record {
    blocklist = [];
    allowlist = [];
    counts = [];
    params = Reputation.default_params;
  };
  paymaster = tracker;
  config = pool_config;
}

-- Both operations have their cost reserved with paymaster 77.
abbrev reserving : PaymasterTracker Bounded
reserving = record {
  user_op_fees =
      (record { sender = 1; nonce = 0 }, record { paymaster = 77; max_op_cost = 60 })
      ∷ (record { sender = 2; nonce = 0 }, record { paymaster = 77; max_op_cost = 60 })
      ∷ [];
  paymaster_balances = record {
    capacity = 8;
    entries = (77, record { pending = 120; confirmed = 1000 }) ∷ [];
  };
  tracker_enabled = true;
}

remove_op_by_id_keeps_reservation_example :
    let s = with_pool pair reserving in
    let id : UserOperationId = record { sender = 2; nonce = 0 } in
    let by_id = (remove_op_by_id bounded entry_point s id).0 in
    let by_hash = remove_operations bounded entry_point s (13 ∷ []) in
    (by_id.pool ≡ by_hash.pool)
    × (get id by_hash.paymaster.user_op_fees ≡ none)
    × (bounded.peek 77 by_hash.paymaster.paymaster_balances
        ≡ some (record { pending = 60; confirmed = 1000 }))
    × (get id by_id.paymaster.user_op_fees ≡ some (record { paymaster = 77; max_op_cost = 60 }))
    × (bounded.peek 77 by_id.paymaster.paymaster_balances
        ≡ some (record { pending = 120; confirmed = 1000 }))
unfolding pair run get_operation_by_hash get_operation_by_id step new add_operation
    add_operation_internal check_replacement get_min_replacement_fees increase_by_percent
    enforce_size insert_operation is_eligible ordered with_cell set_cell best_insert best_remove
    mined_insert mined_remove increment_counts decrement_counts decrement_address_count total
    increment_entity_count decrement_entity_count remember_mined drop_operation
    remove_operation_internal remove_operation_by_hash remove_hashes mine_operation unmine_operation
    is_expired pays_for_da is_underpriced refreshed maintain do_maintenance gas_price get
    HashMap.insert HashMap.remove contains pop_last saturating_add Operation.entities
    Entity.entities Entity.get Operation.mem_size
remove_op_by_id_keeps_reservation_example =
    remove_op_by_id_keeps_reservation bounded entry_point (with_pool pair reserving)
      (record { sender = 2; nonce = 0 }) (operation 2 13 90)
      (record { paymaster = 77; max_op_cost = 60 }) (record { pending = 120; confirmed = 1000 })
      refl refl refl refl refl refl

-- The operation was simulated at block 7, and the update is for block 5.
abbrev behind : ChainUpdate
behind = record {
  latest_block_number = 5;
  latest_block_hash = 3;
  latest_block_timestamp = 60;
  earliest_remembered_block_number = 0;
  mined_ops = [];
  unmined_ops = [];
  preconfirmed_txns = [];
  preconfirmed_block_number = none;
  entity_balance_updates = [];
  unmined_entity_balance_updates = [];
  reorg_larger_than_history = false;
  update_type = confirmed;
}

abbrev throttling : UoPool Bounded
throttling = record (with_pool pair reserving) { throttled_ops = 13 ∷ [] }

maintain-throttled_example :
    let t =
      UoPool.maintain bounded entry_point throttling behind
        (record { fees = none; required_pvg = none; now = 600 }) in
    (((7 + 10 < 5) ⊎ (5 < 7))
      × (contains 13 t.throttled_ops ≡ false)
      × (get_operation_by_hash t.pool 13 ≡ none))
    ⊎ ((7 ≤ 5) × (5 ≤ 7 + 10) × (contains 13 t.throttled_ops ≡ true))
unfolding pair run get_operation_by_hash get_operation_by_id step new add_operation
    add_operation_internal check_replacement get_min_replacement_fees increase_by_percent
    enforce_size insert_operation is_eligible ordered with_cell set_cell best_insert best_remove
    mined_insert mined_remove increment_counts decrement_counts decrement_address_count total
    increment_entity_count decrement_entity_count remember_mined drop_operation
    remove_operation_internal remove_operation_by_hash remove_hashes mine_operation unmine_operation
    is_expired pays_for_da is_underpriced refreshed maintain do_maintenance gas_price get
    HashMap.insert HashMap.remove contains pop_last saturating_add Operation.entities
    Entity.entities Entity.get Operation.mem_size
maintain-throttled_example =
    maintain-throttled bounded entry_point throttling behind
      (record { fees = none; required_pvg = none; now = 600 }) 13 (operation 2 13 90) refl refl
      (omega arith) (omega arith)
