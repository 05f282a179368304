-- ===== src/Mempool/Calls/Examples.antt =====
-- A pool for the tests: two senders, an operation that is replaced, and one that is mined and taken back.
use rundler.Common.{
  ℕ, ◌≡◌, refl, true, false, none, some, map, List, [], ◌∷◌, get_or, arith, nat_eq, saturating_add,
}
use rundler.Common.Int.{pos}
use rundler.Common.HashMap
use rundler.Common.HashMap.{get}
use rundler.Common.HashMap.Values.{sum_values}
use rundler.Common.HashSet.{contains}
use rundler.Utils.Math.{increase_by_percent}
use rundler.Types.{id_eq}
use rundler.Types.Entity
use rundler.Types.Entity.{Entity, EntityInfos, account, paymaster}
use rundler.Types.Operation
use rundler.Types.Operation.{UserOperation, UserOperationPermissions, PoolOperation, gas_price}
use rundler.Mempool.Paymaster.{MinedOp}
use rundler.Mempool.EntityTracker.{total, increment_entity_count, decrement_entity_count}
use rundler.Mempool.Pool.{
  PoolInner, PoolInnerConfig, new, set_cell, best_insert, best_remove, pop_last, mined_insert,
  mined_remove, increment_counts, decrement_counts, decrement_address_count, remember_mined,
  drop_operation, remove_operation_internal, remove_operation_by_hash, remove_hashes, mem_size,
}
use rundler.Mempool.Admission.{
  get_min_replacement_fees, check_replacement, enforce_size, insert_operation,
  add_operation_internal, is_eligible, ordered, with_cell, add_operation,
}
use rundler.Mempool.Upkeep.{
  Block, mine_operation, unmine_operation, is_expired, pays_for_da, is_underpriced, refreshed,
  maintain, do_maintenance,
}
use rundler.Mempool.Calls.{Call, step, run}
use rundler.Mempool.Calls.Indices.{IsConsistent, run-IsConsistent, run-IsSized}

abbrev pub config : PoolInnerConfig
config = record {
  max_size_of_pool_bytes = 1000;
  min_replacement_fee_increase_percentage = 10;
  throttled_entity_mempool_count = 4;
  throttled_entity_live_blocks = 10;
  da_gas_tracking_enabled = false;
  has_da_gas_oracle = false;
  max_time_in_pool = none;
  supports_eip7702 = false;
  op_bytes = 100;
}

abbrev pub user_operation : ℕ → ℕ → ℕ → UserOperation
user_operation sender hash fee = record {
  hash = hash;
  id = record { sender = sender; nonce = 0 };
  max_fee_per_gas = fee;
  max_priority_fee_per_gas = fee;
  pre_verification_gas = 50000;
  max_gas_cost = 60;
  paymaster = some 77;
  entities =
      record { kind = account; address = sender } ∷ record { kind = paymaster; address = 77 } ∷ [];
  authorization_tuple = none;
  heap_size = 20;
}

abbrev pub permissions : UserOperationPermissions
permissions = record {
  max_allowed_in_pool_for_sender = none;
  underpriced_bundle_pct = none;
  sponsored_until = none;
}

abbrev pub infos : ℕ → EntityInfos
infos sender = record {
  factory = none;
  sender = record { entity = record { kind = account; address = sender }; is_staked = false };
  paymaster =
      some (record { entity = record { kind = paymaster; address = 77 }; is_staked = true });
  aggregator = none;
}

abbrev pub operation : ℕ → ℕ → ℕ → PoolOperation
operation sender hash fee = record {
  uo = user_operation sender hash fee;
  valid_time_range = record { valid_after = 0; valid_until = 5000 };
  sim_block_number = 7;
  account_is_staked = false;
  entity_infos = infos sender;
  da_gas_data = 0;
  filter_id = none;
  perms = permissions;
}

abbrev pub mined : ℕ → ℕ → MinedOp
mined sender hash = record {
  hash = hash;
  entry_point = 9;
  id = record { sender = sender; nonce = 0 };
  paymaster = some 77;
  actual_gas_cost = 30;
}

abbrev pub block : Block
block = record {
  number = 8;
  timestamp = 1000;
  now = 500;
  base_fee = 1;
  uo_fees = record { max_fee_per_gas = 10; max_priority_fee_per_gas = 1 };
  required_pvg = none;
}

-- The second operation replaces the first, the fourth does not pay enough to.
abbrev pub calls : List Call
calls =
    Call.add (operation 1 11 100) 1 0 500
    ∷ Call.add (operation 1 12 120) 1 0 501
    ∷ Call.add (operation 2 13 90) 1 0 502
    ∷ Call.add (operation 1 14 121) 1 0 503
    ∷ Call.mine (mined 2 13) 8
    ∷ Call.on_block block
    ∷ Call.unmine 13
    ∷ []

-- A pool with room for two operations, which holds two.
abbrev pub tight : PoolInnerConfig
tight = record config { max_size_of_pool_bytes = 250 }

abbrev pub two_calls : List Call
two_calls = Call.add (operation 1 11 100) 1 0 500 ∷ Call.add (operation 2 13 90) 1 0 502 ∷ []

unfoldable pub pair : PoolInner
unfolding run
pair = get_or (run (new tight) two_calls) (new tight)

unfoldable reached : PoolInner
unfolding run
reached = get_or (run (new config) calls) (new config)

hashes_test : map (λ o. o.po.uo.hash) reached.best ≡ 12 ∷ 13 ∷ []
unfolding reached run step new add_operation add_operation_internal check_replacement
    get_min_replacement_fees increase_by_percent enforce_size insert_operation is_eligible ordered
    with_cell set_cell best_insert best_remove mined_insert mined_remove increment_counts
    decrement_counts decrement_address_count total increment_entity_count decrement_entity_count
    remember_mined drop_operation remove_operation_internal remove_operation_by_hash remove_hashes
    mine_operation unmine_operation is_expired pays_for_da is_underpriced refreshed maintain
    do_maintenance gas_price get HashMap.insert HashMap.remove contains pop_last saturating_add
    Operation.entities Entity.entities Entity.get Operation.mem_size
hashes_test = refl

reached-run : run (new config) calls ≡ some reached
unfolding reached run step new add_operation add_operation_internal check_replacement
    get_min_replacement_fees increase_by_percent enforce_size insert_operation is_eligible ordered
    with_cell set_cell best_insert best_remove mined_insert mined_remove increment_counts
    decrement_counts decrement_address_count total increment_entity_count decrement_entity_count
    remember_mined drop_operation remove_operation_internal remove_operation_by_hash remove_hashes
    mine_operation unmine_operation is_expired pays_for_da is_underpriced refreshed maintain
    do_maintenance gas_price get HashMap.insert HashMap.remove contains pop_last saturating_add
    Operation.entities Entity.entities Entity.get Operation.mem_size
reached-run = refl

run-IsConsistent_example : IsConsistent reached
run-IsConsistent_example = run-IsConsistent config calls reached reached-run (omega arith)

run-IsSized_example : reached.pool_size ≡ pos (sum_values (λ o. mem_size config o) reached.by_hash)
unfolding reached run step new add_operation add_operation_internal check_replacement
    get_min_replacement_fees increase_by_percent enforce_size insert_operation is_eligible ordered
    with_cell set_cell best_insert best_remove mined_insert mined_remove increment_counts
    decrement_counts decrement_address_count total increment_entity_count decrement_entity_count
    remember_mined drop_operation remove_operation_internal remove_operation_by_hash remove_hashes
    mine_operation unmine_operation is_expired pays_for_da is_underpriced refreshed maintain
    do_maintenance gas_price get HashMap.insert HashMap.remove contains pop_last saturating_add
    Operation.entities Entity.entities Entity.get Operation.mem_size
run-IsSized_example = run-IsSized config calls reached reached-run (omega arith)
