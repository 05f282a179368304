-- ===== src/Mempool/Histories/Examples.antt =====
-- A history of UoPool, and the theorems on histories at a concrete input.
use rundler.Common.{
  ◌≡◌, refl, true, false, none, some, map, List, [], ◌∷◌, get_or, nat_eq, saturating_add,
}
use rundler.Common.HashMap
use rundler.Common.HashMap.{get}
use rundler.Common.HashSet.{contains}
use rundler.Utils.Math.{increase_by_percent}
use rundler.Types.{id_eq}
use rundler.Types.Entity
use rundler.Types.Entity.{Entity, EntityInfos, account, paymaster}
use rundler.Types.Operation
use rundler.Types.Operation.{UserOperation, UserOperationPermissions, PoolOperation, gas_price}
use rundler.Mempool.Paymaster.{MinedOp}
use rundler.Common.Results.{ok}
use rundler.Mempool.EntityTracker.{total, increment_entity_count, decrement_entity_count}
use rundler.Mempool.Pool.{
  PoolInner, PoolInnerConfig, new, set_cell, best_insert, best_remove, pop_last, mined_insert,
  mined_remove, increment_counts, decrement_counts, decrement_address_count, remember_mined,
  drop_operation, remove_operation_internal, remove_operation_by_hash, remove_hashes, mem_size,
}
use rundler.Mempool.Admission.{
  get_min_replacement_fees, check_replacement, enforce_size, insert_operation,
  add_operation_internal, is_eligible, ordered, with_cell, add_operation,
}
use rundler.Mempool.Upkeep.{
  Block, mine_operation, unmine_operation, is_expired, pays_for_da, is_underpriced, refreshed,
  maintain, do_maintenance,
}
use rundler.Mempool.Reputation
use rundler.Mempool.Paymaster
use rundler.Mempool.Paymaster.{LruMap, PaymasterTracker, UserOpFees}
use rundler.Mempool.Paymaster.Cache.{Bounded, bounded}
use rundler.Mempool.Paymaster.Tracker
use rundler.Mempool.Paymaster.Tracker.{EntryPoint}
use rundler.Mempool.Pool.{get_operation_by_hash, get_operation_by_id}
use rundler.Mempool.UoPool.{UoPool, PoolConfig}
use rundler.Mempool.Requests.{
  remove_operations, remove_op_by_id, update_entity, update_reputation, sanction,
}
use rundler.Mempool.Calls.{Call, step, run}
use rundler.Mempool.Calls.Examples.{config, mined, user_operation, permissions, infos}
use rundler.Mempool.Requests.Examples.{entry_point, with_pool}
use rundler.Mempool.ChainUpdate.{ChainUpdate, confirmed, not_among, deduped_ops}
use rundler.Mempool.Screening.{Providers}
use rundler.Mempool.Submission
use rundler.Mempool.Screening
use rundler.Mempool.UoPool
use rundler.Mempool.Histories.{UoCall, chain, submit, uo_step, uo_run}
use rundler.Mempool.Histories.Served.{Served, uo_run-Served}
use rundler.Mempool.Upkeep
use rundler.Common.HashSet
use rundler.Mempool.Requests
use rundler.Mempool.ChainUpdate
use rundler.Mempool.Admission
use rundler.Mempool.Pool

abbrev providers : Providers
providers = record {
  valid_signature = λ a b. true;
  latest_block = some 20;
  transform_for_aggregator = λ op. ok op;
  check = λ op perms. ok (record { da_gas_data = 0; required_pre_verification_gas = 0 });
  simulate_validation = λ op. ok (record {
    num_slots = 1;
    associated_addresses = [];
    valid_time_range = record { valid_after = 0; valid_until = 5000 };
    account_is_staked = false;
    entity_infos = infos op.id.sender;
  });
  is_efficient = λ op sim. true;
  match_filter = λ op. none;
  now = 500;
}

abbrev start : UoPool Bounded
start = with_pool (new config) (Paymaster.new bounded true 8)

-- A block in which the second operation is mined.
abbrev update : ChainUpdate
update = record {
  latest_block_number = 21;
  latest_block_hash = 5;
  latest_block_timestamp = 1000;
  earliest_remembered_block_number = 0;
  mined_ops = mined 2 13 ∷ [];
  unmined_ops = [];
  preconfirmed_txns = [];
  preconfirmed_block_number = none;
  entity_balance_updates = [];
  unmined_entity_balance_updates = [];
  reorg_larger_than_history = false;
  update_type = confirmed;
}

abbrev uo_calls : List UoCall
uo_calls =
    submit providers (user_operation 1 11 100) permissions
    ∷ submit providers (user_operation 2 13 90) permissions
    ∷ chain update (record { fees = none; required_pvg = none; now = 600 })
    ∷ []

unfoldable lived : UoPool Bounded
unfolding uo_run Paymaster.new
lived = get_or (uo_run bounded entry_point start uo_calls) start

lived_test :
    (uo_run bounded entry_point start uo_calls ≡ some lived)
    × (map (λ e. e.0) lived.pool.by_hash ≡ 11 ∷ [])
unfolding lived uo_run uo_step Paymaster.new run get_operation_by_hash get_operation_by_id step new
    add_operation add_operation_internal check_replacement get_min_replacement_fees
    increase_by_percent enforce_size insert_operation is_eligible ordered with_cell set_cell
    best_insert best_remove mined_insert mined_remove increment_counts decrement_counts
    decrement_address_count total increment_entity_count decrement_entity_count remember_mined
    drop_operation remove_operation_internal remove_operation_by_hash remove_hashes mine_operation
    unmine_operation is_expired pays_for_da is_underpriced refreshed maintain do_maintenance
    gas_price get HashMap.insert HashMap.remove contains pop_last saturating_add Operation.entities
    Entity.entities Entity.get Operation.mem_size Screening.unique_entities
    Screening.check_reputation Screening.initial_checks Screening.check_entities
    Screening.check_limits Screening.dec_seen_all Screening.unseen Submission.see_all
    Submission.account_for Submission.admit Submission.validate Submission.add_operation
    UoPool.unique_after UoPool.add_included_all UoPool.dec_included_all UoPool.paid_op
    UoPool.too_old UoPool.update_preconfirmed_uos UoPool.remove_out_of_date_preconfirmed_uos
    UoPool.mine_one UoPool.unmine_one UoPool.mine_all UoPool.unmine_all UoPool.reset_balances
    UoPool.set_fees UoPool.remove_throttled UoPool.maintain UoPool.on_confirmed
    UoPool.on_chain_update Requests.throttle_entity Requests.remove_entity
    Requests.remove_operations Requests.remove_op_by_id Requests.sanction Requests.update_reputation
    Requests.update_entity Requests.clear_state Requests.set_tracking Requests.best_operations
    Requests.all_operations Requests.get_user_operation_by_hash Paymaster.pending_balance
    Paymaster.paymaster_exists Paymaster.set_tracking Paymaster.check_operation_cost Paymaster.clear
    Paymaster.set_confimed_balances Paymaster.update_paymaster_balance_from_mined_op
    Paymaster.remove_operation Paymaster.paymaster_addresses Paymaster.paymaster_metadata
    Paymaster.dump_paymaster_metadata Paymaster.unmine_actual_cost Paymaster.add_new_paymaster
    Paymaster.decrement_previous_paymaster_balance Paymaster.replaced_balances
    Paymaster.replace_existing_user_op Paymaster.add_new_user_op Paymaster.is_user_op_replacement
    Paymaster.add_or_update_balance Tracker.get_stake_status Tracker.paymaster_balance
    Tracker.check_operation_cost_of Tracker.add_or_update_balance_of
    Tracker.reset_confirmed_balances_for Tracker.reset_confirmed_balances Reputation.new
    Reputation.count_status Reputation.status Reputation.add_seen Reputation.dec_seen
    Reputation.handle_urep_030_penalty Reputation.handle_srep_050_penalty
    Reputation.handle_erep_015_amendment Reputation.dump_reputation Reputation.add_included
    Reputation.dec_included Reputation.set_reputation Reputation.get_ops_allowed Reputation.decay
    Reputation.is_live Reputation.update Reputation.clear Reputation.set_tracking Reputation.step
    Reputation.run Upkeep.throttled Upkeep.throttle_entity Upkeep.using_entity Upkeep.remove_entity
    Upkeep.forget Upkeep.forget_mined_operations_before_block Upkeep.clear Upkeep.preconfirm_uos
    Upkeep.preconfirm_txns Upkeep.preconfirm_txns_at_block_number Upkeep.remove_keys
    Upkeep.out_of_date Upkeep.remove_out_of_date_preconfirmed_uos Upkeep.get_pre_confirmed_uo
    Pool.address_count Pool.best_operations Pool.all_operations Admission.check_roles
    Admission.check_multiple_roles_violation Admission.check_associated_storage
    Admission.check_eip7702 ChainUpdate.not_among ChainUpdate.deduped_ops
    Operation.unstaked_entities HashSet.remove
lived_test = (refl, refl)

uo_run-Served_example :
    (calls : List Call) × Served bounded entry_point start uo_calls calls
    × (run (new config) calls ≡ some lived.pool)
uo_run-Served_example = uo_run-Served bounded entry_point uo_calls start lived lived_test.0
