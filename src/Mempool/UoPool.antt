-- ===== src/Mempool/UoPool.antt =====
-- crates/pool/src/mempool/uo_pool.rs: UoPool, which keeps the pool, the reputation and the balances of
-- paymasters in step with the chain. The calls are sequential; events and metrics are left out. The
-- prices, the data of a block and the time are read from the outside once per update. The outer `none`
-- is a call that panics or does not return.
pub mod Throttled
use rundler.Common.{
  ℕ, ◌+◌, ◌-◌, Option, none, some, List, [], ◌∷◌, ◌++◌, map, ◌>>=◌, ltb, nat_beq, nat_eq,
  if◌then◌else◌, u64, u64_mod, is_empty,
}
use rundler.Common.HashSet
use rundler.Common.HashSet.{HashSet, contains}
use rundler.Types.Gas.{GasFees}
use rundler.Types.Operation
use rundler.Types.Operation.{PoolOperation, UserOperation}
use rundler.Mempool.Reputation
use rundler.Mempool.Reputation.{AddressReputation, ReputationStatus}
use rundler.Mempool.Paymaster
use rundler.Mempool.Paymaster.{LruMap, PaymasterTracker, Op, MinedOp}
use rundler.Mempool.Paymaster.Tracker
use rundler.Mempool.Paymaster.Tracker.{EntryPoint}
use rundler.Mempool.Pool
use rundler.Mempool.Pool.{
  PoolInner, PoolInnerConfig, get_operation_by_hash, remove_operation_by_hash,
}
use rundler.Mempool.Upkeep
use rundler.Mempool.Upkeep.{
  Block, mine_operation, unmine_operation, forget_mined_operations_before_block, preconfirm_txns,
  preconfirm_txns_at_block_number, get_pre_confirmed_uo, do_maintenance,
}
use rundler.Mempool.ChainUpdate.{ChainUpdate, BalanceUpdate, confirmed, preconfirmed, deduped_ops}

pub record PoolConfig : Type 0 where
  pub entry_point : ℕ
  pub same_sender_mempool_count : ℕ
  pub throttled_entity_mempool_count : ℕ
  pub throttled_entity_live_blocks : ℕ
  pub drop_min_num_blocks : ℕ
  pub max_expected_storage_slots : ℕ

-- The fields of the state behind the lock come first.
pub record UoPool (Map : Type 0) : Type 0 where
  pub pool : PoolInner
  pub throttled_ops : HashSet ℕ
  pub block_number : ℕ
  pub block_hash : ℕ
  pub bundle_fees : GasFees
  pub uo_fees : GasFees
  pub base_fee : ℕ
  pub reputation : AddressReputation
  pub paymaster : PaymasterTracker Map
  pub config : PoolConfig

-- What an update asks the providers for: the fees for bundles, those for operations and the base fee,
-- unless that fails; the needed verification gas, where it is tracked; and the time.
pub record Answers : Type 0 where
  pub fees : Option (GasFees × GasFees × ℕ)
  pub required_pvg : Option (PoolOperation → ℕ → ℕ)
  pub now : ℕ

-- `unique` of an iterator of addresses: the first of each.
unfoldable pub unique_after : List ℕ → List ℕ → List ℕ
unique_after seen [] = []
unique_after seen (a ∷ as') =
    let rest = unique_after seen as' in
    let others = unique_after (a ∷ seen) as' in if contains a seen then rest else a ∷ others

abbrev pub unique : List ℕ → List ℕ
unique addresses = unique_after [] addresses

abbrev pub addresses : PoolOperation → List ℕ
addresses po = unique (map (λ e. e.address) (Operation.entities po))

unfoldable pub add_included_all : AddressReputation → List ℕ → AddressReputation
add_included_all r [] = r
add_included_all r (a ∷ as') = add_included_all (Reputation.add_included r a) as'

unfoldable pub dec_included_all : AddressReputation → List ℕ → AddressReputation
dec_included_all r [] = r
dec_included_all r (a ∷ as') = dec_included_all (Reputation.dec_included r a) as'

-- What the paymaster tracker reads of an operation.
unfoldable pub paid_op : UserOperation → Op
paid_op uo = record { id = uo.id; paymaster = uo.paymaster; max_gas_cost = uo.max_gas_cost }

abbrev pub at_entry_point : ℕ → List MinedOp → List MinedOp
at_entry_point entry_point [] = []
at_entry_point entry_point (op ∷ ops) =
    let rest = at_entry_point entry_point ops in
    if nat_beq op.entry_point entry_point then op ∷ rest else rest

abbrev pub balances_at : ℕ → List BalanceUpdate → List ℕ
balances_at entry_point [] = []
balances_at entry_point (u ∷ us) =
    let rest = balances_at entry_point us in
    if nat_beq u.entrypoint entry_point then u.address ∷ rest else rest

-- The throttled operations that are too old. `-` on blocks wraps.
unfoldable pub too_old : PoolInner → ℕ → ℕ → HashSet ℕ → List ℕ
too_old pool latest_block_number live_blocks [] = []
too_old pool latest_block_number live_blocks (hash ∷ hashes) =
    let rest = too_old pool latest_block_number live_blocks hashes in
    elim (get_operation_by_hash pool hash) [
      | none ↦ rest
      | some po ↦
          if ltb live_blocks (u64 (latest_block_number + u64_mod - po.sim_block_number))
          then hash ∷ rest
          else rest
    ]

-- The configuration of the inner pool is taken from that of the pool.
unfoldable pub new :
    {Map : Type 0}
    → PoolConfig
    → PoolInnerConfig
    → PaymasterTracker Map
    → AddressReputation
    → UoPool Map
new config inner paymaster reputation = record {
  pool = Pool.new inner;
  throttled_ops = [];
  block_number = 0;
  block_hash = 0;
  bundle_fees = record { max_fee_per_gas = 0; max_priority_fee_per_gas = 0 };
  uo_fees = record { max_fee_per_gas = 0; max_priority_fee_per_gas = 0 };
  base_fee = 0;
  reputation = reputation;
  paymaster = paymaster;
  config = config;
}

module _ {Map : Type 0} (lru : LruMap Map) (ep : EntryPoint) where
  unfoldable pub update_preconfirmed_uos : UoPool Map → List (ℕ × List ℕ) → Option ℕ → UoPool Map
  update_preconfirmed_uos s txn_to_uos none = s
  update_preconfirmed_uos s txn_to_uos (some block_number) = record s {
    pool =
        preconfirm_txns_at_block_number (preconfirm_txns s.pool txn_to_uos) txn_to_uos block_number;
  }

  unfoldable pub remove_out_of_date_preconfirmed_uos : UoPool Map → ℕ → UoPool Map
  remove_out_of_date_preconfirmed_uos s block_number = record s {
    pool = Upkeep.remove_out_of_date_preconfirmed_uos s.pool block_number;
  }

  -- The body of the loop over mined operations, and that over unmined ones.
  unfoldable pub mine_one : ℕ → UoPool Map → MinedOp → UoPool Map
  mine_one block_number s op =
      let (pool, mined) = mine_operation s.pool op block_number in
      record s {
        paymaster = Paymaster.update_paymaster_balance_from_mined_op lru s.paymaster op;
        throttled_ops = HashSet.remove op.hash s.throttled_ops;
        pool = pool;
        reputation = elim mined [
          | none ↦ s.reputation
          | some po ↦ add_included_all s.reputation (addresses po)
        ];
      }

  unfoldable pub unmine_one : UoPool Map → MinedOp → Option (UoPool Map)
  unmine_one s op = do
    (pool, unmined) ← unmine_operation s.pool op.hash
    let tracker : PaymasterTracker Map = elim op.paymaster [
      | none ↦ s.paymaster
      | some p ↦ Paymaster.unmine_actual_cost lru s.paymaster p op.actual_gas_cost
    ]
    some (elim unmined [
      | none ↦ record s { paymaster = tracker; pool = pool }
      | some po ↦ record s {
        pool = pool;
        reputation = dec_included_all s.reputation (addresses po);
        paymaster = (Tracker.add_or_update_balance_of lru ep tracker (paid_op po.uo)).0;
      }
    ])

  unfoldable pub mine_all : ℕ → UoPool Map → List MinedOp → UoPool Map
  mine_all block_number s [] = s
  mine_all block_number s (op ∷ ops) = mine_all block_number (mine_one block_number s op) ops

  unfoldable pub unmine_all : UoPool Map → List MinedOp → Option (UoPool Map)
  unfolding unmine_one
  unmine_all s [] = some s
  unmine_all s (op ∷ ops) = unmine_one s op >>= λ t. unmine_all t ops

  -- The balances that the chain changed are read again; an error leaves them.
  unfoldable pub reset_balances : UoPool Map → ChainUpdate → Option (UoPool Map)
  reset_balances s update =
      let changed = unique (
        balances_at s.config.entry_point update.entity_balance_updates
        ++ balances_at s.config.entry_point update.unmined_entity_balance_updates) in
      let all = Tracker.reset_confirmed_balances lru ep s.paymaster in
      let some_of = Tracker.reset_confirmed_balances_for lru ep s.paymaster changed in
      if update.reorg_larger_than_history
      then (all >>= λ r. some (record s { paymaster = r.0 }))
      else if is_empty changed
      then some s
      else (some_of >>= λ r. some (record s { paymaster = r.0 }))

  unfoldable pub set_fees : UoPool Map → ChainUpdate → Answers → UoPool Map
  set_fees s update answers = elim answers.fees [
    | none ↦ record s { block_number = update.latest_block_number }
    | some (bundle_fees, uo_fees, base_fee) ↦ record s {
      block_number = update.latest_block_number;
      block_hash = update.latest_block_hash;
      bundle_fees = bundle_fees;
      uo_fees = uo_fees;
      base_fee = base_fee;
    }
  ]

  unfoldable pub remove_throttled : UoPool Map → List ℕ → UoPool Map
  remove_throttled s [] = s
  remove_throttled s (hash ∷ hashes) =
      remove_throttled
        (record s {
          pool = (remove_operation_by_hash s.pool hash).0;
          throttled_ops = HashSet.remove hash s.throttled_ops;
        })
        hashes

  -- The last part of `on_chain_update`, under one lock.
  unfoldable pub maintain : UoPool Map → ChainUpdate → Answers → UoPool Map
  maintain s update answers =
      let t : UoPool Map = record s {
        pool = forget_mined_operations_before_block s.pool update.earliest_remembered_block_number;
      } in
      let u = remove_throttled t (
        too_old t.pool update.latest_block_number s.config.throttled_entity_live_blocks
          s.throttled_ops) in
      record u {
        pool = do_maintenance u.pool (record {
          number = update.latest_block_number;
          timestamp = update.latest_block_timestamp;
          now = answers.now;
          base_fee = u.base_fee;
          uo_fees = u.uo_fees;
          required_pvg = answers.required_pvg;
        });
      }

  -- What follows for an update that has new blocks.
  unfoldable pub on_confirmed : UoPool Map → ChainUpdate → Answers → Option (UoPool Map)
  unfolding unmine_all reset_balances
  on_confirmed s update answers = do
    let (mined_ops, unmined_ops) = deduped_ops update
    let cleared = remove_out_of_date_preconfirmed_uos s update.latest_block_number
    let mined =
        mine_all update.latest_block_number cleared (at_entry_point s.config.entry_point mined_ops)
    unmined ← unmine_all mined (at_entry_point s.config.entry_point unmined_ops)
    balanced ← reset_balances unmined update
    some (maintain (set_fees balanced update answers) update answers)

  unfoldable pub on_chain_update : UoPool Map → ChainUpdate → Answers → Option (UoPool Map)
  unfolding on_confirmed
  on_chain_update s update answers =
      let t = update_preconfirmed_uos s update.preconfirmed_txns update.preconfirmed_block_number in
      elim update.update_type [ preconfirmed ↦ some t | confirmed ↦ on_confirmed t update answers ]
