-- ===== src/Mempool/Submission.antt =====
-- crates/pool/src/mempool/uo_pool.rs: UoPool::add_operation, in the parts between which other calls may
-- change the pool. The aggregator, the prechecks, the simulation with the checks of its gas and the filter
-- are parameters. The outer `none` is a call that panics or does not return.
use rundler.Common.{ℕ, Bool, Option, none, some, List, [], ◌∷◌, ◌>>=◌, ltb, nat_eq, if◌then◌else◌}
use rundler.Common.Results.{Result, ok, err}
use rundler.Common.HashSet
use rundler.Common.HashSet.{HashSet}
use rundler.Types.Entity.{Entity}
use rundler.Types.Operation
use rundler.Types.Operation.{
  PoolOperation, UserOperation, UserOperationPermissions, unstaked_entities,
}
use rundler.Mempool.Reputation
use rundler.Mempool.Reputation.{AddressReputation, ReputationStatus, get_ops_allowed}
use rundler.Mempool.Paymaster.{LruMap}
use rundler.Mempool.Paymaster.Tracker
use rundler.Mempool.Paymaster.Tracker.{EntryPoint}
use rundler.Mempool.Admission
use rundler.Mempool.Admission.{
  PoolError, entity_throttled, max_operations_reached, paymaster_error, rejected,
  check_multiple_roles_violation, check_eip7702, check_replacement, check_associated_storage,
}
use rundler.Mempool.UoPool.{UoPool, paid_op}
use rundler.Mempool.Requests.{sanction}
use rundler.Mempool.Screening.{
  SimulationResult, PrecheckReturn, Providers, unique_entities, check_reputation, initial_checks,
  check_limits, unseen,
}

module _ {Map : Type 0} (lru : LruMap Map) (ep : EntryPoint) where
  -- Each entity is seen once more, and throttled or removed if its reputation says so.
  unfoldable pub see_all : UoPool Map → List Entity → Option (UoPool Map)
  unfolding sanction
  see_all s [] = some s
  see_all s (e ∷ es) =
      sanction lru ep (record s { reputation = Reputation.add_seen s.reputation e.address }) e
      >>= λ t. see_all t es

  -- Once the operation is in the pool: its cost is reserved, and its entities are seen.
  unfoldable pub account_for :
      UoPool Map
      → Option PoolOperation
      → PoolOperation
      → ℕ
      → Option (UoPool Map × Result PoolError ℕ)
  unfolding see_all
  account_for s to_replace po hash =
      let (tracker, paid) = Tracker.add_or_update_balance_of lru ep s.paymaster (paid_op po.uo) in
      elim paid [
        | err e ↦ some (record s { paymaster = tracker }, err (paymaster_error e))
        | ok _ ↦
            see_all (record s { paymaster = tracker; reputation = unseen s.reputation to_replace })
              (unique_entities [] (Operation.entities po))
            >>= λ t. some (t, ok hash)
      ]

  -- From the limits on, in the state of that time.
  unfoldable pub admit :
      UoPool Map
      → Option PoolOperation
      → Bool
      → PoolOperation
      → PrecheckReturn
      → ℕ
      → Option (UoPool Map × Result PoolError ℕ)
  unfolding check_limits account_for
  admit s to_replace throttled po precheck now =
      elim (check_limits s.config s.reputation s.pool to_replace po) [
        | err e ↦ some (s, err e)
        | ok _ ↦
            elim (Admission.add_operation s.pool po s.base_fee
              precheck.required_pre_verification_gas now) [
                | none ↦ none
                | some (pool, err e) ↦ some (record s { pool = pool }, err e)
                | some (pool, ok hash) ↦
                    account_for
                      (record s {
                        pool = pool;
                        throttled_ops =
                            if throttled
                            then HashSet.insert hash s.throttled_ops
                            else s.throttled_ops;
                      })
                      to_replace po hash
              ]
      ]

  -- The pool operation for a simulated user operation.
  abbrev pub pool_op :
      Providers
      → ℕ
      → UserOperation
      → UserOperationPermissions
      → PrecheckReturn
      → SimulationResult
      → PoolOperation
  pool_op providers block_number op perms precheck sim = record {
    uo = op;
    valid_time_range = sim.valid_time_range;
    sim_block_number = block_number;
    account_is_staked = sim.account_is_staked;
    entity_infos = sim.entity_infos;
    da_gas_data = precheck.da_gas_data;
    filter_id = providers.match_filter op;
    perms = perms;
  }

  -- From the aggregator to the checks of the simulation.
  unfoldable pub validate :
      Providers
      → UoPool Map
      → UserOperation
      → UserOperationPermissions
      → Result PoolError (UserOperation × PrecheckReturn × SimulationResult)
  unfolding check_associated_storage
  validate providers s op perms = elim (providers.transform_for_aggregator op) [
    | err e ↦ err e
    | ok uo ↦ elim (providers.check uo perms) [
      | err e ↦ err e
      | ok precheck ↦ elim (providers.simulate_validation uo) [
        | err e ↦ err e
        | ok sim ↦
            if ltb s.config.max_expected_storage_slots sim.num_slots
            then err (rejected sim.num_slots)
            else elim (check_associated_storage s.pool sim.associated_addresses uo) [
              | err e ↦ err e
              | ok _ ↦
                  if providers.is_efficient uo sim then ok (uo, precheck, sim) else err (rejected 0)
            ]
      ]
    ]
  ]

  -- The whole call, with no other call between its parts.
  unfoldable pub add_operation :
      Providers
      → UoPool Map
      → UserOperation
      → UserOperationPermissions
      → Option (UoPool Map × Result PoolError ℕ)
  unfolding initial_checks check_reputation validate admit
  add_operation providers s op perms = elim (initial_checks providers s.pool op) [
    | err e ↦ some (s, err e)
    | ok to_replace ↦
        elim (check_reputation s.reputation s.pool s.config.throttled_entity_mempool_count
          op.entities) [
            | none ↦ none
            | some (err e) ↦ some (s, err e)
            | some (ok throttled) ↦ elim providers.latest_block [
              | none ↦ some (s, err PoolError.other)
              | some block_number ↦
                  let (tracker, cost) =
                    Tracker.check_operation_cost_of lru ep s.paymaster (paid_op op) in
                  let t : UoPool Map = record s { paymaster = tracker } in
                  elim cost [
                    | err e ↦ some (t, err (paymaster_error e))
                    | ok _ ↦ elim (validate providers t op perms) [
                      | err e ↦ some (t, err e)
                      | ok (uo, precheck, sim) ↦
                          admit t to_replace throttled
                            (pool_op providers block_number uo perms precheck sim) precheck
                            providers.now
                    ]
                  ]
            ]
          ]
  ]
