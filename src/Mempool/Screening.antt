-- ===== src/Mempool/Screening.antt =====
-- crates/pool/src/mempool/uo_pool.rs: the checks of UoPool::add_operation that only read the pool and the
-- reputation, and what the call asks of its providers.
use rundler.Common.{
  ℕ, ◌+◌, Bool, true, false, not, ◌&&◌, ◌||◌, Option, none, some, List, [], ◌∷◌, leb, nat_beq,
  nat_eq, if◌then◌else◌, is_some, get_or, u64,
}
use rundler.Common.Results.{Result, ok, err}
use rundler.Types.Time.{ValidTimeRange}
use rundler.Types.Entity.{Entity, EntityInfos, account, same_entity}
use rundler.Types.Operation
use rundler.Types.Operation.{
  PoolOperation, UserOperation, UserOperationPermissions, unstaked_entities,
}
use rundler.Mempool.Reputation
use rundler.Mempool.Reputation.{AddressReputation, ReputationStatus, get_ops_allowed}
use rundler.Mempool.Pool.{PoolInner, get_operation_by_hash, address_count}
use rundler.Mempool.Admission.{
  PoolError, entity_throttled, max_operations_reached, check_multiple_roles_violation,
  check_eip7702, check_replacement,
}
use rundler.Mempool.UoPool.{PoolConfig}

pub record SimulationResult : Type 0 where
  pub num_slots : ℕ
  pub associated_addresses : List ℕ
  pub valid_time_range : ValidTimeRange
  pub account_is_staked : Bool
  pub entity_infos : EntityInfos

pub record PrecheckReturn : Type 0 where
  pub da_gas_data : ℕ
  pub required_pre_verification_gas : ℕ

-- What the providers answer to one call.
pub record Providers : Type 0 where
  pub valid_signature : ℕ → ℕ → Bool
  pub latest_block : Option ℕ
  pub transform_for_aggregator : UserOperation → Result PoolError UserOperation
  pub check : UserOperation → UserOperationPermissions → Result PoolError PrecheckReturn
  pub simulate_validation : UserOperation → Result PoolError SimulationResult
  pub is_efficient : UserOperation → SimulationResult → Bool
  pub match_filter : UserOperation → Option ℕ
  pub now : ℕ

-- `unique` of an iterator of entities.
abbrev pub is_among : Entity → List Entity → Bool
is_among e [] = false
is_among e (x ∷ xs) = same_entity x e || is_among e xs

unfoldable pub unique_entities : List Entity → List Entity → List Entity
unique_entities seen [] = []
unique_entities seen (e ∷ es) =
    let rest = unique_entities seen es in
    let others = unique_entities (e ∷ seen) es in if is_among e seen then rest else e ∷ others

-- The loop over an operation's entities: whether one of them is throttled.
unfoldable pub check_reputation :
    AddressReputation → PoolInner → ℕ → List Entity → Option (Result PoolError Bool)
check_reputation r pool max_count [] = some (ok false)
check_reputation r pool max_count (e ∷ es) =
    let rest = check_reputation r pool max_count es in
    elim (Reputation.status r e.address) [
      | none ↦ none
      | some ReputationStatus.ok ↦ rest
      | some ReputationStatus.throttled ↦
          if leb max_count (address_count pool e.address)
          then some (err (entity_throttled e))
          else elim rest [
            | none ↦ none
            | some (err x) ↦ some (err x)
            | some (ok t) ↦ some (ok true)
          ]
      | some ReputationStatus.banned ↦ some (err (entity_throttled e))
    ]

-- The checks of the pool's state, and the operation that would be replaced.
unfoldable pub initial_checks :
    Providers → PoolInner → UserOperation → Result PoolError (Option PoolOperation)
unfolding check_multiple_roles_violation check_eip7702 check_replacement
initial_checks providers pool op = elim (check_multiple_roles_violation pool op) [
  | err e ↦ err e
  | ok _ ↦ elim (check_eip7702 providers.valid_signature pool op) [
    | err e ↦ err e
    | ok _ ↦ elim (check_replacement pool op) [
      | err e ↦ err e
      | ok none ↦ ok none
      | ok (some hash) ↦ ok (get_operation_by_hash pool hash)
    ]
  ]
]

-- The limit on the operations of each unstaked entity that is not the sender.
unfoldable pub check_entities :
    AddressReputation → PoolInner → Option PoolOperation → List Entity → Result PoolError (Unit {0})
check_entities r pool to_replace [] = ok tt
check_entities r pool to_replace (e ∷ es) =
    let rest = check_entities r pool to_replace es in
    let allowed = get_ops_allowed r e.address in
    let ops_allowed : ℕ = elim to_replace [
      | none ↦ allowed
      | some po ↦ if is_among e (Operation.entities po) then u64 (allowed + 1) else allowed
    ] in
    if leb ops_allowed (address_count pool e.address)
    then err (max_operations_reached ops_allowed e)
    else rest

abbrev pub others_than : ℕ → List Entity → List Entity
others_than address [] = []
others_than address (e ∷ es) =
    let rest = others_than address es in if nat_beq e.address address then rest else e ∷ rest

unfoldable pub check_limits :
    PoolConfig
    → AddressReputation
    → PoolInner
    → Option PoolOperation
    → PoolOperation
    → Result PoolError (Unit {0})
unfolding check_entities
check_limits config r pool to_replace po =
    let sender_allowed_count =
      get_or po.perms.max_allowed_in_pool_for_sender config.same_sender_mempool_count in
    if not po.account_is_staked
      && not (is_some to_replace)
      && leb sender_allowed_count (address_count pool po.uo.id.sender)
    then err (
        max_operations_reached sender_allowed_count
          (record { kind = account; address = po.uo.id.sender }))
    else check_entities r pool to_replace (
        others_than po.entity_infos.sender.entity.address
          (unique_entities [] (unstaked_entities po)))

unfoldable pub dec_seen_all : AddressReputation → List Entity → AddressReputation
dec_seen_all r [] = r
dec_seen_all r (e ∷ es) = dec_seen_all (Reputation.dec_seen r e.address) es

-- The entities of a replaced operation are seen once less.
unfoldable pub unseen : AddressReputation → Option PoolOperation → AddressReputation
unseen r none = r
unseen r (some old) = dec_seen_all r (unique_entities [] (Operation.entities old))
