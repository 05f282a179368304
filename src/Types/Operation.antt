-- ===== src/Types/Operation.antt =====
-- crates/types/src/pool/types.rs: PoolOperation, and of crates/types/src/user_operation/mod.rs what the
-- pool reads of a user operation. The hash, the greatest cost and the size on the heap are computed by
-- the operation's version; they are fields here.
use rundler.Common.{
  ℕ, ◌+◌, min, Bool, true, false, ◌||◌, Option, none, some, List, [], ◌∷◌, map, nat_beq, u128,
  if◌then◌else◌,
}
use rundler.Types.{UserOperationId}
use rundler.Types.Time.{ValidTimeRange}
use rundler.Types.Entity
use rundler.Types.Entity.{
  EntityType, Entity, EntityInfo, EntityInfos, account, paymaster, aggregator, factory,
}

-- `entities` are the addresses that the operation itself names, with their kinds.
pub record UserOperation : Type 0 where
  pub hash : ℕ
  pub id : UserOperationId
  pub max_fee_per_gas : ℕ
  pub max_priority_fee_per_gas : ℕ
  pub pre_verification_gas : ℕ
  pub max_gas_cost : ℕ
  pub paymaster : Option ℕ
  pub entities : List Entity
  pub authorization_tuple : Option ℕ
  pub heap_size : ℕ

unfoldable pub gas_price : UserOperation → ℕ → ℕ
gas_price uo base_fee = min uo.max_fee_per_gas (u128 (base_fee + uo.max_priority_fee_per_gas))

pub record UserOperationPermissions : Type 0 where
  pub max_allowed_in_pool_for_sender : Option ℕ
  pub underpriced_bundle_pct : Option ℕ
  pub sponsored_until : Option ℕ

pub record PoolOperation : Type 0 where
  pub uo : UserOperation
  pub valid_time_range : ValidTimeRange
  pub sim_block_number : ℕ
  pub account_is_staked : Bool
  pub entity_infos : EntityInfos
  pub da_gas_data : ℕ
  pub filter_id : Option ℕ
  pub perms : UserOperationPermissions

unfoldable pub contains_entity : PoolOperation → Entity → Bool
unfolding Entity.get
contains_entity po entity = elim (Entity.get po.entity_infos entity.kind) [
  | none ↦ false
  | some ei ↦ nat_beq ei.entity.address entity.address
]

abbrev pub to_entity : EntityType × EntityInfo → Entity
to_entity e = record { kind = e.0; address = e.1.entity.address }

unfoldable pub entities : PoolOperation → List Entity
unfolding Entity.entities
entities po = map to_entity (Entity.entities po.entity_infos)

abbrev pub is_aggregator : EntityType → Bool
is_aggregator aggregator = true
is_aggregator _ = false

-- The loop of `unstaked_entities`.
unfoldable pub unstaked : List (EntityType × EntityInfo) → List Entity
unstaked [] = []
unstaked ((t, ei) ∷ rest) =
    let others = unstaked rest in
    if ei.is_staked || is_aggregator ei.entity.kind then others else to_entity (t, ei) ∷ others

unfoldable pub unstaked_entities : PoolOperation → List Entity
unfolding unstaked Entity.entities
unstaked_entities po = unstaked (Entity.entities po.entity_infos)

-- `base` is the size of the struct itself, which the compiler fixes.
unfoldable pub mem_size : ℕ → PoolOperation → ℕ
mem_size base po = base + po.uo.heap_size
