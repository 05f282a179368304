-- ===== src/Types/Entity.antt =====
-- crates/types/src/entity.rs: the entities of a user operation. Addresses are numbers.
use rundler.Common.{
  ℕ, Bool, true, false, ◌&&◌, Option, none, some, List, [], ◌∷◌, nat_beq, nat_eq, if◌then◌else◌,
}

pub data EntityType : Type 0 where
  account paymaster aggregator factory : EntityType

abbrev pub same_kind : EntityType → EntityType → Bool
same_kind account account = true
same_kind paymaster paymaster = true
same_kind aggregator aggregator = true
same_kind factory factory = true
same_kind _ _ = false

pub record Entity : Type 0 where
  pub kind : EntityType
  pub address : ℕ

abbrev pub same_entity : Entity → Entity → Bool
same_entity a b = same_kind a.kind b.kind && nat_beq a.address b.address

pub record EntityInfo : Type 0 where
  pub entity : Entity
  pub is_staked : Bool

pub record EntityInfos : Type 0 where
  pub factory : Option EntityInfo
  pub sender : EntityInfo
  pub paymaster : Option EntityInfo
  pub aggregator : Option EntityInfo

unfoldable pub get : EntityInfos → EntityType → Option EntityInfo
get infos EntityType.factory = infos.factory
get infos EntityType.account = some infos.sender
get infos EntityType.paymaster = infos.paymaster
get infos EntityType.aggregator = infos.aggregator

-- `entities`, in the order of `EntityType::iter`.
abbrev pub with_info :
    EntityType → Option EntityInfo → List (EntityType × EntityInfo) → List (EntityType × EntityInfo)
with_info t none rest = rest
with_info t (some info) rest = (t, info) ∷ rest

unfoldable pub entities : EntityInfos → List (EntityType × EntityInfo)
unfolding get
entities infos = with_info account (get infos account) (
    with_info paymaster (get infos paymaster)
      (with_info aggregator (get infos aggregator) (with_info factory (get infos factory) [])))

abbrev pub has_address : ℕ → Option EntityInfo → Bool
has_address address none = false
has_address address (some info) = nat_beq address info.entity.address

unfoldable pub type_from_address : EntityInfos → ℕ → Option EntityType
type_from_address infos address =
    if nat_beq address infos.sender.entity.address
    then some account
    else if has_address address infos.factory
    then some factory
    else if has_address address infos.paymaster
    then some paymaster
    else if has_address address infos.aggregator
    then some aggregator
    else none

unfoldable pub set_sender : EntityInfos → ℕ → Bool → EntityInfos
set_sender infos addr is_staked = record infos {
  sender = record { entity = record { kind = account; address = addr }; is_staked = is_staked };
}

unfoldable pub set_factory : EntityInfos → ℕ → Bool → EntityInfos
set_factory infos addr is_staked = record infos {
  factory =
      some (record { entity = record { kind = factory; address = addr }; is_staked = is_staked });
}

unfoldable pub set_paymaster : EntityInfos → ℕ → Bool → EntityInfos
set_paymaster infos addr is_staked = record infos {
  paymaster =
      some (record { entity = record { kind = paymaster; address = addr }; is_staked = is_staked });
}

-- Aggregators count as staked.
unfoldable pub set_aggregator : EntityInfos → ℕ → EntityInfos
set_aggregator infos addr = record infos {
  aggregator =
      some (record { entity = record { kind = aggregator; address = addr }; is_staked = true });
}
