-- ===== src/Mempool/ChainUpdate.antt =====
-- crates/pool/src/chain.rs: what the chain tells a pool about new blocks.
use rundler.Common.{ℕ, Bool, Option, List, [], ◌∷◌, map, nat_eq, if◌then◌else◌}
use rundler.Common.HashSet.{contains}
use rundler.Mempool.Paymaster.{MinedOp}

pub record BalanceUpdate : Type 0 where
  pub address : ℕ
  pub entrypoint : ℕ
  pub amount : ℕ
  pub is_addition : Bool

pub data UpdateType : Type 0 where
  confirmed preconfirmed : UpdateType

-- What a pool reads of an update.
pub record ChainUpdate : Type 0 where
  pub latest_block_number : ℕ
  pub latest_block_hash : ℕ
  pub latest_block_timestamp : ℕ
  pub earliest_remembered_block_number : ℕ
  pub mined_ops : List MinedOp
  pub unmined_ops : List MinedOp
  pub preconfirmed_txns : List (ℕ × List ℕ)
  pub preconfirmed_block_number : Option ℕ
  pub entity_balance_updates : List BalanceUpdate
  pub unmined_entity_balance_updates : List BalanceUpdate
  pub reorg_larger_than_history : Bool
  pub update_type : UpdateType

-- The operations whose hash is not among the given ones.
unfoldable pub not_among : List ℕ → List MinedOp → List MinedOp
not_among hashes [] = []
not_among hashes (op ∷ ops) =
    let rest = not_among hashes ops in if contains op.hash hashes then rest else op ∷ rest

-- The mined operations and the unmined ones, without those that are both.
unfoldable pub deduped_ops : ChainUpdate → List MinedOp × List MinedOp
unfolding not_among
deduped_ops u = (
  not_among (map (λ op. op.hash) u.unmined_ops) u.mined_ops,
  not_among (map (λ op. op.hash) u.mined_ops) u.unmined_ops,
)
