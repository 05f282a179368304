-- ===== src/Mempool/Histories/Blocks.antt =====
-- crates/pool/src/mempool/uo_pool.rs: the calls of the inner pool that stand for an update of the chain.
pub mod Frames
pub mod Runs
use rundler.Common.{
  ℕ, ◌≡◌, refl, nat_eq, sym, ◌∙◌, ap, subst, inl, inr, Option, none, some, some_inj, List, [], ◌∷◌,
  ◌++◌, map, arith, Option-cases,
}
use rundler.Common.HashSet
use rundler.Common.HashSet.{HashSet}
use rundler.Mempool.Paymaster.{LruMap, MinedOp}
use rundler.Mempool.Paymaster.Tracker.{EntryPoint}
use rundler.Mempool.Pool.{PoolInner, remove_operation_by_hash}
use rundler.Mempool.Upkeep.{
  unmine_operation, Block, forget_mined_operations_before_block, preconfirm_txns,
}
use rundler.Mempool.Calls.{Call, step}
use rundler.Mempool.ChainUpdate.{ChainUpdate, UpdateType, confirmed, preconfirmed, deduped_ops}
use rundler.Mempool.UoPool.{
  UoPool, PoolConfig, Answers, at_entry_point, too_old, update_preconfirmed_uos,
  remove_out_of_date_preconfirmed_uos, mine_one, unmine_one, mine_all, unmine_all, reset_balances,
  set_fees, remove_throttled, maintain, on_confirmed, on_chain_update,
}
use rundler.Mempool.Histories.Refinement.{Ran, one, nil-Ran, and_then}

abbrev pub mines : ℕ → List MinedOp → List Call
mines n ops = map (λ op. Call.mine op n) ops

abbrev pub unmines : List MinedOp → List Call
unmines ops = map (λ (op : MinedOp). Call.unmine op.hash) ops

abbrev pub preconf_calls : List (ℕ × List ℕ) → Option ℕ → List Call
preconf_calls txns none = []
preconf_calls txns (some n) = Call.preconfirm txns ∷ Call.preconfirm_at txns n ∷ []

-- The calls after the mined and the unmined operations: what is too old is forgotten, the given operations
-- are removed, and the pool is maintained for the block.
abbrev pub maintain_calls : ChainUpdate → List ℕ → Block → List Call
maintain_calls update old block =
    Call.forget_mined update.earliest_remembered_block_number
    ∷ (map Call.remove_by_hash old ++ Call.on_block block ∷ [])

-- The calls for an update that has new blocks.
abbrev pub confirmed_calls : ℕ → ChainUpdate → List ℕ → Block → List Call
confirmed_calls entry_point update old block =
    Call.remove_out_of_date update.latest_block_number
    ∷ (mines update.latest_block_number (at_entry_point entry_point (deduped_ops update).0)
        ++ (unmines (at_entry_point entry_point (deduped_ops update).1)
            ++ maintain_calls update old block))

-- The block is that of the update, at the time and with the verification gas that were read.
abbrev pub IsBlockOf : ChainUpdate → Answers → Block → Type 0
IsBlockOf update answers block =
    (block.number ≡ update.latest_block_number)
    × (block.timestamp ≡ update.latest_block_timestamp)
    × (block.now ≡ answers.now)
    × (block.required_pvg ≡ answers.required_pvg)

-- The throttled operations that are left once the given ones are mined.
abbrev pub left_throttled : List MinedOp → HashSet ℕ → HashSet ℕ
left_throttled [] throttled_ops = throttled_ops
left_throttled (op ∷ ops) throttled_ops = left_throttled ops (HashSet.remove op.hash throttled_ops)

-- The calls up to the time at which the throttled operations are looked at.
abbrev pub prefix : ℕ → ChainUpdate → List Call
prefix entry_point update =
    Call.remove_out_of_date update.latest_block_number
    ∷ (mines update.latest_block_number (at_entry_point entry_point (deduped_ops update).0)
        ++ (unmines (at_entry_point entry_point (deduped_ops update).1)
            ++ Call.forget_mined update.earliest_remembered_block_number ∷ []))

-- The hashes are those of the throttled operations that are too old in the pool of that time.
abbrev pub AreOld : PoolConfig → HashSet ℕ → PoolInner → ChainUpdate → List ℕ → Type 0
AreOld config throttled_ops p update old =
    (q : PoolInner) × Ran (prefix config.entry_point update) p q
    × (old
        ≡ too_old q update.latest_block_number config.throttled_entity_live_blocks (
            left_throttled (at_entry_point config.entry_point (deduped_ops update).0)
              throttled_ops))

-- The calls for an update by its type, from a pool in which the preconfirmed operations are known.
abbrev pub ServesType :
    UpdateType → PoolConfig → HashSet ℕ → PoolInner → ChainUpdate → Answers → List Call → Type 0
ServesType preconfirmed config throttled_ops p update answers calls = calls ≡ []
ServesType confirmed config throttled_ops p update answers calls =
    (old : List ℕ) × (block : Block) × AreOld config throttled_ops p update old
    × IsBlockOf update answers block
    × (calls ≡ confirmed_calls config.entry_point update old block)

-- The calls for an update: the preconfirmed operations first, and then, where it has new blocks, those for
-- them.
abbrev pub ServesUpdate : {Map : Type 0} → UoPool Map → ChainUpdate → Answers → List Call → Type 0
ServesUpdate s update answers calls =
    let first = preconf_calls update.preconfirmed_txns update.preconfirmed_block_number in
    (p : PoolInner) × (confirmations : List Call) × Ran first s.pool p
    × ServesType update.update_type s.config s.throttled_ops p update answers confirmations
    × (calls ≡ first ++ confirmations)

-- The later state has the configuration and the throttled operations of the earlier one.
abbrev pub Framed : {Map : Type 0} → UoPool Map → UoPool Map → Type 0
Framed s t = (t.config ≡ s.config) × (t.throttled_ops ≡ s.throttled_ops)
