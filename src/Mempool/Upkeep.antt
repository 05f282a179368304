-- ===== src/Mempool/Upkeep.antt =====
-- crates/pool/src/mempool/pool.rs: what the pool does with the operations that it holds, as blocks come
-- and go.
pub mod Examples
pub mod Indices
pub mod Reorg
use rundler.Common.{
  ℕ, ◌+◌, ◌-◌, suc, Bool, true, false, not, ◌&&◌, ◌||◌, Option, none, some, List, [], ◌∷◌, ◌++◌,
  map, ltb, leb, nat_beq, nat_eq, if◌then◌else◌, is_some, get_or, u64, length, is_empty,
}
use rundler.Common.Int.{ℤ, pos}
use rundler.Common.HashMap.{HashMap, get, insert, remove, retain}
use rundler.Common.Results.{Result, ok, err}
use rundler.Utils.Math.{percent_ceil}
use rundler.Types.{UserOperationId, id_eq}
use rundler.Types.Gas.{GasFees}
use rundler.Types.Entity.{Entity}
use rundler.Types.Operation.{PoolOperation, UserOperation, gas_price, contains_entity}
use rundler.Mempool.Paymaster.{MinedOp}
use rundler.Mempool.EntityTracker.{sub_size}
use rundler.Mempool.Pool.{
  PoolInner, OrderedPoolOperation, Cell, empty_cell, hash_of, mem_size, set_cell, best_insert,
  mined_remove, remove_operation_internal, remove_operation_by_hash, remove_hashes,
}
use rundler.Mempool.Admission.{PoolError, add_operation_internal}

unfoldable pub mine_operation : PoolInner → MinedOp → ℕ → PoolInner × Option PoolOperation
mine_operation s mined_op block_number = elim (get mined_op.id s.by_id) [
  | none ↦ (s, none)
  | some o ↦ remove_operation_internal s (hash_of o) (some block_number)
]

-- `hash` is the hash of the mined operation. The outer `none` is a pool that does not return.
unfoldable pub unmine_operation : PoolInner → ℕ → Option (PoolInner × Option PoolOperation)
unmine_operation s hash = elim (get hash s.mined_at_block_number_by_hash) [
  | none ↦ some (s, none)
  | some (o, block_number) ↦
      let t : PoolInner = record s {
        mined_at_block_number_by_hash = remove hash s.mined_at_block_number_by_hash;
        mined_hashes_with_block_numbers =
            mined_remove block_number hash s.mined_hashes_with_block_numbers;
      } in
      elim (add_operation_internal t o) [ none ↦ none | some (u, r) ↦ some (u, some o.po) ]
]

-- The filter of `throttle_entity`, which counts the operations that it keeps.
unfoldable pub throttled : ℕ → ℕ → Entity → ℕ → List OrderedPoolOperation → List ℕ
throttled live_blocks block_number entity uos_kept [] = []
throttled live_blocks block_number entity uos_kept (o ∷ os) = elim (contains_entity o.po entity) [
  | false ↦ throttled live_blocks block_number entity uos_kept os
  | true ↦
      elim (ltb (u64 (o.po.sim_block_number + live_blocks)) block_number || nat_beq uos_kept 0) [
        | true ↦ hash_of o ∷ throttled live_blocks block_number entity uos_kept os
        | false ↦ throttled live_blocks block_number entity (uos_kept - 1) os
      ]
]

unfoldable pub throttle_entity : PoolInner → Entity → ℕ → PoolInner × List ℕ
throttle_entity s entity block_number =
    let to_remove =
      throttled s.config.throttled_entity_live_blocks block_number entity
        s.config.throttled_entity_mempool_count s.best in
    (remove_hashes s to_remove, to_remove)

unfoldable pub using_entity : Entity → HashMap ℕ OrderedPoolOperation → List ℕ
using_entity entity [] = []
using_entity entity ((hash, o) ∷ m) =
    let rest = using_entity entity m in if contains_entity o.po entity then hash ∷ rest else rest

unfoldable pub remove_entity : PoolInner → Entity → PoolInner × List ℕ
unfolding using_entity
remove_entity s entity =
    let to_remove = using_entity entity s.by_hash in (remove_hashes s to_remove, to_remove)

-- The loop of `forget_mined_operations_before_block` along the sorted set.
unfoldable pub forget : ℕ → List (ℕ × ℕ) → PoolInner → PoolInner
forget block_number [] s = record s { mined_hashes_with_block_numbers = [] }
forget block_number ((bn, hash) ∷ rest) s = elim (ltb bn block_number) [
  | false ↦ record s { mined_hashes_with_block_numbers = (bn, hash) ∷ rest }
  | true ↦ elim (get hash s.mined_at_block_number_by_hash) [
    | none ↦ forget block_number rest s
    | some (o, b) ↦ forget block_number rest (record s {
      mined_at_block_number_by_hash = remove hash s.mined_at_block_number_by_hash;
      cache_size = sub_size s.cache_size (mem_size s.config o);
    })
  ]
]

unfoldable pub forget_mined_operations_before_block : PoolInner → ℕ → PoolInner
forget_mined_operations_before_block s block_number =
    forget block_number s.mined_hashes_with_block_numbers s

-- The preconfirmed operations stay.
unfoldable pub clear : PoolInner → PoolInner
clear s = record s {
  by_hash = [];
  by_id = [];
  best = [];
  mined_at_block_number_by_hash = [];
  mined_hashes_with_block_numbers = [];
  count_by_address = [];
  pool_size = pos 0;
  cache_size = pos 0;
}

unfoldable pub preconfirm_uos : PoolInner → ℕ → List ℕ → PoolInner
preconfirm_uos s txn [] = s
preconfirm_uos s txn (uo ∷ uos) =
    preconfirm_uos
      (if is_some (get uo s.by_hash)
        then record s {
          preconfirmed_uos_bundle_mapping = insert uo txn s.preconfirmed_uos_bundle_mapping;
        }
        else s)
      txn uos

unfoldable pub preconfirm_txns : PoolInner → List (ℕ × List ℕ) → PoolInner
preconfirm_txns s [] = s
preconfirm_txns s ((txn, uos) ∷ txns) = preconfirm_txns (preconfirm_uos s txn uos) txns

abbrev pub all_uos : List (ℕ × List ℕ) → List ℕ
all_uos [] = []
all_uos ((txn, uos) ∷ txns) = uos ++ all_uos txns

unfoldable pub preconfirm_txns_at_block_number : PoolInner → List (ℕ × List ℕ) → ℕ → PoolInner
preconfirm_txns_at_block_number s txns block_number = record s {
  preconfirmed_uos_at_block_number =
      insert block_number (all_uos txns) s.preconfirmed_uos_at_block_number;
}

unfoldable pub remove_keys : HashMap ℕ ℕ → List ℕ → HashMap ℕ ℕ
remove_keys m [] = m
remove_keys m (k ∷ ks) = remove_keys (remove k m) ks

unfoldable pub out_of_date : ℕ → HashMap ℕ (List ℕ) → HashMap ℕ ℕ → HashMap ℕ ℕ
out_of_date block_number [] m = m
out_of_date block_number ((bn, uos) ∷ rest) m =
    out_of_date block_number rest (if leb bn block_number then remove_keys m uos else m)

unfoldable pub remove_out_of_date_preconfirmed_uos : PoolInner → ℕ → PoolInner
remove_out_of_date_preconfirmed_uos s block_number = record s {
  preconfirmed_uos_bundle_mapping =
      out_of_date block_number s.preconfirmed_uos_at_block_number s.preconfirmed_uos_bundle_mapping;
  preconfirmed_uos_at_block_number =
      retain (λ bn uos. ltb block_number bn) s.preconfirmed_uos_at_block_number;
}

unfoldable pub get_pre_confirmed_uo : PoolInner → ℕ → Option ℕ
get_pre_confirmed_uo s uo_hash = get uo_hash s.preconfirmed_uos_bundle_mapping

-- What a block brings to `do_maintenance`. `required_pvg` stands for the oracle with the block's data:
-- the verification gas that an operation needs at a gas price, without its discount.
pub record Block : Type 0 where
  pub number : ℕ
  pub timestamp : ℕ
  pub now : ℕ
  pub base_fee : ℕ
  pub uo_fees : GasFees
  pub required_pvg : Option (PoolOperation → ℕ → ℕ)

unfoldable pub is_expired : Option ℕ → Block → OrderedPoolOperation → Bool
is_expired max_time_in_pool block o =
    ltb o.po.valid_time_range.valid_until block.timestamp
    || elim max_time_in_pool [ none ↦ false | some m ↦ ltb m (block.now - o.insertion_time) ]
    || elim o.po.perms.sponsored_until [ none ↦ false | some until ↦ ltb until block.timestamp ]

-- Whether the operation pays for the data that the block makes it post; none where that is not checked.
unfoldable pub pays_for_da : Block → PoolOperation → Option Bool
pays_for_da block po = elim block.required_pvg [
  | none ↦ none
  | some required_pvg ↦
      if is_some po.perms.sponsored_until
      then none
      else let required = required_pvg po (gas_price po.uo block.base_fee) in
        let discounted : ℕ = elim po.perms.underpriced_bundle_pct [
          | none ↦ required
          | some pct ↦ percent_ceil required pct
        ] in
        some (not (ltb po.uo.pre_verification_gas discounted))
]

unfoldable pub is_underpriced : Block → PoolOperation → Bool
is_underpriced block po =
    (ltb po.uo.max_fee_per_gas block.uo_fees.max_fee_per_gas
      || ltb po.uo.max_priority_fee_per_gas block.uo_fees.max_priority_fee_per_gas)
    && not (is_some po.perms.sponsored_until)

-- The cell of an operation that did not expire, and whether it is among the best.
unfoldable pub refreshed : Block → PoolOperation → Cell → Cell × Bool
refreshed block po c =
    let priced : Cell = record c { gas_price = gas_price po.uo block.base_fee } in
    elim (pays_for_da block po) [
      | some false ↦ (
        if c.eligible then record priced { eligible = false; time_to_mine = none } else priced,
        false,
      )
      | some true ↦ (
        if is_underpriced block po
            then record priced { eligible = true; time_to_mine = none }
            else record priced { eligible = true },
        true,
      )
      | none ↦
          (if is_underpriced block po then record priced { time_to_mine = none } else priced, true)
    ]

-- The loop of `do_maintenance`: the cells, the best operations and the expired ones so far.
unfoldable pub maintain :
    Option ℕ
    → Block
    → HashMap ℕ OrderedPoolOperation
    → (ℕ → Cell)
    → List OrderedPoolOperation
    → List ℕ
    → (ℕ → Cell) × List OrderedPoolOperation × List ℕ
maintain max_time block [] cells best expired = (cells, best, expired)
maintain max_time block ((hash, o) ∷ m) cells best expired =
    let c = cells o.submission_id in
    let priced : Cell = record c { gas_price = gas_price o.po.uo block.base_fee } in
    let (d, is_best) = refreshed block o.po c in
    elim (is_expired max_time block o) [
      | true ↦
          maintain max_time block m (set_cell o.submission_id priced cells) best
            (expired ++ hash ∷ [])
      | false ↦
          maintain max_time block m (set_cell o.submission_id d cells)
            (if is_best then best_insert (set_cell o.submission_id d cells) o best else best)
            expired
    ]

unfoldable pub do_maintenance : PoolInner → Block → PoolInner
unfolding maintain
do_maintenance s block =
    let (cells, best, expired) = maintain s.config.max_time_in_pool block s.by_hash s.cells [] [] in
    record (remove_hashes (record s { cells = cells; best = best }) expired) {
      prev_block_number = block.number;
    }
