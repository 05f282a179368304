-- ===== src/Mempool/Pool.antt =====
-- crates/pool/src/mempool/pool.rs: PoolInner, the user operations of an entry point with their indices.
-- An `Arc<OrderedPoolOperation>` is a record, and its locks are the cell of its submission id, which no
-- other operation shares: so what is written through one index is seen through the others. Metrics,
-- events and the always empty map `time_to_mine` are left out; times are numbers of seconds.
pub mod Best
pub mod Stored
pub mod Removed
use rundler.Common.{
  ℕ, ◌+◌, ◌-◌, suc, zero, Bool, true, false, not, ◌&&◌, ◌||◌, Option, none, some, List, [], ◌∷◌,
  ◌++◌, map, ltb, leb, nat_beq, nat_eq, if◌then◌else◌, is_some, get_or, u64, length,
}
use rundler.Common.Int.{ℤ, pos}
use rundler.Common.HashMap.{HashMap, get, insert, remove}
use rundler.Types.{UserOperationId, id_eq}
use rundler.Types.Gas.{GasFees}
use rundler.Types.Entity.{Entity}
use rundler.Types.Operation
use rundler.Types.Operation.{PoolOperation, UserOperation}
use rundler.Mempool.EntityTracker.{
  EntityCounter, no_entities, total, increment_entity_count, decrement_entity_count, add_size,
  sub_size,
}

-- `op_bytes` is the size of the two structs of a stored operation.
pub record PoolInnerConfig : Type 0 where
  pub max_size_of_pool_bytes : ℕ
  pub min_replacement_fee_increase_percentage : ℕ
  pub throttled_entity_mempool_count : ℕ
  pub throttled_entity_live_blocks : ℕ
  pub da_gas_tracking_enabled : Bool
  pub has_da_gas_oracle : Bool
  pub max_time_in_pool : Option ℕ
  pub supports_eip7702 : Bool
  pub op_bytes : ℕ

pub record OrderedPoolOperation : Type 0 where
  pub po : PoolOperation
  pub submission_id : ℕ
  pub insertion_time : ℕ

-- The fields behind locks. `time_to_mine` is the block at which the operation came.
pub record Cell : Type 0 where
  pub eligible : Bool
  pub gas_price : ℕ
  pub time_to_mine : Option ℕ

pub record PoolInner : Type 0 where
  pub config : PoolInnerConfig
  pub by_hash : HashMap ℕ OrderedPoolOperation
  pub by_id : HashMap UserOperationId OrderedPoolOperation
  pub best : List OrderedPoolOperation
  pub cells : ℕ → Cell
  pub mined_at_block_number_by_hash : HashMap ℕ (OrderedPoolOperation × ℕ)
  pub mined_hashes_with_block_numbers : List (ℕ × ℕ)
  pub preconfirmed_uos_bundle_mapping : HashMap ℕ ℕ
  pub preconfirmed_uos_at_block_number : HashMap ℕ (List ℕ)
  pub count_by_address : HashMap ℕ EntityCounter
  pub submission_id : ℕ
  pub pool_size : ℤ
  pub cache_size : ℤ
  pub prev_block_number : ℕ

abbrev pub empty_cell : Cell
empty_cell = record { eligible = false; gas_price = 0; time_to_mine = none }

unfoldable pub new : PoolInnerConfig → PoolInner
new config = record {
  config = config;
  by_hash = [];
  by_id = [];
  best = [];
  cells = λ i. empty_cell;
  mined_at_block_number_by_hash = [];
  mined_hashes_with_block_numbers = [];
  preconfirmed_uos_bundle_mapping = [];
  preconfirmed_uos_at_block_number = [];
  count_by_address = [];
  submission_id = 0;
  pool_size = pos 0;
  cache_size = pos 0;
  prev_block_number = 0;
}

abbrev pub hash_of : OrderedPoolOperation → ℕ
hash_of o = o.po.uo.hash

abbrev pub id_of : OrderedPoolOperation → UserOperationId
id_of o = o.po.uo.id

abbrev pub mem_size : PoolInnerConfig → OrderedPoolOperation → ℕ
mem_size config o = Operation.mem_size config.op_bytes o.po

unfoldable pub set_cell : ℕ → Cell → (ℕ → Cell) → ℕ → Cell
set_cell i c cells j = if nat_beq i j then c else cells j

-- `cmp` of the stored operations: less where the gas price is higher, then where the id is lower.
abbrev pub comes_before : (ℕ → Cell) → OrderedPoolOperation → OrderedPoolOperation → Bool
comes_before cells a b =
    let p = (cells a.submission_id).gas_price in
    let q = (cells b.submission_id).gas_price in
    ltb q p || (nat_beq p q && ltb a.submission_id b.submission_id)

abbrev pub compares_equal : (ℕ → Cell) → OrderedPoolOperation → OrderedPoolOperation → Bool
compares_equal cells a b =
    nat_beq (cells a.submission_id).gas_price (cells b.submission_id).gas_price
    && nat_beq a.submission_id b.submission_id

-- `BTreeSet::insert`, which keeps an equal element, `remove` and `pop_last`, on a sorted list.
unfoldable pub best_insert :
    (ℕ → Cell) → OrderedPoolOperation → List OrderedPoolOperation → List OrderedPoolOperation
best_insert cells o [] = o ∷ []
best_insert cells o (x ∷ xs) =
    if comes_before cells o x
    then o ∷ x ∷ xs
    else if compares_equal cells o x
    then x ∷ xs
    else x ∷ best_insert cells o xs

unfoldable pub best_remove :
    (ℕ → Cell) → OrderedPoolOperation → List OrderedPoolOperation → List OrderedPoolOperation
best_remove cells o [] = []
best_remove cells o (x ∷ xs) =
    let rest = best_remove cells o xs in if compares_equal cells o x then xs else x ∷ rest

unfoldable pub pop_last {ℓ} : {A : Type ℓ} → List A → Option (List A × A)
pop_last [] = none
pop_last (x ∷ xs) = elim (pop_last xs) [ none ↦ some ([], x) | some (ys, y) ↦ some (x ∷ ys, y) ]

-- The set of blocks and hashes, sorted.
unfoldable pub mined_insert : ℕ → ℕ → List (ℕ × ℕ) → List (ℕ × ℕ)
mined_insert b h [] = (b, h) ∷ []
mined_insert b h ((c, g) ∷ xs) =
    if ltb b c || (nat_beq b c && ltb h g)
    then (b, h) ∷ (c, g) ∷ xs
    else if nat_beq b c && nat_beq h g
    then (c, g) ∷ xs
    else (c, g) ∷ mined_insert b h xs

unfoldable pub mined_remove : ℕ → ℕ → List (ℕ × ℕ) → List (ℕ × ℕ)
mined_remove b h [] = []
mined_remove b h ((c, g) ∷ xs) =
    let rest = mined_remove b h xs in if nat_beq b c && nat_beq h g then rest else (c, g) ∷ rest

unfoldable pub address_count : PoolInner → ℕ → ℕ
address_count s address = elim (get address s.count_by_address) [ none ↦ 0 | some c ↦ total c ]

unfoldable pub get_operation_by_hash : PoolInner → ℕ → Option PoolOperation
get_operation_by_hash s hash = elim (get hash s.by_hash) [ none ↦ none | some o ↦ some o.po ]

unfoldable pub get_operation_by_id : PoolInner → UserOperationId → Option PoolOperation
get_operation_by_id s id = elim (get id s.by_id) [ none ↦ none | some o ↦ some o.po ]

unfoldable pub best_operations : PoolInner → List PoolOperation
best_operations s = map (λ o. o.po) s.best

unfoldable pub all_operations : PoolInner → List PoolOperation
all_operations s = map (λ e. e.1.po) s.by_hash

-- The loops over an operation's entities.
unfoldable pub increment_counts : HashMap ℕ EntityCounter → List Entity → HashMap ℕ EntityCounter
increment_counts m [] = m
increment_counts m (e ∷ es) =
    increment_counts
      (insert e.address (increment_entity_count (get_or (get e.address m) no_entities) e.kind) m) es

unfoldable pub decrement_address_count : HashMap ℕ EntityCounter → Entity → HashMap ℕ EntityCounter
decrement_address_count m e = elim (get e.address m) [
  | none ↦ m
  | some c ↦
      let d = decrement_entity_count c e.kind in
      if nat_beq (total d) 0 then remove e.address m else insert e.address d m
]

unfoldable pub decrement_counts : HashMap ℕ EntityCounter → List Entity → HashMap ℕ EntityCounter
decrement_counts m [] = m
decrement_counts m (e ∷ es) = decrement_counts (decrement_address_count m e) es

-- What `remove_operation_internal` keeps of an operation that was mined.
unfoldable pub remember_mined : ℕ → OrderedPoolOperation → Option ℕ → PoolInner → PoolInner
remember_mined hash o none s = s
remember_mined hash o (some block_number) s = record s {
  cache_size = add_size s.cache_size (mem_size s.config o);
  mined_at_block_number_by_hash = insert hash (o, block_number) s.mined_at_block_number_by_hash;
  mined_hashes_with_block_numbers =
      mined_insert block_number hash s.mined_hashes_with_block_numbers;
}

-- The rest of `remove_operation_internal` once the operation is found.
unfoldable pub drop_operation : PoolInner → ℕ → OrderedPoolOperation → PoolInner
drop_operation s hash o = record s {
  by_hash = remove hash s.by_hash;
  by_id = remove (id_of o) s.by_id;
  best = best_remove s.cells o s.best;
  count_by_address = decrement_counts s.count_by_address (Operation.entities o.po);
  preconfirmed_uos_bundle_mapping = remove hash s.preconfirmed_uos_bundle_mapping;
  pool_size = sub_size s.pool_size (mem_size s.config o);
}

unfoldable pub remove_operation_internal :
    PoolInner → ℕ → Option ℕ → PoolInner × Option PoolOperation
remove_operation_internal s hash block_number = elim (get hash s.by_hash) [
  | none ↦ (s, none)
  | some o ↦ (remember_mined hash o block_number (drop_operation s hash o), some o.po)
]

unfoldable pub remove_operation_by_hash : PoolInner → ℕ → PoolInner × Option PoolOperation
remove_operation_by_hash s hash = remove_operation_internal s hash none

-- A loop that removes each of a list of hashes.
unfoldable pub remove_hashes : PoolInner → List ℕ → PoolInner
remove_hashes s [] = s
remove_hashes s (hash ∷ hashes) = remove_hashes (remove_operation_internal s hash none).0 hashes
