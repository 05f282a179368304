-- ===== src/Mempool/Admission.antt =====
-- crates/pool/src/mempool/pool.rs: what an operation is checked for before it enters the pool, and how
-- it enters. The loop that keeps the pool's size has fuel: `none` is a loop that has not returned.
pub mod Examples
pub mod Indices
pub mod Resizing
pub mod Accepted
use rundler.Common.{
  ℕ, ◌+◌, suc, zero, Bool, true, false, not, ◌&&◌, ◌||◌, Option, none, some, List, [], ◌∷◌, ◌++◌,
  ltb, nat_beq, nat_eq, if◌then◌else◌, is_some, u64, length,
}
use rundler.Common.Results.{Result, ok, err, ◌>>=◌, ◌>>◌}
use rundler.Common.HashMap.{HashMap, get, insert}
use rundler.Common.HashSet.{contains}
use rundler.Utils.Math.{increase_by_percent}
use rundler.Types.{UserOperationId, id_eq}
use rundler.Types.Entity.{EntityType, Entity, account, paymaster, aggregator, factory}
use rundler.Types.Operation
use rundler.Types.Operation.{PoolOperation, UserOperation, gas_price}
use rundler.Mempool.Paymaster.{MempoolError}
use rundler.Mempool.EntityTracker.{EntityCounter, includes_non_sender, add_size, exceeds}
use rundler.Mempool.Pool.{
  PoolInner, PoolInnerConfig, OrderedPoolOperation, Cell, hash_of, id_of, mem_size, set_cell,
  best_insert, pop_last, increment_counts, remove_operation_internal, remove_operation_by_hash,
}

pub data PoolError : Type 0 where
  operation_already_known discarded_on_insert associated_storage_is_alternate_sender : PoolError
  invalid_7702_auth_signature eip_not_supported other : PoolError
  replacement_underpriced : ℕ → ℕ → PoolError
  sender_address_used_as_alternate_entity : ℕ → PoolError
  multiple_roles_violation entity_throttled : Entity → PoolError
  max_operations_reached : ℕ → Entity → PoolError
  operation_drop_too_soon : ℕ → ℕ → ℕ → PoolError
  rejected : ℕ → PoolError
  paymaster_error : MempoolError → PoolError

-- The priority fee and the fee.
unfoldable pub get_min_replacement_fees : PoolInner → UserOperation → ℕ × ℕ
get_min_replacement_fees s op = (
  increase_by_percent op.max_priority_fee_per_gas s.config.min_replacement_fee_increase_percentage,
  increase_by_percent op.max_fee_per_gas s.config.min_replacement_fee_increase_percentage,
)

unfoldable pub check_replacement : PoolInner → UserOperation → Result PoolError (Option ℕ)
unfolding get_min_replacement_fees
check_replacement s op =
    if is_some (get op.hash s.by_hash)
    then err operation_already_known
    else elim (get op.id s.by_id) [
      | none ↦ ok none
      | some o ↦
          let (priority_fee, fee) = get_min_replacement_fees s o.po.uo in
          if ltb op.max_priority_fee_per_gas priority_fee || ltb op.max_fee_per_gas fee
          then err
              (replacement_underpriced o.po.uo.max_priority_fee_per_gas o.po.uo.max_fee_per_gas)
          else ok (some (hash_of o))
    ]

-- An account may stand in other roles; the others may not be a sender.
abbrev pub must_not_be_sender : EntityType → Bool
must_not_be_sender account = false
must_not_be_sender _ = true

unfoldable pub check_roles : HashMap ℕ EntityCounter → List Entity → Result PoolError (Unit {0})
check_roles m [] = ok tt
check_roles m (e ∷ es) =
    let rest = check_roles m es in
    if must_not_be_sender e.kind
    then elim (get e.address m) [
      | none ↦ rest
      | some c ↦ if ltb 0 c.sender then err (multiple_roles_violation e) else rest
    ]
    else rest

-- STO-040.
unfoldable pub check_multiple_roles_violation :
    PoolInner → UserOperation → Result PoolError (Unit {0})
unfolding check_roles
check_multiple_roles_violation s uo =
    let rest = check_roles s.count_by_address uo.entities in
    elim (get uo.id.sender s.count_by_address) [
      | none ↦ rest
      | some c ↦
          if includes_non_sender c
          then err (sender_address_used_as_alternate_entity uo.id.sender)
          else rest
    ]

abbrev pub names_address : ℕ → List Entity → Bool
names_address address [] = false
names_address address (e ∷ es) = nat_beq address e.address || names_address address es

-- STO-041.
unfoldable pub check_associated_storage :
    PoolInner → List ℕ → UserOperation → Result PoolError (Unit {0})
check_associated_storage s [] uo = ok tt
check_associated_storage s (address ∷ addresses) uo =
    let rest = check_associated_storage s addresses uo in
    elim (get address s.count_by_address) [
      | none ↦ rest
      | some c ↦
          if ltb 0 c.sender
            && not (nat_beq address uo.id.sender)
            && names_address address uo.entities
          then err associated_storage_is_alternate_sender
          else rest
    ]

-- `valid` is the check of an authorization's signature.
unfoldable pub check_eip7702 :
    (ℕ → ℕ → Bool) → PoolInner → UserOperation → Result PoolError (Unit {0})
check_eip7702 valid s uo = elim uo.authorization_tuple [
  | none ↦ ok tt
  | some auth ↦
      if not s.config.supports_eip7702
      then err eip_not_supported
      else if valid auth uo.id.sender
      then ok tt
      else err invalid_7702_auth_signature
]

-- The inner `none` is the error of a best operation that is not in the pool.
unfoldable pub enforce_size : ℕ → PoolInner → List ℕ → Option (PoolInner × Option (List ℕ))
enforce_size zero s removed = none
enforce_size (suc fuel) s removed = elim (exceeds s.pool_size s.config.max_size_of_pool_bytes) [
  | false ↦ some (s, some removed)
  | true ↦ elim (pop_last s.best) [
    | none ↦ enforce_size fuel s removed
    | some (others, worst) ↦
        let (t, dropped) =
          remove_operation_internal (record s { best = others }) (hash_of worst) none in
        elim dropped [
          | none ↦ some (t, none)
          | some po ↦ enforce_size fuel t (removed ++ hash_of worst ∷ [])
        ]
  ]
]

-- The part of `add_operation_internal` that puts the operation into the indices.
unfoldable pub insert_operation : PoolInner → OrderedPoolOperation → PoolInner
insert_operation s o = record s {
  count_by_address = increment_counts s.count_by_address (Operation.entities o.po);
  pool_size = add_size s.pool_size (mem_size s.config o);
  by_hash = insert (hash_of o) o s.by_hash;
  by_id = insert (id_of o) o s.by_id;
  best = if (s.cells o.submission_id).eligible then best_insert s.cells o s.best else s.best;
}

abbrev pub replaced : PoolInner → Option ℕ → PoolInner
replaced s none = s
replaced s (some hash) = (remove_operation_by_hash s hash).0

-- What follows `enforce_size`.
abbrev pub after_resize :
    ℕ → Option (PoolInner × Option (List ℕ)) → Option (PoolInner × Result PoolError ℕ)
after_resize hash none = none
after_resize hash (some (s, none)) = some (s, err other)
after_resize hash (some (s, some removed)) =
    some (s, if contains hash removed then err discarded_on_insert else ok hash)

-- As much fuel as there are best operations, and one.
abbrev pub resized : PoolInner → Option (PoolInner × Option (List ℕ))
resized s = enforce_size (suc (length s.best)) s []

unfoldable pub add_operation_internal :
    PoolInner → OrderedPoolOperation → Option (PoolInner × Result PoolError ℕ)
unfolding check_replacement enforce_size
add_operation_internal s o = elim (check_replacement s o.po.uo) [
  | err e ↦ some (s, err e)
  | ok old ↦ after_resize (hash_of o) (resized (insert_operation (replaced s old) o))
]

unfoldable pub is_eligible : PoolInnerConfig → UserOperation → ℕ → Bool
is_eligible config uo required_pvg =
    if config.da_gas_tracking_enabled && config.has_da_gas_oracle
    then not (ltb uo.pre_verification_gas required_pvg)
    else true

-- The operation under the next submission id, with its cell; `now` is the time.
unfoldable pub ordered : PoolInner → PoolOperation → ℕ → OrderedPoolOperation
ordered s op now = record { po = op; submission_id = s.submission_id; insertion_time = now }

unfoldable pub with_cell : PoolInner → PoolOperation → ℕ → ℕ → PoolInner
with_cell s op base_fee required_pvg = record s {
  submission_id = u64 (s.submission_id + 1);
  cells =
      set_cell s.submission_id
        (record {
          eligible = is_eligible s.config op.uo required_pvg;
          gas_price = gas_price op.uo base_fee;
          time_to_mine = some s.prev_block_number;
        })
        s.cells;
}

unfoldable pub add_operation :
    PoolInner → PoolOperation → ℕ → ℕ → ℕ → Option (PoolInner × Result PoolError ℕ)
unfolding add_operation_internal
add_operation s op base_fee required_pvg now =
    add_operation_internal (with_cell s op base_fee required_pvg) (ordered s op now)
