-- ===== src/Mempool/Calls.antt =====
-- crates/pool/src/mempool/pool.rs: a history of the pool, as the calls that mempool/uo_pool.rs makes on
-- it in the order in which they take its lock. `none` is a call that has not returned.
pub mod Indices
pub mod Examples
use rundler.Common.{
  ℕ, ◌+◌, ◌≡◌, ap, inl, inr, arith, Option, none, some, some_inj, Option-cases, List, [], ◌∷◌, ◌++◌,
  ◌>>=◌,
}
use rundler.Types.Entity.{Entity}
use rundler.Types.Operation.{PoolOperation}
use rundler.Mempool.Paymaster.{MinedOp}
use rundler.Mempool.Pool.{PoolInner, remove_operation_by_hash}
use rundler.Mempool.Admission.{add_operation}
use rundler.Mempool.Upkeep.{
  Block, mine_operation, unmine_operation, throttle_entity, remove_entity,
  forget_mined_operations_before_block, clear, preconfirm_txns, preconfirm_txns_at_block_number,
  remove_out_of_date_preconfirmed_uos, do_maintenance,
}

-- The fields of `add_operation` are the operation, the base fee, the verification gas that it needs and
-- the time.
pub data Call : Type 0 where
  add : PoolOperation → ℕ → ℕ → ℕ → Call
  remove_by_hash : ℕ → Call
  mine : MinedOp → ℕ → Call
  unmine : ℕ → Call
  throttle : Entity → ℕ → Call
  remove_using : Entity → Call
  forget_mined : ℕ → Call
  clear_all : Call
  preconfirm : List (ℕ × List ℕ) → Call
  preconfirm_at : List (ℕ × List ℕ) → ℕ → Call
  remove_out_of_date : ℕ → Call
  on_block : Block → Call

unfoldable pub step : PoolInner → Call → Option PoolInner
step s (Call.add op base_fee required_pvg now) =
    add_operation s op base_fee required_pvg now >>= λ r. some r.0
step s (Call.remove_by_hash hash) = some (remove_operation_by_hash s hash).0
step s (Call.mine mined_op block_number) = some (mine_operation s mined_op block_number).0
step s (Call.unmine hash) = unmine_operation s hash >>= λ r. some r.0
step s (Call.throttle entity block_number) = some (throttle_entity s entity block_number).0
step s (Call.remove_using entity) = some (remove_entity s entity).0
step s (Call.forget_mined block_number) = some (forget_mined_operations_before_block s block_number)
step s Call.clear_all = some (clear s)
step s (Call.preconfirm txns) = some (preconfirm_txns s txns)
step s (Call.preconfirm_at txns block_number) =
    some (preconfirm_txns_at_block_number s txns block_number)
step s (Call.remove_out_of_date block_number) =
    some (remove_out_of_date_preconfirmed_uos s block_number)
step s (Call.on_block block) = some (do_maintenance s block)

unfoldable pub run : PoolInner → List Call → Option PoolInner
unfolding step
run s [] = some s
run s (call ∷ calls) = step s call >>= λ t. run t calls

-- How many of the calls take a submission id.
abbrev pub takes_id : Call → ℕ
takes_id (Call.add _ _ _ _) = 1
takes_id _ = 0

abbrev pub ids_taken : List Call → ℕ
ids_taken [] = 0
ids_taken (call ∷ calls) = takes_id call + ids_taken calls

pub run-append :
    (calls more : List Call) (s t : PoolInner)
    → run s calls ≡ some t
    → run s (calls ++ more) ≡ run t more
unfolding run
run-append [] more s t h = ap (λ (u : PoolInner). run u more) (some_inj h)
run-append (call ∷ calls) more s t h = elim (Option-cases (step s call)) [
  | inl q ↦ absurd (ground arith)
  | inr (u, q) ↦
      let e : run u calls ≡ some t = ground arith in rw (run, q) (run-append calls more u t e)
]
