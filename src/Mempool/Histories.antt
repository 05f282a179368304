-- ===== src/Mempool/Histories.antt =====
-- crates/pool/src/mempool/uo_pool.rs: a history of UoPool, as the calls on it one after the other.
pub mod Refinement
pub mod Blocks
pub mod Submitted
pub mod Served
pub mod Examples
use rundler.Common.{ℕ, Bool, Option, none, some, List, [], ◌∷◌, ◌>>=◌}
use rundler.Types.{UserOperationId}
use rundler.Types.Operation.{UserOperation, UserOperationPermissions}
use rundler.Mempool.Paymaster.{LruMap}
use rundler.Mempool.Paymaster.Tracker.{EntryPoint}
use rundler.Mempool.ChainUpdate.{ChainUpdate}
use rundler.Mempool.UoPool.{UoPool, Answers, on_chain_update}
use rundler.Mempool.Requests.{
  EntityUpdate, remove_operations, remove_op_by_id, update_entity, clear_state, set_tracking,
  set_reputation, reset_confirmed_paymaster_balances,
}
use rundler.Mempool.Screening.{Providers}
use rundler.Mempool.Submission.{add_operation}

pub data UoCall : Type 0 where
  chain : ChainUpdate → Answers → UoCall
  submit : Providers → UserOperation → UserOperationPermissions → UoCall
  drop_hashes : List ℕ → UoCall
  drop_id : UserOperationId → UoCall
  sanctions : EntityUpdate → UoCall
  clears : Bool → Bool → Bool → UoCall
  tracks : Bool → Bool → UoCall
  sets_reputation : ℕ → ℕ → ℕ → UoCall
  resets_balances : UoCall

module _ {Map : Type 0} (lru : LruMap Map) (ep : EntryPoint) where
  unfoldable pub uo_step : UoPool Map → UoCall → Option (UoPool Map)
  uo_step s (chain update answers) = on_chain_update lru ep s update answers
  uo_step s (submit providers op perms) =
      add_operation lru ep providers s op perms >>= λ r. some r.0
  uo_step s (drop_hashes hashes) = some (remove_operations lru ep s hashes)
  uo_step s (drop_id id) = some (remove_op_by_id lru ep s id).0
  uo_step s (sanctions update) = update_entity lru ep s update
  uo_step s (clears pool paymaster reputation) =
      some (clear_state lru ep s pool paymaster reputation)
  uo_step s (tracks paymaster reputation) = some (set_tracking lru ep s paymaster reputation)
  uo_step s (sets_reputation address seen included) =
      some (set_reputation lru ep s address seen included)
  uo_step s resets_balances = reset_confirmed_paymaster_balances lru ep s

  unfoldable pub uo_run : UoPool Map → List UoCall → Option (UoPool Map)
  unfolding uo_step
  uo_run s [] = some s
  uo_run s (call ∷ calls) = uo_step s call >>= λ t. uo_run t calls
