-- ===== src/Mempool/Paymaster/Errors.antt =====
-- When the paymaster tracker refuses an operation (crates/pool/src/mempool/paymaster.rs).
use rundler.Common.{◌+◌, ◌<◌, ◌≤◌, ◌≡◌, true, some, arith, saturating_add, u256_mod}
use rundler.Common.Results.{ok, err}
use rundler.Common.HashMap.{get}
use rundler.Types.{id_eq}
use rundler.Mempool.Paymaster.{
  UserOpFees, PaymasterMetadata, paymaster_balance_too_low, LruMap, PaymasterTracker, Op,
  check_operation_cost, add_or_update_balance,
}

module _ {Map : Type 0} (lru : LruMap Map) where
  -- The check before an operation enters the pool credits the reservation of the operation that it
  -- replaces, whichever paymaster that one used; the update after it does not. So with tracking on, a
  -- replacement whose cost lies between the free balance and that balance with the old reservation
  -- passes the check and is refused by the update.
  pub replacement_passes_check_only :
      (s : PaymasterTracker Map) (po : Op) (d : PaymasterMetadata) (prev : UserOpFees)
      → s.tracker_enabled ≡ true
      → get po.id s.user_op_fees ≡ some prev
      → po.max_gas_cost < u256_mod
      → d.pending_balance < po.max_gas_cost
      → po.max_gas_cost ≤ d.pending_balance + prev.max_op_cost
      → (check_operation_cost lru s po d ≡ ok tt)
        × (add_or_update_balance lru s po d
            ≡ (s, err (paymaster_balance_too_low po.max_gas_cost d.pending_balance)))
  unfolding check_operation_cost add_or_update_balance saturating_add
  replacement_passes_check_only s po d prev on known word low high = ground arith
