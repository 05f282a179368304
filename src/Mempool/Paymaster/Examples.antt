-- ===== src/Mempool/Paymaster/Examples.antt =====
-- Tests of the paymaster tracker, and its theorems at concrete inputs, over a bounded cache.
use rundler.Common.{◌≡◌, refl, true, none, some, [], ◌∷◌, arith, nat_eq, saturating_add}
use rundler.Common.Results.{ok, err}
use rundler.Common.HashMap.{get, insert, remove}
use rundler.Common.HashMap.Values.{sum_values}
use rundler.Types.{UserOperationId, id_eq}
use rundler.Mempool.Paymaster.{
  PaymasterMetadata, paymaster_balance_too_low, PaymasterTracker, Op, new, check_operation_cost,
  add_or_update_balance, is_user_op_replacement, add_new_user_op, add_new_paymaster,
  pending_balance, paymaster_exists, paymaster_metadata,
}
use rundler.Mempool.Paymaster.Cache.{Bounded, bounded}
use rundler.Mempool.Paymaster.Errors.{replacement_passes_check_only}
use rundler.Mempool.Paymaster.Ledger.{IsBalanced}
use rundler.Mempool.Paymaster.History.{Reach, here, next, adds, Reach-IsBalanced}
use rundler.Mempool.Paymaster.Solvency.{IsSolvent, add_or_update_balance-IsSolvent}
use rundler.Mempool.Paymaster.Tracker.{
  EntryPoint, paymaster_balance, add_or_update_balance_of, paymaster_balance-idempotent,
}

abbrev op_id : UserOperationId
op_id = record { sender = 1; nonce = 0 }

abbrev op : Op
op = record { id = op_id; paymaster = some 77; max_gas_cost = 60 }

abbrev dearer : Op
dearer = record { id = op_id; paymaster = some 77; max_gas_cost = 80 }

-- Paymaster 77 has 100 on chain and 60 of it reserved for `op`.
abbrev holding : PaymasterTracker Bounded
holding = record {
  user_op_fees = (op_id, record { paymaster = 77; max_op_cost = 60 }) ∷ [];
  paymaster_balances = record {
    capacity = 8;
    entries = (77, record { pending = 60; confirmed = 100 }) ∷ [];
  };
  tracker_enabled = true;
}

abbrev metadata : PaymasterMetadata
metadata = record { address = 77; confirmed_balance = 100; pending_balance = 40 }

abbrev entry_point : EntryPoint
entry_point = record {
  get_deposit_info = λ a. none;
  balance_of = λ a. some 100;
  get_balances = λ xs. none;
}

abbrev silent : EntryPoint
silent = record { get_deposit_info = λ a. none; balance_of = λ a. none; get_balances = λ xs. none }

add_test : (add_or_update_balance_of bounded entry_point (new bounded true 8) op).0 ≡ holding
unfolding add_or_update_balance_of paymaster_balance paymaster_exists new add_new_paymaster
    add_or_update_balance is_user_op_replacement add_new_user_op get insert remove saturating_add
add_test = refl

-- The operation that passes the check and is refused by the update.
replacement_passes_check_only_example :
    (check_operation_cost bounded holding dearer metadata ≡ ok tt)
    × (add_or_update_balance bounded holding dearer metadata
        ≡ (holding, err (paymaster_balance_too_low 80 40)))
unfolding get
replacement_passes_check_only_example =
    replacement_passes_check_only bounded holding dearer metadata
      (record { paymaster = 77; max_op_cost = 60 }) refl refl (omega arith) (omega arith)
      (omega arith)

holding_history :
    Reach bounded
      (new bounded true 8)
      (add_or_update_balance bounded
        (new bounded true 8)
        op
        (record { address = 77; confirmed_balance = 100; pending_balance = 100 })).0
unfolding new sum_values
holding_history = next here (adds _ op _ refl (omega arith))

Reach-IsBalanced_example :
    IsBalanced bounded
      (add_or_update_balance bounded
        (new bounded true 8)
        op
        (record { address = 77; confirmed_balance = 100; pending_balance = 100 })).0
Reach-IsBalanced_example = Reach-IsBalanced bounded true 8 _ holding_history

holding-IsSolvent : IsSolvent bounded holding
unfolding get
holding-IsSolvent p = ground arith

add_or_update_balance-IsSolvent_example :
    IsSolvent bounded (add_or_update_balance_of bounded entry_point holding dearer).0
add_or_update_balance-IsSolvent_example =
    add_or_update_balance-IsSolvent bounded entry_point holding dearer refl refl holding-IsSolvent

paymaster_balance-idempotent_example :
    paymaster_balance bounded silent holding 77 ≡ (holding, ok metadata)
unfolding paymaster_balance paymaster_exists paymaster_metadata pending_balance get
paymaster_balance-idempotent_example =
    paymaster_balance-idempotent bounded entry_point silent holding holding 77 metadata refl refl
