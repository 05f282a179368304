-- ===== src/Builder/Tracker/Examples.antt =====
-- Tests of the transaction tracker, and its theorems at concrete inputs.
use rundler.Common.{◌≤◌, ◌≡◌, refl, true, false, none, some, [], ◌∷◌, arith}
use rundler.Common.Results.{ok, err}
use rundler.Types.Gas.{increase_by_percent}
use rundler.Utils.Math.{increase_by_percent_ceil}
use rundler.Builder.Tracker.{
  TransactionTracker, PendingTransaction, TransactionRequest, TransactionSender,
  TransactionTrackerError, EvmProvider, AddressUpdate, fees_of, send_transaction,
  validate_transaction, get_state, required_fees, cancellation,
}
use rundler.Builder.Tracker.Sending.{Raised, send_transaction-Raised, cancellation-Raised}

abbrev first : PendingTransaction
first = record {
  tx_hash = some 77;
  gas_fees = record { max_fee_per_gas = 105; max_priority_fee_per_gas = 11 };
  attempt_number = 0;
  sent_at_block = some 9;
}

abbrev refused : PendingTransaction
refused = record {
  tx_hash = none;
  gas_fees = record { max_fee_per_gas = 120; max_priority_fee_per_gas = 14 };
  attempt_number = 1;
  sent_at_block = none;
}

abbrev tracker : TransactionTracker
tracker = record {
  replacement_fee_percent_increase = 10;
  nonce = 5;
  balance = 1000;
  transactions = first ∷ [];
  has_abandoned = false;
  attempt_count = 1;
}

-- The newest transaction was refused.
abbrev retried : TransactionTracker
retried = record tracker { transactions = refused ∷ first ∷ [] }

abbrev request : TransactionRequest
request = record {
  nonce = some 5;
  max_fee_per_gas = some 116;
  max_priority_fee_per_gas = some 13;
  body = 0;
}

abbrev cheap : TransactionRequest
cheap = record request { max_fee_per_gas = some 115 }

abbrev sender : TransactionSender
sender = record {
  send_transaction = λ tx. ok 78;
  cancel_transaction = λ h n f. ok (record { tx_hash = 79; soft_cancelled = false });
}

abbrev node : EvmProvider
node = record {
  get_transaction_count = some 5;
  get_balance = some 1000;
  get_transaction_by_hash = λ h. some (some 21000);
  get_transaction_receipt = λ h. some (
      some (record {
        block_number = some 12;
        gas_used = 20000;
        effective_gas_price = 100;
        status = true;
      }));
}

abbrev news : AddressUpdate
news = record { nonce = some 5; balance = 900; mined_tx_hashes = 77 ∷ [] }

cheap_test : send_transaction sender tracker cheap 10 ≡ (tracker, err TransactionTrackerError.other)
unfolding send_transaction validate_transaction get_state required_fees increase_by_percent
    increase_by_percent_ceil
cheap_test = refl

sent_test : (send_transaction sender tracker request 10).1 ≡ ok 78
unfolding send_transaction validate_transaction get_state required_fees increase_by_percent
    increase_by_percent_ceil
sent_test = refl

send_transaction-Raised_example :
    (request.nonce ≡ some tracker.nonce) × Raised 10 first.gas_fees (fees_of request)
send_transaction-Raised_example =
    send_transaction-Raised sender tracker request 10 78 first [] refl refl
      ((omega arith, omega arith), (omega arith, omega arith)) sent_test

cancellation-Raised_example :
    let (target, cancel_fees) =
      cancellation retried (record { max_fee_per_gas = 200; max_priority_fee_per_gas = 1 }) in
    (target ≡ 77)
    × Raised 10 first.gas_fees cancel_fees
    × (200 ≤ cancel_fees.max_fee_per_gas)
    × (1 ≤ cancel_fees.max_priority_fee_per_gas)
cancellation-Raised_example =
    cancellation-Raised retried (record { max_fee_per_gas = 200; max_priority_fee_per_gas = 1 })
      (refused ∷ []) [] first 77 refl (refl, tt) refl
      ((omega arith, omega arith), (omega arith, omega arith))
