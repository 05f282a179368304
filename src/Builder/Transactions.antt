-- ===== src/Builder/Transactions.antt =====
-- crates/builder/src/transaction_tracker.rs: the data of the transaction tracker. The node (EvmProvider)
-- and the transaction sender are parameters: a request gives the answer.
use rundler.Common.{ℕ, Bool, Option, List}
use rundler.Common.Results.{Result}
use rundler.Types.Gas.{GasFees}

pub data TransactionTrackerError : Type 0 where
  nonce_too_low underpriced replacement_underpriced condition_not_met rejected insufficient_funds
        other :
      TransactionTrackerError

pub data TxSenderError : Type 0 where
  underpriced replacement_underpriced nonce_too_low condition_not_met rejected soft_cancel_failed
        insufficient_funds other :
      TxSenderError

unfoldable pub from_sender : TxSenderError → TransactionTrackerError
from_sender TxSenderError.nonce_too_low = TransactionTrackerError.nonce_too_low
from_sender TxSenderError.underpriced = TransactionTrackerError.underpriced
from_sender TxSenderError.replacement_underpriced = TransactionTrackerError.replacement_underpriced
from_sender TxSenderError.condition_not_met = TransactionTrackerError.condition_not_met
from_sender TxSenderError.rejected = TransactionTrackerError.rejected
from_sender TxSenderError.insufficient_funds = TransactionTrackerError.insufficient_funds
from_sender TxSenderError.soft_cancel_failed = TransactionTrackerError.other
from_sender TxSenderError.other = TransactionTrackerError.other

pub record PendingTransaction : Type 0 where
  pub tx_hash : Option ℕ
  pub gas_fees : GasFees
  pub attempt_number : ℕ
  pub sent_at_block : Option ℕ

pub record TransactionTracker : Type 0 where
  pub replacement_fee_percent_increase : ℕ
  pub nonce : ℕ
  pub balance : ℕ
  pub transactions : List PendingTransaction
  pub has_abandoned : Bool
  pub attempt_count : ℕ

pub record TrackerState : Type 0 where
  pub nonce : ℕ
  pub balance : ℕ
  pub required_fees : Option GasFees

-- What the tracker reads of a request; `body` stands for the rest.
pub record TransactionRequest : Type 0 where
  pub nonce : Option ℕ
  pub max_fee_per_gas : Option ℕ
  pub max_priority_fee_per_gas : Option ℕ
  pub body : ℕ

pub record CancelTxInfo : Type 0 where
  pub tx_hash : ℕ
  pub soft_cancelled : Bool

pub record Receipt : Type 0 where
  pub block_number : Option ℕ
  pub gas_used : ℕ
  pub effective_gas_price : ℕ
  pub status : Bool

-- The node. The outer `none` is an error of the provider.
pub record EvmProvider : Type 0 where
  pub get_transaction_count : Option ℕ
  pub get_balance : Option ℕ
  pub get_transaction_by_hash : ℕ → Option (Option ℕ)
  pub get_transaction_receipt : ℕ → Option (Option Receipt)

pub record TransactionSender : Type 0 where
  pub send_transaction : TransactionRequest → Result TxSenderError ℕ
  pub cancel_transaction : ℕ → ℕ → GasFees → Result TxSenderError CancelTxInfo

pub record MinedTxInfo : Type 0 where
  pub block_number : ℕ
  pub gas_limit : Option ℕ
  pub gas_used : Option ℕ
  pub gas_price : Option ℕ
  pub is_success : Bool

pub data TrackerUpdate : Type 0 where
  mined : ℕ → ℕ → ℕ → MinedTxInfo → TrackerUpdate
  latest_tx_dropped : ℕ → TrackerUpdate
  nonce_used_for_other_tx : ℕ → TrackerUpdate

pub record AddressUpdate : Type 0 where
  pub nonce : Option ℕ
  pub balance : ℕ
  pub mined_tx_hashes : List ℕ
