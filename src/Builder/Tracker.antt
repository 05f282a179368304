-- ===== src/Builder/Tracker.antt =====
-- crates/builder/src/transaction_tracker.rs: the transactions that a builder has sent for its nonce.
-- `transactions` is newest first, so that a push is a cons, `last` is the head and `iter().rev()` runs
-- along the list. The node (EvmProvider) and the transaction sender are parameters: a request gives the
-- answer. Metrics, logs and the time of sending, which only metrics read, are left out.
pub mod Sending
pub mod Updates
pub mod Examples
use rundler.Common.{
  ℕ, ◌+◌, max, Bool, true, false, not, ◌&&◌, ◌||◌, Option, none, some, List, [], ◌∷◌, ltb, nat_beq,
  nat_eq, if◌then◌else◌, is_some, get_or, u64,
}
use rundler.Common.Results.{Result, ok, err}
use rundler.Common.HashSet.{contains}
use rundler.Types.Gas.{GasFees, increase_by_percent}
pub use rundler.Builder.Transactions.{
  TransactionTrackerError, TxSenderError, PendingTransaction, TransactionTracker, TrackerState,
  TransactionRequest, CancelTxInfo, Receipt, EvmProvider, TransactionSender, MinedTxInfo,
  TrackerUpdate, mined, latest_tx_dropped, nonce_used_for_other_tx, AddressUpdate,
}
unfoldable pub use rundler.Builder.Transactions.{from_sender}

unfoldable pub set_nonce_and_clear_state : TransactionTracker → ℕ → TransactionTracker
set_nonce_and_clear_state s nonce = record s {
  nonce = nonce;
  transactions = [];
  attempt_count = 0;
  has_abandoned = false;
}

unfoldable pub reset : EvmProvider → TransactionTracker → TransactionTracker
unfolding set_nonce_and_clear_state
reset p s = elim p.get_transaction_count [
  | none ↦ set_nonce_and_clear_state s s.nonce
  | some count ↦ elim p.get_balance [
    | none ↦ set_nonce_and_clear_state s s.nonce
    | some balance ↦ record (set_nonce_and_clear_state s count) { balance = balance }
  ]
]

unfoldable pub new : EvmProvider → ℕ → TransactionTracker
unfolding reset
new p percent = reset p (record {
  replacement_fee_percent_increase = percent;
  nonce = 0;
  balance = 0;
  transactions = [];
  has_abandoned = false;
  attempt_count = 0;
})

unfoldable pub required_fees : TransactionTracker → Option GasFees
required_fees s = if s.has_abandoned then none else elim s.transactions [
  | [] ↦ none
  | tx ∷ txs ↦ some (increase_by_percent tx.gas_fees s.replacement_fee_percent_increase)
]

unfoldable pub get_state : TransactionTracker → TrackerState
unfolding required_fees
get_state s = record { nonce = s.nonce; balance = s.balance; required_fees = required_fees s }

unfoldable pub num_pending : List PendingTransaction → ℕ
num_pending [] = 0
num_pending (tx ∷ txs) = let rest = num_pending txs in if is_some tx.tx_hash then rest + 1 else rest

unfoldable pub num_pending_transactions : TransactionTracker → ℕ
unfolding num_pending
num_pending_transactions s = num_pending s.transactions

abbrev pub fees_of : TransactionRequest → GasFees
fees_of tx = record {
  max_fee_per_gas = get_or tx.max_fee_per_gas 0;
  max_priority_fee_per_gas = get_or tx.max_priority_fee_per_gas 0;
}

abbrev pub below_required : GasFees → Option GasFees → Bool
below_required f none = false
below_required f (some r) =
    ltb f.max_fee_per_gas r.max_fee_per_gas
    || ltb f.max_priority_fee_per_gas r.max_priority_fee_per_gas

-- `validate_transaction`: whether the request may be sent.
unfoldable pub validate_transaction : TransactionTracker → TransactionRequest → Bool
validate_transaction s tx = elim tx.nonce [
  | none ↦ false
  | some nonce ↦
      nat_beq nonce (get_state s).nonce
      && not (below_required (fees_of tx) (get_state s).required_fees)
]

abbrev pub exceeds_last : GasFees → List PendingTransaction → Bool
exceeds_last f [] = true
exceeds_last f (t ∷ ts) =
    ltb t.gas_fees.max_fee_per_gas f.max_fee_per_gas
    && ltb t.gas_fees.max_priority_fee_per_gas f.max_priority_fee_per_gas

-- A transaction that was refused as underpriced is stored if its fees are above the last one's.
unfoldable pub store_underpriced : TransactionTracker → GasFees → List PendingTransaction
store_underpriced s fees =
    if exceeds_last fees s.transactions
    then record {
      tx_hash = none;
      gas_fees = fees;
      attempt_number = s.attempt_count;
      sent_at_block = none;
    }
      ∷ s.transactions
    else s.transactions

abbrev pub is_underpriced : TxSenderError → Bool
is_underpriced TxSenderError.underpriced = true
is_underpriced TxSenderError.replacement_underpriced = true
is_underpriced _ = false

unfoldable pub send_transaction :
    TransactionSender
    → TransactionTracker
    → TransactionRequest
    → ℕ
    → TransactionTracker × Result TransactionTrackerError ℕ
unfolding from_sender
send_transaction sender s tx block_number =
    if not (validate_transaction s tx)
    then (s, err TransactionTrackerError.other)
    else elim (sender.send_transaction tx) [
      | ok tx_hash ↦ (
        record s {
          transactions =
              record {
                tx_hash = some tx_hash;
                gas_fees = fees_of tx;
                attempt_number = s.attempt_count;
                sent_at_block = some block_number;
              }
              ∷ s.transactions;
          has_abandoned = false;
          attempt_count = u64 (s.attempt_count + 1);
        },
        ok tx_hash,
      )
      | err e ↦
          if is_underpriced e
          then (
            record s {
              transactions = store_underpriced s (fees_of tx);
              has_abandoned = false;
              attempt_count = u64 (s.attempt_count + 1);
            },
            err (from_sender e),
          )
          else (s, err (from_sender e))
    ]

-- The newest transaction that has a hash, with its fees.
unfoldable pub last_sent : List PendingTransaction → Option (ℕ × GasFees)
last_sent [] = none
last_sent (tx ∷ txs) =
    let rest = last_sent txs in
    elim tx.tx_hash [ none ↦ rest | some tx_hash ↦ some (tx_hash, tx.gas_fees) ]

-- The hash and the fees of the cancellation.
unfoldable pub cancellation : TransactionTracker → GasFees → ℕ × GasFees
unfolding last_sent
cancellation s estimated = elim (last_sent s.transactions) [
  | none ↦ (0, estimated)
  | some (tx_hash, fees) ↦
      let increased = increase_by_percent fees s.replacement_fee_percent_increase in
      (
        tx_hash,
        record {
          max_fee_per_gas = max increased.max_fee_per_gas estimated.max_fee_per_gas;
          max_priority_fee_per_gas =
              max increased.max_priority_fee_per_gas estimated.max_priority_fee_per_gas;
        },
      )
]

unfoldable pub cancel_transaction :
    EvmProvider
    → TransactionSender
    → TransactionTracker
    → GasFees
    → TransactionTracker × Result TransactionTrackerError (Option ℕ)
unfolding from_sender
cancel_transaction p sender s estimated =
    let (tx_hash, gas_fees) = cancellation s estimated in
    elim (sender.cancel_transaction tx_hash s.nonce gas_fees) [
      | ok info ↦ if info.soft_cancelled then (reset p s, ok none) else (
        record s {
          transactions =
              record {
                tx_hash = some info.tx_hash;
                gas_fees = gas_fees;
                attempt_number = s.attempt_count;
                sent_at_block = none;
              }
              ∷ s.transactions;
          attempt_count = u64 (s.attempt_count + 1);
        },
        ok (some info.tx_hash),
      )
      | err e ↦
          if is_underpriced e
          then (
            record s { transactions = store_underpriced s gas_fees },
            err TransactionTrackerError.replacement_underpriced,
          )
          else (s, err (from_sender e))
    ]

-- The outer `none` is an error of the provider, the inner one a missing receipt.
unfoldable pub get_mined_tx_info : EvmProvider → ℕ → Option (Option MinedTxInfo)
get_mined_tx_info p tx_hash = elim (p.get_transaction_by_hash tx_hash) [
  | none ↦ none
  | some gas_limit ↦ elim (p.get_transaction_receipt tx_hash) [
    | none ↦ none
    | some none ↦ some none
    | some (some r) ↦ some (
        some (record {
          block_number = get_or r.block_number 0;
          gas_limit = gas_limit;
          gas_used = some r.gas_used;
          gas_price = some r.effective_gas_price;
          is_success = r.status;
        }))
  ]
]

-- The loop of `process_update`: `out` is replaced by each transaction found mined, and so the oldest
-- one counts.
unfoldable pub find_mined :
    EvmProvider → List ℕ → ℕ → TrackerUpdate → List PendingTransaction → Option TrackerUpdate
find_mined p hashes nonce out [] = some out
find_mined p hashes nonce out (tx ∷ txs) =
    let skip = find_mined p hashes nonce out txs in
    elim tx.tx_hash [
      | none ↦ skip
      | some tx_hash ↦
          if contains tx_hash hashes
          then elim (get_mined_tx_info p tx_hash) [
            | none ↦ none
            | some none ↦ skip
            | some (some info) ↦
                find_mined p hashes nonce (mined tx_hash nonce tx.attempt_number info) txs
          ]
          else skip
    ]

unfoldable pub process_update :
    EvmProvider
    → TransactionTracker
    → AddressUpdate
    → TransactionTracker × Result TransactionTrackerError (Option TrackerUpdate)
unfolding set_nonce_and_clear_state
process_update p s update =
    let t : TransactionTracker = record s { balance = update.balance } in
    elim update.nonce [
      | none ↦ (t, ok none)
      | some update_nonce ↦
          if ltb s.nonce update_nonce || nat_beq s.nonce update_nonce
          then elim (find_mined p update.mined_tx_hashes s.nonce (nonce_used_for_other_tx s.nonce)
              s.transactions) [
                | none ↦ (t, err TransactionTrackerError.other)
                | some out ↦ (set_nonce_and_clear_state t (u64 (update_nonce + 1)), ok (some out))
              ]
          else (t, ok none)
    ]

unfoldable pub abandon : TransactionTracker → TransactionTracker
abandon s = record s { has_abandoned = true; attempt_count = 0 }

unfoldable pub unabandon : TransactionTracker → TransactionTracker
unabandon s = record s { has_abandoned = false }
