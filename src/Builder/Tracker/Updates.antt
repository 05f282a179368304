-- ===== src/Builder/Tracker/Updates.antt =====
-- `process_update` of crates/builder/src/transaction_tracker.rs: what it reports, and what it does to the
-- tracker.
use rundler.Common.{
  ℕ, ◌+◌, ◌<◌, ◌≡◌, ◌⊎◌, Bool, true, false, ◌&&◌, none, some, List, [], ◌∷◌, nat_eq, is_some,
  get_or, All,
}
use rundler.Common.HashSet.{contains}
use rundler.Builder.Tracker.{
  TransactionTracker, PendingTransaction, EvmProvider, AddressUpdate, TrackerUpdate, MinedTxInfo,
  mined, nonce_used_for_other_tx, get_mined_tx_info,
}

-- The transaction is one that the update says is mined, and the node has its receipt.
abbrev pub is_mined : EvmProvider → List ℕ → PendingTransaction → Bool
is_mined p hashes tx = elim tx.tx_hash [
  | none ↦ false
  | some tx_hash ↦ contains tx_hash hashes && is_some (get_or (get_mined_tx_info p tx_hash) none)
]

-- The update reports the transaction.
abbrev pub Reports : EvmProvider → ℕ → TrackerUpdate → PendingTransaction → Type 0
Reports p nonce u tx =
    (tx_hash : ℕ) × (info : MinedTxInfo) × (tx.tx_hash ≡ some tx_hash)
    × (get_mined_tx_info p tx_hash ≡ some (some info))
    × (u ≡ mined tx_hash nonce tx.attempt_number info)

-- The update reports a transaction of the list, the last that is mined.
abbrev pub ReportsLast : EvmProvider → List ℕ → ℕ → TrackerUpdate → List PendingTransaction → Type 0
ReportsLast p hashes nonce u [] = ⊥
ReportsLast p hashes nonce u (tx ∷ txs) =
    ReportsLast p hashes nonce u txs
    ⊎ ((is_mined p hashes tx ≡ true)
        × Reports p nonce u tx
        × All (λ t. is_mined p hashes t ≡ false) txs)

-- The update lists a transaction whose receipt or body the node fails to give.
abbrev pub AnyUnread : EvmProvider → List ℕ → List PendingTransaction → Type 0
AnyUnread p hashes [] = ⊥
AnyUnread p hashes (tx ∷ txs) =
    ((tx_hash : ℕ) × (tx.tx_hash ≡ some tx_hash)
      × (contains tx_hash hashes ≡ true)
      × (get_mined_tx_info p tx_hash ≡ none))
    ⊎ AnyUnread p hashes txs

-- The update has no nonce, or one below the tracker's.
abbrev pub IsStale : TransactionTracker → AddressUpdate → Type 0
IsStale s update = (update.nonce ≡ none) ⊎ ((n : ℕ) × (update.nonce ≡ some n) × (n < s.nonce))

-- The tracker after an update that reports something: the balance and the next nonce are those of the
-- update, and nothing is pending.
abbrev pub advanced : TransactionTracker → AddressUpdate → ℕ → TransactionTracker
advanced s update n = record s {
  balance = update.balance;
  nonce = n + 1;
  transactions = [];
  has_abandoned = false;
  attempt_count = 0;
}

-- What is reported of the transactions.
abbrev pub Reported : EvmProvider → TransactionTracker → AddressUpdate → TrackerUpdate → Type 0
Reported p s update u =
    ReportsLast p update.mined_tx_hashes s.nonce u s.transactions
    ⊎ ((u ≡ nonce_used_for_other_tx s.nonce)
        × All (λ tx. is_mined p update.mined_tx_hashes tx ≡ false) s.transactions)
