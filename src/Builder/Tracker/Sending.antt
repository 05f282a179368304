-- ===== src/Builder/Tracker/Sending.antt =====
-- `send_transaction` and `cancel_transaction` of crates/builder/src/transaction_tracker.rs.
use rundler.Common.{
  ℕ, ◌+◌, ◌≤◌, ◌≡◌, refl, ◌*◌, subst, false, Option, none, some, List, [], ◌∷◌, ◌++◌, ap, ◌∙◌, All,
  nat_eq, arith,
}
use rundler.Common.Results.{ok}
use rundler.Types.Gas.{GasFees, increase_by_percent}
use rundler.Utils.Math.{Fits, increase_by_percent_ceil_least}
use rundler.Builder.Tracker.{
  TransactionTracker, PendingTransaction, TransactionRequest, TransactionSender, fees_of,
  below_required, validate_transaction, required_fees, get_state, send_transaction, last_sent,
  cancellation,
}

-- The fees of the newest transaction.
abbrev pub last_fees : List PendingTransaction → Option GasFees
last_fees [] = none
last_fees (t ∷ ts) = some t.gas_fees

-- Only a request with the tracker's nonce and with at least the required fees is sent; it is then the
-- newest transaction, under the hash that the sender gave.
pub send_transaction-accepts :
    (sender : TransactionSender) (s : TransactionTracker) (tx : TransactionRequest)
    (block_number hash : ℕ)
    → (send_transaction sender s tx block_number).1 ≡ ok hash
    → (tx.nonce ≡ some s.nonce)
      × (below_required (fees_of tx) (required_fees s) ≡ false)
      × (sender.send_transaction tx ≡ ok hash)
      × (last_fees (send_transaction sender s tx block_number).0.transactions ≡ some (fees_of tx))
unfolding send_transaction validate_transaction get_state
send_transaction-accepts sender s tx block_number hash e = ground arith

required_fees-last :
    (s : TransactionTracker) (p : PendingTransaction) (ps : List PendingTransaction)
    → s.has_abandoned ≡ false
    → s.transactions ≡ p ∷ ps
    → required_fees s ≡ some (increase_by_percent p.gas_fees s.replacement_fee_percent_increase)
unfolding required_fees
required_fees-last s p ps h e = ground arith

-- `b` is at least `a` increased by the percentage, in exact arithmetic.
abbrev pub Raised : ℕ → GasFees → GasFees → Type 0
Raised percent a b =
    (a.max_fee_per_gas * (100 + percent) ≤ b.max_fee_per_gas * 100)
    × (a.max_priority_fee_per_gas * (100 + percent) ≤ b.max_priority_fee_per_gas * 100)

-- The increase of the fees does not overflow.
abbrev pub FeesFit : ℕ → GasFees → Type 0
FeesFit percent f = Fits f.max_fee_per_gas percent × Fits f.max_priority_fee_per_gas percent

above-Raised :
    (f g : GasFees) (percent : ℕ)
    → FeesFit percent f
    → (increase_by_percent f percent).max_fee_per_gas ≤ g.max_fee_per_gas
    → (increase_by_percent f percent).max_priority_fee_per_gas ≤ g.max_priority_fee_per_gas
    → Raised percent f g
unfolding increase_by_percent
above-Raised f g percent fit h k = (
  (increase_by_percent_ceil_least f.max_fee_per_gas percent g.max_fee_per_gas fit.0).0 h,
  (increase_by_percent_ceil_least f.max_priority_fee_per_gas percent g.max_priority_fee_per_gas
        fit.1).0
      k,
)

not_below :
    (f r : GasFees)
    → below_required f (some r) ≡ false
    → (r.max_fee_per_gas ≤ f.max_fee_per_gas)
      × (r.max_priority_fee_per_gas ≤ f.max_priority_fee_per_gas)
not_below f r h = (ground arith, ground arith)

-- While transactions are not abandoned, a transaction that replaces one has the same nonce, and both its
-- fees are at least those of the newest transaction increased by `replacement_fee_percent_increase`,
-- exactly and not only up to rounding, where the increase does not overflow.
pub send_transaction-Raised :
    (sender : TransactionSender) (s : TransactionTracker) (tx : TransactionRequest)
    (block_number hash : ℕ) (p : PendingTransaction) (ps : List PendingTransaction)
    → s.has_abandoned ≡ false
    → s.transactions ≡ p ∷ ps
    → FeesFit s.replacement_fee_percent_increase p.gas_fees
    → (send_transaction sender s tx block_number).1 ≡ ok hash
    → (tx.nonce ≡ some s.nonce) × Raised s.replacement_fee_percent_increase p.gas_fees (fees_of tx)
send_transaction-Raised sender s tx block_number hash p ps h e fit sent =
    let (same, accepted, answered, newest) =
      send_transaction-accepts sender s tx block_number hash sent in
    let above =
      not_below (fees_of tx) (increase_by_percent p.gas_fees s.replacement_fee_percent_increase) (
        subst (λ r. below_required (fees_of tx) r ≡ false) (required_fees-last s p ps h e)
          accepted) in
    (
      same,
      above-Raised p.gas_fees (fees_of tx) s.replacement_fee_percent_increase fit above.0 above.1,
    )

-- Transactions that were refused, which have no hash.
abbrev pub Unsent : List PendingTransaction → Type 0
Unsent txs = All (λ (tx : PendingTransaction). tx.tx_hash ≡ none) txs

last_sent-newest :
    (newer older : List PendingTransaction) (tx : PendingTransaction) (hash : ℕ)
    → Unsent newer
    → tx.tx_hash ≡ some hash
    → last_sent (newer ++ tx ∷ older) ≡ some (hash, tx.gas_fees)
unfolding last_sent
last_sent-newest [] older tx hash u e = ground arith
last_sent-newest (x ∷ newer) older tx hash u e =
    ground (arith, last_sent-newest newer older tx hash u.1 e)

-- Where the transactions newer than some transaction have no hash and it has one, a cancellation is for it;
-- its fees are at least the estimated ones and at least that transaction's fees increased by
-- `replacement_fee_percent_increase`, exactly, where the increase does not overflow.
pub cancellation-Raised :
    (s : TransactionTracker) (estimated : GasFees) (newer older : List PendingTransaction)
    (tx : PendingTransaction) (hash : ℕ)
    → s.transactions ≡ newer ++ tx ∷ older
    → Unsent newer
    → tx.tx_hash ≡ some hash
    → FeesFit s.replacement_fee_percent_increase tx.gas_fees
    → let (target, cancel_fees) = cancellation s estimated in
      (target ≡ hash)
      × Raised s.replacement_fee_percent_increase tx.gas_fees cancel_fees
      × (estimated.max_fee_per_gas ≤ cancel_fees.max_fee_per_gas)
      × (estimated.max_priority_fee_per_gas ≤ cancel_fees.max_priority_fee_per_gas)
unfolding cancellation
cancellation-Raised s estimated newer older tx hash e unsent sent fit =
    let newest : last_sent s.transactions ≡ some (hash, tx.gas_fees) =
      ap last_sent e ∙ last_sent-newest newer older tx hash unsent sent in
    rw (cancellation, newest)
      (
        refl,
        above-Raised tx.gas_fees _ s.replacement_fee_percent_increase fit (omega arith)
            (omega arith),
        omega arith,
        omega arith,
      )
