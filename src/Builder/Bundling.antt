-- ===== src/Builder/Bundling.antt =====
-- crates/builder/src/bundle_sender.rs: building a bundle and sending it, with what that does to the
-- assigner's locks. The proposer, the entry point, the pool and the node are the parameter `Env`, which
-- may differ from step to step. A panic is `none`; metrics and logs are left out.
use rundler.Common.{
  ℕ, Bool, Option, none, some, List, [], ◌∷◌, ◌++◌, map, ltb, nat_beq, if◌then◌else◌, is_empty,
  ◌>>=◌,
}
use rundler.Common.Results.{Result, ok, err}
use rundler.Types.Gas.{GasFees}
use rundler.Builder.Assigner
use rundler.Builder.Assigner.{
  Pool, Config, assign_operations, confirm_senders_drop_unused, release_all,
}
use rundler.Builder.Tracker
use rundler.Builder.Tracker.{
  TransactionTrackerError, TransactionRequest, TransactionSender, EvmProvider, get_state,
}
use rundler.Builder.Machine.{
  SenderMachineState, formed_bundle, emit, remove_ops, update_entities, log,
}

pub record Settings : Type 0 where
  pub max_replacement_underpriced_blocks : ℕ
  pub max_cancellation_fee_increases : ℕ
  pub max_blocks_to_wait_for_mine : ℕ

-- An operation as its sender and its hash; the operations stand per aggregator. `body` is what only the
-- entry point reads.
pub record Bundle : Type 0 where
  pub ops_per_aggregator : List (List (ℕ × ℕ))
  pub rejected_ops : List ℕ
  pub entity_updates : List ℕ
  pub gas_fees : GasFees
  pub body : ℕ

pub data BundleProposerError : Type 0 where
  no_operations_after_fee_filter other : BundleProposerError

-- The parts around the sender: `make_bundle` reads the operations, the block, the balance, the required
-- fees and whether fees are being increased.
pub record Env (PoolOperation : Type 0) : Type 0 where
  pub settings : Settings
  pub assigner_config : Config
  pub sender_eoa : ℕ
  pub ep_address : ℕ
  pub filter_id : Option ℕ
  pub pool : Pool PoolOperation
  pub make_bundle :
      List PoolOperation → ℕ → ℕ → Option GasFees → Bool → Result BundleProposerError Bundle
  pub estimate_gas_fees : ℕ → Option GasFees
  pub get_send_bundle_transaction : Bundle → TransactionRequest
  pub evm : EvmProvider
  pub tx_sender : TransactionSender

pub data SendBundleAttemptResult : Type 0 where
  success : List (ℕ × ℕ) → SendBundleAttemptResult
  no_operations_initially no_operations_after_fee_filter no_operations_after_simulation :
      SendBundleAttemptResult
  underpriced replacement_underpriced condition_not_met rejected insufficient_funds nonce_too_low :
      SendBundleAttemptResult

-- The assigner is shared with the other builders.
pub record BundleSender : Type 0 where
  pub assigner : Assigner.State
  pub machine : SenderMachineState

abbrev pub release : ℕ → BundleSender → BundleSender
release eoa b = record b { assigner = release_all b.assigner eoa }

abbrev pub on : (SenderMachineState → SenderMachineState) → BundleSender → BundleSender
on f b = record b { machine = f b.machine }

abbrev pub concat {ℓ} : {A : Type ℓ} → List (List A) → List A
concat [] = []
concat (xs ∷ xss) = xs ++ concat xss

-- The calls to the pool that a bundle brings.
unfoldable pub clean_pool : Bundle → SenderMachineState → SenderMachineState
clean_pool b m =
    let n = if is_empty b.rejected_ops then m else log (remove_ops b.rejected_ops) m in
    if is_empty b.entity_updates then n else log (update_entities b.entity_updates) n

-- The transaction with its operations, if the bundle is not empty.
unfoldable pub get_bundle_tx :
    (Bundle → TransactionRequest) → ℕ → Bundle → Option (TransactionRequest × List (ℕ × ℕ))
get_bundle_tx entry_point nonce b =
    if is_empty b.ops_per_aggregator
    then none
    else some (record (entry_point b) { nonce = some nonce }, concat b.ops_per_aggregator)

-- What `send_bundle_inner` makes of an error of the tracker. `none` is an error.
unfoldable pub attempt_error : TransactionTrackerError → Option SendBundleAttemptResult
attempt_error TransactionTrackerError.nonce_too_low = some nonce_too_low
attempt_error TransactionTrackerError.underpriced = some SendBundleAttemptResult.underpriced
attempt_error TransactionTrackerError.replacement_underpriced = some replacement_underpriced
attempt_error TransactionTrackerError.condition_not_met = some condition_not_met
attempt_error TransactionTrackerError.rejected = some rejected
attempt_error TransactionTrackerError.insufficient_funds = some insufficient_funds
attempt_error TransactionTrackerError.other = none

-- The inner `none` is an error.
unfoldable pub send_bundle_inner :
    {PoolOperation : Type 0}
    → Env PoolOperation
    → SenderMachineState
    → List PoolOperation
    → ℕ
    → SenderMachineState × Option SendBundleAttemptResult
send_bundle_inner env m ops fee_increase_count =
    let s = get_state m.transaction_tracker in
    elim (env.make_bundle ops m.last_block.block_hash s.balance s.required_fees
      (ltb 0 fee_increase_count)) [
        | err no_operations_after_fee_filter ↦
            (m, some SendBundleAttemptResult.no_operations_after_fee_filter)
        | err other ↦ (m, none)
        | ok bundle ↦
            let n = clean_pool bundle m in
            elim (get_bundle_tx env.get_send_bundle_transaction s.nonce bundle) [
              | none ↦ (
                log (emit (formed_bundle none s.nonce fee_increase_count s.required_fees)) n,
                some no_operations_after_simulation,
              )
              | some (tx, bundle_ops) ↦
                  let (tracker, r) =
                    Tracker.send_transaction env.tx_sender n.transaction_tracker tx
                      n.last_block.block_number in
                  let sent : SenderMachineState = record n { transaction_tracker = tracker } in
                  elim r [
                    | ok tx_hash ↦ (
                      log
                          (emit (
                            formed_bundle (some tx_hash) s.nonce fee_increase_count
                              s.required_fees))
                          sent,
                      some (success bundle_ops),
                    )
                    | err e ↦ (sent, attempt_error e)
                  ]
            ]
      ]

abbrev pub with_assigner : BundleSender → Option Assigner.State → Option BundleSender
with_assigner b none = none
with_assigner b (some a) = some (record b { assigner = a })

-- What `send_bundle` does with the locks after an attempt.
unfoldable pub settle_locks :
    ℕ → Option SendBundleAttemptResult → BundleSender → Option BundleSender
settle_locks eoa (some (success ops)) b =
    with_assigner b (confirm_senders_drop_unused b.assigner eoa (map (λ op. op.0) ops))
settle_locks eoa (some nonce_too_low) b = some (release eoa b)
settle_locks eoa (some no_operations_after_simulation) b = some (release eoa b)
settle_locks eoa _ b =
    if nat_beq (Tracker.num_pending_transactions b.machine.transaction_tracker) 0
    then some (release eoa b)
    else with_assigner b (confirm_senders_drop_unused b.assigner eoa [])

-- The outer `none` is a panic, the inner one an error.
unfoldable pub send_bundle :
    {PoolOperation : Type 0}
    → Env PoolOperation
    → BundleSender
    → ℕ
    → Option (BundleSender × Option SendBundleAttemptResult)
send_bundle env b fee_increase_count =
    let (a, assigned_ops) =
      assign_operations env.pool env.assigner_config b.assigner env.sender_eoa env.ep_address
        env.filter_id in
    let c : BundleSender = record b { assigner = a } in
    elim assigned_ops [
      | none ↦ some (c, none)
      | some [] ↦
          some (release env.sender_eoa c, some SendBundleAttemptResult.no_operations_initially)
      | some (op ∷ ops) ↦
          let (m, r) = send_bundle_inner env c.machine (op ∷ ops) fee_increase_count in
          settle_locks env.sender_eoa r (record c { machine = m }) >>= λ d. some (d, r)
    ]
