-- ===== src/Builder/Sender.antt =====
-- crates/builder/src/bundle_sender.rs: BundleSenderImpl, the handlers of the loop that builds bundles,
-- sends them and waits for them to be mined. A panic is `none`; metrics and logs are left out.
pub mod Steps
pub mod Cancelling
pub mod Starting
pub mod Safety
pub mod Resets
pub mod Underpriced
pub mod Examples
use rundler.Common.{
  ℕ, ◌+◌, ◌-◌, Bool, true, false, not, ◌&&◌, Option, none, some, List, [], ◌∷◌, ltb, leb,
  if◌then◌else◌, get_or, u64, ◌>>=◌,
}
use rundler.Common.Results.{ok, err}
use rundler.Builder.Assigner
use rundler.Builder.Tracker
use rundler.Builder.Tracker.{
  TransactionTrackerError, TrackerUpdate, EvmProvider, mined, latest_tx_dropped,
  nonce_used_for_other_tx,
}
use rundler.Builder.States
use rundler.Builder.States.{
  BuildingState, PendingState, CancellingState, CancelPendingState, building, pending, cancelling,
  cancel_pending, to_pending, to_cancelling, retry, underpriced_round, to_building, to_self,
  to_cancel_pending, cancel_again,
}
use rundler.Builder.Machine.{
  SenderMachineState, Event, Call, transaction_mined, latest_transaction_dropped,
  nonce_used_for_other_transaction, emit, process_revert, notify_condition_not_met, log, update,
  initial, reset, abandon, unabandon, reset_tracker, bundle_error, bundle_mined, no_operations,
  wait_for_trigger,
}
pub use rundler.Builder.Bundling.{
  Settings, Bundle, BundleProposerError, Env, SendBundleAttemptResult, success,
  no_operations_initially, no_operations_after_fee_filter, no_operations_after_simulation,
  replacement_underpriced, condition_not_met, rejected, insufficient_funds, nonce_too_low,
  BundleSender,
}
unfoldable pub use rundler.Builder.Bundling.{
  release, on, concat, clean_pool, get_bundle_tx, attempt_error, send_bundle_inner, with_assigner,
  settle_locks, send_bundle,
}

-- The arm of `handle_building_state` for an attempt without operations.
abbrev pub abandon_if_increased : ℕ → SenderMachineState → SenderMachineState
abandon_if_increased count m = if ltb 0 count then abandon m else m

-- The arm for operations that all fall to the fee filter.
unfoldable pub after_fee_filter :
    Settings → BuildingState → ℕ → SenderMachineState → Option SenderMachineState
after_fee_filter settings inner block_number m = elim inner.underpriced_info [
  | none ↦ if ltb 0 inner.fee_increase_count then some (initial (abandon m)) else no_operations m
  | some info ↦
      if leb settings.max_replacement_underpriced_blocks (block_number - info.since_block)
      then some (update (cancelling (to_cancelling inner)) m)
      else underpriced_round inner >>= λ s. some (update (building s) (abandon m))
]

-- The `match` of `handle_building_state`.
unfoldable pub after_attempt :
    Settings
    → EvmProvider
    → BuildingState
    → ℕ
    → Option SendBundleAttemptResult
    → SenderMachineState
    → Option SenderMachineState
after_attempt settings evm inner block_number (some (success ops)) m = some (
    update (pending (to_pending inner (u64 (block_number + settings.max_blocks_to_wait_for_mine))))
      m)
after_attempt settings evm inner block_number (some no_operations_initially) m =
    no_operations (abandon_if_increased inner.fee_increase_count m)
after_attempt settings evm inner block_number (some no_operations_after_simulation) m =
    no_operations (abandon_if_increased inner.fee_increase_count m)
after_attempt settings evm inner block_number (some no_operations_after_fee_filter) m =
    after_fee_filter settings inner block_number m
after_attempt settings evm inner block_number (some nonce_too_low) m = some (reset m)
after_attempt settings evm inner block_number (some SendBundleAttemptResult.underpriced) m =
    some (update (building (States.underpriced inner block_number)) m)
after_attempt settings evm inner block_number (some replacement_underpriced) m =
    some (update (building (States.underpriced inner block_number)) (unabandon m))
after_attempt settings evm inner block_number (some condition_not_met) m =
    some (update (building (retry inner)) (log notify_condition_not_met m))
after_attempt settings evm inner block_number (some insufficient_funds) m = some (reset m)
after_attempt settings evm inner block_number (some rejected) m =
    some (update (building (States.underpriced inner block_number)) m)
after_attempt settings evm inner block_number none m = some (reset_tracker evm (bundle_error m))

abbrev pub with_machine : BundleSender → Option SenderMachineState → Option BundleSender
with_machine b none = none
with_machine b (some m) = some (record b { machine = m })

unfoldable pub handle_building_state :
    {PoolOperation : Type 0}
    → Env PoolOperation
    → BundleSender
    → BuildingState
    → Option BundleSender
handle_building_state env b inner =
    let block_number = b.machine.last_block.block_number in
    elim (send_bundle env b inner.fee_increase_count) [
      | none ↦ none
      | some (c, r) ↦
          with_machine c (after_attempt env.settings env.evm inner block_number r c.machine)
    ]

abbrev pub log_if : Bool → Call → SenderMachineState → SenderMachineState
log_if false c m = m
log_if true c m = log c m

unfoldable pub handle_pending_state :
    Settings → PendingState → Option TrackerUpdate → SenderMachineState → SenderMachineState
handle_pending_state settings inner (some (mined tx_hash nonce attempt_number info)) m =
    bundle_mined info.block_number attempt_number tx_hash (
      log (emit (transaction_mined tx_hash nonce info.block_number))
        (log_if (not info.is_success) (process_revert tx_hash) m))
handle_pending_state settings inner (some (latest_tx_dropped nonce)) m =
    update (building (to_building inner)) (log (emit (latest_transaction_dropped nonce)) m)
handle_pending_state settings inner (some (nonce_used_for_other_tx nonce)) m =
    reset (log (emit (nonce_used_for_other_transaction nonce)) m)
handle_pending_state settings inner none m =
    if leb inner.until m.last_block.block_number then update (building (to_building inner)) m else m

-- The errors on which a cancellation is tried again.
abbrev pub is_retryable : TransactionTrackerError → Bool
is_retryable TransactionTrackerError.rejected = true
is_retryable TransactionTrackerError.underpriced = true
is_retryable TransactionTrackerError.replacement_underpriced = true
is_retryable _ = false

unfoldable pub handle_cancelling_state :
    {PoolOperation : Type 0} → Env PoolOperation → BundleSender → CancellingState → BundleSender
handle_cancelling_state env b inner =
    let estimated =
      get_or (env.estimate_gas_fees b.machine.last_block.block_hash)
        (record { max_fee_per_gas = 0; max_priority_fee_per_gas = 0 }) in
    let (tracker, r) =
      Tracker.cancel_transaction env.evm env.tx_sender b.machine.transaction_tracker estimated in
    let c : BundleSender = record b {
      machine = record b.machine { transaction_tracker = tracker };
    } in
    elim r [
      | ok (some tx_hash) ↦
          on
            (update (
              cancel_pending (
                to_cancel_pending inner (
                  u64 (
                    c.machine.last_block.block_number
                    + env.settings.max_blocks_to_wait_for_mine)))))
            c
      | ok none ↦ on reset (release env.sender_eoa c)
      | err e ↦
          if is_retryable e
            && not (leb env.settings.max_cancellation_fee_increases inner.fee_increase_count)
          then on (update (cancelling (to_self inner))) c
          else on reset c
    ]

unfoldable pub handle_cancel_pending_state :
    Settings → ℕ → BundleSender → CancelPendingState → Option TrackerUpdate → BundleSender
handle_cancel_pending_state settings eoa b inner (some _) = on reset b
handle_cancel_pending_state settings eoa b inner none =
    if not (leb inner.until b.machine.last_block.block_number)
    then b
    else if leb settings.max_cancellation_fee_increases inner.fee_increase_count
    then on reset (release eoa b)
    else on (update (cancelling (cancel_again inner))) b

-- The `match` of `step_state`.
unfoldable pub dispatch :
    {PoolOperation : Type 0}
    → Env PoolOperation
    → BundleSender
    → Option TrackerUpdate
    → Option BundleSender
dispatch env b u = elim b.machine.inner [
  | building s ↦ handle_building_state env b s
  | pending s ↦ some (on (handle_pending_state env.settings s u) b)
  | cancelling s ↦ some (handle_cancelling_state env b s)
  | cancel_pending s ↦ some (handle_cancel_pending_state env.settings env.sender_eoa b s u)
]

-- A turn of the loop: an error of `step_state`, which only the waits raise, releases the operations and
-- resets. `none` is a panic.
unfoldable pub step :
    {PoolOperation : Type 0} → Env PoolOperation → Event → BundleSender → Option BundleSender
step env e b =
    let (m, r) = wait_for_trigger env.evm env.sender_eoa e b.machine in
    let c : BundleSender = record b { machine = m } in
    elim r [
      | none ↦ some (on reset (release env.sender_eoa c))
      | some none ↦ dispatch env c none
      | some (some u) ↦ dispatch env (release env.sender_eoa c) (some u)
    ]

-- The loop along a list of what happens.
unfoldable pub run :
    {PoolOperation : Type 0} → List (Env PoolOperation × Event) → BundleSender → Option BundleSender
unfolding step
run [] b = some b
run ((env, e) ∷ es) b = step env e b >>= λ c. run es c
