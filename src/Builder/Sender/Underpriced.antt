-- ===== src/Builder/Sender/Underpriced.antt =====
-- Since which block the bundles of crates/builder/src/bundle_sender.rs are underpriced.
use rundler.Common.{ℕ, ◌-◌, if◌then◌else◌, Option, none, some, leb, nat_eq, get_or}
use rundler.Builder.States
use rundler.Builder.States.{
  InnerState, UnderpricedInfo, building, pending, cancelling, cancel_pending, to_pending,
  to_cancelling,
}
use rundler.Builder.Sender.{
  Settings, SendBundleAttemptResult, success, no_operations_initially,
  no_operations_after_fee_filter, no_operations_after_simulation, replacement_underpriced,
  condition_not_met, rejected, insufficient_funds, nonce_too_low,
}

abbrev pub since : Option UnderpricedInfo → Option ℕ
since none = none
since (some info) = some info.since_block

-- The block since which the state knows bundles to be underpriced.
abbrev pub since_of : InnerState → Option ℕ
since_of (building s) = since s.underpriced_info
since_of (pending s) = none
since_of (cancelling s) = none
since_of (cancel_pending s) = none

-- The block that is known after an attempt of building, by what the attempt ended in: an underpriced or
-- rejected bundle keeps the block known before, or else sets it to that of this attempt; an attempt
-- without operations and a failed condition leave it; the fee filter leaves it until the wait is over.
abbrev pub since_next : Settings → Option ℕ → ℕ → Option SendBundleAttemptResult → Option ℕ
since_next settings before n (some SendBundleAttemptResult.underpriced) = some (get_or before n)
since_next settings before n (some replacement_underpriced) = some (get_or before n)
since_next settings before n (some rejected) = some (get_or before n)
since_next settings before n (some condition_not_met) = before
since_next settings before n (some no_operations_initially) = before
since_next settings before n (some no_operations_after_simulation) = before
since_next settings none n (some no_operations_after_fee_filter) = none
since_next settings (some b) n (some no_operations_after_fee_filter) =
    if leb settings.max_replacement_underpriced_blocks (n - b) then none else some b
since_next settings before n (some (success out)) = none
since_next settings before n (some nonce_too_low) = none
since_next settings before n (some insufficient_funds) = none
since_next settings before n none = none
