-- ===== src/Builder/Sender/Starting.antt =====
-- When crates/builder/src/bundle_sender.rs starts a cancellation, and how often it raises fees there.
use rundler.Common.{
  ℕ, ◌-◌, ◌≤◌, ◌≡◌, refl, ◌⊎◌, inl, inr, Bool, true, false, Option, none, some, leb, arith,
  Option-cases, Bool-cases, nat_eq,
}
use rundler.Builder.Tracker.{EvmProvider}
use rundler.Builder.States.{
  InnerState, BuildingState, UnderpricedInfo, building, pending, cancelling, cancel_pending,
  to_cancelling, underpriced_round,
}
use rundler.Builder.Machine.{SenderMachineState, no_operations, bundle_error, send_result}
use rundler.Builder.Sender.{
  Env, BundleSender, Settings, SendBundleAttemptResult, success, no_operations_initially,
  no_operations_after_fee_filter, no_operations_after_simulation, replacement_underpriced,
  condition_not_met, rejected, insufficient_funds, nonce_too_low, after_fee_filter, after_attempt,
  abandon_if_increased,
}

abbrev pub is_cancel : InnerState → Bool
is_cancel (building s) = false
is_cancel (pending s) = false
is_cancel (cancelling s) = true
is_cancel (cancel_pending s) = true

-- The end of an attempt: no cancellation, or a fresh one after an attempt in which every operation fell
-- to the fee filter, at least `max_replacement_underpriced_blocks` after the first underpriced one.
abbrev pub Outcome :
    Settings → BuildingState → ℕ → Option SendBundleAttemptResult → SenderMachineState → Type 0
Outcome settings s block_number r k =
    (is_cancel k.inner ≡ false)
    ⊎ ((info : UnderpricedInfo) × (k.inner ≡ cancelling (record { fee_increase_count = 0 }))
        × (r ≡ some no_operations_after_fee_filter)
        × (s.underpriced_info ≡ some info)
        × (settings.max_replacement_underpriced_blocks ≤ block_number - info.since_block))

no_operations-calm :
    (m k : SenderMachineState) → no_operations m ≡ some k → is_cancel k.inner ≡ false
unfolding no_operations
no_operations-calm m k e = ground arith

-- A building step starts a cancellation only after an attempt in which every operation fell to the fee
-- filter, and only once at least `max_replacement_underpriced_blocks` blocks have passed since the first
-- underpriced attempt; it then starts with no fee increase.
pub after_attempt-Outcome :
    (settings : Settings) (evm : EvmProvider) (s : BuildingState) (block_number : ℕ)
    (r : Option SendBundleAttemptResult) (m k : SenderMachineState)
    → after_attempt settings evm s block_number r m ≡ some k
    → Outcome settings s block_number r k
unfolding after_attempt after_fee_filter underpriced_round to_cancelling bundle_error send_result
after_attempt-Outcome settings evm s n (some no_operations_initially) m k e =
    inl (no_operations-calm (abandon_if_increased s.fee_increase_count m) k e)
after_attempt-Outcome settings evm s n (some no_operations_after_simulation) m k e =
    inl (no_operations-calm (abandon_if_increased s.fee_increase_count m) k e)
after_attempt-Outcome settings evm s n (some no_operations_after_fee_filter) m k e =
    elim (Option-cases s.underpriced_info) [
      | inl no_info ↦ inl (ground (arith, no_operations-calm m k))
      | inr (info, known) ↦
          elim (Bool-cases
            (leb settings.max_replacement_underpriced_blocks (n - info.since_block))) [
              | inl long ↦ inr (info, ground arith, refl, known, ground arith)
              | inr short ↦ inl (ground arith)
            ]
    ]
after_attempt-Outcome settings evm s n (some (success out)) m k e = inl (ground arith)
after_attempt-Outcome settings evm s n (some nonce_too_low) m k e = inl (ground arith)
after_attempt-Outcome settings evm s n (some SendBundleAttemptResult.underpriced) m k e =
    inl (ground arith)
after_attempt-Outcome settings evm s n (some replacement_underpriced) m k e = inl (ground arith)
after_attempt-Outcome settings evm s n (some condition_not_met) m k e = inl (ground arith)
after_attempt-Outcome settings evm s n (some rejected) m k e = inl (ground arith)
after_attempt-Outcome settings evm s n (some insufficient_funds) m k e = inl (ground arith)
after_attempt-Outcome settings evm s n none m k e = inl (ground arith)

-- The fee increases of a cancellation are at most `n`.
abbrev pub Bounded : ℕ → InnerState → Type 0
Bounded n (building s) = Unit
Bounded n (pending s) = Unit
Bounded n (cancelling s) = s.fee_increase_count ≤ n
Bounded n (cancel_pending s) = s.fee_increase_count ≤ n

module _ {PoolOperation : Type 0} (env : Env PoolOperation) (b : BundleSender) where
  abbrev largest : ℕ
  largest = env.settings.max_cancellation_fee_increases
