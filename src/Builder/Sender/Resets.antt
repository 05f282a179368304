-- ===== src/Builder/Sender/Resets.antt =====
-- The resets of crates/builder/src/bundle_sender.rs: what a turn that follows one starts from.
use rundler.Common.{ℕ, ◌≡◌, refl, inl, inr, false, none, some, [], arith, Option-cases}
use rundler.Builder.Tracker
use rundler.Builder.Tracker.{
  TransactionTracker, EvmProvider, required_fees, num_pending_transactions,
  set_nonce_and_clear_state,
}
use rundler.Builder.States.{building, reset_building}
use rundler.Builder.Machine
use rundler.Builder.Machine.{SenderMachineState, Event, wait_for_trigger, wait, finish_reset}

-- A tracker with nothing sent: no transaction and none pending, no required fees, no attempt, and not
-- abandoned.
abbrev pub IsFresh : TransactionTracker → Type 0
IsFresh t =
    (t.transactions ≡ [])
    × (num_pending_transactions t ≡ 0)
    × (required_fees t ≡ none)
    × (t.attempt_count ≡ 0)
    × (t.has_abandoned ≡ false)

reset-IsFresh : (p : EvmProvider) (t : TransactionTracker) → IsFresh (Tracker.reset p t)
unfolding Tracker.reset num_pending_transactions required_fees set_nonce_and_clear_state
reset-IsFresh p t = elim (Option-cases p.get_transaction_count) [
  | inl e ↦ (ground arith, ground arith, ground arith, ground arith, ground arith)
  | inr (n, e) ↦ (ground arith, ground arith, ground arith, ground arith, ground arith)
]

-- After a move to the reset state the next turn waits for nothing, reads no update, and starts from a
-- tracker with nothing sent, whatever the node answers and whatever the tracker held; no reset is due
-- after it.
pub wait_for_trigger-IsFresh :
    (p : EvmProvider) (address : ℕ) (event : Event) (m : SenderMachineState)
    → let (n, r) = wait_for_trigger p address event (Machine.reset m) in
      (r ≡ some none)
      × (n.inner ≡ building reset_building)
      × (n.requires_reset ≡ false)
      × (n.last_block ≡ m.last_block)
      × IsFresh n.transaction_tracker
unfolding wait_for_trigger wait finish_reset
wait_for_trigger-IsFresh p address event m =
    (refl, refl, refl, refl, reset-IsFresh p m.transaction_tracker)
