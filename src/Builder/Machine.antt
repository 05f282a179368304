-- ===== src/Builder/Machine.antt =====
-- crates/builder/src/bundle_sender.rs: SenderMachineState, the state of the sender loop with its
-- trigger and its transaction tracker. What a wait brings is the argument `Event`. The messages to other
-- parts (results, events, calls of the pool and the proposer) are kept in `calls`, newest first.
use rundler.Common.{
  ℕ, Bool, true, false, not, Option, none, some, List, [], ◌∷◌, nat_beq, if◌then◌else◌,
}
use rundler.Common.Results.{Result, ok, err}
use rundler.Types.Gas.{GasFees}
use rundler.Builder.States.{
  InnerState, building, pending, cancelling, cancel_pending, initial_building, reset_building,
}
use rundler.Builder.Tracker
use rundler.Builder.Tracker.{TransactionTracker, TrackerUpdate, AddressUpdate, EvmProvider}

pub data SendBundleResult : Type 0 where
  success : ℕ → ℕ → ℕ → SendBundleResult
  no_operations_initially stalled_at_max_fee_increases error : SendBundleResult

pub data BuilderEvent : Type 0 where
  formed_bundle : Option ℕ → ℕ → ℕ → Option GasFees → BuilderEvent
  transaction_mined : ℕ → ℕ → ℕ → BuilderEvent
  latest_transaction_dropped nonce_used_for_other_transaction : ℕ → BuilderEvent

-- `respond` goes to the caller that asked for a bundle.
pub data Call : Type 0 where
  respond : ℕ → SendBundleResult → Call
  emit : BuilderEvent → Call
  process_revert : ℕ → Call
  remove_ops update_entities : List ℕ → Call
  notify_condition_not_met : Call

pub record NewHead : Type 0 where
  pub block_hash : ℕ
  pub block_number : ℕ
  pub address_updates : List (ℕ × AddressUpdate)

-- What a wait leaves in the trigger, also where it ends in an error: its last block, and whether its mode,
-- which an action can change while it waits for a trigger, makes the builder wait. `trigger` is what the
-- wait for a trigger gives: `none` is an error, and otherwise it may bring a caller to answer. `block` says
-- whether the wait for a block succeeds.
pub record Event : Type 0 where
  pub last_block : NewHead
  pub builder_must_wait_for_trigger : Bool
  pub trigger : Option (Option ℕ)
  pub block : Bool

pub record SenderMachineState : Type 0 where
  pub builder_must_wait_for_trigger : Bool
  pub last_block : NewHead
  pub transaction_tracker : TransactionTracker
  pub send_bundle_response : Option ℕ
  pub inner : InnerState
  pub requires_reset : Bool
  pub calls : List Call

unfoldable pub new : Bool → NewHead → TransactionTracker → SenderMachineState
new must_wait head tracker = record {
  builder_must_wait_for_trigger = must_wait;
  last_block = head;
  transaction_tracker = tracker;
  send_bundle_response = none;
  inner = building initial_building;
  requires_reset = false;
  calls = [];
}

abbrev pub log : Call → SenderMachineState → SenderMachineState
log c m = record m { calls = c ∷ m.calls }

abbrev pub update : InnerState → SenderMachineState → SenderMachineState
update i m = record m { inner = i }

abbrev pub initial : SenderMachineState → SenderMachineState
initial m = record m { inner = building initial_building }

abbrev pub reset : SenderMachineState → SenderMachineState
reset m = record m { requires_reset = true; inner = building reset_building }

abbrev pub abandon : SenderMachineState → SenderMachineState
abandon m = record m { transaction_tracker = Tracker.abandon m.transaction_tracker }

abbrev pub unabandon : SenderMachineState → SenderMachineState
unabandon m = record m { transaction_tracker = Tracker.unabandon m.transaction_tracker }

abbrev pub reset_tracker : EvmProvider → SenderMachineState → SenderMachineState
reset_tracker p m = record m { transaction_tracker = Tracker.reset p m.transaction_tracker }

unfoldable pub send_result : SendBundleResult → SenderMachineState → SenderMachineState
send_result r m = elim m.send_bundle_response [
  | none ↦ m
  | some caller ↦ record m { send_bundle_response = none; calls = respond caller r ∷ m.calls }
]

unfoldable pub bundle_error : SenderMachineState → SenderMachineState
bundle_error m = initial (send_result error m)

unfoldable pub bundle_mined : ℕ → ℕ → ℕ → SenderMachineState → SenderMachineState
bundle_mined block_number attempt_number tx_hash m =
    update
      (building (record {
        wait_for_trigger = m.builder_must_wait_for_trigger;
        fee_increase_count = 0;
        underpriced_info = none;
      }))
      (send_result (success block_number attempt_number tx_hash) m)

-- Panics when not building.
unfoldable pub no_operations : SenderMachineState → Option SenderMachineState
no_operations m = elim m.inner [
  | building b ↦ some (
      update (building (record b { wait_for_trigger = true }))
        (send_result no_operations_initially m))
  | pending p ↦ none
  | cancelling c ↦ none
  | cancel_pending c ↦ none
]

unfoldable pub find_address_update : ℕ → List (ℕ × AddressUpdate) → Option AddressUpdate
find_address_update address [] = none
find_address_update address ((a, u) ∷ us) =
    let rest = find_address_update address us in if nat_beq a address then some u else rest

abbrev pub to_option {ℓ} : {E A : Type ℓ} → Result E A → Option A
to_option (ok a) = some a
to_option (err e) = none

-- The end of both waits: the tracker reads the last block. `none` is an error.
unfoldable pub process_last_block :
    EvmProvider → ℕ → SenderMachineState → SenderMachineState × Option (Option TrackerUpdate)
process_last_block p address m = elim (find_address_update address m.last_block.address_updates) [
  | none ↦ (m, some none)
  | some u ↦
      let (tracker, r) = Tracker.process_update p m.transaction_tracker u in
      (record m { transaction_tracker = tracker }, to_option r)
]

unfoldable pub finish_reset : EvmProvider → SenderMachineState → SenderMachineState
finish_reset p m =
    if m.requires_reset
    then record m {
      transaction_tracker = Tracker.reset p m.transaction_tracker;
      requires_reset = false;
    }
    else m

abbrev pub wait_for_block :
    EvmProvider
    → ℕ
    → Event
    → SenderMachineState
    → SenderMachineState × Option (Option TrackerUpdate)
wait_for_block p address e m =
    let n : SenderMachineState = record m { last_block = e.last_block } in
    if e.block then process_last_block p address n else (n, none)

-- The wait of each state, after a reset that is due.
unfoldable pub wait :
    EvmProvider
    → ℕ
    → Event
    → SenderMachineState
    → SenderMachineState × Option (Option TrackerUpdate)
wait p address e m = elim m.inner [
  | building b ↦
      let n : SenderMachineState = record m {
        last_block = e.last_block;
        builder_must_wait_for_trigger = e.builder_must_wait_for_trigger;
      } in
      if not b.wait_for_trigger then (m, some none) else elim e.trigger [
        | none ↦ (n, none)
        | some caller ↦ process_last_block p address (record n { send_bundle_response = caller })
      ]
  | pending s ↦ wait_for_block p address e m
  | cancel_pending s ↦ wait_for_block p address e m
  | cancelling s ↦ (m, some none)
]

unfoldable pub wait_for_trigger :
    EvmProvider
    → ℕ
    → Event
    → SenderMachineState
    → SenderMachineState × Option (Option TrackerUpdate)
wait_for_trigger p address e m = wait p address e (finish_reset p m)
