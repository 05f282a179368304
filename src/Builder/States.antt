-- ===== src/Builder/States.antt =====
-- crates/builder/src/bundle_sender.rs: the states of the sender loop and the moves between them. The
-- counters are u64 and wrap. A panic is `none`.
use rundler.Common.{ℕ, ◌+◌, Bool, true, false, Option, none, some, u64}

pub record UnderpricedInfo : Type 0 where
  pub since_block : ℕ
  pub rounds : ℕ

pub record BuildingState : Type 0 where
  pub wait_for_trigger : Bool
  pub fee_increase_count : ℕ
  pub underpriced_info : Option UnderpricedInfo

pub record PendingState : Type 0 where
  pub until : ℕ
  pub fee_increase_count : ℕ

pub record CancellingState : Type 0 where
  pub fee_increase_count : ℕ

pub record CancelPendingState : Type 0 where
  pub until : ℕ
  pub fee_increase_count : ℕ

pub data InnerState : Type 0 where
  building : BuildingState → InnerState
  pending : PendingState → InnerState
  cancelling : CancellingState → InnerState
  cancel_pending : CancelPendingState → InnerState

-- `InnerState::new`.
abbrev pub initial_building : BuildingState
initial_building = record {
  wait_for_trigger = true;
  fee_increase_count = 0;
  underpriced_info = none;
}

-- The state after a reset: as the initial one, but it does not wait.
abbrev pub reset_building : BuildingState
reset_building = record {
  wait_for_trigger = false;
  fee_increase_count = 0;
  underpriced_info = none;
}

unfoldable pub to_pending : BuildingState → ℕ → PendingState
to_pending b until = record { until = until; fee_increase_count = b.fee_increase_count }

unfoldable pub to_cancelling : BuildingState → CancellingState
to_cancelling b = record { fee_increase_count = 0 }

unfoldable pub retry : BuildingState → BuildingState
retry b = record b { wait_for_trigger = false }

abbrev pub info_or_new : Option UnderpricedInfo → ℕ → UnderpricedInfo
info_or_new (some info) block_number = info
info_or_new none block_number = record { since_block = block_number; rounds = 1 }

unfoldable pub underpriced : BuildingState → ℕ → BuildingState
underpriced b block_number = record {
  wait_for_trigger = true;
  fee_increase_count = u64 (b.fee_increase_count + 1);
  underpriced_info = some (info_or_new b.underpriced_info block_number);
}

-- Panics when there is no underpriced round.
unfoldable pub underpriced_round : BuildingState → Option BuildingState
underpriced_round b = elim b.underpriced_info [
  | none ↦ none
  | some info ↦ some (record {
    wait_for_trigger = true;
    fee_increase_count = 0;
    underpriced_info =
        some (record { since_block = info.since_block; rounds = u64 (info.rounds + 1) });
  })
]

unfoldable pub to_building : PendingState → BuildingState
to_building p = record {
  wait_for_trigger = false;
  fee_increase_count = u64 (p.fee_increase_count + 1);
  underpriced_info = none;
}

unfoldable pub to_self : CancellingState → CancellingState
to_self c = record { fee_increase_count = u64 (c.fee_increase_count + 1) }

unfoldable pub to_cancel_pending : CancellingState → ℕ → CancelPendingState
to_cancel_pending c until = record { until = until; fee_increase_count = c.fee_increase_count }

-- `CancelPendingState::to_cancelling`.
unfoldable pub cancel_again : CancelPendingState → CancellingState
cancel_again c = record { fee_increase_count = u64 (c.fee_increase_count + 1) }
