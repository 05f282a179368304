-- ===== src/Builder/Sender/Examples.antt =====
-- Tests of the sender loop, and its theorems at concrete inputs.
use rundler.Common.{
  ℕ, ◌+◌, ◌-◌, ◌*◌, ◌≤◌, ◌≡◌, refl, ap, subst, Bool, true, false, none, some, some_inj, List, [],
  ◌∷◌, map, arith, All, All-append, nat_eq, ◌>>=◌,
}
use rundler.Common.Results.{Result, ok, err}
use rundler.Builder.Assigner.{Pool, Config, OpSummary}
use rundler.Builder.Assigner
use rundler.Builder.Assigner.Locks.{lock_of, held_by, initial-IsConsistent}
use rundler.Builder.Assigner.Isolation.{Isolated}
use rundler.Builder.Assigner.Handed.{LawfulPool, assign_operations-held}
use rundler.Builder.Tracker.{
  TransactionTracker, TransactionSender, EvmProvider, AddressUpdate, CancelTxInfo,
  TransactionTrackerError,
}
use rundler.Builder.States.{
  InnerState, BuildingState, building, pending, cancelling, cancel_pending, to_cancelling,
}
use rundler.Builder.Machine.{SenderMachineState, Event, NewHead}
use rundler.Builder.Machine
use rundler.Builder.Tracker
use rundler.Builder.States
use rundler.Common.HashMap
use rundler.Common.HashSet
use rundler.Builder.Sender.{
  Env, Bundle, BundleSender, Settings, no_operations_after_fee_filter, step, run, after_attempt,
  after_fee_filter, concat, dispatch, handle_cancelling_state, handle_building_state, send_bundle,
  send_bundle_inner, settle_locks, clean_pool, get_bundle_tx,
}
use rundler.Builder.Sender.Steps.{LawfulEnv}
use rundler.Builder.Sender.Resets.{IsFresh, wait_for_trigger-IsFresh}
use rundler.Builder.Sender.Safety.{run_safe}
use rundler.Builder.Sender.Cancelling.{cancel_rank, CancelStep, step-CancelStep}
use rundler.Builder.Sender.Starting.{Outcome, after_attempt-Outcome}

-- The operations 101 and 102 of the senders 1 and 2, as pairs of sender and hash.
abbrev sender_of : ℕ → ℕ
sender_of hash = hash - 100

abbrev summaries : List OpSummary
summaries = record { hash = 101; sender = 1 } ∷ record { hash = 102; sender = 2 } ∷ []

abbrev with_sender : ℕ → ℕ × ℕ
with_sender h = (sender_of h, h)

abbrev pool : Pool (ℕ × ℕ)
pool = record {
  get_ops_summaries = λ e n f. some summaries;
  get_ops_by_hashes = λ e hs. some (map with_sender hs);
}

abbrev bundle_of : List (ℕ × ℕ) → Bundle
bundle_of ops = record {
  ops_per_aggregator = ops ∷ [];
  rejected_ops = [];
  entity_updates = [];
  gas_fees = record { max_fee_per_gas = 100; max_priority_fee_per_gas = 10 };
  body = 0;
}

abbrev node : EvmProvider
node = record {
  get_transaction_count = some 5;
  get_balance = some 1000;
  get_transaction_by_hash = λ h. some none;
  get_transaction_receipt = λ h. some none;
}

abbrev tx_sender : TransactionSender
tx_sender = record {
  send_transaction = λ tx. ok 78;
  cancel_transaction = λ h n f. ok (record { tx_hash = 79; soft_cancelled = false });
}

abbrev settings : Settings
settings = record {
  max_replacement_underpriced_blocks = 20;
  max_cancellation_fee_increases = 15;
  max_blocks_to_wait_for_mine = 2;
}

abbrev env : Env (ℕ × ℕ)
env = record {
  settings = settings;
  assigner_config = record { max_pool_ops_per_request = 10; max_bundle_size = 5 };
  sender_eoa = 7;
  ep_address = 0;
  filter_id = none;
  pool = pool;
  make_bundle = λ ops h b f r. ok (bundle_of ops);
  estimate_gas_fees = λ h. none;
  get_send_bundle_transaction = λ b. record {
    nonce = none;
    max_fee_per_gas = some 100;
    max_priority_fee_per_gas = some 10;
    body = 0;
  };
  evm = node;
  tx_sender = tx_sender;
}

abbrev tracker : TransactionTracker
tracker = record {
  replacement_fee_percent_increase = 10;
  nonce = 5;
  balance = 1000;
  transactions = [];
  has_abandoned = false;
  attempt_count = 0;
}

abbrev head : ℕ → NewHead
head n = record { block_hash = n; block_number = n; address_updates = [] }

abbrev next_block : ℕ → Event
next_block n = record {
  last_block = head n;
  builder_must_wait_for_trigger = false;
  trigger = some none;
  block = true;
}

abbrev machine_in : InnerState → SenderMachineState
machine_in i = record {
  builder_must_wait_for_trigger = false;
  last_block = head 9;
  transaction_tracker = tracker;
  send_bundle_response = none;
  inner = i;
  requires_reset = false;
  calls = [];
}

abbrev start : BundleSender
start = record {
  assigner = Assigner.initial;
  machine = machine_in (
      building
        (record { wait_for_trigger = true; fee_increase_count = 0; underpriced_info = none }));
}

with_sender-All :
    (P : ℕ → Bool) (hs : List ℕ)
    → All (λ h. P (sender_of h) ≡ true) hs
    → All (λ o. P o.0 ≡ true) (map with_sender hs)
with_sender-All P [] h = tt
with_sender-All P (x ∷ hs) h = (h.0, with_sender-All P hs h.1)

pool-LawfulPool : LawfulPool pool (λ o. o.0)
pool-LawfulPool = record {
  sender_of = sender_of;
  summaries = λ e n f ops h.
      subst (λ l. All (λ s. s.sender ≡ sender_of s.hash) l) (some_inj h) (refl, (refl, tt));
  by_hashes = λ e hs ops P h a.
      subst (λ l. All (λ o. P o.0 ≡ true) l) (some_inj h) (with_sender-All P hs a);
}

handed_test :
    (Assigner.assign_operations pool env.assigner_config Assigner.initial 7 0 none).1
    ≡ some ((1, 101) ∷ (2, 102) ∷ [])
unfolding Assigner.assign_operations Assigner.assign_loop HashMap.get HashMap.insert HashSet.insert
handed_test = refl

assign_operations-held_example :
    All
      (λ (o : ℕ × ℕ).
        held_by 7 (
          lock_of
            (Assigner.assign_operations pool env.assigner_config Assigner.initial 7 0 none).0
            o.0)
        ≡ true)
      ((1, 101) ∷ (2, 102) ∷ [])
assign_operations-held_example =
    assign_operations-held pool (λ o. o.0) env.assigner_config Assigner.initial 7 0 none
      ((1, 101) ∷ (2, 102) ∷ []) pool-LawfulPool initial-IsConsistent handed_test

abbrev ops_of : {E : Type 0} → Result E Bundle → List (ℕ × ℕ)
ops_of (ok b) = concat b.ops_per_aggregator
ops_of (err e) = []

env-LawfulEnv : LawfulEnv env (λ o. o.0)
env-LawfulEnv = record {
  pool = pool-LawfulPool;
  bundles = λ ops h b f r bundle P e a.
      subst (λ l. All (λ op. P op.0 ≡ true) l) (ap ops_of e)
        (All-append (λ op. P op.0 ≡ true) ops [] a tt);
}

run_safe_example :
    (c : BundleSender) × (run ((env, next_block 10) ∷ (env, next_block 13) ∷ []) start ≡ some c)
    × Isolated 7 Assigner.initial c.assigner
run_safe_example =
    run_safe (λ o. o.0) 7 ((env, next_block 10) ∷ (env, next_block 13) ∷ []) start
      ((env-LawfulEnv, refl), ((env-LawfulEnv, refl), tt)) initial-IsConsistent

abbrev in_cancelling : BundleSender
in_cancelling = record {
  assigner = Assigner.initial;
  machine = machine_in (cancelling (record { fee_increase_count = 14 }));
}

abbrev cancel_sent : BundleSender
cancel_sent = record {
  assigner = Assigner.initial;
  machine = record (machine_in (cancel_pending (record { until = 11; fee_increase_count = 14 }))) {
    transaction_tracker = record tracker {
      transactions =
          record {
            tx_hash = some 79;
            gas_fees = record { max_fee_per_gas = 0; max_priority_fee_per_gas = 0 };
            attempt_number = 0;
            sent_at_block = none;
          }
          ∷ [];
      attempt_count = 1;
    };
  };
}

cancel_test : step env (next_block 10) in_cancelling ≡ some cancel_sent
unfolding step dispatch handle_cancelling_state Machine.wait_for_trigger Machine.wait
    Machine.finish_reset Tracker.cancel_transaction Tracker.cancellation Tracker.last_sent
    States.to_cancel_pending
cancel_test = refl

step-CancelStep_example :
    CancelStep 15 (cancelling (record { fee_increase_count = 14 })) cancel_sent
    × (cancel_rank 15 (cancelling (record { fee_increase_count = 14 })) ≤ 2 * 15 + 2)
step-CancelStep_example =
    step-CancelStep env (next_block 10) in_cancelling cancel_sent (omega arith) (omega arith)
      cancel_test

abbrev long_underpriced : BuildingState
long_underpriced = record {
  wait_for_trigger = true;
  fee_increase_count = 2;
  underpriced_info = some (record { since_block = 10; rounds = 3 });
}

after_attempt-Outcome_example :
    Outcome settings long_underpriced 30
      (some no_operations_after_fee_filter)
      (machine_in (cancelling (record { fee_increase_count = 0 })))
unfolding after_attempt after_fee_filter to_cancelling
after_attempt-Outcome_example =
    after_attempt-Outcome settings node long_underpriced 30 (some no_operations_after_fee_filter)
      (machine_in (building long_underpriced))
      (machine_in (cancelling (record { fee_increase_count = 0 }))) refl

-- An attempt is sent and waits until block 12; at block 13 it is built again with raised fees.
sent_test :
    (run ((env, next_block 10) ∷ []) start >>= λ c. some c.machine.inner)
    ≡ some (pending (record { until = 12; fee_increase_count = 0 }))
unfolding run step dispatch handle_building_state send_bundle send_bundle_inner settle_locks
    after_attempt clean_pool get_bundle_tx Machine.wait_for_trigger Machine.wait
    Machine.finish_reset Machine.process_last_block Machine.find_address_update Tracker.get_state
    Tracker.required_fees Tracker.send_transaction Tracker.validate_transaction
    Assigner.assign_operations Assigner.assign_loop Assigner.lock_sender Assigner.add_sender
    Assigner.confirm_senders_drop_unused Assigner.confirm_loop Assigner.unconfirmed
    Assigner.remove_loop HashMap.get HashMap.insert HashSet.insert States.to_pending
sent_test = refl

wait_for_trigger-IsFresh_example :
    let (n, r) =
      Machine.wait_for_trigger node 7 (next_block 10) (Machine.reset cancel_sent.machine) in
    (r ≡ some none)
    × (n.inner ≡ building States.reset_building)
    × (n.requires_reset ≡ false)
    × (n.last_block ≡ cancel_sent.machine.last_block)
    × IsFresh n.transaction_tracker
wait_for_trigger-IsFresh_example =
    wait_for_trigger-IsFresh node 7 (next_block 10) cancel_sent.machine
