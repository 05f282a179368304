-- ===== src/Builder/Sender/Steps.antt =====
-- The parts of a building step of crates/builder/src/bundle_sender.rs: what they keep, and that they do
-- not panic.
use rundler.Common.{
  ℕ, ◌≡◌, refl, subst, ◌⊎◌, inl, inr, Bool, true, Option, none, some, List, [], ◌∷◌, map, nat_beq,
  nat_eq, if◌then◌else◌, ltb, arith, Bool-cases, All,
}
use rundler.Common.Results.{Result, ok, err}
use rundler.Types.Gas.{GasFees}
use rundler.Builder.Assigner
use rundler.Builder.Tracker
use rundler.Builder.Tracker.{get_state, TransactionTrackerError, EvmProvider}
use rundler.Builder.States.{BuildingState, building}
use rundler.Builder.Machine.{SenderMachineState, no_operations}
use rundler.Builder.Assigner.Locks.{lock_of, held_by, IsConsistent}
use rundler.Builder.Assigner.Handed.{LawfulPool}
use rundler.Builder.Assigner.Isolation.{
  Isolated, release_all-Isolated, confirm_senders_drop_unused-Isolated,
}
use rundler.Builder.Sender.{
  Env, Bundle, BundleSender, SendBundleAttemptResult, success, no_operations_initially,
  no_operations_after_fee_filter, no_operations_after_simulation, replacement_underpriced,
  condition_not_met, rejected, insufficient_funds, nonce_too_low, concat, clean_pool, get_bundle_tx,
  attempt_error, send_bundle_inner, settle_locks, release, with_assigner,
}

-- The proposer bundles operations that it was given only, and the pool is lawful.
pub record LawfulEnv {PoolOperation : Type 0} (env : Env PoolOperation) (sender : PoolOperation → ℕ)
    : Type 0 where
  pub pool : LawfulPool env.pool sender
  pub bundles :
      (ops : List PoolOperation) (block_hash balance : ℕ) (fees : Option GasFees)
      (is_replacement : Bool) (bundle : Bundle) (P : ℕ → Bool)
      → env.make_bundle ops block_hash balance fees is_replacement ≡ ok bundle
      → All (λ o. P (sender o) ≡ true) ops
      → All (λ op. P op.0 ≡ true) (concat bundle.ops_per_aggregator)

Result-cases : {E A : Type 0} (r : Result E A) → ((a : A) × (r ≡ ok a)) ⊎ ((e : E) × (r ≡ err e))
Result-cases (ok a) = inl (a, refl)
Result-cases (err e) = inr (e, refl)

clean_pool-inner : (b : Bundle) (m : SenderMachineState) → (clean_pool b m).inner ≡ m.inner
unfolding clean_pool
clean_pool-inner b m = ground arith

pub send_bundle_inner-inner :
    {PoolOperation : Type 0} (env : Env PoolOperation) (m : SenderMachineState)
    (ops : List PoolOperation) (n : ℕ)
    → (send_bundle_inner env m ops n).0.inner ≡ m.inner
unfolding send_bundle_inner clean_pool get_bundle_tx
send_bundle_inner-inner env m ops n = ground arith

send_bundle_inner-bundle :
    {PoolOperation : Type 0} (env : Env PoolOperation) (m : SenderMachineState)
    (ops : List PoolOperation) (n : ℕ) (out : List (ℕ × ℕ))
    → (send_bundle_inner env m ops n).1 ≡ some (success out)
    → let s = get_state m.transaction_tracker in
      (bundle : Bundle) × (env.make_bundle ops m.last_block.block_hash s.balance s.required_fees
          (ltb 0 n)
        ≡ ok bundle)
      × (concat bundle.ops_per_aggregator ≡ out)
unfolding send_bundle_inner get_bundle_tx attempt_error
send_bundle_inner-bundle env m ops n out e =
    let s = get_state m.transaction_tracker in
    elim (Result-cases
      (env.make_bundle ops m.last_block.block_hash s.balance s.required_fees (ltb 0 n))) [
        | inl (bundle, made) ↦ (bundle, made, ground arith)
        | inr (x, made) ↦ absurd (ground arith)
      ]

pub send_bundle_inner-success :
    {PoolOperation : Type 0} (env : Env PoolOperation) (sender : PoolOperation → ℕ)
    (m : SenderMachineState) (ops : List PoolOperation) (n : ℕ) (out : List (ℕ × ℕ)) (P : ℕ → Bool)
    → LawfulEnv env sender
    → All (λ o. P (sender o) ≡ true) ops
    → (send_bundle_inner env m ops n).1 ≡ some (success out)
    → All (λ op. P op.0 ≡ true) out
unfolding send_bundle_inner get_bundle_tx
send_bundle_inner-success env sender m ops n out P law h e =
    let s = get_state m.transaction_tracker in
    let (bundle, made, same) = send_bundle_inner-bundle env m ops n out e in
    subst (λ l. All (λ op. P op.0 ≡ true) l) same
      (law.bundles ops m.last_block.block_hash s.balance s.required_fees (ltb 0 n) bundle P made h)

keep_senders :
    (P : ℕ → Bool) (out : List (ℕ × ℕ))
    → All (λ op. P op.0 ≡ true) out
    → All (λ y. P y ≡ true) (map (λ op. op.0) out)
keep_senders P [] h = tt
keep_senders P (op ∷ out) h = (h.0, keep_senders P out h.1)

module _ (eoa x : ℕ) (b : BundleSender) (v : IsConsistent b.assigner)
    (held : held_by eoa (lock_of b.assigner x) ≡ true) where
  -- The attempt's end does not panic, keeps the machine and touches no other builder's lock.
  abbrev pub Settles : Option SendBundleAttemptResult → Type 0
  Settles r =
      (c : BundleSender) × (settle_locks eoa r b ≡ some c)
      × Isolated eoa b.assigner c.assigner
      × (c.machine ≡ b.machine)

  settle_confirm :
      (cs : List ℕ)
      → All (λ y. held_by eoa (lock_of b.assigner y) ≡ true) cs
      → (c : BundleSender) × (with_assigner b
            (Assigner.confirm_senders_drop_unused b.assigner eoa cs)
          ≡ some c)
        × Isolated eoa b.assigner c.assigner
        × (c.machine ≡ b.machine)
  settle_confirm cs all =
      let (t, done, iso) = confirm_senders_drop_unused-Isolated b.assigner eoa x cs v held all in
      (record b { assigner = t }, rw done refl, iso, refl)

  settle_rest :
      (c : BundleSender) × ((if nat_beq
            (Tracker.num_pending_transactions b.machine.transaction_tracker)
            0
          then some (release eoa b)
          else with_assigner b (Assigner.confirm_senders_drop_unused b.assigner eoa []))
        ≡ some c)
      × Isolated eoa b.assigner c.assigner
      × (c.machine ≡ b.machine)
  settle_rest =
      elim (Bool-cases
        (nat_beq (Tracker.num_pending_transactions b.machine.transaction_tracker) 0)) [
          | inl zero ↦ (release eoa b, rw zero refl, release_all-Isolated b.assigner eoa v, refl)
          | inr some_pending ↦ rw some_pending (settle_confirm [] tt)
        ]

  pub settle_locks-total :
      (r : Option SendBundleAttemptResult)
      → ((out : List (ℕ × ℕ))
          → r ≡ some (success out)
          → All (λ op. held_by eoa (lock_of b.assigner op.0) ≡ true) out)
      → Settles r
  unfolding settle_locks
  settle_locks-total (some (success out)) h =
      settle_confirm (map (λ op. op.0) out)
        (keep_senders (λ y. held_by eoa (lock_of b.assigner y)) out (h out refl))
  settle_locks-total (some nonce_too_low) h =
      (release eoa b, refl, release_all-Isolated b.assigner eoa v, refl)
  settle_locks-total (some no_operations_after_simulation) h =
      (release eoa b, refl, release_all-Isolated b.assigner eoa v, refl)
  settle_locks-total (some no_operations_initially) h = settle_rest
  settle_locks-total (some no_operations_after_fee_filter) h = settle_rest
  settle_locks-total (some SendBundleAttemptResult.underpriced) h = settle_rest
  settle_locks-total (some replacement_underpriced) h = settle_rest
  settle_locks-total (some condition_not_met) h = settle_rest
  settle_locks-total (some rejected) h = settle_rest
  settle_locks-total (some insufficient_funds) h = settle_rest
  settle_locks-total none h = settle_rest

pub no_operations-total :
    (m : SenderMachineState) (b : BuildingState)
    → m.inner ≡ building b
    → (n : SenderMachineState) × (no_operations m ≡ some n)
unfolding no_operations
no_operations-total m b e = rw e (_, refl)
