-- ===== src/Builder/Sender/Safety.antt =====
-- The loop of crates/builder/src/bundle_sender.rs does not panic and leaves the other builders' locks
-- alone.
use rundler.Common.{
  ℕ, ◌≡◌, refl, sym, ◌∙◌, ap, subst, ◌⊎◌, inl, inr, true, Option, none, some, List, [], ◌∷◌, ltb,
  leb, arith, Option-cases, Bool-cases, All, ◌-◌, nat_eq,
}
use rundler.Builder.Tracker.{TrackerUpdate, EvmProvider}
use rundler.Builder.States.{
  InnerState, BuildingState, CancellingState, CancelPendingState, building, pending, cancelling,
  cancel_pending, underpriced_round,
}
use rundler.Builder.Machine.{SenderMachineState, Event, no_operations, wait_for_trigger}
use rundler.Builder.Assigner
use rundler.Builder.Assigner.{assign_operations, release_all}
use rundler.Builder.Assigner.Locks.{lock_of, held_by, IsConsistent}
use rundler.Builder.Assigner.Handed.{assign_operations-held}
use rundler.Builder.Assigner.Isolation.{
  Isolated, Isolated-refl, Isolated-trans, assign_operations-Isolated, release_all-Isolated,
}
use rundler.Builder.Sender.{
  Env, BundleSender, Settings, SendBundleAttemptResult, success, no_operations_initially,
  no_operations_after_fee_filter, no_operations_after_simulation, replacement_underpriced,
  condition_not_met, rejected, insufficient_funds, nonce_too_low, send_bundle_inner, settle_locks,
  send_bundle, after_fee_filter, after_attempt, abandon_if_increased, handle_building_state,
  handle_cancelling_state, handle_cancel_pending_state, dispatch, step, run, release,
}
use rundler.Builder.Sender.Steps.{
  LawfulEnv, send_bundle_inner-inner, send_bundle_inner-success, settle_locks-total,
  no_operations-total,
}

module _ {PoolOperation : Type 0} (env : Env PoolOperation) (sender : PoolOperation → ℕ)
    (law : LawfulEnv env sender) where
  -- An attempt on given operations, whose senders the builder holds.
  attempt_total :
      (b : BundleSender) (op : PoolOperation) (ops : List PoolOperation) (n : ℕ)
      → IsConsistent b.assigner
      → All (λ o. held_by env.sender_eoa (lock_of b.assigner (sender o)) ≡ true) (op ∷ ops)
      → let (m, r) = send_bundle_inner env b.machine (op ∷ ops) n in
        (c : BundleSender) × (settle_locks env.sender_eoa r (record b { machine = m }) ≡ some c)
        × Isolated env.sender_eoa b.assigner c.assigner
        × (c.machine ≡ m)
  attempt_total b op ops n v held =
      settle_locks-total env.sender_eoa (sender op)
        (record b { machine = (send_bundle_inner env b.machine (op ∷ ops) n).0 }) v held.0
        (send_bundle_inner env b.machine (op ∷ ops) n).1
        (λ out e.
          send_bundle_inner-success env sender b.machine (op ∷ ops) n out
            (λ y. held_by env.sender_eoa (lock_of b.assigner y)) law held e)

  -- `send_bundle` does not panic.
  send_bundle-total :
      (b : BundleSender) (n : ℕ)
      → IsConsistent b.assigner
      → (c : BundleSender) × (r : Option SendBundleAttemptResult) × (send_bundle env b n
          ≡ some (c, r))
        × Isolated env.sender_eoa b.assigner c.assigner
        × (c.machine.inner ≡ b.machine.inner)
  unfolding send_bundle
  send_bundle-total b n v =
      let (a, r) =
        assign_operations env.pool env.assigner_config b.assigner env.sender_eoa env.ep_address
          env.filter_id in
      let iso : Isolated env.sender_eoa b.assigner a =
        assign_operations-Isolated env.pool env.assigner_config b.assigner env.sender_eoa
          env.ep_address env.filter_id v in
      elim (Option-cases r) [
        | inl failed ↦ (record b { assigner = a }, none, rw (send_bundle, failed) refl, iso, refl)
        | inr ([], got) ↦ (
          release env.sender_eoa (record b { assigner = a }),
          some no_operations_initially,
          rw (send_bundle, got) refl,
          Isolated-trans env.sender_eoa b.assigner a (release_all a env.sender_eoa) iso
              (release_all-Isolated a env.sender_eoa iso.consistent),
          refl,
        )
        | inr (op ∷ ops, got) ↦
            let held =
              assign_operations-held env.pool sender env.assigner_config b.assigner env.sender_eoa
                env.ep_address env.filter_id (op ∷ ops) law.pool v got in
            let (c, done, settled, same) =
              attempt_total (record b { assigner = a }) op ops n iso.consistent held in
            (
              c,
              (send_bundle_inner env b.machine (op ∷ ops) n).1,
              rw (send_bundle, got, done) refl,
              Isolated-trans env.sender_eoa b.assigner a c.assigner iso settled,
              ap (λ m. m.inner) same ∙ send_bundle_inner-inner env b.machine (op ∷ ops) n,
            )
      ]

no_operations_abandoned :
    (m : SenderMachineState) (s : BuildingState) (n : ℕ)
    → m.inner ≡ building s
    → (k : SenderMachineState) × (no_operations (abandon_if_increased n m) ≡ some k)
no_operations_abandoned m s n e = no_operations-total (abandon_if_increased n m) s (ground arith)

after_attempt-total :
    (settings : Settings) (evm : EvmProvider) (s : BuildingState) (n : ℕ)
    (r : Option SendBundleAttemptResult) (m : SenderMachineState)
    → m.inner ≡ building s
    → (k : SenderMachineState) × (after_attempt settings evm s n r m ≡ some k)
unfolding after_attempt after_fee_filter underpriced_round
after_attempt-total settings evm s n (some no_operations_initially) m e =
    no_operations_abandoned m s s.fee_increase_count e
after_attempt-total settings evm s n (some no_operations_after_simulation) m e =
    no_operations_abandoned m s s.fee_increase_count e
after_attempt-total settings evm s n (some no_operations_after_fee_filter) m e =
    elim (Option-cases s.underpriced_info) [
      | inl no_info ↦ elim (Bool-cases (ltb 0 s.fee_increase_count)) [
        | inl increased ↦ rw (no_info, increased) (_, refl)
        | inr fresh ↦ rw (no_info, fresh) (no_operations-total m s e)
      ]
      | inr (info, known) ↦
          elim (Bool-cases
            (leb settings.max_replacement_underpriced_blocks (n - info.since_block))) [
              | inl long ↦ rw (known, long) (_, refl)
              | inr short ↦ rw (known, short) (_, refl)
            ]
    ]
after_attempt-total settings evm s n (some (success out)) m e = (_, refl)
after_attempt-total settings evm s n (some nonce_too_low) m e = (_, refl)
after_attempt-total settings evm s n (some SendBundleAttemptResult.underpriced) m e = (_, refl)
after_attempt-total settings evm s n (some replacement_underpriced) m e = (_, refl)
after_attempt-total settings evm s n (some condition_not_met) m e = (_, refl)
after_attempt-total settings evm s n (some rejected) m e = (_, refl)
after_attempt-total settings evm s n (some insufficient_funds) m e = (_, refl)
after_attempt-total settings evm s n none m e = (_, refl)

handle_building_state-total :
    {PoolOperation : Type 0} (env : Env PoolOperation) (sender : PoolOperation → ℕ)
    (b : BundleSender) (s : BuildingState)
    → LawfulEnv env sender
    → IsConsistent b.assigner
    → b.machine.inner ≡ building s
    → (c : BundleSender) × (handle_building_state env b s ≡ some c)
      × Isolated env.sender_eoa b.assigner c.assigner
unfolding handle_building_state
handle_building_state-total env sender b s law v e =
    let (c, r, sent, iso, same) = send_bundle-total env sender law b s.fee_increase_count v in
    let (m, done) =
      after_attempt-total env.settings env.evm s b.machine.last_block.block_number r c.machine
        (same ∙ e) in
    (record c { machine = m }, rw (handle_building_state, sent, done) refl, iso)

-- What a turn promises.
abbrev Safe :
    {PoolOperation : Type 0} → Env PoolOperation → BundleSender → Option BundleSender → Type 0
Safe env b r = (c : BundleSender) × (r ≡ some c) × Isolated env.sender_eoa b.assigner c.assigner

module _ {PoolOperation : Type 0} (env : Env PoolOperation) (b : BundleSender)
    (v : IsConsistent b.assigner) where
  here : Isolated env.sender_eoa b.assigner b.assigner
  here = Isolated-refl env.sender_eoa b.assigner v

  released : Isolated env.sender_eoa b.assigner (release_all b.assigner env.sender_eoa)
  released = release_all-Isolated b.assigner env.sender_eoa v

  kept_or_released :
      (a : Assigner.State)
      → (a ≡ b.assigner) ⊎ (a ≡ release_all b.assigner env.sender_eoa)
      → Isolated env.sender_eoa b.assigner a
  kept_or_released a (inl e) = subst (λ x. Isolated env.sender_eoa b.assigner x) (sym e) here
  kept_or_released a (inr e) = subst (λ x. Isolated env.sender_eoa b.assigner x) (sym e) released

  handle_cancelling_state-Isolated :
      (s : CancellingState)
      → Isolated env.sender_eoa b.assigner (handle_cancelling_state env b s).assigner
  unfolding handle_cancelling_state
  handle_cancelling_state-Isolated s =
      kept_or_released (handle_cancelling_state env b s).assigner (ground arith)

  handle_cancel_pending_state-Isolated :
      (s : CancelPendingState) (u : Option TrackerUpdate)
      → Isolated env.sender_eoa b.assigner
          (handle_cancel_pending_state env.settings env.sender_eoa b s u).assigner
  unfolding handle_cancel_pending_state
  handle_cancel_pending_state-Isolated s u =
      kept_or_released (handle_cancel_pending_state env.settings env.sender_eoa b s u).assigner
        (ground arith)

  dispatch-total :
      (sender : PoolOperation → ℕ) (u : Option TrackerUpdate) (i : InnerState)
      → LawfulEnv env sender
      → b.machine.inner ≡ i
      → Safe env b (dispatch env b u)
  unfolding dispatch handle_building_state
  dispatch-total sender u (building s) law e =
      rw (dispatch, e) (handle_building_state-total env sender b s law v e)
  dispatch-total sender u (pending s) law e = rw (dispatch, e) (_, refl, here)
  dispatch-total sender u (cancelling s) law e =
      rw (dispatch, e) (_, refl, handle_cancelling_state-Isolated s)
  dispatch-total sender u (cancel_pending s) law e =
      rw (dispatch, e) (_, refl, handle_cancel_pending_state-Isolated s u)

-- A turn of the loop does not panic, whatever the node, the transaction sender and the waits answer,
-- and from it on the assigner's maps are consistent and no lock of another builder is made, changed or
-- dropped, where the proposer bundles operations that it was given only and the pool gives operations
-- with the senders of their hashes.
step_safe :
    {PoolOperation : Type 0} (env : Env PoolOperation) (sender : PoolOperation → ℕ) (event : Event)
    (b : BundleSender)
    → LawfulEnv env sender
    → IsConsistent b.assigner
    → (c : BundleSender) × (step env event b ≡ some c)
      × Isolated env.sender_eoa b.assigner c.assigner
unfolding step
step_safe env sender event b law v =
    let (m, r) = wait_for_trigger env.evm env.sender_eoa event b.machine in
    let c : BundleSender = record b { machine = m } in
    elim (Option-cases r) [
      | inl failed ↦ rw (step, failed) (_, refl, released env b v)
      | inr (none, calm) ↦ rw (step, calm) (dispatch-total env c v sender none m.inner law refl)
      | inr (some u, calm) ↦
          let iso = released env b v in
          let (d, done, next) =
            dispatch-total env (release env.sender_eoa c) iso.consistent sender (some u) m.inner law
              refl in
          (
            d,
            rw (step, calm) done,
            Isolated-trans env.sender_eoa b.assigner (release_all b.assigner env.sender_eoa)
                d.assigner iso next,
          )
    ]

-- The loop never panics, along any list of environments of one builder that are lawful, and no turn of
-- it makes, changes or drops a lock of another builder.
pub run_safe :
    {PoolOperation : Type 0} (sender : PoolOperation → ℕ) (eoa : ℕ)
    (es : List (Env PoolOperation × Event)) (b : BundleSender)
    → All (λ e. LawfulEnv e.0 sender × (e.0.sender_eoa ≡ eoa)) es
    → IsConsistent b.assigner
    → (c : BundleSender) × (run es b ≡ some c) × Isolated eoa b.assigner c.assigner
unfolding run
run_safe sender eoa [] b laws v = (b, refl, Isolated-refl eoa b.assigner v)
run_safe sender eoa ((env, event) ∷ es) b laws v =
    let (c, done, first) = step_safe env sender event b laws.0.0 v in
    let (d, rest, next) = run_safe sender eoa es c laws.1 first.consistent in
    (
      d,
      rw (done) rest,
      Isolated-trans eoa b.assigner c.assigner d.assigner
          (subst (λ a. Isolated a b.assigner c.assigner) laws.0.1 first) next,
    )
