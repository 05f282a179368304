-- ===== src/Builder/Sender/Cancelling.antt =====
-- Cancellations in crates/builder/src/bundle_sender.rs: when they start, and that they end.
use rundler.Common.{
  ℕ, ◌+◌, ◌-◌, ◌*◌, ◌<◌, ◌≤◌, ◌≡◌, refl, sym, ◌∙◌, subst, ◌⊎◌, inl, inr, Option, none, some, arith,
  Option-cases, some_inj, u64_mod, nat_eq,
}
use rundler.Builder.Tracker.{TrackerUpdate, EvmProvider}
use rundler.Builder.States.{
  InnerState, CancellingState, CancelPendingState, building, pending, cancelling, cancel_pending,
  to_self, cancel_again, to_cancel_pending,
}
use rundler.Builder.Machine.{
  SenderMachineState, Event, wait_for_trigger, wait, finish_reset, process_last_block,
}
use rundler.Builder.Sender.{
  Env, BundleSender, Settings, handle_cancelling_state, handle_cancel_pending_state, dispatch, step,
  release,
}

-- How far a cancellation is from its end, for a largest number of fee increases.
abbrev pub cancel_rank : ℕ → InnerState → ℕ
cancel_rank max_increases (building s) = 0
cancel_rank max_increases (pending s) = 0
cancel_rank max_increases (cancelling s) = 2 * (max_increases - s.fee_increase_count) + 2
cancel_rank max_increases (cancel_pending s) = 2 * (max_increases - s.fee_increase_count) + 1

-- The wait leaves the state of the loop as it is.
pub wait_for_trigger-inner :
    (p : EvmProvider) (address : ℕ) (e : Event) (m : SenderMachineState)
    → (wait_for_trigger p address e m).0.inner ≡ m.inner
unfolding wait_for_trigger wait finish_reset process_last_block
wait_for_trigger-inner p address e m = ground arith

handle_cancelling_state-rank :
    {PoolOperation : Type 0} (env : Env PoolOperation) (b : BundleSender) (s : CancellingState)
    → env.settings.max_cancellation_fee_increases < u64_mod
    → cancel_rank env.settings.max_cancellation_fee_increases
        (handle_cancelling_state env b s).machine.inner
      < cancel_rank env.settings.max_cancellation_fee_increases (cancelling s)
unfolding handle_cancelling_state to_self to_cancel_pending
handle_cancelling_state-rank env b s h = ground arith

-- The cancellation is waiting for a block.
abbrev pub StillWaiting : BundleSender → CancelPendingState → Type 0
StillWaiting c s =
    (c.machine.inner ≡ cancel_pending s) × (c.machine.last_block.block_number < s.until)

handle_cancel_pending_state-rank :
    (settings : Settings) (eoa : ℕ) (b : BundleSender) (s : CancelPendingState)
    (u : Option TrackerUpdate)
    → settings.max_cancellation_fee_increases < u64_mod
    → b.machine.inner ≡ cancel_pending s
    → (cancel_rank settings.max_cancellation_fee_increases
          (handle_cancel_pending_state settings eoa b s u).machine.inner
        < cancel_rank settings.max_cancellation_fee_increases (cancel_pending s))
      ⊎ StillWaiting (handle_cancel_pending_state settings eoa b s u) s
unfolding handle_cancel_pending_state cancel_again
handle_cancel_pending_state-rank settings eoa b s u h e = ground arith

-- A turn in a cancellation.
abbrev pub CancelStep : ℕ → InnerState → BundleSender → Type 0
CancelStep max_increases i c =
    (cancel_rank max_increases c.machine.inner < cancel_rank max_increases i)
    ⊎ ((s : CancelPendingState) × (i ≡ cancel_pending s) × StillWaiting c s)

module _ {PoolOperation : Type 0} (env : Env PoolOperation) (b : BundleSender)
    (u : Option TrackerUpdate) where
  dispatch-cancelling :
      (s : CancellingState)
      → b.machine.inner ≡ cancelling s
      → dispatch env b u ≡ some (handle_cancelling_state env b s)
  unfolding dispatch
  dispatch-cancelling s e = ground arith

  dispatch-cancel_pending :
      (s : CancelPendingState)
      → b.machine.inner ≡ cancel_pending s
      → dispatch env b u ≡ some (handle_cancel_pending_state env.settings env.sender_eoa b s u)
  unfolding dispatch
  dispatch-cancel_pending s e = ground arith

  dispatch-CancelStep :
      (c : BundleSender) (i : InnerState)
      → env.settings.max_cancellation_fee_increases < u64_mod
      → 0 < cancel_rank env.settings.max_cancellation_fee_increases i
      → b.machine.inner ≡ i
      → dispatch env b u ≡ some c
      → CancelStep env.settings.max_cancellation_fee_increases i c
  dispatch-CancelStep c (building s) h pos e d = absurd (omega arith)
  dispatch-CancelStep c (pending s) h pos e d = absurd (omega arith)
  dispatch-CancelStep c (cancelling s) h pos e d =
      subst (λ x. CancelStep env.settings.max_cancellation_fee_increases (cancelling s) x)
        (some_inj (sym (dispatch-cancelling s e) ∙ d))
        (inl (handle_cancelling_state-rank env b s h))
  dispatch-CancelStep c (cancel_pending s) h pos e d =
      subst (λ x. CancelStep env.settings.max_cancellation_fee_increases (cancel_pending s) x)
        (some_inj (sym (dispatch-cancel_pending s e) ∙ d))
        (elim (handle_cancel_pending_state-rank env.settings env.sender_eoa b s u h e) [
          | inl less ↦ inl less
          | inr still ↦ inr (s, refl, still)
        ])

cancel_rank_le : (n : ℕ) (i : InnerState) → cancel_rank n i ≤ 2 * n + 2
cancel_rank_le n i = ground arith

-- A cancellation ends: each turn in it lowers a rank that is at most twice the largest number of fee
-- increases plus two and that is zero once the loop builds again, or the cancellation's transaction is
-- still waiting for the block until which it may wait. The largest number of fee increases is a u64.
pub step-CancelStep :
    {PoolOperation : Type 0} (env : Env PoolOperation) (event : Event) (b c : BundleSender)
    → env.settings.max_cancellation_fee_increases < u64_mod
    → 0 < cancel_rank env.settings.max_cancellation_fee_increases b.machine.inner
    → step env event b ≡ some c
    → CancelStep env.settings.max_cancellation_fee_increases b.machine.inner c
      × (cancel_rank env.settings.max_cancellation_fee_increases b.machine.inner
          ≤ 2 * env.settings.max_cancellation_fee_increases + 2)
unfolding step
step-CancelStep env event b c h pos =
    let n = env.settings.max_cancellation_fee_increases in
    let (m, r) = wait_for_trigger env.evm env.sender_eoa event b.machine in
    let same : m.inner ≡ b.machine.inner =
      wait_for_trigger-inner env.evm env.sender_eoa event b.machine in
    let waited : BundleSender = record b { machine = m } in
    elim (Option-cases r) [
      | inl failed ↦
          rw (step, failed)
            (λ d. (
              subst (λ x. CancelStep n b.machine.inner x) (some_inj d) (inl pos),
              cancel_rank_le n b.machine.inner,
            ))
      | inr (none, calm) ↦
          rw (step, calm)
            (λ d. (
              dispatch-CancelStep env waited none c b.machine.inner h pos same d,
              cancel_rank_le n b.machine.inner,
            ))
      | inr (some u, calm) ↦
          rw (step, calm)
            (λ d. (
              dispatch-CancelStep env (release env.sender_eoa waited) (some u) c b.machine.inner h
                  pos same d,
              cancel_rank_le n b.machine.inner,
            ))
    ]
