-- ===== src/Mempool/Histories/Served.antt =====
-- crates/pool/src/mempool/uo_pool.rs: which calls of the inner pool each call of UoPool makes, and so each
-- history.
use rundler.Common.{
  ℕ, ◌≡◌, refl, ap, subst, inl, inr, some, some_inj, List, [], ◌∷◌, ◌++◌, map, arith, Option-cases,
  nat_eq,
}
use rundler.Common.Results.{Result}
use rundler.Mempool.Reputation
use rundler.Mempool.Reputation.{AddressReputation, ReputationStatus}
use rundler.Mempool.Paymaster.{LruMap}
use rundler.Mempool.Paymaster.Tracker.{EntryPoint}
use rundler.Mempool.Admission.{PoolError}
use rundler.Mempool.Calls.{Call, run}
use rundler.Mempool.UoPool.{UoPool}
use rundler.Mempool.Requests.{
  set_tracking, set_reputation, reset_confirmed_paymaster_balances, update_reputation,
}
use rundler.Mempool.Submission.{add_operation}
use rundler.Mempool.Histories.{
  UoCall, chain, submit, drop_hashes, drop_id, sanctions, clears, tracks, sets_reputation,
  resets_balances, uo_step, uo_run,
}
use rundler.Mempool.Histories.Blocks.{ServesUpdate}
use rundler.Mempool.Histories.Submitted.{ServesSubmit, add_operation-Submitted}
use rundler.Mempool.Histories.Blocks.Runs.{on_chain_update-Ran}
use rundler.Mempool.Histories.Refinement.{
  Ran, nil-Ran, and_then, sanction_calls, clear_calls, drop_id_calls, remove_operations-Ran,
  remove_op_by_id-Ran, update_entity-Ran, clear_state-Ran,
}

module _ {Map : Type 0} (lru : LruMap Map) (ep : EntryPoint) where
  -- The calls of the inner pool that a call of UoPool makes.
  abbrev pub Serves : UoPool Map → UoCall → List Call → Type 0
  Serves s (chain update answers) calls = ServesUpdate s update answers calls
  Serves s (submit providers op perms) calls =
      (t : UoPool Map) × (r : Result PoolError ℕ) × (add_operation lru ep providers s op perms
        ≡ some (t, r))
      × ServesSubmit providers op r calls
  Serves s (drop_hashes hashes) calls = calls ≡ map Call.remove_by_hash hashes
  Serves s (drop_id id) calls = calls ≡ drop_id_calls lru ep s id
  Serves s (sanctions update) calls =
      (r : AddressReputation) × (st : ReputationStatus) × (update_reputation lru ep s.reputation
          update
        ≡ some r)
      × (Reputation.status r update.entity.address ≡ some st)
      × (calls ≡ sanction_calls st update.entity s.block_number)
  Serves s (clears pool paymaster reputation) calls = calls ≡ clear_calls lru ep pool
  Serves s (tracks paymaster reputation) calls = calls ≡ []
  Serves s (sets_reputation address seen included) calls = calls ≡ []
  Serves s resets_balances calls = calls ≡ []

  uo_step-Serves :
      (s t : UoPool Map) (call : UoCall)
      → uo_step lru ep s call ≡ some t
      → (calls : List Call) × Serves s call calls × Ran calls s.pool t.pool
  unfolding uo_step set_tracking set_reputation reset_confirmed_paymaster_balances
  uo_step-Serves s t (chain update answers) h = on_chain_update-Ran lru ep s t update answers h
  uo_step-Serves s t (submit providers op perms) h =
      elim (Option-cases (add_operation lru ep providers s op perms)) [
        | inl q ↦ absurd (ground arith)
        | inr ((u, r), q) ↦
            let e : u ≡ t = ground arith in
            let (calls, serves, ran) = add_operation-Submitted lru ep providers op s u perms r q in
            (calls, (u, r, q, serves), subst (λ (v : UoPool Map). Ran calls s.pool v.pool) e ran)
      ]
  uo_step-Serves s t (drop_hashes hashes) h = (
    _,
    refl,
    subst (λ (v : UoPool Map). Ran (map Call.remove_by_hash hashes) s.pool v.pool) (some_inj h)
        (remove_operations-Ran lru ep hashes s),
  )
  uo_step-Serves s t (drop_id id) h = (
    _,
    refl,
    subst (λ (v : UoPool Map). Ran (drop_id_calls lru ep s id) s.pool v.pool) (some_inj h)
        (remove_op_by_id-Ran lru ep s id),
  )
  uo_step-Serves s t (sanctions update) h =
      let (r, st, known, status, ran) = update_entity-Ran lru ep s t update h in
      (_, (r, st, known, status, refl), ran)
  uo_step-Serves s t (clears pool paymaster reputation) h = (
    _,
    refl,
    subst (λ (v : UoPool Map). Ran (clear_calls lru ep pool) s.pool v.pool) (some_inj h)
        (clear_state-Ran lru ep s pool paymaster reputation),
  )
  uo_step-Serves s t (tracks paymaster reputation) h =
      ([], refl, nil-Ran s.pool t.pool (ap (λ (v : UoPool Map). v.pool) (some_inj h)))
  uo_step-Serves s t (sets_reputation address seen included) h =
      ([], refl, nil-Ran s.pool t.pool (ap (λ (v : UoPool Map). v.pool) (some_inj h)))
  uo_step-Serves s t resets_balances h = ([], refl, nil-Ran s.pool t.pool (ground arith))

  -- The calls of the inner pool that a history of UoPool makes: those of its calls one after the other, each
  -- in the state in which it is called.
  abbrev pub Served : UoPool Map → List UoCall → List Call → Type 0
  Served s [] calls = calls ≡ []
  Served s (call ∷ history) calls =
      (t : UoPool Map) × (first : List Call) × (rest : List Call) × (uo_step lru ep s call ≡ some t)
      × Serves s call first
      × Served t history rest
      × (calls ≡ first ++ rest)

  -- A history of UoPool that does not panic takes its inner pool through the calls of the inner pool that
  -- serve it, in their order. They are, for each call of the history: for an update of the chain, those for
  -- the preconfirmed operations and, where it has new blocks, removing the preconfirmed operations that are
  -- out of date, mining each mined and unmining each unmined operation of the pool's entry point,
  -- forgetting, removing by hash the throttled operations that are too old at that time, and maintenance
  -- with the number and the time of the update; for a new operation, adding it as the aggregator left it and
  -- then only throttling or removing entities, or, only where it is refused, nothing; for removals, those of
  -- the given hashes, or of the operation found by the id if it is old enough; for an entity, what its
  -- status after the update asks for; for a clear, clearing where the mempool is to be cleared; and nothing
  -- for the calls that set the reputation, the tracking or the confirmed balances.
  pub uo_run-Served :
      (history : List UoCall) (s t : UoPool Map)
      → uo_run lru ep s history ≡ some t
      → (calls : List Call) × Served s history calls × (run s.pool calls ≡ some t.pool)
  unfolding uo_run
  uo_run-Served [] s t h =
      ([], refl, nil-Ran s.pool t.pool (ap (λ (v : UoPool Map). v.pool) (some_inj h)))
  uo_run-Served (call ∷ history) s t h = elim (Option-cases (uo_step lru ep s call)) [
    | inl q ↦ absurd (ground arith)
    | inr (u, q) ↦
        let (first, serves, ran) = uo_step-Serves s u call q in
        let (rest, served, more) = uo_run-Served history u t (ground arith) in
        (
          first ++ rest,
          (u, first, rest, q, serves, served, refl),
          and_then first rest s.pool u.pool t.pool ran more,
        )
  ]
