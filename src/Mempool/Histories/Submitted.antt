-- ===== src/Mempool/Histories/Submitted.antt =====
-- crates/pool/src/mempool/uo_pool.rs: the calls of the inner pool that `add_operation` makes.
use rundler.Common.{
  ℕ, ◌≡◌, refl, subst, ◌⊎◌, inl, inr, Bool, Option, some, List, [], ◌∷◌, arith, Option-cases, All,
  nat_eq, if◌then◌else◌,
}
use rundler.Common.Results.{Result, ok, err, Result-cases}
use rundler.Common.HashSet
use rundler.Types.Operation
use rundler.Types.Operation.{PoolOperation, UserOperation, UserOperationPermissions}
use rundler.Mempool.Paymaster.{LruMap}
use rundler.Mempool.Paymaster.Tracker
use rundler.Mempool.Paymaster.Tracker.{EntryPoint}
use rundler.Mempool.Pool.{PoolInner}
use rundler.Mempool.Admission
use rundler.Mempool.Admission.{PoolError, paymaster_error}
use rundler.Mempool.Calls.{Call, step}
use rundler.Mempool.UoPool.{UoPool, paid_op}
use rundler.Mempool.Screening.{
  Providers, PrecheckReturn, SimulationResult, check_limits, unseen, unique_entities,
  initial_checks, check_reputation,
}
use rundler.Mempool.Submission.{see_all, account_for, admit, add_operation, validate, pool_op}
use rundler.Mempool.Histories.Refinement.{Ran, one, nil-Ran, and_then, IsSanction, see_all-Ran}

-- The calls for a new operation, by what `add_operation` returns. A refused operation may leave the pool
-- alone. Otherwise, and always where it is accepted, the operation is added to the pool, as the aggregator
-- left it, and entities may be throttled or removed.
abbrev pub ServesSubmit : Providers → UserOperation → Result PoolError ℕ → List Call → Type 0
ServesSubmit providers op r calls =
    (((e : PoolError) × (r ≡ err e)) × (calls ≡ []))
    ⊎ ((po : PoolOperation) × (base_fee : ℕ) × (required_pvg : ℕ) × (rest : List Call)
        × (providers.transform_for_aggregator op ≡ ok po.uo)
        × (calls ≡ Call.add po base_fee required_pvg providers.now ∷ rest)
        × All IsSanction rest)

module _ {Map : Type 0} (lru : LruMap Map) (ep : EntryPoint) where
  account_for-Ran :
      (s t : UoPool Map) (to_replace : Option PoolOperation) (po : PoolOperation) (hash : ℕ)
      (r : Result PoolError ℕ)
      → account_for lru ep s to_replace po hash ≡ some (t, r)
      → (calls : List Call) × All IsSanction calls × Ran calls s.pool t.pool
  unfolding account_for
  account_for-Ran s t to_replace po hash r h =
      elim (Result-cases (Tracker.add_or_update_balance_of lru ep s.paymaster (paid_op po.uo)).1) [
        | inr (e, q) ↦ ([], tt, nil-Ran s.pool t.pool (ground arith))
        | inl (u, q) ↦
            let w : UoPool Map = record s {
              paymaster = (Tracker.add_or_update_balance_of lru ep s.paymaster (paid_op po.uo)).0;
              reputation = unseen s.reputation to_replace;
            } in
            elim (Option-cases (see_all lru ep w (unique_entities [] (Operation.entities po)))) [
              | inl p ↦ absurd (ground arith)
              | inr (v, p) ↦
                  let e : v ≡ t = ground arith in
                  let (calls, only, ran) =
                    see_all-Ran lru ep (unique_entities [] (Operation.entities po)) w v p in
                  (calls, only, subst (λ (x : UoPool Map). Ran calls s.pool x.pool) e ran)
            ]
      ]

  module _ (providers : Providers) (op : UserOperation) where
    -- The calls for the operation with this result, and the pool that they lead to.
    abbrev pub Submitted : UoPool Map → UoPool Map → Result PoolError ℕ → Type 0
    Submitted s t r =
        (calls : List Call) × ServesSubmit providers op r calls × Ran calls s.pool t.pool

    refused :
        (s t : UoPool Map) (e : PoolError) (r : Result PoolError ℕ)
        → s.pool ≡ t.pool
        → r ≡ err e
        → Submitted s t r
    refused s t e r same q = ([], inl ((e, q), refl), nil-Ran s.pool t.pool same)

    admit-Submitted :
        (s t : UoPool Map) (to_replace : Option PoolOperation) (throttled : Bool)
        (po : PoolOperation) (precheck : PrecheckReturn) (r : Result PoolError ℕ)
        → providers.transform_for_aggregator op ≡ ok po.uo
        → admit lru ep s to_replace throttled po precheck providers.now ≡ some (t, r)
        → Submitted s t r
    unfolding admit step
    admit-Submitted s t to_replace throttled po precheck r own h =
        let pvg = precheck.required_pre_verification_gas in
        let added = Call.add po s.base_fee pvg providers.now in
        elim (Result-cases (check_limits s.config s.reputation s.pool to_replace po)) [
          | inr (e, q) ↦ refused s t e r (ground arith) (ground arith)
          | inl (u, q) ↦
              elim (Option-cases (Admission.add_operation s.pool po s.base_fee pvg providers.now)) [
                | inl p ↦ absurd (ground arith)
                | inr ((pool, result), p) ↦
                    let first : Ran (added ∷ []) s.pool pool =
                      one s.pool pool added (ground arith) in
                    elim (Result-cases result) [
                      | inr (e, k) ↦
                          let same : pool ≡ t.pool = ground arith in
                          (
                            added ∷ [],
                            inr (po, s.base_fee, pvg, [], own, refl, tt),
                            subst (λ (x : PoolInner). Ran (added ∷ []) s.pool x) same first,
                          )
                      | inl (hash, k) ↦
                          let w : UoPool Map = record s {
                            pool = pool;
                            throttled_ops =
                                if throttled
                                then HashSet.insert hash s.throttled_ops
                                else s.throttled_ops;
                          } in
                          let (rest, only, ran) =
                            account_for-Ran w t to_replace po hash r (ground arith) in
                          (
                            added ∷ rest,
                            inr (po, s.base_fee, pvg, rest, own, refl, only),
                            and_then (added ∷ []) rest s.pool pool t.pool first ran,
                          )
                    ]
              ]
        ]

    validated :
        (s : UoPool Map) (perms : UserOperationPermissions) (uo : UserOperation)
        (precheck : PrecheckReturn) (sim : SimulationResult)
        → validate lru ep providers s op perms ≡ ok (uo, precheck, sim)
        → providers.transform_for_aggregator op ≡ ok uo
    unfolding validate
    validated s perms uo precheck sim h = ground arith

    pub add_operation-Submitted :
        (s t : UoPool Map) (perms : UserOperationPermissions) (r : Result PoolError ℕ)
        → add_operation lru ep providers s op perms ≡ some (t, r)
        → Submitted s t r
    unfolding add_operation
    add_operation-Submitted s t perms r h =
        elim (Result-cases (initial_checks providers s.pool op)) [
          | inr (e, q) ↦ refused s t e r (ground arith) (ground arith)
          | inl (to_replace, q) ↦
              elim (Option-cases (
                check_reputation s.reputation s.pool s.config.throttled_entity_mempool_count
                  op.entities)) [
                    | inl p ↦ absurd (ground arith)
                    | inr (err e, p) ↦ refused s t e r (ground arith) (ground arith)
                    | inr (ok throttled, p) ↦ elim (Option-cases providers.latest_block) [
                      | inl b ↦ refused s t PoolError.other r (ground arith) (ground arith)
                      | inr (block_number, b) ↦
                          let c = Tracker.check_operation_cost_of lru ep s.paymaster (paid_op op) in
                          let u : UoPool Map = record s { paymaster = c.0 } in
                          elim (Result-cases c.1) [
                            | inr (e, k) ↦
                                refused s t (paymaster_error e) r (ground arith) (ground arith)
                            | inl (done, k) ↦
                                elim (Result-cases (validate lru ep providers u op perms)) [
                                  | inr (e, v) ↦ refused s t e r (ground arith) (ground arith)
                                  | inl ((uo, precheck, sim), v) ↦
                                      admit-Submitted u t to_replace throttled
                                        (pool_op lru ep providers block_number uo perms precheck
                                          sim)
                                        precheck r (validated u perms uo precheck sim v)
                                        (ground arith)
                                ]
                          ]
                    ]
                  ]
        ]
