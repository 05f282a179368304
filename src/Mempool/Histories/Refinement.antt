-- ===== src/Mempool/Histories/Refinement.antt =====
-- crates/pool/src/mempool/uo_pool.rs: the calls of pool.rs that stand for the calls of UoPool other than a
-- new block and a new operation.
use rundler.Common.{
  ℕ, ◌≡◌, refl, inl, inr, nat_eq, ◌∙◌, ap, Bool, true, false, some, none, some_inj, List, [], ◌∷◌,
  ◌++◌, arith, Bool-cases, Option-cases, u64, ◌+◌, ltb, map, All, if◌then◌else◌,
}
use rundler.Types.{UserOperationId}
use rundler.Types.Entity.{Entity}
use rundler.Mempool.Reputation
use rundler.Mempool.Reputation.{AddressReputation, ReputationStatus}
use rundler.Mempool.Paymaster.{LruMap}
use rundler.Mempool.Paymaster.Tracker.{EntryPoint}
use rundler.Mempool.Pool.{PoolInner, remove_operation_by_hash, get_operation_by_id}
use rundler.Mempool.Calls.{Call, step, run, run-append}
use rundler.Mempool.UoPool.{UoPool}
use rundler.Mempool.Requests.{
  EntityUpdate, throttle_entity, remove_entity, remove_operations, remove_op_by_id, sanction,
  update_reputation, update_entity, clear_state,
}
use rundler.Mempool.Submission.{see_all}

-- The calls lead from one pool to the other.
abbrev pub Ran : List Call → PoolInner → PoolInner → Type 0
Ran calls s t = run s calls ≡ some t

pub one : (s t : PoolInner) (call : Call) → step s call ≡ some t → Ran (call ∷ []) s t
unfolding run
one s t call h = rw (run, h) refl

pub nil-Ran : (s t : PoolInner) → s ≡ t → Ran [] s t
unfolding run
nil-Ran s t e = ap some e

pub and_then :
    (calls more : List Call) (s t u : PoolInner)
    → Ran calls s t
    → Ran more t u
    → Ran (calls ++ more) s u
and_then calls more s t u p q = run-append calls more s t p ∙ q

-- What the status of an entity does to the pool.
abbrev pub sanction_calls : ReputationStatus → Entity → ℕ → List Call
sanction_calls ReputationStatus.ok e block_number = []
sanction_calls ReputationStatus.throttled e block_number = Call.throttle e block_number ∷ []
sanction_calls ReputationStatus.banned e block_number = Call.remove_using e ∷ []

abbrev pub IsSanction : Call → Type 0
IsSanction (Call.throttle e block_number) = Unit
IsSanction (Call.remove_using e) = Unit
IsSanction _ = ⊥

pub All-append : (P : Call → Type 0) (xs ys : List Call) → All P xs → All P ys → All P (xs ++ ys)
All-append P [] ys p q = q
All-append P (x ∷ xs) ys p q = (p.0, All-append P xs ys p.1 q)

sanction_calls-IsSanction :
    (st : ReputationStatus) (e : Entity) (n : ℕ) → All IsSanction (sanction_calls st e n)
sanction_calls-IsSanction ReputationStatus.ok e n = tt
sanction_calls-IsSanction ReputationStatus.throttled e n = (tt, tt)
sanction_calls-IsSanction ReputationStatus.banned e n = (tt, tt)

module _ {Map : Type 0} (lru : LruMap Map) (ep : EntryPoint) where
  pub remove_operations-Ran :
      (hashes : List ℕ) (s : UoPool Map)
      → Ran (map Call.remove_by_hash hashes) s.pool (remove_operations lru ep s hashes).pool
  unfolding remove_operations step
  remove_operations-Ran [] s = nil-Ran s.pool s.pool refl
  remove_operations-Ran (hash ∷ hashes) s =
      and_then (Call.remove_by_hash hash ∷ []) (map Call.remove_by_hash hashes) s.pool
        (remove_operation_by_hash s.pool hash).0 (remove_operations lru ep s (hash ∷ hashes)).pool
        (one s.pool (remove_operation_by_hash s.pool hash).0 (Call.remove_by_hash hash) refl)
        (remove_operations-Ran hashes _)

  -- An operation that is found, and is old enough, is removed by its hash.
  abbrev pub drop_id_calls : UoPool Map → UserOperationId → List Call
  drop_id_calls s id = elim (get_operation_by_id s.pool id) [
    | none ↦ []
    | some po ↦
        if ltb s.block_number (u64 (po.sim_block_number + s.config.drop_min_num_blocks))
        then []
        else Call.remove_by_hash po.uo.hash ∷ []
  ]

  pub remove_op_by_id-Ran :
      (s : UoPool Map) (id : UserOperationId)
      → Ran (drop_id_calls s id) s.pool (remove_op_by_id lru ep s id).0.pool
  unfolding remove_op_by_id step
  remove_op_by_id-Ran s id = elim (Option-cases (get_operation_by_id s.pool id)) [
    | inl q ↦ rw (drop_id_calls, remove_op_by_id, q) (nil-Ran s.pool s.pool refl)
    | inr (po, q) ↦
        elim (Bool-cases
          (ltb s.block_number (u64 (po.sim_block_number + s.config.drop_min_num_blocks)))) [
            | inl soon ↦ rw (drop_id_calls, remove_op_by_id, q, soon) (nil-Ran s.pool s.pool refl)
            | inr late ↦
                rw (drop_id_calls, remove_op_by_id, q, late)
                  (one s.pool (remove_operation_by_hash s.pool po.uo.hash).0
                    (Call.remove_by_hash po.uo.hash) refl)
          ]
  ]

  sanction-Ran :
      (s t : UoPool Map) (e : Entity)
      → sanction lru ep s e ≡ some t
      → (st : ReputationStatus) × (Reputation.status s.reputation e.address ≡ some st)
        × Ran (sanction_calls st e s.block_number) s.pool t.pool
  unfolding sanction throttle_entity remove_entity step
  sanction-Ran s t e h = elim (Option-cases (Reputation.status s.reputation e.address)) [
    | inl q ↦ absurd (ground arith)
    | inr (ReputationStatus.ok, q) ↦ (ReputationStatus.ok, q, nil-Ran s.pool t.pool (ground arith))
    | inr (ReputationStatus.throttled, q) ↦
        let same : throttle_entity lru ep s e ≡ t = ground arith in
        (
          ReputationStatus.throttled,
          q,
          one s.pool t.pool (Call.throttle e s.block_number)
              (ap (λ (u : UoPool Map). some u.pool) same),
        )
    | inr (ReputationStatus.banned, q) ↦
        let same : remove_entity lru ep s e ≡ t = ground arith in
        (
          ReputationStatus.banned,
          q,
          one s.pool t.pool (Call.remove_using e) (ap (λ (u : UoPool Map). some u.pool) same),
        )
  ]

  -- The status is the one after the update of the reputation.
  pub update_entity-Ran :
      (s t : UoPool Map) (update : EntityUpdate)
      → update_entity lru ep s update ≡ some t
      → (r : AddressReputation) × (st : ReputationStatus) × (update_reputation lru ep s.reputation
            update
          ≡ some r)
        × (Reputation.status r update.entity.address ≡ some st)
        × Ran (sanction_calls st update.entity s.block_number) s.pool t.pool
  unfolding update_entity
  update_entity-Ran s t update h =
      elim (Option-cases (update_reputation lru ep s.reputation update)) [
        | inl q ↦ absurd (ground arith)
        | inr (r, q) ↦
            let (st, status, ran) =
              sanction-Ran (record s { reputation = r }) t update.entity (ground arith) in
            (r, st, q, status, ran)
      ]

  abbrev pub clear_calls : Bool → List Call
  clear_calls clear_mempool = if clear_mempool then Call.clear_all ∷ [] else []

  pub clear_state-Ran :
      (s : UoPool Map) (a b c : Bool) → Ran (clear_calls a) s.pool (clear_state lru ep s a b c).pool
  unfolding clear_state step
  clear_state-Ran s true b c = one s.pool (clear_state lru ep s true b c).pool Call.clear_all refl
  clear_state-Ran s false b c = nil-Ran s.pool s.pool refl

  pub see_all-Ran :
      (es : List Entity) (s t : UoPool Map)
      → see_all lru ep s es ≡ some t
      → (calls : List Call) × All IsSanction calls × Ran calls s.pool t.pool
  unfolding see_all
  see_all-Ran [] s t h =
      ([], tt, nil-Ran s.pool t.pool (ap (λ (u : UoPool Map). u.pool) (some_inj h)))
  see_all-Ran (e ∷ es) s t h =
      let seen : UoPool Map = record s {
        reputation = Reputation.add_seen s.reputation e.address;
      } in
      elim (Option-cases (sanction lru ep seen e)) [
        | inl q ↦ absurd (ground arith)
        | inr (u, q) ↦
            let (st, status, ran) = sanction-Ran seen u e q in
            let (calls, sanctions, more) = see_all-Ran es u t (ground arith) in
            let first = sanction_calls st e s.block_number in
            (
              first ++ calls,
              All-append IsSanction first calls (sanction_calls-IsSanction st e s.block_number)
                  sanctions,
              and_then first calls s.pool u.pool t.pool ran more,
            )
      ]
