-- ===== src/Mempool/Histories/Blocks/Runs.antt =====
-- crates/pool/src/mempool/uo_pool.rs: what `on_chain_update` does to the inner pool is a run of the calls
-- that stand for the update.
use rundler.Common.{
  ℕ, ◌≡◌, refl, nat_eq, sym, ◌∙◌, ap, subst, inl, inr, Option, none, some, some_inj, List, [], ◌∷◌,
  ◌++◌, map, arith, Option-cases,
}
use rundler.Common.HashSet
use rundler.Common.HashSet.{HashSet}
use rundler.Mempool.Paymaster.{LruMap, MinedOp}
use rundler.Mempool.Paymaster.Tracker.{EntryPoint}
use rundler.Mempool.Pool.{PoolInner, remove_operation_by_hash}
use rundler.Mempool.Upkeep.{
  unmine_operation, Block, forget_mined_operations_before_block, preconfirm_txns,
}
use rundler.Mempool.Calls.{Call, step}
use rundler.Mempool.ChainUpdate.{ChainUpdate, UpdateType, confirmed, preconfirmed, deduped_ops}
use rundler.Mempool.UoPool.{
  UoPool, PoolConfig, Answers, at_entry_point, too_old, update_preconfirmed_uos,
  remove_out_of_date_preconfirmed_uos, mine_one, unmine_one, mine_all, unmine_all, reset_balances,
  set_fees, remove_throttled, maintain, on_confirmed, on_chain_update,
}
use rundler.Mempool.Histories.Refinement.{Ran, one, nil-Ran, and_then}
use rundler.Mempool.Histories.Blocks.{
  mines, unmines, preconf_calls, maintain_calls, confirmed_calls, IsBlockOf, left_throttled, AreOld,
  ServesType, ServesUpdate,
}
use rundler.Mempool.Histories.Blocks.Frames.{
  mine_all-left, unmine_all-Framed, reset_balances-Framed, set_fees-Framed, preconfirmed-Framed,
  pool-reset_balances, pool-set_fees,
}

module _ {Map : Type 0} (lru : LruMap Map) (ep : EntryPoint) where
  mine_all-Ran :
      (n : ℕ) (ops : List MinedOp) (s : UoPool Map)
      → Ran (mines n ops) s.pool (mine_all lru ep n s ops).pool
  unfolding mine_all mine_one step
  mine_all-Ran n [] s = nil-Ran s.pool s.pool refl
  mine_all-Ran n (op ∷ ops) s =
      let t = mine_one lru ep n s op in
      and_then (Call.mine op n ∷ []) (mines n ops) s.pool t.pool (mine_all lru ep n t ops).pool
        (one s.pool t.pool (Call.mine op n) refl) (mine_all-Ran n ops t)

  unmine_one-Ran :
      (s t : UoPool Map) (op : MinedOp)
      → unmine_one lru ep s op ≡ some t
      → Ran (Call.unmine op.hash ∷ []) s.pool t.pool
  unfolding unmine_one step
  unmine_one-Ran s t op h = elim (Option-cases (unmine_operation s.pool op.hash)) [
    | inl q ↦ absurd (ground arith)
    | inr ((pool, none), q) ↦ one s.pool t.pool (Call.unmine op.hash) (ground arith)
    | inr ((pool, some po), q) ↦ one s.pool t.pool (Call.unmine op.hash) (ground arith)
  ]

  unmine_all-Ran :
      (ops : List MinedOp) (s t : UoPool Map)
      → unmine_all lru ep s ops ≡ some t
      → Ran (unmines ops) s.pool t.pool
  unfolding unmine_all
  unmine_all-Ran [] s t h = nil-Ran s.pool t.pool (ap (λ (u : UoPool Map). u.pool) (some_inj h))
  unmine_all-Ran (op ∷ ops) s t h = elim (Option-cases (unmine_one lru ep s op)) [
    | inl q ↦ absurd (ground arith)
    | inr (u, q) ↦
        and_then (Call.unmine op.hash ∷ []) (unmines ops) s.pool u.pool t.pool
          (unmine_one-Ran s u op q) (unmine_all-Ran ops u t (ground arith))
  ]

  remove_throttled-Ran :
      (hashes : List ℕ) (s : UoPool Map)
      → Ran (map Call.remove_by_hash hashes) s.pool (remove_throttled lru ep s hashes).pool
  unfolding remove_throttled step
  remove_throttled-Ran [] s = nil-Ran s.pool s.pool refl
  remove_throttled-Ran (hash ∷ hashes) s =
      let u : UoPool Map = record s {
        pool = (remove_operation_by_hash s.pool hash).0;
        throttled_ops = HashSet.remove hash s.throttled_ops;
      } in
      and_then (Call.remove_by_hash hash ∷ []) (map Call.remove_by_hash hashes) s.pool u.pool
        (remove_throttled lru ep u hashes).pool (one s.pool u.pool (Call.remove_by_hash hash) refl)
        (remove_throttled-Ran hashes u)

  maintain-Ran :
      (s : UoPool Map) (update : ChainUpdate) (answers : Answers)
      → (old : List ℕ) × (block : Block) × (q : PoolInner) × Ran
          (Call.forget_mined update.earliest_remembered_block_number ∷ [])
          s.pool
          q
        × (old
            ≡ too_old q update.latest_block_number s.config.throttled_entity_live_blocks
                s.throttled_ops)
        × IsBlockOf update answers block
        × Ran (maintain_calls update old block) s.pool (maintain lru ep s update answers).pool
  unfolding maintain step
  maintain-Ran s update answers =
      let t : UoPool Map = record s {
        pool = forget_mined_operations_before_block s.pool update.earliest_remembered_block_number;
      } in
      let old =
        too_old t.pool update.latest_block_number s.config.throttled_entity_live_blocks
          s.throttled_ops in
      let u = remove_throttled lru ep t old in
      let block : Block = record {
        number = update.latest_block_number;
        timestamp = update.latest_block_timestamp;
        now = answers.now;
        base_fee = u.base_fee;
        uo_fees = u.uo_fees;
        required_pvg = answers.required_pvg;
      } in
      let last = (maintain lru ep s update answers).pool in
      (
        old,
        block,
        t.pool,
        one s.pool t.pool (Call.forget_mined update.earliest_remembered_block_number) refl,
        refl,
        (refl, refl, refl, refl),
        and_then (Call.forget_mined update.earliest_remembered_block_number ∷ [])
            (map Call.remove_by_hash old ++ Call.on_block block ∷ []) s.pool t.pool last
            (one s.pool t.pool (Call.forget_mined update.earliest_remembered_block_number) refl)
            (and_then (map Call.remove_by_hash old) (Call.on_block block ∷ []) t.pool u.pool last
              (remove_throttled-Ran old t) (one u.pool last (Call.on_block block) refl)),
      )

  on_confirmed-Ran :
      (s t : UoPool Map) (update : ChainUpdate) (answers : Answers)
      → on_confirmed lru ep s update answers ≡ some t
      → (old : List ℕ) × (block : Block) × AreOld s.config s.throttled_ops s.pool update old
        × IsBlockOf update answers block
        × Ran (confirmed_calls s.config.entry_point update old block) s.pool t.pool
  unfolding on_confirmed remove_out_of_date_preconfirmed_uos step
  on_confirmed-Ran s t update answers h =
      let n = update.latest_block_number in
      let ops = deduped_ops update in
      let cleared = remove_out_of_date_preconfirmed_uos lru ep s n in
      let mined_ops = at_entry_point s.config.entry_point ops.0 in
      let unmined_ops = at_entry_point s.config.entry_point ops.1 in
      let mined = mine_all lru ep n cleared mined_ops in
      elim (Option-cases (unmine_all lru ep mined unmined_ops)) [
        | inl q ↦ absurd (ground arith)
        | inr (u, q) ↦ elim (Option-cases (reset_balances lru ep u update)) [
          | inl p ↦ absurd (ground arith)
          | inr (v, p) ↦
              let w = set_fees lru ep v update answers in
              let same : u.pool ≡ w.pool =
                pool-reset_balances lru ep u v update p
                ∙ sym (pool-set_fees lru ep v update answers) in
              let e : maintain lru ep w update answers ≡ t = ground arith in
              let (old, block, pool, forgot, aged, of_update, ran) =
                maintain-Ran w update answers in
              let forgets = Call.forget_mined update.earliest_remembered_block_number ∷ [] in
              let framed : (w.config ≡ s.config)
                  × (w.throttled_ops ≡ left_throttled mined_ops s.throttled_ops) =
                let m = mine_all-left lru ep n mined_ops cleared in
                let k = unmine_all-Framed lru ep unmined_ops mined u q in
                let b = reset_balances-Framed lru ep u v update p in
                let f = set_fees-Framed lru ep v update answers in
                (f.0 ∙ b.0 ∙ k.0 ∙ m.0, f.1 ∙ b.1 ∙ k.1 ∙ m.1) in
              let forgot_after : Ran forgets u.pool pool =
                subst (λ (x : PoolInner). Ran forgets x pool) (sym same) forgot in
              let are_old : AreOld s.config s.throttled_ops s.pool update old = (
                pool,
                and_then (Call.remove_out_of_date n ∷ [])
                    (mines n mined_ops ++ (unmines unmined_ops ++ forgets)) s.pool cleared.pool pool
                    (one s.pool cleared.pool (Call.remove_out_of_date n) refl)
                    (and_then (mines n mined_ops) (unmines unmined_ops ++ forgets) cleared.pool
                      mined.pool pool (mine_all-Ran n mined_ops cleared)
                      (and_then (unmines unmined_ops) forgets mined.pool u.pool pool
                        (unmine_all-Ran unmined_ops mined u q) forgot_after)),
                aged
                    ∙ ap
                        (λ (c : PoolConfig).
                          too_old pool n c.throttled_entity_live_blocks w.throttled_ops)
                        framed.0
                    ∙ ap (λ x. too_old pool n s.config.throttled_entity_live_blocks x) framed.1,
              ) in
              let last = maintain_calls update old block in
              let kept : Ran last u.pool t.pool =
                subst (λ (p : PoolInner). Ran last p t.pool) (sym same)
                  (subst (λ (x : UoPool Map). Ran last w.pool x.pool) e ran) in
              (
                old,
                block,
                are_old,
                of_update,
                and_then (Call.remove_out_of_date n ∷ [])
                    (mines n mined_ops ++ (unmines unmined_ops ++ last)) s.pool cleared.pool t.pool
                    (one s.pool cleared.pool (Call.remove_out_of_date n) refl)
                    (and_then (mines n mined_ops) (unmines unmined_ops ++ last) cleared.pool
                      mined.pool t.pool (mine_all-Ran n mined_ops cleared)
                      (and_then (unmines unmined_ops) last mined.pool u.pool t.pool
                        (unmine_all-Ran unmined_ops mined u q) kept)),
              )
        ]
      ]

  update_preconfirmed_uos-Ran :
      (s : UoPool Map) (txns : List (ℕ × List ℕ)) (n : Option ℕ)
      → Ran (preconf_calls txns n) s.pool (update_preconfirmed_uos lru ep s txns n).pool
  unfolding update_preconfirmed_uos step
  update_preconfirmed_uos-Ran s txns none = nil-Ran s.pool s.pool refl
  update_preconfirmed_uos-Ran s txns (some n) =
      let middle = preconfirm_txns s.pool txns in
      let last = (update_preconfirmed_uos lru ep s txns (some n)).pool in
      and_then (Call.preconfirm txns ∷ []) (Call.preconfirm_at txns n ∷ []) s.pool middle last
        (one s.pool middle (Call.preconfirm txns) refl)
        (one middle last (Call.preconfirm_at txns n) refl)

  by_type :
      (k : UpdateType) (s t : UoPool Map) (update : ChainUpdate) (answers : Answers)
      → elim k [ preconfirmed ↦ some s | confirmed ↦ on_confirmed lru ep s update answers ] ≡ some t
      → (calls : List Call) × ServesType k s.config s.throttled_ops s.pool update answers calls
        × Ran calls s.pool t.pool
  by_type preconfirmed s t update answers h =
      ([], refl, nil-Ran s.pool t.pool (ap (λ (u : UoPool Map). u.pool) (some_inj h)))
  by_type confirmed s t update answers h =
      let (old, block, are_old, of_update, ran) = on_confirmed-Ran s t update answers h in
      (
        confirmed_calls s.config.entry_point update old block,
        (old, block, are_old, of_update, refl),
        ran,
      )

  pub on_chain_update-Ran :
      (s t : UoPool Map) (update : ChainUpdate) (answers : Answers)
      → on_chain_update lru ep s update answers ≡ some t
      → (calls : List Call) × ServesUpdate s update answers calls × Ran calls s.pool t.pool
  unfolding on_chain_update
  on_chain_update-Ran s t update answers h =
      let txns = update.preconfirmed_txns in
      let n = update.preconfirmed_block_number in
      let u = update_preconfirmed_uos lru ep s txns n in
      let known = update_preconfirmed_uos-Ran s txns n in
      let (calls, serves, ran) = by_type update.update_type u t update answers h in
      let framed = preconfirmed-Framed lru ep s txns n in
      let moved =
        subst
          (λ (c : PoolConfig).
            ServesType update.update_type c u.throttled_ops u.pool update answers calls)
          framed.0 serves in
      let served =
        subst
          (λ (x : HashSet ℕ). ServesType update.update_type s.config x u.pool update answers calls)
          framed.1 moved in
      (
        preconf_calls txns n ++ calls,
        (u.pool, calls, known, served, refl),
        and_then (preconf_calls txns n) calls s.pool u.pool t.pool known ran,
      )
