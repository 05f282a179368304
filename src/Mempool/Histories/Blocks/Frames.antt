-- ===== src/Mempool/Histories/Blocks/Frames.antt =====
-- crates/pool/src/mempool/uo_pool.rs: what the parts of `on_chain_update` do to the configuration, the
-- throttled operations and, where they leave it, the pool.
use rundler.Common.{
  ℕ, ◌≡◌, refl, nat_eq, ◌∙◌, inl, inr, Option, none, some, List, [], ◌∷◌, arith, Option-cases,
}
use rundler.Mempool.Paymaster.{LruMap, MinedOp}
use rundler.Mempool.Paymaster.Tracker.{EntryPoint}
use rundler.Mempool.Upkeep.{unmine_operation}
use rundler.Mempool.ChainUpdate.{ChainUpdate}
use rundler.Mempool.UoPool.{
  UoPool, Answers, update_preconfirmed_uos, mine_one, unmine_one, mine_all, unmine_all,
  reset_balances, set_fees,
}
use rundler.Mempool.Histories.Blocks.{left_throttled, Framed}

module _ {Map : Type 0} (lru : LruMap Map) (ep : EntryPoint) where
  pub mine_all-left :
      (n : ℕ) (ops : List MinedOp) (s : UoPool Map)
      → ((mine_all lru ep n s ops).config ≡ s.config)
        × ((mine_all lru ep n s ops).throttled_ops ≡ left_throttled ops s.throttled_ops)
  unfolding mine_all mine_one
  mine_all-left n [] s = (refl, refl)
  mine_all-left n (op ∷ ops) s = mine_all-left n ops (mine_one lru ep n s op)

  unmine_one-Framed :
      (s t : UoPool Map) (op : MinedOp) → unmine_one lru ep s op ≡ some t → Framed s t
  unfolding unmine_one
  unmine_one-Framed s t op h = elim (Option-cases (unmine_operation s.pool op.hash)) [
    | inl q ↦ absurd (ground arith)
    | inr ((pool, none), q) ↦ (ground arith, ground arith)
    | inr ((pool, some po), q) ↦ (ground arith, ground arith)
  ]

  pub unmine_all-Framed :
      (ops : List MinedOp) (s t : UoPool Map) → unmine_all lru ep s ops ≡ some t → Framed s t
  unfolding unmine_all
  unmine_all-Framed [] s t h = (ground arith, ground arith)
  unmine_all-Framed (op ∷ ops) s t h = elim (Option-cases (unmine_one lru ep s op)) [
    | inl q ↦ absurd (ground arith)
    | inr (u, q) ↦
        let first = unmine_one-Framed s u op q in
        let rest = unmine_all-Framed ops u t (ground arith) in (rest.0 ∙ first.0, rest.1 ∙ first.1)
  ]

  pub reset_balances-Framed :
      (s t : UoPool Map) (update : ChainUpdate)
      → reset_balances lru ep s update ≡ some t
      → Framed s t
  unfolding reset_balances
  reset_balances-Framed s t update h = (ground arith, ground arith)

  pub set_fees-Framed :
      (s : UoPool Map) (update : ChainUpdate) (answers : Answers)
      → Framed s (set_fees lru ep s update answers)
  unfolding set_fees
  set_fees-Framed s update answers = elim (Option-cases answers.fees) [
    | inl q ↦ rw (set_fees, q) (refl, refl)
    | inr (f, q) ↦ rw (set_fees, q) (refl, refl)
  ]

  pub pool-reset_balances :
      (s t : UoPool Map) (update : ChainUpdate)
      → reset_balances lru ep s update ≡ some t
      → s.pool ≡ t.pool
  unfolding reset_balances
  pool-reset_balances s t update h = ground arith

  pub pool-set_fees :
      (s : UoPool Map) (update : ChainUpdate) (answers : Answers)
      → (set_fees lru ep s update answers).pool ≡ s.pool
  unfolding set_fees
  pool-set_fees s update answers = elim (Option-cases answers.fees) [
    | inl q ↦ rw (set_fees, q) refl
    | inr (f, q) ↦ rw (set_fees, q) refl
  ]

  pub preconfirmed-Framed :
      (s : UoPool Map) (txns : List (ℕ × List ℕ)) (n : Option ℕ)
      → Framed s (update_preconfirmed_uos lru ep s txns n)
  unfolding update_preconfirmed_uos
  preconfirmed-Framed s txns none = (refl, refl)
  preconfirmed-Framed s txns (some n) = (refl, refl)
