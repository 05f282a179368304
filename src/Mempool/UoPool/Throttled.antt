-- ===== src/Mempool/UoPool/Throttled.antt =====
-- crates/pool/src/mempool/uo_pool.rs: which throttled operations are removed for their age.
use rundler.Common.{
  ℕ, ◌+◌, ◌-◌, ◌<◌, ◌≤◌, ◌≡◌, refl, ◌∙◌, ap, ◌⊎◌, inl, inr, Bool, true, false, not, ◌&&◌, Option,
  some, none, List, [], ◌∷◌, ltb, u64, nat_eq, arith, u64_mod, Bool-cases, Option-cases,
  if◌then◌else◌,
}
use rundler.Common.HashMap.{get, get-remove}
use rundler.Common.HashSet
use rundler.Common.HashSet.{contains, contains-remove}
use rundler.Types.Operation.{PoolOperation}
use rundler.Mempool.Paymaster.{LruMap}
use rundler.Mempool.Paymaster.Tracker.{EntryPoint}
use rundler.Mempool.Pool.{
  PoolInner, get_operation_by_hash, remove_operation_by_hash, remove_operation_internal,
  remove_hashes, drop_operation, remember_mined,
}
use rundler.Mempool.Upkeep.{Block, forget, forget_mined_operations_before_block, do_maintenance}
use rundler.Mempool.ChainUpdate.{ChainUpdate}
use rundler.Mempool.UoPool.{UoPool, Answers, too_old, remove_throttled, maintain}

-- The subtraction of blocks as the code makes it.
abbrev is_old : ℕ → ℕ → Option PoolOperation → Bool
is_old latest live none = false
is_old latest live (some po) = ltb live (u64 (latest + u64_mod - po.sim_block_number))

contains-too_old :
    (pool : PoolInner) (latest live hash : ℕ) (hashes : List ℕ)
    → contains hash (too_old pool latest live hashes)
      ≡ (contains hash hashes && is_old latest live (get_operation_by_hash pool hash))
unfolding too_old contains
contains-too_old pool latest live hash [] = refl
contains-too_old pool latest live hash (x ∷ hashes) =
    elim (Option-cases (get_operation_by_hash pool x)) [
      | inl q ↦
          ground (arith, nat_eq.same_iff x hash, contains-too_old pool latest live hash hashes)
      | inr (po, q) ↦
          ground (arith, nat_eq.same_iff x hash, contains-too_old pool latest live hash hashes)
    ]

found-remove :
    (p : PoolInner) (h hash : ℕ)
    → get_operation_by_hash (remove_operation_internal p h none).0 hash
      ≡ (if nat_eq.same h hash then none else get_operation_by_hash p hash)
unfolding get_operation_by_hash remove_operation_internal drop_operation remember_mined
found-remove p h hash = elim (Option-cases (get h p.by_hash)) [
  | inl q ↦ ground (arith, nat_eq.same_iff h hash)
  | inr (o, q) ↦ ground (arith, nat_eq.same_iff h hash, get-remove h hash p.by_hash)
]

gone-remove :
    (p : PoolInner) (h hash : ℕ)
    → get_operation_by_hash p hash ≡ none
    → get_operation_by_hash (remove_operation_internal p h none).0 hash ≡ none
gone-remove p h hash gone = ground (arith, found-remove p h hash)

gone-remove_hashes :
    (hashes : List ℕ) (p : PoolInner) (hash : ℕ)
    → get_operation_by_hash p hash ≡ none
    → get_operation_by_hash (remove_hashes p hashes) hash ≡ none
unfolding remove_hashes
gone-remove_hashes [] p hash gone = gone
gone-remove_hashes (h ∷ hashes) p hash gone =
    gone-remove_hashes hashes (remove_operation_internal p h none).0 hash
      (gone-remove p h hash gone)

gone-do_maintenance :
    (p : PoolInner) (block : Block) (hash : ℕ)
    → get_operation_by_hash p hash ≡ none
    → get_operation_by_hash (do_maintenance p block) hash ≡ none
unfolding do_maintenance get_operation_by_hash
gone-do_maintenance p block hash gone = gone-remove_hashes _ _ hash gone

by_hash-forget :
    (n : ℕ) (mined : List (ℕ × ℕ)) (p : PoolInner) → (forget n mined p).by_hash ≡ p.by_hash
unfolding forget
by_hash-forget n [] p = refl
by_hash-forget n ((bn, hash) ∷ rest) p = elim (Bool-cases (ltb bn n)) [
  | inr recent ↦ rw (forget, recent) refl
  | inl old ↦ elim (Option-cases (get hash p.mined_at_block_number_by_hash)) [
    | inl q ↦ rw (forget, old, q) (by_hash-forget n rest p)
    | inr ((o, b), q) ↦ rw (forget, old, q) (by_hash-forget n rest _)
  ]
]

module _ {Map : Type 0} (lru : LruMap Map) (ep : EntryPoint) where
  contains-remove_throttled :
      (hashes : List ℕ) (s : UoPool Map) (hash : ℕ)
      → contains hash (remove_throttled lru ep s hashes).throttled_ops
        ≡ (contains hash s.throttled_ops && not (contains hash hashes))
  unfolding remove_throttled contains
  contains-remove_throttled [] s hash = ground arith
  contains-remove_throttled (h ∷ hashes) s hash = ground (
    arith,
    contains-remove h hash s.throttled_ops,
    contains-remove_throttled hashes
        (record s {
          pool = (remove_operation_by_hash s.pool h).0;
          throttled_ops = HashSet.remove h s.throttled_ops;
        })
        hash,
  )

  gone-remove_throttled :
      (hashes : List ℕ) (s : UoPool Map) (hash : ℕ)
      → get_operation_by_hash s.pool hash ≡ none
      → get_operation_by_hash (remove_throttled lru ep s hashes).pool hash ≡ none
  unfolding remove_throttled remove_operation_by_hash
  gone-remove_throttled [] s hash gone = gone
  gone-remove_throttled (h ∷ hashes) s hash gone =
      gone-remove_throttled hashes _ hash (gone-remove s.pool h hash gone)

  found-remove_throttled :
      (hashes : List ℕ) (s : UoPool Map) (hash : ℕ)
      → contains hash hashes ≡ true
      → get_operation_by_hash (remove_throttled lru ep s hashes).pool hash ≡ none
  unfolding remove_throttled remove_operation_by_hash contains
  found-remove_throttled [] s hash c = absurd (ground arith)
  found-remove_throttled (h ∷ hashes) s hash c = elim (Bool-cases (nat_eq.same h hash)) [
    | inl same ↦ gone-remove_throttled hashes _ hash (ground (arith, found-remove s.pool h hash))
    | inr differ ↦ found-remove_throttled hashes _ hash (ground arith)
  ]

  -- A throttled operation that is in the pool is removed by `maintain`, from the throttled operations and from
  -- the pool, if more than the live blocks lie between the block at which it was simulated and that of the
  -- update; and also if it was simulated at a later block than that of the update, since the subtraction
  -- wraps. Otherwise it stays among the throttled operations. The block of the update and the sum of the
  -- operation's block and the live blocks are below 2^64.
  pub maintain-throttled :
      (s : UoPool Map) (update : ChainUpdate) (answers : Answers) (hash : ℕ) (po : PoolOperation)
      → contains hash s.throttled_ops ≡ true
      → get_operation_by_hash s.pool hash ≡ some po
      → update.latest_block_number < u64_mod
      → po.sim_block_number + s.config.throttled_entity_live_blocks < u64_mod
      → let t = maintain lru ep s update answers in
        let limit = po.sim_block_number + s.config.throttled_entity_live_blocks in
        (((limit < update.latest_block_number) ⊎ (update.latest_block_number < po.sim_block_number))
          × (contains hash t.throttled_ops ≡ false)
          × (get_operation_by_hash t.pool hash ≡ none))
        ⊎ ((po.sim_block_number ≤ update.latest_block_number)
            × (update.latest_block_number ≤ limit)
            × (contains hash t.throttled_ops ≡ true))
  unfolding maintain forget_mined_operations_before_block get_operation_by_hash
  maintain-throttled s update answers hash po throttled found a b =
      let n = update.latest_block_number in
      let live = s.config.throttled_entity_live_blocks in
      let t : UoPool Map = record s {
        pool = forget_mined_operations_before_block s.pool update.earliest_remembered_block_number;
      } in
      let old = too_old t.pool n live s.throttled_ops in
      let here : get_operation_by_hash t.pool hash ≡ some po =
        ap (λ m. elim (get hash m) [ none ↦ none | some o ↦ some o.po ])
          (by_hash-forget update.earliest_remembered_block_number
            s.pool.mined_hashes_with_block_numbers s.pool)
        ∙ found in
      let aged = is_old n live (some po) in
      let listed : contains hash old ≡ aged =
        contains-too_old t.pool n live hash s.throttled_ops
        ∙ ap (λ c. c && is_old n live (get_operation_by_hash t.pool hash)) throttled
        ∙ ap (λ o. is_old n live o) here in
      let left = contains-remove_throttled old t hash in
      elim (Bool-cases (ltb live (u64 (n + u64_mod - po.sim_block_number)))) [
        | inl aged_out ↦
            let taken : contains hash old ≡ true = listed ∙ aged_out in
            inl (
              ground (arith, aged_out),
              left ∙ ap (λ c. c && not (contains hash old)) throttled ∙ ap not taken,
              gone-do_maintenance _ _ hash (found-remove_throttled old t hash taken),
            )
        | inr young ↦
            let kept : contains hash old ≡ false = listed ∙ young in
            inr (
              ground (arith, young),
              ground (arith, young),
              left ∙ ap (λ c. c && not (contains hash old)) throttled ∙ ap not kept,
            )
      ]
