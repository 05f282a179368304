-- ===== src/Mempool/Upkeep/Indices.antt =====
-- crates/pool/src/mempool/pool.rs: what the pool does as blocks come and go keeps its indices in step.
use rundler.Common.{
  ℕ, ◌≡◌, ◌≢◌, refl, sym, ◌∙◌, subst, inl, inr, false, Option, none, some, List, [], ◌∷◌, ◌++◌,
  nat_eq, arith, All, All-map, Bool-cases, Option-cases, ltb,
}
use rundler.Common.Int.{ℤ}
use rundler.Common.HashMap.{HashMap, get, remove, IsMap, get-removed}
use rundler.Common.HashMap.Values.{sum_values}
use rundler.Common.HashSet.{contains, Distinct}
use rundler.Types.{id_eq}
use rundler.Types.Operation.{PoolOperation}
use rundler.Mempool.Paymaster.{MinedOp}
use rundler.Mempool.EntityTracker.{sub_size}
use rundler.Mempool.Pool.{
  PoolInner, OrderedPoolOperation, Cell, hash_of, mem_size, set_cell, best_insert, mined_remove,
  remove_hashes,
}
use rundler.Mempool.Pool.Best.{hashes, best_insert-All, best_insert-Distinct}
use rundler.Mempool.Pool.Stored.{IsStored, Ids, IsIndexed, same-IsIndexed}
use rundler.Mempool.Pool.Removed.{remove_operation_internal-IsIndexed, remove_hashes-IsIndexed}
use rundler.Mempool.Admission.{add_operation_internal}
use rundler.Mempool.Admission.Indices.{add_operation_internal-IsIndexed}
use rundler.Mempool.Upkeep.{
  mine_operation, unmine_operation, forget, clear, Block, refreshed, is_expired, maintain,
  do_maintenance,
}

contains-apart :
    (k : ℕ) (os : List OrderedPoolOperation)
    → All (λ (p : OrderedPoolOperation). k ≢ hash_of p) os
    → contains k (hashes os) ≡ false
unfolding contains
contains-apart k [] a = refl
contains-apart k (x ∷ xs) a = ground (arith, a.0, contains-apart k xs a.1)

-- The best operations that the loop has gathered: stored, none twice, none of them still to come.
record IsGathered (full m : HashMap ℕ OrderedPoolOperation) (best : List OrderedPoolOperation)
    : Type 0 where
  pub rest_map : IsMap m
  pub rest_full :
      (h : ℕ) (p : OrderedPoolOperation)
      → get h m ≡ some p
      → (hash_of p ≡ h) × (get h full ≡ some p)
  pub stored : All (IsStored full) best
  pub past : All (λ (p : OrderedPoolOperation). get (hash_of p) m ≡ none) best
  pub once : Distinct (hashes best)

get_tail :
    (h k : ℕ) (o : OrderedPoolOperation) (m : HashMap ℕ OrderedPoolOperation)
    → get k ((h, o) ∷ m) ≡ none
    → (h ≢ k) × (get k m ≡ none)
unfolding get
get_tail h k o m q = ground arith

skipped-IsGathered :
    (full m : HashMap ℕ OrderedPoolOperation) (best : List OrderedPoolOperation) (h : ℕ)
    (o : OrderedPoolOperation)
    → IsGathered full ((h, o) ∷ m) best
    → IsGathered full m best
unfolding get
skipped-IsGathered full m best h o g = record {
  rest_map = g.rest_map.1;
  rest_full = λ k p q. g.rest_full k p (ground arith);
  stored = g.stored;
  past = All-map (λ p q. (get_tail h (hash_of p) o m q).1) best g.past;
  once = g.once;
}

added-IsGathered :
    (full m : HashMap ℕ OrderedPoolOperation) (cells : ℕ → Cell) (best : List OrderedPoolOperation)
    (h : ℕ) (o : OrderedPoolOperation)
    → IsGathered full ((h, o) ∷ m) best
    → IsGathered full m (best_insert cells o best)
unfolding get
added-IsGathered full m cells best h o g =
    let (own, at) = g.rest_full h o (ground arith) in
    let s = skipped-IsGathered full m best h o g in
    record {
      rest_map = g.rest_map.1;
      rest_full = s.rest_full;
      stored =
          best_insert-All cells o (IsStored full) best
            (subst (λ (k : ℕ). get k full ≡ some o) (sym own) at) g.stored;
      past =
          best_insert-All cells o (λ (p : OrderedPoolOperation). get (hash_of p) m ≡ none) best
            (subst (λ (k : ℕ). get k m ≡ none) (sym own) g.rest_map.0) s.past;
      once =
          best_insert-Distinct cells o best
            (contains-apart (hash_of o) best
              (All-map (λ p q e. (get_tail h (hash_of p) o m q).0 (sym own ∙ e)) best g.past))
            g.once;
    }

maintain-IsGathered :
    (full : HashMap ℕ OrderedPoolOperation) (max_time : Option ℕ) (block : Block)
    (m : HashMap ℕ OrderedPoolOperation) (cells : ℕ → Cell) (best : List OrderedPoolOperation)
    (expired : List ℕ)
    → IsGathered full m best
    → IsGathered full [] (maintain max_time block m cells best expired).1
unfolding maintain
maintain-IsGathered full max_time block [] cells best expired g = g
maintain-IsGathered full max_time block ((h, o) ∷ m) cells best expired g =
    let (d, is_best) = refreshed block o.po (cells o.submission_id) in
    let next = set_cell o.submission_id d cells in
    elim (Bool-cases (is_expired max_time block o)) [
      | inl old ↦
          rw (maintain, old)
            (maintain-IsGathered full max_time block m _ best (expired ++ h ∷ [])
              (skipped-IsGathered full m best h o g))
      | inr young ↦ elim (Bool-cases (refreshed block o.po (cells o.submission_id)).1) [
        | inl keep ↦
            rw (maintain, young, keep)
              (maintain-IsGathered full max_time block m next (best_insert next o best) expired
                (added-IsGathered full m next best h o g))
        | inr leave ↦
            rw (maintain, young, leave)
              (maintain-IsGathered full max_time block m next best expired
                (skipped-IsGathered full m best h o g))
      ]
    ]

module _ (ids : Ids) where
  pub mine_operation-IsIndexed :
      (s : PoolInner) (mined_op : MinedOp) (block_number : ℕ)
      → IsIndexed ids s
      → IsIndexed ids (mine_operation s mined_op block_number).0
  unfolding mine_operation
  mine_operation-IsIndexed s mined_op block_number i =
      elim (Option-cases (get mined_op.id s.by_id)) [
        | inl q ↦ rw (mine_operation, q) i
        | inr (o, q) ↦
            rw (mine_operation, q)
              (remove_operation_internal-IsIndexed ids s (hash_of o) (some block_number) i)
      ]

  -- The mined operations may be forgotten.
  with_mined-IsIndexed :
      (s : PoolInner) (m : HashMap ℕ (OrderedPoolOperation × ℕ)) (ns : List (ℕ × ℕ)) (size : ℤ)
      → ((h : ℕ) (v : OrderedPoolOperation × ℕ)
          → get h m ≡ some v
          → get h s.mined_at_block_number_by_hash ≡ some v)
      → IsIndexed ids s
      → IsIndexed ids (record s {
        mined_at_block_number_by_hash = m;
        mined_hashes_with_block_numbers = ns;
        cache_size = size;
      })
  with_mined-IsIndexed s m ns size f i = record {
    by_hash_id = i.by_hash_id;
    by_id_hash = i.by_id_hash;
    by_hash_map = i.by_hash_map;
    best_stored = i.best_stored;
    best_once = i.best_once;
    sized = i.sized;
    next_id = i.next_id;
    stored_issued = i.stored_issued;
    mined_issued = λ h b o q. i.mined_issued h b o (f h (o, b) q);
  }

  pub unmine_operation-IsIndexed :
      (s t : PoolInner) (hash : ℕ) (r : Option PoolOperation)
      → unmine_operation s hash ≡ some (t, r)
      → IsIndexed ids s
      → IsIndexed ids t
  unfolding unmine_operation
  unmine_operation-IsIndexed s t hash r h i =
      elim (Option-cases (get hash s.mined_at_block_number_by_hash)) [
        | inl q ↦ let e : s ≡ t = ground arith in subst (IsIndexed ids) e i
        | inr ((o, b), q) ↦
            let u : PoolInner = record s {
              mined_at_block_number_by_hash = remove hash s.mined_at_block_number_by_hash;
              mined_hashes_with_block_numbers =
                  mined_remove b hash s.mined_hashes_with_block_numbers;
            } in
            let iu : IsIndexed ids u =
              with_mined-IsIndexed s (remove hash s.mined_at_block_number_by_hash)
                (mined_remove b hash s.mined_hashes_with_block_numbers) s.cache_size
                (λ h v q. (get-removed hash h v s.mined_at_block_number_by_hash q).1) i in
            elim (Option-cases (add_operation_internal u o)) [
              | inl stuck ↦ absurd (ground arith)
              | inr ((v, added), done) ↦
                  let e : v ≡ t = ground arith in
                  subst (IsIndexed ids) e (
                    add_operation_internal-IsIndexed ids u v o added done
                      (i.mined_issued hash b o q) iu)
            ]
      ]

  pub forget-IsIndexed :
      (block_number : ℕ) (mined : List (ℕ × ℕ)) (s : PoolInner)
      → IsIndexed ids s
      → IsIndexed ids (forget block_number mined s)
  unfolding forget
  forget-IsIndexed block_number [] s i =
      with_mined-IsIndexed s s.mined_at_block_number_by_hash [] s.cache_size (λ h v q. q) i
  forget-IsIndexed block_number ((bn, hash) ∷ rest) s i = elim (Bool-cases (ltb bn block_number)) [
    | inr recent ↦
        rw (forget, recent)
          (with_mined-IsIndexed s s.mined_at_block_number_by_hash ((bn, hash) ∷ rest) s.cache_size
            (λ h v q. q) i)
    | inl old ↦ elim (Option-cases (get hash s.mined_at_block_number_by_hash)) [
      | inl q ↦ rw (forget, old, q) (forget-IsIndexed block_number rest s i)
      | inr ((o, b), q) ↦
          rw (forget, old, q)
            (forget-IsIndexed block_number rest _ (
              with_mined-IsIndexed s (remove hash s.mined_at_block_number_by_hash)
                s.mined_hashes_with_block_numbers (sub_size s.cache_size (mem_size s.config o))
                (λ h v q. (get-removed hash h v s.mined_at_block_number_by_hash q).1) i))
    ]
  ]

  pub clear-IsIndexed : (s : PoolInner) → IsIndexed ids s → IsIndexed ids (clear s)
  unfolding clear get sum_values
  clear-IsIndexed s i = record {
    by_hash_id = λ h o q. absurd (ground arith);
    by_id_hash = λ j o q. absurd (ground arith);
    by_hash_map = tt;
    best_stored = tt;
    best_once = tt;
    sized = refl;
    next_id = i.next_id;
    stored_issued = λ h o q. absurd (ground arith);
    mined_issued = λ h b o q. absurd (ground arith);
  }

  refilled-IsIndexed :
      (s : PoolInner) (cells : ℕ → Cell) (best : List OrderedPoolOperation)
      → IsGathered s.by_hash [] best
      → IsIndexed ids s
      → IsIndexed ids (record s { cells = cells; best = best })
  refilled-IsIndexed s cells best g i = record {
    by_hash_id = i.by_hash_id;
    by_id_hash = i.by_id_hash;
    by_hash_map = i.by_hash_map;
    best_stored = g.stored;
    best_once = g.once;
    sized = i.sized;
    next_id = i.next_id;
    stored_issued = i.stored_issued;
    mined_issued = i.mined_issued;
  }

  pub do_maintenance-IsIndexed :
      (s : PoolInner) (block : Block) → IsIndexed ids s → IsIndexed ids (do_maintenance s block)
  unfolding do_maintenance maintain
  do_maintenance-IsIndexed s block i =
      let r = maintain s.config.max_time_in_pool block s.by_hash s.cells [] [] in
      let start : IsGathered s.by_hash s.by_hash [] = record {
        rest_map = i.by_hash_map;
        rest_full = λ h p q. ((i.by_hash_id h p q).0, q);
        stored = tt;
        past = tt;
        once = tt;
      } in
      same-IsIndexed ids (remove_hashes (record s { cells = r.0; best = r.1 }) r.2)
        (record (remove_hashes (record s { cells = r.0; best = r.1 }) r.2) {
          prev_block_number = block.number;
        })
        refl refl refl refl refl refl refl
        (remove_hashes-IsIndexed ids r.2 (record s { cells = r.0; best = r.1 })
          (refilled-IsIndexed s r.0 r.1
            (maintain-IsGathered s.by_hash s.config.max_time_in_pool block s.by_hash s.cells [] []
              start)
            i))
