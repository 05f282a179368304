-- ===== src/Mempool/Pool/Stored.antt =====
-- The indices of crates/pool/src/mempool/pool.rs agree: what removing and inserting an operation keep.
use rundler.Common.{ℕ, ◌≡◌, sym, ◌∙◌, ap, subst, Option, some, List, nat_eq, All}
use rundler.Common.HashMap.{HashMap, get, IsMap}
use rundler.Common.HashMap.Values.{sum_values}
use rundler.Common.Int.{pos}
use rundler.Common.HashSet.{Distinct}
use rundler.Types.{UserOperationId, id_eq}
use rundler.Mempool.Pool.{
  PoolInner, PoolInnerConfig, mem_size, OrderedPoolOperation, hash_of, id_of,
}
use rundler.Mempool.Pool.Best.{hashes}

-- The operation is stored under its own hash.
abbrev pub IsStored : HashMap ℕ OrderedPoolOperation → OrderedPoolOperation → Type 0
IsStored m o = get (hash_of o) m ≡ some o

-- The operations that submission ids were given to, and the next id.
pub record Ids : Type 0 where
  pub issued : ℕ → Option OrderedPoolOperation
  pub next : ℕ

abbrev pub IsIssued : Ids → OrderedPoolOperation → Type 0
IsIssued ids o = ids.issued o.submission_id ≡ some o

-- An operation stands in one index exactly if it stands in the other, under its own hash and id; the best
-- ones are stored, none twice; and the pool knows no operation but the ones that an id was given to. The pool's size is that of the stored ones.
pub record IsIndexed (ids : Ids) (s : PoolInner) : Type 0 where
  pub by_hash_id :
      (h : ℕ) (o : OrderedPoolOperation)
      → get h s.by_hash ≡ some o
      → (hash_of o ≡ h) × (get (id_of o) s.by_id ≡ some o)
  pub by_id_hash :
      (i : UserOperationId) (o : OrderedPoolOperation)
      → get i s.by_id ≡ some o
      → (id_of o ≡ i) × (get (hash_of o) s.by_hash ≡ some o)
  pub by_hash_map : IsMap s.by_hash
  pub best_stored : All (IsStored s.by_hash) s.best
  pub best_once : Distinct (hashes s.best)
  pub sized : s.pool_size ≡ pos (sum_values (λ o. mem_size s.config o) s.by_hash)
  pub next_id : s.submission_id ≡ ids.next
  pub stored_issued : (h : ℕ) (o : OrderedPoolOperation) → get h s.by_hash ≡ some o → IsIssued ids o
  pub mined_issued :
      (h b : ℕ) (o : OrderedPoolOperation)
      → get h s.mined_at_block_number_by_hash ≡ some (o, b)
      → IsIssued ids o

-- The other fields do not matter.
pub same-IsIndexed :
    (ids : Ids) (s t : PoolInner)
    → s.by_hash ≡ t.by_hash
    → s.by_id ≡ t.by_id
    → s.best ≡ t.best
    → s.mined_at_block_number_by_hash ≡ t.mined_at_block_number_by_hash
    → s.submission_id ≡ t.submission_id
    → s.config ≡ t.config
    → s.pool_size ≡ t.pool_size
    → IsIndexed ids s
    → IsIndexed ids t
same-IsIndexed ids s t eh ei eb em en ec es i = record {
  by_hash_id = λ h o q.
      let (own, at) = i.by_hash_id h o (ap (get h) eh ∙ q) in
      (own, ap (get (id_of o)) (sym ei) ∙ at);
  by_id_hash = λ j o q.
      let (own, at) = i.by_id_hash j o (ap (get j) ei ∙ q) in
      (own, ap (get (hash_of o)) (sym eh) ∙ at);
  by_hash_map = subst (λ (m : HashMap ℕ OrderedPoolOperation). IsMap m) eh i.by_hash_map;
  best_stored =
      subst (λ (os : List OrderedPoolOperation). All (IsStored t.by_hash) os) eb
        (subst (λ (m : HashMap ℕ OrderedPoolOperation). All (IsStored m) s.best) eh i.best_stored);
  best_once = subst (λ (os : List OrderedPoolOperation). Distinct (hashes os)) eb i.best_once;
  sized =
      sym es
      ∙ i.sized
      ∙ ap (λ (c : PoolInnerConfig). pos (sum_values (λ o. mem_size c o) s.by_hash)) ec
      ∙ ap (λ (m : HashMap ℕ OrderedPoolOperation). pos (sum_values (λ o. mem_size t.config o) m))
          eh;
  next_id = sym en ∙ i.next_id;
  stored_issued = λ h o q. i.stored_issued h o (ap (get h) eh ∙ q);
  mined_issued = λ h b o q. i.mined_issued h b o (ap (get h) em ∙ q);
}
