-- ===== src/Mempool/Calls/Indices.antt =====
-- crates/pool/src/mempool/pool.rs: the indices of the pool along any history of calls.
use rundler.Common.{
  ℕ, ◌+◌, ◌≤◌, ◌<◌, suc, ◌≡◌, refl, subst, inl, inr, true, false, none, some, some_inj, List, [],
  ◌∷◌, nat_beq, nat_eq, arith, All, Bool-cases, Option-cases, u64_mod, is_some,
}
use rundler.Common.Int.{pos}
use rundler.Common.Results.{Result}
use rundler.Common.HashMap.{get}
use rundler.Common.HashMap.Values.{sum_values}
use rundler.Common.HashSet.{Distinct}
use rundler.Types.{UserOperationId, id_eq}
use rundler.Types.Operation.{PoolOperation}
use rundler.Mempool.Pool.{
  PoolInner, mem_size, PoolInnerConfig, OrderedPoolOperation, hash_of, id_of, new,
  remove_operation_by_hash,
}
use rundler.Mempool.Pool.Best.{hashes}
use rundler.Mempool.Pool.Stored.{IsStored, Ids, IsIssued, IsIndexed, same-IsIndexed}
use rundler.Mempool.Pool.Removed.{remove_operation_internal-IsIndexed, remove_hashes-IsIndexed}
use rundler.Mempool.Admission.{PoolError, with_cell, ordered, add_operation}
use rundler.Mempool.Admission.Indices.{add_operation_internal-IsIndexed}
use rundler.Mempool.Upkeep.{
  mine_operation, clear, do_maintenance, throttle_entity, remove_entity,
  forget_mined_operations_before_block, preconfirm_uos, preconfirm_txns,
  preconfirm_txns_at_block_number, remove_out_of_date_preconfirmed_uos, unmine_operation,
}
use rundler.Mempool.Upkeep.Indices.{
  mine_operation-IsIndexed, unmine_operation-IsIndexed, forget-IsIndexed, clear-IsIndexed,
  do_maintenance-IsIndexed,
}
use rundler.Mempool.Calls.{Call, step, run, takes_id, ids_taken}

-- An operation is found by its id exactly if it is found by its hash, under its own id and hash; and the
-- best operations are among these, none of them twice.
pub record IsConsistent (s : PoolInner) : Type 0 where
  pub by_hash_id :
      (h : ℕ) (o : OrderedPoolOperation)
      → get h s.by_hash ≡ some o
      → (hash_of o ≡ h) × (get (id_of o) s.by_id ≡ some o)
  pub by_id_hash :
      (i : UserOperationId) (o : OrderedPoolOperation)
      → get i s.by_id ≡ some o
      → (id_of o ≡ i) × (get (hash_of o) s.by_hash ≡ some o)
  pub best_stored : All (IsStored s.by_hash) s.best
  pub best_once : Distinct (hashes s.best)

-- No id from the next one on is given to an operation.
abbrev pub IsUnused : Ids → Type 0
IsUnused ids = (k : ℕ) → ids.next ≤ k → ids.issued k ≡ none

abbrev issue : Ids → OrderedPoolOperation → Ids
issue ids o = record {
  issued = λ k. elim (nat_beq k ids.next) [ true ↦ some o | false ↦ ids.issued k ];
  next = suc ids.next;
}

issue-IsUnused : (ids : Ids) (o : OrderedPoolOperation) → IsUnused ids → IsUnused (issue ids o)
issue-IsUnused ids o free k h = ground (arith, free k)

issue-IsIssued :
    (ids : Ids) (o p : OrderedPoolOperation)
    → IsUnused ids
    → IsIssued ids p
    → IsIssued (issue ids o) p
issue-IsIssued ids o p free ip = ground (arith, free p.submission_id)

add_operation-IsIndexed :
    (ids : Ids) (s t : PoolInner) (op : PoolOperation) (base_fee required_pvg now : ℕ)
    (r : Result PoolError ℕ)
    → add_operation s op base_fee required_pvg now ≡ some (t, r)
    → suc ids.next < u64_mod
    → IsUnused ids
    → IsIndexed ids s
    → IsIndexed (issue ids (ordered s op now)) t
unfolding add_operation with_cell ordered
add_operation-IsIndexed ids s t op base_fee required_pvg now r h room free i =
    let o = ordered s op now in
    let next : IsIndexed (issue ids o) (with_cell s op base_fee required_pvg) = record {
      by_hash_id = i.by_hash_id;
      by_id_hash = i.by_id_hash;
      by_hash_map = i.by_hash_map;
      best_stored = i.best_stored;
      best_once = i.best_once;
      sized = i.sized;
      next_id = omega (arith, i.next_id);
      stored_issued = λ h p q. issue-IsIssued ids o p free (i.stored_issued h p q);
      mined_issued = λ h b p q. issue-IsIssued ids o p free (i.mined_issued h b p q);
    } in
    add_operation_internal-IsIndexed (issue ids o) (with_cell s op base_fee required_pvg) t o r h
      (ground (arith, i.next_id)) next

preconfirm_uos-IsIndexed :
    (ids : Ids) (uos : List ℕ) (s : PoolInner) (txn : ℕ)
    → IsIndexed ids s
    → IsIndexed ids (preconfirm_uos s txn uos)
unfolding preconfirm_uos
preconfirm_uos-IsIndexed ids [] s txn i = i
preconfirm_uos-IsIndexed ids (uo ∷ uos) s txn i = elim (Bool-cases (is_some (get uo s.by_hash))) [
  | inl known ↦
      rw (preconfirm_uos, known)
        (preconfirm_uos-IsIndexed ids uos _ txn
          (same-IsIndexed ids s _ refl refl refl refl refl refl refl i))
  | inr gone ↦ rw (preconfirm_uos, gone) (preconfirm_uos-IsIndexed ids uos s txn i)
]

preconfirm_txns-IsIndexed :
    (ids : Ids) (txns : List (ℕ × List ℕ)) (s : PoolInner)
    → IsIndexed ids s
    → IsIndexed ids (preconfirm_txns s txns)
unfolding preconfirm_txns
preconfirm_txns-IsIndexed ids [] s i = i
preconfirm_txns-IsIndexed ids ((txn, uos) ∷ txns) s i =
    preconfirm_txns-IsIndexed ids txns (preconfirm_uos s txn uos)
      (preconfirm_uos-IsIndexed ids uos s txn i)

-- What a call keeps: the indices agree under some ids, of which at most one more is used.
pub record IsKept (n : ℕ) (s : PoolInner) : Type 0 where
  pub ids : Ids
  pub bound : ids.next ≤ n
  pub unused : IsUnused ids
  pub indexed : IsIndexed ids s

still-IsKept : (n : ℕ) (s t : PoolInner) (k : IsKept n s) → IsIndexed k.ids t → IsKept (n + 0) t
still-IsKept n s t k i = record {
  ids = k.ids;
  bound = omega (arith, k.bound);
  unused = k.unused;
  indexed = i;
}

step-IsKept :
    (n : ℕ) (s t : PoolInner) (call : Call)
    → step s call ≡ some t
    → n + takes_id call < u64_mod
    → IsKept n s
    → IsKept (n + takes_id call) t
unfolding step remove_operation_by_hash throttle_entity remove_entity
    forget_mined_operations_before_block preconfirm_txns_at_block_number
    remove_out_of_date_preconfirmed_uos
step-IsKept n s t (Call.add op base_fee required_pvg now) h room k =
    elim (Option-cases (add_operation s op base_fee required_pvg now)) [
      | inl stuck ↦ absurd (ground arith)
      | inr ((u, r), done) ↦
          let e : u ≡ t = ground arith in
          subst (IsKept (n + 1)) e (record {
            ids = issue k.ids (ordered s op now);
            bound = omega (arith, k.bound);
            unused = issue-IsUnused k.ids (ordered s op now) k.unused;
            indexed =
                add_operation-IsIndexed k.ids s u op base_fee required_pvg now r done
                  (omega (arith, k.bound)) k.unused k.indexed;
          })
    ]
step-IsKept n s t (Call.remove_by_hash hash) h room k = subst (IsKept (n + 0)) (some_inj h) (
    still-IsKept n s (remove_operation_by_hash s hash).0 k
      (remove_operation_internal-IsIndexed k.ids s hash none k.indexed))
step-IsKept n s t (Call.mine mined_op block_number) h room k = subst (IsKept (n + 0)) (some_inj h) (
    still-IsKept n s (mine_operation s mined_op block_number).0 k
      (mine_operation-IsIndexed k.ids s mined_op block_number k.indexed))
step-IsKept n s t (Call.unmine hash) h room k = elim (Option-cases (unmine_operation s hash)) [
  | inl stuck ↦ absurd (ground arith)
  | inr ((u, r), done) ↦
      let e : u ≡ t = ground arith in
      subst (IsKept (n + 0)) e
        (still-IsKept n s u k (unmine_operation-IsIndexed k.ids s u hash r done k.indexed))
]
step-IsKept n s t (Call.throttle entity block_number) h room k =
    subst (IsKept (n + 0)) (some_inj h) (
      still-IsKept n s (throttle_entity s entity block_number).0 k
        (remove_hashes-IsIndexed k.ids (throttle_entity s entity block_number).1 s k.indexed))
step-IsKept n s t (Call.remove_using entity) h room k = subst (IsKept (n + 0)) (some_inj h) (
    still-IsKept n s (remove_entity s entity).0 k
      (remove_hashes-IsIndexed k.ids (remove_entity s entity).1 s k.indexed))
step-IsKept n s t (Call.forget_mined block_number) h room k = subst (IsKept (n + 0)) (some_inj h) (
    still-IsKept n s (forget_mined_operations_before_block s block_number) k
      (forget-IsIndexed k.ids block_number s.mined_hashes_with_block_numbers s k.indexed))
step-IsKept n s t Call.clear_all h room k =
    subst (IsKept (n + 0)) (some_inj h)
      (still-IsKept n s (clear s) k (clear-IsIndexed k.ids s k.indexed))
step-IsKept n s t (Call.preconfirm txns) h room k =
    subst (IsKept (n + 0)) (some_inj h) (
      still-IsKept n s (preconfirm_txns s txns) k
        (preconfirm_txns-IsIndexed k.ids txns s k.indexed))
step-IsKept n s t (Call.preconfirm_at txns block_number) h room k =
    subst (IsKept (n + 0)) (some_inj h) (
      still-IsKept n s (preconfirm_txns_at_block_number s txns block_number) k (
        same-IsIndexed k.ids s (preconfirm_txns_at_block_number s txns block_number) refl refl refl
          refl refl refl refl k.indexed))
step-IsKept n s t (Call.remove_out_of_date block_number) h room k =
    subst (IsKept (n + 0)) (some_inj h) (
      still-IsKept n s (remove_out_of_date_preconfirmed_uos s block_number) k (
        same-IsIndexed k.ids s (remove_out_of_date_preconfirmed_uos s block_number) refl refl refl
          refl refl refl refl k.indexed))
step-IsKept n s t (Call.on_block block) h room k =
    subst (IsKept (n + 0)) (some_inj h) (
      still-IsKept n s (do_maintenance s block) k
        (do_maintenance-IsIndexed k.ids s block k.indexed))

pub new-IsKept : (config : PoolInnerConfig) → IsKept 0 (new config)
unfolding new get sum_values
new-IsKept config = record {
  ids = record { issued = λ k. none; next = 0 };
  bound = omega arith;
  unused = λ k h. refl;
  indexed = record {
    by_hash_id = λ h o q. absurd (ground arith);
    by_id_hash = λ i o q. absurd (ground arith);
    by_hash_map = tt;
    best_stored = tt;
    best_once = tt;
    sized = refl;
    next_id = refl;
    stored_issued = λ h o q. absurd (ground arith);
    mined_issued = λ h b o q. absurd (ground arith);
  };
}

pub run-IsKept :
    (calls : List Call) (n : ℕ) (s t : PoolInner)
    → run s calls ≡ some t
    → n + ids_taken calls < u64_mod
    → IsKept n s
    → IsKept (n + ids_taken calls) t
unfolding run
run-IsKept [] n s t h room k =
    let same : n ≡ n + 0 = omega arith in
    subst (λ (m : ℕ). IsKept m t) same (subst (IsKept n) (some_inj h) k)
run-IsKept (call ∷ calls) n s t h room k = elim (Option-cases (step s call)) [
  | inl stuck ↦ absurd (ground arith)
  | inr (u, done) ↦
      let e : run u calls ≡ some t = ground arith in
      let shift : n + takes_id call + ids_taken calls ≡ n + (takes_id call + ids_taken calls) =
        omega arith in
      subst (λ (m : ℕ). IsKept m t) shift
        (run-IsKept calls (n + takes_id call) u t e (omega arith)
          (step-IsKept n s u call done (omega arith) k))
]

-- After any history of calls on a new pool that takes fewer submission ids than there are, an operation is found by
-- its id exactly if it is found by its hash, under its own id and hash, and the best operations are stored
-- ones, none of them twice.
pub run-IsConsistent :
    (config : PoolInnerConfig) (calls : List Call) (s : PoolInner)
    → run (new config) calls ≡ some s
    → ids_taken calls < u64_mod
    → IsConsistent s
run-IsConsistent config calls s h room =
    let k = run-IsKept calls 0 (new config) s h (omega arith) (new-IsKept config) in
    record {
      by_hash_id = k.indexed.by_hash_id;
      by_id_hash = k.indexed.by_id_hash;
      best_stored = k.indexed.best_stored;
      best_once = k.indexed.best_once;
    }

-- After any history of calls on a new pool that takes fewer submission ids than there are, the pool's size
-- is the memory of the operations that are stored under their hashes.
pub run-IsSized :
    (config : PoolInnerConfig) (calls : List Call) (s : PoolInner)
    → run (new config) calls ≡ some s
    → ids_taken calls < u64_mod
    → s.pool_size ≡ pos (sum_values (λ o. mem_size s.config o) s.by_hash)
run-IsSized config calls s h room =
    (run-IsKept calls 0 (new config) s h (omega arith) (new-IsKept config)).indexed.sized
