-- ===== src/Builder/Assigner/Handed.antt =====
-- The operations that `assign_operations` of crates/builder/src/assigner.rs returns, where the pool
-- behaves as its interface says.
use rundler.Common.{
  ℕ, ◌≡◌, subst, inl, inr, Bool, true, Option, some, List, [], ◌∷◌, ◌++◌, map, nat_beq, nat_eq,
  arith, Option-cases, Bool-cases, All, All-append, is_empty, some_inj, leb, length,
}
use rundler.Builder.Assigner.{
  State, OpSummary, Pool, Config, assign_loop, assign_operations, lock_sender,
}
use rundler.Builder.Assigner.Locks.{lock_of, held_by, IsConsistent}
use rundler.Builder.Assigner.Assign.{taken, assign_loop_exclusive}

-- A hash determines its operation, so also its sender: the summaries carry the sender of their hash, and
-- the operations of a list of hashes have the senders of these hashes.
pub record LawfulPool {PoolOperation : Type 0} (pool : Pool PoolOperation)
    (sender : PoolOperation → ℕ) : Type 0 where
  pub sender_of : ℕ → ℕ
  pub summaries :
      (entry_point n : ℕ) (filter_id : Option ℕ) (ops : List OpSummary)
      → pool.get_ops_summaries entry_point n filter_id ≡ some ops
      → All (λ s. s.sender ≡ sender_of s.hash) ops
  pub by_hashes :
      (entry_point : ℕ) (hashes : List ℕ) (ops : List PoolOperation) (P : ℕ → Bool)
      → pool.get_ops_by_hashes entry_point hashes ≡ some ops
      → All (λ h. P (sender_of h) ≡ true) hashes
      → All (λ o. P (sender o) ≡ true) ops

assign_loop-All :
    (Q : OpSummary → Type 0) (n b : ℕ) (s : State) (acc ops : List OpSummary)
    → All Q acc
    → All Q ops
    → All Q (assign_loop n b s acc ops).1
unfolding assign_loop
assign_loop-All Q n b s acc [] h k = h
assign_loop-All Q n b s acc (op ∷ ops) h k =
    elim (Bool-cases (nat_beq (lock_sender b op.sender s.uo_sender_to_builder_state).0 b)) [
      | inr other ↦ rw (other) (
          assign_loop-All Q n b
            (record s {
              uo_sender_to_builder_state = (lock_sender b op.sender s.uo_sender_to_builder_state).1;
            })
            acc ops h k.1)
      | inl own ↦ elim (Bool-cases (leb n (length (acc ++ op ∷ [])))) [
        | inl full ↦ rw (own, full) (All-append Q acc (op ∷ []) h (k.0, tt))
        | inr more ↦
            rw (own, more)
              (assign_loop-All Q n b (taken b op.sender s) (acc ++ op ∷ []) ops
                (All-append Q acc (op ∷ []) h (k.0, tt)) k.1)
      ]
    ]

hashes_held :
    (P : ℕ → Bool) (sender_of : ℕ → ℕ) (R : OpSummary → Type 0) (out : List OpSummary)
    → All (λ s. s.sender ≡ sender_of s.hash) out
    → All (λ s. (P s.sender ≡ true) × R s) out
    → All (λ h. P (sender_of h) ≡ true) (map (λ op. op.hash) out)
hashes_held P sender_of R [] h k = tt
hashes_held P sender_of R (s ∷ out) h k =
    (subst (λ x. P x ≡ true) h.0 k.0.0, hashes_held P sender_of R out h.1 k.1)

-- Every operation that a builder is given has its sender locked to this builder.
pub assign_operations-held :
    {PoolOperation : Type 0} (pool : Pool PoolOperation) (sender : PoolOperation → ℕ)
    (config : Config) (s : State) (b entry_point : ℕ) (filter_id : Option ℕ)
    (ops : List PoolOperation)
    → LawfulPool pool sender
    → IsConsistent s
    → (assign_operations pool config s b entry_point filter_id).1 ≡ some ops
    → All
        (λ o.
          held_by b (lock_of (assign_operations pool config s b entry_point filter_id).0 (sender o))
          ≡ true)
        ops
unfolding assign_operations
assign_operations-held pool sender config s b entry_point filter_id ops law v =
    elim (Option-cases
      (pool.get_ops_summaries entry_point config.max_pool_ops_per_request filter_id)) [
        | inl e ↦ rw (e, assign_operations) (λ h. absurd (ground arith))
        | inr (os, e) ↦
            elim (Bool-cases (is_empty (assign_loop config.max_bundle_size b s [] os).1)) [
              | inl empty ↦
                  rw (e, assign_operations, empty)
                    (λ h.
                      subst
                        (λ q.
                          All
                            (λ o.
                              held_by b (
                                lock_of (assign_loop config.max_bundle_size b s [] os).0 (sender o))
                              ≡ true)
                            q)
                        (some_inj h) tt)
              | inr some_left ↦
                  rw (e, assign_operations, some_left)
                    (λ h.
                      law.by_hashes entry_point
                        (map (λ op. op.hash) (assign_loop config.max_bundle_size b s [] os).1) ops
                        (λ x.
                          held_by b (lock_of (assign_loop config.max_bundle_size b s [] os).0 x))
                        h
                        (hashes_held
                          (λ x.
                            held_by b (lock_of (assign_loop config.max_bundle_size b s [] os).0 x))
                          law.sender_of _ (assign_loop config.max_bundle_size b s [] os).1
                          (assign_loop-All (λ s. s.sender ≡ law.sender_of s.hash)
                            config.max_bundle_size b s [] os tt
                            (law.summaries entry_point config.max_pool_ops_per_request filter_id os
                              e))
                          (assign_loop_exclusive config.max_bundle_size b s os v).0))
            ]
      ]
