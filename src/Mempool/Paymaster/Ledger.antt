-- ===== src/Mempool/Paymaster/Ledger.antt =====
-- The ledger of crates/pool/src/mempool/paymaster.rs: what a paymaster has reserved is the sum over the
-- operations that the tracker knows.
use rundler.Common.{
  ℕ, ◌+◌, ◌-◌, ◌<◌, ◌≤◌, ◌≡◌, ap, inl, inr, true, none, some, nat_beq, nat_eq, arith, if◌then◌else◌,
  saturating_add, u256_mod, Option-cases,
}
use rundler.Common.HashMap.{HashMap, get, IsMap, insert-IsMap, remove-IsMap}
use rundler.Common.HashMap.Values.{weight, sum_values, sum_values-insert, sum_values-remove}
use rundler.Types.{UserOperationId, id_eq}
use rundler.Mempool.Paymaster.{
  UserOpFees, PaymasterBalance, PaymasterMetadata, LruMap, PaymasterTracker, Op, MinedOp,
  remove_operation, update_paymaster_balance_from_mined_op, add_or_update_balance, add_new_user_op,
  replace_existing_user_op, replaced_balances, add_new_paymaster,
  decrement_previous_paymaster_balance, is_user_op_replacement,
}

abbrev pub charge : ℕ → UserOpFees → ℕ
charge p f = if nat_beq f.paymaster p then f.max_op_cost else 0

-- What the tracked operations may cost the paymaster `p`.
abbrev pub reserved : ℕ → HashMap UserOperationId UserOpFees → ℕ
reserved p fees = sum_values (charge p) fees

charge-le-reserved :
    (p : ℕ) (id : UserOperationId) (fees : HashMap UserOperationId UserOpFees) (f : UserOpFees)
    → IsMap fees
    → get id fees ≡ some f
    → charge p f ≤ reserved p fees
charge-le-reserved p id fees f d e =
    omega (arith, sum_values-remove (charge p) id fees d, ap (weight (charge p)) e)

module _ {Map : Type 0} (lru : LruMap Map) where
  abbrev pub pending_at : Map → ℕ → ℕ
  pending_at m p = weight (λ b. b.pending) (lru.peek p m)

  pub record IsBalanced (s : PaymasterTracker Map) : Type 0 where
    pub distinct : IsMap s.user_op_fees
    pub exact : (p : ℕ) → pending_at s.paymaster_balances p ≡ reserved p s.user_op_fees

  remove_operation-exact :
      (s : PaymasterTracker Map) (id : UserOperationId) (p : ℕ)
      → IsBalanced s
      → pending_at (remove_operation lru s id).paymaster_balances p
        ≡ reserved p (remove_operation lru s id).user_op_fees
  unfolding remove_operation
  remove_operation-exact s id p v = elim (Option-cases (get id s.user_op_fees)) [
    | inl e ↦ rw (e, remove_operation) (v.exact p)
    | inr (fee, e) ↦
        rw (e, remove_operation)
          (ground (
            arith,
            v.exact p,
            lru.peek-update fee.paymaster p
                (λ pb. record pb { pending = pb.pending - fee.max_op_cost }) s.paymaster_balances,
            sum_values-remove (charge p) id s.user_op_fees v.distinct,
          ))
  ]

  remove_operation-IsMap :
      (s : PaymasterTracker Map) (id : UserOperationId)
      → IsMap s.user_op_fees
      → IsMap (remove_operation lru s id).user_op_fees
  unfolding remove_operation
  remove_operation-IsMap s id d = ground (arith, remove-IsMap id s.user_op_fees d)

  pub remove_operation-IsBalanced :
      (s : PaymasterTracker Map) (id : UserOperationId)
      → IsBalanced s
      → IsBalanced (remove_operation lru s id)
  remove_operation-IsBalanced s id v = record {
    distinct = remove_operation-IsMap s id v.distinct;
    exact = λ p. remove_operation-exact s id p v;
  }

  mined-exact :
      (s : PaymasterTracker Map) (m : MinedOp) (p : ℕ)
      → IsBalanced s
      → pending_at (update_paymaster_balance_from_mined_op lru s m).paymaster_balances p
        ≡ reserved p (update_paymaster_balance_from_mined_op lru s m).user_op_fees
  unfolding update_paymaster_balance_from_mined_op
  mined-exact s m p v = elim (Option-cases (get m.id s.user_op_fees)) [
    | inl e ↦ rw (e, update_paymaster_balance_from_mined_op) (v.exact p)
    | inr (fee, e) ↦
        rw (e, update_paymaster_balance_from_mined_op)
          (ground (
            arith,
            v.exact p,
            lru.peek-update fee.paymaster p
                (λ pb. record {
                  confirmed = pb.confirmed - m.actual_gas_cost;
                  pending = pb.pending - fee.max_op_cost;
                })
                s.paymaster_balances,
            sum_values-remove (charge p) m.id s.user_op_fees v.distinct,
          ))
  ]

  mined-IsMap :
      (s : PaymasterTracker Map) (m : MinedOp)
      → IsMap s.user_op_fees
      → IsMap (update_paymaster_balance_from_mined_op lru s m).user_op_fees
  unfolding update_paymaster_balance_from_mined_op
  mined-IsMap s m d = ground (arith, remove-IsMap m.id s.user_op_fees d)

  pub mined-IsBalanced :
      (s : PaymasterTracker Map) (m : MinedOp)
      → IsBalanced s
      → IsBalanced (update_paymaster_balance_from_mined_op lru s m)
  mined-IsBalanced s m v = record {
    distinct = mined-IsMap s m v.distinct;
    exact = λ p. mined-exact s m p v;
  }

  -- The new reservation fits in a word beside those that the paymaster has.
  abbrev pub Fits : PaymasterTracker Map → ℕ → ℕ → Type 0
  Fits s address cost = reserved address s.user_op_fees + cost < u256_mod

  add_new-exact :
      (s : PaymasterTracker Map) (id : UserOperationId) (d : PaymasterMetadata) (cost p : ℕ)
      → IsBalanced s
      → lru.has_room s.paymaster_balances ≡ true
      → Fits s d.address cost
      → get id s.user_op_fees ≡ none
      → pending_at (add_new_user_op lru s id d cost).paymaster_balances p
        ≡ reserved p (add_new_user_op lru s id d cost).user_op_fees
  unfolding add_new_user_op add_new_paymaster saturating_add
  add_new-exact s id d cost p v room fits e = ground (
    arith,
    v.exact p,
    v.exact d.address,
    lru.peek-update d.address p
        (λ pb. record pb { pending = saturating_add u256_mod pb.pending cost })
        s.paymaster_balances,
    lru.peek-insert d.address p (record { pending = cost; confirmed = d.confirmed_balance })
        s.paymaster_balances room,
    sum_values-insert (charge p) id (record { paymaster = d.address; max_op_cost = cost })
        s.user_op_fees,
  )

  -- The balances after a replacement, where the room and the word size suffice.
  replaced-exact :
      (m : Map) (prev : UserOpFees) (d : PaymasterMetadata) (cost p : ℕ)
      → lru.has_room m ≡ true
      → charge p prev ≤ pending_at m p
      → pending_at m d.address + cost < u256_mod
      → pending_at (replaced_balances lru m prev d cost) p + charge p prev
        ≡ pending_at m p + charge p (record { paymaster = d.address; max_op_cost = cost })
  unfolding replaced_balances decrement_previous_paymaster_balance add_new_paymaster saturating_add
  replaced-exact m prev d cost p room enough fits =
      let lower : PaymasterBalance → PaymasterBalance =
        λ pb. record pb { pending = pb.pending - prev.max_op_cost } in
      let higher : PaymasterBalance → PaymasterBalance =
        λ pb. record pb { pending = saturating_add u256_mod pb.pending cost } in
      let fresh : PaymasterBalance = record { pending = cost; confirmed = d.confirmed_balance } in
      ground (
        arith,
        lru.peek-update d.address p higher m,
        lru.peek-update d.address p
            (λ pb. record pb {
              pending = saturating_add u256_mod (pb.pending - prev.max_op_cost) cost;
            })
            m,
        lru.peek-update prev.paymaster p lower (lru.update d.address higher m),
        lru.peek-update prev.paymaster p lower m,
        lru.peek-insert d.address p fresh m,
        lru.peek-insert d.address p fresh (lru.update prev.paymaster lower m),
        lru.has_room-update prev.paymaster lower m,
      )

  replace-exact :
      (s : PaymasterTracker Map) (id : UserOperationId) (d : PaymasterMetadata) (cost p : ℕ)
      → IsBalanced s
      → lru.has_room s.paymaster_balances ≡ true
      → Fits s d.address cost
      → (prev : UserOpFees) → get id s.user_op_fees ≡ some prev
      → pending_at (replace_existing_user_op lru s id d cost).0.paymaster_balances p
        ≡ reserved p (replace_existing_user_op lru s id d cost).0.user_op_fees
  unfolding replace_existing_user_op
  replace-exact s id d cost p v room fits prev e =
      rw (e, replace_existing_user_op)
        (omega (
          arith,
          replaced-exact s.paymaster_balances prev d cost p room
              (omega (arith, v.exact p, charge-le-reserved p id s.user_op_fees prev v.distinct e))
              (omega (arith, v.exact d.address)),
          v.exact p,
          ap (weight (charge p)) e,
          sum_values-insert (charge p) id (record { paymaster = d.address; max_op_cost = cost })
              s.user_op_fees,
        ))

  add_or_update-IsMap :
      (s : PaymasterTracker Map) (po : Op) (d : PaymasterMetadata)
      → IsMap s.user_op_fees
      → IsMap (add_or_update_balance lru s po d).0.user_op_fees
  unfolding add_or_update_balance replace_existing_user_op add_new_user_op
  add_or_update-IsMap s po d h = ground (
    arith,
    insert-IsMap po.id (record { paymaster = d.address; max_op_cost = po.max_gas_cost })
        s.user_op_fees h,
  )

  -- Adding or replacing an operation keeps the ledger exact, whether it succeeds or fails.
  pub add_or_update_balance-IsBalanced :
      (s : PaymasterTracker Map) (po : Op) (d : PaymasterMetadata)
      → IsBalanced s
      → lru.has_room s.paymaster_balances ≡ true
      → Fits s d.address po.max_gas_cost
      → IsBalanced (add_or_update_balance lru s po d).0
  unfolding add_or_update_balance is_user_op_replacement
  add_or_update_balance-IsBalanced s po d v room fits = record {
    distinct = add_or_update-IsMap s po d v.distinct;
    exact = λ p. elim (Option-cases (get po.id s.user_op_fees)) [
      | inl e ↦ ground (arith, v.exact p, add_new-exact s po.id d po.max_gas_cost p v room fits e)
      | inr (prev, e) ↦
          ground (arith, v.exact p, replace-exact s po.id d po.max_gas_cost p v room fits prev e)
    ];
  }
