-- ===== src/Mempool/Paymaster/Solvency.antt =====
-- With tracking on, no accepted operation lets a paymaster's reservations exceed its confirmed balance
-- (crates/pool/src/mempool/paymaster.rs).
use rundler.Common.{
  ℕ, ◌-◌, ◌≤◌, ◌≡◌, refl, sym, ap, subst, ◌∙◌, inl, inr, true, some, nat_eq, arith, saturating_add,
  u256_mod, Option-cases,
}
use rundler.Common.Results.{Result, ok, err}
use rundler.Common.HashMap.{get}
use rundler.Common.HashMap.Values.{weight}
use rundler.Types.{id_eq}
use rundler.Mempool.Paymaster.{
  MempoolError, UserOpFees, PaymasterBalance, PaymasterMetadata, LruMap, PaymasterTracker, Op,
  pending_balance, paymaster_metadata, add_or_update_balance, is_user_op_replacement,
  replace_existing_user_op, replaced_balances, add_new_user_op, add_new_paymaster,
  decrement_previous_paymaster_balance,
}
use rundler.Mempool.Paymaster.Ledger.{pending_at}
use rundler.Mempool.Paymaster.Tracker.{
  EntryPoint, paymaster_balance, after_balance, add_or_update_balance_of,
  paymaster_balance-metadata,
}

module _ {Map : Type 0} (lru : LruMap Map) where
  abbrev pub confirmed_at : Map → ℕ → ℕ
  confirmed_at m p = weight (λ b. b.confirmed) (lru.peek p m)

  -- No paymaster has more pending than confirmed.
  abbrev pub IsSolvent : PaymasterTracker Map → Type 0
  IsSolvent s =
      (p : ℕ) → pending_at lru s.paymaster_balances p ≤ confirmed_at s.paymaster_balances p

  module _ (s : PaymasterTracker Map) (po : Op) (d : PaymasterMetadata)
      (held : paymaster_metadata lru s d.address ≡ some d) (solvent : IsSolvent s) where
    add_new-solvent :
        (p : ℕ)
        → po.max_gas_cost ≤ d.pending_balance
        → let m = (add_new_user_op lru s po.id d po.max_gas_cost).paymaster_balances in
          pending_at lru m p ≤ confirmed_at m p
    unfolding add_new_user_op paymaster_metadata pending_balance saturating_add
    add_new-solvent p funds = ground (
      arith,
      solvent p,
      lru.peek-update d.address p
          (λ pb. record pb { pending = saturating_add u256_mod pb.pending po.max_gas_cost })
          s.paymaster_balances,
    )

    replaced-solvent :
        (prev : UserOpFees) (p : ℕ)
        → po.max_gas_cost ≤ d.pending_balance
        → let m = replaced_balances lru s.paymaster_balances prev d po.max_gas_cost in
          pending_at lru m p ≤ confirmed_at m p
    unfolding replaced_balances paymaster_metadata pending_balance saturating_add
        decrement_previous_paymaster_balance
    replaced-solvent prev p funds =
        let lower : PaymasterBalance → PaymasterBalance =
          λ pb. record pb { pending = pb.pending - prev.max_op_cost } in
        let higher : PaymasterBalance → PaymasterBalance =
          λ pb. record pb { pending = saturating_add u256_mod pb.pending po.max_gas_cost } in
        ground (
          arith,
          solvent p,
          lru.peek-update d.address p higher s.paymaster_balances,
          lru.peek-update d.address p
              (λ pb. record pb {
                pending = saturating_add u256_mod (pb.pending - prev.max_op_cost) po.max_gas_cost;
              })
              s.paymaster_balances,
          lru.peek-update prev.paymaster p lower (lru.update d.address higher s.paymaster_balances),
        )

    add_or_update-IsSolvent :
        s.tracker_enabled ≡ true → IsSolvent (add_or_update_balance lru s po d).0
    unfolding add_or_update_balance is_user_op_replacement replace_existing_user_op
    add_or_update-IsSolvent on p = elim (Option-cases (get po.id s.user_op_fees)) [
      | inl e ↦ ground (arith, solvent p, add_new-solvent p)
      | inr (prev, e) ↦ ground (arith, solvent p, replaced-solvent prev p)
    ]

  looked_up-solvent :
      (ep : EntryPoint) (s : PaymasterTracker Map) (k p : ℕ)
      → lru.has_room s.paymaster_balances ≡ true
      → IsSolvent s
      → let m = (paymaster_balance lru ep s k).0.paymaster_balances in
        pending_at lru m p ≤ confirmed_at m p
  unfolding paymaster_balance add_new_paymaster
  looked_up-solvent ep s k p room solvent = elim (Option-cases (ep.balance_of k)) [
    | inl e ↦ ground (arith, solvent p)
    | inr (balance, e) ↦ ground (
      arith,
      solvent p,
      lru.peek-insert k p (record { pending = 0; confirmed = balance }) s.paymaster_balances room,
    )
  ]

  looked_up_enabled :
      (ep : EntryPoint) (s : PaymasterTracker Map) (k : ℕ)
      → (paymaster_balance lru ep s k).0.tracker_enabled ≡ s.tracker_enabled
  unfolding paymaster_balance
  looked_up_enabled ep s k = ground arith

  after_lookup :
      (ep : EntryPoint) (s t : PaymasterTracker Map) (po : Op) (k : ℕ)
      (r : Result MempoolError PaymasterMetadata)
      → lru.has_room s.paymaster_balances ≡ true
      → s.tracker_enabled ≡ true
      → IsSolvent s
      → paymaster_balance lru ep s k ≡ (t, r)
      → IsSolvent (after_balance lru ep (t, r) (λ u d. add_or_update_balance lru u po d)).0
  after_lookup ep s t po k (err x) room on solvent e =
      subst (λ q. IsSolvent q.0) e (λ p. looked_up-solvent ep s k p room solvent)
  after_lookup ep s t po k (ok d) room on solvent e =
      let (held, _, here) = paymaster_balance-metadata lru ep s t k d room e in
      add_or_update-IsSolvent t po d
        (subst (λ q. paymaster_metadata lru t q ≡ some d) (sym here) held)
        (subst (λ q. IsSolvent q.0) e (λ p. looked_up-solvent ep s k p room solvent))
        (sym (ap (λ q. q.0.tracker_enabled) e) ∙ looked_up_enabled ep s k ∙ on)

  -- With tracking on and room in the cache, a call of `add_or_update_balance`, with its lookup of the
  -- paymaster, keeps every paymaster's pending amount within its confirmed balance, whatever the
  -- provider answers and whether the call succeeds or fails.
  pub add_or_update_balance-IsSolvent :
      (ep : EntryPoint) (s : PaymasterTracker Map) (po : Op)
      → lru.has_room s.paymaster_balances ≡ true
      → s.tracker_enabled ≡ true
      → IsSolvent s
      → IsSolvent (add_or_update_balance_of lru ep s po).0
  unfolding add_or_update_balance_of
  add_or_update_balance-IsSolvent ep s po room on solvent = elim (Option-cases po.paymaster) [
    | inl e ↦ rw (e, add_or_update_balance_of) solvent
    | inr (k, e) ↦
        rw (e, add_or_update_balance_of)
          (after_lookup ep s (paymaster_balance lru ep s k).0 po k (paymaster_balance lru ep s k).1
            room on solvent refl)
  ]
