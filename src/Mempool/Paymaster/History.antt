-- ===== src/Mempool/Paymaster/History.antt =====
-- All histories of the paymaster tracker (crates/pool/src/mempool/paymaster.rs).
use rundler.Common.{
  ℕ, ◌≡◌, refl, ◌∙◌, Bool, true, none, some, List, [], ◌∷◌, arith, nat_eq, saturating_add, u256_mod,
  Option-cases, inl, inr,
}
use rundler.Common.HashMap.Values.{sum_values}
use rundler.Mempool.Paymaster.{
  PaymasterBalance, PaymasterMetadata, LruMap, PaymasterTracker, Op, MinedOp, new, set_tracking,
  clear, set_confimed_balances, update_paymaster_balance_from_mined_op, remove_operation,
  unmine_actual_cost, add_new_paymaster, add_or_update_balance,
}
use rundler.Mempool.Paymaster.Ledger.{
  pending_at, IsBalanced, Fits, remove_operation-IsBalanced, mined-IsBalanced,
  add_or_update_balance-IsBalanced,
}

module _ {Map : Type 0} (lru : LruMap Map) where
  -- The changes that the tracker's calls make. A call that inserts finds room in the cache, and a new
  -- reservation fits in 256 bits beside the others of its paymaster.
  pub data Step : PaymasterTracker Map → PaymasterTracker Map → Type 0 where
    adds :
        (s : PaymasterTracker Map) (po : Op) (d : PaymasterMetadata)
        → lru.has_room s.paymaster_balances ≡ true
        → Fits lru s d.address po.max_gas_cost
        → Step s (add_or_update_balance lru s po d).0
    learns :
        (s : PaymasterTracker Map) (paymaster balance : ℕ)
        → lru.has_room s.paymaster_balances ≡ true
        → lru.peek paymaster s.paymaster_balances ≡ none
        → Step s (record s {
          paymaster_balances = add_new_paymaster lru s.paymaster_balances paymaster balance 0;
        })
    removes :
        (s : PaymasterTracker Map) (id : rundler.Types.UserOperationId)
        → Step s (remove_operation lru s id)
    mines :
        (s : PaymasterTracker Map) (m : MinedOp)
        → Step s (update_paymaster_balance_from_mined_op lru s m)
    unmines :
        (s : PaymasterTracker Map) (paymaster cost : ℕ)
        → Step s (unmine_actual_cost lru s paymaster cost)
    confirms :
        (s : PaymasterTracker Map) (addresses balances : List ℕ) (m : Map)
        → set_confimed_balances lru s.paymaster_balances addresses balances ≡ some m
        → Step s (record s { paymaster_balances = m })
    tracks : (s : PaymasterTracker Map) (b : Bool) → Step s (set_tracking lru s b)
    clears : (s : PaymasterTracker Map) → Step s (clear lru s)

  pub data Reach (s : PaymasterTracker Map) : PaymasterTracker Map → Type 0 where
    here : Reach s s
    next : {t u : PaymasterTracker Map} → Reach s t → Step t u → Reach s u

  -- An update of the confirmed balance alone keeps what is reserved.
  pending_at-update :
      (k p : ℕ) (f : PaymasterBalance → PaymasterBalance) (m : Map)
      → ((b : PaymasterBalance) → (f b).pending ≡ b.pending)
      → pending_at lru (lru.update k f m) p ≡ pending_at lru m p
  pending_at-update k p f m same = elim (Option-cases (lru.peek p m)) [
    | inl e ↦ ground (arith, lru.peek-update k p f m)
    | inr (b, e) ↦ ground (arith, lru.peek-update k p f m, same b)
  ]

  pending_at-confirmed :
      (addresses balances : List ℕ) (m n : Map) (p : ℕ)
      → set_confimed_balances lru m addresses balances ≡ some n
      → pending_at lru n p ≡ pending_at lru m p
  unfolding set_confimed_balances
  pending_at-confirmed [] balances m n p e = ground arith
  pending_at-confirmed (a ∷ as') [] m n p e = pending_at-confirmed as' [] m n p (ground arith)
  pending_at-confirmed (a ∷ as') (b ∷ bs) m n p e =
      pending_at-confirmed as' bs (lru.update a (λ pb. record pb { confirmed = b }) m) n p e
      ∙ pending_at-update a p (λ pb. record pb { confirmed = b }) m (λ _. refl)

  learns-exact :
      (s : PaymasterTracker Map) (k balance p : ℕ)
      → lru.has_room s.paymaster_balances ≡ true
      → lru.peek k s.paymaster_balances ≡ none
      → pending_at lru (add_new_paymaster lru s.paymaster_balances k balance 0) p
        ≡ pending_at lru s.paymaster_balances p
  unfolding add_new_paymaster
  learns-exact s k balance p room absent = ground (
    arith,
    lru.peek-insert k p (record { pending = 0; confirmed = balance }) s.paymaster_balances room,
  )

  Step-IsBalanced : {s t : PaymasterTracker Map} → Step s t → IsBalanced lru s → IsBalanced lru t
  unfolding unmine_actual_cost set_tracking clear sum_values
  Step-IsBalanced (adds s po d room fits) v =
      add_or_update_balance-IsBalanced lru s po d v room fits
  Step-IsBalanced (learns s k balance room absent) v = record {
    distinct = v.distinct;
    exact = λ p. learns-exact s k balance p room absent ∙ v.exact p;
  }
  Step-IsBalanced (removes s id) v = remove_operation-IsBalanced lru s id v
  Step-IsBalanced (mines s m) v = mined-IsBalanced lru s m v
  Step-IsBalanced (unmines s k cost) v = record {
    distinct = v.distinct;
    exact = λ p.
        pending_at-update k p
          (λ pb. record pb { confirmed = saturating_add u256_mod pb.confirmed cost })
          s.paymaster_balances (λ _. refl)
        ∙ v.exact p;
  }
  Step-IsBalanced (confirms s addresses balances m e) v = record {
    distinct = v.distinct;
    exact = λ p. pending_at-confirmed addresses balances s.paymaster_balances m p e ∙ v.exact p;
  }
  Step-IsBalanced (tracks s b) v = record { distinct = v.distinct; exact = v.exact }
  Step-IsBalanced (clears s) v = record {
    distinct = tt;
    exact = λ p. rw (lru.peek-clear p s.paymaster_balances);
  }

  from_Reach : {s t : PaymasterTracker Map} → Reach s t → IsBalanced lru s → IsBalanced lru t
  from_Reach here v = v
  from_Reach (next r st) v = Step-IsBalanced st (from_Reach r v)

  -- After any history of calls on a new tracker, what each paymaster has pending is exactly the sum of
  -- the greatest costs of the operations that the tracker knows for it, provided that each insertion
  -- finds room in the cache and each new reservation fits in 256 bits.
  pub Reach-IsBalanced :
      (enabled : Bool) (cache_size : ℕ) (t : PaymasterTracker Map)
      → Reach (new lru enabled cache_size) t
      → IsBalanced lru t
  unfolding new sum_values
  Reach-IsBalanced enabled cache_size t r =
      from_Reach r (record { distinct = tt; exact = λ p. rw (lru.peek-new cache_size p) })
