-- ===== src/Mempool/Paymaster/Tracker.antt =====
-- The calls of `PaymasterTracker` that ask the entry point contract
-- (crates/pool/src/mempool/paymaster.rs). A provider error is `none` of the provider, and `other` here.
use rundler.Common.{
  ℕ, ◌≡◌, Bool, true, ◌&&◌, Option, none, some, List, leb, if◌then◌else◌, Option-cases, inl, inr,
  arith, nat_eq,
}
use rundler.Common.Results.{Result, ok, err}
use rundler.Mempool.Paymaster.{
  PaymasterMetadata, MempoolError, other, LruMap, PaymasterTracker, Op, paymaster_exists,
  paymaster_metadata, add_new_paymaster, check_operation_cost, add_or_update_balance,
  set_confimed_balances, paymaster_addresses, pending_balance,
}

pub record DepositInfo : Type 0 where
  pub stake : ℕ
  pub unstake_delay_sec : ℕ

-- The calls of the entry point that the tracker makes.
pub record EntryPoint : Type 0 where
  pub get_deposit_info : ℕ → Option DepositInfo
  pub balance_of : ℕ → Option ℕ
  pub get_balances : List ℕ → Option (List ℕ)

pub record PaymasterConfig : Type 0 where
  pub min_stake_value : ℕ
  pub min_unstake_delay : ℕ

pub record StakeStatus : Type 0 where
  pub is_staked : Bool
  pub stake_info : DepositInfo

unfoldable pub get_stake_status : EntryPoint → PaymasterConfig → ℕ → Result MempoolError StakeStatus
get_stake_status ep config address = elim (ep.get_deposit_info address) [
  | none ↦ err other
  | some info ↦ ok (record {
    is_staked =
        leb config.min_stake_value info.stake
        && leb config.min_unstake_delay info.unstake_delay_sec;
    stake_info = info;
  })
]

module _ {Map : Type 0} (lru : LruMap Map) (ep : EntryPoint) where
  unfoldable pub paymaster_balance :
      PaymasterTracker Map → ℕ → PaymasterTracker Map × Result MempoolError PaymasterMetadata
  paymaster_balance s paymaster =
      if paymaster_exists lru s paymaster
      then (s, elim (paymaster_metadata lru s paymaster) [ none ↦ err other | some meta ↦ ok meta ])
      else elim (ep.balance_of paymaster) [
        | none ↦ (s, err other)
        | some balance ↦ (
          record s {
            paymaster_balances = add_new_paymaster lru s.paymaster_balances paymaster balance 0;
          },
          ok (record {
            address = paymaster;
            confirmed_balance = balance;
            pending_balance = balance;
          }),
        )
      ]

  -- What follows a lookup of the paymaster: an error of the lookup is returned.
  abbrev pub after_balance :
      PaymasterTracker Map × Result MempoolError PaymasterMetadata
      → (PaymasterTracker Map
          → PaymasterMetadata
          → PaymasterTracker Map × Result MempoolError (Unit {0}))
      → PaymasterTracker Map × Result MempoolError (Unit {0})
  after_balance (s, err e) k = (s, err e)
  after_balance (s, ok metadata) k = k s metadata

  unfoldable pub check_operation_cost_of :
      PaymasterTracker Map → Op → PaymasterTracker Map × Result MempoolError (Unit {0})
  check_operation_cost_of s op = elim op.paymaster [
    | none ↦ (s, ok tt)
    | some paymaster ↦
        after_balance (paymaster_balance s paymaster)
          (λ t metadata. (t, check_operation_cost lru t op metadata))
  ]

  unfoldable pub add_or_update_balance_of :
      PaymasterTracker Map → Op → PaymasterTracker Map × Result MempoolError (Unit {0})
  add_or_update_balance_of s po = elim po.paymaster [
    | none ↦ (s, ok tt)
    | some paymaster ↦
        after_balance (paymaster_balance s paymaster)
          (λ t metadata. add_or_update_balance lru t po metadata)
  ]

  -- The `Option` is the panic of `set_confimed_balances`.
  unfoldable pub reset_confirmed_balances_for :
      PaymasterTracker Map → List ℕ → Option (PaymasterTracker Map × Result MempoolError (Unit {0}))
  reset_confirmed_balances_for s addresses = elim (ep.get_balances addresses) [
    | none ↦ some (s, err other)
    | some balances ↦ elim (set_confimed_balances lru s.paymaster_balances addresses balances) [
      | none ↦ none
      | some m ↦ some (record s { paymaster_balances = m }, ok tt)
    ]
  ]

  unfoldable pub reset_confirmed_balances :
      PaymasterTracker Map → Option (PaymasterTracker Map × Result MempoolError (Unit {0}))
  unfolding reset_confirmed_balances_for
  reset_confirmed_balances s = reset_confirmed_balances_for s (paymaster_addresses lru s)

  fetched-metadata :
      (s t : PaymasterTracker Map) (p balance : ℕ) (d : PaymasterMetadata)
      → lru.has_room s.paymaster_balances ≡ true
      → lru.peek p s.paymaster_balances ≡ none
      → ep.balance_of p ≡ some balance
      → paymaster_balance s p ≡ (t, ok d)
      → paymaster_metadata lru t p ≡ some d
  unfolding paymaster_balance paymaster_exists paymaster_metadata add_new_paymaster pending_balance
  fetched-metadata s t p balance d room absent fetched e = ground (
    arith,
    lru.peek-insert p p (record { pending = 0; confirmed = balance }) s.paymaster_balances room,
  )

  -- Metadata that a lookup returns is what the tracker then holds.
  pub paymaster_balance-metadata :
      (s t : PaymasterTracker Map) (p : ℕ) (d : PaymasterMetadata)
      → lru.has_room s.paymaster_balances ≡ true
      → paymaster_balance s p ≡ (t, ok d)
      → (paymaster_metadata lru t p ≡ some d) × (paymaster_exists lru t p ≡ true) × (d.address ≡ p)
  unfolding paymaster_balance paymaster_exists paymaster_metadata
  paymaster_balance-metadata s t p d room e = elim (Option-cases (ep.balance_of p)) [
    | inl failed ↦ ground arith
    | inr (balance, fetched) ↦ ground (arith, fetched-metadata s t p balance d room)
  ]

-- Where the cache has room, a lookup that succeeds is remembered: a second lookup gives the same metadata,
-- asks no provider and changes nothing.
pub paymaster_balance-idempotent :
    {Map : Type 0} (lru : LruMap Map) (ep ep' : EntryPoint) (s t : PaymasterTracker Map)
    (paymaster : ℕ) (d : PaymasterMetadata)
    → lru.has_room s.paymaster_balances ≡ true
    → paymaster_balance lru ep s paymaster ≡ (t, ok d)
    → paymaster_balance lru ep' t paymaster ≡ (t, ok d)
unfolding paymaster_balance
paymaster_balance-idempotent lru ep ep' s t p d room e =
    let (held, known, _) = paymaster_balance-metadata lru ep s t p d room e in rw known (rw held)
