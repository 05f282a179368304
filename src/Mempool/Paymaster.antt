-- ===== src/Mempool/Paymaster.antt =====
-- crates/pool/src/mempool/paymaster.rs: the balances of paymasters, confirmed on chain and reserved by
-- the operations in the mempool. `PaymasterTracker` takes the lock around `PaymasterTrackerInner`; the
-- two are one record here, and the calls are sequential. Amounts are 256-bit words.
-- The LRU cache (crate schnellru) and the entry point contract are parameters.
pub mod Cache
pub mod Errors
pub mod Ledger
pub mod History
pub mod Solvency
pub mod Tracker
pub mod Examples
use rundler.Common.{
  ℕ, ◌+◌, ◌-◌, ◌<◌, ◌≡◌, Bool, true, false, not, ◌&&◌, ◌||◌, Option, none, some, List, [], ◌∷◌, map,
  ltb, nat_beq, nat_eq, if◌then◌else◌, is_some, saturating_add, u256_mod, length,
}
use rundler.Common.Results.{Result, ok, err}
use rundler.Common.HashMap.{HashMap, get, insert, remove}
use rundler.Types.{UserOperationId, id_eq}

pub record UserOpFees : Type 0 where
  pub paymaster : ℕ
  pub max_op_cost : ℕ

pub record PaymasterBalance : Type 0 where
  pub pending : ℕ
  pub confirmed : ℕ

unfoldable pub pending_balance : PaymasterBalance → ℕ
pending_balance b = b.confirmed - b.pending

pub record PaymasterMetadata : Type 0 where
  pub address : ℕ
  pub confirmed_balance : ℕ
  pub pending_balance : ℕ

pub data MempoolError : Type 0 where
  paymaster_balance_too_low : ℕ → ℕ → MempoolError
  other : MempoolError

-- What the tracker uses of the cache: `peek`, an update through the reference that `get` returns,
-- `insert`, which may evict once the cache is full, and `iter`.
pub record LruMap (Map : Type 0) : Type 0 where
  pub new : ℕ → Map
  pub peek : ℕ → Map → Option PaymasterBalance
  pub update : ℕ → (PaymasterBalance → PaymasterBalance) → Map → Map
  pub insert : ℕ → PaymasterBalance → Map → Map
  pub clear : Map → Map
  pub iter : Map → List (ℕ × PaymasterBalance)
  pub has_room : Map → Bool
  pub peek-new : (c k : ℕ) → peek k (new c) ≡ none
  pub peek-clear : (k : ℕ) (m : Map) → peek k (clear m) ≡ none
  pub peek-update :
      (k j : ℕ) (f : PaymasterBalance → PaymasterBalance) (m : Map)
      → peek j (update k f m)
        ≡ (if nat_beq k j then elim (peek j m) [ none ↦ none | some b ↦ some (f b) ] else peek j m)
  pub has_room-update :
      (k : ℕ) (f : PaymasterBalance → PaymasterBalance) (m : Map)
      → has_room (update k f m) ≡ has_room m
  pub peek-insert :
      (k j : ℕ) (b : PaymasterBalance) (m : Map)
      → has_room m ≡ true
      → peek j (insert k b m) ≡ (if nat_beq k j then some b else peek j m)

pub record PaymasterTracker (Map : Type 0) : Type 0 where
  pub user_op_fees : HashMap UserOperationId UserOpFees
  pub paymaster_balances : Map
  pub tracker_enabled : Bool

-- What the tracker reads of a user operation.
pub record Op : Type 0 where
  pub id : UserOperationId
  pub paymaster : Option ℕ
  pub max_gas_cost : ℕ

pub record MinedOp : Type 0 where
  pub hash : ℕ
  pub entry_point : ℕ
  pub id : UserOperationId
  pub paymaster : Option ℕ
  pub actual_gas_cost : ℕ

module _ {Map : Type 0} (lru : LruMap Map) where
  unfoldable pub new : Bool → ℕ → PaymasterTracker Map
  new enabled cache_size = record {
    user_op_fees = [];
    paymaster_balances = lru.new cache_size;
    tracker_enabled = enabled;
  }

  unfoldable pub paymaster_exists : PaymasterTracker Map → ℕ → Bool
  paymaster_exists s paymaster = is_some (lru.peek paymaster s.paymaster_balances)

  unfoldable pub set_tracking : PaymasterTracker Map → Bool → PaymasterTracker Map
  set_tracking s enabled = record s { tracker_enabled = enabled }

  unfoldable pub check_operation_cost :
      PaymasterTracker Map → Op → PaymasterMetadata → Result MempoolError (Unit {0})
  check_operation_cost s op metadata = elim (get op.id s.user_op_fees) [
    | some prev ↦
        let reset_balance = saturating_add u256_mod metadata.pending_balance prev.max_op_cost in
        if ltb reset_balance op.max_gas_cost && s.tracker_enabled
        then err (paymaster_balance_too_low op.max_gas_cost reset_balance)
        else ok tt
    | none ↦
        if ltb metadata.pending_balance op.max_gas_cost && s.tracker_enabled
        then err (paymaster_balance_too_low op.max_gas_cost metadata.pending_balance)
        else ok tt
  ]

  unfoldable pub clear : PaymasterTracker Map → PaymasterTracker Map
  clear s = record s { user_op_fees = []; paymaster_balances = lru.clear s.paymaster_balances }

  -- The loop of `set_confimed_balances`; an index past `balances` panics (`none`).
  unfoldable pub set_confimed_balances : Map → List ℕ → List ℕ → Option Map
  set_confimed_balances m [] balances = some m
  set_confimed_balances m (a ∷ as') [] =
      let rest = set_confimed_balances m as' [] in if is_some (lru.peek a m) then none else rest
  set_confimed_balances m (a ∷ as') (b ∷ bs) =
      set_confimed_balances (lru.update a (λ pb. record pb { confirmed = b }) m) as' bs

  unfoldable pub update_paymaster_balance_from_mined_op :
      PaymasterTracker Map → MinedOp → PaymasterTracker Map
  update_paymaster_balance_from_mined_op s mined = elim (get mined.id s.user_op_fees) [
    | none ↦ s
    | some fee ↦ record s {
      user_op_fees = remove mined.id s.user_op_fees;
      paymaster_balances =
          lru.update fee.paymaster
            (λ pb. record {
              confirmed = pb.confirmed - mined.actual_gas_cost;
              pending = pb.pending - fee.max_op_cost;
            })
            s.paymaster_balances;
    }
  ]

  unfoldable pub remove_operation : PaymasterTracker Map → UserOperationId → PaymasterTracker Map
  remove_operation s id = elim (get id s.user_op_fees) [
    | none ↦ s
    | some fee ↦ record s {
      user_op_fees = remove id s.user_op_fees;
      paymaster_balances =
          lru.update fee.paymaster (λ pb. record pb { pending = pb.pending - fee.max_op_cost })
            s.paymaster_balances;
    }
  ]

  unfoldable pub paymaster_addresses : PaymasterTracker Map → List ℕ
  paymaster_addresses s = map (λ e. e.0) (lru.iter s.paymaster_balances)

  abbrev metadata_of : ℕ → PaymasterBalance → PaymasterMetadata
  metadata_of address b = record {
    address = address;
    confirmed_balance = b.confirmed;
    pending_balance = pending_balance b;
  }

  unfoldable pub paymaster_metadata : PaymasterTracker Map → ℕ → Option PaymasterMetadata
  paymaster_metadata s paymaster = elim (lru.peek paymaster s.paymaster_balances) [
    | none ↦ none
    | some b ↦ some (metadata_of paymaster b)
  ]

  unfoldable pub dump_paymaster_metadata : PaymasterTracker Map → List PaymasterMetadata
  dump_paymaster_metadata s = map (λ e. metadata_of e.0 e.1) (lru.iter s.paymaster_balances)

  unfoldable pub unmine_actual_cost : PaymasterTracker Map → ℕ → ℕ → PaymasterTracker Map
  unmine_actual_cost s paymaster actual_cost = record s {
    paymaster_balances =
        lru.update paymaster
          (λ pb. record pb { confirmed = saturating_add u256_mod pb.confirmed actual_cost })
          s.paymaster_balances;
  }

  unfoldable pub add_new_paymaster : Map → ℕ → ℕ → ℕ → Map
  add_new_paymaster m address confirmed_balance initial_pending_balance =
      lru.insert address
        (record { pending = initial_pending_balance; confirmed = confirmed_balance }) m

  unfoldable pub decrement_previous_paymaster_balance : Map → ℕ → ℕ → Map
  decrement_previous_paymaster_balance m paymaster previous_max_op_cost =
      lru.update paymaster (λ pb. record pb { pending = pb.pending - previous_max_op_cost }) m

  -- The balances after a replacement of `prev`.
  unfoldable pub replaced_balances : Map → UserOpFees → PaymasterMetadata → ℕ → Map
  replaced_balances m prev metadata max_op_cost =
      let changed = not (nat_beq prev.paymaster metadata.address) in
      if is_some (lru.peek metadata.address m)
      then if changed
        then decrement_previous_paymaster_balance
            (lru.update metadata.address
              (λ pb. record pb { pending = saturating_add u256_mod pb.pending max_op_cost }) m)
            prev.paymaster prev.max_op_cost
        else lru.update metadata.address
            (λ pb. record pb {
              pending = saturating_add u256_mod (pb.pending - prev.max_op_cost) max_op_cost;
            })
            m
      else add_new_paymaster
          (if changed
            then decrement_previous_paymaster_balance m prev.paymaster prev.max_op_cost
            else m)
          metadata.address metadata.confirmed_balance max_op_cost

  unfoldable pub replace_existing_user_op :
      PaymasterTracker Map
      → UserOperationId
      → PaymasterMetadata
      → ℕ
      → PaymasterTracker Map × Result MempoolError (Unit {0})
  replace_existing_user_op s id metadata max_op_cost = elim (get id s.user_op_fees) [
    | none ↦ (s, err other)
    | some prev ↦ (
      record s {
        user_op_fees =
            insert id (record { paymaster = metadata.address; max_op_cost = max_op_cost })
              s.user_op_fees;
        paymaster_balances = replaced_balances s.paymaster_balances prev metadata max_op_cost;
      },
      ok tt,
    )
  ]

  unfoldable pub add_new_user_op :
      PaymasterTracker Map → UserOperationId → PaymasterMetadata → ℕ → PaymasterTracker Map
  add_new_user_op s id metadata max_op_cost = record s {
    user_op_fees =
        insert id (record { paymaster = metadata.address; max_op_cost = max_op_cost })
          s.user_op_fees;
    paymaster_balances =
        if is_some (lru.peek metadata.address s.paymaster_balances)
        then lru.update metadata.address
            (λ pb. record pb { pending = saturating_add u256_mod pb.pending max_op_cost })
            s.paymaster_balances
        else add_new_paymaster s.paymaster_balances metadata.address metadata.confirmed_balance
            max_op_cost;
  }

  unfoldable pub is_user_op_replacement : PaymasterTracker Map → UserOperationId → Bool
  is_user_op_replacement s id = is_some (get id s.user_op_fees)

  unfoldable pub add_or_update_balance :
      PaymasterTracker Map
      → Op
      → PaymasterMetadata
      → PaymasterTracker Map × Result MempoolError (Unit {0})
  add_or_update_balance s po metadata =
      if ltb metadata.pending_balance po.max_gas_cost && s.tracker_enabled
      then (s, err (paymaster_balance_too_low po.max_gas_cost metadata.pending_balance))
      else if is_user_op_replacement s po.id
      then replace_existing_user_op s po.id metadata po.max_gas_cost
      else (add_new_user_op s po.id metadata po.max_gas_cost, ok tt)
