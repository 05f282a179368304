-- ===== src/Mempool/Reputation.antt =====
-- crates/pool/src/mempool/reputation.rs: the reputation of senders, paymasters and factories.
-- `AddressReputation` only takes the lock around `AddressReputationInner`, so its calls are the
-- sequential operations below. Counters are `u64`: `+` and `*` wrap, a division by zero panics (`none`).
pub mod Invariant
pub mod Status
pub mod Decay
pub mod Limits
pub mod Examples
use rundler.Common.{
  ℕ, ◌+◌, ◌-◌, ◌*◌, ◌/◌, min, Bool, true, false, not, ◌||◌, Option, none, some, List, [], ◌∷◌, ltb,
  leb, nat_beq, nat_eq, if◌then◌else◌, get_or, ◌>>=◌, u64, div?, map,
}
use rundler.Common.HashMap.{HashMap, get, insert, map_values, retain}
use rundler.Common.HashSet.{HashSet, contains}

pub data ReputationStatus : Type 0 where
  ok throttled banned : ReputationStatus

pub record ReputationParams : Type 0 where
  pub bundle_invalidation_ops_seen_staked_penalty : ℕ
  pub bundle_invalidation_ops_seen_unstaked_penalty : ℕ
  pub same_unstaked_entity_mempool_count : ℕ
  pub min_inclusion_rate_denominator : ℕ
  pub inclusion_rate_factor : ℕ
  pub throttling_slack : ℕ
  pub ban_slack : ℕ
  pub tracking_enabled : Bool
  pub decay_interval_secs : ℕ
  pub decay_factor : ℕ

abbrev pub default_params : ReputationParams
default_params = record {
  bundle_invalidation_ops_seen_staked_penalty = 10000;
  bundle_invalidation_ops_seen_unstaked_penalty = 1000;
  same_unstaked_entity_mempool_count = 10;
  min_inclusion_rate_denominator = 10;
  inclusion_rate_factor = 10;
  throttling_slack = 10;
  ban_slack = 50;
  tracking_enabled = true;
  decay_interval_secs = 3600;
  decay_factor = 24;
}

abbrev pub new_params : Bool → ReputationParams
new_params tracking = record default_params { tracking_enabled = tracking }

abbrev pub client_default : ReputationParams
client_default = record default_params { min_inclusion_rate_denominator = 100 }

pub record AddressCount : Type 0 where
  pub ops_seen : ℕ
  pub ops_included : ℕ

abbrev pub default_count : AddressCount
default_count = record { ops_seen = 0; ops_included = 0 }

pub record AddressReputation : Type 0 where
  pub blocklist : HashSet ℕ
  pub allowlist : HashSet ℕ
  pub counts : HashMap ℕ AddressCount
  pub params : ReputationParams

unfoldable pub new : ReputationParams → HashSet ℕ → HashSet ℕ → AddressReputation
new params blocklist allowlist = record {
  blocklist = blocklist;
  allowlist = allowlist;
  counts = [];
  params = params;
}

-- The tests of `status` on an address that is tracked.
unfoldable pub count_status : ReputationParams → AddressCount → Option ReputationStatus
count_status p c = do
  min_expected_included ← div? c.ops_seen p.min_inclusion_rate_denominator
  some (
      if leb min_expected_included (u64 (c.ops_included + p.throttling_slack))
      then ok
      else if leb min_expected_included (u64 (c.ops_included + p.ban_slack))
      then throttled
      else banned)

unfoldable pub status : AddressReputation → ℕ → Option ReputationStatus
status s address =
    if contains address s.blocklist
    then some banned
    else if contains address s.allowlist
    then some ok
    else if not s.params.tracking_enabled
    then some ok
    else elim (get address s.counts) [ none ↦ some ok | some c ↦ count_status s.params c ]

-- `counts.entry(address).or_default()`.
abbrev pub count_of : AddressReputation → ℕ → AddressCount
count_of s address = get_or (get address s.counts) default_count

abbrev set_count : AddressReputation → ℕ → AddressCount → AddressReputation
set_count s address c = record s { counts = insert address c s.counts }

unfoldable pub add_seen : AddressReputation → ℕ → AddressReputation
add_seen s address =
    let c = count_of s address in set_count s address (record c { ops_seen = u64 (c.ops_seen + 1) })

unfoldable pub dec_seen : AddressReputation → ℕ → AddressReputation
dec_seen s address =
    let c = count_of s address in set_count s address (record c { ops_seen = c.ops_seen - 1 })

unfoldable pub handle_urep_030_penalty : AddressReputation → ℕ → AddressReputation
handle_urep_030_penalty s address =
    let c = count_of s address in
    set_count s address (record c {
      ops_seen = u64 (c.ops_seen + s.params.bundle_invalidation_ops_seen_unstaked_penalty);
    })

unfoldable pub handle_srep_050_penalty : AddressReputation → ℕ → AddressReputation
handle_srep_050_penalty s address =
    let c = count_of s address in
    set_count s address
      (record c { ops_seen = s.params.bundle_invalidation_ops_seen_staked_penalty })

unfoldable pub handle_erep_015_amendment : AddressReputation → ℕ → ℕ → AddressReputation
handle_erep_015_amendment s address value =
    let c = count_of s address in set_count s address (record c { ops_seen = c.ops_seen - value })

pub record Reputation : Type 0 where
  pub address : ℕ
  pub ops_seen : ℕ
  pub ops_included : ℕ

unfoldable pub dump_reputation : AddressReputation → List Reputation
dump_reputation s =
    map (λ e. record { address = e.0; ops_seen = e.1.ops_seen; ops_included = e.1.ops_included })
      s.counts

unfoldable pub add_included : AddressReputation → ℕ → AddressReputation
add_included s address =
    let c = count_of s address in
    set_count s address (record c { ops_included = u64 (c.ops_included + 1) })

unfoldable pub dec_included : AddressReputation → ℕ → AddressReputation
dec_included s address =
    let c = count_of s address in
    set_count s address (record c { ops_included = c.ops_included - 1 })

unfoldable pub set_reputation : AddressReputation → ℕ → ℕ → ℕ → AddressReputation
set_reputation s address seen included =
    set_count s address (record { ops_seen = seen; ops_included = included })

unfoldable pub get_ops_allowed : AddressReputation → ℕ → ℕ
get_ops_allowed s address =
    let c = count_of s address in
    let inclusion_based_count =
      if nat_beq c.ops_seen 0
      then 0
      else u64 (
          u64 (s.params.inclusion_rate_factor * c.ops_included) / c.ops_seen
          + min c.ops_included 10000) in
    u64 (s.params.same_unstaked_entity_mempool_count + inclusion_based_count)

-- One decay of a count. The quotient is at most the count, so `-=` cannot wrap.
unfoldable pub decay : ℕ → AddressCount → AddressCount
decay factor c = record {
  ops_seen = c.ops_seen - c.ops_seen / factor;
  ops_included = c.ops_included - c.ops_included / factor;
}

unfoldable pub is_live : ℕ → AddressCount → Bool
is_live address c = ltb 0 c.ops_seen || ltb 0 c.ops_included

-- The tick of `run`. The loop divides once it has an entry to visit.
unfoldable pub update : AddressReputation → Option AddressReputation
update s = elim s.counts [
  | [] ↦ some s
  | e ∷ rest ↦
      if nat_beq s.params.decay_factor 0
      then none
      else some
          (record s { counts = retain is_live (map_values (decay s.params.decay_factor) s.counts) })
]

unfoldable pub clear : AddressReputation → AddressReputation
clear s = record s { counts = [] }

unfoldable pub set_tracking : AddressReputation → Bool → AddressReputation
set_tracking s tracking = record s { params = record (s.params) { tracking_enabled = tracking } }

-- The calls that change the state.
pub data Call : Type 0 where
  adds_seen decs_seen adds_included decs_included : ℕ → Call
  penalises_urep_030 penalises_srep_050 : ℕ → Call
  amends_erep_015 : ℕ → ℕ → Call
  sets_reputation : ℕ → ℕ → ℕ → Call
  clears ticks : Call
  sets_tracking : Bool → Call

unfoldable pub step : AddressReputation → Call → Option AddressReputation
step s (adds_seen a) = some (add_seen s a)
step s (decs_seen a) = some (dec_seen s a)
step s (adds_included a) = some (add_included s a)
step s (decs_included a) = some (dec_included s a)
step s (penalises_urep_030 a) = some (handle_urep_030_penalty s a)
step s (penalises_srep_050 a) = some (handle_srep_050_penalty s a)
step s (amends_erep_015 a v) = some (handle_erep_015_amendment s a v)
step s (sets_reputation a seen included) = some (set_reputation s a seen included)
step s clears = some (clear s)
step s ticks = update s
step s (sets_tracking b) = some (set_tracking s b)

unfoldable pub run : AddressReputation → List Call → Option AddressReputation
run s [] = some s
run s (c ∷ cs) = do t ← step s c; run t cs
