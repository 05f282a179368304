-- ===== src/Mempool/EntityTracker.antt =====
-- crates/pool/src/mempool/entity_tracker.rs and size.rs: how often an address stands in the pool in each
-- role, and sizes in bytes. A usize has 64 bits. The memory's sizes fit an isize, so a size is an integer.
use rundler.Common.{
  ℕ, ◌+◌, ◌-◌, suc, Bool, true, false, if◌then◌else◌, ltb, saturating_add, u64, u64_mod,
}
use rundler.Common.Int.{ℤ, pos, negsuc, sub_ℕ}
use rundler.Types.Entity.{EntityType}

pub record EntityCounter : Type 0 where
  pub sender : ℕ
  pub paymaster : ℕ
  pub aggregator : ℕ
  pub factory : ℕ

abbrev pub no_entities : EntityCounter
no_entities = record { sender = 0; paymaster = 0; aggregator = 0; factory = 0 }

unfoldable pub total : EntityCounter → ℕ
total c = u64 (c.sender + c.paymaster + c.aggregator + c.factory)

unfoldable pub increment_entity_count : EntityCounter → EntityType → EntityCounter
unfolding saturating_add
increment_entity_count c EntityType.account = record c {
  sender = saturating_add u64_mod c.sender 1;
}
increment_entity_count c EntityType.paymaster = record c {
  paymaster = saturating_add u64_mod c.paymaster 1;
}
increment_entity_count c EntityType.aggregator = record c {
  aggregator = saturating_add u64_mod c.aggregator 1;
}
increment_entity_count c EntityType.factory = record c {
  factory = saturating_add u64_mod c.factory 1;
}

unfoldable pub decrement_entity_count : EntityCounter → EntityType → EntityCounter
decrement_entity_count c EntityType.account = record c { sender = c.sender - 1 }
decrement_entity_count c EntityType.paymaster = record c { paymaster = c.paymaster - 1 }
decrement_entity_count c EntityType.aggregator = record c { aggregator = c.aggregator - 1 }
decrement_entity_count c EntityType.factory = record c { factory = c.factory - 1 }

unfoldable pub includes_non_sender : EntityCounter → Bool
includes_non_sender c = ltb 0 (u64 (c.paymaster + c.aggregator + c.factory))

-- One above the largest isize.
abbrev pub isize_bound : ℕ
isize_bound = 9223372036854775808

-- `SizeTracker += usize`, `SizeTracker -= usize` and `SizeTracker > usize`.
abbrev pub add_size : ℤ → ℕ → ℤ
add_size (pos a) n = pos (a + n)
add_size (negsuc a) n = sub_ℕ n (suc a)

abbrev pub sub_size : ℤ → ℕ → ℤ
sub_size (pos a) n = sub_ℕ a n
sub_size (negsuc a) n = negsuc (a + n)

-- `as isize`.
abbrev pub as_isize : ℕ → ℤ
as_isize n = if ltb n isize_bound then pos n else negsuc (u64_mod - n - 1)

abbrev pub above : ℤ → ℤ → Bool
above (pos a) (pos b) = ltb b a
above (pos a) (negsuc b) = true
above (negsuc a) (pos b) = false
above (negsuc a) (negsuc b) = ltb a b

abbrev pub exceeds : ℤ → ℕ → Bool
exceeds size n = above size (as_isize n)
