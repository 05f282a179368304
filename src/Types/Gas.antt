-- ===== src/Types/Gas.antt =====
-- crates/types/src/gas.rs: the fees of a transaction, as 128-bit words.
use rundler.Common.{ℕ, ◌≤◌, min, saturating_add, u128_mod}
use rundler.Utils.Math.{increase_by_percent_ceil}

pub record GasFees : Type 0 where
  pub max_fee_per_gas : ℕ
  pub max_priority_fee_per_gas : ℕ

unfoldable pub increase_by_percent : GasFees → ℕ → GasFees
increase_by_percent f percent = record {
  max_fee_per_gas = increase_by_percent_ceil f.max_fee_per_gas percent;
  max_priority_fee_per_gas = increase_by_percent_ceil f.max_priority_fee_per_gas percent;
}

unfoldable pub gas_price : GasFees → ℕ → ℕ
gas_price f base_fee =
    min f.max_fee_per_gas (saturating_add u128_mod base_fee f.max_priority_fee_per_gas)

-- Both fees of the one are at most those of the other.
pub record ◌≤f◌ (a b : GasFees) : Type 0 where
  pub fee : a.max_fee_per_gas ≤ b.max_fee_per_gas
  pub priority : a.max_priority_fee_per_gas ≤ b.max_priority_fee_per_gas
