-- ===== src/Common/Words.antt =====
-- Unsigned machine words as natural numbers: the release build wraps on overflow, and the saturating
-- operations stop at the largest value. `-` on the native numbers is already `saturating_sub`.
use Prim.Native.Nat.{ℕ, ◌+◌, ◌-◌, ◌/◌, ◌%◌, ◌≤◌, ◌<◌}
use mathlib.Core.Path.{◌≡◌}
use mathlib.Core.Option.{Option, none, some}
use native.Mathlib.Omega.{arith}
use rundler.Common.Tests.{ltb, nat_beq, if◌then◌else◌}

abbrev pub u32_mod : ℕ
u32_mod = 4294967296

abbrev pub u64_mod : ℕ
u64_mod = 18446744073709551616

abbrev pub u128_mod : ℕ
u128_mod = 340282366920938463463374607431768211456

abbrev pub u256_mod : ℕ
u256_mod = 115792089237316195423570985008687907853269984665640564039457584007913129639936

-- Wrapping results.
abbrev pub u32 : ℕ → ℕ
u32 n = n % u32_mod

abbrev pub u64 : ℕ → ℕ
u64 n = n % u64_mod

abbrev pub u128 : ℕ → ℕ
u128 n = n % u128_mod

-- `saturating_add` in a word with `m` values.
unfoldable pub saturating_add : ℕ → ℕ → ℕ → ℕ
saturating_add m a b = if ltb (a + b) m then a + b else m - 1

pub saturating_add_exact : (m a b : ℕ) → a + b < m → saturating_add m a b ≡ a + b
unfolding saturating_add
saturating_add_exact m a b h = ground arith

pub saturating_add_bounds :
    (m a b : ℕ) → a < m → (a ≤ saturating_add m a b) × (saturating_add m a b < m)
unfolding saturating_add
saturating_add_bounds m a b h = ground arith

-- Integer division, which panics on a zero divisor.
abbrev pub div? : ℕ → ℕ → Option ℕ
div? a b = if nat_beq b 0 then none else some (a / b)
