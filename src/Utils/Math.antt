-- ===== src/Utils/Math.antt =====
-- crates/utils/src/math.rs at `u128`, the type that the fees have, with a `u32` percentage. The release
-- build wraps on overflow.
pub mod Examples
use native.Mathlib.Nat.{mod-eq_of_lt}
use rundler.Common.{ℕ, ◌+◌, ◌*◌, ◌/◌, ◌<◌, ◌≤◌, ◌≡◌, ◌↔◌, refl, u32, u128, u32_mod, u128_mod, arith}

unfoldable pub increase_by_percent : ℕ → ℕ → ℕ
increase_by_percent n percent = u128 (n * u32 (100 + percent)) / 100

unfoldable pub increase_by_percent_ceil : ℕ → ℕ → ℕ
increase_by_percent_ceil n percent = u128 (u128 (n * u32 (100 + percent)) + 99) / 100

unfoldable pub percent : ℕ → ℕ → ℕ
percent n pct = u128 (n * pct) / 100

unfoldable pub percent_ceil : ℕ → ℕ → ℕ
percent_ceil n pct = u128 (u128 (n * pct) + 99) / 100

-- No word overflows on the way.
abbrev pub Fits : ℕ → ℕ → Type 0
Fits n pct = (100 + pct < u32_mod) × (n * (100 + pct) + 99 < u128_mod)

below : (n pct : ℕ) → Fits n pct → n * (100 + pct) < u128_mod
below n pct f = omega (arith, f.1)

times_grow : (n pct : ℕ) → n * 100 ≤ n * (100 + pct)
times_grow n pct = grind arith

product_mono : (a b k : ℕ) → a ≤ b → a * k ≤ b * k
product_mono a b k h = grind arith

increase_by_percent_ceil_exact :
    (n pct : ℕ) → Fits n pct → increase_by_percent_ceil n pct ≡ (n * (100 + pct) + 99) / 100
unfolding increase_by_percent_ceil
increase_by_percent_ceil_exact n pct f =
    rw (mod-eq_of_lt f.0) (rw (mod-eq_of_lt (below n pct f)) (rw (mod-eq_of_lt f.1)))

increase_by_percent_exact :
    (n pct : ℕ) → Fits n pct → increase_by_percent n pct ≡ n * (100 + pct) / 100
unfolding increase_by_percent
increase_by_percent_exact n pct f = rw (mod-eq_of_lt f.0) (rw (mod-eq_of_lt (below n pct f)))

-- Where the arithmetic of the increase does not overflow, the increase rounded up is at most a number
-- exactly if the exact increase is, and so it is the least number that is at least the exact increase.
pub increase_by_percent_ceil_least :
    (n pct m : ℕ) → Fits n pct → (increase_by_percent_ceil n pct ≤ m) ↔ (n * (100 + pct) ≤ m * 100)
increase_by_percent_ceil_least n pct m f = (
  λ h. omega (arith, increase_by_percent_ceil_exact n pct f),
  λ h. omega (arith, increase_by_percent_ceil_exact n pct f),
)

-- Where the arithmetic of the increase does not overflow, the increase rounded down is at least a number
-- exactly if the exact increase is, and so it is the greatest number that is at most the exact increase.
pub increase_by_percent_greatest :
    (n pct m : ℕ) → Fits n pct → (m ≤ increase_by_percent n pct) ↔ (m * 100 ≤ n * (100 + pct))
increase_by_percent_greatest n pct m f = (
  λ h. omega (arith, increase_by_percent_exact n pct f),
  λ h. omega (arith, increase_by_percent_exact n pct f),
)

Fits-mono : (a b pct : ℕ) → Fits b pct → a ≤ b → Fits a pct
Fits-mono a b pct f h = (f.0, omega (arith, product_mono a b (100 + pct) h, f.1))

pub increase_by_percent_ceil_mono :
    (a b pct : ℕ)
    → Fits b pct
    → a ≤ b
    → increase_by_percent_ceil a pct ≤ increase_by_percent_ceil b pct
increase_by_percent_ceil_mono a b pct f h = omega (
  arith,
  increase_by_percent_ceil_exact a pct (Fits-mono a b pct f h),
  increase_by_percent_ceil_exact b pct f,
  product_mono a b (100 + pct) h,
)

pub le-increase_by_percent_ceil : (n pct : ℕ) → Fits n pct → n ≤ increase_by_percent_ceil n pct
le-increase_by_percent_ceil n pct f =
    omega (arith, increase_by_percent_ceil_exact n pct f, times_grow n pct)
