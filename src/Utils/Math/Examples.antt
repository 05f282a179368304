-- ===== src/Utils/Math/Examples.antt =====
-- Tests of crates/utils/src/math.rs, and its theorems at concrete inputs.
use rundler.Common.{◌+◌, ◌*◌, ◌≤◌, ◌≡◌, ◌↔◌, refl, arith}
use rundler.Utils.Math.{
  Fits, increase_by_percent, increase_by_percent_ceil, percent, percent_ceil,
  increase_by_percent_ceil_least, increase_by_percent_greatest,
}

round_up_test : increase_by_percent_ceil 11 10 ≡ 13
unfolding increase_by_percent_ceil
round_up_test = refl

round_down_test : increase_by_percent 11 10 ≡ 12
unfolding increase_by_percent
round_down_test = refl

percent_test : (percent 33 10 ≡ 3) × (percent_ceil 33 10 ≡ 4)
unfolding percent percent_ceil
percent_test = (refl, refl)

small : Fits 11 10
small = (omega arith, omega arith)

increase_by_percent_ceil_least_example :
    (increase_by_percent_ceil 11 10 ≤ 13) ↔ (11 * (100 + 10) ≤ 13 * 100)
increase_by_percent_ceil_least_example = increase_by_percent_ceil_least 11 10 13 small

increase_by_percent_greatest_example :
    (12 ≤ increase_by_percent 11 10) ↔ (12 * 100 ≤ 11 * (100 + 10))
increase_by_percent_greatest_example = increase_by_percent_greatest 11 10 12 small
