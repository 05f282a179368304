-- ===== src/Types/Time/Examples.antt =====
-- Tests of crates/types/src/timestamp.rs, and its theorem at a concrete input.
use rundler.Common.{◌≡◌, refl, true, false, ◌&&◌}
use rundler.Types.Time.{ValidTimeRange, add_secs, sub_secs, contains, is_valid_now, intersect}
use rundler.Types.Time.Ranges.{intersect-contains}

abbrev r : ValidTimeRange
r = record { valid_after = 10; valid_until = 20 }

abbrev s : ValidTimeRange
s = record { valid_after = 5; valid_until = 17 }

contains_test : (contains s 15 2 ≡ true) × (contains s 15 3 ≡ false)
unfolding contains
contains_test = (refl, refl)

now_test : is_valid_now 15 s 2 ≡ false
unfolding is_valid_now
now_test = refl

secs_test : sub_secs (add_secs 18446744073709551615 3) 3 ≡ 18446744073709551615
unfolding add_secs sub_secs
secs_test = refl

intersect-contains_example :
    (contains (intersect r s) 15 2 ≡ (contains r 15 2 && contains s 15 2))
    × (is_valid_now 15 (intersect r s) 2 ≡ (is_valid_now 15 r 2 && is_valid_now 15 s 2))
    × (intersect r s ≡ intersect s r)
intersect-contains_example = intersect-contains r s 15 2
