-- ===== src/Types/Time/Ranges.antt =====
-- Intersection of the time ranges of crates/types/src/timestamp.rs.
use rundler.Common.{ℕ, ◌≡◌, ◌&&◌, arith}
use rundler.Types.Time.{ValidTimeRange, contains, is_valid_now, intersect}

-- The intersection contains a time exactly if both ranges do, with the same buffer, and is valid now
-- exactly if both are; the order of the two does not matter.
pub intersect-contains :
    (r s : ValidTimeRange) (t buffer : ℕ)
    → (contains (intersect r s) t buffer ≡ (contains r t buffer && contains s t buffer))
      × (is_valid_now t (intersect r s) buffer
          ≡ (is_valid_now t r buffer && is_valid_now t s buffer))
      × (intersect r s ≡ intersect s r)
unfolding contains is_valid_now intersect
intersect-contains r s t buffer = (ground arith, ground arith, ground arith)
