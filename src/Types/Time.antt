-- ===== src/Types/Time.antt =====
-- crates/types/src/timestamp.rs: times in whole seconds, as 64-bit words, and the range in which an
-- operation is valid. A Duration is its number of seconds; the current time is an argument.
pub mod Ranges
pub mod Examples
use rundler.Common.{ℕ, ◌+◌, ◌-◌, max, min, Bool, ◌&&◌, ltb, leb, u64, u64_mod}

-- `Timestamp + Duration` and `Timestamp - Duration`.
unfoldable pub add_secs : ℕ → ℕ → ℕ
add_secs t secs = u64 (t + secs)

unfoldable pub sub_secs : ℕ → ℕ → ℕ
sub_secs t secs = u64 (t + u64_mod - secs)

pub record ValidTimeRange : Type 0 where
  pub valid_after : ℕ
  pub valid_until : ℕ

abbrev pub all_time : ValidTimeRange
all_time = record { valid_after = 0; valid_until = u64_mod - 1 }

abbrev pub from_genesis : ℕ → ValidTimeRange
from_genesis valid_until = record { valid_after = 0; valid_until = valid_until }

unfoldable pub is_valid_now : ℕ → ValidTimeRange → ℕ → Bool
unfolding add_secs
is_valid_now now r until_buffer =
    leb r.valid_after now && ltb (add_secs now until_buffer) r.valid_until

unfoldable pub contains : ValidTimeRange → ℕ → ℕ → Bool
unfolding add_secs
contains r timestamp buffer =
    leb r.valid_after timestamp && leb (add_secs timestamp buffer) r.valid_until

unfoldable pub intersect : ValidTimeRange → ValidTimeRange → ValidTimeRange
intersect r s = record {
  valid_after = max r.valid_after s.valid_after;
  valid_until = min r.valid_until s.valid_until;
}
