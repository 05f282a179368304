-- ===== src/Mempool/Reputation/Limits.antt =====
-- How many operations an unstaked entity may have in the mempool
-- (crates/pool/src/mempool/reputation.rs, `get_ops_allowed`).
use native.Mathlib.Nat.{le-div_iff_mul-le, le_trans, div-mul-le_self, div-le_self}
use rundler.Common.{
  ℕ, ◌+◌, ◌*◌, ◌/◌, ◌<◌, ◌≤◌, ◌≡◌, arith, nat_eq, u64_mod, min, nat_beq, if◌then◌else◌,
}
use rundler.Mempool.Reputation.{
  ReputationParams, AddressCount, AddressReputation, count_of, get_ops_allowed,
}

-- The sums and products for the count `c` fit in 64 bits.
abbrev pub Fits : ReputationParams → AddressCount → Type 0
Fits p c =
    p.inclusion_rate_factor * c.ops_included + 10000 + p.same_unstaked_entity_mempool_count
    < u64_mod

product_mono : (f a b : ℕ) → a ≤ b → f * a ≤ f * b
product_mono f a b h = grind arith

quotient_mono : (a b m n : ℕ) → 0 < n → a ≤ b → n ≤ m → a / m ≤ b / n
quotient_mono a b m n h le le' =
    (le-div_iff_mul-le h).1
      (le_trans (product_mono (a / m) n m le') (le_trans (div-mul-le_self a m) le))

-- The value with no word arithmetic.
abbrev pub allowed : ReputationParams → AddressCount → ℕ
allowed p c =
    p.same_unstaked_entity_mempool_count
    + (if nat_beq c.ops_seen 0
        then 0
        else p.inclusion_rate_factor * c.ops_included / c.ops_seen + min c.ops_included 10000)

get_ops_allowed_exact :
    (s : AddressReputation) (a : ℕ)
    → Fits s.params (count_of s a)
    → get_ops_allowed s a ≡ allowed s.params (count_of s a)
unfolding get_ops_allowed
get_ops_allowed_exact s a f =
    let c = count_of s a in
    ground (arith, div-le_self (s.params.inclusion_rate_factor * c.ops_included) c.ops_seen)

allowed_mono :
    (p : ReputationParams) (c d : AddressCount)
    → 0 < d.ops_seen
    → d.ops_seen ≤ c.ops_seen
    → c.ops_included ≤ d.ops_included
    → allowed p c ≤ allowed p d
allowed_mono p c d pos seen included = ground (
  arith,
  quotient_mono (p.inclusion_rate_factor * c.ops_included)
      (p.inclusion_rate_factor * d.ops_included) c.ops_seen d.ops_seen,
  product_mono p.inclusion_rate_factor c.ops_included d.ops_included,
)

-- Of two entities under the same parameters, one with at least as many inclusions and no more operations
-- seen, but at least one seen, may have at least as many operations in the mempool as the other; and the
-- other does not get less than the base count. The sums fit in 64 bits for both.
pub get_ops_allowed_mono :
    (s t : AddressReputation) (a b : ℕ)
    → s.params ≡ t.params
    → Fits s.params (count_of s a)
    → Fits t.params (count_of t b)
    → 0 < (count_of t b).ops_seen
    → (count_of t b).ops_seen ≤ (count_of s a).ops_seen
    → (count_of s a).ops_included ≤ (count_of t b).ops_included
    → (s.params.same_unstaked_entity_mempool_count ≤ get_ops_allowed s a)
      × (get_ops_allowed s a ≤ get_ops_allowed t b)
get_ops_allowed_mono s t a b p fs ft pos seen included =
    rw (get_ops_allowed_exact s a fs, get_ops_allowed_exact t b ft, ← p)
      (omega arith, allowed_mono s.params (count_of s a) (count_of t b) pos seen included)
