-- ===== src/Mempool/Reputation/Invariant.antt =====
-- What holds of the reputation state between two calls (crates/pool/src/mempool/reputation.rs).
use rundler.Common.{ℕ, ◌<◌, ◌≡◌, refl, some, [], ◌∷◌, arith, nat_eq, u64_mod}
use rundler.Common.HashMap.{HashMap, IsMap, map_values-IsMap, retain-IsMap, map_values, retain}
use rundler.Common.HashMap.Values.{AllValues, AllValues-map_values, AllValues-retain}
use rundler.Mempool.Reputation.{
  ReputationParams, AddressCount, AddressReputation, decay, is_live, update,
}

-- The divisors are not zero and the staked penalty is a `u64`.
pub record IsValidParams (p : ReputationParams) : Type 0 where
  pub denominator_pos : 0 < p.min_inclusion_rate_denominator
  pub decay_pos : 0 < p.decay_factor
  pub penalty_fits : p.bundle_invalidation_ops_seen_staked_penalty < u64_mod

abbrev pub InRange : AddressCount → Type 0
InRange c = (c.ops_seen < u64_mod) × (c.ops_included < u64_mod)

pub record IsValid (s : AddressReputation) : Type 0 where
  pub params_valid : IsValidParams s.params
  pub distinct : IsMap s.counts
  pub ranged : AllValues InRange s.counts

decay-InRange : (f : ℕ) (c : AddressCount) → InRange c → InRange (decay f c)
unfolding decay
decay-InRange f c r = omega arith

abbrev pub decayed : AddressReputation → AddressReputation
decayed s = record s { counts = retain is_live (map_values (decay s.params.decay_factor) s.counts) }

pub decayed-IsValid : (s : AddressReputation) → IsValid s → IsValid (decayed s)
decayed-IsValid s v = record {
  params_valid = v.params_valid;
  distinct =
      retain-IsMap is_live _ (map_values-IsMap (decay s.params.decay_factor) s.counts v.distinct);
  ranged = AllValues-retain InRange is_live _ (
      AllValues-map_values InRange (decay s.params.decay_factor)
        (λ c r. decay-InRange s.params.decay_factor c r) s.counts v.ranged);
}

update_cases :
    (s : AddressReputation) (m : HashMap ℕ AddressCount)
    → s.counts ≡ m
    → IsValid s
    → update s ≡ some (decayed s)
unfolding update map_values retain
update_cases s [] e v = ground arith
update_cases s (x ∷ m) e v = ground (arith, v.params_valid.decay_pos)

-- The empty map is no special case.
pub update-decayed : (s : AddressReputation) → IsValid s → update s ≡ some (decayed s)
update-decayed s v = update_cases s s.counts refl v
