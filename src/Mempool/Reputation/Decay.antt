-- ===== src/Mempool/Reputation/Decay.antt =====
-- The hourly decay of the counters (crates/pool/src/mempool/reputation.rs, `update`).
use rundler.Common.{
  ℕ, zero, suc, ◌-◌, ◌/◌, ◌<◌, ◌≤◌, ◌≡◌, refl, ◌⊎◌, inl, inr, ◌↔◌, true, false, some, none, arith,
  nat_eq, Option-cases, if◌then◌else◌, replicate, some_inj, subst, sym, ◌∙◌,
}
use native.Mathlib.Nat.{div-lt_self}
use rundler.Common.HashMap.{get, map_values, get-map_values, get-retain, map_values-IsMap}
use rundler.Mempool.Reputation.{
  AddressCount, AddressReputation, decay, is_live, update, count_of, ticks, step, run,
}
use rundler.Mempool.Reputation.Invariant.{IsValid, decayed, update-decayed, decayed-IsValid}

-- An entry whose counters are both zero.
abbrev pub IsZero : AddressCount → Type 0
IsZero c = (c.ops_seen ≡ 0) × (c.ops_included ≡ 0)

decay_half : (n f : ℕ) → 2 ≤ f → 0 < n → 0 < n - n / f
decay_half n f h p = omega (arith, div-lt_self p h)

is_live-decay_cases :
    (f a : ℕ) (c : AddressCount)
    → 2 ≤ f
    → (IsZero c × (is_live a (decay f c) ≡ false))
      ⊎ ((¬ IsZero c) × (¬ IsZero (decay f c)) × (is_live a (decay f c) ≡ true))
unfolding is_live decay
is_live-decay_cases f a c h =
    ground (arith, decay_half c.ops_seen f h, decay_half c.ops_included f h)

-- What one tick leaves at each address.
get-decayed :
    (s : AddressReputation) (a : ℕ)
    → IsValid s
    → get a (decayed s).counts ≡ elim (get a s.counts) [
      | none ↦ none
      | some c ↦
          if is_live a (decay s.params.decay_factor c)
          then some (decay s.params.decay_factor c)
          else none
    ]
get-decayed s a v = ground (
  arith,
  get-map_values (decay s.params.decay_factor) a s.counts,
  get-retain is_live a (map_values (decay s.params.decay_factor) s.counts)
      (map_values-IsMap (decay s.params.decay_factor) s.counts v.distinct),
)

decayed-forgets_iff :
    (s : AddressReputation) (a : ℕ)
    → IsValid s
    → 2 ≤ s.params.decay_factor
    → ((get a (decayed s).counts ≡ none) ↔ IsZero (count_of s a))
      × (¬ IsZero (count_of s a) → ¬ IsZero (count_of (decayed s) a))
decayed-forgets_iff s a v h = elim (Option-cases (get a s.counts)) [
  | inl e ↦ ground (arith, get-decayed s a v)
  | inr (c, e) ↦ ground (arith, get-decayed s a v, is_live-decay_cases s.params.decay_factor a c h)
]

-- A tick drops exactly the entries whose counters were both zero before it, where the factor is at
-- least 2: a counter that is not zero never decays to zero.
pub update-forgets_iff :
    (s t : AddressReputation) (a : ℕ)
    → IsValid s
    → 2 ≤ s.params.decay_factor
    → update s ≡ some t
    → (get a t.counts ≡ none) ↔ IsZero (count_of s a)
update-forgets_iff s t a v h e =
    subst (λ u. (get a u.counts ≡ none) ↔ IsZero (count_of s a))
      (some_inj (sym (update-decayed s v) ∙ e)) (decayed-forgets_iff s a v h).0

-- So an address with operations still has them after any number of ticks, which never panic.
pub ticks_remember :
    (n : ℕ) (s : AddressReputation) (a : ℕ)
    → IsValid s
    → 2 ≤ s.params.decay_factor
    → ¬ IsZero (count_of s a)
    → (t : AddressReputation) × (run s (replicate n ticks) ≡ some t) × (¬ IsZero (count_of t a))
unfolding run step
ticks_remember zero s a v h z = (s, refl, z)
ticks_remember (suc n) s a v h z =
    let (t, ran, kept) =
      ticks_remember n (decayed s) a (decayed-IsValid s v) h ((decayed-forgets_iff s a v h).1 z) in
    (t, rw (update-decayed s v) ran, kept)
