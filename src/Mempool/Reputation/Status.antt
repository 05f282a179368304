-- ===== src/Mempool/Reputation/Status.antt =====
-- What `status` answers (crates/pool/src/mempool/reputation.rs), against the inclusion-rate rule without
-- divisions or machine words.
use native.Mathlib.Nat.{le-div_iff_mul-le, le_trans, div-mul-le_self}
use rundler.Common.{
  ℕ, ◌+◌, ◌*◌, ◌/◌, ◌<◌, ◌≤◌, ◌≡◌, ◌⊎◌, ◌↔◌, inl, inr, ◌≢◌, true, false, Option, some, none, arith,
  nat_eq, subst, sym, ◌∙◌, u64_mod, if◌then◌else◌, Option-cases, some_inj, suc,
}
use rundler.Common.HashMap.{get, insert, get-insert}
use rundler.Common.HashSet.{contains}
use rundler.Mempool.Reputation.{
  ReputationStatus, ok, throttled, banned, ReputationParams, AddressCount, AddressReputation,
  count_status, status, count_of, default_count, default_params, Call, adds_seen, decs_seen,
  adds_included, decs_included, penalises_urep_030, penalises_srep_050, amends_erep_015,
  sets_reputation, clears, ticks, sets_tracking, step, add_seen, dec_seen, add_included,
  dec_included, handle_urep_030_penalty, handle_srep_050_penalty, handle_erep_015_amendment,
  set_reputation,
}
use rundler.Mempool.Reputation.Invariant.{IsValidParams}

abbrev pub severity : ReputationStatus → ℕ
severity ok = 0
severity throttled = 1
severity banned = 2

-- The expected inclusions of `c` exceed its inclusions and `slack`.
abbrev pub Exceeds : ReputationParams → ℕ → AddressCount → Type 0
Exceeds p slack c = suc (c.ops_included + slack) * p.min_inclusion_rate_denominator ≤ c.ops_seen

-- The sums that `count_status` makes do not wrap.
abbrev pub NoWrap : ReputationParams → AddressCount → Type 0
NoWrap p c =
    (c.ops_included + p.throttling_slack < u64_mod) × (c.ops_included + p.ban_slack < u64_mod)

count_status_cases :
    (p : ReputationParams) (c : AddressCount)
    → 0 < p.min_inclusion_rate_denominator
    → NoWrap p c
    → ((count_status p c ≡ some ok)
        × (c.ops_seen / p.min_inclusion_rate_denominator ≤ c.ops_included + p.throttling_slack))
      ⊎ ((count_status p c ≡ some throttled)
          × (c.ops_included + p.throttling_slack < c.ops_seen / p.min_inclusion_rate_denominator)
          × (c.ops_seen / p.min_inclusion_rate_denominator ≤ c.ops_included + p.ban_slack))
      ⊎ ((count_status p c ≡ some banned)
          × (c.ops_included + p.throttling_slack < c.ops_seen / p.min_inclusion_rate_denominator)
          × (c.ops_included + p.ban_slack < c.ops_seen / p.min_inclusion_rate_denominator))
unfolding count_status
count_status_cases p c h w = ground arith

pub count_status-banned_iff :
    (p : ReputationParams) (c : AddressCount)
    → 0 < p.min_inclusion_rate_denominator
    → NoWrap p c
    → (count_status p c ≡ some banned) ↔ (Exceeds p p.throttling_slack c × Exceeds p p.ban_slack c)
count_status-banned_iff p c h w = elim (count_status_cases p c h w) [
  | inl (e, le) ↦
      (λ q. absurd (ground arith), λ x. absurd (omega (arith, (le-div_iff_mul-le h).1 x.0)))
  | inr (inl (e, lt, le)) ↦
      (λ q. absurd (ground arith), λ x. absurd (omega (arith, (le-div_iff_mul-le h).1 x.1)))
  | inr (inr (e, lt, lt')) ↦
      (λ q. ((le-div_iff_mul-le h).0 lt, (le-div_iff_mul-le h).0 lt'), λ x. e)
]

pub count_status-ok_iff :
    (p : ReputationParams) (c : AddressCount)
    → 0 < p.min_inclusion_rate_denominator
    → NoWrap p c
    → (count_status p c ≡ some ok) ↔ (¬ Exceeds p p.throttling_slack c)
count_status-ok_iff p c h w = elim (count_status_cases p c h w) [
  | inl (e, le) ↦ (λ q x. absurd (omega (arith, (le-div_iff_mul-le h).1 x)), λ x. e)
  | inr (inl (e, lt, le)) ↦
      (λ q. absurd (ground arith), λ n. absurd (n ((le-div_iff_mul-le h).0 lt)))
  | inr (inr (e, lt, lt')) ↦
      (λ q. absurd (ground arith), λ n. absurd (n ((le-div_iff_mul-le h).0 lt)))
]

div_mono : (a b k : ℕ) → 0 < k → a ≤ b → a / k ≤ b / k
div_mono a b k h le = (le-div_iff_mul-le h).1 (le_trans (div-mul-le_self a k) le)

-- More operations seen and fewer included never improve the status.
pub count_status_mono :
    (p : ReputationParams) (c d : AddressCount) (x y : ReputationStatus)
    → 0 < p.min_inclusion_rate_denominator
    → NoWrap p c
    → NoWrap p d
    → c.ops_seen ≤ d.ops_seen
    → d.ops_included ≤ c.ops_included
    → count_status p c ≡ some x
    → count_status p d ≡ some y
    → severity x ≤ severity y
count_status_mono p c d x y h wc wd seen included ec ed = ground (
  arith,
  count_status_cases p c h wc,
  count_status_cases p d h wd,
  div_mono c.ops_seen d.ops_seen p.min_inclusion_rate_denominator h seen,
)

count_status-default :
    (p : ReputationParams)
    → 0 < p.min_inclusion_rate_denominator
    → count_status p default_count ≡ some ok
unfolding count_status
count_status-default p h = ground arith

-- An address with no entry is treated as one with no operations.
status_lem :
    (s : AddressReputation) (a : ℕ)
    → 0 < s.params.min_inclusion_rate_denominator
    → status s a ≡ (
        if contains a s.blocklist
        then some banned
        else if contains a s.allowlist
        then some ok
        else if s.params.tracking_enabled
        then count_status s.params (count_of s a)
        else some ok)
unfolding status
status_lem s a h = elim (Option-cases (get a s.counts)) [
  | inl e ↦ rw (e, status) (ground (arith, count_status-default s.params h))
  | inr (c, e) ↦ rw (e, status) (ground arith)
]

-- `status` never panics: with a denominator that is not zero it always answers.
status-ne-none : (s : AddressReputation) (a : ℕ) → IsValidParams s.params → status s a ≢ none
unfolding count_status
status-ne-none s a v = rw (status_lem s a v.denominator_pos) (ground (arith, v.denominator_pos))

-- An address is banned exactly when the blocklist has it, or when it stands on no list, tracking is on
-- and its expected inclusions, one for each `min_inclusion_rate_denominator` operations seen, exceed
-- its inclusions by more than each of the two slacks. The sums of `status` must not wrap.
pub status-banned_iff :
    (s : AddressReputation) (a : ℕ)
    → IsValidParams s.params
    → NoWrap s.params (count_of s a)
    → (status s a ≡ some banned) ↔ (
        (contains a s.blocklist ≡ true)
        ⊎ ((contains a s.allowlist ≡ false)
            × (s.params.tracking_enabled ≡ true)
            × Exceeds s.params s.params.throttling_slack (count_of s a)
            × Exceeds s.params s.params.ban_slack (count_of s a)))
status-banned_iff s a v w = rw (status_lem s a v.denominator_pos) (
    ground (
      arith,
      (count_status-banned_iff s.params (count_of s a) v.denominator_pos w).0,
      (count_status-banned_iff s.params (count_of s a) v.denominator_pos w).1,
    ))

-- The address that a call is about.
abbrev pub target : Call → Option ℕ
target (adds_seen a) = some a
target (decs_seen a) = some a
target (adds_included a) = some a
target (decs_included a) = some a
target (penalises_urep_030 a) = some a
target (penalises_srep_050 a) = some a
target (amends_erep_015 a v) = some a
target (sets_reputation a n m) = some a
target clears = none
target ticks = none
target (sets_tracking b) = none

set_count-status :
    (s : AddressReputation) (a b : ℕ) (c : AddressCount)
    → a ≢ b
    → status (record s { counts = insert a c s.counts }) b ≡ status s b
unfolding status
set_count-status s a b c h = ground (arith, get-insert a b c s.counts)

frame_of :
    (s t : AddressReputation) (x a b : ℕ) (c : AddressCount)
    → some x ≡ some a
    → a ≢ b
    → some (record s { counts = insert x c s.counts }) ≡ some t
    → status t b ≡ status s b
frame_of s t x a b c p h e =
    subst (λ u. status u b ≡ status s b) (some_inj e)
      (set_count-status s x b c (λ q. h (sym (some_inj p) ∙ q)))

-- A call about one address leaves the status of every other address as it was.
pub step-status_frame :
    (s t : AddressReputation) (c : Call) (a b : ℕ)
    → target c ≡ some a
    → a ≢ b
    → step s c ≡ some t
    → status t b ≡ status s b
unfolding step add_seen dec_seen add_included dec_included handle_urep_030_penalty
    handle_srep_050_penalty handle_erep_015_amendment set_reputation
step-status_frame s t (adds_seen x) a b p h e = frame_of s t x a b _ p h e
step-status_frame s t (decs_seen x) a b p h e = frame_of s t x a b _ p h e
step-status_frame s t (adds_included x) a b p h e = frame_of s t x a b _ p h e
step-status_frame s t (decs_included x) a b p h e = frame_of s t x a b _ p h e
step-status_frame s t (penalises_urep_030 x) a b p h e = frame_of s t x a b _ p h e
step-status_frame s t (penalises_srep_050 x) a b p h e = frame_of s t x a b _ p h e
step-status_frame s t (amends_erep_015 x v) a b p h e = frame_of s t x a b _ p h e
step-status_frame s t (sets_reputation x n m) a b p h e = frame_of s t x a b _ p h e
step-status_frame s t clears a b p h e = cc
step-status_frame s t ticks a b p h e = cc
step-status_frame s t (sets_tracking v) a b p h e = cc

-- Under the default parameters, the penalty for a staked entity that invalidates a bundle bans an
-- address which is on no list and has fewer than 950 operations included.
pub srep_050_bans :
    (s : AddressReputation) (a : ℕ)
    → s.params ≡ default_params
    → contains a s.blocklist ≡ false
    → contains a s.allowlist ≡ false
    → (count_of s a).ops_included < 950
    → status (handle_srep_050_penalty s a) a ≡ some banned
unfolding status count_status handle_srep_050_penalty
srep_050_bans s a e nb na h = grind (arith, get-insert)
