-- ===== src/Mempool/Reputation/Examples.antt =====
-- Tests of the reputation, and its theorems at concrete inputs.
use rundler.Common.{
  ◌≤◌, ◌≡◌, refl, ◌⊎◌, ◌↔◌, true, false, some, none, List, [], ◌∷◌, arith, nat_eq, replicate,
}
use rundler.Common.HashMap.{get, insert, map_values, retain}
use rundler.Common.HashSet.{contains}
use rundler.Mempool.Reputation.{
  banned, AddressReputation, default_params, new, status, count_status, count_of, update, step, run,
  get_ops_allowed, handle_srep_050_penalty, set_reputation, add_included, Call, adds_seen,
  penalises_srep_050, ticks, sets_reputation, decay, is_live, add_seen,
}
use rundler.Mempool.Reputation.Invariant.{IsValidParams, IsValid, decayed, update-decayed}
use rundler.Mempool.Reputation.Status.{status-banned_iff, step-status_frame, srep_050_bans, Exceeds}
use rundler.Mempool.Reputation.Decay.{IsZero, update-forgets_iff, ticks_remember}
use rundler.Mempool.Reputation.Limits.{get_ops_allowed_mono}

-- Address 7 was seen 600 times and included once; address 8 is new, 9 is blocked.
abbrev busy : AddressReputation
busy = record {
  blocklist = 9 ∷ [];
  allowlist = 5 ∷ [];
  counts = (7, record { ops_seen = 700; ops_included = 1 }) ∷ [];
  params = default_params;
}

default_IsValid : IsValidParams default_params
default_IsValid = omega arith

busy-IsValid : IsValid busy
unfolding get
busy-IsValid = record {
  params_valid = default_IsValid;
  distinct = (refl, tt);
  ranged = omega arith;
}

status_test : status busy 7 ≡ some banned
unfolding status count_status get contains
status_test = refl

history : List Call
history = sets_reputation 3 240 1 ∷ ticks ∷ adds_seen 3 ∷ penalises_srep_050 4 ∷ []

history_test :
    run (new default_params [] []) history
    ≡ some (record {
      blocklist = [];
      allowlist = [];
      counts =
          (3, record { ops_seen = 231; ops_included = 1 })
          ∷ (4, record { ops_seen = 10000; ops_included = 0 })
          ∷ [];
      params = default_params;
    })
unfolding run history step new set_reputation add_seen handle_srep_050_penalty update decay is_live
    get insert map_values retain
history_test = refl

status-banned_iff_example : (status busy 7 ≡ some banned) ↔ (
    (contains 7 busy.blocklist ≡ true)
    ⊎ ((contains 7 busy.allowlist ≡ false)
        × (busy.params.tracking_enabled ≡ true)
        × Exceeds busy.params busy.params.throttling_slack (count_of busy 7)
        × Exceeds busy.params busy.params.ban_slack (count_of busy 7)))
unfolding get
status-banned_iff_example = status-banned_iff busy 7 default_IsValid (omega arith, omega arith)

step-status_frame_example : status (add_seen busy 8) 7 ≡ status busy 7
unfolding step
step-status_frame_example =
    step-status_frame busy (add_seen busy 8) (adds_seen 8) 8 7 refl (omega arith) refl

srep_050_bans_example : status (handle_srep_050_penalty busy 7) 7 ≡ some banned
unfolding contains get
srep_050_bans_example = srep_050_bans busy 7 refl refl refl (omega arith)

update-forgets_iff_example : (get 7 (decayed busy).counts ≡ none) ↔ IsZero (count_of busy 7)
update-forgets_iff_example =
    update-forgets_iff busy (decayed busy) 7 busy-IsValid (omega arith)
      (update-decayed busy busy-IsValid)

ticks_remember_example :
    (t : AddressReputation) × (run busy (replicate 3 ticks) ≡ some t) × (¬ IsZero (count_of t 7))
unfolding get
ticks_remember_example = ticks_remember 3 busy 7 busy-IsValid (omega arith) (λ z. omega arith)

get_ops_allowed_mono_example :
    (10 ≤ get_ops_allowed busy 7)
    × (get_ops_allowed busy 7 ≤ get_ops_allowed (add_included busy 7) 7)
unfolding get add_included insert
get_ops_allowed_mono_example =
    get_ops_allowed_mono busy (add_included busy 7) 7 7 refl (omega arith) (omega arith)
      (omega arith) (omega arith) (omega arith)
