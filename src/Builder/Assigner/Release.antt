-- ===== src/Builder/Assigner/Release.antt =====
-- `release_all` of crates/builder/src/assigner.rs.
use rundler.Common.{
  ℕ, ◌≡◌, ◌≢◌, refl, inl, inr, none, some, List, [], ◌∷◌, nat_beq, nat_eq, if◌then◌else◌, arith,
  Option-cases,
}
use rundler.Common.HashMap.{HashMap, get, remove, get-remove}
use rundler.Common.HashSet.{contains}
use rundler.Builder.Assigner.{LockState, State, release_all, remove_all}
use rundler.Builder.Assigner.Locks.{lock_of, senders_of, held_by, IsConsistent}

get-remove_all :
    (m : HashMap ℕ (ℕ × LockState)) (xs : List ℕ) (y : ℕ)
    → get y (remove_all m xs) ≡ (if contains y xs then none else get y m)
unfolding remove_all contains
get-remove_all m [] y = refl
get-remove_all m (x ∷ xs) y = rw (get-remove_all (remove x m) xs y, get-remove x y m) (ground arith)

-- Exactly the locks of the builder are dropped, and its set with them.
pub release_all_lem :
    (s : State) (b : ℕ)
    → IsConsistent s
    → let t = release_all s b in
      ((y : ℕ) → lock_of t y ≡ (if held_by b (lock_of s y) then none else lock_of s y))
      × ((c : ℕ) → senders_of t c ≡ (if nat_beq b c then [] else senders_of s c))
unfolding release_all contains
release_all_lem s b v = elim (Option-cases (get b s.builder_to_uo_senders)) [
  | inl e ↦ rw (e, release_all) (λ y. ground (arith, v.agree b y), λ c. ground arith)
  | inr (xs, e) ↦
      rw (e, release_all)
        (
          λ y. ground (arith, v.agree b y, get-remove_all s.uo_sender_to_builder_state xs y),
          λ c. ground (arith, get-remove b c s.builder_to_uo_senders),
        )
]

release_all-nonempty :
    (s : State) (b c : ℕ) → IsConsistent s → get c (release_all s b).builder_to_uo_senders ≢ some []
unfolding release_all
release_all-nonempty s b c v e =
    absurd (ground (arith, v.nonempty c, get-remove b c s.builder_to_uo_senders))

pub release_all-IsConsistent : (s : State) (b : ℕ) → IsConsistent s → IsConsistent (release_all s b)
unfolding contains
release_all-IsConsistent s b v = record {
  agree = λ c y.
      ground
        (arith, (release_all_lem s b v).0 y, (release_all_lem s b v).1 c, v.agree c y, v.agree b y);
  distinct = λ c. ground (arith, (release_all_lem s b v).1 c, v.distinct c);
  nonempty = λ c. release_all-nonempty s b c v;
}
