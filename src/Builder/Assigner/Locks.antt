-- ===== src/Builder/Assigner/Locks.antt =====
-- What the two maps of the assigner (crates/builder/src/assigner.rs) say of each other.
use rundler.Common.{
  ℕ, ◌≡◌, ◌≢◌, refl, Bool, false, Option, none, some, [], nat_beq, nat_eq, get_or, arith,
}
use rundler.Common.HashMap.{get}
use rundler.Common.HashSet.{HashSet, contains, Distinct}
use rundler.Builder.Assigner.{LockState, State, initial}

-- The lock on a sender.
abbrev pub lock_of : State → ℕ → Option (ℕ × LockState)
lock_of s x = get x s.uo_sender_to_builder_state

-- The senders of a builder.
abbrev pub senders_of : State → ℕ → HashSet ℕ
senders_of s b = get_or (get b s.builder_to_uo_senders) []

abbrev pub held_by : ℕ → Option (ℕ × LockState) → Bool
held_by b none = false
held_by b (some (owner, _)) = nat_beq owner b

-- A builder's set has exactly the senders that are locked to it, no sender twice, and only builders
-- with a sender have an entry.
pub record IsConsistent (s : State) : Type 0 where
  pub agree : (b x : ℕ) → contains x (senders_of s b) ≡ held_by b (lock_of s x)
  pub distinct : (b : ℕ) → Distinct (senders_of s b)
  pub nonempty : (b : ℕ) → get b s.builder_to_uo_senders ≢ some []

pub initial-IsConsistent : IsConsistent initial
unfolding get contains
initial-IsConsistent = record {
  agree = λ b x. refl;
  distinct = λ b. tt;
  nonempty = λ b e. absurd (ground arith);
}
