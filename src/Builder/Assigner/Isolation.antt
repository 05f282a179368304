-- ===== src/Builder/Assigner/Isolation.antt =====
-- The locks of the other builders under the operations of crates/builder/src/assigner.rs.
use rundler.Common.{
  ℕ, ◌≡◌, refl, ap, ◌∙◌, inl, inr, true, Option, none, some, List, nat_eq, if◌then◌else◌, arith,
  Option-cases, All,
}
use rundler.Common.HashMap.{get}
use rundler.Common.HashSet.{contains}
use rundler.Builder.Assigner.{
  LockState, State, Pool, Config, assign_operations, confirm_senders_drop_unused, release_all,
}
use rundler.Builder.Assigner.Locks.{lock_of, held_by, IsConsistent}
use rundler.Builder.Assigner.Assign.{Kept, assign_operations-IsConsistent}
use rundler.Builder.Assigner.Confirm.{confirmed_lock, All-contains, confirm_senders_drop_unused_lem}
use rundler.Builder.Assigner.Release.{release_all_lem, release_all-IsConsistent}

-- A lock as the other builders see it: one of builder `b` counts as none.
abbrev pub elsewhere : ℕ → Option (ℕ × LockState) → Option (ℕ × LockState)
elsewhere b v = if held_by b v then none else v

-- From `s` to `t` the maps stay consistent and no lock of a builder other than `b` is made, changed or
-- dropped.
pub record Isolated (b : ℕ) (s t : State) : Type 0 where
  pub consistent : IsConsistent t
  pub others : (y : ℕ) → elsewhere b (lock_of t y) ≡ elsewhere b (lock_of s y)

pub Isolated-refl : (b : ℕ) (s : State) → IsConsistent s → Isolated b s s
Isolated-refl b s v = record { consistent = v; others = λ y. refl }

pub Isolated-trans : (b : ℕ) (s t u : State) → Isolated b s t → Isolated b t u → Isolated b s u
Isolated-trans b s t u p q = record {
  consistent = q.consistent;
  others = λ y. q.others y ∙ p.others y;
}

Kept-elsewhere : (b : ℕ) (v w : Option (ℕ × LockState)) → Kept b v w → elsewhere b w ≡ elsewhere b v
Kept-elsewhere b v w k = ground arith

pub assign_operations-Isolated :
    {PoolOperation : Type 0} (pool : Pool PoolOperation) (config : Config) (s : State)
    (b entry_point : ℕ) (filter_id : Option ℕ)
    → IsConsistent s
    → Isolated b s (assign_operations pool config s b entry_point filter_id).0
assign_operations-Isolated pool config s b entry_point filter_id v =
    let (c, kept) = assign_operations-IsConsistent pool config s b entry_point filter_id v in
    record {
      consistent = c;
      others = λ y.
          Kept-elsewhere b (lock_of s y)
            (lock_of (assign_operations pool config s b entry_point filter_id).0 y) (kept y);
    }

released-elsewhere :
    (b : ℕ) (v w : Option (ℕ × LockState))
    → w ≡ (if held_by b v then none else v)
    → elsewhere b w ≡ elsewhere b v
released-elsewhere b v w e = ground arith

pub release_all-Isolated : (s : State) (b : ℕ) → IsConsistent s → Isolated b s (release_all s b)
release_all-Isolated s b v = record {
  consistent = release_all-IsConsistent s b v;
  others = λ y.
      released-elsewhere b (lock_of s y) (lock_of (release_all s b) y)
        ((release_all_lem s b v).0 y);
}

has_entry :
    (s : State) (b x : ℕ)
    → IsConsistent s
    → held_by b (lock_of s x) ≡ true
    → (own : List ℕ) × (get b s.builder_to_uo_senders ≡ some own)
unfolding contains
has_entry s b x v h = elim (Option-cases (get b s.builder_to_uo_senders)) [
  | inl e ↦ absurd (ground (arith, v.agree b x))
  | inr (own, e) ↦ (own, e)
]

confirmed-elsewhere :
    (b : ℕ) (cs : List ℕ) (s : State) (y : ℕ)
    → All (λ x. held_by b (lock_of s x) ≡ true) cs
    → elsewhere b (confirmed_lock b cs s y) ≡ elsewhere b (lock_of s y)
confirmed-elsewhere b cs s y held =
    ground (arith, All-contains (λ x. held_by b (lock_of s x) ≡ true) cs y held)

-- A builder that holds a lock can confirm senders that it holds.
pub confirm_senders_drop_unused-Isolated :
    (s : State) (b x : ℕ) (cs : List ℕ)
    → IsConsistent s
    → held_by b (lock_of s x) ≡ true
    → All (λ y. held_by b (lock_of s y) ≡ true) cs
    → (t : State) × (confirm_senders_drop_unused s b cs ≡ some t) × Isolated b s t
unfolding contains
confirm_senders_drop_unused-Isolated s b x cs v h held =
    let (own, e) = has_entry s b x v h in
    let (t, done, c, locks) = confirm_senders_drop_unused_lem s b cs own v e held in
    (
      t,
      done,
      record {
        consistent = c;
        others = λ y. ap (λ l. elsewhere b l) (locks y) ∙ confirmed-elsewhere b cs s y held;
      },
    )
