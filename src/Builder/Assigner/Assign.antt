-- ===== src/Builder/Assigner/Assign.antt =====
-- `assign_operations` of crates/builder/src/assigner.rs.
use rundler.Common.{
  ℕ, ◌≤◌, ◌<◌, ◌≡◌, ◌≢◌, refl, ◌∙◌, ◌⊎◌, inl, inr, true, false, Option, none, some, List, [], ◌∷◌,
  ◌++◌, nat_beq, nat_eq, leb, arith, Option-cases, Bool-cases, length, length-append, All,
  All-append, All-map, max, is_empty, nat_beq_iff,
}
use rundler.Common.HashMap.{HashMap, get-insert}
use rundler.Common.HashSet
use rundler.Common.HashSet.{HashSet, contains, Distinct, contains-insert, insert-Distinct}
use rundler.Builder.Assigner.{
  LockState, assigned, State, OpSummary, assign_loop, lock_sender, add_sender, Pool, Config,
  assign_operations,
}
use rundler.Builder.Assigner.Locks.{lock_of, senders_of, held_by, IsConsistent}

-- The state after the builder takes the sender.
abbrev pub taken : ℕ → ℕ → State → State
taken b x s = record {
  uo_sender_to_builder_state = (lock_sender b x s.uo_sender_to_builder_state).1;
  builder_to_uo_senders = add_sender b x s.builder_to_uo_senders;
}

insert-ne-empty : (x : ℕ) (s : HashSet ℕ) → HashSet.insert x s ≢ []
unfolding HashSet.insert contains
insert-ne-empty x [] e = absurd (ground arith)
insert-ne-empty x (y ∷ s) e = absurd (ground arith)

module _ (b x : ℕ) (s : State) (v : IsConsistent s)
    (own : (lock_sender b x s.uo_sender_to_builder_state).0 ≡ b) where
  taken-agree :
      (c y : ℕ) → contains y (senders_of (taken b x s) c) ≡ held_by c (lock_of (taken b x s) y)
  unfolding lock_sender add_sender
  taken-agree c y = ground (
    arith,
    v.agree c y,
    v.agree b y,
    get-insert b c (HashSet.insert x (senders_of s b)) s.builder_to_uo_senders,
    get-insert x y (b, assigned) s.uo_sender_to_builder_state,
    contains-insert x y (senders_of s b),
  )

  taken-IsConsistent : IsConsistent (taken b x s)
  unfolding add_sender
  taken-IsConsistent = record {
    agree = taken-agree;
    distinct = λ c. ground (
      arith,
      v.distinct c,
      insert-Distinct x (senders_of s b) (v.distinct b),
      get-insert b c (HashSet.insert x (senders_of s b)) s.builder_to_uo_senders,
    );
    nonempty = λ c e. absurd (
        ground (
          arith,
          v.nonempty c,
          insert-ne-empty x (senders_of s b),
          get-insert b c (HashSet.insert x (senders_of s b)) s.builder_to_uo_senders,
        ));
  }

-- A sender that another builder holds leaves the locks as they were.
lock_sender_skip :
    (b x : ℕ) (m : HashMap ℕ (ℕ × LockState))
    → nat_beq (lock_sender b x m).0 b ≡ false
    → (lock_sender b x m).1 ≡ m
unfolding lock_sender
lock_sender_skip b x m h = ground arith

-- The rule for the loop: what holds at the start and is kept by each operation taken holds at the end.
pub assign_loop_inv :
    (P : State → List OpSummary → Type 0) (n b : ℕ)
    → ((s : State) (acc : List OpSummary) (op : OpSummary)
        → (lock_sender b op.sender s.uo_sender_to_builder_state).0 ≡ b
        → P s acc
        → P (taken b op.sender s) (acc ++ op ∷ []))
    → (s : State) (acc ops : List OpSummary) → P s acc
    → P (assign_loop n b s acc ops).0 (assign_loop n b s acc ops).1
unfolding assign_loop
assign_loop_inv P n b keep s acc [] p = p
assign_loop_inv P n b keep s acc (op ∷ ops) p =
    elim (Bool-cases (nat_beq (lock_sender b op.sender s.uo_sender_to_builder_state).0 b)) [
      | inr other ↦
          rw (other, lock_sender_skip b op.sender s.uo_sender_to_builder_state other)
            (assign_loop_inv P n b keep s acc ops p)
      | inl own ↦
          let q = keep s acc op ((nat_beq_iff _ b).0 own) p in
          elim (Bool-cases (leb n (length (acc ++ op ∷ [])))) [
            | inl full ↦ rw (own, full) q
            | inr more ↦
                rw (own, more)
                  (assign_loop_inv P n b keep (taken b op.sender s) (acc ++ op ∷ []) ops q)
          ]
    ]

-- A lock stays as it was, or a free sender is now assigned to `b`.
abbrev pub Kept : ℕ → Option (ℕ × LockState) → Option (ℕ × LockState) → Type 0
Kept b v w = (w ≡ v) ⊎ ((v ≡ none) × (w ≡ some (b, assigned)))

-- What the loop keeps, from the state `start` on.
record Progress (start : State) (b : ℕ) (s : State) (acc : List OpSummary) : Type 0 where
  consistent : IsConsistent s
  held : All (λ op. held_by b (lock_of s op.sender) ≡ true) acc
  kept : (y : ℕ) → Kept b (lock_of start y) (lock_of s y)

taken-Kept : (b x : ℕ) (s : State) (y : ℕ) → Kept b (lock_of s y) (lock_of (taken b x s) y)
unfolding lock_sender
taken-Kept b x s y = ground (arith, get-insert x y (b, assigned) s.uo_sender_to_builder_state)

taken-held :
    (b x : ℕ) (s : State)
    → (lock_sender b x s.uo_sender_to_builder_state).0 ≡ b
    → held_by b (lock_of (taken b x s) x) ≡ true
unfolding lock_sender
taken-held b x s own = ground (arith, get-insert x x (b, assigned) s.uo_sender_to_builder_state)

Kept-trans : (b : ℕ) (u v w : Option (ℕ × LockState)) → Kept b u v → Kept b v w → Kept b u w
Kept-trans b u v w p q = ground arith

Kept-held :
    (b : ℕ) (v w : Option (ℕ × LockState)) → Kept b v w → held_by b v ≡ true → held_by b w ≡ true
Kept-held b v w k h = ground arith

Progress-taken :
    (start : State) (b : ℕ) (s : State) (acc : List OpSummary) (op : OpSummary)
    → (lock_sender b op.sender s.uo_sender_to_builder_state).0 ≡ b
    → Progress start b s acc
    → Progress start b (taken b op.sender s) (acc ++ op ∷ [])
Progress-taken start b s acc op own p = record {
  consistent = taken-IsConsistent b op.sender s p.consistent own;
  held =
      All-append (λ o. held_by b (lock_of (taken b op.sender s) o.sender) ≡ true) acc (op ∷ [])
        (All-map
          (λ o h.
            Kept-held b (lock_of s o.sender) (lock_of (taken b op.sender s) o.sender)
              (taken-Kept b op.sender s o.sender) h)
          acc p.held)
        (taken-held b op.sender s own, tt);
  kept = λ y.
      Kept-trans b (lock_of start y) (lock_of s y) (lock_of (taken b op.sender s) y) (p.kept y)
        (taken-Kept b op.sender s y);
}

assign_loop-Progress :
    (n b : ℕ) (s : State) (ops : List OpSummary)
    → IsConsistent s
    → Progress s b (assign_loop n b s [] ops).0 (assign_loop n b s [] ops).1
assign_loop-Progress n b s ops v =
    assign_loop_inv (Progress s b) n b (Progress-taken s b) s [] ops
      (record { consistent = v; held = tt; kept = λ y. inl refl })

length-assign_loop :
    (n b : ℕ) (s : State) (acc ops : List OpSummary)
    → length acc < max 1 n
    → length (assign_loop n b s acc ops).1 ≤ max 1 n
unfolding assign_loop
length-assign_loop n b s acc [] h = omega arith
length-assign_loop n b s acc (op ∷ ops) h =
    elim (Bool-cases (nat_beq (lock_sender b op.sender s.uo_sender_to_builder_state).0 b)) [
      | inr other ↦
          rw (other, lock_sender_skip b op.sender s.uo_sender_to_builder_state other)
            (length-assign_loop n b s acc ops h)
      | inl own ↦ elim (Bool-cases (leb n (length (acc ++ op ∷ [])))) [
        | inl full ↦ rw (own, full) (omega (arith, length-append acc (op ∷ [])))
        | inr more ↦
            rw (own, more)
              (length-assign_loop n b (taken b op.sender s) (acc ++ op ∷ []) ops
                (ground (arith, length-append acc (op ∷ []))))
      ]
    ]

-- The operations that a builder is given: each one's sender is locked to the builder and is in the set
-- of this builder only, and there are at most `max_bundle_size` of them, or one if that is zero.
pub assign_loop_exclusive :
    (n b : ℕ) (s : State) (ops : List OpSummary)
    → IsConsistent s
    → let (t, out) = assign_loop n b s [] ops in
      All
        (λ op.
          (held_by b (lock_of t op.sender) ≡ true)
          × ((c : ℕ) → contains op.sender (senders_of t c) ≡ nat_beq b c))
        out
      × (length out ≤ max 1 n)
assign_loop_exclusive n b s ops v = (
  All-map
      (λ op h. (
        h,
        λ c.
            p.consistent.agree c op.sender
            ∙ owner_only (lock_of (assign_loop n b s [] ops).0 op.sender) c h,
      ))
      (assign_loop n b s [] ops).1 p.held,
  length-assign_loop n b s [] ops (omega arith),
)
  where
    p : Progress s b (assign_loop n b s [] ops).0 (assign_loop n b s [] ops).1
    p = assign_loop-Progress n b s ops v

    owner_only :
        (v : Option (ℕ × LockState)) (c : ℕ) → held_by b v ≡ true → held_by c v ≡ nat_beq b c
    owner_only v c h = ground arith

-- Whatever the pool answers, `assign_operations` keeps the two maps consistent, changes no lock that
-- was held, and locks free senders to its own builder only.
pub assign_operations-IsConsistent :
    {PoolOperation : Type 0} (pool : Pool PoolOperation) (config : Config) (s : State)
    (b entry_point : ℕ) (filter_id : Option ℕ)
    → IsConsistent s
    → let t = (assign_operations pool config s b entry_point filter_id).0 in
      IsConsistent t × ((y : ℕ) → Kept b (lock_of s y) (lock_of t y))
unfolding assign_operations
assign_operations-IsConsistent pool config s b entry_point filter_id v =
    elim (Option-cases
      (pool.get_ops_summaries entry_point config.max_pool_ops_per_request filter_id)) [
        | inl e ↦ rw (e, assign_operations) (v, λ y. inl refl)
        | inr (ops, e) ↦
            let p = assign_loop-Progress config.max_bundle_size b s ops v in
            elim (Bool-cases (is_empty (assign_loop config.max_bundle_size b s [] ops).1)) [
              | inl none_left ↦ rw (e, assign_operations, none_left) (p.consistent, p.kept)
              | inr some_left ↦ rw (e, assign_operations, some_left) (p.consistent, p.kept)
            ]
      ]
